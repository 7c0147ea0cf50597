-- ===== src/Naming/Queries.antt =====
-- The members of `Shape` that look at its topology (Shape.h, Shape.cpp).
use geoml.Common.{
  ℕ, ◌-◌, ◌^◌, Bool, true, false, not, ◌&&◌, List, [], ◌∷◌, map, ◌==◌, if◌then◌else◌, length,
  get_elem?, Option,
}
use geoml.Common.Result.{Result, ok, err}
use geoml.Naming.{
  Occt, Heap, Predicate, ShapeEnum, compound, shape_enum_eq, ShapeError, not_a_compound,
  not_exactly_one_child, write, new_shape,
}
use geoml.Naming.Visitor.{accept_visitor, find_if_visit, find_visit}

-- `std::numeric_limits<int>::max()`
unfoldable pub int_max : ℕ
int_max = 2 ^ 31 - 1

module _ {Topo Criterion : Type 0} where
  -- The edges that the two visitors follow.
  abbrev pub children_of : Heap Topo Criterion → ℕ → List ℕ
  children_of h s = (h.cell s).children

  abbrev pub origins_of : Heap Topo Criterion → ℕ → List ℕ
  origins_of h s = (h.cell s).origins

  -- From depth 0, with `max_depth` levels left.
  unfoldable pub accept_topology_visitor {ℓ} :
      {V : Type ℓ} → Heap Topo Criterion → (V → ℕ → ℕ → Bool × V) → ℕ → V → ℕ → Bool × V
  unfolding accept_visitor
  accept_topology_visitor h visit max_depth v s =
      accept_visitor (children_of h) visit max_depth v s 0

  unfoldable pub accept_history_visitor {ℓ} :
      {V : Type ℓ} → Heap Topo Criterion → (V → ℕ → ℕ → Bool × V) → ℕ → V → ℕ → Bool × V
  unfolding accept_visitor
  accept_history_visitor h visit max_depth v s = accept_visitor (origins_of h) visit max_depth v s 0

  -- `children[i]`
  unfoldable pub child : Heap Topo Criterion → ℕ → ℕ → Option ℕ
  child h s i = get_elem? (children_of h s) i

  unfoldable pub has_subshape_that : Predicate Topo Criterion → Heap Topo Criterion → ℕ → Bool
  unfolding accept_topology_visitor find_if_visit int_max
  has_subshape_that f h s =
      (accept_topology_visitor h (find_if_visit (f h) int_max) int_max false s).1

-- The guards of `unique_element`, on the vector of children.
only_child : List ℕ → Result ShapeError ℕ
only_child (c ∷ []) = ok c
only_child cs = err (not_exactly_one_child (length cs))

only_child_or : ℕ → List ℕ → ℕ
only_child_or other (c ∷ []) = c
only_child_or other cs = other

module _ {Topo Criterion : Type 0} (occt : Occt Topo) where
  unfoldable pub is_null : Heap Topo Criterion → ℕ → Bool
  is_null h s = occt.is_null (h.cell s).shape

  unfoldable pub is_type : ShapeEnum → Heap Topo Criterion → ℕ → Bool
  unfolding shape_enum_eq
  is_type t h s = shape_enum_eq (occt.shape_type (h.cell s).shape) t

  unfoldable pub is_same : ℕ → Heap Topo Criterion → ℕ → Bool
  is_same other h s = occt.is_same (h.cell s).shape (h.cell other).shape

  unfoldable pub size : Heap Topo Criterion → ℕ → ℕ
  unfolding is_null is_type
  size h s = if is_null h s then 0 else if is_type compound h s then length (children_of h s) else 1

  unfoldable pub is_empty : Heap Topo Criterion → ℕ → Bool
  unfolding size
  is_empty h s = size h s == 0

  unfoldable pub unique_element : Heap Topo Criterion → ℕ → Result ShapeError ℕ
  unfolding is_type only_child
  unique_element h s =
      if not (is_type compound h s) then err not_a_compound else only_child (children_of h s)

  unfoldable pub unique_element_or : Heap Topo Criterion → ℕ → ℕ → ℕ
  unfolding is_type only_child_or
  unique_element_or h s other =
      if is_type compound h s then only_child_or other (children_of h s) else other

  unfoldable pub has_subshape : ℕ → Heap Topo Criterion → ℕ → Bool
  unfolding has_subshape_that is_same
  has_subshape shape h s = has_subshape_that (is_same shape) h s

  -- The set of a `FindVisitor` after its visit of the topology.
  unfoldable pub find_results :
      Predicate Topo Criterion → (max_depth : ℕ) → Heap Topo Criterion → ℕ → List ℕ
  unfolding accept_topology_visitor find_visit is_same
  find_results f max_depth h s =
      (accept_topology_visitor h (find_visit (λ r t. is_same t h r) (f h) max_depth) max_depth []
        s).1

  -- `hash_order` is the order in which the unordered set hands out its members.
  module _ (hash_order : List ℕ → List ℕ) where
    unfoldable pub select_subshapes :
        Predicate Topo Criterion
        → (max_depth : ℕ) → Heap Topo Criterion
        → ℕ
        → ℕ × Heap Topo Criterion
    unfolding find_results new_shape write
    select_subshapes f max_depth h s =
        let results = hash_order (find_results f max_depth h s) in
        let (c, g) = new_shape occt (occt.make_compound (map (λ r. (h.cell r).shape) results)) h in
        (c, write g c (record (g.cell c) { children = results }))

    unfoldable pub filter :
        Predicate Topo Criterion → Heap Topo Criterion → ℕ → ℕ × Heap Topo Criterion
    unfolding select_subshapes
    filter f h s = select_subshapes (λ g t. not (is_same s g t) && f g t) 1 h s

    unfoldable pub get_subshapes : Heap Topo Criterion → ℕ → ℕ × Heap Topo Criterion
    unfolding select_subshapes
    get_subshapes h s = select_subshapes (λ g t. true) int_max h s
