-- ===== src/Naming/History.antt =====
-- The members of `Shape` that look at its modelling history, and the predicates of
-- src/geoml/predicates/predicate_functions.cpp.
use Prim.Native.String.{String}
use text.Mathlib.Text.{◌==◌ as str_eq}
use geoml.Common.{
  ℕ, ◌≡◌, ◌↔◌, sym, ◌∙◌, ap, Bool, true, false, not, ◌&&◌, ◌||◌, List, arith, any, In-any, any-In,
  ltb, length,
}
use geoml.Naming.{Occt, Heap, Predicate}
use geoml.Naming.Visitor.{find_if_visit, met, accept-find_if}
use geoml.Naming.Reach.{Within, met-Within, Within-met}
use geoml.Naming.Queries.{
  int_max, children_of, origins_of, accept_history_visitor, has_subshape_that, is_same,
  has_subshape, get_subshapes,
}

module _ {Topo Criterion : Type 0} where
  unfoldable pub has_origin : Heap Topo Criterion → ℕ → Bool
  has_origin h s = ltb 0 (length (origins_of h s))

  -- `std::find_if` over the tags.
  unfoldable pub has_tag : String → Heap Topo Criterion → ℕ → Bool
  has_tag tag h s = any (λ t. str_eq t tag) (h.cell s).persistent_meta_tags

module _ {Topo Criterion : Type 0} (occt : Occt Topo) where
  unfoldable pub is_descendent_of : (other max_depth : ℕ) → Heap Topo Criterion → ℕ → Bool
  unfolding accept_history_visitor find_if_visit is_same
  is_descendent_of other max_depth h s =
      (accept_history_visitor h (find_if_visit (is_same occt other h) max_depth) max_depth false
        s).1

  -- The next two members call `is_descendent_of(other)` with its default depth.
  unfoldable pub is_unmodified_descendent_of :
      (other max_depth : ℕ) → Heap Topo Criterion → ℕ → Bool
  unfolding is_descendent_of int_max
  is_unmodified_descendent_of other max_depth h s =
      is_same occt other h s && is_descendent_of other int_max h s

  unfoldable pub is_modified_descendent_of : (other max_depth : ℕ) → Heap Topo Criterion → ℕ → Bool
  unfolding is_descendent_of int_max
  is_modified_descendent_of other max_depth h s =
      not (is_same occt other h s) && is_descendent_of other int_max h s

  unfoldable pub is_ancestor_of : (other max_depth : ℕ) → Heap Topo Criterion → ℕ → Bool
  unfolding is_descendent_of int_max
  is_ancestor_of other max_depth h s = is_descendent_of s int_max h other

  unfoldable pub is_descendent_of_subshape_in :
      (other max_depth : ℕ) → Heap Topo Criterion → ℕ → Bool
  unfolding is_ancestor_of has_subshape_that
  is_descendent_of_subshape_in other max_depth h s =
      has_subshape_that (λ g t. is_ancestor_of s int_max g t) h other

  -- The loops over `other.get_subshapes()`, a new compound that is dropped at the end.
  module _ (hash_order : List ℕ → List ℕ) where
    unfoldable pub is_unmodified_descendent_of_subshape_in :
        (other max_depth : ℕ) → Heap Topo Criterion → ℕ → Bool
    unfolding get_subshapes is_unmodified_descendent_of
    is_unmodified_descendent_of_subshape_in other max_depth h s =
        let (c, g) = get_subshapes occt hash_order h other in
        any (λ t. is_unmodified_descendent_of t max_depth g s) (children_of g c)

    unfoldable pub is_modified_descendent_of_subshape_in :
        (other max_depth : ℕ) → Heap Topo Criterion → ℕ → Bool
    unfolding get_subshapes is_modified_descendent_of
    is_modified_descendent_of_subshape_in other max_depth h s =
        let (c, g) = get_subshapes occt hash_order h other in
        any (λ t. is_modified_descendent_of t max_depth g s) (children_of g c)

-- The combinators of predicates.
module _ {Topo Criterion : Type 0} where
  unfoldable pub predicate_and :
      Predicate Topo Criterion → Predicate Topo Criterion → Predicate Topo Criterion
  predicate_and l r h s = l h s && r h s

  unfoldable pub predicate_or :
      Predicate Topo Criterion → Predicate Topo Criterion → Predicate Topo Criterion
  predicate_or l r h s = l h s || r h s

  unfoldable pub predicate_not : Predicate Topo Criterion → Predicate Topo Criterion
  predicate_not p h s = not (p h s)

  unfoldable pub predicate_is_subshape_of : Occt Topo → ℕ → Predicate Topo Criterion
  unfolding has_subshape
  predicate_is_subshape_of occt other h s = has_subshape occt s h other

  unfoldable pub predicate_has_subshape_that : Predicate Topo Criterion → Predicate Topo Criterion
  unfolding has_subshape_that
  predicate_has_subshape_that f h s = has_subshape_that f h s

module _ {Topo Criterion : Type 0} (occt : Occt Topo) (h : Heap Topo Criterion) where
  -- `is_descendent_of` holds exactly if a chain of at most `d` modelling steps leads back to a shape
  -- that is the same as the other one.
  pub is_descendent_of_iff :
      (other d s : ℕ)
      → (is_descendent_of occt other d h s ≡ true)
        ↔ ((t : ℕ) × Within (origins_of h) d s t × (is_same occt other h t ≡ true))
  is_descendent_of_iff other d s = (forth, back)
    where
      lem : is_descendent_of occt other d h s ≡ any (is_same occt other h) (met (origins_of h) d s)
      lem =
          unfold is_descendent_of in
          ap (λ (r : Bool × Bool). r.1)
            (accept-find_if (origins_of h) (is_same occt other h) d d false s 0 (omega arith))

      forth :
          is_descendent_of occt other d h s ≡ true
          → (t : ℕ) × Within (origins_of h) d s t × (is_same occt other h t ≡ true)
      forth e =
          let (t, i, q) = any-In (is_same occt other h) (met (origins_of h) d s) (sym lem ∙ e) in
          (t, met-Within (origins_of h) d s t i, q)

      back :
          (t : ℕ) × Within (origins_of h) d s t × (is_same occt other h t ≡ true)
          → is_descendent_of occt other d h s ≡ true
      back (t, w, q) = lem ∙ In-any _ t _ (Within-met (origins_of h) d s t w) q
