-- ===== src/Naming/Subshapes.antt =====
-- What `has_subshape_that`, `select_subshapes` and the constructor of `Shape` do, against paths in the
-- topology.
use geoml.Common.{
  ℕ, zero, suc, ◌≤◌, ◌<◌, ◌≡◌, ◌↔◌, inl, inr, refl, sym, ◌∙◌, ap, subst, Bool, true, false, List,
  [], ◌∷◌, arith, any, select, In, In-select, select-In, In-any, any-In, map,
}
use geoml.Naming.{Occt, Heap, ShapeData, Predicate, allocate, build, build_all, new_shape}
use geoml.Naming.Visitor.{met, insert_all, accept-find_if, accept-find}
use geoml.Naming.Reach.{
  Within, met-Within, Within-met, insert_all-In, insert_all-same, insert_all-Distinct,
  Distinct-unique,
}
use geoml.Naming.Queries.{
  int_max, children_of, has_subshape_that, is_same, find_results, select_subshapes,
}

module _ {Topo Criterion : Type 0} where
  -- `has_subshape_that` holds exactly if some shape in the topology below satisfies the predicate.
  pub has_subshape_that_iff :
      (f : Predicate Topo Criterion) (h : Heap Topo Criterion) (s : ℕ)
      → (has_subshape_that f h s ≡ true)
        ↔ ((t : ℕ) × Within (children_of h) int_max s t × (f h t ≡ true))
  has_subshape_that_iff f h s = (forth, back)
    where
      lem : has_subshape_that f h s ≡ any (f h) (met (children_of h) int_max s)
      lem =
          unfold has_subshape_that in
          ap (λ (r : Bool × Bool). r.1)
            (accept-find_if (children_of h) (f h) int_max int_max false s 0 (omega arith))

      forth :
          has_subshape_that f h s ≡ true
          → (t : ℕ) × Within (children_of h) int_max s t × (f h t ≡ true)
      forth e =
          let (t, i, q) = any-In (f h) (met (children_of h) int_max s) (sym lem ∙ e) in
          (t, met-Within (children_of h) int_max s t i, q)

      back :
          (t : ℕ) × Within (children_of h) int_max s t × (f h t ≡ true)
          → has_subshape_that f h s ≡ true
      back (t, w, q) = lem ∙ In-any (f h) t _ (Within-met (children_of h) int_max s t w) q

  -- `g` is `h` with more cells.
  pub record Extends (h g : Heap Topo Criterion) : Type 0 where
    pub next_le : h.next ≤ g.next
    pub kept : (a : ℕ) → a < h.next → g.cell a ≡ h.cell a

  Extends-trans : (h g k : Heap Topo Criterion) → Extends h g → Extends g k → Extends h k
  Extends-trans h g k x y = record {
    next_le = omega (arith, x.next_le, y.next_le);
    kept = λ a b. y.kept a (omega (arith, x.next_le)) ∙ x.kept a b;
  }

  -- A new shape at a fresh address.
  abbrev pub Fresh : Heap Topo Criterion → ℕ × Heap Topo Criterion → Type 0
  Fresh h (s, g) = Extends h g × (h.next ≤ s) × (s < g.next)

  allocate-Fresh :
      (h : Heap Topo Criterion) (d : ShapeData Topo Criterion)
      → Fresh h (allocate h d) × ((allocate h d).1.cell (allocate h d).0 ≡ d)
  unfolding allocate
  allocate-Fresh h d = (
    (record { next_le = omega arith; kept = λ a b. ground arith }, omega arith, omega arith),
    ground arith,
  )

module _ {Topo Criterion : Type 0} (occt : Occt Topo) where
  build_all-Extends :
      (b : Topo → Heap Topo Criterion → ℕ × Heap Topo Criterion)
      → ((t : Topo) (g : Heap Topo Criterion) → Extends g (b t g).1)
      → (ts : List Topo) (h : Heap Topo Criterion) → Extends h (build_all occt b ts h).1
  unfolding build_all
  build_all-Extends b x [] h = record { next_le = omega arith; kept = λ a b. refl }
  build_all-Extends b x (t ∷ ts) h =
      Extends-trans h (b t h).1 _ (x t h) (build_all-Extends b x ts (b t h).1)

  Fresh-later :
      (h g : Heap Topo Criterion) (d : ShapeData Topo Criterion)
      → Extends h g
      → Fresh h (allocate g d)
  Fresh-later h g d x =
      let ((y, a, b), _) = allocate-Fresh g d in
      (Extends-trans h g _ x y, omega (arith, x.next_le), b)

  build-Fresh : (fuel : ℕ) (t : Topo) (h : Heap Topo Criterion) → Fresh h (build occt fuel t h)
  unfolding build
  build-Fresh zero t h = (allocate-Fresh h _).0
  build-Fresh (suc k) t h = Fresh-later h _ _ (
      build_all-Extends (λ u g. build occt k u g) (λ u g. (build-Fresh k u g).0) (occt.iterate t) h)

  -- A new shape is a new cell with the given shape, and no older cell changes.
  pub new_shape-Fresh : (t : Topo) (h : Heap Topo Criterion) → Fresh h (new_shape occt t h)
  unfolding new_shape
  new_shape-Fresh t h = build-Fresh (occt.height t) t h

  module _ (hash_order : List ℕ → List ℕ) where
    pub select_subshapes-children :
        (f : Predicate Topo Criterion) (d : ℕ) (h : Heap Topo Criterion) (s : ℕ)
        → let (c, g) = select_subshapes occt hash_order f d h s in
          children_of g c ≡ hash_order (find_results occt f d h s)
    unfolding select_subshapes
    select_subshapes-children f d h s = ground arith

    -- Only the new compound and what is built for it is written.
    pub select_subshapes-fresh :
        (f : Predicate Topo Criterion) (d : ℕ) (h : Heap Topo Criterion) (s : ℕ)
        → let (c, g) = select_subshapes occt hash_order f d h s in
          (h.next ≤ c) × ((a : ℕ) → a < h.next → g.cell a ≡ h.cell a)
    unfolding select_subshapes
    select_subshapes-fresh f d h s =
        let results = hash_order (find_results occt f d h s) in
        let (x, low, _) =
          new_shape-Fresh (occt.make_compound (map (λ r. (h.cell r).shape) results)) h in
        (low, λ a b. ground (arith, x.kept a b))

  module _ (same_refl : (t : Topo) → occt.is_same t t ≡ true)
      (same_symm : (t u : Topo) → occt.is_same t u ≡ occt.is_same u t)
      (hash_order : List ℕ → List ℕ)
      (hash_order_In : (a : ℕ) (xs : List ℕ) → In a (hash_order xs) ↔ In a xs) where
    abbrev same_in : Heap Topo Criterion → ℕ → ℕ → Bool
    same_in h r t = is_same occt t h r

    find_results-eq :
        (f : Predicate Topo Criterion) (d : ℕ) (h : Heap Topo Criterion) (s : ℕ)
        → find_results occt f d h s
          ≡ insert_all (same_in h) [] (select (f h) (met (children_of h) d s))
    unfolding find_results
    find_results-eq f d h s =
        ap (λ (r : Bool × List ℕ). r.1)
          (accept-find (children_of h) (same_in h) (f h) d d [] s 0 (omega arith))

    -- What a selection of shapes `cs` promises, for predicate `f` to depth `d` below `s`.
    pub record IsSelection (f : Predicate Topo Criterion) (d : ℕ) (h : Heap Topo Criterion) (s : ℕ)
        (cs : List ℕ) : Type 0 where
      pub sound : (t : ℕ) → In t cs → Within (children_of h) d s t × (f h t ≡ true)
      pub complete :
          (t : ℕ)
          → Within (children_of h) d s t
          → f h t ≡ true
          → (r : ℕ) × In r cs × (same_in h r t ≡ true)
      pub unique : (r t : ℕ) → In r cs → In t cs → same_in h r t ≡ true → r ≡ t

    find_results-IsSelection :
        (f : Predicate Topo Criterion) (d : ℕ) (h : Heap Topo Criterion) (s : ℕ)
        → IsSelection f d h s (find_results occt f d h s)
    unfolding is_same
    find_results-IsSelection f d h s = rw (find_results-eq f d h s) (record {
      sound = λ t i. elim (insert_all-In (same_in h) t found [] i) [
        | inl j ↦ elim j [ ]
        | inr j ↦
            let (k, q) = In-select (f h) t (met (children_of h) d s) j in
            (met-Within (children_of h) d s t k, q)
      ];
      complete = λ t w q.
          any-In (λ r. same_in h r t) (insert_all (same_in h) [] found)
            (insert_all-same (same_in h) t found [] (same_refl _)
              (select-In (f h) t _ (Within-met (children_of h) d s t w) q));
      unique = λ r t i j q.
          Distinct-unique (same_in h) (λ x y. same_symm _ _) r t _
            (insert_all-Distinct (same_in h) found [] tt) i j q;
    })
      where
        found : List ℕ
        found = select (f h) (met (children_of h) d s)

    -- A selection in any order is a selection.
    IsSelection-hash_order :
        (f : Predicate Topo Criterion) (d : ℕ) (h : Heap Topo Criterion) (s : ℕ) (cs : List ℕ)
        → IsSelection f d h s cs
        → IsSelection f d h s (hash_order cs)
    IsSelection-hash_order f d h s cs v = record {
      sound = λ t i. v.sound t ((hash_order_In t cs).0 i);
      complete = λ t w q. let (r, i, e) = v.complete t w q in (r, (hash_order_In r cs).1 i, e);
      unique = λ r t i j q. v.unique r t ((hash_order_In r cs).0 i) ((hash_order_In t cs).0 j) q;
    }

    -- `select_subshapes` returns a new compound whose children are shapes of the topology below `s`,
    -- to the given depth, that satisfy the predicate; each such shape is the same as one of them; no
    -- two of them are the same; and no shape that was there before changes. For a reflexive and
    -- symmetric `IsSame`, and any order in which the unordered set hands out its members.
    pub select_subshapes-IsSelection :
        (f : Predicate Topo Criterion) (d : ℕ) (h : Heap Topo Criterion) (s : ℕ)
        → let (c, g) = select_subshapes occt hash_order f d h s in
          IsSelection f d h s (children_of g c)
          × (h.next ≤ c)
          × ((a : ℕ) → a < h.next → g.cell a ≡ h.cell a)
    select_subshapes-IsSelection f d h s =
        let (low, kept) = select_subshapes-fresh hash_order f d h s in
        (
          subst (IsSelection f d h s) (sym (select_subshapes-children hash_order f d h s))
              (IsSelection-hash_order f d h s _ (find_results-IsSelection f d h s)),
          low,
          kept,
        )
