-- ===== src/Naming/Descent.antt =====
-- How the predicates on the history relate (Shape.cpp).
use geoml.Common.{ℕ, ◌≡◌, ◌↔◌, Bool, true, false, not, ◌&&◌, ◌||◌, arith}
use geoml.Naming.{Occt, Heap}
use geoml.Naming.Reach.{Within}
use geoml.Naming.Queries.{int_max, children_of, origins_of, is_same}
use geoml.Naming.Subshapes.{has_subshape_that_iff}
use geoml.Naming.History.{
  is_descendent_of, is_unmodified_descendent_of, is_modified_descendent_of, is_ancestor_of,
  is_descendent_of_subshape_in, is_descendent_of_iff,
}

split_or : (p q : Bool) → ((p && q) || (not p && q)) ≡ q
split_or p q = ground arith

split_and : (p q : Bool) → ((p && q) && (not p && q)) ≡ false
split_and p q = ground arith

module _ {Topo Criterion : Type 0} (occt : Occt Topo) (h : Heap Topo Criterion) where
  -- The unmodified and the modified descendents are the descendents at any depth, and none is both,
  -- whatever depths are asked for: the two members ignore their `max_depth`.
  pub descent_partition :
      (other d e s : ℕ)
      → ((is_unmodified_descendent_of occt other d h s
            || is_modified_descendent_of occt other e h s)
          ≡ is_descendent_of occt other int_max h s)
        × ((is_unmodified_descendent_of occt other d h s
              && is_modified_descendent_of occt other e h s)
            ≡ false)
  unfolding is_unmodified_descendent_of is_modified_descendent_of
  descent_partition other d e s =
      let p = is_same occt other h s in
      let q = is_descendent_of occt other int_max h s in (split_or p q, split_and p q)

  -- A descendent of a subshape, whatever `max_depth`, which the code does not use: some shape in the
  -- topology below the other one is the same as a shape in the whole history of this one.
  pub is_descendent_of_subshape_in_iff :
      (other d s : ℕ)
      → (is_descendent_of_subshape_in occt other d h s ≡ true) ↔ (
          (t : ℕ) × Within (children_of h) int_max other t
          × (u : ℕ) × Within (origins_of h) int_max s u
          × (is_same occt t h u ≡ true))
  is_descendent_of_subshape_in_iff other d s = (forth, back)
    where
      whole : (is_descendent_of_subshape_in occt other d h s ≡ true) ↔ (
          (t : ℕ) × Within (children_of h) int_max other t
          × (is_ancestor_of occt s int_max h t ≡ true))
      whole =
          unfold is_descendent_of_subshape_in in
          has_subshape_that_iff (λ g t. is_ancestor_of occt s int_max g t) h other

      forth :
          is_descendent_of_subshape_in occt other d h s ≡ true
          → (t : ℕ) × Within (children_of h) int_max other t
            × (u : ℕ) × Within (origins_of h) int_max s u
            × (is_same occt t h u ≡ true)
      forth e =
          let (t, w, q) = whole.0 e in
          let (u, x, y) =
            (is_descendent_of_iff occt h t int_max s).0 (unfold is_ancestor_of in q) in
          (t, w, u, x, y)

      back :
          ((t : ℕ) × Within (children_of h) int_max other t
            × (u : ℕ) × Within (origins_of h) int_max s u
            × (is_same occt t h u ≡ true))
          → is_descendent_of_subshape_in occt other d h s ≡ true
      back (t, w, u, x, y) =
          whole.1
            (t, w, unfold is_ancestor_of in (is_descendent_of_iff occt h t int_max s).1 (u, x, y))
