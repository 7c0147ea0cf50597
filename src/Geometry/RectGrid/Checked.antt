-- ===== src/Geometry/RectGrid/Checked.antt =====
-- `connect_faces` as a whole: its loops end, and what its three outcomes mean.
use geoml.Common.{
  ℕ, zero, suc, ◌+◌, ◌≤◌, ◌<◌, ◌≡◌, ◌≢◌, ◌⊎◌, inl, inr, refl, sym, ◌∙◌, ap, Bool, true, false, ◌==◌,
  Option, none, some, arith, ℕ_discrete, Option-cases,
}
use geoml.Common.Real.{Real}
use geoml.Common.Result.{ok, err}
use geoml.Geometry.RectGrid.{
  Kernel, Neighbors, RectGridSurface, not_rectangular, no_root, is_null, unconnected, find_root,
  walk_from, as_expected, check_walk, check_faces, matches_u, matches_v, connect_all, counted,
  connect_faces,
}
use geoml.Geometry.RectGrid.Linked.{IsLinked}
use geoml.Geometry.RectGrid.Links.{pos_u, neg_u, pos_v, neg_v, connect_all_linked}
use geoml.Geometry.RectGrid.Walk.{Walk, count_walk-Walk, count_walk_ends}

-- No neighbour before it in either direction.
abbrev pub IsRoot : (ℕ → Neighbors) → ℕ → Type 0
IsRoot nb i = (neg_u nb i ≡ none) × (neg_v nb i ≡ none)

-- The walk from a face has `expected` faces, or another number of them.
abbrev pub Spans : (ℕ → Option ℕ) → (expected i : ℕ) → Type 0
Spans next expected i = (k : ℕ) × Walk next i k × (expected ≡ suc k)

abbrev pub Misses : (ℕ → Option ℕ) → (expected i : ℕ) → Type 0
Misses next expected i = (k : ℕ) × Walk next i k × (expected ≢ suc k)

is_null_none : {p : Option ℕ} → p ≡ none → is_null p ≡ true
unfolding is_null
is_null_none e = rw e refl

is_null_some : {p : Option ℕ} {x : ℕ} → p ≡ some x → is_null p ≡ false
unfolding is_null
is_null_some e = rw e refl

find_root_cases :
    (nb : ℕ → Neighbors) (m i : ℕ)
    → ((find_root nb m i < i + m) × IsRoot nb (find_root nb m i))
      ⊎ ((find_root nb m i ≡ i + m) × ((k : ℕ) → i ≤ k → k < i + m → IsRoot nb k → ⊥))
unfolding find_root
find_root_cases nb zero i = inr (omega arith, λ k a b. absurd (omega arith))
find_root_cases nb (suc m) i = elim (Option-cases (nb i).neg_u) [
  | inr (x, e) ↦ rw (is_null_some e) (later (λ r. absurd cc) (find_root_cases nb m (i + 1)))
  | inl e ↦ elim (Option-cases (nb i).neg_v) [
    | inr (x, f) ↦
        rw (is_null_none e, is_null_some f) (later (λ r. absurd cc) (find_root_cases nb m (i + 1)))
    | inl f ↦ rw (is_null_none e, is_null_none f) (inl (omega arith, (e, f)))
  ]
]
  where
    later :
        {r : ℕ}
        → (IsRoot nb i → ⊥)
        → ((r < i + 1 + m) × IsRoot nb r)
          ⊎ ((r ≡ i + 1 + m) × ((k : ℕ) → i + 1 ≤ k → k < i + 1 + m → IsRoot nb k → ⊥))
        → ((r < i + suc m) × IsRoot nb r)
          ⊎ ((r ≡ i + suc m) × ((k : ℕ) → i ≤ k → k < i + suc m → IsRoot nb k → ⊥))
    later bad (inl (a, b)) = inl (omega arith, b)
    later bad (inr (a, b)) = inr (
      omega arith,
      λ k c d root. elim (ℕ_discrete k i) [
        | yes e ↦ bad (ap (neg_u nb) (sym e) ∙ root.0, ap (neg_v nb) (sym e) ∙ root.1)
        | no ne ↦ b k (omega arith) (omega arith) root
      ],
    )

module _ (n : ℕ) (m : ℕ → ℕ → Bool) (next prev : ℕ → Option ℕ)
    (linked : IsLinked m n n 0 next prev) where
  walk_from_ends :
      (i : ℕ) → i < n → prev i ≡ none → (k : ℕ) × (walk_from next n i ≡ ok (suc k)) × Walk next i k
  unfolding walk_from
  walk_from_ends i h free =
      let (c, e) = count_walk_ends n next prev i 1 linked.pos_neg linked.pos_below h free in
      let (k, w, q, b) = count_walk-Walk next n i 1 c e in
      (k, rw (e, walk_from) (ap ok (omega arith)), w)

  check_walk_cases :
      (expected i : ℕ)
      → i < n
      → ((check_walk prev next n expected i ≡ ok tt) × (prev i ≡ none → Spans next expected i))
        ⊎ ((check_walk prev next n expected i ≡ err not_rectangular)
            × (prev i ≡ none)
            × Misses next expected i)
  unfolding check_walk as_expected
  check_walk_cases expected i h = elim (Option-cases (prev i)) [
    | inr (x, e) ↦ inl (rw (is_null_some e) refl, λ f. absurd cc)
    | inl e ↦
        let (k, f, w) = walk_from_ends i h e in
        elim (ℕ_discrete (suc k) expected) [
          | yes q ↦
              let t : (suc k == expected) ≡ true = ground arith in
              inl (rw (is_null_none e, f, t) refl, λ g. (k, w, sym q))
          | no ne ↦
              let t : (suc k == expected) ≡ false = ground arith in
              inr (rw (is_null_none e, f, t) refl, e, (k, w, λ q. ne (sym q)))
        ]
  ]

module _ (n : ℕ) (nb : ℕ → Neighbors) where
  -- Every face from `i` on that begins a row or a column begins one of the right length.
  abbrev pub AllSpan : (nrows ncols i : ℕ) → Type 0
  AllSpan nrows ncols i =
      (k : ℕ)
      → i ≤ k
      → k < n
      → (neg_u nb k ≡ none → Spans (pos_u nb) ncols k)
        × (neg_v nb k ≡ none → Spans (pos_v nb) nrows k)

  -- Some face begins a row or a column of another length.
  abbrev pub SomeMisses : (nrows ncols : ℕ) → Type 0
  SomeMisses nrows ncols =
      (k : ℕ) × (k < n)
      × (((neg_u nb k ≡ none) × Misses (pos_u nb) ncols k)
          ⊎ ((neg_v nb k ≡ none) × Misses (pos_v nb) nrows k))

module _ (n : ℕ) (m m' : ℕ → ℕ → Bool) (nb : ℕ → Neighbors) where
  check_faces_cases :
      IsLinked m n n 0 (pos_u nb) (neg_u nb)
      → IsLinked m' n n 0 (pos_v nb) (neg_v nb)
      → (nrows ncols j i : ℕ) → i + j ≡ n
      → ((check_faces nb n nrows ncols j i ≡ ok tt) × AllSpan n nb nrows ncols i)
        ⊎ ((check_faces nb n nrows ncols j i ≡ err not_rectangular) × SomeMisses n nb nrows ncols)
  unfolding check_faces
  check_faces_cases u v nrows ncols zero i e = inl (refl, λ k a b. absurd (omega arith))
  check_faces_cases u v nrows ncols (suc j) i e =
      elim (check_walk_cases n m (pos_u nb) (neg_u nb) u ncols i (omega arith)) [
        | inr (f, free, miss) ↦ inr (rw f refl, (i, omega arith, inl (free, miss)))
        | inl (f, span) ↦
            elim (check_walk_cases n m' (pos_v nb) (neg_v nb) v nrows i (omega arith)) [
              | inr (g, free, miss) ↦ inr (rw (f, g) refl, (i, omega arith, inr (free, miss)))
              | inl (g, span') ↦ elim (check_faces_cases u v nrows ncols j (i + 1) (omega arith)) [
                | inr (r, miss) ↦ inr (rw (f, g, r) refl, miss)
                | inl (r, all) ↦ inl (
                  rw (f, g, r) refl,
                  λ k a b. elim (ℕ_discrete k i) [
                    | yes q ↦ rw q (span, span')
                    | no ne ↦ all k (omega arith) b
                  ],
                )
              ]
            ]
      ]

module _ {ℓ} {F P W A : Type ℓ} (o : Real W) (kernel : Kernel F P W)
    (s : RectGridSurface F P W A) where
  -- The pointers that `connect_faces` leaves.
  abbrev pub connected : ℕ → Neighbors
  connected = connect_all o kernel s.face_infos s.size s.size 0 unconnected

  -- The outcomes of `connect_faces`.
  abbrev pub IsGrid : RectGridSurface F P W A → Type 0
  IsGrid t =
      (t.neighbors ≡ connected)
      × (t.root_idx < s.size)
      × IsRoot connected t.root_idx
      × Spans (pos_u connected) t.ncols t.root_idx
      × Spans (pos_v connected) t.nrows t.root_idx
      × AllSpan s.size connected t.nrows t.ncols 0

  abbrev pub IsRefused : Type 0
  IsRefused =
      (root : ℕ) × (nrows : ℕ) × (ncols : ℕ) × IsRoot connected root
      × Spans (pos_u connected) ncols root
      × Spans (pos_v connected) nrows root
      × SomeMisses s.size connected nrows ncols

  counted_cases :
      (root : ℕ)
      → root < s.size
      → IsRoot connected root
      → ((t : RectGridSurface F P W A) × (counted s connected root ≡ ok t) × IsGrid t)
        ⊎ ((counted s connected root ≡ err not_rectangular) × IsRefused)
  unfolding counted
  counted_cases root h (free, free') =
      let (u, v) = connect_all_linked o kernel s.face_infos s.size in
      let mu = matches_u o kernel s.face_infos in
      let mv = matches_v o kernel s.face_infos in
      let (c, e, w) = walk_from_ends s.size mu (pos_u connected) (neg_u connected) u root h free in
      let (r, f, w') =
        walk_from_ends s.size mv (pos_v connected) (neg_v connected) v root h free' in
      elim (check_faces_cases s.size mu mv connected u v (suc r) (suc c) s.size 0 (omega arith)) [
        | inl (g, all) ↦ inl (
          record s { neighbors = connected; root_idx = root; nrows = suc r; ncols = suc c },
          rw (e, f, g) refl,
          (refl, h, (free, free'), (c, w, refl), (r, w', refl), all),
        )
        | inr (g, miss) ↦ inr (
          rw (e, f, g) refl,
          (root, suc r, suc c, (free, free'), (c, w, refl), (r, w', refl), miss),
        )
      ]

  -- For faces without neighbours yet, `connect_faces` has one of three outcomes, so that none of its
  -- walks is without end. It returns, with a root that has no neighbour before it in either
  -- direction, from which `ncols - 1` steps forth in u and `nrows - 1` in v are possible, as they are
  -- from each face that has no neighbour before it in that direction. It throws that the shape is no
  -- rectangular grid, where from some such face another number of steps is possible. Or it reads
  -- behind the end of the vector, where each face has a neighbour before it in u or in v.
  pub connect_faces_cases :
      s.neighbors ≡ unconnected
      → ((t : RectGridSurface F P W A) × (connect_faces o kernel s ≡ ok t) × IsGrid t)
        ⊎ ((connect_faces o kernel s ≡ err not_rectangular) × IsRefused)
        ⊎ ((connect_faces o kernel s ≡ err no_root)
            × ((k : ℕ) → k < s.size → IsRoot connected k → ⊥))
  unfolding connect_faces
  connect_faces_cases fresh = elim (find_root_cases connected s.size 0) [
    | inr (e, never) ↦
        let t : (find_root connected s.size 0 == s.size) ≡ true = ground arith in
        inr (inr (rw (fresh, t) refl, λ k h. never k (omega arith) (omega arith)))
    | inl (h, root) ↦
        let t : (find_root connected s.size 0 == s.size) ≡ false = ground arith in
        elim (counted_cases (find_root connected s.size 0) (omega arith) root) [
          | inl (r, e, grid) ↦ inl (r, rw (fresh, t) e, grid)
          | inr (e, refused) ↦ inr (inl (rw (fresh, t) e, refused))
        ]
  ]
