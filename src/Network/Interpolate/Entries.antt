-- ===== src/Network/Interpolate/Entries.antt =====
-- `ComputeIntersections`: what its double loop leaves in the matrices, and when it throws.
use geoml.Common.{
  ℕ, zero, suc, ◌+◌, ◌≤◌, ◌<◌, ◌≡◌, ◌≢◌, ◌⊎◌, inl, inr, refl, sym, ◌∙◌, ap, Bool, true, false, ◌&&◌,
  ◌==◌, List, [], ◌∷◌, length, Option, none, some, arith, ℕ_discrete, Bool-cases,
}
use geoml.Common.Real.{Real}
use geoml.Common.Result.{Result, ok, err}
use geoml.Network.Interpolate.{
  NetworkError, no_intersection, too_many_intersections, Intersect, Curves, Found, write, two_u,
  two_v, store_pair, intersect_row, intersect_rows, or_fail, compute_intersections,
}

module _ {ℓ} {W : Type ℓ} where
  pair_path :
      {a b a' b' : Option W} → a ≡ a' → b ≡ b' → ◌≡◌ {A = Option W × Option W} (a, b) (a', b')
  pair_path p q = rw (p, q) refl

  write_at : (m : ℕ → ℕ → Option W) (i j : ℕ) (x : Option W) → m i j ≡ none → write m i j x i j ≡ x
  unfolding write
  write_at m i j none e = e
  write_at m i j (some x) e = let t : ((i == i) && (j == j)) ≡ true = ground arith in rw t refl

  write_else :
      (m : ℕ → ℕ → Option W) (i j : ℕ) (x : Option W) (p q : ℕ)
      → (p ≢ i) ⊎ (q ≢ j)
      → write m i j x p q ≡ m p q
  unfolding write
  write_else m i j none p q d = refl
  write_else m i j (some x) p q d =
      let t : ((p == i) && (q == j)) ≡ false = elim d [
        | inl ne ↦ ground arith
        | inr ne ↦ ground arith
      ] in
      rw t refl

module _ {ℓ κ} {W : Type ℓ} {C : Type κ} (o : Real W) (calls : Intersect W C) (c : Curves C) where
  abbrev pub pair_of : (i j : ℕ) → List (W × W)
  pair_of i j = calls.intersections (c.profiles i) (c.guides j)

  -- The two entries for one list of intersections.
  unfoldable pub entries : (i j : ℕ) → List (W × W) → Option W × Option W
  unfolding two_u two_v
  entries i j [] = (none, none)
  entries i j (x ∷ []) = (some x.0, some x.1)
  entries i j (x ∷ y ∷ rest) = (two_u o calls c j x y, two_v o calls c i x y)

  abbrev pub entry_of : Found W → (i j : ℕ) → Option W × Option W
  entry_of f i j = (f.params_u i j, f.params_v i j)

  -- Whether there was a failure before, or there is one among the pairs of row `i` from `j` on.
  data Failing (f : Found W) (empty : ℕ → Type ℓ) (from to : ℕ) (now : Bool) : Type ℓ where
    before : f.fail ≡ true → now ≡ true → Failing f empty from to now
    here : (k : ℕ) → from ≤ k → k < to → empty k → now ≡ true → Failing f empty from to now
    never :
        f.fail ≡ false
        → now ≡ false
        → ((k : ℕ) → from ≤ k → k < to → empty k → ⊥)
        → Failing f empty from to now

  store_pair_cases :
      (i j : ℕ) (l : List (W × W)) (f : Found W)
      → entry_of f i j ≡ (none, none)
      → ((2 < length l) × (store_pair o calls c i j l f ≡ err too_many_intersections))
        ⊎ ((g : Found W) × (store_pair o calls c i j l f ≡ ok g)
            × (length l ≤ 2)
            × (entry_of g i j ≡ entries i j l)
            × ((p q : ℕ) → (p ≢ i) ⊎ (q ≢ j) → entry_of g p q ≡ entry_of f p q)
            × (((l ≡ []) × (g.fail ≡ true)) ⊎ ((l ≢ []) × (g.fail ≡ f.fail))))
  unfolding store_pair entries
  store_pair_cases i j [] f e =
      inr (record f { fail = true }, refl, omega arith, e, λ p q d. refl, inl (refl, refl))
  store_pair_cases i j (x ∷ []) f e = inr (
    record f {
      params_u = write f.params_u i j (some x.0);
      params_v = write f.params_v i j (some x.1);
    },
    refl,
    omega arith,
    pair_path (write_at f.params_u i j (some x.0) (ap (λ (y : Option W × Option W). y.0) e))
        (write_at f.params_v i j (some x.1) (ap (λ (y : Option W × Option W). y.1) e)),
    λ p q d.
        pair_path (write_else f.params_u i j (some x.0) p q d)
          (write_else f.params_v i j (some x.1) p q d),
    inr (λ q. cc, refl),
  )
  store_pair_cases i j (x ∷ y ∷ []) f e =
      let u = two_u o calls c j x y in
      let v = two_v o calls c i x y in
      inr (
        record f { params_u = write f.params_u i j u; params_v = write f.params_v i j v },
        refl,
        omega arith,
        pair_path (write_at f.params_u i j u (ap (λ (y : Option W × Option W). y.0) e))
            (write_at f.params_v i j v (ap (λ (y : Option W × Option W). y.1) e)),
        λ p q d. pair_path (write_else f.params_u i j u p q d) (write_else f.params_v i j v p q d),
        inr (λ q. cc, refl),
      )
  store_pair_cases i j (x ∷ y ∷ z ∷ rest) f e = inl (omega arith, refl)

  -- What a row of the loop has done, from column `j` on.
  record RowDone (i j n : ℕ) (f g : Found W) : Type ℓ where
    few : (q : ℕ) → j ≤ q → q < j + n → length (pair_of i q) ≤ 2
    written : (q : ℕ) → j ≤ q → q < j + n → entry_of g i q ≡ entries i q (pair_of i q)
    kept : (p q : ℕ) → (p ≢ i) ⊎ (q < j) → entry_of g p q ≡ entry_of f p q
    failing : Failing f (λ q. pair_of i q ≡ []) j (j + n) g.fail

  intersect_row_cases :
      (i n j : ℕ) (f : Found W)
      → ((q : ℕ) → j ≤ q → entry_of f i q ≡ (none, none))
      → ((intersect_row o calls c i n j f ≡ err too_many_intersections)
          × (q : ℕ) × (q < j + n)
          × (2 < length (pair_of i q)))
        ⊎ ((g : Found W) × (intersect_row o calls c i n j f ≡ ok g) × RowDone i j n f g)
  unfolding intersect_row
  intersect_row_cases i zero j f blank = inr (
    f,
    refl,
    record {
      few = λ q a b. absurd (omega arith);
      written = λ q a b. absurd (omega arith);
      kept = λ p q d. refl;
      failing = elim (Bool-cases f.fail) [
        | inl e ↦ before e e
        | inr e ↦ never e e (λ k a b z. absurd (omega arith))
      ];
    },
  )
  intersect_row_cases i (suc n) j f blank =
      elim (store_pair_cases i j (pair_of i j) f (blank j (omega arith))) [
        | inl (many, e) ↦ inl (rw e refl, j, omega arith, many)
        | inr (g, e, few, here_entry, else_entry, fails) ↦
            elim (intersect_row_cases i n (j + 1) g
              (λ q a. else_entry i q (inr (later q a)) ∙ blank q (omega arith))) [
                | inl (r, q, b, many) ↦ inl (rw (e, r) refl, q, omega arith, many)
                | inr (h, r, d) ↦ inr (
                  h,
                  rw (e, r) refl,
                  record {
                    few = λ q a b. elim (ℕ_discrete q j) [
                      | yes w ↦ rw w few
                      | no ne ↦ d.few q (omega arith) (omega arith)
                    ];
                    written = λ q a b. elim (ℕ_discrete q j) [
                      | yes w ↦ rw w (d.kept i j (inr (omega arith)) ∙ here_entry)
                      | no ne ↦ d.written q (omega arith) (omega arith)
                    ];
                    kept = λ p q s. elim s [
                      | inl ne ↦ d.kept p q (inl ne) ∙ else_entry p q (inl ne)
                      | inr lt ↦
                          d.kept p q (inr (omega arith)) ∙ else_entry p q (inr (earlier q lt))
                    ];
                    failing = joined g h fails d.failing;
                  },
                )
              ]
      ]
    where
      later : (q : ℕ) → j + 1 ≤ q → q ≢ j
      later q a e = omega arith

      earlier : (q : ℕ) → q < j → q ≢ j
      earlier q a e = omega arith

      joined :
          (g h : Found W)
          → ((pair_of i j ≡ []) × (g.fail ≡ true)) ⊎ ((pair_of i j ≢ []) × (g.fail ≡ f.fail))
          → Failing g (λ q. pair_of i q ≡ []) (j + 1) (j + 1 + n) h.fail
          → Failing f (λ q. pair_of i q ≡ []) j (j + suc n) h.fail
      joined g h s (here k a b z e) = here k (omega arith) (omega arith) z e
      joined g h (inl (z, t)) (before s e) = here j (omega arith) (omega arith) z e
      joined g h (inr (z, t)) (before s e) = before (sym t ∙ s) e
      joined g h (inl (z, t)) (never s e away) = absurd cc
      joined g h (inr (z, t)) (never s e away) = never (sym t ∙ s) e (λ k a b w.
          elim (ℕ_discrete k j) [
            | yes q ↦ z (ap (pair_of i) (sym q) ∙ w)
            | no ne ↦ away k (omega arith) (omega arith) w
          ])

  -- What the loop over the rows has done, from row `i` on.
  record RowsDone (i n : ℕ) (f g : Found W) : Type ℓ where
    few : (p q : ℕ) → i ≤ p → p < i + n → q < c.n_guides → length (pair_of p q) ≤ 2
    written :
        (p q : ℕ) → i ≤ p → p < i + n → q < c.n_guides → entry_of g p q ≡ entries p q (pair_of p q)
    kept : (p q : ℕ) → p < i → entry_of g p q ≡ entry_of f p q
    failing : Failing f (λ p. (q : ℕ) × (q < c.n_guides) × (pair_of p q ≡ [])) i (i + n) g.fail

  intersect_rows_cases :
      (n i : ℕ) (f : Found W)
      → ((p q : ℕ) → i ≤ p → entry_of f p q ≡ (none, none))
      → ((intersect_rows o calls c n i f ≡ err too_many_intersections)
          × (p : ℕ) × (q : ℕ) × (p < i + n)
          × (q < c.n_guides)
          × (2 < length (pair_of p q)))
        ⊎ ((g : Found W) × (intersect_rows o calls c n i f ≡ ok g) × RowsDone i n f g)
  unfolding intersect_rows
  intersect_rows_cases zero i f blank = inr (
    f,
    refl,
    record {
      few = λ p q a b. absurd (omega arith);
      written = λ p q a b. absurd (omega arith);
      kept = λ p q a. refl;
      failing = elim (Bool-cases f.fail) [
        | inl e ↦ before e e
        | inr e ↦ never e e (λ k a b z. absurd (omega arith))
      ];
    },
  )
  intersect_rows_cases (suc n) i f blank =
      elim (intersect_row_cases i c.n_guides 0 f (λ q a. blank i q (omega arith))) [
        | inl (e, q, b, many) ↦ inl (rw e refl, i, q, omega arith, omega arith, many)
        | inr (g, e, d) ↦
            elim (intersect_rows_cases n (i + 1) g
              (λ p q a. d.kept p q (inl (above p a)) ∙ blank p q (omega arith))) [
                | inl (r, p, q, b, b', many) ↦ inl (rw (e, r) refl, p, q, omega arith, b', many)
                | inr (h, r, t) ↦ inr (
                  h,
                  rw (e, r) refl,
                  record {
                    few = λ p q a b b'. elim (ℕ_discrete p i) [
                      | yes w ↦ rw w (d.few q (omega arith) (omega arith))
                      | no ne ↦ t.few p q (omega arith) (omega arith) b'
                    ];
                    written = λ p q a b b'. elim (ℕ_discrete p i) [
                      | yes w ↦
                          rw w (t.kept i q (omega arith) ∙ d.written q (omega arith) (omega arith))
                      | no ne ↦ t.written p q (omega arith) (omega arith) b'
                    ];
                    kept = λ p q a. t.kept p q (omega arith) ∙ d.kept p q (inl (below p a));
                    failing = joined g h d.failing t.failing;
                  },
                )
              ]
      ]
    where
      above : (p : ℕ) → i + 1 ≤ p → p ≢ i
      above p a e = omega arith

      below : (p : ℕ) → p < i → p ≢ i
      below p a e = omega arith

      joined :
          (g h : Found W)
          → Failing f (λ q. pair_of i q ≡ []) 0 (0 + c.n_guides) g.fail
          → Failing g
              (λ p. (q : ℕ) × (q < c.n_guides) × (pair_of p q ≡ []))
              (i + 1)
              (i + 1 + n)
              h.fail
          → Failing f (λ p. (q : ℕ) × (q < c.n_guides) × (pair_of p q ≡ [])) i (i + suc n) h.fail
      joined g h s (here k a b z e) = here k (omega arith) (omega arith) z e
      joined g h (before s t) (before u e) = before s e
      joined g h (here k a b z t) (before u e) =
          here i (omega arith) (omega arith) (k, omega arith, z) e
      joined g h (never s t away) (before u e) = absurd cc
      joined g h (before s t) (never u e away) = absurd cc
      joined g h (here k a b z t) (never u e away) = absurd cc
      joined g h (never s t away) (never u e away') = never s e (λ k a b w. elim (ℕ_discrete k i) [
        | yes q ↦ away w.0 (omega arith) (omega arith) (ap (λ (x : ℕ). pair_of x w.0) (sym q) ∙ w.2)
        | no ne ↦ away' k (omega arith) (omega arith) w
      ])

  -- The outcomes of `ComputeIntersections`.
  abbrev pub Outcome : Result NetworkError (Found W) → Type ℓ
  Outcome r =
      ((r ≡ err too_many_intersections)
        × (p : ℕ) × (q : ℕ) × (p < c.n_profiles)
        × (q < c.n_guides)
        × (2 < length (pair_of p q)))
      ⊎ ((r ≡ err no_intersection)
          × ((p q : ℕ) → p < c.n_profiles → q < c.n_guides → length (pair_of p q) ≤ 2)
          × (p : ℕ) × (q : ℕ) × (p < c.n_profiles)
          × (q < c.n_guides)
          × (pair_of p q ≡ []))
      ⊎ ((g : Found W) × (r ≡ ok g)
          × ((p q : ℕ)
              → p < c.n_profiles
              → q < c.n_guides
              → (pair_of p q ≢ [])
                × (length (pair_of p q) ≤ 2)
                × (entry_of g p q ≡ entries p q (pair_of p q))))

  -- `ComputeIntersections` throws that there are too many intersections just if a profile and a guide
  -- have more than two; otherwise it throws that there is none just if a profile and a guide have none.
  -- Else each entry of the matrices is what its own pair of curves gives: for one intersection its
  -- parameters, and for two what the tests for closed curves choose, or an entry that was never
  -- written.
  pub compute_intersections_cases : Outcome (compute_intersections o calls c)
  unfolding compute_intersections or_fail
  compute_intersections_cases = elim (intersect_rows_cases c.n_profiles 0 start (λ p q a. refl)) [
    | inl (e, p, q, a, b, many) ↦ inl (rw e refl, p, q, omega arith, b, many)
    | inr (g, e, d) ↦ finish g e d d.failing
  ]
    where
      start : Found W
      start = record { params_u = λ i j. none; params_v = λ i j. none; fail = false }

      finish :
          (g : Found W)
          → intersect_rows o calls c c.n_profiles 0 start ≡ ok g
          → RowsDone 0 c.n_profiles start g
          → Failing start
              (λ p. (q : ℕ) × (q < c.n_guides) × (pair_of p q ≡ []))
              0
              (0 + c.n_profiles)
              g.fail
          → Outcome (compute_intersections o calls c)
      finish g e d (before s t) = absurd cc
      finish g e d (here p a b (q, b', z) t) = inr (
          inl (
            rw (e, t) refl,
            λ p q h k. d.few p q (omega arith) (omega arith) k,
            p,
            q,
            omega arith,
            b',
            z,
          ))
      finish g e d (never s t away) = inr (
          inr (
            g,
            rw (e, t) refl,
            λ p q h k. (
              λ z. away p (omega arith) (omega arith) (q, k, z),
              d.few p q (omega arith) (omega arith) k,
              d.written p q (omega arith) (omega arith) k,
            ),
          ))
