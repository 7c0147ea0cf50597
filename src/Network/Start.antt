-- ===== src/Network/Start.antt =====
-- `GetStartCurveIndices`: which curves it takes, and when it throws.
use geoml.Common.{
  ℕ, zero, suc, ◌+◌, ◌≤◌, ◌<◌, ◌≡◌, ◌⊎◌, inl, inr, ◌≢◌, Bool, true, false, arith, Option, none,
  some, refl, ℕ_discrete, subst,
}
use geoml.Common.Real.{Real, IsOrder}
use geoml.Common.Result.{ok, err}
use geoml.Network.{
  Sorter, StartCurves, cannot_find_starting_curves, find_start, find_loop_start,
  get_start_curve_indices,
}
use geoml.Network.Scan.{
  max_col_index, min_row_index, min_col_index, IsFirstLeast, IsFirstGreatest,
  min_row_index-IsFirstLeast, min_col_index-IsFirstLeast, max_col_index-IsFirstGreatest,
  first_least_unique, first_greatest_unique,
}

module _ {ℓ κ} {W : Type ℓ} {C : Type κ} (o : Real W) (s : Sorter W C) where
  -- The guide on which profile `i` starts, and the profiles on which that guide starts and ends.
  abbrev pub first_guide : ℕ → ℕ
  first_guide i = min_row_index o s.n_guides s.parms_inters_profiles i

  abbrev pub guide_begin : ℕ → ℕ
  guide_begin j = min_col_index o s.n_profiles s.parms_inters_guides j

  abbrev pub guide_end : ℕ → ℕ
  guide_end j = max_col_index o s.n_profiles s.parms_inters_guides j

  -- Profile `i` is taken for one end of the guide that it starts on.
  abbrev pub Meets : (ℕ → ℕ) → ℕ → Type 0
  Meets end i = end (first_guide i) ≡ i

  -- The first row that meets, or that there is none.
  abbrev FirstMeet : (ℕ → ℕ) → Bool → ℕ → ℕ → Option StartCurves → Type 0
  FirstMeet end reversed n i r =
      ((p : ℕ) × (i ≤ p)
        × (p < i + n)
        × Meets end p
        × ((k : ℕ) → i ≤ k → k < p → end (first_guide k) ≢ k)
        × (r
            ≡ some (record {
              prof_start = p;
              guid_start = first_guide p;
              guide_must_be_reversed = reversed;
            })))
      ⊎ (((k : ℕ) → i ≤ k → k < i + n → end (first_guide k) ≢ k) × (r ≡ none))

  FirstMeet-later :
      (end : ℕ → ℕ) (reversed : Bool) (n i : ℕ) {r : Option StartCurves}
      → end (first_guide i) ≢ i
      → FirstMeet end reversed n (i + 1) r
      → FirstMeet end reversed (suc n) i r
  FirstMeet-later end reversed n i miss (inl (p, a, b, meets, first, e)) =
      inl (p, omega arith, omega arith, meets, none_before, e)
    where
      none_before : (k : ℕ) → i ≤ k → k < p → end (first_guide k) ≢ k
      none_before k c d = elim (ℕ_discrete k i) [
        | yes e ↦ rw e miss
        | no ne ↦ first k (omega arith) d
      ]
  FirstMeet-later end reversed n i miss (inr (never, e)) = inr (none_at, e)
    where
      none_at : (k : ℕ) → i ≤ k → k < i + suc n → end (first_guide k) ≢ k
      none_at k c d = elim (ℕ_discrete k i) [
        | yes e ↦ rw e miss
        | no ne ↦ never k (omega arith) (omega arith)
      ]

  find_start_cases : (n i : ℕ) → FirstMeet guide_begin false n i (find_start o s n i)
  unfolding find_start
  find_start_cases zero i = inr (λ k a b. absurd (omega arith), refl)
  find_start_cases (suc n) i = elim (ℕ_discrete (guide_begin (first_guide i)) i) [
    | yes e ↦ inl (i, omega arith, omega arith, e, λ k a b. absurd (omega arith), ground arith)
    | no ne ↦
        let rest : find_start o s (suc n) i ≡ find_start o s n (i + 1) = ground arith in
        rw rest (FirstMeet-later guide_begin false n i ne (find_start_cases n (i + 1)))
  ]

  find_loop_start_cases : (n i : ℕ) → FirstMeet guide_end true n i (find_loop_start o s n i)
  unfolding find_loop_start
  find_loop_start_cases zero i = inr (λ k a b. absurd (omega arith), refl)
  find_loop_start_cases (suc n) i = elim (ℕ_discrete (guide_end (first_guide i)) i) [
    | yes e ↦ inl (i, omega arith, omega arith, e, λ k a b. absurd (omega arith), ground arith)
    | no ne ↦
        let rest : find_loop_start o s (suc n) i ≡ find_loop_start o s n (i + 1) = ground arith in
        rw rest (FirstMeet-later guide_end true n i ne (find_loop_start_cases n (i + 1)))
  ]

  abbrev pub chosen_by_search : ℕ → Bool → StartCurves
  chosen_by_search p reversed = record {
    prof_start = p;
    guid_start = first_guide p;
    guide_must_be_reversed = reversed;
  }

  -- The outcome in terms of the searches.
  pub get_start_curve_indices-Meets :
      ((p : ℕ) × (p < s.n_profiles)
        × Meets guide_begin p
        × ((k : ℕ) → k < p → ¬ (Meets guide_begin k))
        × (get_start_curve_indices o s ≡ ok (chosen_by_search p false)))
      ⊎ ((p : ℕ) × ((k : ℕ) → k < s.n_profiles → ¬ (Meets guide_begin k))
          × (p < s.n_profiles)
          × Meets guide_end p
          × ((k : ℕ) → k < p → ¬ (Meets guide_end k))
          × (get_start_curve_indices o s ≡ ok (chosen_by_search p true)))
      ⊎ (((k : ℕ) → k < s.n_profiles → ¬ (Meets guide_begin k))
          × ((k : ℕ) → k < s.n_profiles → ¬ (Meets guide_end k))
          × (get_start_curve_indices o s ≡ err cannot_find_starting_curves))
  unfolding get_start_curve_indices
  get_start_curve_indices-Meets = elim (find_start_cases s.n_profiles 0) [
    | inl (p, _, b, meets, first, e) ↦
        inl (p, omega arith, meets, λ k c. first k (omega arith) c, rw e)
    | inr (never, e) ↦ elim (find_loop_start_cases s.n_profiles 0) [
      | inl (p, _, b, meets, first, e') ↦ inr (
          inl (
            p,
            λ k c. never k (omega arith) (omega arith),
            omega arith,
            meets,
            λ k c. first k (omega arith) c,
            rw (e, e'),
          ))
      | inr (never', e') ↦ inr (
          inr (
            λ k c. never k (omega arith) (omega arith),
            λ k c. never' k (omega arith) (omega arith),
            rw (e, e'),
          ))
    ]
  ]

module _ {ℓ κ} {W : Type ℓ} {C : Type κ} (o : Real W) (laws : IsOrder o) (s : Sorter W C) where
  -- Profile `i` starts on guide `j`: there its parameter is least, at the first such guide. Guide `j`
  -- begins on profile `i` and ends on it likewise.
  abbrev pub StartsOn : ℕ → ℕ → Type 0
  StartsOn i j = IsFirstLeast o laws (s.parms_inters_profiles i) s.n_guides j

  abbrev pub BeginsOn : ℕ → ℕ → Type 0
  BeginsOn j i = IsFirstLeast o laws (λ k. s.parms_inters_guides k j) s.n_profiles i

  abbrev pub EndsOn : ℕ → ℕ → Type 0
  EndsOn j i = IsFirstGreatest o laws (λ k. s.parms_inters_guides k j) s.n_profiles i

  -- The guide on which profile `i` starts begins on it, or ends on it.
  abbrev pub IsStart : ℕ → Type 0
  IsStart i = (j : ℕ) × StartsOn i j × BeginsOn j i

  abbrev pub IsLoopStart : ℕ → Type 0
  IsLoopStart i = (j : ℕ) × StartsOn i j × EndsOn j i

  abbrev pub NoStart : Type 0
  NoStart = (i : ℕ) → i < s.n_profiles → ¬ (IsStart i)

  abbrev pub NoLoopStart : Type 0
  NoLoopStart = (i : ℕ) → i < s.n_profiles → ¬ (IsLoopStart i)

  -- Every profile and every guide has a parameter below DBL_MAX, and every guide has one above
  -- DBL_MIN, the least positive double.
  pub record InRange : Type 0 where
    pub profiles_below :
        (i : ℕ)
        → i < s.n_profiles
        → (j : ℕ) × (j < s.n_guides) × (o.gt o.dbl_max (s.parms_inters_profiles i j) ≡ true)
    pub guides_below :
        (j : ℕ)
        → j < s.n_guides
        → (i : ℕ) × (i < s.n_profiles) × (o.gt o.dbl_max (s.parms_inters_guides i j) ≡ true)
    pub guides_above :
        (j : ℕ)
        → j < s.n_guides
        → (i : ℕ) × (i < s.n_profiles) × (o.gt (s.parms_inters_guides i j) o.dbl_min ≡ true)

  module _ (range : InRange) where
    starts : (i : ℕ) → i < s.n_profiles → StartsOn i (first_guide o s i)
    starts i h =
        min_row_index-IsFirstLeast o laws s.n_guides s.parms_inters_profiles i
          (range.profiles_below i h)

    begins :
        (i : ℕ)
        → i < s.n_profiles
        → BeginsOn (first_guide o s i) (guide_begin o s (first_guide o s i))
    begins i h =
        min_col_index-IsFirstLeast o laws s.n_profiles s.parms_inters_guides (first_guide o s i)
          (range.guides_below (first_guide o s i) (starts i h).0)

    ends :
        (i : ℕ) → i < s.n_profiles → EndsOn (first_guide o s i) (guide_end o s (first_guide o s i))
    ends i h =
        max_col_index-IsFirstGreatest o laws s.n_profiles s.parms_inters_guides (first_guide o s i)
          (range.guides_above (first_guide o s i) (starts i h).0)

    Meets-BeginsOn :
        (i : ℕ) → i < s.n_profiles → Meets o s (guide_begin o s) i → BeginsOn (first_guide o s i) i
    Meets-BeginsOn i h e = subst (BeginsOn (first_guide o s i)) e (begins i h)

    Meets-EndsOn :
        (i : ℕ) → i < s.n_profiles → Meets o s (guide_end o s) i → EndsOn (first_guide o s i) i
    Meets-EndsOn i h e = subst (EndsOn (first_guide o s i)) e (ends i h)

    start-Meets : (i : ℕ) → i < s.n_profiles → IsStart i → Meets o s (guide_begin o s) i
    start-Meets i h (j, on, begin) =
        let e : j ≡ first_guide o s i =
          first_least_unique o laws (s.parms_inters_profiles i) s.n_guides j (first_guide o s i) on
            (starts i h) in
        first_least_unique o laws (λ k. s.parms_inters_guides k (first_guide o s i)) s.n_profiles
          (guide_begin o s (first_guide o s i)) i (begins i h)
          (subst (λ (g : ℕ). BeginsOn g i) e begin)

    loop_start-Meets : (i : ℕ) → i < s.n_profiles → IsLoopStart i → Meets o s (guide_end o s) i
    loop_start-Meets i h (j, on, end) =
        let e : j ≡ first_guide o s i =
          first_least_unique o laws (s.parms_inters_profiles i) s.n_guides j (first_guide o s i) on
            (starts i h) in
        first_greatest_unique o laws (λ k. s.parms_inters_guides k (first_guide o s i)) s.n_profiles
          (guide_end o s (first_guide o s i)) i (ends i h) (subst (λ (g : ℕ). EndsOn g i) e end)

  abbrev pub chosen : (p g : ℕ) → Bool → StartCurves
  chosen p g reversed = record { prof_start = p; guid_start = g; guide_must_be_reversed = reversed }

  -- Where every profile and guide has a parameter below DBL_MAX and every guide has one above DBL_MIN:
  -- the start curves are the first profile which the guide that it starts on begins on, and that
  -- guide; if there is none, the first profile which the guide that it starts on ends on, and that
  -- guide, to be reversed; and the call throws exactly when there is neither. Where a curve starts,
  -- begins or ends is the first place of its least or greatest parameter.
  pub get_start_curve_indices_cases :
      InRange
      → ((p g : ℕ) × (p < s.n_profiles)
          × StartsOn p g
          × BeginsOn g p
          × ((k : ℕ) → k < p → ¬ (IsStart k))
          × (get_start_curve_indices o s ≡ ok (chosen p g false)))
        ⊎ ((p g : ℕ) × NoStart
            × (p < s.n_profiles)
            × StartsOn p g
            × EndsOn g p
            × ((k : ℕ) → k < p → ¬ (IsLoopStart k))
            × (get_start_curve_indices o s ≡ ok (chosen p g true)))
        ⊎ (NoStart × NoLoopStart × (get_start_curve_indices o s ≡ err cannot_find_starting_curves))
  get_start_curve_indices_cases range = elim (get_start_curve_indices-Meets o s) [
    | inl (p, h, m, before, e) ↦ inl (
      p,
      first_guide o s p,
      h,
      starts range p h,
      Meets-BeginsOn range p h m,
      λ k b c. before k b (start-Meets range k (omega arith) c),
      e,
    )
    | inr (inl (p, none_starts, h, m, before, e)) ↦ inr (
        inl (
          p,
          first_guide o s p,
          λ k b c. none_starts k b (start-Meets range k b c),
          h,
          starts range p h,
          Meets-EndsOn range p h m,
          λ k b c. before k b (loop_start-Meets range k (omega arith) c),
          e,
        ))
    | inr (inr (none_starts, none_ends, e)) ↦ inr (
        inr (
          λ k b c. none_starts k b (start-Meets range k b c),
          λ k b c. none_ends k b (loop_start-Meets range k b c),
          e,
        ))
  ]
