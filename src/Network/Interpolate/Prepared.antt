-- ===== src/Network/Interpolate/Prepared.antt =====
-- InterpolateCurveNetwork: the number of control points, and the sorted network.
use geoml.Common.{
  ℕ, ◌+◌, ◌≤◌, ◌<◌, ◌≡◌, ◌⊎◌, inl, inr, refl, true, false, ltb, ◌==◌, some, arith, dec_lt,
}
use geoml.Common.Real.{Real, IsOrder}
use geoml.Common.Result.{ok, err}
use geoml.CommonFunctions.Values.{clamp}
use geoml.Network.{arrange, CurveOps, Sorter, cannot_find_starting_curves, printed, new_sorter}
use geoml.Network.Sorted.{IsAscending, arrange-IsAscending}
use geoml.Network.Perform.{perform_outcomes, arrange-sizes}
use geoml.Network.Interpolate.{Curves, sizes, larger_size, control_points, sort_curves}

larger_size_bounds : (a b : ℕ) → (a ≤ larger_size a b) × (b ≤ larger_size a b)
larger_size_bounds a b = (ground arith, ground arith)

-- A value between two sizes is kept, and another gives way to the nearer of them.
abbrev pub Clamped : (x low high v : ℕ) → Type 0
Clamped x low high v =
    ((v ≡ x) × (low ≤ x) × (x ≤ high)) ⊎ ((v ≡ low) × (x < low)) ⊎ ((v ≡ high) × (high < x))

clamp_sizes :
    (x low high : ℕ)
    → low ≤ high
    → (v : ℕ) × (clamp sizes x low high ≡ ok v) × (low ≤ v) × (v ≤ high) × Clamped x low high v
unfolding clamp
clamp_sizes x low high h =
    let a : ltb high low ≡ false = ground arith in
    elim (dec_lt high x) [
      | yes gt ↦
          let b : ltb high x ≡ true = ground arith in
          elim (dec_lt low high) [
            | yes lt ↦
                let c : ltb low high ≡ true = ground arith in
                (high, rw (a, b, c) refl, h, omega arith, inr (inr (refl, gt)))
            | no ge ↦
                let c : ltb low high ≡ false = ground arith in
                let e : low ≡ high = omega arith in
                (low, rw (a, b, c) refl, omega arith, h, inr (inr (e, gt)))
          ]
      | no le ↦
          let b : ltb high x ≡ false = ground arith in
          elim (dec_lt low x) [
            | yes lt ↦
                let c : ltb low x ≡ true = ground arith in
                (
                  x,
                  rw (a, b, c) refl,
                  omega arith,
                  omega arith,
                  inl (refl, omega arith, omega arith),
                )
            | no ge ↦
                let c : ltb low x ≡ false = ground arith in
                (
                  low,
                  rw (a, b, c) refl,
                  omega arith,
                  h,
                  elim (dec_lt x low) [
                    | yes lt ↦ inr (inl (refl, lt))
                    | no ge' ↦ inl (omega arith, omega arith, omega arith)
                  ],
                )
          ]
    ]

-- The call of `Clamp` for the number of control points never throws. The number is at least two more
-- than there are curves to interpolate, and at least 10; it is 80 at most, or the least number where
-- that is more; and within these bounds it is ten more than the curves have.
pub control_points_bounds :
    (n_curves max_cp : ℕ)
    → let low = larger_size (n_curves + 2) 10 in
      let high = larger_size low 80 in
      (v : ℕ) × (control_points n_curves max_cp ≡ ok v)
      × (n_curves + 2 ≤ v)
      × (10 ≤ v)
      × (v ≤ high)
      × Clamped (max_cp + 10) low high v
unfolding control_points
control_points_bounds n_curves max_cp =
    let low = larger_size (n_curves + 2) 10 in
    let (a, b) = larger_size_bounds (n_curves + 2) 10 in
    let (c, d) = larger_size_bounds low 80 in
    let (v, e, f, g, h) = clamp_sizes (max_cp + 10) low (larger_size low 80) c in
    (v, e, omega (arith, a, f), omega (arith, b, f), g, h)

module _ {ℓ κ} {W : Type ℓ} {C : Type κ} (o : Real W) (laws : IsOrder o)
    (curve : CurveOps W C) where
  -- `SortCurves` never throws for the sizes of its matrices. It leaves a network of as many curves whose
  -- intersections ascend, or the sorter finds no curves to start with.
  pub sort_curves_cases :
      (c : Curves C) (params_u params_v : ℕ → ℕ → W)
      → ((t : Sorter W C) × (sort_curves o curve c params_u params_v ≡ ok t)
          × IsAscending o laws curve t
          × (t.n_profiles ≡ c.n_profiles)
          × (t.n_guides ≡ c.n_guides))
        ⊎ (sort_curves o curve c params_u params_v ≡ err cannot_find_starting_curves)
  unfolding sort_curves new_sorter
  sort_curves_cases c params_u params_v =
      let p : (c.n_profiles == c.n_profiles) ≡ true = ground arith in
      let g : (c.n_guides == c.n_guides) ≡ true = ground arith in
      let s = sorter c params_u params_v in
      elim (perform_outcomes o laws curve s refl) [
        | inl (start, e) ↦
            let sizes = arrange-sizes o laws curve s start in
            inl (
              arrange o curve s start,
              rw (p, g) e,
              arrange-IsAscending o laws curve s start,
              sizes.0,
              sizes.1,
            )
        | inr e ↦ inr (rw (p, g) e)
      ]
    where
      sorter : Curves C → (ℕ → ℕ → W) → (ℕ → ℕ → W) → Sorter W C
      sorter c u v = record {
        n_profiles = c.n_profiles;
        n_guides = c.n_guides;
        profiles = λ i. some (c.profiles i);
        guides = λ j. some (c.guides j);
        parms_inters_profiles = u;
        parms_inters_guides = v;
        prof_idx = printed;
        guid_idx = printed;
        has_performed = false;
      }
