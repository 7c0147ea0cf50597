-- ===== src/Network/Perform.antt =====
-- `Perform` as a whole: when it throws, the direction of the curves, and that it runs once.
use geoml.Common.{ℕ, ◌-◌, ◌<◌, ◌≡◌, true, ◌⊎◌, inl, inr, false, refl, sym, ◌∙◌}
use geoml.Common.Real.{Real, IsOrder}
use geoml.Common.Result.{ok, err, Result-cases, ok-injective, ok-ne-err}
use geoml.Network.{
  reversed_parm, Sorter, StartCurves, CurveOps, cannot_find_starting_curves, orient_profiles,
  sort_guides, sort_profiles, place_start, arrange, perform, get_start_curve_indices,
}
use geoml.Network.Start.{
  InRange, IsStart, IsLoopStart, NoStart, NoLoopStart, chosen, get_start_curve_indices_cases,
  get_start_curve_indices-Meets, chosen_by_search,
}
use geoml.Network.First.{
  FirstIsLeast, start_guides, start_profiles, start_profiles_reversed, arrange-FirstIsLeast,
}
use geoml.Network.Arranged.{Arranged, arrange-Arranged}
use geoml.Network.Sorted.{
  guide_key, profile_key, SizesOf, IsAscending, arrange-IsAscending, orient_profiles-rows,
  orient_guides-cols, sort_profiles-SameGuideKeys, sort_guides-sizes, place_start-sizes,
}

module _ {ℓ κ} {W : Type ℓ} {C : Type κ} (o : Real W) (laws : IsOrder o)
    (curve : CurveOps W C) where
  pub arrange-sizes : (s : Sorter W C) (c : StartCurves) → SizesOf s (arrange o curve s c)
  unfolding arrange
  arrange-sizes s c =
      let p = place_start o curve s c in
      let g = sort_guides o curve p in
      let t = sort_profiles o curve g in
      let u = orient_profiles o curve (s.n_guides - 1) (s.n_profiles - 1) 1 t in
      let (a, _, _) = orient_profiles-rows o laws curve (s.n_guides - 1) (s.n_profiles - 1) 1 t in
      let (b, _, _) = orient_guides-cols o laws curve (s.n_profiles - 1) (s.n_guides - 1) 1 u in
      let d = place_start-sizes o laws curve s c in
      let e = sort_guides-sizes o laws curve p in
      let (f, _) = sort_profiles-SameGuideKeys o laws curve g in
      (b.0 ∙ a.0 ∙ f.0 ∙ e.0 ∙ d.0, b.1 ∙ a.1 ∙ f.1 ∙ e.1 ∙ d.1)

  -- `Perform` on a fresh sorter, where every profile and guide has a parameter below DBL_MAX and every
  -- guide has one above DBL_MIN. Where there is a profile which the guide that it starts on begins or
  -- ends on, it returns: the curves are the same ones in another order, some of them reversed, with
  -- their index strings; along the first profile the guides ascend from the first on, and along the
  -- first guide the profiles; and another call changes nothing. Where there is no such profile, it
  -- throws. Reversing a curve is taken to turn the order of its parameters round.
  pub perform_cases :
      (s : Sorter W C)
      → s.has_performed ≡ false
      → InRange o laws s
      → ((first last a b : W)
          → o.gt (reversed_parm o first last a) (reversed_parm o first last b) ≡ o.gt b a)
      → (((i : ℕ) × (i < s.n_profiles) × (IsStart o laws s i ⊎ IsLoopStart o laws s i))
          × (t : Sorter W C) × (perform o curve s ≡ ok t)
          × Arranged o curve s t
          × FirstIsLeast o laws curve guide_key s.n_guides t
          × FirstIsLeast o laws curve profile_key s.n_profiles t
          × IsAscending o laws curve t
          × (perform o curve t ≡ ok t))
        ⊎ (NoStart o laws s
            × NoLoopStart o laws s
            × (perform o curve s ≡ err cannot_find_starting_curves))
  unfolding perform
  perform_cases s fresh range anti = elim (get_start_curve_indices_cases o laws s range) [
    | inl (p, g, h, on, begin, _, e) ↦
        let c = chosen o laws s p g false in
        let (t, run, same_curves, guides, profiles, ascending, again) =
          found c e h on.0 (start_guides o laws curve s c on)
            (start_profiles o laws curve s p g begin) in
        inl ((p, h, inl (g, on, begin)), t, run, same_curves, guides, profiles, ascending, again)
    | inr (inl (p, g, _, h, on, end, _, e)) ↦
        let c = chosen o laws s p g true in
        let (t, run, same_curves, guides, profiles, ascending, again) =
          found c e h on.0 (start_guides o laws curve s c on)
            (start_profiles_reversed o laws curve s p g anti end) in
        inl ((p, h, inr (g, on, end)), t, run, same_curves, guides, profiles, ascending, again)
    | inr (inr (a, b, e)) ↦ inr (a, b, simp (fresh, e))
  ]
    where
      found :
          (c : StartCurves)
          → get_start_curve_indices o s ≡ ok c
          → c.prof_start < s.n_profiles
          → c.guid_start < s.n_guides
          → FirstIsLeast o laws curve guide_key s.n_guides (place_start o curve s c)
          → FirstIsLeast o laws curve profile_key s.n_profiles (place_start o curve s c)
          → (t : Sorter W C) × (perform o curve s ≡ ok t)
            × Arranged o curve s t
            × FirstIsLeast o laws curve guide_key s.n_guides t
            × FirstIsLeast o laws curve profile_key s.n_profiles t
            × IsAscending o laws curve t
            × (perform o curve t ≡ ok t)
      found c e hp hg guides profiles =
          let (guides', profiles') = arrange-FirstIsLeast o laws curve s c guides profiles in
          (
            arrange o curve s c,
            simp (fresh, e),
            arrange-Arranged o curve s c hp hg,
            guides',
            profiles',
            arrange-IsAscending o laws curve s c,
            unfold arrange in refl,
          )

  -- The two outcomes, for any parameters.
  pub perform_outcomes :
      (s : Sorter W C)
      → s.has_performed ≡ false
      → ((c : StartCurves) × (perform o curve s ≡ ok (arrange o curve s c)))
        ⊎ (perform o curve s ≡ err cannot_find_starting_curves)
  unfolding perform
  perform_outcomes s fresh = elim (get_start_curve_indices-Meets o s) [
    | inl (p, _, _, _, e) ↦ inl (chosen_by_search o s p false, simp (fresh, e))
    | inr (inl (p, _, _, _, _, e)) ↦ inl (chosen_by_search o s p true, simp (fresh, e))
    | inr (inr (_, _, e)) ↦ inr (simp (fresh, e))
  ]

  -- A fresh sorter's result is the arranged network, for some start curves.
  pub perform-ok :
      (s t : Sorter W C)
      → s.has_performed ≡ false
      → perform o curve s ≡ ok t
      → (c : StartCurves) × (t ≡ arrange o curve s c)
  unfolding perform
  perform-ok s t fresh e = elim (Result-cases (get_start_curve_indices o s)) [
    | inl (c, f) ↦ (c, ok-injective (sym e ∙ simp (fresh, f)))
    | inr (x, f) ↦ absurd (ok-ne-err {e = x} (sym e ∙ simp (fresh, f)))
  ]
