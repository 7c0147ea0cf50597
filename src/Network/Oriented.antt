-- ===== src/Network/Oriented.antt =====
-- After `Perform` every profile runs along the first guide's side, and every guide along the first
-- profile's: the parameters at the two ends do not fall.
use geoml.Common.{
  ℕ, zero, suc, ◌+◌, ◌-◌, ◌≤◌, ◌<◌, ◌≡◌, inl, inr, false, arith, Bool-cases, ◌∙◌, ℕ_discrete,
}
use geoml.Common.Real.{Real, IsOrder, Le}
use geoml.Common.Result.{ok}
use geoml.Network.{
  Sorter, StartCurves, CurveOps, reversed_parm, reverse_profile, reverse_guide, profile_first,
  profile_last, guide_first, guide_last, perform, orient_profile, orient_guide, orient_profiles,
  orient_guides, sort_guides, sort_profiles, place_start, arrange,
}
use geoml.Network.Perform.{arrange-sizes, perform-ok}
use geoml.Network.Sorted.{orient_profiles-rows, orient_guides-cols}

module _ {ℓ κ} {W : Type ℓ} {C : Type κ} (o : Real W) (laws : IsOrder o) (curve : CurveOps W C)
    (anti : (first last a b : W)
      → o.gt (reversed_parm o first last a) (reversed_parm o first last b) ≡ o.gt b a) where
  reverse_profile-row :
      (s : Sorter W C) (k j : ℕ)
      → (reverse_profile o curve s k).parms_inters_profiles k j
        ≡ reversed_parm o
            (profile_first o curve s k)
            (profile_last o curve s k)
            (s.parms_inters_profiles k j)
  unfolding reverse_profile
  reverse_profile-row s k j = ground arith

  reverse_guide-col :
      (s : Sorter W C) (k i : ℕ)
      → (reverse_guide o curve s k).parms_inters_guides i k
        ≡ reversed_parm o
            (guide_first o curve s k)
            (guide_last o curve s k)
            (s.parms_inters_guides i k)
  unfolding reverse_guide
  reverse_guide-col s k i = ground arith

  -- One step of a loop turns its curve the right way.
  orient_profile-Le :
      (last k : ℕ) (s : Sorter W C)
      → let t = orient_profile o curve last s k in
        Le o (t.parms_inters_profiles k 0) (t.parms_inters_profiles k last)
  unfolding orient_profile
  orient_profile-Le last k s =
      let a = s.parms_inters_profiles k 0 in
      let b = s.parms_inters_profiles k last in
      elim (Bool-cases (o.gt a b)) [
        | inl e ↦
            rw (e, orient_profile, reverse_profile-row s k 0, reverse_profile-row s k last)
              (anti _ _ a b ∙ laws.asymm a b e)
        | inr e ↦ rw (e, orient_profile) e
      ]

  orient_guide-Le :
      (last k : ℕ) (s : Sorter W C)
      → let t = orient_guide o curve last s k in
        Le o (t.parms_inters_guides 0 k) (t.parms_inters_guides last k)
  unfolding orient_guide
  orient_guide-Le last k s =
      let a = s.parms_inters_guides 0 k in
      let b = s.parms_inters_guides last k in
      elim (Bool-cases (o.gt a b)) [
        | inl e ↦
            rw (e, orient_guide, reverse_guide-col s k 0, reverse_guide-col s k last)
              (anti _ _ a b ∙ laws.asymm a b e)
        | inr e ↦ rw (e, orient_guide) e
      ]

  -- The loops turn all of their curves the right way.
  orient_profiles-Le :
      (last n k : ℕ) (s : Sorter W C) (i : ℕ)
      → k ≤ i
      → i < k + n
      → let t = orient_profiles o curve last n k s in
        Le o (t.parms_inters_profiles i 0) (t.parms_inters_profiles i last)
  unfolding orient_profiles
  orient_profiles-Le last zero k s i a b = absurd (omega arith)
  orient_profiles-Le last (suc n) k s i a b = elim (ℕ_discrete i k) [
    | yes e ↦
        let t = orient_profile o curve last s k in
        let (_, kept, _) = orient_profiles-rows o laws curve last n (k + 1) t in
        rw (kept i 0 (omega arith), kept i last (omega arith), e) (orient_profile-Le last k s)
    | no ne ↦ orient_profiles-Le last n (k + 1) _ i (omega arith) (omega arith)
  ]

  orient_guides-Le :
      (last n k : ℕ) (s : Sorter W C) (j : ℕ)
      → k ≤ j
      → j < k + n
      → let t = orient_guides o curve last n k s in
        Le o (t.parms_inters_guides 0 j) (t.parms_inters_guides last j)
  unfolding orient_guides
  orient_guides-Le last zero k s j a b = absurd (omega arith)
  orient_guides-Le last (suc n) k s j a b = elim (ℕ_discrete j k) [
    | yes e ↦
        let t = orient_guide o curve last s k in
        let (_, kept, _) = orient_guides-cols o laws curve last n (k + 1) t in
        rw (kept 0 j (omega arith), kept last j (omega arith), e) (orient_guide-Le last k s)
    | no ne ↦ orient_guides-Le last n (k + 1) _ j (omega arith) (omega arith)
  ]

  -- Every curve but the first runs the right way: its parameter where it meets the first curve of
  -- the other family is not above that where it meets the last one.
  pub record IsOriented (t : Sorter W C) : Type 0 where
    pub profiles_run :
        (i : ℕ)
        → 1 ≤ i
        → i < t.n_profiles
        → Le o (t.parms_inters_profiles i 0) (t.parms_inters_profiles i (t.n_guides - 1))
    pub guides_run :
        (j : ℕ)
        → 1 ≤ j
        → j < t.n_guides
        → Le o (t.parms_inters_guides 0 j) (t.parms_inters_guides (t.n_profiles - 1) j)

  arrange-IsOriented : (s : Sorter W C) (c : StartCurves) → IsOriented (arrange o curve s c)
  arrange-IsOriented s c =
      let t = sort_profiles o curve (sort_guides o curve (place_start o curve s c)) in
      let u = orient_profiles o curve (s.n_guides - 1) (s.n_profiles - 1) 1 t in
      let (_, _, f) = orient_guides-cols o laws curve (s.n_profiles - 1) (s.n_guides - 1) 1 u in
      let (m, n) = arrange-sizes o laws curve s c in
      record {
        profiles_run = λ i a b. rw n (
            unfold arrange in
            rw f
              (orient_profiles-Le (s.n_guides - 1) (s.n_profiles - 1) 1 t i a (omega (arith, m))));
        guides_run = λ j a b. rw m (
            unfold arrange in
            orient_guides-Le (s.n_profiles - 1) (s.n_guides - 1) 1 u j a (omega (arith, n)));
      }

  -- After a `Perform` on a fresh sorter that returns, along every profile but the first the
  -- parameter at the first guide is at most that at the last guide, and along every guide but the
  -- first the parameter at the first profile is at most that at the last, where reversing a curve
  -- turns the order of its parameters round.
  pub perform-IsOriented :
      (s t : Sorter W C) → s.has_performed ≡ false → perform o curve s ≡ ok t → IsOriented t
  perform-IsOriented s t fresh e =
      let (c, p) = perform-ok o laws curve s t fresh e in rw p (arrange-IsOriented s c)
