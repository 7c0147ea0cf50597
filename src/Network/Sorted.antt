-- ===== src/Network/Sorted.antt =====
-- What `Perform` establishes: the order of the curves, and that it runs once.
use geoml.Common.{ℕ, zero, suc, ◌+◌, ◌-◌, ◌≤◌, ◌<◌, ◌≡◌, ◌≢◌, arith, refl, ◌∙◌}
use geoml.Common.Real.{Real, IsOrder, Le}
use geoml.Network.{
  Sorter, StartCurves, CurveOps, swap_profiles, swap_guides, reverse_profile, reverse_guide,
  sort_guides, sort_profiles, orient_profile, orient_guide, orient_profiles, orient_guides,
  place_start, arrange,
}
use geoml.Common.Reorder.{swap}
use geoml.Network.Bubble.{Swaps, bubble_ascending, bubble_keeps}

module _ {ℓ κ} {W : Type ℓ} {C : Type κ} where
  abbrev pub guide_key : Sorter W C → ℕ → W
  guide_key s j = s.parms_inters_profiles 0 j

  abbrev pub profile_key : Sorter W C → ℕ → W
  profile_key s i = s.parms_inters_guides i 0

  pub swap_guides-Swaps : Swaps guide_key swap_guides
  unfolding swap_guides swap
  swap_guides-Swaps s j k = ground arith

  pub swap_profiles-Swaps : Swaps profile_key swap_profiles
  unfolding swap_profiles swap
  swap_profiles-Swaps s j k = ground arith

  abbrev pub SizesOf : Sorter W C → Sorter W C → Type 0
  SizesOf s t = (t.n_profiles ≡ s.n_profiles) × (t.n_guides ≡ s.n_guides)

  pub swap_profiles-sizes : (s : Sorter W C) (i j : ℕ) → SizesOf s (swap_profiles s i j)
  unfolding swap_profiles
  swap_profiles-sizes s i j = ground arith

  pub swap_guides-sizes : (s : Sorter W C) (i j : ℕ) → SizesOf s (swap_guides s i j)
  unfolding swap_guides
  swap_guides-sizes s i j = ground arith

  -- An exchange of later profiles leaves the first profile, by which the guides are sorted.
  swap_profiles-guide_key :
      (s : Sorter W C) (i j k : ℕ)
      → 1 ≤ i
      → 1 ≤ j
      → guide_key (swap_profiles s i j) k ≡ guide_key s k
  unfolding swap_profiles swap
  swap_profiles-guide_key s i j k a b = ground arith

module _ {ℓ κ} {W : Type ℓ} {C : Type κ} (o : Real W) (laws : IsOrder o)
    (curve : CurveOps W C) where
  sort_guides_ascending :
      (s : Sorter W C) (k : ℕ)
      → 1 ≤ k
      → k + 1 < s.n_guides
      → let t = sort_guides o curve s in Le o (guide_key t k) (guide_key t (k + 1))
  unfolding sort_guides
  sort_guides_ascending s k =
      bubble_ascending o laws guide_key swap_guides swap_guides-Swaps s.n_guides s k

  sort_profiles_ascending :
      (s : Sorter W C) (k : ℕ)
      → 1 ≤ k
      → k + 1 < s.n_profiles
      → let t = sort_profiles o curve s in Le o (profile_key t k) (profile_key t (k + 1))
  unfolding sort_profiles
  sort_profiles_ascending s k =
      bubble_ascending o laws profile_key swap_profiles swap_profiles-Swaps s.n_profiles s k

  -- The sizes and the keys of the guides, which the sort of the profiles keeps.
  abbrev pub SameGuideKeys : Sorter W C → Sorter W C → Type ℓ
  SameGuideKeys s t = SizesOf s t × ((k : ℕ) → guide_key t k ≡ guide_key s k)

  pub sort_profiles-SameGuideKeys : (s : Sorter W C) → SameGuideKeys s (sort_profiles o curve s)
  unfolding sort_profiles
  sort_profiles-SameGuideKeys s =
      bubble_keeps o.gt profile_key swap_profiles (SameGuideKeys s) s.n_profiles
        (λ t j a b q.
          let (m, n) = swap_profiles-sizes t j (j + 1) in
          (
            (m ∙ q.0.0, n ∙ q.0.1),
            λ k. swap_profiles-guide_key t j (j + 1) k a (omega arith) ∙ q.1 k,
          ))
        s.n_profiles s (omega arith) ((refl, refl), λ k. refl)

  pub sort_guides-sizes : (s : Sorter W C) → SizesOf s (sort_guides o curve s)
  unfolding sort_guides
  sort_guides-sizes s =
      bubble_keeps o.gt guide_key swap_guides (SizesOf s) s.n_guides
        (λ t j a b q. let (m, n) = swap_guides-sizes t j (j + 1) in (m ∙ q.0, n ∙ q.1)) s.n_guides s
        (omega arith) (refl, refl)

  pub place_start-sizes : (s : Sorter W C) (c : StartCurves) → SizesOf s (place_start o curve s c)
  unfolding place_start reverse_guide
  place_start-sizes s c =
      let (m, n) = swap_profiles-sizes s 0 c.prof_start in
      let (m', n') = swap_guides-sizes (swap_profiles s 0 c.prof_start) 0 c.guid_start in
      ground arith

  -- What a reversal of profile `k` leaves: the other rows, and the guides' matrix.
  abbrev pub SameBut : ℕ → Sorter W C → Sorter W C → Type ℓ
  SameBut k s t =
      SizesOf s t
      × ((i j : ℕ) → i ≢ k → t.parms_inters_profiles i j ≡ s.parms_inters_profiles i j)
      × (t.parms_inters_guides ≡ s.parms_inters_guides)

  abbrev pub SameButGuide : ℕ → Sorter W C → Sorter W C → Type ℓ
  SameButGuide k s t =
      SizesOf s t
      × ((i j : ℕ) → j ≢ k → t.parms_inters_guides i j ≡ s.parms_inters_guides i j)
      × (t.parms_inters_profiles ≡ s.parms_inters_profiles)

  pub orient_profile-SameBut :
      (last k : ℕ) (s : Sorter W C) → SameBut k s (orient_profile o curve last s k)
  unfolding orient_profile reverse_profile
  orient_profile-SameBut last k s = (ground arith, λ i j h. ground arith, ground arith)

  pub orient_guide-SameButGuide :
      (last k : ℕ) (s : Sorter W C) → SameButGuide k s (orient_guide o curve last s k)
  unfolding orient_guide reverse_guide
  orient_guide-SameButGuide last k s = (ground arith, λ i j h. ground arith, ground arith)

  -- The loops leave the rows, or the columns, before `k`, and the other matrix.
  pub orient_profiles-rows :
      (last n k : ℕ) (s : Sorter W C)
      → let t = orient_profiles o curve last n k s in
        SizesOf s t
        × ((i j : ℕ) → i < k → t.parms_inters_profiles i j ≡ s.parms_inters_profiles i j)
        × (t.parms_inters_guides ≡ s.parms_inters_guides)
  unfolding orient_profiles
  orient_profiles-rows last zero k s = ((refl, refl), λ i j h. refl, refl)
  orient_profiles-rows last (suc n) k s =
      let (a, b, c) = orient_profile-SameBut last k s in
      let (d, e, f) = orient_profiles-rows last n (k + 1) (orient_profile o curve last s k) in
      ((d.0 ∙ a.0, d.1 ∙ a.1), λ i j h. e i j (omega arith) ∙ b i j (omega arith), f ∙ c)

  pub orient_guides-cols :
      (last n k : ℕ) (s : Sorter W C)
      → let t = orient_guides o curve last n k s in
        SizesOf s t
        × ((i j : ℕ) → j < k → t.parms_inters_guides i j ≡ s.parms_inters_guides i j)
        × (t.parms_inters_profiles ≡ s.parms_inters_profiles)
  unfolding orient_guides
  orient_guides-cols last zero k s = ((refl, refl), λ i j h. refl, refl)
  orient_guides-cols last (suc n) k s =
      let (a, b, c) = orient_guide-SameButGuide last k s in
      let (d, e, f) = orient_guides-cols last n (k + 1) (orient_guide o curve last s k) in
      ((d.0 ∙ a.0, d.1 ∙ a.1), λ i j h. e i j (omega arith) ∙ b i j (omega arith), f ∙ c)

  -- The order of the network: along the first profile the guides ascend, and along the first guide
  -- the profiles, each from its second curve on.
  pub record IsAscending (t : Sorter W C) : Type 0 where
    pub guides_ascend :
        (k : ℕ) → 1 ≤ k → k + 1 < t.n_guides → Le o (guide_key t k) (guide_key t (k + 1))
    pub profiles_ascend :
        (k : ℕ) → 1 ≤ k → k + 1 < t.n_profiles → Le o (profile_key t k) (profile_key t (k + 1))

  sorts-IsAscending : (s : Sorter W C) → IsAscending (sort_profiles o curve (sort_guides o curve s))
  sorts-IsAscending s =
      let u = sort_guides o curve s in
      let (sizes, keys) = sort_profiles-SameGuideKeys u in
      let (m, n) = sort_guides-sizes s in
      record {
        guides_ascend = λ k a b.
            rw (keys k, keys (k + 1)) (sort_guides_ascending s k a (omega (arith, sizes.1, n)));
        profiles_ascend = λ k a b. sort_profiles_ascending u k a (omega (arith, sizes.0));
      }

  pub arrange-IsAscending : (s : Sorter W C) (c : StartCurves) → IsAscending (arrange o curve s c)
  unfolding arrange
  arrange-IsAscending s c =
      let t = sort_profiles o curve (sort_guides o curve (place_start o curve s c)) in
      let u = orient_profiles o curve (s.n_guides - 1) (s.n_profiles - 1) 1 t in
      let v = sorts-IsAscending (place_start o curve s c) in
      let (a, b, c) = orient_profiles-rows (s.n_guides - 1) (s.n_profiles - 1) 1 t in
      let (d, e, f) = orient_guides-cols (s.n_profiles - 1) (s.n_guides - 1) 1 u in
      record {
        guides_ascend = λ k x y.
            rw (f, b 0 k (omega arith), b 0 (k + 1) (omega arith))
              (v.guides_ascend k x (omega (arith, a.1, d.1)));
        profiles_ascend = λ k x y.
            rw (e k 0 (omega arith), e (k + 1) 0 (omega arith), c)
              (v.profiles_ascend k x (omega (arith, a.0, d.0)));
      }
