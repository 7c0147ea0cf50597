-- ===== src/Network/First.antt =====
-- After `Perform` the start curves come first: no guide meets the first profile before the first guide,
-- and no profile meets the first guide before the first profile.
use geoml.Common.{ℕ, ◌+◌, ◌-◌, ◌≤◌, ◌<◌, ◌≡◌, arith, ◌∙◌, true, false, refl}
use geoml.Common.Real.{Real, IsOrder, Le}
use geoml.Common.Reorder.{swap}
use geoml.Network.{
  Sorter, StartCurves, CurveOps, reversed_parm, swap_profiles, swap_guides, reverse_guide,
  guide_first, guide_last, sort_guides, sort_profiles, orient_profiles, place_start, arrange,
}
use geoml.Network.Bubble.{bubble_keeps, Swaps}
use geoml.Network.Scan.{IsFirstLeast, IsFirstGreatest}
use geoml.Network.Start.{StartsOn, BeginsOn, EndsOn, chosen}
use geoml.Network.Sorted.{
  guide_key, profile_key, swap_guides-Swaps, swap_profiles-Swaps, sort_profiles-SameGuideKeys,
  orient_profiles-rows, orient_guides-cols, place_start-sizes, sort_guides-sizes,
}

module _ {ℓ κ} {W : Type ℓ} {C : Type κ} (o : Real W) (laws : IsOrder o)
    (curve : CurveOps W C) where
  -- No key below `n` is less than the first.
  abbrev pub FirstIsLeast : (Sorter W C → ℕ → W) → ℕ → Sorter W C → Type 0
  FirstIsLeast key n s = (k : ℕ) → k < n → Le o (key s 0) (key s k)

  -- An exchange of two later curves.
  exchange_keeps :
      (key : Sorter W C → ℕ → W) (exchange : Sorter W C → ℕ → ℕ → Sorter W C)
      → Swaps key exchange
      → (n : ℕ) (s : Sorter W C) (j : ℕ) → 1 ≤ j
      → j + 1 < n
      → FirstIsLeast key n s
      → FirstIsLeast key n (exchange s j (j + 1))
  unfolding swap
  exchange_keeps key exchange swaps n s j a b p k h =
      ground (arith, swaps s j 0, swaps s j k, p k h, p j (omega arith), p (j + 1) b)

  sort_guides-FirstIsLeast :
      (n : ℕ) (s : Sorter W C)
      → s.n_guides ≤ n
      → FirstIsLeast guide_key n s
      → FirstIsLeast guide_key n (sort_guides o curve s)
  unfolding sort_guides
  sort_guides-FirstIsLeast n s fits p =
      bubble_keeps o.gt guide_key swap_guides (FirstIsLeast guide_key n) n
        (λ u j a b q. exchange_keeps guide_key swap_guides swap_guides-Swaps n u j a b q) s.n_guides
        s fits p

  sort_profiles-FirstIsLeast :
      (n : ℕ) (s : Sorter W C)
      → s.n_profiles ≤ n
      → FirstIsLeast profile_key n s
      → FirstIsLeast profile_key n (sort_profiles o curve s)
  unfolding sort_profiles
  sort_profiles-FirstIsLeast n s fits p =
      bubble_keeps o.gt profile_key swap_profiles (FirstIsLeast profile_key n) n
        (λ u j a b q. exchange_keeps profile_key swap_profiles swap_profiles-Swaps n u j a b q)
        s.n_profiles s fits p

  -- The sort of the guides leaves the first one.
  swap_guides-profile_key :
      (s : Sorter W C) (i j k : ℕ)
      → 1 ≤ i
      → 1 ≤ j
      → profile_key (swap_guides s i j) k ≡ profile_key s k
  unfolding swap_guides swap
  swap_guides-profile_key s i j k a b = ground arith

  sort_guides-profile_key :
      (s : Sorter W C) (k : ℕ) → profile_key (sort_guides o curve s) k ≡ profile_key s k
  unfolding sort_guides
  sort_guides-profile_key s k =
      bubble_keeps o.gt guide_key swap_guides (λ t. profile_key t k ≡ profile_key s k) s.n_guides
        (λ t j a b q. swap_guides-profile_key t j (j + 1) k a (omega arith) ∙ q) s.n_guides s
        (omega arith) refl

  -- The keys before and after the curves of the start are put first.
  start_guide_key :
      (s : Sorter W C) (c : StartCurves) (k : ℕ)
      → guide_key (place_start o curve s c) k
        ≡ swap (s.parms_inters_profiles c.prof_start) 0 c.guid_start k
  unfolding place_start swap_profiles swap_guides swap reverse_guide
  start_guide_key s c k = ground arith

  start_profile_key :
      (s : Sorter W C) (p g k : ℕ)
      → profile_key (place_start o curve s (chosen o laws s p g false)) k
        ≡ swap (λ i. s.parms_inters_guides i g) 0 p k
  unfolding place_start swap_profiles swap_guides swap
  start_profile_key s p g k = ground arith

  start_reversed_key :
      (s : Sorter W C) (p g k : ℕ)
      → let t = swap_guides (swap_profiles s 0 p) 0 g in
        profile_key (place_start o curve s (chosen o laws s p g true)) k
        ≡ reversed_parm o
            (guide_first o curve t 0)
            (guide_last o curve t 0)
            (swap (λ i. s.parms_inters_guides i g) 0 p k)
  unfolding place_start swap_profiles swap_guides swap reverse_guide
  start_reversed_key s p g k = ground arith

  least_first :
      (f : ℕ → W) (n r : ℕ)
      → IsFirstLeast o laws f n r
      → (k : ℕ) → k < n
      → Le o (swap f 0 r 0) (swap f 0 r k)
  unfolding swap
  least_first f n r (a, b, _) k h = ground (arith, b k h, b r a, b 0 (omega arith))

  greatest_first :
      (f : ℕ → W) (n r : ℕ)
      → IsFirstGreatest o laws f n r
      → (k : ℕ) → k < n
      → Le o (swap f 0 r k) (swap f 0 r 0)
  unfolding swap
  greatest_first f n r (a, b, _) k h = ground (arith, b k h, b r a, b 0 (omega arith))

  pub start_guides :
      (s : Sorter W C) (c : StartCurves)
      → StartsOn o laws s c.prof_start c.guid_start
      → FirstIsLeast guide_key s.n_guides (place_start o curve s c)
  start_guides s c on k h =
      rw (start_guide_key s c 0, start_guide_key s c k)
        (least_first (s.parms_inters_profiles c.prof_start) s.n_guides c.guid_start on k h)

  pub start_profiles :
      (s : Sorter W C) (p g : ℕ)
      → BeginsOn o laws s g p
      → FirstIsLeast profile_key s.n_profiles (place_start o curve s (chosen o laws s p g false))
  start_profiles s p g begin k h =
      rw (start_profile_key s p g 0, start_profile_key s p g k)
        (least_first (λ i. s.parms_inters_guides i g) s.n_profiles p begin k h)

  pub start_profiles_reversed :
      (s : Sorter W C) (p g : ℕ)
      → ((first last a b : W)
          → o.gt (reversed_parm o first last a) (reversed_parm o first last b) ≡ o.gt b a)
      → EndsOn o laws s g p
      → FirstIsLeast profile_key s.n_profiles (place_start o curve s (chosen o laws s p g true))
  start_profiles_reversed s p g anti end k h =
      rw (start_reversed_key s p g 0, start_reversed_key s p g k)
        (anti _ _ _ _ ∙ greatest_first (λ i. s.parms_inters_guides i g) s.n_profiles p end k h)

  -- Both stay so.
  pub arrange-FirstIsLeast :
      (s : Sorter W C) (c : StartCurves)
      → FirstIsLeast guide_key s.n_guides (place_start o curve s c)
      → FirstIsLeast profile_key s.n_profiles (place_start o curve s c)
      → FirstIsLeast guide_key s.n_guides (arrange o curve s c)
        × FirstIsLeast profile_key s.n_profiles (arrange o curve s c)
  unfolding arrange
  arrange-FirstIsLeast s c guides profiles =
      let start = place_start o curve s c in
      let v = sort_guides o curve start in
      let t = sort_profiles o curve v in
      let u = orient_profiles o curve (s.n_guides - 1) (s.n_profiles - 1) 1 t in
      let (size, _) = place_start-sizes o laws curve s c in
      let (_, size') = place_start-sizes o laws curve s c in
      let (size_v, _) = sort_guides-sizes o laws curve start in
      let (_, keys) = sort_profiles-SameGuideKeys o laws curve v in
      let (_, rows, same) =
        orient_profiles-rows o laws curve (s.n_guides - 1) (s.n_profiles - 1) 1 t in
      let (_, cols, same') =
        orient_guides-cols o laws curve (s.n_profiles - 1) (s.n_guides - 1) 1 u in
      let sorted_guides = sort_guides-FirstIsLeast s.n_guides start (omega (arith, size')) guides in
      let sorted_profiles =
        sort_profiles-FirstIsLeast s.n_profiles v (omega (arith, size, size_v)) (λ k h.
          rw (sort_guides-profile_key start 0, sort_guides-profile_key start k) (profiles k h)) in
      (
        λ k h.
            rw (same', rows 0 0 (omega arith), rows 0 k (omega arith), keys 0, keys k)
              (sorted_guides k h),
        λ k h. rw (cols 0 0 (omega arith), cols k 0 (omega arith), same) (sorted_profiles k h),
      )
