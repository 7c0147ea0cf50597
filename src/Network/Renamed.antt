-- ===== src/Network/Renamed.antt =====
-- The exchanges of the sorter reorder the network as a whole: one reordering of the profiles and one
-- of the guides, applied to the curves, the index strings and both matrices.
use geoml.Common.{ℕ, ◌+◌, ◌≤◌, ◌<◌, ◌≡◌, arith, ◌==◌, refl, ◌∙◌, ap, Bool-cases, inl, inr}
use geoml.Common.Reorder.{swap-index, Reorder, same_order, after, exchange}
use geoml.Common.Real.{Real}
use geoml.Network.{Sorter, CurveOps, swap_profiles, swap_guides, sort_guides, sort_profiles}
use geoml.Network.Bubble.{bubble_keeps}
use geoml.Network.Sorted.{SizesOf, guide_key, profile_key}

module _ {ℓ κ} {W : Type ℓ} {C : Type κ} where
  -- `t` is `s` with its profiles and guides reordered.
  pub record IsReordered (s t : Sorter W C) (p : Reorder s.n_profiles) (g : Reorder s.n_guides)
      : Type (ℓ ⊔ κ) where
    pub sizes : SizesOf s t
    pub profiles_same : (i : ℕ) → t.profiles i ≡ s.profiles (p.to i)
    pub guides_same : (j : ℕ) → t.guides j ≡ s.guides (g.to j)
    pub prof_idx_same : (i : ℕ) → t.prof_idx i ≡ s.prof_idx (p.to i)
    pub guid_idx_same : (j : ℕ) → t.guid_idx j ≡ s.guid_idx (g.to j)
    pub inters_profiles_same :
        (i j : ℕ) → t.parms_inters_profiles i j ≡ s.parms_inters_profiles (p.to i) (g.to j)
    pub inters_guides_same :
        (i j : ℕ) → t.parms_inters_guides i j ≡ s.parms_inters_guides (p.to i) (g.to j)

  abbrev pub Reordered : Sorter W C → Sorter W C → Type (ℓ ⊔ κ)
  Reordered s t = (p : Reorder s.n_profiles) × (g : Reorder s.n_guides) × IsReordered s t p g

  Reordered-refl : (s : Sorter W C) → Reordered s s
  unfolding same_order
  Reordered-refl s = (
    same_order s.n_profiles,
    same_order s.n_guides,
    record {
      sizes = (refl, refl);
      profiles_same = λ i. refl;
      guides_same = λ i. refl;
      prof_idx_same = λ i. refl;
      guid_idx_same = λ i. refl;
      inters_profiles_same = λ i j. refl;
      inters_guides_same = λ i j. refl;
    },
  )

  swap_profiles-Reordered :
      (s t : Sorter W C) (a b : ℕ)
      → a < s.n_profiles
      → b < s.n_profiles
      → Reordered s t
      → Reordered s (swap_profiles t a b)
  unfolding swap_profiles after exchange
  swap_profiles-Reordered s t a b ha hb (p, g, r) = elim (Bool-cases (a == b)) [
    | inl e ↦ rw (e, swap_profiles) (p, g, r)
    | inr e ↦
        rw (e, swap_profiles)
          (
            after p (exchange s.n_profiles a b ha hb),
            g,
            record {
              sizes = r.sizes;
              profiles_same = λ i. swap-index t.profiles a b i ∙ r.profiles_same _;
              guides_same = r.guides_same;
              prof_idx_same = λ i. swap-index t.prof_idx a b i ∙ r.prof_idx_same _;
              guid_idx_same = r.guid_idx_same;
              inters_profiles_same = λ i j.
                  ap (λ row. row j) (swap-index t.parms_inters_profiles a b i)
                  ∙ r.inters_profiles_same _ j;
              inters_guides_same = λ i j.
                  ap (λ row. row j) (swap-index t.parms_inters_guides a b i)
                  ∙ r.inters_guides_same _ j;
            },
          )
  ]

  swap_guides-Reordered :
      (s t : Sorter W C) (a b : ℕ)
      → a < s.n_guides
      → b < s.n_guides
      → Reordered s t
      → Reordered s (swap_guides t a b)
  unfolding swap_guides after exchange
  swap_guides-Reordered s t a b ha hb (p, g, r) = elim (Bool-cases (a == b)) [
    | inl e ↦ rw (e, swap_guides) (p, g, r)
    | inr e ↦
        rw (e, swap_guides)
          (
            p,
            after g (exchange s.n_guides a b ha hb),
            record {
              sizes = r.sizes;
              profiles_same = r.profiles_same;
              guides_same = λ j. swap-index t.guides a b j ∙ r.guides_same _;
              prof_idx_same = r.prof_idx_same;
              guid_idx_same = λ j. swap-index t.guid_idx a b j ∙ r.guid_idx_same _;
              inters_profiles_same =
                  λ i j. swap-index (t.parms_inters_profiles i) a b j ∙ r.inters_profiles_same i _;
              inters_guides_same =
                  λ i j. swap-index (t.parms_inters_guides i) a b j ∙ r.inters_guides_same i _;
            },
          )
  ]

  module _ (o : Real W) (curve : CurveOps W C) where
    sort_guides-Reordered : (s t : Sorter W C) → Reordered s t → Reordered s (sort_guides o curve t)
    unfolding sort_guides
    sort_guides-Reordered s t r =
        let fits : t.n_guides ≤ s.n_guides = omega (arith, r.2.sizes.1) in
        bubble_keeps o.gt guide_key swap_guides (Reordered s) s.n_guides
          (λ u j a b q. swap_guides-Reordered s u j (j + 1) (omega arith) b q) t.n_guides t fits r

    sort_profiles-Reordered :
        (s t : Sorter W C) → Reordered s t → Reordered s (sort_profiles o curve t)
    unfolding sort_profiles
    sort_profiles-Reordered s t r =
        let fits : t.n_profiles ≤ s.n_profiles = omega (arith, r.2.sizes.0) in
        bubble_keeps o.gt profile_key swap_profiles (Reordered s) s.n_profiles
          (λ u j a b q. swap_profiles-Reordered s u j (j + 1) (omega arith) b q) t.n_profiles t fits
          r

    -- The two sorts neither lose nor duplicate a curve, and move the index strings and both
    -- matrices along with the curves.
    pub sorts-Reordered :
        (s : Sorter W C) → Reordered s (sort_profiles o curve (sort_guides o curve s))
    sorts-Reordered s = sort_profiles-Reordered s _ (sort_guides-Reordered s s (Reordered-refl s))
