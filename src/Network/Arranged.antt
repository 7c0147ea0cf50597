-- ===== src/Network/Arranged.antt =====
-- `Perform` neither loses nor duplicates a curve: it reorders them and reverses some of them.
use geoml.Common.{ℕ, zero, suc, ◌+◌, ◌-◌, ◌≤◌, ◌<◌, arith, ◌==◌, refl, Bool-cases, inl, inr, Option}
use geoml.Common.Reorder.{swap-index, Reorder, same_order, after, exchange}
use geoml.Common.Real.{Real}
use geoml.Network.{
  Sorter, CurveOps, IndexString, minus, StartCurves, reverse_curve, swap_profiles, swap_guides,
  reverse_profile, reverse_guide, sort_guides, sort_profiles, orient_profile, orient_guide,
  orient_profiles, orient_guides, place_start, arrange,
}
use geoml.Network.Bubble.{bubble_keeps}
use geoml.Network.Sorted.{SizesOf, guide_key, profile_key}

module _ {ℓ κ} {W : Type ℓ} {C : Type κ} (o : Real W) (curve : CurveOps W C) where
  -- A curve and its index string after some reversals.
  pub data Turned (c : Option C) (id : IndexString) : Option C → IndexString → Type κ where
    same : Turned c id c id
    turned :
        {d : Option C} {name : IndexString}
        → Turned c id d name
        → Turned c id (reverse_curve o curve d) (minus name)

  -- The curves of `t` are those of `s` in another order, some of them reversed.
  pub record IsArranged (s t : Sorter W C) (p : Reorder s.n_profiles) (g : Reorder s.n_guides)
      : Type (ℓ ⊔ κ) where
    pub sizes : SizesOf s t
    pub profiles_from :
        (i : ℕ) → Turned (s.profiles (p.to i)) (s.prof_idx (p.to i)) (t.profiles i) (t.prof_idx i)
    pub guides_from :
        (j : ℕ) → Turned (s.guides (g.to j)) (s.guid_idx (g.to j)) (t.guides j) (t.guid_idx j)

  abbrev pub Arranged : Sorter W C → Sorter W C → Type (ℓ ⊔ κ)
  Arranged s t = (p : Reorder s.n_profiles) × (g : Reorder s.n_guides) × IsArranged s t p g

  Arranged-refl : (s : Sorter W C) → Arranged s s
  unfolding same_order
  Arranged-refl s = (
    same_order s.n_profiles,
    same_order s.n_guides,
    record { sizes = (refl, refl); profiles_from = λ i. same; guides_from = λ i. same },
  )

  swap_profiles-Arranged :
      (s t : Sorter W C) (a b : ℕ)
      → a < s.n_profiles
      → b < s.n_profiles
      → Arranged s t
      → Arranged s (swap_profiles t a b)
  unfolding swap_profiles after exchange
  swap_profiles-Arranged s t a b ha hb (p, g, r) = elim (Bool-cases (a == b)) [
    | inl e ↦ rw (e, swap_profiles) (p, g, r)
    | inr e ↦
        rw (e, swap_profiles)
          (
            after p (exchange s.n_profiles a b ha hb),
            g,
            record {
              sizes = r.sizes;
              profiles_from = λ i.
                  rw (swap-index t.profiles a b i, swap-index t.prof_idx a b i) (r.profiles_from _);
              guides_from = r.guides_from;
            },
          )
  ]

  swap_guides-Arranged :
      (s t : Sorter W C) (a b : ℕ)
      → a < s.n_guides
      → b < s.n_guides
      → Arranged s t
      → Arranged s (swap_guides t a b)
  unfolding swap_guides after exchange
  swap_guides-Arranged s t a b ha hb (p, g, r) = elim (Bool-cases (a == b)) [
    | inl e ↦ rw (e, swap_guides) (p, g, r)
    | inr e ↦
        rw (e, swap_guides)
          (
            p,
            after g (exchange s.n_guides a b ha hb),
            record {
              sizes = r.sizes;
              profiles_from = r.profiles_from;
              guides_from = λ i.
                  rw (swap-index t.guides a b i, swap-index t.guid_idx a b i) (r.guides_from _);
            },
          )
  ]

  reverse_profile-Arranged :
      (s t : Sorter W C) (k : ℕ) → Arranged s t → Arranged s (reverse_profile o curve t k)
  unfolding reverse_profile
  reverse_profile-Arranged s t k (p, g, r) = (
    p,
    g,
    record {
      sizes = r.sizes;
      profiles_from = λ i. elim (Bool-cases (i == k)) [
        | inl e ↦ rw e (turned (r.profiles_from i))
        | inr e ↦ rw e (r.profiles_from i)
      ];
      guides_from = r.guides_from;
    },
  )

  reverse_guide-Arranged :
      (s t : Sorter W C) (k : ℕ) → Arranged s t → Arranged s (reverse_guide o curve t k)
  unfolding reverse_guide
  reverse_guide-Arranged s t k (p, g, r) = (
    p,
    g,
    record {
      sizes = r.sizes;
      profiles_from = r.profiles_from;
      guides_from = λ i. elim (Bool-cases (i == k)) [
        | inl e ↦ rw e (turned (r.guides_from i))
        | inr e ↦ rw e (r.guides_from i)
      ];
    },
  )

  sort_guides-Arranged : (s t : Sorter W C) → Arranged s t → Arranged s (sort_guides o curve t)
  unfolding sort_guides
  sort_guides-Arranged s t r =
      let fits : t.n_guides ≤ s.n_guides = omega (arith, r.2.sizes.1) in
      bubble_keeps o.gt guide_key swap_guides (Arranged s) s.n_guides
        (λ u j a b q. swap_guides-Arranged s u j (j + 1) (omega arith) b q) t.n_guides t fits r

  sort_profiles-Arranged : (s t : Sorter W C) → Arranged s t → Arranged s (sort_profiles o curve t)
  unfolding sort_profiles
  sort_profiles-Arranged s t r =
      let fits : t.n_profiles ≤ s.n_profiles = omega (arith, r.2.sizes.0) in
      bubble_keeps o.gt profile_key swap_profiles (Arranged s) s.n_profiles
        (λ u j a b q. swap_profiles-Arranged s u j (j + 1) (omega arith) b q) t.n_profiles t fits r

  orient_profiles-Arranged :
      (last n k : ℕ) (s t : Sorter W C)
      → Arranged s t
      → Arranged s (orient_profiles o curve last n k t)
  unfolding orient_profiles orient_profile
  orient_profiles-Arranged last zero k s t r = r
  orient_profiles-Arranged last (suc n) k s t r =
      orient_profiles-Arranged last n (k + 1) s (orient_profile o curve last t k)
        (elim (Bool-cases (o.gt (t.parms_inters_profiles k 0) (t.parms_inters_profiles k last))) [
          | inl e ↦ rw (e, orient_profile) (reverse_profile-Arranged s t k r)
          | inr e ↦ rw (e, orient_profile) r
        ])

  orient_guides-Arranged :
      (last n k : ℕ) (s t : Sorter W C)
      → Arranged s t
      → Arranged s (orient_guides o curve last n k t)
  unfolding orient_guides orient_guide
  orient_guides-Arranged last zero k s t r = r
  orient_guides-Arranged last (suc n) k s t r =
      orient_guides-Arranged last n (k + 1) s (orient_guide o curve last t k)
        (elim (Bool-cases (o.gt (t.parms_inters_guides 0 k) (t.parms_inters_guides last k))) [
          | inl e ↦ rw (e, orient_guide) (reverse_guide-Arranged s t k r)
          | inr e ↦ rw (e, orient_guide) r
        ])

  place_start-Arranged :
      (s : Sorter W C) (c : StartCurves)
      → c.prof_start < s.n_profiles
      → c.guid_start < s.n_guides
      → Arranged s (place_start o curve s c)
  unfolding place_start
  place_start-Arranged s c hp hg =
      let t = swap_guides (swap_profiles s 0 c.prof_start) 0 c.guid_start in
      let r =
        swap_guides-Arranged s (swap_profiles s 0 c.prof_start) 0 c.guid_start (omega arith) hg
          (swap_profiles-Arranged s s 0 c.prof_start (omega arith) hp (Arranged-refl s)) in
      elim (Bool-cases c.guide_must_be_reversed) [
        | inl e ↦ rw (e, place_start) (reverse_guide-Arranged s t 0 r)
        | inr e ↦ rw (e, place_start) r
      ]

  pub arrange-Arranged :
      (s : Sorter W C) (c : StartCurves)
      → c.prof_start < s.n_profiles
      → c.guid_start < s.n_guides
      → Arranged s (arrange o curve s c)
  unfolding arrange
  arrange-Arranged s c hp hg =
      let t = sort_profiles o curve (sort_guides o curve (place_start o curve s c)) in
      let u = orient_profiles o curve (s.n_guides - 1) (s.n_profiles - 1) 1 t in
      let (p, g, r) = orient_guides-Arranged (s.n_profiles - 1) (s.n_guides - 1) 1 s u (
        orient_profiles-Arranged (s.n_guides - 1) (s.n_profiles - 1) 1 s t (
          sort_profiles-Arranged s (sort_guides o curve (place_start o curve s c))
            (sort_guides-Arranged s (place_start o curve s c) (place_start-Arranged s c hp hg)))) in
      (
        p,
        g,
        record { sizes = r.sizes; profiles_from = r.profiles_from; guides_from = r.guides_from },
      )
