-- ===== src/Utilities/FollowSort/Extend.antt =====
-- A step of `follow_sort` keeps the chain and the elements of the array.
use geoml.Common.{
  ℕ, zero, suc, ◌+◌, ◌≤◌, ◌<◌, ◌≡◌, ◌⊎◌, inl, inr, refl, sym, ◌∙◌, ap, Bool, true, arith,
  Bool-cases, ℕ_discrete, subst,
}
use geoml.Common.Reorder.{swap, swap-index, Reorder, after, exchange}
use geoml.Utilities.FollowSort.{Chain, rotate_right, extend}

module _ {ℓ} {A : Type ℓ} where
  -- `w` is `v` with its first `n` elements reordered.
  abbrev pub Permuted : ℕ → (ℕ → A) → (ℕ → A) → Type ℓ
  Permuted n v w = (p : Reorder n) × ((i : ℕ) → w i ≡ v (p.to i))

  swap-Permuted :
      (n a b : ℕ) (v w : ℕ → A) → a < n → b < n → Permuted n v w → Permuted n v (swap w a b)
  unfolding after exchange
  swap-Permuted n a b v w ha hb (p, e) =
      (after p (exchange n a b ha hb), λ i. swap-index w a b i ∙ e _)

  rotate_right-Permuted :
      (n r b last : ℕ) (v w : ℕ → A)
      → b + r ≡ last
      → last < n
      → Permuted n v w
      → Permuted n v (rotate_right r b last w)
  unfolding rotate_right
  rotate_right-Permuted n zero b last v w e h p = p
  rotate_right-Permuted n (suc r) b last v w e h p =
      rotate_right-Permuted n r (b + 1) last v (swap w b last) (omega arith) h
        (swap-Permuted n b last v w (omega arith) h p)

  -- The rotation brings the last element to the front and moves the others up by one.
  rotate_right_lem :
      (r b last : ℕ) (v : ℕ → A)
      → b + r ≡ last
      → let w = rotate_right r b last v in
        (w b ≡ v last)
        × ((k : ℕ) → b ≤ k → k < last → w (k + 1) ≡ v k)
        × ((k : ℕ) → (k < b) ⊎ (last < k) → w k ≡ v k)
  unfolding rotate_right
  rotate_right_lem zero b last v e =
      (ap v (omega arith), λ k h i. absurd (omega arith), λ k h. refl)
  rotate_right_lem (suc r) b last v e =
      let (front, moved, other) = rotate_right_lem r (b + 1) last (swap v b last) (omega arith) in
      (
        other b (inl (omega arith)) ∙ (unfold swap in ground arith),
        λ k h i. elim (ℕ_discrete k b) [
          | yes f ↦
              ap (rotate_right r (b + 1) last (swap v b last)) (omega arith)
              ∙ front
              ∙ (unfold swap in ground arith)
          | no ne ↦ moved k (omega arith) i ∙ (unfold swap in ground arith)
        ],
        λ k h.
            other k (elim h [ inl x ↦ inl (omega arith) | inr x ↦ inr x ])
            ∙ (unfold swap in ground arith),
      )

  swap-below : (v : ℕ → A) (it s k : ℕ) → s < it → k ≤ s → swap v it (s + 1) k ≡ v k
  unfolding swap
  swap-below v it s k a b = ground arith

  swap-end : (v : ℕ → A) (it s : ℕ) → s < it → swap v it (s + 1) (s + 1) ≡ v it
  unfolding swap
  swap-end v it s a = elim (ℕ_discrete (s + 1) it) [
    | yes e ↦ ground (arith, ap v e)
    | no ne ↦ ground arith
  ]

  module _ (follows : A → A → Bool) (n : ℕ) (start : ℕ → A) where
    -- Each element up to the end of the chain follows the one before it, and the array is a
    -- reordering of the one at the start.
    pub record IsChain (c : Chain A) : Type ℓ where
      pub within : c.sorted < n
      pub chained : (k : ℕ) → k < c.sorted → follows (c.elements (k + 1)) (c.elements k) ≡ true
      pub permuted : Permuted n start c.elements

    appended : ℕ → Chain A → Chain A
    appended it c = record {
      elements = swap c.elements it (c.sorted + 1);
      sorted = c.sorted + 1;
      swapped = true;
    }

    prepended : ℕ → Chain A → Chain A
    prepended it c = record {
      elements = rotate_right (c.sorted + 1) 0 (c.sorted + 1) (swap c.elements it (c.sorted + 1));
      sorted = c.sorted + 1;
      swapped = true;
    }

    appended-IsChain :
        (it : ℕ) (c : Chain A)
        → c.sorted < it
        → it < n
        → follows (c.elements it) (c.elements c.sorted) ≡ true
        → IsChain c
        → IsChain (appended it c)
    unfolding appended
    appended-IsChain it c a b f v = record {
      within = omega arith;
      chained = λ k h. elim (ℕ_discrete k c.sorted) [
        | yes e ↦
            rw
              (
                e,
                swap-end c.elements it c.sorted a,
                swap-below c.elements it c.sorted c.sorted a (omega arith),
              )
              f
        | no ne ↦
            rw
              (
                swap-below c.elements it c.sorted k a (omega arith),
                swap-below c.elements it c.sorted (k + 1) a (omega arith),
              )
              (v.chained k (omega arith))
      ];
      permuted = swap-Permuted n it (c.sorted + 1) start c.elements b (omega arith) v.permuted;
    }

    prepended-IsChain :
        (it : ℕ) (c : Chain A)
        → c.sorted < it
        → it < n
        → follows (c.elements 0) (c.elements it) ≡ true
        → IsChain c
        → IsChain (prepended it c)
    unfolding prepended
    prepended-IsChain it c a b f v = record {
      within = omega arith;
      chained = chained;
      permuted =
          rotate_right-Permuted n (c.sorted + 1) 0 (c.sorted + 1) start _ (omega arith)
            (omega arith)
            (swap-Permuted n it (c.sorted + 1) start c.elements b (omega arith) v.permuted);
    }
      where
        u : ℕ → A
        u = swap c.elements it (c.sorted + 1)

        w : ℕ → A
        w = rotate_right (c.sorted + 1) 0 (c.sorted + 1) u

        first : w 0 ≡ c.elements it
        first =
            (rotate_right_lem (c.sorted + 1) 0 (c.sorted + 1) u (omega arith)).0
            ∙ swap-end c.elements it c.sorted a

        next : (k : ℕ) → k ≤ c.sorted → w (k + 1) ≡ c.elements k
        next k h =
            (rotate_right_lem (c.sorted + 1) 0 (c.sorted + 1) u (omega arith)).1 k (omega arith)
              (omega arith)
            ∙ swap-below c.elements it c.sorted k a h

        chained : (k : ℕ) → k < c.sorted + 1 → follows (w (k + 1)) (w k) ≡ true
        chained zero h = rw (next 0 (omega arith), first) f
        chained (suc k) h =
            let e : suc k ≡ k + 1 = omega arith in
            rw (next (suc k) (omega arith)) (
              subst (λ (m : ℕ). follows (c.elements m) (w m) ≡ true) (sym e)
                (rw (next k (omega arith)) (v.chained k (omega arith))))

    -- A step keeps the chain, and lengthens it exactly if it swaps.
    abbrev pub Grows : Chain A → Chain A → Type 0
    Grows c d =
        ((d.sorted ≡ c.sorted) × (d.swapped ≡ c.swapped))
        ⊎ ((c.sorted < d.sorted) × (d.swapped ≡ true))

    pub extend-IsChain :
        (it : ℕ) (c : Chain A)
        → c.sorted < it
        → it < n
        → IsChain c
        → IsChain (extend follows it c)
          × ((extend follows it c).sorted ≤ it)
          × Grows c (extend follows it c)
    unfolding extend
    extend-IsChain it c a b v = elim (Bool-cases (follows (c.elements it) (c.elements c.sorted))) [
      | inl e ↦
          rw e
            (unfold appended in appended-IsChain it c a b e v, omega arith, inr (omega arith, refl))
      | inr e ↦ elim (Bool-cases (follows (c.elements 0) (c.elements it))) [
        | inl f ↦
            rw (e, f)
              (
                unfold prepended in prepended-IsChain it c a b f v,
                omega arith,
                inr (omega arith, refl),
              )
        | inr f ↦ rw (e, f) (v, omega arith, inl (refl, refl))
      ]
    ]
