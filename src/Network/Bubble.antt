-- ===== src/Network/Bubble.antt =====
-- The two bubble sorts of `CurveNetworkSorter::Perform`, over any state whose keys a call swaps.
-- Index 0 keeps its place: the loops run from index 1.
use geoml.Common.{
  ℕ, zero, suc, ◌+◌, ◌≤◌, ◌<◌, ◌≡◌, ◌⊎◌, inl, inr, ◌≢◌, Bool, arith, if◌then◌else◌, refl, ◌∙◌,
  ℕ_discrete, Bool-cases,
}
use geoml.Common.Reorder.{swap}
use geoml.Common.Real.{Real, IsOrder, Le, Le-refl}

module _ {ℓ κ} {W : Type ℓ} {S : Type κ} where
  -- `for (j = i; j < i + r; ++j) if (key(j) > key(j + 1)) exchange(j, j + 1);`
  unfoldable pub bubble_pass : (W → W → Bool) → (S → ℕ → W) → (S → ℕ → ℕ → S) → (r j : ℕ) → S → S
  bubble_pass gt key exchange zero j s = s
  bubble_pass gt key exchange (suc r) j s =
      bubble_pass gt key exchange r (j + 1)
        (if gt (key s j) (key s (j + 1)) then exchange s j (j + 1) else s)

  -- `for (n = size; n > 1; n = n - 1)` a pass with `j` from 1 below `n - 1`
  unfoldable pub bubble : (W → W → Bool) → (S → ℕ → W) → (S → ℕ → ℕ → S) → ℕ → S → S
  unfolding bubble_pass
  bubble gt key exchange zero s = s
  bubble gt key exchange (suc zero) s = s
  bubble gt key exchange (suc (suc m)) s =
      bubble gt key exchange (suc m) (bubble_pass gt key exchange m 1 s)

-- An exchange of neighbours swaps their keys.
abbrev pub Swaps {ℓ κ} : {W : Type ℓ} {S : Type κ} → (S → ℕ → W) → (S → ℕ → ℕ → S) → Type (ℓ ⊔ κ)
Swaps {S} key exchange = (s : S) (j k : ℕ) → key (exchange s j (j + 1)) k ≡ swap (key s) j (j + 1) k

module _ {ℓ κ} {W : Type ℓ} {S : Type κ} (o : Real W) (laws : IsOrder o) (key : S → ℕ → W)
    (exchange : S → ℕ → ℕ → S) (swaps : Swaps key exchange) where
  abbrev step : ℕ → S → S
  step j s = if o.gt (key s j) (key s (j + 1)) then exchange s j (j + 1) else s

  step_other : (j : ℕ) (s : S) (k : ℕ) → k ≢ j → k ≢ j + 1 → key (step j s) k ≡ key s k
  unfolding swap
  step_other j s k h h' = ground (arith, swaps s j k)

  step_pair :
      (j : ℕ) (s : S)
      → ((key (step j s) j ≡ key s j)
          × (key (step j s) (j + 1) ≡ key s (j + 1))
          × Le o (key s j) (key s (j + 1)))
        ⊎ ((key (step j s) j ≡ key s (j + 1))
            × (key (step j s) (j + 1) ≡ key s j)
            × Le o (key s (j + 1)) (key s j))
  unfolding swap
  step_pair j s =
      ground (arith, swaps s j j, swaps s j (j + 1), laws.asymm (key s j) (key s (j + 1)))

  -- The keys outside of the range of a pass stay.
  pass_other :
      (r j : ℕ) (s : S) (k : ℕ)
      → (k < j) ⊎ (j + r < k)
      → key (bubble_pass o.gt key exchange r j s) k ≡ key s k
  unfolding bubble_pass
  pass_other zero j s k h = refl
  pass_other (suc r) j s k h =
      pass_other r (j + 1) (step j s) k (omega arith) ∙ step_other j s k (omega arith) (omega arith)

  -- What holds of all keys of a range that contains the pass holds after it.
  pass_all {μ} :
      (P : W → Type μ) (lo hi r j : ℕ) (s : S)
      → lo ≤ j
      → j + r ≤ hi
      → ((k : ℕ) → lo ≤ k → k ≤ hi → P (key s k))
      → (k : ℕ) → lo ≤ k
      → k ≤ hi
      → P (key (bubble_pass o.gt key exchange r j s) k)
  unfolding bubble_pass
  pass_all P lo hi zero j s h h' p = p
  pass_all P lo hi (suc r) j s h h' p =
      pass_all P lo hi r (j + 1) (step j s) (omega arith) (omega arith) after
    where
      after : (k : ℕ) → lo ≤ k → k ≤ hi → P (key (step j s) k)
      after k a b = elim (ℕ_discrete k j) [
        | yes e ↦ elim (step_pair j s) [
          | inl (x, _, _) ↦ rw (e, x) (p j (omega arith) (omega arith))
          | inr (x, _, _) ↦ rw (e, x) (p (j + 1) (omega arith) (omega arith))
        ]
        | no n ↦ elim (ℕ_discrete k (j + 1)) [
          | yes e ↦ elim (step_pair j s) [
            | inl (_, y, _) ↦ rw (e, y) (p (j + 1) (omega arith) (omega arith))
            | inr (_, y, _) ↦ rw (e, y) (p j (omega arith) (omega arith))
          ]
          | no n' ↦ rw (step_other j s k n n') (p k a b)
        ]
      ]

  -- A pass carries the greatest key of its range to the end.
  pass_top :
      (lo r j : ℕ) (s : S)
      → ((k : ℕ) → lo ≤ k → k ≤ j → Le o (key s k) (key s j))
      → (k : ℕ) → lo ≤ k
      → k ≤ j + r
      → let t = bubble_pass o.gt key exchange r j s in Le o (key t k) (key t (j + r))
  unfolding bubble_pass
  pass_top lo zero j s top k a b = let e : j + 0 ≡ j = omega arith in rw e (top k a (omega arith))
  pass_top lo (suc r) j s top k a b =
      let e : j + suc r ≡ j + 1 + r = omega arith in
      rw e (pass_top lo r (j + 1) (step j s) after k a (omega arith))
    where
      after : (k : ℕ) → lo ≤ k → k ≤ j + 1 → Le o (key (step j s) k) (key (step j s) (j + 1))
      after k a b = elim (ℕ_discrete k (j + 1)) [
        | yes e ↦ rw e (Le-refl o laws _)
        | no n ↦ elim (ℕ_discrete k j) [
          | yes e ↦ elim (step_pair j s) [
            | inl (x, y, l) ↦ rw (e, x, y) l
            | inr (x, y, l) ↦ rw (e, x, y) l
          ]
          | no n' ↦ elim (step_pair j s) [
            | inl (_, y, l) ↦
                rw (step_other j s k n' n, y) (laws.le_trans _ _ _ (top k a (omega arith)) l)
            | inr (_, y, _) ↦ rw (step_other j s k n' n, y) (top k a (omega arith))
          ]
        ]
      ]

  -- The keys from index `n` on are in order, and none of those from 1 below `n` is above them.
  record IsSuffixSorted (size n : ℕ) (s : S) : Type 0 where
    ascending : (k : ℕ) → n ≤ k → k + 1 < size → Le o (key s k) (key s (k + 1))
    above : (i k : ℕ) → 1 ≤ i → i < n → n ≤ k → k < size → Le o (key s i) (key s k)

  pass-IsSuffixSorted :
      (size m : ℕ) (s : S)
      → m + 2 ≤ size
      → IsSuffixSorted size (suc (suc m)) s
      → IsSuffixSorted size (suc m) (bubble_pass o.gt key exchange m 1 s)
  pass-IsSuffixSorted size m s fits v = record { ascending = ascending; above = above }
    where
      t : S
      t = bubble_pass o.gt key exchange m 1 s

      top : (i : ℕ) → 1 ≤ i → i ≤ 1 + m → Le o (key t i) (key t (1 + m))
      top = pass_top 1 m 1 s (λ k a b. let e : k ≡ 1 = omega arith in rw e (Le-refl o laws _))

      same : (k : ℕ) → suc (suc m) ≤ k → key t k ≡ key s k
      same k h = pass_other m 1 s k (inr (omega arith))

      under : (i k : ℕ) → 1 ≤ i → i ≤ 1 + m → suc (suc m) ≤ k → k < size → Le o (key t i) (key t k)
      under i k a b c d = rw (same k c) (
          pass_all (λ w. Le o w (key s k)) 1 (1 + m) m 1 s (omega arith) (omega arith)
            (λ i a b. v.above i k a (omega arith) c d) i a b)

      ascending : (k : ℕ) → suc m ≤ k → k + 1 < size → Le o (key t k) (key t (k + 1))
      ascending k a b = elim (ℕ_discrete k (1 + m)) [
        | yes e ↦ under k (k + 1) (omega arith) (omega arith) (omega arith) b
        | no n ↦
            rw (same k (omega arith), same (k + 1) (omega arith)) (v.ascending k (omega arith) b)
      ]

      above : (i k : ℕ) → 1 ≤ i → i < suc m → suc m ≤ k → k < size → Le o (key t i) (key t k)
      above i k a b c d = elim (ℕ_discrete k (1 + m)) [
        | yes e ↦ rw e (top i a (omega arith))
        | no n ↦ under i k a (omega arith) (omega arith) d
      ]

  bubble-IsSuffixSorted :
      (size n : ℕ) (s : S)
      → suc n ≤ size
      → IsSuffixSorted size (suc n) s
      → IsSuffixSorted size 1 (bubble o.gt key exchange (suc n) s)
  unfolding bubble
  bubble-IsSuffixSorted size zero s h v = v
  bubble-IsSuffixSorted size (suc m) s h v =
      bubble-IsSuffixSorted size m (bubble_pass o.gt key exchange m 1 s) (omega arith)
        (pass-IsSuffixSorted size m s (omega arith) v)

  -- After the sort the keys ascend from index 1 to the end.
  pub bubble_ascending :
      (size : ℕ) (s : S) (k : ℕ)
      → 1 ≤ k
      → k + 1 < size
      → let t = bubble o.gt key exchange size s in Le o (key t k) (key t (k + 1))
  bubble_ascending zero s k a b = absurd (omega arith)
  bubble_ascending (suc n) s k a b =
      (bubble-IsSuffixSorted (suc n) n s (omega arith) (record {
        ascending = λ k a b. absurd (omega arith);
        above = λ i k a b c d. absurd (omega arith);
      })).ascending
        k a b

-- What exchanges of neighbours from index 1 on keep, the sort keeps.
module _ {ℓ κ μ} {W : Type ℓ} {S : Type κ} (gt : W → W → Bool) (key : S → ℕ → W)
    (exchange : S → ℕ → ℕ → S) (Q : S → Type μ) (size : ℕ)
    (keep : (s : S) (j : ℕ) → 1 ≤ j → j + 1 < size → Q s → Q (exchange s j (j + 1))) where
  bubble_pass_keeps :
      (r j : ℕ) (s : S) → 1 ≤ j → j + r < size → Q s → Q (bubble_pass gt key exchange r j s)
  unfolding bubble_pass
  bubble_pass_keeps zero j s a b q = q
  bubble_pass_keeps (suc r) j s a b q =
      bubble_pass_keeps r (j + 1) _ (omega arith) (omega arith) after
    where
      after : Q (if gt (key s j) (key s (j + 1)) then exchange s j (j + 1) else s)
      after = elim (Bool-cases (gt (key s j) (key s (j + 1)))) [
        | inl e ↦ rw e (keep s j a (omega arith) q)
        | inr e ↦ rw e q
      ]

  pub bubble_keeps : (n : ℕ) (s : S) → n ≤ size → Q s → Q (bubble gt key exchange n s)
  unfolding bubble
  bubble_keeps zero s h q = q
  bubble_keeps (suc zero) s h q = q
  bubble_keeps (suc (suc m)) s h q =
      bubble_keeps (suc m) _ (omega arith) (bubble_pass_keeps m 1 s (omega arith) (omega arith) q)
