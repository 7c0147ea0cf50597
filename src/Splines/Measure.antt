-- ===== src/Splines/Measure.antt =====
-- `scale`, `isUDirClosed` and `isVDirClosed`: loops over nets of points. `distance` is
-- `gp_Pnt::Distance`, `is_equal` is `gp_Pnt::IsEqual` with the tolerance.
use geoml.Common.{
  ℕ, zero, suc, ◌+◌, ◌-◌, ◌≤◌, ◌<◌, ◌≡◌, ◌⊎◌, ◌↔◌, inl, inr, refl, ◌∙◌, ap, Bool, true, ◌&&◌,
  if◌then◌else◌, arith, ℕ_discrete, Bool-cases,
}
use geoml.Common.Real.{Real, IsOrder, Le, Le-refl}

module _ {ℓ} {W : Type ℓ} (o : Real W) where
  -- `std::max`
  unfoldable pub max : W → W → W
  max a b = if o.gt b a then b else a

  -- `for (i ...) best = std::max(best, f(i))`, for `n` indices from `i` on.
  unfoldable pub max_over : (ℕ → W) → (n i : ℕ) → W → W
  unfolding max
  max_over f zero i best = best
  max_over f (suc n) i best = max_over f n (i + 1) (max best (f i))

  module _ {κ} {P : Type κ} (zero_length : W) (distance : P → P → W) where
    -- The rows from `u` on, each from its second point.
    unfoldable pub scale_rows : (points : ℕ → ℕ → P) → (cols n u : ℕ) → W → W
    unfolding max_over
    scale_rows points cols zero u best = best
    scale_rows points cols (suc n) u best =
        scale_rows points cols n (u + 1)
          (max_over (λ v. distance (points u 0) (points u v)) (cols - 1) 1 best)

    unfoldable pub scale_net : (points : ℕ → ℕ → P) → (rows cols : ℕ) → W
    unfolding scale_rows
    scale_net points rows cols = scale_rows points cols rows 0 zero_length

    -- The pairs whose first point is `i` or later; the inner loop stops before the last point.
    unfoldable pub scale_pairs : (points : ℕ → P) → (size n i : ℕ) → W → W
    unfolding max_over
    scale_pairs points size zero i best = best
    scale_pairs points size (suc n) i best =
        scale_pairs points size n (i + 1)
          (max_over (λ j. distance (points i) (points j)) (size - 1 - (i + 1)) (i + 1) best)

    unfoldable pub scale_points : (points : ℕ → P) → (size : ℕ) → W
    unfolding scale_pairs
    scale_points points size = scale_pairs points size size 0 zero_length

    -- `scale` of a curve with `n` poles
    unfoldable pub scale_curve : (poles : ℕ → P) → (n : ℕ) → W
    unfolding max_over
    scale_curve poles n = max_over (λ i. distance (poles 0) (poles i)) (n - 1) 1 zero_length

module _ {κ} {P : Type κ} (is_equal : P → P → Bool) where
  -- The loop of `isUDirClosed`, over the columns from `v` on.
  unfoldable pub ends_equal : (ℕ → P) → (ℕ → P) → (n i : ℕ) → Bool → Bool
  ends_equal first last zero i closed = closed
  ends_equal first last (suc n) i closed =
      ends_equal first last n (i + 1) (closed && is_equal (first i) (last i))

  unfoldable pub is_u_dir_closed : (points : ℕ → ℕ → P) → (rows cols : ℕ) → Bool
  unfolding ends_equal
  is_u_dir_closed points rows cols =
      ends_equal (λ v. points 0 v) (λ v. points (rows - 1) v) cols 0 true

  unfoldable pub is_v_dir_closed : (points : ℕ → ℕ → P) → (rows cols : ℕ) → Bool
  unfolding ends_equal
  is_v_dir_closed points rows cols =
      ends_equal (λ u. points u 0) (λ u. points u (cols - 1)) rows 0 true

  ends_equal_iff :
      (first last : ℕ → P) (n i : ℕ) (closed : Bool)
      → (ends_equal first last n i closed ≡ true)
        ↔ ((closed ≡ true) × ((k : ℕ) → i ≤ k → k < i + n → is_equal (first k) (last k) ≡ true))
  unfolding ends_equal
  ends_equal_iff first last zero i closed = (λ e. (e, λ k a b. absurd (omega arith)), λ e. e.0)
  ends_equal_iff first last (suc n) i closed =
      let rest = ends_equal_iff first last n (i + 1) (closed && is_equal (first i) (last i)) in
      (
        λ e. forth (rest.0 e),
        λ e. rest.1 (
          rw (e.0, e.1 i (omega arith) (omega arith)) refl,
          λ k c d. e.1 k (omega arith) (omega arith),
        ),
      )
    where
      forth :
          ((closed && is_equal (first i) (last i)) ≡ true)
            × ((k : ℕ) → i + 1 ≤ k → k < i + 1 + n → is_equal (first k) (last k) ≡ true)
          → (closed ≡ true) × ((k : ℕ) → i ≤ k → k < i + suc n → is_equal (first k) (last k) ≡ true)
      forth (a, b) = (
        ground arith,
        λ k c d. elim (ℕ_discrete k i) [
          | yes q ↦ rw q (ground arith)
          | no ne ↦ b k (omega arith) (omega arith)
        ],
      )

  -- `isUDirClosed` holds just where each column ends at its first point, and `isVDirClosed` where
  -- each row does, by the test of two points that is given.
  pub is_dir_closed_iff :
      (points : ℕ → ℕ → P) (rows cols : ℕ)
      → ((is_u_dir_closed points rows cols ≡ true)
          ↔ ((v : ℕ) → v < cols → is_equal (points 0 v) (points (rows - 1) v) ≡ true))
        × ((is_v_dir_closed points rows cols ≡ true)
            ↔ ((u : ℕ) → u < rows → is_equal (points u 0) (points u (cols - 1)) ≡ true))
  unfolding is_u_dir_closed is_v_dir_closed
  is_dir_closed_iff points rows cols =
      let u = ends_equal_iff (λ v. points 0 v) (λ v. points (rows - 1) v) cols 0 true in
      let v = ends_equal_iff (λ u. points u 0) (λ u. points u (cols - 1)) rows 0 true in
      (
        (
          λ e k h. (u.0 e).1 k (omega arith) (omega arith),
          λ e. u.1 (refl, λ k a b. e k (omega arith)),
        ),
        (
          λ e k h. (v.0 e).1 k (omega arith) (omega arith),
          λ e. v.1 (refl, λ k a b. e k (omega arith)),
        ),
      )

module _ {ℓ} {W : Type ℓ} (o : Real W) (laws : IsOrder o) where
  max-Le : (a b : W) → Le o a (max o a b) × Le o b (max o a b)
  unfolding max
  max-Le a b = elim (Bool-cases (o.gt b a)) [
    | inl e ↦ rw e (laws.asymm b a e, Le-refl o laws b)
    | inr e ↦ rw e (Le-refl o laws a, e)
  ]

  max_one : (a b : W) → (max o a b ≡ a) ⊎ (max o a b ≡ b)
  unfolding max
  max_one a b = elim (Bool-cases (o.gt b a)) [ inl e ↦ inr (rw e refl) | inr e ↦ inl (rw e refl) ]

  -- The loop gives the first value or one of the others, and none is greater.
  max_over_bounds :
      (f : ℕ → W) (n i : ℕ) (best : W)
      → Le o best (max_over o f n i best)
        × ((k : ℕ) → i ≤ k → k < i + n → Le o (f k) (max_over o f n i best))
        × ((max_over o f n i best ≡ best)
            ⊎ ((k : ℕ) × (i ≤ k) × (k < i + n) × (max_over o f n i best ≡ f k)))
  unfolding max_over
  max_over_bounds f zero i best = (Le-refl o laws best, λ k a b. absurd (omega arith), inl refl)
  max_over_bounds f (suc n) i best =
      let (a, b, c) = max_over_bounds f n (i + 1) (max o best (f i)) in
      let (d, e) = max-Le best (f i) in
      (
        laws.le_trans best (max o best (f i)) (max_over o f n (i + 1) (max o best (f i))) d a,
        λ k g h. elim (ℕ_discrete k i) [
          | yes q ↦ rw q (
              laws.le_trans (f i) (max o best (f i)) (max_over o f n (i + 1) (max o best (f i))) e
                a)
          | no ne ↦ b k (omega arith) (omega arith)
        ],
        elim c [
          | inr (k, g, h, q) ↦ inr (k, omega arith, omega arith, q)
          | inl q ↦ elim (max_one best (f i)) [
            | inl p ↦ inl (q ∙ p)
            | inr p ↦ inr (i, omega arith, omega arith, q ∙ p)
          ]
        ],
      )

  module _ {κ} {P : Type κ} (zero_length : W) (distance : P → P → W) (points : ℕ → ℕ → P) where
    scale_rows_bounds :
        (cols n u : ℕ) (best : W)
        → Le o best (scale_rows o zero_length distance points cols n u best)
          × ((i j : ℕ)
              → u ≤ i
              → i < u + n
              → 0 < j
              → j < cols
              → Le o
                  (distance (points i 0) (points i j))
                  (scale_rows o zero_length distance points cols n u best))
          × ((scale_rows o zero_length distance points cols n u best ≡ best)
              ⊎ ((i : ℕ) × (j : ℕ) × (i < u + n)
                  × (j < cols)
                  × (scale_rows o zero_length distance points cols n u best
                      ≡ distance (points i 0) (points i j))))
    unfolding scale_rows
    scale_rows_bounds cols zero u best =
        (Le-refl o laws best, λ i j a b. absurd (omega arith), inl refl)
    scale_rows_bounds cols (suc n) u best =
        let row : ℕ → W = λ v. distance (points u 0) (points u v) in
        let first = max_over o row (cols - 1) 1 best in
        let (a, b, c) = scale_rows_bounds cols n (u + 1) first in
        let (d, e, f) = max_over_bounds row (cols - 1) 1 best in
        let all = scale_rows o zero_length distance points cols n (u + 1) first in
        (
          laws.le_trans best first all d a,
          λ i j g h p q. elim (ℕ_discrete i u) [
            | yes s ↦ rw s (laws.le_trans (row j) first all (e j (omega arith) (omega arith)) a)
            | no ne ↦ b i j (omega arith) (omega arith) p q
          ],
          elim c [
            | inr (i, j, g, h, q) ↦ inr (i, j, omega arith, omega arith, q)
            | inl q ↦ elim f [
              | inl p ↦ inl (q ∙ p)
              | inr (j, g, h, p) ↦ inr (u, j, omega arith, omega arith, q ∙ p)
            ]
          ],
        )

    -- `scale` of a net of points is the greatest distance of a point from the first of its row, or
    -- zero where no distance is greater.
    pub scale_net-bounds :
        (rows cols : ℕ)
        → ((i j : ℕ)
            → i < rows
            → 0 < j
            → j < cols
            → Le o
                (distance (points i 0) (points i j))
                (scale_net o zero_length distance points rows cols))
          × ((scale_net o zero_length distance points rows cols ≡ zero_length)
              ⊎ ((i : ℕ) × (j : ℕ) × (i < rows)
                  × (j < cols)
                  × (scale_net o zero_length distance points rows cols
                      ≡ distance (points i 0) (points i j))))
    unfolding scale_net
    scale_net-bounds rows cols =
        let (a, b, c) = scale_rows_bounds cols rows 0 zero_length in
        (
          λ i j h p q. b i j (omega arith) (omega arith) p q,
          elim c [ inl q ↦ inl q | inr (i, j, g, h, q) ↦ inr (i, j, omega arith, h, q) ],
        )

module _ {ℓ κ} {W : Type ℓ} {P : Type κ} (o : Real W) (zero_length : W) (distance : P → P → W) where
  max_over_agree :
      (f g : ℕ → W) (n i : ℕ) (best : W)
      → ((k : ℕ) → k < i + n → f k ≡ g k)
      → max_over o f n i best ≡ max_over o g n i best
  unfolding max_over
  max_over_agree f g zero i best same = refl
  max_over_agree f g (suc n) i best same =
      ap (λ (x : W). max_over o f n (i + 1) (max o best x)) (same i (omega arith))
      ∙ max_over_agree f g n (i + 1) (max o best (g i)) (λ k h. same k (omega arith))

  scale_pairs_agree :
      (points points' : ℕ → P) (size n i : ℕ) (best : W)
      → ((k : ℕ) → k < size → points k ≡ points' k)
      → i + n ≡ suc size
      → scale_pairs o zero_length distance points (suc size) n i best
        ≡ scale_pairs o zero_length distance points' (suc size) n i best
  unfolding scale_pairs
  scale_pairs_agree points points' size zero i best same e = refl
  scale_pairs_agree points points' size (suc n) i best same e =
      ap (λ (x : W). scale_pairs o zero_length distance points (suc size) n (i + 1) x) row
      ∙ scale_pairs_agree points points' size n (i + 1) row' same (omega arith)
    where
      m : ℕ
      m = suc size - 1 - (i + 1)

      row' : W
      row' = max_over o (λ j. distance (points' i) (points' j)) m (i + 1) best

      row : max_over o (λ j. distance (points i) (points j)) m (i + 1) best ≡ row'
      row = elim (ℕ_discrete i size) [
        | yes q ↦ let z : m ≡ 0 = omega arith in unfold max_over in (rw z refl)
        | no ne ↦
            max_over_agree (λ j. distance (points i) (points j))
              (λ j. distance (points' i) (points' j)) m (i + 1) best
              (λ k h. rw (same i (omega arith), same k (omega arith)) refl)
      ]

  -- `scale` of a sequence of points does not look at the last of them: two sequences of one size that
  -- differ in the last point alone have the same scale.
  pub scale_points_last :
      (points points' : ℕ → P) (size : ℕ)
      → ((k : ℕ) → k < size → points k ≡ points' k)
      → scale_points o zero_length distance points (suc size)
        ≡ scale_points o zero_length distance points' (suc size)
  unfolding scale_points
  scale_points_last points points' size same =
      scale_pairs_agree points points' size (suc size) 0 zero_length same (omega arith)
