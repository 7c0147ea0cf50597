-- ===== src/Network/Scan.antt =====
-- The four searches for the index of a least or greatest entry in a row or a column
-- (CurveNetworkSorter.cpp, the unnamed namespace).
use geoml.Common.{
  ℕ, zero, suc, ◌+◌, ◌<◌, ◌≡◌, ◌⊎◌, inl, inr, arith, if◌then◌else◌, Bool-cases, refl, subst,
  ℕ_discrete, true, false, dec_lt,
}
use geoml.Common.Real.{Real, IsOrder, Le, Le-refl}

module _ {ℓ} {W : Type ℓ} (o : Real W) where
  open o use {gt, dbl_min, dbl_max}

  -- `for (j = i; j < i + n; ++j) if (f(j) > max) { max = f(j); jmax = j; }`
  unfoldable pub scan_max : (ℕ → W) → (n j : ℕ) → W → ℕ → ℕ
  scan_max f zero j max jmax = jmax
  scan_max f (suc n) j max jmax =
      scan_max f n (j + 1) (if gt (f j) max then f j else max) (if gt (f j) max then j else jmax)

  unfoldable pub scan_min : (ℕ → W) → (n j : ℕ) → W → ℕ → ℕ
  scan_min f zero j min jmin = jmin
  scan_min f (suc n) j min jmin =
      scan_min f n (j + 1) (if gt min (f j) then f j else min) (if gt min (f j) then j else jmin)

  unfoldable pub max_row_index : (cols : ℕ) → (ℕ → ℕ → W) → ℕ → ℕ
  unfolding scan_max
  max_row_index cols m irow = scan_max (λ j. m irow j) cols 0 dbl_min 0

  unfoldable pub max_col_index : (rows : ℕ) → (ℕ → ℕ → W) → ℕ → ℕ
  unfolding scan_max
  max_col_index rows m jcol = scan_max (λ i. m i jcol) rows 0 dbl_min 0

  unfoldable pub min_row_index : (cols : ℕ) → (ℕ → ℕ → W) → ℕ → ℕ
  unfolding scan_min
  min_row_index cols m irow = scan_min (λ j. m irow j) cols 0 dbl_max 0

  unfoldable pub min_col_index : (rows : ℕ) → (ℕ → ℕ → W) → ℕ → ℕ
  unfolding scan_min
  min_col_index rows m jcol = scan_min (λ i. m i jcol) rows 0 dbl_max 0

module _ {ℓ} {W : Type ℓ} (o : Real W) (laws : IsOrder o) where
  open o use {gt, dbl_min, dbl_max}

  -- `r` is the first index below `n` with the least entry, or the greatest.
  abbrev pub IsFirstLeast : (ℕ → W) → (n r : ℕ) → Type 0
  IsFirstLeast f n r =
      (r < n) × ((k : ℕ) → k < n → Le o (f r) (f k)) × ((k : ℕ) → k < r → gt (f k) (f r) ≡ true)

  abbrev pub IsFirstGreatest : (ℕ → W) → (n r : ℕ) → Type 0
  IsFirstGreatest f n r =
      (r < n) × ((k : ℕ) → k < n → Le o (f k) (f r)) × ((k : ℕ) → k < r → gt (f r) (f k) ≡ true)

  -- What a search for the least entry below `d` has found among the first `n`.
  abbrev Least : (ℕ → W) → ℕ → W → ℕ → Type 0
  Least f n d r = IsFirstLeast f n r ⊎ ((r ≡ 0) × ((k : ℕ) → k < n → Le o d (f k)))

  strictly : (a b c : W) → gt a c ≡ true → Le o a b → gt b c ≡ true
  strictly a b c h k = elim (Bool-cases (gt b c)) [
    | inl e ↦ e
    | inr e ↦ let f : gt a c ≡ false = laws.le_trans a b c k e in absurd cc
  ]

  scan_min-Least :
      (f : ℕ → W) (d : W) (n j : ℕ) (min : W) (jmin : ℕ)
      → ((min ≡ f jmin) × IsFirstLeast f j jmin)
        ⊎ ((min ≡ d) × (jmin ≡ 0) × ((k : ℕ) → k < j → Le o d (f k)))
      → Least f (j + n) d (scan_min o f n j min jmin)
  unfolding scan_min
  scan_min-Least f d zero j min jmin (inl (e, (a, b, c))) =
      inl (omega arith, λ k h. b k (omega arith), c)
  scan_min-Least f d zero j min jmin (inr (e, z, b)) = inr (z, λ k h. b k (omega arith))
  scan_min-Least f d (suc n) j min jmin known =
      let e : j + suc n ≡ j + 1 + n = omega arith in
      rw e (elim (Bool-cases (gt min (f j))) [
        | inl down ↦ rw down (scan_min-Least f d n (j + 1) (f j) j (inl (refl, fresh known down)))
        | inr stay ↦ rw stay (scan_min-Least f d n (j + 1) min jmin (still known stay))
      ])
    where
      below :
          ((min ≡ f jmin) × IsFirstLeast f j jmin)
            ⊎ ((min ≡ d) × (jmin ≡ 0) × ((k : ℕ) → k < j → Le o d (f k)))
          → (k : ℕ) → k < j
          → Le o min (f k)
      below (inl (e, (a, b, c))) k h = rw e (b k h)
      below (inr (e, z, b)) k h = rw e (b k h)

      fresh :
          ((min ≡ f jmin) × IsFirstLeast f j jmin)
            ⊎ ((min ≡ d) × (jmin ≡ 0) × ((k : ℕ) → k < j → Le o d (f k)))
          → gt min (f j) ≡ true
          → IsFirstLeast f (j + 1) j
      fresh known down = (
        omega arith,
        λ k h. elim (ℕ_discrete k j) [
          | yes e ↦ rw e (Le-refl o laws _)
          | no ne ↦ laws.le_trans _ _ _ (laws.asymm _ _ down) (below known k (omega arith))
        ],
        λ k h. strictly min (f k) (f j) down (below known k h),
      )

      still :
          ((min ≡ f jmin) × IsFirstLeast f j jmin)
            ⊎ ((min ≡ d) × (jmin ≡ 0) × ((k : ℕ) → k < j → Le o d (f k)))
          → Le o min (f j)
          → ((min ≡ f jmin) × IsFirstLeast f (j + 1) jmin)
            ⊎ ((min ≡ d) × (jmin ≡ 0) × ((k : ℕ) → k < j + 1 → Le o d (f k)))
      still (inl (e, (a, b, c))) stay = inl (
        e,
        (
          omega arith,
          λ k h. elim (ℕ_discrete k j) [ yes g ↦ rw (g, ← e) stay | no ne ↦ b k (omega arith) ],
          c,
        ),
      )
      still (inr (e, z, b)) stay = inr (
        e,
        z,
        λ k h. elim (ℕ_discrete k j) [ yes g ↦ rw (g, ← e) stay | no ne ↦ b k (omega arith) ],
      )

  -- Where an entry is below `d`, the search from `d` finds the first least one.
  scan_min-IsFirstLeast :
      (f : ℕ → W) (d : W) (n : ℕ)
      → (i : ℕ) × (i < n) × (gt d (f i) ≡ true)
      → IsFirstLeast f n (scan_min o f n 0 d 0)
  scan_min-IsFirstLeast f d n (i, h, below) =
      let e : 0 + n ≡ n = omega arith in
      elim (scan_min-Least f d n 0 d 0 (inr (refl, refl, λ k b. absurd (omega arith)))) [
        | inl found ↦ subst (λ (m : ℕ). IsFirstLeast f m (scan_min o f n 0 d 0)) e found
        | inr (z, b) ↦ let g : gt d (f i) ≡ false = b i (omega arith) in absurd cc
      ]

  IsFirstLeast-unique : (f : ℕ → W) (n r t : ℕ) → IsFirstLeast f n r → IsFirstLeast f n t → r ≡ t
  IsFirstLeast-unique f n r t (a, b, c) (a', b', c') = elim (dec_lt r t) [
    | yes lt ↦
        let g : gt (f r) (f t) ≡ true = c' r lt in
        let h : gt (f r) (f t) ≡ false = b t a' in absurd cc
    | no ge ↦ elim (dec_lt t r) [
      | yes lt ↦
          let g : gt (f t) (f r) ≡ true = c t lt in
          let h : gt (f t) (f r) ≡ false = b' r a in absurd cc
      | no le ↦ omega arith
    ]
  ]

-- The order turned round.
abbrev dual {ℓ} : {W : Type ℓ} → Real W → Real W
dual o = record o { gt = λ a b. o.gt b a; dbl_max = o.dbl_min; dbl_min = o.dbl_max }

dual-IsOrder {ℓ} : {W : Type ℓ} (o : Real W) → IsOrder o → IsOrder (dual o)
dual-IsOrder o laws = record {
  asymm = λ a b. laws.asymm b a;
  le_trans = λ a b c h k. laws.le_trans c b a k h;
}

scan_max-dual {ℓ} :
    {W : Type ℓ} (o : Real W) (f : ℕ → W) (n j : ℕ) (max : W) (jmax : ℕ)
    → scan_max o f n j max jmax ≡ scan_min (dual o) f n j max jmax
unfolding scan_max scan_min
scan_max-dual o f zero j max jmax = refl
scan_max-dual o f (suc n) j max jmax =
    scan_max-dual o f n (j + 1) (if o.gt (f j) max then f j else max)
      (if o.gt (f j) max then j else jmax)

module _ {ℓ} {W : Type ℓ} (o : Real W) (laws : IsOrder o) where
  open o use {gt, dbl_min, dbl_max}

  -- The searches find the first least entry where one is below DBL_MAX, and the first greatest where
  -- one is above DBL_MIN, the least positive double.
  pub min_row_index-IsFirstLeast :
      (cols : ℕ) (m : ℕ → ℕ → W) (i : ℕ)
      → (j : ℕ) × (j < cols) × (gt dbl_max (m i j) ≡ true)
      → IsFirstLeast o laws (m i) cols (min_row_index o cols m i)
  unfolding min_row_index
  min_row_index-IsFirstLeast cols m i h = scan_min-IsFirstLeast o laws (m i) dbl_max cols h

  pub min_col_index-IsFirstLeast :
      (rows : ℕ) (m : ℕ → ℕ → W) (j : ℕ)
      → (i : ℕ) × (i < rows) × (gt dbl_max (m i j) ≡ true)
      → IsFirstLeast o laws (λ i. m i j) rows (min_col_index o rows m j)
  unfolding min_col_index
  min_col_index-IsFirstLeast rows m j h = scan_min-IsFirstLeast o laws (λ i. m i j) dbl_max rows h

  pub max_col_index-IsFirstGreatest :
      (rows : ℕ) (m : ℕ → ℕ → W) (j : ℕ)
      → (i : ℕ) × (i < rows) × (gt (m i j) dbl_min ≡ true)
      → IsFirstGreatest o laws (λ i. m i j) rows (max_col_index o rows m j)
  unfolding max_col_index
  max_col_index-IsFirstGreatest rows m j h =
      rw (scan_max-dual o (λ i. m i j) rows 0 dbl_min 0)
        (scan_min-IsFirstLeast (dual o) (dual-IsOrder o laws) (λ i. m i j) dbl_min rows h)

  pub first_least_unique :
      (f : ℕ → W) (n r t : ℕ) → IsFirstLeast o laws f n r → IsFirstLeast o laws f n t → r ≡ t
  first_least_unique f n r t = IsFirstLeast-unique o laws f n r t

  pub first_greatest_unique :
      (f : ℕ → W) (n r t : ℕ) → IsFirstGreatest o laws f n r → IsFirstGreatest o laws f n t → r ≡ t
  first_greatest_unique f n r t = IsFirstLeast-unique (dual o) (dual-IsOrder o laws) f n r t
