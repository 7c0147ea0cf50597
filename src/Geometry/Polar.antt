-- ===== src/Geometry/Polar.antt =====
-- `PolarDecomposition` and `SVD` of src/math/MathFunctions.cpp. A `math_Matrix` is its entries, rows
-- and columns from 1 to 3. OpenCASCADE's `SVD_Decompose` is a parameter.
use geoml.Common.{ℕ, zero, suc, ◌+◌, ◌≤◌, ◌≡◌, sym, ap, ◌∙◌, fun_ext, if◌then◌else◌, ◌==◌, arith}
use geoml.Common.Ring.{Ring, IsRing, sum, sum-cong, sum_product, zero_mul, one_mul, zero_add}

-- The indices of a 3×3 matrix.
abbrev pub Coordinate : ℕ → Type 0
Coordinate i = (1 ≤ i) × (i ≤ 3)

abbrev pub Entries {ℓ} : Type ℓ → Type ℓ
Entries W = ℕ → ℕ → W

-- What `SVD_Decompose` leaves: U, the diagonal and V.
pub record Singular {ℓ} (W : Type ℓ) : Type ℓ where
  pub left : Entries W
  pub diagonal : ℕ → W
  pub right : Entries W

module _ {ℓ} {W : Type ℓ} (r : Ring W) where
  -- `math_Matrix`'s product and transpose.
  unfoldable pub mat_product : Entries W → Entries W → Entries W
  unfolding sum
  mat_product a b i j = sum r 3 (λ k. r.mul (a i (k + 1)) (b (k + 1) j))

  unfoldable pub transposed : Entries W → Entries W
  transposed a i j = a j i

  -- `S` of `SVD`.
  unfoldable pub svd_diagonal : (ℕ → W) → Entries W
  svd_diagonal s i j = if i == j then s i else r.zero

  unfoldable pub polar_decomposition : (Entries W → Singular W) → Entries W → Entries W × Entries W
  unfolding mat_product transposed svd_diagonal
  polar_decomposition svd_decompose a =
      let d = svd_decompose a in
      let v_t = transposed d.right in
      (mat_product d.left v_t, mat_product (mat_product d.right (svd_diagonal d.diagonal)) v_t)

module _ {ℓ} {W : Type ℓ} {r : Ring W} (laws : IsRing r) where
  mat_product_assoc :
      (a b c : Entries W)
      → mat_product r (mat_product r a b) c ≡ mat_product r a (mat_product r b c)
  unfolding mat_product
  mat_product_assoc a b c = fun_ext (λ i.
      fun_ext (λ j.
        sum_product laws 3 3 (λ k. a i (k + 1)) (λ k l. b (k + 1) (l + 1)) (λ l. c (l + 1) j)))

  mat_product-cong :
      (a b c : Entries W) (i j : ℕ)
      → ((k : ℕ) → Coordinate k → b k j ≡ c k j)
      → mat_product r a b i j ≡ mat_product r a c i j
  unfolding mat_product
  mat_product-cong a b c i j h =
      sum-cong laws 3 (λ k. r.mul (a i (k + 1)) (b (k + 1) j))
        (λ k. r.mul (a i (k + 1)) (c (k + 1) j))
        (λ k lt. ap (r.mul (a i (k + 1))) (h (k + 1) (omega arith, omega arith)))

  -- A matrix that is the identity on the indices from 1 to 3.
  abbrev pub IsIdentity : Entries W → Type ℓ
  IsIdentity e =
      (i j : ℕ) → Coordinate i → Coordinate j → e i j ≡ (if i == j then r.one else r.zero)

  first : Coordinate 1
  first = (omega arith, omega arith)

  second : Coordinate 2
  second = (omega arith, omega arith)

  third : Coordinate 3
  third = (omega arith, omega arith)

  -- One row of the identity times a column.
  pick_first :
      (a b c x y z : W)
      → a ≡ r.one
      → b ≡ r.zero
      → c ≡ r.zero
      → r.add (r.add (r.add r.zero (r.mul a x)) (r.mul b y)) (r.mul c z) ≡ x
  pick_first a b c x y z e f g =
      rw (e, f, g) (simp (zero_mul laws, one_mul laws, zero_add laws, laws.add_zero))

  pick_second :
      (a b c x y z : W)
      → a ≡ r.zero
      → b ≡ r.one
      → c ≡ r.zero
      → r.add (r.add (r.add r.zero (r.mul a x)) (r.mul b y)) (r.mul c z) ≡ y
  pick_second a b c x y z e f g =
      rw (e, f, g) (simp (zero_mul laws, one_mul laws, zero_add laws, laws.add_zero))

  pick_third :
      (a b c x y z : W)
      → a ≡ r.zero
      → b ≡ r.zero
      → c ≡ r.one
      → r.add (r.add (r.add r.zero (r.mul a x)) (r.mul b y)) (r.mul c z) ≡ z
  pick_third a b c x y z e f g = rw (e, f, g) (simp (zero_mul laws, one_mul laws, zero_add laws))

  identity_product :
      (e s : Entries W) (i j : ℕ) → IsIdentity e → Coordinate i → mat_product r e s i j ≡ s i j
  unfolding mat_product sum
  identity_product e s zero j h (a, b) = absurd (omega arith)
  identity_product e s (suc zero) j h c =
      pick_first (e 1 1) (e 1 2) (e 1 3) (s 1 j) (s 2 j) (s 3 j) (h 1 1 c first) (h 1 2 c second)
        (h 1 3 c third)
  identity_product e s (suc (suc zero)) j h c =
      pick_second (e 2 1) (e 2 2) (e 2 3) (s 1 j) (s 2 j) (s 3 j) (h 2 1 c first) (h 2 2 c second)
        (h 2 3 c third)
  identity_product e s (suc (suc (suc zero))) j h c =
      pick_third (e 3 1) (e 3 2) (e 3 3) (s 1 j) (s 2 j) (s 3 j) (h 3 1 c first) (h 3 2 c second)
        (h 3 3 c third)
  identity_product e s (suc (suc (suc (suc i)))) j h (a, b) = absurd (omega arith)

  -- The two factors of `PolarDecomposition` multiply to the matrix, if arithmetic is exact and the
  -- singular values and vectors are a decomposition of it whose V is orthogonal.
  pub polar_decomposition-product :
      (svd_decompose : Entries W → Singular W) (a : Entries W) (i j : ℕ)
      → let d = svd_decompose a in
        ((k l : ℕ)
          → Coordinate k
          → Coordinate l
          → mat_product r
              (mat_product r d.left (svd_diagonal r d.diagonal))
              (transposed r d.right)
              k
              l
            ≡ a k l)
        → IsIdentity (mat_product r (transposed r (svd_decompose a).right) (svd_decompose a).right)
        → Coordinate i
        → Coordinate j
        → let (u, p) = polar_decomposition r svd_decompose a in mat_product r u p i j ≡ a i j
  unfolding polar_decomposition
  polar_decomposition-product svd_decompose a i j decomposed orthogonal hi hj =
      ap (λ (e : Entries W). e i j)
        (mat_product_assoc u v_t (mat_product r (mat_product r v s) v_t))
      ∙ mat_product-cong u (mat_product r v_t (mat_product r (mat_product r v s) v_t))
          (mat_product r s v_t) i j inner
      ∙ ap (λ (e : Entries W). e i j) (sym (mat_product_assoc u s v_t))
      ∙ decomposed i j hi hj
    where
      u : Entries W
      u = (svd_decompose a).left

      v : Entries W
      v = (svd_decompose a).right

      v_t : Entries W
      v_t = transposed r v

      s : Entries W
      s = svd_diagonal r (svd_decompose a).diagonal

      inner :
          (k : ℕ)
          → Coordinate k
          → mat_product r v_t (mat_product r (mat_product r v s) v_t) k j ≡ mat_product r s v_t k j
      inner k hk =
          ap (λ (e : Entries W). e k j)
            (ap (mat_product r v_t) (mat_product_assoc v s v_t)
              ∙ sym (mat_product_assoc v_t v (mat_product r s v_t)))
          ∙ identity_product (mat_product r v_t v) (mat_product r s v_t) k j orthogonal hk
