-- ===== src/Numerics/Cst/Ends.antt =====
-- Factorials that an `int` holds, and the ends of the CST curve.
use geoml.Common.{
  ℕ, zero, suc, ◌-◌, ◌*◌, ◌≤◌, ◌<◌, ◌≡◌, ◌⊎◌, inl, inr, refl, sym, ◌∙◌, ap, Option, none, some,
  arith,
}
use geoml.Common.Ring.{Ring, IsRing, zero_add, mul_zero, zero_mul, one_mul}
use geoml.Numerics.Binom.{times, binom, ◌>>=◌, binom_self}
use geoml.Numerics.Chebyshev.{pow_int}
use geoml.Numerics.Cst.{
  Doubles, factorial, factorial_loop, total, one_minus, bernstein_poly, bernstein_poly_deriv,
  pow_deriv, class_function, class_function_deriv, shape_function, shape_function_deriv, cstcurve,
  cstcurve_deriv,
}

abbrev pub product_to : ℕ → ℕ
product_to zero = 1
product_to (suc n) = suc n * product_to n

-- `factorial` is the product of the numbers up to 12, and overflows from 13 on.
pub factorial_cases :
    (n : ℕ) → ((n ≤ 12) × (factorial n ≡ some (product_to n))) ⊎ ((12 < n) × (factorial n ≡ none))
unfolding factorial factorial_loop times
factorial_cases zero = inl (omega arith, refl)
factorial_cases (suc zero) = inl (omega arith, refl)
factorial_cases (suc (suc zero)) = inl (omega arith, refl)
factorial_cases (suc (suc (suc zero))) = inl (omega arith, refl)
factorial_cases (suc (suc (suc (suc zero)))) = inl (omega arith, refl)
factorial_cases (suc (suc (suc (suc (suc zero))))) = inl (omega arith, refl)
factorial_cases (suc (suc (suc (suc (suc (suc zero)))))) = inl (omega arith, refl)
factorial_cases (suc (suc (suc (suc (suc (suc (suc zero))))))) = inl (omega arith, refl)
factorial_cases (suc (suc (suc (suc (suc (suc (suc (suc zero)))))))) = inl (omega arith, refl)
factorial_cases (suc (suc (suc (suc (suc (suc (suc (suc (suc zero))))))))) = inl (omega arith, refl)
factorial_cases (suc (suc (suc (suc (suc (suc (suc (suc (suc (suc zero)))))))))) =
    inl (omega arith, refl)
factorial_cases (suc (suc (suc (suc (suc (suc (suc (suc (suc (suc (suc zero))))))))))) =
    inl (omega arith, refl)
factorial_cases (suc (suc (suc (suc (suc (suc (suc (suc (suc (suc (suc (suc zero)))))))))))) =
    inl (omega arith, refl)
factorial_cases (suc (suc (suc (suc (suc (suc (suc (suc (suc (suc (suc (suc (suc n))))))))))))) =
    let shorter : suc (suc (suc (suc (suc (suc (suc (suc (suc (suc (suc (suc (suc n)))))))))))) - 1
        ≡ suc (suc (suc (suc (suc (suc (suc (suc (suc (suc (suc (suc n))))))))))) =
      omega arith in
    inr (omega arith, ap (λ (x : ℕ). factorial_loop x 2 1) shorter)

module _ {ℓ} {W : Type ℓ} (r : Ring W) (laws : IsRing r) where
  pow_int-one : (n : ℕ) → pow_int r r.one n ≡ r.one
  unfolding pow_int
  pow_int-one zero = refl
  pow_int-one (suc n) = laws.mul_one (pow_int r r.one n) ∙ pow_int-one n

  pow_int-zero : (n : ℕ) → 0 < n → pow_int r r.zero n ≡ r.zero
  unfolding pow_int
  pow_int-zero zero h = absurd (omega arith)
  pow_int-zero (suc n) h = mul_zero laws (pow_int r r.zero n)

module _ {ℓ} {W : Type ℓ} (r : Ring W) (laws : IsRing r) (d : Doubles W) where
  one_minus-zero : one_minus r d r.zero ≡ r.one
  one_minus-zero =
      ap (r.add r.one) (sym (zero_add laws (r.neg r.zero)) ∙ laws.add_neg r.zero)
      ∙ laws.add_zero r.one

  total-zeros :
      (n : ℕ) (f : ℕ → Option W)
      → ((i : ℕ) → i < n → f i ≡ some r.zero)
      → total r d n f ≡ some r.zero
  unfolding total
  total-zeros zero f h = refl
  total-zeros (suc n) f h =
      rw (total-zeros n f (λ i b. h i (omega arith)), h n (omega arith))
        (ap some (laws.add_zero r.zero))

  total-last :
      (n : ℕ) (f : ℕ → Option W) (v : W)
      → ((i : ℕ) → i < n → f i ≡ some r.zero)
      → f n ≡ some v
      → total r d (suc n) f ≡ some v
  unfolding total
  total-last n f v h k = rw (total-zeros n f h, k) (ap some (zero_add laws v))

  total-first :
      (n : ℕ) (f : ℕ → Option W) (v : W)
      → ((i : ℕ) → i < n → f (suc i) ≡ some r.zero)
      → f 0 ≡ some v
      → total r d (suc n) f ≡ some v
  unfolding total
  total-first zero f v h k = rw k (ap some (zero_add laws v))
  total-first (suc n) f v h k =
      rw (total-first n f v (λ i b. h i (omega arith)) k, h n (omega arith))
        (ap some (laws.add_zero v))

  -- The Bernstein polynomials at the ends.
  bernstein_poly-vanishes :
      (i n b : ℕ) (x : W)
      → binom 2 n i ≡ some b
      → (pow_int r x i ≡ r.zero) ⊎ (pow_int r (one_minus r d x) (n - i) ≡ r.zero)
      → bernstein_poly r d i n x ≡ some r.zero
  unfolding bernstein_poly
  bernstein_poly-vanishes i n b x h (inl k) =
      rw (h, k, mul_zero laws (d.of_int b))
        (ap some (zero_mul laws (pow_int r (one_minus r d x) (n - i))))
  bernstein_poly-vanishes i n b x h (inr k) =
      rw (h, k) (ap some (mul_zero laws (r.mul (d.of_int b) (pow_int r x i))))

  bernstein_poly-is_one :
      (i n : ℕ) (x : W)
      → d.of_int 1 ≡ r.one
      → binom 2 n i ≡ some 1
      → pow_int r x i ≡ r.one
      → pow_int r (one_minus r d x) (n - i) ≡ r.one
      → bernstein_poly r d i n x ≡ some r.one
  unfolding bernstein_poly
  bernstein_poly-is_one i n x u h k l =
      rw (h, k, l, u)
        (ap some (ap (λ (y : W). r.mul y r.one) (laws.mul_one r.one) ∙ laws.mul_one r.one))

  -- Where no binomial coefficient overflows, the shape function of `m + 1` coefficients starts at the
  -- first of them and ends at the last.
  pub shape_function_ends :
      (b : ℕ → W) (m : ℕ)
      → d.of_int 1 ≡ r.one
      → ((i : ℕ) → i ≤ m → (k : ℕ) × (binom 2 m i ≡ some k))
      → (shape_function r d b (suc m) r.zero ≡ some (b 0))
        × (shape_function r d b (suc m) r.one ≡ some (b m))
  unfolding shape_function binom pow_int
  shape_function_ends b m u fits = (
    sized r.zero
        ∙ total-first m (term r.zero) (b 0) (λ i h. start i h (fits (suc i) (omega arith))) first,
    sized r.one ∙ total-last m (term r.one) (b m) (λ i h. before i h (fits i (omega arith))) last,
  )
    where
      term : W → ℕ → Option W
      term x i = do p ← bernstein_poly r d i m x; some (r.mul (b i) p)

      sized : (x : W) → shape_function r d b (suc m) x ≡ total r d (suc m) (term x)
      sized x =
          let e : suc m - 1 ≡ m = omega arith in
          ap
            (λ (n : ℕ).
              total r d (suc m) (λ i. do p ← bernstein_poly r d i n x; some (r.mul (b i) p)))
            e

      none_of : (i : ℕ) (x : W) → bernstein_poly r d i m x ≡ some r.zero → term x i ≡ some r.zero
      none_of i x h = rw h (ap some (mul_zero laws (b i)))

      all_of : (i : ℕ) (x : W) → bernstein_poly r d i m x ≡ some r.one → term x i ≡ some (b i)
      all_of i x h = rw h (ap some (laws.mul_one (b i)))

      start :
          (i : ℕ)
          → i < m
          → ((k : ℕ) × (binom 2 m (suc i) ≡ some k))
          → term r.zero (suc i) ≡ some r.zero
      start i h (k, e) = none_of (suc i) r.zero (
          bernstein_poly-vanishes (suc i) m k r.zero e
            (inl (pow_int-zero r laws (suc i) (omega arith))))

      before : (i : ℕ) → i < m → ((k : ℕ) × (binom 2 m i ≡ some k)) → term r.one i ≡ some r.zero
      before i h (k, e) = none_of i r.one (
          bernstein_poly-vanishes i m k r.one e (
            inr (
              ap (λ (y : W). pow_int r y (m - i)) (laws.add_neg r.one)
              ∙ pow_int-zero r laws (m - i) (omega arith))))

      first : term r.zero 0 ≡ some (b 0)
      first = all_of 0 r.zero (
          bernstein_poly-is_one 0 m r.zero u refl refl
            (ap (λ (y : W). pow_int r y (m - 0)) one_minus-zero ∙ pow_int-one r laws (m - 0)))

      whole : ((k : ℕ) × (binom 2 m m ≡ some k)) → binom 2 m m ≡ some 1
      whole (k, e) = binom_self m k e

      last : term r.one m ≡ some (b m)
      last =
          let e : m - m ≡ 0 = omega arith in
          all_of m r.one (
            bernstein_poly-is_one m m r.one u (whole (fits m (omega arith))) (pow_int-one r laws m)
              (ap (pow_int r (one_minus r d r.one)) e))

  -- Where no binomial coefficient overflows and both exponents are ones at which the power of 0 is 0,
  -- the CST curve starts at 0 and ends at the thickness of the trailing edge.
  pub cstcurve_ends :
      (n1 n2 t : W) (b : ℕ → W) (m : ℕ)
      → d.of_int 1 ≡ r.one
      → d.pow r.zero n1 ≡ r.zero
      → d.pow r.zero n2 ≡ r.zero
      → ((i : ℕ) → i ≤ m → (k : ℕ) × (binom 2 m i ≡ some k))
      → (cstcurve r d n1 n2 b (suc m) t r.zero ≡ some r.zero)
        × (cstcurve r d n1 n2 b (suc m) t r.one ≡ some t)
  unfolding cstcurve class_function
  cstcurve_ends n1 n2 t b m u k1 k2 fits =
      let (start, end) = shape_function_ends b m u fits in
      let e : d.pow (one_minus r d r.one) n2 ≡ r.zero =
        ap (λ (y : W). d.pow y n2) (laws.add_neg r.one) ∙ k2 in
      (
        rw start (
            ap some (
              ap
                (λ (y : W).
                  r.add (r.mul (r.mul y (d.pow (one_minus r d r.zero) n2)) (b 0)) (r.mul r.zero t))
                k1
              ∙ ap (λ (y : W). r.add (r.mul y (b 0)) (r.mul r.zero t))
                  (zero_mul laws (d.pow (one_minus r d r.zero) n2))
              ∙ ap (λ (y : W). r.add y (r.mul r.zero t)) (zero_mul laws (b 0))
              ∙ zero_add laws (r.mul r.zero t)
              ∙ zero_mul laws t)),
        rw end (
            ap some (
              ap (λ (y : W). r.add (r.mul (r.mul (d.pow r.one n1) y) (b m)) (r.mul r.one t)) e
              ∙ ap (λ (y : W). r.add (r.mul y (b m)) (r.mul r.one t))
                  (mul_zero laws (d.pow r.one n1))
              ∙ ap (λ (y : W). r.add y (r.mul r.one t)) (zero_mul laws (b m))
              ∙ zero_add laws (r.mul r.one t)
              ∙ one_mul laws t)),
      )

  -- Where the shape function has a value, the derivative of order 0 of the CST curve has one too, and
  -- the curve is that value and `x * t`: the derivative leaves the trailing edge out.
  pub cstcurve_deriv-zero :
      (n1 n2 t x s : W) (b : ℕ → W) (size : ℕ)
      → d.of_int 1 ≡ r.one
      → shape_function r d b size x ≡ some s
      → (v : W) × (cstcurve_deriv r d n1 n2 b size t 0 x ≡ some v)
        × (cstcurve r d n1 n2 b size t x ≡ some (r.add v (r.mul x t)))
  unfolding cstcurve cstcurve_deriv class_function class_function_deriv shape_function_deriv
      shape_function total bernstein_poly_deriv pow_deriv binom pow_int
  cstcurve_deriv-zero n1 n2 t x s b size u h = (
    r.mul (class_function r d n1 n2 x) s,
    rw (h, u)
        (ap some (
          zero_add laws (
            r.mul
              (r.mul r.one (
                r.add r.zero
                  (r.mul (r.mul (r.mul r.one (d.pow x n1)) (d.pow (one_minus r d x) n2)) r.one)))
              s)
          ∙ ap (λ (y : W). r.mul y s)
              (one_mul laws (
                  r.add r.zero
                    (r.mul (r.mul (r.mul r.one (d.pow x n1)) (d.pow (one_minus r d x) n2)) r.one))
                ∙ zero_add laws
                    (r.mul (r.mul (r.mul r.one (d.pow x n1)) (d.pow (one_minus r d x) n2)) r.one)
                ∙ laws.mul_one (r.mul (r.mul r.one (d.pow x n1)) (d.pow (one_minus r d x) n2))
                ∙ ap (λ (y : W). r.mul y (d.pow (one_minus r d x) n2))
                    (one_mul laws (d.pow x n1))))),
    rw h refl,
  )
