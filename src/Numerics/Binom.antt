-- ===== src/Numerics/Binom.antt =====
-- `binom` of src/math/MathFunctions.cpp, on arguments that are not negative. An `int` has 32 bits, and
-- a product above its greatest value is none.
use geoml.Common.{
  ℕ, zero, suc, ◌+◌, ◌-◌, ◌*◌, ◌/◌, ◌≤◌, ◌≡◌, refl, sym, ap, ◌∙◌, subst, true, false, Option, none,
  some, if◌then◌else◌, leb, ltb, ◌==◌, Bool-cases, inl, inr, ℕ_discrete, arith,
}
use native.Mathlib.Nat.{div-eq_of_eq-mul_right, mul-le-mul}

infixl 5 ◌>>=◌
abbrev pub ◌>>=◌ {ℓ κ} : {A : Type ℓ} {B : Type κ} → Option A → (A → Option B) → Option B
none >>= f = none
some a >>= f = f a

abbrev pub int_max : ℕ
int_max = 2147483647

unfoldable pub times : ℕ → ℕ → Option ℕ
times a b = if leb (a * b) int_max then some (a * b) else none

-- `for (i = 2; i <= k; ++i) { result *= m + i; result /= i; }` with `r` rounds to go; `m` is `n - k`.
unfoldable pub binom_loop : (r i m result : ℕ) → Option ℕ
unfolding times
binom_loop zero i m result = some result
binom_loop (suc r) i m result = do p ← times result (m + i); binom_loop r (i + 1) m (p / i)

-- The function calls itself once at most: two steps of fuel are enough.
unfoldable pub binom : (fuel n k : ℕ) → Option ℕ
unfolding binom_loop times
binom zero n k = none
binom (suc fuel) n k =
    let mirrored = binom fuel n (n - k) in
    if k == 0 then some 1 else do
      double ← times 2 k
      if ltb n double then mirrored else binom_loop (k - 1) 2 (n - k) (n - k + 1)

-- The number of ways to choose `a` things of `a + b`, by Pascal's rule.
unfoldable pub choose : (a b : ℕ) → ℕ
choose zero b = 1
choose (suc a) zero = 1
choose (suc a) (suc b) = choose a (suc b) + choose (suc a) b

choose_comm : (a b : ℕ) → choose a b ≡ choose b a
unfolding choose
choose_comm zero zero = refl
choose_comm zero (suc b) = refl
choose_comm (suc a) zero = refl
choose_comm (suc a) (suc b) = omega (arith, choose_comm a (suc b), choose_comm (suc a) b)

choose_zero : (a : ℕ) → choose a 0 ≡ 1
unfolding choose
choose_zero zero = refl
choose_zero (suc a) = refl

-- One more thing of either kind.
choose_absorbs :
    (a b : ℕ)
    → ((a + 1) * choose (suc a) b ≡ (a + b + 1) * choose a b)
      × ((b + 1) * choose a (suc b) ≡ (a + b + 1) * choose a b)
unfolding choose
choose_absorbs zero zero = (refl, refl)
choose_absorbs zero (suc b) = let (x, y) = choose_absorbs zero b in (grind arith, omega arith)
choose_absorbs (suc a) zero = let (x, y) = choose_absorbs a zero in (omega arith, grind arith)
choose_absorbs (suc a) (suc b) =
    let (x, y) = choose_absorbs (suc a) b in
    let (z, w) = choose_absorbs a (suc b) in (grind arith, grind arith)

choose_grows : (a b : ℕ) → choose a b ≤ choose (suc a) b
unfolding choose
choose_grows zero zero = omega arith
choose_grows zero (suc b) = omega arith
choose_grows (suc a) zero = omega arith
choose_grows (suc a) (suc b) = omega arith

choose_grows_by : (d a b : ℕ) → choose a b ≤ choose (a + d) b
choose_grows_by zero a b = subst (λ (k : ℕ). choose a b ≤ choose k b) (a_zero a) (omega arith)
  where
    a_zero : (a : ℕ) → a ≡ a + 0
    a_zero a = omega arith
choose_grows_by (suc d) a b =
    subst (λ (k : ℕ). choose a b ≤ choose k b) (a_suc a d)
      (omega (arith, choose_grows_by d a b, choose_grows (a + d) b))
  where
    a_suc : (a d : ℕ) → suc (a + d) ≡ a + suc d
    a_suc a d = omega arith

-- A round of the loop adds one thing, without a remainder.
round_adds : (a m : ℕ) → (choose a m * (m + (a + 1))) / (a + 1) ≡ choose (a + 1) m
round_adds a m = div-eq_of_eq-mul_right (omega arith) (
    subst (λ (k : ℕ). choose a m * (m + (a + 1)) ≡ (a + 1) * choose k m) next
      (grind (arith, (choose_absorbs a m).0)))
  where
    next : suc a ≡ a + 1
    next = omega arith

binom_loop-choose :
    (r a m : ℕ)
    → choose (a + r) m * (m + (a + r)) ≤ int_max
    → binom_loop r (a + 1) m (choose a m) ≡ some (choose (a + r) m)
unfolding binom_loop times
binom_loop-choose zero a m h = ap some (ap (λ (k : ℕ). choose k m) (omega arith))
binom_loop-choose (suc r) a m h =
    let fits : leb (choose a m * (m + (a + 1))) int_max ≡ true = ground (arith, small) in
    rw (fits, round_adds a m)
      (subst (λ (k : ℕ). binom_loop r (a + 1 + 1) m (choose (a + 1) m) ≡ some (choose k m))
        (next a r)
        (binom_loop-choose r (a + 1) m
          (subst (λ (k : ℕ). choose k m * (m + k) ≤ int_max) (sym (next a r)) h)))
  where
    next : (a r : ℕ) → a + 1 + r ≡ a + suc r
    next a r = omega arith

    small : choose a m * (m + (a + 1)) ≤ choose (a + suc r) m * (m + (a + suc r))
    small = mul-le-mul (choose_grows_by (suc r) a m) (omega arith)

choose_one : (m : ℕ) → choose 1 m ≡ m + 1
unfolding choose
choose_one zero = refl
choose_one (suc m) = omega (arith, choose_one m)

-- The loop from its start.
binom_loop_lem :
    (k m : ℕ)
    → 1 ≤ k
    → choose k m * (m + k) ≤ int_max
    → binom_loop (k - 1) 2 m (m + 1) ≡ some (choose k m)
binom_loop_lem zero m h b = absurd (omega arith)
binom_loop_lem (suc k) m h b =
    subst (λ (j : ℕ). binom_loop (suc k - 1) 2 m j ≡ some (choose (suc k) m)) (choose_one m)
      (subst (λ (j : ℕ). binom_loop j 2 m (choose 1 m) ≡ some (choose (suc k) m)) (less k)
        (subst (λ (j : ℕ). binom_loop k 2 m (choose 1 m) ≡ some (choose j m)) (more k)
          (binom_loop-choose k 1 m
            (subst (λ (j : ℕ). choose j m * (m + j) ≤ int_max) (sym (more k)) b))))
  where
    more : (k : ℕ) → 1 + k ≡ suc k
    more k = omega arith

    less : (k : ℕ) → k ≡ suc k - 1
    less k = omega arith

-- For k ≤ n, `binom` returns the number of ways to choose k of n things, by Pascal's rule, if that
-- number times n and twice k fit in an `int`; no product on the way overflows, and two calls are
-- enough.
pub binom-choose :
    (fuel n k : ℕ)
    → k ≤ n
    → 2 * k ≤ int_max
    → choose k (n - k) * n ≤ int_max
    → binom (suc (suc fuel)) n k ≡ some (choose k (n - k))
unfolding binom times
binom-choose fuel n k h twice b = elim (ℕ_discrete k 0) [
  | yes e ↦ let t : (k == 0) ≡ true = ground arith in rw t (ap some (none_chosen e))
  | no ne ↦
      let t : (k == 0) ≡ false = ground arith in
      let w : leb (2 * k) int_max ≡ true = ground arith in
      elim (Bool-cases (ltb n (2 * k))) [
        | inr f ↦
            rw (t, w, f) (binom_loop_lem k (n - k) (omega arith) (fits k (n - k) (omega arith) b))
        | inl f ↦ rw (t, w, f) (mirrored f)
      ]
]
  where
    none_chosen : k ≡ 0 → 1 ≡ choose k (n - k)
    none_chosen e = unfold choose in subst (λ (j : ℕ). 1 ≡ choose j (n - k)) (sym e) refl

    fits : (a c : ℕ) → c + a ≡ n → choose a c * n ≤ int_max → choose a c * (c + a) ≤ int_max
    fits a c e b = subst (λ (j : ℕ). choose a c * j ≤ int_max) (sym e) b

    mirrored : ltb n (2 * k) ≡ true → binom (suc fuel) n (n - k) ≡ some (choose k (n - k))
    mirrored f = elim (ℕ_discrete (n - k) 0) [
      | yes e ↦
          let t : (n - k == 0) ≡ true = ground arith in
          rw t (ap some (sym (ap (choose k) e ∙ choose_zero k)))
      | no ne ↦
          let t : (n - k == 0) ≡ false = ground arith in
          let w : leb (2 * (n - k)) int_max ≡ true = ground arith in
          let g : ltb n (2 * (n - k)) ≡ false = ground arith in
          let back : n - (n - k) ≡ k = omega arith in
          rw (t, w, g, back)
            (binom_loop_lem (n - k) k (omega arith) (
                fits (n - k) k (omega arith)
                  (subst (λ (j : ℕ). j * n ≤ int_max) (choose_comm k (n - k)) b))
              ∙ ap some (choose_comm (n - k) k))
    ]

-- Where `binom` of all of `m` things returns, it returns 1.
pub binom_self : (m k : ℕ) → binom 2 m m ≡ some k → binom 2 m m ≡ some 1
unfolding binom times
binom_self zero k h = refl
binom_self (suc m) k h =
    let a : ltb (suc m) (2 * suc m) ≡ true = ground arith in
    let b : (suc m - suc m == 0) ≡ true = ground arith in
    let c : (suc m == 0) ≡ false = ground arith in
    elim (Bool-cases (leb (2 * suc m) int_max)) [
      | inl w ↦ rw (c, w, a, b) refl
      | inr w ↦ absurd (none-ne (rw (c, w) at h))
    ]
  where
    none-ne : ◌≡◌ {A = Option ℕ} none (some k) → ⊥
    none-ne e = cc
