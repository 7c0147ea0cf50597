-- ===== src/Common/Ring.antt =====
-- Exact arithmetic: the sums and products of the code's doubles, over a commutative ring. Rounding
-- is left out.
use Prim.Native.Nat.{ℕ, zero, suc, ◌<◌}
use mathlib.Core.Path.{◌≡◌, refl, sym, ap, ◌∙◌}
use native.Mathlib.Omega.{arith}

pub record Ring {ℓ} (W : Type ℓ) : Type ℓ where
  pub zero : W
  pub one : W
  pub add : W → W → W
  pub mul : W → W → W
  pub neg : W → W

pub record IsRing {ℓ} {W : Type ℓ} (r : Ring W) : Type ℓ where
  pub add_assoc : (a b c : W) → r.add (r.add a b) c ≡ r.add a (r.add b c)
  pub add_comm : (a b : W) → r.add a b ≡ r.add b a
  pub add_zero : (a : W) → r.add a r.zero ≡ a
  pub add_neg : (a : W) → r.add a (r.neg a) ≡ r.zero
  pub mul_assoc : (a b c : W) → r.mul (r.mul a b) c ≡ r.mul a (r.mul b c)
  pub mul_comm : (a b : W) → r.mul a b ≡ r.mul b a
  pub mul_one : (a : W) → r.mul a r.one ≡ a
  pub mul_add : (a b c : W) → r.mul a (r.add b c) ≡ r.add (r.mul a b) (r.mul a c)

-- `s = 0; for (j = 0; j < n; j++) s += f(j);`
unfoldable pub sum {ℓ} : {W : Type ℓ} → Ring W → ℕ → (ℕ → W) → W
sum r zero f = r.zero
sum r (suc n) f = r.add (sum r n f) (f n)

module _ {ℓ} {W : Type ℓ} {r : Ring W} (laws : IsRing r) where
  pub zero_add : (a : W) → r.add r.zero a ≡ a
  zero_add a = laws.add_comm r.zero a ∙ laws.add_zero a

  pub one_mul : (a : W) → r.mul r.one a ≡ a
  one_mul a = laws.mul_comm r.one a ∙ laws.mul_one a

  pub add_mul : (a b c : W) → r.mul (r.add a b) c ≡ r.add (r.mul a c) (r.mul b c)
  add_mul a b c =
      laws.mul_comm (r.add a b) c
      ∙ laws.mul_add c a b
      ∙ (rw (laws.mul_comm c a, laws.mul_comm c b) refl)

  -- A difference of a thing with itself is zero.
  cancel : (a b : W) → r.add a b ≡ a → b ≡ r.zero
  cancel a b h =
      sym (zero_add b)
      ∙ ap (λ (x : W). r.add x b) (sym (laws.add_neg a))
      ∙ laws.add_assoc a (r.neg a) b
      ∙ ap (r.add a) (laws.add_comm (r.neg a) b)
      ∙ sym (laws.add_assoc a b (r.neg a))
      ∙ ap (λ (x : W). r.add x (r.neg a)) h
      ∙ laws.add_neg a

  pub mul_zero : (a : W) → r.mul a r.zero ≡ r.zero
  mul_zero a =
      cancel (r.mul a r.zero) (r.mul a r.zero)
        (sym (laws.mul_add a r.zero r.zero) ∙ ap (r.mul a) (laws.add_zero r.zero))

  pub zero_mul : (a : W) → r.mul r.zero a ≡ r.zero
  zero_mul a = laws.mul_comm r.zero a ∙ mul_zero a

  pub add_swap : (a b c d : W) → r.add (r.add a b) (r.add c d) ≡ r.add (r.add a c) (r.add b d)
  add_swap a b c d =
      laws.add_assoc a b (r.add c d)
      ∙ ap (r.add a) (
          sym (laws.add_assoc b c d)
          ∙ ap (λ (x : W). r.add x d) (laws.add_comm b c)
          ∙ laws.add_assoc c b d)
      ∙ sym (laws.add_assoc a c (r.add b d))

  pub sum-cong : (n : ℕ) (f g : ℕ → W) → ((k : ℕ) → k < n → f k ≡ g k) → sum r n f ≡ sum r n g
  unfolding sum
  sum-cong zero f g h = refl
  sum-cong (suc n) f g h =
      ap (λ (x : W). r.add x (f n)) (sum-cong n f g (λ k b. h k (omega arith)))
      ∙ ap (r.add (sum r n g)) (h n (omega arith))

  pub sum-add :
      (n : ℕ) (f g : ℕ → W) → sum r n (λ k. r.add (f k) (g k)) ≡ r.add (sum r n f) (sum r n g)
  unfolding sum
  sum-add zero f g = sym (laws.add_zero r.zero)
  sum-add (suc n) f g =
      ap (λ (x : W). r.add x (r.add (f n) (g n))) (sum-add n f g)
      ∙ add_swap (sum r n f) (sum r n g) (f n) (g n)

  pub mul-sum : (n : ℕ) (a : W) (f : ℕ → W) → r.mul a (sum r n f) ≡ sum r n (λ k. r.mul a (f k))
  unfolding sum
  mul-sum zero a f = mul_zero a
  mul-sum (suc n) a f =
      laws.mul_add a (sum r n f) (f n) ∙ ap (λ (x : W). r.add x (r.mul a (f n))) (mul-sum n a f)

  sum_zero : (n : ℕ) → sum r n (λ k. r.zero) ≡ r.zero
  unfolding sum
  sum_zero zero = refl
  sum_zero (suc n) = laws.add_zero (sum r n (λ k. r.zero)) ∙ sum_zero n

  pub sum_exchange :
      (m n : ℕ) (f : ℕ → ℕ → W) → sum r m (λ i. sum r n (f i)) ≡ sum r n (λ j. sum r m (λ i. f i j))
  unfolding sum
  sum_exchange zero n f = sym (sum_zero n)
  sum_exchange (suc m) n f =
      ap (λ (x : W). r.add x (sum r n (f m))) (sum_exchange m n f)
      ∙ sym (sum-add n (λ j. sum r m (λ i. f i j)) (f m))

  -- (a b) c = a (b c), for one row of `a` and one column of `c`.
  pub sum_product :
      (m n : ℕ) (a : ℕ → W) (b : ℕ → ℕ → W) (c : ℕ → W)
      → sum r n (λ k. r.mul (sum r m (λ j. r.mul (a j) (b j k))) (c k))
        ≡ sum r m (λ j. r.mul (a j) (sum r n (λ k. r.mul (b j k) (c k))))
  sum_product m n a b c =
      sum-cong n (λ k. r.mul (sum r m (λ j. r.mul (a j) (b j k))) (c k))
        (λ k. sum r m (λ j. r.mul (a j) (r.mul (b j k) (c k)))) (λ k h. inner k)
      ∙ sum_exchange n m (λ k j. r.mul (a j) (r.mul (b j k) (c k)))
      ∙ sum-cong m (λ j. sum r n (λ k. r.mul (a j) (r.mul (b j k) (c k))))
          (λ j. r.mul (a j) (sum r n (λ k. r.mul (b j k) (c k))))
          (λ j h. sym (mul-sum n (a j) (λ k. r.mul (b j k) (c k))))
    where
      inner :
          (k : ℕ)
          → r.mul (sum r m (λ j. r.mul (a j) (b j k))) (c k)
            ≡ sum r m (λ j. r.mul (a j) (r.mul (b j k) (c k)))
      inner k =
          laws.mul_comm (sum r m (λ j. r.mul (a j) (b j k))) (c k)
          ∙ mul-sum m (c k) (λ j. r.mul (a j) (b j k))
          ∙ sum-cong m (λ j. r.mul (c k) (r.mul (a j) (b j k)))
              (λ j. r.mul (a j) (r.mul (b j k) (c k)))
              (λ j h.
                laws.mul_comm (c k) (r.mul (a j) (b j k)) ∙ laws.mul_assoc (a j) (b j k) (c k))
