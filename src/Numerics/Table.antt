-- ===== src/Numerics/Table.antt =====
-- The search finds the interval of its argument, and the interpolation meets the table's values.
use geoml.Common.{
  ℕ, zero, suc, ◌+◌, ◌-◌, ◌/◌, ◌≤◌, ◌<◌, ◌≡◌, ◌≢◌, ◌⊎◌, inl, inr, refl, sym, subst, ap, ◌∙◌, true,
  false, leb, ◌==◌, Bool-cases, dec_lt, ℕ_discrete, arith,
}
use geoml.Common.Real.{Real, IsOrder}
use geoml.Common.Ring.{Ring, IsRing, mul_zero, zero_add}
use geoml.Numerics.{search, find_position, interpolate}

middle : (a b : ℕ) → a + 1 < b → (a < (a + b) / 2) × ((a + b) / 2 < b)
middle a b h = (omega arith, omega arith)

module _ {ℓ} {W : Type ℓ} (o : Real W) (n : ℕ) (xdata : ℕ → W) (x : W) where
  -- `xdata[p] <= x && x < xdata[p + 1]`
  abbrev pub Brackets : ℕ → Type 0
  Brackets p = (o.gt (xdata p) x ≡ false) × (o.gt (xdata (p + 1)) x ≡ true)

  search-Brackets :
      (fuel lo hi : ℕ)
      → hi ≤ lo + fuel
      → lo < hi
      → hi < n
      → o.gt (xdata lo) x ≡ false
      → o.gt (xdata hi) x ≡ true
      → let p = search o n xdata x fuel lo hi in (p + 1 < n) × Brackets p
  unfolding search
  search-Brackets zero lo hi f h k a b = absurd (omega arith)
  search-Brackets (suc fuel) lo hi f h k a b = elim (dec_lt (lo + 1) hi) [
    | no ge ↦
        let e : hi ≡ lo + 1 = omega arith in
        let t : leb hi (lo + 1) ≡ true = ground arith in
        rw t (omega arith, (a, ap (λ (i : ℕ). o.gt (xdata i) x) (sym e) ∙ b))
    | yes lt ↦
        let t : leb hi (lo + 1) ≡ false = ground arith in
        let (l, r) = middle lo hi lt in
        elim (Bool-cases (o.gt (xdata ((lo + hi) / 2)) x)) [
          | inl e ↦
              rw (t, a, e)
                (search-Brackets fuel lo ((lo + hi) / 2) (omega arith) l (omega arith) a e)
          | inr e ↦ rw (t, a, e, b) (search-Brackets fuel ((lo + hi) / 2) hi (omega arith) r k e b)
        ]
  ]

  -- In a table of at least two values `FindPosition` gives the first interval for an argument below
  -- the first value, the last one for an argument not below the last, and else an interval that has
  -- the argument, whether or not the table ascends; it never returns the size of the table.
  pub find_position_cases :
      2 ≤ n
      → let p = find_position o n xdata x in
        ((o.gt (xdata 0) x ≡ true) × (p ≡ 0))
        ⊎ ((o.gt (xdata (n - 1)) x ≡ false) × (p + 2 ≡ n))
        ⊎ ((p + 1 < n) × Brackets p)
  unfolding find_position
  find_position_cases h = elim (Bool-cases (o.gt (xdata 0) x)) [
    | inl e ↦ inl (e, rw e refl)
    | inr e ↦ elim (Bool-cases (o.gt (xdata (n - 1)) x)) [
      | inr f ↦ inr (inl (f, rw (e, f) (omega arith)))
      | inl f ↦ inr (
          inr
            (rw (e, f) (search-Brackets n 0 (n - 1) (omega arith) (omega arith) (omega arith) e f)))
    ]
  ]

module _ {ℓ} {W : Type ℓ} (o : Real W) (order : IsOrder o) (r : Ring W) (laws : IsRing r) where
  abbrev pub Ascends : (n : ℕ) → (ℕ → W) → Type 0
  Ascends n xdata = (i j : ℕ) → i < j → j < n → o.gt (xdata j) (xdata i) ≡ true

  irrefl : (a : W) → o.gt a a ≡ false
  irrefl a = ground (arith, order.asymm a a)

  -- The interval of a value that is not the last begins at it.
  find_position-node :
      (n : ℕ) (xdata : ℕ → W) (i : ℕ)
      → Ascends n xdata
      → i + 1 < n
      → find_position o n xdata (xdata i) ≡ i
  find_position-node n xdata i asc h =
      elim (find_position_cases o n xdata (xdata i) (omega arith)) [
        | inl (e, _) ↦ absurd (first e)
        | inr (inl (e, _)) ↦ absurd (ground (arith, asc i (n - 1)))
        | inr (inr (k, (a, b))) ↦ between (find_position o n xdata (xdata i)) k a b
      ]
    where
      first : o.gt (xdata 0) (xdata i) ≡ true → ⊥
      first e = elim (ℕ_discrete i 0) [
        | yes z ↦
            absurd (ground (arith, irrefl (xdata i), ap (λ (k : ℕ). o.gt (xdata k) (xdata i)) z))
        | no ne ↦ absurd (ground (arith, asc 0 i, order.asymm (xdata 0) (xdata i)))
      ]

      between :
          (p : ℕ)
          → p + 1 < n
          → o.gt (xdata p) (xdata i) ≡ false
          → o.gt (xdata (p + 1)) (xdata i) ≡ true
          → p ≡ i
      between p k a b = elim (dec_lt i p) [
        | yes lt ↦ absurd (ground (arith, asc i p))
        | no ge ↦ elim (dec_lt p i) [
          | no le ↦ omega arith
          | yes gt ↦ elim (ℕ_discrete (p + 1) i) [
            | yes e ↦
                absurd
                  (ground (arith, irrefl (xdata i), ap (λ (k : ℕ). o.gt (xdata k) (xdata i)) e))
            | no ne ↦ absurd (ground (arith, asc (p + 1) i, order.asymm (xdata (p + 1)) (xdata i)))
          ]
        ]
      ]

  find_position-last :
      (n : ℕ) (xdata : ℕ → W) (p : ℕ)
      → Ascends n xdata
      → p + 2 ≡ n
      → find_position o n xdata (xdata (p + 1)) ≡ p
  find_position-last n xdata p asc m =
      elim (find_position_cases o n xdata (xdata (p + 1)) (omega arith)) [
        | inl (e, _) ↦ absurd (ground (arith, asc 0 (p + 1), order.asymm (xdata 0) (xdata (p + 1))))
        | inr (inl (_, e)) ↦ omega arith
        | inr (inr (k, (a, b))) ↦ absurd (above (find_position o n xdata (xdata (p + 1))) k b)
      ]
    where
      above : (q : ℕ) → q + 1 < n → o.gt (xdata (q + 1)) (xdata (p + 1)) ≡ true → ⊥
      above q k b = elim (ℕ_discrete (q + 1) (p + 1)) [
        | yes e ↦ absurd (
            ground
              (arith, irrefl (xdata (p + 1)), ap (λ (k : ℕ). o.gt (xdata k) (xdata (p + 1))) e))
        | no ne ↦
            absurd
              (ground (arith, asc (q + 1) (p + 1), order.asymm (xdata (q + 1)) (xdata (p + 1))))
      ]

  -- A difference that vanishes is one of equals.
  equal_of_difference : (a b : W) → r.add a (r.neg b) ≡ r.zero → a ≡ b
  equal_of_difference a b h =
      sym (laws.add_zero a)
      ∙ ap (r.add a) (sym (laws.add_neg b) ∙ laws.add_comm b (r.neg b))
      ∙ sym (laws.add_assoc a (r.neg b) b)
      ∙ ap (λ (c : W). r.add c b) h
      ∙ zero_add laws b

  -- The line through two neighbours of the table.
  abbrev line : (W → W → W) → (xdata ydata : ℕ → W) → ℕ → W → W
  line div xdata ydata p x =
      r.add
        (r.mul
          (div (r.add (ydata (p + 1)) (r.neg (ydata p))) (r.add (xdata (p + 1)) (r.neg (xdata p))))
          (r.add x (r.neg (xdata p))))
        (ydata p)

  interpolate-line :
      (div : W → W → W) (n : ℕ) (xdata ydata : ℕ → W) (x : W) (p : ℕ)
      → 2 ≤ n
      → find_position o n xdata x ≡ p
      → interpolate o r div n xdata ydata x ≡ line div xdata ydata p x
  unfolding interpolate
  interpolate-line div n xdata ydata x p h e =
      let a : (n == 0) ≡ false = ground arith in
      let b : (n == 1) ≡ false = ground arith in rw (a, b, e) refl

  line_start :
      (div : W → W → W) (xdata ydata : ℕ → W) (p : ℕ) → line div xdata ydata p (xdata p) ≡ ydata p
  line_start div xdata ydata p =
      ap (λ (c : W). r.add (r.mul (slope p) c) (ydata p)) (laws.add_neg (xdata p))
      ∙ ap (λ (c : W). r.add c (ydata p)) (mul_zero laws (slope p))
      ∙ zero_add laws (ydata p)
    where
      slope : ℕ → W
      slope k =
          div (r.add (ydata (k + 1)) (r.neg (ydata k))) (r.add (xdata (k + 1)) (r.neg (xdata k)))

  line_end :
      (div : W → W → W) (xdata ydata : ℕ → W) (p : ℕ)
      → ((a b : W) → b ≢ r.zero → r.mul (div a b) b ≡ a)
      → o.gt (xdata (p + 1)) (xdata p) ≡ true
      → line div xdata ydata p (xdata (p + 1)) ≡ ydata (p + 1)
  line_end div xdata ydata p quotient h =
      ap (λ (c : W). r.add c (ydata p))
        (quotient (r.add (ydata (p + 1)) (r.neg (ydata p)))
          (r.add (xdata (p + 1)) (r.neg (xdata p)))
          (λ z. different (equal_of_difference (xdata (p + 1)) (xdata p) z)))
      ∙ laws.add_assoc (ydata (p + 1)) (r.neg (ydata p)) (ydata p)
      ∙ ap (r.add (ydata (p + 1)))
          (laws.add_comm (r.neg (ydata p)) (ydata p) ∙ laws.add_neg (ydata p))
      ∙ laws.add_zero (ydata (p + 1))
    where
      different : xdata (p + 1) ≡ xdata p → ⊥
      different e = absurd (ground (arith, irrefl (xdata p), ap (λ (a : W). o.gt a (xdata p)) e))

  -- `Interpolate` gives the value of the table at each of its arguments, where the arguments ascend,
  -- arithmetic is exact and the quotient by what is not zero is undone by the product.
  pub interpolate-node :
      (div : W → W → W) (n : ℕ) (xdata ydata : ℕ → W) (i : ℕ)
      → ((a b : W) → b ≢ r.zero → r.mul (div a b) b ≡ a)
      → Ascends n xdata
      → i < n
      → interpolate o r div n xdata ydata (xdata i) ≡ ydata i
  interpolate-node div n xdata ydata i quotient asc h = elim (ℕ_discrete n 1) [
    | yes e ↦ single e
    | no one ↦ elim (dec_lt (i + 1) n) [
      | yes lt ↦
          interpolate-line div n xdata ydata (xdata i) i (omega arith)
            (find_position-node n xdata i asc lt)
          ∙ line_start div xdata ydata i
      | no ge ↦
          subst (λ (k : ℕ). interpolate o r div n xdata ydata (xdata k) ≡ ydata k) (omega arith)
            (interpolate-line div n xdata ydata (xdata (n - 2 + 1)) (n - 2) (omega arith)
                (find_position-last n xdata (n - 2) asc (omega arith))
              ∙ line_end div xdata ydata (n - 2) quotient
                  (asc (n - 2) (n - 2 + 1) (omega arith) (omega arith)))
    ]
  ]
    where
      single : n ≡ 1 → interpolate o r div n xdata ydata (xdata i) ≡ ydata i
      single e =
          let a : (n == 0) ≡ false = ground arith in
          let b : (n == 1) ≡ true = ground arith in
          let z : 0 ≡ i = omega arith in unfold interpolate in (rw (a, b) (ap ydata z))
