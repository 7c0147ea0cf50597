-- ===== src/Splines/Knots/Closed.antt =====
-- `knotsFromCurveParameters` for a closed curve: the period of the knots.
use geoml.Common.{
  ℕ, ◌+◌, ◌-◌, ◌*◌, ◌%◌, ◌≤◌, ◌<◌, ◌≡◌, inl, inr, refl, sym, ◌∙◌, ap, true, false, ltb, leb, ◌==◌,
  ◌||◌, List, Option, some, get_elem?, length, arith, dec_lt, ℕ_discrete, Bool-cases,
}
use geoml.Common.Ring.{Ring, IsRing}
use geoml.Common.Result.{ok}
use geoml.Splines.{
  minus, shifted, even_knot, inner_closed, closed_knots, knots_from_curve_parameters,
}
use geoml.Splines.Knots.{three, three_first, three_second, three_third, length-closed_knots}

module _ {ℓ} {W : Type ℓ} (r : Ring W) (laws : IsRing r) where
  take_out : (o x : W) → x ≡ r.add (r.add o x) (r.neg o)
  take_out o x =
      sym (laws.add_zero x)
      ∙ ap (r.add x) (sym (laws.add_neg o))
      ∙ sym (laws.add_assoc x o (r.neg o))
      ∙ ap (λ (y : W). r.add y (r.neg o)) (laws.add_comm x o)

  -- `a - (a - b)`
  twice_minus : (a b : W) → b ≡ r.add a (r.neg (minus r a b))
  twice_minus a b =
      take_out (minus r a b) b
      ∙ ap (λ (y : W). r.add y (r.neg (minus r a b)))
          (laws.add_assoc a (r.neg b) b
            ∙ ap (r.add a) (laws.add_comm (r.neg b) b ∙ laws.add_neg b)
            ∙ laws.add_zero a)

  minus_turned : (a b : W) → r.neg (minus r a b) ≡ minus r b a
  minus_turned a b =
      take_out a (r.neg (minus r a b)) ∙ ap (λ (y : W). r.add y (r.neg a)) (sym (twice_minus a b))

  -- The knots of a closed curve repeat, moved by the difference of the inner ends.
  closed_knots_period :
      (inner : ℕ → W) (n degree i : ℕ)
      → degree < n
      → i ≤ 2 * degree
      → (k : W) × (get_elem? (closed_knots r inner n degree) i ≡ some k)
        × (get_elem? (closed_knots r inner n degree) (i + (n - 1))
            ≡ some (r.add k (minus r (inner (n - 1)) (inner 0))))
  unfolding closed_knots
  closed_knots_period inner n degree i h b = elim (dec_lt i degree) [
    | yes lt ↦ (
      left i,
      three_first left inner right degree n degree i lt,
      at (i + (n - 1)) (degree + (n - degree - 1 + i)) (omega arith)
          ∙ three_second left inner right degree n degree (n - degree - 1 + i) (omega arith)
          ∙ ap some (take_out (minus r (inner 0) (inner (n - 1))) (inner (n - degree - 1 + i)))
          ∙ moved (left i),
    )
    | no ge ↦ elim (ℕ_discrete i degree) [
      | yes e ↦ (
        inner 0,
        at i (degree + 0) (omega arith)
            ∙ three_second left inner right degree n degree 0 (omega arith),
        at (i + (n - 1)) (degree + (n - 1)) (omega arith)
            ∙ three_second left inner right degree n degree (n - 1) (omega arith)
            ∙ ap some (twice_minus (inner 0) (inner (n - 1)))
            ∙ moved (inner 0),
      )
      | no ne ↦ (
        inner (i - degree),
        at i (degree + (i - degree)) (omega arith)
            ∙ three_second left inner right degree n degree (i - degree) (omega arith),
        at (i + (n - 1)) (degree + n + (i - degree - 1)) (omega arith)
            ∙ three_third left inner right degree n degree (i - degree - 1) (omega arith)
            ∙ ap some (
                laws.add_comm (r.neg (minus r (inner 0) (inner (n - 1))))
                  (inner (i - degree - 1 + 1)))
            ∙ index (omega arith)
            ∙ moved (inner (i - degree)),
      )
    ]
  ]
    where
      left : ℕ → W
      left i = r.add (minus r (inner 0) (inner (n - 1))) (inner (n - degree - 1 + i))

      right : ℕ → W
      right i = r.add (r.neg (minus r (inner 0) (inner (n - 1)))) (inner (i + 1))

      at :
          (p q : ℕ)
          → p ≡ q
          → get_elem? (three left inner right degree n degree) p
            ≡ get_elem? (three left inner right degree n degree) q
      at p q e = ap (get_elem? (three left inner right degree n degree)) e

      moved :
          (x : W)
          → ◌≡◌ {A = Option W}
              (some (r.add x (r.neg (minus r (inner 0) (inner (n - 1))))))
              (some (r.add x (minus r (inner (n - 1)) (inner 0))))
      moved x = ap (λ (y : W). some (r.add x y)) (minus_turned (inner 0) (inner (n - 1)))

      index :
          {p q : ℕ}
          → p ≡ q
          → ◌≡◌ {A = Option W}
              (some (r.add (inner p) (r.neg (minus r (inner 0) (inner (n - 1))))))
              (some (r.add (inner q) (r.neg (minus r (inner 0) (inner (n - 1))))))
      index e = ap (λ (x : ℕ). some (r.add (inner x) (r.neg (minus r (inner 0) (inner (n - 1)))))) e

module _ {ℓ} {W : Type ℓ} (r : Ring W) (div : W → W → W) (of_nat : ℕ → W) where
  -- The ends of the inner knots of a closed curve are those of the parameters.
  inner_closed_first :
      (params : ℕ → W) (n degree : ℕ) → inner_closed r div of_nat params n degree 0 ≡ params 0
  unfolding inner_closed even_knot
  inner_closed_first params n degree = elim (Bool-cases (degree % 2 == 0)) [
    | inl e ↦ let t : (leb 0 (n - 2)) ≡ true = ground arith in rw (e, t) refl
    | inr e ↦ rw e refl
  ]

  inner_closed_last :
      (params : ℕ → W) (n degree : ℕ)
      → 3 ≤ n
      → inner_closed r div of_nat params n degree (n - 1) ≡ params (n - 1)
  unfolding inner_closed
  inner_closed_last params n degree h = elim (Bool-cases (degree % 2 == 0)) [
    | inl e ↦
        let t : (leb (n - 1) (n - 2) || ((n - 1) == 1)) ≡ false = ground arith in rw (e, t) refl
    | inr e ↦ rw e refl
  ]

  -- A closed curve of degree at least two with more parameters than the degree: the call returns
  -- `n + 2 * degree` knots, and each of the first `2 * degree + 1` of them comes again `n - 1` places
  -- later, moved by the length of the range of the parameters.
  pub knots_closed_period :
      (params : ℕ → W) (n degree : ℕ)
      → IsRing r
      → 2 ≤ degree
      → degree < n
      → (knots : List W) × (moved : ℕ → W) × (knots_from_curve_parameters r div of_nat params n
            degree true
          ≡ ok (knots, moved))
        × (length knots ≡ n + 2 * degree)
        × ((i : ℕ)
            → i ≤ 2 * degree
            → (k : W) × (get_elem? knots i ≡ some k)
              × (get_elem? knots (i + (n - 1))
                  ≡ some (r.add k (minus r (params (n - 1)) (params 0)))))
  unfolding knots_from_curve_parameters closed_knots
  knots_closed_period params n degree laws h k =
      let inner = inner_closed r div of_nat params n degree in
      let a : ltb n 2 ≡ false = ground arith in
      let b : leb n degree ≡ false = ground arith in
      let c : leb degree 1 ≡ false = ground arith in
      (
        closed_knots r inner n degree,
        shifted r div of_nat params n degree,
        rw (a, b, c) refl,
        length-closed_knots r inner n degree ∙ omega arith,
        λ i p. repeat i (closed_knots_period r laws inner n degree i k p),
      )
    where
      repeat :
          (i : ℕ)
          → (k : W) × (get_elem?
                (closed_knots r (inner_closed r div of_nat params n degree) n degree)
                i
              ≡ some k)
            × (get_elem?
                  (closed_knots r (inner_closed r div of_nat params n degree) n degree)
                  (i + (n - 1))
                ≡ some (
                    r.add k (
                      minus r
                        (inner_closed r div of_nat params n degree (n - 1))
                        (inner_closed r div of_nat params n degree 0))))
          → (k : W) × (get_elem?
                (closed_knots r (inner_closed r div of_nat params n degree) n degree)
                i
              ≡ some k)
            × (get_elem?
                  (closed_knots r (inner_closed r div of_nat params n degree) n degree)
                  (i + (n - 1))
                ≡ some (r.add k (minus r (params (n - 1)) (params 0))))
      repeat i (x, e, f) = (
        x,
        e,
        f
            ∙ (rw
                (
                  inner_closed_last params n degree (omega arith),
                  inner_closed_first params n degree,
                )
                refl),
      )
