-- ===== src/Examples/General.antt =====
-- A `gp_GTrsf` over the integers modulo 3 that behaves as documented.
use geoml.Common.{
  ℕ, ◌+◌, ◌≡◌, inl, inr, refl, ap, ◌∙◌, subst, Bool, true, false, ◌&&◌, Option, none, some, ◌==◌,
  if◌then◌else◌, Bool-cases, arith,
}
use geoml.Geometry.Transformation.{Xyz, GeneralTrsf, IsGeneralTrsf, affine_row}
use geoml.Examples.Mod3.{Mod3, zero3, one3, two3, add3, mul3, mod3}

abbrev pub eq3 : Mod3 → Mod3 → Bool
eq3 zero3 zero3 = true
eq3 one3 one3 = true
eq3 two3 two3 = true
eq3 zero3 one3 = false
eq3 zero3 two3 = false
eq3 one3 zero3 = false
eq3 one3 two3 = false
eq3 two3 zero3 = false
eq3 two3 one3 = false

eq3-equal : (a b : Mod3) → eq3 a b ≡ true → a ≡ b
eq3-equal zero3 zero3 h = refl
eq3-equal one3 one3 h = refl
eq3-equal two3 two3 h = refl
eq3-equal zero3 one3 h = absurd cc
eq3-equal zero3 two3 h = absurd cc
eq3-equal one3 zero3 h = absurd cc
eq3-equal one3 two3 h = absurd cc
eq3-equal two3 zero3 h = absurd cc
eq3-equal two3 one3 h = absurd cc

-- The translation by (1, 2, 0), entry by entry.
abbrev pub is_known : (ℕ → ℕ → Mod3) → Bool
is_known t =
    eq3 (t 1 1) one3
    && (eq3 (t 1 2) zero3
        && (eq3 (t 1 3) zero3
            && (eq3 (t 1 4) one3
                && (eq3 (t 2 1) zero3
                    && (eq3 (t 2 2) one3
                        && (eq3 (t 2 3) zero3
                            && (eq3 (t 2 4) two3
                                && (eq3 (t 3 1) zero3
                                    && (eq3 (t 3 2) zero3
                                        && (eq3 (t 3 3) one3 && (eq3 (t 3 4) zero3)))))))))))

-- The translation by (-1, -2, 0).
abbrev pub back : ℕ → ℕ → Mod3
back i j =
    if j == 4
    then if i == 1 then two3 else if i == 2 then one3 else zero3
    else if i == j
    then one3
    else zero3

abbrev pub moved : (ℕ → ℕ → Mod3) → Xyz Mod3 → Xyz Mod3
moved t p = record {
  x = affine_row mod3 (λ j. t 1 (j + 1)) p;
  y = affine_row mod3 (λ j. t 2 (j + 1)) p;
  z = affine_row mod3 (λ j. t 3 (j + 1)) p;
}

-- `gp_GTrsf` by its matrix; one translation alone is inverted here.
abbrev pub general : GeneralTrsf Mod3
general = record {
  Trsf = ℕ → ℕ → Mod3;
  identity = λ i j. if i == j then one3 else zero3;
  set_value = λ t i j x k l. if k == i && (l == j) then x else t k l;
  value = λ t i j. t i j;
  transforms = moved;
  inverted = λ t. if is_known t then some back else none;
}

round_trip :
    (x y z : Mod3)
    → moved back (record { x = add3 x one3; y = add3 y two3; z = add3 z zero3 })
      ≡ record { x = x; y = y; z = z }
round_trip zero3 zero3 zero3 = refl
round_trip zero3 zero3 one3 = refl
round_trip zero3 zero3 two3 = refl
round_trip zero3 one3 zero3 = refl
round_trip zero3 one3 one3 = refl
round_trip zero3 one3 two3 = refl
round_trip zero3 two3 zero3 = refl
round_trip zero3 two3 one3 = refl
round_trip zero3 two3 two3 = refl
round_trip one3 zero3 zero3 = refl
round_trip one3 zero3 one3 = refl
round_trip one3 zero3 two3 = refl
round_trip one3 one3 zero3 = refl
round_trip one3 one3 one3 = refl
round_trip one3 one3 two3 = refl
round_trip one3 two3 zero3 = refl
round_trip one3 two3 one3 = refl
round_trip one3 two3 two3 = refl
round_trip two3 zero3 zero3 = refl
round_trip two3 zero3 one3 = refl
round_trip two3 zero3 two3 = refl
round_trip two3 one3 zero3 = refl
round_trip two3 one3 one3 = refl
round_trip two3 one3 two3 = refl
round_trip two3 two3 zero3 = refl
round_trip two3 two3 one3 = refl
round_trip two3 two3 two3 = refl

moved_known :
    (x y z : Mod3)
    → ◌≡◌ {A = Xyz Mod3}
        (record {
          x = add3 (add3 (add3 (mul3 one3 x) (mul3 zero3 y)) (mul3 zero3 z)) one3;
          y = add3 (add3 (add3 (mul3 zero3 x) (mul3 one3 y)) (mul3 zero3 z)) two3;
          z = add3 (add3 (add3 (mul3 zero3 x) (mul3 zero3 y)) (mul3 one3 z)) zero3;
        })
        (record { x = add3 x one3; y = add3 y two3; z = add3 z zero3 })
moved_known zero3 zero3 zero3 = refl
moved_known zero3 zero3 one3 = refl
moved_known zero3 zero3 two3 = refl
moved_known zero3 one3 zero3 = refl
moved_known zero3 one3 one3 = refl
moved_known zero3 one3 two3 = refl
moved_known zero3 two3 zero3 = refl
moved_known zero3 two3 one3 = refl
moved_known zero3 two3 two3 = refl
moved_known one3 zero3 zero3 = refl
moved_known one3 zero3 one3 = refl
moved_known one3 zero3 two3 = refl
moved_known one3 one3 zero3 = refl
moved_known one3 one3 one3 = refl
moved_known one3 one3 two3 = refl
moved_known one3 two3 zero3 = refl
moved_known one3 two3 one3 = refl
moved_known one3 two3 two3 = refl
moved_known two3 zero3 zero3 = refl
moved_known two3 zero3 one3 = refl
moved_known two3 zero3 two3 = refl
moved_known two3 one3 zero3 = refl
moved_known two3 one3 one3 = refl
moved_known two3 one3 two3 = refl
moved_known two3 two3 zero3 = refl
moved_known two3 two3 one3 = refl
moved_known two3 two3 two3 = refl

undone :
    (t u : ℕ → ℕ → Mod3) (p : Xyz Mod3)
    → (if is_known t then some back else none) ≡ some u
    → moved u (moved t p) ≡ p
undone t u p e = elim (Bool-cases (is_known t)) [
  | inr f ↦ absurd (none-ne-some (rw f at e))
  | inl f ↦
      subst (λ (v : ℕ → ℕ → Mod3). moved v (moved t p) ≡ p) (some-injective (rw f at e))
        (ap (moved back) (known f) ∙ round_trip p.x p.y p.z)
]
  where
    none-ne-some : ◌≡◌ {A = Option (ℕ → ℕ → Mod3)} none (some u) → ⊥
    none-ne-some e = cc

    some-injective : ◌≡◌ {A = Option (ℕ → ℕ → Mod3)} (some back) (some u) → back ≡ u
    some-injective e = cc

    known :
        is_known t ≡ true
        → moved t p ≡ record { x = add3 p.x one3; y = add3 p.y two3; z = add3 p.z zero3 }
    known f =
        rw
          (
            eq3-equal (t 1 1) one3 (ground arith),
            eq3-equal (t 1 2) zero3 (ground arith),
            eq3-equal (t 1 3) zero3 (ground arith),
            eq3-equal (t 1 4) one3 (ground arith),
            eq3-equal (t 2 1) zero3 (ground arith),
            eq3-equal (t 2 2) one3 (ground arith),
            eq3-equal (t 2 3) zero3 (ground arith),
            eq3-equal (t 2 4) two3 (ground arith),
            eq3-equal (t 3 1) zero3 (ground arith),
            eq3-equal (t 3 2) zero3 (ground arith),
            eq3-equal (t 3 3) one3 (ground arith),
            eq3-equal (t 3 4) zero3 (ground arith),
          )
          (moved_known p.x p.y p.z)

pub documented : IsGeneralTrsf mod3 general
documented = record { stored = λ t i j k l x. refl; applied = λ t p. refl; undone = undone }
