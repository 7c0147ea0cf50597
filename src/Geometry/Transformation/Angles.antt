-- ===== src/Geometry/Transformation/Angles.antt =====
-- `IsUniform` and `Decompose` of src/geometry/Transformation.cpp. `gp_Mat`, the functions of <cmath>
-- and OpenCASCADE's singular value decomposition are
-- parameters.
use geoml.Common.{
  ℕ, zero, suc, ◌-◌, ◌≡◌, ◌⊎◌, ◌↔◌, inl, inr, refl, Bool, true, false, List, [], ◌∷◌, arith,
  if◌then◌else◌, Bool-cases,
}
use geoml.Common.Ring.{Ring}
use geoml.Geometry.Polar.{Coordinate, Entries, Singular, polar_decomposition}
use geoml.Geometry.Transformation.{Xyz, Transformation}

-- `gp_Mat` of OpenCASCADE, as far as `IsUniform` uses it.
pub record Matrix3 {ℓ} (W : Type ℓ) : Type (ℓ + 1) where
  pub Mat : Type ℓ
  pub columns : Xyz W → Xyz W → Xyz W → Mat
  pub identity : Mat
  pub determinant : Mat → W
  pub divided : Mat → W → Mat
  pub transposed : Mat → Mat
  pub multiplied : Mat → Mat → Mat
  pub subtracted : Mat → Mat → Mat
  pub value : Mat → ℕ → ℕ → W

-- <cmath> and the constants. `gt a b` is `a > b`; `cube_root x` is `Pow(x, 1. / 3.)`.
pub record Math {ℓ} (W : Type ℓ) : Type ℓ where
  pub gt : W → W → Bool
  pub fabs : W → W
  pub div : W → W → W
  pub cube_root : W → W
  pub cos : W → W
  pub asin : W → W
  pub atan2 : W → W → W
  pub three : W
  pub half_pi : W
  pub per_radian : W
  -- `Precision::Confusion()`
  pub confusion : W
  -- 1e-10
  pub tiny : W

-- Tests in a row, each of which returns false if it fires.
unfoldable pub passes : List Bool → Bool
passes [] = true
passes (b ∷ bs) = if b then false else passes bs

abbrev AllFalse : List Bool → Type 0
AllFalse [] = Unit
AllFalse (b ∷ bs) = (b ≡ false) × AllFalse bs

passes-AllFalse : (bs : List Bool) → passes bs ≡ true → AllFalse bs
unfolding passes
passes-AllFalse [] h = tt
passes-AllFalse (false ∷ bs) h = (refl, passes-AllFalse bs h)
passes-AllFalse (true ∷ bs) h = absurd cc

AllFalse-passes : (bs : List Bool) → AllFalse bs → passes bs ≡ true
unfolding passes
AllFalse-passes [] h = refl
AllFalse-passes (b ∷ bs) (e, h) = rw e (AllFalse-passes bs h)

first : Coordinate 1
first = (omega arith, omega arith)

second : Coordinate 2
second = (omega arith, omega arith)

third : Coordinate 3
third = (omega arith, omega arith)

pub up_to_three {ℓ} : (P : ℕ → Type ℓ) → P 1 → P 2 → P 3 → (i : ℕ) → Coordinate i → P i
up_to_three P a b c zero (h, k) = absurd (omega arith)
up_to_three P a b c (suc zero) h = a
up_to_three P a b c (suc (suc zero)) h = b
up_to_three P a b c (suc (suc (suc zero))) h = c
up_to_three P a b c (suc (suc (suc (suc i)))) (h, k) = absurd (omega arith)

module _ {ℓ} {W : Type ℓ} (r : Ring W) (m : Math W) where
  module _ (o : Matrix3 W) where
    -- `M` before it is scaled.
    unfoldable pub linear_part : Transformation W → o.Mat
    linear_part t =
        let e = t.m_matrix in
        o.columns (record { x = e 0 0; y = e 1 0; z = e 2 0 })
          (record { x = e 0 1; y = e 1 1; z = e 2 1 }) (record { x = e 0 2; y = e 1 2; z = e 2 2 })

    -- The cube root of `s` with its sign.
    unfoldable pub signed_root : W → W
    signed_root s = if m.gt s r.zero then m.cube_root s else r.neg (m.cube_root (r.neg s))

    -- `TM`: what M^T * M differs from the identity by.
    unfoldable pub deviation : Transformation W → o.Mat
    unfolding linear_part signed_root
    deviation t =
        let a = linear_part t in
        let b = o.divided a (signed_root (o.determinant a)) in
        o.subtracted (o.multiplied (o.transposed b) b) o.identity

    unfoldable pub is_large : Transformation W → ℕ → ℕ → Bool
    unfolding deviation
    is_large t i j = m.gt (m.fabs (o.value (deviation t) i j)) m.confusion

    -- The tests of `IsUniform` in their order.
    unfoldable pub uniform_tests : Transformation W → List Bool
    unfolding linear_part is_large
    uniform_tests t =
        m.gt m.confusion (m.fabs (o.determinant (linear_part t)))
        ∷ is_large t 1 1
        ∷ is_large t 1 2
        ∷ is_large t 1 3
        ∷ is_large t 2 1
        ∷ is_large t 2 2
        ∷ is_large t 2 3
        ∷ is_large t 3 1
        ∷ is_large t 3 2
        ∷ is_large t 3 3
        ∷ []

    unfoldable pub is_uniform : Transformation W → Bool
    unfolding uniform_tests passes
    is_uniform t = passes (uniform_tests t)

    -- A transformation is uniform exactly if its determinant is not below the confusion, and no
    -- entry of the deviation from a scaled rotation is above it.
    pub is_uniform_iff :
        (t : Transformation W)
        → (is_uniform t ≡ true) ↔ (
            (m.gt m.confusion (m.fabs (o.determinant (linear_part t))) ≡ false)
            × ((i j : ℕ) → Coordinate i → Coordinate j → is_large t i j ≡ false))
    unfolding is_uniform
    is_uniform_iff t = (
      λ h.
          let (s, (a, (b, (c, (d, (e, (f, (g, (k, (l, _)))))))))) =
            passes-AllFalse (uniform_tests t) h in
          (
            s,
            λ i j hi hj.
                up_to_three (λ i. (j : ℕ) → Coordinate j → is_large t i j ≡ false)
                  (up_to_three (λ j. is_large t 1 j ≡ false) a b c)
                  (up_to_three (λ j. is_large t 2 j ≡ false) d e f)
                  (up_to_three (λ j. is_large t 3 j ≡ false) g k l) i hi j hj,
          ),
      λ (s, h). AllFalse-passes (uniform_tests t) (
        s,
        (
          h 1 1 first first,
          (
            h 1 2 first second,
            (
              h 1 3 first third,
              (
                h 2 1 second first,
                (
                  h 2 2 second second,
                  (
                    h 2 3 second third,
                    (h 3 1 third first, (h 3 2 third second, (h 3 3 third third, tt))),
                  ),
                ),
              ),
            ),
          ),
        ),
      ),
    )

  pub record Decomposed : Type ℓ where
    pub scale : Xyz W
    pub rotation : Xyz W
    pub translation : Xyz W
    pub warned : Bool

  unfoldable pub radian_to_degree : W → W
  radian_to_degree radian = r.mul radian m.per_radian

  unfoldable pub is_shearing : Entries W → Bool
  is_shearing p =
      m.gt (m.div (r.add (r.add (m.fabs (p 1 2)) (m.fabs (p 1 3))) (m.fabs (p 2 3))) m.three)
        m.confusion

  -- The intrinsic Euler angles, in radians.
  unfoldable pub euler_angles : Entries W → Xyz W
  euler_angles u =
      if m.gt (m.fabs (r.add (m.fabs (u 1 3)) (r.neg r.one))) m.tiny
      then record {
        x = r.neg (
            m.atan2 (m.div (u 2 3) (m.cos (m.asin (u 1 3))))
              (m.div (u 3 3) (m.cos (m.asin (u 1 3)))));
        y = m.asin (u 1 3);
        z = r.neg (
            m.atan2 (m.div (u 1 2) (m.cos (m.asin (u 1 3))))
              (m.div (u 1 1) (m.cos (m.asin (u 1 3)))));
      }
      else if m.gt (m.fabs (r.add (u 1 3) r.one)) m.tiny
      then record {
        x = r.zero;
        y = r.neg m.half_pi;
        z = r.add (r.neg r.zero) (r.neg (m.atan2 (u 2 1) (u 2 2)));
      }
      else record { x = r.zero; y = m.half_pi; z = r.add (r.neg r.zero) (m.atan2 (u 2 1) (u 2 2)) }

  unfoldable pub decompose : (Entries W → Singular W) → Transformation W → Decomposed
  unfolding radian_to_degree is_shearing euler_angles polar_decomposition
  decompose svd_decompose t =
      let (u, p) = polar_decomposition r svd_decompose (λ i j. t.m_matrix (i - 1) (j - 1)) in
      let e = euler_angles u in
      record {
        scale = record { x = p 1 1; y = p 2 2; z = p 3 3 };
        rotation = record {
          x = radian_to_degree e.x;
          y = radian_to_degree e.y;
          z = radian_to_degree e.z;
        };
        translation = record { x = t.m_matrix 0 3; y = t.m_matrix 1 3; z = t.m_matrix 2 3 };
        warned = is_shearing p;
      }

  -- The angle about y in radians: away from the poles its sine is the entry U(1,3), if `sin` undoes
  -- `asin`; with U(1,3) near 1 the angle is -π/2, and with U(1,3) near -1 it is π/2, the other way
  -- round.
  pub euler_angles-pole :
      (sin : W → W) (u : Entries W)
      → ((a : W) → sin (m.asin a) ≡ a)
      → ((m.gt (m.fabs (r.add (m.fabs (u 1 3)) (r.neg r.one))) m.tiny ≡ true)
          × (sin (euler_angles u).y ≡ u 1 3))
        ⊎ ((m.gt (m.fabs (r.add (u 1 3) r.one)) m.tiny ≡ true)
            × ((euler_angles u).y ≡ r.neg m.half_pi))
        ⊎ ((m.gt (m.fabs (r.add (u 1 3) r.one)) m.tiny ≡ false) × ((euler_angles u).y ≡ m.half_pi))
  unfolding euler_angles
  euler_angles-pole sin u undone =
      elim (Bool-cases (m.gt (m.fabs (r.add (m.fabs (u 1 3)) (r.neg r.one))) m.tiny)) [
        | inl e ↦ inl (e, rw e (undone (u 1 3)))
        | inr e ↦ elim (Bool-cases (m.gt (m.fabs (r.add (u 1 3) r.one)) m.tiny)) [
          | inl f ↦ inr (inl (f, rw (e, f) refl))
          | inr f ↦ inr (inr (f, rw (e, f) refl))
        ]
      ]
