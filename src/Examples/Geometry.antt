-- ===== src/Examples/Geometry.antt =====
-- Transformations and points over the integers modulo 3.
use geoml.Common.Ring.{sum}
use geoml.Common.{◌&&◌, arith, ℕ, ◌≡◌, refl, true, false, List, [], ◌∷◌, ◌==◌, if◌then◌else◌}
use geoml.Common.Int.{ℤ, pos, negsuc}
use geoml.Common.Result.{ok}
use geoml.Geometry.Transformation.{
  Xyz, Trig, Transformation, set_identity, multiply, post_multiply, pre_multiply, inverted,
  transform, put, get_gp_gtrsf, from_gtrsf,
}
use geoml.Geometry.Transformation.Refines.{transform-product}
use geoml.Geometry.Transformation.Calls.{
  Call, translation, scaling, rotation_intrinsic_xyz, projection_xy, mirroring_yz, add_calls,
  effects,
}
use geoml.Geometry.Transformation.Builds.{add_calls-effects}
use geoml.Geometry.Transformation.Inverse.{inverted-transform}
use geoml.Geometry.Transformation.Angles.{Matrix3, Math, up_to_three}
use geoml.Geometry.Polar.{
  Entries, Singular, Coordinate, mat_product, transposed, svd_diagonal, polar_decomposition,
  IsIdentity, polar_decomposition-product,
}
use geoml.Geometry.Point.{Point}
use geoml.Examples.Mod3.{Mod3, zero3, one3, two3, add3, mul3, neg3, mod3, mod3-IsRing}
use geoml.Examples.General.{eq3, back, general, documented}

-- The sine and cosine of whole quarter turns, as far as the integers modulo 3 tell them apart.
abbrev trig : Trig Mod3
trig = record { sin = λ a. a; cos = λ a. add3 a one3; per_degree = one3 }

abbrev calls : List (Call Mod3)
calls =
    translation one3 two3 zero3
    ∷ rotation_intrinsic_xyz one3 zero3 two3
    ∷ scaling two3 one3 one3
    ∷ mirroring_yz
    ∷ projection_xy
    ∷ []

add_calls-effects_example :
    (t : Transformation Mod3) × (add_calls mod3 trig calls (set_identity mod3) ≡ ok t)
    × ((p : Xyz Mod3) → transform mod3 general t p ≡ effects mod3 trig calls p)
add_calls-effects_example = add_calls-effects mod3 trig mod3-IsRing general documented calls

abbrev shift : Transformation Mod3
shift = record { m_matrix = put (put (set_identity mod3).m_matrix 0 3 one3) 1 3 two3 }

abbrev shift_back : Transformation Mod3
shift_back = from_gtrsf mod3 general back

abbrev corner : Xyz Mod3
corner = record { x = two3; y = one3; z = one3 }

transform-product_example :
    (transform mod3 general (multiply mod3 shift shift) corner
      ≡ transform mod3 general shift (transform mod3 general shift corner))
    × (transform mod3 general (post_multiply mod3 shift shift) corner
        ≡ transform mod3 general shift (transform mod3 general shift corner))
    × (transform mod3 general (pre_multiply mod3 shift shift) corner
        ≡ transform mod3 general shift (transform mod3 general shift corner))
unfolding put set_identity
transform-product_example =
    transform-product mod3-IsRing documented shift shift corner (λ k h. refl)

inverted-transform_example :
    transform mod3 general shift_back (transform mod3 general shift corner) ≡ corner
unfolding inverted get_gp_gtrsf from_gtrsf put set_identity
inverted-transform_example = inverted-transform mod3-IsRing documented shift shift_back corner refl

-- `gp_Mat`, as far as the identity matrix goes: a matrix is its diagonal entry.
abbrev diagonal : Matrix3 Mod3
diagonal = record {
  Mat = Mod3;
  columns = λ a b c. a.x;
  identity = one3;
  determinant = λ a. mul3 a (mul3 a a);
  divided = λ a s. mul3 a s;
  transposed = λ a. a;
  multiplied = mul3;
  subtracted = λ a b. add3 a (neg3 b);
  value = λ a i j. if i == j then a else zero3;
}

abbrev math : Math Mod3
math = record {
  gt = λ a b. elim a [
    | zero3 ↦ false
    | one3 ↦ eq3 b zero3
    | two3 ↦ if eq3 b two3 then false else true
  ];
  fabs = λ a. a;
  div = mul3;
  cube_root = λ a. a;
  cos = λ a. one3;
  asin = λ a. a;
  atan2 = mul3;
  three = one3;
  half_pi = one3;
  per_radian = one3;
  confusion = zero3;
  tiny = zero3;
}

abbrev p1 : Point Mod3
p1 = record { x = one3; y = two3; z = zero3 }

abbrev p2 : Point Mod3
p2 = record { x = two3; y = two3; z = one3 }

abbrev p3 : Point ℤ
p3 = record { x = pos 2; y = negsuc 0; z = pos 1 }

-- The matrix that swaps the first two coordinates and doubles the third.
abbrev swapped : Entries Mod3
swapped i j =
    if i == 1 && (j == 2)
    then one3
    else if i == 2 && (j == 1)
    then one3
    else if i == 3 && (j == 3)
    then two3
    else zero3

-- Two matrices that agree at the nine pairs of indices.
all_entries :
    (a b : Entries Mod3)
    → a 1 1 ≡ b 1 1
    → a 1 2 ≡ b 1 2
    → a 1 3 ≡ b 1 3
    → a 2 1 ≡ b 2 1
    → a 2 2 ≡ b 2 2
    → a 2 3 ≡ b 2 3
    → a 3 1 ≡ b 3 1
    → a 3 2 ≡ b 3 2
    → a 3 3 ≡ b 3 3
    → (i j : ℕ) → Coordinate i
    → Coordinate j
    → a i j ≡ b i j
all_entries a b c d e f g h k l m i j hi hj =
    up_to_three (λ i. (j : ℕ) → Coordinate j → a i j ≡ b i j)
      (up_to_three (λ j. a 1 j ≡ b 1 j) c d e) (up_to_three (λ j. a 2 j ≡ b 2 j) f g h)
      (up_to_three (λ j. a 3 j ≡ b 3 j) k l m) i hi j hj

abbrev singular : Entries Mod3 → Singular Mod3
singular a = record {
  left = a;
  diagonal = λ i. one3;
  right = λ i j. if i == j then one3 else zero3;
}

decomposed :
    let d = singular swapped in
    (k l : ℕ)
    → Coordinate k
    → Coordinate l
    → mat_product mod3
        (mat_product mod3 d.left (svd_diagonal mod3 d.diagonal))
        (transposed mod3 d.right)
        k
        l
      ≡ swapped k l
unfolding sum mat_product transposed svd_diagonal
decomposed =
    all_entries
      (mat_product mod3 (mat_product mod3 swapped (svd_diagonal mod3 (λ i. one3)))
        (transposed mod3 (λ i j. if i == j then one3 else zero3)))
      swapped refl refl refl refl refl refl refl refl refl

orthogonal :
    IsIdentity mod3-IsRing
      (mat_product mod3 (transposed mod3 (singular swapped).right) (singular swapped).right)
unfolding sum mat_product transposed
orthogonal =
    all_entries
      (mat_product mod3 (transposed mod3 (λ i j. if i == j then one3 else zero3))
        (λ i j. if i == j then one3 else zero3))
      (λ i j. if i == j then one3 else zero3) refl refl refl refl refl refl refl refl refl

polar_decomposition-product_example :
    let (u, p) = polar_decomposition mod3 singular swapped in mat_product mod3 u p 1 2 ≡ one3
polar_decomposition-product_example =
    polar_decomposition-product mod3-IsRing singular swapped 1 2 decomposed orthogonal
      (omega arith, omega arith) (omega arith, omega arith)
