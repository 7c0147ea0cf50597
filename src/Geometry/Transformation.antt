-- ===== src/Geometry/Transformation.antt =====
-- src/geometry/Transformation.{h,cpp}: a 4×4 matrix, and the operations that build it. Arithmetic is
-- exact. The matrix is a function of row and column, read below 4. OpenCASCADE's general
-- transformation and the functions of <cmath> are parameters.
pub mod Refines
pub mod Calls
pub mod Builds
pub mod Inverse
pub mod Angles
use geoml.Common.{
  ℕ, zero, suc, ◌+◌, ◌≤◌, ◌<◌, ◌≡◌, refl, ap, Bool, true, false, ◌&&◌, ◌||◌, Option, none, some,
  arith, ◌==◌, ltb, if◌then◌else◌,
}
use geoml.Common.Int.{ℤ, pos, negsuc, ltb_ℤ}
use geoml.Common.Result.{ReturnCode, index_error, Result, ok, err, ◌>>=◌}
use geoml.Common.Ring.{Ring, sum}

-- `gp_Pnt`, `gp_Vec` and `gp_XYZ`: three coordinates.
pub record Xyz {ℓ} (W : Type ℓ) : Type ℓ where
  pub x : W
  pub y : W
  pub z : W

-- A row of the linear part applied to a point, and the entry of the translation part added.
abbrev pub affine_row {ℓ} : {W : Type ℓ} → Ring W → (ℕ → W) → Xyz W → W
affine_row r a p = r.add (r.add (r.add (r.mul (a 0) p.x) (r.mul (a 1) p.y)) (r.mul (a 2) p.z)) (a 3)

-- `gp_GTrsf` of OpenCASCADE, as far as the code uses it. `inverted` is none where it raises.
pub record GeneralTrsf {ℓ} (W : Type ℓ) : Type (ℓ + 1) where
  pub Trsf : Type ℓ
  pub identity : Trsf
  pub set_value : Trsf → ℕ → ℕ → W → Trsf
  pub value : Trsf → ℕ → ℕ → W
  pub transforms : Trsf → Xyz W → Xyz W
  pub inverted : Trsf → Option Trsf

-- Its documented behaviour: entries are stored, rows are applied to a point, and the inverse undoes
-- the map.
pub record IsGeneralTrsf {ℓ} {W : Type ℓ} (r : Ring W) (g : GeneralTrsf W) : Type ℓ where
  pub stored :
      (t : g.Trsf) (i j k l : ℕ) (x : W)
      → g.value (g.set_value t i j x) k l ≡ (if k == i && (l == j) then x else g.value t k l)
  pub applied :
      (t : g.Trsf) (p : Xyz W)
      → g.transforms t p ≡ record {
        x = affine_row r (λ j. g.value t 1 (j + 1)) p;
        y = affine_row r (λ j. g.value t 2 (j + 1)) p;
        z = affine_row r (λ j. g.value t 3 (j + 1)) p;
      }
  pub undone :
      (t u : g.Trsf) (p : Xyz W) → g.inverted t ≡ some u → g.transforms u (g.transforms t p) ≡ p

-- The functions of <cmath> that the rotations call, and the factor of `DegreeToRadian`.
pub record Trig {ℓ} (W : Type ℓ) : Type ℓ where
  pub sin : W → W
  pub cos : W → W
  pub per_degree : W

pub record Transformation {ℓ} (W : Type ℓ) : Type ℓ where
  pub m_matrix : ℕ → ℕ → W

-- `m[row][col] = value`
unfoldable pub put {ℓ} : {W : Type ℓ} → (ℕ → ℕ → W) → ℕ → ℕ → W → ℕ → ℕ → W
put m row col value i j = if i == row && (j == col) then value else m i j

unfoldable pub in_matrix : ℤ → ℤ → Bool
in_matrix row col =
    if ltb_ℤ row (pos 0) || (ltb_ℤ (pos 3) row || (ltb_ℤ col (pos 0) || ltb_ℤ (pos 3) col))
    then false
    else true

unfoldable pub index : ℤ → ℕ
index (pos n) = n
index (negsuc n) = 0

module _ {ℓ} {W : Type ℓ} (r : Ring W) where
  unfoldable pub set_identity : Transformation W
  set_identity = record { m_matrix = λ i j. if i == j then r.one else r.zero }

  unfoldable pub set_value : ℤ → ℤ → W → Transformation W → Result ReturnCode (Transformation W)
  unfolding put in_matrix index
  set_value row col value t =
      if in_matrix row col
      then ok (record { m_matrix = put t.m_matrix (index row) (index col) value })
      else err index_error

  unfoldable pub get_value : ℤ → ℤ → Transformation W → Result ReturnCode W
  unfolding in_matrix index
  get_value row col t =
      if in_matrix row col then ok (t.m_matrix (index row) (index col)) else err index_error

  -- Row times column, summed from the left as the loops do.
  unfoldable pub product : Transformation W → Transformation W → Transformation W
  unfolding sum
  product a b = record {
    m_matrix = λ row col. sum r 4 (λ j. r.mul (a.m_matrix row j) (b.m_matrix j col));
  }

  unfoldable pub post_multiply : Transformation W → Transformation W → Transformation W
  unfolding product
  post_multiply a_trans t = product t a_trans

  unfoldable pub pre_multiply : Transformation W → Transformation W → Transformation W
  unfolding product
  pre_multiply a_trans t = product a_trans t

  -- `operator*`
  unfoldable pub multiply : Transformation W → Transformation W → Transformation W
  unfolding pre_multiply
  multiply a b = pre_multiply a b

  unfoldable pub add_translation :
      W → W → W → Transformation W → Result ReturnCode (Transformation W)
  unfolding set_value pre_multiply set_identity
  add_translation tx ty tz t = do
    a ← set_value (pos 0) (pos 3) tx set_identity
    b ← set_value (pos 1) (pos 3) ty a
    c ← set_value (pos 2) (pos 3) tz b
    ok (pre_multiply c t)

  unfoldable pub add_scaling : W → W → W → Transformation W → Result ReturnCode (Transformation W)
  unfolding set_value pre_multiply set_identity
  add_scaling sx sy sz t = do
    a ← set_value (pos 0) (pos 0) sx set_identity
    b ← set_value (pos 1) (pos 1) sy a
    c ← set_value (pos 2) (pos 2) sz b
    ok (pre_multiply c t)

  -- The projections and mirrorings: one entry of the diagonal is changed.
  unfoldable pub add_diagonal : ℤ → W → Transformation W → Result ReturnCode (Transformation W)
  unfolding set_value pre_multiply set_identity
  add_diagonal i value t = do a ← set_value i i value set_identity; ok (pre_multiply a t)

  unfoldable pub add_projection_on_xy_plane :
      Transformation W → Result ReturnCode (Transformation W)
  unfolding add_diagonal
  add_projection_on_xy_plane = add_diagonal (pos 2) r.zero

  unfoldable pub add_projection_on_xz_plane :
      Transformation W → Result ReturnCode (Transformation W)
  unfolding add_diagonal
  add_projection_on_xz_plane = add_diagonal (pos 1) r.zero

  unfoldable pub add_projection_on_yz_plane :
      Transformation W → Result ReturnCode (Transformation W)
  unfolding add_diagonal
  add_projection_on_yz_plane = add_diagonal (pos 0) r.zero

  unfoldable pub add_mirroring_at_xy_plane : Transformation W → Result ReturnCode (Transformation W)
  unfolding add_diagonal
  add_mirroring_at_xy_plane = add_diagonal (pos 2) (r.neg r.one)

  unfoldable pub add_mirroring_at_xz_plane : Transformation W → Result ReturnCode (Transformation W)
  unfolding add_diagonal
  add_mirroring_at_xz_plane = add_diagonal (pos 1) (r.neg r.one)

  unfoldable pub add_mirroring_at_yz_plane : Transformation W → Result ReturnCode (Transformation W)
  unfolding add_diagonal
  add_mirroring_at_yz_plane = add_diagonal (pos 0) (r.neg r.one)

  module _ (m : Trig W) where
    unfoldable pub degree_to_radian : W → W
    degree_to_radian degree = r.mul degree m.per_degree

    unfoldable pub add_rotation_x : W → Transformation W → Result ReturnCode (Transformation W)
    unfolding set_value pre_multiply set_identity degree_to_radian
    add_rotation_x degree t = do
      a ← set_value (pos 1) (pos 1) (m.cos (degree_to_radian degree)) set_identity
      b ← set_value (pos 1) (pos 2) (r.neg (m.sin (degree_to_radian degree))) a
      c ← set_value (pos 2) (pos 1) (m.sin (degree_to_radian degree)) b
      d ← set_value (pos 2) (pos 2) (m.cos (degree_to_radian degree)) c
      ok (pre_multiply d t)

    unfoldable pub add_rotation_y : W → Transformation W → Result ReturnCode (Transformation W)
    unfolding set_value pre_multiply set_identity degree_to_radian
    add_rotation_y degree t = do
      a ← set_value (pos 0) (pos 0) (m.cos (degree_to_radian degree)) set_identity
      b ← set_value (pos 0) (pos 2) (m.sin (degree_to_radian degree)) a
      c ← set_value (pos 2) (pos 0) (r.neg (m.sin (degree_to_radian degree))) b
      d ← set_value (pos 2) (pos 2) (m.cos (degree_to_radian degree)) c
      ok (pre_multiply d t)

    unfoldable pub add_rotation_z : W → Transformation W → Result ReturnCode (Transformation W)
    unfolding set_value pre_multiply set_identity degree_to_radian
    add_rotation_z degree t = do
      a ← set_value (pos 0) (pos 0) (m.cos (degree_to_radian degree)) set_identity
      b ← set_value (pos 0) (pos 1) (r.neg (m.sin (degree_to_radian degree))) a
      c ← set_value (pos 1) (pos 0) (m.sin (degree_to_radian degree)) b
      d ← set_value (pos 1) (pos 1) (m.cos (degree_to_radian degree)) c
      ok (pre_multiply d t)

    unfoldable pub add_rotation_intrinsic_xyz :
        W → W → W → Transformation W → Result ReturnCode (Transformation W)
    unfolding add_rotation_x add_rotation_y add_rotation_z
    add_rotation_intrinsic_xyz phi theta psi t = do
      a ← add_rotation_z psi t
      b ← add_rotation_y theta a
      add_rotation_x phi b

  module _ (g : GeneralTrsf W) where
    unfoldable pub get_gp_gtrsf : Transformation W → g.Trsf
    get_gp_gtrsf t =
        let m = t.m_matrix in
        let s = g.set_value in
        let a = s (s (s g.identity 1 1 (m 0 0)) 1 2 (m 0 1)) 1 3 (m 0 2) in
        let b = s (s (s a 2 1 (m 1 0)) 2 2 (m 1 1)) 2 3 (m 1 2) in
        let c = s (s (s b 3 1 (m 2 0)) 3 2 (m 2 1)) 3 3 (m 2 2) in
        s (s (s c 1 4 (m 0 3)) 2 4 (m 1 3)) 3 4 (m 2 3)

    -- The constructor from a `gp_GTrsf`.
    unfoldable pub from_gtrsf : g.Trsf → Transformation W
    unfolding set_identity
    from_gtrsf oc_matrix = record {
      m_matrix = λ i j.
          if ltb i 3 && ltb j 4
          then g.value oc_matrix (i + 1) (j + 1)
          else set_identity.m_matrix i j;
    }

    unfoldable pub transform : Transformation W → Xyz W → Xyz W
    unfolding get_gp_gtrsf
    transform t point = g.transforms (get_gp_gtrsf t) point

    unfoldable pub inverted : Transformation W → Option (Transformation W)
    unfolding get_gp_gtrsf from_gtrsf
    inverted t = constructed (g.inverted (get_gp_gtrsf t))
      where
        constructed : Option g.Trsf → Option (Transformation W)
        constructed none = none
        constructed (some u) = some (from_gtrsf u)

    -- `gp_XYZ`'s difference
    unfoldable pub minus : Xyz W → Xyz W → Xyz W
    minus a b = record {
      x = r.add a.x (r.neg b.x);
      y = r.add a.y (r.neg b.y);
      z = r.add a.z (r.neg b.z);
    }

    unfoldable pub transform_vec : Transformation W → Xyz W → Xyz W
    unfolding transform minus
    transform_vec t vec =
        minus (transform t vec) (transform t (record { x = r.zero; y = r.zero; z = r.zero }))
