-- ===== src/Geometry/Transformation/Builds.antt =====
-- What each operation that builds a transformation does to the points that it moves.
use geoml.Common.{ℕ, ◌≡◌, refl, ◌∙◌, ap, List, [], ◌∷◌}
use geoml.Common.Result.{ReturnCode, Result, ok, ◌>>=◌}
use geoml.Common.Ring.{Ring, IsRing, zero_add, one_mul, zero_mul}
use geoml.Geometry.Transformation.{
  Xyz, GeneralTrsf, IsGeneralTrsf, Trig, Transformation, put, in_matrix, index, affine_row,
  set_identity, set_value, product, pre_multiply, degree_to_radian, add_translation, add_scaling,
  add_diagonal, add_projection_on_xy_plane, add_projection_on_xz_plane, add_projection_on_yz_plane,
  add_mirroring_at_xy_plane, add_mirroring_at_xz_plane, add_mirroring_at_yz_plane, add_rotation_x,
  add_rotation_y, add_rotation_z, add_rotation_intrinsic_xyz, transform,
}
use geoml.Geometry.Transformation.Refines.{
  transform_rows, IsAffine, transform-product, product-IsAffine,
}
use geoml.Geometry.Transformation.Calls.{
  Call, translation, scaling, rotation_x, rotation_y, rotation_z, rotation_intrinsic_xyz,
  projection_xy, projection_xz, projection_yz, mirroring_xy, mirroring_xz, mirroring_yz, add_call,
  add_calls, turn_x, turn_y, turn_z, effect, effects,
}

module _ {ℓ} {W : Type ℓ} (r : Ring W) (m : Trig W) where
  module _ (laws : IsRing r) (g : GeneralTrsf W) (documented : IsGeneralTrsf r g) where
    -- `add` is a call that gives a transformation which moves points as `e` after the old one.
    abbrev Does :
        (Transformation W → Result ReturnCode (Transformation W)) → (Xyz W → Xyz W) → Type ℓ
    Does add e =
        (t : Transformation W)
        → IsAffine laws documented t
        → (u : Transformation W) × (add t ≡ ok u)
          × IsAffine laws documented u
          × ((p : Xyz W) → transform r g u p ≡ e (transform r g t p))

    Does-product :
        (a : Transformation W) (e : Xyz W → Xyz W)
        → IsAffine laws documented a
        → ((p : Xyz W) → transform r g a p ≡ e p)
        → Does (λ t. ok (pre_multiply r a t)) e
    unfolding pre_multiply
    Does-product a e ha h t ht = (
      product r a t,
      refl,
      product-IsAffine laws documented a t ha ht,
      λ p. (transform-product laws documented a t p ht).2 ∙ h (transform r g t p),
    )

    -- The matrix that a call multiplies to the one it has, written entry by entry.
    abbrev entries : List (ℕ × ℕ × W) → ℕ → ℕ → W
    entries [] = (set_identity r).m_matrix
    entries ((i, j, x) ∷ es) = put (entries es) i j x

    abbrev with : List (ℕ × ℕ × W) → Transformation W
    with es = record { m_matrix = entries es }

    Does-with :
        (es : List (ℕ × ℕ × W)) (e : Xyz W → Xyz W)
        → IsAffine laws documented (with es)
        → ((p : Xyz W)
            → ◌≡◌ {A = Xyz W}
                (record {
                  x = affine_row r (entries es 0) p;
                  y = affine_row r (entries es 1) p;
                  z = affine_row r (entries es 2) p;
                })
                (e p))
        → Does (λ t. ok (pre_multiply r (with es) t)) e
    Does-with es e aff h =
        Does-product (with es) e aff (λ p. transform_rows laws documented (with es) p ∙ h p)

    -- A row of the identity matrix, with another entry in the column of the translation.
    row_x :
        (p : Xyz W) (c : W)
        → r.add (r.add (r.add (r.mul r.one p.x) (r.mul r.zero p.y)) (r.mul r.zero p.z)) c
          ≡ r.add p.x c
    row_x p c = simp (zero_mul laws, one_mul laws, laws.add_zero)

    row_y :
        (p : Xyz W) (c : W)
        → r.add (r.add (r.add (r.mul r.zero p.x) (r.mul r.one p.y)) (r.mul r.zero p.z)) c
          ≡ r.add p.y c
    row_y p c = simp (zero_mul laws, one_mul laws, zero_add laws, laws.add_zero)

    row_z :
        (p : Xyz W) (c : W)
        → r.add (r.add (r.add (r.mul r.zero p.x) (r.mul r.zero p.y)) (r.mul r.one p.z)) c
          ≡ r.add p.z c
    row_z p c = simp (zero_mul laws, one_mul laws, zero_add laws)

    translation-Does :
        (tx ty tz : W) → Does (add_translation r tx ty tz) (effect r m (translation tx ty tz))
    unfolding add_translation set_value put in_matrix index set_identity
    translation-Does tx ty tz =
        Does-with ((2, 3, tz) ∷ (1, 3, ty) ∷ (0, 3, tx) ∷ []) (effect r m (translation tx ty tz))
          (λ k h. refl) (λ p. rw (row_x p tx, row_y p ty, row_z p tz) refl)

    scaling-Does : (sx sy sz : W) → Does (add_scaling r sx sy sz) (effect r m (scaling sx sy sz))
    unfolding add_scaling set_value put in_matrix index set_identity
    scaling-Does sx sy sz =
        Does-with ((2, 2, sz) ∷ (1, 1, sy) ∷ (0, 0, sx) ∷ []) (effect r m (scaling sx sy sz))
          (λ k h. refl) (λ p. simp (zero_mul laws, one_mul laws, zero_add laws, laws.add_zero))

    rotation_x-Does :
        (degree : W) → Does (add_rotation_x r m degree) (effect r m (rotation_x degree))
    unfolding add_rotation_x set_value put in_matrix index set_identity
    rotation_x-Does degree =
        Does-with
          ((2, 2, m.cos (degree_to_radian r m degree))
            ∷ (2, 1, m.sin (degree_to_radian r m degree))
            ∷ (1, 2, r.neg (m.sin (degree_to_radian r m degree)))
            ∷ (1, 1, m.cos (degree_to_radian r m degree))
            ∷ [])
          (effect r m (rotation_x degree)) (λ k h. refl)
          (λ p. simp (zero_mul laws, one_mul laws, zero_add laws, laws.add_zero))

    rotation_y-Does :
        (degree : W) → Does (add_rotation_y r m degree) (effect r m (rotation_y degree))
    unfolding add_rotation_y set_value put in_matrix index set_identity
    rotation_y-Does degree =
        Does-with
          ((2, 2, m.cos (degree_to_radian r m degree))
            ∷ (2, 0, r.neg (m.sin (degree_to_radian r m degree)))
            ∷ (0, 2, m.sin (degree_to_radian r m degree))
            ∷ (0, 0, m.cos (degree_to_radian r m degree))
            ∷ [])
          (effect r m (rotation_y degree)) (λ k h. refl)
          (λ p. simp (zero_mul laws, one_mul laws, zero_add laws, laws.add_zero))

    rotation_z-Does :
        (degree : W) → Does (add_rotation_z r m degree) (effect r m (rotation_z degree))
    unfolding add_rotation_z set_value put in_matrix index set_identity
    rotation_z-Does degree =
        Does-with
          ((1, 1, m.cos (degree_to_radian r m degree))
            ∷ (1, 0, m.sin (degree_to_radian r m degree))
            ∷ (0, 1, r.neg (m.sin (degree_to_radian r m degree)))
            ∷ (0, 0, m.cos (degree_to_radian r m degree))
            ∷ [])
          (effect r m (rotation_z degree)) (λ k h. refl)
          (λ p. simp (zero_mul laws, one_mul laws, zero_add laws, laws.add_zero))

    projection_xy-Does : Does (add_projection_on_xy_plane r) (effect r m projection_xy)
    unfolding add_projection_on_xy_plane add_diagonal set_value put in_matrix index set_identity
    projection_xy-Does =
        Does-with ((2, 2, r.zero) ∷ []) (effect r m projection_xy) (λ k h. refl)
          (λ p. simp (zero_mul laws, one_mul laws, zero_add laws, laws.add_zero))

    projection_xz-Does : Does (add_projection_on_xz_plane r) (effect r m projection_xz)
    unfolding add_projection_on_xz_plane add_diagonal set_value put in_matrix index set_identity
    projection_xz-Does =
        Does-with ((1, 1, r.zero) ∷ []) (effect r m projection_xz) (λ k h. refl)
          (λ p. simp (zero_mul laws, one_mul laws, zero_add laws, laws.add_zero))

    projection_yz-Does : Does (add_projection_on_yz_plane r) (effect r m projection_yz)
    unfolding add_projection_on_yz_plane add_diagonal set_value put in_matrix index set_identity
    projection_yz-Does =
        Does-with ((0, 0, r.zero) ∷ []) (effect r m projection_yz) (λ k h. refl)
          (λ p. simp (zero_mul laws, one_mul laws, zero_add laws, laws.add_zero))

    mirroring_xy-Does : Does (add_mirroring_at_xy_plane r) (effect r m mirroring_xy)
    unfolding add_mirroring_at_xy_plane add_diagonal set_value put in_matrix index set_identity
    mirroring_xy-Does =
        Does-with ((2, 2, r.neg r.one) ∷ []) (effect r m mirroring_xy) (λ k h. refl)
          (λ p. simp (zero_mul laws, one_mul laws, zero_add laws, laws.add_zero))

    mirroring_xz-Does : Does (add_mirroring_at_xz_plane r) (effect r m mirroring_xz)
    unfolding add_mirroring_at_xz_plane add_diagonal set_value put in_matrix index set_identity
    mirroring_xz-Does =
        Does-with ((1, 1, r.neg r.one) ∷ []) (effect r m mirroring_xz) (λ k h. refl)
          (λ p. simp (zero_mul laws, one_mul laws, zero_add laws, laws.add_zero))

    mirroring_yz-Does : Does (add_mirroring_at_yz_plane r) (effect r m mirroring_yz)
    unfolding add_mirroring_at_yz_plane add_diagonal set_value put in_matrix index set_identity
    mirroring_yz-Does =
        Does-with ((0, 0, r.neg r.one) ∷ []) (effect r m mirroring_yz) (λ k h. refl)
          (λ p. simp (zero_mul laws, one_mul laws, zero_add laws, laws.add_zero))

    -- Two calls in a row.
    Does-then :
        (add add' : Transformation W → Result ReturnCode (Transformation W)) (e e' : Xyz W → Xyz W)
        → Does add e
        → Does add' e'
        → Does (λ t. add t >>= add') (λ p. e' (e p))
    Does-then add add' e e' d d' t a =
        let (u, s, b, h) = d t a in
        let (v, s', c, h') = d' u b in (v, rw s s', c, λ p. h' p ∙ ap e' (h p))

    call-Does : (c : Call W) → Does (add_call r m c) (effect r m c)
    unfolding add_call add_rotation_intrinsic_xyz
    call-Does (translation tx ty tz) = translation-Does tx ty tz
    call-Does (scaling sx sy sz) = scaling-Does sx sy sz
    call-Does (rotation_x degree) = rotation_x-Does degree
    call-Does (rotation_y degree) = rotation_y-Does degree
    call-Does (rotation_z degree) = rotation_z-Does degree
    call-Does (rotation_intrinsic_xyz phi theta psi) =
        Does-then (add_rotation_z r m psi)
          (λ t. add_rotation_y r m theta t >>= add_rotation_x r m phi) (turn_z r m psi)
          (λ p. turn_x r m phi (turn_y r m theta p)) (rotation_z-Does psi)
          (Does-then (add_rotation_y r m theta) (add_rotation_x r m phi) (turn_y r m theta)
            (turn_x r m phi) (rotation_y-Does theta) (rotation_x-Does phi))
    call-Does projection_xy = projection_xy-Does
    call-Does projection_xz = projection_xz-Does
    call-Does projection_yz = projection_yz-Does
    call-Does mirroring_xy = mirroring_xy-Does
    call-Does mirroring_xz = mirroring_xz-Does
    call-Does mirroring_yz = mirroring_yz-Does

    calls_do : (cs : List (Call W)) → Does (add_calls r m cs) (effects r m cs)
    unfolding add_calls
    calls_do [] t a = (t, refl, a, λ p. refl)
    calls_do (c ∷ cs) t a =
        Does-then (add_call r m c) (add_calls r m cs) (effect r m c) (effects r m cs) (call-Does c)
          (calls_do cs) t a

    identity-IsAffine : IsAffine laws documented (set_identity r)
    unfolding set_identity
    identity-IsAffine k h = refl

    transform_identity : (p : Xyz W) → transform r g (set_identity r) p ≡ p
    unfolding set_identity
    transform_identity p =
        transform_rows laws documented (set_identity r) p
        ∙ simp (zero_mul laws, one_mul laws, zero_add laws, laws.add_zero)

    -- Any sequence of the calls that add translations, scalings, rotations, projections and
    -- mirrorings to a new transformation ends without an exception, and the result moves a point as
    -- the calls' geometric effects do one after another, if arithmetic is exact and `gp_GTrsf` is
    -- as documented. A rotation is by the cosine and sine of the angle; the intrinsic rotation turns
    -- about z by psi, then about y by theta, then about x by phi.
    pub add_calls-effects :
        (cs : List (Call W))
        → (t : Transformation W) × (add_calls r m cs (set_identity r) ≡ ok t)
          × ((p : Xyz W) → transform r g t p ≡ effects r m cs p)
    add_calls-effects cs =
        let (t, e, _, h) = calls_do cs (set_identity r) identity-IsAffine in
        (t, e, λ p. h p ∙ ap (effects r m cs) (transform_identity p))
