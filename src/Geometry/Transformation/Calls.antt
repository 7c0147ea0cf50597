-- ===== src/Geometry/Transformation/Calls.antt =====
-- The calls that build a transformation, and what each promises to do to a point.
use geoml.Common.{List, [], ◌∷◌}
use geoml.Common.Result.{ReturnCode, Result, ok, ◌>>=◌}
use geoml.Common.Ring.{Ring}
use geoml.Geometry.Transformation.{
  Xyz, Trig, Transformation, degree_to_radian, add_translation, add_scaling,
  add_projection_on_xy_plane, add_projection_on_xz_plane, add_projection_on_yz_plane,
  add_mirroring_at_xy_plane, add_mirroring_at_xz_plane, add_mirroring_at_yz_plane, add_rotation_x,
  add_rotation_y, add_rotation_z, add_rotation_intrinsic_xyz,
}

-- The calls that build a transformation.
pub data Call {ℓ} (W : Type ℓ) : Type ℓ where
  translation : (tx ty tz : W) → Call W
  scaling : (sx sy sz : W) → Call W
  rotation_x : (degree : W) → Call W
  rotation_y : (degree : W) → Call W
  rotation_z : (degree : W) → Call W
  rotation_intrinsic_xyz : (phi theta psi : W) → Call W
  projection_xy : Call W
  projection_xz : Call W
  projection_yz : Call W
  mirroring_xy : Call W
  mirroring_xz : Call W
  mirroring_yz : Call W

module _ {ℓ} {W : Type ℓ} (r : Ring W) (m : Trig W) where
  unfoldable pub add_call : Call W → Transformation W → Result ReturnCode (Transformation W)
  unfolding add_translation add_scaling add_rotation_x add_rotation_y add_rotation_z
      add_rotation_intrinsic_xyz add_projection_on_xy_plane add_projection_on_xz_plane
      add_projection_on_yz_plane add_mirroring_at_xy_plane add_mirroring_at_xz_plane
      add_mirroring_at_yz_plane
  add_call (translation tx ty tz) = add_translation r tx ty tz
  add_call (scaling sx sy sz) = add_scaling r sx sy sz
  add_call (rotation_x degree) = add_rotation_x r m degree
  add_call (rotation_y degree) = add_rotation_y r m degree
  add_call (rotation_z degree) = add_rotation_z r m degree
  add_call (rotation_intrinsic_xyz phi theta psi) = add_rotation_intrinsic_xyz r m phi theta psi
  add_call projection_xy = add_projection_on_xy_plane r
  add_call projection_xz = add_projection_on_xz_plane r
  add_call projection_yz = add_projection_on_yz_plane r
  add_call mirroring_xy = add_mirroring_at_xy_plane r
  add_call mirroring_xz = add_mirroring_at_xz_plane r
  add_call mirroring_yz = add_mirroring_at_yz_plane r

  -- A sequence of calls on one object, up to the first exception.
  unfoldable pub add_calls : List (Call W) → Transformation W → Result ReturnCode (Transformation W)
  unfolding add_call
  add_calls [] t = ok t
  add_calls (c ∷ cs) t = do u ← add_call c t; add_calls cs u

  -- The turns about the axes, by the cosine and the sine of an angle in degrees.
  abbrev pub turn_x : W → Xyz W → Xyz W
  turn_x degree p =
      let a = degree_to_radian r m degree in
      record {
        x = p.x;
        y = r.add (r.mul (m.cos a) p.y) (r.mul (r.neg (m.sin a)) p.z);
        z = r.add (r.mul (m.sin a) p.y) (r.mul (m.cos a) p.z);
      }

  abbrev pub turn_y : W → Xyz W → Xyz W
  turn_y degree p =
      let a = degree_to_radian r m degree in
      record {
        x = r.add (r.mul (m.cos a) p.x) (r.mul (m.sin a) p.z);
        y = p.y;
        z = r.add (r.mul (r.neg (m.sin a)) p.x) (r.mul (m.cos a) p.z);
      }

  abbrev pub turn_z : W → Xyz W → Xyz W
  turn_z degree p =
      let a = degree_to_radian r m degree in
      record {
        x = r.add (r.mul (m.cos a) p.x) (r.mul (r.neg (m.sin a)) p.y);
        y = r.add (r.mul (m.sin a) p.x) (r.mul (m.cos a) p.y);
        z = p.z;
      }

  -- What a call promises to do to a point.
  abbrev pub effect : Call W → Xyz W → Xyz W
  effect (translation tx ty tz) p = record { x = r.add p.x tx; y = r.add p.y ty; z = r.add p.z tz }
  effect (scaling sx sy sz) p = record { x = r.mul sx p.x; y = r.mul sy p.y; z = r.mul sz p.z }
  effect (rotation_x degree) p = turn_x degree p
  effect (rotation_y degree) p = turn_y degree p
  effect (rotation_z degree) p = turn_z degree p
  effect (rotation_intrinsic_xyz phi theta psi) p = turn_x phi (turn_y theta (turn_z psi p))
  effect projection_xy p = record p { z = r.zero }
  effect projection_xz p = record p { y = r.zero }
  effect projection_yz p = record p { x = r.zero }
  effect mirroring_xy p = record p { z = r.mul (r.neg r.one) p.z }
  effect mirroring_xz p = record p { y = r.mul (r.neg r.one) p.y }
  effect mirroring_yz p = record p { x = r.mul (r.neg r.one) p.x }

  abbrev pub effects : List (Call W) → Xyz W → Xyz W
  effects [] p = p
  effects (c ∷ cs) p = effects cs (effect c p)
