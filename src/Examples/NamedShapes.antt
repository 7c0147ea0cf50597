-- ===== src/Examples/NamedShapes.antt =====
-- Shapes as the lists of their faces, which are numbers; a face is a shape of itself.
use geoml.Common.{ℕ, ◌≤◌, ◌≡◌, refl, List, [], ◌∷◌, length, some, arith}
use geoml.NamedShapes.{
  ShapeKernel, FaceTraits, NamedShape, new_named_shape, new_traits, set_traits_name, set_short_name,
  set_origin, get_face_traits, set_derived_from_shape,
}
use geoml.NamedShapes.Consistent.{IsConsistent, named, short_renamed, IsMade-IsConsistent}
use geoml.NamedShapes.Faces.{HasFace, Derived, first, again, Derived-origin}

data Solid : Type 0 where
  nothing : Solid
  face_of : ℕ → Solid
  two_faces : ℕ → ℕ → Solid

abbrev faces_of : Solid → List Solid
faces_of nothing = []
faces_of (face_of a) = face_of a ∷ []
faces_of (two_faces a b) = face_of a ∷ face_of b ∷ []

abbrev solids : ShapeKernel Solid
solids = record { null_shape = nothing; faces = faces_of; copy = λ s. s }

-- "wing" and "left wing half"
abbrev wing : List ℕ
wing = 119 ∷ 105 ∷ 110 ∷ 103 ∷ []

abbrev long_name : List ℕ
long_name = 108 ∷ 101 ∷ 102 ∷ 116 ∷ 32 ∷ 119 ∷ 105 ∷ 110 ∷ 103 ∷ 32 ∷ []

abbrev plain : FaceTraits ℕ
unfolding new_traits set_traits_name
plain = set_traits_name wing (new_traits 0)

abbrev left : NamedShape Solid ℕ
unfolding new_named_shape plain
left = record {
  shape = two_faces 1 2;
  name = wing;
  short_name = wing;
  face_traits = plain ∷ plain ∷ [];
}

abbrev renamed_wing : NamedShape Solid ℕ
renamed_wing = set_short_name long_name (new_named_shape solids 0 (two_faces 1 2) wing)

IsMade-IsConsistent_example :
    IsConsistent solids renamed_wing × (length renamed_wing.short_name ≤ 8)
IsMade-IsConsistent_example =
    IsMade-IsConsistent solids 0 8 renamed_wing refl (λ s. refl) (omega arith)
      (short_renamed long_name (named (two_faces 1 2) wing))

-- A second shape, whose only face is the second face of the first.
abbrev from_left : FaceTraits ℕ
from_left = record {
  origin = some 0;
  index_in_origin = 0;
  face_name = wing;
  component_uid = [];
  local_transformation = 0;
}

abbrev right : NamedShape Solid ℕ
right = record {
  shape = face_of 2;
  name = long_name;
  short_name = wing;
  face_traits = from_left ∷ [];
}

abbrev heap : List (NamedShape Solid ℕ)
heap = left ∷ right ∷ []

left_face : HasFace heap 0 1 plain
unfolding get_face_traits left
left_face = record { owner = left; at_address = refl; at_index = refl }

right_face : HasFace heap 1 0 from_left
unfolding get_face_traits
right_face = record { owner = right; at_address = refl; at_index = refl }

twice_derived : Derived heap 0 1 plain from_left
unfolding set_derived_from_shape plain left
twice_derived = again right_face (first left_face refl refl) refl

Derived-origin_example : from_left ≡ set_origin (some 0) plain
Derived-origin_example = Derived-origin heap 0 1 plain from_left twice_derived
