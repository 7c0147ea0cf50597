-- ===== src/NamedShapes.antt =====
-- src/topology/CNamedShape.{h,cpp}: a shape with its names and the traits of its faces, and of
-- src/common/CommonFunctions.cpp GetFacesByName and GroupFaces. A `PNamedShape` is an address in a
-- heap; shapes and transformations are parameters; names are lists of bytes.
pub mod Consistent
pub mod Faces
use geoml.Common.{
  ℕ, zero, suc, ◌+◌, ◌<◌, ◌≡◌, Bool, true, false, if◌then◌else◌, ltb, ◌==◌, List, [], ◌∷◌, ◌++◌,
  length, get_elem?, set, take, replicate, Option, none, some,
}

-- What the class calls of OpenCASCADE on a shape: the faces that `MapShapes` gives, and its copy.
pub record ShapeKernel {ℓ} (S : Type ℓ) : Type ℓ where
  pub null_shape : S
  pub faces : S → List S
  pub copy : S → S

pub record FaceTraits {ℓ} (T : Type ℓ) : Type ℓ where
  pub origin : Option ℕ
  pub index_in_origin : ℕ
  pub face_name : List ℕ
  pub component_uid : List ℕ
  pub local_transformation : T

pub record NamedShape {ℓ} (S T : Type ℓ) : Type ℓ where
  pub shape : S
  pub name : List ℕ
  pub short_name : List ℕ
  pub face_traits : List (FaceTraits T)

-- "UNKNOWN"
abbrev pub unknown : List ℕ
unknown = 85 ∷ 78 ∷ 75 ∷ 78 ∷ 79 ∷ 87 ∷ 78 ∷ []

module _ {ℓ} {T : Type ℓ} where
  -- `CFaceTraits()`; `identity` is the default transformation.
  unfoldable pub new_traits : T → FaceTraits T
  new_traits identity = record {
    origin = none;
    index_in_origin = 0;
    face_name = [];
    component_uid = [];
    local_transformation = identity;
  }

  unfoldable pub set_traits_name : List ℕ → FaceTraits T → FaceTraits T
  set_traits_name name t = record t { face_name = name }

  unfoldable pub set_component_uid : List ℕ → FaceTraits T → FaceTraits T
  set_component_uid uid t = record t { component_uid = uid }

  unfoldable pub set_index : ℕ → FaceTraits T → FaceTraits T
  set_index index t = record t { index_in_origin = index }

  unfoldable pub set_origin : Option ℕ → FaceTraits T → FaceTraits T
  set_origin origin t = record t { origin = origin }

  unfoldable pub set_transformation : T → FaceTraits T → FaceTraits T
  set_transformation trafo t = record t { local_transformation = trafo }

module _ {ℓ} {S T : Type ℓ} where
  -- `_myfaceTraits.at(iFace)`; `none` is the exception.
  unfoldable pub get_face_traits : NamedShape S T → ℕ → Option (FaceTraits T)
  get_face_traits ns i = get_elem? ns.face_traits i

  unfoldable pub set_face_traits : ℕ → FaceTraits T → NamedShape S T → Option (NamedShape S T)
  set_face_traits i t ns =
      if ltb i (length ns.face_traits)
      then some (record ns { face_traits = set ns.face_traits i t })
      else none

  unfoldable pub set_name : List ℕ → NamedShape S T → NamedShape S T
  set_name name ns = record ns { name = name }

  -- `substr(0, 8)` of a longer name
  unfoldable pub set_short_name : List ℕ → NamedShape S T → NamedShape S T
  set_short_name name ns = record ns {
    short_name = if ltb 8 (length name) then take 8 name else name;
  }

  unfoldable pub set_shape : S → NamedShape S T → NamedShape S T
  set_shape shape ns = record ns { shape = shape }

  -- `*this = origin->GetFaceTraits(iface)`, and the origin where there is none yet.
  unfoldable pub set_derived_from_shape :
      List (NamedShape S T) → (origin iface : ℕ) → Option (FaceTraits T)
  unfolding get_face_traits set_origin
  set_derived_from_shape heap origin iface = derived (get_elem? heap origin)
    where
      with_origin : FaceTraits T → Option ℕ → FaceTraits T
      with_origin t none = set_origin (some origin) t
      with_origin t (some first) = t

      taken : Option (FaceTraits T) → Option (FaceTraits T)
      taken none = none
      taken (some t) = some (with_origin t t.origin)

      derived : Option (NamedShape S T) → Option (FaceTraits T)
      derived none = none
      derived (some ns) = taken (get_face_traits ns iface)

module _ {ℓ} {S T : Type ℓ} (kernel : ShapeKernel S) (identity : T) where
  unfoldable pub cleared : NamedShape S T
  cleared = record {
    shape = kernel.null_shape;
    name = unknown;
    short_name = unknown;
    face_traits = [];
  }

  unfoldable pub get_face_count : NamedShape S T → ℕ
  get_face_count ns = length (kernel.faces ns.shape)

  unfoldable pub init_face_traits : NamedShape S T → NamedShape S T
  unfolding set_traits_name new_traits get_face_count
  init_face_traits ns = record ns {
    face_traits = replicate (get_face_count ns) (set_traits_name ns.name (new_traits identity));
  }

  -- The constructor with a shape and a name.
  unfoldable pub new_named_shape : S → List ℕ → NamedShape S T
  unfolding set_short_name init_face_traits
  new_named_shape shape name = init_face_traits (
      set_short_name name
        (record { shape = shape; name = name; short_name = []; face_traits = [] }))

  -- The constructor with a short name, which it does not shorten.
  unfoldable pub new_with_short_name : S → (name short_name : List ℕ) → NamedShape S T
  unfolding init_face_traits
  new_with_short_name shape name short_name =
      init_face_traits
        (record { shape = shape; name = name; short_name = short_name; face_traits = [] })

  unfoldable pub deep_copy : NamedShape S T → NamedShape S T
  deep_copy ns = record ns { shape = kernel.copy ns.shape }

  -- The loop of `GetFacesByName`, over the `n` faces from `i` on; the result has their indices. `none`
  -- is the exception of `at`.
  unfoldable pub named_faces :
      (equal : List ℕ → List ℕ → Bool) → NamedShape S T → List ℕ → (n i : ℕ) → Option (List ℕ)
  unfolding get_face_traits
  named_faces equal ns name zero i = some []
  named_faces equal ns name (suc n) i =
      pick (get_face_traits ns i) (named_faces equal ns name n (i + 1))
    where
      keep : Bool → List ℕ → List ℕ
      keep true is = i ∷ is
      keep false is = is

      pick : Option (FaceTraits T) → Option (List ℕ) → Option (List ℕ)
      pick none rest = none
      pick (some t) none = none
      pick (some t) (some is) = some (keep (equal t.face_name name) is)

  -- One face of `GroupFaces` with `FACES`: `face` is a shape of one face, `traits` are those of the
  -- face in `ns`.
  unfoldable pub face_shape :
      List (NamedShape S T) → NamedShape S T → S → FaceTraits T → Option (NamedShape S T)
  unfolding new_named_shape set_short_name set_face_traits
  face_shape heap ns face traits = store (named traits.origin)
    where
      from : NamedShape S T → NamedShape S T
      from source = set_short_name source.short_name (new_named_shape face source.name)

      found : Option (NamedShape S T) → Option (NamedShape S T)
      found none = none
      found (some source) = some (from source)

      named : Option ℕ → Option (NamedShape S T)
      named none = some (from ns)
      named (some a) = found (get_elem? heap a)

      store : Option (NamedShape S T) → Option (NamedShape S T)
      store none = none
      store (some shape) = set_face_traits 0 traits shape

  -- The loop of `GroupFaces` with `FACES`, over the faces from `i` on.
  unfoldable pub group_each :
      List (NamedShape S T) → NamedShape S T → List S → (i : ℕ) → Option (List (NamedShape S T))
  unfolding face_shape get_face_traits
  group_each heap ns [] i = some []
  group_each heap ns (f ∷ fs) i =
      append (made (get_face_traits ns i)) (group_each heap ns fs (i + 1))
    where
      made : Option (FaceTraits T) → Option (NamedShape S T)
      made none = none
      made (some t) = face_shape heap ns f t

      append :
          Option (NamedShape S T) → Option (List (NamedShape S T)) → Option (List (NamedShape S T))
      append none rest = none
      append (some x) none = none
      append (some x) (some xs) = some (x ∷ xs)

  -- `GroupFaces` with `FACES`, of a pointer that is not null.
  unfoldable pub group_faces :
      List (NamedShape S T) → NamedShape S T → Option (List (NamedShape S T))
  unfolding group_each
  group_faces heap ns = grouped (kernel.faces ns.shape)
    where
      grouped : List S → Option (List (NamedShape S T))
      grouped [] = some (ns ∷ [])
      grouped (f ∷ fs) = group_each heap ns (f ∷ fs) 0
