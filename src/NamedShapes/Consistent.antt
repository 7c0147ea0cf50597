-- ===== src/NamedShapes/Consistent.antt =====
-- The traits of a named shape are those of its faces, and the short name is short.
use geoml.Common.{
  ℕ, ◌≤◌, ◌≡◌, inl, inr, sym, ◌∙◌, ap, if◌then◌else◌, ltb, List, [], length, set, take, length-set,
  length-take, length-replicate, Option, none, some, arith, Bool-cases,
}
use geoml.NamedShapes.{
  ShapeKernel, FaceTraits, NamedShape, set_face_traits, set_name, set_short_name, set_shape,
  cleared, get_face_count, init_face_traits, new_named_shape, new_with_short_name, deep_copy,
}

pub short_enough : (name : List ℕ) → length (if ltb 8 (length name) then take 8 name else name) ≤ 8
short_enough name = elim (Bool-cases (ltb 8 (length name))) [
  | inl e ↦ rw e (ground (arith, length-take 8 name))
  | inr e ↦ rw e (ground arith)
]

module _ {ℓ} {S T : Type ℓ} (kernel : ShapeKernel S) where
  -- One entry of traits for each face.
  abbrev pub IsConsistent : NamedShape S T → Type 0
  IsConsistent ns = length ns.face_traits ≡ length (kernel.faces ns.shape)

module _ {ℓ} {S T : Type ℓ} (kernel : ShapeKernel S) (identity : T) where
  -- A shape is made by a constructor, by `Clear` or by a copy, and changed by the setters. The short
  -- name of the third constructor is given as `short`; `SetShape` is with a shape of as many faces.
  pub data IsMade (short : ℕ) : NamedShape S T → Type ℓ where
    clear : IsMade short (cleared kernel identity)
    named : (shape : S) (name : List ℕ) → IsMade short (new_named_shape kernel identity shape name)
    short_named :
        (shape : S) (name short_name : List ℕ)
        → length short_name ≤ short
        → IsMade short (new_with_short_name kernel identity shape name short_name)
    copied : {ns : NamedShape S T} → IsMade short ns → IsMade short (deep_copy kernel identity ns)
    renamed :
        {ns : NamedShape S T} (name : List ℕ) → IsMade short ns → IsMade short (set_name name ns)
    short_renamed :
        {ns : NamedShape S T} (name : List ℕ)
        → IsMade short ns
        → IsMade short (set_short_name name ns)
    traits_set :
        {ns ms : NamedShape S T} (i : ℕ) (t : FaceTraits T)
        → IsMade short ns
        → set_face_traits i t ns ≡ some ms
        → IsMade short ms
    shape_set :
        {ns : NamedShape S T} (shape : S)
        → IsMade short ns
        → length (kernel.faces shape) ≡ length (kernel.faces ns.shape)
        → IsMade short (set_shape shape ns)

  set_face_traits-some :
      (i : ℕ) (t : FaceTraits T) (ns ms : NamedShape S T)
      → set_face_traits i t ns ≡ some ms
      → record ns { face_traits = set ns.face_traits i t } ≡ ms
  unfolding set_face_traits
  set_face_traits-some i t ns ms h = elim (Bool-cases (ltb i (length ns.face_traits))) [
    | inl e ↦
        let f : ◌≡◌ {A = Option (NamedShape S T)}
            (some (record ns { face_traits = set ns.face_traits i t })) (some ms) =
          rw e at h in
        cc
    | inr e ↦ let f : ◌≡◌ {A = Option (NamedShape S T)} none (some ms) = rw e at h in absurd cc
  ]

  -- However a named shape is made and changed, `SetShape` being used with shapes of as many faces
  -- alone, it has one entry of traits for each face, where the null shape has no faces and a copy has
  -- as many as its original; and its short name has at most eight bytes, or as many as the longest that
  -- the third constructor was given.
  pub IsMade-IsConsistent :
      (short : ℕ) (ns : NamedShape S T)
      → kernel.faces kernel.null_shape ≡ []
      → ((shape : S) → length (kernel.faces (kernel.copy shape)) ≡ length (kernel.faces shape))
      → 8 ≤ short
      → IsMade short ns
      → IsConsistent kernel ns × (length ns.short_name ≤ short)
  unfolding cleared new_named_shape new_with_short_name init_face_traits get_face_count
      set_short_name set_name set_shape deep_copy
  IsMade-IsConsistent short ns empty same h clear = (ap length (sym empty), omega arith)
  IsMade-IsConsistent short ns empty same h (named shape name) =
      (length-replicate (length (kernel.faces shape)) _, omega (arith, short_enough name))
  IsMade-IsConsistent short ns empty same h (short_named shape name short_name b) =
      (length-replicate (length (kernel.faces shape)) _, b)
  IsMade-IsConsistent short ns empty same h (copied {ns = m} v) =
      let (c, s) = IsMade-IsConsistent short m empty same h v in (c ∙ sym (same m.shape), s)
  IsMade-IsConsistent short ns empty same h (renamed name v) =
      IsMade-IsConsistent short _ empty same h v
  IsMade-IsConsistent short ns empty same h (short_renamed name v) =
      ((IsMade-IsConsistent short _ empty same h v).0, omega (arith, short_enough name))
  IsMade-IsConsistent short ns empty same h (traits_set {ns = m} i t v e) =
      let (c, s) = IsMade-IsConsistent short m empty same h v in
      rw (← set_face_traits-some i t m ns e) (length-set m.face_traits i t ∙ c, s)
  IsMade-IsConsistent short ns empty same h (shape_set {ns = m} shape v e) =
      let (c, s) = IsMade-IsConsistent short m empty same h v in (c ∙ sym e, s)
