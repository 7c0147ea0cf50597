-- ===== src/NamedShapes/Faces.antt =====
-- Where the traits of a derived face lead, and the faces that GetFacesByName and GroupFaces take.
use geoml.Common.{
  ℕ, zero, suc, ◌+◌, ◌≤◌, ◌<◌, ◌≡◌, inl, inr, refl, sym, ◌∙◌, ap, subst, In, Bool, true, false,
  List, [], ◌∷◌, length, get_elem?, get_elem?-some, Option, none, some, arith, Bool-cases,
  ℕ_discrete,
}
use geoml.NamedShapes.{
  ShapeKernel, FaceTraits, NamedShape, get_face_traits, set_origin, set_derived_from_shape,
  named_faces,
}

module _ {ℓ} {S T : Type ℓ} (heap : List (NamedShape S T)) where
  -- The traits at face `i` of the shape at address `a`.
  pub record HasFace (a i : ℕ) (t : FaceTraits T) : Type ℓ where
    pub owner : NamedShape S T
    pub at_address : get_elem? heap a ≡ some owner
    pub at_index : get_face_traits owner i ≡ some t

  -- Traits that come from the shape at `root` by SetDerivedFromShape, through any number of shapes.
  pub data Derived (root face : ℕ) (t : FaceTraits T) : FaceTraits T → Type ℓ where
    first :
        {u : FaceTraits T}
        → HasFace root face t
        → t.origin ≡ none
        → set_derived_from_shape heap root face ≡ some u
        → Derived root face t u
    again :
        {a i : ℕ} {u v : FaceTraits T}
        → HasFace a i u
        → Derived root face t u
        → set_derived_from_shape heap a i ≡ some v
        → Derived root face t v

  derived_first :
      {a i : ℕ} {t u : FaceTraits T}
      → HasFace a i t
      → t.origin ≡ none
      → set_derived_from_shape heap a i ≡ some u
      → u ≡ set_origin (some a) t
  unfolding set_derived_from_shape
  derived_first h free e = let f = rw (h.at_address, h.at_index, free) at e in cc

  derived_again :
      {a b i : ℕ} {t u : FaceTraits T}
      → HasFace a i t
      → t.origin ≡ some b
      → set_derived_from_shape heap a i ≡ some u
      → u ≡ t
  unfolding set_derived_from_shape
  derived_again h taken e = let f = rw (h.at_address, h.at_index, taken) at e in cc

  -- However often traits are derived from a face of one shape and then of another, they are those of
  -- the first face, with its shape as their origin: later shapes do not replace it, nor do they touch
  -- the index.
  pub Derived-origin :
      (root face : ℕ) (t u : FaceTraits T) → Derived root face t u → u ≡ set_origin (some root) t
  unfolding set_origin
  Derived-origin root face t u (first h free e) = derived_first h free e
  Derived-origin root face t u (again {u = v} h d e) =
      let same = Derived-origin root face t v d in
      derived_again h (ap (λ (x : FaceTraits T). x.origin) same) e ∙ same

module _ {ℓ} {S T : Type ℓ} (kernel : ShapeKernel S) (identity : T) where
  -- Face `k` of the shape has the name.
  abbrev pub HasName : (List ℕ → List ℕ → Bool) → NamedShape S T → List ℕ → ℕ → Type ℓ
  HasName equal ns name k =
      (t : FaceTraits T) × (get_face_traits ns k ≡ some t) × (equal t.face_name name ≡ true)

  -- `GetFacesByName` looks at each face of a shape that has traits for all of them, and takes just
  -- those with the name.
  pub named_faces-HasName :
      (equal : List ℕ → List ℕ → Bool) (ns : NamedShape S T) (name : List ℕ) (n i : ℕ)
      → i + n ≤ length ns.face_traits
      → (is : List ℕ) × (named_faces kernel identity equal ns name n i ≡ some is)
        × ((k : ℕ) → In k is → (i ≤ k) × (k < i + n) × HasName equal ns name k)
        × ((k : ℕ) → i ≤ k → k < i + n → HasName equal ns name k → In k is)
  unfolding named_faces get_face_traits
  named_faces-HasName equal ns name zero i h =
      ([], refl, λ k l. elim l [ ], λ k a b l. absurd (omega arith))
  named_faces-HasName equal ns name (suc n) i h =
      let (is, q, sound, complete) = named_faces-HasName equal ns name n (i + 1) (omega arith) in
      let (t, e) = get_elem?-some ns.face_traits i (omega arith) in
      elim (Bool-cases (equal t.face_name name)) [
        | inl f ↦ (
          i ∷ is,
          rw (e, q, f) refl,
          λ k l. elim l [
            | inl w ↦ (omega arith, omega arith, subst (HasName equal ns name) (sym w) (t, e, f))
            | inr w ↦ let (a, b, c) = sound k w in (omega arith, omega arith, c)
          ],
          λ k a b l. elim (ℕ_discrete k i) [
            | yes w ↦ inl w
            | no ne ↦ inr (complete k (omega arith) (omega arith) l)
          ],
        )
        | inr f ↦ (
          is,
          rw (e, q, f) refl,
          λ k l. let (a, b, c) = sound k l in (omega arith, omega arith, c),
          λ k a b l. elim (ℕ_discrete k i) [
            | yes w ↦ absurd (other k t l w e f)
            | no ne ↦ complete k (omega arith) (omega arith) l
          ],
        )
      ]
    where
      other :
          (k : ℕ) (t : FaceTraits T)
          → HasName equal ns name k
          → k ≡ i
          → get_elem? ns.face_traits i ≡ some t
          → equal t.face_name name ≡ false
          → ⊥
      other k t (u, p, q) w e f =
          let same : u ≡ t = some_same (sym p ∙ ap (get_elem? ns.face_traits) w ∙ e) in
          true-ne-false (sym q ∙ ap (λ (x : FaceTraits T). equal x.face_name name) same ∙ f)
        where
          some_same :
              {a b : FaceTraits T} → ◌≡◌ {A = Option (FaceTraits T)} (some a) (some b) → a ≡ b
          some_same e = cc

          true-ne-false : ◌≡◌ {A = Bool} true false → ⊥
          true-ne-false e = cc

  module _ (heap : List (NamedShape S T)) (ns : NamedShape S T) where
    -- The shape whose names a face gets: the origin of its traits, or the shape itself.
    pub data Source (t : FaceTraits T) : NamedShape S T → Type ℓ where
      own : t.origin ≡ none → Source t ns
      of_origin :
          {a : ℕ} {source : NamedShape S T}
          → t.origin ≡ some a
          → get_elem? heap a ≡ some source
          → Source t source

    -- A shape of one face with its traits and the names of their source.
    pub record IsFaceShape (face : S) (t : FaceTraits T) (g : NamedShape S T) : Type ℓ where
      pub source : NamedShape S T
      pub is_source : Source t source
      pub is_face : g.shape ≡ face
      pub has_name : g.name ≡ source.name
      pub has_traits : g.face_traits ≡ t ∷ []
      pub short : length g.short_name ≤ 8

    -- The traits of face `k` name a source.
    abbrev pub HasSources : Type ℓ
    HasSources =
        (k : ℕ) (t : FaceTraits T)
        → get_face_traits ns k ≡ some t
        → (source : NamedShape S T) × Source t source

    pub data Grouped : (i : ℕ) → List S → List (NamedShape S T) → Type ℓ where
      done : {i : ℕ} → Grouped i [] []
      more :
          {i : ℕ} {f : S} {fs : List S} {t : FaceTraits T} {g : NamedShape S T}
          {gs : List (NamedShape S T)}
          → get_face_traits ns i ≡ some t
          → IsFaceShape f t g
          → Grouped (i + 1) fs gs
          → Grouped i (f ∷ fs) (g ∷ gs)
