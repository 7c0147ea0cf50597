-- ===== src/Formats/Factories.antt =====
-- Which builders the factories find.
use geoml.Common.{
  ℕ, ◌≡◌, ◌≢◌, refl, ◌∙◌, subst, Bool, true, false, ◌||◌, some, List, [], ◌∷◌, if◌then◌else◌, any,
  length, get_elem?-append_end, Bool-cases, arith, ◌⊎◌, inl, inr,
}
use geoml.Common.Map.{Map, bytes, bytes-IsKeyOrder, same_key, lookup, assign, lookup-assign}
use geoml.Common.Result.{ok}
use geoml.Formats.{
  Name, lower_byte, to_lower, split_string, assign_types, ImporterFactory, register_importer,
  create_importer, ExporterFactory, GlobalConfigs, add_config, get_config, create_exporter,
  register_exporter, exporter_supported,
}

lower_byte-lower_byte : (c : ℕ) → lower_byte (lower_byte c) ≡ lower_byte c
unfolding lower_byte
lower_byte-lower_byte c = ground arith

pub to_lower-to_lower : (s : Name) → to_lower (to_lower s) ≡ to_lower s
unfolding to_lower
to_lower-to_lower [] = refl
to_lower-to_lower (c ∷ cs) = rw (lower_byte-lower_byte c, to_lower-to_lower cs) refl

same_key-equal : (a b : Name) → same_key bytes a b ≡ true → a ≡ b
same_key-equal a b h = ground (arith, bytes-IsKeyOrder.total a b)

-- An importer whose file type has an upper-case letter is registered for nothing: no later request
-- finds it, in whatever case the type is written, and every request has the answer that it had.
pub create_importer-register_importer_upper :
    (creator : ℕ) (filetype wanted : Name) (f : ImporterFactory)
    → to_lower filetype ≢ filetype
    → create_importer wanted (register_importer (some (creator, some filetype)) f)
      ≡ create_importer wanted f
unfolding create_importer register_importer
create_importer-register_importer_upper creator filetype wanted f upper =
    lookup-assign bytes bytes-IsKeyOrder filetype (to_lower wanted) creator f.importer_builders
    ∙ elim (Bool-cases (same_key bytes (to_lower wanted) filetype)) [
      | inl e ↦ absurd (upper (lowered (same_key-equal (to_lower wanted) filetype e)))
      | inr e ↦ rw e refl
    ]
  where
    lowered : to_lower wanted ≡ filetype → to_lower filetype ≡ filetype
    lowered e = subst (λ (s : Name). to_lower s ≡ s) e (to_lower-to_lower wanted)

-- One of the types is the wanted one, up to case.
abbrev pub is_among : Name → List Name → Bool
is_among wanted types = any (λ type. same_key bytes (to_lower wanted) (to_lower type)) types

if_or {ℓ} :
    {A : Type ℓ} (a b : Bool) (x y : A)
    → (if b then x else if a then x else y) ≡ (if a || b then x else y)
if_or true true x y = refl
if_or true false x y = refl
if_or false true x y = refl
if_or false false x y = refl

pub lookup-assign_types {ℓ} :
    {V : Type ℓ} (wanted : Name) (types : List Name) (v : V) (m : Map Name V)
    → lookup bytes (to_lower wanted) (assign_types types v m)
      ≡ (if is_among wanted types then some v else lookup bytes (to_lower wanted) m)
unfolding assign_types
lookup-assign_types wanted [] v m = refl
lookup-assign_types wanted (type ∷ types) v m =
    lookup-assign_types wanted types v (assign bytes (to_lower type) v m)
    ∙ (rw (lookup-assign bytes bytes-IsKeyOrder (to_lower type) (to_lower wanted) v m) (
        if_or (same_key bytes (to_lower wanted) (to_lower type)) (is_among wanted types) (some v)
          (lookup bytes (to_lower wanted) m)))

is_among-to_lower :
    (wanted : Name) (types : List Name) → is_among (to_lower wanted) types ≡ is_among wanted types
is_among-to_lower wanted types = rw (to_lower-to_lower wanted) refl

module _ {ℓ} {O : Type ℓ} where
  -- A configuration that was added for a file type is the one that the type then has.
  get_config-add_config :
      (wanted types : Name) (config : O) (g : GlobalConfigs O)
      → is_among wanted (split_string 59 types) ≡ true
      → get_config wanted (add_config types config g) ≡ ok config
  unfolding get_config add_config
  get_config-add_config wanted types config g h =
      rw
        (
          lookup-assign_types wanted (split_string 59 types) (length g.configs) g.index_map,
          h,
          get_elem?-append_end g.configs [] config,
        )
        refl

  -- After `RegisterExporter` with a builder of some file types, a type that is one of them up to
  -- upper and lower case is supported, and `Create` calls the builder for it, with the options it is given, or with
  -- the registered ones if those are the default; any other type is supported exactly if it was.
  pub create_exporter-register_exporter :
      (is_default : O → Bool) (creator : ℕ) (filetype wanted : Name) (config options : O)
      (f : ExporterFactory O)
      → let g = register_exporter (some (creator, some filetype)) config f in
        ((is_among wanted (split_string 59 filetype) ≡ true)
          × (exporter_supported wanted g ≡ true)
          × (create_exporter is_default wanted options g
              ≡ ok (creator, if is_default options then config else options)))
        ⊎ ((is_among wanted (split_string 59 filetype) ≡ false)
            × (exporter_supported wanted g ≡ exporter_supported wanted f))
  unfolding exporter_supported create_exporter register_exporter
  create_exporter-register_exporter is_default creator filetype wanted config options f =
      elim (Bool-cases (is_among wanted types)) [
        | inr h ↦ inr (h, rw (stored, h) refl)
        | inl h ↦ inl (
          h,
          rw (stored, h) refl,
          elim (Bool-cases (is_default options)) [
            | inl e ↦
                rw
                  (
                    e,
                    get_config-add_config (to_lower wanted) filetype config f.global_configs
                        (is_among-to_lower wanted types ∙ h),
                    stored,
                    h,
                  )
                  refl
            | inr e ↦ rw (e, stored, h) refl
          ],
        )
      ]
    where
      types : List Name
      types = split_string 59 filetype

      stored : lookup bytes (to_lower wanted) (assign_types types creator f.exporter_builders) ≡ (
          if is_among wanted types
          then some creator
          else lookup bytes (to_lower wanted) f.exporter_builders)
      stored = lookup-assign_types wanted types creator f.exporter_builders
