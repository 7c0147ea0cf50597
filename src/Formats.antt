-- ===== src/Formats.antt =====
-- src/exports/{CGlobalExporterConfigs,ExporterFactory}.cpp, src/imports/ImporterFactory.cpp
-- and the string functions of src/common/stringtools.h that they call: which file types are
-- supported, by whom, and with which options. A name is its bytes, in the C locale. A builder is a
-- number; what it supports is an argument of its registration, `none` where it builds nothing.
pub mod Factories
use geoml.Common.{
  ℕ, zero, suc, ◌+◌, ◌-◌, ◌≤◌, ◌≡◌, refl, Bool, true, false, ◌&&◌, Option, none, some, List, [],
  ◌∷◌, ◌++◌, ◌==◌, leb, if◌then◌else◌, length, get_elem?, map,
}
use geoml.Common.Map.{Map, bytes, lookup, assign}
use geoml.Common.Result.{ReturnCode, not_found, Result, ok, err, ◌>>=◌}

abbrev pub Name : Type 0
Name = List ℕ

-- `::tolower` of a byte
unfoldable pub lower_byte : ℕ → ℕ
lower_byte c = if leb 65 c && leb c 90 then c + 32 else c

unfoldable pub to_lower : Name → Name
unfolding lower_byte
to_lower = map lower_byte

-- The fields between the delimiters, as `std::getline` reads them: a delimiter at the end starts no
-- further field.
unfoldable pub split_string : ℕ → Name → List Name
split_string delimiter [] = []
split_string delimiter (c ∷ cs) =
    let rest = split_string delimiter cs in if c == delimiter then [] ∷ rest else longer rest
  where
    longer : List Name → List Name
    longer [] = (c ∷ []) ∷ []
    longer (field ∷ fields) = (c ∷ field) ∷ fields

-- The loops that set the entry of each type.
unfoldable pub assign_types {ℓ} : {V : Type ℓ} → List Name → V → Map Name V → Map Name V
unfolding assign to_lower
assign_types [] v m = m
assign_types (type ∷ types) v m = assign_types types v (assign bytes (to_lower type) v m)

-- CGlobalExporterConfigs; `O` is the type of the options.
pub record GlobalConfigs {ℓ} (O : Type ℓ) : Type ℓ where
  pub configs : List O
  pub index_map : Map Name ℕ

-- ExporterFactory, with the configurations that it writes to.
pub record ExporterFactory {ℓ} (O : Type ℓ) : Type ℓ where
  pub exporter_builders : Map Name ℕ
  pub global_configs : GlobalConfigs O

-- ImporterFactory
pub record ImporterFactory : Type 0 where
  pub importer_builders : Map Name ℕ

module _ {ℓ} {O : Type ℓ} where
  unfoldable pub add_config : Name → O → GlobalConfigs O → GlobalConfigs O
  unfolding split_string assign_types
  add_config supported_file_types config g = record {
    configs = g.configs ++ config ∷ [];
    index_map = assign_types (split_string 59 supported_file_types) (length g.configs) g.index_map;
  }

  -- `Get`; an index outside the vector, which the code does not check, is an error here as well.
  unfoldable pub get_config : Name → GlobalConfigs O → Result ReturnCode O
  unfolding lookup to_lower
  get_config file_type g = found (lookup bytes (to_lower file_type) g.index_map)
    where
      config : Option O → Result ReturnCode O
      config none = err not_found
      config (some c) = ok c

      found : Option ℕ → Result ReturnCode O
      found none = err not_found
      found (some idx) = config (get_elem? g.configs idx)

  -- `RegisterExporter`; `creator` is null or a builder with the types of what it builds.
  unfoldable pub register_exporter :
      Option (ℕ × Option Name) → O → ExporterFactory O → ExporterFactory O
  unfolding add_config
  register_exporter none config f = f
  register_exporter (some (creator, none)) config f = f
  register_exporter (some (creator, some filetype)) config f = record {
    exporter_builders = assign_types (split_string 59 filetype) creator f.exporter_builders;
    global_configs = add_config filetype config f.global_configs;
  }

  -- `Create`: the builder and the options that it is called with.
  unfoldable pub create_exporter :
      (is_default : O → Bool) → Name → O → ExporterFactory O → Result ReturnCode (ℕ × O)
  unfolding get_config lookup to_lower
  create_exporter is_default filetype options f = do
    o ← chosen (is_default options)
    built (lookup bytes (to_lower filetype) f.exporter_builders) o
    where
      chosen : Bool → Result ReturnCode O
      chosen true = get_config (to_lower filetype) f.global_configs
      chosen false = ok options

      built : Option ℕ → O → Result ReturnCode (ℕ × O)
      built none o = err not_found
      built (some creator) o = ok (creator, o)

  unfoldable pub exporter_supported : Name → ExporterFactory O → Bool
  unfolding lookup to_lower
  exporter_supported filetype f = found (lookup bytes (to_lower filetype) f.exporter_builders)
    where
      found : Option ℕ → Bool
      found none = false
      found (some creator) = true

-- `RegisterImporter`; the type is stored as it is.
unfoldable pub register_importer : Option (ℕ × Option Name) → ImporterFactory → ImporterFactory
unfolding assign
register_importer none f = f
register_importer (some (creator, none)) f = f
register_importer (some (creator, some filetype)) f = record {
  importer_builders = assign bytes filetype creator f.importer_builders;
}

-- `Create`: the builder that is called, if any.
unfoldable pub create_importer : Name → ImporterFactory → Option ℕ
unfolding lookup to_lower
create_importer filetype f = lookup bytes (to_lower filetype) f.importer_builders

unfoldable pub importer_supported : Name → ImporterFactory → Bool
unfolding lookup to_lower
importer_supported filetype f = found (lookup bytes (to_lower filetype) f.importer_builders)
  where
    found : Option ℕ → Bool
    found none = false
    found (some creator) = true
