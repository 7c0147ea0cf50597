-- ===== src/Utilities/Options.antt =====
-- src/common/COptionList.h: options by name, each with a value of one of several types, and the
-- option lists of src/exports/CADExporter.h. A name is its bytes. An iterator of the map is the
-- name of the entry that it points to.
pub mod Laws
pub mod Exporter
use geoml.Common.{
  ℕ, zero, suc, ◌+◌, ◌≡◌, refl, Bool, true, false, Option, none, some, List, [], ◌∷◌, ◌++◌, ◌==◌,
  ltb, if◌then◌else◌, length, get_elem?, map,
}
use geoml.Common.Int.{ℤ}
use geoml.Common.Map.{Map, bytes, lookup, assign}
use geoml.Common.Result.{ReturnCode, generic_error, not_found, Result, ok, err, ◌>>=◌}

abbrev pub Name : Type 0
Name = List ℕ

-- `geoml::any` with the types that the library stores in it.
pub data Any {ℓ} (W : Type ℓ) : Type ℓ where
  a_bool : Bool → Any W
  an_int : ℤ → Any W
  a_double : W → Any W
  a_string : Name → Any W
  a_shape_group_mode : ℕ → Any W

pub record OptionList {ℓ} (W : Type ℓ) : Type ℓ where
  pub options : Map Name (Any W)
  pub iters : List Name

module _ {ℓ} {W : Type ℓ} where
  -- A number for `typeid`.
  unfoldable pub type_id : Any W → ℕ
  type_id (a_bool b) = 0
  type_id (an_int i) = 1
  type_id (a_double d) = 2
  type_id (a_string s) = 3
  type_id (a_shape_group_mode m) = 4

  unfoldable pub no_options : OptionList W
  no_options = record { options = []; iters = [] }

  -- `Get<T>`, with the number of `T`; the value is read as a `T` by its constructor.
  unfoldable pub get : ℕ → Name → OptionList W → Result ReturnCode (Any W)
  unfolding lookup type_id
  get type name l = found (lookup bytes name l.options)
    where
      found : Option (Any W) → Result ReturnCode (Any W)
      found none = err generic_error
      found (some v) = if type_id v == type then ok v else err generic_error

  -- `Set<T>`
  unfoldable pub set_option : Name → Any W → OptionList W → Result ReturnCode (OptionList W)
  unfolding lookup assign type_id
  set_option name value l = found (lookup bytes name l.options)
    where
      found : Option (Any W) → Result ReturnCode (OptionList W)
      found none = err generic_error
      found (some v) =
          if type_id v == type_id value
          then ok (record l { options = assign bytes name value l.options })
          else err generic_error

  -- `SetFromString`; `parse` is `from_string` at the type of the old value.
  unfoldable pub set_from_string :
      (parse : Name → Any W → Result ReturnCode (Any W))
      → Name
      → Name
      → OptionList W
      → Result ReturnCode (OptionList W)
  unfolding lookup assign
  set_from_string parse name value l = found (lookup bytes name l.options)
    where
      stored : Result ReturnCode (Any W) → Result ReturnCode (OptionList W)
      stored (ok v) = ok (record l { options = assign bytes name v l.options })
      stored (err e) = err e

      found : Option (Any W) → Result ReturnCode (OptionList W)
      found none = err not_found
      found (some v) = stored (parse value v)

  unfoldable pub get_n_options : OptionList W → ℕ
  get_n_options l = length l.options

  -- `GetOptionName`; none is an index out of range, which the code does not check.
  unfoldable pub get_option_name : ℕ → OptionList W → Option Name
  get_option_name idx l = get_elem? l.iters idx

  unfoldable pub has_option : Name → OptionList W → Bool
  unfolding lookup
  has_option name l = found (lookup bytes name l.options)
    where
      found : Option (Any W) → Bool
      found none = false
      found (some v) = true

  -- `AddOption`; the iterators are collected again when the map has grown.
  unfoldable pub add_option : Name → Any W → OptionList W → OptionList W
  unfolding assign
  add_option name default_value l =
      let options = assign bytes name default_value l.options in
      record {
        options = options;
        iters = if ltb (length l.options) (length options) then map (λ e. e.0) options else l.iters;
      }

  -- The loop of `Merged`.
  unfoldable pub merge_all : Map Name (Any W) → OptionList W → OptionList W
  unfolding add_option
  merge_all [] l = l
  merge_all ((name, value) ∷ es) l = merge_all es (add_option name value l)

  unfoldable pub merged : OptionList W → OptionList W → OptionList W
  unfolding merge_all
  merged l other = merge_all other.options l

-- "IsDefault", "ShapeGroupMode", "ApplySymmetries", "IncludeFarfield"
abbrev pub is_default : Name
is_default = 73 ∷ 115 ∷ 68 ∷ 101 ∷ 102 ∷ 97 ∷ 117 ∷ 108 ∷ 116 ∷ []

abbrev pub shape_group_mode : Name
shape_group_mode =
    83 ∷ 104 ∷ 97 ∷ 112 ∷ 101 ∷ 71 ∷ 114 ∷ 111 ∷ 117 ∷ 112 ∷ 77 ∷ 111 ∷ 100 ∷ 101 ∷ []

abbrev pub apply_symmetries : Name
apply_symmetries =
    65 ∷ 112 ∷ 112 ∷ 108 ∷ 121 ∷ 83 ∷ 121 ∷ 109 ∷ 109 ∷ 101 ∷ 116 ∷ 114 ∷ 105 ∷ 101 ∷ 115 ∷ []

abbrev pub include_farfield : Name
include_farfield =
    73 ∷ 110 ∷ 99 ∷ 108 ∷ 117 ∷ 100 ∷ 101 ∷ 70 ∷ 97 ∷ 114 ∷ 102 ∷ 105 ∷ 101 ∷ 108 ∷ 100 ∷ []

module _ {ℓ} {W : Type ℓ} where
  -- The constructor of `ExporterOptions`; `WHOLE_SHAPE` is 0.
  unfoldable pub exporter_options : OptionList W
  unfolding add_option no_options
  exporter_options =
      add_option shape_group_mode (a_shape_group_mode 0)
        (add_option is_default (a_bool false) no_options)

  unfoldable pub set_apply_symmetries : Bool → OptionList W → Result ReturnCode (OptionList W)
  unfolding set_option
  set_apply_symmetries apply l = set_option apply_symmetries (a_bool apply) l

  unfoldable pub set_include_farfield : Bool → OptionList W → Result ReturnCode (OptionList W)
  unfolding set_option
  set_include_farfield include l = set_option include_farfield (a_bool include) l

  unfoldable pub set_shape_group_mode : ℕ → OptionList W → Result ReturnCode (OptionList W)
  unfolding set_option
  set_shape_group_mode mode l = set_option shape_group_mode (a_shape_group_mode mode) l
