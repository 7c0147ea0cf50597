-- ===== src/Utilities/Options/Exporter.antt =====
-- src/exports/CADExporter.{h,cpp}: the shapes that an exporter is given, and the options of each. The
-- default options of a kind of exporter, which its class returns, are arguments.
use geoml.Common.{
  ℕ, length, get_elem?, ◌≡◌, Bool, true, false, if◌then◌else◌, List, [], ◌∷◌, ◌++◌, Option, none,
  some,
}
use geoml.Common.Result.{ReturnCode, generic_error, Result, ok, err}
use geoml.Utilities.Options.{Any, OptionList, a_bool, get, is_default}

pub record CadExporter {ℓ κ} (W : Type ℓ) (S : Type κ) : Type (ℓ ⊔ κ) where
  pub shapes : List S
  pub shape_options : List (OptionList W)
  pub global_options : OptionList W

module _ {ℓ} {W : Type ℓ} where
  -- `get<bool>` of a value, which `Get` found to be one
  unfoldable pub as_bool : Result ReturnCode (Any W) → Result ReturnCode Bool
  as_bool (ok (a_bool b)) = ok b
  as_bool (ok v) = err generic_error
  as_bool (err e) = err e

  unfoldable pub reads_default : OptionList W → Result ReturnCode Bool
  unfolding get as_bool
  reads_default options = as_bool (get 0 is_default options)

module _ {ℓ κ} {W : Type ℓ} {S : Type κ} where
  -- The second `push_back`; the option is read after the first, and may throw.
  unfoldable pub push_options :
      (defaults options : OptionList W)
      → Result ReturnCode Bool
      → CadExporter W S
      → CadExporter W S × Result ReturnCode Bool
  push_options defaults options (ok b) e = (
    record e { shape_options = e.shape_options ++ ((if b then defaults else options) ∷ []) },
    ok true,
  )
  push_options defaults options (err c) e = (e, err c)

  -- A null shape is `none`.
  unfoldable pub add_shape :
      (defaults : OptionList W)
      → Option S
      → OptionList W
      → CadExporter W S
      → CadExporter W S × Result ReturnCode Bool
  unfolding push_options reads_default
  add_shape defaults none options e = (e, ok true)
  add_shape defaults (some s) options e =
      push_options defaults options (reads_default options)
        (record e { shapes = e.shapes ++ (s ∷ []) })

  -- Calls one after another; an exception ends them.
  unfoldable pub add_shapes :
      (defaults : OptionList W)
      → List (Option S × OptionList W)
      → CadExporter W S
      → CadExporter W S × Result ReturnCode Bool
  unfolding add_shape
  add_shapes defaults [] e = (e, ok true)
  add_shapes defaults ((s, options) ∷ calls) e =
      next (add_shape defaults s options e) (λ f. add_shapes defaults calls f)
    where
      next :
          CadExporter W S × Result ReturnCode Bool
          → (CadExporter W S → CadExporter W S × Result ReturnCode Bool)
          → CadExporter W S × Result ReturnCode Bool
      next (f, ok b) more = more f
      next (f, err c) more = (f, err c)

  -- `GlobalExportOptions`, with the exporter that it may change.
  unfoldable pub global_export_options :
      (defaults : OptionList W)
      → CadExporter W S
      → Result ReturnCode (CadExporter W S × OptionList W)
  unfolding reads_default
  global_export_options defaults e = answer (reads_default e.global_options)
    where
      answer : Result ReturnCode Bool → Result ReturnCode (CadExporter W S × OptionList W)
      answer (ok true) = ok (record e { global_options = defaults }, defaults)
      answer (ok false) = ok (e, e.global_options)
      answer (err c) = err c

  unfoldable pub n_shapes : CadExporter W S → ℕ
  n_shapes e = length e.shapes

  -- `at` throws where it has no element.
  unfoldable pub get_shape : ℕ → CadExporter W S → Option S
  get_shape i e = get_elem? e.shapes i

  unfoldable pub get_shape_options : ℕ → CadExporter W S → Option (OptionList W)
  get_shape_options i e = get_elem? e.shape_options i

  -- The shapes and the options that the calls ask for.
  abbrev pub given : List (Option S × OptionList W) → List S
  given [] = []
  given ((none, options) ∷ calls) = given calls
  given ((some s, options) ∷ calls) = s ∷ given calls

  -- Every shape of the calls has options with the option "IsDefault", and `chosen` are the options
  -- that its value selects.
  pub data Chosen (defaults : OptionList W)
      : List (Option S × OptionList W) → List (OptionList W) → Type (ℓ ⊔ κ) where
    no_calls : Chosen defaults [] []
    null_shape :
        {options : OptionList W} {calls : List (Option S × OptionList W)}
        {chosen : List (OptionList W)}
        → Chosen defaults calls chosen
        → Chosen defaults ((none, options) ∷ calls) chosen
    with_options :
        {s : S} {options : OptionList W} {calls : List (Option S × OptionList W)}
        {chosen : List (OptionList W)} (b : Bool)
        → reads_default options ≡ ok b
        → Chosen defaults calls chosen
        → Chosen defaults ((some s, options) ∷ calls) ((if b then defaults else options) ∷ chosen)
