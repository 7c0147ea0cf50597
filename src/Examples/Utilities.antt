-- ===== src/Examples/Utilities.antt =====
-- A small array, a chain of numbers, and option lists.
use geoml.Common.{
  false, Option, ℕ, zero, suc, ◌+◌, ◌<◌, ◌≡◌, ◌≢◌, ◌⊎◌, Bool, true, none, some, List, [], ◌∷◌, ◌==◌,
  arith,
}
use geoml.Common.Result.{ok, err, generic_error}
use geoml.Utilities.Array2d.{Array2d}
use geoml.Utilities.FollowSort.{Chain, follow_sort}
use geoml.Utilities.FollowSort.Extend.{Permuted, IsChain}
use geoml.Utilities.FollowSort.Laws.{follow_sort_cases, NoMore}
use geoml.Utilities.Options.{
  Any, OptionList, a_bool, a_double, get, set_option, exporter_options, is_default, add_option,
  no_options, type_id,
}
use geoml.Utilities.Options.Exporter.{CadExporter}
use geoml.Utilities.Options.Laws.{get-set_option, found}

abbrev grid : Array2d ℕ
grid = record { rows = 2; cols = 3; flat_data = 1 ∷ 2 ∷ 3 ∷ 4 ∷ 5 ∷ 6 ∷ [] }

-- A number follows the one before it.
abbrev follows : ℕ → ℕ → Bool
follows a b = a == b + 1

abbrev shuffled : ℕ → ℕ
shuffled zero = 5
shuffled (suc zero) = 7
shuffled (suc (suc zero)) = 4
shuffled (suc (suc (suc k))) = 6

follow_sort_cases_example :
    ((w : ℕ → ℕ) × (follow_sort follows 4 shuffled ≡ some w)
      × Permuted 4 shuffled w
      × ((k : ℕ) → k + 1 < 4 → follows (w (k + 1)) (w k) ≡ true))
    ⊎ ((follow_sort follows 4 shuffled ≡ none)
        × ((c : Chain ℕ) × IsChain follows 4 shuffled c
            × (c.sorted + 1 < 4)
            × NoMore follows 4 shuffled c (c.sorted + 1) 4))
follow_sort_cases_example = follow_sort_cases follows 4 shuffled (omega arith)

abbrev options : OptionList ℕ
options = exporter_options

get-set_option_example :
    ((old : Any ℕ) × (found is_default options ≡ some old)
      × (type_id old ≡ type_id {W = ℕ} (a_bool true))
      × (m : OptionList ℕ) × (set_option is_default (a_bool true) options ≡ ok m)
      × (get (type_id {W = ℕ} (a_bool true)) is_default m ≡ ok (a_bool true))
      × ((other : List ℕ) → other ≢ is_default → found other m ≡ found other options))
    ⊎ (((found is_default options ≡ none)
          ⊎ ((old : Any ℕ) × (found is_default options ≡ some old)
              × (type_id old ≢ type_id {W = ℕ} (a_bool true))))
        × (set_option is_default (a_bool true) options ≡ err generic_error)
        × (get (type_id {W = ℕ} (a_bool true)) is_default options ≡ err generic_error))
get-set_option_example = get-set_option is_default (a_bool true) options

-- "Deflection", of the triangulated export.
abbrev deflection : List ℕ
deflection = 68 ∷ 101 ∷ 102 ∷ 108 ∷ 101 ∷ 99 ∷ 116 ∷ 105 ∷ 111 ∷ 110 ∷ []

abbrev triangulated : OptionList ℕ
triangulated = add_option deflection (a_double 1) no_options

-- A shape with options of its own, a null shape, and a shape with the default options.
abbrev own : OptionList ℕ
own = record { options = (is_default, a_bool false) ∷ []; iters = is_default ∷ [] }

abbrev default_given : OptionList ℕ
default_given = record { options = (is_default, a_bool true) ∷ []; iters = is_default ∷ [] }

abbrev calls : List (Option ℕ × OptionList ℕ)
calls = (some 1, own) ∷ (none, own) ∷ (some 2, default_given) ∷ []

abbrev empty_exporter : CadExporter ℕ ℕ
empty_exporter = record { shapes = []; shape_options = []; global_options = own }
