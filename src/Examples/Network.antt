-- ===== src/Examples/Network.antt =====
-- A curve network of three profiles and three guides, and one row of parameters.
use geoml.Common.{ℕ, zero, suc, ◌<◌, ◌≡◌, ◌⊎◌, refl, true, false, none, some, arith}
use geoml.Common.Int.{ℤ, pos}
use geoml.Common.Real.{int_real, int_real-IsOrder, int_real_anti}
use geoml.Common.Result.{ok, err}
use geoml.Network.{
  Sorter, CurveOps, printed, StartCurves, cannot_find_starting_curves, get_start_curve_indices,
  sort_guides, sort_profiles, perform, arrange, place_start, swap_profiles, swap_guides,
  orient_profiles, orient_guides, orient_profile, orient_guide, reverse_profile, reverse_guide,
  profile_first, profile_last, guide_first, guide_last,
}
use geoml.Network.Scan.{max_row_index, max_col_index, min_col_index, min_row_index}
use geoml.Network.Start.{
  StartsOn, BeginsOn, EndsOn, IsStart, IsLoopStart, NoStart, NoLoopStart, InRange, chosen,
  get_start_curve_indices_cases,
}
use geoml.Network.Sorted.{IsAscending, guide_key, profile_key}
use geoml.Network.First.{FirstIsLeast}
use geoml.Network.Arranged.{Arranged}
use geoml.Network.Perform.{perform_cases}
use geoml.Network.Oriented.{IsOriented, perform-IsOriented}
use geoml.Network.Renamed.{Reordered, sorts-Reordered}

-- A curve over [0, 10], and how often it was reversed.
abbrev curve_ops : CurveOps ℤ ℕ
curve_ops = record {
  first_parameter = λ c. pos 0;
  last_parameter = λ c. pos 10;
  reverse = λ c. suc c;
}

-- Profile `i` meets guide `j` at the parameter `u j`, and guide `j` meets it at `v i`: profiles 0 1 2
-- and guides 0 1 2 stand in the places 2 0 1.
abbrev place : ℕ → ℤ
place zero = pos 10
place (suc zero) = pos 0
place (suc (suc i)) = pos 5

abbrev network : Sorter ℤ ℕ
network = record {
  n_profiles = 3;
  n_guides = 3;
  profiles = λ i. some 0;
  guides = λ j. none;
  parms_inters_profiles = λ i j. place j;
  parms_inters_guides = λ i j. place i;
  prof_idx = printed;
  guid_idx = printed;
  has_performed = false;
}

abbrev start : StartCurves
start = record { prof_start = 1; guid_start = 1; guide_must_be_reversed = false }

abbrev sorted : Sorter ℤ ℕ
sorted = arrange int_real curve_ops network start

runs :
    (get_start_curve_indices int_real network ≡ ok start)
    × (sorted.prof_idx 0 ≡ printed 1)
    × (sorted.prof_idx 1 ≡ printed 2)
    × (sorted.prof_idx 2 ≡ printed 0)
    × (sorted.guid_idx 2 ≡ printed 0)
unfolding get_start_curve_indices min_row_index min_col_index max_row_index max_col_index arrange
    place_start swap_profiles swap_guides sort_guides sort_profiles orient_profiles orient_guides
    orient_profile orient_guide reverse_profile reverse_guide profile_first profile_last guide_first
    guide_last
runs = (refl, refl, refl, refl, refl)

below_range : (i : ℕ) → i < 3 → (j : ℕ) × (j < 3) × (int_real.gt int_real.dbl_max (place j) ≡ true)
below_range i h = (1, omega arith, refl)

network-InRange : InRange int_real int_real-IsOrder network
network-InRange = record {
  profiles_below = below_range;
  guides_below = below_range;
  guides_above = λ j h. (2, omega arith, refl);
}

perform_cases_example :
    (((i : ℕ) × (i < 3)
        × (IsStart int_real int_real-IsOrder network i
            ⊎ IsLoopStart int_real int_real-IsOrder network i))
      × (t : Sorter ℤ ℕ) × (perform int_real curve_ops network ≡ ok t)
      × Arranged int_real curve_ops network t
      × FirstIsLeast int_real int_real-IsOrder curve_ops guide_key 3 t
      × FirstIsLeast int_real int_real-IsOrder curve_ops profile_key 3 t
      × IsAscending int_real int_real-IsOrder curve_ops t
      × (perform int_real curve_ops t ≡ ok t))
    ⊎ (NoStart int_real int_real-IsOrder network
        × NoLoopStart int_real int_real-IsOrder network
        × (perform int_real curve_ops network ≡ err cannot_find_starting_curves))
perform_cases_example =
    perform_cases int_real int_real-IsOrder curve_ops network refl network-InRange int_real_anti

perform-IsOriented_example : IsOriented int_real int_real-IsOrder curve_ops int_real_anti sorted
unfolding perform get_start_curve_indices min_row_index min_col_index
perform-IsOriented_example =
    perform-IsOriented int_real int_real-IsOrder curve_ops int_real_anti network sorted refl refl

sorts-Reordered_example :
    Reordered network (sort_profiles int_real curve_ops (sort_guides int_real curve_ops network))
sorts-Reordered_example = sorts-Reordered int_real curve_ops network

get_start_curve_indices_cases_example :
    ((p g : ℕ) × (p < 3)
      × StartsOn int_real int_real-IsOrder network p g
      × BeginsOn int_real int_real-IsOrder network g p
      × ((k : ℕ) → k < p → ¬ (IsStart int_real int_real-IsOrder network k))
      × (get_start_curve_indices int_real network
          ≡ ok (chosen int_real int_real-IsOrder network p g false)))
    ⊎ ((p g : ℕ) × NoStart int_real int_real-IsOrder network
        × (p < 3)
        × StartsOn int_real int_real-IsOrder network p g
        × EndsOn int_real int_real-IsOrder network g p
        × ((k : ℕ) → k < p → ¬ (IsLoopStart int_real int_real-IsOrder network k))
        × (get_start_curve_indices int_real network
            ≡ ok (chosen int_real int_real-IsOrder network p g true)))
    ⊎ (NoStart int_real int_real-IsOrder network
        × NoLoopStart int_real int_real-IsOrder network
        × (get_start_curve_indices int_real network ≡ err cannot_find_starting_curves))
get_start_curve_indices_cases_example =
    get_start_curve_indices_cases int_real int_real-IsOrder network network-InRange
