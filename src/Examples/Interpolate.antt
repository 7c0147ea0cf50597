-- ===== src/Examples/Interpolate.antt =====
-- A network of two profiles and two guides on a plane of numbers: profile `p` has the points `(u, p)`
-- and guide `g` the points `(g, v)`.
use geoml.Common.{
  ℕ, ◌+◌, ◌≤◌, ◌<◌, ◌≡◌, ◌↔◌, refl, false, not, ◌&&◌, ◌==◌, if◌then◌else◌, List, [], ◌∷◌,
}
use geoml.Common.Int.{ℤ, pos}
use geoml.Common.Result.{ok}
use geoml.Network.{CurveOps}
use geoml.Network.Gordon.{CurveCalls, CurveNetwork, check_network}
use geoml.Network.Built.{SameRange, EndsMeet, Meet, check_network_iff}
use geoml.Network.Interpolate.{
  Intersect, Curves, sizes, larger_size, control_points, compute_intersections,
}
use geoml.Network.Interpolate.Entries.{Outcome, compute_intersections_cases}
use geoml.Network.Interpolate.Prepared.{Clamped, control_points_bounds}

data Line : Type 0 where
  profile : ℕ → Line
  guide : ℕ → Line

record Place : Type 0 where
  across : ℕ
  along : ℕ

abbrev value_of : Line → ℕ → Place
value_of (profile p) u = record { across = u; along = p }
value_of (guide g) v = record { across = g; along = v }

abbrev line_calls : CurveCalls Line Place ℕ
line_calls = record {
  first_parameter = λ c. 0;
  last_parameter = λ c. 1;
  value = value_of;
  distance = λ p q. if (p.across == q.across) && (p.along == q.along) then 0 else 1;
  far = λ a b tol. not (a == b);
  range_tol = 0;
  zero_value = 0;
  one_value = 1;
}

abbrev square : CurveNetwork Line ℕ
square = record {
  n_profiles = 2;
  n_guides = 2;
  profiles = profile;
  guides = guide;
  params_u = λ i. i;
  params_v = λ j. j;
}

check_network_iff_example : (check_network sizes line_calls square 0 ≡ ok tt) ↔ (
    (2 ≤ 2)
    × (2 ≤ 2)
    × SameRange sizes line_calls square 0 profile 2
    × SameRange sizes line_calls square 0 guide 2
    × EndsMeet sizes line_calls square 0 square.params_u 2
    × EndsMeet sizes line_calls square 0 square.params_v 2
    × ((i j : ℕ) → i < 2 → j < 2 → Meet sizes line_calls square 0 i j))
check_network_iff_example = check_network_iff sizes line_calls square 0

-- The square passes.
square_passes : check_network sizes line_calls square 0 ≡ ok tt
unfolding check_network
square_passes = refl

-- Each pair of curves meets once; the third guide is missed.
abbrev meetings : Intersect ℕ Line
meetings = record { intersections = meeting; is_closed = λ c. false }
  where
    meeting : Line → Line → List (ℕ × ℕ)
    meeting (profile p) (guide g) = (g, p) ∷ []
    meeting (profile p) (profile q) = []
    meeting (guide g) c = []

abbrev square_curves : Curves Line
square_curves = record { n_profiles = 2; n_guides = 2; profiles = profile; guides = guide }

compute_intersections_cases_example :
    Outcome sizes meetings square_curves (compute_intersections sizes meetings square_curves)
compute_intersections_cases_example = compute_intersections_cases sizes meetings square_curves

control_points_bounds_example :
    let low = larger_size (12 + 2) 10 in
    let high = larger_size low 80 in
    (v : ℕ) × (control_points 12 30 ≡ ok v)
    × (12 + 2 ≤ v)
    × (10 ≤ v)
    × (v ≤ high)
    × Clamped (30 + 10) low high v
control_points_bounds_example = control_points_bounds 12 30

abbrev line_ops : CurveOps ℤ Line
line_ops = record { first_parameter = λ c. pos 0; last_parameter = λ c. pos 1; reverse = λ c. c }
