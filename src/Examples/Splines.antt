-- ===== src/Examples/Splines.antt =====
-- Splines over the integers modulo 3, where each number but zero is its own inverse, and over the
-- integers.
use geoml.Common.{
  ℕ, zero, suc, ◌+◌, ◌-◌, ◌*◌, ◌≤◌, ◌<◌, ◌≡◌, refl, true, false, List, [], ◌∷◌, length, get_elem?,
  some, arith, ltb, ◌==◌, if◌then◌else◌, Bool,
}
use geoml.Common.Int.{ℤ, pos, negsuc}
use geoml.Common.Ring.{sum}
use geoml.Common.Result.{ok}
use geoml.Splines.{minus, knots_from_curve_parameters}
use geoml.Splines.Knots.Closed.{knots_closed_period}
use geoml.Splines.Knots.Open.{knots_open_clamped}
use geoml.Splines.Compatible.{Adapter}
use geoml.Splines.Concat.{Curve, joined, CurveKernel, concat_curves}
use geoml.Examples.Mod3.{Mod3, zero3, one3, two3, mul3, mod3, mod3-IsRing}
use geoml.Examples.Numerics.{order}

abbrev count3 : ℕ → Mod3
count3 zero = zero3
count3 (suc k) = one3

abbrev parameters : ℕ → Mod3
parameters zero = zero3
parameters (suc zero) = one3
parameters (suc (suc k)) = two3

knots_closed_period_example :
    (knots : List Mod3) × (moved : ℕ → Mod3) × (knots_from_curve_parameters mod3 mul3 count3
        parameters 4 2 true
      ≡ ok (knots, moved))
    × (length knots ≡ 4 + 2 * 2)
    × ((i : ℕ)
        → i ≤ 2 * 2
        → (k : Mod3) × (get_elem? knots i ≡ some k)
          × (get_elem? knots (i + (4 - 1))
              ≡ some (mod3.add k (minus mod3 (parameters (4 - 1)) (parameters 0)))))
knots_closed_period_example =
    knots_closed_period mod3 mul3 count3 parameters 4 2 mod3-IsRing (omega arith) (omega arith)

knots_open_clamped_example :
    (knots : List Mod3) × (knots_from_curve_parameters mod3 mul3 count3 parameters 5 2 false
      ≡ ok (knots, parameters))
    × ((i : ℕ) → i ≤ 2 → get_elem? knots i ≡ some (parameters 0))
    × ((i : ℕ) → i ≤ 2 → get_elem? knots (5 + i) ≡ some (parameters (5 - 1)))
    × ((j : ℕ)
        → 0 < j
        → j + 2 < 5
        → get_elem? knots (2 + j) ≡ some (mul3 (sum mod3 2 (λ i. parameters (j + i))) (count3 2)))
knots_open_clamped_example =
    knots_open_clamped mod3 mul3 count3 parameters 5 2 (omega arith) (omega arith)

-- Straight pieces from one number to the next: degree 1, two knots, two poles.
abbrev piece : ℕ → Curve Mod3 ℕ
piece a = record {
  degree = 1;
  nb_knots = 2;
  knot = λ k. zero3;
  multiplicity = λ k. 2;
  nb_poles = 2;
  pole = λ k. a + k;
  weight = λ k. one3;
}

-- Raising the degree is done here by a curve that has the number of poles that it needs.
abbrev raised : ℕ → Curve Mod3 ℕ → Curve Mod3 ℕ
raised d c = record {
  degree = d;
  nb_knots = 2;
  knot = c.knot;
  multiplicity = λ k. d + 1;
  nb_poles = d + 1;
  pole = c.pole;
  weight = c.weight;
}

abbrev raise_degree : Curve Mod3 ℕ → ℕ → Curve Mod3 ℕ
raise_degree c zero = c
raise_degree c (suc d) = raised (suc d) c

abbrev pieces : CurveKernel Mod3 ℕ
pieces = record {
  distance = λ a b. zero3;
  half_way = λ a b. a;
  average = λ a b. a;
  div = mul3;
  curve_length = λ c. one3;
  increase_degree = raise_degree;
  reparametrize = λ a b n knots. knots;
  first_parameter = λ c. zero3;
  last_parameter = λ c. one3;
}

abbrev two_pieces : List (Curve Mod3 ℕ)
two_pieces = piece 0 ∷ piece 1 ∷ []

-- The two pieces are joined: three knots and three poles.
two_pieces_joined :
    concat_curves order mod3 pieces one3 two_pieces true one3
    ≡ joined
        (record {
          cpoints = 1 ∷ 2 ∷ 3 ∷ [];
          weights = one3 ∷ one3 ∷ one3 ∷ [];
          knots = zero3 ∷ zero3 ∷ zero3 ∷ [];
          mults = 2 ∷ 1 ∷ 2 ∷ [];
        })
        1
unfolding concat_curves
two_pieces_joined = refl

-- Splines of degree 3 with the knots 1 to 5, by their multiplicities.
abbrev same_int : ℤ → ℤ → ℤ → Bool
same_int (pos x) (pos y) tol = x == y
same_int (pos x) (negsuc y) tol = false
same_int (negsuc x) (pos y) tol = false
same_int (negsuc x) (negsuc y) tol = x == y

abbrev larger : ℕ → ℕ → ℕ
larger x y = if ltb x y then y else x

abbrev at_most_three : ℕ → ℕ
at_most_three m = if ltb 3 m then 3 else m

abbrev raised_to : (ℕ → ℕ) → ℤ → ℕ → ℕ → ℕ
raised_to s k m i = if same_int (pos i) k (pos 0) then larger (s i) (at_most_three m) else s i

abbrev adapter : Adapter (ℕ → ℕ) ℤ
adapter = record {
  degree = λ s. 3;
  nb_knots = λ s. 5;
  knot = λ s i. pos i;
  multiplicity = λ s i. s i;
  insert = λ s k m tol. raised_to s k m;
  far = λ x y tol. false;
  half_distance = λ x y. pos 1;
}

abbrev once : ℕ → ℕ
once i = 1

abbrev twice : ℕ → ℕ
twice i = 2
