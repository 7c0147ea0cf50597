-- ===== src/Splines/Compatible.antt =====
-- `makeGeometryCompatibleImpl`: a common knot vector. A spline is seen through its adapter, by the
-- degree, knots and multiplicities of one direction; the knots are counted from 1. `insert` is
-- OpenCASCADE's insertion of a knot, which gives back the spline that it changes.
pub mod Inserted
pub mod Matched
use geoml.Common.{
  ℕ, zero, suc, ◌+◌, ◌-◌, ◌≤◌, ◌<◌, ◌≡◌, ◌⊎◌, inl, inr, refl, sym, ◌∙◌, ap, subst, Bool, true,
  false, ◌||◌, not, if◌then◌else◌, ◌==◌, List, [], ◌∷◌, length, In, arith, ℕ_discrete, Bool-cases,
}
use geoml.Common.Real.{Real}
use geoml.Common.Result.{Result, ok, err, ◌>>=◌, Result-cases}

pub record Adapter {ℓ} (S W : Type ℓ) : Type ℓ where
  pub degree : S → ℕ
  pub nb_knots : S → ℕ
  pub knot : S → ℕ → W
  pub multiplicity : S → ℕ → ℕ
  pub insert : S → W → ℕ → W → S
  pub far : W → W → W → Bool
  pub half_distance : W → W → W

-- The exceptions; `no_splines` is the access to the first spline of none.
pub data CompatibleError : Type 0 where
  no_splines : CompatibleError
  range_differs : CompatibleError
  degree_differs : CompatibleError
  knots_differ : CompatibleError

module _ {ℓ} {S W : Type ℓ} (o : Real W) (a : Adapter S W) where
  -- `far x y tol` is `std::abs(x - y) > tol`.
  unfoldable pub have_same_range : S → List S → W → Bool
  have_same_range first [] tol = true
  have_same_range first (s ∷ ss) tol =
      let rest = have_same_range first ss tol in
      if a.far (a.knot s 1) (a.knot first 1) tol
        || a.far (a.knot s (a.nb_knots s)) (a.knot first (a.nb_knots first)) tol
      then false
      else rest

  unfoldable pub have_same_degree : S → List S → Bool
  have_same_degree first [] = true
  have_same_degree first (s ∷ ss) =
      let rest = have_same_degree first ss in
      if not (a.degree s == a.degree first) then false else rest

  -- `half_distance` is half of a difference; the loop over `n` knots from `i` on.
  unfoldable pub knot_tolerance : S → (n i : ℕ) → W → W
  knot_tolerance s zero i tol = tol
  knot_tolerance s (suc n) i tol =
      let d = a.half_distance (a.knot s (i + 1)) (a.knot s i) in
      knot_tolerance s n (i + 1) (if o.gt tol d then d else tol)

  unfoldable pub tolerance : List S → W → W
  unfolding knot_tolerance
  tolerance [] tol = tol
  tolerance (s ∷ ss) tol = tolerance ss (knot_tolerance s (a.nb_knots s - 1) 1 tol)

  -- The inner loops: `n` knots of `source` from `i` on are inserted into `target`.
  unfoldable pub insert_knots : (source : S) → (tol : W) → (n i : ℕ) → (target : S) → S
  insert_knots source tol zero i target = target
  insert_knots source tol (suc n) i target =
      insert_knots source tol n (i + 1)
        (a.insert target (a.knot source i) (a.multiplicity source i) tol)

  unfoldable pub insert_all : List S → (tol : W) → (first : S) → S
  unfolding insert_knots
  insert_all [] tol first = first
  insert_all (s ∷ ss) tol first = insert_all ss tol (insert_knots s tol (a.nb_knots s - 2) 2 first)

  -- The knots of the first spline go into the others.
  unfoldable pub insert_back : (first : S) → (tol : W) → List S → Result CompatibleError (List S)
  unfolding insert_knots
  insert_back first tol [] = ok []
  insert_back first tol (s ∷ ss) =
      let t = insert_knots first tol (a.nb_knots first - 2) 2 s in
      let rest = insert_back first tol ss >>= (λ ts. ok (t ∷ ts)) in
      if not (a.nb_knots t == a.nb_knots first) then err knots_differ else rest

  unfoldable pub make_geometry_compatible : List S → W → Result CompatibleError (List S)
  unfolding have_same_range have_same_degree tolerance insert_all insert_back
  make_geometry_compatible [] par_tol = err no_splines
  make_geometry_compatible (f ∷ ss) par_tol =
      let tol = tolerance (f ∷ ss) par_tol in
      let first = insert_all ss tol f in
      if not (have_same_range f ss par_tol)
      then err range_differs
      else if not (have_same_degree f ss)
      then err degree_differs
      else (insert_back first tol ss >>= (λ ts. ok (first ∷ ts)))
