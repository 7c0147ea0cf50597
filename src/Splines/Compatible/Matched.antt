-- ===== src/Splines/Compatible/Matched.antt =====
-- `makeGeometryCompatibleImpl` as a whole: when it throws, and that the knots of all are in each.
use geoml.Common.{◌-◌, ◌≡◌, Bool, List, [], ◌∷◌}
use geoml.Common.Real.{Real}
use geoml.Splines.Compatible.{Adapter, insert_knots}
use geoml.Splines.Compatible.Inserted.{SameEnds, Keeps, Covers}

module _ {ℓ} {S W : Type ℓ} (o : Real W) (a : Adapter S W) where
  -- A spline after the knots of `first` went into it.
  abbrev pub with_knots_of : (first : S) → (tol : W) → S → S
  with_knots_of first tol s = insert_knots o a first tol (a.nb_knots first - 2) 2 s

  module _ (near : W → W → W → Bool) where
    -- What became of one of the other splines.
    pub record IsMatched (tol : W) (first s t : S) : Type ℓ where
      pub same_number : a.nb_knots t ≡ a.nb_knots first
      pub same_degree : a.degree t ≡ a.degree first
      pub same_ends : SameEnds o a near s t
      pub keeps : Keeps o a near s t
      pub covers : Covers o a near tol first t

    -- The splines of two lists, one after the other.
    pub data EachMatched (tol : W) (first : S) : List S → List S → Type ℓ where
      no_more : EachMatched tol first [] []
      one_more :
          {s t : S} {ss ts : List S}
          → IsMatched tol first s t
          → EachMatched tol first ss ts
          → EachMatched tol first (s ∷ ss) (t ∷ ts)
