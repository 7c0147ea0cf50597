-- ===== src/CommonFunctions/Linspace.antt =====
-- `LinspaceWithBreaks`: equidistant parameters with some more among them.
use geoml.Common.{
  ℕ, ◌-◌, ◌≡◌, Bool, true, false, not, if◌then◌else◌, List, [], ◌∷◌, ◌++◌, In, Option, none, some,
}
use geoml.Common.Real.{Real}
use geoml.Common.Ring.{Ring}
use geoml.Splines.{push_back, minus}

-- What the code takes of doubles beside sums and products; `eps` is 0.3 and `near_half` is 0.5 + 1e-8.
pub record Grid {ℓ} (W : Type ℓ) : Type ℓ where
  pub div : W → W → W
  pub of_nat : ℕ → W
  pub eps : W
  pub near_half : W

module _ {ℓ} {W : Type ℓ} (o : Real W) (r : Ring W) (g : Grid W) where
  -- `IsInsideTolerance(value, tolerance)`: `fabs(value - v) <= tolerance`
  unfoldable pub is_inside_tolerance : (value tolerance v : W) → Bool
  is_inside_tolerance value tolerance v =
      let d = minus r value v in not (o.gt (if o.gt r.zero d then r.neg d else d) tolerance)

  -- The first element inside the tolerance gives way to the break; `none` where there is none.
  unfoldable pub replace_near : (tolerance breakpoint : W) → List W → Option (List W)
  unfolding is_inside_tolerance
  replace_near tolerance breakpoint [] = none
  replace_near tolerance breakpoint (v ∷ vs) =
      let later = after v (replace_near tolerance breakpoint vs) in
      if is_inside_tolerance breakpoint tolerance v then some (breakpoint ∷ vs) else later
    where
      after : W → Option (List W) → Option (List W)
      after v none = none
      after v (some ws) = some (v ∷ ws)

  -- The break goes in before or behind the first element inside the tolerance; where there is none,
  -- the code reads behind the end.
  unfoldable pub insert_near : (tolerance breakpoint : W) → List W → Option (List W)
  unfolding is_inside_tolerance
  insert_near tolerance breakpoint [] = none
  insert_near tolerance breakpoint (v ∷ vs) =
      let later = after v (insert_near tolerance breakpoint vs) in
      if is_inside_tolerance breakpoint tolerance v
      then some (if o.gt v breakpoint then breakpoint ∷ v ∷ vs else v ∷ breakpoint ∷ vs)
      else later
    where
      after : W → Option (List W) → Option (List W)
      after v none = none
      after v (some ws) = some (v ∷ ws)

  unfoldable pub add_break : (du breakpoint : W) → List W → Option (List W)
  unfolding replace_near insert_near
  add_break du breakpoint vs = elim (replace_near (r.mul du g.eps) breakpoint vs) [
    | some ws ↦ some ws
    | none ↦ insert_near (r.mul g.near_half du) breakpoint vs
  ]

  unfoldable pub add_breaks : (du : W) → List W → List W → Option (List W)
  unfolding add_break
  add_breaks du [] vs = some vs
  add_breaks du (b ∷ bs) vs = elim (add_break du b vs) [
    | none ↦ none
    | some ws ↦ add_breaks du bs ws
  ]

  unfoldable pub linspace_with_breaks : (umin umax : W) (n_values : ℕ) → List W → Option (List W)
  unfolding add_breaks push_back
  linspace_with_breaks umin umax n_values breaks =
      let du = g.div (minus r umax umin) (g.of_nat (n_values - 1)) in
      add_breaks du breaks (push_back (λ i. r.add (r.mul (g.of_nat i) du) umin) n_values 0)

  -- No element is inside the tolerance.
  abbrev pub Misses : (tol b : W) → List W → Type ℓ
  Misses tol b vs = (x : W) → In x vs → is_inside_tolerance b tol x ≡ false

  -- `v` is the first element inside the tolerance, between `before` and `behind`.
  abbrev pub FirstInside : (tol b : W) → (vs before : List W) → W → (behind : List W) → Type ℓ
  FirstInside tol b vs before v behind =
      (vs ≡ before ++ v ∷ behind) × Misses tol b before × (is_inside_tolerance b tol v ≡ true)
