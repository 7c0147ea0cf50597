-- ===== src/Splines/Knots.antt =====
-- `knotsFromCurveParameters`: the number of the knots it returns, and when it fails.
pub mod Closed
pub mod Open
use geoml.Common.{
  ℕ, zero, suc, ◌+◌, ◌-◌, ◌*◌, ◌%◌, ◌≤◌, ◌<◌, ◌≡◌, refl, sym, ◌∙◌, ap, Bool, true, false, ◌||◌,
  ◌&&◌, List, [], ◌∷◌, ◌++◌, some, get_elem?, length, length-append, arith, Bool-cases,
}
use geoml.Common.Ring.{Ring, IsRing, sum}
use geoml.Splines.{push_back, minus, even_knot, closed_knots}

module _ {ℓ} {W : Type ℓ} where
  pub length-push_back : (f : ℕ → W) (n i : ℕ) → length (push_back f n i) ≡ n
  unfolding push_back
  length-push_back f zero i = refl
  length-push_back f (suc n) i = ap suc (length-push_back f n (i + 1))

  pub get_elem?-push_back :
      (f : ℕ → W) (n i k : ℕ) → k < n → get_elem? (push_back f n i) k ≡ some (f (i + k))
  unfolding push_back
  get_elem?-push_back f zero i k h = absurd (omega arith)
  get_elem?-push_back f (suc n) i zero h = ap (λ (x : ℕ). some (f x)) (omega arith)
  get_elem?-push_back f (suc n) i (suc k) h =
      get_elem?-push_back f n (i + 1) k (omega arith) ∙ ap (λ (x : ℕ). some (f x)) (omega arith)

  get_elem?-append_before :
      (xs ys : List W) (k : ℕ) → k < length xs → get_elem? (xs ++ ys) k ≡ get_elem? xs k
  get_elem?-append_before [] ys k h = absurd (omega arith)
  get_elem?-append_before (x ∷ xs) ys zero h = refl
  get_elem?-append_before (x ∷ xs) ys (suc k) h = get_elem?-append_before xs ys k (omega arith)

  get_elem?-append_after :
      (xs ys : List W) (k : ℕ) → get_elem? (xs ++ ys) (length xs + k) ≡ get_elem? ys k
  get_elem?-append_after [] ys k = let e : 0 + k ≡ k = omega arith in ap (get_elem? ys) e
  get_elem?-append_after (x ∷ xs) ys k =
      let e : suc (length xs) + k ≡ suc (length xs + k) = omega arith in
      ap (get_elem? (x ∷ xs ++ ys)) e ∙ get_elem?-append_after xs ys k

  -- Three loops that fill one vector.
  module _ (f g h : ℕ → W) (a b c : ℕ) where
    abbrev pub three : List W
    three = push_back f a 0 ++ (push_back g b 0 ++ push_back h c 0)

    pub length-three : length three ≡ a + b + c
    length-three = omega (
      arith,
      length-append (push_back f a 0) (push_back g b 0 ++ push_back h c 0),
      length-append (push_back g b 0) (push_back h c 0),
      length-push_back f a 0,
      length-push_back g b 0,
      length-push_back h c 0,
    )

    pub three_first : (k : ℕ) → k < a → get_elem? three k ≡ some (f k)
    three_first k p =
        get_elem?-append_before (push_back f a 0) (push_back g b 0 ++ push_back h c 0) k
          (omega (arith, length-push_back f a 0))
        ∙ get_elem?-push_back f a 0 k p
        ∙ ap (λ (x : ℕ). some (f x)) (omega arith)

    pub three_second : (k : ℕ) → k < b → get_elem? three (a + k) ≡ some (g k)
    three_second k p =
        ap (λ (x : ℕ). get_elem? three (x + k)) (sym (length-push_back f a 0))
        ∙ get_elem?-append_after (push_back f a 0) (push_back g b 0 ++ push_back h c 0) k
        ∙ get_elem?-append_before (push_back g b 0) (push_back h c 0) k
            (omega (arith, length-push_back g b 0))
        ∙ get_elem?-push_back g b 0 k p
        ∙ ap (λ (x : ℕ). some (g x)) (omega arith)

    pub three_third : (k : ℕ) → k < c → get_elem? three (a + b + k) ≡ some (h k)
    three_third k p =
        let e : a + b + k ≡ length (push_back f a 0) + (b + k) =
          omega (arith, length-push_back f a 0) in
        ap (get_elem? three) e
        ∙ get_elem?-append_after (push_back f a 0) (push_back g b 0 ++ push_back h c 0) (b + k)
        ∙ ap (λ (x : ℕ). get_elem? (push_back g b 0 ++ push_back h c 0) (x + k))
            (sym (length-push_back g b 0))
        ∙ get_elem?-append_after (push_back g b 0) (push_back h c 0) k
        ∙ get_elem?-push_back h c 0 k p
        ∙ ap (λ (x : ℕ). some (h x)) (omega arith)

pub length-closed_knots {ℓ} :
    {W : Type ℓ} (r : Ring W) (inner : ℕ → W) (n degree : ℕ)
    → length (closed_knots r inner n degree) ≡ degree + n + degree
unfolding closed_knots
length-closed_knots r inner n degree = length-three _ inner _ degree n degree

module _ {ℓ} {W : Type ℓ} (r : Ring W) (div : W → W → W) (of_nat : ℕ → W) where
  -- The number of control points, one more for each condition of continuity of a closed curve.
  abbrev pub n_control_points : (n degree : ℕ) → Bool → ℕ
  n_control_points n degree true = n + degree - 1
  n_control_points n degree false = n

  -- Where a vector has no element to read: too few knots to repeat for a closed curve, no inner knot
  -- for an open one.
  abbrev pub ReadsOutside : (n degree : ℕ) → Bool → Type 0
  ReadsOutside n degree true = n ≤ degree
  ReadsOutside n degree false = n + 1 ≡ degree
