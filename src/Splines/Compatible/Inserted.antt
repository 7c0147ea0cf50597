-- ===== src/Splines/Compatible/Inserted.antt =====
-- `makeGeometryCompatibleImpl`: what the insertion of knots does to one spline.
use geoml.Common.{
  ℕ, zero, suc, ◌+◌, ◌-◌, ◌≤◌, ◌<◌, ◌≡◌, ◌⊎◌, inl, inr, refl, sym, ◌∙◌, ap, subst, Bool, true,
  false, List, [], ◌∷◌, In, arith, ℕ_discrete, dec_le,
}
use geoml.Common.Real.{Real}
use geoml.Splines.Compatible.{Adapter, insert_knots, insert_all}

-- `near x y tol`: the test by which OpenCASCADE takes two knots for one.
module _ {ℓ} {S W : Type ℓ} (o : Real W) (a : Adapter S W) (near : W → W → W → Bool) where
  abbrev pub IsInner : S → ℕ → Type 0
  IsInner s i = (2 ≤ i) × (i < a.nb_knots s)

  -- An inner knot of this value, at least as often.
  abbrev pub HasKnot : S → W → ℕ → Type ℓ
  HasKnot s k m = (i : ℕ) × IsInner s i × (a.knot s i ≡ k) × (m ≤ a.multiplicity s i)

  -- An inner knot that is taken for this value, at least as often.
  abbrev pub NearKnot : (tol : W) → S → W → ℕ → Type 0
  NearKnot tol s k m =
      (i : ℕ) × IsInner s i × (near (a.knot s i) k tol ≡ true) × (m ≤ a.multiplicity s i)

  -- The value is between the ends of the spline, and is not taken for one of them.
  abbrev pub IsInside : (tol : W) → S → W → Type 0
  IsInside tol s k =
      (o.gt k (a.knot s 1) ≡ true)
      × (o.gt (a.knot s (a.nb_knots s)) k ≡ true)
      × (near (a.knot s 1) k tol ≡ false)
      × (near (a.knot s (a.nb_knots s)) k tol ≡ false)

  abbrev pub SameEnds : S → S → Type ℓ
  SameEnds s t = (a.knot t 1 ≡ a.knot s 1) × (a.knot t (a.nb_knots t) ≡ a.knot s (a.nb_knots s))

  -- Multiplicities of inner knots go from one to the degree.
  abbrev pub IsBounded : S → Type 0
  IsBounded s = (i : ℕ) → IsInner s i → (1 ≤ a.multiplicity s i) × (a.multiplicity s i ≤ a.degree s)

  -- What OpenCASCADE says of `InsertKnot` without adding multiplicities. A knot inside the range gets at
  -- least the multiplicity that is asked for, up to the degree; no knot is lost, and no other knot
  -- comes in; the ends and the degree stay.
  pub record IsInsertion : Type ℓ where
    pub inserted :
        (s : S) (k : W) (m : ℕ) (tol : W)
        → IsInside tol s k
        → 1 ≤ m
        → m ≤ a.degree s
        → NearKnot tol (a.insert s k m tol) k m
    pub kept :
        (s : S) (k : W) (m : ℕ) (tol : W) (k' : W) (m' : ℕ)
        → HasKnot s k' m'
        → HasKnot (a.insert s k m tol) k' m'
    pub only :
        (s : S) (k : W) (m : ℕ) (tol : W) (i : ℕ)
        → IsInner (a.insert s k m tol) i
        → ((j : ℕ) × IsInner s j × (a.knot (a.insert s k m tol) i ≡ a.knot s j))
          ⊎ (a.knot (a.insert s k m tol) i ≡ k)
    pub keeps_bounded :
        (s : S) (k : W) (m : ℕ) (tol : W) → 1 ≤ m → IsBounded s → IsBounded (a.insert s k m tol)
    pub keeps_degree :
        (s : S) (k : W) (m : ℕ) (tol : W) → a.degree (a.insert s k m tol) ≡ a.degree s
    pub keeps_ends : (s : S) (k : W) (m : ℕ) (tol : W) → SameEnds s (a.insert s k m tol)

  -- The inner knots of the spline are inside the range of each of the splines `all`.
  abbrev pub FitsAll : (tol : W) → List S → S → Type ℓ
  FitsAll tol all s = (i : ℕ) → IsInner s i → (t : S) → In t all → IsInside tol t (a.knot s i)

  -- All knots of one spline are in another.
  abbrev pub Keeps : S → S → Type ℓ
  Keeps s t = (k : W) (m : ℕ) → HasKnot s k m → HasKnot t k m

  -- Each inner knot of one spline is taken for one of the other, and is there at least as often.
  abbrev pub Covers : (tol : W) → S → S → Type 0
  Covers tol s t = (i : ℕ) → IsInner s i → NearKnot tol t (a.knot s i) (a.multiplicity s i)

  Keeps-NearKnot :
      (tol : W) (s t : S) (k : W) (m : ℕ) → Keeps s t → NearKnot tol s k m → NearKnot tol t k m
  Keeps-NearKnot tol s t k m keeps (i, inner, close, h) =
      let (j, inner', e, h') =
        keeps (a.knot s i) (a.multiplicity s i) (i, inner, refl, omega arith) in
      (j, inner', ap (λ (x : W). near x k tol) e ∙ close, omega arith)

  module _ (laws : IsInsertion) (tol : W) (all : List S) (degree : ℕ) where
    -- A spline on the way, and the spline that it was at first.
    pub record IsGrown (from s : S) : Type ℓ where
      pub same_degree : a.degree s ≡ degree
      pub bounded : IsBounded s
      pub fits : FitsAll tol all s
      pub same_ends : SameEnds from s
      pub keeps : Keeps from s

    insert-IsGrown :
        (from s : S) (k : W) (m : ℕ)
        → IsGrown from s
        → ((t : S) → In t all → IsInside tol t k)
        → 1 ≤ m
        → IsGrown from (a.insert s k m tol)
    insert-IsGrown from s k m g inside pos_m = record {
      same_degree = laws.keeps_degree s k m tol ∙ g.same_degree;
      bounded = laws.keeps_bounded s k m tol pos_m g.bounded;
      fits = λ i inner t w. elim (laws.only s k m tol i inner) [
        | inl (j, inner', e) ↦ subst (IsInside tol t) (sym e) (g.fits j inner' t w)
        | inr e ↦ subst (IsInside tol t) (sym e) (inside t w)
      ];
      same_ends = let (l, h) = laws.keeps_ends s k m tol in (l ∙ g.same_ends.0, h ∙ g.same_ends.1);
      keeps = λ k' m' h. laws.kept s k m tol k' m' (g.keeps k' m' h);
    }

    IsInside-grown : (from s : S) (k : W) → IsGrown from s → IsInside tol from k → IsInside tol s k
    IsInside-grown from s k g (p, q, x, y) = (
      ap (o.gt k) g.same_ends.0 ∙ p,
      ap (λ (e : W). o.gt e k) g.same_ends.1 ∙ q,
      ap (λ (e : W). near e k tol) g.same_ends.0 ∙ x,
      ap (λ (e : W). near e k tol) g.same_ends.1 ∙ y,
    )

    -- The loop over `n` knots of `source` from `i` on.
    insert_knots_lem :
        (source from target : S) (n i : ℕ)
        → IsGrown source source
        → In from all
        → IsGrown from target
        → 2 ≤ i
        → i + n ≤ a.nb_knots source
        → let t = insert_knots o a source tol n i target in
          IsGrown from t
          × Keeps target t
          × ((j : ℕ)
              → i ≤ j
              → j < i + n
              → NearKnot tol t (a.knot source j) (a.multiplicity source j))
    unfolding insert_knots
    insert_knots_lem source from target zero i src member g b c =
        (g, λ k m h. h, λ j x y. absurd (omega arith))
    insert_knots_lem source from target (suc n) i src member g b c =
        let k = a.knot source i in
        let m = a.multiplicity source i in
        let next = a.insert target k m tol in
        let inner : IsInner source i = (b, omega arith) in
        let (low, high) = src.bounded i inner in
        let inside = src.fits i inner in
        let there =
          laws.inserted target k m tol (IsInside-grown from target k g (inside from member)) low
            (omega (arith, src.same_degree, g.same_degree)) in
        let (grown, keeps, near_rest) =
          insert_knots_lem source from next n (i + 1) src member
            (insert-IsGrown from target k m g inside low) (omega arith) (omega arith) in
        let t = insert_knots o a source tol n (i + 1) next in
        (
          grown,
          λ k' m' h. keeps k' m' (laws.kept target k m tol k' m' h),
          λ j x y. elim (ℕ_discrete j i) [
            | yes e ↦
                subst (λ (z : ℕ). NearKnot tol t (a.knot source z) (a.multiplicity source z))
                  (sym e) (Keeps-NearKnot tol next t k m keeps there)
            | no ne ↦ near_rest j (omega arith) (omega arith)
          ],
        )

    -- All inner knots of a spline go into another.
    pub insert_knots-Covers :
        (source from target : S)
        → IsGrown source source
        → In from all
        → IsGrown from target
        → let t = insert_knots o a source tol (a.nb_knots source - 2) 2 target in
          IsGrown from t × Keeps target t × Covers tol source t
    insert_knots-Covers source from target src member g = elim (dec_le 2 (a.nb_knots source)) [
      | yes le ↦
          let (grown, keeps, near_all) =
            insert_knots_lem source from target (a.nb_knots source - 2) 2 src member g (omega arith)
              (omega arith) in
          (grown, keeps, λ i inner. near_all i inner.0 (omega (arith, inner.1)))
      | no gt ↦
          let e : a.nb_knots source - 2 ≡ 0 = omega arith in
          subst
            (λ (n : ℕ).
              let t = insert_knots o a source tol n 2 target in
              IsGrown from t × Keeps target t × Covers tol source t)
            (sym e)
            (unfold insert_knots in
              (g, λ k m h. h, λ i inner. absurd (omega (arith, inner.0, inner.1))))
    ]

    -- The knots of all the others go into the first.
    pub insert_all-Covers :
        (ss : List S) (f first : S)
        → ((s : S) → In s ss → IsGrown s s)
        → In f all
        → IsGrown f first
        → let t = insert_all o a ss tol first in
          IsGrown f t × Keeps first t × ((s : S) → In s ss → Covers tol s t)
    unfolding insert_all
    insert_all-Covers [] f first sources member g = (g, λ k m h. h, λ s w. elim w [ ])
    insert_all-Covers (s ∷ ss) f first sources member g =
        let next = insert_knots o a s tol (a.nb_knots s - 2) 2 first in
        let t = insert_all o a ss tol next in
        let (grown, keeps, covers) =
          insert_knots-Covers s f first (sources s (inl refl)) member g in
        let (grown', keeps', covers') =
          insert_all-Covers ss f next (λ x w. sources x (inr w)) member grown in
        (
          grown',
          λ k m h. keeps' k m (keeps k m h),
          λ x w. elim w [
            | inl e ↦
                subst (λ (y : S). Covers tol y t) (sym e)
                  (λ i inner.
                    Keeps-NearKnot tol next t (a.knot s i) (a.multiplicity s i) keeps'
                      (covers i inner))
            | inr v ↦ covers' x v
          ],
        )
