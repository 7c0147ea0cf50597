-- ===== src/Geometry/Point.antt =====
-- src/geometry/Point.{h,cpp}: points and their products. Arithmetic is exact; `sqrt`, the quotient
-- and the order of the doubles are parameters.
use geoml.Common.{
  ◌≡◌, refl, sym, ◌∙◌, ap, Bool, true, false, if◌then◌else◌, Bool-cases, ◌⊎◌, inl, inr,
}
use geoml.Common.Real.{Real, IsOrder, Le, Le-refl}
use geoml.Common.Ring.{Ring, IsRing, zero_add, mul_zero}

pub record Point {ℓ} (W : Type ℓ) : Type ℓ where
  pub x : W
  pub y : W
  pub z : W

module _ {ℓ} {W : Type ℓ} (r : Ring W) where
  unfoldable pub sub : W → W → W
  sub a b = r.add a (r.neg b)

  -- `operator+` and `operator+=`
  unfoldable pub plus : Point W → Point W → Point W
  plus p q = record { x = r.add p.x q.x; y = r.add p.y q.y; z = r.add p.z q.z }

  -- `operator-` and `operator-=`
  unfoldable pub minus : Point W → Point W → Point W
  unfolding sub
  minus p q = record { x = sub p.x q.x; y = sub p.y q.y; z = sub p.z q.z }

  -- `operator*`
  unfoldable pub times : Point W → W → Point W
  times p s = record { x = r.mul p.x s; y = r.mul p.y s; z = r.mul p.z s }

  unfoldable pub norm2_sqr : Point W → W
  norm2_sqr p = r.add (r.add (r.mul p.x p.x) (r.mul p.y p.y)) (r.mul p.z p.z)

  unfoldable pub norm2 : (sqrt : W → W) → Point W → W
  norm2 sqrt p = sqrt (r.add (r.add (r.mul p.x p.x) (r.mul p.y p.y)) (r.mul p.z p.z))

  unfoldable pub inner_prod : Point W → Point W → W
  inner_prod a b = r.add (r.add (r.mul a.x b.x) (r.mul a.y b.y)) (r.mul a.z b.z)

  unfoldable pub cross_prod : Point W → Point W → Point W
  unfolding sub
  cross_prod a b = record {
    x = sub (r.mul a.y b.z) (r.mul a.z b.y);
    y = sub (r.mul a.z b.x) (r.mul a.x b.z);
    z = sub (r.mul a.x b.y) (r.mul a.y b.x);
  }

  unfoldable pub scalar_projection : (sqrt : W → W) (div : W → W → W) → Point W → Point W → W
  unfolding inner_prod norm2
  scalar_projection sqrt div a b = div (inner_prod a b) (norm2 sqrt b)

  unfoldable pub vector_projection : (div : W → W → W) → Point W → Point W → Point W
  unfolding inner_prod norm2_sqr times
  vector_projection div a b = times b (div (inner_prod a b) (norm2_sqr b))

  unfoldable pub distance2 : Point W → Point W → W
  unfolding sub
  distance2 p q =
      r.add (r.add (r.mul (sub p.x q.x) (sub p.x q.x)) (r.mul (sub p.y q.y) (sub p.y q.y)))
        (r.mul (sub p.z q.z) (sub p.z q.z))

module _ {ℓ} {W : Type ℓ} (o : Real W) where
  abbrev lower : W → W → W
  lower a b = if o.gt a b then b else a

  abbrev higher : W → W → W
  higher a b = if o.gt b a then b else a

  lower-Le : IsOrder o → (a b : W) → Le o (lower a b) a × Le o (lower a b) b
  lower-Le laws a b = elim (Bool-cases (o.gt a b)) [
    | inl e ↦ rw e (laws.asymm a b e, Le-refl o laws b)
    | inr e ↦ rw e (Le-refl o laws a, e)
  ]

  Le-higher : IsOrder o → (a b : W) → Le o a (higher a b) × Le o b (higher a b)
  Le-higher laws a b = elim (Bool-cases (o.gt b a)) [
    | inl e ↦ rw e (laws.asymm b a e, Le-refl o laws b)
    | inr e ↦ rw e (Le-refl o laws a, e)
  ]

  unfoldable pub get_min : Point W → W
  get_min p =
      let min = p.x in
      let min = if o.gt min p.y then p.y else min in if o.gt min p.z then p.z else min

  unfoldable pub get_max : Point W → W
  get_max p =
      let max = p.x in
      let max = if o.gt p.y max then p.y else max in if o.gt p.z max then p.z else max

  -- `getMinMax`
  unfoldable pub get_min_max : Point W → W × W
  unfolding get_min get_max
  get_min_max p = (get_min p, get_max p)

  abbrev pub IsCoordinate : W → Point W → Type ℓ
  IsCoordinate a p = (a ≡ p.x) ⊎ (a ≡ p.y) ⊎ (a ≡ p.z)

  -- `getMinMax` gives two of the coordinates, and all three lie between them, where the order of
  -- the doubles is total (no NaN).
  pub get_min_max-bounds :
      (laws : IsOrder o) (p : Point W)
      → let (low, high) = get_min_max p in
        IsCoordinate low p
        × IsCoordinate high p
        × Le o low p.x
        × Le o low p.y
        × Le o low p.z
        × Le o p.x high
        × Le o p.y high
        × Le o p.z high
  unfolding get_min_max get_min get_max
  get_min_max-bounds laws p =
      let (low, low_z) = lower-Le laws (lower p.x p.y) p.z in
      let (low_x, low_y) = lower-Le laws p.x p.y in
      let (high, high_z) = Le-higher laws (higher p.x p.y) p.z in
      let (high_x, high_y) = Le-higher laws p.x p.y in
      (
        lowest,
        highest,
        laws.le_trans _ _ _ low low_x,
        laws.le_trans _ _ _ low low_y,
        low_z,
        laws.le_trans _ _ _ high_x high,
        laws.le_trans _ _ _ high_y high,
        high_z,
      )
    where
      one_of : (c : Bool) (a b : W) → ((if c then b else a) ≡ a) ⊎ ((if c then b else a) ≡ b)
      one_of true a b = inr refl
      one_of false a b = inl refl

      third_or :
          (a b c d : W) → (d ≡ a) ⊎ (d ≡ b) → (a ≡ p.x) ⊎ (a ≡ p.y) → b ≡ p.z → IsCoordinate d p
      third_or a b c d (inl e) (inl f) g = inl (e ∙ f)
      third_or a b c d (inl e) (inr f) g = inr (inl (e ∙ f))
      third_or a b c d (inr e) f g = inr (inr (e ∙ g))

      lowest : IsCoordinate (lower (lower p.x p.y) p.z) p
      lowest =
          third_or _ _ p.z _ (one_of (o.gt (lower p.x p.y) p.z) (lower p.x p.y) p.z)
            (one_of (o.gt p.x p.y) p.x p.y) refl

      highest : IsCoordinate (higher (higher p.x p.y) p.z) p
      highest =
          third_or _ _ p.z _ (one_of (o.gt p.z (higher p.x p.y)) (higher p.x p.y) p.z)
            (one_of (o.gt p.y p.x) p.x p.y) refl

module _ {ℓ} {W : Type ℓ} {r : Ring W} (laws : IsRing r) where
  -- An opposite is determined by its sum with the thing.
  neg_unique : (a b : W) → r.add a b ≡ r.zero → b ≡ r.neg a
  neg_unique a b h =
      sym (zero_add laws b)
      ∙ ap (λ (x : W). r.add x b) (sym (laws.add_neg a) ∙ laws.add_comm a (r.neg a))
      ∙ laws.add_assoc (r.neg a) a b
      ∙ ap (r.add (r.neg a)) h
      ∙ laws.add_zero (r.neg a)

  mul-neg : (a b : W) → r.mul a (r.neg b) ≡ r.neg (r.mul a b)
  mul-neg a b =
      neg_unique (r.mul a b) (r.mul a (r.neg b))
        (sym (laws.mul_add a b (r.neg b)) ∙ ap (r.mul a) (laws.add_neg b) ∙ mul_zero laws a)

  mul-sub : (a b c : W) → r.mul a (sub r b c) ≡ sub r (r.mul a b) (r.mul a c)
  unfolding sub
  mul-sub a b c = laws.mul_add a b (r.neg c) ∙ ap (r.add (r.mul a b)) (mul-neg a c)

  mul_left_comm : (a b c : W) → r.mul a (r.mul b c) ≡ r.mul b (r.mul a c)
  mul_left_comm a b c =
      sym (laws.mul_assoc a b c)
      ∙ ap (λ (x : W). r.mul x c) (laws.mul_comm a b)
      ∙ laws.mul_assoc b a c

  -- Differences that follow each other add up.
  sub-chain : (a b c : W) → r.add (sub r a b) (sub r b c) ≡ sub r a c
  unfolding sub
  sub-chain a b c =
      laws.add_assoc a (r.neg b) (r.add b (r.neg c))
      ∙ ap (r.add a) (
          sym (laws.add_assoc (r.neg b) b (r.neg c))
          ∙ ap (λ (x : W). r.add x (r.neg c)) (laws.add_comm (r.neg b) b ∙ laws.add_neg b)
          ∙ zero_add laws (r.neg c))

  circle : (a b c : W) → r.add (r.add (sub r a b) (sub r b c)) (sub r c a) ≡ r.zero
  unfolding sub
  circle a b c =
      ap (λ (x : W). r.add x (sub r c a)) (sub-chain a b c) ∙ sub-chain a c a ∙ laws.add_neg a

  circle_back : (a b c : W) → r.add (r.add (sub r a b) (sub r c a)) (sub r b c) ≡ r.zero
  circle_back a b c =
      laws.add_assoc (sub r a b) (sub r c a) (sub r b c)
      ∙ ap (r.add (sub r a b)) (laws.add_comm (sub r c a) (sub r b c))
      ∙ sym (laws.add_assoc (sub r a b) (sub r b c) (sub r c a))
      ∙ circle a b c

  -- The cross product is orthogonal to both of its factors, if arithmetic is exact.
  pub inner_prod-cross_prod :
      (a b : Point W)
      → (inner_prod r a (cross_prod r a b) ≡ r.zero) × (inner_prod r b (cross_prod r a b) ≡ r.zero)
  unfolding inner_prod cross_prod sub
  inner_prod-cross_prod a b = (
    sum_of (term a.x refl refl) (term a.y refl (mul_left_comm a.y a.x b.z))
          (term a.z (mul_left_comm a.z a.x b.y) (mul_left_comm a.z a.y b.x))
        ∙ circle_back (r.mul a.x (r.mul a.y b.z)) (r.mul a.x (r.mul a.z b.y))
            (r.mul a.y (r.mul a.z b.x)),
    sum_of (term b.x (outer a.y b.x b.z) (outer a.z b.x b.y)) (term b.y refl (outer a.x b.y b.z))
          (term b.z refl refl)
        ∙ circle (r.mul b.z (r.mul a.y b.x)) (r.mul b.y (r.mul a.z b.x))
            (r.mul b.z (r.mul a.x b.y)),
  )
    where
      sum_of :
          {x x' y y' z z' : W}
          → x ≡ x'
          → y ≡ y'
          → z ≡ z'
          → r.add (r.add x y) z ≡ r.add (r.add x' y') z'
      sum_of e f g = rw (e, f, g) refl

      term :
          (c : W) {p p' q q' : W}
          → r.mul c p ≡ p'
          → r.mul c q ≡ q'
          → r.mul c (sub r p q) ≡ sub r p' q'
      term c {p} {p'} {q} {q'} e f =
          mul-sub c p q ∙ ap (λ (x : W). sub r x (r.mul c q)) e ∙ ap (sub r p') f

      outer : (m c d : W) → r.mul c (r.mul m d) ≡ r.mul d (r.mul m c)
      outer m c d =
          ap (r.mul c) (laws.mul_comm m d) ∙ mul_left_comm c d m ∙ ap (r.mul d) (laws.mul_comm c m)
