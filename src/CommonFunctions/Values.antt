-- ===== src/CommonFunctions/Values.antt =====
-- `Clamp`, `LinspaceWithBreaks`, `GetMinMaxPoint`, `IsPathRelative` and `FileExtension`. A file name is
-- a list of bytes.
use geoml.Common.{
  ℕ, ◌≡◌, ◌≢◌, ◌⊎◌, inl, inr, refl, sym, ◌∙◌, Bool, true, false, if◌then◌else◌, ◌==◌, List, [], ◌∷◌,
  ◌++◌, In, Option, none, some, arith, Bool-cases,
}
use geoml.Common.Real.{Real, IsOrder, Le, Le-refl}
use geoml.Common.Result.{Result, ok, err}

-- The exception of `Clamp`.
pub data ClampError : Type 0 where
  min_above_max : ClampError

module _ {ℓ} {W : Type ℓ} (o : Real W) where
  -- `std::max(min, std::min(val, max))`
  unfoldable pub clamp : (val min max : W) → Result ClampError W
  clamp val min max =
      let low = if o.gt val max then max else val in
      if o.gt min max then err min_above_max else ok (if o.gt low min then low else min)

  clamp_value :
      (laws : IsOrder o) (val min max : W)
      → o.gt min max ≡ false
      → (v : W) × (clamp val min max ≡ ok v)
        × Le o min v
        × Le o v max
        × (Le o min val → Le o val max → (v ≡ val) ⊎ ((v ≡ min) × Le o val min))
  unfolding clamp
  clamp_value laws val min max h = elim (Bool-cases (o.gt val max)) [
    | inl e ↦ elim (Bool-cases (o.gt max min)) [
      | inl f ↦ (max, rw (h, e, f) refl, h, Le-refl o laws max, λ a b. absurd (ground arith))
      | inr f ↦ (min, rw (h, e, f) refl, Le-refl o laws min, h, λ a b. absurd (ground arith))
    ]
    | inr e ↦ elim (Bool-cases (o.gt val min)) [
      | inl f ↦ (val, rw (h, e, f) refl, laws.asymm val min f, e, λ a b. inl refl)
      | inr f ↦ (min, rw (h, e, f) refl, Le-refl o laws min, h, λ a b. inr (refl, f))
    ]
  ]

  -- `Clamp` throws just where the minimum is greater than the maximum. Else its result is between the
  -- two, and a value between them is returned as it is, or as a minimum that it does not exceed.
  pub clamp_cases :
      (laws : IsOrder o) (val min max : W)
      → ((o.gt min max ≡ true) × (clamp val min max ≡ err min_above_max))
        ⊎ ((v : W) × (clamp val min max ≡ ok v)
            × Le o min v
            × Le o v max
            × (Le o min val → Le o val max → (v ≡ val) ⊎ ((v ≡ min) × Le o val min)))
  unfolding clamp
  clamp_cases laws val min max = elim (Bool-cases (o.gt min max)) [
    | inl h ↦ inl (h, rw h refl)
    | inr h ↦ inr (clamp_value laws val min max h)
  ]

-- `IsPathRelative`, other than on Windows; 47 is '/'.
unfoldable pub is_path_relative : List ℕ → Bool
is_path_relative [] = true
is_path_relative (c ∷ cs) = if c == 47 then false else true

-- `substr(find_last_of(".") + 1)`, where there is a '.', which is 46.
unfoldable pub after_last_dot : List ℕ → Option (List ℕ)
after_last_dot [] = none
after_last_dot (c ∷ cs) = last_dot (c == 46) cs (after_last_dot cs)
  where
    last_dot : Bool → List ℕ → Option (List ℕ) → Option (List ℕ)
    last_dot dot cs (some e) = some e
    last_dot true cs none = some cs
    last_dot false cs none = none

unfoldable pub file_extension : List ℕ → List ℕ
unfolding after_last_dot
file_extension name = elim (after_last_dot name) [ none ↦ [] | some e ↦ e ]

-- No '.' in the name.
abbrev pub NoDot : List ℕ → Type 0
NoDot cs = (c : ℕ) → In c cs → c ≢ 46

after_last_dot-none : (e : List ℕ) → NoDot e → after_last_dot e ≡ none
unfolding after_last_dot
after_last_dot-none [] h = refl
after_last_dot-none (c ∷ cs) h =
    let t : (c == 46) ≡ false = ground (arith, h c (inl refl)) in
    rw (t, after_last_dot-none cs (λ d k. h d (inr k))) refl

after_last_dot-found : (base e : List ℕ) → NoDot e → after_last_dot (base ++ 46 ∷ e) ≡ some e
unfolding after_last_dot
after_last_dot-found [] e h = rw (after_last_dot-none e h) refl
after_last_dot-found (c ∷ cs) e h = rw (after_last_dot-found cs e h) refl

-- The extension of a name that ends with a dot and bytes without a dot is those bytes, and that of a
-- name without a dot is empty.
pub file_extension_cases :
    (base e : List ℕ) → NoDot e → (file_extension (base ++ 46 ∷ e) ≡ e) × (file_extension e ≡ [])
unfolding file_extension
file_extension_cases base e h = (
  rw (after_last_dot-found base e h, file_extension) refl,
  rw (after_last_dot-none e h, file_extension) refl,
)

-- `GetMinMaxPoint` over the points of the vertices; `along p q` is the product of the vector from `p`
-- to `q` with the direction.
module _ {ℓ κ} {W : Type ℓ} {P : Type κ} (o : Real W) (zero_value : W) (along : P → P → W) where
  unfoldable pub min_max_loop : (min_pnt max_pnt : P) → List P → P × P
  min_max_loop min_pnt max_pnt [] = (min_pnt, max_pnt)
  min_max_loop min_pnt max_pnt (p ∷ ps) =
      min_max_loop (if o.gt zero_value (along min_pnt p) then p else min_pnt)
        (if o.gt zero_value (along p max_pnt) then p else max_pnt) ps

  unfoldable pub get_min_max_point : List P → Option (P × P)
  unfolding min_max_loop
  get_min_max_point [] = none
  get_min_max_point (p ∷ ps) = some (min_max_loop p p ps)

  -- `along` is the difference of two heights.
  abbrev pub IsHeight : (P → W) → Type κ
  IsHeight height = (p q : P) → o.gt zero_value (along p q) ≡ o.gt (height p) (height q)

  min_max_loop_bounds :
      (laws : IsOrder o) (height : P → W)
      → IsHeight height
      → (low high : P) (ps : List P)
      → let (a, b) = min_max_loop low high ps in
        Le o (height a) (height low)
        × Le o (height high) (height b)
        × ((p : P) → In p ps → Le o (height a) (height p) × Le o (height p) (height b))
        × ((a ≡ low) ⊎ In a ps)
        × ((b ≡ high) ⊎ In b ps)
  unfolding min_max_loop
  min_max_loop_bounds laws height heights low high [] = (
    Le-refl o laws (height low),
    Le-refl o laws (height high),
    λ p k. elim k [ ],
    inl refl,
    inl refl,
  )
  min_max_loop_bounds laws height heights low high (p ∷ ps) =
      let l = if o.gt zero_value (along low p) then p else low in
      let h = if o.gt zero_value (along p high) then p else high in
      let (a, b, c, d, e) = min_max_loop_bounds laws height heights l h ps in
      let (a0, a1, a2) = lower laws height heights low p in
      let (b0, b1, b2) = higher laws height heights high p in
      let r = min_max_loop l h ps in
      (
        laws.le_trans (height r.0) (height l) (height low) a a0,
        laws.le_trans (height high) (height h) (height r.1) b0 b,
        λ q k. elim k [
          | inr w ↦ c q w
          | inl w ↦ rw w (
            laws.le_trans (height r.0) (height l) (height p) a a1,
            laws.le_trans (height p) (height h) (height r.1) b1 b,
          )
        ],
        from low p ps d a2,
        from high p ps e b2,
      )
    where
      lower :
          (laws : IsOrder o) (height : P → W)
          → IsHeight height
          → (low p : P)
          → let l = if o.gt zero_value (along low p) then p else low in
            Le o (height l) (height low) × Le o (height l) (height p) × ((l ≡ low) ⊎ (l ≡ p))
      lower laws height heights low p = elim (Bool-cases (o.gt zero_value (along low p))) [
        | inl e ↦ rw e (
          laws.asymm (height low) (height p) (sym (heights low p) ∙ e),
          Le-refl o laws (height p),
          inr refl,
        )
        | inr e ↦ rw e (Le-refl o laws (height low), sym (heights low p) ∙ e, inl refl)
      ]

      higher :
          (laws : IsOrder o) (height : P → W)
          → IsHeight height
          → (high p : P)
          → let h = if o.gt zero_value (along p high) then p else high in
            Le o (height high) (height h) × Le o (height p) (height h) × ((h ≡ high) ⊎ (h ≡ p))
      higher laws height heights high p = elim (Bool-cases (o.gt zero_value (along p high))) [
        | inl e ↦ rw e (
          laws.asymm (height p) (height high) (sym (heights p high) ∙ e),
          Le-refl o laws (height p),
          inr refl,
        )
        | inr e ↦ rw e (Le-refl o laws (height high), sym (heights p high) ∙ e, inl refl)
      ]

      from :
          (x p : P) (ps : List P) {a l : P}
          → (a ≡ l) ⊎ In a ps
          → (l ≡ x) ⊎ (l ≡ p)
          → (a ≡ x) ⊎ In a (p ∷ ps)
      from x p ps (inr k) s = inr (inr k)
      from x p ps (inl e) (inl f) = inl (e ∙ f)
      from x p ps (inl e) (inr f) = inr (inl (e ∙ f))

  -- Where the product with the direction is the difference of the heights of two points,
  -- `GetMinMaxPoint` finds a lowest and a highest of the points, and says that there is none just for a
  -- shape without points.
  pub get_min_max_point-bounds :
      (laws : IsOrder o) (height : P → W) (ps : List P)
      → IsHeight height
      → ((ps ≡ []) × (get_min_max_point ps ≡ none))
        ⊎ ((low : P) × (high : P) × (get_min_max_point ps ≡ some (low, high))
            × In low ps
            × In high ps
            × ((p : P) → In p ps → Le o (height low) (height p) × Le o (height p) (height high)))
  unfolding get_min_max_point
  get_min_max_point-bounds laws height [] heights = inl (refl, refl)
  get_min_max_point-bounds laws height (p ∷ ps) heights =
      let (a, b, c, d, e) = min_max_loop_bounds laws height heights p p ps in
      let r = min_max_loop p p ps in
      inr (r.0, r.1, refl, d, e, λ q k. elim k [ inl w ↦ rw w (a, b) | inr w ↦ c q w ])
