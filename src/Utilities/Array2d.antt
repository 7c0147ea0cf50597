-- ===== src/Utilities/Array2d.antt =====
-- src/geoml/data_structures/Array2d.h: a matrix in one vector, row by row. The indices are numbers
-- that are not negative; `none` is the exception that `vector::at` throws.
use geoml.Common.{
  ℕ, zero, suc, ◌+◌, ◌*◌, ◌≤◌, ◌<◌, ◌≡◌, refl, sym, ◌∙◌, ap, Option, none, some, List, [], ◌∷◌,
  arith, ltb, if◌then◌else◌, length, get_elem?, set, replicate, length-set, length-replicate,
  get_elem?-set_self, get_elem?-set_ne, get_elem?-some, dec_lt, ◌≢◌, ◌⊎◌, inl, inr,
}

pub record Array2d {ℓ} (T : Type ℓ) : Type ℓ where
  pub rows : ℕ
  pub cols : ℕ
  pub flat_data : List T

infixl 5 ◌>>=◌
abbrev ◌>>=◌ {ℓ κ} : {A : Type ℓ} {B : Type κ} → Option A → (A → Option B) → Option B
none >>= f = none
some a >>= f = f a

flat_in_range : (r c m n : ℕ) → r < m → c < n → r * n + c < m * n
flat_in_range r c m n h k = grind arith

flat_lt : (r c r' c' n : ℕ) → r < r' → c < n → r * n + c < r' * n + c'
flat_lt r c r' c' n h k = omega (arith, flat_in_range r c r' n h k)

-- Two positions inside the array have one index only if they are one position.
flat_injective : (r c r' c' n : ℕ) → c < n → c' < n → r * n + c ≡ r' * n + c' → (r ≡ r') × (c ≡ c')
flat_injective r c r' c' n h k e = elim (dec_lt r r') [
  | yes lt ↦ absurd (omega (arith, flat_lt r c r' c' n lt h))
  | no ge ↦ elim (dec_lt r' r) [
    | yes gt ↦ absurd (omega (arith, flat_lt r' c' r c n gt k))
    | no le ↦ let same : r ≡ r' = omega arith in (same, omega (arith, ap (λ (x : ℕ). x * n) same))
  ]
]

module _ {ℓ} {T : Type ℓ} where
  -- The constructor; `initial` is `T()`.
  unfoldable pub new_array : T → ℕ → ℕ → Array2d T
  new_array initial rows cols = record {
    rows = rows;
    cols = cols;
    flat_data = replicate (rows * cols) initial;
  }

  unfoldable pub at : Array2d T → ℕ → ℕ → Option T
  at a row col = get_elem? a.flat_data (row * a.cols + col)

  unfoldable pub set_value : Array2d T → ℕ → ℕ → T → Option (Array2d T)
  set_value a row col input =
      if ltb (row * a.cols + col) (length a.flat_data)
      then some (record a { flat_data = set a.flat_data (row * a.cols + col) input })
      else none

  unfoldable pub row_length : Array2d T → ℕ
  row_length a = a.rows

  unfoldable pub col_length : Array2d T → ℕ
  col_length a = a.cols

  -- The loop of `getRow`, from column `j` with `n` columns to go.
  unfoldable pub row_from : Array2d T → ℕ → (n j : ℕ) → Option (List T)
  unfolding at
  row_from a index zero j = some []
  row_from a index (suc n) j = do x ← at a index j; xs ← row_from a index n (j + 1); some (x ∷ xs)

  unfoldable pub get_row : Array2d T → ℕ → Option (List T)
  unfolding row_from
  get_row a index = row_from a index a.cols 0

  unfoldable pub col_from : Array2d T → ℕ → (n i : ℕ) → Option (List T)
  unfolding at
  col_from a index zero i = some []
  col_from a index (suc n) i = do x ← at a i index; xs ← col_from a index n (i + 1); some (x ∷ xs)

  unfoldable pub get_col : Array2d T → ℕ → Option (List T)
  unfolding col_from
  get_col a index = col_from a index a.rows 0

  -- The vector has room for all entries.
  abbrev pub IsValid : Array2d T → Type 0
  IsValid a = length a.flat_data ≡ a.rows * a.cols

  pub new_array-IsValid : (initial : T) (rows cols : ℕ) → IsValid (new_array initial rows cols)
  unfolding new_array
  new_array-IsValid initial rows cols = length-replicate (rows * cols) initial

  -- Every position inside a valid array has an entry.
  pub at-some :
      (a : Array2d T) (r c : ℕ)
      → IsValid a
      → r < a.rows
      → c < a.cols
      → (x : T) × (at a r c ≡ some x)
  unfolding at
  at-some a r c v hr hc =
      get_elem?-some a.flat_data (r * a.cols + c)
        (omega (arith, v, flat_in_range r c a.rows a.cols hr hc))

  -- Where the vector has an entry for each position, a write inside the array succeeds, keeps that
  -- so and the two sizes, stores the value at its position, and changes no entry at another
  -- position whose column is inside the array.
  pub at-set_value :
      (a : Array2d T) (r c : ℕ) (x : T)
      → IsValid a
      → r < a.rows
      → c < a.cols
      → (b : Array2d T) × (set_value a r c x ≡ some b)
        × IsValid b
        × (b.rows ≡ a.rows)
        × (b.cols ≡ a.cols)
        × (at b r c ≡ some x)
        × ((r' c' : ℕ) → c' < a.cols → (r ≢ r') ⊎ (c ≢ c') → at b r' c' ≡ at a r' c')
  unfolding at set_value
  at-set_value a r c x v hr hc =
      let k = r * a.cols + c in
      let fits : k < length a.flat_data = omega (arith, v, flat_in_range r c a.rows a.cols hr hc) in
      (
        record a { flat_data = set a.flat_data k x },
        ground arith,
        length-set a.flat_data k x ∙ v,
        refl,
        refl,
        get_elem?-set_self a.flat_data k x fits,
        λ r' c' h d. get_elem?-set_ne a.flat_data x (λ e. elim d [
          | inl ne ↦ ne (flat_injective r c r' c' a.cols hc h e).0
          | inr ne ↦ ne (flat_injective r c r' c' a.cols hc h e).1
        ]),
      )

  row_from-at :
      (a : Array2d T) (i n j : ℕ)
      → IsValid a
      → i < a.rows
      → j + n ≤ a.cols
      → (xs : List T) × (row_from a i n j ≡ some xs)
        × (length xs ≡ n)
        × ((k : ℕ) → k < n → get_elem? xs k ≡ at a i (j + k))
  unfolding row_from
  row_from-at a i zero j v hi h = ([], refl, refl, λ k b. absurd (omega arith))
  row_from-at a i (suc n) j v hi h =
      let (x, e) = at-some a i j v hi (omega arith) in
      let (xs, e', m, same) = row_from-at a i n (j + 1) v hi (omega arith) in
      (x ∷ xs, rw (e, e') refl, ap suc m, entry x xs e same)
    where
      entry :
          (x : T) (xs : List T)
          → at a i j ≡ some x
          → ((k : ℕ) → k < n → get_elem? xs k ≡ at a i (j + 1 + k))
          → (k : ℕ) → k < suc n
          → get_elem? (x ∷ xs) k ≡ at a i (j + k)
      entry x xs e same zero b = sym e ∙ ap (at a i) (omega arith)
      entry x xs e same (suc k) b = same k (omega arith) ∙ ap (at a i) (omega arith)

  -- Where the vector has an entry for each position, `getRow` of a row inside the array returns as
  -- many values as there are columns, each the entry at its position.
  pub get_row-at :
      (a : Array2d T) (i : ℕ)
      → IsValid a
      → i < a.rows
      → (xs : List T) × (get_row a i ≡ some xs)
        × (length xs ≡ a.cols)
        × ((j : ℕ) → j < a.cols → get_elem? xs j ≡ at a i j)
  unfolding get_row
  get_row-at a i v h =
      let (xs, e, m, same) = row_from-at a i a.cols 0 v h (omega arith) in
      (xs, e, m, λ j b. same j b ∙ ap (at a i) (omega arith))
