-- ===== src/Common/Map.antt =====
-- `std::map`: the entries in the order of their keys.
use geoml.Common.Tests.{if◌then◌else◌, ltb}
use Prim.Native.Nat.{ℕ}
use mathlib.Core.Path.{◌≡◌, refl, sym, subst}
use mathlib.Core.Bool.{Bool, true, false}
use mathlib.Core.Option.{Option, none, some}
use mathlib.Core.List.{List, [], ◌∷◌}
use native.Mathlib.Omega.{arith}

-- `operator<` of the keys.
pub record KeyOrder {ℓ} (K : Type ℓ) : Type ℓ where
  pub lt : K → K → Bool

-- A strict total order.
pub record IsKeyOrder {ℓ} {K : Type ℓ} (o : KeyOrder K) : Type ℓ where
  pub irrefl : (a : K) → o.lt a a ≡ false
  pub trans : (a b c : K) → o.lt a b ≡ true → o.lt b c ≡ true → o.lt a c ≡ true
  pub total : (a b : K) → o.lt a b ≡ false → o.lt b a ≡ false → a ≡ b

abbrev pub Map {ℓ κ} : Type ℓ → Type κ → Type (ℓ ⊔ κ)
Map K V = List (K × V)

-- Neither key is below the other.
abbrev pub same_key {ℓ} : {K : Type ℓ} → KeyOrder K → K → K → Bool
same_key o a b = if o.lt a b then false else if o.lt b a then false else true

module _ {ℓ κ} {K : Type ℓ} {V : Type κ} (o : KeyOrder K) where
  -- `m.find(k)`
  unfoldable pub lookup : K → Map K V → Option V
  lookup k [] = none
  lookup k ((j, v) ∷ m) = if o.lt k j then none else if o.lt j k then lookup k m else some v

  -- `m[k] = v`
  unfoldable pub assign : K → V → Map K V → Map K V
  assign k v [] = (k, v) ∷ []
  assign k v ((j, w) ∷ m) =
      if o.lt k j
      then (k, v) ∷ (j, w) ∷ m
      else if o.lt j k
      then (j, w) ∷ assign k v m
      else (k, v) ∷ m

  module _ (laws : IsKeyOrder o) where
    -- An assignment changes the entry of its key alone.
    pub lookup-assign :
        (k j : K) (v : V) (m : Map K V)
        → lookup j (assign k v m) ≡ (if same_key o j k then some v else lookup j m)
    unfolding lookup assign
    lookup-assign k j v [] = ground arith
    lookup-assign k j v ((i, w) ∷ m) = ground (
      arith,
      lookup-assign k j v m,
      laws.trans j k i,
      laws.trans k i j,
      laws.trans i k j,
      laws.trans j i k,
      laws.trans k j i,
      laws.total j k,
      laws.total i k,
      laws.total i j,
      laws.irrefl k,
      laws.irrefl j,
      laws.irrefl i,
    )

module _ {ℓ κ} {K : Type ℓ} {V : Type κ} (o : KeyOrder K) where
  -- The keys ascend.
  abbrev pub IsSorted : Map K V → Type 0
  IsSorted [] = Unit
  IsSorted ((k, v) ∷ []) = Unit
  IsSorted ((k, v) ∷ (j, w) ∷ m) = (o.lt k j ≡ true) × IsSorted ((j, w) ∷ m)

  pub IsSorted-tail : (k : K) (v : V) (m : Map K V) → IsSorted ((k, v) ∷ m) → IsSorted m
  IsSorted-tail k v [] h = tt
  IsSorted-tail k v ((j, w) ∷ m) (_, h) = h

  module _ (laws : IsKeyOrder o) where
    -- A key that is not above the first is not among the rest.
    pub lookup_below :
        (k n : K) (v : V) (m : Map K V)
        → IsSorted ((n, v) ∷ m)
        → o.lt n k ≡ false
        → lookup o k m ≡ none
    unfolding lookup
    lookup_below k n v [] h e = refl
    lookup_below k n v ((j, w) ∷ m) (a, h) e =
        ground (arith, laws.trans k n j, laws.total k n, below)
      where
        below : k ≡ n → o.lt k j ≡ true
        below e = subst (λ (x : K). o.lt x j ≡ true) (sym e) a

-- `std::string::operator<` on the bytes.
unfoldable pub lex : List ℕ → List ℕ → Bool
lex xs [] = false
lex [] (y ∷ ys) = true
lex (x ∷ xs) (y ∷ ys) = if ltb x y then true else if ltb y x then false else lex xs ys

lex_irrefl : (xs : List ℕ) → lex xs xs ≡ false
unfolding lex
lex_irrefl [] = refl
lex_irrefl (x ∷ xs) = ground (arith, lex_irrefl xs)

lex_trans : (xs ys zs : List ℕ) → lex xs ys ≡ true → lex ys zs ≡ true → lex xs zs ≡ true
unfolding lex
lex_trans xs ys [] h k = absurd cc
lex_trans xs [] (z ∷ zs) h k = absurd cc
lex_trans [] (y ∷ ys) (z ∷ zs) h k = refl
lex_trans (x ∷ xs) (y ∷ ys) (z ∷ zs) h k = ground (arith, lex_trans xs ys zs)

lex-total : (xs ys : List ℕ) → lex xs ys ≡ false → lex ys xs ≡ false → xs ≡ ys
unfolding lex
lex-total [] [] h k = refl
lex-total [] (y ∷ ys) h k = absurd cc
lex-total (x ∷ xs) [] h k = absurd cc
lex-total (x ∷ xs) (y ∷ ys) h k = ground (arith, lex-total xs ys)

abbrev pub bytes : KeyOrder (List ℕ)
bytes = record { lt = lex }

pub bytes-IsKeyOrder : IsKeyOrder bytes
bytes-IsKeyOrder = record { irrefl = lex_irrefl; trans = lex_trans; total = lex-total }
