-- ===== src/Common/Reorder.antt =====
-- Arrays as functions of the index: the exchange of two entries, and reorderings of the indices.
use geoml.Common.Tests.{◌==◌, if◌then◌else◌}
use Prim.Native.Nat.{ℕ, ◌<◌}
use mathlib.Core.Path.{◌≡◌, refl, ap, ◌∙◌}
use native.Mathlib.Omega.{arith}

-- `std::swap(v[i], v[j])`
unfoldable pub swap {ℓ} : {A : Type ℓ} → (ℕ → A) → ℕ → ℕ → ℕ → A
swap v i j k = if k == i then v j else if k == j then v i else v k

-- A reordering of the indices below `n`, with its inverse.
pub record Reorder (n : ℕ) : Type 0 where
  pub to : ℕ → ℕ
  pub from : ℕ → ℕ
  pub to_lt : (i : ℕ) → i < n → to i < n
  pub from_lt : (i : ℕ) → i < n → from i < n
  pub to_from : (i : ℕ) → to (from i) ≡ i
  pub from_to : (i : ℕ) → from (to i) ≡ i

unfoldable pub same_order : (n : ℕ) → Reorder n
same_order n = record {
  to = λ i. i;
  from = λ i. i;
  to_lt = λ i h. h;
  from_lt = λ i h. h;
  to_from = λ i. refl;
  from_to = λ i. refl;
}

-- `r` after `q`: index `i` comes from `q.to (r.to i)`.
unfoldable pub after : {n : ℕ} → Reorder n → Reorder n → Reorder n
after q r = record {
  to = λ i. q.to (r.to i);
  from = λ i. r.from (q.from i);
  to_lt = λ i h. q.to_lt _ (r.to_lt i h);
  from_lt = λ i h. r.from_lt _ (q.from_lt i h);
  to_from = λ i. ap q.to (r.to_from (q.from i)) ∙ q.to_from i;
  from_to = λ i. ap r.from (q.from_to (r.to i)) ∙ r.from_to i;
}

pub swap-lt : (n a b i : ℕ) → a < n → b < n → i < n → swap (λ k. k) a b i < n
unfolding swap
swap-lt n a b i ha hb hi = ground arith

pub swap-swap : (a b i : ℕ) → swap (λ k. k) a b (swap (λ k. k) a b i) ≡ i
unfolding swap
swap-swap a b i = ground arith

pub swap-index {ℓ} : {A : Type ℓ} (v : ℕ → A) (a b i : ℕ) → swap v a b i ≡ v (swap (λ k. k) a b i)
unfolding swap
swap-index v a b i = ground arith

unfoldable pub exchange : (n a b : ℕ) → a < n → b < n → Reorder n
exchange n a b ha hb = record {
  to = swap (λ k. k) a b;
  from = swap (λ k. k) a b;
  to_lt = λ i h. swap-lt n a b i ha hb h;
  from_lt = λ i h. swap-lt n a b i ha hb h;
  to_from = swap-swap a b;
  from_to = swap-swap a b;
}
