-- ===== src/Utilities/FollowSort.antt =====
-- src/common/sorting.h: `rotate_right`, and `follow_sort`, which chains the elements of an array so
-- that each follows the one before it. The array is `v` below `n`; `none` is the exception.
pub mod Extend
pub mod Laws
use geoml.Common.{
  ℕ, zero, suc, ◌+◌, ◌-◌, ◌≤◌, ◌<◌, ◌≡◌, ◌≢◌, ◌⊎◌, inl, inr, refl, sym, ◌∙◌, ap, Bool, true, false,
  Option, none, some, arith, ◌==◌, if◌then◌else◌, Bool-cases, ℕ_discrete,
}
use geoml.Common.Reorder.{swap, swap-index, Reorder, same_order, after, exchange}

-- The array, the end of the chain, and `swapped`.
pub record Chain {ℓ} (A : Type ℓ) : Type ℓ where
  pub elements : ℕ → A
  pub sorted : ℕ
  pub swapped : Bool

module _ {ℓ} {A : Type ℓ} where
  -- `for (; begin != last; ++begin) swap(*begin, *last);` with `r` rounds to go
  unfoldable pub rotate_right : (r begin last : ℕ) → (ℕ → A) → ℕ → A
  unfolding swap
  rotate_right zero begin last v = v
  rotate_right (suc r) begin last v = rotate_right r (begin + 1) last (swap v begin last)

  -- The body of the `for` loop, at `it`.
  unfoldable pub extend : (A → A → Bool) → ℕ → Chain A → Chain A
  unfolding rotate_right
  extend follows it c =
      let v = c.elements in
      let s = c.sorted + 1 in
      if follows (v it) (v c.sorted)
      then record { elements = swap v it s; sorted = s; swapped = true }
      else if follows (v 0) (v it)
      then record { elements = rotate_right s 0 s (swap v it s); sorted = s; swapped = true }
      else c

  -- The `for` loop, from `it` with `r` elements to go.
  unfoldable pub sweep : (A → A → Bool) → (r it : ℕ) → Chain A → Chain A
  unfolding extend
  sweep follows zero it c = c
  sweep follows (suc r) it c = sweep follows r (it + 1) (extend follows it c)

  -- One round of the `while` loop.
  unfoldable pub follow_round : (A → A → Bool) → (n : ℕ) → Chain A → Chain A
  unfolding sweep
  follow_round follows n c =
      sweep follows (n - (c.sorted + 1)) (c.sorted + 1) (record c { swapped = false })

  -- The `while` loop on fuel. A round that swaps lengthens the chain, so `n` rounds are enough.
  unfoldable pub follow_loop : (A → A → Bool) → (fuel n : ℕ) → Chain A → Chain A
  unfolding follow_round
  follow_loop follows zero n c = c
  follow_loop follows (suc fuel) n c =
      let d = follow_round follows n c in
      let rest = follow_loop follows fuel n d in if d.swapped then rest else d

  unfoldable pub follow_sort : (A → A → Bool) → (n : ℕ) → (ℕ → A) → Option (ℕ → A)
  unfolding follow_loop
  follow_sort follows n v =
      let c = follow_loop follows n n (record { elements = v; sorted = 0; swapped = true }) in
      if c.sorted + 1 == n then some c.elements else none
