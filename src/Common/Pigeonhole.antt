-- ===== src/Common/Pigeonhole.antt =====
-- More places than values: some value comes twice.
use geoml.Common.Tests.{◌==◌, if◌then◌else◌}
use Prim.Native.Nat.{ℕ, zero, suc, ◌≤◌, ◌<◌}
use mathlib.Core.Path.{◌≡◌, refl, sym, ◌∙◌}
use mathlib.Core.Logic.{◌≢◌, ◌⊎◌, inl, inr}
use mathlib.Core.Bool.{true, false}
use native.Mathlib.Omega.{arith}
unfoldable use native.Mathlib.Decide.{ℕ_discrete}

-- The value `n` gives way to `c`.
abbrev without : (ℕ → ℕ) → (n c : ℕ) → ℕ → ℕ
without f n c k = if f k == n then c else f k

without_cases :
    (f : ℕ → ℕ) (n c k : ℕ)
    → ((f k ≡ n) × (without f n c k ≡ c)) ⊎ ((f k ≢ n) × (without f n c k ≡ f k))
without_cases f n c k = elim (ℕ_discrete (f k) n) [
  | yes e ↦ let t : (f k == n) ≡ true = ground arith in inl (e, rw t refl)
  | no ne ↦ let t : (f k == n) ≡ false = ground arith in inr (ne, rw t refl)
]

-- No function takes `n + 1` numbers to different numbers below `n`.
pub pigeonhole :
    (n : ℕ) (f : ℕ → ℕ) → ((k : ℕ) → k ≤ n → f k < n) → ((i j : ℕ) → i < j → j ≤ n → f i ≢ f j) → ⊥
pigeonhole zero f below different = absurd (omega (arith, below 0 (omega arith)))
pigeonhole (suc n) f below different = pigeonhole n (without f n (f (suc n))) smaller apart
  where
    last : (k : ℕ) → k ≤ n → f k ≢ f (suc n)
    last k h = different k (suc n) (omega arith) (omega arith)

    differs : (k : ℕ) → k ≤ n → f k ≡ n → n ≢ f (suc n)
    differs k h e q = last k h (e ∙ q)

    smaller : (k : ℕ) → k ≤ n → without f n (f (suc n)) k < n
    smaller k h = elim (without_cases f n (f (suc n)) k) [
      | inl (e, w) ↦ omega (arith, w, below (suc n) (omega arith), differs k h e)
      | inr (ne, w) ↦ omega (arith, w, ne, below k (omega arith))
    ]

    apart : (i j : ℕ) → i < j → j ≤ n → without f n (f (suc n)) i ≢ without f n (f (suc n)) j
    apart i j h k q = elim (without_cases f n (f (suc n)) i) [
      | inl (e, w) ↦ elim (without_cases f n (f (suc n)) j) [
        | inl (e', w') ↦ different i j h (omega arith) (e ∙ sym e')
        | inr (ne, w') ↦ last j k (sym w' ∙ sym q ∙ w)
      ]
      | inr (ne, w) ↦ elim (without_cases f n (f (suc n)) j) [
        | inl (e', w') ↦ last i (omega arith) (sym w ∙ q ∙ w')
        | inr (ne', w') ↦ different i j h (omega arith) (sym w ∙ q ∙ w')
      ]
    ]
