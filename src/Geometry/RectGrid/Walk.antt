-- ===== src/Geometry/RectGrid/Walk.antt =====
-- The loops that walk along the neighbours end, where the pointers are linked.
use geoml.Common.{
  ℕ, zero, suc, ◌+◌, ◌≤◌, ◌<◌, ◌≡◌, ◌≢◌, inl, inr, refl, sym, ◌∙◌, ap, Option, none, some, arith,
  Option-cases,
}
use geoml.Common.Pigeonhole.{pigeonhole}
use geoml.Geometry.RectGrid.{count_walk}

-- The face that a pointer goes to; a null pointer goes to face 0.
abbrev target : Option ℕ → ℕ
target none = 0
target (some k) = k

-- The face after `k` steps.
abbrev step_to : (ℕ → Option ℕ) → ℕ → ℕ → ℕ
step_to next s zero = s
step_to next s (suc k) = target (next (step_to next s k))

-- `k` steps forth from `from` are possible, and then none.
pub data Walk (next : ℕ → Option ℕ) : (from k : ℕ) → Type 0 where
  stop : {from : ℕ} → next from ≡ none → Walk next from 0
  step : {from other k : ℕ} → next from ≡ some other → Walk next other k → Walk next from (suc k)

step_to_later :
    (next : ℕ → Option ℕ) (s t k : ℕ) → next s ≡ some t → step_to next s (suc k) ≡ step_to next t k
step_to_later next s t zero e = rw e refl
step_to_later next s t (suc k) e = ap (λ (x : ℕ). target (next x)) (step_to_later next s t k e)

module _ (next : ℕ → Option ℕ) (fuel s c : ℕ) where
  count_walk_stop : next s ≡ none → count_walk next (suc fuel) s c ≡ some c
  unfolding count_walk
  count_walk_stop e = rw (e, count_walk) refl

  count_walk_step :
      {t : ℕ} → next s ≡ some t → count_walk next (suc fuel) s c ≡ count_walk next fuel t (c + 1)
  unfolding count_walk
  count_walk_step e = rw (e, count_walk) refl

some-same : {a b : ℕ} → ◌≡◌ {A = Option ℕ} (some a) (some b) → a ≡ b
some-same e = cc

-- A loop that runs out of fuel has gone as many steps.
endless_steps :
    (next : ℕ → Option ℕ) (fuel s c : ℕ)
    → count_walk next fuel s c ≡ none
    → (k : ℕ) → k < fuel
    → next (step_to next s k) ≡ some (step_to next s (suc k))
endless_steps next zero s c h k b = absurd (omega arith)
endless_steps next (suc fuel) s c h k b = elim (Option-cases (next s)) [
  | inl e ↦ absurd (ends e)
  | inr (t, e) ↦
      steps t e (endless_steps next fuel t (c + 1) (sym (count_walk_step next fuel s c e) ∙ h)) k b
]
  where
    ends : next s ≡ none → ⊥
    ends e =
        let f : ◌≡◌ {A = Option ℕ} (some c) none = sym (count_walk_stop next fuel s c e) ∙ h in cc

    steps :
        (t : ℕ)
        → next s ≡ some t
        → ((k : ℕ) → k < fuel → next (step_to next t k) ≡ some (step_to next t (suc k)))
        → (k : ℕ) → k < suc fuel
        → next (step_to next s k) ≡ some (step_to next s (suc k))
    steps t e later zero b = rw e refl
    steps t e later (suc k) b =
        ap next (step_to_later next s t k e)
        ∙ later k (omega arith)
        ∙ ap some (sym (step_to_later next s t (suc k) e))

-- A loop that ends has counted the steps.
pub count_walk-Walk :
    (next : ℕ → Option ℕ) (fuel s c n : ℕ)
    → count_walk next fuel s c ≡ some n
    → (k : ℕ) × Walk next s k × (n ≡ c + k) × (k < fuel)
unfolding count_walk
count_walk-Walk next zero s c n h = absurd cc
count_walk-Walk next (suc fuel) s c n h = elim (Option-cases (next s)) [
  | inl e ↦
      (0, stop e, omega (arith, some-same (sym (count_walk_stop next fuel s c e) ∙ h)), omega arith)
  | inr (t, e) ↦
      let (k, w, q, b) =
        count_walk-Walk next fuel t (c + 1) n (sym (count_walk_step next fuel s c e) ∙ h) in
      (suc k, step e w, omega arith, omega arith)
]

module _ (n : ℕ) (next prev : ℕ → Option ℕ) where
  -- Going back from where two walks of one start meet.
  meet :
      (s : ℕ)
      → ((i j : ℕ) → next i ≡ some j → prev j ≡ some i)
      → prev s ≡ none
      → (i j : ℕ) → i < j
      → ((k : ℕ) → k < j → next (step_to next s k) ≡ some (step_to next s (suc k)))
      → step_to next s i ≢ step_to next s j
  meet s back free zero (suc j) h steps e =
      absurd (two (back (step_to next s j) (step_to next s (suc j)) (steps j (omega arith))))
    where
      two : prev (step_to next s (suc j)) ≡ some (step_to next s j) → ⊥
      two p = let q : prev s ≡ some (step_to next s j) = ap prev e ∙ p in cc
  meet s back free i zero h steps e = absurd (omega arith)
  meet s back free (suc i) (suc j) h steps e =
      meet s back free i j (omega arith) (λ k b. steps k (omega arith))
        (one (back (step_to next s i) (step_to next s (suc i)) (steps i (omega arith)))
          (back (step_to next s j) (step_to next s (suc j)) (steps j (omega arith))))
    where
      one :
          prev (step_to next s (suc i)) ≡ some (step_to next s i)
          → prev (step_to next s (suc j)) ≡ some (step_to next s j)
          → step_to next s i ≡ step_to next s j
      one p q =
          let r : prev (step_to next s (suc j)) ≡ some (step_to next s i) = ap prev (sym e) ∙ p in
          cc

  -- A walk along pointers that lead back, among `n` faces from one that has none before it, ends
  -- within `n` rounds.
  pub count_walk_ends :
      (s c : ℕ)
      → ((i j : ℕ) → next i ≡ some j → prev j ≡ some i)
      → ((i j : ℕ) → next i ≡ some j → j < n)
      → s < n
      → prev s ≡ none
      → (m : ℕ) × (count_walk next n s c ≡ some m)
  count_walk_ends s c back below h free = elim (Option-cases (count_walk next n s c)) [
    | inr found ↦ found
    | inl e ↦ absurd (
        pigeonhole n (step_to next s) (inside e) (λ i j b b'.
          meet s back free i j b (λ k b''. endless_steps next n s c e k (omega arith))))
  ]
    where
      inside : count_walk next n s c ≡ none → (k : ℕ) → k ≤ n → step_to next s k < n
      inside e zero b = h
      inside e (suc k) b =
          below (step_to next s k) (step_to next s (suc k))
            (endless_steps next n s c e k (omega arith))
