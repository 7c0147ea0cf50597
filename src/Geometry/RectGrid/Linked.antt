-- ===== src/Geometry/RectGrid/Linked.antt =====
-- The pointers of one direction, and what one test of the two loops does to them.
use geoml.Common.{
  ℕ, ◌+◌, ◌<◌, ◌≡◌, ◌≢◌, ◌⊎◌, inl, inr, sym, ◌∙◌, ap, Bool, true, false, Option, none, some, arith,
  ℕ_discrete, dec_lt,
}

-- The test of `current` `k` against a fixed `other` `j` comes before that of `a` against `b`.
abbrev pub Tested : (a b k j : ℕ) → Type 0
Tested a b k j = (k < a) ⊎ ((k ≡ a) × (j < b))

-- What holds of the pointers before the test of face `a` against face `b`: one forth has one back; a
-- face has the first of the faces that match as its predecessor, and has none only if no other face
-- tested so far matches.
pub record IsLinked (m : ℕ → ℕ → Bool) (n a b : ℕ) (pos neg : ℕ → Option ℕ) : Type 0 where
  pub pos_neg : (i j : ℕ) → pos i ≡ some j → neg j ≡ some i
  pub pos_below : (i j : ℕ) → pos i ≡ some j → j < n
  pub neg_pos : (i j : ℕ) → neg j ≡ some i → (j' : ℕ) × (pos i ≡ some j')
  pub neg_some :
      (i j : ℕ)
      → neg j ≡ some i
      → Tested a b i j × (i ≢ j) × (m i j ≡ true) × ((k : ℕ) → k < i → k ≢ j → m k j ≡ false)
  pub neg_none : (j k : ℕ) → j < n → neg j ≡ none → Tested a b k j → k ≢ j → m k j ≡ false

-- What the test of `a` against `b` does: nothing, where it fails, or it links the two.
pub record Links (a b : ℕ) (pos neg pos' neg' : ℕ → Option ℕ) : Type 0 where
  pub pos_at : pos' a ≡ some b
  pub pos_else : (k : ℕ) → k ≢ a → pos' k ≡ pos k
  pub neg_at : neg' b ≡ some a
  pub neg_else : (k : ℕ) → k ≢ b → neg' k ≡ neg k

Tested-later : (a b k j : ℕ) → Tested a b k j → Tested a (b + 1) k j
Tested-later a b k j t = elim t [ inl h ↦ inl h | inr (e, h) ↦ inr (e, omega arith) ]

-- The one test that is new.
Tested-new : (a b k j : ℕ) → Tested a (b + 1) k j → Tested a b k j ⊎ ((k ≡ a) × (j ≡ b))
Tested-new a b k j t = elim t [
  | inl h ↦ inl (inl h)
  | inr (e, h) ↦ elim (ℕ_discrete j b) [ yes q ↦ inr (e, q) | no ne ↦ inl (inr (e, omega arith)) ]
]

some-ne-none : {o : Option ℕ} {i : ℕ} → o ≡ some i → o ≡ none → ⊥
some-ne-none e f = cc

some-injective : {o : Option ℕ} {i j : ℕ} → o ≡ some i → o ≡ some j → i ≡ j
some-injective e f = cc

module _ (m : ℕ → ℕ → Bool) (n a b : ℕ) {pos neg pos' neg' : ℕ → Option ℕ} where
  -- A test that fails.
  pub IsLinked-miss :
      IsLinked m n a b pos neg
      → (a ≡ b) ⊎ ((m a b ≡ false) ⊎ ((i : ℕ) × (neg b ≡ some i)))
      → ((k : ℕ) → pos' k ≡ pos k)
      → ((k : ℕ) → neg' k ≡ neg k)
      → IsLinked m n a (b + 1) pos' neg'
  IsLinked-miss l fails same same' = record {
    pos_neg = λ i j e. same' j ∙ l.pos_neg i j (sym (same i) ∙ e);
    pos_below = λ i j e. l.pos_below i j (sym (same i) ∙ e);
    neg_pos = λ i j e. let (j', f) = l.neg_pos i j (sym (same' j) ∙ e) in (j', same i ∙ f);
    neg_some = λ i j e.
        let (t, d, match, others) = l.neg_some i j (sym (same' j) ∙ e) in
        (Tested-later a b i j t, d, match, others);
    neg_none = λ j k h e t ne. elim (Tested-new a b k j t) [
      | inl t' ↦ l.neg_none j k h (sym (same' j) ∙ e) t' ne
      | inr (p, q) ↦ elim fails [
        | inl s ↦ absurd (ne (p ∙ s ∙ sym q))
        | inr (inl s) ↦ cc
        | inr (inr (i, s)) ↦ absurd (some-ne-none s (ap neg (sym q) ∙ sym (same' j) ∙ e))
      ]
    ];
  }

  -- A test that succeeds.
  pub IsLinked-hit :
      IsLinked m n a b pos neg
      → b < n
      → a ≢ b
      → m a b ≡ true
      → neg b ≡ none
      → Links a b pos neg pos' neg'
      → IsLinked m n a (b + 1) pos' neg'
  IsLinked-hit l below ne match free step = record {
    pos_neg = λ i j e. elim (ℕ_discrete i a) [
      | yes q ↦ forth i j e q
      | no q ↦
          step.neg_else j (λ r. taken i j r (l.pos_neg i j (sym (step.pos_else i q) ∙ e)))
          ∙ l.pos_neg i j (sym (step.pos_else i q) ∙ e)
    ];
    pos_below = λ i j e. elim (ℕ_discrete i a) [
      | yes q ↦ omega (arith, below, to_b i j e q)
      | no q ↦ l.pos_below i j (sym (step.pos_else i q) ∙ e)
    ];
    neg_pos = λ i j e. elim (ℕ_discrete i a) [
      | yes q ↦ (b, ap pos' q ∙ step.pos_at)
      | no q ↦ elim (ℕ_discrete j b) [
        | yes r ↦ absurd (q (some-injective e (ap neg' r ∙ step.neg_at)))
        | no r ↦
            let (j', f) = l.neg_pos i j (sym (step.neg_else j r) ∙ e) in (j', step.pos_else i q ∙ f)
      ]
    ];
    neg_some = λ i j e. elim (ℕ_discrete j b) [
      | yes r ↦ first i j r (some-injective e (ap neg' r ∙ step.neg_at))
      | no r ↦
          let (t, d, match, others) = l.neg_some i j (sym (step.neg_else j r) ∙ e) in
          (Tested-later a b i j t, d, match, others)
    ];
    neg_none = λ j k h e t d. elim (ℕ_discrete j b) [
      | yes r ↦ absurd (some-ne-none (ap neg' r ∙ step.neg_at) e)
      | no r ↦ elim (Tested-new a b k j t) [
        | inl t' ↦ l.neg_none j k h (sym (step.neg_else j r) ∙ e) t' d
        | inr (p, q) ↦ absurd (r q)
      ]
    ];
  }
    where
      taken : (i j : ℕ) → j ≡ b → neg j ≡ some i → ⊥
      taken i j r e = some-ne-none e (ap neg r ∙ free)

      to_b : (i j : ℕ) → pos' i ≡ some j → i ≡ a → j ≡ b
      to_b i j e q = some-injective e (ap pos' q ∙ step.pos_at)

      forth : (i j : ℕ) → pos' i ≡ some j → i ≡ a → neg' j ≡ some i
      forth i j e q = ap neg' (to_b i j e q) ∙ step.neg_at ∙ ap some (sym q)

      first :
          (i j : ℕ)
          → j ≡ b
          → i ≡ a
          → Tested a (b + 1) i j
            × (i ≢ j)
            × (m i j ≡ true)
            × ((k : ℕ) → k < i → k ≢ j → m k j ≡ false)
      first i j r q = (
        inr (q, omega arith),
        λ e. ne (sym q ∙ e ∙ r),
        ap (λ (x : ℕ). m x j) q ∙ ap (m a) r ∙ match,
        λ k h d. ap (m k) r ∙ l.neg_none b k below free (inl (omega arith)) (λ e. d (e ∙ sym r)),
      )

-- From the end of one inner loop to the start of the next.
pub IsLinked-row :
    (m : ℕ → ℕ → Bool) (n a : ℕ) {pos neg : ℕ → Option ℕ}
    → IsLinked m n a n pos neg
    → IsLinked m n (a + 1) 0 pos neg
IsLinked-row m n a l = record {
  pos_neg = l.pos_neg;
  pos_below = l.pos_below;
  neg_pos = l.neg_pos;
  neg_some =
      λ i j e. let (t, d, match, others) = l.neg_some i j e in (moved i j t, d, match, others);
  neg_none = λ j k h e t d. l.neg_none j k h e (back j k h t) d;
}
  where
    moved : (i j : ℕ) → Tested a n i j → Tested (a + 1) 0 i j
    moved i j t = elim t [ inl h ↦ inl (omega arith) | inr (e, h) ↦ inl (omega arith) ]

    back : (j k : ℕ) → j < n → Tested (a + 1) 0 k j → Tested a n k j
    back j k h t = elim t [
      | inl s ↦ elim (dec_lt k a) [ yes lt ↦ inl lt | no ge ↦ inr (omega arith, h) ]
      | inr (_, s) ↦ absurd (omega arith)
    ]
