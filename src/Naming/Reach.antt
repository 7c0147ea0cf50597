-- ===== src/Naming/Reach.antt =====
-- What a visitor meets, as paths in the graph, and what the set of a `FindVisitor` holds.
use geoml.Common.{
  ℕ, zero, suc, ◌≤◌, ◌≡◌, ◌⊎◌, inl, inr, refl, sym, ◌∙◌, subst, Bool, true, false, List, [], ◌∷◌,
  ◌++◌, arith, any, In, In-append, In-append_left, In-append_right, In-any, Bool-cases, any-append,
}
use geoml.Naming.Visitor.{met_all, met, insert, insert_all}

-- `t` is `n` steps away from `s`.
pub data Reach (edges : ℕ → List ℕ) : ℕ → ℕ → ℕ → Type 0 where
  here : {s : ℕ} → Reach edges zero s s
  step : {n s t : ℕ} (c : ℕ) → In c (edges s) → Reach edges n c t → Reach edges (suc n) s t

-- `t` is at most `left` steps away from `s`.
abbrev pub Within : (ℕ → List ℕ) → ℕ → ℕ → ℕ → Type 0
Within edges left s t = (n : ℕ) × (n ≤ left) × Reach edges n s t

In-met_all :
    (sub : ℕ → List ℕ) (t c : ℕ) (cs : List ℕ) → In c cs → In t (sub c) → In t (met_all sub cs)
unfolding met_all
In-met_all sub t c [] i h = elim i [ ]
In-met_all sub t c (d ∷ cs) (inl e) h =
    In-append_left t (sub d) (met_all sub cs) (subst (λ x. In t (sub x)) e h)
In-met_all sub t c (d ∷ cs) (inr i) h =
    In-append_right t (sub d) (met_all sub cs) (In-met_all sub t c cs i h)

met_all-In :
    (sub : ℕ → List ℕ) (t : ℕ) (cs : List ℕ)
    → In t (met_all sub cs)
    → (c : ℕ) × In c cs × In t (sub c)
unfolding met_all
met_all-In sub t [] h = elim h [ ]
met_all-In sub t (d ∷ cs) h = elim (In-append t (sub d) (met_all sub cs) h) [
  | inl k ↦ (d, inl refl, k)
  | inr k ↦ let (c, i, j) = met_all-In sub t cs k in (c, inr i, j)
]

pub met-Within :
    (edges : ℕ → List ℕ) (left s t : ℕ) → In t (met edges left s) → Within edges left s t
unfolding met
met-Within edges zero s t (inl e) = (0, omega arith, subst (λ x. Reach edges 0 s x) (sym e) here)
met-Within edges zero s t (inr h) = elim h [ ]
met-Within edges (suc left) s t (inl e) =
    (0, omega arith, subst (λ x. Reach edges 0 s x) (sym e) here)
met-Within edges (suc left) s t (inr h) =
    let (c, i, j) = met_all-In (met edges left) t (edges s) h in
    let (n, b, r) = met-Within edges left c t j in (suc n, omega arith, step c i r)

met_self : (edges : ℕ → List ℕ) (left s : ℕ) → In s (met edges left s)
unfolding met
met_self edges zero s = inl refl
met_self edges (suc left) s = inl refl

Reach-met :
    (edges : ℕ → List ℕ) (left n s t : ℕ) → n ≤ left → Reach edges n s t → In t (met edges left s)
unfolding met
Reach-met edges left n s t b here = met_self edges left t
Reach-met edges zero n s t b (step c i r) = absurd (omega arith)
Reach-met edges (suc left) n s t b (step {n = m} c i r) =
    inr (In-met_all (met edges left) t c (edges s) i (Reach-met edges left m c t (omega arith) r))

pub Within-met :
    (edges : ℕ → List ℕ) (left s t : ℕ) → Within edges left s t → In t (met edges left s)
Within-met edges left s t (n, b, r) = Reach-met edges left n s t b r

-- No two members are the same shape.
abbrev pub Distinct : (ℕ → ℕ → Bool) → List ℕ → Type 0
Distinct same [] = Unit
Distinct same (x ∷ xs) = ((y : ℕ) → In y xs → (same x y ≡ false)) × Distinct same xs

module _ (same : ℕ → ℕ → Bool) where
  insert-In : (y s : ℕ) (r : List ℕ) → In y (insert same r s) → In y r ⊎ (y ≡ s)
  unfolding insert
  insert-In y s r h = elim (Bool-cases (any (λ x. same x s) r)) [
    | inl e ↦ inl (rw e at h)
    | inr e ↦ elim (In-append y r (s ∷ []) (rw e at h)) [
      | inl i ↦ inl i
      | inr (inl i) ↦ inr i
      | inr (inr i) ↦ elim i [ ]
    ]
  ]

  -- The set holds only what was inserted.
  pub insert_all-In : (y : ℕ) (xs r : List ℕ) → In y (insert_all same r xs) → In y r ⊎ In y xs
  insert_all-In y [] r h = inl h
  insert_all-In y (x ∷ xs) r h = elim (insert_all-In y xs (insert same r x) h) [
    | inl i ↦ elim (insert-In y x r i) [ inl j ↦ inl j | inr e ↦ inr (inl e) ]
    | inr i ↦ inr (inr i)
  ]

  any-insert : (p : ℕ → Bool) (s : ℕ) (r : List ℕ) → any p r ≡ true → any p (insert same r s) ≡ true
  unfolding insert
  any-insert p s r h = ground (arith, any-append p r (s ∷ []))

  any-insert_all :
      (p : ℕ → Bool) (xs r : List ℕ) → any p r ≡ true → any p (insert_all same r xs) ≡ true
  any-insert_all p [] r h = h
  any-insert_all p (x ∷ xs) r h = any-insert_all p xs (insert same r x) (any-insert p x r h)

  insert-same :
      (s : ℕ) (r : List ℕ) → same s s ≡ true → any (λ x. same x s) (insert same r s) ≡ true
  unfolding insert
  insert-same s r h = ground (arith, any-append (λ x. same x s) r (s ∷ []))

  -- Whatever was inserted has the same shape as some member.
  pub insert_all-same :
      (s : ℕ) (xs r : List ℕ)
      → same s s ≡ true
      → In s xs
      → any (λ x. same x s) (insert_all same r xs) ≡ true
  insert_all-same s [] r h i = elim i [ ]
  insert_all-same s (x ∷ xs) r h (inl e) =
      any-insert_all (λ y. same y s) xs (insert same r x)
        (subst (λ (z : ℕ). any (λ y. same y s) (insert same r z) ≡ true) e (insert-same s r h))
  insert_all-same s (x ∷ xs) r h (inr i) = insert_all-same s xs (insert same r x) h i

  any-false : (p : ℕ → Bool) (x : ℕ) (xs : List ℕ) → any p xs ≡ false → In x xs → p x ≡ false
  any-false p x xs e i = elim (Bool-cases (p x)) [
    | inl t ↦ absurd (ground (arith, In-any p x xs i t))
    | inr f ↦ f
  ]

  Distinct-append :
      (s : ℕ) (r : List ℕ)
      → ((x : ℕ) → In x r → same x s ≡ false)
      → Distinct same r
      → Distinct same (r ++ (s ∷ []))
  Distinct-append s [] h d = (λ y i. elim i [ ], tt)
  Distinct-append s (x ∷ r) h d = (
    λ y i. elim (In-append y r (s ∷ []) i) [
      | inl j ↦ d.0 y j
      | inr (inl e) ↦ rw e (h x (inl refl))
      | inr (inr j) ↦ elim j [ ]
    ],
    Distinct-append s r (λ y i. h y (inr i)) d.1,
  )

  insert-Distinct : (s : ℕ) (r : List ℕ) → Distinct same r → Distinct same (insert same r s)
  unfolding insert
  insert-Distinct s r d = elim (Bool-cases (any (λ x. same x s) r)) [
    | inl e ↦ rw e d
    | inr e ↦ rw e (Distinct-append s r (λ x i. any-false (λ y. same y s) x r e i) d)
  ]

  pub insert_all-Distinct : (xs r : List ℕ) → Distinct same r → Distinct same (insert_all same r xs)
  insert_all-Distinct [] r d = d
  insert_all-Distinct (x ∷ xs) r d =
      insert_all-Distinct xs (insert same r x) (insert-Distinct x r d)

  -- Members of a set that are the same shape are one member.
  pub Distinct-unique :
      ((x y : ℕ) → same x y ≡ same y x)
      → (x y : ℕ) (xs : List ℕ) → Distinct same xs
      → In x xs
      → In y xs
      → same x y ≡ true
      → x ≡ y
  Distinct-unique symm x y [] d i j h = elim i [ ]
  Distinct-unique symm x y (z ∷ zs) d (inl e) (inl f) h = e ∙ sym f
  Distinct-unique symm x y (z ∷ zs) d (inl e) (inr j) h =
      absurd (ground (arith, d.0 y j, subst (λ (w : ℕ). same w y ≡ true) e h))
  Distinct-unique symm x y (z ∷ zs) d (inr i) (inl f) h =
      absurd (ground (arith, d.0 x i, symm z x, subst (λ (w : ℕ). same x w ≡ true) f h))
  Distinct-unique symm x y (z ∷ zs) d (inr i) (inr j) h = Distinct-unique symm x y zs d.1 i j h
