-- ===== src/Naming/Visitor.antt =====
-- The depth-first visitors of Shape.h: `accept_history_visitor` and `accept_topology_visitor` are one
-- template over the edges that they follow; `FindIfVisitor` and `FindVisitor` are the two visitors.
-- A visitor is its `visit` on its state. `int max_depth` is a number that is not negative: the
-- recursion is on the levels that are left below it, so it ends on every graph of shapes.
use geoml.Common.{
  ℕ, zero, suc, ◌+◌, ◌≤◌, ◌≡◌, refl, sym, ◌∙◌, ap, Bool, true, false, ◌&&◌, List, [], ◌∷◌, ◌++◌,
  arith, if◌then◌else◌, leb, any, any-append, select, select-append, Bool-cases, inl, inr,
}

-- `if (visit) return true;`, or go on with the visitor's new state.
abbrev pub unless_stopped {ℓ} : {V : Type ℓ} → Bool × V → (V → Bool × V) → Bool × V
unless_stopped (true, v) k = (true, v)
unless_stopped (false, v) k = k v

module _ {ℓ} {V : Type ℓ} where
  -- The loop over the shapes that are one step away.
  unfoldable pub accept_all : (V → ℕ → Bool × V) → V → List ℕ → Bool × V
  accept_all accept v [] = (false, v)
  accept_all accept v (c ∷ cs) = unless_stopped (accept v c) (λ w. accept_all accept w cs)

  -- `left` is `v.max_depth() - depth`.
  unfoldable pub accept_visitor :
      (edges : ℕ → List ℕ) → (V → ℕ → ℕ → Bool × V) → (left : ℕ) → V → (shape depth : ℕ) → Bool × V
  unfolding accept_all
  accept_visitor edges visit zero v s depth = visit v s depth
  accept_visitor edges visit (suc left) v s depth =
      unless_stopped (visit v s depth)
        (λ w. accept_all (λ u c. accept_visitor edges visit left u c (depth + 1)) w (edges s))

-- `FindIfVisitor::visit`, on the flag `found`.
unfoldable pub find_if_visit : (ℕ → Bool) → (max_depth : ℕ) → Bool → ℕ → ℕ → Bool × Bool
find_if_visit f max_depth found s depth =
    let found' = if leb depth max_depth then f s else found in (found', found')

-- `results.insert(s)`: the set holds no two shapes that are the same.
unfoldable pub insert : (ℕ → ℕ → Bool) → List ℕ → ℕ → List ℕ
insert same results s = if any (λ r. same r s) results then results else results ++ (s ∷ [])

-- `FindVisitor::visit`, on the set `results`.
unfoldable pub find_visit :
    (ℕ → ℕ → Bool) → (ℕ → Bool) → (max_depth : ℕ) → List ℕ → ℕ → ℕ → Bool × List ℕ
unfolding insert
find_visit same f max_depth results s depth =
    (false, if leb depth max_depth && f s then insert same results s else results)

-- The reference: the shapes in the order in which they are met, at most `left` steps away.
unfoldable pub met_all : (ℕ → List ℕ) → List ℕ → List ℕ
met_all met [] = []
met_all met (c ∷ cs) = met c ++ met_all met cs

unfoldable pub met : (ℕ → List ℕ) → (left : ℕ) → ℕ → List ℕ
unfolding met_all
met edges zero s = s ∷ []
met edges (suc left) s = s ∷ met_all (λ c. met edges left c) (edges s)

abbrev pub insert_all : (ℕ → ℕ → Bool) → List ℕ → List ℕ → List ℕ
insert_all same results [] = results
insert_all same results (s ∷ ss) = insert_all same (insert same results s) ss

pub insert_all-append :
    (same : ℕ → ℕ → Bool) (r xs ys : List ℕ)
    → insert_all same r (xs ++ ys) ≡ insert_all same (insert_all same r xs) ys
insert_all-append same r [] ys = refl
insert_all-append same r (x ∷ xs) ys = insert_all-append same (insert same r x) xs ys

module _ (edges : ℕ → List ℕ) (f : ℕ → Bool) (max_depth : ℕ) where
  accept_all-any :
      (accept : Bool → ℕ → Bool × Bool) (sub : ℕ → List ℕ)
      → ((v : Bool) (c : ℕ) → accept v c ≡ (any f (sub c), any f (sub c)))
      → (cs : List ℕ)
      → accept_all accept false cs ≡ (any f (met_all sub cs), any f (met_all sub cs))
  unfolding accept_all met_all
  accept_all-any accept sub h [] = refl
  accept_all-any accept sub h (c ∷ cs) = elim (Bool-cases (any f (sub c))) [
    | inl e ↦ rw (h false c, any-append f (sub c) (met_all sub cs), e) refl
    | inr e ↦
        rw (h false c, any-append f (sub c) (met_all sub cs), e) (accept_all-any accept sub h cs)
  ]

  find_if_visit_lem :
      (v : Bool) (s depth : ℕ)
      → depth ≤ max_depth
      → find_if_visit f max_depth v s depth ≡ (f s, f s)
  unfolding find_if_visit
  find_if_visit_lem v s depth h = ground arith

  -- The search stops exactly if some shape that it can meet satisfies the predicate.
  pub accept-find_if :
      (left : ℕ) (v : Bool) (s depth : ℕ)
      → depth + left ≤ max_depth
      → accept_visitor edges (find_if_visit f max_depth) left v s depth
        ≡ (any f (met edges left s), any f (met edges left s))
  unfolding accept_visitor met
  accept-find_if zero v s depth h = find_if_visit_lem v s depth (omega arith) ∙ ground arith
  accept-find_if (suc left) v s depth h = elim (Bool-cases (f s)) [
    | inl e ↦ rw (find_if_visit_lem v s depth (omega arith), e) refl
    | inr e ↦
        rw (find_if_visit_lem v s depth (omega arith), e)
          (accept_all-any _ (met edges left)
            (λ u c. accept-find_if left u c (depth + 1) (omega arith)) (edges s))
  ]

module _ (edges : ℕ → List ℕ) (same : ℕ → ℕ → Bool) (f : ℕ → Bool) (max_depth : ℕ) where
  accept_all-collect :
      (accept : List ℕ → ℕ → Bool × List ℕ) (sub : ℕ → List ℕ)
      → ((v : List ℕ) (c : ℕ) → accept v c ≡ (false, insert_all same v (select f (sub c))))
      → (cs v : List ℕ)
      → accept_all accept v cs ≡ (false, insert_all same v (select f (met_all sub cs)))
  unfolding accept_all met_all
  accept_all-collect accept sub h [] v = refl
  accept_all-collect accept sub h (c ∷ cs) v =
      rw
        (
          h v c,
          select-append f (sub c) (met_all sub cs),
          insert_all-append same v (select f (sub c)) (select f (met_all sub cs)),
        )
        (accept_all-collect accept sub h cs (insert_all same v (select f (sub c))))

  find_visit_lem :
      (v : List ℕ) (s depth : ℕ)
      → depth ≤ max_depth
      → find_visit same f max_depth v s depth ≡ (false, insert_all same v (select f (s ∷ [])))
  unfolding find_visit
  find_visit_lem v s depth h = ground arith

  -- The collection never stops, and inserts what it meets of the predicate, in that order.
  pub accept-find :
      (left : ℕ) (v : List ℕ) (s depth : ℕ)
      → depth + left ≤ max_depth
      → accept_visitor edges (find_visit same f max_depth) left v s depth
        ≡ (false, insert_all same v (select f (met edges left s)))
  unfolding accept_visitor met
  accept-find zero v s depth h = find_visit_lem v s depth (omega arith)
  accept-find (suc left) v s depth h = rw (find_visit_lem v s depth (omega arith)) (
      accept_all-collect _ (met edges left) (λ u c. accept-find left u c (depth + 1) (omega arith))
        (edges s) _
      ∙ ap (λ (r : List ℕ). (false, r))
          (sym (
            insert_all-append same v (select f (s ∷ []))
              (select f (met_all (met edges left) (edges s)))))
      ∙ ap (λ (r : List ℕ). (false, insert_all same v r))
          (sym (select-append f (s ∷ []) (met_all (met edges left) (edges s)))))
