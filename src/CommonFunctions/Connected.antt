-- ===== src/CommonFunctions/Connected.antt =====
-- `FindAllConnectedEdges`: it returns, and moves just the edges that a chain connects.
use geoml.Common.{
  ℕ, zero, suc, ◌+◌, ◌≤◌, ◌<◌, ◌≡◌, ◌⊎◌, inl, inr, refl, sym, ◌∙◌, ap, subst, Bool, true, false,
  if◌then◌else◌, List, [], ◌∷◌, ◌++◌, length, In, In-append, none, some, arith, Bool-cases,
}
use mathlib.Core.List.{append-nil, append_assoc}
use geoml.CommonFunctions.{find_connected, find_all_connected_edges}

-- A chain of connected edges.
pub data Chain {ℓ} {E : Type ℓ} (shares : E → E → Bool) (e : E) : E → Type ℓ where
  near : {x : E} → shares e x ≡ true → Chain shares e x
  along : {x y : E} → Chain shares e x → shares x y ≡ true → Chain shares e y

-- How many edges of a list pass a test.
unfoldable pub count {ℓ} : {E : Type ℓ} → (E → Bool) → List E → ℕ
count p [] = 0
count p (x ∷ xs) = (if p x then 1 else 0) + count p xs

pub count-append {ℓ} :
    {E : Type ℓ} (p : E → Bool) (xs ys : List E) → count p (xs ++ ys) ≡ count p xs + count p ys
unfolding count
count-append p [] ys = omega arith
count-append p (x ∷ xs) ys = omega (arith, count-append p xs ys)

append_three {ℓ} :
    {E : Type ℓ} (t : List E) (x : E) (a b : List E)
    → ((t ++ x ∷ []) ++ a) ++ b ≡ t ++ ((x ∷ a) ++ b)
append_three {E = E} t x a b =
    ap (λ (ys : List E). ys ++ b) (append_assoc t (x ∷ []) a) ∙ append_assoc t (x ∷ a) b

module _ {ℓ} {E : Type ℓ} (shares : E → E → Bool) where
  Chain-join : {a b c : E} → Chain shares a b → Chain shares b c → Chain shares a c
  Chain-join h (near e) = along h e
  Chain-join h (along k e) = along (Chain-join h k) e

  -- The edge that is found, and the list without it.
  record Found (e x : E) (xs ys : List E) : Type ℓ where
    connected : shares e x ≡ true
    from : In x xs
    subset : (z : E) → In z ys → In z xs
    counted : (p : E → Bool) → count p xs ≡ count p (x ∷ []) + count p ys
    shorter : length xs ≡ suc (length ys)

  find_connected_cases :
      (e : E) (xs : List E)
      → ((find_connected shares e xs ≡ none) × ((z : E) → In z xs → shares e z ≡ false))
        ⊎ ((x : E) × (ys : List E) × (find_connected shares e xs ≡ some (x, ys)) × Found e x xs ys)
  unfolding find_connected count
  find_connected_cases e [] = inl (refl, λ z h. elim h [ ])
  find_connected_cases e (x ∷ xs) = elim (Bool-cases (shares e x)) [
    | inl h ↦ inr (
      x,
      xs,
      rw h refl,
      record {
        connected = h;
        from = inl refl;
        subset = λ z k. inr k;
        counted = λ p. omega arith;
        shorter = refl;
      },
    )
    | inr h ↦ elim (find_connected_cases e xs) [
      | inl (q, none_near) ↦
          inl
            (rw (h, q) refl, λ z k. elim k [ inl s ↦ ap (shares e) s ∙ h | inr s ↦ none_near z s ])
      | inr (y, ys, q, f) ↦ inr (
        y,
        x ∷ ys,
        rw (h, q) refl,
        record {
          connected = f.connected;
          from = inr f.from;
          subset = λ z k. elim k [ inl s ↦ inl s | inr s ↦ inr (f.subset z s) ];
          counted = λ p. omega (arith, f.counted p);
          shorter = ap suc f.shorter;
        },
      )
    ]
  ]

  -- What a call has done: `added` are the edges that went from the list `xs` to the target.
  pub record Moved (e : E) (xs ys added : List E) : Type ℓ where
    pub reached : (z : E) → In z added → Chain shares e z
    pub from : (z : E) → In z added → In z xs
    pub apart : (z : E) → In z ys → shares e z ≡ false
    pub added_apart : (a z : E) → In a added → In z ys → shares a z ≡ false
    pub subset : (z : E) → In z ys → In z xs
    pub counted : (p : E → Bool) → count p xs ≡ count p added + count p ys
    pub no_longer : length ys ≤ length xs

  -- `FindAllConnectedEdges` returns, with one round of fuel more than there are edges in the list.
  -- What it appends to the target list are edges of the list, which then lacks them; a chain of
  -- connected edges leads from the given edge to each of them; and no edge that stays in the list is
  -- connected to the given edge or to one of them.
  pub find_all_connected_edges-Moved :
      (fuel : ℕ) (e : E) (xs target : List E)
      → length xs < fuel
      → (ys : List E) × (added : List E) × (find_all_connected_edges shares fuel e xs target
          ≡ some (ys, target ++ added))
        × Moved e xs ys added
  unfolding find_all_connected_edges count
  find_all_connected_edges-Moved zero e xs target h = absurd (omega arith)
  find_all_connected_edges-Moved (suc fuel) e xs target h = elim (find_connected_cases e xs) [
    | inl (q, away) ↦ (
      xs,
      [],
      rw (q, find_all_connected_edges)
          (ap (λ (t : List E). some (xs, t)) (sym (append-nil target))),
      record {
        reached = λ z k. elim k [ ];
        from = λ z k. elim k [ ];
        apart = away;
        added_apart = λ a z k l. elim k [ ];
        subset = λ z k. k;
        counted = λ p. omega arith;
        no_longer = omega arith;
      },
    )
    | inr (x, rest, q, f) ↦
        let (ys, a, r, m) =
          find_all_connected_edges-Moved fuel x rest (target ++ x ∷ [])
            (omega (arith, f.shorter)) in
        let (zs, b, s, n) =
          find_all_connected_edges-Moved fuel e ys ((target ++ x ∷ []) ++ a)
            (omega (arith, f.shorter, m.no_longer)) in
        (
          zs,
          (x ∷ a) ++ b,
          rw (q, r, s, find_all_connected_edges)
              (ap some (ap (λ (t : List E). (zs, t)) (append_three target x a b))),
          record {
            reached = λ z k. elim (In-append z (x ∷ a) b k) [
              | inl (inl w) ↦ near (ap (shares e) w ∙ f.connected)
              | inl (inr w) ↦ Chain-join (near f.connected) (m.reached z w)
              | inr w ↦ n.reached z w
            ];
            from = λ z k. elim (In-append z (x ∷ a) b k) [
              | inl (inl w) ↦ subst (λ (y : E). In y xs) (sym w) f.from
              | inl (inr w) ↦ f.subset z (m.from z w)
              | inr w ↦ f.subset z (m.subset z (n.from z w))
            ];
            apart = n.apart;
            added_apart = λ c z k l. elim (In-append c (x ∷ a) b k) [
              | inl (inl w) ↦ ap (λ (y : E). shares y z) w ∙ m.apart z (n.subset z l)
              | inl (inr w) ↦ m.added_apart c z w (n.subset z l)
              | inr w ↦ n.added_apart c z w l
            ];
            subset = λ z k. f.subset z (m.subset z (n.subset z k));
            counted = λ p. omega (arith, f.counted p, m.counted p, n.counted p, count-append p a b);
            no_longer = omega (arith, f.shorter, m.no_longer, n.no_longer);
          },
        )
  ]
