-- ===== src/Utilities/FollowSort/Laws.antt =====
-- `follow_sort` ends with a chain of all elements, or no round can lengthen the chain any more.
use geoml.Common.{
  ℕ, zero, suc, ◌+◌, ◌-◌, ◌≤◌, ◌<◌, ◌≡◌, ◌⊎◌, inl, inr, refl, sym, ◌∙◌, Bool, true, false, none,
  some, arith, ◌==◌, Bool-cases, ℕ_discrete, subst,
}
use geoml.Common.Reorder.{same_order}
use geoml.Utilities.FollowSort.Extend.{Permuted, IsChain, Grows, extend-IsChain}
use geoml.Utilities.FollowSort.{Chain, extend, sweep, follow_round, follow_loop, follow_sort}

module _ {ℓ} {A : Type ℓ} where
  module _ (follows : A → A → Bool) (n : ℕ) (start : ℕ → A) where
    Grows-trans :
        (c d e : Chain A)
        → Grows follows n start c d
        → Grows follows n start d e
        → Grows follows n start c e
    Grows-trans c d e (inl (a, x)) (inl (b, y)) = inl (b ∙ a, y ∙ x)
    Grows-trans c d e (inl (a, x)) (inr (b, y)) = inr (omega arith, y)
    Grows-trans c d e (inr (a, x)) (inl (b, y)) = inr (omega arith, y ∙ x)
    Grows-trans c d e (inr (a, x)) (inr (b, y)) = inr (omega arith, y)

    sweep-IsChain :
        (r it : ℕ) (c : Chain A)
        → c.sorted < it
        → it + r ≤ n
        → IsChain follows n start c
        → IsChain follows n start (sweep follows r it c)
          × Grows follows n start c (sweep follows r it c)
    unfolding sweep
    sweep-IsChain zero it c a b v = (v, inl (refl, refl))
    sweep-IsChain (suc r) it c a b v =
        let (w, m, g) = extend-IsChain follows n start it c a (omega arith) v in
        let (x, h) = sweep-IsChain r (it + 1) (extend follows it c) (omega arith) (omega arith) w in
        (
          x,
          Grows-trans c (extend follows it c) (sweep follows r (it + 1) (extend follows it c)) g h,
        )

    -- A round that swaps nothing found no element to put at either end of the chain.
    abbrev pub NoMore : Chain A → ℕ → ℕ → Type 0
    NoMore c lo hi =
        (k : ℕ)
        → lo ≤ k
        → k < hi
        → (follows (c.elements k) (c.elements c.sorted) ≡ false)
          × (follows (c.elements 0) (c.elements k) ≡ false)

    extend_declines :
        (it : ℕ) (c : Chain A)
        → (extend follows it c).swapped ≡ false
        → (extend follows it c ≡ c)
          × (follows (c.elements it) (c.elements c.sorted) ≡ false)
          × (follows (c.elements 0) (c.elements it) ≡ false)
    unfolding extend
    extend_declines it c e = elim (Bool-cases (follows (c.elements it) (c.elements c.sorted))) [
      | inl f ↦ absurd (true-ne-false (rw f at e))
      | inr f ↦ elim (Bool-cases (follows (c.elements 0) (c.elements it))) [
        | inl g ↦ absurd (true-ne-false (rw (f, g) at e))
        | inr g ↦ rw (f, g) (refl, refl, refl)
      ]
    ]
      where
        true-ne-false : true ≡ false → ⊥
        true-ne-false h = cc

    sweep_swapped :
        (r it : ℕ) (c : Chain A) → c.swapped ≡ true → (sweep follows r it c).swapped ≡ true
    unfolding sweep
    sweep_swapped zero it c h = h
    sweep_swapped (suc r) it c h = sweep_swapped r (it + 1) (extend follows it c) (kept h)
      where
        kept : c.swapped ≡ true → (extend follows it c).swapped ≡ true
        kept h = unfold extend in ground arith

    sweep_declines :
        (r it : ℕ) (c : Chain A)
        → (sweep follows r it c).swapped ≡ false
        → (sweep follows r it c ≡ c) × NoMore c it (it + r)
    unfolding sweep
    sweep_declines zero it c e = (refl, λ k a b. absurd (omega arith))
    sweep_declines (suc r) it c e = elim (Bool-cases (extend follows it c).swapped) [
      | inl s ↦ absurd (ground (arith, sweep_swapped r (it + 1) (extend follows it c) s))
      | inr s ↦
          let (same, f, g) = extend_declines it c s in
          let (same', rest) =
            sweep_declines r (it + 1) c
              (subst (λ (d : Chain A). (sweep follows r (it + 1) d).swapped ≡ false) same e) in
          (
            subst (λ (d : Chain A). sweep follows r (it + 1) d ≡ c) (sym same) same',
            λ k a b. elim (ℕ_discrete k it) [
              | yes e ↦ rw e (f, g)
              | no ne ↦ rest k (omega arith) (omega arith)
            ],
          )
    ]

    -- The loop ends by its test within the fuel, with a chain to which nothing can be added.
    follow_loop-IsChain :
        (fuel : ℕ) (c : Chain A)
        → n ≤ fuel + c.sorted
        → IsChain follows n start c
        → let d = follow_loop follows fuel n c in
          IsChain follows n start d × NoMore d (d.sorted + 1) n
    unfolding follow_loop follow_round
    follow_loop-IsChain zero c h v = absurd (omega (arith, v.within))
    follow_loop-IsChain (suc fuel) c h v = elim (Bool-cases d.swapped) [
      | inl s ↦ rw s (follow_loop-IsChain fuel d (omega (arith, grown s)) x)
      | inr s ↦
          let (same, none_left) = sweep_declines (n - (c.sorted + 1)) (c.sorted + 1) c' s in
          rw s (x, left same none_left)
    ]
      where
        c' : Chain A
        c' = record c { swapped = false }

        d : Chain A
        d = sweep follows (n - (c.sorted + 1)) (c.sorted + 1) c'

        v' : IsChain follows n start c'
        v' = record { within = v.within; chained = v.chained; permuted = v.permuted }

        both : IsChain follows n start d × Grows follows n start c' d
        both =
            sweep-IsChain (n - (c.sorted + 1)) (c.sorted + 1) c' (omega arith)
              (omega (arith, v.within)) v'

        x : IsChain follows n start d
        x = both.0

        grown : d.swapped ≡ true → c.sorted < d.sorted
        grown s = elim both.1 [ inl (_, e) ↦ absurd (ground arith) | inr (g, _) ↦ g ]

        left :
            d ≡ c'
            → NoMore c' (c.sorted + 1) (c.sorted + 1 + (n - (c.sorted + 1)))
            → NoMore d (d.sorted + 1) n
        left same none_left =
            subst (λ (e : Chain A). NoMore e (e.sorted + 1) n) (sym same)
              (λ k a b. none_left k a (omega (arith, v.within)))

    initial : Chain A
    initial = record { elements = start; sorted = 0; swapped = true }

    initial-IsChain : 0 < n → IsChain follows n start initial
    unfolding initial same_order
    initial-IsChain h = record {
      within = h;
      chained = λ k g. absurd (omega arith);
      permuted = (same_order n, λ i. refl);
    }

    -- For an array that is not empty, `follow_sort` returns a reordering of it in which every
    -- element follows the one before it, or throws, and then it has a reordering of the array that
    -- starts with a shorter chain to whose end none of the remaining elements can be added, and
    -- whose first element follows none of them.
    pub follow_sort_cases :
        0 < n
        → ((w : ℕ → A) × (follow_sort follows n start ≡ some w)
            × Permuted n start w
            × ((k : ℕ) → k + 1 < n → follows (w (k + 1)) (w k) ≡ true))
          ⊎ ((follow_sort follows n start ≡ none)
              × ((c : Chain A) × IsChain follows n start c
                  × (c.sorted + 1 < n)
                  × NoMore c (c.sorted + 1) n))
    unfolding follow_sort initial
    follow_sort_cases h =
        let (d, more) = follow_loop-IsChain n initial (omega arith) (initial-IsChain h) in
        elim (Bool-cases ((follow_loop follows n n initial).sorted + 1 == n)) [
          | inl e ↦ inl (
            (follow_loop follows n n initial).elements,
            rw e refl,
            d.permuted,
            λ k g. d.chained k (ground arith),
          )
          | inr e ↦
              inr (rw e refl, (follow_loop follows n n initial, d, ground (arith, d.within), more))
        ]
