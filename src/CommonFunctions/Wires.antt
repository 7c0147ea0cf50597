-- ===== src/CommonFunctions/Wires.antt =====
-- `BuildWiresFromConnectedEdges`, up to the wires that OpenCASCADE builds, and `RemoveDuplicateEdges`.
use geoml.Common.{
  ℕ, zero, suc, ◌<◌, ◌≡◌, ◌⊎◌, inl, inr, refl, sym, ◌∙◌, ap, subst, Bool, true, false, ◌||◌, ◌&&◌,
  List, [], ◌∷◌, ◌++◌, length, In, In-append, In-append_left, In-append_right, some, arith,
  Bool-cases,
}
use mathlib.Core.List.{append-nil, append_assoc}
use geoml.Common.Real.{Real}
use geoml.CommonFunctions.{
  EdgeKernel, check_common_vertex, is_duplicate, group_edges, has_duplicate, remove_duplicate_edges,
}
use geoml.CommonFunctions.Connected.{Chain, count, count-append, find_all_connected_edges-Moved}

or_same :
    {a b c d a' b' c' d' : Bool}
    → a ≡ a'
    → b ≡ c'
    → c ≡ b'
    → d ≡ d'
    → (a || (b || (c || d))) ≡ (a' || (b' || (c' || d')))
or_same e f g h = ground arith

pairs_same :
    {a b c d a' b' c' d' m m' : Bool}
    → a ≡ a'
    → b ≡ b'
    → c ≡ d'
    → d ≡ c'
    → m ≡ m'
    → (((a && b) || (c && d)) && m) ≡ (((a' && b') || (c' && d')) && m')
pairs_same e f g h k = ground arith

-- `CheckCommonVertex` and the test for duplicates do not depend on the order of the two edges, where
-- the distance of two points does not.
pub edge_tests_comm {ℓ} :
    {E P W : Type ℓ} (o : Real W) (kernel : EdgeKernel E P W)
    → ((p q : P) → kernel.distance p q ≡ kernel.distance q p)
    → (a b : E)
    → (check_common_vertex o kernel a b ≡ check_common_vertex o kernel b a)
      × (is_duplicate o kernel a b ≡ is_duplicate o kernel b a)
unfolding check_common_vertex is_duplicate
edge_tests_comm {P = P} o kernel symmetric a b =
    let near : (p q : P)
        → o.gt kernel.confusion (kernel.distance p q)
          ≡ o.gt kernel.confusion (kernel.distance q p) =
      λ p q. ap (o.gt kernel.confusion) (symmetric p q) in
    (
      or_same (near (kernel.first_point a) (kernel.first_point b))
          (near (kernel.first_point a) (kernel.last_point b))
          (near (kernel.last_point a) (kernel.first_point b))
          (near (kernel.last_point a) (kernel.last_point b)),
      pairs_same (near (kernel.first_point a) (kernel.first_point b))
          (near (kernel.last_point a) (kernel.last_point b))
          (near (kernel.first_point a) (kernel.last_point b))
          (near (kernel.last_point a) (kernel.first_point b))
          (ap (o.gt kernel.middle_tol) (symmetric (kernel.mid_point a) (kernel.mid_point b))),
    )

module _ {ℓ} {E : Type ℓ} (shares : E → E → Bool) where
  unfoldable pub flatten : List (List E) → List E
  flatten [] = []
  flatten (g ∷ gs) = g ++ flatten gs

  -- Groups of edges: from the first edge of each a chain leads to each other edge of it, and no edge
  -- of a group is connected to one of a later group.
  pub data IsWires : List (List E) → Type ℓ where
    done : IsWires []
    wire :
        {e : E} {es : List E} {gs : List (List E)}
        → ((z : E) → In z es → Chain shares e z)
        → ((a z : E) → In a (e ∷ es) → In z (flatten gs) → shares a z ≡ false)
        → IsWires gs
        → IsWires ((e ∷ es) ∷ gs)

  -- The loop of `BuildWiresFromConnectedEdges` ends, with one round of fuel more than there are
  -- edges. It puts each edge into just one group, as often as the shape has it; the edges of a group
  -- are connected by chains from the first, and no edge of one group is connected to an edge of a
  -- later group.
  pub group_edges-IsWires :
      (fuel : ℕ) (xs : List E)
      → length xs < fuel
      → (groups : List (List E)) × (group_edges shares fuel xs ≡ some groups)
        × IsWires groups
        × ((p : E → Bool) → count p (flatten groups) ≡ count p xs)
        × ((z : E) → In z (flatten groups) → In z xs)
  unfolding group_edges flatten count
  group_edges-IsWires zero xs h = absurd (omega arith)
  group_edges-IsWires (suc fuel) [] h = ([], refl, done, λ p. refl, λ z k. k)
  group_edges-IsWires (suc fuel) (e ∷ es) h =
      let (rest, added, q, m) =
        find_all_connected_edges-Moved shares (suc (length es)) e es (e ∷ []) (omega arith) in
      let (groups, r, w, c, inside) = group_edges-IsWires fuel rest (omega (arith, m.no_longer)) in
      (
        (e ∷ added) ∷ groups,
        rw (q, r, group_edges) refl,
        wire {es = added} {gs = groups} m.reached
            (λ a z k l. elim k [
              | inl s ↦ ap (λ (y : E). shares y z) s ∙ m.apart z (inside z l)
              | inr s ↦ m.added_apart a z s (inside z l)
            ])
            w,
        λ p. omega (arith, count-append p added (flatten groups), c p, m.counted p),
        λ z k. elim (In-append z (e ∷ added) (flatten groups) k) [
          | inl (inl s) ↦ inl s
          | inl (inr s) ↦ inr (m.from z s)
          | inr s ↦ inr (m.subset z (inside z s))
        ],
      )

module _ {ℓ} {E : Type ℓ} (duplicate : E → E → Bool) where
  -- The edge has a duplicate in the list, or none.
  has_duplicate_cases :
      (e : E) (xs : List E)
      → ((has_duplicate duplicate e xs ≡ true) × (x : E) × In x xs × (duplicate e x ≡ true))
        ⊎ ((has_duplicate duplicate e xs ≡ false) × ((x : E) → In x xs → duplicate e x ≡ false))
  unfolding has_duplicate
  has_duplicate_cases e [] = inr (refl, λ x k. elim k [ ])
  has_duplicate_cases e (x ∷ xs) = elim (Bool-cases (duplicate e x)) [
    | inl h ↦ inl (rw h refl, x, inl refl, h)
    | inr h ↦ elim (has_duplicate_cases e xs) [
      | inl (q, y, k, d) ↦ inl (rw (h, q) refl, y, inr k, d)
      | inr (q, away) ↦
          inr (rw (h, q) refl, λ y k. elim k [ inl s ↦ ap (duplicate e) s ∙ h | inr s ↦ away y s ])
    ]
  ]

  -- No edge of the list is a duplicate of one before it.
  pub data IsDistinct : List E → List E → Type ℓ where
    done : {before : List E} → IsDistinct before []
    next :
        {before : List E} {x : E} {xs : List E}
        → ((y : E) → In y before → duplicate x y ≡ false)
        → IsDistinct (before ++ x ∷ []) xs
        → IsDistinct before (x ∷ xs)

  -- `RemoveDuplicateEdges`, from a list of edges that are kept already: it keeps those and appends
  -- edges of the shape. No edge that it appends is a duplicate of one before it, and each edge of the
  -- shape is a duplicate of one that is kept, where an edge is a duplicate of itself.
  pub remove_duplicate_edges-IsDistinct :
      (kept xs : List E)
      → ((e : E) → duplicate e e ≡ true)
      → (more : List E) × (remove_duplicate_edges duplicate kept xs ≡ kept ++ more)
        × IsDistinct kept more
        × ((x : E) → In x more → In x xs)
        × ((x : E) → In x xs → (y : E) × In y (kept ++ more) × (duplicate x y ≡ true))
  unfolding remove_duplicate_edges
  remove_duplicate_edges-IsDistinct kept [] same =
      ([], sym (append-nil kept), done, λ x k. k, λ x k. elim k [ ])
  remove_duplicate_edges-IsDistinct kept (e ∷ es) same = elim (has_duplicate_cases e kept) [
    | inl (q, y, k, d) ↦
        let (more, r, i, sub, all) = remove_duplicate_edges-IsDistinct kept es same in
        (
          more,
          rw q r,
          i,
          λ x l. inr (sub x l),
          λ x l. elim l [
            | inl s ↦ (y, In-append_left y kept more k, ap (λ (z : E). duplicate z y) s ∙ d)
            | inr s ↦ all x s
          ],
        )
    | inr (q, away) ↦
        let (more, r, i, sub, all) = remove_duplicate_edges-IsDistinct (kept ++ e ∷ []) es same in
        let joined = append_assoc kept (e ∷ []) more in
        (
          e ∷ more,
          rw q (r ∙ joined),
          next away i,
          λ x l. elim l [ inl s ↦ inl s | inr s ↦ inr (sub x s) ],
          λ x l. elim l [
            | inl s ↦ (
              e,
              In-append_right e kept (e ∷ more) (inl refl),
              ap (λ (z : E). duplicate z e) s ∙ same e,
            )
            | inr s ↦ let (y, k, d) = all x s in (y, subst (λ (ys : List E). In y ys) joined k, d)
          ],
        )
  ]
