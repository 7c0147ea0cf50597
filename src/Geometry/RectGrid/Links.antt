-- ===== src/Geometry/RectGrid/Links.antt =====
-- `connect_faces`: the neighbours that its two loops register.
use geoml.Common.{
  ℕ, zero, suc, ◌+◌, ◌<◌, ◌≡◌, ◌≢◌, inl, inr, refl, sym, ◌∙◌, ap, subst, fun_ext, Bool, true, false,
  ◌==◌, Option, none, some, arith, ℕ_discrete, Option-cases, Bool-cases,
}
use geoml.Common.Real.{Real}
use geoml.Geometry.RectGrid.{
  Kernel, AnnotatedFace, Neighbors, set_pos_u, set_neg_u, set_pos_v, set_neg_v, is_null, update,
  unconnected, matches_u, matches_v, register_u, register_v, register, connect_others, connect_all,
}
use geoml.Geometry.RectGrid.Linked.{IsLinked, Links, IsLinked-miss, IsLinked-hit, IsLinked-row}

update_at : {A : Type 0} (v : ℕ → A) (i : ℕ) (f : A → A) (k : ℕ) → k ≡ i → update v i f k ≡ f (v k)
unfolding update
update_at v i f k e = let t : (k == i) ≡ true = ground arith in rw t refl

update_else : {A : Type 0} (v : ℕ → A) (i : ℕ) (f : A → A) (k : ℕ) → k ≢ i → update v i f k ≡ v k
unfolding update
update_else v i f k ne = let t : (k == i) ≡ false = ground arith in rw t refl

-- A field that the write does not change.
update_keeps :
    {A B : Type 0} (v : ℕ → A) (i : ℕ) (f : A → A) (field : A → B)
    → ((x : A) → field (f x) ≡ field x)
    → (k : ℕ) → field (update v i f k) ≡ field (v k)
update_keeps v i f field same k = elim (ℕ_discrete k i) [
  | yes e ↦ ap field (update_at v i f k e) ∙ same (v k)
  | no ne ↦ ap field (update_else v i f k ne)
]

abbrev pub pos_u : (ℕ → Neighbors) → ℕ → Option ℕ
pos_u nb k = (nb k).pos_u

abbrev pub neg_u : (ℕ → Neighbors) → ℕ → Option ℕ
neg_u nb k = (nb k).neg_u

abbrev pub pos_v : (ℕ → Neighbors) → ℕ → Option ℕ
pos_v nb k = (nb k).pos_v

abbrev pub neg_v : (ℕ → Neighbors) → ℕ → Option ℕ
neg_v nb k = (nb k).neg_v

-- The two writes of one registration, for the pointers `pos` and `neg` that they set.
Links-update :
    {A : Type 0} (nb : ℕ → A) (i j : ℕ) (forth back : A → A) (pos neg : A → Option ℕ)
    → ((x : A) → pos (forth x) ≡ some j)
    → ((x : A) → pos (back x) ≡ pos x)
    → ((x : A) → neg (back x) ≡ some i)
    → ((x : A) → neg (forth x) ≡ neg x)
    → i ≢ j
    → Links i j
        (λ k. pos (nb k))
        (λ k. neg (nb k))
        (λ k. pos (update (update nb i forth) j back k))
        (λ k. neg (update (update nb i forth) j back k))
Links-update nb i j forth back pos neg sets keeps sets' keeps' ne = record {
  pos_at =
      update_keeps (update nb i forth) j back pos keeps i
      ∙ ap pos (update_at nb i forth i refl)
      ∙ sets (nb i);
  pos_else = λ k d.
      update_keeps (update nb i forth) j back pos keeps k ∙ ap pos (update_else nb i forth k d);
  neg_at = ap neg (update_at (update nb i forth) j back j refl) ∙ sets' (update nb i forth j);
  neg_else = λ k d.
      ap neg (update_else (update nb i forth) j back k d) ∙ update_keeps nb i forth neg keeps' k;
}

IsLinked-same :
    (m : ℕ → ℕ → Bool) (n a b : ℕ) {pos neg pos' neg' : ℕ → Option ℕ}
    → ((k : ℕ) → pos' k ≡ pos k)
    → ((k : ℕ) → neg' k ≡ neg k)
    → IsLinked m n a b pos neg
    → IsLinked m n a b pos' neg'
IsLinked-same m n a b {pos = pos} {neg' = neg'} same same' l =
    subst (λ (f : ℕ → Option ℕ). IsLinked m n a b f neg') (fun_ext (λ k. sym (same k)))
      (subst (λ (f : ℕ → Option ℕ). IsLinked m n a b pos f) (fun_ext (λ k. sym (same' k))) l)

-- A field that neither of the two writes of one registration changes.
two_updates_keep :
    {A B : Type 0} (nb : ℕ → A) (i j : ℕ) (forth back : A → A) (field : A → B)
    → ((x : A) → field (forth x) ≡ field x)
    → ((x : A) → field (back x) ≡ field x)
    → (k : ℕ) → field (update (update nb i forth) j back k) ≡ field (nb k)
two_updates_keep nb i j forth back field same same' k =
    update_keeps (update nb i forth) j back field same' k ∙ update_keeps nb i forth field same k

module _ {ℓ} {F P W A : Type ℓ} (o : Real W) (kernel : Kernel F P W) where
  module _ (faces : ℕ → AnnotatedFace F P W A) (i j : ℕ) (nb : ℕ → Neighbors) where
    register_u_keeps :
        (k : ℕ)
        → (pos_v (register_u o kernel faces i j nb) k ≡ pos_v nb k)
          × (neg_v (register_u o kernel faces i j nb) k ≡ neg_v nb k)
    unfolding register_u is_null
    register_u_keeps k = elim (Option-cases (nb j).neg_u) [
      | inr (x, e) ↦ rw e (refl, refl)
      | inl e ↦ elim (Bool-cases (matches_u o kernel faces i j)) [
        | inr f ↦ rw (e, f) (refl, refl)
        | inl f ↦
            rw (e, f)
              (
                two_updates_keep nb i j (set_pos_u j) (set_neg_u i) (λ (x : Neighbors). x.pos_v)
                    (λ x. refl) (λ x. refl) k,
                two_updates_keep nb i j (set_pos_u j) (set_neg_u i) (λ (x : Neighbors). x.neg_v)
                    (λ x. refl) (λ x. refl) k,
              )
      ]
    ]

    register_u-IsLinked :
        (n : ℕ)
        → j < n
        → i ≢ j
        → IsLinked (matches_u o kernel faces) n i j (pos_u nb) (neg_u nb)
        → IsLinked
            (matches_u o kernel faces)
            n
            i
            (j + 1)
            (pos_u (register_u o kernel faces i j nb))
            (neg_u (register_u o kernel faces i j nb))
    unfolding register_u is_null
    register_u-IsLinked n h ne l = elim (Option-cases (nb j).neg_u) [
      | inr (x, e) ↦ rw e (
          IsLinked-miss (matches_u o kernel faces) n i j l (inr (inr (x, e))) (λ k. refl)
            (λ k. refl))
      | inl e ↦ elim (Bool-cases (matches_u o kernel faces i j)) [
        | inr f ↦
            rw (e, f)
              (IsLinked-miss (matches_u o kernel faces) n i j l (inr (inl f)) (λ k. refl)
                (λ k. refl))
        | inl f ↦
            rw (e, f)
              (IsLinked-hit (matches_u o kernel faces) n i j l h ne f e (
                Links-update nb i j (set_pos_u j) (set_neg_u i) (λ (x : Neighbors). x.pos_u)
                  (λ (x : Neighbors). x.neg_u) (λ x. refl) (λ x. refl) (λ x. refl) (λ x. refl) ne))
      ]
    ]

    register_v_keeps :
        (k : ℕ)
        → (pos_u (register_v o kernel faces i j nb) k ≡ pos_u nb k)
          × (neg_u (register_v o kernel faces i j nb) k ≡ neg_u nb k)
    unfolding register_v is_null
    register_v_keeps k = elim (Option-cases (nb j).neg_v) [
      | inr (x, e) ↦ rw e (refl, refl)
      | inl e ↦ elim (Bool-cases (matches_v o kernel faces i j)) [
        | inr f ↦ rw (e, f) (refl, refl)
        | inl f ↦
            rw (e, f)
              (
                two_updates_keep nb i j (set_pos_v j) (set_neg_v i) (λ (x : Neighbors). x.pos_u)
                    (λ x. refl) (λ x. refl) k,
                two_updates_keep nb i j (set_pos_v j) (set_neg_v i) (λ (x : Neighbors). x.neg_u)
                    (λ x. refl) (λ x. refl) k,
              )
      ]
    ]

    register_v-IsLinked :
        (n : ℕ)
        → j < n
        → i ≢ j
        → IsLinked (matches_v o kernel faces) n i j (pos_v nb) (neg_v nb)
        → IsLinked
            (matches_v o kernel faces)
            n
            i
            (j + 1)
            (pos_v (register_v o kernel faces i j nb))
            (neg_v (register_v o kernel faces i j nb))
    unfolding register_v is_null
    register_v-IsLinked n h ne l = elim (Option-cases (nb j).neg_v) [
      | inr (x, e) ↦ rw e (
          IsLinked-miss (matches_v o kernel faces) n i j l (inr (inr (x, e))) (λ k. refl)
            (λ k. refl))
      | inl e ↦ elim (Bool-cases (matches_v o kernel faces i j)) [
        | inr f ↦
            rw (e, f)
              (IsLinked-miss (matches_v o kernel faces) n i j l (inr (inl f)) (λ k. refl)
                (λ k. refl))
        | inl f ↦
            rw (e, f)
              (IsLinked-hit (matches_v o kernel faces) n i j l h ne f e (
                Links-update nb i j (set_pos_v j) (set_neg_v i) (λ (x : Neighbors). x.pos_v)
                  (λ (x : Neighbors). x.neg_v) (λ x. refl) (λ x. refl) (λ x. refl) (λ x. refl) ne))
      ]
    ]

  module _ (faces : ℕ → AnnotatedFace F P W A) (n : ℕ) where
    abbrev pub BothLinked : (a b : ℕ) → (ℕ → Neighbors) → Type 0
    BothLinked a b nb =
        IsLinked (matches_u o kernel faces) n a b (pos_u nb) (neg_u nb)
        × IsLinked (matches_v o kernel faces) n a b (pos_v nb) (neg_v nb)

    register-BothLinked :
        (i j : ℕ) (nb : ℕ → Neighbors)
        → j < n
        → BothLinked i j nb
        → BothLinked i (j + 1) (register o kernel faces i j nb)
    unfolding register
    register-BothLinked i j nb h (u, v) = elim (ℕ_discrete i j) [
      | yes e ↦
          let t : (i == j) ≡ true = ground arith in
          rw t (
            IsLinked-miss (matches_u o kernel faces) n i j u (inl e) (λ k. refl) (λ k. refl),
            IsLinked-miss (matches_v o kernel faces) n i j v (inl e) (λ k. refl) (λ k. refl),
          )
      | no ne ↦
          let t : (i == j) ≡ false = ground arith in
          let once = register_u o kernel faces i j nb in
          rw t (
            IsLinked-same (matches_u o kernel faces) n i (j + 1)
                (λ k. (register_v_keeps faces i j once k).0)
                (λ k. (register_v_keeps faces i j once k).1)
                (register_u-IsLinked faces i j nb n h ne u),
            register_v-IsLinked faces i j once n h ne (
                IsLinked-same (matches_v o kernel faces) n i j
                  (λ k. (register_u_keeps faces i j nb k).0)
                  (λ k. (register_u_keeps faces i j nb k).1) v),
          )
    ]

    connect_others-BothLinked :
        (i m j : ℕ) (nb : ℕ → Neighbors)
        → j + m ≡ n
        → BothLinked i j nb
        → BothLinked i n (connect_others o kernel faces i m j nb)
    unfolding connect_others
    connect_others-BothLinked i zero j nb e l = subst (λ (k : ℕ). BothLinked i k nb) (omega arith) l
    connect_others-BothLinked i (suc m) j nb e l =
        connect_others-BothLinked i m (j + 1) (register o kernel faces i j nb) (omega arith)
          (register-BothLinked i j nb (omega arith) l)

    connect_all-BothLinked :
        (m i : ℕ) (nb : ℕ → Neighbors)
        → i + m ≡ n
        → BothLinked i 0 nb
        → BothLinked n 0 (connect_all o kernel faces n m i nb)
    unfolding connect_all
    connect_all-BothLinked zero i nb e l = subst (λ (k : ℕ). BothLinked k 0 nb) (omega arith) l
    connect_all-BothLinked (suc m) i nb e l =
        let (u, v) = connect_others-BothLinked i n 0 nb (omega arith) l in
        connect_all-BothLinked m (i + 1) (connect_others o kernel faces i n 0 nb) (omega arith) (
          IsLinked-row (matches_u o kernel faces) n i u,
          IsLinked-row (matches_v o kernel faces) n i v,
        )

    -- After the loops of `connect_faces` over `n` faces without neighbours, in each of the two
    -- directions: a pointer forth goes to another of the faces, which points back; the face that a
    -- face points back to is the first, in the order of the vector, of the other faces whose corners
    -- match, and points forth to some face; and a face points back to none only if the corners of no
    -- other face match.
    pub connect_all_linked : BothLinked n 0 (connect_all o kernel faces n n 0 unconnected)
    unfolding unconnected
    connect_all_linked =
        let fresh : (m : ℕ → ℕ → Bool) → IsLinked m n 0 0 (λ k. none) (λ k. none) = λ m. record {
          pos_neg = λ i j e. absurd cc;
          pos_below = λ i j e. absurd cc;
          neg_pos = λ i j e. absurd cc;
          neg_some = λ i j e. absurd cc;
          neg_none =
              λ j k h e t d. absurd (elim t [ inl h' ↦ omega arith | inr (_, h') ↦ omega arith ]);
        } in
        connect_all-BothLinked n 0 unconnected (omega arith)
          (fresh (matches_u o kernel faces), fresh (matches_v o kernel faces))
