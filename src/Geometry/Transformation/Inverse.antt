-- ===== src/Geometry/Transformation/Inverse.antt =====
-- The inverse, the transformation of vectors, and the access to the entries.
use geoml.Common.{
  ℕ, ◌≡◌, ◌≢◌, ◌⊎◌, inl, inr, refl, sym, ◌∙◌, ap, true, false, Option, none, some, arith,
  Bool-cases,
}
use geoml.Common.Int.{ℤ, pos, negsuc, ◌≤ℤ◌}
use geoml.Common.Result.{index_error, ok, err}
use geoml.Common.Ring.{Ring, IsRing, zero_add, mul_zero}
use geoml.Geometry.Transformation.{
  Xyz, GeneralTrsf, IsGeneralTrsf, Transformation, put, in_matrix, index, affine_row, set_value,
  get_value, from_gtrsf, inverted, transform, transform_vec, minus, get_gp_gtrsf,
}
use geoml.Geometry.Transformation.Refines.{transform_rows}

module _ {ℓ} {W : Type ℓ} {r : Ring W} (laws : IsRing r) {g : GeneralTrsf W}
    (documented : IsGeneralTrsf r g) where
  -- A matrix made from a `gp_GTrsf` moves points as that does.
  transform-from_gtrsf :
      (u : g.Trsf) (p : Xyz W) → transform r g (from_gtrsf r g u) p ≡ g.transforms u p
  unfolding from_gtrsf
  transform-from_gtrsf u p =
      transform_rows laws documented (from_gtrsf r g u) p ∙ sym (documented.applied u p)

  -- Where `Inverted` gives a transformation, it moves every moved point back, if `gp_GTrsf` is as
  -- documented.
  pub inverted-transform :
      (t u : Transformation W) (p : Xyz W)
      → inverted r g t ≡ some u
      → transform r g u (transform r g t p) ≡ p
  unfolding inverted transform
  inverted-transform t u p e = cases (g.inverted (get_gp_gtrsf r g t)) refl
    where
      cases :
          (o : Option g.Trsf)
          → g.inverted (get_gp_gtrsf r g t) ≡ o
          → transform r g u (transform r g t p) ≡ p
      cases none h = absurd (none-ne-some (rw h at e))
        where
          none-ne-some : ◌≡◌ {A = Option (Transformation W)} none (some u) → ⊥
          none-ne-some e = cc
      cases (some v) h =
          ap (λ (w : Transformation W). transform r g w (transform r g t p))
            (some-injective (sym (rw h at e)))
          ∙ transform-from_gtrsf v (transform r g t p)
          ∙ documented.undone (get_gp_gtrsf r g t) v p h
        where
          some-injective :
              ◌≡◌ {A = Option (Transformation W)} (some u) (some (from_gtrsf r g v))
              → u ≡ from_gtrsf r g v
          some-injective e = cc

  difference : (a c : W) → r.add (r.add a c) (r.neg c) ≡ a
  difference a c = laws.add_assoc a c (r.neg c) ∙ ap (r.add a) (laws.add_neg c) ∙ laws.add_zero a

  linear_row : (ℕ → W) → Xyz W → W
  linear_row a p = r.add (r.add (r.mul (a 0) p.x) (r.mul (a 1) p.y)) (r.mul (a 2) p.z)

  zero_row :
      (a b c d : W) → r.add (r.add (r.add (r.mul a r.zero) (r.mul b r.zero)) (r.mul c r.zero)) d ≡ d
  zero_row a b c d = simp (mul_zero laws, zero_add laws)

  affine_row-difference :
      (a : ℕ → W) (p : Xyz W)
      → r.add
          (affine_row r a p)
          (r.neg (affine_row r a (record { x = r.zero; y = r.zero; z = r.zero })))
        ≡ linear_row a p
  unfolding linear_row
  affine_row-difference a p =
      ap (λ (c : W). r.add (affine_row r a p) (r.neg c)) (zero_row (a 0) (a 1) (a 2) (a 3))
      ∙ difference (linear_row a p) (a 3)

  -- A vector is moved by the linear part of the matrix alone: the translation is not added, if
  -- arithmetic is exact and `gp_GTrsf` is as documented.
  pub transform_vec-linear :
      (t : Transformation W) (v : Xyz W)
      → let m = t.m_matrix in
        transform_vec r g t v ≡ record {
          x = r.add (r.add (r.mul (m 0 0) v.x) (r.mul (m 0 1) v.y)) (r.mul (m 0 2) v.z);
          y = r.add (r.add (r.mul (m 1 0) v.x) (r.mul (m 1 1) v.y)) (r.mul (m 1 2) v.z);
          z = r.add (r.add (r.mul (m 2 0) v.x) (r.mul (m 2 1) v.y)) (r.mul (m 2 2) v.z);
        }
  unfolding transform_vec minus linear_row
  transform_vec-linear t v =
      rw
        (
          transform_rows laws documented t v,
          transform_rows laws documented t (record { x = r.zero; y = r.zero; z = r.zero }),
          affine_row-difference (t.m_matrix 0) v,
          affine_row-difference (t.m_matrix 1) v,
          affine_row-difference (t.m_matrix 2) v,
        )
        refl

-- The indices that the array has.
abbrev pub InMatrix : ℤ → ℤ → Type 0
InMatrix row col = (pos 0 ≤ℤ row) × (row ≤ℤ pos 3) × (pos 0 ≤ℤ col) × (col ≤ℤ pos 3)

in_matrix_cases :
    (row col : ℤ)
    → ((in_matrix row col ≡ true) × InMatrix row col)
      ⊎ ((in_matrix row col ≡ false) × (InMatrix row col → ⊥))
unfolding in_matrix
in_matrix_cases row col = elim (Bool-cases (in_matrix row col)) [
  | inl e ↦ inl (e, (ground arith, ground arith, ground arith, ground arith))
  | inr e ↦ inr (e, λ h. ground arith)
]

index_injective : (a b : ℤ) → pos 0 ≤ℤ a → pos 0 ≤ℤ b → index a ≡ index b → a ≡ b
unfolding index
index_injective (pos a) (pos b) h k e = ap pos e
index_injective (negsuc a) b h k e = absurd (omega arith)
index_injective (pos a) (negsuc b) h k e = absurd (omega arith)

put_self {ℓ} : {W : Type ℓ} (m : ℕ → ℕ → W) (i j : ℕ) (x : W) → put m i j x i j ≡ x
unfolding put
put_self m i j x = ground arith

put_ne {ℓ} :
    {W : Type ℓ} (m : ℕ → ℕ → W) (i j k l : ℕ) (x : W) → (k ≢ i) ⊎ (l ≢ j) → put m i j x k l ≡ m k l
unfolding put
put_ne m i j k l x h = ground arith

module _ {ℓ} {W : Type ℓ} (r : Ring W) where
  -- With both indices from 0 to 3, `SetValue` stores the value, which `GetValue` then reads, and
  -- every other pair of indices reads as before; with an index outside, both throw INDEX_ERROR.
  pub get_value-set_value :
      (t : Transformation W) (row col : ℤ) (x : W)
      → (InMatrix row col
          × ((u : Transformation W) × (set_value r row col x t ≡ ok u)
              × (get_value r row col u ≡ ok x)
              × ((k l : ℤ) → (k ≢ row) ⊎ (l ≢ col) → get_value r k l u ≡ get_value r k l t)))
        ⊎ ((InMatrix row col → ⊥)
            × (set_value r row col x t ≡ err index_error)
            × (get_value r row col t ≡ err index_error))
  unfolding set_value get_value
  get_value-set_value t row col x = elim (in_matrix_cases row col) [
    | inr (e, out) ↦ inr (out, rw e refl, rw e refl)
    | inl (e, within) ↦ inl (
      within,
      (
        record { m_matrix = put t.m_matrix (index row) (index col) x },
        rw e refl,
        rw e (ap ok (put_self t.m_matrix (index row) (index col) x)),
        λ k l ne. other k l within ne,
      ),
    )
  ]
    where
      other :
          (k l : ℤ)
          → InMatrix row col
          → (k ≢ row) ⊎ (l ≢ col)
          → get_value r k l (record { m_matrix = put t.m_matrix (index row) (index col) x })
            ≡ get_value r k l t
      other k l (a, _, b, _) ne = elim (in_matrix_cases k l) [
        | inr (e, _) ↦ rw e refl
        | inl (e, (c, _, d, _)) ↦ rw e (
            ap ok (
              put_ne t.m_matrix (index row) (index col) (index k) (index l) x (elim ne [
                | inl n ↦ inl (λ h. n (index_injective k row c a h))
                | inr n ↦ inr (λ h. n (index_injective l col d b h))
              ])))
      ]
