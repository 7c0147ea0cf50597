-- ===== src/Geometry/Transformation/Refines.antt =====
-- The operations in terms of the points that a transformation moves.
use geoml.Common.{ℕ, zero, suc, ◌<◌, ◌≡◌, refl, sym, ◌∙◌, ap, arith, ◌==◌, if◌then◌else◌}
use geoml.Common.Ring.{Ring, IsRing, sum, zero_add, one_mul, zero_mul, sum_product, sum-cong}
use geoml.Geometry.Transformation.{
  Xyz, GeneralTrsf, IsGeneralTrsf, Transformation, affine_row, product, post_multiply, pre_multiply,
  multiply, transform, get_gp_gtrsf,
}

module _ {ℓ} {W : Type ℓ} {r : Ring W} (laws : IsRing r) {g : GeneralTrsf W}
    (documented : IsGeneralTrsf r g) where
  -- The fourth coordinate of a point is 1.
  abbrev hom : Xyz W → ℕ → W
  hom p zero = p.x
  hom p (suc zero) = p.y
  hom p (suc (suc zero)) = p.z
  hom p (suc (suc (suc k))) = r.one

  abbrev row : Transformation W → Xyz W → ℕ → W
  row t p i = sum r 4 (λ k. r.mul (t.m_matrix i k) (hom p k))

  affine_row-sum :
      (t : Transformation W) (p : Xyz W) (i : ℕ) → affine_row r (t.m_matrix i) p ≡ row t p i
  unfolding sum
  affine_row-sum t p i = simp (zero_add laws, laws.mul_one, sum)

  -- The documented map of `gp_GTrsf` reads the first three rows of the matrix.
  pub transform_rows :
      (t : Transformation W) (p : Xyz W)
      → transform r g t p ≡ record {
        x = affine_row r (t.m_matrix 0) p;
        y = affine_row r (t.m_matrix 1) p;
        z = affine_row r (t.m_matrix 2) p;
      }
  unfolding transform get_gp_gtrsf
  transform_rows t p = documented.applied (get_gp_gtrsf r g t) p ∙ simp (documented.stored)

  -- The last row is that of an affine map.
  abbrev pub IsAffine : Transformation W → Type ℓ
  IsAffine t = (k : ℕ) → k < 4 → t.m_matrix 3 k ≡ (if 3 == k then r.one else r.zero)

  -- What the matrix does to a point, by rows.
  image : Transformation W → Xyz W → Xyz W
  image t p = record { x = row t p 0; y = row t p 1; z = row t p 2 }

  transform-image : (t : Transformation W) (p : Xyz W) → transform r g t p ≡ image t p
  unfolding image
  transform-image t p =
      transform_rows t p
      ∙ (rw (affine_row-sum t p 0, affine_row-sum t p 1, affine_row-sum t p 2) refl)

  row_last : (t : Transformation W) (p : Xyz W) → IsAffine t → row t p 3 ≡ r.one
  unfolding sum
  row_last t p a = simp (
    a 0 (omega arith),
    a 1 (omega arith),
    a 2 (omega arith),
    a 3 (omega arith),
    zero_mul laws,
    zero_add laws,
    laws.mul_one,
    laws.add_zero,
    sum,
  )

  hom-image :
      (t : Transformation W) (p : Xyz W) (k : ℕ)
      → IsAffine t
      → k < 4
      → hom (image t p) k ≡ row t p k
  unfolding image
  hom-image t p zero a h = refl
  hom-image t p (suc zero) a h = refl
  hom-image t p (suc (suc zero)) a h = refl
  hom-image t p (suc (suc (suc zero))) a h = sym (row_last t p a)
  hom-image t p (suc (suc (suc (suc k)))) a h = absurd (omega arith)

  row-product :
      (a b : Transformation W) (p : Xyz W) (i : ℕ)
      → IsAffine b
      → row (product r a b) p i ≡ row a (image b p) i
  unfolding product
  row-product a b p i aff =
      sum_product laws 4 4 (a.m_matrix i) b.m_matrix (hom p)
      ∙ sum-cong laws 4 (λ j. r.mul (a.m_matrix i j) (row b p j))
          (λ j. r.mul (a.m_matrix i j) (hom (image b p) j))
          (λ j h. ap (r.mul (a.m_matrix i j)) (sym (hom-image b p j aff h)))

  image-product :
      (a b : Transformation W) (p : Xyz W)
      → IsAffine b
      → image (product r a b) p ≡ image a (image b p)
  unfolding image
  image-product a b p aff =
      rw (row-product a b p 0 aff, row-product a b p 1 aff, row-product a b p 2 aff) refl

  -- `operator*`, `PostMultiply` and `PreMultiply` give the transformation that moves a point as the
  -- right factor and then the left one do, if the last row of the right factor is (0, 0, 0, 1),
  -- arithmetic is exact and `gp_GTrsf` is as documented.
  pub transform-product :
      (a b : Transformation W) (p : Xyz W)
      → IsAffine b
      → (transform r g (multiply r a b) p ≡ transform r g a (transform r g b p))
        × (transform r g (post_multiply r b a) p ≡ transform r g a (transform r g b p))
        × (transform r g (pre_multiply r a b) p ≡ transform r g a (transform r g b p))
  unfolding multiply pre_multiply post_multiply
  transform-product a b p aff = (same, same, same)
    where
      same : transform r g (product r a b) p ≡ transform r g a (transform r g b p)
      same =
          transform-image (product r a b) p
          ∙ image-product a b p aff
          ∙ sym (transform-image a (image b p))
          ∙ ap (transform r g a) (sym (transform-image b p))

  pub product-IsAffine :
      (a b : Transformation W) → IsAffine a → IsAffine b → IsAffine (product r a b)
  unfolding product sum
  product-IsAffine a b ha hb k h =
      let last : (product r a b).m_matrix 3 k ≡ b.m_matrix 3 k = simp (
        ha 0 (omega arith),
        ha 1 (omega arith),
        ha 2 (omega arith),
        ha 3 (omega arith),
        zero_mul laws,
        zero_add laws,
        one_mul laws,
        sum,
      ) in
      last ∙ hb k h
