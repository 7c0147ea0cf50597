-- ===== src/Geometry/RectGrid.antt =====
-- src/geometry/RectGridSurface.h: faces in a rectangular grid, each with pointers to its neighbours.
-- The vector `face_infos` is a function of the index, read below `size`, and a pointer to a face is
-- its index. The four pointers of a face stand apart from the face, in `neighbors`.
pub mod Linked
pub mod Links
pub mod Walk
pub mod Checked
use geoml.Common.{
  ℕ, zero, suc, ◌+◌, ◌≡◌, Bool, true, false, not, ◌&&◌, if◌then◌else◌, ◌==◌, Option, none, some,
  List, [], ◌∷◌,
}
use geoml.Common.Real.{Real}
use geoml.Common.Ring.{Ring}
use geoml.Common.Result.{Result, ok, err, ◌>>=◌}

-- The bounds that `BRepTools::UVBounds` gives.
pub record Bounds {ℓ} (W : Type ℓ) : Type ℓ where
  pub umin : W
  pub umax : W
  pub vmin : W
  pub vmax : W

-- What the code calls of the geometry kernel on a face `F` and a point `P`, and its tolerance.
pub record Kernel {ℓ} (F P W : Type ℓ) : Type ℓ where
  pub uv_bounds : F → Bounds W
  pub d0 : F → W → W → P
  pub square_distance : P → P → W
  pub sqr_dist_tol : W

-- `A` is the type of the annotations.
pub record AnnotatedFace {ℓ} (F P W A : Type ℓ) : Type ℓ where
  pub face : F
  pub u0v0 : P
  pub u1v0 : P
  pub u0v1 : P
  pub u1v1 : P
  pub bounds : Bounds W
  pub annotation : A

pub record Neighbors : Type 0 where
  pub neg_u : Option ℕ
  pub pos_u : Option ℕ
  pub neg_v : Option ℕ
  pub pos_v : Option ℕ

pub record RectGridSurface {ℓ} (F P W A : Type ℓ) : Type ℓ where
  pub size : ℕ
  pub face_infos : ℕ → AnnotatedFace F P W A
  pub neighbors : ℕ → Neighbors
  pub root_idx : ℕ
  pub nrows : ℕ
  pub ncols : ℕ

-- `not_rectangular` is the exception; `no_root` is the access behind the end of the vector where no
-- face is a root; `endless` is a walk that has not ended when the fuel has.
pub data GridFailure : Type 0 where
  not_rectangular : GridFailure
  no_root : GridFailure
  endless : GridFailure

abbrev pub set_pos_u : ℕ → Neighbors → Neighbors
set_pos_u j x = record x { pos_u = some j }

abbrev pub set_neg_u : ℕ → Neighbors → Neighbors
set_neg_u i x = record x { neg_u = some i }

abbrev pub set_pos_v : ℕ → Neighbors → Neighbors
set_pos_v j x = record x { pos_v = some j }

abbrev pub set_neg_v : ℕ → Neighbors → Neighbors
set_neg_v i x = record x { neg_v = some i }

unfoldable pub is_null : Option ℕ → Bool
is_null none = true
is_null (some i) = false

-- Writing to one place of the vector.
unfoldable pub update {ℓ} : {A : Type ℓ} → (ℕ → A) → ℕ → (A → A) → ℕ → A
update v i f k = if k == i then f (v k) else v k

-- `for (current = from; current->Next(); current = current->Next(), ++count)`
unfoldable pub count_walk : (ℕ → Option ℕ) → (fuel from count : ℕ) → Option ℕ
count_walk next zero from count = none
count_walk next (suc fuel) from count = elim (next from) [
  | none ↦ some count
  | some other ↦ count_walk next fuel other (count + 1)
]

-- Fresh pointers are null.
unfoldable pub unconnected : ℕ → Neighbors
unconnected i = record { neg_u = none; pos_u = none; neg_v = none; pos_v = none }

-- The first face at or after `i`, of the `n` to go, without a neighbour before it in either
-- direction; where there is none, the size.
unfoldable pub find_root : (ℕ → Neighbors) → (n i : ℕ) → ℕ
unfolding is_null
find_root nb zero i = i
find_root nb (suc n) i =
    let later = find_root nb n (i + 1) in
    if is_null (nb i).neg_u && is_null (nb i).neg_v then i else later

unfoldable pub walk_from : (ℕ → Option ℕ) → (size i : ℕ) → Result GridFailure ℕ
unfolding count_walk
walk_from next size i = elim (count_walk next size i 1) [ none ↦ err endless | some n ↦ ok n ]

unfoldable pub as_expected : (expected n : ℕ) → Result {0, 0} GridFailure Unit
as_expected expected n = if n == expected then ok tt else err not_rectangular

-- One test of the check: a face without a predecessor begins a walk of `expected` faces.
unfoldable pub check_walk :
    (prev next : ℕ → Option ℕ) → (size expected i : ℕ) → Result {0, 0} GridFailure Unit
unfolding walk_from is_null as_expected
check_walk prev next size expected i =
    let walked = walk_from next size i >>= as_expected expected in
    if is_null (prev i) then walked else ok tt

-- The check of the `n` faces from `i` on.
unfoldable pub check_faces :
    (ℕ → Neighbors) → (size nrows ncols n i : ℕ) → Result {0, 0} GridFailure Unit
unfolding check_walk
check_faces nb size nrows ncols zero i = ok tt
check_faces nb size nrows ncols (suc n) i = do
  a ← check_walk (λ k. (nb k).neg_u) (λ k. (nb k).pos_u) size ncols i
  b ← check_walk (λ k. (nb k).neg_v) (λ k. (nb k).pos_v) size nrows i
  check_faces nb size nrows ncols n (i + 1)

-- The rest of `connect_faces`, once the root is known.
unfoldable pub counted {ℓ} :
    {F P W A : Type ℓ}
    → RectGridSurface F P W A
    → (ℕ → Neighbors)
    → ℕ
    → Result GridFailure (RectGridSurface F P W A)
unfolding walk_from check_faces
counted s nb root = do
  ncols ← walk_from (λ k. (nb k).pos_u) s.size root
  nrows ← walk_from (λ k. (nb k).pos_v) s.size root
  checked ← check_faces nb s.size nrows ncols s.size 0
  ok (record s { neighbors = nb; root_idx = root; nrows = nrows; ncols = ncols })

module _ {ℓ} {F P W : Type ℓ} (o : Real W) (kernel : Kernel F P W) where
  abbrev pub close : P → P → Bool
  close p q = o.gt kernel.sqr_dist_tol (kernel.square_distance p q)

module _ {ℓ} {F P W A : Type ℓ} (o : Real W) (kernel : Kernel F P W) where
  -- The constructor of `AnnotatedFace`.
  unfoldable pub annotated_face : F → A → AnnotatedFace F P W A
  annotated_face f annotation =
      let b = kernel.uv_bounds f in
      record {
        face = f;
        u0v0 = kernel.d0 f b.umin b.vmin;
        u1v0 = kernel.d0 f b.umax b.vmin;
        u0v1 = kernel.d0 f b.umin b.vmax;
        u1v1 = kernel.d0 f b.umax b.vmax;
        bounds = b;
        annotation = annotation;
      }

  unfoldable pub replace_face : AnnotatedFace F P W A → F → AnnotatedFace F P W A
  replace_face a f =
      let b = kernel.uv_bounds f in
      record a {
        face = f;
        u0v0 = kernel.d0 f b.umin b.vmin;
        u1v0 = kernel.d0 f b.umax b.vmin;
        u0v1 = kernel.d0 f b.umin b.vmax;
        u1v1 = kernel.d0 f b.umax b.vmax;
        bounds = b;
      }

  abbrev pub matches_u : (ℕ → AnnotatedFace F P W A) → ℕ → ℕ → Bool
  matches_u faces i j =
      close o kernel (faces i).u1v0 (faces j).u0v0 && close o kernel (faces i).u1v1 (faces j).u0v1

  abbrev pub matches_v : (ℕ → AnnotatedFace F P W A) → ℕ → ℕ → Bool
  matches_v faces i j =
      close o kernel (faces i).u0v1 (faces j).u0v0 && close o kernel (faces i).u1v1 (faces j).u1v0

  -- `current` is face `i`, `other` is face `j`.
  unfoldable pub register_u :
      (ℕ → AnnotatedFace F P W A) → (i j : ℕ) → (ℕ → Neighbors) → ℕ → Neighbors
  unfolding is_null update
  register_u faces i j nb =
      if is_null (nb j).neg_u && matches_u faces i j
      then update (update nb i (set_pos_u j)) j (set_neg_u i)
      else nb

  unfoldable pub register_v :
      (ℕ → AnnotatedFace F P W A) → (i j : ℕ) → (ℕ → Neighbors) → ℕ → Neighbors
  unfolding is_null update
  register_v faces i j nb =
      if is_null (nb j).neg_v && matches_v faces i j
      then update (update nb i (set_pos_v j)) j (set_neg_v i)
      else nb

  unfoldable pub register :
      (ℕ → AnnotatedFace F P W A) → (i j : ℕ) → (ℕ → Neighbors) → ℕ → Neighbors
  unfolding register_u register_v
  register faces i j nb = if i == j then nb else register_v faces i j (register_u faces i j nb)

  -- The inner loop, from face `j` with `n` faces to go.
  unfoldable pub connect_others :
      (ℕ → AnnotatedFace F P W A) → (i n j : ℕ) → (ℕ → Neighbors) → ℕ → Neighbors
  unfolding register
  connect_others faces i zero j nb = nb
  connect_others faces i (suc n) j nb = connect_others faces i n (j + 1) (register faces i j nb)

  -- The outer loop, from face `i` with `n` faces to go.
  unfoldable pub connect_all :
      (ℕ → AnnotatedFace F P W A) → (size n i : ℕ) → (ℕ → Neighbors) → ℕ → Neighbors
  unfolding connect_others
  connect_all faces size zero i nb = nb
  connect_all faces size (suc n) i nb =
      connect_all faces size n (i + 1) (connect_others faces i size 0 nb)

  unfoldable pub connect_faces :
      RectGridSurface F P W A → Result GridFailure (RectGridSurface F P W A)
  unfolding connect_all find_root counted
  connect_faces s =
      let nb = connect_all s.face_infos s.size s.size 0 s.neighbors in
      let root = find_root nb s.size 0 in if root == s.size then err no_root else counted s nb root

  -- `faces` are those of the shape, in the order of `TopExp::MapShapes`.
  unfoldable pub append_faces : List F → A → RectGridSurface F P W A → RectGridSurface F P W A
  unfolding annotated_face update
  append_faces [] annotation s = s
  append_faces (f ∷ fs) annotation s = append_faces fs annotation (record s {
    size = s.size + 1;
    face_infos = update s.face_infos s.size (λ old. annotated_face f annotation);
    neighbors = update s.neighbors s.size unconnected_at;
  })
    where
      unconnected_at : Neighbors → Neighbors
      unconnected_at old = record { neg_u = none; pos_u = none; neg_v = none; pos_v = none }

  unfoldable pub set_shape :
      List F → A → RectGridSurface F P W A → Result GridFailure (RectGridSurface F P W A)
  unfolding append_faces connect_faces
  set_shape faces annotation s = connect_faces (append_faces faces annotation s)

-- `GetParameterRanges`; the two vectors are functions of the index, and the loops are on fuel.
module _ {ℓ} {F P W A : Type ℓ} (r : Ring W) (s : RectGridSurface F P W A) where
  unfoldable pub add_cell : (j i cell : ℕ) → (ℕ → W) × (ℕ → W) → (ℕ → W) × (ℕ → W)
  unfolding update
  add_cell j i cell (rows, cols) =
      let b = (s.face_infos cell).bounds in
      (
        update rows j (λ w. r.add w (r.add b.umax (r.neg b.umin))),
        update cols i (λ w. r.add w (r.add b.vmax (r.neg b.vmin))),
      )

  -- The inner loop, at cell `i` of row `j`.
  unfoldable pub add_row : (fuel j i cell : ℕ) → (ℕ → W) × (ℕ → W) → (ℕ → W) × (ℕ → W)
  unfolding add_cell
  add_row zero j i cell sums = sums
  add_row (suc fuel) j i cell sums = elim (s.neighbors cell).pos_u [
    | none ↦ add_cell j i cell sums
    | some other ↦ add_row fuel j (i + 1) other (add_cell j i cell sums)
  ]

  -- The outer loop, at the face that begins row `j`.
  unfoldable pub add_rows : (fuel j row : ℕ) → (ℕ → W) × (ℕ → W) → (ℕ → W) × (ℕ → W)
  unfolding add_row
  add_rows zero j row sums = sums
  add_rows (suc fuel) j row sums = elim (s.neighbors row).pos_v [
    | none ↦ add_row s.size j 0 row sums
    | some other ↦ add_rows fuel (j + 1) other (add_row s.size j 0 row sums)
  ]

  unfoldable pub get_parameter_ranges : (ℕ → W) × (ℕ → W)
  unfolding add_rows
  get_parameter_ranges = add_rows s.size 0 s.root_idx (λ k. r.zero, λ k. r.zero)
