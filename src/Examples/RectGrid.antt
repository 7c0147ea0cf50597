-- ===== src/Examples/RectGrid.antt =====
-- Faces as pairs of numbers: the face `(u, v)` is the unit square with that lower corner. A face of a
-- tube has its place modulo 2 in u.
use geoml.Common.{ℕ, ◌+◌, ◌%◌, ◌<◌, ◌≡◌, ◌⊎◌, refl, if◌then◌else◌, ◌==◌, ◌&&◌, List, [], ◌∷◌}
use geoml.Common.Real.{int_real}
use geoml.Common.Int.{ℤ, pos}
use geoml.Common.Result.{Result, ok, err}
use geoml.Geometry.RectGrid.{
  Kernel, RectGridSurface, GridFailure, not_rectangular, no_root, endless, unconnected,
  annotated_face, append_faces, connect_all, connect_faces, set_shape,
}
use geoml.Geometry.RectGrid.Links.{BothLinked, connect_all_linked}
use geoml.Geometry.RectGrid.Checked.{IsGrid, IsRefused, IsRoot, connected, connect_faces_cases}

record Place : Type 0 where
  across : ℕ
  along : ℕ

abbrev place : ℕ → ℕ → Place
place i j = record { across = i; along = j }

abbrev value : ℤ → ℕ
value (pos k) = k
value z = 0

-- `period` in u is that of the corners; 1000 is none.
abbrev squares : (period : ℕ) → Kernel Place Place ℤ
squares period = record {
  uv_bounds = λ f. record { umin = pos 0; umax = pos 1; vmin = pos 0; vmax = pos 1 };
  d0 = λ f u v. place ((f.across + value u) % period) (f.along + value v);
  square_distance = λ p q. if (p.across == q.across) && (p.along == q.along) then pos 0 else pos 1;
  sqr_dist_tol = pos 1;
}

abbrev no_faces : RectGridSurface Place Place ℤ ℕ
no_faces = record {
  size = 0;
  face_infos = λ k. annotated_face int_real (squares 1000) (place 0 0) 0;
  neighbors = unconnected;
  root_idx = 0;
  nrows = 0;
  ncols = 0;
}

abbrev outcome : Result GridFailure (RectGridSurface Place Place ℤ ℕ) → List ℕ
outcome (ok t) = t.root_idx ∷ t.nrows ∷ t.ncols ∷ []
outcome (err not_rectangular) = 1 ∷ []
outcome (err no_root) = 0 ∷ []
outcome (err endless) = 2 ∷ []

abbrev shape_of : ℕ → List Place → List ℕ
unfolding set_shape
shape_of period faces = outcome (set_shape int_real (squares period) faces 0 no_faces)

-- Two rows of three, in no order.
three_by_two :
    shape_of 1000 (place 2 1 ∷ place 1 1 ∷ place 0 0 ∷ place 1 0 ∷ place 0 1 ∷ place 2 0 ∷ [])
    ≡ 2 ∷ 2 ∷ 3 ∷ []
unfolding set_shape
three_by_two = refl

-- A missing corner is found.
corner_missing : shape_of 1000 (place 0 0 ∷ place 1 0 ∷ place 0 1 ∷ []) ≡ 1 ∷ []
unfolding set_shape
corner_missing = refl

-- Two faces apart pass for a grid of one.
apart_accepted : shape_of 1000 (place 0 0 ∷ place 5 5 ∷ []) ≡ 0 ∷ 1 ∷ 1 ∷ []
unfolding set_shape
apart_accepted = refl

-- The two halves of a tube have no root.
tube_without_root : shape_of 2 (place 0 0 ∷ place 1 0 ∷ []) ≡ 0 ∷ []
unfolding set_shape
tube_without_root = refl

abbrev two_faces : RectGridSurface Place Place ℤ ℕ
unfolding append_faces
two_faces = append_faces int_real (squares 1000) (place 1 0 ∷ place 0 0 ∷ []) 0 no_faces

connect_all_linked_example :
    BothLinked int_real
      (squares 1000)
      two_faces.face_infos
      2
      2
      0
      (connect_all int_real (squares 1000) two_faces.face_infos 2 2 0 unconnected)
connect_all_linked_example = connect_all_linked int_real (squares 1000) two_faces.face_infos 2

abbrev pair : RectGridSurface Place Place ℤ ℕ
unfolding append_faces
pair = record two_faces { neighbors = unconnected }

connect_faces_cases_example :
    ((t : RectGridSurface Place Place ℤ ℕ) × (connect_faces int_real (squares 1000) pair ≡ ok t)
      × IsGrid int_real (squares 1000) pair t)
    ⊎ ((connect_faces int_real (squares 1000) pair ≡ err not_rectangular)
        × IsRefused int_real (squares 1000) pair)
    ⊎ ((connect_faces int_real (squares 1000) pair ≡ err no_root)
        × ((k : ℕ) → k < pair.size → IsRoot (connected int_real (squares 1000) pair) k → ⊥))
unfolding unconnected pair
connect_faces_cases_example = connect_faces_cases int_real (squares 1000) pair refl
