-- ===== src/CommonFunctions.antt =====
-- src/common/CommonFunctions.cpp: the functions that decide something themselves. Edges, faces and
-- points are parameters, with what OpenCASCADE says of them; lists are those of OpenCASCADE.
pub mod Connected
pub mod Wires
pub mod Values
pub mod Linspace
use geoml.Common.{
  ℕ, zero, suc, ◌+◌, ◌≡◌, Bool, true, false, not, ◌&&◌, ◌||◌, if◌then◌else◌, List, [], ◌∷◌, ◌++◌,
  length, Option, none, some,
}
use geoml.Common.Real.{Real}

-- The end points of an edge, its middle, and the distance of points; `confusion` is
-- `Precision::Confusion()` and `middle_tol` 1e-5.
pub record EdgeKernel {ℓ} (E P W : Type ℓ) : Type ℓ where
  pub first_point : E → P
  pub last_point : E → P
  pub mid_point : E → P
  pub distance : P → P → W
  pub confusion : W
  pub middle_tol : W

module _ {ℓ} {E P W : Type ℓ} (o : Real W) (kernel : EdgeKernel E P W) where
  abbrev meets : P → P → Bool
  meets p q = o.gt kernel.confusion (kernel.distance p q)

  unfoldable pub check_common_vertex : E → E → Bool
  check_common_vertex e1 e2 =
      meets (kernel.first_point e1) (kernel.first_point e2)
      || (meets (kernel.first_point e1) (kernel.last_point e2)
          || (meets (kernel.last_point e1) (kernel.first_point e2)
              || meets (kernel.last_point e1) (kernel.last_point e2)))

  -- The test in `RemoveDuplicateEdges`.
  unfoldable pub is_duplicate : E → E → Bool
  is_duplicate edge check =
      ((meets (kernel.first_point edge) (kernel.first_point check)
          && meets (kernel.last_point edge) (kernel.last_point check))
        || (meets (kernel.first_point edge) (kernel.last_point check)
            && meets (kernel.last_point edge) (kernel.first_point check)))
      && o.gt kernel.middle_tol (kernel.distance (kernel.mid_point edge) (kernel.mid_point check))

-- `shares` is `CheckCommonVertex`.
module _ {ℓ} {E : Type ℓ} (shares : E → E → Bool) where
  -- The first edge of the list that is connected to `edge`, and the list without it.
  unfoldable pub find_connected : E → List E → Option (E × List E)
  find_connected edge [] = none
  find_connected edge (x ∷ xs) =
      let rest = find_connected edge xs in if shares edge x then some (x, xs) else keep x rest
    where
      keep : E → Option (E × List E) → Option (E × List E)
      keep x none = none
      keep x (some (y, ys)) = some (y, x ∷ ys)

  -- The list of edges and the target list after the call; `none` is a call that has not returned
  -- when the fuel has gone.
  unfoldable pub find_all_connected_edges :
      (fuel : ℕ) → E → List E → List E → Option (List E × List E)
  unfolding find_connected
  find_all_connected_edges zero edge edge_list target_list = none
  find_all_connected_edges (suc fuel) edge edge_list target_list =
      elim (find_connected edge edge_list) [
        | none ↦ some (edge_list, target_list)
        | some (x, rest) ↦ elim (find_all_connected_edges fuel x rest (target_list ++ x ∷ [])) [
          | none ↦ none
          | some (list, target) ↦ find_all_connected_edges fuel edge list target
        ]
      ]

  -- The edges of each wire; the fuel of the search is the size of the list.
  unfoldable pub group_edges : (fuel : ℕ) → List E → Option (List (List E))
  unfolding find_all_connected_edges
  group_edges zero edge_list = none
  group_edges (suc fuel) [] = some []
  group_edges (suc fuel) (e ∷ es) =
      elim (find_all_connected_edges (suc (length es)) e es (e ∷ [])) [
        | none ↦ none
        | some (list, wire_edges) ↦ elim (group_edges fuel list) [
          | none ↦ none
          | some groups ↦ some (wire_edges ∷ groups)
        ]
      ]

module _ {ℓ} {E : Type ℓ} (duplicate : E → E → Bool) where
  -- Whether `edge` is a duplicate of one that is kept.
  unfoldable pub has_duplicate : E → List E → Bool
  has_duplicate edge [] = false
  has_duplicate edge (x ∷ xs) =
      let rest = has_duplicate edge xs in if duplicate edge x then true else rest

  unfoldable pub remove_duplicate_edges : List E → List E → List E
  unfolding has_duplicate
  remove_duplicate_edges new_list [] = new_list
  remove_duplicate_edges new_list (e ∷ es) =
      remove_duplicate_edges (if has_duplicate e new_list then new_list else new_list ++ e ∷ []) es
