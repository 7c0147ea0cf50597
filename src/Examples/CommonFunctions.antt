-- ===== src/Examples/CommonFunctions.antt =====
-- Edges as pairs of numbers on a line of integers.
use geoml.Common.{ℕ, ◌≡◌, refl, Bool, true, ◌||◌, ◌==◌, List, [], ◌∷◌, ◌++◌, In, some, arith}
use geoml.Common.Int.{ℤ, pos, sub_ℕ}
use geoml.Common.Real.{int_real}
use geoml.CommonFunctions.{find_all_connected_edges, group_edges, remove_duplicate_edges}
use geoml.CommonFunctions.Connected.{count, Moved, find_all_connected_edges-Moved}
use geoml.CommonFunctions.Wires.{
  flatten, IsWires, group_edges-IsWires, IsDistinct, remove_duplicate_edges-IsDistinct,
}
use geoml.CommonFunctions.Linspace.{Grid}
use geoml.Examples.Mod3.{Mod3, zero3, one3, mul3}

record Edge : Type 0 where
  start : ℕ
  stop : ℕ

abbrev edge : ℕ → ℕ → Edge
edge a b = record { start = a; stop = b }

abbrev shares : Edge → Edge → Bool
shares a b =
    (a.start == b.start) || ((a.start == b.stop) || ((a.stop == b.start) || (a.stop == b.stop)))

abbrev edges : List Edge
edges = edge 5 6 ∷ edge 2 3 ∷ edge 1 2 ∷ edge 6 7 ∷ []

find_all_connected_edges-Moved_example :
    (ys : List Edge) × (added : List Edge) × (find_all_connected_edges shares 5
        (edge 0 1)
        edges
        (edge 0 1 ∷ [])
      ≡ some (ys, edge 0 1 ∷ [] ++ added))
    × Moved shares (edge 0 1) edges ys added
find_all_connected_edges-Moved_example =
    find_all_connected_edges-Moved shares 5 (edge 0 1) edges (edge 0 1 ∷ []) (omega arith)

group_edges-IsWires_example :
    (groups : List (List Edge)) × (group_edges shares 5 edges ≡ some groups)
    × IsWires shares groups
    × ((p : Edge → Bool) → count p (flatten shares groups) ≡ count p edges)
    × ((z : Edge) → In z (flatten shares groups) → In z edges)
group_edges-IsWires_example = group_edges-IsWires shares 5 edges (omega arith)

-- Two wires.
two_wires :
    group_edges shares 5 edges ≡ some ((edge 5 6 ∷ edge 6 7 ∷ []) ∷ (edge 2 3 ∷ edge 1 2 ∷ []) ∷ [])
unfolding group_edges
two_wires = refl

equal_refl : (e : Edge) → shares e e ≡ true
equal_refl e = ground arith

remove_duplicate_edges-IsDistinct_example :
    (more : List Edge) × (remove_duplicate_edges shares [] edges ≡ [] ++ more)
    × IsDistinct shares [] more
    × ((x : Edge) → In x more → In x edges)
    × ((x : Edge) → In x edges → (y : Edge) × In y ([] ++ more) × (shares x y ≡ true))
remove_duplicate_edges-IsDistinct_example =
    remove_duplicate_edges-IsDistinct shares [] edges equal_refl

-- The direction is that of the line.
abbrev along : ℕ → ℕ → ℤ
along p q = sub_ℕ q p

along_height : (p q : ℕ) → int_real.gt (pos 0) (along p q) ≡ int_real.gt (pos p) (pos q)
along_height p q = ground arith

abbrev heights : List ℕ
heights = 4 ∷ 1 ∷ 7 ∷ []

abbrev grid : Grid Mod3
grid = record { div = mul3; of_nat = λ k. one3; eps = zero3; near_half = one3 }
