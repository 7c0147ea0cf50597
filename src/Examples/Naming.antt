-- ===== src/Examples/Naming.antt =====
-- Two faces that share an edge, in a compound.
use geoml.Common.{
  ℕ, zero, suc, ◌≤◌, ◌<◌, ◌≡◌, ◌↔◌, inl, inr, refl, true, false, List, [], ◌∷◌, arith, In, ◌==◌,
}
use geoml.Naming.{
  Occt, Heap, ShapeData, TagTrack, ShapeEnum, compound, face, edge, vertex, new_shape, write,
}
use geoml.Naming.Reach.{here, step, Within}
use geoml.Naming.Queries.{
  int_max, children_of, origins_of, has_subshape_that, is_type, is_same, select_subshapes,
  find_results, get_subshapes, size,
}
use geoml.Naming.Subshapes.{has_subshape_that_iff, select_subshapes-IsSelection, IsSelection}
use geoml.Naming.History.{has_tag, is_descendent_of_subshape_in}
use geoml.Naming.Descent.{is_descendent_of_subshape_in_iff}
use geoml.Naming.Tags.{add_meta_tag_to_subshapes, apply_tag_tracks}
use geoml.Naming.Tagging.{IgnoresTags}
use geoml.Naming.Operation.{merge_and_apply_tag_tracks}
use geoml.Naming.Lifetime.{input_tracks, merge-tag_tracks}
use geoml.Naming.Marking.{add_meta_tag_to_subshapes-has_tag, apply_tag_tracks-has_tag}

-- 3 is a compound of the faces 2 and 4, which share the edge 1. A made compound is 5.
abbrev occt : Occt ℕ
occt = record {
  null = 0;
  is_null = λ t. t == 0;
  shape_type = kind;
  is_same = ◌==◌;
  iterate = parts;
  make_compound = λ ts. 5;
  height = λ t. t;
}
  where
    kind : ℕ → ShapeEnum
    kind zero = vertex
    kind (suc zero) = edge
    kind (suc (suc zero)) = face
    kind (suc (suc (suc (suc zero)))) = face
    kind _ = compound

    parts : ℕ → List ℕ
    parts (suc (suc zero)) = 1 ∷ []
    parts (suc (suc (suc zero))) = 2 ∷ 4 ∷ []
    parts (suc (suc (suc (suc zero)))) = 1 ∷ []
    parts _ = []

abbrev no_data : ShapeData ℕ ShapeEnum
no_data = record {
  shape = 0;
  children = [];
  origins = [];
  persistent_meta_tags = [];
  tag_tracks = [];
}

abbrev empty_heap : Heap ℕ ShapeEnum
empty_heap = record { cell = λ a. no_data; next = 0 }

abbrev built : ℕ × Heap ℕ ShapeEnum
built = new_shape occt 3 empty_heap

abbrev heap : Heap ℕ ShapeEnum
heap = built.1

abbrev in_order : List ℕ → List ℕ
in_order xs = xs

in_order-In : (a : ℕ) (xs : List ℕ) → In a (in_order xs) ↔ In a xs
in_order-In a xs = (λ i. i, λ i. i)

same_refl : (t : ℕ) → (t == t) ≡ true
same_refl t = ground arith

same_symm : (t u : ℕ) → (t == u) ≡ (u == t)
same_symm t u = ground arith

abbrev marked : Heap ℕ ShapeEnum
marked = add_meta_tag_to_subshapes occt in_order (is_type occt edge) "seam" heap 4

-- The edge has the data 0 below one face and 2 below the other, and one of them alone is tagged.
runs :
    (built.0 ≡ 4)
    × (children_of heap 4 ≡ 1 ∷ 3 ∷ [])
    × (has_subshape_that (is_type occt edge) heap 4 ≡ true)
    × (find_results occt (is_type occt edge) int_max heap 4 ≡ 0 ∷ [])
    × (has_tag "seam" marked 0 ≡ true)
    × (has_tag "seam" marked 2 ≡ false)
    × (size occt heap 0 ≡ 1)
unfolding new_shape has_subshape_that is_type find_results add_meta_tag_to_subshapes has_tag size
runs = (refl, refl, refl, refl, refl, refl, refl)

has_subshape_that_iff_example :
    (has_subshape_that (is_type occt edge) heap 4 ≡ true)
    ↔ ((t : ℕ) × Within (children_of heap) int_max 4 t × (is_type occt edge heap t ≡ true))
has_subshape_that_iff_example = has_subshape_that_iff (is_type occt edge) heap 4

select_subshapes-IsSelection_example :
    let (c, g) = select_subshapes occt in_order (is_type occt edge) 2 heap 4 in
    IsSelection occt same_refl same_symm in_order in_order-In
      (is_type occt edge)
      2
      heap
      4
      (children_of g c)
    × (5 ≤ c)
    × ((a : ℕ) → a < 5 → g.cell a ≡ heap.cell a)
unfolding new_shape
select_subshapes-IsSelection_example =
    select_subshapes-IsSelection occt same_refl same_symm in_order in_order-In (is_type occt edge) 2
      heap 4

edge_below : Within (children_of heap) int_max 4 0
unfolding new_shape int_max
edge_below = (2, omega arith, step {s = 4} 1 (inl refl) (step {s = 1} 0 (inl refl) here))

add_meta_tag_to_subshapes-has_tag_example :
    (r : ℕ) × Within (children_of heap) int_max 4 r
    × (is_type occt edge heap r ≡ true)
    × (is_same occt 0 heap r ≡ true)
    × (has_tag "seam" marked r ≡ true)
unfolding new_shape is_type
add_meta_tag_to_subshapes-has_tag_example =
    add_meta_tag_to_subshapes-has_tag occt same_refl same_symm in_order in_order-In
      (is_type occt edge) "seam" heap 4 0 edge_below refl

-- A track that tags edges, on the compound, with two steps left.
abbrev track : TagTrack ShapeEnum
track = record { tag = "seam"; criterion = edge; remaining_steps = 2 }

abbrev tracked : Heap ℕ ShapeEnum
tracked = write heap 4 (record (heap.cell 4) { tag_tracks = track ∷ [] })

edge_type-IgnoresTags : IgnoresTags {Topo = ℕ} {Criterion = ShapeEnum} (is_type occt edge)
unfolding is_type
edge_type-IgnoresTags h g a v = rw (v.shape_same a)

edge_below_tracked : Within (children_of tracked) int_max 4 0
unfolding new_shape int_max write
edge_below_tracked = (2, omega arith, step {s = 4} 1 (inl refl) (step {s = 1} 0 (inl refl) here))

apply_tag_tracks-has_tag_example :
    (r : ℕ) × Within (children_of tracked) int_max 4 r
    × (is_same occt 0 tracked r ≡ true)
    × (is_type occt edge (get_subshapes occt in_order tracked 4).1 r ≡ true
        → has_tag "seam" (apply_tag_tracks occt in_order (is_type occt) tracked 4) r ≡ true)
unfolding write
apply_tag_tracks-has_tag_example =
    apply_tag_tracks-has_tag occt same_refl same_symm in_order in_order-In (is_type occt) tracked 4
      0 track edge_type-IgnoresTags (inl refl) (omega arith) edge_below_tracked

-- The result 0 of an operation on the compound takes over the track, with one step left.
merge-tag_tracks_example :
    ((merge_and_apply_tag_tracks occt in_order (is_type occt) (4 ∷ []) 0 tracked).cell 0).tag_tracks
    ≡ record { tag = "seam"; criterion = edge; remaining_steps = 1 } ∷ []
unfolding write new_shape input_tracks
merge-tag_tracks_example =
    merge-tag_tracks occt in_order (is_type occt) (4 ∷ []) 0 tracked (omega arith) other
  where
    other : (a : ℕ) → In a (4 ∷ []) → (a == 0) ≡ false
    other a (inl e) = ground arith
    other a (inr i) = elim i [ ]

is_descendent_of_subshape_in_iff_example : (is_descendent_of_subshape_in occt 4 1 heap 2 ≡ true) ↔ (
    (t : ℕ) × Within (children_of heap) int_max 4 t
    × (u : ℕ) × Within (origins_of heap) int_max 2 u
    × (is_same occt t heap u ≡ true))
is_descendent_of_subshape_in_iff_example = is_descendent_of_subshape_in_iff occt heap 4 1 2
