-- ===== src/Naming/Tags.antt =====
-- Tags and tag tracks (Shape.cpp, Shape.h): members that write to the shared data.
-- `int m_remainingSteps` is a number: one that is not positive is 0.
use Prim.Native.String.{String}
use geoml.Common.{ℕ, ◌&&◌, List, [], ◌∷◌, ◌++◌, if◌then◌else◌, ltb}
use geoml.Naming.{Occt, Heap, TagTrack, Predicate, write}
use geoml.Naming.Queries.{int_max, children_of, select_subshapes, get_subshapes}

module _ {Topo Criterion : Type 0} where
  unfoldable pub add_meta_tag : String → Heap Topo Criterion → ℕ → Heap Topo Criterion
  unfolding write
  add_meta_tag tag h s =
      let d = h.cell s in
      write h s (record d { persistent_meta_tags = d.persistent_meta_tags ++ (tag ∷ []) })

  unfoldable pub add_tag_track : TagTrack Criterion → Heap Topo Criterion → ℕ → Heap Topo Criterion
  unfolding write
  add_tag_track track h s =
      let d = h.cell s in write h s (record d { tag_tracks = d.tag_tracks ++ (track ∷ []) })

  -- `for (auto& s : selection) s.add_meta_tag(tag);`
  unfoldable pub tag_all : String → List ℕ → Heap Topo Criterion → Heap Topo Criterion
  unfolding add_meta_tag
  tag_all tag [] h = h
  tag_all tag (s ∷ ss) h = tag_all tag ss (add_meta_tag tag h s)

  unfoldable pub apply_track :
      (Criterion → Predicate Topo Criterion)
      → TagTrack Criterion
      → ℕ
      → Heap Topo Criterion
      → Heap Topo Criterion
  unfolding add_meta_tag
  apply_track run t s h =
      if ltb 0 t.remaining_steps && run t.criterion h s then add_meta_tag t.tag h s else h

  -- The inner loop of `apply_tag_tracks`: all tracks, at one subshape.
  unfoldable pub apply_tracks :
      (Criterion → Predicate Topo Criterion)
      → List (TagTrack Criterion)
      → ℕ
      → Heap Topo Criterion
      → Heap Topo Criterion
  unfolding apply_track
  apply_tracks run [] s h = h
  apply_tracks run (t ∷ ts) s h = apply_tracks run ts s (apply_track run t s h)

  -- The outer loop, over the subshapes.
  unfoldable pub apply_at_all :
      (Criterion → Predicate Topo Criterion)
      → List (TagTrack Criterion)
      → List ℕ
      → Heap Topo Criterion
      → Heap Topo Criterion
  unfolding apply_tracks
  apply_at_all run ts [] h = h
  apply_at_all run ts (s ∷ ss) h = apply_at_all run ts ss (apply_tracks run ts s h)

  module _ (occt : Occt Topo) (hash_order : List ℕ → List ℕ) where
    unfoldable pub add_meta_tag_to_subshapes :
        Predicate Topo Criterion → String → Heap Topo Criterion → ℕ → Heap Topo Criterion
    unfolding tag_all select_subshapes
    add_meta_tag_to_subshapes f tag h s =
        let (c, g) = select_subshapes occt hash_order f int_max h s in
        tag_all tag (children_of g c) g

    unfoldable pub apply_tag_tracks :
        (Criterion → Predicate Topo Criterion) → Heap Topo Criterion → ℕ → Heap Topo Criterion
    unfolding apply_at_all get_subshapes
    apply_tag_tracks run h s =
        let (c, g) = get_subshapes occt hash_order h s in
        apply_at_all run (h.cell s).tag_tracks (children_of g c) g
