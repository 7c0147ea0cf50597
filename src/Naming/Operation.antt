-- ===== src/Naming/Operation.antt =====
-- src/topology/Operation.h: a modelling operation, whose `perform` and `map_subshapes` the derived
-- class gives, and which hands the tag tracks of its inputs on to its result.
use geoml.Common.{ℕ, ◌-◌, List, [], ◌∷◌, ◌++◌, if◌then◌else◌, leb}
use geoml.Naming.{Occt, Heap, TagTrack, Predicate, write}
use geoml.Naming.Tags.{add_tag_track, apply_tag_tracks}

-- The last loop: worn out tracks are erased, the others lose a step.
unfoldable pub wear_out :
    {Criterion : Type 0} → List (TagTrack Criterion) → List (TagTrack Criterion)
wear_out [] = []
wear_out (t ∷ ts) =
    if leb t.remaining_steps 1
    then wear_out ts
    else record t { remaining_steps = t.remaining_steps - 1 } ∷ wear_out ts

module _ {Topo Criterion : Type 0} where
  unfoldable pub add_origin : Heap Topo Criterion → (output input : ℕ) → Heap Topo Criterion
  unfolding write
  add_origin h output input =
      let d = h.cell output in write h output (record d { origins = d.origins ++ (input ∷ []) })

  -- The inner loop of the collection: the tracks of one input.
  unfoldable pub add_tracks :
      List (TagTrack Criterion) → ℕ → Heap Topo Criterion → Heap Topo Criterion
  unfolding add_tag_track
  add_tracks [] r h = h
  add_tracks (t ∷ ts) r h = add_tracks ts r (add_tag_track t h r)

  unfoldable pub collect_tracks : List ℕ → ℕ → Heap Topo Criterion → Heap Topo Criterion
  unfolding add_tracks
  collect_tracks [] r h = h
  collect_tracks (i ∷ is) r h = collect_tracks is r (add_tracks (h.cell i).tag_tracks r h)

  unfoldable pub set_tracks :
      Heap Topo Criterion → ℕ → List (TagTrack Criterion) → Heap Topo Criterion
  unfolding write
  set_tracks h r ts = write h r (record (h.cell r) { tag_tracks = ts })

  module _ (occt : Occt Topo) (hash_order : List ℕ → List ℕ)
      (run : Criterion → Predicate Topo Criterion) where
    unfoldable pub merge_and_apply_tag_tracks :
        (inputs : List ℕ) (result : ℕ) → Heap Topo Criterion → Heap Topo Criterion
    unfolding collect_tracks apply_tag_tracks wear_out set_tracks
    merge_and_apply_tag_tracks inputs result h =
        let g = apply_tag_tracks occt hash_order run (collect_tracks inputs result h) result in
        set_tracks g result (wear_out (g.cell result).tag_tracks)

    unfoldable pub value :
        (Heap Topo Criterion → ℕ × Heap Topo Criterion)
        → (ℕ → Heap Topo Criterion → Heap Topo Criterion)
        → (inputs : List ℕ) → Heap Topo Criterion
        → ℕ × Heap Topo Criterion
    unfolding merge_and_apply_tag_tracks
    value perform map_subshapes inputs h =
        let (ret, g) = perform h in
        (ret, merge_and_apply_tag_tracks inputs ret (map_subshapes ret g))
