-- ===== src/Naming/Lifetime.antt =====
-- How long a tag track lives: `remaining_steps` operations, counted over the chain of results.
use geoml.Common.{
  ℕ, zero, suc, ◌-◌, ◌<◌, ◌≡◌, inl, inr, refl, sym, ◌∙◌, ap, Bool, true, false, List, [], ◌∷◌, ◌++◌,
  arith, In, ltb, ◌==◌, select, map,
}
use mathlib.Core.List.{append_assoc, append-nil}
use geoml.Naming.{Occt, Heap, ShapeData, TagTrack, Predicate}
use geoml.Naming.Queries.{children_of, get_subshapes, int_max}
use geoml.Naming.Subshapes.{select_subshapes-fresh}
use geoml.Naming.Tags.{add_tag_track, apply_tag_tracks}
use geoml.Naming.Tagging.{apply_at_all-OnlyTags}
use geoml.Naming.Operation.{
  add_tracks, collect_tracks, wear_out, set_tracks, merge_and_apply_tag_tracks,
}

module _ {Criterion : Type 0} where
  -- A track after `k` operations.
  abbrev pub worn : ℕ → TagTrack Criterion → TagTrack Criterion
  worn k t = record t { remaining_steps = t.remaining_steps - k }

  abbrev pub outlives : ℕ → TagTrack Criterion → Bool
  outlives k t = ltb k t.remaining_steps

  unfoldable pub wear_out_times : ℕ → List (TagTrack Criterion) → List (TagTrack Criterion)
  wear_out_times zero ts = ts
  wear_out_times (suc k) ts = wear_out (wear_out_times k ts)

  wear_out-worn :
      (k : ℕ) (ts : List (TagTrack Criterion))
      → wear_out (map (worn k) (select (outlives k) ts))
        ≡ map (worn (suc k)) (select (outlives (suc k)) ts)
  unfolding wear_out
  wear_out-worn k [] = refl
  wear_out-worn k (t ∷ ts) = ground (arith, wear_out-worn k ts)

  wear_out-first :
      (ts : List (TagTrack Criterion)) → wear_out ts ≡ map (worn 1) (select (outlives 1) ts)
  unfolding wear_out
  wear_out-first [] = refl
  wear_out-first (t ∷ ts) = ground (arith, wear_out-first ts)

  -- After one or more operations the tracks left are those that had more steps than there were
  -- operations, with that many steps less.
  pub wear_out_times-worn :
      (k : ℕ) (ts : List (TagTrack Criterion))
      → wear_out_times (suc k) ts ≡ map (worn (suc k)) (select (outlives (suc k)) ts)
  unfolding wear_out_times
  wear_out_times-worn zero ts = wear_out-first ts
  wear_out_times-worn (suc k) ts = ap wear_out (wear_out_times-worn k ts) ∙ wear_out-worn (suc k) ts

module _ {Topo Criterion : Type 0} where
  add_tag_track-other :
      (t : TagTrack Criterion) (h : Heap Topo Criterion) (r a : ℕ)
      → (a == r) ≡ false
      → (add_tag_track t h r).cell a ≡ h.cell a
  unfolding add_tag_track
  add_tag_track-other t h r a e = rw e

  add_tag_track_self :
      (t : TagTrack Criterion) (h : Heap Topo Criterion) (r : ℕ)
      → ((add_tag_track t h r).cell r).tag_tracks ≡ (h.cell r).tag_tracks ++ (t ∷ [])
  unfolding add_tag_track
  add_tag_track_self t h r = ground arith

  add_tracks-other :
      (ts : List (TagTrack Criterion)) (h : Heap Topo Criterion) (r a : ℕ)
      → (a == r) ≡ false
      → (add_tracks ts r h).cell a ≡ h.cell a
  unfolding add_tracks
  add_tracks-other [] h r a e = refl
  add_tracks-other (t ∷ ts) h r a e =
      add_tracks-other ts (add_tag_track t h r) r a e ∙ add_tag_track-other t h r a e

  add_tracks_self :
      (ts : List (TagTrack Criterion)) (h : Heap Topo Criterion) (r : ℕ)
      → ((add_tracks ts r h).cell r).tag_tracks ≡ (h.cell r).tag_tracks ++ ts
  unfolding add_tracks
  add_tracks_self [] h r = sym (append-nil _)
  add_tracks_self (t ∷ ts) h r =
      add_tracks_self ts (add_tag_track t h r) r
      ∙ ap (λ (us : List (TagTrack Criterion)). us ++ ts) (add_tag_track_self t h r)
      ∙ append_assoc (h.cell r).tag_tracks (t ∷ []) ts

  add_tracks-next :
      (ts : List (TagTrack Criterion)) (h : Heap Topo Criterion) (r : ℕ)
      → (add_tracks ts r h).next ≡ h.next
  unfolding add_tracks add_tag_track
  add_tracks-next [] h r = refl
  add_tracks-next (t ∷ ts) h r = add_tracks-next ts (add_tag_track t h r) r

  -- The tracks of all inputs, in order.
  unfoldable pub input_tracks : Heap Topo Criterion → List ℕ → List (TagTrack Criterion)
  input_tracks h [] = []
  input_tracks h (i ∷ is) = (h.cell i).tag_tracks ++ input_tracks h is

  input_tracks-same :
      (h g : Heap Topo Criterion) (is : List ℕ)
      → ((a : ℕ) → In a is → g.cell a ≡ h.cell a)
      → input_tracks g is ≡ input_tracks h is
  unfolding input_tracks
  input_tracks-same h g [] same = refl
  input_tracks-same h g (i ∷ is) same =
      rw (same i (inl refl), input_tracks-same h g is (λ a j. same a (inr j)))

  collect_tracks_self :
      (is : List ℕ) (h : Heap Topo Criterion) (r : ℕ)
      → ((a : ℕ) → In a is → (a == r) ≡ false)
      → ((collect_tracks is r h).cell r).tag_tracks ≡ (h.cell r).tag_tracks ++ input_tracks h is
  unfolding collect_tracks input_tracks
  collect_tracks_self [] h r out = sym (append-nil _)
  collect_tracks_self (i ∷ is) h r out =
      let ts = (h.cell i).tag_tracks in
      let g = add_tracks ts r h in
      collect_tracks_self is g r (λ a j. out a (inr j))
      ∙ rw
          (
            add_tracks_self ts h r,
            input_tracks-same h g is (λ a j. add_tracks-other ts h r a (out a (inr j))),
          )
          (append_assoc (h.cell r).tag_tracks ts (input_tracks h is))

  collect_tracks-next :
      (is : List ℕ) (h : Heap Topo Criterion) (r : ℕ) → (collect_tracks is r h).next ≡ h.next
  unfolding collect_tracks
  collect_tracks-next [] h r = refl
  collect_tracks-next (i ∷ is) h r =
      collect_tracks-next is (add_tracks (h.cell i).tag_tracks r h) r
      ∙ add_tracks-next (h.cell i).tag_tracks h r

  set_tracks_self :
      (h : Heap Topo Criterion) (r : ℕ) (ts : List (TagTrack Criterion))
      → ((set_tracks h r ts).cell r).tag_tracks ≡ ts
  unfolding set_tracks
  set_tracks_self h r ts = ground arith

  module _ (occt : Occt Topo) (hash_order : List ℕ → List ℕ)
      (run : Criterion → Predicate Topo Criterion) where
    apply_tag_tracks-tracks :
        (h : Heap Topo Criterion) (s a : ℕ)
        → a < h.next
        → ((apply_tag_tracks occt hash_order run h s).cell a).tag_tracks ≡ (h.cell a).tag_tracks
    unfolding apply_tag_tracks get_subshapes
    apply_tag_tracks-tracks h s a b =
        let sub = get_subshapes occt hash_order h s in
        (apply_at_all-OnlyTags run (h.cell s).tag_tracks (children_of sub.1 sub.0)
            sub.1).tracks_same
          a
        ∙ ap (λ (d : ShapeData Topo Criterion). d.tag_tracks)
            ((select_subshapes-fresh occt hash_order (λ g t. true) int_max h s).1 a b)

    -- The result of an operation takes over the tracks of its inputs, behind its own, and each of
    -- them has one step less; those that had one step or none are gone. The result is an allocated
    -- shape that is not one of the inputs.
    pub merge-tag_tracks :
        (inputs : List ℕ) (r : ℕ) (h : Heap Topo Criterion)
        → r < h.next
        → ((a : ℕ) → In a inputs → (a == r) ≡ false)
        → ((merge_and_apply_tag_tracks occt hash_order run inputs r h).cell r).tag_tracks
          ≡ map (worn 1) (select (outlives 1) ((h.cell r).tag_tracks ++ input_tracks h inputs))
    unfolding merge_and_apply_tag_tracks
    merge-tag_tracks inputs r h b out =
        let g = collect_tracks inputs r h in
        let k = apply_tag_tracks occt hash_order run g r in
        set_tracks_self k r (wear_out (k.cell r).tag_tracks)
        ∙ ap wear_out (
            apply_tag_tracks-tracks g r r (omega (arith, collect_tracks-next inputs h r))
            ∙ collect_tracks_self inputs h r out)
        ∙ wear_out-first ((h.cell r).tag_tracks ++ input_tracks h inputs)
