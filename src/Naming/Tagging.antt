-- ===== src/Naming/Tagging.antt =====
-- What the loops over tags and tag tracks write: tags alone, and all that they should.
use Prim.Native.String.{String}
use mathlib.Core.List.{append-nil}
use text.Mathlib.Text.{◌==◌ as str_eq}
use text.Mathlib.TextPositions.{eq_refl}
use geoml.Common.{
  ℕ, ◌<◌, ◌≡◌, inl, inr, refl, ◌∙◌, subst, true, false, ◌&&◌, List, [], ◌∷◌, ◌++◌, arith,
  if◌then◌else◌, In, In-any, In-append_left, In-append_right, ltb, Bool-cases, ◌==◌,
}
use geoml.Naming.{Heap, TagTrack, Predicate}
use geoml.Naming.History.{has_tag}
use geoml.Naming.Tags.{add_meta_tag, tag_all, apply_track, apply_tracks, apply_at_all}

-- `g` is `h` with more tags, and nothing else.
pub record OnlyTags {Topo Criterion : Type 0} (h g : Heap Topo Criterion) : Type 0 where
  pub next_same : g.next ≡ h.next
  pub shape_same : (a : ℕ) → (g.cell a).shape ≡ (h.cell a).shape
  pub children_same : (a : ℕ) → (g.cell a).children ≡ (h.cell a).children
  pub origins_same : (a : ℕ) → (g.cell a).origins ≡ (h.cell a).origins
  pub tracks_same : (a : ℕ) → (g.cell a).tag_tracks ≡ (h.cell a).tag_tracks
  pub tags_kept :
      (a : ℕ) (t : String)
      → In t (h.cell a).persistent_meta_tags
      → In t (g.cell a).persistent_meta_tags

module _ {Topo Criterion : Type 0} where
  pub OnlyTags-refl : (h : Heap Topo Criterion) → OnlyTags h h
  OnlyTags-refl h = record {
    next_same = refl;
    shape_same = λ a. refl;
    children_same = λ a. refl;
    origins_same = λ a. refl;
    tracks_same = λ a. refl;
    tags_kept = λ a t i. i;
  }

  pub OnlyTags-trans : (h g k : Heap Topo Criterion) → OnlyTags h g → OnlyTags g k → OnlyTags h k
  OnlyTags-trans h g k x y = record {
    next_same = y.next_same ∙ x.next_same;
    shape_same = λ a. y.shape_same a ∙ x.shape_same a;
    children_same = λ a. y.children_same a ∙ x.children_same a;
    origins_same = λ a. y.origins_same a ∙ x.origins_same a;
    tracks_same = λ a. y.tracks_same a ∙ x.tracks_same a;
    tags_kept = λ a t i. y.tags_kept a t (x.tags_kept a t i);
  }

  tags-add_meta_tag :
      (tag : String) (h : Heap Topo Criterion) (s a : ℕ)
      → ((add_meta_tag tag h s).cell a).persistent_meta_tags
        ≡ (h.cell a).persistent_meta_tags ++ (if a == s then tag ∷ [] else [])
  unfolding add_meta_tag
  tags-add_meta_tag tag h s a = ground (arith, append-nil (h.cell a).persistent_meta_tags)

  pub add_meta_tag-OnlyTags :
      (tag : String) (h : Heap Topo Criterion) (s : ℕ) → OnlyTags h (add_meta_tag tag h s)
  add_meta_tag-OnlyTags tag h s = record {
    next_same = unfold add_meta_tag in refl;
    shape_same = λ a. unfold add_meta_tag in ground arith;
    children_same = λ a. unfold add_meta_tag in ground arith;
    origins_same = λ a. unfold add_meta_tag in ground arith;
    tracks_same = λ a. unfold add_meta_tag in ground arith;
    tags_kept = λ a t i. rw (tags-add_meta_tag tag h s a) (In-append_left t _ _ i);
  }

  add_meta_tag-In :
      (tag : String) (h : Heap Topo Criterion) (s : ℕ)
      → In tag ((add_meta_tag tag h s).cell s).persistent_meta_tags
  add_meta_tag-In tag h s =
      let e : (s == s) ≡ true = ground arith in
      rw (tags-add_meta_tag tag h s s, e)
        (In-append_right tag (h.cell s).persistent_meta_tags (tag ∷ []) (inl refl))

  pub tag_all-OnlyTags :
      (tag : String) (ss : List ℕ) (h : Heap Topo Criterion) → OnlyTags h (tag_all tag ss h)
  unfolding tag_all
  tag_all-OnlyTags tag [] h = OnlyTags-refl h
  tag_all-OnlyTags tag (s ∷ ss) h =
      OnlyTags-trans h _ _ (add_meta_tag-OnlyTags tag h s)
        (tag_all-OnlyTags tag ss (add_meta_tag tag h s))

  pub tag_all-In :
      (tag : String) (s : ℕ) (ss : List ℕ) (h : Heap Topo Criterion)
      → In s ss
      → In tag ((tag_all tag ss h).cell s).persistent_meta_tags
  unfolding tag_all
  tag_all-In tag s [] h i = elim i [ ]
  tag_all-In tag s (x ∷ xs) h (inl e) =
      (tag_all-OnlyTags tag xs (add_meta_tag tag h x)).tags_kept s tag (
        subst (λ (y : ℕ). In tag ((add_meta_tag tag h y).cell s).persistent_meta_tags) e
          (add_meta_tag-In tag h s))
  tag_all-In tag s (x ∷ xs) h (inr i) = tag_all-In tag s xs (add_meta_tag tag h x) i

  -- A shape outside of the selection keeps its tags.
  pub tag_all-other :
      (tag : String) (a : ℕ) (ss : List ℕ) (h : Heap Topo Criterion)
      → ¬ (In a ss)
      → ((tag_all tag ss h).cell a).persistent_meta_tags ≡ (h.cell a).persistent_meta_tags
  unfolding tag_all
  tag_all-other tag a [] h out = refl
  tag_all-other tag a (x ∷ xs) h out =
      let miss : (a == x) ≡ false = ground (arith, λ (e : a ≡ x). out (inl e)) in
      tag_all-other tag a xs (add_meta_tag tag h x) (λ i. out (inr i))
      ∙ tags-add_meta_tag tag h x a
      ∙ rw miss (append-nil _)

  -- A tag that is in the list is found.
  pub In-has_tag :
      (tag : String) (h : Heap Topo Criterion) (s : ℕ)
      → In tag (h.cell s).persistent_meta_tags
      → has_tag tag h s ≡ true
  unfolding has_tag
  In-has_tag tag h s i = In-any (λ t. str_eq t tag) tag _ i (eq_refl tag)

  apply_track-OnlyTags :
      (run : Criterion → Predicate Topo Criterion) (t : TagTrack Criterion) (s : ℕ)
      (h : Heap Topo Criterion)
      → OnlyTags h (apply_track run t s h)
  unfolding apply_track
  apply_track-OnlyTags run t s h =
      elim (Bool-cases (ltb 0 t.remaining_steps && run t.criterion h s)) [
        | inl e ↦ rw (e, apply_track) (add_meta_tag-OnlyTags t.tag h s)
        | inr e ↦ rw (e, apply_track) (OnlyTags-refl h)
      ]

  apply_track-In :
      (run : Criterion → Predicate Topo Criterion) (t : TagTrack Criterion) (s : ℕ)
      (h : Heap Topo Criterion)
      → 0 < t.remaining_steps
      → run t.criterion h s ≡ true
      → In t.tag ((apply_track run t s h).cell s).persistent_meta_tags
  unfolding apply_track
  apply_track-In run t s h pos q =
      let e : (ltb 0 t.remaining_steps && run t.criterion h s) ≡ true = ground arith in
      rw (e, apply_track) (add_meta_tag-In t.tag h s)

  apply_tracks-OnlyTags :
      (run : Criterion → Predicate Topo Criterion) (ts : List (TagTrack Criterion)) (s : ℕ)
      (h : Heap Topo Criterion)
      → OnlyTags h (apply_tracks run ts s h)
  unfolding apply_tracks
  apply_tracks-OnlyTags run [] s h = OnlyTags-refl h
  apply_tracks-OnlyTags run (t ∷ ts) s h =
      OnlyTags-trans h _ _ (apply_track-OnlyTags run t s h)
        (apply_tracks-OnlyTags run ts s (apply_track run t s h))

  pub apply_at_all-OnlyTags :
      (run : Criterion → Predicate Topo Criterion) (ts : List (TagTrack Criterion)) (ss : List ℕ)
      (h : Heap Topo Criterion)
      → OnlyTags h (apply_at_all run ts ss h)
  unfolding apply_at_all
  apply_at_all-OnlyTags run ts [] h = OnlyTags-refl h
  apply_at_all-OnlyTags run ts (s ∷ ss) h =
      OnlyTags-trans h _ _ (apply_tracks-OnlyTags run ts s h)
        (apply_at_all-OnlyTags run ts ss (apply_tracks run ts s h))

  -- A criterion that does not look at tags.
  abbrev pub IgnoresTags : Predicate Topo Criterion → Type 0
  IgnoresTags f = (h g : Heap Topo Criterion) (a : ℕ) → OnlyTags h g → f g a ≡ f h a

  apply_tracks-In :
      (run : Criterion → Predicate Topo Criterion) (ts : List (TagTrack Criterion)) (s : ℕ)
      (h : Heap Topo Criterion) (t : TagTrack Criterion)
      → IgnoresTags (run t.criterion)
      → In t ts
      → 0 < t.remaining_steps
      → run t.criterion h s ≡ true
      → In t.tag ((apply_tracks run ts s h).cell s).persistent_meta_tags
  unfolding apply_tracks
  apply_tracks-In run [] s h t blind i pos q = elim i [ ]
  apply_tracks-In run (u ∷ us) s h t blind (inl e) pos q =
      (apply_tracks-OnlyTags run us s (apply_track run u s h)).tags_kept s t.tag (
        subst
          (λ (x : TagTrack Criterion).
            In t.tag ((apply_track run x s h).cell s).persistent_meta_tags)
          e (apply_track-In run t s h pos q))
  apply_tracks-In run (u ∷ us) s h t blind (inr i) pos q =
      apply_tracks-In run us s (apply_track run u s h) t blind i pos
        (blind h _ s (apply_track-OnlyTags run u s h) ∙ q)

  pub apply_at_all-In :
      (run : Criterion → Predicate Topo Criterion) (ts : List (TagTrack Criterion)) (ss : List ℕ)
      (s : ℕ) (h : Heap Topo Criterion) (t : TagTrack Criterion)
      → IgnoresTags (run t.criterion)
      → In t ts
      → 0 < t.remaining_steps
      → In s ss
      → run t.criterion h s ≡ true
      → In t.tag ((apply_at_all run ts ss h).cell s).persistent_meta_tags
  unfolding apply_at_all
  apply_at_all-In run ts [] s h t blind i pos j q = elim j [ ]
  apply_at_all-In run ts (x ∷ xs) s h t blind i pos (inl e) q =
      (apply_at_all-OnlyTags run ts xs (apply_tracks run ts x h)).tags_kept s t.tag (
        subst (λ (y : ℕ). In t.tag ((apply_tracks run ts y h).cell s).persistent_meta_tags) e
          (apply_tracks-In run ts s h t blind i pos q))
  apply_at_all-In run ts (x ∷ xs) s h t blind i pos (inr j) q =
      apply_at_all-In run ts xs s (apply_tracks run ts x h) t blind i pos j
        (blind h _ s (apply_tracks-OnlyTags run ts x h) ∙ q)
