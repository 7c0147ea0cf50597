-- ===== src/Naming/Marking.antt =====
-- Which shapes `add_meta_tag_to_subshapes` and `apply_tag_tracks` tag.
use Prim.Native.String.{String}
use geoml.Common.{
  ℕ, ◌<◌, ◌≡◌, ◌≢◌, ◌↔◌, ◌⊎◌, inl, inr, refl, ◌∙◌, ap, true, List, [], ◌∷◌, In, ℕ_discrete,
}
use geoml.Naming.{Occt, Heap, ShapeData, TagTrack, Predicate}
use geoml.Naming.Queries.{int_max, children_of, is_same, select_subshapes, get_subshapes}
use geoml.Naming.Reach.{Within}
use geoml.Naming.History.{has_tag}
use geoml.Naming.Subshapes.{select_subshapes-IsSelection}
use geoml.Naming.Tags.{add_meta_tag_to_subshapes, apply_tag_tracks}
use geoml.Naming.Tagging.{tag_all-In, tag_all-other, In-has_tag, IgnoresTags, apply_at_all-In}

dec_In : (a : ℕ) (xs : List ℕ) → Dec (In a xs)
dec_In a [] = no (λ i. elim i [ ])
dec_In a (x ∷ xs) = elim (ℕ_discrete a x) [
  | yes e ↦ yes (inl e)
  | no ne ↦ elim (dec_In a xs) [
    | yes i ↦ yes (inr i)
    | no out ↦ no (λ j. elim j [ inl e ↦ ne e | inr i ↦ out i ])
  ]
]

module _ {Topo Criterion : Type 0} (occt : Occt Topo)
    (same_refl : (t : Topo) → occt.is_same t t ≡ true)
    (same_symm : (t u : Topo) → occt.is_same t u ≡ occt.is_same u t) (hash_order : List ℕ → List ℕ)
    (hash_order_In : (a : ℕ) (xs : List ℕ) → In a (hash_order xs) ↔ In a xs) where
  -- Of every shape below `s` that satisfies the predicate, a shape below `s` that is the same has the
  -- tag afterwards, and satisfies it too.
  pub add_meta_tag_to_subshapes-has_tag :
      (f : Predicate Topo Criterion) (tag : String) (h : Heap Topo Criterion) (s t : ℕ)
      → Within (children_of h) int_max s t
      → f h t ≡ true
      → (r : ℕ) × Within (children_of h) int_max s r
        × (f h r ≡ true)
        × (is_same occt t h r ≡ true)
        × (has_tag tag (add_meta_tag_to_subshapes occt hash_order f tag h s) r ≡ true)
  add_meta_tag_to_subshapes-has_tag f tag h s t w q =
      let sel = select_subshapes occt hash_order f int_max h s in
      let (v, _, _) =
        select_subshapes-IsSelection occt same_refl same_symm hash_order hash_order_In f int_max h
          s in
      let (r, i, e) = v.complete t w q in
      let (x, y) = v.sound r i in
      (
        r,
        x,
        y,
        e,
        unfold add_meta_tag_to_subshapes in
            In-has_tag tag _ r (tag_all-In tag r (children_of sel.1 sel.0) sel.1 i),
      )

  -- A shape outside of the selection keeps its tags.
  other_kept :
      (f : Predicate Topo Criterion) (tag : String) (h : Heap Topo Criterion) (s a : ℕ)
      → a < h.next
      → let sel = select_subshapes occt hash_order f int_max h s in
        ¬ (In a (children_of sel.1 sel.0))
        → ((add_meta_tag_to_subshapes occt hash_order f tag h s).cell a).persistent_meta_tags
          ≡ (h.cell a).persistent_meta_tags
  unfolding add_meta_tag_to_subshapes
  other_kept f tag h s a b out =
      let sel = select_subshapes occt hash_order f int_max h s in
      let (_, _, kept) =
        select_subshapes-IsSelection occt same_refl same_symm hash_order hash_order_In f int_max h
          s in
      tag_all-other tag a (children_of sel.1 sel.0) sel.1 out
      ∙ ap (λ (d : ShapeData Topo Criterion). d.persistent_meta_tags) (kept a b)

  -- Of two allocated shapes with their own data that are the same, such as an edge that two faces
  -- share, `add_meta_tag_to_subshapes` leaves one with the tags that it had, whatever the predicate
  -- says of them.
  pub add_meta_tag_to_subshapes_twin :
      (f : Predicate Topo Criterion) (tag : String) (h : Heap Topo Criterion) (s a b : ℕ)
      → a < h.next
      → b < h.next
      → a ≢ b
      → is_same occt b h a ≡ true
      → let g = add_meta_tag_to_subshapes occt hash_order f tag h s in
        ((g.cell a).persistent_meta_tags ≡ (h.cell a).persistent_meta_tags)
        ⊎ ((g.cell b).persistent_meta_tags ≡ (h.cell b).persistent_meta_tags)
  add_meta_tag_to_subshapes_twin f tag h s a b ha hb ne q =
      let sel = select_subshapes occt hash_order f int_max h s in
      let (v, _, _) =
        select_subshapes-IsSelection occt same_refl same_symm hash_order hash_order_In f int_max h
          s in
      elim (dec_In a (children_of sel.1 sel.0)) [
        | no out ↦ inl (other_kept f tag h s a ha out)
        | yes i ↦ inr (other_kept f tag h s b hb (λ j. ne (v.unique a b i j q)))
      ]

  -- A tag track with steps left: of every shape below the result, a shape below it that is the same
  -- gets the track's tag if it meets the criterion. The criterion does not look at tags, and is
  -- asked after the collection `get_subshapes` is allocated.
  pub apply_tag_tracks-has_tag :
      (run : Criterion → Predicate Topo Criterion) (h : Heap Topo Criterion) (s t : ℕ)
      (track : TagTrack Criterion)
      → IgnoresTags (run track.criterion)
      → In track (h.cell s).tag_tracks
      → 0 < track.remaining_steps
      → Within (children_of h) int_max s t
      → (r : ℕ) × Within (children_of h) int_max s r
        × (is_same occt t h r ≡ true)
        × (run track.criterion (get_subshapes occt hash_order h s).1 r ≡ true
            → has_tag track.tag (apply_tag_tracks occt hash_order run h s) r ≡ true)
  apply_tag_tracks-has_tag run h s t track blind i pos w =
      let sub = get_subshapes occt hash_order h s in
      let (v, _, _) =
        select_subshapes-IsSelection occt same_refl same_symm hash_order hash_order_In (λ g u. true)
          int_max h s in
      let (r, j, e) = v.complete t w refl in
      let (x, _) = v.sound r j in
      (
        r,
        x,
        e,
        λ q.
            unfold apply_tag_tracks get_subshapes in
            In-has_tag track.tag _ r (
              apply_at_all-In run (h.cell s).tag_tracks (children_of sub.1 sub.0) r sub.1 track
                blind i pos j q),
      )
