-- ===== src/Decode/Build/Filter.antt =====
-- What a search in a tree of `populate_map` promises, and the filter by a mask.
use vemips.Base.{
  ℕ, ◌≡◌, ◌≢◌, refl, sym, ap, ◌∙◌, inl, inr, Option, none, some, bit_and, List, [], ◌∷◌,
  Option-cases, arith,
}
use vemips.Base.Lists.{Any, All, Any-map, All-map}
use vemips.Decode.Build.Lookup.{
  look, look-nil, find_in-some, find_in-none, Matches, assign_leaves-look, without_mask-Any,
  Any-without_mask,
}
use vemips.Decode.Build.{assign_leaves, with_default, filter_mask}
use vemips.Decode.Select.{without_mask}
use vemips.Decode.{FullProcInfo, MapOrInfo, leaf, table, table_or, Map, nil, find}

module _ {I : Type 0} where
  -- An entry that a word has the encoding of and that the search in a tree gives.
  abbrev pub Found : MapOrInfo I → ℕ → FullProcInfo I → Type 0
  Found node w p = Matches w p × (find node w ≡ some p.proc_info)

  -- What a construction promises: where a word has the encoding of an entry, the search in the tree
  -- gives such an entry.
  abbrev pub Refines : (List (FullProcInfo I) → Option (MapOrInfo I)) → Type 0
  Refines populate =
      (procs : List (FullProcInfo I)) (node : MapOrInfo I) (w : ℕ)
      → populate procs ≡ some node
      → Any (Matches w) procs
      → Any (Found node w) procs

  -- A matching entry that is not among the leaves of a mask is left by the filter.
  left_by_filter :
      (mask w : ℕ) (procs : List (FullProcInfo I))
      → Any (Matches w) procs
      → All (λ p. p.instruction_mask ≡ mask → p.ref_mask ≢ bit_and w mask) procs
      → Any (Matches w) (without_mask mask procs)
  left_by_filter mask w procs found apart =
      Any-without_mask (Matches w) mask procs found
        (All-map (λ p no e h. no e (sym h ∙ ap (bit_and w) e)) procs apart)

  module _ (populate : List (FullProcInfo I) → Option (MapOrInfo I))
      (sound : Refines populate) where
    with_default-Found :
        (mask w : ℕ) (map : Map I) (left : List (FullProcInfo I)) (node : MapOrInfo I)
        → with_default populate mask map left ≡ some node
        → look (bit_and w mask) map ≡ none
        → Any (Matches w) left
        → Any (Found node w) left
    unfolding with_default find
    with_default-Found mask w map [] node h absent found = absurd found
    with_default-Found mask w map (p ∷ left) node h absent found =
        elim (Option-cases (populate (p ∷ left))) [
          | inl stuck ↦ absurd (ground arith)
          | inr (other, built) ↦
              let node_is : node ≡ table_or mask map other = ground arith in
              Any-map
                (λ q f. (
                  f.0,
                  rw node_is (find_in-none map (bit_and w mask) w (find other w) absent ∙ f.1),
                ))
                (p ∷ left) (sound (p ∷ left) other w built found)
        ]

    -- A leaf under the word's key is found, whatever stands under `Default`.
    with_default-leaf :
        (mask w : ℕ) (map : Map I) (left : List (FullProcInfo I)) (node at_key : MapOrInfo I)
        → with_default populate mask map left ≡ some node
        → look (bit_and w mask) map ≡ some at_key
        → find node w ≡ find at_key w
    unfolding with_default find
    with_default-leaf mask w map [] node at_key h there =
        let node_is : node ≡ table mask map = ground arith in
        rw node_is (find_in-some map (bit_and w mask) w none at_key there)
    with_default-leaf mask w map (p ∷ left) node at_key h there =
        elim (Option-cases (populate (p ∷ left))) [
          | inl stuck ↦ absurd (ground arith)
          | inr (other, built) ↦
              let node_is : node ≡ table_or mask map other = ground arith in
              rw node_is (find_in-some map (bit_and w mask) w (find other w) at_key there)
        ]

    pub filter_mask-Refines : (mask : ℕ) → Refines (filter_mask populate mask)
    unfolding filter_mask find
    filter_mask-Refines mask procs node w h found =
        let map = assign_leaves mask procs nil in
        elim (assign_leaves-look mask (bit_and w mask) procs nil map refl) [
          | inl leaves ↦
              Any-map
                (λ q l. (
                  ap (bit_and w) l.0 ∙ sym l.1,
                  with_default-leaf mask w map (without_mask mask procs) node (leaf q.proc_info) h
                      l.2,
                ))
                procs leaves
          | inr (empty, apart) ↦ without_mask-Any (Found node w) mask procs (
              with_default-Found mask w map (without_mask mask procs) node h
                (empty ∙ look-nil (bit_and w mask)) (left_by_filter mask w procs found apart))
        ]
