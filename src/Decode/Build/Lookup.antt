-- ===== src/Decode/Build/Lookup.antt =====
-- `Map` of a tree as a dictionary, and the leaves of one mask in it.
use vemips.Base.{
  ℕ, ◌≡◌, ◌≢◌, refl, sym, ap, ◌⊎◌, inl, inr, Option, none, some, bit_and, List, [], ◌∷◌, ◌==◌,
  if◌then◌else◌, Bool-cases, ==_iff, arith,
}
use vemips.Base.Lists.{Any, All}
use vemips.Decode.Build.{assign_leaves}
use vemips.Decode.Select.{without_mask}
use vemips.Decode.{FullProcInfo, MapOrInfo, leaf, Map, nil, entry, assign, find, find_in}

module _ {I : Type 0} where
  -- What `Map.find` gives.
  pub look : ℕ → Map I → Option (MapOrInfo I)
  look key nil = none
  look key (entry k node rest) = if k == key then some node else look key rest

  pub look-nil : (key : ℕ) → look key nil ≡ none
  unfolding look
  look-nil key = refl

  pub look-assign :
      (key k : ℕ) (node : MapOrInfo I) (map : Map I)
      → look key (assign k node map) ≡ (if k == key then some node else look key map)
  unfolding look assign
  look-assign key k node nil = refl
  look-assign key k node (entry j old rest) = ground (arith, look-assign key k node rest)

  pub look-assign_same :
      (key : ℕ) (node : MapOrInfo I) (map : Map I) → look key (assign key node map) ≡ some node
  look-assign_same key node map = ground (arith, look-assign key key node map)

  pub look-assign_other :
      (key k : ℕ) (node : MapOrInfo I) (map : Map I)
      → k ≢ key
      → look key (assign k node map) ≡ look key map
  look-assign_other key k node map other = ground (arith, look-assign key k node map)

  pub find_in-some :
      (map : Map I) (key w : ℕ) (absent : Option I) (node : MapOrInfo I)
      → look key map ≡ some node
      → find_in map key w absent ≡ find node w
  unfolding look find_in
  find_in-some nil key w absent node h = cc
  find_in-some (entry k n rest) key w absent node h =
      ground (arith, find_in-some rest key w absent node)

  pub find_in-none :
      (map : Map I) (key w : ℕ) (absent : Option I)
      → look key map ≡ none
      → find_in map key w absent ≡ absent
  unfolding look find_in
  find_in-none nil key w absent h = refl
  find_in-none (entry k n rest) key w absent h = ground (arith, find_in-none rest key w absent)

  -- An entry that a word has the encoding of.
  abbrev pub Matches : ℕ → FullProcInfo I → Type 0
  Matches w p = bit_and w p.instruction_mask ≡ p.ref_mask

  -- An entry whose leaf the filter by a mask puts under a key.
  abbrev pub IsLeaf : ℕ → ℕ → Map I → FullProcInfo I → Type 0
  IsLeaf mask key map p =
      (p.instruction_mask ≡ mask) × (p.ref_mask ≡ key) × (look key map ≡ some (leaf p.proc_info))

  pub assign_leaves-look :
      (mask key : ℕ) (procs : List (FullProcInfo I)) (map filled : Map I)
      → assign_leaves mask procs map ≡ filled
      → Any (IsLeaf mask key filled) procs
        ⊎ ((look key filled ≡ look key map)
            × All (λ p. p.instruction_mask ≡ mask → p.ref_mask ≢ key) procs)
  unfolding assign_leaves
  assign_leaves-look mask key [] map filled h = inr (ap (look key) (sym h), tt)
  assign_leaves-look mask key (p ∷ procs) map filled h =
      let set = assign p.ref_mask (leaf p.proc_info) map in
      let at_key = look-assign key p.ref_mask (leaf p.proc_info) map in
      elim (Bool-cases (p.instruction_mask == mask)) [
        | inl same ↦ elim (assign_leaves-look mask key procs set filled (rw same at h)) [
          | inl later ↦ inl (inr later)
          | inr (kept, others) ↦ elim (Bool-cases (p.ref_mask == key)) [
            | inl here ↦ inl (
                inl (
                  (==_iff p.instruction_mask mask).0 same,
                  (==_iff p.ref_mask key).0 here,
                  ground (arith, kept, at_key),
                ))
            | inr apart ↦ inr (ground (arith, kept, at_key), ((λ e r. ground arith), others))
          ]
        ]
        | inr other ↦ elim (assign_leaves-look mask key procs map filled (rw other at h)) [
          | inl later ↦ inl (inr later)
          | inr (kept, others) ↦ inr (kept, ((λ e r. ground arith), others))
        ]
      ]

  -- The entries that a filter by a mask leaves.
  pub without_mask-Any :
      (P : FullProcInfo I → Type 0) (mask : ℕ) (procs : List (FullProcInfo I))
      → Any P (without_mask mask procs)
      → Any P procs
  unfolding without_mask
  without_mask-Any P mask [] h = h
  without_mask-Any P mask (p ∷ procs) h = elim (Bool-cases (p.instruction_mask == mask)) [
    | inl same ↦ inr (without_mask-Any P mask procs (rw same at h))
    | inr other ↦ elim (rw other at h) [
      | inl here ↦ inl here
      | inr later ↦ inr (without_mask-Any P mask procs later)
    ]
  ]

  pub Any-without_mask :
      (P : FullProcInfo I → Type 0) (mask : ℕ) (procs : List (FullProcInfo I))
      → Any P procs
      → All (λ p. p.instruction_mask ≡ mask → P p → ⊥) procs
      → Any P (without_mask mask procs)
  unfolding without_mask
  Any-without_mask P mask [] h none_of = h
  Any-without_mask P mask (p ∷ procs) (inl here) none_of =
      elim (Bool-cases (p.instruction_mask == mask)) [
        | inl same ↦ absurd (none_of.0 ((==_iff p.instruction_mask mask).0 same) here)
        | inr other ↦ rw other (inl here)
      ]
  Any-without_mask P mask (p ∷ procs) (inr later) none_of =
      let rest = Any-without_mask P mask procs later none_of.1 in
      elim (Bool-cases (p.instruction_mask == mask)) [
        | inl same ↦ rw same rest
        | inr other ↦ rw other (inr rest)
      ]
