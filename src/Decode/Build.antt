-- ===== src/Decode/Build.antt =====
-- `populate_map` (src/mips/instructions/instructions.cpp).
pub mod Lookup
pub mod Groups
pub mod Common
pub mod Filter
pub mod Progress
pub mod Total
pub mod Sizes
pub mod Divide
pub mod Refines
use vemips.Base.{ℕ, zero, suc, bit_and, Option, none, some, List, [], ◌∷◌, if◌then◌else◌, ◌==◌}
use vemips.Base.Lists.{length}
use vemips.Decode.Select.{
  find_greatest_mask, or_masks, and_masks, all_match, has_mask, without_mask, erase_like, with_ref,
  without_ref, all_ones,
}
use vemips.Decode.{FullProcInfo, MapOrInfo, leaf, table, table_or, Map, nil, entry, assign}

module _ {ℓ} {I : Type ℓ} where
  -- The loop of `MaskFilter` that fills `Map` with the entries of one mask.
  unfoldable pub assign_leaves : ℕ → List (FullProcInfo I) → Map I → Map I
  unfolding assign
  assign_leaves mask [] map = map
  assign_leaves mask (p ∷ procs) map =
      assign_leaves mask procs
        (if p.instruction_mask == mask then assign p.ref_mask (leaf p.proc_info) map else map)

  -- `Default`, where entries are left.
  unfoldable pub with_default :
      (List (FullProcInfo I) → Option (MapOrInfo I))
      → ℕ
      → Map I
      → List (FullProcInfo I)
      → Option (MapOrInfo I)
  with_default populate mask map [] = some (table mask map)
  with_default populate mask map (p ∷ left) = elim (populate (p ∷ left)) [
    | none ↦ none
    | some other ↦ some (table_or mask map other)
  ]

  -- The entries of one mask as leaves, and the rest under `Default`; `populate` is the recursive
  -- call.
  unfoldable pub filter_mask :
      (List (FullProcInfo I) → Option (MapOrInfo I))
      → ℕ
      → List (FullProcInfo I)
      → Option (MapOrInfo I)
  unfolding assign_leaves with_default without_mask
  filter_mask populate mask procs =
      with_default populate mask (assign_leaves mask procs nil) (without_mask mask procs)

  -- The tree of a tier: a leaf for one entry.
  unfoldable pub tier_node :
      (List (FullProcInfo I) → Option (MapOrInfo I))
      → FullProcInfo I
      → List (FullProcInfo I)
      → Option (MapOrInfo I)
  tier_node populate g [] = some (leaf g.proc_info)
  tier_node populate g (p ∷ tier) = populate (g ∷ p ∷ tier)

  -- The loop that divides the entries by their references under the common mask. Each round takes
  -- an entry away, so that a round for each entry is enough.
  unfoldable pub divide :
      (List (FullProcInfo I) → Option (MapOrInfo I))
      → ℕ
      → ℕ
      → List (FullProcInfo I)
      → Map I
      → Option (Map I)
  unfolding find_greatest_mask erase_like with_ref without_ref tier_node assign
  divide populate rounds this [] map = some map
  divide populate zero this (p ∷ procs) map = none
  divide populate (suc rounds) this (p ∷ procs) map = elim (find_greatest_mask (p ∷ procs)) [
    | none ↦ none
    | some g ↦
        let new_mask = bit_and g.ref_mask this in
        let left = erase_like g (p ∷ procs) in
        let rest = without_ref new_mask this left in
        elim (tier_node populate g (with_ref new_mask this left)) [
          | none ↦ none
          | some next ↦ divide populate rounds this rest (assign new_mask next map)
        ]
  ]

  -- The division by the common mask, where the references differ under it, and the filter by the
  -- greatest mask, where they do not.
  unfoldable pub divide_common :
      (List (FullProcInfo I) → Option (MapOrInfo I))
      → ℕ
      → List (FullProcInfo I)
      → Option (MapOrInfo I)
  unfolding all_match find_greatest_mask filter_mask divide
  divide_common populate this procs =
      if all_match this procs
      then elim (find_greatest_mask procs) [
        | none ↦ none
        | some g ↦ filter_mask populate g.instruction_mask procs
      ]
      else elim (divide populate (length procs) this procs nil) [
        | none ↦ none
        | some map ↦ some (table this map)
      ]

  -- One call. `xassert(ThisSigMask != 0)` stops the program: `none`.
  unfoldable pub populate_tier :
      (List (FullProcInfo I) → Option (MapOrInfo I)) → List (FullProcInfo I) → Option (MapOrInfo I)
  unfolding has_mask filter_mask or_masks and_masks divide_common
  populate_tier populate procs =
      if has_mask all_ones procs
      then filter_mask populate all_ones procs
      else if has_mask (or_masks procs) procs
      then filter_mask populate (or_masks procs) procs
      else if and_masks procs == 0
      then none
      else divide_common populate (and_masks procs) procs

  unfoldable pub populate_map : ℕ → List (FullProcInfo I) → Option (MapOrInfo I)
  unfolding populate_tier
  populate_map zero procs = none
  populate_map (suc fuel) procs = populate_tier (populate_map fuel) procs
