-- ===== src/Decode/Build/Refines.antt =====
-- The tree of `populate_map` against the list of its entries.
use vemips.Base.{
  arith, ℕ, zero, suc, ◌≡◌, ◌∙◌, inl, inr, Option, none, some, bit_and, List, ◌==◌, Bool-cases,
  Option-cases, subst, [], ◌∷◌,
}
use vemips.Base.Lists.{All, Any, Any-map, Any-All, length}
use vemips.Decode.Build.Common.{IsCommon, and_masks-IsCommon}
use vemips.Decode.Build.Divide.{Served, divide-Served}
use vemips.Decode.Build.Filter.{Found, Refines, filter_mask-Refines}
use vemips.Decode.Build.Progress.{HasOpcode}
use vemips.Decode.Build.Total.{populate_map-IsTotal}
use vemips.Decode.Build.Lookup.{find_in-some, Matches}
use vemips.Decode.Build.{divide, divide_common, populate_tier, populate_map}
use vemips.Decode.Select.{find_greatest_mask, or_masks, and_masks, all_match, has_mask, all_ones}
use vemips.Decode.{FullProcInfo, MapOrInfo, table, Map, nil, find}

module _ {I : Type 0} where
  -- A table without a default finds what stands under the word's key.
  Served-Found :
      (this w : ℕ) (map : Map I) (q : FullProcInfo I)
      → Served this w map q
      → Found (table this map) w q
  unfolding find
  Served-Found this w map q (node, there, (matches, finds)) =
      (matches, find_in-some map (bit_and w this) w none node there ∙ finds)

  divide_common-Refines :
      (populate : List (FullProcInfo I) → Option (MapOrInfo I)) (this : ℕ)
      (procs : List (FullProcInfo I)) (node : MapOrInfo I) (w : ℕ)
      → Refines populate
      → IsCommon this procs
      → divide_common populate this procs ≡ some node
      → Any (Matches w) procs
      → Any (Found node w) procs
  unfolding divide_common
  divide_common-Refines populate this procs node w sound common h found =
      elim (Bool-cases (all_match this procs)) [
        | inl alike ↦ elim (Option-cases (find_greatest_mask procs)) [
          | inl stuck ↦ absurd (cc (rw stuck at (rw alike at h)))
          | inr (g, greatest) ↦
              filter_mask-Refines populate sound g.instruction_mask procs node w
                (rw greatest at (rw alike at h)) found
        ]
        | inr differ ↦ elim (Option-cases (divide populate (length procs) this procs nil)) [
          | inl stuck ↦ absurd (cc (rw stuck at (rw differ at h)))
          | inr (map, divided) ↦
              let node_is : table this map ≡ node = cc (rw divided at (rw differ at h)) in
              subst (λ n. Any (Found n w) procs) node_is
                (Any-map (Served-Found this w map) procs (
                  divide-Served populate this sound w (length procs) procs nil map divided
                    (Any-All _ _ procs found common)))
        ]
      ]

  populate_tier-Refines :
      (populate : List (FullProcInfo I) → Option (MapOrInfo I))
      → Refines populate
      → Refines (populate_tier populate)
  unfolding populate_tier
  populate_tier-Refines populate sound procs node w h found =
      elim (Bool-cases (has_mask all_ones procs)) [
        | inl full ↦ filter_mask-Refines populate sound all_ones procs node w (rw full at h) found
        | inr part ↦ elim (Bool-cases (has_mask (or_masks procs) procs)) [
          | inl wide ↦
              filter_mask-Refines populate sound (or_masks procs) procs node w
                (rw wide at (rw part at h)) found
          | inr narrow ↦ elim (Bool-cases (and_masks procs == 0)) [
            | inl stopped ↦ absurd (cc (rw stopped at (rw narrow at (rw part at h))))
            | inr going ↦
                divide_common-Refines populate (and_masks procs) procs node w sound
                  (and_masks-IsCommon procs) (rw going at (rw narrow at (rw part at h))) found
          ]
        ]
      ]

  pub populate_map-Refines : (fuel : ℕ) → Refines (populate_map {I = I} fuel)
  unfolding populate_map
  populate_map-Refines zero procs node w h found = absurd (cc)
  populate_map-Refines (suc fuel) procs node w h found =
      populate_tier-Refines (populate_map fuel) (populate_map-Refines fuel) procs node w h found

  -- From any list of entries whose masks read the major opcode, the construction ends with a tree,
  -- and for every word that has the encoding of one of the entries the search in that tree gives an
  -- entry whose encoding the word has.
  pub populate_map-finds :
      (procs : List (FullProcInfo I)) (w : ℕ)
      → All HasOpcode procs
      → Any (Matches w) procs
      → (node : MapOrInfo I) × (populate_map (length procs) procs ≡ some node)
        × Any (λ p. Matches w p × (find node w ≡ some p.proc_info)) procs
  populate_map-finds [] w opcodes found = absurd found
  populate_map-finds (p ∷ procs) w opcodes found =
      let all = p ∷ procs in
      let (node, built) = populate_map-IsTotal (length all) p procs opcodes (omega arith) in
      (node, built, populate_map-Refines (length all) all node w built found)
