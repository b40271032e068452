-- ===== src/Decode/Decoder/Agree.antt =====
-- The searches of the generated decoder against one another.
use mathlib.Core.Option
use vemips.Base.{
  ℕ, ◌<◌, ◌≡◌, refl, sym, ap, ◌∙◌, ◌⊎◌, inl, inr, none, some, arith, Option-cases, subst,
}
use vemips.Base.Lists.{get_elem?, get_elem?-lt, length}
use vemips.Decode.Decoder.{
  get_instruction, execute_instruction, get_instruction_index, execute_index, entry_index, no_index,
  adel_index, ri_index,
}
use vemips.Decode.Instruction.Array.{all_instructions}
use vemips.Decode.Instruction.Procs.{all_instruction_procs}
use vemips.Decode.Instruction.{Instruction}
use vemips.Decode.Table.Execute.{execute_words}
use vemips.Decode.Table.Index.{index_words}
use vemips.Decode.Table.Info.{info_words}
use vemips.Decode.Tree.{map_tree, find-map_tree}
use vemips.Decode.{find}

same_trees : execute_words ≡ info_words
unfolding execute_words info_words
same_trees = refl

same_arrays : all_instruction_procs ≡ all_instructions
unfolding all_instruction_procs all_instructions
same_arrays = refl

-- The leaves of the index tree stand in the array at their indices.
indexed_trees : map_tree (get_elem? all_instructions) index_words ≡ map_tree some info_words
unfolding index_words info_words map_tree all_instructions
indexed_trees = refl

execute_instruction-get_instruction : (w : ℕ) → execute_instruction w ≡ get_instruction w
unfolding execute_instruction get_instruction
execute_instruction-get_instruction w = ap (λ t. find t w) same_trees

procs_count : length all_instruction_procs ≡ 220
unfolding all_instruction_procs
procs_count = refl

-- What the two searches find, together.
found_at_index :
    (w : ℕ)
    → ((find index_words w ≡ none) × (find info_words w ≡ none))
      ⊎ ((k : ℕ) × (i : Instruction) × (find index_words w ≡ some k)
          × (find info_words w ≡ some i)
          × (get_elem? all_instructions k ≡ some i))
found_at_index w =
    let images =
      sym (find-map_tree (get_elem? all_instructions) index_words w)
      ∙ ap (λ t. find t w) indexed_trees
      ∙ find-map_tree some info_words w in
    elim (Option-cases (find index_words w)) [
      | inl none_there ↦ elim (Option-cases (find info_words w)) [
        | inl none_here ↦ inl (none_there, none_here)
        | inr (i, here) ↦ absurd (cc (rw (none_there, here, Option.map) at images))
      ]
      | inr (k, there) ↦ elim (Option-cases (find info_words w)) [
        | inl none_here ↦ absurd (cc (rw (there, none_here, Option.map) at images))
        | inr (i, here) ↦ inr (k, i, there, here, cc (rw (there, here, Option.map) at images))
      ]
    ]

index_nowhere : (w : ℕ) → find index_words w ≡ none → get_instruction_index w ≡ no_index
unfolding get_instruction_index
index_nowhere w h = ground arith

index_there : (w k : ℕ) → find index_words w ≡ some k → get_instruction_index w ≡ k
unfolding get_instruction_index
index_there w k h = ground arith

execute_index-get_instruction_index :
    (w : ℕ) → execute_index (get_instruction_index w) ≡ get_instruction w
unfolding get_instruction execute_index
execute_index-get_instruction_index w = elim (found_at_index w) [
  | inl (nowhere, unknown) ↦ rw (index_nowhere w nowhere, unknown, procs_count) refl
  | inr (k, i, there, here, listed) ↦
      let at_k = subst (λ l. get_elem? l k ≡ some i) (sym same_arrays) listed in
      let below = get_elem?-lt all_instruction_procs k i at_k in
      rw (index_there w k there, here) (ground (arith, below, at_k))
]

-- For every word, the function that runs an instruction directly, and the one that runs it by the
-- index that the index search gives, run the instruction that the search for its description gives,
-- or none where that gives none.
pub decoders_agree :
    (w : ℕ)
    → (execute_instruction w ≡ get_instruction w)
      × (execute_index (get_instruction_index w) ≡ get_instruction w)
decoders_agree w = (execute_instruction-get_instruction w, execute_index-get_instruction_index w)

-- The byte that a cached entry keeps as the index of a word is the mark of a reserved instruction
-- where no instruction is found, and otherwise below both marks, and runs the instruction found.
pub entry_index-executes :
    (w : ℕ)
    → ((entry_index w ≡ ri_index) × (get_instruction w ≡ none))
      ⊎ ((entry_index w < adel_index)
          × (i : Instruction) × (get_instruction w ≡ some i)
          × (execute_index (entry_index w) ≡ some i))
unfolding execute_index entry_index get_instruction
entry_index-executes w = elim (found_at_index w) [
  | inl (nowhere, unknown) ↦ inl (omega (arith, index_nowhere w nowhere), unknown)
  | inr (k, i, there, here, listed) ↦
      let at_k = subst (λ l. get_elem? l k ≡ some i) (sym same_arrays) listed in
      let below = get_elem?-lt all_instruction_procs k i at_k in
      let kept : entry_index w ≡ k = omega (arith, below, procs_count, index_there w k there) in
      inr (omega (arith, below, procs_count, kept), i, here, rw kept (ground (arith, below, at_k)))
]
