-- ===== src/Tests/Decode.antt =====
-- The decoder at concrete words (src/mips/instructions/instructions_table.cpp), and the tree of a few
-- entries (src/mips/instructions/instructions.cpp).
use vemips.Base.{true, ◌↔◌, ◌⊎◌, ◌≡◌, refl, ◌⊎◌, ◌<◌, inl, none, some, List, [], ◌∷◌}
use vemips.Base.Lists.{Any, length}
use vemips.Decode.Build.Lookup.{Matches}
use vemips.Decode.Build.Refines.{populate_map-finds}
use vemips.Decode.Build.{populate_map}
use vemips.Decode.Decoder.Encodings.{candidates, get_instruction-candidates}
use vemips.Decode.Decoder.Agree.{decoders_agree, entry_index-executes}
use vemips.Decode.Decoder.Tested.{get_instruction-tested, Agrees, is_refined}
use vemips.Decode.Decoder.{
  get_instruction, execute_instruction, get_instruction_index, execute_index, entry_index, op_mask,
  op_ref, ri_index, adel_index,
}
use vemips.Decode.Instruction.{Instruction, processor}
use vemips.Decode.Table.Execute.{execute_words}
use vemips.Decode.Table.Index.{index_words}
use vemips.Decode.Table.Info.{info_words}
use vemips.Decode.{FullProcInfo, MapOrInfo, find}
use vemips.Isa.Op.{Op}

-- BLEZ, BLEZALC, BEQ and SLL.
abbrev few : List (FullProcInfo Op)
few =
    record { instruction_mask = 0xFC1F0000; ref_mask = 0x18000000; proc_info = Op.blez }
    ∷ record { instruction_mask = 0xFFE00000; ref_mask = 0x18000000; proc_info = Op.blezalc }
    ∷ record { instruction_mask = 0xFC000000; ref_mask = 0x10000000; proc_info = Op.beq }
    ∷ record { instruction_mask = 0xFFE0003F; ref_mask = 0; proc_info = Op.sll }
    ∷ []

-- BLEZ of register 3 in the tree that is built from the entries.
few-blez :
    (node : MapOrInfo Op) × (populate_map 4 few ≡ some node) × (find node 0x18600005 ≡ some Op.blez)
unfolding populate_map find
few-blez = (_, refl, refl)

populate_map-finds_example :
    (node : MapOrInfo Op) × (populate_map (length few) few ≡ some node)
    × Any (λ p. Matches 0x18600005 p × (find node 0x18600005 ≡ some p.proc_info)) few
populate_map-finds_example =
    populate_map-finds few 0x18600005 (refl, (refl, (refl, (refl, tt)))) (inl refl)

-- ADDU $3, $1, $2, with its index, and a word that is no instruction.
decoded :
    (get_instruction 0x00221821 ≡ some (processor Op.addu))
    × (get_instruction_index 0x00221821 ≡ 87)
    × (execute_instruction 0xFC000000 ≡ none)
    × (entry_index 0xFC000000 ≡ 255)
unfolding get_instruction get_instruction_index execute_instruction entry_index find info_words
    index_words execute_words
decoded = (refl, refl, refl, refl)

-- A SUBU with a bit set that has to be 0 is decoded all the same.
loosely_decoded : get_instruction 0x00221863 ≡ some (processor Op.subu)
unfolding get_instruction find info_words
loosely_decoded = refl

get_instruction-candidates_example :
    Any (λ j. get_instruction 0x7C000036 ≡ some j) (candidates (processor Op.cachee))
unfolding op_mask op_ref
get_instruction-candidates_example =
    get_instruction-candidates 0x7C000036 (processor Op.cachee) (inl refl) refl

get_instruction-tested_example :
    Agrees (processor Op.addu) 0x00221821
    × ((is_refined (processor Op.addu) ≡ true)
        ⊎ ((get_instruction 0x00221FE1 ≡ some (processor Op.addu))
            ↔ Agrees (processor Op.addu) 0x00221FE1))
get_instruction-tested_example =
    get_instruction-tested 0x00221821 0x00221FE1 (processor Op.addu) decoded.0

decoders_agree_example :
    (execute_instruction 0x00221821 ≡ get_instruction 0x00221821)
    × (execute_index (get_instruction_index 0x00221821) ≡ get_instruction 0x00221821)
decoders_agree_example = decoders_agree 0x00221821

entry_index-executes_example :
    ((entry_index 0x00221821 ≡ ri_index) × (get_instruction 0x00221821 ≡ none))
    ⊎ ((entry_index 0x00221821 < adel_index)
        × (i : Instruction) × (get_instruction 0x00221821 ≡ some i)
        × (execute_index (entry_index 0x00221821) ≡ some i))
entry_index-executes_example = entry_index-executes 0x00221821
