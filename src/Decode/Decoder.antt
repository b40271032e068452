-- ===== src/Decode/Decoder.antt =====
-- The three searches of the generated decoder and the call by index
-- (src/mips/instructions/instructions_table.cpp), and the index that a cached entry keeps
-- (src/mips/interpreter/cache/hash_cache.hpp).
pub mod Agree
pub mod Encodings
pub mod Tested
use vemips.Base.{ℕ, ◌%◌, bit_or, Option, none, some, ltb, if◌then◌else◌}
use vemips.Base.Lists.{get_elem?, length}
use vemips.Decode.Encoding.Cop1.{format_bits, cop1_encoding}
use vemips.Decode.Encoding.{encoding}
use vemips.Decode.Instruction.Procs.{all_instruction_procs}
use vemips.Decode.Instruction.{Instruction, processor, cop1}
use vemips.Decode.Table.Execute.{execute_words}
use vemips.Decode.Table.Index.{index_words}
use vemips.Decode.Table.Info.{info_words}
use vemips.Decode.{find}

-- `nullptr` is `none`.
unfoldable pub get_instruction : ℕ → Option Instruction
get_instruction = find info_words

-- The instruction whose `Execute` is called; `none` where the call returns false.
unfoldable pub execute_instruction : ℕ → Option Instruction
execute_instruction = find execute_words

abbrev pub no_index : ℕ
no_index = 0xFFFFFFFF

unfoldable pub get_instruction_index : ℕ → ℕ
get_instruction_index w = elim (find index_words w) [ none ↦ no_index | some i ↦ i ]

-- The overload that takes an index, without `AssumeSafe`.
unfoldable pub execute_index : ℕ → Option Instruction
execute_index i =
    if ltb i (length all_instruction_procs) then get_elem? all_instruction_procs i else none

-- `static_cast<index_type>(raw_index)`: 222 values fit a byte.
unfoldable pub entry_index : ℕ → ℕ
unfolding get_instruction_index
entry_index w = get_instruction_index w % 256

abbrev pub adel_index : ℕ
adel_index = 254

abbrev pub ri_index : ℕ
ri_index = 255

-- The mask of an instruction's declaration and its reference, with the bits of the format.
unfoldable pub op_mask : Instruction → ℕ
unfolding encoding cop1_encoding
op_mask (processor op) = (encoding op).0
op_mask (cop1 op format) = (cop1_encoding op).0

unfoldable pub op_ref : Instruction → ℕ
unfolding encoding cop1_encoding format_bits
op_ref (processor op) = (encoding op).1
op_ref (cop1 op format) = bit_or (format_bits format) (cop1_encoding op).1
