-- ===== src/Decode/Table/Info.antt =====
-- The branches of `get_instruction` (src/mips/instructions/instructions_table.cpp)
-- as the tree that they test: a `switch` on masked bits and each `if` of a chain is a table.
pub mod Special
pub mod Cop1
use vemips.Base.{List, [], ◌∷◌, ℕ}
use vemips.Decode.{MapOrInfo, leaf, table, table_or}
use vemips.Decode.Table.Cases.{cases}
use vemips.Decode.Instruction.{
  Cop1Op, InstructionType, single_fp, double_fp, word_fp, long_fp, void_fp, Instruction, processor,
  cop1,
}
use vemips.Isa.Op.{Op}
use vemips.Decode.Table.Info.Special.{info_special, info_special3}
use vemips.Decode.Table.Info.Cop1.{info_cop1}

unfoldable pub info_regimm : MapOrInfo Instruction
info_regimm =
    table_or 0x03FF0000
      (cases (
        (0x00100000, leaf (processor Op.nal))
        ∷ (0x00110000, leaf (processor Op.bal))
        ∷ (0x00170000, leaf (processor Op.sigrie))
        ∷ []))
      (table 0xFC1F0000 (
        cases (
          (0x041F0000, leaf (processor Op.synci))
          ∷ (0x04000000, leaf (processor Op.bltz))
          ∷ (0x04010000, leaf (processor Op.bgez))
          ∷ [])))

unfoldable pub info_opcodes : MapOrInfo Instruction
unfolding info_special info_special3 info_cop1 info_regimm
info_opcodes = table 0xFC000000 (
    cases (
      (0xD4000000, leaf (cop1 Cop1Op.ldc1 void_fp))
      ∷ (0xC4000000, leaf (cop1 Cop1Op.lwc1 void_fp))
      ∷ (0xF4000000, leaf (cop1 Cop1Op.sdc1 void_fp))
      ∷ (0xE4000000, leaf (cop1 Cop1Op.swc1 void_fp))
      ∷ (0x30000000, leaf (processor Op.andi))
      ∷ (0x3C000000, leaf (processor Op.aui))
      ∷ (0xE8000000, leaf (processor Op.balc))
      ∷ (0xC8000000, leaf (processor Op.bc))
      ∷ (0x10000000, leaf (processor Op.beq))
      ∷ (0x20000000, leaf (processor Op.pop10))
      ∷ (0x60000000, leaf (processor Op.pop30))
      ∷ (0x14000000, leaf (processor Op.bne))
      ∷ (0x08000000, leaf (processor Op.j))
      ∷ (0x0C000000, leaf (processor Op.jal))
      ∷ (0x80000000, leaf (processor Op.lb))
      ∷ (0x90000000, leaf (processor Op.lbu))
      ∷ (0x84000000, leaf (processor Op.lh))
      ∷ (0x94000000, leaf (processor Op.lhu))
      ∷ (0x8C000000, leaf (processor Op.lw))
      ∷ (0x34000000, leaf (processor Op.ori))
      ∷ (0xA0000000, leaf (processor Op.sb))
      ∷ (0xA4000000, leaf (processor Op.sh))
      ∷ (0x28000000, leaf (processor Op.slti))
      ∷ (0x2C000000, leaf (processor Op.sltiu))
      ∷ (0xAC000000, leaf (processor Op.sw))
      ∷ (0x38000000, leaf (processor Op.xori))
      ∷ (
        0xEC000000,
        table_or 0x001F0000
            (cases (
              (0x001F0000, leaf (processor Op.aluipc))
              ∷ (0x001E0000, leaf (processor Op.auipc))
              ∷ []))
            (table 0xFC180000 (
              cases (
                (0xEC080000, leaf (processor Op.lwpc))
                ∷ (0xEC000000, leaf (processor Op.addiupc))
                ∷ []))),
      )
      ∷ (
        0x58000000,
        table_or 0x03E00000 (cases ((0x00000000, leaf (processor Op.blezc)) ∷ []))
            (table 0xFC000000 (cases ((0x58000000, leaf (processor Op.pop26)) ∷ []))),
      )
      ∷ (
        0x5C000000,
        table_or 0x03E00000 (cases ((0x00000000, leaf (processor Op.bgtzc)) ∷ []))
            (table 0xFC000000 (cases ((0x5C000000, leaf (processor Op.pop27)) ∷ []))),
      )
      ∷ (
        0xD8000000,
        table_or 0x03E00000 (cases ((0x00000000, leaf (processor Op.jic)) ∷ []))
            (table 0xFC000000 (cases ((0xD8000000, leaf (processor Op.beqzc)) ∷ []))),
      )
      ∷ (
        0xF8000000,
        table_or 0x03E00000 (cases ((0x00000000, leaf (processor Op.jialc)) ∷ []))
            (table 0xFC000000 (cases ((0xF8000000, leaf (processor Op.bnezc)) ∷ []))),
      )
      ∷ (
        0x1C000000,
        table_or 0x03E00000 (cases ((0x00000000, leaf (processor Op.bgtzalc)) ∷ [])) (
            table_or 0xFC1F0000 (cases ((0x1C000000, leaf (processor Op.bgtz)) ∷ []))
              (table 0xFC000000 (cases ((0x1C000000, leaf (processor Op.pop07)) ∷ [])))),
      )
      ∷ (
        0x40000000,
        table 0x02000058 (
            cases (
              (
                0x00000000,
                table 0x01E007A0 (
                    cases (
                      (0x00800000, leaf (processor Op.mtc0))
                      ∷ (0x00400000, leaf (processor Op.mfhc0))
                      ∷ (0x00000000, leaf (processor Op.mfc0))
                      ∷ (0x00C00000, leaf (processor Op.mthc0))
                      ∷ [])),
              )
              ∷ (
                0x02000040,
                table_or 0x01FFFF80 (cases ((0x00000000, leaf (processor Op.eretnc)) ∷ []))
                    (table 0xFE00007F (cases ((0x42000060, leaf (processor Op.wait)) ∷ []))),
              )
              ∷ (0x02000000, leaf (processor Op.eret))
              ∷ [])),
      )
      ∷ (0x00000000, info_special)
      ∷ (0x7C000000, info_special3)
      ∷ (
        0x24000000,
        table_or 0x0000FFFF (cases ((0x00000000, leaf (processor Op.move)) ∷ []))
            (table 0xFC000000 (cases ((0x24000000, leaf (processor Op.addiu)) ∷ []))),
      )
      ∷ (0x44000000, info_cop1)
      ∷ (
        0x48000000,
        table 0x03E007F8 (
            cases (
              (0x00800000, leaf (processor Op.mtc2))
              ∷ (0x00600000, leaf (processor Op.mfhc2))
              ∷ (0x00000000, leaf (processor Op.mfc2))
              ∷ (0x00E00000, leaf (processor Op.mthc2))
              ∷ [])),
      )
      ∷ (0x04000000, info_regimm)
      ∷ (
        0x18000000,
        table_or 0x03E00000 (cases ((0x00000000, leaf (processor Op.blezalc)) ∷ [])) (
            table_or 0xFC1F0000 (cases ((0x18000000, leaf (processor Op.blez)) ∷ []))
              (table 0xFC000000 (cases ((0x18000000, leaf (processor Op.pop06)) ∷ [])))),
      )
      ∷ []))

unfoldable pub info_words : MapOrInfo Instruction
unfolding info_opcodes
info_words =
    table_or 0xFFFFFFFF
      (cases (
        (0x00000040, leaf (processor Op.ssnop))
        ∷ (0x00000140, leaf (processor Op.pause))
        ∷ (0x00000000, leaf (processor Op.nop))
        ∷ (0x000000C0, leaf (processor Op.ehb))
        ∷ []))
      info_opcodes
