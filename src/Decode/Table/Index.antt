-- ===== src/Decode/Table/Index.antt =====
-- The branches of `get_instruction_index` (src/mips/instructions/instructions_table.cpp)
-- as the tree that they test: a `switch` on masked bits and each `if` of a chain is a table.
pub mod Special
pub mod Cop1
use vemips.Base.{List, [], ◌∷◌, ℕ}
use vemips.Decode.{MapOrInfo, leaf, table, table_or}
use vemips.Decode.Table.Cases.{cases}
use vemips.Decode.Table.Index.Special.{index_special, index_special3}
use vemips.Decode.Table.Index.Cop1.{index_cop1}

unfoldable pub index_regimm : MapOrInfo ℕ
index_regimm =
    table_or 0x03FF0000
      (cases ((0x00100000, leaf 161) ∷ (0x00110000, leaf 94) ∷ (0x00170000, leaf 191) ∷ []))
      (table 0xFC1F0000
        (cases ((0x041F0000, leaf 208) ∷ (0x04000000, leaf 107) ∷ (0x04010000, leaf 99) ∷ [])))

unfoldable pub index_opcodes : MapOrInfo ℕ
unfolding index_special index_special3 index_cop1 index_regimm
index_opcodes = table 0xFC000000 (
    cases (
      (0xD4000000, leaf 34)
      ∷ (0xC4000000, leaf 35)
      ∷ (0xF4000000, leaf 68)
      ∷ (0xE4000000, leaf 79)
      ∷ (0x30000000, leaf 91)
      ∷ (0x3C000000, leaf 92)
      ∷ (0xE8000000, leaf 95)
      ∷ (0xC8000000, leaf 96)
      ∷ (0x10000000, leaf 97)
      ∷ (0x20000000, leaf 169)
      ∷ (0x60000000, leaf 172)
      ∷ (0x14000000, leaf 108)
      ∷ (0x08000000, leaf 122)
      ∷ (0x0C000000, leaf 123)
      ∷ (0x80000000, leaf 130)
      ∷ (0x90000000, leaf 132)
      ∷ (0x84000000, leaf 134)
      ∷ (0x94000000, leaf 136)
      ∷ (0x8C000000, leaf 143)
      ∷ (0x34000000, leaf 165)
      ∷ (0xA0000000, leaf 178)
      ∷ (0xA4000000, leaf 189)
      ∷ (0x28000000, leaf 195)
      ∷ (0x2C000000, leaf 196)
      ∷ (0xAC000000, leaf 205)
      ∷ (0x38000000, leaf 219)
      ∷ (
        0xEC000000,
        table_or 0x001F0000 (cases ((0x001F0000, leaf 89) ∷ (0x001E0000, leaf 93) ∷ []))
            (table 0xFC180000 (cases ((0xEC080000, leaf 145) ∷ (0xEC000000, leaf 86) ∷ []))),
      )
      ∷ (
        0x58000000,
        table_or 0x03E00000 (cases ((0x00000000, leaf 106) ∷ []))
            (table 0xFC000000 (cases ((0x58000000, leaf 170) ∷ []))),
      )
      ∷ (
        0x5C000000,
        table_or 0x03E00000 (cases ((0x00000000, leaf 102) ∷ []))
            (table 0xFC000000 (cases ((0x5C000000, leaf 171) ∷ []))),
      )
      ∷ (
        0xD8000000,
        table_or 0x03E00000 (cases ((0x00000000, leaf 127) ∷ []))
            (table 0xFC000000 (cases ((0xD8000000, leaf 98) ∷ []))),
      )
      ∷ (
        0xF8000000,
        table_or 0x03E00000 (cases ((0x00000000, leaf 126) ∷ []))
            (table 0xFC000000 (cases ((0xF8000000, leaf 109) ∷ []))),
      )
      ∷ (
        0x1C000000,
        table_or 0x03E00000 (cases ((0x00000000, leaf 101) ∷ [])) (
            table_or 0xFC1F0000 (cases ((0x1C000000, leaf 100) ∷ []))
              (table 0xFC000000 (cases ((0x1C000000, leaf 168) ∷ [])))),
      )
      ∷ (
        0x40000000,
        table 0x02000058 (
            cases (
              (
                0x00000000,
                table 0x01E007A0 (
                    cases (
                      (0x00800000, leaf 153)
                      ∷ (0x00400000, leaf 148)
                      ∷ (0x00000000, leaf 146)
                      ∷ (0x00C00000, leaf 155)
                      ∷ [])),
              )
              ∷ (
                0x02000040,
                table_or 0x01FFFF80 (cases ((0x00000000, leaf 118) ∷ []))
                    (table 0xFE00007F (cases ((0x42000060, leaf 216) ∷ []))),
              )
              ∷ (0x02000000, leaf 117)
              ∷ [])),
      )
      ∷ (0x00000000, index_special)
      ∷ (0x7C000000, index_special3)
      ∷ (
        0x24000000,
        table_or 0x0000FFFF (cases ((0x00000000, leaf 152) ∷ []))
            (table 0xFC000000 (cases ((0x24000000, leaf 85) ∷ []))),
      )
      ∷ (0x44000000, index_cop1)
      ∷ (
        0x48000000,
        table 0x03E007F8 (
            cases (
              (0x00800000, leaf 154)
              ∷ (0x00600000, leaf 149)
              ∷ (0x00000000, leaf 147)
              ∷ (0x00E00000, leaf 156)
              ∷ [])),
      )
      ∷ (0x04000000, index_regimm)
      ∷ (
        0x18000000,
        table_or 0x03E00000 (cases ((0x00000000, leaf 105) ∷ [])) (
            table_or 0xFC1F0000 (cases ((0x18000000, leaf 104) ∷ []))
              (table 0xFC000000 (cases ((0x18000000, leaf 167) ∷ [])))),
      )
      ∷ []))

unfoldable pub index_words : MapOrInfo ℕ
unfolding index_opcodes
index_words =
    table_or 0xFFFFFFFF
      (cases (
        (0x00000040, leaf 202)
        ∷ (0x00000140, leaf 166)
        ∷ (0x00000000, leaf 162)
        ∷ (0x000000C0, leaf 116)
        ∷ []))
      index_opcodes
