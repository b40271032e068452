-- ===== src/Decode/Table/Index/Special.antt =====
-- The branches of `get_instruction_index` under the major opcodes SPECIAL and SPECIAL3
-- (src/mips/instructions/instructions_table.cpp).
use vemips.Base.{[], ◌∷◌, ℕ}
use vemips.Decode.{MapOrInfo, leaf, table, table_or}
use vemips.Decode.Table.Cases.{cases}

unfoldable pub index_special : MapOrInfo ℕ
index_special = table 0x0000003F (
    cases (
      (0x0000000F, leaf 207)
      ∷ (
        0x00000021,
        table_or 0x001F07C0 (cases ((0x00000040, leaf 112) ∷ []))
            (table 0xFC0007FF (cases ((0x00000021, leaf 87) ∷ []))),
      )
      ∷ (
        0x00000009,
        table_or 0x001FFC00 (cases ((0x00000000, leaf 128) ∷ (0x00000400, leaf 129) ∷ []))
            (table 0xFC1F043F (cases ((0x00000409, leaf 125) ∷ (0x00000009, leaf 124) ∷ []))),
      )
      ∷ (0x00000010, leaf 113)
      ∷ (
        0x00000006,
        table 0x000007C0 (cases ((0x00000040, leaf 177) ∷ (0x00000000, leaf 201) ∷ [])),
      )
      ∷ (0x00000026, leaf 218)
      ∷ (0x00000023, leaf 204)
      ∷ (0x00000022, leaf 203)
      ∷ (
        0x00000002,
        table 0x03E00000 (cases ((0x00200000, leaf 176) ∷ (0x00000000, leaf 200) ∷ [])),
      )
      ∷ (0x00000007, leaf 199)
      ∷ (0x00000003, leaf 198)
      ∷ (0x0000002B, leaf 197)
      ∷ (0x0000002A, leaf 194)
      ∷ (0x00000004, leaf 193)
      ∷ (0x00000000, leaf 192)
      ∷ (0x00000037, leaf 188)
      ∷ (0x00000035, leaf 187)
      ∷ (0x00000025, leaf 164)
      ∷ (0x00000027, leaf 163)
      ∷ (
        0x00000019,
        table 0x000007C0 (cases ((0x00000080, leaf 160) ∷ (0x000000C0, leaf 158) ∷ [])),
      )
      ∷ (
        0x00000018,
        table 0x000007C0 (cases ((0x00000080, leaf 159) ∷ (0x000000C0, leaf 157) ∷ [])),
      )
      ∷ (
        0x0000001B,
        table 0x000007C0 (cases ((0x00000080, leaf 115) ∷ (0x000000C0, leaf 151) ∷ [])),
      )
      ∷ (
        0x0000001A,
        table 0x000007C0 (cases ((0x00000080, leaf 114) ∷ (0x000000C0, leaf 150) ∷ [])),
      )
      ∷ (0x00000024, leaf 90)
      ∷ (0x00000020, leaf 84)
      ∷ (0x00000005, leaf 142)
      ∷ (0x00000036, leaf 215)
      ∷ (0x00000033, leaf 214)
      ∷ (0x00000032, leaf 213)
      ∷ (0x00000031, leaf 212)
      ∷ (0x00000030, leaf 211)
      ∷ (0x00000034, leaf 210)
      ∷ (0x0000000C, leaf 209)
      ∷ (0x0000000E, leaf 184)
      ∷ (0x0000000D, leaf 110)
      ∷ []))

unfoldable pub index_special3 : MapOrInfo ℕ
index_special3 = table 0x0000003F (
    cases (
      (0x0000003D, leaf 120)
      ∷ (
        0x00000020,
        table_or 0x03E007C0
            (cases (
              (0x00000600, leaf 186)
              ∷ (0x00000400, leaf 185)
              ∷ (0x00000000, leaf 103)
              ∷ (0x00000080, leaf 217)
              ∷ []))
            (table 0xFC00073F (cases ((0x7C000220, leaf 88) ∷ []))),
      )
      ∷ (0x0000003B, leaf 175)
      ∷ (
        0x00000036,
        table_or 0x000007C0 (cases ((0x00000040, leaf 140) ∷ []))
            (table 0xFC00007F (cases ((0x7C000036, leaf 138) ∷ []))),
      )
      ∷ (
        0x0000002E,
        table_or 0x000007C0 (cases ((0x00000040, leaf 141) ∷ []))
            (table 0xFC00007F (cases ((0x7C00002E, leaf 139) ∷ []))),
      )
      ∷ (
        0x00000026,
        table_or 0x000007C0 (cases ((0x00000040, leaf 182) ∷ []))
            (table 0xFC00007F (cases ((0x7C000026, leaf 180) ∷ []))),
      )
      ∷ (
        0x0000001E,
        table_or 0x000007C0 (cases ((0x00000040, leaf 183) ∷ []))
            (table 0xFC00007F (cases ((0x7C00001E, leaf 181) ∷ []))),
      )
      ∷ (0x0000001F, leaf 206)
      ∷ (0x0000001D, leaf 190)
      ∷ (0x0000001C, leaf 179)
      ∷ (0x00000023, leaf 174)
      ∷ (0x00000035, leaf 173)
      ∷ (0x0000002F, leaf 144)
      ∷ (0x00000029, leaf 137)
      ∷ (0x0000002D, leaf 135)
      ∷ (0x00000028, leaf 133)
      ∷ (0x0000002C, leaf 131)
      ∷ (0x00000025, leaf 111)
      ∷ (0x00000004, leaf 121)
      ∷ (0x00000000, leaf 119)
      ∷ []))
