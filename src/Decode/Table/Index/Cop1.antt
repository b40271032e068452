-- ===== src/Decode/Table/Index/Cop1.antt =====
-- The branches of `get_instruction_index` under the major opcode COP1
-- (src/mips/instructions/instructions_table.cpp).
use vemips.Base.{[], ◌∷◌, ℕ}
use vemips.Decode.{MapOrInfo, leaf, table, table_or}
use vemips.Decode.Table.Cases.{cases}

unfoldable pub index_cop1_single : MapOrInfo ℕ
index_cop1_single =
    table_or 0x001F003F
      (cases (
        (0x00000025, leaf 20)
        ∷ (0x00000005, leaf 0)
        ∷ (0x0000000D, leaf 82)
        ∷ (0x0000001B, leaf 11)
        ∷ (0x00000021, leaf 18)
        ∷ (0x00000020, leaf 24)
        ∷ (0x00000024, leaf 26)
        ∷ (0x00000006, leaf 48)
        ∷ (0x00000007, leaf 56)
        ∷ (0x00000015, leaf 58)
        ∷ (0x0000001A, leaf 60)
        ∷ (0x00000016, leaf 66)
        ∷ (0x00000004, leaf 75)
        ∷ (0x00000008, leaf 62)
        ∷ (0x0000000C, leaf 64)
        ∷ (0x0000000A, leaf 6)
        ∷ (0x0000000E, leaf 8)
        ∷ (0x0000000B, leaf 30)
        ∷ (0x0000000F, leaf 32)
        ∷ (0x00000009, leaf 80)
        ∷ []))
      (table 0xFFE0003F (
        cases (
          (0x46000018, leaf 36)
          ∷ (0x46000000, leaf 2)
          ∷ (0x46000003, leaf 28)
          ∷ (0x46000019, leaf 50)
          ∷ (0x4600001E, leaf 38)
          ∷ (0x4600001C, leaf 44)
          ∷ (0x4600001F, leaf 40)
          ∷ (0x4600001D, leaf 46)
          ∷ (0x46000002, leaf 54)
          ∷ (0x46000010, leaf 69)
          ∷ (0x46000014, leaf 71)
          ∷ (0x46000017, leaf 73)
          ∷ (0x46000001, leaf 77)
          ∷ [])))

unfoldable pub index_cop1_double : MapOrInfo ℕ
index_cop1_double =
    table_or 0x001F003F
      (cases (
        (0x00000021, leaf 19)
        ∷ (0x00000009, leaf 81)
        ∷ (0x00000025, leaf 21)
        ∷ (0x00000005, leaf 1)
        ∷ (0x0000000D, leaf 83)
        ∷ (0x0000001B, leaf 12)
        ∷ (0x00000020, leaf 25)
        ∷ (0x00000024, leaf 27)
        ∷ (0x00000006, leaf 49)
        ∷ (0x00000007, leaf 57)
        ∷ (0x00000015, leaf 59)
        ∷ (0x0000001A, leaf 61)
        ∷ (0x00000016, leaf 67)
        ∷ (0x00000004, leaf 76)
        ∷ (0x00000008, leaf 63)
        ∷ (0x0000000C, leaf 65)
        ∷ (0x0000000A, leaf 7)
        ∷ (0x0000000E, leaf 9)
        ∷ (0x0000000B, leaf 31)
        ∷ (0x0000000F, leaf 33)
        ∷ []))
      (table 0xFFE0003F (
        cases (
          (0x46200018, leaf 37)
          ∷ (0x46200000, leaf 3)
          ∷ (0x46200003, leaf 29)
          ∷ (0x46200019, leaf 51)
          ∷ (0x4620001E, leaf 39)
          ∷ (0x4620001C, leaf 45)
          ∷ (0x4620001F, leaf 41)
          ∷ (0x4620001D, leaf 47)
          ∷ (0x46200002, leaf 55)
          ∷ (0x46200010, leaf 70)
          ∷ (0x46200014, leaf 72)
          ∷ (0x46200017, leaf 74)
          ∷ (0x46200001, leaf 78)
          ∷ [])))

unfoldable pub index_cop1 : MapOrInfo ℕ
unfolding index_cop1_single index_cop1_double
index_cop1 = table 0x03E00000 (
    cases (
      (0x01200000, leaf 4)
      ∷ (0x01A00000, leaf 5)
      ∷ (
        0x02800000,
        table_or 0x001F003F (cases ((0x00000020, leaf 22) ∷ (0x00000021, leaf 16) ∷ []))
            (table 0xFFE00020 (cases ((0x46800000, leaf 14) ∷ []))),
      )
      ∷ (
        0x02A00000,
        table_or 0x001F003F (cases ((0x00000020, leaf 23) ∷ (0x00000021, leaf 17) ∷ []))
            (table 0xFFE00020 (cases ((0x46A00000, leaf 13) ∷ []))),
      )
      ∷ (0x02000000, index_cop1_single)
      ∷ (0x02200000, index_cop1_double)
      ∷ (0x00600000, leaf 43)
      ∷ (0x00E00000, leaf 53)
      ∷ (0x00000000, leaf 42)
      ∷ (0x00800000, leaf 52)
      ∷ (0x00400000, leaf 10)
      ∷ (0x00C00000, leaf 15)
      ∷ []))
