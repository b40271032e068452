-- ===== src/Decode/Table/Info/Cop1.antt =====
-- The branches of `get_instruction` under the major opcode COP1
-- (src/mips/instructions/instructions_table.cpp).
use vemips.Base.{[], ◌∷◌}
use vemips.Decode.{MapOrInfo, leaf, table, table_or}
use vemips.Decode.Table.Cases.{cases}
use vemips.Decode.Instruction.{
  Cop1Op, single_fp, double_fp, word_fp, long_fp, void_fp, Instruction, cop1,
}

unfoldable pub info_cop1_single : MapOrInfo Instruction
info_cop1_single =
    table_or 0x001F003F
      (cases (
        (0x00000025, leaf (cop1 Cop1Op.cvt_l single_fp))
        ∷ (0x00000005, leaf (cop1 Cop1Op.abs single_fp))
        ∷ (0x0000000D, leaf (cop1 Cop1Op.trunc_w single_fp))
        ∷ (0x0000001B, leaf (cop1 Cop1Op.class single_fp))
        ∷ (0x00000021, leaf (cop1 Cop1Op.cvt_d single_fp))
        ∷ (0x00000020, leaf (cop1 Cop1Op.cvt_s single_fp))
        ∷ (0x00000024, leaf (cop1 Cop1Op.cvt_w single_fp))
        ∷ (0x00000006, leaf (cop1 Cop1Op.mov single_fp))
        ∷ (0x00000007, leaf (cop1 Cop1Op.neg single_fp))
        ∷ (0x00000015, leaf (cop1 Cop1Op.recip single_fp))
        ∷ (0x0000001A, leaf (cop1 Cop1Op.rint single_fp))
        ∷ (0x00000016, leaf (cop1 Cop1Op.rsqrt single_fp))
        ∷ (0x00000004, leaf (cop1 Cop1Op.sqrt single_fp))
        ∷ (0x00000008, leaf (cop1 Cop1Op.round_l single_fp))
        ∷ (0x0000000C, leaf (cop1 Cop1Op.round_w single_fp))
        ∷ (0x0000000A, leaf (cop1 Cop1Op.ceil_l single_fp))
        ∷ (0x0000000E, leaf (cop1 Cop1Op.ceil_w single_fp))
        ∷ (0x0000000B, leaf (cop1 Cop1Op.floor_l single_fp))
        ∷ (0x0000000F, leaf (cop1 Cop1Op.floor_w single_fp))
        ∷ (0x00000009, leaf (cop1 Cop1Op.trunc_l single_fp))
        ∷ []))
      (table 0xFFE0003F (
        cases (
          (0x46000018, leaf (cop1 Cop1Op.maddf single_fp))
          ∷ (0x46000000, leaf (cop1 Cop1Op.add single_fp))
          ∷ (0x46000003, leaf (cop1 Cop1Op.div single_fp))
          ∷ (0x46000019, leaf (cop1 Cop1Op.msubf single_fp))
          ∷ (0x4600001E, leaf (cop1 Cop1Op.max single_fp))
          ∷ (0x4600001C, leaf (cop1 Cop1Op.min single_fp))
          ∷ (0x4600001F, leaf (cop1 Cop1Op.maxa single_fp))
          ∷ (0x4600001D, leaf (cop1 Cop1Op.mina single_fp))
          ∷ (0x46000002, leaf (cop1 Cop1Op.mul single_fp))
          ∷ (0x46000010, leaf (cop1 Cop1Op.sel single_fp))
          ∷ (0x46000014, leaf (cop1 Cop1Op.seleqz single_fp))
          ∷ (0x46000017, leaf (cop1 Cop1Op.selnez single_fp))
          ∷ (0x46000001, leaf (cop1 Cop1Op.sub single_fp))
          ∷ [])))

unfoldable pub info_cop1_double : MapOrInfo Instruction
info_cop1_double =
    table_or 0x001F003F
      (cases (
        (0x00000021, leaf (cop1 Cop1Op.cvt_d double_fp))
        ∷ (0x00000009, leaf (cop1 Cop1Op.trunc_l double_fp))
        ∷ (0x00000025, leaf (cop1 Cop1Op.cvt_l double_fp))
        ∷ (0x00000005, leaf (cop1 Cop1Op.abs double_fp))
        ∷ (0x0000000D, leaf (cop1 Cop1Op.trunc_w double_fp))
        ∷ (0x0000001B, leaf (cop1 Cop1Op.class double_fp))
        ∷ (0x00000020, leaf (cop1 Cop1Op.cvt_s double_fp))
        ∷ (0x00000024, leaf (cop1 Cop1Op.cvt_w double_fp))
        ∷ (0x00000006, leaf (cop1 Cop1Op.mov double_fp))
        ∷ (0x00000007, leaf (cop1 Cop1Op.neg double_fp))
        ∷ (0x00000015, leaf (cop1 Cop1Op.recip double_fp))
        ∷ (0x0000001A, leaf (cop1 Cop1Op.rint double_fp))
        ∷ (0x00000016, leaf (cop1 Cop1Op.rsqrt double_fp))
        ∷ (0x00000004, leaf (cop1 Cop1Op.sqrt double_fp))
        ∷ (0x00000008, leaf (cop1 Cop1Op.round_l double_fp))
        ∷ (0x0000000C, leaf (cop1 Cop1Op.round_w double_fp))
        ∷ (0x0000000A, leaf (cop1 Cop1Op.ceil_l double_fp))
        ∷ (0x0000000E, leaf (cop1 Cop1Op.ceil_w double_fp))
        ∷ (0x0000000B, leaf (cop1 Cop1Op.floor_l double_fp))
        ∷ (0x0000000F, leaf (cop1 Cop1Op.floor_w double_fp))
        ∷ []))
      (table 0xFFE0003F (
        cases (
          (0x46200018, leaf (cop1 Cop1Op.maddf double_fp))
          ∷ (0x46200000, leaf (cop1 Cop1Op.add double_fp))
          ∷ (0x46200003, leaf (cop1 Cop1Op.div double_fp))
          ∷ (0x46200019, leaf (cop1 Cop1Op.msubf double_fp))
          ∷ (0x4620001E, leaf (cop1 Cop1Op.max double_fp))
          ∷ (0x4620001C, leaf (cop1 Cop1Op.min double_fp))
          ∷ (0x4620001F, leaf (cop1 Cop1Op.maxa double_fp))
          ∷ (0x4620001D, leaf (cop1 Cop1Op.mina double_fp))
          ∷ (0x46200002, leaf (cop1 Cop1Op.mul double_fp))
          ∷ (0x46200010, leaf (cop1 Cop1Op.sel double_fp))
          ∷ (0x46200014, leaf (cop1 Cop1Op.seleqz double_fp))
          ∷ (0x46200017, leaf (cop1 Cop1Op.selnez double_fp))
          ∷ (0x46200001, leaf (cop1 Cop1Op.sub double_fp))
          ∷ [])))

unfoldable pub info_cop1 : MapOrInfo Instruction
unfolding info_cop1_single info_cop1_double
info_cop1 = table 0x03E00000 (
    cases (
      (0x01200000, leaf (cop1 Cop1Op.bc1eqz void_fp))
      ∷ (0x01A00000, leaf (cop1 Cop1Op.bc1nez void_fp))
      ∷ (
        0x02800000,
        table_or 0x001F003F
            (cases (
              (0x00000020, leaf (cop1 Cop1Op.cvt_s word_fp))
              ∷ (0x00000021, leaf (cop1 Cop1Op.cvt_d word_fp))
              ∷ []))
            (table 0xFFE00020 (cases ((0x46800000, leaf (cop1 Cop1Op.cmp_condn_s void_fp)) ∷ []))),
      )
      ∷ (
        0x02A00000,
        table_or 0x001F003F
            (cases (
              (0x00000020, leaf (cop1 Cop1Op.cvt_s long_fp))
              ∷ (0x00000021, leaf (cop1 Cop1Op.cvt_d long_fp))
              ∷ []))
            (table 0xFFE00020 (cases ((0x46A00000, leaf (cop1 Cop1Op.cmp_condn_d void_fp)) ∷ []))),
      )
      ∷ (0x02000000, info_cop1_single)
      ∷ (0x02200000, info_cop1_double)
      ∷ (0x00600000, leaf (cop1 Cop1Op.mfhc1 void_fp))
      ∷ (0x00E00000, leaf (cop1 Cop1Op.mthc1 void_fp))
      ∷ (0x00000000, leaf (cop1 Cop1Op.mfc1 void_fp))
      ∷ (0x00800000, leaf (cop1 Cop1Op.mtc1 void_fp))
      ∷ (0x00400000, leaf (cop1 Cop1Op.cfc1 void_fp))
      ∷ (0x00C00000, leaf (cop1 Cop1Op.ctc1 void_fp))
      ∷ []))
