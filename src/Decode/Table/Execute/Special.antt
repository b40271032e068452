-- ===== src/Decode/Table/Execute/Special.antt =====
-- The branches of `execute_instruction` under the major opcodes SPECIAL and SPECIAL3
-- (src/mips/instructions/instructions_table.cpp).
use vemips.Base.{[], ◌∷◌}
use vemips.Decode.{MapOrInfo, leaf, table, table_or}
use vemips.Decode.Table.Cases.{cases}
use vemips.Decode.Instruction.{Instruction, processor}
use vemips.Isa.Op.{Op}

unfoldable pub execute_special : MapOrInfo Instruction
execute_special = table 0x0000003F (
    cases (
      (0x0000000F, leaf (processor Op.sync))
      ∷ (
        0x00000021,
        table_or 0x001F07C0 (cases ((0x00000040, leaf (processor Op.clo)) ∷ []))
            (table 0xFC0007FF (cases ((0x00000021, leaf (processor Op.addu)) ∷ []))),
      )
      ∷ (
        0x00000009,
        table_or 0x001FFC00
            (cases
              ((0x00000000, leaf (processor Op.jr)) ∷ (0x00000400, leaf (processor Op.jr_hb)) ∷ []))
            (table 0xFC1F043F (
              cases (
                (0x00000409, leaf (processor Op.jalr_hb))
                ∷ (0x00000009, leaf (processor Op.jalr))
                ∷ []))),
      )
      ∷ (0x00000010, leaf (processor Op.clz))
      ∷ (
        0x00000006,
        table 0x000007C0 (
            cases (
              (0x00000040, leaf (processor Op.rotrv))
              ∷ (0x00000000, leaf (processor Op.srlv))
              ∷ [])),
      )
      ∷ (0x00000026, leaf (processor Op.xor))
      ∷ (0x00000023, leaf (processor Op.subu))
      ∷ (0x00000022, leaf (processor Op.sub))
      ∷ (
        0x00000002,
        table 0x03E00000 (
            cases (
              (0x00200000, leaf (processor Op.rotr)) ∷ (0x00000000, leaf (processor Op.srl)) ∷ [])),
      )
      ∷ (0x00000007, leaf (processor Op.srav))
      ∷ (0x00000003, leaf (processor Op.sra))
      ∷ (0x0000002B, leaf (processor Op.sltu))
      ∷ (0x0000002A, leaf (processor Op.slt))
      ∷ (0x00000004, leaf (processor Op.sllv))
      ∷ (0x00000000, leaf (processor Op.sll))
      ∷ (0x00000037, leaf (processor Op.selnez))
      ∷ (0x00000035, leaf (processor Op.seleqz))
      ∷ (0x00000025, leaf (processor Op.or))
      ∷ (0x00000027, leaf (processor Op.nor))
      ∷ (
        0x00000019,
        table 0x000007C0 (
            cases (
              (0x00000080, leaf (processor Op.mulu))
              ∷ (0x000000C0, leaf (processor Op.muhu))
              ∷ [])),
      )
      ∷ (
        0x00000018,
        table 0x000007C0 (
            cases
              ((0x00000080, leaf (processor Op.mul)) ∷ (0x000000C0, leaf (processor Op.muh)) ∷ [])),
      )
      ∷ (
        0x0000001B,
        table 0x000007C0 (
            cases (
              (0x00000080, leaf (processor Op.divu))
              ∷ (0x000000C0, leaf (processor Op.modu))
              ∷ [])),
      )
      ∷ (
        0x0000001A,
        table 0x000007C0 (
            cases (
              (0x00000080, leaf (processor Op.div))
              ∷ (0x000000C0, leaf (processor Op.modulo))
              ∷ [])),
      )
      ∷ (0x00000024, leaf (processor Op.and))
      ∷ (0x00000020, leaf (processor Op.add))
      ∷ (0x00000005, leaf (processor Op.lsa))
      ∷ (0x00000036, leaf (processor Op.tne))
      ∷ (0x00000033, leaf (processor Op.tltu))
      ∷ (0x00000032, leaf (processor Op.tlt))
      ∷ (0x00000031, leaf (processor Op.tgeu))
      ∷ (0x00000030, leaf (processor Op.tge))
      ∷ (0x00000034, leaf (processor Op.teq))
      ∷ (0x0000000C, leaf (processor Op.syscall))
      ∷ (0x0000000E, leaf (processor Op.sdbbp))
      ∷ (0x0000000D, leaf (processor Op.break_point))
      ∷ []))

unfoldable pub execute_special3 : MapOrInfo Instruction
execute_special3 = table 0x0000003F (
    cases (
      (0x0000003D, leaf (processor Op.ginvi))
      ∷ (
        0x00000020,
        table_or 0x03E007C0
            (cases (
              (0x00000600, leaf (processor Op.seh))
              ∷ (0x00000400, leaf (processor Op.seb))
              ∷ (0x00000000, leaf (processor Op.bitswap))
              ∷ (0x00000080, leaf (processor Op.wsbh))
              ∷ []))
            (table 0xFC00073F (cases ((0x7C000220, leaf (processor Op.align)) ∷ []))),
      )
      ∷ (0x0000003B, leaf (processor Op.rdhwr))
      ∷ (
        0x00000036,
        table_or 0x000007C0 (cases ((0x00000040, leaf (processor Op.llwp)) ∷ []))
            (table 0xFC00007F (cases ((0x7C000036, leaf (processor Op.ll)) ∷ []))),
      )
      ∷ (
        0x0000002E,
        table_or 0x000007C0 (cases ((0x00000040, leaf (processor Op.llwpe)) ∷ []))
            (table 0xFC00007F (cases ((0x7C00002E, leaf (processor Op.lle)) ∷ []))),
      )
      ∷ (
        0x00000026,
        table_or 0x000007C0 (cases ((0x00000040, leaf (processor Op.scwp)) ∷ []))
            (table 0xFC00007F (cases ((0x7C000026, leaf (processor Op.sc)) ∷ []))),
      )
      ∷ (
        0x0000001E,
        table_or 0x000007C0 (cases ((0x00000040, leaf (processor Op.scwpe)) ∷ []))
            (table 0xFC00007F (cases ((0x7C00001E, leaf (processor Op.sce)) ∷ []))),
      )
      ∷ (0x0000001F, leaf (processor Op.swe))
      ∷ (0x0000001D, leaf (processor Op.she))
      ∷ (0x0000001C, leaf (processor Op.sbe))
      ∷ (0x00000023, leaf (processor Op.prefe))
      ∷ (0x00000035, leaf (processor Op.pref))
      ∷ (0x0000002F, leaf (processor Op.lwe))
      ∷ (0x00000029, leaf (processor Op.lhue))
      ∷ (0x0000002D, leaf (processor Op.lhe))
      ∷ (0x00000028, leaf (processor Op.lbue))
      ∷ (0x0000002C, leaf (processor Op.lbe))
      ∷ (0x00000025, leaf (processor Op.cache))
      ∷ (0x00000004, leaf (processor Op.ins))
      ∷ (0x00000000, leaf (processor Op.ext))
      ∷ []))
