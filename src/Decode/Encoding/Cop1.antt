-- ===== src/Decode/Encoding/Cop1.antt =====
-- The mask and the reference of each `Cop1InstructionDef`, and the bits of its formats
-- (src/mips/instructions/coprocessor1_inst.cpp, coprocessor1_support.hpp).
use vemips.Base.{ℕ}
use vemips.Decode.Instruction.{
  Cop1Op, InstructionType, single_fp, double_fp, word_fp, long_fp, void_fp,
}

unfoldable pub cop1_encoding : Cop1Op → ℕ × ℕ
cop1_encoding Cop1Op.abs = (0xFFFF003F, 0x46000005)
cop1_encoding Cop1Op.add = (0xFFE0003F, 0x46000000)
cop1_encoding Cop1Op.bc1eqz = (0xFFE00000, 0x45200000)
cop1_encoding Cop1Op.bc1nez = (0xFFE00000, 0x45A00000)
cop1_encoding Cop1Op.ceil_l = (0xFFFF003F, 0x4600000A)
cop1_encoding Cop1Op.ceil_w = (0xFFFF003F, 0x4600000E)
cop1_encoding Cop1Op.cfc1 = (0xFFE007FF, 0x44400000)
cop1_encoding Cop1Op.class = (0xFFFF003F, 0x4600001B)
cop1_encoding Cop1Op.cmp_condn_d = (0xFFE00020, 0x46A00000)
cop1_encoding Cop1Op.cmp_condn_s = (0xFFE00020, 0x46800000)
cop1_encoding Cop1Op.ctc1 = (0xFFE007FF, 0x44C00000)
cop1_encoding Cop1Op.cvt_d = (0xFFFF003F, 0x46000021)
cop1_encoding Cop1Op.cvt_l = (0xFFFF003F, 0x44000025)
cop1_encoding Cop1Op.cvt_s = (0xFFFF003F, 0x46000020)
cop1_encoding Cop1Op.cvt_w = (0xFFFF003F, 0x44000024)
cop1_encoding Cop1Op.div = (0xFFE0003F, 0x46000003)
cop1_encoding Cop1Op.floor_l = (0xFFFF003F, 0x4600000B)
cop1_encoding Cop1Op.floor_w = (0xFFFF003F, 0x4600000F)
cop1_encoding Cop1Op.ldc1 = (0xFC000000, 0xD4000000)
cop1_encoding Cop1Op.lwc1 = (0xFC000000, 0xC4000000)
cop1_encoding Cop1Op.maddf = (0xFFE0003F, 0x46000018)
cop1_encoding Cop1Op.max = (0xFFE0003F, 0x4600001E)
cop1_encoding Cop1Op.maxa = (0xFFE0003F, 0x4600001F)
cop1_encoding Cop1Op.mfc1 = (0xFFE007FF, 0x44000000)
cop1_encoding Cop1Op.mfhc1 = (0xFFE007FF, 0x44600000)
cop1_encoding Cop1Op.min = (0xFFE0003F, 0x4600001C)
cop1_encoding Cop1Op.mina = (0xFFE0003F, 0x4600001D)
cop1_encoding Cop1Op.mov = (0xFFFF003F, 0x46000006)
cop1_encoding Cop1Op.msubf = (0xFFE0003F, 0x46000019)
cop1_encoding Cop1Op.mtc1 = (0xFFE007FF, 0x44800000)
cop1_encoding Cop1Op.mthc1 = (0xFFE007FF, 0x44E00000)
cop1_encoding Cop1Op.mul = (0xFFE0003F, 0x46000002)
cop1_encoding Cop1Op.neg = (0xFFFF003F, 0x46000007)
cop1_encoding Cop1Op.recip = (0xFFFF003F, 0x46000015)
cop1_encoding Cop1Op.rint = (0xFFFF003F, 0x4600001A)
cop1_encoding Cop1Op.round_l = (0xFFFF003F, 0x46000008)
cop1_encoding Cop1Op.round_w = (0xFFFF003F, 0x4600000C)
cop1_encoding Cop1Op.rsqrt = (0xFFFF003F, 0x46000016)
cop1_encoding Cop1Op.sdc1 = (0xFC000000, 0xF4000000)
cop1_encoding Cop1Op.sel = (0xFFE0003F, 0x46000010)
cop1_encoding Cop1Op.seleqz = (0xFFE0003F, 0x46000014)
cop1_encoding Cop1Op.selnez = (0xFFE0003F, 0x46000017)
cop1_encoding Cop1Op.sqrt = (0xFFFF003F, 0x46000004)
cop1_encoding Cop1Op.sub = (0xFFE0003F, 0x46000001)
cop1_encoding Cop1Op.swc1 = (0xFC000000, 0xE4000000)
cop1_encoding Cop1Op.trunc_l = (0xFFFF003F, 0x46000009)
cop1_encoding Cop1Op.trunc_w = (0xFFFF003F, 0x4600000D)

-- `FormatBits`.
unfoldable pub format_bits : InstructionType → ℕ
format_bits single_fp = 0x02000000
format_bits double_fp = 0x02200000
format_bits word_fp = 0x02800000
format_bits long_fp = 0x02A00000
format_bits void_fp = 0
