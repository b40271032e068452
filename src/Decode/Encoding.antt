-- ===== src/Decode/Encoding.antt =====
-- The mask and the reference of each `ProcInstructionDef`
-- (src/mips/instructions/processor_inst.cpp).
pub mod Cop1
use vemips.Base.{ℕ}
use vemips.Isa.Op.{Op}

unfoldable pub encoding : Op → ℕ × ℕ
encoding Op.add = (0xFC0007FF, 0x00000020)
encoding Op.addiu = (0xFC000000, 0x24000000)
encoding Op.move = (0xFC00FFFF, 0x24000000)
encoding Op.addiupc = (0xFC180000, 0xEC000000)
encoding Op.addu = (0xFC0007FF, 0x00000021)
encoding Op.align = (0xFC00073F, 0x7C000220)
encoding Op.aluipc = (0xFC1F0000, 0xEC1F0000)
encoding Op.and = (0xFC0007FF, 0x00000024)
encoding Op.andi = (0xFC000000, 0x30000000)
encoding Op.aui = (0xFC000000, 0x3C000000)
encoding Op.auipc = (0xFC1F0000, 0xEC1E0000)
encoding Op.bal = (0xFFFF0000, 0x04110000)
encoding Op.balc = (0xFC000000, 0xE8000000)
encoding Op.bc = (0xFC000000, 0xC8000000)
encoding Op.beq = (0xFC000000, 0x10000000)
encoding Op.bgez = (0xFC1F0000, 0x04010000)
encoding Op.blezalc = (0xFFE00000, 0x18000000)
encoding Op.pop06 = (0xFC000000, 0x18000000)
encoding Op.bgtzalc = (0xFFE00000, 0x1C000000)
encoding Op.pop07 = (0xFC000000, 0x1C000000)
encoding Op.pop10 = (0xFC000000, 0x20000000)
encoding Op.pop30 = (0xFC000000, 0x60000000)
encoding Op.blezc = (0xFFE00000, 0x58000000)
encoding Op.pop26 = (0xFC000000, 0x58000000)
encoding Op.bgtzc = (0xFFE00000, 0x5C000000)
encoding Op.pop27 = (0xFC000000, 0x5C000000)
encoding Op.beqzc = (0xFC000000, 0xD8000000)
encoding Op.jic = (0xFFE00000, 0xD8000000)
encoding Op.bnezc = (0xFC000000, 0xF8000000)
encoding Op.jialc = (0xFFE00000, 0xF8000000)
encoding Op.bgtz = (0xFC1F0000, 0x1C000000)
encoding Op.bitswap = (0xFFE007FF, 0x7C000020)
encoding Op.blez = (0xFC1F0000, 0x18000000)
encoding Op.bltz = (0xFC1F0000, 0x04000000)
encoding Op.bne = (0xFC000000, 0x14000000)
encoding Op.break_point = (0xFC00003F, 0x0000000D)
encoding Op.cache = (0xFC00007F, 0x7C000025)
encoding Op.cachee = (0xFC00007F, 0x7C000036)
encoding Op.ginvi = (0xFC1FFFFF, 0x7C00003D)
encoding Op.clo = (0xFC1F07FF, 0x00000061)
encoding Op.clz = (0xFC1F07FF, 0x00000050)
encoding Op.div = (0xFC0007FF, 0x0000009A)
encoding Op.modulo = (0xFC0007FF, 0x000000DA)
encoding Op.divu = (0xFC0007FF, 0x0000009B)
encoding Op.modu = (0xFC0007FF, 0x000000DB)
encoding Op.ehb = (0xFFFFFFFF, 0x000000C0)
encoding Op.ext = (0xFC00003F, 0x7C000000)
encoding Op.ins = (0xFC00003F, 0x7C000004)
encoding Op.j = (0xFC000000, 0x08000000)
encoding Op.jal = (0xFC000000, 0x0C000000)
encoding Op.jalr = (0xFC1F043F, 0x00000009)
encoding Op.jalr_hb = (0xFC1F043F, 0x00000409)
encoding Op.jr = (0xFC1FFC3F, 0x00000009)
encoding Op.jr_hb = (0xFC1FFC3F, 0x00000409)
encoding Op.lb = (0xFC000000, 0x80000000)
encoding Op.lbe = (0xFC00007F, 0x7C00002C)
encoding Op.lbu = (0xFC000000, 0x90000000)
encoding Op.lbue = (0xFC00007F, 0x7C000028)
encoding Op.lh = (0xFC000000, 0x84000000)
encoding Op.lhe = (0xFC00007F, 0x7C00002D)
encoding Op.lhu = (0xFC000000, 0x94000000)
encoding Op.lhue = (0xFC00007F, 0x7C000029)
encoding Op.ll = (0xFC00007F, 0x7C000036)
encoding Op.lle = (0xFC00007F, 0x7C00002E)
encoding Op.llwp = (0xFC0007FF, 0x7C000076)
encoding Op.llwpe = (0xFC0007FF, 0x7C00006E)
encoding Op.lsa = (0xFC00073F, 0x00000005)
encoding Op.lw = (0xFC000000, 0x8C000000)
encoding Op.lwe = (0xFC00007F, 0x7C00002F)
encoding Op.lwpc = (0xFC180000, 0xEC080000)
encoding Op.mul = (0xFC0007FF, 0x00000098)
encoding Op.muh = (0xFC0007FF, 0x000000D8)
encoding Op.mulu = (0xFC0007FF, 0x00000099)
encoding Op.muhu = (0xFC0007FF, 0x000000D9)
encoding Op.nal = (0xFFFF0000, 0x04100000)
encoding Op.nop = (0xFFFFFFFF, 0x00000000)
encoding Op.nor = (0xFC0007FF, 0x00000027)
encoding Op.or = (0xFC0007FF, 0x00000025)
encoding Op.ori = (0xFC000000, 0x34000000)
encoding Op.pause = (0xFFFFFFFF, 0x00000140)
encoding Op.pref = (0xFC00007F, 0x7C000035)
encoding Op.prefe = (0xFC00007F, 0x7C000023)
encoding Op.rdhwr = (0xFFE0063F, 0x7C00003B)
encoding Op.rotr = (0xFFE0003F, 0x00200002)
encoding Op.rotrv = (0xFC0007FF, 0x00000046)
encoding Op.sb = (0xFC000000, 0xA0000000)
encoding Op.sbe = (0xFC00007F, 0x7C00001C)
encoding Op.sc = (0xFC00007F, 0x7C000026)
encoding Op.sce = (0xFC00007F, 0x7C00001E)
encoding Op.scwp = (0xFC0007FF, 0x7C000066)
encoding Op.scwpe = (0xFC0007FF, 0x7C00005E)
encoding Op.sdbbp = (0xFC00003F, 0x0000000E)
encoding Op.seb = (0xFFE007FF, 0x7C000420)
encoding Op.seh = (0xFFE007FF, 0x7C000620)
encoding Op.seleqz = (0xFC0007FF, 0x00000035)
encoding Op.selnez = (0xFC0007FF, 0x00000037)
encoding Op.sh = (0xFC000000, 0xA4000000)
encoding Op.she = (0xFC00007F, 0x7C00001D)
encoding Op.sigrie = (0xFFFF0000, 0x04170000)
encoding Op.sll = (0xFFE0003F, 0x00000000)
encoding Op.sllv = (0xFC0007FF, 0x00000004)
encoding Op.slt = (0xFC0007FF, 0x0000002A)
encoding Op.slti = (0xFC000000, 0x28000000)
encoding Op.sltiu = (0xFC000000, 0x2C000000)
encoding Op.sltu = (0xFC0007FF, 0x0000002B)
encoding Op.sra = (0xFFE0003F, 0x00000003)
encoding Op.srav = (0xFC0007FF, 0x00000007)
encoding Op.srl = (0xFFE0003F, 0x00000002)
encoding Op.srlv = (0xFC0007FF, 0x00000006)
encoding Op.ssnop = (0xFFFFFFFF, 0x00000040)
encoding Op.sub = (0xFC0007FF, 0x00000022)
encoding Op.subu = (0xFC0007FF, 0x00000023)
encoding Op.sw = (0xFC000000, 0xAC000000)
encoding Op.swe = (0xFC00007F, 0x7C00001F)
encoding Op.sync = (0xFFFFF83F, 0x0000000F)
encoding Op.synci = (0xFC1F0000, 0x041F0000)
encoding Op.syscall = (0xFC00003F, 0x0000000C)
encoding Op.teq = (0xFC00003F, 0x00000034)
encoding Op.tge = (0xFC00003F, 0x00000030)
encoding Op.tgeu = (0xFC00003F, 0x00000031)
encoding Op.tlt = (0xFC00003F, 0x00000032)
encoding Op.tltu = (0xFC00003F, 0x00000033)
encoding Op.tne = (0xFC00003F, 0x00000036)
encoding Op.wsbh = (0xFFE007FF, 0x7C0000A0)
encoding Op.xor = (0xFC0007FF, 0x00000026)
encoding Op.xori = (0xFC000000, 0x38000000)
encoding Op.mfc0 = (0xFFE007F8, 0x40000000)
encoding Op.mfhc0 = (0xFFE007F8, 0x40400000)
encoding Op.mtc0 = (0xFFE007F8, 0x40800000)
encoding Op.mthc0 = (0xFFE007F8, 0x40C00000)
encoding Op.eret = (0xFFFFFFD8, 0x42000000)
encoding Op.eretnc = (0xFFFFFFD8, 0x42000040)
encoding Op.mfc2 = (0xFFE007F8, 0x48000000)
encoding Op.mfhc2 = (0xFFE007F8, 0x48600000)
encoding Op.mtc2 = (0xFFE007F8, 0x48800000)
encoding Op.mthc2 = (0xFFE007F8, 0x48E00000)
encoding Op.wait = (0xFE00007F, 0x42000060)
