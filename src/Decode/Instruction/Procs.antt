-- ===== src/Decode/Instruction/Procs.antt =====
-- The array of the functions of the instructions (src/mips/instructions/instructions_table.cpp).
use vemips.Base.{List, [], ◌∷◌, ◌++◌}
use vemips.Decode.Instruction.{
  Cop1Op, single_fp, double_fp, word_fp, long_fp, void_fp, Instruction, processor, cop1,
}
use vemips.Isa.Op.{Op}

-- `AllInstructionsProcs`, by the instruction whose `Execute` stands there.
abbrev cop1_procs : List Instruction
cop1_procs =
    cop1 Cop1Op.abs single_fp
    ∷ cop1 Cop1Op.abs double_fp
    ∷ cop1 Cop1Op.add single_fp
    ∷ cop1 Cop1Op.add double_fp
    ∷ cop1 Cop1Op.bc1eqz void_fp
    ∷ cop1 Cop1Op.bc1nez void_fp
    ∷ cop1 Cop1Op.ceil_l single_fp
    ∷ cop1 Cop1Op.ceil_l double_fp
    ∷ cop1 Cop1Op.ceil_w single_fp
    ∷ cop1 Cop1Op.ceil_w double_fp
    ∷ cop1 Cop1Op.cfc1 void_fp
    ∷ cop1 Cop1Op.class single_fp
    ∷ cop1 Cop1Op.class double_fp
    ∷ cop1 Cop1Op.cmp_condn_d void_fp
    ∷ cop1 Cop1Op.cmp_condn_s void_fp
    ∷ cop1 Cop1Op.ctc1 void_fp
    ∷ cop1 Cop1Op.cvt_d word_fp
    ∷ cop1 Cop1Op.cvt_d long_fp
    ∷ cop1 Cop1Op.cvt_d single_fp
    ∷ cop1 Cop1Op.cvt_d double_fp
    ∷ cop1 Cop1Op.cvt_l single_fp
    ∷ cop1 Cop1Op.cvt_l double_fp
    ∷ cop1 Cop1Op.cvt_s word_fp
    ∷ cop1 Cop1Op.cvt_s long_fp
    ∷ cop1 Cop1Op.cvt_s single_fp
    ∷ cop1 Cop1Op.cvt_s double_fp
    ∷ cop1 Cop1Op.cvt_w single_fp
    ∷ cop1 Cop1Op.cvt_w double_fp
    ∷ cop1 Cop1Op.div single_fp
    ∷ cop1 Cop1Op.div double_fp
    ∷ cop1 Cop1Op.floor_l single_fp
    ∷ cop1 Cop1Op.floor_l double_fp
    ∷ cop1 Cop1Op.floor_w single_fp
    ∷ cop1 Cop1Op.floor_w double_fp
    ∷ cop1 Cop1Op.ldc1 void_fp
    ∷ cop1 Cop1Op.lwc1 void_fp
    ∷ cop1 Cop1Op.maddf single_fp
    ∷ cop1 Cop1Op.maddf double_fp
    ∷ cop1 Cop1Op.max single_fp
    ∷ cop1 Cop1Op.max double_fp
    ∷ cop1 Cop1Op.maxa single_fp
    ∷ cop1 Cop1Op.maxa double_fp
    ∷ cop1 Cop1Op.mfc1 void_fp
    ∷ cop1 Cop1Op.mfhc1 void_fp
    ∷ cop1 Cop1Op.min single_fp
    ∷ cop1 Cop1Op.min double_fp
    ∷ cop1 Cop1Op.mina single_fp
    ∷ cop1 Cop1Op.mina double_fp
    ∷ cop1 Cop1Op.mov single_fp
    ∷ cop1 Cop1Op.mov double_fp
    ∷ cop1 Cop1Op.msubf single_fp
    ∷ cop1 Cop1Op.msubf double_fp
    ∷ cop1 Cop1Op.mtc1 void_fp
    ∷ cop1 Cop1Op.mthc1 void_fp
    ∷ cop1 Cop1Op.mul single_fp
    ∷ cop1 Cop1Op.mul double_fp
    ∷ cop1 Cop1Op.neg single_fp
    ∷ cop1 Cop1Op.neg double_fp
    ∷ cop1 Cop1Op.recip single_fp
    ∷ cop1 Cop1Op.recip double_fp
    ∷ cop1 Cop1Op.rint single_fp
    ∷ cop1 Cop1Op.rint double_fp
    ∷ cop1 Cop1Op.round_l single_fp
    ∷ cop1 Cop1Op.round_l double_fp
    ∷ cop1 Cop1Op.round_w single_fp
    ∷ cop1 Cop1Op.round_w double_fp
    ∷ cop1 Cop1Op.rsqrt single_fp
    ∷ cop1 Cop1Op.rsqrt double_fp
    ∷ cop1 Cop1Op.sdc1 void_fp
    ∷ cop1 Cop1Op.sel single_fp
    ∷ cop1 Cop1Op.sel double_fp
    ∷ cop1 Cop1Op.seleqz single_fp
    ∷ cop1 Cop1Op.seleqz double_fp
    ∷ cop1 Cop1Op.selnez single_fp
    ∷ cop1 Cop1Op.selnez double_fp
    ∷ cop1 Cop1Op.sqrt single_fp
    ∷ cop1 Cop1Op.sqrt double_fp
    ∷ cop1 Cop1Op.sub single_fp
    ∷ cop1 Cop1Op.sub double_fp
    ∷ cop1 Cop1Op.swc1 void_fp
    ∷ cop1 Cop1Op.trunc_l single_fp
    ∷ cop1 Cop1Op.trunc_l double_fp
    ∷ cop1 Cop1Op.trunc_w single_fp
    ∷ cop1 Cop1Op.trunc_w double_fp
    ∷ []

abbrev processor_procs : List Instruction
processor_procs =
    processor Op.add
    ∷ processor Op.addiu
    ∷ processor Op.addiupc
    ∷ processor Op.addu
    ∷ processor Op.align
    ∷ processor Op.aluipc
    ∷ processor Op.and
    ∷ processor Op.andi
    ∷ processor Op.aui
    ∷ processor Op.auipc
    ∷ processor Op.bal
    ∷ processor Op.balc
    ∷ processor Op.bc
    ∷ processor Op.beq
    ∷ processor Op.beqzc
    ∷ processor Op.bgez
    ∷ processor Op.bgtz
    ∷ processor Op.bgtzalc
    ∷ processor Op.bgtzc
    ∷ processor Op.bitswap
    ∷ processor Op.blez
    ∷ processor Op.blezalc
    ∷ processor Op.blezc
    ∷ processor Op.bltz
    ∷ processor Op.bne
    ∷ processor Op.bnezc
    ∷ processor Op.break_point
    ∷ processor Op.cache
    ∷ processor Op.clo
    ∷ processor Op.clz
    ∷ processor Op.div
    ∷ processor Op.divu
    ∷ processor Op.ehb
    ∷ processor Op.eret
    ∷ processor Op.eretnc
    ∷ processor Op.ext
    ∷ processor Op.ginvi
    ∷ processor Op.ins
    ∷ processor Op.j
    ∷ processor Op.jal
    ∷ processor Op.jalr
    ∷ processor Op.jalr_hb
    ∷ processor Op.jialc
    ∷ processor Op.jic
    ∷ processor Op.jr
    ∷ processor Op.jr_hb
    ∷ processor Op.lb
    ∷ processor Op.lbe
    ∷ processor Op.lbu
    ∷ processor Op.lbue
    ∷ processor Op.lh
    ∷ processor Op.lhe
    ∷ processor Op.lhu
    ∷ processor Op.lhue
    ∷ processor Op.ll
    ∷ processor Op.lle
    ∷ processor Op.llwp
    ∷ processor Op.llwpe
    ∷ processor Op.lsa
    ∷ processor Op.lw
    ∷ processor Op.lwe
    ∷ processor Op.lwpc
    ∷ processor Op.mfc0
    ∷ processor Op.mfc2
    ∷ processor Op.mfhc0
    ∷ processor Op.mfhc2
    ∷ processor Op.modulo
    ∷ processor Op.modu
    ∷ processor Op.move
    ∷ processor Op.mtc0
    ∷ processor Op.mtc2
    ∷ processor Op.mthc0
    ∷ processor Op.mthc2
    ∷ processor Op.muh
    ∷ processor Op.muhu
    ∷ processor Op.mul
    ∷ processor Op.mulu
    ∷ processor Op.nal
    ∷ processor Op.nop
    ∷ processor Op.nor
    ∷ processor Op.or
    ∷ processor Op.ori
    ∷ processor Op.pause
    ∷ processor Op.pop06
    ∷ processor Op.pop07
    ∷ processor Op.pop10
    ∷ processor Op.pop26
    ∷ processor Op.pop27
    ∷ processor Op.pop30
    ∷ processor Op.pref
    ∷ processor Op.prefe
    ∷ processor Op.rdhwr
    ∷ processor Op.rotr
    ∷ processor Op.rotrv
    ∷ processor Op.sb
    ∷ processor Op.sbe
    ∷ processor Op.sc
    ∷ processor Op.sce
    ∷ processor Op.scwp
    ∷ processor Op.scwpe
    ∷ processor Op.sdbbp
    ∷ processor Op.seb
    ∷ processor Op.seh
    ∷ processor Op.seleqz
    ∷ processor Op.selnez
    ∷ processor Op.sh
    ∷ processor Op.she
    ∷ processor Op.sigrie
    ∷ processor Op.sll
    ∷ processor Op.sllv
    ∷ processor Op.slt
    ∷ processor Op.slti
    ∷ processor Op.sltiu
    ∷ processor Op.sltu
    ∷ processor Op.sra
    ∷ processor Op.srav
    ∷ processor Op.srl
    ∷ processor Op.srlv
    ∷ processor Op.ssnop
    ∷ processor Op.sub
    ∷ processor Op.subu
    ∷ processor Op.sw
    ∷ processor Op.swe
    ∷ processor Op.sync
    ∷ processor Op.synci
    ∷ processor Op.syscall
    ∷ processor Op.teq
    ∷ processor Op.tge
    ∷ processor Op.tgeu
    ∷ processor Op.tlt
    ∷ processor Op.tltu
    ∷ processor Op.tne
    ∷ processor Op.wait
    ∷ processor Op.wsbh
    ∷ processor Op.xor
    ∷ processor Op.xori
    ∷ []

unfoldable pub all_instruction_procs : List Instruction
all_instruction_procs = cop1_procs ++ processor_procs
