-- ===== src/Isa/Execute.antt =====
-- `SubExecute` of every instruction, and `PROC_Helper::Execute` around it
-- (src/mips/instructions/processor_inst.cpp).
use vemips.Base.{ℕ, if◌then◌else◌, ◌&&◌}
use vemips.Processor.Options.{ExceptionType}
use vemips.Processor.{Processor, Outcome, ◌>>=◌, done, set_register, throw_helper}
use vemips.Isa.Op.{Op, is_control}
use vemips.Isa.Trap.{Handler}
use vemips.Isa.Arithmetic
use vemips.Isa.Logic
use vemips.Isa.Shift
use vemips.Isa.MulDiv
use vemips.Isa.BitField
use vemips.Isa.DelayBranch
use vemips.Isa.CompactBranch
use vemips.Isa.LoadStore
use vemips.Isa.Linked
use vemips.Isa.Trap

unfoldable pub sub_execute : Handler → Op → ℕ → Processor → Outcome Processor
sub_execute handle_exception Op.add i p = Arithmetic.add i p
sub_execute handle_exception Op.addiu i p = Arithmetic.addiu i p
sub_execute handle_exception Op.move i p = Arithmetic.move i p
sub_execute handle_exception Op.addiupc i p = Arithmetic.addiupc i p
sub_execute handle_exception Op.addu i p = Arithmetic.addu i p
sub_execute handle_exception Op.align i p = Logic.align i p
sub_execute handle_exception Op.aluipc i p = Arithmetic.aluipc i p
sub_execute handle_exception Op.and i p = Logic.and i p
sub_execute handle_exception Op.andi i p = Logic.andi i p
sub_execute handle_exception Op.aui i p = Arithmetic.aui i p
sub_execute handle_exception Op.auipc i p = Arithmetic.auipc i p
sub_execute handle_exception Op.bal i p = DelayBranch.bal i p
sub_execute handle_exception Op.balc i p = CompactBranch.balc i p
sub_execute handle_exception Op.bc i p = CompactBranch.bc i p
sub_execute handle_exception Op.beq i p = DelayBranch.beq i p
sub_execute handle_exception Op.bgez i p = DelayBranch.bgez i p
sub_execute handle_exception Op.blezalc i p = CompactBranch.blezalc i p
sub_execute handle_exception Op.pop06 i p = CompactBranch.pop06 i p
sub_execute handle_exception Op.bgtzalc i p = CompactBranch.bgtzalc i p
sub_execute handle_exception Op.pop07 i p = CompactBranch.pop07 i p
sub_execute handle_exception Op.pop10 i p = CompactBranch.pop10 i p
sub_execute handle_exception Op.pop30 i p = CompactBranch.pop30 i p
sub_execute handle_exception Op.blezc i p = CompactBranch.blezc i p
sub_execute handle_exception Op.pop26 i p = CompactBranch.pop26 i p
sub_execute handle_exception Op.bgtzc i p = CompactBranch.bgtzc i p
sub_execute handle_exception Op.pop27 i p = CompactBranch.pop27 i p
sub_execute handle_exception Op.beqzc i p = CompactBranch.beqzc i p
sub_execute handle_exception Op.jic i p = CompactBranch.jic i p
sub_execute handle_exception Op.bnezc i p = CompactBranch.bnezc i p
sub_execute handle_exception Op.jialc i p = CompactBranch.jialc i p
sub_execute handle_exception Op.bgtz i p = DelayBranch.bgtz i p
sub_execute handle_exception Op.bitswap i p = Logic.bitswap i p
sub_execute handle_exception Op.blez i p = DelayBranch.blez i p
sub_execute handle_exception Op.bltz i p = DelayBranch.bltz i p
sub_execute handle_exception Op.bne i p = DelayBranch.bne i p
sub_execute handle_exception Op.break_point i p = Trap.break_point i p
sub_execute handle_exception Op.cache i p = LoadStore.cache i p
sub_execute handle_exception Op.cachee i p = Trap.coprocessor_unusable i p
sub_execute handle_exception Op.ginvi i p = Trap.coprocessor_unusable i p
sub_execute handle_exception Op.clo i p = Logic.clo i p
sub_execute handle_exception Op.clz i p = Logic.clz i p
sub_execute handle_exception Op.div i p = MulDiv.div i p
sub_execute handle_exception Op.modulo i p = MulDiv.modulo i p
sub_execute handle_exception Op.divu i p = MulDiv.divu i p
sub_execute handle_exception Op.modu i p = MulDiv.modu i p
sub_execute handle_exception Op.ehb i p = Trap.sync i p
sub_execute handle_exception Op.ext i p = BitField.ext i p
sub_execute handle_exception Op.ins i p = BitField.ins i p
sub_execute handle_exception Op.j i p = DelayBranch.j i p
sub_execute handle_exception Op.jal i p = DelayBranch.jal i p
sub_execute handle_exception Op.jalr i p = DelayBranch.jalr i p
sub_execute handle_exception Op.jalr_hb i p = DelayBranch.jalr_hb i p
sub_execute handle_exception Op.jr i p = DelayBranch.jr i p
sub_execute handle_exception Op.jr_hb i p = DelayBranch.jr_hb i p
sub_execute handle_exception Op.lb i p = LoadStore.lb i p
sub_execute handle_exception Op.lbe i p = Trap.coprocessor_unusable i p
sub_execute handle_exception Op.lbu i p = LoadStore.lbu i p
sub_execute handle_exception Op.lbue i p = Trap.coprocessor_unusable i p
sub_execute handle_exception Op.lh i p = LoadStore.lh i p
sub_execute handle_exception Op.lhe i p = Trap.coprocessor_unusable i p
sub_execute handle_exception Op.lhu i p = LoadStore.lhu i p
sub_execute handle_exception Op.lhue i p = Trap.coprocessor_unusable i p
sub_execute handle_exception Op.ll i p = Linked.ll i p
sub_execute handle_exception Op.lle i p = Trap.coprocessor_unusable i p
sub_execute handle_exception Op.llwp i p = Linked.llwp i p
sub_execute handle_exception Op.llwpe i p = Trap.coprocessor_unusable i p
sub_execute handle_exception Op.lsa i p = Arithmetic.lsa i p
sub_execute handle_exception Op.lw i p = LoadStore.lw i p
sub_execute handle_exception Op.lwe i p = Trap.coprocessor_unusable i p
sub_execute handle_exception Op.lwpc i p = LoadStore.lwpc i p
sub_execute handle_exception Op.mul i p = MulDiv.mul i p
sub_execute handle_exception Op.muh i p = MulDiv.muh i p
sub_execute handle_exception Op.mulu i p = MulDiv.mulu i p
sub_execute handle_exception Op.muhu i p = MulDiv.muhu i p
sub_execute handle_exception Op.nal i p = DelayBranch.nal i p
sub_execute handle_exception Op.nop i p = Trap.nop i p
sub_execute handle_exception Op.nor i p = Logic.nor i p
sub_execute handle_exception Op.or i p = Logic.or i p
sub_execute handle_exception Op.ori i p = Logic.ori i p
sub_execute handle_exception Op.pause i p = Trap.nop i p
sub_execute handle_exception Op.pref i p = Trap.nop i p
sub_execute handle_exception Op.prefe i p = Trap.coprocessor_unusable i p
sub_execute handle_exception Op.rdhwr i p = Trap.rdhwr i p
sub_execute handle_exception Op.rotr i p = Shift.rotr i p
sub_execute handle_exception Op.rotrv i p = Shift.rotrv i p
sub_execute handle_exception Op.sb i p = LoadStore.sb i p
sub_execute handle_exception Op.sbe i p = Trap.coprocessor_unusable i p
sub_execute handle_exception Op.sc i p = Linked.sc i p
sub_execute handle_exception Op.sce i p = Trap.coprocessor_unusable i p
sub_execute handle_exception Op.scwp i p = Linked.scwp i p
sub_execute handle_exception Op.scwpe i p = Trap.coprocessor_unusable i p
sub_execute handle_exception Op.sdbbp i p = Trap.sdbbp i p
sub_execute handle_exception Op.seb i p = Logic.seb i p
sub_execute handle_exception Op.seh i p = Logic.seh i p
sub_execute handle_exception Op.seleqz i p = Arithmetic.seleqz i p
sub_execute handle_exception Op.selnez i p = Arithmetic.selnez i p
sub_execute handle_exception Op.sh i p = LoadStore.sh i p
sub_execute handle_exception Op.she i p = Trap.coprocessor_unusable i p
sub_execute handle_exception Op.sigrie i p = Trap.sigrie i p
sub_execute handle_exception Op.sll i p = Shift.sll i p
sub_execute handle_exception Op.sllv i p = Shift.sllv i p
sub_execute handle_exception Op.slt i p = Arithmetic.slt i p
sub_execute handle_exception Op.slti i p = Arithmetic.slti i p
sub_execute handle_exception Op.sltiu i p = Arithmetic.sltiu i p
sub_execute handle_exception Op.sltu i p = Arithmetic.sltu i p
sub_execute handle_exception Op.sra i p = Shift.sra i p
sub_execute handle_exception Op.srav i p = Shift.srav i p
sub_execute handle_exception Op.srl i p = Shift.srl i p
sub_execute handle_exception Op.srlv i p = Shift.srlv i p
sub_execute handle_exception Op.ssnop i p = Trap.nop i p
sub_execute handle_exception Op.sub i p = Arithmetic.sub i p
sub_execute handle_exception Op.subu i p = Arithmetic.subu i p
sub_execute handle_exception Op.sw i p = LoadStore.sw i p
sub_execute handle_exception Op.swe i p = Trap.coprocessor_unusable i p
sub_execute handle_exception Op.sync i p = Trap.sync i p
sub_execute handle_exception Op.synci i p = Trap.synci i p
sub_execute handle_exception Op.syscall i p = Trap.syscall handle_exception i p
sub_execute handle_exception Op.teq i p = Trap.teq i p
sub_execute handle_exception Op.tge i p = Trap.tge i p
sub_execute handle_exception Op.tgeu i p = Trap.tgeu i p
sub_execute handle_exception Op.tlt i p = Trap.tlt i p
sub_execute handle_exception Op.tltu i p = Trap.tltu i p
sub_execute handle_exception Op.tne i p = Trap.tne i p
sub_execute handle_exception Op.wsbh i p = Logic.wsbh i p
sub_execute handle_exception Op.xor i p = Logic.xor i p
sub_execute handle_exception Op.xori i p = Logic.xori i p
sub_execute handle_exception Op.mfc0 i p = Trap.coprocessor_unusable i p
sub_execute handle_exception Op.mfhc0 i p = Trap.coprocessor_unusable i p
sub_execute handle_exception Op.mtc0 i p = Trap.coprocessor_unusable i p
sub_execute handle_exception Op.mthc0 i p = Trap.coprocessor_unusable i p
sub_execute handle_exception Op.eret i p = Trap.coprocessor_unusable i p
sub_execute handle_exception Op.eretnc i p = Trap.coprocessor_unusable i p
sub_execute handle_exception Op.mfc2 i p = Trap.coprocessor_unusable i p
sub_execute handle_exception Op.mfhc2 i p = Trap.coprocessor_unusable i p
sub_execute handle_exception Op.mtc2 i p = Trap.coprocessor_unusable i p
sub_execute handle_exception Op.mthc2 i p = Trap.coprocessor_unusable i p
sub_execute handle_exception Op.wait i p = Trap.coprocessor_unusable i p

-- A control instruction in a forbidden slot is reserved. The write to register 0 that follows an
-- instruction with a result is the one that `set_register` ignores.
unfoldable pub execute : Handler → Op → ℕ → Processor → Outcome Processor
execute handle_exception op i p =
    if is_control op && p.flags.no_cti
    then throw_helper ExceptionType.ri p.program_counter 0 p
    else (do q ← sub_execute handle_exception op i p; done (set_register q 0 0))
