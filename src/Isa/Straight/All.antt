-- ===== src/Isa/Straight/All.antt =====
-- The program counter, the pending branch and the flags under every instruction that is no control
-- instruction and no system call (src/mips/instructions/processor_inst.cpp).
use vemips.Base.{ℕ, ◌≡◌, ◌≢◌, refl, false, ◌&&◌, if_both}
use vemips.Isa.Arithmetic.{
  addiu, addiupc, addu, aluipc, aui, auipc, lsa, move, seleqz, selnez, slt, slti, sltiu, sltu, subu,
}
use vemips.Isa.Logic.{and, andi, bitswap, clo, clz, nor, or, ori, seb, seh, wsbh, xor, xori}
use vemips.Isa.MulDiv.{muh, muhu, mul, mulu}
use vemips.Isa.Shift.{sll, sllv, sra, srav, srl, srlv}
use vemips.Isa.Trap.{break_point, coprocessor_unusable, nop, sdbbp, sigrie, sync, synci, Handler}
use vemips.Isa.Execute.{execute, sub_execute}
use vemips.Isa.Op.{Op, is_control}
use vemips.Isa.Straight.{AllStraight, stays, then-Straight, bind-AllStraight, set_register-Straight}
use vemips.Isa.Straight.Cases.{
  lb-AllStraight, lbu-AllStraight, lh-AllStraight, lhu-AllStraight, lw-AllStraight,
  lwpc-AllStraight, sb-AllStraight, sh-AllStraight, sw-AllStraight, ll-AllStraight,
  llwp-AllStraight, sc-AllStraight, scwp-AllStraight, cache-AllStraight, rdhwr-AllStraight,
  add-AllStraight, sub-AllStraight, div-AllStraight, modulo-AllStraight, divu-AllStraight,
  modu-AllStraight, ext-AllStraight, ins-AllStraight, rotr-AllStraight, rotrv-AllStraight,
  align-AllStraight, traps-AllStraight,
}
use vemips.Processor.{Processor, done, set_register}

sub_execute-AllStraight :
    (h : Handler) (op : Op) (i : ℕ) (p : Processor)
    → is_control op ≡ false
    → op ≢ Op.syscall
    → AllStraight p (sub_execute h op i p)
unfolding sub_execute is_control addiu addiupc addu aluipc aui auipc lsa move seleqz selnez slt slti
    sltiu sltu subu and andi bitswap clo clz nor or ori seb seh wsbh xor xori muh muhu mul mulu sll
    sllv sra srav srl srlv break_point coprocessor_unusable nop sdbbp sigrie sync synci
sub_execute-AllStraight h Op.add i p plain no_call = add-AllStraight i p
sub_execute-AllStraight h Op.addiu i p plain no_call = set_register-Straight p _ _
sub_execute-AllStraight h Op.move i p plain no_call = set_register-Straight p _ _
sub_execute-AllStraight h Op.addiupc i p plain no_call = set_register-Straight p _ _
sub_execute-AllStraight h Op.addu i p plain no_call = set_register-Straight p _ _
sub_execute-AllStraight h Op.align i p plain no_call = align-AllStraight i p
sub_execute-AllStraight h Op.aluipc i p plain no_call = set_register-Straight p _ _
sub_execute-AllStraight h Op.and i p plain no_call = set_register-Straight p _ _
sub_execute-AllStraight h Op.andi i p plain no_call = set_register-Straight p _ _
sub_execute-AllStraight h Op.aui i p plain no_call = set_register-Straight p _ _
sub_execute-AllStraight h Op.auipc i p plain no_call = set_register-Straight p _ _
sub_execute-AllStraight h Op.bal i p plain no_call = absurd (cc)
sub_execute-AllStraight h Op.balc i p plain no_call = absurd (cc)
sub_execute-AllStraight h Op.bc i p plain no_call = absurd (cc)
sub_execute-AllStraight h Op.beq i p plain no_call = absurd (cc)
sub_execute-AllStraight h Op.bgez i p plain no_call = absurd (cc)
sub_execute-AllStraight h Op.blezalc i p plain no_call = absurd (cc)
sub_execute-AllStraight h Op.pop06 i p plain no_call = absurd (cc)
sub_execute-AllStraight h Op.bgtzalc i p plain no_call = absurd (cc)
sub_execute-AllStraight h Op.pop07 i p plain no_call = absurd (cc)
sub_execute-AllStraight h Op.pop10 i p plain no_call = absurd (cc)
sub_execute-AllStraight h Op.pop30 i p plain no_call = absurd (cc)
sub_execute-AllStraight h Op.blezc i p plain no_call = absurd (cc)
sub_execute-AllStraight h Op.pop26 i p plain no_call = absurd (cc)
sub_execute-AllStraight h Op.bgtzc i p plain no_call = absurd (cc)
sub_execute-AllStraight h Op.pop27 i p plain no_call = absurd (cc)
sub_execute-AllStraight h Op.beqzc i p plain no_call = absurd (cc)
sub_execute-AllStraight h Op.jic i p plain no_call = absurd (cc)
sub_execute-AllStraight h Op.bnezc i p plain no_call = absurd (cc)
sub_execute-AllStraight h Op.jialc i p plain no_call = absurd (cc)
sub_execute-AllStraight h Op.bgtz i p plain no_call = absurd (cc)
sub_execute-AllStraight h Op.bitswap i p plain no_call = set_register-Straight p _ _
sub_execute-AllStraight h Op.blez i p plain no_call = absurd (cc)
sub_execute-AllStraight h Op.bltz i p plain no_call = absurd (cc)
sub_execute-AllStraight h Op.bne i p plain no_call = absurd (cc)
sub_execute-AllStraight h Op.break_point i p plain no_call = stays p
sub_execute-AllStraight h Op.cache i p plain no_call = cache-AllStraight i p
sub_execute-AllStraight h Op.cachee i p plain no_call = stays p
sub_execute-AllStraight h Op.ginvi i p plain no_call = stays p
sub_execute-AllStraight h Op.clo i p plain no_call = set_register-Straight p _ _
sub_execute-AllStraight h Op.clz i p plain no_call = set_register-Straight p _ _
sub_execute-AllStraight h Op.div i p plain no_call = div-AllStraight i p
sub_execute-AllStraight h Op.modulo i p plain no_call = modulo-AllStraight i p
sub_execute-AllStraight h Op.divu i p plain no_call = divu-AllStraight i p
sub_execute-AllStraight h Op.modu i p plain no_call = modu-AllStraight i p
sub_execute-AllStraight h Op.ehb i p plain no_call = stays p
sub_execute-AllStraight h Op.ext i p plain no_call = ext-AllStraight i p
sub_execute-AllStraight h Op.ins i p plain no_call = ins-AllStraight i p
sub_execute-AllStraight h Op.j i p plain no_call = absurd (cc)
sub_execute-AllStraight h Op.jal i p plain no_call = absurd (cc)
sub_execute-AllStraight h Op.jalr i p plain no_call = absurd (cc)
sub_execute-AllStraight h Op.jalr_hb i p plain no_call = absurd (cc)
sub_execute-AllStraight h Op.jr i p plain no_call = absurd (cc)
sub_execute-AllStraight h Op.jr_hb i p plain no_call = absurd (cc)
sub_execute-AllStraight h Op.lb i p plain no_call = lb-AllStraight i p
sub_execute-AllStraight h Op.lbe i p plain no_call = stays p
sub_execute-AllStraight h Op.lbu i p plain no_call = lbu-AllStraight i p
sub_execute-AllStraight h Op.lbue i p plain no_call = stays p
sub_execute-AllStraight h Op.lh i p plain no_call = lh-AllStraight i p
sub_execute-AllStraight h Op.lhe i p plain no_call = stays p
sub_execute-AllStraight h Op.lhu i p plain no_call = lhu-AllStraight i p
sub_execute-AllStraight h Op.lhue i p plain no_call = stays p
sub_execute-AllStraight h Op.ll i p plain no_call = ll-AllStraight i p
sub_execute-AllStraight h Op.lle i p plain no_call = stays p
sub_execute-AllStraight h Op.llwp i p plain no_call = llwp-AllStraight i p
sub_execute-AllStraight h Op.llwpe i p plain no_call = stays p
sub_execute-AllStraight h Op.lsa i p plain no_call = set_register-Straight p _ _
sub_execute-AllStraight h Op.lw i p plain no_call = lw-AllStraight i p
sub_execute-AllStraight h Op.lwe i p plain no_call = stays p
sub_execute-AllStraight h Op.lwpc i p plain no_call = lwpc-AllStraight i p
sub_execute-AllStraight h Op.mul i p plain no_call = set_register-Straight p _ _
sub_execute-AllStraight h Op.muh i p plain no_call = set_register-Straight p _ _
sub_execute-AllStraight h Op.mulu i p plain no_call = set_register-Straight p _ _
sub_execute-AllStraight h Op.muhu i p plain no_call = set_register-Straight p _ _
sub_execute-AllStraight h Op.nal i p plain no_call = absurd (cc)
sub_execute-AllStraight h Op.nop i p plain no_call = stays p
sub_execute-AllStraight h Op.nor i p plain no_call = set_register-Straight p _ _
sub_execute-AllStraight h Op.or i p plain no_call = set_register-Straight p _ _
sub_execute-AllStraight h Op.ori i p plain no_call = set_register-Straight p _ _
sub_execute-AllStraight h Op.pause i p plain no_call = absurd (cc)
sub_execute-AllStraight h Op.pref i p plain no_call = stays p
sub_execute-AllStraight h Op.prefe i p plain no_call = stays p
sub_execute-AllStraight h Op.rdhwr i p plain no_call = rdhwr-AllStraight i p
sub_execute-AllStraight h Op.rotr i p plain no_call = rotr-AllStraight i p
sub_execute-AllStraight h Op.rotrv i p plain no_call = rotrv-AllStraight i p
sub_execute-AllStraight h Op.sb i p plain no_call = sb-AllStraight i p
sub_execute-AllStraight h Op.sbe i p plain no_call = stays p
sub_execute-AllStraight h Op.sc i p plain no_call = sc-AllStraight i p
sub_execute-AllStraight h Op.sce i p plain no_call = stays p
sub_execute-AllStraight h Op.scwp i p plain no_call = scwp-AllStraight i p
sub_execute-AllStraight h Op.scwpe i p plain no_call = stays p
sub_execute-AllStraight h Op.sdbbp i p plain no_call = stays p
sub_execute-AllStraight h Op.seb i p plain no_call = set_register-Straight p _ _
sub_execute-AllStraight h Op.seh i p plain no_call = set_register-Straight p _ _
sub_execute-AllStraight h Op.seleqz i p plain no_call = set_register-Straight p _ _
sub_execute-AllStraight h Op.selnez i p plain no_call = set_register-Straight p _ _
sub_execute-AllStraight h Op.sh i p plain no_call = sh-AllStraight i p
sub_execute-AllStraight h Op.she i p plain no_call = stays p
sub_execute-AllStraight h Op.sigrie i p plain no_call = stays p
sub_execute-AllStraight h Op.sll i p plain no_call = set_register-Straight p _ _
sub_execute-AllStraight h Op.sllv i p plain no_call = set_register-Straight p _ _
sub_execute-AllStraight h Op.slt i p plain no_call = set_register-Straight p _ _
sub_execute-AllStraight h Op.slti i p plain no_call = set_register-Straight p _ _
sub_execute-AllStraight h Op.sltiu i p plain no_call = set_register-Straight p _ _
sub_execute-AllStraight h Op.sltu i p plain no_call = set_register-Straight p _ _
sub_execute-AllStraight h Op.sra i p plain no_call = set_register-Straight p _ _
sub_execute-AllStraight h Op.srav i p plain no_call = set_register-Straight p _ _
sub_execute-AllStraight h Op.srl i p plain no_call = set_register-Straight p _ _
sub_execute-AllStraight h Op.srlv i p plain no_call = set_register-Straight p _ _
sub_execute-AllStraight h Op.ssnop i p plain no_call = stays p
sub_execute-AllStraight h Op.sub i p plain no_call = sub-AllStraight i p
sub_execute-AllStraight h Op.subu i p plain no_call = set_register-Straight p _ _
sub_execute-AllStraight h Op.sw i p plain no_call = sw-AllStraight i p
sub_execute-AllStraight h Op.swe i p plain no_call = stays p
sub_execute-AllStraight h Op.sync i p plain no_call = stays p
sub_execute-AllStraight h Op.synci i p plain no_call = stays p
sub_execute-AllStraight h Op.syscall i p plain no_call = absurd (no_call refl)
sub_execute-AllStraight h Op.teq i p plain no_call = (traps-AllStraight i p).0
sub_execute-AllStraight h Op.tge i p plain no_call = (traps-AllStraight i p).2
sub_execute-AllStraight h Op.tgeu i p plain no_call = (traps-AllStraight i p).3
sub_execute-AllStraight h Op.tlt i p plain no_call = (traps-AllStraight i p).4
sub_execute-AllStraight h Op.tltu i p plain no_call = (traps-AllStraight i p).5
sub_execute-AllStraight h Op.tne i p plain no_call = (traps-AllStraight i p).1
sub_execute-AllStraight h Op.wsbh i p plain no_call = set_register-Straight p _ _
sub_execute-AllStraight h Op.xor i p plain no_call = set_register-Straight p _ _
sub_execute-AllStraight h Op.xori i p plain no_call = set_register-Straight p _ _
sub_execute-AllStraight h Op.mfc0 i p plain no_call = stays p
sub_execute-AllStraight h Op.mfhc0 i p plain no_call = stays p
sub_execute-AllStraight h Op.mtc0 i p plain no_call = stays p
sub_execute-AllStraight h Op.mthc0 i p plain no_call = stays p
sub_execute-AllStraight h Op.eret i p plain no_call = stays p
sub_execute-AllStraight h Op.eretnc i p plain no_call = stays p
sub_execute-AllStraight h Op.mfc2 i p plain no_call = stays p
sub_execute-AllStraight h Op.mfhc2 i p plain no_call = stays p
sub_execute-AllStraight h Op.mtc2 i p plain no_call = stays p
sub_execute-AllStraight h Op.mthc2 i p plain no_call = stays p
sub_execute-AllStraight h Op.wait i p plain no_call = stays p

-- Whatever it does, and also where it throws, an instruction that is neither a control instruction nor
-- SYSCALL leaves the program counter, the branch target and the flags as they were.
pub execute-AllStraight :
    (h : Handler) (op : Op) (i : ℕ) (p : Processor)
    → is_control op ≡ false
    → op ≢ Op.syscall
    → AllStraight p (execute h op i p)
unfolding execute
execute-AllStraight h op i p plain no_call =
    if_both (AllStraight p) (is_control op && p.flags.no_cti) (stays p) (
      bind-AllStraight p (sub_execute h op i p) (λ q. done (set_register q 0 0))
        (sub_execute-AllStraight h op i p plain no_call)
        (λ q f. then-Straight p q (set_register q 0 0) f (set_register-Straight q 0 0)))
