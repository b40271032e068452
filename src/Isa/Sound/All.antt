-- ===== src/Isa/Sound/All.antt =====
-- Every `ProcInstructionDef` of processor_inst.cpp, and `PROC_Helper::Execute` around it.
use vemips.Base.{ℕ, arith, if_both, ◌&&◌}
use vemips.Processor.{Processor}
use vemips.Isa.Op.{Op, is_control}
use vemips.Isa.Trap.{Handler, nop, sync, synci, coprocessor_unusable, break_point, sdbbp, sigrie}
use vemips.Isa.Execute.{sub_execute, execute}
use vemips.Isa.Sound.{IsSound, AllFollow, stay, bind-AllFollow, set_register-Follows}
use vemips.Isa.Sound.Alu.{
  add-AllFollow, addiu-AllFollow, addiupc-AllFollow, addu-AllFollow, align-AllFollow,
  aluipc-AllFollow, and-AllFollow, andi-AllFollow, aui-AllFollow, auipc-AllFollow,
  bitswap-AllFollow, clo-AllFollow, clz-AllFollow, lsa-AllFollow, move-AllFollow, nor-AllFollow,
  or-AllFollow, ori-AllFollow, rotr-AllFollow, rotrv-AllFollow, seb-AllFollow, seh-AllFollow,
  seleqz-AllFollow, selnez-AllFollow, sll-AllFollow, sllv-AllFollow, slt-AllFollow, slti-AllFollow,
  sltiu-AllFollow, sltu-AllFollow, sra-AllFollow, srav-AllFollow, srl-AllFollow, srlv-AllFollow,
  sub-AllFollow, subu-AllFollow, wsbh-AllFollow, xor-AllFollow, xori-AllFollow,
}
use vemips.Isa.Sound.MulDiv.{
  div-AllFollow, divu-AllFollow, ext-AllFollow, ins-AllFollow, modu-AllFollow, modulo-AllFollow,
  muh-AllFollow, muhu-AllFollow, mul-AllFollow, mulu-AllFollow,
}
use vemips.Isa.Sound.Control.{
  bal-AllFollow, beq-AllFollow, bgez-AllFollow, bgtz-AllFollow, blez-AllFollow, bltz-AllFollow,
  bne-AllFollow, j-AllFollow, jal-AllFollow, jalr-AllFollow, jalr_hb-AllFollow, jr-AllFollow,
  jr_hb-AllFollow, nal-AllFollow, rdhwr-AllFollow, teq-AllFollow, tge-AllFollow, tgeu-AllFollow,
  tlt-AllFollow, tltu-AllFollow, tne-AllFollow,
}
use vemips.Isa.Sound.Compact.{
  balc-AllFollow, bc-AllFollow, beqzc-AllFollow, bgtzalc-AllFollow, bgtzc-AllFollow,
  blezalc-AllFollow, blezc-AllFollow, bnezc-AllFollow, jialc-AllFollow, jic-AllFollow,
  pop06-AllFollow, pop07-AllFollow, pop10-AllFollow, pop26-AllFollow, pop27-AllFollow,
  pop30-AllFollow,
}
use vemips.Isa.Sound.Access.{
  cache-AllFollow, lb-AllFollow, lbu-AllFollow, lh-AllFollow, lhu-AllFollow, lw-AllFollow,
  lwpc-AllFollow, sb-AllFollow, sh-AllFollow, sw-AllFollow,
}
use vemips.Isa.Sound.System.{
  ll-AllFollow, llwp-AllFollow, sc-AllFollow, scwp-AllFollow, syscall-AllFollow, IsOrderly,
}

sub_execute-AllFollow :
    (h : Handler) (op : Op) (i : ℕ) (p : Processor)
    → IsOrderly h
    → IsSound p
    → AllFollow p (sub_execute h op i p)
unfolding sub_execute nop sync synci coprocessor_unusable break_point sdbbp sigrie
sub_execute-AllFollow h Op.add i p orderly s = add-AllFollow i p s
sub_execute-AllFollow h Op.addiu i p orderly s = addiu-AllFollow i p s
sub_execute-AllFollow h Op.move i p orderly s = move-AllFollow i p s
sub_execute-AllFollow h Op.addiupc i p orderly s = addiupc-AllFollow i p s
sub_execute-AllFollow h Op.addu i p orderly s = addu-AllFollow i p s
sub_execute-AllFollow h Op.align i p orderly s = align-AllFollow i p s
sub_execute-AllFollow h Op.aluipc i p orderly s = aluipc-AllFollow i p s
sub_execute-AllFollow h Op.and i p orderly s = and-AllFollow i p s
sub_execute-AllFollow h Op.andi i p orderly s = andi-AllFollow i p s
sub_execute-AllFollow h Op.aui i p orderly s = aui-AllFollow i p s
sub_execute-AllFollow h Op.auipc i p orderly s = auipc-AllFollow i p s
sub_execute-AllFollow h Op.bal i p orderly s = bal-AllFollow i p s
sub_execute-AllFollow h Op.balc i p orderly s = balc-AllFollow i p s
sub_execute-AllFollow h Op.bc i p orderly s = bc-AllFollow i p s
sub_execute-AllFollow h Op.beq i p orderly s = beq-AllFollow i p s
sub_execute-AllFollow h Op.bgez i p orderly s = bgez-AllFollow i p s
sub_execute-AllFollow h Op.blezalc i p orderly s = blezalc-AllFollow i p s
sub_execute-AllFollow h Op.pop06 i p orderly s = pop06-AllFollow i p s
sub_execute-AllFollow h Op.bgtzalc i p orderly s = bgtzalc-AllFollow i p s
sub_execute-AllFollow h Op.pop07 i p orderly s = pop07-AllFollow i p s
sub_execute-AllFollow h Op.pop10 i p orderly s = pop10-AllFollow i p s
sub_execute-AllFollow h Op.pop30 i p orderly s = pop30-AllFollow i p s
sub_execute-AllFollow h Op.blezc i p orderly s = blezc-AllFollow i p s
sub_execute-AllFollow h Op.pop26 i p orderly s = pop26-AllFollow i p s
sub_execute-AllFollow h Op.bgtzc i p orderly s = bgtzc-AllFollow i p s
sub_execute-AllFollow h Op.pop27 i p orderly s = pop27-AllFollow i p s
sub_execute-AllFollow h Op.beqzc i p orderly s = beqzc-AllFollow i p s
sub_execute-AllFollow h Op.jic i p orderly s = jic-AllFollow i p s
sub_execute-AllFollow h Op.bnezc i p orderly s = bnezc-AllFollow i p s
sub_execute-AllFollow h Op.jialc i p orderly s = jialc-AllFollow i p s
sub_execute-AllFollow h Op.bgtz i p orderly s = bgtz-AllFollow i p s
sub_execute-AllFollow h Op.bitswap i p orderly s = bitswap-AllFollow i p s
sub_execute-AllFollow h Op.blez i p orderly s = blez-AllFollow i p s
sub_execute-AllFollow h Op.bltz i p orderly s = bltz-AllFollow i p s
sub_execute-AllFollow h Op.bne i p orderly s = bne-AllFollow i p s
sub_execute-AllFollow h Op.break_point i p orderly s = stay p s
sub_execute-AllFollow h Op.cache i p orderly s = cache-AllFollow i p s
sub_execute-AllFollow h Op.cachee i p orderly s = stay p s
sub_execute-AllFollow h Op.ginvi i p orderly s = stay p s
sub_execute-AllFollow h Op.clo i p orderly s = clo-AllFollow i p s
sub_execute-AllFollow h Op.clz i p orderly s = clz-AllFollow i p s
sub_execute-AllFollow h Op.div i p orderly s = div-AllFollow i p s
sub_execute-AllFollow h Op.modulo i p orderly s = modulo-AllFollow i p s
sub_execute-AllFollow h Op.divu i p orderly s = divu-AllFollow i p s
sub_execute-AllFollow h Op.modu i p orderly s = modu-AllFollow i p s
sub_execute-AllFollow h Op.ehb i p orderly s = stay p s
sub_execute-AllFollow h Op.ext i p orderly s = ext-AllFollow i p s
sub_execute-AllFollow h Op.ins i p orderly s = ins-AllFollow i p s
sub_execute-AllFollow h Op.j i p orderly s = j-AllFollow i p s
sub_execute-AllFollow h Op.jal i p orderly s = jal-AllFollow i p s
sub_execute-AllFollow h Op.jalr i p orderly s = jalr-AllFollow i p s
sub_execute-AllFollow h Op.jalr_hb i p orderly s = jalr_hb-AllFollow i p s
sub_execute-AllFollow h Op.jr i p orderly s = jr-AllFollow i p s
sub_execute-AllFollow h Op.jr_hb i p orderly s = jr_hb-AllFollow i p s
sub_execute-AllFollow h Op.lb i p orderly s = lb-AllFollow i p s
sub_execute-AllFollow h Op.lbe i p orderly s = stay p s
sub_execute-AllFollow h Op.lbu i p orderly s = lbu-AllFollow i p s
sub_execute-AllFollow h Op.lbue i p orderly s = stay p s
sub_execute-AllFollow h Op.lh i p orderly s = lh-AllFollow i p s
sub_execute-AllFollow h Op.lhe i p orderly s = stay p s
sub_execute-AllFollow h Op.lhu i p orderly s = lhu-AllFollow i p s
sub_execute-AllFollow h Op.lhue i p orderly s = stay p s
sub_execute-AllFollow h Op.ll i p orderly s = ll-AllFollow i p s
sub_execute-AllFollow h Op.lle i p orderly s = stay p s
sub_execute-AllFollow h Op.llwp i p orderly s = llwp-AllFollow i p s
sub_execute-AllFollow h Op.llwpe i p orderly s = stay p s
sub_execute-AllFollow h Op.lsa i p orderly s = lsa-AllFollow i p s
sub_execute-AllFollow h Op.lw i p orderly s = lw-AllFollow i p s
sub_execute-AllFollow h Op.lwe i p orderly s = stay p s
sub_execute-AllFollow h Op.lwpc i p orderly s = lwpc-AllFollow i p s
sub_execute-AllFollow h Op.mul i p orderly s = mul-AllFollow i p s
sub_execute-AllFollow h Op.muh i p orderly s = muh-AllFollow i p s
sub_execute-AllFollow h Op.mulu i p orderly s = mulu-AllFollow i p s
sub_execute-AllFollow h Op.muhu i p orderly s = muhu-AllFollow i p s
sub_execute-AllFollow h Op.nal i p orderly s = nal-AllFollow i p s
sub_execute-AllFollow h Op.nop i p orderly s = stay p s
sub_execute-AllFollow h Op.nor i p orderly s = nor-AllFollow i p s
sub_execute-AllFollow h Op.or i p orderly s = or-AllFollow i p s
sub_execute-AllFollow h Op.ori i p orderly s = ori-AllFollow i p s
sub_execute-AllFollow h Op.pause i p orderly s = stay p s
sub_execute-AllFollow h Op.pref i p orderly s = stay p s
sub_execute-AllFollow h Op.prefe i p orderly s = stay p s
sub_execute-AllFollow h Op.rdhwr i p orderly s = rdhwr-AllFollow i p s
sub_execute-AllFollow h Op.rotr i p orderly s = rotr-AllFollow i p s
sub_execute-AllFollow h Op.rotrv i p orderly s = rotrv-AllFollow i p s
sub_execute-AllFollow h Op.sb i p orderly s = sb-AllFollow i p s
sub_execute-AllFollow h Op.sbe i p orderly s = stay p s
sub_execute-AllFollow h Op.sc i p orderly s = sc-AllFollow i p s
sub_execute-AllFollow h Op.sce i p orderly s = stay p s
sub_execute-AllFollow h Op.scwp i p orderly s = scwp-AllFollow i p s
sub_execute-AllFollow h Op.scwpe i p orderly s = stay p s
sub_execute-AllFollow h Op.sdbbp i p orderly s = stay p s
sub_execute-AllFollow h Op.seb i p orderly s = seb-AllFollow i p s
sub_execute-AllFollow h Op.seh i p orderly s = seh-AllFollow i p s
sub_execute-AllFollow h Op.seleqz i p orderly s = seleqz-AllFollow i p s
sub_execute-AllFollow h Op.selnez i p orderly s = selnez-AllFollow i p s
sub_execute-AllFollow h Op.sh i p orderly s = sh-AllFollow i p s
sub_execute-AllFollow h Op.she i p orderly s = stay p s
sub_execute-AllFollow h Op.sigrie i p orderly s = stay p s
sub_execute-AllFollow h Op.sll i p orderly s = sll-AllFollow i p s
sub_execute-AllFollow h Op.sllv i p orderly s = sllv-AllFollow i p s
sub_execute-AllFollow h Op.slt i p orderly s = slt-AllFollow i p s
sub_execute-AllFollow h Op.slti i p orderly s = slti-AllFollow i p s
sub_execute-AllFollow h Op.sltiu i p orderly s = sltiu-AllFollow i p s
sub_execute-AllFollow h Op.sltu i p orderly s = sltu-AllFollow i p s
sub_execute-AllFollow h Op.sra i p orderly s = sra-AllFollow i p s
sub_execute-AllFollow h Op.srav i p orderly s = srav-AllFollow i p s
sub_execute-AllFollow h Op.srl i p orderly s = srl-AllFollow i p s
sub_execute-AllFollow h Op.srlv i p orderly s = srlv-AllFollow i p s
sub_execute-AllFollow h Op.ssnop i p orderly s = stay p s
sub_execute-AllFollow h Op.sub i p orderly s = sub-AllFollow i p s
sub_execute-AllFollow h Op.subu i p orderly s = subu-AllFollow i p s
sub_execute-AllFollow h Op.sw i p orderly s = sw-AllFollow i p s
sub_execute-AllFollow h Op.swe i p orderly s = stay p s
sub_execute-AllFollow h Op.sync i p orderly s = stay p s
sub_execute-AllFollow h Op.synci i p orderly s = stay p s
sub_execute-AllFollow h Op.syscall i p orderly s = syscall-AllFollow h i p orderly s
sub_execute-AllFollow h Op.teq i p orderly s = teq-AllFollow i p s
sub_execute-AllFollow h Op.tge i p orderly s = tge-AllFollow i p s
sub_execute-AllFollow h Op.tgeu i p orderly s = tgeu-AllFollow i p s
sub_execute-AllFollow h Op.tlt i p orderly s = tlt-AllFollow i p s
sub_execute-AllFollow h Op.tltu i p orderly s = tltu-AllFollow i p s
sub_execute-AllFollow h Op.tne i p orderly s = tne-AllFollow i p s
sub_execute-AllFollow h Op.wsbh i p orderly s = wsbh-AllFollow i p s
sub_execute-AllFollow h Op.xor i p orderly s = xor-AllFollow i p s
sub_execute-AllFollow h Op.xori i p orderly s = xori-AllFollow i p s
sub_execute-AllFollow h Op.mfc0 i p orderly s = stay p s
sub_execute-AllFollow h Op.mfhc0 i p orderly s = stay p s
sub_execute-AllFollow h Op.mtc0 i p orderly s = stay p s
sub_execute-AllFollow h Op.mthc0 i p orderly s = stay p s
sub_execute-AllFollow h Op.eret i p orderly s = stay p s
sub_execute-AllFollow h Op.eretnc i p orderly s = stay p s
sub_execute-AllFollow h Op.mfc2 i p orderly s = stay p s
sub_execute-AllFollow h Op.mfhc2 i p orderly s = stay p s
sub_execute-AllFollow h Op.mtc2 i p orderly s = stay p s
sub_execute-AllFollow h Op.mthc2 i p orderly s = stay p s
sub_execute-AllFollow h Op.wait i p orderly s = stay p s

-- From a sound state, every instruction, whether it completes or raises an exception, leaves a sound
-- state with the same options and the same counters, if the system's handler does. A state is sound
-- that has words in its registers, its program counter, its branch target, its link and its user
-- value, and bytes in its memory, where the host's copy leaves bytes.
pub execute-AllFollow :
    (h : Handler) (op : Op) (i : ℕ) (p : Processor)
    → IsOrderly h
    → IsSound p
    → AllFollow p (execute h op i p)
unfolding execute
execute-AllFollow h op i p orderly s =
    if_both (AllFollow p) (is_control op && p.flags.no_cti) (stay p s) (
      bind-AllFollow p (sub_execute h op i p) _ (sub_execute-AllFollow h op i p orderly s)
        (λ q t. set_register-Follows q 0 0 t (omega arith)))
