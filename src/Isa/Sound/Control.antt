-- ===== src/Isa/Sound/Control.antt =====
-- Branches with a delay slot, traps and RDHWR (processor_inst.cpp) on sound states.
use vemips.Base.{
  ℕ, ◌/◌, ◌%◌, ◌^◌, ◌<◌, refl, arith, if_both, ◌==◌, not, Bool, true, false, ltb, leb, leb_ℤ, ltb_ℤ,
  signed32, pos, add32,
}
use vemips.Processor.{Processor, set_register, set_link, delay_branch, set_no_cti}
use vemips.Processor.Options.{Llsc}
use vemips.Processor.Registers.{get_register-lt}
use vemips.Isa.Fields.{rs, rt, rd, rs_value, rt_value, zextend, branch_address}
use vemips.Isa.DelayBranch.{
  delay_branch_if, jump_address, set_instruction_hazard, bal, beq, bne, bgez, bgtz, blez, bltz, j,
  jal, jalr, jr, jalr_hb, jr_hb, nal,
}
use vemips.Isa.Trap.{trap_if, teq, tne, tge, tgeu, tlt, tltu, rdhwr, supports_llsc_by}
use vemips.Isa.Sound.{
  IsSound, AllFollow, Follows, stay, then-Follows, all_then, set_register-Follows, set_link-Follows,
  delay_branch-Follows, set_no_cti-Follows,
}

pub branch_address-lt : (w i : ℕ) (p : Processor) → branch_address w i p < 2 ^ 32
unfolding branch_address
branch_address-lt w i p = omega arith

jump_address-lt : (i : ℕ) (p : Processor) → IsSound p → jump_address i p < 2 ^ 32
unfolding jump_address zextend
jump_address-lt i p s = omega (arith, s.2)

delay_branch_if-AllFollow :
    (test : Bool) (i : ℕ) (p : Processor) → IsSound p → AllFollow p (delay_branch_if test i p)
unfolding delay_branch_if
delay_branch_if-AllFollow test i p s =
    if_both (Follows p) test
      (delay_branch-Follows p (branch_address 18 i p) s (branch_address-lt 18 i p))
      (set_no_cti-Follows p s)

trap_if-AllFollow :
    (test : Bool) (i : ℕ) (p : Processor) → IsSound p → AllFollow p (trap_if test i p)
unfolding trap_if
trap_if-AllFollow true i p s = stay p s
trap_if-AllFollow false i p s = stay p s

pub beq-AllFollow : (i : ℕ) (p : Processor) → IsSound p → AllFollow p (beq i p)
unfolding beq
beq-AllFollow i p s = delay_branch_if-AllFollow (rs_value i p == rt_value i p) i p s

pub bne-AllFollow : (i : ℕ) (p : Processor) → IsSound p → AllFollow p (bne i p)
unfolding bne
bne-AllFollow i p s = delay_branch_if-AllFollow (not (rs_value i p == rt_value i p)) i p s

pub bgez-AllFollow : (i : ℕ) (p : Processor) → IsSound p → AllFollow p (bgez i p)
unfolding bgez
bgez-AllFollow i p s = delay_branch_if-AllFollow (leb_ℤ (pos 0) (signed32 (rs_value i p))) i p s

pub bgtz-AllFollow : (i : ℕ) (p : Processor) → IsSound p → AllFollow p (bgtz i p)
unfolding bgtz
bgtz-AllFollow i p s = delay_branch_if-AllFollow (ltb_ℤ (pos 0) (signed32 (rs_value i p))) i p s

pub blez-AllFollow : (i : ℕ) (p : Processor) → IsSound p → AllFollow p (blez i p)
unfolding blez
blez-AllFollow i p s = delay_branch_if-AllFollow (leb_ℤ (signed32 (rs_value i p)) (pos 0)) i p s

pub bltz-AllFollow : (i : ℕ) (p : Processor) → IsSound p → AllFollow p (bltz i p)
unfolding bltz
bltz-AllFollow i p s = delay_branch_if-AllFollow (ltb_ℤ (signed32 (rs_value i p)) (pos 0)) i p s

pub bal-AllFollow : (i : ℕ) (p : Processor) → IsSound p → AllFollow p (bal i p)
unfolding bal
bal-AllFollow i p s =
    let q = set_link p (add32 p.program_counter 8) in
    let f = set_link-Follows p (add32 p.program_counter 8) s (omega arith) in
    then-Follows p q (delay_branch q (branch_address 18 i p)) f
      (delay_branch-Follows q (branch_address 18 i p) f.0 (branch_address-lt 18 i p))

pub jal-AllFollow : (i : ℕ) (p : Processor) → IsSound p → AllFollow p (jal i p)
unfolding jal
jal-AllFollow i p s =
    let q = set_link p (add32 p.program_counter 8) in
    let f = set_link-Follows p (add32 p.program_counter 8) s (omega arith) in
    then-Follows p q (delay_branch q (jump_address i p)) f
      (delay_branch-Follows q (jump_address i p) f.0 (jump_address-lt i p s))

pub j-AllFollow : (i : ℕ) (p : Processor) → IsSound p → AllFollow p (j i p)
unfolding j
j-AllFollow i p s = delay_branch-Follows p (jump_address i p) s (jump_address-lt i p s)

pub jr-AllFollow : (i : ℕ) (p : Processor) → IsSound p → AllFollow p (jr i p)
unfolding jr
jr-AllFollow i p s = delay_branch-Follows p (rs_value i p) s (get_register-lt p (rs i) s.0)

pub jalr-AllFollow : (i : ℕ) (p : Processor) → IsSound p → AllFollow p (jalr i p)
unfolding jalr
jalr-AllFollow i p s =
    let q = set_register p (rd i) (add32 p.program_counter 8) in
    let f = set_register-Follows p (rd i) (add32 p.program_counter 8) s (omega arith) in
    then-Follows p q (delay_branch q (rs_value i q)) f
      (delay_branch-Follows q (rs_value i q) f.0 (get_register-lt q (rs i) f.0.0))

set_instruction_hazard-Follows : (p : Processor) → IsSound p → Follows p (set_instruction_hazard p)
set_instruction_hazard-Follows p s =
    if_both (Follows p) p.config.handles_instruction_hazards (s, refl, refl, refl) (stay p s)

pub jalr_hb-AllFollow : (i : ℕ) (p : Processor) → IsSound p → AllFollow p (jalr_hb i p)
unfolding jalr_hb
jalr_hb-AllFollow i p s =
    let f = set_instruction_hazard-Follows p s in
    all_then p (set_instruction_hazard p) (jalr i (set_instruction_hazard p)) f
      (jalr-AllFollow i (set_instruction_hazard p) f.0)

pub jr_hb-AllFollow : (i : ℕ) (p : Processor) → IsSound p → AllFollow p (jr_hb i p)
unfolding jr_hb
jr_hb-AllFollow i p s =
    let f = set_instruction_hazard-Follows p s in
    all_then p (set_instruction_hazard p) (jr i (set_instruction_hazard p)) f
      (jr-AllFollow i (set_instruction_hazard p) f.0)

pub nal-AllFollow : (i : ℕ) (p : Processor) → IsSound p → AllFollow p (nal i p)
unfolding nal
nal-AllFollow i p s =
    let q = set_link p (add32 p.program_counter 8) in
    let f = set_link-Follows p (add32 p.program_counter 8) s (omega arith) in
    then-Follows p q (set_no_cti q) f (set_no_cti-Follows q f.0)

pub teq-AllFollow : (i : ℕ) (p : Processor) → IsSound p → AllFollow p (teq i p)
unfolding teq
teq-AllFollow i p s = trap_if-AllFollow (rs_value i p == rt_value i p) i p s

pub tne-AllFollow : (i : ℕ) (p : Processor) → IsSound p → AllFollow p (tne i p)
unfolding tne
tne-AllFollow i p s = trap_if-AllFollow (not (rs_value i p == rt_value i p)) i p s

pub tge-AllFollow : (i : ℕ) (p : Processor) → IsSound p → AllFollow p (tge i p)
unfolding tge
tge-AllFollow i p s =
    trap_if-AllFollow (leb_ℤ (signed32 (rt_value i p)) (signed32 (rs_value i p))) i p s

pub tgeu-AllFollow : (i : ℕ) (p : Processor) → IsSound p → AllFollow p (tgeu i p)
unfolding tgeu
tgeu-AllFollow i p s = trap_if-AllFollow (leb (rt_value i p) (rs_value i p)) i p s

pub tlt-AllFollow : (i : ℕ) (p : Processor) → IsSound p → AllFollow p (tlt i p)
unfolding tlt
tlt-AllFollow i p s =
    trap_if-AllFollow (ltb_ℤ (signed32 (rs_value i p)) (signed32 (rt_value i p))) i p s

pub tltu-AllFollow : (i : ℕ) (p : Processor) → IsSound p → AllFollow p (tltu i p)
unfolding tltu
tltu-AllFollow i p s = trap_if-AllFollow (ltb (rs_value i p) (rt_value i p)) i p s

supports_llsc_by-lt : (t : Llsc) → supports_llsc_by t < 2 ^ 32
unfolding supports_llsc_by
supports_llsc_by-lt Llsc.fine = omega arith
supports_llsc_by-lt Llsc.coarse = omega arith
supports_llsc_by-lt Llsc.none = omega arith

pub rdhwr-AllFollow : (i : ℕ) (p : Processor) → IsSound p → AllFollow p (rdhwr i p)
unfolding rdhwr
rdhwr-AllFollow i p s =
    (if_both (AllFollow p) (not (zextend 3 (i / 2 ^ 6) == 0)) (stay p s) (
      if_both (AllFollow p) (rd i == 0) (set_register-Follows p (rt i) (0) s (omega arith)) (
        if_both (AllFollow p) (rd i == 1) (set_register-Follows p (rt i) (0x100) s (omega arith)) (
          if_both (AllFollow p) (rd i == 2)
            (set_register-Follows p (rt i) (p.instruction_count % 2 ^ 32) s (omega arith))
            (if_both (AllFollow p) (rd i == 3) (set_register-Follows p (rt i) (1) s (omega arith)) (
              if_both (AllFollow p) (rd i == 5)
                (set_register-Follows p (rt i) (supports_llsc_by p.config.llsc_type) s
                  (supports_llsc_by-lt p.config.llsc_type))
                (if_both (AllFollow p) (rd i == 29)
                  (set_register-Follows p (rt i) (p.user_value) s s.5) (stay p s))))))))
