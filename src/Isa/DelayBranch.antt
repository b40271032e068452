-- ===== src/Isa/DelayBranch.antt =====
-- Branches and jumps with a delay slot (processor_inst.cpp). A branch that is not taken still
-- forbids a control instruction in the next slot.
use vemips.Base.{
  ℕ, ◌+◌, ◌*◌, ◌/◌, ◌^◌, ◌==◌, if◌then◌else◌, Bool, not, u32, add32, ◌<<<◌, signed32, ltb_ℤ, leb_ℤ,
  pos,
}
use vemips.Processor.{Processor, Outcome, done, delay_branch, set_no_cti, set_link, set_register}
use vemips.Isa.Fields.{rd, rs_value, rt_value, zextend, branch_address}

unfoldable pub delay_branch_if : Bool → ℕ → Processor → Outcome Processor
delay_branch_if taken i p =
    done (if taken then delay_branch p (branch_address 18 i p) else set_no_cti p)

unfoldable pub bal : ℕ → Processor → Outcome Processor
bal i p = done (delay_branch (set_link p (add32 p.program_counter 8)) (branch_address 18 i p))

unfoldable pub beq : ℕ → Processor → Outcome Processor
unfolding delay_branch_if
beq i p = delay_branch_if (rs_value i p == rt_value i p) i p

unfoldable pub bne : ℕ → Processor → Outcome Processor
unfolding delay_branch_if
bne i p = delay_branch_if (not (rs_value i p == rt_value i p)) i p

unfoldable pub bgez : ℕ → Processor → Outcome Processor
unfolding delay_branch_if
bgez i p = delay_branch_if (leb_ℤ (pos 0) (signed32 (rs_value i p))) i p

unfoldable pub bgtz : ℕ → Processor → Outcome Processor
unfolding delay_branch_if
bgtz i p = delay_branch_if (ltb_ℤ (pos 0) (signed32 (rs_value i p))) i p

unfoldable pub blez : ℕ → Processor → Outcome Processor
unfolding delay_branch_if
blez i p = delay_branch_if (leb_ℤ (signed32 (rs_value i p)) (pos 0)) i p

unfoldable pub bltz : ℕ → Processor → Outcome Processor
unfolding delay_branch_if
bltz i p = delay_branch_if (ltb_ℤ (signed32 (rs_value i p)) (pos 0)) i p

-- The 256 MiB region of the program counter, and the index in it: disjoint fields.
unfoldable pub jump_address : ℕ → Processor → ℕ
jump_address i p = p.program_counter / 2 ^ 28 * 2 ^ 28 + zextend 28 (u32 (i <<< 2))

unfoldable pub j : ℕ → Processor → Outcome Processor
j i p = done (delay_branch p (jump_address i p))

unfoldable pub jal : ℕ → Processor → Outcome Processor
jal i p = done (delay_branch (set_link p (add32 p.program_counter 8)) (jump_address i p))

-- The link is written before `rs` is read.
unfoldable pub jalr : ℕ → Processor → Outcome Processor
jalr i p =
    let q = set_register p (rd i) (add32 p.program_counter 8) in
    done (delay_branch q (rs_value i q))

unfoldable pub jr : ℕ → Processor → Outcome Processor
jr i p = done (delay_branch p (rs_value i p))

abbrev pub set_instruction_hazard : Processor → Processor
set_instruction_hazard p =
    if p.config.handles_instruction_hazards
    then record p {
      flags = record p.flags {
        instruction_hazard = Bool.true;
        instruction_hazard_delay_branch = Bool.true;
      };
    }
    else p

unfoldable pub jalr_hb : ℕ → Processor → Outcome Processor
unfolding jalr
jalr_hb i p = jalr i (set_instruction_hazard p)

unfoldable pub jr_hb : ℕ → Processor → Outcome Processor
unfolding jr
jr_hb i p = jr i (set_instruction_hazard p)

unfoldable pub nal : ℕ → Processor → Outcome Processor
nal i p = done (set_no_cti (set_link p (add32 p.program_counter 8)))
