-- ===== src/Tests/Executor.antt =====
-- Cycles of the executor: ADDU $4, $2, $3, BEQ $2, $2, 4, BC 4 and BREAK.
use vemips.Base.{◌+◌, ◌*◌, ◌^◌, ◌≡◌, ◌≢◌, refl, true, false, if◌then◌else◌, add32}
use vemips.Processor.Options.{ExceptionType, cpu_exception}
use vemips.Processor.{
  Processor, done, thrown, no_flags, delay_branch, compact_branch, get_register, set_register,
}
use vemips.Isa.Op.{Op, is_control}
use vemips.Isa.Fields.{register_field, branch_address, sextend, zextend}
use vemips.Isa.Trap.{break_point}
use vemips.Isa.DelayBranch.{beq}
use vemips.Isa.CompactBranch.{bc}
use vemips.Isa.Execute.{execute, sub_execute}
use vemips.Isa.Arithmetic.{addu}
use vemips.Cache.{Entry}
use vemips.Executor.{execute_entry, started, cycle, begin_cycle, interrupted}
use vemips.Executor.Flow.{
  InDelaySlot, Completes, delay_slot-lands, cycle-next, cycle-delay_branch, cycle-compact_branch,
  cycle-control_in_slot, cycle-unhandled,
}
use vemips.Executor.Plain.{cycle-plain}
use vemips.Tests.State.{start, refuse}

abbrev addu_entry : Entry
addu_entry = Entry.valid Op.addu (2 * 2 ^ 21 + 3 * 2 ^ 16 + 4 * 2 ^ 11)

-- In the delay slot of a branch to 0x200.
abbrev slot : Processor
slot = record start {
  flags = record no_flags { branch_delay = true; no_cti = true };
  branch_target = 0x200;
}

slot-InDelaySlot : InDelaySlot slot 0x200
slot-InDelaySlot = record { pending = refl; aims = refl }

abbrev added : Processor → Processor
added p = set_register (started p) 4 80

addu-Completes : Completes refuse addu_entry slot (added slot)
unfolding execute_entry execute started set_register get_register register_field addu is_control
    sub_execute
addu-Completes = record { aligned = refl; returns = refl; keeps_flags = refl; keeps_pc = refl }

delay_slot-lands_example :
    (r : Processor) × (cycle refuse addu_entry slot ≡ done r)
    × (r.program_counter ≡ 0x200)
    × (r.flags ≡ no_flags)
    × (r.registers ≡ (added slot).registers)
    × (r.memory ≡ (added slot).memory)
delay_slot-lands_example =
    delay_slot-lands refuse addu_entry slot (added slot) 0x200 slot-InDelaySlot addu-Completes

start-Completes : Completes refuse addu_entry start (added start)
unfolding execute_entry execute started set_register get_register register_field addu is_control
    sub_execute
start-Completes = record { aligned = refl; returns = refl; keeps_flags = refl; keeps_pc = refl }

cycle-next_example :
    (r : Processor) × (cycle refuse addu_entry start ≡ done r)
    × (r.program_counter ≡ add32 0x100 4)
    × (r.flags ≡ no_flags)
    × (r.registers ≡ (added start).registers)
    × (r.memory ≡ (added start).memory)
cycle-next_example = cycle-next refuse addu_entry start (added start) false refl start-Completes

abbrev beq_entry : Entry
beq_entry = Entry.valid Op.beq (0x10000000 + 2 * 2 ^ 21 + 2 * 2 ^ 16 + 4)

beq_taken :
    execute_entry refuse beq_entry (started start) ≡ done (delay_branch (started start) 0x114)
unfolding execute_entry execute started set_register get_register register_field beq branch_address
    sextend delay_branch is_control sub_execute
beq_taken = refl

started_pc : (started start).program_counter ≡ start.program_counter
unfolding started
started_pc = refl

cycle-delay_branch_example :
    (r : Processor) × (cycle refuse beq_entry start ≡ done r)
    × InDelaySlot r 0x114
    × (r.program_counter ≡ add32 0x100 4)
    × (r.registers ≡ (started start).registers)
cycle-delay_branch_example =
    cycle-delay_branch refuse beq_entry start (started start) 0x114 refl refl beq_taken refl
      started_pc

abbrev bc_entry : Entry
bc_entry = Entry.valid Op.bc (0xc8000000 + 4)

bc_taken :
    execute_entry refuse bc_entry (started start) ≡ done (compact_branch (started start) 0x114)
unfolding execute_entry execute started set_register bc branch_address sextend compact_branch
    is_control sub_execute
bc_taken = refl

cycle-compact_branch_example :
    (r : Processor) × (cycle refuse bc_entry start ≡ done r)
    × (r.program_counter ≡ 0x114)
    × (r.flags ≡ no_flags)
    × (r.registers ≡ (started start).registers)
cycle-compact_branch_example =
    cycle-compact_branch refuse bc_entry start (started start) 0x114 refl refl bc_taken refl

bc_control : is_control Op.bc ≡ true
unfolding is_control
bc_control = refl

cycle-control_in_slot_example : cycle refuse bc_entry slot ≡ cycle refuse Entry.reserved slot
cycle-control_in_slot_example =
    cycle-control_in_slot refuse Op.bc (0xc8000000 + 4) slot refl bc_control

-- BREAK in the delay slot.
abbrev break_entry : Entry
break_entry = Entry.valid Op.break_point 13

break_raises :
    execute_entry refuse break_entry (started slot)
    ≡ thrown (cpu_exception ExceptionType.bp 0x100 0) (started slot)
unfolding execute_entry execute started break_point zextend is_control sub_execute
break_raises = refl

interrupted_pc : (interrupted (begin_cycle slot) (started slot)).program_counter ≡ 0x100
unfolding interrupted begin_cycle
interrupted_pc = refl

cycle-unhandled_example :
    (r : Processor) × (cycle refuse break_entry slot
      ≡ thrown (cpu_exception ExceptionType.bp 0x100 0) r)
    × (r.program_counter ≡ (if slot.flags.branch_delay then slot.branch_target else 0x100))
    × (r.flags.branch_delay ≡ false)
cycle-unhandled_example =
    cycle-unhandled refuse break_entry slot (started slot)
      (interrupted (begin_cycle slot) (started slot)) ExceptionType.bp 0x100 0
      (cpu_exception ExceptionType.bp 0x100 0) refl break_raises refl interrupted_pc

addu_is_plain : is_control Op.addu ≡ false
unfolding is_control
addu_is_plain = refl

addu_is_no_call : Op.addu ≢ Op.syscall
addu_is_no_call e = cc

cycle-plain_example :
    (r : Processor) × (cycle refuse addu_entry slot ≡ done r)
    × (r.program_counter ≡ 0x200)
    × (r.flags ≡ no_flags)
    × (r.registers ≡ (added slot).registers)
    × (r.memory ≡ (added slot).memory)
unfolding execute_entry
cycle-plain_example =
    cycle-plain refuse Op.addu (2 * 2 ^ 21 + 3 * 2 ^ 16 + 4 * 2 ^ 11) slot (added slot) true false
      addu_is_plain addu_is_no_call refl refl addu-Completes.returns
