-- ===== src/Executor/Flow.antt =====
-- Where a cycle of `execute_internal` leaves the program counter and the flags.
use vemips.Base.{ℕ, ◌%◌, ◌≡◌, arith, Bool, true, false, if◌then◌else◌, add32}
use vemips.Processor.Options.{Exception, ExceptionType, cpu_exception}
use vemips.Processor.{Processor, done, thrown, no_flags, delay_branch, compact_branch}
use vemips.Isa.Op.{Op, is_control}
use vemips.Isa.Trap.{Handler}
use vemips.Isa.Execute.{execute}
use vemips.Cache.{Entry}
use vemips.Executor.{
  execute_entry, started, begin_cycle, settle, end_cycle, cycle, conclude, unhandled, interrupted,
  without_increment,
}

-- A state in which the next instruction is in the delay slot of a branch to `target`.
pub record InDelaySlot (p : Processor) (target : ℕ) : Type 0 where
  pub pending : p.flags ≡ record no_flags { branch_delay = true; no_cti = true }
  pub aims : p.branch_target ≡ target

-- An instruction that completes, and leaves the flags and the program counter alone.
pub record Completes (h : Handler) (entry : Entry) (p q : Processor) : Type 0 where
  pub aligned : p.program_counter % 4 ≡ 0
  pub returns : execute_entry h entry (started p) ≡ done q
  pub keeps_flags : q.flags ≡ (started p).flags
  pub keeps_pc : q.program_counter ≡ p.program_counter

cycle-done :
    (h : Handler) (entry : Entry) (p q : Processor)
    → p.program_counter % 4 ≡ 0
    → execute_entry h entry (started p) ≡ done q
    → cycle h entry p ≡ done (settle (begin_cycle p) q.flags q)
unfolding cycle conclude
cycle-done h entry p q aligned e = rw (aligned, e)

-- In a delay slot with no further flag set, an instruction that completes and leaves the flags and the
-- program counter alone goes to the branch's target, with no flag set and its results kept.
pub delay_slot-lands :
    (h : Handler) (entry : Entry) (p q : Processor) (target : ℕ)
    → InDelaySlot p target
    → Completes h entry p q
    → (r : Processor) × (cycle h entry p ≡ done r)
      × (r.program_counter ≡ target)
      × (r.flags ≡ no_flags)
      × (r.registers ≡ q.registers)
      × (r.memory ≡ q.memory)
unfolding settle begin_cycle started end_cycle
delay_slot-lands h entry p q target slot c = (
  settle (begin_cycle p) q.flags q,
  cycle-done h entry p q c.aligned c.returns,
  ground arith,
  ground arith,
  ground arith,
  ground arith,
)

-- With no flag set but that of a forbidden slot, an instruction that completes and leaves the flags and
-- the program counter alone goes to the next word, with no flag set and its results kept.
pub cycle-next :
    (h : Handler) (entry : Entry) (p q : Processor) (forbidden : Bool)
    → p.flags ≡ record no_flags { no_cti = forbidden }
    → Completes h entry p q
    → (r : Processor) × (cycle h entry p ≡ done r)
      × (r.program_counter ≡ add32 p.program_counter 4)
      × (r.flags ≡ no_flags)
      × (r.registers ≡ q.registers)
      × (r.memory ≡ q.memory)
unfolding settle begin_cycle started end_cycle
cycle-next h entry p q forbidden slot c = (
  settle (begin_cycle p) q.flags q,
  cycle-done h entry p q c.aligned c.returns,
  ground arith,
  ground arith,
  ground arith,
  ground arith,
)

-- A taken branch with a delay slot, from an aligned program counter and a state with no flag set, goes
-- to the next word and leaves it in the branch's delay slot, with the registers that the branch left.
pub cycle-delay_branch :
    (h : Handler) (entry : Entry) (p q : Processor) (target : ℕ)
    → p.flags ≡ no_flags
    → p.program_counter % 4 ≡ 0
    → execute_entry h entry (started p) ≡ done (delay_branch q target)
    → q.flags ≡ (started p).flags
    → q.program_counter ≡ p.program_counter
    → (r : Processor) × (cycle h entry p ≡ done r)
      × InDelaySlot r target
      × (r.program_counter ≡ add32 p.program_counter 4)
      × (r.registers ≡ q.registers)
unfolding settle begin_cycle started end_cycle delay_branch
cycle-delay_branch h entry p q target f aligned returns keeps_flags keeps_pc = (
  settle (begin_cycle p) (delay_branch q target).flags (delay_branch q target),
  cycle-done h entry p (delay_branch q target) aligned returns,
  record { pending = ground arith; aims = ground arith },
  ground arith,
  ground arith,
)

-- A taken compact branch, from an aligned program counter and a state with no flag set, goes to its
-- target at once and leaves no flag set, with the registers that the branch left.
pub cycle-compact_branch :
    (h : Handler) (entry : Entry) (p q : Processor) (target : ℕ)
    → p.flags ≡ no_flags
    → p.program_counter % 4 ≡ 0
    → execute_entry h entry (started p) ≡ done (compact_branch q target)
    → q.flags ≡ (started p).flags
    → (r : Processor) × (cycle h entry p ≡ done r)
      × (r.program_counter ≡ target)
      × (r.flags ≡ no_flags)
      × (r.registers ≡ q.registers)
unfolding settle begin_cycle started end_cycle compact_branch
cycle-compact_branch h entry p q target f aligned returns keeps_flags = (
  settle (begin_cycle p) (compact_branch q target).flags (compact_branch q target),
  cycle-done h entry p (compact_branch q target) aligned returns,
  ground arith,
  ground arith,
  ground arith,
)

-- In a forbidden slot a control instruction is the same as a reserved word.
pub cycle-control_in_slot :
    (h : Handler) (op : Op) (i : ℕ) (p : Processor)
    → p.flags.no_cti ≡ true
    → is_control op ≡ true
    → cycle h (Entry.valid op i) p ≡ cycle h Entry.reserved p
unfolding cycle execute_entry execute started begin_cycle
cycle-control_in_slot h op i p slot control = rw (slot, control)

-- An exception of an instruction at an aligned program counter for which the handler throws, with the
-- program counter as it was, leaves the program counter at that instruction; but if it stood in a
-- delay slot, at the branch's target. No branch stays pending.
pub cycle-unhandled :
    (h : Handler) (entry : Entry) (p q s : Processor) (type : ExceptionType) (address code : ℕ)
    (e : Exception)
    → p.program_counter % 4 ≡ 0
    → execute_entry h entry (started p) ≡ thrown (cpu_exception type address code) q
    → h (cpu_exception type address code) (interrupted (begin_cycle p) q) ≡ thrown e s
    → s.program_counter ≡ p.program_counter
    → (r : Processor) × (cycle h entry p ≡ thrown e r)
      × (r.program_counter ≡ (if p.flags.branch_delay then p.branch_target else p.program_counter))
      × (r.flags.branch_delay ≡ false)
unfolding cycle conclude unhandled end_cycle begin_cycle
cycle-unhandled h entry p q s type address code e aligned raises throws keeps = (
  end_cycle (begin_cycle p) (without_increment (begin_cycle p).advance) (begin_cycle p).flags s,
  rw (aligned, raises, throws),
  ground arith,
  ground arith,
)
