-- ===== src/Executor/Plain.antt =====
-- The way of an iteration through an instruction that is no control instruction and no system call.
use vemips.Base.{ℕ, ◌%◌, ◌≡◌, ◌≢◌, refl, Bool, true, false, if◌then◌else◌, add32, subst}
use vemips.Cache.{Entry}
use vemips.Executor.Flow.{Completes, delay_slot-lands, cycle-next}
use vemips.Executor.{execute_entry, started, cycle}
use vemips.Isa.Execute.{execute}
use vemips.Isa.Op.{Op, is_control}
use vemips.Isa.Straight.All.{execute-AllStraight}
use vemips.Isa.Straight.{AllStraight}
use vemips.Isa.Trap.{Handler}
use vemips.Processor.{Processor, done, no_flags}

plain-Completes :
    (h : Handler) (op : Op) (i : ℕ) (p q : Processor)
    → is_control op ≡ false
    → op ≢ Op.syscall
    → p.program_counter % 4 ≡ 0
    → execute h op i (started p) ≡ done q
    → Completes h (Entry.valid op i) p q
unfolding execute_entry started
plain-Completes h op i p q plain no_call aligned e =
    let f =
      subst (AllStraight (started p)) e (execute-AllStraight h op i (started p) plain no_call) in
    record { aligned = aligned; returns = e; keeps_flags = f.2; keeps_pc = f.0 }

-- An iteration with an instruction that is neither a control instruction nor SYSCALL and completes, at
-- an aligned program counter, goes to the next word, or from the delay slot of a branch to the
-- branch's target. No flag is set then, and the registers and the memory are as the instruction left
-- them. Before it, no flag but that of a forbidden slot may be set, or both those of a delay slot.
pub cycle-plain :
    (h : Handler) (op : Op) (i : ℕ) (p q : Processor) (delayed forbidden : Bool)
    → is_control op ≡ false
    → op ≢ Op.syscall
    → p.program_counter % 4 ≡ 0
    → p.flags ≡ (
        if delayed
        then record no_flags { branch_delay = true; no_cti = true }
        else record no_flags { no_cti = forbidden })
    → execute h op i (started p) ≡ done q
    → (r : Processor) × (cycle h (Entry.valid op i) p ≡ done r)
      × (r.program_counter ≡ (if delayed then p.branch_target else add32 p.program_counter 4))
      × (r.flags ≡ no_flags)
      × (r.registers ≡ q.registers)
      × (r.memory ≡ q.memory)
cycle-plain h op i p q true forbidden plain no_call aligned slot e =
    delay_slot-lands h (Entry.valid op i) p q p.branch_target
      (record { pending = slot; aims = refl }) (plain-Completes h op i p q plain no_call aligned e)
cycle-plain h op i p q false forbidden plain no_call aligned slot e =
    cycle-next h (Entry.valid op i) p q forbidden slot
      (plain-Completes h op i p q plain no_call aligned e)
