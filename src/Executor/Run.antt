-- ===== src/Executor/Run.antt =====
-- The loop of `execute_internal` (src/mips/processor/processor.cpp), and its counters.
use vemips.Base.{
  ℕ, zero, suc, ◌+◌, ◌%◌, ◌^◌, ◌≤◌, ◌<◌, ◌≡◌, refl, ◌∙◌, arith, if_both, ◌==◌, Bool-cases, inl, inr,
  ltb, if◌then◌else◌, u64, some, sym, subst, ltb→lt,
}
use vemips.Processor.{Processor, Outcome, done, thrown, undefined}
use vemips.Isa.Trap.{Handler}
use vemips.Isa.Sound.{IsSound, AllFollow}
use vemips.Isa.Sound.System.{IsOrderly}
use vemips.Cache.{contains_static, get_index_from_ptr}
use vemips.Executor.{
  started, cycle, Decoder, Machine, Stepped, running, raised, broken, refill, line_for_pc,
  with_processor, step, loop, execute_ticked,
}
use vemips.Executor.Sound.{cycle-AllFollow}

started-counts :
    (p : Processor)
    → ((started p).instruction_count ≡ u64 (p.instruction_count + 1))
      × ((started p).target_instructions ≡ p.target_instructions)
unfolding started
started-counts p = (refl, refl)

line_for_pc-processor : (d : Decoder) (m : Machine) → (line_for_pc d m).processor ≡ m.processor
unfolding line_for_pc refill
line_for_pc-processor d m =
    if_both (λ (n : Machine). n.processor ≡ m.processor)
      (contains_static m.line.base_address m.processor.program_counter) refl refl

-- What an iteration makes of the counters of its machine.
abbrev Advances : Machine → Stepped → Type 0
Advances m (running n) =
    IsSound n.processor
    × (n.processor.instruction_count ≡ u64 (m.processor.instruction_count + 1))
    × (n.processor.target_instructions ≡ m.processor.target_instructions)
Advances m (raised e n) = n.processor.instruction_count ≡ u64 (m.processor.instruction_count + 1)
Advances m broken = Unit {0}

with_processor-Advances :
    (m n : Machine) (o : Outcome Processor)
    → AllFollow (started m.processor) o
    → Advances m (with_processor n o)
with_processor-Advances m n (done q) f =
    let counts = started-counts m.processor in (f.0, f.2 ∙ counts.0, f.3 ∙ counts.1)
with_processor-Advances m n (thrown e q) f = f.2 ∙ (started-counts m.processor).0
with_processor-Advances m n undefined f = tt

step-Advances :
    (h : Handler) (d : Decoder) (m : Machine)
    → IsOrderly h
    → IsSound m.processor
    → Advances m (step h d m)
unfolding step
step-Advances h d m orderly s =
    let aligned = m.processor.program_counter % 4 == 0 in
    let n = if aligned then line_for_pc d m else m in
    let e : n.processor ≡ m.processor =
      if_both (λ (k : Machine). k.processor ≡ m.processor) aligned (line_for_pc-processor d m)
        refl in
    let entry = n.line.entries (get_index_from_ptr n.processor.program_counter) in
    let f = cycle-AllFollow h entry n.processor orderly (subst IsSound (sym e) s) in
    with_processor-Advances m n (cycle h entry n.processor)
      (subst (λ q. AllFollow (started q) (cycle h entry n.processor)) e f)

-- A finished run has counted up to its target; one that an exception ended, at most up to it.
abbrev pub IsFinished : ℕ → Stepped → Type 0
IsFinished target (running n) = n.processor.instruction_count ≡ target
IsFinished target (raised e n) = n.processor.instruction_count ≤ target
IsFinished target broken = Unit {0}

-- The rest of a run after an iteration, given that the rest of the loop finishes.
rest_finishes :
    (h : Handler) (d : Decoder) (fuel target : ℕ) (m : Machine) (o : Stepped)
    → ((n : Machine)
        → Advances m (running n)
        → (r : Stepped) × (loop h d fuel n ≡ some r) × IsFinished target r)
    → target < 2 ^ 64
    → m.processor.instruction_count < target
    → Advances m o
    → (r : Stepped) × (elim o [
      | running n ↦ loop h d fuel n
      | raised e n ↦ some (raised e n)
      | broken ↦ some broken
    ]
        ≡ some r)
      × IsFinished target r
rest_finishes h d fuel target m (running n) rest small below f = rest n f
rest_finishes h d fuel target m (raised e n) rest small below f =
    (raised e n, refl, omega (arith, f))
rest_finishes h d fuel target m broken rest small below f = (broken, refl, tt)

loop-finishes :
    (h : Handler) (d : Decoder) (fuel target : ℕ) (m : Machine)
    → IsOrderly h
    → IsSound m.processor
    → m.processor.target_instructions ≡ target
    → target < 2 ^ 64
    → m.processor.instruction_count ≤ target
    → target ≤ m.processor.instruction_count + fuel
    → (r : Stepped) × (loop h d fuel m ≡ some r) × IsFinished target r
unfolding loop
loop-finishes h d zero target m orderly s e small begun enough =
    (running m, ground arith, omega arith)
loop-finishes h d (suc fuel) target m orderly s e small begun enough =
    elim (Bool-cases (ltb m.processor.instruction_count m.processor.target_instructions)) [
      | inl below ↦
          let lt = ltb→lt m.processor.instruction_count m.processor.target_instructions below in
          let (r, ends, finished) =
            rest_finishes h d fuel target m (step h d m)
              (λ n a.
                loop-finishes h d fuel target n orderly a.0 (a.2 ∙ e) small (omega (arith, a.1))
                  (omega (arith, a.1)))
              small (omega arith) (step-Advances h d m orderly s) in
          (r, rw below ends, finished)
      | inr reached ↦ (running m, rw reached refl, ground arith)
    ]

-- A ticked run of `clocks` instructions, with a round of the loop for each, always finishes: it has
-- counted exactly `clocks` more instructions, or at most that many before an exception that nothing
-- handles ended it, or it has come to what C++ leaves undefined. It starts from a sound state, the
-- counter does not reach 2 ^ 64, and the system's handler keeps states sound.
pub execute_ticked-finishes :
    (h : Handler) (d : Decoder) (clocks : ℕ) (m : Machine)
    → IsOrderly h
    → IsSound m.processor
    → m.processor.instruction_count + clocks < 2 ^ 64
    → (r : Stepped) × (execute_ticked h d clocks m ≡ some r)
      × IsFinished (m.processor.instruction_count + clocks) r
unfolding execute_ticked refill
execute_ticked-finishes h d clocks m orderly s small =
    loop-finishes h d clocks (m.processor.instruction_count + clocks) _ orderly s (omega arith)
      small (omega arith) (omega arith)
