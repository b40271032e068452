-- ===== src/Executor.antt =====
-- `processor::execute_internal` (src/mips/processor/processor.cpp) as the interpreter runs it:
-- without the JIT, the debugger and the statistics, and with a cache that is indexable.
pub mod Flow
pub mod Plain
pub mod Sound
pub mod Run
use vemips.Base.{
  ℕ, zero, suc, ◌+◌, ◌%◌, ltb, ◌==◌, if◌then◌else◌, Bool, true, false, not, ◌&&◌, add32, u64,
  Option, none, some,
}
use vemips.Processor.Options.{
  Exception, ExceptionType, cpu_exception, execution_complete, execution_fail,
}
use vemips.Processor.{
  Flags, Processor, Outcome, done, thrown, undefined, throw_helper, set_register,
}
use vemips.Memory.{try_mem_fetch_except, fetched, unreadable, wild}
use vemips.Isa.Op.{Op}
use vemips.Isa.Trap.{Handler}
use vemips.Isa.Execute.{execute}
use vemips.Cache.{Entry, Line, HashCache, get_cache_line, get_index_from_ptr, contains_static}

-- `entry::execute_instruction`.
unfoldable pub execute_entry : Handler → Entry → Processor → Outcome Processor
execute_entry handle_exception (Entry.valid op i) p = execute handle_exception op i p
execute_entry handle_exception Entry.reserved p =
    throw_helper ExceptionType.ri p.program_counter 0 p
execute_entry handle_exception (Entry.unreadable a) p =
    throw_helper ExceptionType.ad_el p.program_counter a p
execute_entry handle_exception Entry.wild p = undefined

-- What the destructors of `program_counter_updater` and `program_counter_incrementer` do.
pub data Advance : Type 0 where
  stay increment : Advance
  jump : ℕ → Advance

-- The locals of an iteration: whether it is in a delay slot or a forbidden slot, and its flags.
pub record Locals : Type 0 where
  pub pc : ℕ
  pub flags : Flags
  pub in_delay_slot : Bool
  pub clears_cti : Bool
  pub advance : Advance

-- Up to `flags.flush()`: the pending branch is taken out of the flags.
unfoldable pub begin_cycle : Processor → Locals
begin_cycle p =
    let f = p.flags in
    let clears_hazard =
      p.config.handles_instruction_hazards
      && (f.instruction_hazard && not f.instruction_hazard_delay_branch) in
    record {
      pc = p.program_counter;
      flags = record f {
        branch_delay = false;
        instruction_hazard = if clears_hazard then false else f.instruction_hazard;
      };
      in_delay_slot = f.branch_delay;
      clears_cti = f.no_cti;
      advance = if f.branch_delay then jump p.branch_target else increment;
    }

abbrev pub advance_by : Advance → ℕ → ℕ
advance_by stay pc = pc
advance_by increment pc = add32 pc 4
advance_by (jump target) pc = target

-- The destructors at the end of the iteration, in their order; `value` is the scoped flags' copy.
unfoldable pub end_cycle : Locals → Advance → Flags → Processor → Processor
end_cycle l advance value p = record p {
  flags = if l.clears_cti then record value { no_cti = false } else value;
  branch_target = if l.in_delay_slot then 0 else p.branch_target;
  program_counter = advance_by advance p.program_counter;
}

-- A compact branch has set the program counter itself.
unfoldable pub settle : Locals → Flags → Processor → Processor
unfolding end_cycle
settle l value p =
    if value.pc_changed
    then end_cycle l stay (record value { pc_changed = false }) p
    else end_cycle l l.advance value p

-- `catch`: the flags are not reloaded. If the handler throws, the increment is called off, and the
-- jump of a delay slot is not.
abbrev pub without_increment : Advance → Advance
without_increment increment = stay
without_increment a = a

unhandled : Locals → Outcome (ℕ × Processor) → Outcome Processor
unfolding settle end_cycle
unhandled l (done (_, q)) = done (settle l l.flags q)
unhandled l (thrown e q) = thrown e (end_cycle l (without_increment l.advance) l.flags q)
unhandled l undefined = undefined

-- Before the handler is called.
unfoldable pub interrupted : Locals → Processor → Processor
unfolding set_register
interrupted l q = record (set_register q 0 0) { program_counter = l.pc; from_exception = true }

conclude : Handler → Locals → Outcome Processor → Outcome Processor
unfolding settle end_cycle interrupted unhandled
conclude handle_exception l (done q) = done (settle l q.flags q)
conclude handle_exception l (thrown (cpu_exception type address code) q) =
    unhandled l (handle_exception (cpu_exception type address code) (interrupted l q))
conclude handle_exception l (thrown (execution_complete code) q) =
    thrown (execution_complete code) (end_cycle l l.advance l.flags q)
conclude handle_exception l (thrown execution_fail q) =
    thrown execution_fail (end_cycle l l.advance l.flags q)
conclude handle_exception l undefined = undefined

-- The state in which the entry is executed.
unfoldable pub started : Processor → Processor
unfolding begin_cycle
started p = record p {
  flags = (begin_cycle p).flags;
  instruction_count = u64 (p.instruction_count + 1);
}

-- The body of the loop, given the entry for the program counter.
unfoldable pub cycle : Handler → Entry → Processor → Outcome Processor
unfolding begin_cycle conclude started
cycle handle_exception entry p = conclude handle_exception (begin_cycle p) (
    if p.program_counter % 4 == 0
    then execute_entry handle_exception entry (started p)
    else throw_helper ExceptionType.ri p.program_counter 0 (started p))

-- `get_instruction_index`, the generated decoder: a word's instruction, if it has one.
abbrev pub Decoder : Type 0
Decoder = ℕ → Option Op

decode_entry : Decoder → ℕ → Entry
decode_entry decode i = elim (decode i) [ none ↦ Entry.reserved | some op ↦ Entry.valid op i ]

-- `fetch_instruction` and the decoding of `populate_line`.
unfoldable pub entry_at : Decoder → Processor → ℕ → Entry
unfolding decode_entry
entry_at decode p address = elim (try_mem_fetch_except true 4 address p) [
  | fetched i ↦ decode_entry decode i
  | unreadable a ↦ Entry.unreadable a
  | wild ↦ Entry.wild
]

-- A processor with its cache and the line that the loop has in hand.
pub record Machine : Type 0 where
  pub processor : Processor
  pub cache : HashCache
  pub line : Line

pub data Stepped : Type 0 where
  running : Machine → Stepped
  raised : Exception → Machine → Stepped
  broken : Stepped

unfoldable pub refill : Decoder → Machine → Machine
unfolding entry_at
refill decode m =
    let p = m.processor in
    let (cache, line) = get_cache_line (entry_at decode p) p.program_counter m.cache in
    record m { cache = cache; line = line }

-- The line for the program counter is fetched only when the one in hand is not it.
unfoldable pub line_for_pc : Decoder → Machine → Machine
unfolding refill
line_for_pc decode m =
    if contains_static m.line.base_address m.processor.program_counter then m else refill decode m

abbrev pub with_processor : Machine → Outcome Processor → Stepped
with_processor m (done q) = running (record m { processor = q })
with_processor m (thrown e q) = raised e (record m { processor = q })
with_processor m undefined = broken

-- An iteration of the loop. A program counter that is not aligned is refused before the line is
-- looked at.
unfoldable pub step : Handler → Decoder → Machine → Stepped
unfolding line_for_pc cycle
step handle_exception decode m =
    let n = if m.processor.program_counter % 4 == 0 then line_for_pc decode m else m in
    with_processor n (
      cycle handle_exception (n.line.entries (get_index_from_ptr n.processor.program_counter))
        n.processor)

-- The loop with fuel; `none` is fuel that ran out.
unfoldable pub loop : Handler → Decoder → ℕ → Machine → Option Stepped
unfolding step
loop handle_exception decode zero m =
    if ltb m.processor.instruction_count m.processor.target_instructions
    then none
    else some (running m)
loop handle_exception decode (suc fuel) m =
    if ltb m.processor.instruction_count m.processor.target_instructions
    then elim (step handle_exception decode m) [
      | running n ↦ loop handle_exception decode fuel n
      | raised e n ↦ some (raised e n)
      | broken ↦ some broken
    ]
    else some (running m)

-- `execute` of a ticked processor: a round for each clock.
unfoldable pub execute_ticked : Handler → Decoder → ℕ → Machine → Option Stepped
unfolding loop refill
execute_ticked handle_exception decode clocks m =
    let p = m.processor in
    loop handle_exception decode clocks (
      refill decode (record m {
        processor = record p { target_instructions = u64 (p.instruction_count + clocks) };
      }))
