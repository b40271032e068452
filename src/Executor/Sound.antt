-- ===== src/Executor/Sound.antt =====
-- An iteration of `execute_internal` (src/mips/processor/processor.cpp) on sound states.
use vemips.Base.{ℕ, ◌%◌, ◌^◌, ◌<◌, ◌≡◌, refl, arith, if_both, ◌==◌, true, false}
use vemips.Processor.Options.{cpu_exception, execution_complete, execution_fail}
use vemips.Processor.{Flags, Processor, Outcome, done, thrown, undefined, set_register}
use vemips.Isa.Trap.{Handler}
use vemips.Isa.Sound.{
  IsSound, Follows, AllFollow, stay, then-Follows, all_then, set_register-Follows,
}
use vemips.Isa.Sound.System.{IsOrderly, IsHandled}
use vemips.Isa.Sound.All.{execute-AllFollow}
use vemips.Cache.{Entry}
use vemips.Executor.{
  Advance, increment, jump, Locals, execute_entry, started, begin_cycle, advance_by, end_cycle,
  settle, without_increment, unhandled, interrupted, conclude, cycle,
}

execute_entry-AllFollow :
    (h : Handler) (entry : Entry) (p : Processor)
    → IsOrderly h
    → IsSound p
    → AllFollow p (execute_entry h entry p)
unfolding execute_entry
execute_entry-AllFollow h (Entry.valid op i) p orderly s = execute-AllFollow h op i p orderly s
execute_entry-AllFollow h Entry.reserved p orderly s = stay p s
execute_entry-AllFollow h (Entry.unreadable a) p orderly s = stay p s
execute_entry-AllFollow h Entry.wild p orderly s = tt

-- An advance that leads to a word.
abbrev IsWordly : Advance → Type 0
IsWordly (jump target) = target < 2 ^ 32
IsWordly _ = Unit {0}

advance_by-lt : (a : Advance) (pc : ℕ) → IsWordly a → pc < 2 ^ 32 → advance_by a pc < 2 ^ 32
advance_by-lt Advance.stay pc w p = p
advance_by-lt increment pc w p = omega arith
advance_by-lt (jump target) pc w p = w

end_cycle-Follows :
    (l : Locals) (a : Advance) (value : Flags) (p : Processor)
    → IsWordly a
    → IsSound p
    → Follows p (end_cycle l a value p)
unfolding end_cycle
end_cycle-Follows l a value p w s = (
  (
    s.0,
    s.1,
    advance_by-lt a p.program_counter w s.2,
    if_both (λ t. t < 2 ^ 32) l.in_delay_slot (omega arith) s.3,
    s.4,
    s.5,
    s.6,
  ),
  refl,
  refl,
  refl,
)

settle-Follows :
    (l : Locals) (value : Flags) (p : Processor)
    → IsWordly l.advance
    → IsSound p
    → Follows p (settle l value p)
unfolding settle
settle-Follows l value p w s =
    if_both (Follows p) value.pc_changed
      (end_cycle-Follows l Advance.stay (record value { pc_changed = false }) p tt s)
      (end_cycle-Follows l l.advance value p w s)

without_increment-IsWordly : (a : Advance) → IsWordly a → IsWordly (without_increment a)
without_increment-IsWordly Advance.stay w = tt
without_increment-IsWordly increment w = tt
without_increment-IsWordly (jump target) w = w

unhandled-AllFollow :
    (l : Locals) (p : Processor) (o : Outcome (ℕ × Processor))
    → IsWordly l.advance
    → IsHandled p o
    → AllFollow p (unhandled l o)
unfolding unhandled
unhandled-AllFollow l p (done (v, q)) w f =
    then-Follows p q (settle l l.flags q) f.0 (settle-Follows l l.flags q w f.0.0)
unhandled-AllFollow l p (thrown e q) w f =
    then-Follows p q (end_cycle l (without_increment l.advance) l.flags q) f (
      end_cycle-Follows l (without_increment l.advance) l.flags q
        (without_increment-IsWordly l.advance w) f.0)
unhandled-AllFollow l p undefined w f = tt

interrupted-Follows :
    (l : Locals) (p : Processor) → l.pc < 2 ^ 32 → IsSound p → Follows p (interrupted l p)
unfolding interrupted
interrupted-Follows l p word s =
    let q = set_register p 0 0 in
    let f = set_register-Follows p 0 0 s (omega arith) in
    then-Follows p q (record q { program_counter = l.pc; from_exception = true }) f
      ((f.0.0, f.0.1, word, f.0.3, f.0.4, f.0.5, f.0.6), refl, refl, refl)

conclude-AllFollow :
    (h : Handler) (l : Locals) (p : Processor) (o : Outcome Processor)
    → IsOrderly h
    → IsWordly l.advance
    → l.pc < 2 ^ 32
    → AllFollow p o
    → AllFollow p (conclude h l o)
unfolding conclude
conclude-AllFollow h l p (done q) orderly w word f =
    then-Follows p q (settle l q.flags q) f (settle-Follows l q.flags q w f.0)
conclude-AllFollow h l p (thrown (cpu_exception type address code) q) orderly w word f =
    let g = interrupted-Follows l q word f.0 in
    let r = interrupted l q in
    let e = cpu_exception type address code in
    all_then p q (unhandled l (h e r)) f
      (all_then q r (unhandled l (h e r)) g (unhandled-AllFollow l r (h e r) w (orderly e r g.0)))
conclude-AllFollow h l p (thrown (execution_complete code) q) orderly w word f =
    then-Follows p q (end_cycle l l.advance l.flags q) f
      (end_cycle-Follows l l.advance l.flags q w f.0)
conclude-AllFollow h l p (thrown execution_fail q) orderly w word f =
    then-Follows p q (end_cycle l l.advance l.flags q) f
      (end_cycle-Follows l l.advance l.flags q w f.0)
conclude-AllFollow h l p undefined orderly w word f = tt

started-IsSound : (p : Processor) → IsSound p → IsSound (started p)
unfolding started
started-IsSound p s = s

begin_cycle-IsWordly : (p : Processor) → IsSound p → IsWordly (begin_cycle p).advance
unfolding begin_cycle
begin_cycle-IsWordly p s = if_both IsWordly p.flags.branch_delay s.3 tt

begin_cycle-pc : (p : Processor) → (begin_cycle p).pc ≡ p.program_counter
unfolding begin_cycle
begin_cycle-pc p = refl

pub cycle-AllFollow :
    (h : Handler) (entry : Entry) (p : Processor)
    → IsOrderly h
    → IsSound p
    → AllFollow (started p) (cycle h entry p)
unfolding cycle
cycle-AllFollow h entry p orderly s =
    let t = started-IsSound p s in
    conclude-AllFollow h (begin_cycle p) (started p) _ orderly (begin_cycle-IsWordly p s)
      (omega (arith, begin_cycle-pc p, s.2))
      (if_both (AllFollow (started p)) (p.program_counter % 4 == 0)
        (execute_entry-AllFollow h entry (started p) orderly t) (stay (started p) t))
