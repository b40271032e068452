-- ===== src/Isa/Trap.antt =====
-- Traps, breaks, system calls and the instructions without effect (processor_inst.cpp).
use vemips.Base.{
  add32, ℕ, ◌/◌, ◌%◌, ◌^◌, ltb, leb, ◌==◌, if◌then◌else◌, Bool, not, signed32, ltb_ℤ, leb_ℤ,
}
use vemips.Processor.Options.{Exception, ExceptionType, Llsc, cpu_exception, execution_complete}
use vemips.Processor.Options.{execution_fail}
use vemips.Processor.{Processor, Outcome, done, thrown, undefined, set_register, throw_helper}
use vemips.Isa.Fields.{immediate, rt, rd, rs_value, rt_value, zextend}

-- `guest_system_->handle_exception`: a virtual function of the embedding program, which gets the
-- exception and the processor, and gives a result word, or throws.
abbrev pub Handler : Type 0
Handler = Exception → Processor → Outcome (ℕ × Processor)

unfoldable pub trap_if : Bool → ℕ → Processor → Outcome Processor
trap_if test i p =
    if test
    then throw_helper ExceptionType.tr p.program_counter (zextend 10 (i / 2 ^ 6)) p
    else done p

unfoldable pub teq : ℕ → Processor → Outcome Processor
unfolding trap_if
teq i p = trap_if (rs_value i p == rt_value i p) i p

unfoldable pub tne : ℕ → Processor → Outcome Processor
unfolding trap_if
tne i p = trap_if (not (rs_value i p == rt_value i p)) i p

unfoldable pub tge : ℕ → Processor → Outcome Processor
unfolding trap_if
tge i p = trap_if (leb_ℤ (signed32 (rt_value i p)) (signed32 (rs_value i p))) i p

unfoldable pub tgeu : ℕ → Processor → Outcome Processor
unfolding trap_if
tgeu i p = trap_if (leb (rt_value i p) (rs_value i p)) i p

unfoldable pub tlt : ℕ → Processor → Outcome Processor
unfolding trap_if
tlt i p = trap_if (ltb_ℤ (signed32 (rs_value i p)) (signed32 (rt_value i p))) i p

unfoldable pub tltu : ℕ → Processor → Outcome Processor
unfolding trap_if
tltu i p = trap_if (ltb (rs_value i p) (rt_value i p)) i p

-- BREAK and SDBBP.
unfoldable pub break_point : ℕ → Processor → Outcome Processor
break_point i p = throw_helper ExceptionType.bp p.program_counter (zextend 20 (i / 2 ^ 6)) p

unfoldable pub sdbbp : ℕ → Processor → Outcome Processor
sdbbp i p = throw_helper ExceptionType.bp p.program_counter (zextend 20 (i / 2 ^ 6)) p

unfoldable pub sigrie : ℕ → Processor → Outcome Processor
sigrie i p = throw_helper ExceptionType.ri p.program_counter (zextend 16 i) p

-- The instructions that need coprocessor 0 or 2, neither of which there is.
unfoldable pub coprocessor_unusable : ℕ → Processor → Outcome Processor
coprocessor_unusable i p = throw_helper ExceptionType.cp_u p.program_counter 0 p

-- NOP, SSNOP, PREF and PAUSE.
unfoldable pub nop : ℕ → Processor → Outcome Processor
nop i p = done p

-- `processor::invalidate_instruction_cache` returns at once: the constructor sets
-- `handles_instruction_hazards_` to `false && ...`.
unfoldable pub invalidate_instruction_cache : ℕ → Processor → Processor
invalidate_instruction_cache guest_address p = p

unfoldable pub synci : ℕ → Processor → Outcome Processor
unfolding invalidate_instruction_cache
synci i p = done (invalidate_instruction_cache (add32 (rs_value i p) (immediate i)) p)

-- `SYNC` and `EHB`: what they clear under hazard handling is empty.
unfoldable pub sync : ℕ → Processor → Outcome Processor
sync i p = done p

unfoldable pub supports_llsc_by : Llsc → ℕ
supports_llsc_by Llsc.none = 0
supports_llsc_by _ = 1

abbrev pub no_such_register : Processor → Outcome Processor
no_such_register p = throw_helper ExceptionType.impl1 p.program_counter 0 p

-- `get_cache_line_size` is 0x100 without the JIT. With a selector other than 0, and for the other
-- registers, nothing is implemented.
unfoldable pub rdhwr : ℕ → Processor → Outcome Processor
unfolding supports_llsc_by
rdhwr i p =
    let selector = zextend 3 (i / 2 ^ 6) in
    if not (selector == 0)
    then no_such_register p
    else if rd i == 0
    then done (set_register p (rt i) 0)
    else if rd i == 1
    then done (set_register p (rt i) 0x100)
    else if rd i == 2
    then done (set_register p (rt i) (p.instruction_count % 2 ^ 32))
    else if rd i == 3
    then done (set_register p (rt i) 1)
    else if rd i == 5
    then done (set_register p (rt i) (supports_llsc_by p.config.llsc_type))
    else if rd i == 29
    then done (set_register p (rt i) p.user_value)
    else no_such_register p

-- The end of execution leaves 1 in register 4; any other exception passes through.
unfoldable pub end_of_syscall : Exception → Processor → Processor
end_of_syscall (cpu_exception type address code) p = p
end_of_syscall (execution_complete code) p = set_register p 4 1
end_of_syscall execution_fail p = set_register p 4 1

unfoldable pub syscall : Handler → ℕ → Processor → Outcome Processor
unfolding end_of_syscall
syscall handle_exception i p =
    elim (handle_exception
      (cpu_exception ExceptionType.sys p.program_counter (zextend 20 (i / 2 ^ 6))) p) [
        | done (result, q) ↦ done (set_register q 4 result)
        | thrown e q ↦ thrown e (end_of_syscall e q)
        | undefined ↦ undefined
      ]
