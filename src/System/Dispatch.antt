-- ===== src/System/Dispatch.antt =====
-- The rules for `handle_syscall` and `handle_exception` (src/emulator/system_vemix.cpp): what holds of
-- each case's handling holds of the handling.
use vemips.Base.{ℕ, true, false, if_both}
use vemips.Processor.Options.{
  Exception, ExceptionType, cpu_exception, execution_complete, execution_fail,
}
use vemips.Processor.{Processor, Outcome, thrown, get_register}
use vemips.System.Calls.{
  handle_syscall, handle_unknown_syscall, exit_call, set_tid_address, fail_unless,
  handle_sys_exception, handle_cpu_exception, handle_exception,
}
use vemips.System.Vemix.{brk_impl, sbrk_impl, break_done, sbrk_done}
use vemips.System.Writev.{set_syscall_result, writev, finish}
use vemips.System.{System, Numbers}

module _ (P : System × Outcome (ℕ × Processor) → Type 0) (n : Numbers) (s : System)
    (p : Processor) where
  pub handle_syscall_cases :
      P (finish s (set_syscall_result false n.enosys p))
      → P (finish s (set_syscall_result true 0 p))
      → P (break_done false p (brk_impl n s p (get_register p 4)))
      → P (break_done true p (brk_impl n s p (get_register p 4)))
      → P (sbrk_done false s p (sbrk_impl n s p (get_register p 4)))
      → P (sbrk_done true s p (sbrk_impl n s p (get_register p 4)))
      → P (writev n s p)
      → P (exit_call s p)
      → P (finish s (set_syscall_result true 0 (record p { user_value = get_register p 4 })))
      → P (set_tid_address s p)
      → P (finish s (set_syscall_result true 1 p))
      → P (handle_unknown_syscall n s p)
      → P (handle_syscall n s p)
  unfolding handle_syscall
  handle_syscall_cases failed pretended brk brk' sbrk sbrk' output exit area tid thread unknown =
      if_both P _ failed (
        if_both P _ pretended (
          if_both P _ brk (
            if_both P _ brk' (
              if_both P _ sbrk (
                if_both P _ sbrk' (
                  if_both P _ output (
                    if_both P _ exit
                      (if_both P _ area (if_both P _ tid (if_both P _ thread unknown))))))))))

  pub handle_exception_cases :
      (e : Exception)
      → P (handle_syscall n s p)
      → P (s, thrown execution_fail p)
      → P (fail_unless s.in_jit s p)
      → P (s, thrown e p)
      → P (handle_exception n s e p)
  unfolding handle_exception handle_cpu_exception handle_sys_exception
  handle_exception_cases (cpu_exception ExceptionType.sys a c) call address other ends = call
  handle_exception_cases (cpu_exception ExceptionType.ad_el a c) call address other ends = address
  handle_exception_cases (cpu_exception ExceptionType.ad_es a c) call address other ends = address
  handle_exception_cases (cpu_exception _ a c) call address other ends = other
  handle_exception_cases (execution_complete code) call address other ends = ends
  handle_exception_cases execution_fail call address other ends = ends
