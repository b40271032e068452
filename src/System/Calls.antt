-- ===== src/System/Calls.antt =====
-- `handle_syscall`, `handle_unknown_syscall`, `handle_sys_exception` and `handle_exception`
-- (src/emulator/system_vemix.cpp).
use vemips.Base.{ℕ, bit_or, ◌-◌, ◌^◌, Bool, true, false, ◌||◌, ◌==◌, if◌then◌else◌}
use vemips.Memory.{mem_write}
use vemips.Processor.Options.{
  Exception, ExceptionType, cpu_exception, execution_complete, execution_fail,
}
use vemips.Processor.{Processor, Outcome, done, thrown, ◌>>=◌, get_register}
use vemips.System.Vemix.{vemips_syscall_flag, brk_impl, sbrk_impl, break_done, sbrk_done}
use vemips.System.Writev.{set_syscall_result, writev, finish}
use vemips.System.{System, Numbers, complete_success, complete_fail}

abbrev Handled : Type 0
Handled = System × Outcome (ℕ × Processor)

unfoldable pub handle_unknown_syscall : Numbers → System → Processor → Handled
unfolding set_syscall_result
handle_unknown_syscall n s p =
    let q = set_syscall_result false n.enosys p in
    let failed = record s { execution_result_code = 2 ^ 31 - 1; execution_state = complete_fail } in
    if s.uses_jit then (failed, done (1, q)) else (failed, thrown execution_fail q)

unfoldable pub exit_call : System → Processor → Handled
unfolding get_register
exit_call s p =
    let exit_code = get_register p 4 in
    let complete = record s {
      execution_result_code = exit_code;
      execution_state = complete_success;
    } in
    if s.uses_jit
    then (complete, done (1, p))
    else (complete, thrown (execution_complete exit_code) p)

unfoldable pub set_tid_address : System → Processor → Handled
unfolding set_syscall_result get_register mem_write
set_tid_address s p =
    (s, (mem_write 4 (get_register p 4) 1 p >>= λ q. done (0, set_syscall_result true 0 q)))

-- The calls that only give a result.
unfoldable pub not_implemented : Numbers → ℕ → Bool
not_implemented n code =
    code == n.nr_futex
    || code == n.nr_mmap2
    || code == n.nr_rt_sigaction
    || code == n.sys_rt_sigprocmask
    || code == n.nr_llseek
    || code == n.nr_truncate
    || code == n.nr_poll

unfoldable pub pretended : Numbers → ℕ → Bool
pretended n code = code == n.nr_debug || code == n.nr_ioctl || code == n.nr_tkill

-- The labels of the `switch` are distinct, so that their order does not matter.
unfoldable pub handle_syscall : Numbers → System → Processor → Handled
unfolding brk_impl sbrk_impl break_done sbrk_done writev exit_call set_tid_address not_implemented
    pretended handle_unknown_syscall set_syscall_result get_register
handle_syscall n s p =
    let code = get_register p 2 in
    if not_implemented n code
    then finish s (set_syscall_result false n.enosys p)
    else if pretended n code
    then finish s (set_syscall_result true 0 p)
    else if code == n.nr_brk
    then break_done false p (brk_impl n s p (get_register p 4))
    else if code == bit_or n.nr_brk vemips_syscall_flag
    then break_done true p (brk_impl n s p (get_register p 4))
    else if code == n.nr_sbrk
    then sbrk_done false s p (sbrk_impl n s p (get_register p 4))
    else if code == bit_or n.nr_sbrk vemips_syscall_flag
    then sbrk_done true s p (sbrk_impl n s p (get_register p 4))
    else if code == n.nr_writev
    then writev n s p
    else if code == n.nr_exit_group || code == n.nr_exit
    then exit_call s p
    else if code == n.nr_set_thread_area
    then finish s (set_syscall_result true 0 (record p { user_value = get_register p 4 }))
    else if code == n.nr_set_tid_address
    then set_tid_address s p
    else if code == n.nr_gettid
    then finish s (set_syscall_result true 1 p)
    else handle_unknown_syscall n s p

unfoldable pub fail_unless : Bool → System → Processor → Handled
fail_unless in_jit s p =
    let failed = record s { execution_result_code = 2 ^ 31 - 2; execution_state = complete_fail } in
    if in_jit then (failed, done (1, p)) else (failed, thrown execution_fail p)

-- An address error ends the execution and leaves the system's state.
unfoldable pub handle_sys_exception : ExceptionType → System → Processor → Handled
unfolding fail_unless
handle_sys_exception ExceptionType.ad_el s p = (s, thrown execution_fail p)
handle_sys_exception ExceptionType.ad_es s p = (s, thrown execution_fail p)
handle_sys_exception type s p = fail_unless s.in_jit s p

unfoldable pub handle_cpu_exception : Numbers → System → ExceptionType → Processor → Handled
unfolding handle_syscall handle_sys_exception
handle_cpu_exception n s ExceptionType.sys p = handle_syscall n s p
handle_cpu_exception n s type p = handle_sys_exception type s p

-- `handle_exception`. It is called with a `CPU_Exception`; what ends the execution passes by it.
unfoldable pub handle_exception : Numbers → System → Exception → Processor → Handled
unfolding handle_cpu_exception
handle_exception n s (cpu_exception type address code) p = handle_cpu_exception n s type p
handle_exception n s e p = (s, thrown e p)
