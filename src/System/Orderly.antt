-- ===== src/System/Orderly.antt =====
-- `system_vemix` as the handler of a run: it keeps the processor's state sound
-- (src/emulator/system_vemix.cpp).
use vemips.Base.{
  ℕ, zero, suc, ◌/◌, ◌%◌, ◌^◌, ◌<◌, refl, Bool, true, false, if_both, ltb, add32, arith,
}
use vemips.Isa.Sound.Store.{mem_write-AllFollow}
use vemips.Isa.Sound.System.{IsHandled}
use vemips.Isa.Sound.{IsSound, Follows, AllFollow, stay, then-Follows}
use vemips.Memory.{Fetched, fetched, unreadable, wild, try_mem_fetch_except, mem_write}
use vemips.Processor.Options.{Exception}
use vemips.Processor.Registers.{get_register-lt}
use vemips.Processor.{Processor, Outcome, done, thrown, undefined, ◌>>=◌, get_register}
use vemips.System.Calls.{
  handle_syscall, handle_unknown_syscall, exit_call, set_tid_address, fail_unless, handle_exception,
}
use vemips.System.Dispatch.{handle_syscall_cases, handle_exception_cases}
use vemips.System.Vemix.{brk_impl, break_done}
use vemips.System.Writev.{
  Written, written, stray, write_buffer, write_buffers, writev, set_syscall_result, finish,
}
use vemips.System.{System, Numbers}
use vemips.System.Results.{
  HasWordErrors, Keeps, set_syscall_result-Follows, break_registers-Follows,
  brk_impl-HasWordResults, sbrk-Keeps,
}

write_buffers-Keeps :
    (n : Numbers) (count fd iov_ptr total : ℕ) (s : System) (p : Processor)
    → HasWordErrors n
    → IsSound p
    → total < 2 ^ 32
    → Keeps p (write_buffers n count fd iov_ptr total s p)
unfolding write_buffers
write_buffers-Keeps n zero fd iov_ptr total s p errors sound word =
    (set_syscall_result-Follows true total p sound word, omega arith)
write_buffers-Keeps n (suc count) fd iov_ptr total s p errors sound word =
    after (try_mem_fetch_except false 8 iov_ptr p)
      (λ len t.
        write_buffers-Keeps n count fd (add32 iov_ptr 8) (add32 total len) t p errors sound
          (omega arith))
      (set_syscall_result-Follows false n.efault p sound errors.3)
  where
    buffer :
        (len : ℕ) (w : Written)
        → ((t : System)
            → Keeps p (write_buffers n count fd (add32 iov_ptr 8) (add32 total len) t p))
        → Follows p (set_syscall_result false n.efault p)
        → Keeps p (elim w [
          | written s' offset false ↦
              write_buffers n count fd (add32 iov_ptr 8) (add32 total len) s' p
          | written s' offset true ↦ finish s' (set_syscall_result false n.efault p)
          | stray ↦ (s, undefined)
        ])
    buffer len (written t offset false) later f = later t
    buffer len (written t offset true) later f = (f, omega arith)
    buffer len stray later f = tt

    after :
        (f : Fetched)
        → ((len : ℕ) (t : System)
            → Keeps p (write_buffers n count fd (add32 iov_ptr 8) (add32 total len) t p))
        → Follows p (set_syscall_result false n.efault p)
        → Keeps p (elim f [
          | fetched iovec ↦
              let base = iovec % 2 ^ 32 in
              let len = iovec / 2 ^ 32 % 2 ^ 32 in
              elim (write_buffer fd base len p s) [
                | written s' offset false ↦
                    write_buffers n count fd (add32 iov_ptr 8) (add32 total len) s' p
                | written s' offset true ↦ finish s' (set_syscall_result false n.efault p)
                | stray ↦ (s, undefined)
              ]
          | unreadable a ↦ finish s (set_syscall_result false n.efault p)
          | wild ↦ (s, undefined)
        ])
    after (fetched iovec) later f =
        buffer (iovec / 2 ^ 32 % 2 ^ 32)
          (write_buffer fd (iovec % 2 ^ 32) (iovec / 2 ^ 32 % 2 ^ 32) p s)
          (later (iovec / 2 ^ 32 % 2 ^ 32)) f
    after (unreadable a) later f = (f, omega arith)
    after wild later f = tt

writev-Keeps :
    (n : Numbers) (s : System) (p : Processor)
    → HasWordErrors n
    → IsSound p
    → Keeps p (writev n s p)
unfolding writev
writev-Keeps n s p errors sound =
    if_both (Keeps p) (ltb 2 (get_register p 4))
      (set_syscall_result-Follows false n.ebadf p sound errors.2, omega arith)
      (write_buffers-Keeps n (get_register p 6) (get_register p 4) (get_register p 5) 0 s p errors
        sound (omega arith))

exit_call-Keeps : (s : System) (p : Processor) → IsSound p → Keeps p (exit_call s p)
unfolding exit_call
exit_call-Keeps s p sound = if_both (Keeps p) s.uses_jit (stay p sound, omega arith) (stay p sound)

set_tid_address-Keeps : (s : System) (p : Processor) → IsSound p → Keeps p (set_tid_address s p)
unfolding set_tid_address
set_tid_address-Keeps s p sound =
    after (mem_write 4 (get_register p 4) 1 p) (mem_write-AllFollow 4 (get_register p 4) 1 p sound)
  where
    after :
        (o : Outcome Processor)
        → AllFollow p o
        → IsHandled p (o >>= λ q. done (0, set_syscall_result true 0 q))
    after (done q) f = (
      then-Follows p q (set_syscall_result true 0 q) f
          (set_syscall_result-Follows true 0 q f.0 (omega arith)),
      omega arith,
    )
    after (thrown e q) f = f
    after undefined f = tt

unknown-Keeps :
    (n : Numbers) (s : System) (p : Processor)
    → HasWordErrors n
    → IsSound p
    → Keeps p (handle_unknown_syscall n s p)
unfolding handle_unknown_syscall
unknown-Keeps n s p errors sound =
    let f = set_syscall_result-Follows false n.enosys p sound errors.0 in
    if_both (Keeps p) s.uses_jit (f, omega arith) f

set_thread_area-Follows :
    (p : Processor)
    → IsSound p
    → Follows p (set_syscall_result true 0 (record p { user_value = get_register p 4 }))
set_thread_area-Follows p sound =
    let q = record p { user_value = get_register p 4 } in
    let f : Follows p q = (
      (sound.0, sound.1, sound.2, sound.3, sound.4, get_register-lt p 4 sound.0, sound.6),
      refl,
      refl,
      refl,
    ) in
    then-Follows p q (set_syscall_result true 0 q) f
      (set_syscall_result-Follows true 0 q f.0 (omega arith))

handle_syscall-Keeps :
    (n : Numbers) (s : System) (p : Processor)
    → HasWordErrors n
    → s.system_break < 2 ^ 32
    → IsSound p
    → Keeps p (handle_syscall n s p)
unfolding break_done
handle_syscall-Keeps n s p errors fits sound =
    let a = get_register p 4 in
    let word = get_register-lt p 4 sound.0 in
    let moved = brk_impl-HasWordResults n s p a errors fits in
    let b = brk_impl n s p a in
    let result =
      λ (ok : Bool) (v : ℕ) (small : v < 2 ^ 32). set_syscall_result-Follows ok v p sound small in
    handle_syscall_cases (Keeps p) n s p (result false n.enosys errors.0, omega arith)
      (result true 0 (omega arith), omega arith)
      (break_registers-Follows false b.1 b.2 p sound moved.0 moved.1, omega arith)
      (break_registers-Follows true b.1 b.2 p sound moved.0 moved.1, omega arith)
      (sbrk-Keeps n false s p a errors fits word sound)
      (sbrk-Keeps n true s p a errors fits word sound) (writev-Keeps n s p errors sound)
      (exit_call-Keeps s p sound) (set_thread_area-Follows p sound, omega arith)
      (set_tid_address-Keeps s p sound) (result true 1 (omega arith), omega arith)
      (unknown-Keeps n s p errors sound)

-- From a sound state of the processor, with the heap's end and the host's error numbers below
-- 2 ^ 32, the handling of any exception leaves a sound state with the same options and counters,
-- whether it returns or ends the execution, and the result that it returns is a word.
pub handle_exception-IsHandled :
    (n : Numbers) (s : System) (e : Exception) (p : Processor)
    → HasWordErrors n
    → s.system_break < 2 ^ 32
    → IsSound p
    → IsHandled p (handle_exception n s e p).1
unfolding fail_unless
handle_exception-IsHandled n s e p errors fits sound =
    handle_exception_cases (Keeps p) n s p e (handle_syscall-Keeps n s p errors fits sound)
      (stay p sound) (if_both (Keeps p) s.in_jit (stay p sound, omega arith) (stay p sound))
      (stay p sound)
