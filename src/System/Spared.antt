-- ===== src/System/Spared.antt =====
-- What a system call leaves alone: the program counter, the flags, the pending branch, and all registers
-- but the two of the results (src/emulator/system_vemix.cpp).
use vemips.Base.{
  ℕ, zero, suc, ◌/◌, ◌%◌, ◌^◌, ◌≡◌, ◌≢◌, refl, ◌∙◌, ap, Bool, true, false, Option, none, some,
  if_both, if◌then◌else◌, ltb, add32, sub32, arith,
}
use vemips.Isa.Straight.{
  Straight, AllKeep, stays, then-Straight, set_register-Straight, mem_write-AllKeep,
}
use vemips.Memory.{Fetched, fetched, unreadable, wild, try_mem_fetch_except, mem_write}
use vemips.Processor.Options.{Exception}
use vemips.Processor.{
  Processor, Outcome, done, thrown, undefined, ◌>>=◌, get_register, set_register,
}
use vemips.System.Calls.{
  handle_syscall, handle_unknown_syscall, exit_call, set_tid_address, fail_unless, handle_exception,
}
use vemips.System.Dispatch.{handle_syscall_cases, handle_exception_cases}
use vemips.System.Vemix.{
  brk_impl, sbrk_impl, break_done, sbrk_done, break_registers, Expected, value, unexpected,
  set_syscall_result_vemips,
}
use vemips.System.Writev.{
  Written, written, stray, write_buffer, write_buffers, writev, set_syscall_result, finish,
}
use vemips.System.{System, Numbers}

-- The register r, the program counter, the branch target and the flags are as they were.
abbrev pub Spares : ℕ → Processor → Processor → Type 0
Spares r p q = Straight p q × (q.registers r ≡ p.registers r)

abbrev pub AllSpare : ℕ → Processor → Outcome (ℕ × Processor) → Type 0
AllSpare r p (done (v, q)) = Spares r p q
AllSpare r p (thrown e q) = Spares r p q
AllSpare r p undefined = Unit {0}

module _ (r : ℕ) (no_result : r ≢ 2) (no_flag : r ≢ 7) where
  untouched : (p : Processor) → Spares r p p
  untouched p = (stays p, refl)

  then-Spares : (p q s : Processor) → Spares r p q → Spares r q s → Spares r p s
  then-Spares p q s f g = (then-Straight p q s f.0 g.0, g.1 ∙ f.1)

  set_register-Spares : (p : Processor) (k v : ℕ) → r ≢ k → Spares r p (set_register p k v)
  unfolding set_register
  set_register-Spares p k v other = (set_register-Straight p k v, ground arith)

  set_syscall_result-Spares :
      (ok : Bool) (v : ℕ) (p : Processor) → Spares r p (set_syscall_result ok v p)
  unfolding set_syscall_result
  set_syscall_result-Spares ok v p =
      let code : ℕ = if ok then 0 else 1 in
      then-Spares p (set_register p 2 v) (set_register (set_register p 2 v) 7 code)
        (set_register-Spares p 2 v no_result)
        (set_register-Spares (set_register p 2 v) 7 code no_flag)

  set_syscall_result_vemips-Spares :
      (ok : Bool) (v w : ℕ) (p : Processor) → Spares r p (set_syscall_result_vemips ok v w p)
  unfolding set_syscall_result_vemips
  set_syscall_result_vemips-Spares ok v w p =
      let code : ℕ = if ok then w else sub32 0 w in
      then-Spares p (set_register p 2 v) (set_register (set_register p 2 v) 7 code)
        (set_register-Spares p 2 v no_result)
        (set_register-Spares (set_register p 2 v) 7 code no_flag)

  break_registers-Spares :
      (flagged : Bool) (v : ℕ) (w : Expected) (p : Processor)
      → Spares r p (break_registers flagged v w p)
  unfolding break_registers
  break_registers-Spares flagged v (value w) p =
      if_both (Spares r p) flagged (set_syscall_result_vemips-Spares true v w p)
        (set_syscall_result-Spares true v p)
  break_registers-Spares flagged v (unexpected e) p =
      if_both (Spares r p) flagged (set_syscall_result_vemips-Spares false v e p)
        (set_syscall_result-Spares false e p)

  -- What a call gives, whatever it leaves of the system.
  AllSpared : Processor → System × Outcome (ℕ × Processor) → Type 0
  AllSpared p given = AllSpare r p given.1

  sbrk-AllSpared :
      (flagged : Bool) (s : System) (p : Processor) (o : Option (System × ℕ × Expected))
      → AllSpared p (sbrk_done flagged s p o)
  unfolding sbrk_done break_done AllSpared
  sbrk-AllSpared flagged s p none = tt
  sbrk-AllSpared flagged s p (some (t, v, w)) = break_registers-Spares flagged v w p

  write_buffers-AllSpared :
      (n : Numbers) (count fd iov_ptr total : ℕ) (s : System) (p : Processor)
      → AllSpared p (write_buffers n count fd iov_ptr total s p)
  unfolding write_buffers AllSpared
  write_buffers-AllSpared n zero fd iov_ptr total s p = set_syscall_result-Spares true total p
  write_buffers-AllSpared n (suc count) fd iov_ptr total s p =
      after (try_mem_fetch_except false 8 iov_ptr p)
        (λ len t. write_buffers-AllSpared n count fd (add32 iov_ptr 8) (add32 total len) t p)
    where
      failed : Spares r p (set_syscall_result false n.efault p)
      failed = set_syscall_result-Spares false n.efault p

      buffer :
          (len : ℕ) (w : Written)
          → ((t : System)
              → AllSpare r p (write_buffers n count fd (add32 iov_ptr 8) (add32 total len) t p).1)
          → AllSpared p (elim w [
            | written s' offset false ↦
                write_buffers n count fd (add32 iov_ptr 8) (add32 total len) s' p
            | written s' offset true ↦ finish s' (set_syscall_result false n.efault p)
            | stray ↦ (s, undefined)
          ])
      buffer len (written t offset false) later = later t
      buffer len (written t offset true) later = failed
      buffer len stray later = tt

      after :
          (f : Fetched)
          → ((len : ℕ) (t : System)
              → AllSpare r p (write_buffers n count fd (add32 iov_ptr 8) (add32 total len) t p).1)
          → AllSpared p (elim f [
            | fetched iovec ↦
                let base = iovec % 2 ^ 32 in
                let len = iovec / 2 ^ 32 % 2 ^ 32 in
                elim (write_buffer fd base len p s) [
                  | written s' offset false ↦
                      write_buffers n count fd (add32 iov_ptr 8) (add32 total len) s' p
                  | written s' offset true ↦ finish s' (set_syscall_result false n.efault p)
                  | stray ↦ (s, undefined)
                ]
            | unreadable a ↦ finish s (set_syscall_result false n.efault p)
            | wild ↦ (s, undefined)
          ])
      after (fetched iovec) later =
          buffer (iovec / 2 ^ 32 % 2 ^ 32)
            (write_buffer fd (iovec % 2 ^ 32) (iovec / 2 ^ 32 % 2 ^ 32) p s)
            (later (iovec / 2 ^ 32 % 2 ^ 32))
      after (unreadable a) later = failed
      after wild later = tt

  set_tid_address-AllSpared : (s : System) (p : Processor) → AllSpared p (set_tid_address s p)
  unfolding set_tid_address AllSpared
  set_tid_address-AllSpared s p =
      after (mem_write 4 (get_register p 4) 1 p) (mem_write-AllKeep 4 (get_register p 4) 1 p)
    where
      after :
          (o : Outcome Processor)
          → AllKeep p o
          → AllSpare r p (o >>= λ q. done (0, set_syscall_result true 0 q))
      after (done q) f =
          then-Spares p q (set_syscall_result true 0 q) (f.0, ap (λ g. g r) f.1)
            (set_syscall_result-Spares true 0 q)
      after (thrown e q) f = (f.0, ap (λ g. g r) f.1)
      after undefined f = tt

  handle_syscall-AllSpared :
      (n : Numbers) (s : System) (p : Processor) → AllSpared p (handle_syscall n s p)
  unfolding AllSpared break_done writev exit_call handle_unknown_syscall
  handle_syscall-AllSpared n s p =
      let a = get_register p 4 in
      let b = brk_impl n s p a in
      let result = λ (ok : Bool) (v : ℕ). set_syscall_result-Spares ok v p in
      handle_syscall_cases (AllSpared p) n s p (result false n.enosys) (result true 0)
        (break_registers-Spares false b.1 b.2 p) (break_registers-Spares true b.1 b.2 p)
        (sbrk-AllSpared false s p (sbrk_impl n s p a)) (sbrk-AllSpared true s p (sbrk_impl n s p a))
        (if_both (AllSpared p) (ltb 2 a) (result false n.ebadf)
          (write_buffers-AllSpared n (get_register p 6) a (get_register p 5) 0 s p))
        (if_both (AllSpared p) s.uses_jit (untouched p) (untouched p))
        (set_syscall_result-Spares true 0 (record p { user_value = a }))
        (set_tid_address-AllSpared s p) (result true 1)
        (if_both (AllSpared p) s.uses_jit (result false n.enosys) (result false n.enosys))

  -- The handling of any exception, whether it returns or throws, leaves every register but 2 and 7, the
  -- program counter, the branch target and the flags as they were.
  pub handle_exception-AllSpare :
      (n : Numbers) (s : System) (e : Exception) (p : Processor)
      → AllSpare r p (handle_exception n s e p).1
  unfolding fail_unless AllSpared
  handle_exception-AllSpare n s e p =
      handle_exception_cases (AllSpared p) n s p e (handle_syscall-AllSpared n s p) (untouched p)
        (if_both (AllSpared p) s.in_jit (untouched p) (untouched p)) (untouched p)
