-- ===== src/System/Shrink.antt =====
-- `sbrk` with a negative increment and `brk` near the end of the address space
-- (src/emulator/system_vemix.cpp, `align` of src/common.hpp).
use vemips.Base.{
  ℕ, ◌+◌, ◌-◌, ◌*◌, ◌^◌, ◌<◌, ◌≤◌, ◌≡◌, refl, true, false, some, ltb, ◌==◌, sub32, arith,
}
use vemips.Processor.{Processor, get_register}
use vemips.System.Vemix.{
  check_brk, sbrk_impl, sbrk_aligned, align_increment, end_of_increment, value,
}
use vemips.System.{System, Numbers}

-- A negative multiple of 4 is moved by 4.
align_increment-negative :
    (k : ℕ)
    → 0 < k
    → 4 * k + 4 ≤ 2 ^ 31
    → align_increment (2 ^ 32 - 4 * k) ≡ some (2 ^ 32 - 4 * k - 4)
unfolding align_increment
align_increment-negative k pos small = ground arith

end_of_increment-negative :
    (b k : ℕ)
    → b < 2 ^ 32
    → 4 * k + 4 ≤ b
    → 4 * k + 4 ≤ 2 ^ 31
    → end_of_increment b (2 ^ 32 - 4 * k - 4) ≡ some (b - 4 * k - 4)
unfolding end_of_increment
end_of_increment-negative b k word enough small = ground arith

check_brk-below :
    (s : System) (p : Processor) (a : ℕ)
    → a ≤ sub32 s.total_memory s.stack_memory
    → a ≤ get_register p 29
    → check_brk s p a ≡ true
unfolding check_brk
check_brk-below s p a limit stack = ground arith

-- Where the heap is large enough to give back 4 * k + 4 bytes, with k from 1 to 2 ^ 29 - 1, and its
-- end is a word inside the data segment and not past the stack pointer, `sbrk` of -4 * k gives back
-- 4 * k + 4 bytes.
pub sbrk_impl-too_far :
    (n : Numbers) (s : System) (p : Processor) (k : ℕ)
    → 0 < k
    → 4 * k + 4 ≤ 2 ^ 31
    → s.system_break < 2 ^ 32
    → s.system_break_base + 4 * k + 4 ≤ s.system_break
    → s.system_break ≤ sub32 s.total_memory s.stack_memory
    → s.system_break ≤ get_register p 29
    → sbrk_impl n s p (2 ^ 32 - 4 * k)
      ≡ some (
        record s { system_break = s.system_break - 4 * k - 4 },
        s.system_break,
        value (2 ^ 32 - 4 * k - 4),
      )
unfolding sbrk_impl sbrk_aligned
sbrk_impl-too_far n s p k pos small word heap limit stack =
    let a = s.system_break - 4 * k - 4 in
    let nonzero : ((2 ^ 32 - 4 * k) == 0) ≡ false = ground arith in
    let high : ltb a s.system_break_base ≡ false = ground arith in
    rw (nonzero, align_increment-negative k pos small)
      (rw (end_of_increment-negative s.system_break k word (omega arith) small, sbrk_aligned)
        (rw (high, check_brk-below s p a (omega arith) (omega arith)) refl))
