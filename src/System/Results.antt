-- ===== src/System/Results.antt =====
-- The registers that the system calls write hold words (src/emulator/system_vemix.cpp).
use vemips.Base.{
  ℕ, ◌^◌, ◌<◌, ◌≡◌, inl, inr, Bool, true, false, ◌||◌, not, some, ◌==◌, if◌then◌else◌, if_both,
  Bool-cases, Option-cases, ltb, sub32, arith,
}
use vemips.Isa.Sound.System.{IsHandled}
use vemips.Isa.Sound.{IsSound, Follows, then-Follows, set_register-Follows}
use vemips.Processor.{Processor, Outcome, set_register}
use vemips.System.Vemix.{
  brk_impl, sbrk_impl, sbrk_aligned, break_done, sbrk_done, break_registers, align_word,
  align_increment, set_syscall_result_vemips, check_brk, end_of_increment, Expected, value,
  unexpected,
}
use vemips.System.Writev.{set_syscall_result}
use vemips.System.{System, Numbers}

-- The host's error numbers are words.
abbrev pub HasWordErrors : Numbers → Type 0
HasWordErrors n =
    (n.enosys < 2 ^ 32) × (n.enomem < 2 ^ 32) × (n.ebadf < 2 ^ 32) × (n.efault < 2 ^ 32)

-- What a handler gives leaves a sound state of the same run and a word.
abbrev pub Keeps : Processor → System × Outcome (ℕ × Processor) → Type 0
Keeps p r = IsHandled p r.1

pub set_syscall_result-Follows :
    (success : Bool) (result : ℕ) (p : Processor)
    → IsSound p
    → result < 2 ^ 32
    → Follows p (set_syscall_result success result p)
unfolding set_syscall_result
set_syscall_result-Follows success result p s fits =
    let f = set_register-Follows p 2 result s fits in
    let code : ℕ = if success then 0 else 1 in
    then-Follows p (set_register p 2 result) (set_register (set_register p 2 result) 7 code) f
      (set_register-Follows (set_register p 2 result) 7 code f.0 (ground arith))

set_syscall_result_vemips-Follows :
    (success : Bool) (result0 result1 : ℕ) (p : Processor)
    → IsSound p
    → result0 < 2 ^ 32
    → result1 < 2 ^ 32
    → Follows p (set_syscall_result_vemips success result0 result1 p)
unfolding set_syscall_result_vemips
set_syscall_result_vemips-Follows success result0 result1 p s fits fits' =
    let f = set_register-Follows p 2 result0 s fits in
    let code : ℕ = if success then result1 else sub32 0 result1 in
    then-Follows p (set_register p 2 result0) (set_register (set_register p 2 result0) 7 code) f (
      set_register-Follows (set_register p 2 result0) 7 code f.0
        (if_both (λ v. v < 2 ^ 32) success fits' (omega arith)))

-- The results of `brk` and `sbrk` are words.
abbrev pub IsWordResult : Expected → Type 0
IsWordResult (value v) = v < 2 ^ 32
IsWordResult (unexpected e) = e < 2 ^ 32

pub break_registers-Follows :
    (flagged : Bool) (result0 : ℕ) (result1 : Expected) (p : Processor)
    → IsSound p
    → result0 < 2 ^ 32
    → IsWordResult result1
    → Follows p (break_registers flagged result0 result1 p)
unfolding break_registers
break_registers-Follows flagged result0 (value v) p s fits fits' =
    if_both (Follows p) flagged (set_syscall_result_vemips-Follows true result0 v p s fits fits')
      (set_syscall_result-Follows true result0 p s fits)
break_registers-Follows flagged result0 (unexpected e) p s fits fits' =
    if_both (Follows p) flagged (set_syscall_result_vemips-Follows false result0 e p s fits fits')
      (set_syscall_result-Follows false e p s fits')

-- A result of `brk_impl` or `sbrk_impl` in words.
abbrev pub HasWordResults : System × ℕ × Expected → Type 0
HasWordResults r = (r.1 < 2 ^ 32) × IsWordResult r.2

pub brk_impl-HasWordResults :
    (n : Numbers) (s : System) (p : Processor) (a : ℕ)
    → HasWordErrors n
    → s.system_break < 2 ^ 32
    → HasWordResults (brk_impl n s p a)
unfolding brk_impl align_word
brk_impl-HasWordResults n s p a errors fits =
    if_both HasWordResults (a == 0) (fits, omega arith)
      (if_both HasWordResults (check_brk s p (align_word a)) (omega arith, omega arith)
        (fits, errors.1))

sbrk_aligned-HasWordResults :
    (n : Numbers) (s : System) (p : Processor) (i : ℕ)
    → HasWordErrors n
    → s.system_break < 2 ^ 32
    → i < 2 ^ 32
    → HasWordResults (sbrk_aligned n s p i)
unfolding sbrk_aligned
sbrk_aligned-HasWordResults n s p i errors fits word =
    elim (Option-cases (end_of_increment s.system_break i)) [
      | inl out ↦ rw (out, sbrk_aligned) (fits, errors.1)
      | inr (a, sum) ↦
          rw (sum, sbrk_aligned)
            (if_both HasWordResults (ltb a s.system_break_base || not (check_brk s p a))
              (fits, errors.1) (fits, word))
    ]

align_increment-lt : (i a : ℕ) → i < 2 ^ 32 → align_increment i ≡ some a → a < 2 ^ 32
unfolding align_increment
align_increment-lt i a word h = ground arith

pub sbrk-Keeps :
    (n : Numbers) (flagged : Bool) (s : System) (p : Processor) (i : ℕ)
    → HasWordErrors n
    → s.system_break < 2 ^ 32
    → i < 2 ^ 32
    → IsSound p
    → Keeps p (sbrk_done flagged s p (sbrk_impl n s p i))
unfolding sbrk_impl sbrk_done break_done
sbrk-Keeps n flagged s p i errors fits word sound = elim (Bool-cases (i == 0)) [
  | inl ask ↦ rw ask (
    break_registers-Follows flagged s.system_break (value 0) p sound fits (omega arith),
    omega arith,
  )
  | inr move ↦ elim (Option-cases (align_increment i)) [
    | inl over ↦ rw move (rw (over, sbrk_done) tt)
    | inr (a, is_aligned) ↦
        let results =
          sbrk_aligned-HasWordResults n s p a errors fits
            (align_increment-lt i a word is_aligned) in
        let r = sbrk_aligned n s p a in
        rw move (
          rw (is_aligned, sbrk_done)
            (break_registers-Follows flagged r.1 r.2 p sound results.0 results.1, omega arith))
  ]
]
