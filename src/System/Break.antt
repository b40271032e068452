-- ===== src/System/Break.antt =====
-- The heap's end across the handling of an exception (src/emulator/system_vemix.cpp).
use vemips.Base.{
  ℕ, ◌≤◌, ◌≡◌, refl, ◌⊎◌, inl, inr, Bool, true, false, ◌==◌, Bool-cases, Option-cases, if_both, ltb,
  ltb-false, sub32,
}
use vemips.Processor.Options.{Exception}
use vemips.Processor.{Processor, Outcome, get_register}
use vemips.System.Calls.{
  handle_syscall, handle_unknown_syscall, exit_call, set_tid_address, fail_unless, handle_exception,
}
use vemips.System.Dispatch.{handle_syscall_cases, handle_exception_cases}
use vemips.System.Vemix.{
  check_brk, brk_impl, sbrk_impl, sbrk_aligned, break_done, sbrk_done, align_word, align_increment,
  end_of_increment,
}
use vemips.System.Output.{SameMemory, writev-SameBreak}
use vemips.System.{System, Numbers}

-- The heap's end stays, or lies in the data segment and does not pass the stack pointer.
abbrev pub IsBroken : System → Processor → System → Type 0
IsBroken s p s' =
    ((s'.system_break ≡ s.system_break)
      ⊎ ((s'.system_break ≤ sub32 s.total_memory s.stack_memory)
          × (s'.system_break ≤ get_register p 29)))
    × SameMemory s s'

check_brk-bounds :
    (s : System) (p : Processor) (a : ℕ)
    → check_brk s p a ≡ true
    → (a ≤ sub32 s.total_memory s.stack_memory) × (a ≤ get_register p 29)
unfolding check_brk
check_brk-bounds s p a h =
    let limit = sub32 s.total_memory s.stack_memory in
    elim (Bool-cases (ltb limit a)) [
      | inl above ↦ absurd (cc (rw above at h))
      | inr below ↦ elim (Bool-cases (ltb (get_register p 29) a)) [
        | inl past ↦ absurd (cc (rw past at (rw below at h)))
        | inr within ↦ (ltb-false limit a below, ltb-false (get_register p 29) a within)
      ]
    ]

brk_impl-IsBroken :
    (n : Numbers) (s : System) (p : Processor) (a : ℕ) → IsBroken s p (brk_impl n s p a).0
unfolding brk_impl
brk_impl-IsBroken n s p a = elim (Bool-cases (a == 0)) [
  | inl ask ↦ rw ask (inl refl, (refl, refl, refl))
  | inr move ↦ elim (Bool-cases (check_brk s p (align_word a))) [
    | inl fits ↦
        rw move (rw fits (inr (check_brk-bounds s p (align_word a) fits), (refl, refl, refl)))
    | inr past ↦ rw move (rw past (inl refl, (refl, refl, refl)))
  ]
]

sbrk_aligned-IsBroken :
    (n : Numbers) (s : System) (p : Processor) (i : ℕ) → IsBroken s p (sbrk_aligned n s p i).0
unfolding sbrk_aligned
sbrk_aligned-IsBroken n s p i = elim (Option-cases (end_of_increment s.system_break i)) [
  | inl out ↦ rw (out, sbrk_aligned) (inl refl, (refl, refl, refl))
  | inr (a, sum) ↦ elim (Bool-cases (ltb a s.system_break_base)) [
    | inl low ↦ rw (sum, sbrk_aligned) (rw low (inl refl, (refl, refl, refl)))
    | inr high ↦ elim (Bool-cases (check_brk s p a)) [
      | inl fits ↦
          rw (sum, sbrk_aligned)
            (rw high (rw fits (inr (check_brk-bounds s p a fits), (refl, refl, refl))))
      | inr past ↦ rw (sum, sbrk_aligned) (rw high (rw past (inl refl, (refl, refl, refl))))
    ]
  ]
]

stays : (s : System) (p : Processor) → IsBroken s p s
stays s p = (inl refl, (refl, refl, refl))

-- The same of what a handler gives.
abbrev pub Breaks : System → Processor → System × Outcome (ℕ × Processor) → Type 0
Breaks s p r = IsBroken s p r.0

sbrk-IsBroken :
    (n : Numbers) (flagged : Bool) (s : System) (p : Processor) (i : ℕ)
    → IsBroken s p (sbrk_done flagged s p (sbrk_impl n s p i)).0
unfolding sbrk_impl sbrk_done break_done
sbrk-IsBroken n flagged s p i = elim (Bool-cases (i == 0)) [
  | inl ask ↦ rw ask (stays s p)
  | inr move ↦ elim (Option-cases (align_increment i)) [
    | inl over ↦ rw move (rw (over, sbrk_done) (stays s p))
    | inr (aligned, is_aligned) ↦
        rw move (rw (is_aligned, sbrk_done) (sbrk_aligned-IsBroken n s p aligned))
  ]
]

handle_syscall-Breaks :
    (n : Numbers) (s : System) (p : Processor) → Breaks s p (handle_syscall n s p)
unfolding break_done set_tid_address exit_call handle_unknown_syscall
handle_syscall-Breaks n s p =
    handle_syscall_cases (Breaks s p) n s p (stays s p) (stays s p)
      (brk_impl-IsBroken n s p (get_register p 4)) (brk_impl-IsBroken n s p (get_register p 4))
      (sbrk-IsBroken n false s p (get_register p 4)) (sbrk-IsBroken n true s p (get_register p 4))
      (let f = writev-SameBreak n s p in (inl f.0, f.1))
      (if_both (Breaks s p) s.uses_jit (stays s p) (stays s p)) (stays s p) (stays s p) (stays s p)
      (if_both (Breaks s p) s.uses_jit (stays s p) (stays s p))

-- Handling an exception, a system call or another, leaves the sizes of the memory and of the stack
-- and the base of the heap, and leaves the heap's end where it was, or inside the data segment and
-- not past the stack pointer.
pub handle_exception-break :
    (n : Numbers) (s : System) (e : Exception) (p : Processor)
    → (((handle_exception n s e p).0.system_break ≡ s.system_break)
        ⊎ (((handle_exception n s e p).0.system_break ≤ sub32 s.total_memory s.stack_memory)
            × ((handle_exception n s e p).0.system_break ≤ get_register p 29)))
      × ((handle_exception n s e p).0.total_memory ≡ s.total_memory)
      × ((handle_exception n s e p).0.stack_memory ≡ s.stack_memory)
      × ((handle_exception n s e p).0.system_break_base ≡ s.system_break_base)
unfolding fail_unless
handle_exception-break n s e p =
    let f =
      handle_exception_cases (Breaks s p) n s p e (handle_syscall-Breaks n s p) (stays s p)
        (if_both (Breaks s p) s.in_jit (stays s p) (stays s p)) (stays s p) in
    (f.0, f.1.0, f.1.1, f.1.2)
