-- ===== src/System/Vemix.antt =====
-- `system_vemix::handle_exception` and the system calls (src/emulator/system_vemix.cpp). What is
-- printed for the developer is left out.
use vemips.Base.{
  ℕ, ◌+◌, ◌-◌, ◌*◌, ◌/◌, ◌^◌, Bool, true, false, not, ◌||◌, Option, none, some, ltb, leb, ◌==◌,
  if◌then◌else◌, u32, sub32,
}
use vemips.Processor.{Processor, Outcome, done, undefined, set_register, get_register}
use vemips.System.Writev.{set_syscall_result}
use vemips.System.{System, Numbers}

abbrev pub vemips_syscall_flag : ℕ
vemips_syscall_flag = 2 ^ 31

unfoldable pub set_syscall_result_vemips : Bool → ℕ → ℕ → Processor → Processor
unfolding set_register
set_syscall_result_vemips success result0 result1 p =
    set_register (set_register p 2 result0) 7 (if success then result1 else sub32 0 result1)

-- `check_brk`.
unfoldable pub check_brk : System → Processor → ℕ → Bool
unfolding get_register
check_brk s p address =
    if ltb (sub32 s.total_memory s.stack_memory) address
    then false
    else if ltb (get_register p 29) address
    then false
    else true

-- `std::expected<uptr_guest, int32>`.
pub data Expected : Type 0 where
  value unexpected : ℕ → Expected

-- `align<4>` of an unsigned word.
unfoldable pub align_word : ℕ → ℕ
align_word x = u32 (x + 3) / 4 * 4

unfoldable pub brk_impl : Numbers → System → Processor → ℕ → System × ℕ × Expected
unfolding align_word check_brk
brk_impl n s p end_address =
    if end_address == 0
    then (s, s.system_break, value 0)
    else if check_brk s p (align_word end_address)
    then (record s { system_break = align_word end_address }, align_word end_address, value 0)
    else (s, s.system_break, unexpected n.enomem)

-- `align<4>` of an int32 by its pattern: away from zero by 3 and then down to a multiple of 4;
-- `none` where the sum overflows.
unfoldable pub align_increment : ℕ → Option ℕ
align_increment i =
    if ltb i (2 ^ 31)
    then if ltb (i + 3) (2 ^ 31) then some ((i + 3) / 4 * 4) else none
    else if leb (2 ^ 31) (i - 3)
    then some ((i - 3) / 4 * 4)
    else none

-- `uint64(system_break) + increment`, where it fits a guest pointer.
unfoldable pub end_of_increment : ℕ → ℕ → Option ℕ
end_of_increment system_break increment =
    if ltb increment (2 ^ 31)
    then if ltb (system_break + increment) (2 ^ 32) then some (system_break + increment) else none
    else if ltb (system_break + increment) (2 ^ 32)
    then none
    else some (system_break + increment - 2 ^ 32)

unfoldable pub sbrk_aligned : Numbers → System → Processor → ℕ → System × ℕ × Expected
unfolding end_of_increment check_brk
sbrk_aligned n s p increment = elim (end_of_increment s.system_break increment) [
  | none ↦ (s, s.system_break, unexpected n.enomem)
  | some end_address ↦
      if ltb end_address s.system_break_base || not (check_brk s p end_address)
      then (s, s.system_break, unexpected n.enomem)
      else (record s { system_break = end_address }, s.system_break, value increment)
]

-- `none` is a signed overflow.
unfoldable pub sbrk_impl : Numbers → System → Processor → ℕ → Option (System × ℕ × Expected)
unfolding align_increment sbrk_aligned
sbrk_impl n s p increment =
    if increment == 0 then some (s, s.system_break, value 0) else elim (align_increment increment) [
      | none ↦ none
      | some aligned ↦ some (sbrk_aligned n s p aligned)
    ]

-- The registers after `brk` and `sbrk`; the flag is that of the call's number.
unfoldable pub break_registers : Bool → ℕ → Expected → Processor → Processor
unfolding set_syscall_result set_syscall_result_vemips
break_registers flagged result0 (value result1) p =
    if flagged
    then set_syscall_result_vemips true result0 result1 p
    else set_syscall_result true result0 p
break_registers flagged result0 (unexpected error) p =
    if flagged
    then set_syscall_result_vemips false result0 error p
    else set_syscall_result false error p

unfoldable pub break_done :
    Bool → Processor → System × ℕ × Expected → System × Outcome (ℕ × Processor)
unfolding break_registers
break_done flagged p (s, result0, result1) =
    (s, done (0, break_registers flagged result0 result1 p))

unfoldable pub sbrk_done :
    Bool → System → Processor → Option (System × ℕ × Expected) → System × Outcome (ℕ × Processor)
unfolding break_done
sbrk_done flagged s p none = (s, undefined)
sbrk_done flagged s p (some result) = break_done flagged p result
