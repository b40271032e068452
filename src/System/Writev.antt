-- ===== src/System/Writev.antt =====
-- The system call `writev` (src/emulator/system_vemix.cpp).
use vemips.Base.{
  ℕ, zero, suc, ◌+◌, ◌-◌, ◌/◌, ◌%◌, ◌^◌, Bool, true, false, ◌||◌, ◌∷◌, ltb, if◌then◌else◌, add32,
}
use vemips.Memory.{fetched, unreadable, wild, try_mem_fetch_except}
use vemips.Processor.{Processor, Outcome, done, undefined, set_register, get_register}
use vemips.System.{System, Numbers}

-- `set_syscall_result`.
unfoldable pub set_syscall_result : Bool → ℕ → Processor → Processor
unfolding set_register
set_syscall_result success result p =
    set_register (set_register p 2 result) 7 (if success then 0 else 1)

-- What a loop leaves: the system with its output, the offset, and whether it has faulted; `stray` is
-- an access through a wild pointer.
pub data Written : Type 0 where
  written : System → ℕ → Bool → Written
  stray : Written

-- `fwrite`, unless the system is silent.
unfoldable pub emit : ℕ → ℕ → ℕ → System → System
emit fd size value s = if s.silent then s else record s { output = (fd, size, value) ∷ s.output }

-- A loop over the buffer in steps of `size` bytes, for the rounds that are left.
unfoldable pub write_chunks : ℕ → ℕ → ℕ → ℕ → ℕ → Processor → System → Written
unfolding emit
write_chunks zero size fd base offset p s = written s offset false
write_chunks (suc rounds) size fd base offset p s =
    elim (try_mem_fetch_except false size (add32 base offset) p) [
      | fetched value ↦ write_chunks rounds size fd base (offset + size) p (emit fd size value s)
      | unreadable a ↦ written s offset true
      | wild ↦ stray
    ]

-- The two loops over one buffer: words of 8 bytes, then single bytes from where the first ended, also
-- after a fault.
unfoldable pub write_buffer : ℕ → ℕ → ℕ → Processor → System → Written
unfolding write_chunks
write_buffer fd base len p s = elim (write_chunks (len / 8) 8 fd base 0 p s) [
  | written s' offset faulted ↦ elim (write_chunks (len - offset) 1 fd base offset p s') [
    | written s'' end faulted' ↦ written s'' end (faulted || faulted')
    | stray ↦ stray
  ]
  | stray ↦ stray
]

abbrev pub finish : System → Processor → System × Outcome (ℕ × Processor)
finish s p = (s, done (0, p))

-- The loop over the buffers; the number of the bytes is summed up as a word.
unfoldable pub write_buffers :
    Numbers → ℕ → ℕ → ℕ → ℕ → System → Processor → System × Outcome (ℕ × Processor)
unfolding set_syscall_result write_buffer
write_buffers n zero fd iov_ptr total s p = finish s (set_syscall_result true total p)
write_buffers n (suc count) fd iov_ptr total s p = elim (try_mem_fetch_except false 8 iov_ptr p) [
  | fetched iovec ↦
      let base = iovec % 2 ^ 32 in
      let len = iovec / 2 ^ 32 % 2 ^ 32 in
      elim (write_buffer fd base len p s) [
        | written s' offset false ↦
            write_buffers n count fd (add32 iov_ptr 8) (add32 total len) s' p
        | written s' offset true ↦ finish s' (set_syscall_result false n.efault p)
        | stray ↦ (s, undefined)
      ]
  | unreadable a ↦ finish s (set_syscall_result false n.efault p)
  | wild ↦ (s, undefined)
]

unfoldable pub writev : Numbers → System → Processor → System × Outcome (ℕ × Processor)
unfolding set_syscall_result write_buffers get_register
writev n s p =
    let fd = get_register p 4 in
    if ltb 2 fd
    then finish s (set_syscall_result false n.ebadf p)
    else write_buffers n (get_register p 6) fd (get_register p 5) 0 s p
