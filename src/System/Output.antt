-- ===== src/System/Output.antt =====
-- `writev` leaves the heap's end and the memory's bounds alone (src/emulator/system_vemix.cpp).
use vemips.Base.{
  ℕ, zero, suc, ◌≡◌, refl, ◌∙◌, Bool, true, false, ◌||◌, if_both, ltb, add32, ◌/◌, ◌-◌, ◌+◌, ◌%◌,
  ◌^◌,
}
use vemips.Memory.{Fetched, fetched, unreadable, wild, try_mem_fetch_except}
use vemips.Processor.{Processor, Outcome, undefined, get_register}
use vemips.System.Writev.{
  Written, written, stray, emit, write_chunks, write_buffer, write_buffers, writev,
  set_syscall_result, finish,
}
use vemips.System.{System, Numbers}

-- What no handling changes, but for the heap's end.
abbrev pub SameMemory : System → System → Type 0
SameMemory s s' =
    (s'.total_memory ≡ s.total_memory)
    × (s'.stack_memory ≡ s.stack_memory)
    × (s'.system_break_base ≡ s.system_break_base)

abbrev pub SameBreak : System → System → Type 0
SameBreak s s' = (s'.system_break ≡ s.system_break) × SameMemory s s'

-- A loop of `writev` leaves the memory's bounds alone.
abbrev IsWritten : System → Written → Type 0
IsWritten s (written s' offset faulted) = SameBreak s s'
IsWritten s stray = Unit {0}

same_then : (s t u : System) → SameBreak s t → SameBreak t u → SameBreak s u
same_then s t u f g = (g.0 ∙ f.0, (g.1.0 ∙ f.1.0, g.1.1 ∙ f.1.1, g.1.2 ∙ f.1.2))

emit-SameBreak : (fd size value : ℕ) (s : System) → SameBreak s (emit fd size value s)
unfolding emit
emit-SameBreak fd size value s =
    if_both (SameBreak s) s.silent (refl, (refl, refl, refl)) (refl, (refl, refl, refl))

written_then : (s t : System) (w : Written) → SameBreak s t → IsWritten t w → IsWritten s w
written_then s t (written u offset faulted) f g = same_then s t u f g
written_then s t stray f g = tt

write_chunks-IsWritten :
    (rounds size fd base offset : ℕ) (p : Processor) (s : System)
    → IsWritten s (write_chunks rounds size fd base offset p s)
unfolding write_chunks
write_chunks-IsWritten zero size fd base offset p s = (refl, (refl, refl, refl))
write_chunks-IsWritten (suc rounds) size fd base offset p s =
    after (try_mem_fetch_except false size (add32 base offset) p)
      λ value. write_chunks-IsWritten rounds size fd base (offset + size) p (emit fd size value s)
  where
    after :
        (f : Fetched)
        → ((value : ℕ)
            → IsWritten
                (emit fd size value s)
                (write_chunks rounds size fd base (offset + size) p (emit fd size value s)))
        → IsWritten s (elim f [
          | fetched value ↦
              write_chunks rounds size fd base (offset + size) p (emit fd size value s)
          | unreadable a ↦ written s offset true
          | wild ↦ stray
        ])
    after (fetched value) later =
        written_then s (emit fd size value s) _ (emit-SameBreak fd size value s) (later value)
    after (unreadable a) later = (refl, (refl, refl, refl))
    after wild later = tt

write_buffer-IsWritten :
    (fd base len : ℕ) (p : Processor) (s : System) → IsWritten s (write_buffer fd base len p s)
unfolding write_buffer
write_buffer-IsWritten fd base len p s =
    after (write_chunks (len / 8) 8 fd base 0 p s)
      (write_chunks-IsWritten (len / 8) 8 fd base 0 p s)
  where
    bytes :
        (t : System) (faulted : Bool) (w : Written)
        → SameBreak s t
        → IsWritten t w
        → IsWritten s (elim w [
          | written u end faulted' ↦ written u end (faulted || faulted')
          | stray ↦ stray
        ])
    bytes t faulted (written u end faulted') f g = same_then s t u f g
    bytes t faulted stray f g = tt

    after :
        (w : Written)
        → IsWritten s w
        → IsWritten s (elim w [
          | written s' offset faulted ↦ elim (write_chunks (len - offset) 1 fd base offset p s') [
            | written s'' end faulted' ↦ written s'' end (faulted || faulted')
            | stray ↦ stray
          ]
          | stray ↦ stray
        ])
    after (written t offset faulted) f =
        bytes t faulted _ f (write_chunks-IsWritten (len - offset) 1 fd base offset p t)
    after stray f = tt

abbrev Keeps : System → System × Outcome (ℕ × Processor) → Type 0
Keeps s r = SameBreak s r.0

write_buffers-SameBreak :
    (n : Numbers) (count fd iov_ptr total : ℕ) (s : System) (p : Processor)
    → SameBreak s (write_buffers n count fd iov_ptr total s p).0
unfolding write_buffers
write_buffers-SameBreak n zero fd iov_ptr total s p = (refl, (refl, refl, refl))
write_buffers-SameBreak n (suc count) fd iov_ptr total s p =
    after (try_mem_fetch_except false 8 iov_ptr p)
      λ len t. write_buffers-SameBreak n count fd (add32 iov_ptr 8) (add32 total len) t p
  where
    buffer :
        (len : ℕ) (w : Written)
        → ((t : System)
            → SameBreak t (write_buffers n count fd (add32 iov_ptr 8) (add32 total len) t p).0)
        → IsWritten s w
        → Keeps s (elim w [
          | written s' offset false ↦
              write_buffers n count fd (add32 iov_ptr 8) (add32 total len) s' p
          | written s' offset true ↦ finish s' (set_syscall_result false n.efault p)
          | stray ↦ (s, undefined)
        ])
    buffer len (written t offset false) later f =
        same_then s t (write_buffers n count fd (add32 iov_ptr 8) (add32 total len) t p).0 f
          (later t)
    buffer len (written t offset true) later f = f
    buffer len stray later f = (refl, (refl, refl, refl))

    after :
        (f : Fetched)
        → ((len : ℕ) (t : System)
            → SameBreak t (write_buffers n count fd (add32 iov_ptr 8) (add32 total len) t p).0)
        → Keeps s (elim f [
          | fetched iovec ↦
              let base = iovec % 2 ^ 32 in
              let len = iovec / 2 ^ 32 % 2 ^ 32 in
              elim (write_buffer fd base len p s) [
                | written s' offset false ↦
                    write_buffers n count fd (add32 iov_ptr 8) (add32 total len) s' p
                | written s' offset true ↦ finish s' (set_syscall_result false n.efault p)
                | stray ↦ (s, undefined)
              ]
          | unreadable a ↦ finish s (set_syscall_result false n.efault p)
          | wild ↦ (s, undefined)
        ])
    after (fetched iovec) later =
        buffer (iovec / 2 ^ 32 % 2 ^ 32)
          (write_buffer fd (iovec % 2 ^ 32) (iovec / 2 ^ 32 % 2 ^ 32) p s)
          (later (iovec / 2 ^ 32 % 2 ^ 32))
          (write_buffer-IsWritten fd (iovec % 2 ^ 32) (iovec / 2 ^ 32 % 2 ^ 32) p s)
    after (unreadable a) later = (refl, (refl, refl, refl))
    after wild later = (refl, (refl, refl, refl))

pub writev-SameBreak : (n : Numbers) (s : System) (p : Processor) → SameBreak s (writev n s p).0
unfolding writev
writev-SameBreak n s p =
    if_both {A = System × Outcome (ℕ × Processor)} (λ r. SameBreak s r.0) (ltb 2 (get_register p 4))
      (refl, (refl, refl, refl))
      (write_buffers-SameBreak n (get_register p 6) (get_register p 4) (get_register p 5) 0 s p)
