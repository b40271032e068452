-- ===== src/Memory/Faults.antt =====
-- The address errors of stores (`try_mem_write_except` and `mem_write` of
-- src/mips/processor/processor.hpp).
use vemips.Base.{ℕ, zero, suc, ◌+◌, ◌^◌, ◌≤◌, ◌<◌, ◌≡◌, arith, false}
use vemips.Processor.Options.{Mmu, ExceptionType, cpu_exception}
use vemips.Processor.{Processor, thrown}
use vemips.Memory.{
  zero_check_address, first_out_of_range, store_error, write_by, try_mem_write_except, mem_write,
  unwritable,
}
use vemips.Memory.Access.{offset, HoldsZero, zero_check-false}

store_error-next :
    (p : Processor) (size a : ℕ)
    → 0 < size
    → a + 1 + p.config.stack_size < 2 ^ 32
    → p.config.memory_size ≤ a + 1 + p.config.stack_size
    → store_error p size a ≡ a + 1
unfolding store_error first_out_of_range
store_error-next p zero a some_byte word out = absurd (omega arith)
store_error-next p (suc size) a some_byte word out = ground arith

write_none :
    (p : Processor) (size address value : ℕ)
    → zero_check_address size address ≡ false
    → p.config.memory_size < offset address p + size
    → write_by Mmu.none size address value p ≡ unwritable (store_error p size (offset address p)) p
unfolding write_by
write_none p size address value nonzero out = ground arith

-- Without an MMU, take a store of 1 to 2 ^ 31 - 1 bytes, none of them at address 0, that ends outside
-- the memory. Where the offset behind its first byte, with the stack's size added a second time, does
-- not wrap and is out of range, the store raises the address error at the program counter with the
-- offset behind its first byte, whichever byte of it is the first outside, and changes nothing.
pub mem_write-reports_next :
    (size address value : ℕ) (p : Processor)
    → p.config.mmu_type ≡ Mmu.none
    → address < 2 ^ 32
    → 0 < size
    → size < 2 ^ 31
    → ¬ HoldsZero size address
    → p.config.memory_size < offset address p + size
    → offset address p + 1 + p.config.stack_size < 2 ^ 32
    → p.config.memory_size ≤ offset address p + 1 + p.config.stack_size
    → mem_write size address value p
      ≡ thrown (cpu_exception ExceptionType.ad_es p.program_counter (offset address p + 1)) p
unfolding mem_write try_mem_write_except
mem_write-reports_next size address value p none word some_byte small clear out fits next = ground (
  arith,
  write_none p size address value (zero_check-false size address word some_byte small clear) out,
  store_error-next p size (offset address p) some_byte fits next,
)
