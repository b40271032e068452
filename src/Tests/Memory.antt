-- ===== src/Tests/Memory.antt =====
-- Loads and stores (src/mips/processor/processor.hpp) of the small processor.
use vemips.Base.{◌<◌, ◌≤◌, ◌+◌, ℕ, ◌≡◌, ◌⊎◌, inr, refl, arith, false, some, [], ◌∷◌}
use vemips.Processor.Options.{Mmu, MemorySource, ExceptionType, cpu_exception}
use vemips.Processor.{Processor, done, thrown}
use vemips.Memory.{mem_write, mem_fetch, zero_check_address, read_bytes, store_at}
use vemips.Memory.Source.{write_at, is_writable}
use vemips.Memory.Access.{
  HoldsZero, IsWritable, offset, mem_write-then-mem_fetch, mem_write-apart, mem_fetch-faults,
  write_at-past_block,
}
use vemips.Memory.Faults.{mem_write-reports_next}
use vemips.Tests.State.{start, small_config}

start-IsWritable : IsWritable Mmu.none 4 32 start
unfolding zero_check_address
start-IsWritable = (refl, omega arith)

mem_write-then-mem_fetch_example :
    (q : Processor) × (mem_write 4 32 0xdeadbeef start ≡ done q)
    × (mem_fetch 4 32 q ≡ done 0xdeadbeef)
mem_write-then-mem_fetch_example =
    mem_write-then-mem_fetch 4 32 0xdeadbeef start start-IsWritable (omega arith)

abbrev written : Processor
written = store_at 288 32 4 0xdeadbeef start

written_by : mem_write 4 32 0xdeadbeef start ≡ done written
unfolding mem_write
written_by = refl

zero_word : mem_fetch 4 36 start ≡ done 0
unfolding mem_fetch
zero_word = refl

mem_write-apart_example : mem_fetch 4 36 written ≡ done 0
mem_write-apart_example =
    mem_write-apart 4 32 0xdeadbeef 4 36 0 start written (ground arith) written_by
      (inr (omega arith)) zero_word

mem_fetch-faults_example :
    (¬ HoldsZero 4 5000
      × (offset 5000 start + 4 ≤ start.config.memory_size)
      × (mem_fetch 4 5000 start ≡ done (read_bytes start.memory (offset 5000 start) 4)))
    ⊎ ((HoldsZero 4 5000 ⊎ (start.config.memory_size < offset 5000 start + 4))
        × ((code : ℕ) × (mem_fetch 4 5000 start
              ≡ thrown (cpu_exception ExceptionType.ad_el 0x100 code) start)))
mem_fetch-faults_example =
    mem_fetch-faults 4 5000 start refl (omega arith) (omega arith) (omega arith)

-- A block of code at 64 to 127.
abbrev guarded : MemorySource
guarded = record (small_config.memory_source) { executable_blocks = (64, 128) ∷ [] }

write_at-past_block_example :
    (write_at guarded 126 4 ≡ some 126) × (is_writable guarded 126 ≡ false)
write_at-past_block_example =
    write_at-past_block guarded 64 128 126 4 refl (omega arith) (omega arith) (omega arith)
      (omega arith) (omega arith)

far : ¬ HoldsZero 4 5000
far (k, below, at_zero) = absurd (omega arith)

mem_write-reports_next_example :
    mem_write 4 5000 7 start ≡ thrown (cpu_exception ExceptionType.ad_es 0x100 5257) start
mem_write-reports_next_example =
    mem_write-reports_next 4 5000 7 start refl (omega arith) (omega arith) (omega arith) far
      (omega arith) (omega arith) (omega arith)
