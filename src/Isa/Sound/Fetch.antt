-- ===== src/Isa/Sound/Fetch.antt =====
-- `mem_fetch` of src/mips/processor/processor.hpp on sound states.
use vemips.Base.{ℕ, ◌+◌, ◌^◌, ◌<◌, ◌≡◌, refl, if_both, false, leb, add32, Option, none, some}
use vemips.Processor.Options.{Mmu, ExceptionType, cpu_exception}
use vemips.Processor.{Processor, Outcome, done, thrown, undefined}
use vemips.Memory.{
  Fetched, fetched, unreadable, wild, zero_check_address, fetch_by, fetch_emulated, read_source,
  try_mem_fetch_except, mem_fetch,
}
use vemips.Memory.Source.{at}
use vemips.Memory.Bytes.{read_bytes-lt}
use vemips.Isa.Sound.{IsSound}

-- A load gives a value of its size, and an exception of it leaves the state.
abbrev IsBounded : ℕ → Fetched → Type 0
IsBounded size (fetched v) = v < 256 ^ size
IsBounded size _ = Unit {0}

abbrev pub IsLoad : ℕ → Processor → Outcome ℕ → Type 0
IsLoad n p (done v) = v < n
IsLoad n p (thrown e q) = q ≡ p
IsLoad n p undefined = Unit {0}

fetch_emulated-IsBounded :
    (found : Option ℕ) (size a : ℕ) (p : Processor)
    → IsSound p
    → IsBounded size (fetch_emulated found p false size a)
unfolding fetch_emulated read_source
fetch_emulated-IsBounded none size a p s = tt
fetch_emulated-IsBounded (some _) size a p s = read_bytes-lt size p.memory a s.1

host-IsBounded :
    (fault : Option ℕ) (size v : ℕ)
    → v < 256 ^ size
    → IsBounded size (elim fault [ none ↦ fetched v | some a ↦ unreadable a ])
host-IsBounded none size v fits = fits
host-IsBounded (some a) size v fits = tt

fetch_by-IsBounded :
    (t : Mmu) (size address : ℕ) (p : Processor)
    → IsSound p
    → IsBounded size (fetch_by t false size address p)
unfolding fetch_by
fetch_by-IsBounded Mmu.host size address p s =
    host-IsBounded (p.config.host_mmu.read_fault address size) size _
      (read_bytes-lt size p.memory address s.1)
fetch_by-IsBounded Mmu.emulated size address p s =
    let a = add32 address p.config.stack_size in
    if_both (IsBounded size) (zero_check_address size address) tt
      (fetch_emulated-IsBounded (at p.config.memory_source a size) size a p s)
fetch_by-IsBounded Mmu.none size address p s =
    let a = add32 address p.config.stack_size in
    if_both (IsBounded size) (zero_check_address size address) tt (
      if_both (IsBounded size) (leb (a + size) p.config.memory_size)
        (read_bytes-lt size p.memory a s.1) tt)

pub mem_fetch-IsLoad :
    (size address : ℕ) (p : Processor)
    → IsSound p
    → IsLoad (256 ^ size) p (mem_fetch size address p)
unfolding mem_fetch try_mem_fetch_except
mem_fetch-IsLoad size address p s =
    outcome (fetch_by p.config.mmu_type false size address p)
      (fetch_by-IsBounded p.config.mmu_type size address p s)
  where
    outcome :
        (f : Fetched)
        → IsBounded size f
        → IsLoad (256 ^ size) p (elim f [
          | fetched v ↦ done v
          | unreadable a ↦ thrown (cpu_exception ExceptionType.ad_el p.program_counter a) p
          | wild ↦ undefined
        ])
    outcome (fetched v) b = b
    outcome (unreadable a) b = refl
    outcome wild b = tt
