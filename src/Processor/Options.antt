-- ===== src/Processor/Options.antt =====
-- The options of a processor (src/mips/mmu.hpp, src/mips/llsc.hpp, src/mips/exception.hpp and the
-- const members of `processor` in src/mips/processor/processor.hpp).
use vemips.Base.{ℕ, Bool, List}
use mathlib.Core.Option.{Option}

pub data Mmu : Type 0 where
  emulated host none : Mmu

pub data Llsc : Type 0 where
  fine coarse none : Llsc

pub data MisalignedAddressHandling : Type 0 where
  exception align keep : MisalignedAddressHandling

-- `CPU_Exception::Type`; `modified` is `Mod`.
pub data ExceptionType : Type 0 where
  interrupt modified tlb_l tlb_s ad_el ad_es ibe dbe sys bp ri cp_u ov tr fpe : ExceptionType
  impl1 impl2 c2e tlb_ri tlb_xi mdmx watch m_check thread dpsp_dis ge prot cache_err : ExceptionType
  internal_flow : ExceptionType

-- What can be thrown through `processor::execute`: a `CPU_Exception` with its instruction address
-- and its code, or the end of execution.
pub data Exception : Type 0 where
  cpu_exception : ExceptionType → ℕ → ℕ → Exception
  execution_complete : ℕ → Exception
  execution_fail : Exception

-- The state of `sys_memory_source` (src/mips/system.cpp) but for its bytes.
pub record MemorySource : Type 0 where
  pub size : ℕ
  pub with_shadow_memory : Bool
  pub executable_blocks : List (ℕ × ℕ)

-- The host's `memcpy` under its structured exception handler, which is not code of the emulator:
-- the address reported by a read that faults, and the bytes and address that a write leaves.
pub record HostMmu : Type 0 where
  pub read_fault : ℕ → ℕ → Option ℕ
  pub write : (ℕ → ℕ) → ℕ → ℕ → ℕ → ℕ → ℕ
  pub write_fault : ℕ → ℕ → Option ℕ

-- The members that the constructor sets and nothing changes.
pub record Config : Type 0 where
  pub memory_size : ℕ
  pub stack_size : ℕ
  pub memory_source : MemorySource
  pub host_mmu : HostMmu
  pub llsc_type : Llsc
  pub mmu_type : Mmu
  pub has_shadow_memory : Bool
  pub ticked : Bool
  pub handles_instruction_hazards : Bool
  pub misaligned_address_handling : MisalignedAddressHandling
