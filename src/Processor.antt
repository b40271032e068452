-- ===== src/Processor.antt =====
-- The state of `processor` (src/mips/processor/processor.hpp and processor.cpp) and the members
-- that read and write single fields. Left out: the coprocessors, the JIT and the statistics.
pub mod Options
pub mod Registers
use vemips.Base.{ℕ, ◌==◌, if◌then◌else◌, Bool, true, false, ◌||◌, u32}
use Options.{Config, Exception, ExceptionType, cpu_exception}

-- `processor::flag`, a field for each bit.
pub record Flags : Type 0 where
  pub branch_delay : Bool
  pub no_cti : Bool
  pub trapped_exception : Bool
  pub pc_changed : Bool
  pub instruction_hazard : Bool
  pub instruction_hazard_delay_branch : Bool

abbrev pub no_flags : Flags
no_flags = record {
  branch_delay = false;
  no_cti = false;
  trapped_exception = false;
  pc_changed = false;
  instruction_hazard = false;
  instruction_hazard_delay_branch = false;
}

-- `memory` holds the guest's bytes by their offset from `memory_ptr_`, which is the guest address
-- plus the stack size unless the MMU is the host's.
pub record Processor : Type 0 where
  pub config : Config
  pub registers : ℕ → ℕ
  pub flags : Flags
  pub branch_target : ℕ
  pub program_counter : ℕ
  pub load_link : ℕ
  pub user_value : ℕ
  pub instruction_count : ℕ
  pub target_instructions : ℕ
  pub from_exception : Bool
  pub memory : ℕ → ℕ
  pub shadow_memory : ℕ → ℕ

-- The result of code that may throw: the state at the throw goes with the exception. `undefined`
-- is what C++ leaves undefined: a shift by the width, an overflowing division, a wild pointer.
pub data Outcome {ℓ} (A : Type ℓ) : Type ℓ where
  done : A → Outcome A
  thrown : Exception → Processor → Outcome A
  undefined : Outcome A

infixl 5 ◌>>=◌
abbrev pub ◌>>=◌ {ℓ κ} : {A : Type ℓ} {B : Type κ} → Outcome A → (A → Outcome B) → Outcome B
done a >>= f = f a
thrown e p >>= f = thrown e p
undefined >>= f = undefined

abbrev pub update {ℓ} : {A : Type ℓ} → (ℕ → A) → ℕ → A → ℕ → A
update f k v j = if k == j then v else f j

-- `get_register` of an unsigned word; register 0 reads as 0.
unfoldable pub get_register : Processor → ℕ → ℕ
get_register p idx = if idx == 0 then 0 else p.registers idx

unfoldable pub set_register : Processor → ℕ → ℕ → Processor
set_register p idx value =
    if idx == 0 then p else record p { registers = update p.registers idx value }

-- `set_program_counter<true>`.
unfoldable pub set_program_counter_flagged : Processor → ℕ → Processor
set_program_counter_flagged p address = record p {
  program_counter = address;
  flags = record p.flags { pc_changed = true };
}

unfoldable pub delay_branch : Processor → ℕ → Processor
delay_branch p pointer = record p {
  branch_target = pointer;
  flags = record p.flags { branch_delay = true; no_cti = true };
}

unfoldable pub compact_branch : Processor → ℕ → Processor
unfolding set_program_counter_flagged
compact_branch p pointer = set_program_counter_flagged p pointer

unfoldable pub set_no_cti : Processor → Processor
set_no_cti p = record p { flags = record p.flags { no_cti = true } }

unfoldable pub set_link : Processor → ℕ → Processor
set_link p pointer = record p { registers = update p.registers 31 pointer }

unfoldable pub set_load_link : Processor → ℕ → Processor
set_load_link p address = record p { load_link = address }

-- `CPU_Exception::throw_helper`, with the address and the code that it is given.
abbrev pub throw_helper {ℓ} : {A : Type ℓ} → ExceptionType → ℕ → ℕ → Processor → Outcome A
throw_helper type address code p = thrown (cpu_exception type address code) p
