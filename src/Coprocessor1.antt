-- ===== src/Coprocessor1.antt =====
-- The state of `coprocessor1` (src/mips/coprocessor/coprocessor1) and how an instruction of it ends.
-- A floating-point register is its pattern of 64 bits; `FIR` has no field, since nothing writes it.
pub mod Control
pub mod Move
pub mod LoadStore
pub mod Clock
pub mod Laws
use vemips.Base.{ℕ, ◌+◌, ◌*◌, ◌/◌, ◌%◌, ◌^◌, Bool, if◌then◌else◌, bit_and, bit_or}
use vemips.Processor.Options.{Exception, ExceptionType, cpu_exception}
use vemips.Processor.{Processor, Outcome, done, thrown, update}
use vemips.Processor.Outcome.{undefined}

-- `FCSR`, a field for each of its bit-fields, the first at the lowest bit.
pub record Fcsr : Type 0 where
  pub rounding_mode : ℕ
  pub flags : ℕ
  pub enables : ℕ
  pub cause : ℕ
  pub nan2008 : ℕ
  pub abs2008 : ℕ
  pub z_padding0 : ℕ
  pub impl : ℕ
  pub z_padding1 : ℕ
  pub flush_zero : ℕ
  pub z_padding2 : ℕ

-- `needs_clock` is the member of the base class `coprocessor` (src/mips/coprocessor/coprocessor.hpp).
-- Only comparisons set it, which are not among the instructions here.
pub record Coprocessor1 : Type 0 where
  pub needs_clock : Bool
  pub fcsr : Fcsr
  pub registers : ℕ → ℕ

-- The processor that executes the instruction, and its coprocessor.
pub record Machine : Type 0 where
  pub processor : Processor
  pub coprocessor : Coprocessor1

-- An instruction ends, or throws. `unspecified` is what `undefined` is for the processor, and an
-- exception in a function that is `noexcept`, which ends the host's process.
pub data Result : Type 0 where
  ran : Machine → Result
  raised : Exception → Machine → Result
  unspecified : Result

-- `std::bit_cast` of the register to a word.
unfoldable pub to_word : Fcsr → ℕ
to_word s =
    s.rounding_mode
    + s.flags * 2 ^ 2
    + s.enables * 2 ^ 7
    + s.cause * 2 ^ 12
    + s.nan2008 * 2 ^ 18
    + s.abs2008 * 2 ^ 19
    + s.z_padding0 * 2 ^ 20
    + s.impl * 2 ^ 21
    + s.z_padding1 * 2 ^ 23
    + s.flush_zero * 2 ^ 24
    + s.z_padding2 * 2 ^ 25

-- `std::bit_cast` of a word to the register.
unfoldable pub of_word : ℕ → Fcsr
of_word v = record {
  rounding_mode = v % 4;
  flags = v / 2 ^ 2 % 32;
  enables = v / 2 ^ 7 % 32;
  cause = v / 2 ^ 12 % 64;
  nan2008 = v / 2 ^ 18 % 2;
  abs2008 = v / 2 ^ 19 % 2;
  z_padding0 = v / 2 ^ 20 % 2;
  impl = v / 2 ^ 21 % 4;
  z_padding1 = v / 2 ^ 23 % 2;
  flush_zero = v / 2 ^ 24 % 2;
  z_padding2 = v / 2 ^ 25;
}

-- `g_reference_fcsr_ones` and `g_reference_fcsr_zeros`.
abbrev pub reference_fcsr_ones : Fcsr
reference_fcsr_ones = record {
  rounding_mode = 0;
  flags = 0;
  enables = 0;
  cause = 0;
  nan2008 = 1;
  abs2008 = 1;
  z_padding0 = 0;
  impl = 0;
  z_padding1 = 0;
  flush_zero = 0;
  z_padding2 = 0;
}

abbrev pub reference_fcsr_zeros : Fcsr
reference_fcsr_zeros = record {
  rounding_mode = 3;
  flags = 31;
  enables = 31;
  cause = 63;
  nan2008 = 1;
  abs2008 = 1;
  z_padding0 = 0;
  impl = 3;
  z_padding1 = 0;
  flush_zero = 1;
  z_padding2 = 0;
}

-- `FCSR::clock`; `FIR::clock` changes nothing.
unfoldable pub clock : Fcsr → Fcsr
unfolding to_word of_word
clock s =
    of_word
      (bit_and (bit_or (to_word s) (to_word reference_fcsr_ones)) (to_word reference_fcsr_zeros))

-- What `execute_internal` (src/mips/processor/processor.cpp) does with a coprocessor before each
-- instruction. Nothing resets `needs_clock`.
unfoldable pub clocked : Machine → Machine
unfolding clock
clocked m =
    if m.coprocessor.needs_clock
    then record m { coprocessor = record m.coprocessor { fcsr = clock m.coprocessor.fcsr } }
    else m

-- The fields that an aggregate leaves out have their initializers' values, 0.
unfoldable pub get_fexr : Fcsr → ℕ
unfolding to_word
get_fexr s = to_word (record {
  rounding_mode = 0;
  flags = s.flags;
  enables = 0;
  cause = s.cause;
  nan2008 = 0;
  abs2008 = 0;
  z_padding0 = 0;
  impl = 0;
  z_padding1 = 0;
  flush_zero = 0;
  z_padding2 = 0;
})

unfoldable pub set_fexr : ℕ → Fcsr → Fcsr
unfolding of_word
set_fexr fexr s =
    let in_fexr = of_word fexr in record s { flags = in_fexr.flags; cause = in_fexr.cause }

unfoldable pub get_fenr : Fcsr → ℕ
unfolding to_word
get_fenr s = to_word (record {
  rounding_mode = s.rounding_mode;
  flags = 0;
  enables = s.enables;
  cause = 0;
  nan2008 = 0;
  abs2008 = 0;
  z_padding0 = 0;
  impl = 0;
  z_padding1 = 0;
  flush_zero = s.flush_zero;
  z_padding2 = 0;
})

unfoldable pub set_fenr : ℕ → Fcsr → Fcsr
unfolding of_word
set_fenr fenr s =
    let fenr_value = of_word fenr in
    record s {
      rounding_mode = fenr_value.rounding_mode;
      enables = fenr_value.enables;
      flush_zero = fenr_value.flush_zero;
    }

-- `get_register` and `set_register` of 32 bits, of 64 bits, and of the upper half.
unfoldable pub get_low : Coprocessor1 → ℕ → ℕ
get_low c idx = c.registers idx % 2 ^ 32

unfoldable pub get_long : Coprocessor1 → ℕ → ℕ
get_long c idx = c.registers idx

unfoldable pub get_register_upper : Coprocessor1 → ℕ → ℕ
get_register_upper c idx = c.registers idx / 2 ^ 32

unfoldable pub set_long : Coprocessor1 → ℕ → ℕ → Coprocessor1
set_long c idx value = record c { registers = update c.registers idx value }

unfoldable pub set_low : Coprocessor1 → ℕ → ℕ → Coprocessor1
unfolding set_long
set_low c idx value = set_long c idx (c.registers idx / 2 ^ 32 * 2 ^ 32 + value)

unfoldable pub set_register_upper : Coprocessor1 → ℕ → ℕ → Coprocessor1
unfolding set_long
set_register_upper c idx value = set_long c idx (value * 2 ^ 32 + c.registers idx % 2 ^ 32)

-- `CPU_Exception::throw_helper` at the current instruction, with a code.
abbrev pub throw_at_counter : ExceptionType → ℕ → Machine → Result
throw_at_counter type code m = raised (cpu_exception type m.processor.program_counter code) m

-- What an access of the processor does to the machine, and what follows its value.
unfoldable pub continue {ℓ} : {A : Type ℓ} → Outcome A → Machine → (A → Result) → Result
continue (done a) m next = next a
continue (thrown e p) m next = raised e (record m { processor = p })
continue undefined m next = unspecified
