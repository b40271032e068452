-- ===== src/Isa/Fields.antt =====
-- Reading an instruction word (`TinyInt`, `_Register`, `Bits`, `HighBits` of
-- src/mips/instructions/instructions_common.hpp). A 32-bit pattern stands for an int32 too.
use vemips.Base.{
  ℕ, ◌+◌, ◌-◌, ◌%◌, ◌^◌, ltb, if◌then◌else◌, u32, add32, ◌<<<◌, ◌>>>◌, Option, none, some,
}
use vemips.Processor.{Processor, get_register}

-- `(1 << n) - 1` on int: from 31 on the difference or the shift overflows.
unfoldable pub bits : ℕ → Option ℕ
bits n = if ltb n 31 then some (2 ^ n - 1) else none

-- `TinyInt<w>(x).sextend<int32>()` and `.zextend<uint32>()`.
unfoldable pub sextend : ℕ → ℕ → ℕ
sextend w x = let m = x % 2 ^ w in if ltb m (2 ^ (w - 1)) then m else m + (2 ^ 32 - 2 ^ w)

unfoldable pub zextend : ℕ → ℕ → ℕ
zextend w x = x % 2 ^ w

-- `_Register<offset, 5>::_get_register`; the register numbers of the three fields.
unfoldable pub register_field : ℕ → ℕ → ℕ
register_field offset instruction = (instruction >>> offset) % 32

abbrev pub rs : ℕ → ℕ
rs i = register_field 21 i

abbrev pub rt : ℕ → ℕ
rt i = register_field 16 i

abbrev pub rd : ℕ → ℕ
rd i = register_field 11 i

abbrev pub rs_value : ℕ → Processor → ℕ
rs_value i p = get_register p (rs i)

abbrev pub rt_value : ℕ → Processor → ℕ
rt_value i p = get_register p (rt i)

abbrev pub rd_value : ℕ → Processor → ℕ
rd_value i p = get_register p (rd i)

-- The immediate operands: the low 16 bits, and a shift amount.
abbrev pub immediate : ℕ → ℕ
immediate i = sextend 16 i

abbrev pub immediate_u : ℕ → ℕ
immediate_u i = zextend 16 i

abbrev pub shift_amount : ℕ → ℕ
shift_amount i = zextend 5 (i >>> 6)

-- `TinyInt<w>(instruction << 2)`, from the address behind the branch.
unfoldable pub branch_address : ℕ → ℕ → Processor → ℕ
unfolding sextend
branch_address w i p = add32 (add32 p.program_counter 4) (sextend w (u32 (i <<< 2)))
