-- ===== src/Isa/Logic.antt =====
-- The bitwise operations and the operations on whole bytes (processor_inst.cpp).
use vemips.Base.{
  ℕ, zero, suc, ◌+◌, ◌-◌, ◌*◌, ◌/◌, ◌%◌, ◌^◌, leb, ◌==◌, if◌then◌else◌, u8, u32, not32, ◌<<<◌,
  ◌>>>◌, bit_and, bit_or, bit_xor,
}
use vemips.Processor.{Processor, Outcome, done, undefined, set_register}
use vemips.Isa.Fields.{rt, rd, rs_value, rt_value, immediate_u, sextend, zextend}

unfoldable pub and : ℕ → Processor → Outcome Processor
and i p = done (set_register p (rd i) (bit_and (rs_value i p) (rt_value i p)))

unfoldable pub or : ℕ → Processor → Outcome Processor
or i p = done (set_register p (rd i) (bit_or (rs_value i p) (rt_value i p)))

unfoldable pub xor : ℕ → Processor → Outcome Processor
xor i p = done (set_register p (rd i) (bit_xor (rs_value i p) (rt_value i p)))

unfoldable pub nor : ℕ → Processor → Outcome Processor
nor i p = done (set_register p (rd i) (not32 (bit_or (rs_value i p) (rt_value i p))))

unfoldable pub andi : ℕ → Processor → Outcome Processor
andi i p = done (set_register p (rt i) (bit_and (rs_value i p) (immediate_u i)))

unfoldable pub ori : ℕ → Processor → Outcome Processor
ori i p = done (set_register p (rt i) (bit_or (rs_value i p) (immediate_u i)))

unfoldable pub xori : ℕ → Processor → Outcome Processor
xori i p = done (set_register p (rt i) (bit_xor (rs_value i p) (immediate_u i)))

-- `rt << 8 * bp | rs >> 32 - 8 * bp`: for bp = 0 the second shift is by the width. `bp` is read
-- from the lowest two bits of the instruction.
unfoldable pub align : ℕ → Processor → Outcome Processor
align i p =
    let bp = zextend 2 i in
    if bp == 0
    then undefined
    else done (
        set_register p (rd i)
          (bit_or (u32 (rt_value i p <<< (8 * bp))) (rs_value i p >>> (32 - 8 * bp))))

unfoldable pub seb : ℕ → Processor → Outcome Processor
seb i p = done (set_register p (rd i) (sextend 8 (rt_value i p)))

unfoldable pub seh : ℕ → Processor → Outcome Processor
seh i p = done (set_register p (rd i) (sextend 16 (rt_value i p)))

-- Byte `k` of a word, and the word of four bytes, lowest first.
abbrev pub byte : ℕ → ℕ → ℕ
byte k x = x / 2 ^ (8 * k) % 2 ^ 8

abbrev pub of_bytes : ℕ → ℕ → ℕ → ℕ → ℕ
of_bytes b₀ b₁ b₂ b₃ = b₀ + b₁ * 2 ^ 8 + b₂ * 2 ^ 16 + b₃ * 2 ^ 24

unfoldable pub swap_halves : ℕ → ℕ
swap_halves x = of_bytes (byte 1 x) (byte 0 x) (byte 3 x) (byte 2 x)

unfoldable pub wsbh : ℕ → Processor → Outcome Processor
unfolding swap_halves
wsbh i p = done (set_register p (rd i) (swap_halves (rt_value i p)))

-- The loop body of BITSWAP: halves, quarters and single bits change places.
unfoldable pub reverse_byte : ℕ → ℕ
reverse_byte byte =
    let a = bit_or (bit_and byte 0xf0 >>> 4) (u8 (bit_and byte 0x0f <<< 4)) in
    let b = bit_or (bit_and a 0xcc >>> 2) (u8 (bit_and a 0x33 <<< 2)) in
    bit_or (bit_and b 0xaa >>> 1) (u8 (bit_and b 0x55 <<< 1))

unfoldable pub reverse_bytes : ℕ → ℕ
reverse_bytes x =
    of_bytes (reverse_byte (byte 0 x)) (reverse_byte (byte 1 x)) (reverse_byte (byte 2 x))
      (reverse_byte (byte 3 x))

unfoldable pub bitswap : ℕ → Processor → Outcome Processor
bitswap i p = done (set_register p (rd i) (reverse_bytes (rt_value i p)))

-- `std::countl_zero` of the low `width` bits.
unfoldable pub countl_zero : ℕ → ℕ → ℕ
countl_zero zero x = 0
countl_zero (suc width) x = if leb (2 ^ width) x then 0 else suc (countl_zero width x)

unfoldable pub clz : ℕ → Processor → Outcome Processor
clz i p = done (set_register p (rd i) (countl_zero 32 (rs_value i p)))

-- `std::countl_one` is `std::countl_zero` of the complement.
unfoldable pub clo : ℕ → Processor → Outcome Processor
clo i p = done (set_register p (rd i) (countl_zero 32 (not32 (rs_value i p))))
