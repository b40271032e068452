-- ===== src/Isa/BitField.antt =====
-- EXT and INS (processor_inst.cpp). The write for an unpredictable operand does not return.
use vemips.Base.{
  ℕ, ◌+◌, ◌-◌, ◌%◌, ◌^◌, ltb, if◌then◌else◌, Option, none, some, u32, sub32, add32, not32, ◌<<<◌,
  ◌>>>◌, bit_and, bit_or,
}
use vemips.Processor.{Processor, Outcome, done, undefined, set_register}
use vemips.Isa.Fields.{rt, rs_value, rt_value, bits, zextend}

-- The fields of the instruction: bits 11 to 15, and 6 to 10.
abbrev pub msb : ℕ → ℕ
msb i = zextend 5 (i >>> 11)

abbrev pub lsb : ℕ → ℕ
lsb i = zextend 5 (i >>> 6)

-- The low `size` bits from bit `lsb` on; the mask is a 64-bit number.
unfoldable pub extract_bits : ℕ → ℕ → ℕ → ℕ
extract_bits value lsb size = (value >>> lsb) % 2 ^ size

unfoldable pub ext : ℕ → Processor → Outcome Processor
unfolding extract_bits set_register
ext i p =
    let q = if ltb 31 (lsb i + msb i) then set_register p (rt i) (2 ^ 32 - 1) else p in
    done (set_register q (rt i) (extract_bits (rs_value i q) (lsb i) (msb i + 1)))

-- `rt & ~(mask << lsb) | (rs & mask) << lsb`.
unfoldable pub insert_bits : ℕ → ℕ → ℕ → ℕ → ℕ
insert_bits mask lsb rs_val rt_val =
    bit_or (bit_and rt_val (not32 (u32 (mask <<< lsb)))) (u32 (bit_and rs_val mask <<< lsb))

unfoldable pub insert_by : Option ℕ → ℕ → Processor → Outcome Processor
unfolding insert_bits
insert_by none i p = undefined
insert_by (some mask) i p =
    done (set_register p (rt i) (insert_bits mask (lsb i) (rs_value i p) (rt_value i p)))

unfoldable pub ins : ℕ → Processor → Outcome Processor
unfolding insert_by bits set_register
ins i p =
    let q = if ltb (msb i) (lsb i) then set_register p (rt i) (2 ^ 32 - 1) else p in
    insert_by (bits (add32 (sub32 (msb i) (lsb i)) 1)) i q
