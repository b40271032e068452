-- ===== src/Isa/Sound/MulDiv.antt =====
-- Products, quotients and bit fields (processor_inst.cpp) on sound states.
use vemips.Base.{
  ℕ, ◌+◌, ◌-◌, ◌/◌, ◌%◌, ◌^◌, ◌<◌, arith, if_both, ◌==◌, ◌&&◌, Bool, true, false, ltb,
  if◌then◌else◌, u32, not32, ◌<<<◌, Option, none, some,
}
use vemips.Base.Bits.{bit_and-le, bit_or-lt}
use native.Mathlib.Nat.{div-le_self, mod-le}
use vemips.Processor.{Processor, done, undefined, set_register}
use vemips.Processor.Registers.{get_register-lt}
use vemips.Isa.Fields.{rs, rt, rd, rs_value, rt_value}
use vemips.Isa.MulDiv.{
  signed_product, pattern64, quotient, remainder, write_divided, with_sign, magnitude, is_negative,
  differs,
}
use vemips.Isa.BitField.{extract_bits, insert_bits, insert_by, msb, lsb}
use vemips.Isa.MulDiv.{mul, muh, mulu, muhu, div, modulo, divu, modu}
use vemips.Isa.BitField.{ext, ins}
use vemips.Isa.Sound.{
  IsSound, AllFollow, Follows, stay, set_register-Follows, all_then, then-Follows,
}
use vemips.Isa.Sound.Alu.{shifted-lt}

with_sign-lt : (b : Bool) (n : ℕ) → n < 2 ^ 32 → with_sign b n < 2 ^ 32
with_sign-lt true n p = omega arith
with_sign-lt false n p = omega arith

quotient-lt : (b : Bool) (x y : ℕ) → x < 2 ^ 32 → with_sign b (magnitude x / magnitude y) < 2 ^ 32
quotient-lt b x y p =
    with_sign-lt b (magnitude x / magnitude y)
      (ground (arith, div-le_self (magnitude x) (magnitude y)))

remainder-lt : (b : Bool) (x y : ℕ) → x < 2 ^ 32 → with_sign b (magnitude x % magnitude y) < 2 ^ 32
remainder-lt b x y p =
    with_sign-lt b (magnitude x % magnitude y) (ground (arith, mod-le (magnitude x) (magnitude y)))

write_divided-AllFollow :
    (i : ℕ) (p : Processor) (test : Bool) (v : ℕ)
    → IsSound p
    → v < 2 ^ 32
    → AllFollow p (write_divided i (if test then undefined else done v) p)
write_divided-AllFollow i p true v s fits = tt
write_divided-AllFollow i p false v s fits = set_register-Follows p (rd i) v s fits

pub mul-AllFollow : (i : ℕ) (p : Processor) → IsSound p → AllFollow p (mul i p)
unfolding mul
mul-AllFollow i p s = set_register-Follows p _ _ s (omega arith)

pub muh-AllFollow : (i : ℕ) (p : Processor) → IsSound p → AllFollow p (muh i p)
unfolding muh signed_product pattern64
muh-AllFollow i p s = set_register-Follows p _ _ s (omega arith)

pub mulu-AllFollow : (i : ℕ) (p : Processor) → IsSound p → AllFollow p (mulu i p)
unfolding mulu
mulu-AllFollow i p s = set_register-Follows p _ _ s (omega arith)

pub muhu-AllFollow : (i : ℕ) (p : Processor) → IsSound p → AllFollow p (muhu i p)
unfolding muhu
muhu-AllFollow i p s = set_register-Follows p _ _ s (omega arith)

pub div-AllFollow : (i : ℕ) (p : Processor) → IsSound p → AllFollow p (div i p)
unfolding div quotient
div-AllFollow i p s =
    if_both (AllFollow p) (rt_value i p == 0) (set_register-Follows p (rd i) 0 s (omega arith)) (
      write_divided-AllFollow i p (rs_value i p == 2 ^ 31 && rt_value i p == 2 ^ 32 - 1) _ s (
        quotient-lt (differs (is_negative (rs_value i p)) (is_negative (rt_value i p)))
          (rs_value i p) (rt_value i p) (get_register-lt p (rs i) s.0)))

pub modulo-AllFollow : (i : ℕ) (p : Processor) → IsSound p → AllFollow p (modulo i p)
unfolding modulo remainder
modulo-AllFollow i p s =
    if_both (AllFollow p) (rt_value i p == 0) (set_register-Follows p (rd i) 0 s (omega arith)) (
      write_divided-AllFollow i p (rs_value i p == 2 ^ 31 && rt_value i p == 2 ^ 32 - 1) _ s (
        remainder-lt (is_negative (rs_value i p)) (rs_value i p) (rt_value i p)
          (get_register-lt p (rs i) s.0)))

pub divu-AllFollow : (i : ℕ) (p : Processor) → IsSound p → AllFollow p (divu i p)
unfolding divu
divu-AllFollow i p s =
    if_both (AllFollow p) (rt_value i p == 0) (set_register-Follows p (rd i) 0 s (omega arith)) (
      set_register-Follows p _ _ s
        (omega (arith, div-le_self (rs_value i p) (rt_value i p), get_register-lt p (rs i) s.0)))

pub modu-AllFollow : (i : ℕ) (p : Processor) → IsSound p → AllFollow p (modu i p)
unfolding modu
modu-AllFollow i p s =
    if_both (AllFollow p) (rt_value i p == 0) (set_register-Follows p (rd i) 0 s (omega arith)) (
      set_register-Follows p _ _ s
        (omega (arith, mod-le (rs_value i p) (rt_value i p), get_register-lt p (rs i) s.0)))

extract_bits-lt : (x l n : ℕ) → x < 2 ^ 32 → extract_bits x l n < 2 ^ 32
unfolding extract_bits
extract_bits-lt x l n p = omega (arith, mod-le (x / 2 ^ l) (2 ^ n), shifted-lt x l p)

insert_by-AllFollow :
    (mask : Option ℕ) (i : ℕ) (p : Processor) → IsSound p → AllFollow p (insert_by mask i p)
unfolding insert_by insert_bits
insert_by-AllFollow none i p s = tt
insert_by-AllFollow (some mask) i p s =
    let rt_lt = get_register-lt p (rt i) s.0 in
    let kept = not32 (u32 (mask <<< lsb i)) in
    set_register-Follows p (rt i) _ s (
      bit_or-lt 32 _ _ (omega (arith, bit_and-le (rt_value i p) (rt_value i p) kept (omega arith)))
        (omega arith))

unpredictable :
    (i : ℕ) (p : Processor) (test : Bool)
    → IsSound p
    → Follows p (if test then set_register p (rt i) (2 ^ 32 - 1) else p)
unpredictable i p test s =
    if_both (Follows p) test (set_register-Follows p (rt i) _ s (omega arith)) (stay p s)

pub ext-AllFollow : (i : ℕ) (p : Processor) → IsSound p → AllFollow p (ext i p)
unfolding ext
ext-AllFollow i p s =
    let f = unpredictable i p (ltb 31 (lsb i + msb i)) s in
    let q = if ltb 31 (lsb i + msb i) then set_register p (rt i) (2 ^ 32 - 1) else p in
    let v = extract_bits (rs_value i q) (lsb i) (msb i + 1) in
    then-Follows p q (set_register q (rt i) v) f (
      set_register-Follows q (rt i) v f.0
        (extract_bits-lt (rs_value i q) (lsb i) (msb i + 1) (get_register-lt q (rs i) f.0.0)))

pub ins-AllFollow : (i : ℕ) (p : Processor) → IsSound p → AllFollow p (ins i p)
unfolding ins
ins-AllFollow i p s =
    let f = unpredictable i p (ltb (msb i) (lsb i)) s in
    let q = if ltb (msb i) (lsb i) then set_register p (rt i) (2 ^ 32 - 1) else p in
    all_then p q (insert_by _ i q) f (insert_by-AllFollow _ i q f.0)
