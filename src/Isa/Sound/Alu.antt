-- ===== src/Isa/Sound/Alu.antt =====
-- Arithmetic, logic and shifts (processor_inst.cpp) on sound states.
use vemips.Base.{
  ℕ, zero, suc, ◌/◌, ◌^◌, ◌≤◌, ◌<◌, arith, if_both, ◌==◌, Bool, true, false, ℤ, not32, signed32,
  ◌+ℤ◌, ◌-ℤ◌, pattern32,
}
use vemips.Base.Bits.{bit_and-le, bit_or-lt, bit_xor-lt}
use native.Mathlib.Nat.{div-le_self, mod-lt, one-le-pow, pow-le-pow_right}
use vemips.Processor.{Processor, done, thrown, set_register}
use vemips.Processor.Registers.{get_register-lt}
use vemips.Isa.Fields.{rs, rt, rd, rs_value, rt_value, immediate_u, sextend, zextend}
use vemips.Isa.Words.{reverse_byte-reverse_byte}
use vemips.Isa.Logic.{reverse_bytes, swap_halves, countl_zero, byte}
use vemips.Isa.Shift.{shift_left, shift_right, shift_right_signed, rotate, write_rotated}
use vemips.Isa.Arithmetic.{checked, flag_value, overflows}
use vemips.Processor.Options.{ExceptionType, cpu_exception}
use vemips.Isa.Arithmetic.{
  addiu, move, addu, subu, aui, addiupc, auipc, aluipc, lsa, slt, slti, sltiu, sltu, seleqz, selnez,
  add, sub,
}
use vemips.Isa.Logic.{and, andi, or, xor, nor, ori, xori, align, seb, seh, wsbh, bitswap, clz, clo}
use vemips.Isa.Shift.{sll, sllv, srl, srlv, sra, srav, rotr, rotrv}
use vemips.Isa.Sound.{IsSound, AllFollow, stay, set_register-Follows}

flag_value-lt : (b : Bool) → flag_value b < 2 ^ 32
flag_value-lt true = omega arith
flag_value-lt false = omega arith

pub sextend-lt : (w x : ℕ) → w ≤ 32 → sextend w x < 2 ^ 32
unfolding sextend
sextend-lt w x p =
    let small = mod-lt x (one-le-pow w 2 (omega arith)) in
    let wide : 2 ^ w ≤ 2 ^ 32 = pow-le-pow_right (omega arith) p in ground arith

pub shifted-lt : (x k : ℕ) → x < 2 ^ 32 → x / 2 ^ k < 2 ^ 32
shifted-lt x k p = omega (arith, div-le_self x (2 ^ k))

checked-AllFollow : (p : Processor) (z : ℤ) (r : ℕ) → IsSound p → AllFollow p (checked z r p)
unfolding checked
checked-AllFollow p z r s =
    if_both (AllFollow p) (overflows z)
      {yes = thrown (cpu_exception ExceptionType.ov p.program_counter 0) p}
      {no = done (set_register p r (pattern32 z))} (stay p s)
      (set_register-Follows p r (pattern32 z) s (omega arith))

reverse_bytes-lt : (x : ℕ) → reverse_bytes x < 2 ^ 32
unfolding reverse_bytes
reverse_bytes-lt x = omega (
  arith,
  reverse_byte-reverse_byte (byte 0 x) (omega arith),
  reverse_byte-reverse_byte (byte 1 x) (omega arith),
  reverse_byte-reverse_byte (byte 2 x) (omega arith),
  reverse_byte-reverse_byte (byte 3 x) (omega arith),
)

countl_zero-le : (w x : ℕ) → countl_zero w x ≤ w
unfolding countl_zero
countl_zero-le zero x = omega arith
countl_zero-le (suc w) x = ground (arith, countl_zero-le w x)

shift_right_signed-lt : (x k : ℕ) → x < 2 ^ 32 → shift_right_signed x k < 2 ^ 32
unfolding shift_right_signed
shift_right_signed-lt x k p = ground (arith, shifted-lt x k p)

write_rotated-AllFollow :
    (i : ℕ) (p : Processor) (x k : ℕ)
    → IsSound p
    → x < 2 ^ 32
    → AllFollow p (write_rotated i (rotate x k) p)
unfolding rotate
write_rotated-AllFollow i p x k s fits =
    if_both (λ o. AllFollow p (write_rotated i o p)) (k == 0) tt
      (set_register-Follows p (rd i) _ s (bit_or-lt 32 _ _ (shifted-lt x k fits) (omega arith)))

pub addiu-AllFollow : (i : ℕ) (p : Processor) → IsSound p → AllFollow p (addiu i p)
unfolding addiu
addiu-AllFollow i p s = set_register-Follows p _ _ s (omega arith)

pub move-AllFollow : (i : ℕ) (p : Processor) → IsSound p → AllFollow p (move i p)
unfolding move
move-AllFollow i p s = set_register-Follows p _ _ s (get_register-lt p (rs i) s.0)

pub addu-AllFollow : (i : ℕ) (p : Processor) → IsSound p → AllFollow p (addu i p)
unfolding addu
addu-AllFollow i p s = set_register-Follows p _ _ s (omega arith)

pub subu-AllFollow : (i : ℕ) (p : Processor) → IsSound p → AllFollow p (subu i p)
unfolding subu
subu-AllFollow i p s = set_register-Follows p _ _ s (omega arith)

pub aui-AllFollow : (i : ℕ) (p : Processor) → IsSound p → AllFollow p (aui i p)
unfolding aui
aui-AllFollow i p s = set_register-Follows p _ _ s (omega arith)

pub addiupc-AllFollow : (i : ℕ) (p : Processor) → IsSound p → AllFollow p (addiupc i p)
unfolding addiupc
addiupc-AllFollow i p s = set_register-Follows p _ _ s (omega arith)

pub auipc-AllFollow : (i : ℕ) (p : Processor) → IsSound p → AllFollow p (auipc i p)
unfolding auipc
auipc-AllFollow i p s = set_register-Follows p _ _ s (omega arith)

pub aluipc-AllFollow : (i : ℕ) (p : Processor) → IsSound p → AllFollow p (aluipc i p)
unfolding aluipc
aluipc-AllFollow i p s = set_register-Follows p _ _ s (omega arith)

pub lsa-AllFollow : (i : ℕ) (p : Processor) → IsSound p → AllFollow p (lsa i p)
unfolding lsa
lsa-AllFollow i p s = set_register-Follows p _ _ s (omega arith)

pub slt-AllFollow : (i : ℕ) (p : Processor) → IsSound p → AllFollow p (slt i p)
unfolding slt
slt-AllFollow i p s = set_register-Follows p _ _ s (flag_value-lt _)

pub slti-AllFollow : (i : ℕ) (p : Processor) → IsSound p → AllFollow p (slti i p)
unfolding slti
slti-AllFollow i p s = set_register-Follows p _ _ s (flag_value-lt _)

pub sltiu-AllFollow : (i : ℕ) (p : Processor) → IsSound p → AllFollow p (sltiu i p)
unfolding sltiu
sltiu-AllFollow i p s = set_register-Follows p _ _ s (flag_value-lt _)

pub sltu-AllFollow : (i : ℕ) (p : Processor) → IsSound p → AllFollow p (sltu i p)
unfolding sltu
sltu-AllFollow i p s = set_register-Follows p _ _ s (flag_value-lt _)

pub seleqz-AllFollow : (i : ℕ) (p : Processor) → IsSound p → AllFollow p (seleqz i p)
unfolding seleqz
seleqz-AllFollow i p s = set_register-Follows p _ _ s (ground (arith, get_register-lt p (rs i) s.0))

pub selnez-AllFollow : (i : ℕ) (p : Processor) → IsSound p → AllFollow p (selnez i p)
unfolding selnez
selnez-AllFollow i p s = set_register-Follows p _ _ s (ground (arith, get_register-lt p (rs i) s.0))

pub add-AllFollow : (i : ℕ) (p : Processor) → IsSound p → AllFollow p (add i p)
unfolding add
add-AllFollow i p s =
    checked-AllFollow p (signed32 (rs_value i p) +ℤ signed32 (rt_value i p)) (rd i) s

pub sub-AllFollow : (i : ℕ) (p : Processor) → IsSound p → AllFollow p (sub i p)
unfolding sub
sub-AllFollow i p s =
    checked-AllFollow p (signed32 (rs_value i p) -ℤ signed32 (rt_value i p)) (rd i) s

pub and-AllFollow : (i : ℕ) (p : Processor) → IsSound p → AllFollow p (and i p)
unfolding and
and-AllFollow i p s = set_register-Follows p _ _ s (
    omega (
      arith,
      bit_and-le (rs_value i p) (rs_value i p) (rt_value i p) (omega arith),
      get_register-lt p (rs i) s.0,
    ))

pub andi-AllFollow : (i : ℕ) (p : Processor) → IsSound p → AllFollow p (andi i p)
unfolding andi
andi-AllFollow i p s = set_register-Follows p _ _ s (
    omega (
      arith,
      bit_and-le (rs_value i p) (rs_value i p) (immediate_u i) (omega arith),
      get_register-lt p (rs i) s.0,
    ))

pub or-AllFollow : (i : ℕ) (p : Processor) → IsSound p → AllFollow p (or i p)
unfolding or
or-AllFollow i p s =
    set_register-Follows p _ _ s
      (bit_or-lt 32 _ _ (get_register-lt p (rs i) s.0) (get_register-lt p (rt i) s.0))

pub xor-AllFollow : (i : ℕ) (p : Processor) → IsSound p → AllFollow p (xor i p)
unfolding xor
xor-AllFollow i p s =
    set_register-Follows p _ _ s
      (bit_xor-lt 32 _ _ (get_register-lt p (rs i) s.0) (get_register-lt p (rt i) s.0))

pub nor-AllFollow : (i : ℕ) (p : Processor) → IsSound p → AllFollow p (nor i p)
unfolding nor
nor-AllFollow i p s = set_register-Follows p _ _ s (omega arith)

pub ori-AllFollow : (i : ℕ) (p : Processor) → IsSound p → AllFollow p (ori i p)
unfolding ori zextend
ori-AllFollow i p s =
    set_register-Follows p _ _ s (bit_or-lt 32 _ _ (get_register-lt p (rs i) s.0) (omega arith))

pub xori-AllFollow : (i : ℕ) (p : Processor) → IsSound p → AllFollow p (xori i p)
unfolding xori zextend
xori-AllFollow i p s =
    set_register-Follows p _ _ s (bit_xor-lt 32 _ _ (get_register-lt p (rs i) s.0) (omega arith))

pub align-AllFollow : (i : ℕ) (p : Processor) → IsSound p → AllFollow p (align i p)
unfolding align
align-AllFollow i p s = if_both (AllFollow p) (zextend 2 i == 0) tt (
    set_register-Follows p (rd i) _ s
      (bit_or-lt 32 _ _ (omega arith) (shifted-lt _ _ (get_register-lt p (rs i) s.0))))

pub seb-AllFollow : (i : ℕ) (p : Processor) → IsSound p → AllFollow p (seb i p)
unfolding seb
seb-AllFollow i p s = set_register-Follows p _ _ s (sextend-lt 8 _ (omega arith))

pub seh-AllFollow : (i : ℕ) (p : Processor) → IsSound p → AllFollow p (seh i p)
unfolding seh
seh-AllFollow i p s = set_register-Follows p _ _ s (sextend-lt 16 _ (omega arith))

pub wsbh-AllFollow : (i : ℕ) (p : Processor) → IsSound p → AllFollow p (wsbh i p)
unfolding wsbh swap_halves
wsbh-AllFollow i p s = set_register-Follows p _ _ s (omega arith)

pub bitswap-AllFollow : (i : ℕ) (p : Processor) → IsSound p → AllFollow p (bitswap i p)
unfolding bitswap
bitswap-AllFollow i p s = set_register-Follows p _ _ s (reverse_bytes-lt _)

pub clz-AllFollow : (i : ℕ) (p : Processor) → IsSound p → AllFollow p (clz i p)
unfolding clz
clz-AllFollow i p s = set_register-Follows p _ _ s (omega (arith, countl_zero-le 32 (rs_value i p)))

pub clo-AllFollow : (i : ℕ) (p : Processor) → IsSound p → AllFollow p (clo i p)
unfolding clo
clo-AllFollow i p s =
    set_register-Follows p _ _ s (omega (arith, countl_zero-le 32 (not32 (rs_value i p))))

pub sll-AllFollow : (i : ℕ) (p : Processor) → IsSound p → AllFollow p (sll i p)
unfolding sll shift_left
sll-AllFollow i p s = set_register-Follows p _ _ s (omega arith)

pub sllv-AllFollow : (i : ℕ) (p : Processor) → IsSound p → AllFollow p (sllv i p)
unfolding sllv shift_left
sllv-AllFollow i p s = set_register-Follows p _ _ s (omega arith)

pub srl-AllFollow : (i : ℕ) (p : Processor) → IsSound p → AllFollow p (srl i p)
unfolding srl shift_right
srl-AllFollow i p s = set_register-Follows p _ _ s (shifted-lt _ _ (get_register-lt p (rt i) s.0))

pub srlv-AllFollow : (i : ℕ) (p : Processor) → IsSound p → AllFollow p (srlv i p)
unfolding srlv shift_right
srlv-AllFollow i p s = set_register-Follows p _ _ s (shifted-lt _ _ (get_register-lt p (rt i) s.0))

pub sra-AllFollow : (i : ℕ) (p : Processor) → IsSound p → AllFollow p (sra i p)
unfolding sra
sra-AllFollow i p s =
    set_register-Follows p _ _ s (shift_right_signed-lt _ _ (get_register-lt p (rt i) s.0))

pub srav-AllFollow : (i : ℕ) (p : Processor) → IsSound p → AllFollow p (srav i p)
unfolding srav
srav-AllFollow i p s =
    set_register-Follows p _ _ s (shift_right_signed-lt _ _ (get_register-lt p (rt i) s.0))

pub rotr-AllFollow : (i : ℕ) (p : Processor) → IsSound p → AllFollow p (rotr i p)
unfolding rotr
rotr-AllFollow i p s = write_rotated-AllFollow i p _ _ s (get_register-lt p (rt i) s.0)

pub rotrv-AllFollow : (i : ℕ) (p : Processor) → IsSound p → AllFollow p (rotrv i p)
unfolding rotrv
rotrv-AllFollow i p s = write_rotated-AllFollow i p _ _ s (get_register-lt p (rt i) s.0)
