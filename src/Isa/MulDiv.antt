-- ===== src/Isa/MulDiv.antt =====
-- Products, quotients and remainders (processor_inst.cpp).
use vemips.Base.{
  ℕ, ◌+◌, ◌-◌, ◌*◌, ◌/◌, ◌%◌, ◌^◌, ltb, ◌==◌, if◌then◌else◌, Bool, ◌&&◌, u32, signed32, ℤ, pos_part,
  neg_part, ◌*ℤ◌,
}
use vemips.Processor.{Processor, Outcome, done, undefined, set_register}
use vemips.Isa.Fields.{rd, rs_value, rt_value}

-- `uint64(z)`, for the int64 z.
unfoldable pub pattern64 : ℤ → ℕ
pattern64 z = (pos_part z + (2 ^ 64 - neg_part z % 2 ^ 64)) % 2 ^ 64

unfoldable pub signed_product : ℕ → Processor → ℕ
unfolding pattern64 ◌*ℤ◌
signed_product i p = pattern64 (signed32 (rs_value i p) *ℤ signed32 (rt_value i p))

unfoldable pub mul : ℕ → Processor → Outcome Processor
unfolding signed_product
mul i p = done (set_register p (rd i) (u32 (signed_product i p)))

unfoldable pub muh : ℕ → Processor → Outcome Processor
unfolding signed_product
muh i p = done (set_register p (rd i) (signed_product i p / 2 ^ 32))

unfoldable pub mulu : ℕ → Processor → Outcome Processor
mulu i p = done (set_register p (rd i) (u32 (rs_value i p * rt_value i p)))

unfoldable pub muhu : ℕ → Processor → Outcome Processor
muhu i p = done (set_register p (rd i) (rs_value i p * rt_value i p % 2 ^ 64 / 2 ^ 32))

-- An int32 as its size and its sign.
abbrev pub is_negative : ℕ → Bool
is_negative w = if ltb w (2 ^ 31) then Bool.false else Bool.true

abbrev pub magnitude : ℕ → ℕ
magnitude w = if is_negative w then 2 ^ 32 - w else w

abbrev pub with_sign : Bool → ℕ → ℕ
with_sign negative n = if negative then (2 ^ 32 - n) % 2 ^ 32 else n

abbrev pub differs : Bool → Bool → Bool
differs Bool.true b = if b then Bool.false else Bool.true
differs Bool.false b = b

-- `a / b` and `a % b` on int32: truncated towards 0; the least number by -1 overflows.
unfoldable pub quotient : ℕ → ℕ → Outcome ℕ
quotient a b =
    if a == 2 ^ 31 && b == 2 ^ 32 - 1
    then undefined
    else done (with_sign (differs (is_negative a) (is_negative b)) (magnitude a / magnitude b))

unfoldable pub remainder : ℕ → ℕ → Outcome ℕ
remainder a b =
    if a == 2 ^ 31 && b == 2 ^ 32 - 1
    then undefined
    else done (with_sign (is_negative a) (magnitude a % magnitude b))

abbrev pub write_divided : ℕ → Outcome ℕ → Processor → Outcome Processor
write_divided i (done v) p = done (set_register p (rd i) v)
write_divided i _ p = undefined

unfoldable pub div : ℕ → Processor → Outcome Processor
unfolding quotient
div i p =
    if rt_value i p == 0
    then done (set_register p (rd i) 0)
    else write_divided i (quotient (rs_value i p) (rt_value i p)) p

unfoldable pub modulo : ℕ → Processor → Outcome Processor
unfolding remainder
modulo i p =
    if rt_value i p == 0
    then done (set_register p (rd i) 0)
    else write_divided i (remainder (rs_value i p) (rt_value i p)) p

unfoldable pub divu : ℕ → Processor → Outcome Processor
divu i p =
    if rt_value i p == 0
    then done (set_register p (rd i) 0)
    else done (set_register p (rd i) (rs_value i p / rt_value i p))

unfoldable pub modu : ℕ → Processor → Outcome Processor
modu i p =
    if rt_value i p == 0
    then done (set_register p (rd i) 0)
    else done (set_register p (rd i) (rs_value i p % rt_value i p))
