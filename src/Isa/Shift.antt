-- ===== src/Isa/Shift.antt =====
-- The shifts and rotations (processor_inst.cpp).
use vemips.Base.{ℕ, ◌-◌, ◌%◌, ◌^◌, ltb, ◌==◌, if◌then◌else◌, u32, not32, ◌<<<◌, ◌>>>◌, bit_or}
use vemips.Processor.{Processor, Outcome, done, undefined, set_register}
use vemips.Isa.Fields.{rd, rs_value, rt_value, shift_amount}

unfoldable pub shift_left : ℕ → ℕ → ℕ
shift_left x sa = u32 (x <<< sa)

unfoldable pub shift_right : ℕ → ℕ → ℕ
shift_right x sa = x >>> sa

-- `>>` on an int32 copies the sign bit.
unfoldable pub shift_right_signed : ℕ → ℕ → ℕ
shift_right_signed x sa = if ltb x (2 ^ 31) then x >>> sa else not32 (not32 x >>> sa)

-- `x >> sa | x << 32 - sa`, which shifts by the width for sa = 0.
unfoldable pub rotate : ℕ → ℕ → Outcome ℕ
rotate x sa = if sa == 0 then undefined else done (bit_or (x >>> sa) (u32 (x <<< (32 - sa))))

-- The low five bits of `rs`.
abbrev pub rs_amount : ℕ → Processor → ℕ
rs_amount i p = rs_value i p % 32

unfoldable pub sll : ℕ → Processor → Outcome Processor
unfolding shift_left
sll i p = done (set_register p (rd i) (shift_left (rt_value i p) (shift_amount i)))

unfoldable pub sllv : ℕ → Processor → Outcome Processor
unfolding shift_left
sllv i p = done (set_register p (rd i) (shift_left (rt_value i p) (rs_amount i p)))

unfoldable pub srl : ℕ → Processor → Outcome Processor
unfolding shift_right
srl i p = done (set_register p (rd i) (shift_right (rt_value i p) (shift_amount i)))

unfoldable pub srlv : ℕ → Processor → Outcome Processor
unfolding shift_right
srlv i p = done (set_register p (rd i) (shift_right (rt_value i p) (rs_amount i p)))

unfoldable pub sra : ℕ → Processor → Outcome Processor
unfolding shift_right_signed
sra i p = done (set_register p (rd i) (shift_right_signed (rt_value i p) (shift_amount i)))

unfoldable pub srav : ℕ → Processor → Outcome Processor
unfolding shift_right_signed
srav i p = done (set_register p (rd i) (shift_right_signed (rt_value i p) (rs_amount i p)))

abbrev pub write_rotated : ℕ → Outcome ℕ → Processor → Outcome Processor
write_rotated i (done v) p = done (set_register p (rd i) v)
write_rotated i _ p = undefined

unfoldable pub rotr : ℕ → Processor → Outcome Processor
unfolding rotate
rotr i p = write_rotated i (rotate (rt_value i p) (shift_amount i)) p

unfoldable pub rotrv : ℕ → Processor → Outcome Processor
unfolding rotate
rotrv i p = write_rotated i (rotate (rt_value i p) (rs_amount i p)) p
