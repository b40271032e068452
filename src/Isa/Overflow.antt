-- ===== src/Isa/Overflow.antt =====
-- The sums that trap and the sums that wrap (ADD, SUB, ADDU and SUBU of processor_inst.cpp).
use vemips.Base.{
  ℕ, ◌-◌, ◌^◌, ◌<◌, ◌≡◌, ◌⊎◌, inl, inr, refl, arith, true, false, Bool-cases, add32, sub32, ℤ, pos,
  negsuc, ◌+ℤ◌, ◌-ℤ◌, signed32, pattern32, ◌≤ℤ◌,
}
use vemips.Processor.Options.{ExceptionType, cpu_exception}
use vemips.Processor.{Processor, Outcome, done, thrown, set_register}
use vemips.Processor.Registers.{HasWords, get_register-lt}
use vemips.Isa.Fields.{rs, rt, rd, rs_value, rt_value}
use vemips.Isa.Arithmetic.{add, sub, addu, subu, checked, overflows}

-- The range of int32.
abbrev pub IsInt32 : ℤ → Type 0
IsInt32 z = (negsuc (2 ^ 31 - 1) ≤ℤ z) × (z ≤ℤ pos (2 ^ 31 - 1))

pub overflows-range : (z : ℤ) → overflows z ≡ false → IsInt32 z
unfolding overflows
overflows-range (pos n) e = ground arith
overflows-range (negsuc n) e = ground arith

pub range-overflows : (z : ℤ) → overflows z ≡ true → ¬ IsInt32 z
unfolding overflows
range-overflows (pos n) e = ground arith
range-overflows (negsuc n) e = ground arith

-- An int32 is read back from its pattern.
pub signed32-pattern32 : (z : ℤ) → IsInt32 z → signed32 (pattern32 z) ≡ z
signed32-pattern32 (pos n) r = ground arith
signed32-pattern32 (negsuc n) r = ground arith

pub pattern32-sum :
    (a b : ℕ) → a < 2 ^ 32 → b < 2 ^ 32 → pattern32 (signed32 a +ℤ signed32 b) ≡ add32 a b
unfolding ◌+ℤ◌
pattern32-sum a b p q = ground arith

pub pattern32-difference :
    (a b : ℕ) → a < 2 ^ 32 → b < 2 ^ 32 → pattern32 (signed32 a -ℤ signed32 b) ≡ sub32 a b
unfolding ◌-ℤ◌
pattern32-difference a b p q = ground arith

-- Either the exact result is an int32, and is the value written, as the wrapping instruction would;
-- or it is not, and the overflow exception is raised with nothing changed.
abbrev pub IsChecked : ℤ → ℕ → Processor → Outcome Processor → Outcome Processor → Type 0
IsChecked z destination p wrapping o =
    ((v : ℕ) × IsInt32 z
      × (signed32 v ≡ z)
      × (o ≡ done (set_register p destination v))
      × (o ≡ wrapping))
    ⊎ (¬ IsInt32 z × (o ≡ thrown (cpu_exception ExceptionType.ov p.program_counter 0) p))

checked-IsChecked :
    (z : ℤ) (destination : ℕ) (p : Processor)
    → IsChecked z destination p
        (done (set_register p destination (pattern32 z)))
        (checked z destination p)
unfolding checked
checked-IsChecked z destination p = elim (Bool-cases (overflows z)) [
  | inl e ↦ inr (range-overflows z e, rw e refl)
  | inr e ↦
      let r = overflows-range z e in
      inl (pattern32 z, r, signed32-pattern32 z r, rw e refl, rw e refl)
]

-- Where every register holds a word, ADD writes the exact signed sum, and is then what ADDU is; or
-- the sum is no int32, and ADD raises the overflow exception and changes nothing.
pub add-exact :
    (i : ℕ) (p : Processor)
    → HasWords p
    → IsChecked (signed32 (rs_value i p) +ℤ signed32 (rt_value i p)) (rd i) p (addu i p) (add i p)
unfolding add addu
add-exact i p words =
    let e =
      pattern32-sum (rs_value i p) (rt_value i p) (get_register-lt p (rs i) words)
        (get_register-lt p (rt i) words) in
    rw⁻¹ e (checked-IsChecked (signed32 (rs_value i p) +ℤ signed32 (rt_value i p)) (rd i) p)

-- Where every register holds a word, SUB writes the exact signed difference, and is then what SUBU
-- is; or the difference is no int32, and SUB raises the overflow exception and changes nothing.
pub sub-exact :
    (i : ℕ) (p : Processor)
    → HasWords p
    → IsChecked (signed32 (rs_value i p) -ℤ signed32 (rt_value i p)) (rd i) p (subu i p) (sub i p)
unfolding sub subu
sub-exact i p words =
    let e =
      pattern32-difference (rs_value i p) (rt_value i p) (get_register-lt p (rs i) words)
        (get_register-lt p (rt i) words) in
    rw⁻¹ e (checked-IsChecked (signed32 (rs_value i p) -ℤ signed32 (rt_value i p)) (rd i) p)
