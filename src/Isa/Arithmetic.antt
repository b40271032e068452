-- ===== src/Isa/Arithmetic.antt =====
-- Sums, comparisons and selections (src/mips/instructions/processor_inst.cpp).
use vemips.Base.{
  ℕ, ◌+◌, ◌-◌, ◌*◌, ◌/◌, ◌^◌, ltb, ◌==◌, if◌then◌else◌, Bool, ◌||◌, u32, add32, sub32, ◌<<<◌, ◌>>>◌,
  signed32, pattern32, ltb_ℤ, ℤ, pos, negsuc, ◌+ℤ◌, ◌-ℤ◌,
}
use vemips.Processor.Options.{ExceptionType}
use vemips.Processor.{Processor, Outcome, done, set_register, throw_helper}
use vemips.Isa.Fields.{rs, rt, rd, rs_value, rt_value, immediate, sextend, zextend}

-- Is an exact result outside int32? (`__builtin_add_overflow`, `__builtin_sub_overflow`)
unfoldable pub overflows : ℤ → Bool
overflows z = ltb_ℤ (pos (2 ^ 31 - 1)) z || ltb_ℤ z (negsuc (2 ^ 31 - 1))

unfoldable pub checked : ℤ → ℕ → Processor → Outcome Processor
unfolding overflows set_register
checked z destination p =
    if overflows z
    then throw_helper ExceptionType.ov p.program_counter 0 p
    else done (set_register p destination (pattern32 z))

unfoldable pub add : ℕ → Processor → Outcome Processor
unfolding checked ◌+ℤ◌
add i p = checked (signed32 (rs_value i p) +ℤ signed32 (rt_value i p)) (rd i) p

unfoldable pub sub : ℕ → Processor → Outcome Processor
unfolding checked ◌-ℤ◌
sub i p = checked (signed32 (rs_value i p) -ℤ signed32 (rt_value i p)) (rd i) p

unfoldable pub addiu : ℕ → Processor → Outcome Processor
addiu i p = done (set_register p (rt i) (add32 (rs_value i p) (immediate i)))

unfoldable pub move : ℕ → Processor → Outcome Processor
move i p = done (set_register p (rt i) (rs_value i p))

unfoldable pub addu : ℕ → Processor → Outcome Processor
addu i p = done (set_register p (rd i) (add32 (rs_value i p) (rt_value i p)))

unfoldable pub subu : ℕ → Processor → Outcome Processor
subu i p = done (set_register p (rd i) (sub32 (rs_value i p) (rt_value i p)))

unfoldable pub aui : ℕ → Processor → Outcome Processor
aui i p = done (set_register p (rt i) (add32 (rs_value i p) (u32 (i <<< 16))))

-- The sums with the program counter.
unfoldable pub addiupc : ℕ → Processor → Outcome Processor
addiupc i p = done (set_register p (rs i) (add32 p.program_counter (sextend 21 (u32 (i <<< 2)))))

unfoldable pub auipc : ℕ → Processor → Outcome Processor
auipc i p = done (set_register p (rs i) (add32 p.program_counter (u32 (i <<< 16))))

unfoldable pub aluipc : ℕ → Processor → Outcome Processor
aluipc i p =
    done (set_register p (rs i) (add32 p.program_counter (u32 (i <<< 16)) / 2 ^ 16 * 2 ^ 16))

unfoldable pub lsa : ℕ → Processor → Outcome Processor
lsa i p =
    let sa = zextend 2 (i >>> 6) + 1 in
    done (set_register p (rd i) (add32 (u32 (rs_value i p <<< sa)) (rt_value i p)))

abbrev pub flag_value : Bool → ℕ
flag_value b = if b then 1 else 0

unfoldable pub slt : ℕ → Processor → Outcome Processor
slt i p =
    done (
      set_register p (rd i)
        (flag_value (ltb_ℤ (signed32 (rs_value i p)) (signed32 (rt_value i p)))))

unfoldable pub slti : ℕ → Processor → Outcome Processor
slti i p =
    done (
      set_register p (rt i) (flag_value (ltb_ℤ (signed32 (rs_value i p)) (signed32 (immediate i)))))

unfoldable pub sltiu : ℕ → Processor → Outcome Processor
sltiu i p = done (set_register p (rt i) (flag_value (ltb (rs_value i p) (immediate i))))

unfoldable pub sltu : ℕ → Processor → Outcome Processor
sltu i p = done (set_register p (rd i) (flag_value (ltb (rs_value i p) (rt_value i p))))

unfoldable pub seleqz : ℕ → Processor → Outcome Processor
seleqz i p = done (set_register p (rd i) (if rt_value i p == 0 then rs_value i p else 0))

unfoldable pub selnez : ℕ → Processor → Outcome Processor
selnez i p = done (set_register p (rd i) (if rt_value i p == 0 then 0 else rs_value i p))
