-- ===== src/Coprocessor1/Move.antt =====
-- Moves, selections and branches (src/mips/instructions/coprocessor1_inst.cpp), with the control
-- check of `COP1_Helper::Execute` (src/mips/instructions/coprocessor1_support.hpp). The write of 0
-- to register 0 that follows a move is the one that `set_register` ignores.
use vemips.Base.{ℕ, ◌%◌, ◌==◌, if◌then◌else◌, Bool, not}
use vemips.Processor.Options.{ExceptionType}
use vemips.Processor.{delay_branch, set_no_cti, set_register}
use vemips.Isa.Fields.{rd, rt, rt_value, register_field, branch_address}
use vemips.Coprocessor1.{
  Coprocessor1, Machine, Result, ran, get_low, get_long, get_register_upper, set_low, set_long,
  set_register_upper, throw_at_counter,
}

unfoldable pub mtc1 : ℕ → Machine → Result
unfolding set_low
mtc1 i m = ran (record m { coprocessor = set_low m.coprocessor (rd i) (rt_value i m.processor) })

unfoldable pub mfc1 : ℕ → Machine → Result
unfolding get_low
mfc1 i m =
    ran (record m { processor = set_register m.processor (rt i) (get_low m.coprocessor (rd i)) })

unfoldable pub mthc1 : ℕ → Machine → Result
unfolding set_register_upper
mthc1 i m =
    ran
      (record m { coprocessor = set_register_upper m.coprocessor (rd i) (rt_value i m.processor) })

unfoldable pub mfhc1 : ℕ → Machine → Result
unfolding get_register_upper
mfhc1 i m = ran (record m {
  processor = set_register m.processor (rt i) (get_register_upper m.coprocessor (rd i));
})

-- The instantiations of `SubExecute` for `float` and `double`.
pub data Format : Type 0 where
  single double : Format

unfoldable pub get_as : Format → Coprocessor1 → ℕ → ℕ
unfolding get_low get_long
get_as Format.single c idx = get_low c idx
get_as Format.double c idx = get_long c idx

-- `write_result` of a host that has no floating-point exceptions.
unfoldable pub write_result : Format → ℕ → ℕ → Machine → Result
unfolding set_low set_long
write_result Format.single fd value m =
    ran (record m { coprocessor = set_low m.coprocessor fd value })
write_result Format.double fd value m =
    ran (record m { coprocessor = set_long m.coprocessor fd value })

abbrev pub fd : ℕ → ℕ
fd i = register_field 6 i

unfoldable pub mov : Format → ℕ → Machine → Result
mov f i m = write_result f (fd i) (get_as f m.coprocessor (rd i)) m

is_odd : ℕ → Bool
is_odd value = value % 2 == 1

unfoldable pub sel : Format → ℕ → Machine → Result
unfolding is_odd
sel f i m =
    let c = m.coprocessor in
    let result = if is_odd (get_as f c (fd i)) then get_as f c (rt i) else get_as f c (rd i) in
    write_result f (fd i) result m

unfoldable pub seleqz : Format → ℕ → Machine → Result
unfolding is_odd
seleqz f i m =
    let c = m.coprocessor in
    write_result f (fd i) (if is_odd (get_as f c (rt i)) then 0 else get_as f c (rd i)) m

unfoldable pub selnez : Format → ℕ → Machine → Result
unfolding is_odd
selnez f i m =
    let c = m.coprocessor in
    write_result f (fd i) (if is_odd (get_as f c (rt i)) then get_as f c (rd i) else 0) m

-- A control instruction in a forbidden slot is reserved.
unfoldable pub branch_if : Bool → ℕ → Machine → Result
branch_if taken i m =
    let p = m.processor in
    if p.flags.no_cti
    then throw_at_counter ExceptionType.ri 0 m
    else if taken
    then ran (record m { processor = delay_branch p (branch_address 18 i p) })
    else ran (record m { processor = set_no_cti p })

unfoldable pub bc1eqz : ℕ → Machine → Result
unfolding branch_if is_odd get_low
bc1eqz i m = branch_if (not (is_odd (get_low m.coprocessor (rt i)))) i m

unfoldable pub bc1nez : ℕ → Machine → Result
unfolding branch_if is_odd get_low
bc1nez i m = branch_if (is_odd (get_low m.coprocessor (rt i))) i m
