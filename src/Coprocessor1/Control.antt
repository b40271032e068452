-- ===== src/Coprocessor1/Control.antt =====
-- The control registers: `FPCRegister` and `raise_any_signals`
-- (src/mips/instructions/coprocessor1_support.hpp), CTC1 and CFC1
-- (src/mips/instructions/coprocessor1_inst.cpp).
use vemips.Base.{
  ℕ, ◌+◌, ◌*◌, ◌/◌, ◌%◌, ◌^◌, ◌==◌, if◌then◌else◌, Bool, ◌&&◌, Option, none, some, List, [], ◌∷◌,
}
use vemips.Processor.Options.{ExceptionType}
use vemips.Processor.{set_register}
use vemips.Isa.Fields.{rd, rt, rt_value}
use vemips.Coprocessor1.{
  Coprocessor1, Machine, Result, ran, unspecified, to_word, of_word, get_fexr, set_fexr, get_fenr,
  set_fenr, throw_at_counter,
}

-- `FIR`, whose fields have only their initializers' values.
abbrev pub fir : ℕ
fir = 1 + 255 * 2 ^ 8 + 1 * 2 ^ 16 + 1 * 2 ^ 17 + 1 * 2 ^ 22 + 1 * 2 ^ 23

-- `FPCRegister::value`; there is no value where it throws.
unfoldable pub control_value : ℕ → Coprocessor1 → Option ℕ
unfolding to_word get_fexr get_fenr
control_value register c =
    if register == 0
    then some fir
    else if register == 31
    then some (to_word c.fcsr)
    else if register == 26
    then some (get_fexr c.fcsr)
    else if register == 28
    then some (get_fenr c.fcsr)
    else none

-- `FPCRegister::set`.
unfoldable pub set_control : ℕ → ℕ → Coprocessor1 → Option Coprocessor1
unfolding of_word set_fexr set_fenr
set_control register value c =
    if register == 31
    then some (record c { fcsr = of_word value })
    else if register == 26
    then some (record c { fcsr = set_fexr value c.fcsr })
    else if register == 28
    then some (record c { fcsr = set_fenr value c.fcsr })
    else none

has_bit : ℕ → ℕ → Bool
has_bit mask k = mask / 2 ^ k % 2 == 1

-- The loop over the enabled causes, each by the place of its bit.
unfoldable pub raise_enabled : List ℕ → Machine → Option Result
unfolding has_bit
raise_enabled [] m = none
raise_enabled (ex ∷ rest) m =
    let others = raise_enabled rest m in
    if has_bit m.coprocessor.fcsr.enables ex && has_bit m.coprocessor.fcsr.cause ex
    then some (throw_at_counter ExceptionType.fpe (2 ^ ex) m)
    else others

unfoldable pub raise_unsupported : Machine → Result
unfolding has_bit
raise_unsupported m =
    if has_bit m.coprocessor.fcsr.cause 5 then throw_at_counter ExceptionType.fpe 32 m else ran m

unfoldable pub raise_any_signals : Machine → Result
unfolding raise_enabled raise_unsupported
raise_any_signals m =
    if m.coprocessor.fcsr.cause == 0
    then ran m
    else if m.coprocessor.fcsr.enables == 0
    then raise_unsupported m
    else elim (raise_enabled (0 ∷ 1 ∷ 2 ∷ 3 ∷ 4 ∷ []) m) [ some r ↦ r | none ↦ raise_unsupported m ]

-- `FPCRegister::set` is `noexcept`.
unfoldable pub ctc1 : ℕ → Machine → Result
unfolding set_control raise_any_signals
ctc1 i m = elim (set_control (rd i) (rt_value i m.processor) m.coprocessor) [
  | some c ↦ raise_any_signals (record m { coprocessor = c })
  | none ↦ unspecified
]

-- `OpFlags::ClearsCause` comes before the body, and `FPCRegister::value` is `noexcept`.
unfoldable pub cfc1 : ℕ → Machine → Result
unfolding control_value
cfc1 i m =
    let fcsr = record m.coprocessor.fcsr { cause = 0 } in
    let c = record m.coprocessor { fcsr = fcsr } in
    elim (control_value (rd i) c) [
      | some v ↦ ran (record m { processor = set_register m.processor (rt i) v; coprocessor = c })
      | none ↦ unspecified
    ]
