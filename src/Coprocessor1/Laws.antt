-- ===== src/Coprocessor1/Laws.antt =====
-- Laws of the moves between the processor and the coprocessor, of CTC1 and of CFC1.
use vemips.Base.{
  ℕ, ◌+◌, ◌-◌, ◌*◌, ◌/◌, ◌%◌, ◌^◌, ◌<◌, ◌≡◌, refl, ap, ◌∙◌, Option, none, some, List, [], ◌∷◌,
  arith, if_both, if◌then◌else◌, Bool-cases, inl, inr,
}
use vemips.Processor.Options.{Exception}
use vemips.Processor.{Processor, set_register}
use vemips.Processor.Registers.{HasWords, get_register-lt}
use vemips.Isa.Fields.{rd, rt, rt_value}
use vemips.Coprocessor1.{
  Coprocessor1, Machine, Result, ran, raised, unspecified, to_word, of_word, get_low, get_long,
  get_register_upper, set_low, set_long, set_register_upper, clocked,
}
use vemips.Coprocessor1.Clock.{normalised, clock-of_word}
use vemips.Coprocessor1.Control.{
  control_value, set_control, raise_enabled, raise_unsupported, raise_any_signals, ctc1, cfc1,
}
use vemips.Coprocessor1.Move.{mtc1, mthc1, mfc1, mfhc1}

-- One instruction after another.
infixl 5 ◌>>◌
abbrev pub ◌>>◌ : Result → (Machine → Result) → Result
ran m >> f = f m
raised e m >> f = raised e m
unspecified >> f = unspecified

-- The word without the field of the causes, bits 12 to 17.
abbrev pub without_cause : ℕ → ℕ
without_cause v = v - v / 2 ^ 12 % 64 * 2 ^ 12

without_cause_lem : (v : ℕ) → to_word (record (of_word v) { cause = 0 }) ≡ without_cause v
unfolding to_word of_word
without_cause_lem v = omega arith

-- A check of the signals ends in the machine that it was given.
data IsOwn (m : Machine) : Result → Type 0 where
  own_ran : IsOwn m (ran m)
  own_raised : (e : Exception) → IsOwn m (raised e m)

data IsOwnIf (m : Machine) : Option Result → Type 0 where
  no_signal : IsOwnIf m none
  signal : {r : Result} → IsOwn m r → IsOwnIf m (some r)

raise_enabled-IsOwnIf : (causes : List ℕ) (m : Machine) → IsOwnIf m (raise_enabled causes m)
unfolding raise_enabled
raise_enabled-IsOwnIf [] m = no_signal
raise_enabled-IsOwnIf (ex ∷ rest) m =
    if_both (IsOwnIf m) _ (signal (own_raised _)) (raise_enabled-IsOwnIf rest m)

raise_unsupported-IsOwn : (m : Machine) → IsOwn m (raise_unsupported m)
unfolding raise_unsupported
raise_unsupported-IsOwn m = if_both (IsOwn m) _ (own_raised _) own_ran

or_unsupported-IsOwn :
    (m : Machine) (o : Option Result)
    → IsOwnIf m o
    → IsOwn m (elim o [ some r ↦ r | none ↦ raise_unsupported m ])
or_unsupported-IsOwn m none no_signal = raise_unsupported-IsOwn m
or_unsupported-IsOwn m (some r) (signal h) = h

raise_any_signals-IsOwn : (m : Machine) → IsOwn m (raise_any_signals m)
unfolding raise_any_signals
raise_any_signals-IsOwn m = if_both (IsOwn m) _ own_ran (
    if_both (IsOwn m) _ (raise_unsupported-IsOwn m)
      (or_unsupported-IsOwn m _ (raise_enabled-IsOwnIf (0 ∷ 1 ∷ 2 ∷ 3 ∷ 4 ∷ []) m)))

IsOwn-ran : (m n : Machine) (r : Result) → IsOwn m r → r ≡ ran n → n ≡ m
IsOwn-ran m n _ own_ran h = cc
IsOwn-ran m n _ (own_raised e) h = cc

raise_any_signals-ran : (m n : Machine) → raise_any_signals m ≡ ran n → n ≡ m
raise_any_signals-ran m n h = IsOwn-ran m n _ (raise_any_signals-IsOwn m) h

set_control_fcsr :
    (k v : ℕ) (c : Coprocessor1) → k ≡ 31 → set_control k v c ≡ some (record c { fcsr = of_word v })
unfolding set_control
set_control_fcsr k v c e = rw e

ctc1-ran :
    (i : ℕ) (m n : Machine)
    → rd i ≡ 31
    → ctc1 i m ≡ ran n
    → n
      ≡ record m { coprocessor = record m.coprocessor { fcsr = of_word (rt_value i m.processor) } }
unfolding ctc1
ctc1-ran i m n e h = raise_any_signals-ran _ n (rw (ctc1, set_control_fcsr _ _ _ e) at h)

cfc1_fcsr :
    (j : ℕ) (m : Machine)
    → rd j ≡ 31
    → let c = record m.coprocessor { fcsr = record m.coprocessor.fcsr { cause = 0 } } in
      cfc1 j m
      ≡ ran
          (record { processor = set_register m.processor (rt j) (to_word c.fcsr); coprocessor = c })
unfolding cfc1
cfc1_fcsr j m e = rw (cfc1, control_value, e)

-- What the clock before the next instruction makes of a word that was written to FCSR.
abbrev pub settled : Coprocessor1 → ℕ → ℕ
settled c v = if c.needs_clock then normalised v else v

clocked_lem :
    (p : Processor) (c : Coprocessor1) (v : ℕ)
    → clocked (record { processor = p; coprocessor = record c { fcsr = of_word v } })
      ≡ record { processor = p; coprocessor = record c { fcsr = of_word (settled c v) } }
unfolding clocked
clocked_lem p c v = elim (Bool-cases c.needs_clock) [
  | inl needed ↦ rw (needed, clock-of_word v)
  | inr never ↦ rw never
]

-- When CTC1 writes the word v of a register to FCSR and throws nothing, the clock of the coprocessor
-- and a CFC1 of FCSR that follow end. The register that is read gets v without the causes, bits 12 to
-- 17, which always read as 0. Where the coprocessor needs its clock, bits 18 and 19 read as 1, and
-- bits 20, 23 and 25 to 31 as 0.
pub ctc1-cfc1 :
    (i j : ℕ) (m n : Machine)
    → rd i ≡ 31
    → rd j ≡ 31
    → ctc1 i m ≡ ran n
    → (k : Machine) × (cfc1 j (clocked n) ≡ ran k)
      × (k.processor
          ≡ set_register m.processor
              (rt j)
              (without_cause (settled m.coprocessor (rt_value i m.processor))))
ctc1-cfc1 i j m n e f h =
    let v = rt_value i m.processor in
    (
      _,
      cfc1_fcsr j (clocked n) f,
      ap (λ k. set_register k.processor (rt j) (to_word (record k.coprocessor.fcsr { cause = 0 })))
            (ap clocked (ctc1-ran i m n e h) ∙ clocked_lem m.processor m.coprocessor v)
          ∙ ap (λ w. set_register m.processor (rt j) w)
              (without_cause_lem (settled m.coprocessor v)),
    )

-- The floating-point register that two moves of its halves leave.
abbrev joined : Coprocessor1 → ℕ → ℕ → ℕ → Coprocessor1
joined c k lo hi = set_register_upper (set_low c k lo) k hi

joined-get_long :
    (c : Coprocessor1) (k lo hi : ℕ)
    → lo < 2 ^ 32
    → get_long (joined c k lo hi) k ≡ hi * 2 ^ 32 + lo
unfolding get_long set_register_upper set_low set_long
joined-get_long c k lo hi fits = ground arith

joined-get_low : (c : Coprocessor1) (k lo hi : ℕ) → lo < 2 ^ 32 → get_low (joined c k lo hi) k ≡ lo
unfolding get_low set_register_upper set_low set_long
joined-get_low c k lo hi fits = ground arith

joined-get_register_upper :
    (c : Coprocessor1) (k lo hi : ℕ) → get_register_upper (joined c k lo hi) k ≡ hi
unfolding get_register_upper set_register_upper set_low set_long
joined-get_register_upper c k lo hi = ground arith

joined-apart :
    (c : Coprocessor1) (k lo hi other : ℕ)
    → ¬ (other ≡ k)
    → (joined c k lo hi).registers other ≡ c.registers other
unfolding set_register_upper set_low set_long
joined-apart c k lo hi other apart = ground arith

-- MTC1 of one register and MTHC1 of another to one floating-point register, then MFC1 and MFHC1 of
-- it, end. The register then holds both words, the second one above, the processor's last two
-- destinations get the two words, and the other floating-point registers stay.
pub halves_move :
    (lo hi lo_back hi_back : ℕ) (m : Machine)
    → HasWords m.processor
    → rd hi ≡ rd lo
    → rd lo_back ≡ rd lo
    → rd hi_back ≡ rd lo
    → (n : Machine) × (mtc1 lo m >> mthc1 hi >> mfc1 lo_back >> mfhc1 hi_back ≡ ran n)
      × (get_long n.coprocessor (rd lo)
          ≡ rt_value hi m.processor * 2 ^ 32 + rt_value lo m.processor)
      × (n.processor
          ≡ set_register
              (set_register m.processor (rt lo_back) (rt_value lo m.processor))
              (rt hi_back)
              (rt_value hi m.processor))
      × ((k : ℕ) → ¬ (k ≡ rd lo) → n.coprocessor.registers k ≡ m.coprocessor.registers k)
unfolding mtc1 mthc1 mfc1 mfhc1
halves_move lo hi lo_back hi_back m words same_hi same_lo_back same_hi_back =
    let p = m.processor in
    let c = m.coprocessor in
    let v = rt_value lo p in
    let w = rt_value hi p in
    let fits = get_register-lt p (rt lo) words in
    (
      record {
        processor = set_register (set_register p (rt lo_back) v) (rt hi_back) w;
        coprocessor = joined c (rd lo) v w;
      },
      rw (
        same_hi,
        mfhc1,
        same_lo_back,
        same_hi_back,
        joined-get_low c (rd lo) v w fits,
        joined-get_register_upper c (rd lo) v w,
      ),
      joined-get_long c (rd lo) v w fits,
      refl,
      joined-apart c (rd lo) v w,
    )
