-- ===== src/Isa/Branches.antt =====
-- The compact branches that come in pairs of opposite tests, and the encoding that none of them
-- serves (processor_inst.cpp).
use vemips.Base.{
  ℕ, ◌≡◌, ◌≢◌, ◌⊎◌, inl, inr, refl, arith, Bool, Bool-cases, not, ◌&&◌, ◌==◌, ltb, leb_ℤ, signed32,
  pos, if◌then◌else◌,
}
use vemips.Processor.Options.{ExceptionType, cpu_exception}
use vemips.Processor.{Processor, Outcome, thrown}
use vemips.Isa.Fields.{rs, rt, rs_value, rt_value}
use vemips.Isa.CompactBranch.{compact_branch_if, pop10, pop30, pop26, pop27, nonzero, sum_overflows}

-- Two branches of which exactly one is taken, to the same address.
abbrev pub AreOpposite : ℕ → ℕ → Processor → Outcome Processor → Outcome Processor → Type 0
AreOpposite w i p a b =
    (taken : Bool) × (a ≡ compact_branch_if taken w i p) × (b ≡ compact_branch_if (not taken) w i p)

-- Where neither field names register 0, exactly one of POP26 and POP27 is taken, to the same address:
-- POP26 where rs is at least rt as signed words, or, where both fields name one register, where it
-- is at least 0. Where either field names register 0, both raise the reserved instruction exception.
pub pop26-pop27 :
    (i : ℕ) (p : Processor)
    → let reserved_instruction = cpu_exception ExceptionType.ri p.program_counter 0 in
      let least = if rs i == rt i then pos 0 else signed32 (rt_value i p) in
      let taken = leb_ℤ least (signed32 (rs_value i p)) in
      ((rs i ≢ 0)
        × (rt i ≢ 0)
        × (pop26 i p ≡ compact_branch_if taken 18 i p)
        × (pop27 i p ≡ compact_branch_if (not taken) 18 i p))
      ⊎ (((rs i ≡ 0) ⊎ (rt i ≡ 0))
          × (pop26 i p ≡ thrown reserved_instruction p)
          × (pop27 i p ≡ thrown reserved_instruction p))
unfolding pop26 pop27
pop26-pop27 i p = elim (Bool-cases (nonzero (rs i) && nonzero (rt i))) [
  | inl named ↦ elim (Bool-cases (rs i == rt i)) [
    | inl same ↦ inl (ground arith, ground arith, ground arith, ground arith)
    | inr apart ↦ inl (ground arith, ground arith, ground arith, ground arith)
  ]
  | inr unnamed ↦ inr (ground arith, rw unnamed refl, rw unnamed refl)
]

-- Of POP10 and POP30, exactly one is taken, to the same address, unless `rs` is register 0 and `rt` is
-- not: BEQC and BNEC, BOVC and BNVC are opposite.
pub pop10-pop30 :
    (i : ℕ) (p : Processor) → (rs i ≢ 0) ⊎ (rt i ≡ 0) → AreOpposite 18 i p (pop10 i p) (pop30 i p)
unfolding pop10 pop30
pop10-pop30 i p linkless =
    elim (Bool-cases (nonzero (rs i) && nonzero (rt i) && ltb (rs i) (rt i))) [
      | inl distinct ↦ (rt_value i p == rs_value i p, ground arith, ground arith)
      | inr ordered ↦ (sum_overflows i p, ground arith, ground arith)
    ]

-- BNEZALC, which is POP30 with register 0 in `rs` and another one in `rt`, always raises the reserved
-- instruction exception.
pub pop30-reserved :
    (i : ℕ) (p : Processor)
    → rs i ≡ 0
    → rt i ≢ 0
    → pop30 i p ≡ thrown (cpu_exception ExceptionType.ri p.program_counter 0) p
unfolding pop30
pop30-reserved i p zero nonzero_rt = ground arith
