-- ===== src/Isa/CompactBranch.antt =====
-- Compact branches, which have no delay slot (processor_inst.cpp). The instructions of a POP group
-- are told apart by the register numbers in their `rs` and `rt` fields.
use vemips.Base.{
  ℕ, ltb, leb, ◌==◌, if◌then◌else◌, Bool, not, ◌&&◌, add32, signed32, ltb_ℤ, leb_ℤ, pos, ◌+ℤ◌,
}
use vemips.Processor.Options.{ExceptionType}
use vemips.Processor.{Processor, Outcome, done, compact_branch, set_no_cti, set_link, throw_helper}
use vemips.Isa.Fields.{rs, rt, rs_value, rt_value, immediate, branch_address}
use vemips.Isa.Arithmetic.{overflows}

unfoldable pub compact_branch_if : Bool → ℕ → ℕ → Processor → Outcome Processor
compact_branch_if taken w i p =
    done (if taken then compact_branch p (branch_address w i p) else set_no_cti p)

abbrev pub reserved : Processor → Outcome Processor
reserved p = throw_helper ExceptionType.ri p.program_counter 0 p

-- A register number that is not 0.
abbrev pub nonzero : ℕ → Bool
nonzero r = not (r == 0)

-- The forms with a link read their operand after the link is written.
abbrev pub linked : Processor → Processor
linked p = set_link p (add32 p.program_counter 4)

unfoldable pub balc : ℕ → Processor → Outcome Processor
balc i p = done (compact_branch (linked p) (branch_address 28 i p))

unfoldable pub bc : ℕ → Processor → Outcome Processor
bc i p = done (compact_branch p (branch_address 28 i p))

unfoldable pub blezalc : ℕ → Processor → Outcome Processor
unfolding compact_branch_if
blezalc i p =
    let q = linked p in
    if nonzero (rt i)
    then compact_branch_if (leb_ℤ (signed32 (rt_value i q)) (pos 0)) 18 i q
    else reserved p

-- BGEZALC and BGEUC.
unfoldable pub pop06 : ℕ → Processor → Outcome Processor
unfolding compact_branch_if
pop06 i p =
    let q = linked p in
    if nonzero (rs i) && rs i == rt i
    then compact_branch_if (leb_ℤ (pos 0) (signed32 (rt_value i q))) 18 i q
    else if not (rs i == rt i) && nonzero (rs i) && nonzero (rt i)
    then compact_branch_if (leb (rt_value i p) (rs_value i p)) 18 i p
    else reserved p

unfoldable pub bgtzalc : ℕ → Processor → Outcome Processor
unfolding compact_branch_if
bgtzalc i p =
    let q = linked p in
    if nonzero (rt i)
    then compact_branch_if (ltb_ℤ (pos 0) (signed32 (rt_value i q))) 18 i q
    else reserved p

-- BLTZALC and BLTUC.
unfoldable pub pop07 : ℕ → Processor → Outcome Processor
unfolding compact_branch_if
pop07 i p =
    let q = linked p in
    if nonzero (rs i) && rs i == rt i
    then compact_branch_if (ltb_ℤ (signed32 (rt_value i q)) (pos 0)) 18 i q
    else if not (rs i == rt i) && nonzero (rs i) && nonzero (rt i)
    then compact_branch_if (ltb (rs_value i p) (rt_value i p)) 18 i p
    else reserved p

abbrev pub sum_overflows : ℕ → Processor → Bool
sum_overflows i p = overflows (signed32 (rs_value i p) +ℤ signed32 (rt_value i p))

-- BEQZALC, BEQC and BOVC.
unfoldable pub pop10 : ℕ → Processor → Outcome Processor
unfolding compact_branch_if
pop10 i p =
    let q = linked p in
    if rs i == 0 && nonzero (rt i)
    then compact_branch_if (rt_value i q == 0) 18 i q
    else if nonzero (rs i) && nonzero (rt i) && ltb (rs i) (rt i)
    then compact_branch_if (rt_value i p == rs_value i p) 18 i p
    else if leb (rt i) (rs i)
    then compact_branch_if (sum_overflows i p) 18 i p
    else reserved p

-- BNEZALC, BNEC and BNVC; the first test asks `rs` to be 0 and not 0.
unfoldable pub pop30 : ℕ → Processor → Outcome Processor
unfolding compact_branch_if
pop30 i p =
    let q = linked p in
    if rs i == 0 && nonzero (rs i)
    then compact_branch_if (not (rt_value i q == 0)) 18 i q
    else if nonzero (rs i) && nonzero (rt i) && ltb (rs i) (rt i)
    then compact_branch_if (not (rt_value i p == rs_value i p)) 18 i p
    else if leb (rt i) (rs i)
    then compact_branch_if (not (sum_overflows i p)) 18 i p
    else reserved p

unfoldable pub blezc : ℕ → Processor → Outcome Processor
unfolding compact_branch_if
blezc i p =
    if nonzero (rt i)
    then compact_branch_if (leb_ℤ (signed32 (rt_value i p)) (pos 0)) 18 i p
    else reserved p

-- BGEZC and BGEC.
unfoldable pub pop26 : ℕ → Processor → Outcome Processor
unfolding compact_branch_if
pop26 i p =
    if nonzero (rs i) && nonzero (rt i)
    then if rs i == rt i
      then compact_branch_if (leb_ℤ (pos 0) (signed32 (rt_value i p))) 18 i p
      else compact_branch_if (leb_ℤ (signed32 (rt_value i p)) (signed32 (rs_value i p))) 18 i p
    else reserved p

unfoldable pub bgtzc : ℕ → Processor → Outcome Processor
unfolding compact_branch_if
bgtzc i p =
    if nonzero (rt i)
    then compact_branch_if (ltb_ℤ (pos 0) (signed32 (rt_value i p))) 18 i p
    else reserved p

-- BLTZC and BLTC.
unfoldable pub pop27 : ℕ → Processor → Outcome Processor
unfolding compact_branch_if
pop27 i p =
    if nonzero (rs i) && nonzero (rt i)
    then if rs i == rt i
      then compact_branch_if (ltb_ℤ (signed32 (rt_value i p)) (pos 0)) 18 i p
      else compact_branch_if (ltb_ℤ (signed32 (rs_value i p)) (signed32 (rt_value i p))) 18 i p
    else reserved p

unfoldable pub beqzc : ℕ → Processor → Outcome Processor
unfolding compact_branch_if
beqzc i p = compact_branch_if (rs_value i p == 0) 23 i p

unfoldable pub bnezc : ℕ → Processor → Outcome Processor
unfolding compact_branch_if
bnezc i p = compact_branch_if (not (rs_value i p == 0)) 23 i p

unfoldable pub jic : ℕ → Processor → Outcome Processor
jic i p = done (compact_branch p (add32 (rt_value i p) (immediate i)))

-- The target is read before the link is written.
unfoldable pub jialc : ℕ → Processor → Outcome Processor
jialc i p = done (compact_branch (linked p) (add32 (rt_value i p) (immediate i)))
