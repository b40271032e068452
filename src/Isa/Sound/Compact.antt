-- ===== src/Isa/Sound/Compact.antt =====
-- Compact branches (processor_inst.cpp) on sound states.
use vemips.Base.{
  ℕ, arith, if_both, ◌==◌, ◌&&◌, not, Bool, ltb, leb, leb_ℤ, ltb_ℤ, signed32, pos, add32,
}
use vemips.Processor.{Processor, compact_branch}
use vemips.Isa.Fields.{rs, rt, rs_value, rt_value, immediate, branch_address}
use vemips.Isa.CompactBranch.{
  compact_branch_if, nonzero, linked, sum_overflows, balc, bc, blezalc, pop06, bgtzalc, pop07,
  pop10, pop30, blezc, pop26, bgtzc, pop27, beqzc, bnezc, jic, jialc,
}
use vemips.Isa.Sound.{
  IsSound, AllFollow, Follows, stay, then-Follows, all_then, set_link-Follows,
  compact_branch-Follows, set_no_cti-Follows,
}
use vemips.Isa.Sound.Control.{branch_address-lt}

compact_branch_if-AllFollow :
    (test : Bool) (w i : ℕ) (p : Processor) → IsSound p → AllFollow p (compact_branch_if test w i p)
unfolding compact_branch_if
compact_branch_if-AllFollow test w i p s =
    if_both (Follows p) test
      (compact_branch-Follows p (branch_address w i p) s (branch_address-lt w i p))
      (set_no_cti-Follows p s)

linked-Follows : (p : Processor) → IsSound p → Follows p (linked p)
linked-Follows p s = set_link-Follows p (add32 p.program_counter 4) s (omega arith)

-- A compact branch after its link.
link_then_branch :
    (test : Bool) (i : ℕ) (p : Processor)
    → IsSound p
    → AllFollow p (compact_branch_if test 18 i (linked p))
link_then_branch test i p s =
    let f = linked-Follows p s in
    all_then p (linked p) (compact_branch_if test 18 i (linked p)) f
      (compact_branch_if-AllFollow test 18 i (linked p) f.0)

pub balc-AllFollow : (i : ℕ) (p : Processor) → IsSound p → AllFollow p (balc i p)
unfolding balc
balc-AllFollow i p s =
    let q = linked p in
    then-Follows p q (compact_branch q (branch_address 28 i p)) (linked-Follows p s) (
      compact_branch-Follows q (branch_address 28 i p) (linked-Follows p s).0
        (branch_address-lt 28 i p))

pub bc-AllFollow : (i : ℕ) (p : Processor) → IsSound p → AllFollow p (bc i p)
unfolding bc
bc-AllFollow i p s = compact_branch-Follows p (branch_address 28 i p) s (branch_address-lt 28 i p)

pub blezalc-AllFollow : (i : ℕ) (p : Processor) → IsSound p → AllFollow p (blezalc i p)
unfolding blezalc
blezalc-AllFollow i p s =
    (if_both (AllFollow p) (nonzero (rt i))
      (link_then_branch (leb_ℤ (signed32 (rt_value i (linked p))) (pos 0)) i p s) (stay p s))

pub bgtzalc-AllFollow : (i : ℕ) (p : Processor) → IsSound p → AllFollow p (bgtzalc i p)
unfolding bgtzalc
bgtzalc-AllFollow i p s =
    (if_both (AllFollow p) (nonzero (rt i))
      (link_then_branch (ltb_ℤ (pos 0) (signed32 (rt_value i (linked p)))) i p s) (stay p s))

pub pop06-AllFollow : (i : ℕ) (p : Processor) → IsSound p → AllFollow p (pop06 i p)
unfolding pop06
pop06-AllFollow i p s =
    (if_both (AllFollow p) (nonzero (rs i) && rs i == rt i)
      (link_then_branch (leb_ℤ (pos 0) (signed32 (rt_value i (linked p)))) i p s)
      (if_both (AllFollow p) (not (rs i == rt i) && nonzero (rs i) && nonzero (rt i))
        (compact_branch_if-AllFollow (leb (rt_value i p) (rs_value i p)) 18 i p s) (stay p s)))

pub pop07-AllFollow : (i : ℕ) (p : Processor) → IsSound p → AllFollow p (pop07 i p)
unfolding pop07
pop07-AllFollow i p s =
    (if_both (AllFollow p) (nonzero (rs i) && rs i == rt i)
      (link_then_branch (ltb_ℤ (signed32 (rt_value i (linked p))) (pos 0)) i p s)
      (if_both (AllFollow p) (not (rs i == rt i) && nonzero (rs i) && nonzero (rt i))
        (compact_branch_if-AllFollow (ltb (rs_value i p) (rt_value i p)) 18 i p s) (stay p s)))

pub pop10-AllFollow : (i : ℕ) (p : Processor) → IsSound p → AllFollow p (pop10 i p)
unfolding pop10
pop10-AllFollow i p s =
    (if_both (AllFollow p) (rs i == 0 && nonzero (rt i))
      (link_then_branch (rt_value i (linked p) == 0) i p s)
      (if_both (AllFollow p) (nonzero (rs i) && nonzero (rt i) && ltb (rs i) (rt i))
        (compact_branch_if-AllFollow (rt_value i p == rs_value i p) 18 i p s)
        (if_both (AllFollow p) (leb (rt i) (rs i))
          (compact_branch_if-AllFollow (sum_overflows i p) 18 i p s) (stay p s))))

pub pop30-AllFollow : (i : ℕ) (p : Processor) → IsSound p → AllFollow p (pop30 i p)
unfolding pop30
pop30-AllFollow i p s =
    (if_both (AllFollow p) (rs i == 0 && nonzero (rs i))
      (link_then_branch (not (rt_value i (linked p) == 0)) i p s)
      (if_both (AllFollow p) (nonzero (rs i) && nonzero (rt i) && ltb (rs i) (rt i))
        (compact_branch_if-AllFollow (not (rt_value i p == rs_value i p)) 18 i p s)
        (if_both (AllFollow p) (leb (rt i) (rs i))
          (compact_branch_if-AllFollow (not (sum_overflows i p)) 18 i p s) (stay p s))))

pub blezc-AllFollow : (i : ℕ) (p : Processor) → IsSound p → AllFollow p (blezc i p)
unfolding blezc
blezc-AllFollow i p s =
    (if_both (AllFollow p) (nonzero (rt i))
      (compact_branch_if-AllFollow (leb_ℤ (signed32 (rt_value i p)) (pos 0)) 18 i p s) (stay p s))

pub bgtzc-AllFollow : (i : ℕ) (p : Processor) → IsSound p → AllFollow p (bgtzc i p)
unfolding bgtzc
bgtzc-AllFollow i p s =
    (if_both (AllFollow p) (nonzero (rt i))
      (compact_branch_if-AllFollow (ltb_ℤ (pos 0) (signed32 (rt_value i p))) 18 i p s) (stay p s))

pub pop26-AllFollow : (i : ℕ) (p : Processor) → IsSound p → AllFollow p (pop26 i p)
unfolding pop26
pop26-AllFollow i p s =
    (if_both (AllFollow p) (nonzero (rs i) && nonzero (rt i))
      (if_both (AllFollow p) (rs i == rt i)
        (compact_branch_if-AllFollow (leb_ℤ (pos 0) (signed32 (rt_value i p))) 18 i p s)
        (compact_branch_if-AllFollow (leb_ℤ (signed32 (rt_value i p)) (signed32 (rs_value i p))) 18
          i p s))
      (stay p s))

pub pop27-AllFollow : (i : ℕ) (p : Processor) → IsSound p → AllFollow p (pop27 i p)
unfolding pop27
pop27-AllFollow i p s =
    (if_both (AllFollow p) (nonzero (rs i) && nonzero (rt i))
      (if_both (AllFollow p) (rs i == rt i)
        (compact_branch_if-AllFollow (ltb_ℤ (signed32 (rt_value i p)) (pos 0)) 18 i p s)
        (compact_branch_if-AllFollow (ltb_ℤ (signed32 (rs_value i p)) (signed32 (rt_value i p))) 18
          i p s))
      (stay p s))

pub beqzc-AllFollow : (i : ℕ) (p : Processor) → IsSound p → AllFollow p (beqzc i p)
unfolding beqzc
beqzc-AllFollow i p s = compact_branch_if-AllFollow (rs_value i p == 0) 23 i p s

pub bnezc-AllFollow : (i : ℕ) (p : Processor) → IsSound p → AllFollow p (bnezc i p)
unfolding bnezc
bnezc-AllFollow i p s = compact_branch_if-AllFollow (not (rs_value i p == 0)) 23 i p s

pub jic-AllFollow : (i : ℕ) (p : Processor) → IsSound p → AllFollow p (jic i p)
unfolding jic
jic-AllFollow i p s = compact_branch-Follows p _ s (omega arith)

pub jialc-AllFollow : (i : ℕ) (p : Processor) → IsSound p → AllFollow p (jialc i p)
unfolding jialc
jialc-AllFollow i p s =
    let f = linked-Follows p s in
    let target = add32 (rt_value i p) (immediate i) in
    then-Follows p (linked p) (compact_branch (linked p) target) f
      (compact_branch-Follows (linked p) target f.0 (omega arith))
