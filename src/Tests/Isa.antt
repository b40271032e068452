-- ===== src/Tests/Isa.antt =====
-- Arithmetic and branches. The words name rs, rt and rd as 2, 3 and 4, or as they say.
use vemips.Base.{
  if◌then◌else◌, ◌==◌, leb_ℤ, not, ◌≢◌, ℕ, ◌+◌, ◌*◌, ◌-◌, ◌≡◌, ◌⊎◌, ◌^◌, ◌<◌, inl, refl, arith,
  signed32, pos, ◌+ℤ◌, ◌-ℤ◌, ◌*ℤ◌,
}
use vemips.Processor.Options.{ExceptionType, cpu_exception}
use vemips.Processor.{Processor, done, thrown, undefined, set_register, update, get_register}
use vemips.Processor.Registers.{HasWords}
use vemips.Isa.Fields.{rs, rt, rd, rs_value, rt_value, register_field}
use vemips.Isa.Arithmetic.{add, sub, addu, subu}
use vemips.Isa.MulDiv.{mul, muh, mulu, muhu, div, modulo}
use vemips.Isa.Logic.{align, clz, clo}
use vemips.Isa.CompactBranch.{pop10, pop30, pop26, pop27, compact_branch_if}
use vemips.Isa.Overflow.{IsChecked, add-exact, sub-exact}
use vemips.Isa.Products.{IsDivision, mulu-muhu, mul-muh, div-modulo}
use vemips.Isa.Branches.{AreOpposite, pop26-pop27, pop10-pop30, pop30-reserved}
use vemips.Isa.Words.{HasLeading, clz-clo, align-undefined}
use vemips.Tests.State.{start, start-HasWords}

abbrev word : ℕ
word = 2 * 2 ^ 21 + 3 * 2 ^ 16 + 4 * 2 ^ 11

-- The greatest int32 in register 2, and -7 in register 3.
abbrev extreme : Processor
extreme = record start { registers = update (update start.registers 2 0x7fffffff) 3 0xfffffff9 }

extreme-HasWords : HasWords extreme
extreme-HasWords r = ground (arith, start-HasWords r)

add-exact_example :
    IsChecked
      (signed32 (rs_value word extreme) +ℤ signed32 (rt_value word extreme))
      (rd word)
      extreme
      (addu word extreme)
      (add word extreme)
add-exact_example = add-exact word extreme extreme-HasWords

sub-exact_example :
    IsChecked
      (signed32 (rs_value word extreme) -ℤ signed32 (rt_value word extreme))
      (rd word)
      extreme
      (subu word extreme)
      (sub word extreme)
sub-exact_example = sub-exact word extreme extreme-HasWords

mulu-muhu_example :
    (hi : ℕ) × (lo : ℕ) × (muhu word extreme ≡ done (set_register extreme (rd word) hi))
    × (mulu word extreme ≡ done (set_register extreme (rd word) lo))
    × (lo < 2 ^ 32)
    × (hi * 2 ^ 32 + lo ≡ rs_value word extreme * rt_value word extreme)
mulu-muhu_example = mulu-muhu word extreme extreme-HasWords

mul-muh_example :
    (hi : ℕ) × (lo : ℕ) × (muh word extreme ≡ done (set_register extreme (rd word) hi))
    × (mul word extreme ≡ done (set_register extreme (rd word) lo))
    × (lo < 2 ^ 32)
    × (signed32 hi *ℤ pos (2 ^ 32) +ℤ pos lo
        ≡ signed32 (rs_value word extreme) *ℤ signed32 (rt_value word extreme))
mul-muh_example = mul-muh word extreme extreme-HasWords

extreme_rt : rt_value word extreme ≡ 0xfffffff9
unfolding register_field get_register
extreme_rt = refl

div-modulo_example :
    (x : ℕ) × (y : ℕ) × (div word extreme ≡ done (set_register extreme (rd word) x))
    × (modulo word extreme ≡ done (set_register extreme (rd word) y))
    × IsDivision (rs_value word extreme) (rt_value word extreme) x y
div-modulo_example =
    div-modulo word extreme extreme-HasWords (ground (arith, extreme_rt))
      (ground (arith, extreme_rt))

pop26-pop27_example :
    let reserved_instruction = cpu_exception ExceptionType.ri extreme.program_counter 0 in
    let least = if rs word == rt word then pos 0 else signed32 (rt_value word extreme) in
    let taken = leb_ℤ least (signed32 (rs_value word extreme)) in
    ((rs word ≢ 0)
      × (rt word ≢ 0)
      × (pop26 word extreme ≡ compact_branch_if taken 18 word extreme)
      × (pop27 word extreme ≡ compact_branch_if (not taken) 18 word extreme))
    ⊎ (((rs word ≡ 0) ⊎ (rt word ≡ 0))
        × (pop26 word extreme ≡ thrown reserved_instruction extreme)
        × (pop27 word extreme ≡ thrown reserved_instruction extreme))
pop26-pop27_example = pop26-pop27 word extreme

word-rs : rs word ≡ 2
unfolding register_field
word-rs = refl

pop10-pop30_example : AreOpposite 18 word extreme (pop10 word extreme) (pop30 word extreme)
pop10-pop30_example = pop10-pop30 word extreme (inl (ground (arith, word-rs)))

-- BNEZALC $3.
abbrev bnezalc_word : ℕ
bnezalc_word = 0x60000000 + 3 * 2 ^ 16 + 8

bnezalc_rs : rs bnezalc_word ≡ 0
unfolding register_field
bnezalc_rs = refl

bnezalc_rt : rt bnezalc_word ≡ 3
unfolding register_field
bnezalc_rt = refl

pop30-reserved_example :
    pop30 bnezalc_word start ≡ thrown (cpu_exception ExceptionType.ri 0x100 0) start
pop30-reserved_example = pop30-reserved bnezalc_word start bnezalc_rs (ground (arith, bnezalc_rt))

clz-clo_example :
    ((c : ℕ) × (clz word start ≡ done (set_register start (rd word) c))
      × HasLeading 32 (rs_value word start) c)
    × ((c : ℕ) × (clo word start ≡ done (set_register start (rd word) c))
        × HasLeading 32 (2 ^ 32 - 1 - rs_value word start) c)
clz-clo_example = clz-clo word start start-HasWords

-- ALIGN $4, $2, $3, 1.
align-undefined_example : align 0x7c432260 start ≡ undefined
align-undefined_example = align-undefined 0x7c432260 start refl
