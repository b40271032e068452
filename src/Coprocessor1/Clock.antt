-- ===== src/Coprocessor1/Clock.antt =====
-- What the clock does to the status word (`FCSR::clock` of
-- src/mips/coprocessor/coprocessor1/coprocessor1.cpp), field by field.
use vemips.Base.{ℕ, ◌+◌, ◌-◌, ◌*◌, ◌/◌, ◌%◌, ◌^◌, ◌≡◌, refl, ap, ◌∙◌, bit_and, bit_or, arith}
use vemips.Base.Bits.{and_step, or_step, or-zero}
use vemips.Base.Masks.{bit_and-zero}
use vemips.Coprocessor1.{to_word, of_word, clock, reference_fcsr_ones, reference_fcsr_zeros}

-- Three digits at a time: a mask of ones keeps them, and so does a disjunction with zeros.
and_ones : (x z : ℕ) → z % 8 ≡ 7 → bit_and x z ≡ bit_and (x / 8) (z / 8) * 8 + x % 8
and_ones x z ones =
    let e : x / 2 / 2 / 2 ≡ x / 8 = omega arith in
    let f : z / 2 / 2 / 2 ≡ z / 8 = omega arith in
    let g : bit_and (x / 2 / 2 / 2) (z / 2 / 2 / 2) ≡ bit_and (x / 8) (z / 8) = rw (e, f) refl in
    omega (arith, and_step x z, and_step (x / 2) (z / 2), and_step (x / 2 / 2) (z / 2 / 2), g)

or_zeros : (x z : ℕ) → z % 8 ≡ 0 → bit_or x z ≡ bit_or (x / 8) (z / 8) * 8 + x % 8
or_zeros x z zeros =
    let e : x / 2 / 2 / 2 ≡ x / 8 = omega arith in
    let f : z / 2 / 2 / 2 ≡ z / 8 = omega arith in
    let g : bit_or (x / 2 / 2 / 2) (z / 2 / 2 / 2) ≡ bit_or (x / 8) (z / 8) = rw (e, f) refl in
    omega (arith, or_step x z, or_step (x / 2) (z / 2), or_step (x / 2 / 2) (z / 2 / 2), g)

-- The same for 18 digits.
and_ones18 :
    (x z : ℕ)
    → z % 2 ^ 18 ≡ 2 ^ 18 - 1
    → bit_and x z ≡ bit_and (x / 2 ^ 18) (z / 2 ^ 18) * 2 ^ 18 + x % 2 ^ 18
and_ones18 x z ones =
    let e : x / 8 / 8 / 8 / 8 / 8 / 8 ≡ x / 2 ^ 18 = omega arith in
    let f : z / 8 / 8 / 8 / 8 / 8 / 8 ≡ z / 2 ^ 18 = omega arith in
    let g : bit_and (x / 8 / 8 / 8 / 8 / 8 / 8) (z / 8 / 8 / 8 / 8 / 8 / 8)
        ≡ bit_and (x / 2 ^ 18) (z / 2 ^ 18) =
      rw (e, f) refl in
    omega (
      arith,
      and_ones x z (omega arith),
      and_ones (x / 8) (z / 8) (omega arith),
      and_ones (x / 8 / 8) (z / 8 / 8) (omega arith),
      and_ones (x / 8 / 8 / 8) (z / 8 / 8 / 8) (omega arith),
      and_ones (x / 8 / 8 / 8 / 8) (z / 8 / 8 / 8 / 8) (omega arith),
      and_ones (x / 8 / 8 / 8 / 8 / 8) (z / 8 / 8 / 8 / 8 / 8) (omega arith),
      g,
    )

or_zeros18 :
    (x z : ℕ) → z % 2 ^ 18 ≡ 0 → bit_or x z ≡ bit_or (x / 2 ^ 18) (z / 2 ^ 18) * 2 ^ 18 + x % 2 ^ 18
or_zeros18 x z zeros =
    let e : x / 8 / 8 / 8 / 8 / 8 / 8 ≡ x / 2 ^ 18 = omega arith in
    let f : z / 8 / 8 / 8 / 8 / 8 / 8 ≡ z / 2 ^ 18 = omega arith in
    let g : bit_or (x / 8 / 8 / 8 / 8 / 8 / 8) (z / 8 / 8 / 8 / 8 / 8 / 8)
        ≡ bit_or (x / 2 ^ 18) (z / 2 ^ 18) =
      rw (e, f) refl in
    omega (
      arith,
      or_zeros x z (omega arith),
      or_zeros (x / 8) (z / 8) (omega arith),
      or_zeros (x / 8 / 8) (z / 8 / 8) (omega arith),
      or_zeros (x / 8 / 8 / 8) (z / 8 / 8 / 8) (omega arith),
      or_zeros (x / 8 / 8 / 8 / 8) (z / 8 / 8 / 8 / 8) (omega arith),
      or_zeros (x / 8 / 8 / 8 / 8 / 8) (z / 8 / 8 / 8 / 8 / 8) (omega arith),
      g,
    )

-- The upper fields: bits 18 and 19 are set, of the others 21, 22 and 24 are kept.
or_three : (x : ℕ) → bit_or x 3 ≡ x / 4 * 4 + 3
or_three x =
    omega (arith, or_step x 3, or_step (x / 2) 1, or-zero (x / 2 / 2) (x / 2 / 2) (omega arith))

and_one : (x : ℕ) → bit_and x 1 ≡ x % 2
and_one x = omega (arith, and_step x 1, bit_and-zero (x / 2))

and_two : (x : ℕ) → bit_and x 2 ≡ x / 2 % 2 * 2
and_two x = omega (arith, and_step x 2, and_one (x / 2))

and_five : (x : ℕ) → bit_and x 5 ≡ x % 2 + x / 4 % 2 * 4
and_five x =
    let e : x / 2 / 2 ≡ x / 4 = omega arith in omega (arith, and_step x 5, and_two (x / 2), e)

and_eleven : (x : ℕ) → bit_and x 0xB ≡ x % 4 + x / 8 % 2 * 8
and_eleven x =
    let e : x / 2 / 4 ≡ x / 8 = omega arith in omega (arith, and_step x 0xB, and_five (x / 2), e)

and_lower : (x : ℕ) → bit_and x 0x16 ≡ x / 2 % 4 * 2 + x / 16 % 2 * 16
and_lower x =
    let e : x / 2 / 8 ≡ x / 16 = omega arith in
    omega (arith, and_step x 0x16, and_eleven (x / 2), e)

and_middle : (x : ℕ) → bit_and x 0x2D ≡ x % 2 + x / 4 % 4 * 4 + x / 32 % 2 * 32
and_middle x =
    let e : x / 2 / 2 ≡ x / 4 = omega arith in
    let f : x / 2 / 16 ≡ x / 32 = omega arith in
    let g : x / 2 / 2 % 4 ≡ x / 4 % 4 = ap (λ t. t % 4) e in
    omega (arith, and_step x 0x2D, and_lower (x / 2), f, g)

and_upper : (x : ℕ) → bit_and x 0x5B ≡ x % 4 + x / 8 % 4 * 8 + x / 64 % 2 * 64
and_upper x =
    let e : x / 2 / 4 % 4 ≡ x / 8 % 4 = omega arith in
    let f : x / 2 / 32 ≡ x / 64 = omega arith in
    omega (arith, and_step x 0x5B, and_middle (x / 2), e, f)

-- A word after the clock: bits 18 and 19 are set, and of the others bits 0 to 17, 21, 22 and 24 are
-- kept.
abbrev pub normalised : ℕ → ℕ
normalised v = v % 2 ^ 18 + 3 * 2 ^ 18 + v / 2 ^ 21 % 4 * 2 ^ 21 + v / 2 ^ 24 % 2 * 2 ^ 24

to_word-of_word : (v : ℕ) → to_word (of_word v) ≡ v
unfolding to_word of_word
to_word-of_word v = omega arith

pub normalised_lem : (v : ℕ) → bit_and (bit_or v 0xC0000) 0x16FFFFF ≡ normalised v
normalised_lem v =
    let w = bit_or v 0xC0000 in
    let top : bit_or v 0xC0000 / 2 ^ 18 ≡ v / 2 ^ 18 / 4 * 4 + 3 =
      omega (arith, or_zeros18 v 0xC0000 (omega arith), or_three (v / 2 ^ 18)) in
    let low : w % 2 ^ 18 ≡ v % 2 ^ 18 = omega (arith, or_zeros18 v 0xC0000 (omega arith)) in
    omega (arith, and_ones18 w 0x16FFFFF (omega arith), and_upper (w / 2 ^ 18), top, low)

pub clock-of_word : (v : ℕ) → clock (of_word v) ≡ of_word (normalised v)
unfolding clock
clock-of_word v =
    ap
      (λ t.
        of_word (bit_and (bit_or t (to_word reference_fcsr_ones)) (to_word reference_fcsr_zeros)))
      (to_word-of_word v)
    ∙ ap of_word (normalised_lem v)
