-- ===== src/Base/Masks.antt =====
-- The algebra of masks: `&` is commutative and associative and spreads over `|`, at every width.
use vemips.Base.Bits.{and_step, or_step, bit_and-le}
use Prim.Native.Nat.{ℕ, zero, suc, ◌+◌, ◌/◌, ◌%◌, ◌≤◌, min, max, bit_and, bit_or}
use mathlib.Core.Path.{◌≡◌, refl, sym, ap, ◌∙◌}
use native.Mathlib.Omega.{arith}

and-zero_fuel : (n a : ℕ) → a ≤ n → bit_and a 0 ≡ 0
and-zero_fuel n zero h = refl
and-zero_fuel zero (suc a) h = omega arith
and-zero_fuel (suc n) (suc a) h =
    omega (arith, and_step (suc a) 0, and-zero_fuel n (suc a / 2) (omega arith))

pub bit_and-zero : (a : ℕ) → bit_and a 0 ≡ 0
bit_and-zero a = and-zero_fuel a a (omega arith)

zero-and : (b : ℕ) → bit_and 0 b ≡ 0
zero-and b = omega (arith, bit_and-le 0 0 b (omega arith))

and_comm_fuel : (n a b : ℕ) → a + b ≤ n → bit_and a b ≡ bit_and b a
and_comm_fuel n zero b h = omega (arith, zero-and b, and-zero_fuel b b (omega arith))
and_comm_fuel zero (suc a) b h = omega arith
and_comm_fuel (suc n) (suc a) b h = omega (
  arith,
  and_step (suc a) b,
  and_step b (suc a),
  and_comm_fuel n (suc a / 2) (b / 2) (omega arith),
)

pub bit_and_comm : (a b : ℕ) → bit_and a b ≡ bit_and b a
bit_and_comm a b = and_comm_fuel (a + b) a b (omega arith)

-- A conjunction and a disjunction by halves.
and_half : (a b : ℕ) → bit_and a b / 2 ≡ bit_and (a / 2) (b / 2)
and_half a b = omega (arith, and_step a b)

and_low : (a b : ℕ) → bit_and a b % 2 ≡ min (a % 2) (b % 2)
and_low a b = omega (arith, and_step a b)

or_half : (a b : ℕ) → bit_or a b / 2 ≡ bit_or (a / 2) (b / 2)
or_half a b = omega (arith, or_step a b)

or_low : (a b : ℕ) → bit_or a b % 2 ≡ max (a % 2) (b % 2)
or_low a b = omega (arith, or_step a b)

and_assoc_fuel : (n a b c : ℕ) → a ≤ n → bit_and (bit_and a b) c ≡ bit_and a (bit_and b c)
and_assoc_fuel n zero b c h =
    ap (λ t. bit_and t c) (zero-and b) ∙ (omega (arith, zero-and c, zero-and (bit_and b c)))
and_assoc_fuel zero (suc a) b c h = absurd (omega arith)
and_assoc_fuel (suc n) (suc a) b c h =
    let left = ap (λ t. bit_and t (c / 2)) (and_half (suc a) b) in
    let right = ap (λ t. bit_and (suc a / 2) t) (and_half b c) in
    omega (
      arith,
      left,
      right,
      and_step (bit_and (suc a) b) c,
      and_step (suc a) (bit_and b c),
      and_low (suc a) b,
      and_low b c,
      and_assoc_fuel n (suc a / 2) (b / 2) (c / 2) (omega arith),
    )

pub bit_and_assoc : (a b c : ℕ) → bit_and (bit_and a b) c ≡ bit_and a (bit_and b c)
bit_and_assoc a b c = and_assoc_fuel a a b c (omega arith)

and_or_fuel : (n w a b : ℕ) → w ≤ n → bit_and w (bit_or a b) ≡ bit_or (bit_and w a) (bit_and w b)
and_or_fuel n zero a b h = omega (
  arith,
  zero-and (bit_or a b),
  ap (λ t. bit_or t (bit_and 0 b)) (zero-and a),
  ap (λ t. bit_or 0 t) (zero-and b),
)
and_or_fuel zero (suc w) a b h = absurd (omega arith)
and_or_fuel (suc n) (suc w) a b h =
    let left = ap (λ t. bit_and (suc w / 2) t) (or_half a b) in
    let right =
      ap (λ t. bit_or t (bit_and (suc w) b / 2)) (and_half (suc w) a)
      ∙ ap (λ t. bit_or (bit_and (suc w / 2) (a / 2)) t) (and_half (suc w) b) in
    omega (
      arith,
      left,
      right,
      and_step (suc w) (bit_or a b),
      or_step (bit_and (suc w) a) (bit_and (suc w) b),
      or_low a b,
      and_low (suc w) a,
      and_low (suc w) b,
      and_or_fuel n (suc w / 2) (a / 2) (b / 2) (omega arith),
    )

pub bit_and-bit_or : (w a b : ℕ) → bit_and w (bit_or a b) ≡ bit_or (bit_and w a) (bit_and w b)
bit_and-bit_or w a b = and_or_fuel w w a b (omega arith)

and_self_fuel : (n a : ℕ) → a ≤ n → bit_and a a ≡ a
and_self_fuel n zero h = zero-and 0
and_self_fuel zero (suc a) h = absurd (omega arith)
and_self_fuel (suc n) (suc a) h =
    omega (arith, and_step (suc a) (suc a), and_self_fuel n (suc a / 2) (omega arith))

pub bit_and_self : (a : ℕ) → bit_and a a ≡ a
bit_and_self a = and_self_fuel a a (omega arith)

-- What a word holds under a mask fixes what it holds under a part of the mask.
pub under_part :
    (w mask ref part : ℕ)
    → bit_and w mask ≡ ref
    → bit_and mask part ≡ part
    → bit_and w part ≡ bit_and ref part
under_part w mask ref part held within =
    ap (λ t. bit_and w t) (sym within)
    ∙ sym (bit_and_assoc w mask part)
    ∙ ap (λ t. bit_and t part) held

-- Two masked readings of one word agree where both masks look.
pub readings_agree :
    (w m k mask ref : ℕ) → bit_and w m ≡ k → bit_and w mask ≡ ref → bit_and k mask ≡ bit_and ref m
readings_agree w m k mask ref one other =
    ap (λ t. bit_and t mask) (sym one)
    ∙ bit_and_assoc w m mask
    ∙ ap (λ t. bit_and w t) (bit_and_comm m mask)
    ∙ sym (bit_and_assoc w mask m)
    ∙ ap (λ t. bit_and t m) other
