-- ===== src/Base/Bits.antt =====
-- Bounds and field laws of `&`, `|` and `^` at variables, from the digit recursion that the native
-- operations mean.
use Prim.Native.Nat.{
  ℕ, zero, suc, ◌+◌, ◌-◌, ◌*◌, ◌/◌, ◌%◌, ◌^◌, ◌≤◌, ◌<◌, min, max, digits, bitwise, differ,
}
use Prim.Native.Nat.{bit_and, bit_or, bit_xor, bit_and-bitwise, bit_or-bitwise, bit_xor-bitwise}
use mathlib.Core.Path.{◌≡◌, refl, ap, ◌∙◌}
use native.Mathlib.Nat.{pow-suc}
use native.Mathlib.Omega.{arith}

-- The recursion's fuel is the first operand; each unit beyond the operand changes nothing.
module _ (last : ℕ → ℕ) (bit : ℕ → ℕ → ℕ) where
  digits_one_more : (n a b : ℕ) → a ≤ n → digits last bit (suc n) a b ≡ digits last bit n a b
  digits_one_more zero zero b enough = refl
  digits_one_more (suc n) zero b enough = refl
  digits_one_more zero (suc a) b enough = absurd (omega arith)
  digits_one_more (suc n) (suc a) b enough =
      ap (λ t. t * 2 + bit (suc a % 2) (b % 2))
        (digits_one_more n (suc a / 2) (b / 2) (omega arith))

  digits_more : (k n c a b : ℕ) → a ≤ n → c ≡ k + n → digits last bit c a b ≡ digits last bit n a b
  digits_more zero n c a b enough e = ap (λ t. digits last bit t a b) (omega arith)
  digits_more (suc k) n zero a b enough e = absurd (omega arith)
  digits_more (suc k) n (suc c) a b enough e =
      digits_one_more c a b (omega arith) ∙ digits_more k n c a b enough (omega arith)

  bitwise-suc :
      (a b : ℕ)
      → bitwise last bit (suc a) b
        ≡ bitwise last bit (suc a / 2) (b / 2) * 2 + bit (suc a % 2) (b % 2)
  bitwise-suc a b =
      let half = suc a / 2 in
      ap (λ t. t * 2 + bit (suc a % 2) (b % 2))
        (digits_more (a - half) half a half (b / 2) (omega arith) (omega arith))

or-suc : (a b : ℕ) → bit_or (suc a) b ≡ bit_or (suc a / 2) (b / 2) * 2 + max (suc a % 2) (b % 2)
or-suc a b = simp bit_or-bitwise (bitwise-suc (λ y. y) max a b)

and-suc : (a b : ℕ) → bit_and (suc a) b ≡ bit_and (suc a / 2) (b / 2) * 2 + min (suc a % 2) (b % 2)
and-suc a b = simp bit_and-bitwise (bitwise-suc (λ y. 0) min a b)

xor-suc :
    (a b : ℕ) → bit_xor (suc a) b ≡ bit_xor (suc a / 2) (b / 2) * 2 + differ (suc a % 2) (b % 2)
xor-suc a b = simp bit_xor-bitwise (bitwise-suc (λ y. y) differ a b)

zero-or : (b : ℕ) → bit_or 0 b ≡ b
zero-or b = bit_or-bitwise 0 b

zero-and : (b : ℕ) → bit_and 0 b ≡ 0
zero-and b = bit_and-bitwise 0 b

zero-xor : (b : ℕ) → bit_xor 0 b ≡ b
zero-xor b = bit_xor-bitwise 0 b

differ_bit : (a b : ℕ) → a < 2 → b < 2 → differ a b < 2
differ_bit zero b p q = q
differ_bit (suc zero) zero p q = omega arith
differ_bit (suc zero) (suc b) p q = omega arith
differ_bit (suc (suc a)) b p q = absurd (omega arith)

-- A word is closed under the three operations, at every width.
pub bit_and-le : (n a b : ℕ) → a ≤ n → bit_and a b ≤ a
bit_and-le n zero b p = omega (arith, zero-and b)
bit_and-le zero (suc a) b p = absurd (omega arith)
bit_and-le (suc n) (suc a) b p =
    omega (arith, and-suc a b, bit_and-le n (suc a / 2) (b / 2) (omega arith))

pub bit_or-lt : (k a b : ℕ) → a < 2 ^ k → b < 2 ^ k → bit_or a b < 2 ^ k
bit_or-lt k zero b p q = omega (arith, zero-or b)
bit_or-lt zero (suc a) b p q = absurd (omega arith)
bit_or-lt (suc k) (suc a) b p q =
    let e = pow-suc 2 k in
    omega
      (arith, e, or-suc a b, bit_or-lt k (suc a / 2) (b / 2) (omega (arith, e)) (omega (arith, e)))

pub bit_xor-lt : (k a b : ℕ) → a < 2 ^ k → b < 2 ^ k → bit_xor a b < 2 ^ k
bit_xor-lt k zero b p q = omega (arith, zero-xor b)
bit_xor-lt zero (suc a) b p q = absurd (omega arith)
bit_xor-lt (suc k) (suc a) b p q =
    let e = pow-suc 2 k in
    omega (
      arith,
      e,
      xor-suc a b,
      differ_bit (suc a % 2) (b % 2),
      bit_xor-lt k (suc a / 2) (b / 2) (omega (arith, e)) (omega (arith, e)),
    )

pub or-zero : (n a : ℕ) → a ≤ n → bit_or a 0 ≡ a
or-zero n zero p = zero-or 0
or-zero zero (suc a) p = absurd (omega arith)
or-zero (suc n) (suc a) p = omega (arith, or-suc a 0, or-zero n (suc a / 2) (omega arith))

pub or_step : (x y : ℕ) → bit_or x y ≡ bit_or (x / 2) (y / 2) * 2 + max (x % 2) (y % 2)
or_step zero b = omega (arith, zero-or b, zero-or (b / 2))
or_step (suc a) b = or-suc a b

-- `(q << k) | r` is a sum where `r` fits `k` bits.
pub bit_or_fields : (k q r : ℕ) → r < 2 ^ k → bit_or (q * 2 ^ k) r ≡ q * 2 ^ k + r
bit_or_fields zero q r p = ground (arith, or-zero q q)
bit_or_fields (suc k) q r p =
    let e : q * 2 ^ suc k ≡ 2 * (q * 2 ^ k) = omega (arith, ap (λ (t : ℕ). q * t) (pow-suc 2 k)) in
    ground (arith, pow-suc 2 k, e, or_step (q * 2 ^ suc k) r, bit_or_fields k q (r / 2))

-- Bit 0 and the rest of a conjunction.
pub and_step : (x y : ℕ) → bit_and x y ≡ bit_and (x / 2) (y / 2) * 2 + min (x % 2) (y % 2)
and_step (suc x) y = and-suc x y
and_step zero y = omega (arith, zero-and (y / 2), zero-and y)

max_comm : (a b : ℕ) → max a b ≡ max b a
max_comm a b = omega arith

or_comm : (n a b : ℕ) → a + b ≤ n → bit_or a b ≡ bit_or b a
or_comm zero a b p = ground (arith, zero-or 0)
or_comm (suc n) zero b p = ground (arith, zero-or b, or-zero b b)
or_comm (suc n) (suc a) b p = omega (
  arith,
  or_step (suc a) b,
  or_step b (suc a),
  max_comm (suc a % 2) (b % 2),
  or_comm n (suc a / 2) (b / 2) (omega arith),
)

pub bit_or_comm : (a b : ℕ) → bit_or a b ≡ bit_or b a
bit_or_comm a b = or_comm (a + b) a b (omega arith)
