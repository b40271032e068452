-- ===== src/Isa/Words.antt =====
-- Rotations, byte orders, leading zeros and ALIGN (processor_inst.cpp) as laws on words.
use vemips.Base.{
  ℕ, zero, suc, ◌+◌, ◌-◌, ◌*◌, ◌/◌, ◌%◌, ◌^◌, ◌≤◌, ◌<◌, ◌≡◌, ◌⊎◌, inl, inr, refl, ap, ◌∙◌, arith,
  Bool, true, leb, ltb, ◌==◌, ◌&&◌, Bool-cases, u32, bit_and,
}
use vemips.Base.Bits.{bit_or_fields, and_step, bit_or_comm}
use native.Mathlib.Nat.{
  mod-eq_of_lt, mul-add-mod_self_right, eq_of_mul-eq-mul_right, mul_comm, lt_of_mul-lt-mul_right,
  suc-mul, pow-suc, pow-zero, mul-one, one-le-pow, mul_assoc, add-mul, div-add-mod', mod-lt,
  mul-le-mul_right, mul-lt-mul_of_pos_right,
}
use vemips.Processor.{Processor, done, undefined, set_register}
use vemips.Processor.Registers.{HasWords, get_register-lt}
use vemips.Isa.Shift.{rotate}
use vemips.Isa.Logic.{
  align, swap_halves, reverse_byte, reverse_bytes, countl_zero, clz, clo, byte, of_bytes,
}
use vemips.Isa.Fields.{zextend, rs, rd, rs_value}

pow-add : (a b c : ℕ) → a + b ≡ c → 2 ^ a * 2 ^ b ≡ 2 ^ c
pow-add a zero c e =
    let same : 2 ^ a ≡ 2 ^ c = ap (λ n. 2 ^ n) (omega arith) in
    omega (arith, pow-zero 2, mul-one (2 ^ a))
pow-add a (suc b) zero e = absurd (omega arith)
pow-add a (suc b) (suc c) e =
    let split : 2 ^ a * 2 ^ suc b ≡ 2 ^ a * (2 ^ b * 2) = ap (λ n. 2 ^ a * n) (pow-suc 2 b) in
    omega (arith, split, pow-suc 2 c, pow-add a b c (omega arith), mul_assoc (2 ^ a) (2 ^ b) 2)

digit_lem : (q r n : ℕ) → r < n → ((q * n + r) / n ≡ q) × ((q * n + r) % n ≡ r)
digit_lem q r n p =
    let low : (q * n + r) % n ≡ r = mul-add-mod_self_right q n r ∙ mod-eq_of_lt p in
    let whole = div-add-mod' (q * n + r) n in
    (eq_of_mul-eq-mul_right n (omega arith) ((q * n + r) / n) q (omega arith), low)

-- A word as a quotient and a rest, shifted until the quotient falls off.
split_lem :
    (n m x : ℕ)
    → n * m ≡ 2 ^ 32
    → 0 < n
    → 0 < m
    → x < 2 ^ 32
    → (x / n < m) × (u32 (x * m) ≡ x % n * m)
split_lem n m x e pos_n pos_m fits =
    let whole = div-add-mod' x n in
    let scaled : (x / n * n + x % n) * m ≡ x / n * n * m + x % n * m =
      add-mul (x / n * n) (x % n) m in
    let back : (x / n * n + x % n) * m ≡ x * m = ap (λ y. y * m) whole in
    let top : x / n * n * m ≡ x / n * 2 ^ 32 = mul_assoc (x / n) n m ∙ ap (λ y. x / n * y) e in
    let rest : x % n * m < n * m = mul-lt-mul_of_pos_right (mod-lt x pos_n) pos_m in
    (lt_of_mul-lt-mul_right n {m = x / n} {n = m} (omega (arith, mul_comm n m)), omega arith)

-- The two parts of a rotated word.
rotate_sum :
    (k x : ℕ)
    → 0 < k
    → k < 32
    → x < 2 ^ 32
    → (rotate x k ≡ done (x % 2 ^ k * 2 ^ (32 - k) + x / 2 ^ k)) × (x / 2 ^ k < 2 ^ (32 - k))
unfolding rotate
rotate_sum k x nonzero small fits =
    let powers : 2 ^ k * 2 ^ (32 - k) ≡ 2 ^ 32 = pow-add k (32 - k) 32 (omega arith) in
    let split =
      split_lem (2 ^ k) (2 ^ (32 - k)) x powers (one-le-pow k 2 (omega arith))
        (one-le-pow (32 - k) 2 (omega arith)) fits in
    let e = bit_or_fields (32 - k) (x % 2 ^ k) (x / 2 ^ k) split.0 in
    let f = bit_or_comm (x / 2 ^ k) (x % 2 ^ k * 2 ^ (32 - k)) in (ground arith, split.0)

mul_congr : {a b c d : ℕ} → a ≡ b → c ≡ d → a * c ≡ b * d
mul_congr p q = rw (p, q) refl

add_congr : {a b c d : ℕ} → a ≡ b → c ≡ d → a + c ≡ b + d
add_congr p q = rw (p, q) refl

-- Rotating a word by k, between 0 and 32, and then by 32 - k gives it back.
pub rotate-rotate :
    (k x : ℕ)
    → 0 < k
    → k < 32
    → x < 2 ^ 32
    → (y : ℕ) × (rotate x k ≡ done y) × (y < 2 ^ 32) × (rotate y (32 - k) ≡ done x)
unfolding rotate
rotate-rotate k x nonzero small fits =
    let powers : 2 ^ k * 2 ^ (32 - k) ≡ 2 ^ 32 = pow-add k (32 - k) 32 (omega arith) in
    let first = rotate_sum k x nonzero small fits in
    let y = x % 2 ^ k * 2 ^ (32 - k) + x / 2 ^ k in
    let top : suc (x % 2 ^ k) * 2 ^ (32 - k) ≤ 2 ^ k * 2 ^ (32 - k) =
      mul-le-mul_right (2 ^ (32 - k)) (mod-lt x (one-le-pow k 2 (omega arith))) in
    let sum = suc-mul (x % 2 ^ k) (2 ^ (32 - k)) in
    let y_fits : y < 2 ^ 32 = omega arith in
    let second = rotate_sum (32 - k) y (omega arith) (omega arith) y_fits in
    let digits = digit_lem (x % 2 ^ k) (x / 2 ^ k) (2 ^ (32 - k)) first.1 in
    let same : 2 ^ (32 - (32 - k)) ≡ 2 ^ k = ap (λ n. 2 ^ n) (omega arith) in
    let sum_is : y % 2 ^ (32 - k) * 2 ^ (32 - (32 - k)) + y / 2 ^ (32 - k) ≡ x =
      add_congr (mul_congr digits.1 same) digits.0 ∙ div-add-mod' x (2 ^ k) in
    (y, first.0, y_fits, second.0 ∙ ap done sum_is)

-- WSBH undoes itself on words.
pub swap_halves-swap_halves : (x : ℕ) → x < 2 ^ 32 → swap_halves (swap_halves x) ≡ x
unfolding swap_halves
swap_halves-swap_halves x p = ground arith

every : ℕ → (ℕ → Bool) → Bool
every zero test = true
every (suc n) test = test n && every n test

every_below : (n : ℕ) (test : ℕ → Bool) (k : ℕ) → every n test ≡ true → k < n → test k ≡ true
unfolding every
every_below zero test k all p = absurd (omega arith)
every_below (suc n) test k all p = elim (Bool-cases (k == n)) [
  | inl last ↦ ground arith
  | inr below ↦ every_below n test k (ground arith) (ground arith)
]

reverse_byte-table :
    every 256 (λ b. reverse_byte (reverse_byte b) == b && ltb (reverse_byte b) 256) ≡ true
unfolding every reverse_byte
reverse_byte-table = refl

pub reverse_byte-reverse_byte :
    (b : ℕ) → b < 256 → (reverse_byte (reverse_byte b) ≡ b) × (reverse_byte b < 256)
reverse_byte-reverse_byte b p =
    let e =
      every_below 256 (λ b. reverse_byte (reverse_byte b) == b && ltb (reverse_byte b) 256) b
        reverse_byte-table p in
    ground arith

bytes-of_bytes :
    {a b c d : ℕ}
    → a < 256
    → b < 256
    → c < 256
    → d < 256
    → (byte 0 (of_bytes a b c d) ≡ a)
      × (byte 1 (of_bytes a b c d) ≡ b)
      × (byte 2 (of_bytes a b c d) ≡ c)
      × (byte 3 (of_bytes a b c d) ≡ d)
bytes-of_bytes p q r s = (omega arith, omega arith, omega arith, omega arith)

of_bytes-bytes : (x : ℕ) → x < 2 ^ 32 → of_bytes (byte 0 x) (byte 1 x) (byte 2 x) (byte 3 x) ≡ x
of_bytes-bytes x p = omega arith

of_bytes-congr :
    {a b c d a' b' c' d' : ℕ}
    → a ≡ a'
    → b ≡ b'
    → c ≡ c'
    → d ≡ d'
    → of_bytes a b c d ≡ of_bytes a' b' c' d'
of_bytes-congr p q r s = omega arith

-- BITSWAP undoes itself on words.
pub reverse_bytes-reverse_bytes : (x : ℕ) → x < 2 ^ 32 → reverse_bytes (reverse_bytes x) ≡ x
unfolding reverse_bytes
reverse_bytes-reverse_bytes x p =
    let r0 = reverse_byte-reverse_byte (byte 0 x) (omega arith) in
    let r1 = reverse_byte-reverse_byte (byte 1 x) (omega arith) in
    let r2 = reverse_byte-reverse_byte (byte 2 x) (omega arith) in
    let r3 = reverse_byte-reverse_byte (byte 3 x) (omega arith) in
    let e = bytes-of_bytes r0.1 r1.1 r2.1 r3.1 in
    of_bytes-congr (ap reverse_byte e.0 ∙ r0.0) (ap reverse_byte e.1 ∙ r1.0)
      (ap reverse_byte e.2 ∙ r2.0) (ap reverse_byte e.3 ∙ r3.0)
    ∙ of_bytes-bytes x p

-- The value has c leading zeros among w bits: it is 0 and c is w, or bit w - c - 1 is its highest.
abbrev pub HasLeading : ℕ → ℕ → ℕ → Type 0
HasLeading w x c = (c ≤ w) × (x < 2 ^ (w - c)) × (((x ≡ 0) × (c ≡ w)) ⊎ (2 ^ (w - c) ≤ 2 * x))

countl_zero-bounds : (w x : ℕ) → x < 2 ^ w → HasLeading w x (countl_zero w x)
unfolding countl_zero
countl_zero-bounds zero x p = ground arith
countl_zero-bounds (suc w) x p =
    let e = pow-suc 2 w in
    elim (Bool-cases (leb (2 ^ w) x)) [
      | inl full ↦ ground arith
      | inr short ↦ let lower = countl_zero-bounds w x (ground arith) in ground arith
    ]

-- Where every register holds a word, CLZ writes to rd the number of the leading zeros of the word in
-- rs, and CLO the number of its leading ones, which is that of the leading zeros of its complement;
-- for the word without any such bit to stop at, both write 32.
pub clz-clo :
    (i : ℕ) (p : Processor)
    → HasWords p
    → ((c : ℕ) × (clz i p ≡ done (set_register p (rd i) c)) × HasLeading 32 (rs_value i p) c)
      × ((c : ℕ) × (clo i p ≡ done (set_register p (rd i) c))
          × HasLeading 32 (2 ^ 32 - 1 - rs_value i p) c)
unfolding clz clo
clz-clo i p words =
    let fits = get_register-lt p (rs i) words in
    (
      (_, refl, countl_zero-bounds 32 (rs_value i p) fits),
      (_, refl, countl_zero-bounds 32 (2 ^ 32 - 1 - rs_value i p) (omega arith)),
    )

-- No word of the encoding of ALIGN (mask 0xfc00073f, reference 0x7c000220) completes: the shift count
-- that the code takes from bits 0 and 1 is 0, and the other shift is then by the width.
pub align-undefined :
    (i : ℕ) (p : Processor) → bit_and i 0xfc00073f ≡ 0x7c000220 → align i p ≡ undefined
unfolding align zextend
align-undefined i p encoded =
    let lowest = and_step i 0xfc00073f in
    let next = and_step (i / 2) (0xfc00073f / 2) in
    let four : i % 4 ≡ 0 = omega arith in ground arith
