-- ===== src/Isa/Products.antt =====
-- Double-width products and the law of division (MUL, MUH, MULU, MUHU, DIV, MOD, DIVU and MODU of
-- processor_inst.cpp).
use vemips.Base.{
  ℕ, ◌+◌, ◌-◌, ◌*◌, ◌/◌, ◌%◌, ◌^◌, ◌≤◌, ◌<◌, ◌≡◌, ◌≢◌, refl, ap, sym, subst, ◌∙◌, leb, leb→le,
  arith, Bool, true, false, Bool-cases, ◌⊎◌, inl, inr, sub_ℕ, u32, ℤ, pos, signed32, ◌+ℤ◌, ◌*ℤ◌,
}
use native.Mathlib.Nat.{
  mul-le-mul, div-add-mod', mod-lt, mul-le-mul_left, div-le_self, div-mul-le_self, div-one,
}
use vemips.Processor.{Processor, done, set_register}
use vemips.Processor.Registers.{HasWords, get_register-lt}
use vemips.Isa.Fields.{rs, rt, rd, rs_value, rt_value}
use vemips.Isa.MulDiv.{
  mul, muh, mulu, muhu, div, modulo, signed_product, pattern64, quotient, remainder, is_negative,
  magnitude, with_sign, differs,
}

product-lt : (a b : ℕ) → a < 2 ^ 32 → b < 2 ^ 32 → a * b < 2 ^ 64
product-lt a b p q =
    let h : a * b ≤ (2 ^ 32 - 1) * (2 ^ 32 - 1) =
      mul-le-mul {n₂ = 2 ^ 32 - 1} {m₂ = 2 ^ 32 - 1} (omega arith) (omega arith) in
    omega arith

-- Where the registers hold words, the words that MUHU and MULU write are the high and the low half of the exact product.
pub mulu-muhu :
    (i : ℕ) (p : Processor)
    → HasWords p
    → (hi : ℕ) × (lo : ℕ) × (muhu i p ≡ done (set_register p (rd i) hi))
      × (mulu i p ≡ done (set_register p (rd i) lo))
      × (lo < 2 ^ 32)
      × (hi * 2 ^ 32 + lo ≡ rs_value i p * rt_value i p)
unfolding mulu muhu
mulu-muhu i p words =
    let a = rs_value i p in
    let b = rt_value i p in
    let la : a < 2 ^ 32 = get_register-lt p (rs i) words in
    let lb : b < 2 ^ 32 = get_register-lt p (rt i) words in
    (
      a * b % 2 ^ 64 / 2 ^ 32,
      u32 (a * b),
      refl,
      refl,
      omega arith,
      omega (arith, product-lt a b la lb),
    )

-- An integer from its sign and its size.
abbrev pub with_size : Bool → ℕ → ℤ
with_size true n = sub_ℕ 0 n
with_size false n = pos n

signed32-magnitude : (a : ℕ) → a < 2 ^ 32 → signed32 a ≡ with_size (is_negative a) (magnitude a)
signed32-magnitude a p = ground arith

signed32-with_sign :
    (s : Bool) (n : ℕ)
    → n ≤ 2 ^ 31
    → (s ≡ true) ⊎ (n < 2 ^ 31)
    → signed32 (with_sign s n) ≡ with_size s n
signed32-with_sign true n p q = ground arith
signed32-with_sign false n p q = ground arith

with_size-mul :
    (s t : Bool) (m n : ℕ) → with_size s m *ℤ with_size t n ≡ with_size (differs s t) (m * n)
unfolding ◌*ℤ◌
with_size-mul true true m n = ground arith
with_size-mul true false m n = ground arith
with_size-mul false true m n = ground arith
with_size-mul false false m n = ground arith

with_size-add : (s : Bool) (m n : ℕ) → with_size s m +ℤ with_size s n ≡ with_size s (m + n)
unfolding ◌+ℤ◌
with_size-add true m n = ground arith
with_size-add false m n = ground arith

differs-twice : (s t : Bool) → differs (differs s t) t ≡ s
differs-twice true true = refl
differs-twice true false = refl
differs-twice false true = refl
differs-twice false false = refl

magnitude-with_sign :
    (s : Bool) (n : ℕ)
    → n < 2 ^ 31
    → (magnitude (with_sign s n) ≡ n) × ((with_sign s n ≡ 0) ⊎ (is_negative (with_sign s n) ≡ s))
magnitude-with_sign true n p = ground arith
magnitude-with_sign false n p = ground arith

-- Truncating division, in signs and sizes.
with_size-division :
    (s t : Bool) (m n : ℕ)
    → with_size (differs s t) (m / n) *ℤ with_size t n +ℤ with_size s (m % n) ≡ with_size s m
with_size-division s t m n =
    ap (λ z. z +ℤ with_size s (m % n)) (with_size-mul (differs s t) t (m / n) n)
    ∙ ap (λ u. with_size u (m / n * n) +ℤ with_size s (m % n)) (differs-twice s t)
    ∙ with_size-add s (m / n * n) (m % n)
    ∙ ap (with_size s) (div-add-mod' m n)

half-lt : (m n : ℕ) → m ≤ 2 ^ 31 → 2 ≤ n → m / n < 2 ^ 31
half-lt m n p q =
    let e = div-mul-le_self m n in
    let twice : m / n * 2 ≤ m / n * n = mul-le-mul_left (m / n) q in omega arith

-- The one pair of operands whose quotient is no int32.
abbrev pub IsMinByMinusOne : ℕ → ℕ → Type 0
IsMinByMinusOne a b = (a ≡ 2 ^ 31) × (b ≡ 2 ^ 32 - 1)

-- Division that truncates: the divisor times the quotient, and the rest, which is smaller than the
-- divisor and has the sign of the dividend.
abbrev pub IsDivision : ℕ → ℕ → ℕ → ℕ → Type 0
IsDivision a b x y =
    (signed32 x *ℤ signed32 b +ℤ signed32 y ≡ signed32 a)
    × (magnitude y < magnitude b)
    × ((y ≡ 0) ⊎ (is_negative y ≡ is_negative a))

magnitude-le : (a : ℕ) → a < 2 ^ 32 → magnitude a ≤ 2 ^ 31
magnitude-le a p = ground arith

-- The size of a quotient reaches 2 ^ 31 only for the least dividend by 1 or by -1.
quotient_fits :
    (a b : ℕ)
    → a < 2 ^ 32
    → b < 2 ^ 32
    → b ≢ 0
    → ¬ IsMinByMinusOne a b
    → (differs (is_negative a) (is_negative b) ≡ true) ⊎ (magnitude a / magnitude b < 2 ^ 31)
quotient_fits a b p q nz ok = elim (Bool-cases (leb 2 (magnitude b))) [
  | inl big ↦
      inr (half-lt (magnitude a) (magnitude b) (magnitude-le a p) (leb→le 2 (magnitude b) big))
  | inr one ↦ ground (arith, div-one (magnitude a))
]

division :
    (a b : ℕ)
    → a < 2 ^ 32
    → b < 2 ^ 32
    → b ≢ 0
    → ¬ IsMinByMinusOne a b
    → IsDivision a b
        (with_sign (differs (is_negative a) (is_negative b)) (magnitude a / magnitude b))
        (with_sign (is_negative a) (magnitude a % magnitude b))
division a b p q nz ok =
    let s = is_negative a in
    let t = is_negative b in
    let m = magnitude a in
    let n = magnitude b in
    let small = magnitude-le a p in
    let pos_n : 0 < n = ground arith in
    let rest : m % n < n = mod-lt m pos_n in
    let n_small = magnitude-le b q in
    let e : signed32 (with_sign (differs s t) (m / n)) ≡ with_size (differs s t) (m / n) =
      signed32-with_sign (differs s t) (m / n) (omega (arith, div-le_self m n))
        (quotient_fits a b p q nz ok) in
    let f : signed32 (with_sign s (m % n)) ≡ with_size s (m % n) =
      signed32-with_sign s (m % n) (omega arith) (inr (omega arith)) in
    let sized = magnitude-with_sign s (m % n) (omega arith) in
    (
      cc (with_size-division s t m n, e, f, signed32-magnitude a p, signed32-magnitude b q),
      omega arith,
      sized.1,
    )

-- DIV and MOD of words complete unless the divisor is 0 or the quotient is no int32, and write the
-- quotient and the rest of the division that truncates towards 0.
pub div-modulo :
    (i : ℕ) (p : Processor)
    → HasWords p
    → rt_value i p ≢ 0
    → ¬ IsMinByMinusOne (rs_value i p) (rt_value i p)
    → (x : ℕ) × (y : ℕ) × (div i p ≡ done (set_register p (rd i) x))
      × (modulo i p ≡ done (set_register p (rd i) y))
      × IsDivision (rs_value i p) (rt_value i p) x y
unfolding div modulo quotient remainder
div-modulo i p words nz ok =
    let a = rs_value i p in
    let b = rt_value i p in
    (
      with_sign (differs (is_negative a) (is_negative b)) (magnitude a / magnitude b),
      with_sign (is_negative a) (magnitude a % magnitude b),
      ground arith,
      ground arith,
      division a b (get_register-lt p (rs i) words) (get_register-lt p (rt i) words) nz ok,
    )

-- A 64-bit pattern as the pair of its words.
halves_lem :
    (u : Bool) (k : ℕ)
    → k ≤ 2 ^ 62
    → signed32 (pattern64 (with_size u k) / 2 ^ 32) *ℤ pos (2 ^ 32)
        +ℤ pos (u32 (pattern64 (with_size u k)))
      ≡ with_size u k
unfolding pattern64 ◌*ℤ◌ ◌+ℤ◌
halves_lem true k p = ground arith
halves_lem false k p = ground arith

-- Where the registers hold words, the words that MUH and MUL write are the high word, signed, and the
-- low word of the exact signed product.
pub mul-muh :
    (i : ℕ) (p : Processor)
    → HasWords p
    → (hi : ℕ) × (lo : ℕ) × (muh i p ≡ done (set_register p (rd i) hi))
      × (mul i p ≡ done (set_register p (rd i) lo))
      × (lo < 2 ^ 32)
      × (signed32 hi *ℤ pos (2 ^ 32) +ℤ pos lo ≡ signed32 (rs_value i p) *ℤ signed32 (rt_value i p))
unfolding mul muh signed_product
mul-muh i p words =
    let a = rs_value i p in
    let b = rt_value i p in
    let la : a < 2 ^ 32 = get_register-lt p (rs i) words in
    let lb : b < 2 ^ 32 = get_register-lt p (rt i) words in
    let z : ℤ = signed32 a *ℤ signed32 b in
    let k : ℕ = magnitude a * magnitude b in
    let u : Bool = differs (is_negative a) (is_negative b) in
    let e : z ≡ with_size u k = cc (
      with_size-mul (is_negative a) (is_negative b) (magnitude a) (magnitude b),
      signed32-magnitude a la,
      signed32-magnitude b lb,
    ) in
    let small : k ≤ 2 ^ 31 * 2 ^ 31 =
      mul-le-mul {n₂ = 2 ^ 31} {m₂ = 2 ^ 31} (magnitude-le a la) (magnitude-le b lb) in
    (
      pattern64 z / 2 ^ 32,
      u32 (pattern64 z),
      refl,
      refl,
      omega arith,
      subst
          (λ (y : ℤ).
            signed32 (pattern64 y / 2 ^ 32) *ℤ pos (2 ^ 32) +ℤ pos (u32 (pattern64 y)) ≡ y)
          (sym e) (halves_lem u k small),
    )
