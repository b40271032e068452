-- ===== src/Decode/Build/Progress.antt =====
-- The choices of `populate_map` always find an entry and take one away, and the opcode stays in the
-- joined mask.
use vemips.Base.{
  ℕ, zero, suc, ◌+◌, ◌-◌, ◌/◌, ◌%◌, ◌^◌, le→leb, ◌≤◌, ◌<◌, ◌≡◌, ◌≢◌, refl, ap, ◌∙◌, inl, inr, some,
  bit_and, List, [], ◌∷◌, ◌==◌, true, leb, Bool-cases, ==_iff, arith, subst,
}
use vemips.Base.Lists.{length, Any, All}
use vemips.Base.Masks.{bit_and_assoc}
use vemips.Decode.Select.{
  count_bits, this_bits, size_max, greatest_from, find_greatest_mask, and_masks, and_masks_from,
  has_mask, without_mask, all_ones,
}
use vemips.Decode.{FullProcInfo}

count_bits-le : (rounds i mask bits : ℕ) → count_bits rounds i mask bits ≤ bits
unfolding count_bits
count_bits-le zero i mask bits = omega arith
count_bits-le (suc rounds) i mask bits =
    omega (arith, count_bits-le rounds (i + 1) mask (bits - mask / 2 ^ i % 2))

-- The bits that every declared mask reads: the major opcode.
abbrev pub opcode_bits : ℕ
opcode_bits = 0xFC000000

module _ {I : Type 0} where
  abbrev pub HasOpcode : FullProcInfo I → Type 0
  HasOpcode p = bit_and p.instruction_mask opcode_bits ≡ opcode_bits

  without_mask-le :
      (mask : ℕ) (procs : List (FullProcInfo I)) → length (without_mask mask procs) ≤ length procs
  unfolding without_mask
  without_mask-le mask [] = omega arith
  without_mask-le mask (p ∷ procs) = ground (arith, without_mask-le mask procs)

  -- A filter that takes an entry leaves fewer.
  pub without_mask-lt :
      (mask : ℕ) (procs : List (FullProcInfo I))
      → has_mask mask procs ≡ true
      → length (without_mask mask procs) < length procs
  unfolding without_mask has_mask
  without_mask-lt mask [] h = absurd (cc)
  without_mask-lt mask (p ∷ procs) h =
      ground (arith, without_mask-le mask procs, without_mask-lt mask procs)

  greatest_from-some :
      (bits : ℕ) (g : FullProcInfo I) (procs : List (FullProcInfo I))
      → (g' : FullProcInfo I) × (greatest_from bits (some g) procs ≡ some g')
  unfolding greatest_from
  greatest_from-some bits g [] = (g, refl)
  greatest_from-some bits g (p ∷ procs) =
      elim (Bool-cases (leb (this_bits p.instruction_mask) bits)) [
        | inl better ↦ rw better (greatest_from-some (this_bits p.instruction_mask) p procs)
        | inr worse ↦ rw worse (greatest_from-some bits g procs)
      ]

  pub find_greatest_mask-some :
      (p : FullProcInfo I) (procs : List (FullProcInfo I))
      → (g : FullProcInfo I) × (find_greatest_mask (p ∷ procs) ≡ some g)
  unfolding find_greatest_mask greatest_from
  find_greatest_mask-some p procs =
      rw (le→leb _ _ (count_bits-le 32 0 p.instruction_mask size_max))
        (greatest_from-some (this_bits p.instruction_mask) p procs)

  pub has_mask-Any :
      (g : FullProcInfo I) (procs : List (FullProcInfo I))
      → Any (λ p. p ≡ g) procs
      → has_mask g.instruction_mask procs ≡ true
  unfolding has_mask
  has_mask-Any g [] h = absurd h
  has_mask-Any g (p ∷ procs) (inl same) =
      rw ((==_iff p.instruction_mask g.instruction_mask).1 (ap (λ q. q.instruction_mask) same)) refl
  has_mask-Any g (p ∷ procs) (inr later) =
      elim (Bool-cases (p.instruction_mask == g.instruction_mask)) [
        | inl same ↦ rw same refl
        | inr other ↦ rw other (has_mask-Any g procs later)
      ]

  -- The opcode stays in the joined masks.
  and_masks_from-opcode :
      (mask : ℕ) (procs : List (FullProcInfo I))
      → bit_and mask opcode_bits ≡ opcode_bits
      → All HasOpcode procs
      → bit_and (and_masks_from mask procs) opcode_bits ≡ opcode_bits
  unfolding and_masks_from
  and_masks_from-opcode mask [] h all = h
  and_masks_from-opcode mask (p ∷ procs) h all =
      and_masks_from-opcode (bit_and mask p.instruction_mask) procs
        (bit_and_assoc mask p.instruction_mask opcode_bits ∙ ap (bit_and mask) all.0 ∙ h) all.1

  pub and_masks-ne-zero :
      (procs : List (FullProcInfo I)) → All HasOpcode procs → and_masks procs ≢ 0
  unfolding and_masks
  and_masks-ne-zero procs all none_left =
      let kept = and_masks_from-opcode all_ones procs refl all in
      let lost : bit_and 0 opcode_bits ≡ opcode_bits =
        subst (λ m. bit_and m opcode_bits ≡ opcode_bits) none_left kept in
      absurd (omega (arith, lost))
