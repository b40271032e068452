-- ===== src/Decode/Select.antt =====
-- The choices that `populate_map` makes among the entries
-- (src/mips/instructions/instructions.cpp): `FindGreatestMask`, the masks that it joins, and the
-- loops that erase.
use vemips.Base.{
  ℕ, zero, suc, ◌+◌, ◌-◌, ◌/◌, ◌%◌, ◌^◌, bit_and, bit_or, Bool, true, false, ◌&&◌, Option, none,
  some, List, [], ◌∷◌, leb, if◌then◌else◌, ◌==◌,
}
use vemips.Decode.{FullProcInfo}

abbrev pub all_ones : ℕ
all_ones = 0xFFFFFFFF

abbrev pub size_max : ℕ
size_max = 0xFFFFFFFFFFFFFFFF

-- `this_bits` of `FindGreatestMask`, from bit `i` on for `rounds` bits; `reverse_mask_order` is
-- true, so that the ones of the mask are taken away.
unfoldable pub count_bits : (rounds i mask this_bits : ℕ) → ℕ
count_bits zero i mask this_bits = this_bits
count_bits (suc rounds) i mask this_bits =
    count_bits rounds (i + 1) mask (this_bits - mask / 2 ^ i % 2)

abbrev pub this_bits : ℕ → ℕ
this_bits mask = count_bits 32 0 mask size_max

module _ {ℓ} {I : Type ℓ} where
  -- The last of the entries with the most ones.
  unfoldable pub greatest_from :
      ℕ → Option (FullProcInfo I) → List (FullProcInfo I) → Option (FullProcInfo I)
  greatest_from bits match [] = match
  greatest_from bits match (p ∷ procs) =
      let now = this_bits p.instruction_mask in
      let better = leb now bits in
      greatest_from (if better then now else bits) (if better then some p else match) procs

  unfoldable pub find_greatest_mask : List (FullProcInfo I) → Option (FullProcInfo I)
  unfolding greatest_from count_bits
  find_greatest_mask = greatest_from size_max none

  -- The masks of the entries joined by `|` and by `&`.
  unfoldable pub or_masks_from : ℕ → List (FullProcInfo I) → ℕ
  or_masks_from mask [] = mask
  or_masks_from mask (p ∷ procs) = or_masks_from (bit_or mask p.instruction_mask) procs

  unfoldable pub or_masks : List (FullProcInfo I) → ℕ
  unfolding or_masks_from
  or_masks = or_masks_from 0

  unfoldable pub and_masks_from : ℕ → List (FullProcInfo I) → ℕ
  and_masks_from mask [] = mask
  and_masks_from mask (p ∷ procs) = and_masks_from (bit_and mask p.instruction_mask) procs

  unfoldable pub and_masks : List (FullProcInfo I) → ℕ
  unfolding and_masks_from
  and_masks = and_masks_from all_ones

  -- `AllMatch`: no reference differs from the first under the mask.
  unfoldable pub agree_with : ℕ → ℕ → List (FullProcInfo I) → Bool
  agree_with new_mask this [] = true
  agree_with new_mask this (p ∷ procs) =
      (new_mask == bit_and p.ref_mask this) && agree_with new_mask this procs

  unfoldable pub all_match : ℕ → List (FullProcInfo I) → Bool
  unfolding agree_with
  all_match this [] = true
  all_match this (p ∷ procs) = agree_with (bit_and p.ref_mask this) this procs

  -- `MaskFiltered`: an entry has just this mask.
  unfoldable pub has_mask : ℕ → List (FullProcInfo I) → Bool
  has_mask mask [] = false
  has_mask mask (p ∷ procs) = if p.instruction_mask == mask then true else has_mask mask procs

  -- What the loops that erase leave: without the entries of a mask, without the first entry like
  -- a given one, and without the entries of a group.
  unfoldable pub without_mask : ℕ → List (FullProcInfo I) → List (FullProcInfo I)
  without_mask mask [] = []
  without_mask mask (p ∷ procs) =
      let rest = without_mask mask procs in if p.instruction_mask == mask then rest else p ∷ rest

  unfoldable pub erase_like : FullProcInfo I → List (FullProcInfo I) → List (FullProcInfo I)
  erase_like g [] = []
  erase_like g (p ∷ procs) =
      let rest = erase_like g procs in
      if (p.instruction_mask == g.instruction_mask) && (p.ref_mask == g.ref_mask)
      then procs
      else p ∷ rest

  unfoldable pub with_ref : ℕ → ℕ → List (FullProcInfo I) → List (FullProcInfo I)
  with_ref new_mask this [] = []
  with_ref new_mask this (p ∷ procs) =
      let rest = with_ref new_mask this procs in
      if new_mask == bit_and p.ref_mask this then p ∷ rest else rest

  unfoldable pub without_ref : ℕ → ℕ → List (FullProcInfo I) → List (FullProcInfo I)
  without_ref new_mask this [] = []
  without_ref new_mask this (p ∷ procs) =
      let rest = without_ref new_mask this procs in
      if new_mask == bit_and p.ref_mask this then rest else p ∷ rest
