-- ===== src/Decode/Build/Common.antt =====
-- The choices of `populate_map` among the entries: the greatest mask is one of theirs, and the joined
-- mask lies in each of theirs.
use vemips.Base.{
  ℕ, ◌≡◌, sym, ap, ◌∙◌, ◌⊎◌, inl, inr, Option, none, some, bit_and, List, [], ◌∷◌, Bool-cases, leb,
}
use vemips.Base.Lists.{Any, All}
use vemips.Base.Masks.{bit_and_assoc, bit_and_self, bit_and_comm}
use vemips.Decode.Select.{
  find_greatest_mask, greatest_from, this_bits, and_masks, and_masks_from, all_ones,
}
use vemips.Decode.{FullProcInfo}

module _ {I : Type 0} where
  greatest_from-Any :
      (bits : ℕ) (match : Option (FullProcInfo I)) (procs : List (FullProcInfo I))
      (g : FullProcInfo I)
      → greatest_from bits match procs ≡ some g
      → (match ≡ some g) ⊎ Any (λ p. p ≡ g) procs
  unfolding greatest_from
  greatest_from-Any bits match [] g h = inl h
  greatest_from-Any bits match (p ∷ procs) g h =
      elim (Bool-cases (leb (this_bits p.instruction_mask) bits)) [
        | inl better ↦
            elim (greatest_from-Any (this_bits p.instruction_mask) (some p) procs g
              (rw better at h)) [ inl here ↦ inr (inl (cc)) | inr later ↦ inr (inr later) ]
        | inr worse ↦ elim (greatest_from-Any bits match procs g (rw worse at h)) [
          | inl here ↦ inl here
          | inr later ↦ inr (inr later)
        ]
      ]

  -- The entry that `FindGreatestMask` gives is one of the entries.
  pub find_greatest_mask-Any :
      (procs : List (FullProcInfo I)) (g : FullProcInfo I)
      → find_greatest_mask procs ≡ some g
      → Any (λ p. p ≡ g) procs
  unfolding find_greatest_mask
  find_greatest_mask-Any procs g h = elim (greatest_from-Any _ none procs g h) [
    | inl never ↦ absurd (cc)
    | inr found ↦ found
  ]

  -- A mask that lies in the mask of every entry.
  abbrev pub IsCommon : ℕ → List (FullProcInfo I) → Type 0
  IsCommon this = All (λ p. bit_and p.instruction_mask this ≡ this)

  and_masks_from-within :
      (mask : ℕ) (procs : List (FullProcInfo I))
      → bit_and mask (and_masks_from mask procs) ≡ and_masks_from mask procs
  unfolding and_masks_from
  and_masks_from-within mask [] = bit_and_self mask
  and_masks_from-within mask (p ∷ procs) =
      let m = p.instruction_mask in
      let deeper = and_masks_from-within (bit_and mask m) procs in
      let inner = and_masks_from (bit_and mask m) procs in
      ap (bit_and mask) (sym deeper)
      ∙ sym (bit_and_assoc mask (bit_and mask m) inner)
      ∙ ap (λ t. bit_and t inner) (sym (bit_and_assoc mask mask m))
      ∙ ap (λ t. bit_and (bit_and t m) inner) (bit_and_self mask)
      ∙ deeper

  and_masks_from-IsCommon :
      (mask : ℕ) (procs : List (FullProcInfo I)) → IsCommon (and_masks_from mask procs) procs
  unfolding and_masks_from
  and_masks_from-IsCommon mask [] = tt
  and_masks_from-IsCommon mask (p ∷ procs) =
      let m = p.instruction_mask in
      let inner = and_masks_from (bit_and mask m) procs in
      let deeper = and_masks_from-within (bit_and mask m) procs in
      (
        ap (bit_and m) (sym deeper)
            ∙ sym (bit_and_assoc m (bit_and mask m) inner)
            ∙ ap (λ t. bit_and t inner) (bit_and_comm m (bit_and mask m) ∙ bit_and_assoc mask m m)
            ∙ ap (λ t. bit_and (bit_and mask t) inner) (bit_and_self m)
            ∙ deeper,
        and_masks_from-IsCommon (bit_and mask m) procs,
      )

  -- The masks joined by `&` lie in each of them.
  pub and_masks-IsCommon : (procs : List (FullProcInfo I)) → IsCommon (and_masks procs) procs
  unfolding and_masks
  and_masks-IsCommon procs = and_masks_from-IsCommon all_ones procs
