-- ===== src/Decode/Build/Sizes.antt =====
-- The sizes of the groups of a division.
use vemips.Base.{
  ℕ, ◌+◌, ◌<◌, ◌≡◌, refl, sym, ap, inl, inr, bit_and, List, [], ◌∷◌, ◌==◌, ◌&&◌, true, false,
  Bool-cases, ==_iff, arith,
}
use vemips.Base.Lists.{length, Any, All}
use vemips.Decode.Select.{all_match, agree_with, erase_like, with_ref, without_ref}
use vemips.Decode.{FullProcInfo}

module _ {I : Type 0} where
  pub with_ref-without_ref :
      (key this : ℕ) (procs : List (FullProcInfo I))
      → length (with_ref key this procs) + length (without_ref key this procs) ≡ length procs
  unfolding with_ref without_ref
  with_ref-without_ref key this [] = refl
  with_ref-without_ref key this (p ∷ procs) = ground (arith, with_ref-without_ref key this procs)

  -- An entry of the list is found and erased.
  pub erase_like-lt :
      (g : FullProcInfo I) (procs : List (FullProcInfo I))
      → Any (λ p. p ≡ g) procs
      → length (erase_like g procs) + 1 ≡ length procs
  unfolding erase_like
  erase_like-lt g [] h = absurd h
  erase_like-lt g (p ∷ procs) (inl same) =
      let mask =
        (==_iff p.instruction_mask g.instruction_mask).1 (ap (λ q. q.instruction_mask) same) in
      let ref = (==_iff p.ref_mask g.ref_mask).1 (ap (λ q. q.ref_mask) same) in
      rw (mask, ref) (omega arith)
  erase_like-lt g (p ∷ procs) (inr later) =
      elim (Bool-cases ((p.instruction_mask == g.instruction_mask) && (p.ref_mask == g.ref_mask))) [
        | inl same ↦ rw same (omega arith)
        | inr other ↦ rw other (omega (arith, erase_like-lt g procs later))
      ]

  abbrev HasKey : ℕ → ℕ → FullProcInfo I → Type 0
  HasKey key this p = bit_and p.ref_mask this ≡ key

  nothing_left :
      (key this : ℕ) (procs : List (FullProcInfo I))
      → length (without_ref key this procs) ≡ 0
      → All (HasKey key this) procs
  unfolding without_ref
  nothing_left key this [] h = tt
  nothing_left key this (p ∷ procs) h = elim (Bool-cases (key == bit_and p.ref_mask this)) [
    | inl same ↦ (
      sym ((==_iff key (bit_and p.ref_mask this)).0 same),
      nothing_left key this procs (rw same at h),
    )
    | inr other ↦ absurd (omega (arith, (rw other at h)))
  ]

  erased_too :
      (g : FullProcInfo I) (this : ℕ) (procs : List (FullProcInfo I))
      → All (HasKey (bit_and g.ref_mask this) this) (erase_like g procs)
      → All (HasKey (bit_and g.ref_mask this) this) procs
  unfolding erase_like
  erased_too g this [] h = tt
  erased_too g this (p ∷ procs) h =
      elim (Bool-cases ((p.instruction_mask == g.instruction_mask) && (p.ref_mask == g.ref_mask))) [
        | inl same ↦
            let ref : p.ref_mask ≡ g.ref_mask = ground arith in
            (ap (λ r. bit_and r this) ref, (rw same at h))
        | inr other ↦ let k = rw other at h in (k.0, erased_too g this procs k.1)
      ]

  agree_with-All :
      (key this : ℕ) (procs : List (FullProcInfo I))
      → All (HasKey key this) procs
      → agree_with key this procs ≡ true
  unfolding agree_with
  agree_with-All key this [] h = refl
  agree_with-All key this (p ∷ procs) h =
      rw ((==_iff key (bit_and p.ref_mask this)).1 (sym h.0)) (agree_with-All key this procs h.1)

  all_match-All :
      (key this : ℕ) (procs : List (FullProcInfo I))
      → All (HasKey key this) procs
      → all_match this procs ≡ true
  unfolding all_match
  all_match-All key this [] h = refl
  all_match-All key this (p ∷ procs) h = rw h.0 (agree_with-All key this procs h.1)

  -- Where the references differ under the common mask, a group is not the whole list.
  pub rest-pos :
      (g : FullProcInfo I) (this : ℕ) (procs : List (FullProcInfo I))
      → all_match this procs ≡ false
      → 0 < length (without_ref (bit_and g.ref_mask this) this (erase_like g procs))
  rest-pos g this procs differ =
      let key = bit_and g.ref_mask this in
      elim (Bool-cases (length (without_ref key this (erase_like g procs)) == 0)) [
        | inl empty ↦
            let alike = all_match-All key this procs (
              erased_too g this procs (
                nothing_left key this (erase_like g procs)
                  ((==_iff (length (without_ref key this (erase_like g procs))) 0).0 empty))) in
            absurd (cc)
        | inr some_left ↦ ground arith
      ]
