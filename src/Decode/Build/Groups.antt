-- ===== src/Decode/Build/Groups.antt =====
-- The groups into which `populate_map` divides the entries: what the loops that erase take and leave.
use vemips.Base.{ℕ, ◌≡◌, ◌≢◌, ◌⊎◌, inl, inr, bit_and, List, [], ◌∷◌, ◌==◌, ◌&&◌, Bool-cases, arith}
use vemips.Base.Lists.{Any}
use vemips.Decode.Select.{erase_like, with_ref, without_ref}
use vemips.Decode.{FullProcInfo}

module _ {I : Type 0} where
  -- What is left after an erasure was there before.
  pub erase_like-Any :
      (P : FullProcInfo I → Type 0) (g : FullProcInfo I) (procs : List (FullProcInfo I))
      → Any P (erase_like g procs)
      → Any P procs
  unfolding erase_like
  erase_like-Any P g [] h = h
  erase_like-Any P g (p ∷ procs) h =
      elim (Bool-cases ((p.instruction_mask == g.instruction_mask) && (p.ref_mask == g.ref_mask))) [
        | inl same ↦ inr (rw same at h)
        | inr other ↦ elim (rw other at h) [
          | inl here ↦ inl here
          | inr later ↦ inr (erase_like-Any P g procs later)
        ]
      ]

  -- An erasure takes only an entry with the mask and the reference of `g`.
  pub Any-erase_like :
      (P : FullProcInfo I → Type 0) (g : FullProcInfo I) (procs : List (FullProcInfo I))
      → ((p : FullProcInfo I)
          → p.instruction_mask ≡ g.instruction_mask
          → p.ref_mask ≡ g.ref_mask
          → P p
          → P g)
      → Any P procs
      → P g ⊎ Any P (erase_like g procs)
  unfolding erase_like
  Any-erase_like P g [] alike h = inr h
  Any-erase_like P g (p ∷ procs) alike h =
      let test = (p.instruction_mask == g.instruction_mask) && (p.ref_mask == g.ref_mask) in
      elim (Bool-cases test) [
        | inl same ↦ elim h [
          | inl here ↦ inl (alike p (ground arith) (ground arith) here)
          | inr later ↦ rw same (inr later)
        ]
        | inr other ↦ elim h [
          | inl here ↦ rw other (inr (inl here))
          | inr later ↦ elim (Any-erase_like P g procs alike later) [
            | inl taken ↦ inl taken
            | inr left ↦ rw other (inr (inr left))
          ]
        ]
      ]

  -- The group of a key and the rest, with what their entries hold under the common mask.
  pub with_ref-Any :
      (P : FullProcInfo I → Type 0) (key this : ℕ) (procs : List (FullProcInfo I))
      → Any P (with_ref key this procs)
      → Any P procs
  unfolding with_ref
  with_ref-Any P key this [] h = h
  with_ref-Any P key this (p ∷ procs) h = elim (Bool-cases (key == bit_and p.ref_mask this)) [
    | inl same ↦ elim (rw same at h) [
      | inl here ↦ inl here
      | inr later ↦ inr (with_ref-Any P key this procs later)
    ]
    | inr other ↦ inr (with_ref-Any P key this procs (rw other at h))
  ]

  pub Any-with_ref :
      (P : FullProcInfo I → Type 0) (key this : ℕ) (procs : List (FullProcInfo I))
      → ((p : FullProcInfo I) → P p → bit_and p.ref_mask this ≡ key)
      → Any P procs
      → Any P (with_ref key this procs)
  unfolding with_ref
  Any-with_ref P key this [] keyed h = h
  Any-with_ref P key this (p ∷ procs) keyed h = elim (Bool-cases (key == bit_and p.ref_mask this)) [
    | inl same ↦ elim h [
      | inl here ↦ rw same (inl here)
      | inr later ↦ rw same (inr (Any-with_ref P key this procs keyed later))
    ]
    | inr other ↦ elim h [
      | inl here ↦ absurd (ground (arith, keyed p here))
      | inr later ↦ rw other (Any-with_ref P key this procs keyed later)
    ]
  ]

  pub without_ref-Any :
      (P : FullProcInfo I → Type 0) (key this : ℕ) (procs : List (FullProcInfo I))
      → Any P (without_ref key this procs)
      → Any P procs
  unfolding without_ref
  without_ref-Any P key this [] h = h
  without_ref-Any P key this (p ∷ procs) h = elim (Bool-cases (key == bit_and p.ref_mask this)) [
    | inl same ↦ inr (without_ref-Any P key this procs (rw same at h))
    | inr other ↦ elim (rw other at h) [
      | inl here ↦ inl here
      | inr later ↦ inr (without_ref-Any P key this procs later)
    ]
  ]

  pub Any-without_ref :
      (P : FullProcInfo I → Type 0) (key this : ℕ) (procs : List (FullProcInfo I))
      → ((p : FullProcInfo I) → P p → bit_and p.ref_mask this ≢ key)
      → Any P procs
      → Any P (without_ref key this procs)
  unfolding without_ref
  Any-without_ref P key this [] apart h = h
  Any-without_ref P key this (p ∷ procs) apart h =
      elim (Bool-cases (key == bit_and p.ref_mask this)) [
        | inl same ↦ elim h [
          | inl here ↦ absurd (apart p here (ground arith))
          | inr later ↦ rw same (Any-without_ref P key this procs apart later)
        ]
        | inr other ↦ elim h [
          | inl here ↦ rw other (inl here)
          | inr later ↦ rw other (inr (Any-without_ref P key this procs apart later))
        ]
      ]

  -- No entry of the group is left in the rest.
  pub without_ref-none :
      (key this : ℕ) (procs : List (FullProcInfo I))
      → Any (λ p. bit_and p.ref_mask this ≡ key) (without_ref key this procs)
      → ⊥
  unfolding without_ref
  without_ref-none key this [] h = h
  without_ref-none key this (p ∷ procs) h = elim (Bool-cases (key == bit_and p.ref_mask this)) [
    | inl same ↦ without_ref-none key this procs (rw same at h)
    | inr other ↦ elim (rw other at h) [
      | inl here ↦ ground arith
      | inr later ↦ without_ref-none key this procs later
    ]
  ]
