-- ===== src/Decode/Build/Divide.antt =====
-- The division of the entries by a common mask: each group's tree stands under its key.
use vemips.Base.{
  ℕ, zero, suc, ◌≡◌, ◌≢◌, refl, sym, ap, ◌∙◌, inl, inr, Option, some, bit_and, List, [], ◌∷◌, ◌==◌,
  Bool-cases, Option-cases, ==_iff, arith, subst,
}
use vemips.Base.Lists.{Any, Any-map}
use vemips.Base.Masks.{under_part}
use vemips.Decode.Build.Common.{find_greatest_mask-Any}
use vemips.Decode.Build.Filter.{Found, Refines}
use vemips.Decode.Build.Groups.{
  erase_like-Any, Any-erase_like, with_ref-Any, without_ref-Any, Any-with_ref, Any-without_ref,
  without_ref-none,
}
use vemips.Decode.Build.Lookup.{look, look-assign_same, look-assign_other, Matches}
use vemips.Decode.Build.{tier_node, divide}
use vemips.Decode.Select.{find_greatest_mask, erase_like, with_ref, without_ref}
use vemips.Decode.{FullProcInfo, MapOrInfo, leaf, Map, assign, find}

-- A matching entry whose tree stands under the word's key.
abbrev pub Served : {I : Type 0} → ℕ → ℕ → Map I → FullProcInfo I → Type 0
Served {I} this w map q =
    (node : MapOrInfo I) × (look (bit_and w this) map ≡ some node) × Found node w q

module _ {I : Type 0} (populate : List (FullProcInfo I) → Option (MapOrInfo I)) (this : ℕ) where
  -- The entries that the round of `g` puts into its group and those that it leaves.
  abbrev group_of : FullProcInfo I → List (FullProcInfo I) → List (FullProcInfo I)
  group_of g procs = with_ref (bit_and g.ref_mask this) this (erase_like g procs)

  abbrev rest_of : FullProcInfo I → List (FullProcInfo I) → List (FullProcInfo I)
  rest_of g procs = without_ref (bit_and g.ref_mask this) this (erase_like g procs)

  -- A round that succeeds, taken apart.
  record Round (rounds : ℕ) (procs : List (FullProcInfo I)) (map result : Map I) : Type 0 where
    g : FullProcInfo I
    next : MapOrInfo I
    greatest : find_greatest_mask procs ≡ some g
    built : tier_node populate g (group_of g procs) ≡ some next
    goes_on :
        divide populate rounds this (rest_of g procs) (assign (bit_and g.ref_mask this) next map)
        ≡ some result

  divide-Round :
      (rounds : ℕ) (p : FullProcInfo I) (procs : List (FullProcInfo I)) (map result : Map I)
      → divide populate (suc rounds) this (p ∷ procs) map ≡ some result
      → Round rounds (p ∷ procs) map result
  unfolding divide
  divide-Round rounds p procs map result h = elim (Option-cases (find_greatest_mask (p ∷ procs))) [
    | inl stuck ↦ absurd (ground arith)
    | inr (g, greatest) ↦ elim (Option-cases (tier_node populate g (group_of g (p ∷ procs)))) [
      | inl stuck ↦ absurd (ground arith)
      | inr (next, built) ↦ record {
        g = g;
        next = next;
        greatest = greatest;
        built = built;
        goes_on = rw built at (rw (greatest, divide) at h);
      }
    ]
  ]

  -- What stands under a key that no entry has stays.
  divide-kept :
      (rounds key : ℕ) (procs : List (FullProcInfo I)) (map result : Map I)
      → divide populate rounds this procs map ≡ some result
      → (Any (λ p. bit_and p.ref_mask this ≡ key) procs → ⊥)
      → look key result ≡ look key map
  unfolding divide
  divide-kept rounds key [] map result h apart = ground arith
  divide-kept zero key (p ∷ procs) map result h apart = absurd (ground arith)
  divide-kept (suc rounds) key (p ∷ procs) map result h apart =
      let r = divide-Round rounds p procs map result h in
      let new_mask = bit_and r.g.ref_mask this in
      let kept =
        divide-kept rounds key (rest_of r.g (p ∷ procs)) (assign new_mask r.next map) result
          r.goes_on
          λ some_one.
            apart (erase_like-Any _ r.g (p ∷ procs) (without_ref-Any _ new_mask this _ some_one)) in
      let other : new_mask ≢ key = λ e. apart (
        Any-map (λ q is_g. ap (λ x. bit_and x.ref_mask this) is_g ∙ e) (p ∷ procs)
          (find_greatest_mask-Any (p ∷ procs) r.g r.greatest)) in
      kept ∙ look-assign_other key new_mask r.next map other

  module _ (sound : Refines populate) (w : ℕ) where
    -- An entry that the word has the encoding of, and whose mask holds the common one.
    abbrev Fits : FullProcInfo I → Type 0
    Fits p = Matches w p × (bit_and p.instruction_mask this ≡ this)

    Fits-key : (p : FullProcInfo I) → Fits p → bit_and p.ref_mask this ≡ bit_and w this
    Fits-key p fits = sym (under_part w p.instruction_mask p.ref_mask this fits.0 fits.1)

    tier_node-Found :
        (g : FullProcInfo I) (tier : List (FullProcInfo I)) (next : MapOrInfo I)
        → tier_node populate g tier ≡ some next
        → Any Fits (g ∷ tier)
        → Any (Found next w) (g ∷ tier)
    unfolding tier_node find
    tier_node-Found g [] next h (inl fits) =
        let next_is : leaf g.proc_info ≡ next = ground arith in
        inl (fits.0, subst (λ n. find n w ≡ some g.proc_info) next_is refl)
    tier_node-Found g [] next h (inr never) = absurd never
    tier_node-Found g (p ∷ tier) next h found =
        sound (g ∷ p ∷ tier) next w h (Any-map (λ q fits. fits.0) (g ∷ p ∷ tier) found)

    -- An entry with the mask and the reference of one that fits does too.
    Fits-like :
        (g p : FullProcInfo I)
        → p.instruction_mask ≡ g.instruction_mask
        → p.ref_mask ≡ g.ref_mask
        → Fits p
        → Fits g
    Fits-like g p mask ref fits =
        (ap (bit_and w) (sym mask) ∙ fits.0 ∙ ref, ap (λ t. bit_and t this) (sym mask) ∙ fits.1)

    -- What a group's tree finds, among all the entries.
    group-Served :
        (g : FullProcInfo I) (group procs : List (FullProcInfo I)) (map : Map I)
        (next : MapOrInfo I)
        → look (bit_and w this) map ≡ some next
        → Any (λ p. p ≡ g) procs
        → (Any (Served this w map) group → Any (Served this w map) procs)
        → Any (Found next w) (g ∷ group)
        → Any (Served this w map) procs
    group-Served g group procs map next there g_in group_in (inl first) =
        Any-map (λ q is_g. (next, there, subst (Found next w) (sym is_g) first)) procs g_in
    group-Served g group procs map next there g_in group_in (inr later) =
        group_in (Any-map (λ q f. (next, there, f)) group later)

    -- Each matching entry's key ends with the tree of its group.
    pub divide-Served :
        (rounds : ℕ) (procs : List (FullProcInfo I)) (map result : Map I)
        → divide populate rounds this procs map ≡ some result
        → Any Fits procs
        → Any (Served this w result) procs
    unfolding divide
    divide-Served rounds [] map result h found = absurd found
    divide-Served zero (p ∷ procs) map result h found = absurd (ground arith)
    divide-Served (suc rounds) (p ∷ procs) map result h found =
        let r = divide-Round rounds p procs map result h in
        let new_mask = bit_and r.g.ref_mask this in
        let all = p ∷ procs in
        let group = group_of r.g all in
        let rest = rest_of r.g all in
        elim (Bool-cases (new_mask == bit_and w this)) [
          | inl same ↦
              let key : bit_and w this ≡ new_mask =
                sym ((==_iff new_mask (bit_and w this)).0 same) in
              let there : look (bit_and w this) result ≡ some r.next =
                ap (λ k. look k result) key
                ∙ divide-kept rounds new_mask rest (assign new_mask r.next map) result r.goes_on
                    (without_ref-none new_mask this (erase_like r.g all))
                ∙ look-assign_same new_mask r.next map in
              let in_group : Any Fits (r.g ∷ group) =
                elim (Any-erase_like Fits r.g all (Fits-like r.g) found) [
                  | inl first ↦ inl first
                  | inr left ↦
                      inr (Any-with_ref Fits new_mask this _ (λ q fits. Fits-key q fits ∙ key) left)
                ] in
              group-Served r.g group all result r.next there
                (find_greatest_mask-Any all r.g r.greatest)
                (λ s. erase_like-Any _ r.g all (with_ref-Any _ new_mask this _ s))
                (tier_node-Found r.g group r.next r.built in_group)
          | inr apart ↦
              let key : new_mask ≢ bit_and w this =
                λ e. cc ((==_iff new_mask (bit_and w this)).1 e, apart) in
              let left : Any Fits (erase_like r.g all) =
                elim (Any-erase_like Fits r.g all (Fits-like r.g) found) [
                  | inl first ↦ absurd (key (Fits-key r.g first))
                  | inr left ↦ left
                ] in
              let in_rest : Any Fits rest =
                Any-without_ref Fits new_mask this _ (λ q fits e. key (sym e ∙ Fits-key q fits))
                  left in
              erase_like-Any _ r.g all (
                without_ref-Any _ new_mask this _
                  (divide-Served rounds rest (assign new_mask r.next map) result r.goes_on in_rest))
        ]
