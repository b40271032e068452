-- ===== src/Decode/Build/Total.antt =====
-- The construction of the tree ends: each recursive call gets fewer entries.
use vemips.Base.{
  ℕ, zero, suc, ◌≤◌, ◌<◌, ◌≡◌, refl, ◌⊎◌, inl, inr, Option, some, bit_and, List, [], ◌∷◌, ◌==◌,
  true, false, Bool-cases, ==_iff, arith, subst,
}
use vemips.Base.Lists.{length, Any, All, All-at, All-within, Any-map}
use vemips.Decode.Build.Common.{find_greatest_mask-Any}
use vemips.Decode.Build.Groups.{erase_like-Any, with_ref-Any, without_ref-Any}
use vemips.Decode.Build.Lookup.{without_mask-Any}
use vemips.Decode.Build.Progress.{
  HasOpcode, without_mask-lt, find_greatest_mask-some, has_mask-Any, and_masks-ne-zero,
}
use vemips.Decode.Build.Sizes.{with_ref-without_ref, erase_like-lt, rest-pos}
use vemips.Decode.Build.{
  assign_leaves, with_default, filter_mask, tier_node, divide, divide_common, populate_tier,
  populate_map,
}
use vemips.Decode.Select.{
  and_masks, or_masks, all_match, has_mask, without_mask, erase_like, with_ref, without_ref,
  all_ones,
}
use vemips.Decode.{FullProcInfo, MapOrInfo, table, table_or, Map, nil, assign}

module _ {I : Type 0} where
  -- A construction that succeeds on every list of at most `n` entries, but not on the empty one.
  abbrev IsTotal : (List (FullProcInfo I) → Option (MapOrInfo I)) → ℕ → Type 0
  IsTotal populate n =
      (p : FullProcInfo I) (procs : List (FullProcInfo I))
      → All HasOpcode (p ∷ procs)
      → length procs < n
      → (node : MapOrInfo I) × (populate (p ∷ procs) ≡ some node)

  module _ (populate : List (FullProcInfo I) → Option (MapOrInfo I)) (n : ℕ)
      (total : IsTotal populate n) where
    with_default-total :
        (mask : ℕ) (map : Map I) (left : List (FullProcInfo I))
        → All HasOpcode left
        → length left ≤ n
        → (node : MapOrInfo I) × (with_default populate mask map left ≡ some node)
    unfolding with_default
    with_default-total mask map [] all small = (_, refl)
    with_default-total mask map (p ∷ left) all small =
        let (other, built) = total p left all (omega arith) in
        (table_or mask map other, rw (built, with_default) refl)

    filter_mask-total :
        (mask : ℕ) (procs : List (FullProcInfo I))
        → All HasOpcode procs
        → length procs ≤ suc n
        → has_mask mask procs ≡ true
        → (node : MapOrInfo I) × (filter_mask populate mask procs ≡ some node)
    unfolding filter_mask
    filter_mask-total mask procs all small taken =
        with_default-total mask (assign_leaves mask procs nil) (without_mask mask procs)
          (All-within HasOpcode procs (without_mask mask procs) (λ Q. without_mask-Any Q mask procs)
            all)
          (omega (arith, without_mask-lt mask procs taken))

    tier_node-total :
        (g : FullProcInfo I) (tier : List (FullProcInfo I))
        → All HasOpcode (g ∷ tier)
        → length tier < n
        → (node : MapOrInfo I) × (tier_node populate g tier ≡ some node)
    unfolding tier_node
    tier_node-total g [] all small = (_, refl)
    tier_node-total g (p ∷ tier) all small = total g (p ∷ tier) all small

    -- Every group is smaller than `n + 1`: the first does not hold all entries, and the later ones
    -- come from fewer.
    divide-total :
        (rounds this : ℕ) (procs : List (FullProcInfo I)) (map : Map I)
        → All HasOpcode procs
        → length procs ≤ rounds
        → length procs ≤ suc n
        → (length procs ≤ n) ⊎ (all_match this procs ≡ false)
        → (result : Map I) × (divide populate rounds this procs map ≡ some result)
    unfolding divide
    divide-total rounds this [] map all enough small split = (map, refl)
    divide-total zero this (p ∷ procs) map all enough small split = absurd (omega arith)
    divide-total (suc rounds) this (p ∷ procs) map all enough small split =
        let (g, greatest) = find_greatest_mask-some p procs in
        let g_in = find_greatest_mask-Any (p ∷ procs) g greatest in
        let key = bit_and g.ref_mask this in
        let left = erase_like g (p ∷ procs) in
        let group = with_ref key this left in
        let rest = without_ref key this left in
        let erased = erase_like-lt g (p ∷ procs) g_in in
        let parts = with_ref-without_ref key this left in
        let within =
          λ (ys : List (FullProcInfo I))
              (up : (Q : FullProcInfo I → Type 0) → Any Q ys → Any Q left).
            All-within HasOpcode (p ∷ procs) ys (λ Q h. erase_like-Any Q g (p ∷ procs) (up Q h))
              all in
        let first =
          All-at HasOpcode g (p ∷ procs) (Any-map (λ x e. subst HasOpcode e) (p ∷ procs) g_in)
            all in
        let group_small : length group < n = elim split [
          | inl fewer ↦ omega (arith, erased, parts, fewer)
          | inr differ ↦ omega (arith, erased, parts, rest-pos g this (p ∷ procs) differ)
        ] in
        let (next, built) =
          tier_node-total g group (first, within group (λ Q. with_ref-Any Q key this left))
            group_small in
        let later =
          divide-total rounds this rest (assign key next map)
            (within rest (λ Q. without_ref-Any Q key this left)) (omega (arith, erased, parts))
            (omega (arith, erased, parts)) (inl (omega (arith, erased, parts))) in
        (later.0, rw (greatest, divide) (rw built later.1))

    divide_common-total :
        (this : ℕ) (p : FullProcInfo I) (procs : List (FullProcInfo I))
        → All HasOpcode (p ∷ procs)
        → length procs < suc n
        → (node : MapOrInfo I) × (divide_common populate this (p ∷ procs) ≡ some node)
    unfolding divide_common
    divide_common-total this p procs all small = elim (Bool-cases (all_match this (p ∷ procs))) [
      | inl alike ↦
          let (g, greatest) = find_greatest_mask-some p procs in
          let taken = has_mask-Any g (p ∷ procs) (find_greatest_mask-Any (p ∷ procs) g greatest) in
          let filtered = filter_mask-total g.instruction_mask (p ∷ procs) all (omega arith) taken in
          (filtered.0, rw alike (rw greatest filtered.1))
      | inr differ ↦
          let (map, divided) =
            divide-total (length (p ∷ procs)) this (p ∷ procs) nil all (omega arith) (omega arith)
              (inr differ) in
          (table this map, rw differ (rw divided refl))
    ]

    populate_tier-IsTotal : IsTotal (populate_tier populate) (suc n)
    unfolding populate_tier
    populate_tier-IsTotal p procs all small = elim (Bool-cases (has_mask all_ones (p ∷ procs))) [
      | inl full ↦
          let filtered = filter_mask-total all_ones (p ∷ procs) all (omega arith) full in
          (filtered.0, rw full filtered.1)
      | inr part ↦ elim (Bool-cases (has_mask (or_masks (p ∷ procs)) (p ∷ procs))) [
        | inl wide ↦
            let filtered =
              filter_mask-total (or_masks (p ∷ procs)) (p ∷ procs) all (omega arith) wide in
            (filtered.0, rw part (rw wide filtered.1))
        | inr narrow ↦
            let built = divide_common-total (and_masks (p ∷ procs)) p procs all small in
            let going : (and_masks (p ∷ procs) == 0) ≡ false =
              elim (Bool-cases (and_masks (p ∷ procs) == 0)) [
                | inl stopped ↦ absurd (and_masks-ne-zero (p ∷ procs) all ((==_iff _ 0).0 stopped))
                | inr going ↦ going
              ] in
            (built.0, rw part (rw narrow (rw going built.1)))
      ]
    ]

  -- A round of fuel for each entry is enough.
  pub populate_map-IsTotal : (fuel : ℕ) → IsTotal (populate_map {I = I} fuel) fuel
  unfolding populate_map
  populate_map-IsTotal zero p procs all small = absurd (omega arith)
  populate_map-IsTotal (suc fuel) p procs all small =
      populate_tier-IsTotal (populate_map fuel) fuel (populate_map-IsTotal fuel) p procs all small
