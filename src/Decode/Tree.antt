-- ===== src/Decode/Tree.antt =====
-- Decision trees: images of their leaves, the leaves that the words of an encoding can reach, and
-- what the way to a leaf has tested.
use vemips.Base.{
  ℕ, ◌≡◌, refl, sym, ap, ◌∙◌, inl, Bool, true, false, Option, none, some, bit_and, List, [], ◌∷◌,
  ◌++◌, ◌==◌, if◌then◌else◌, ==_iff, arith,
}
use mathlib.Core.Option
use vemips.Base.Lists.{Any, Any-append_left, Any-append_right}
use vemips.Base.Masks.{under_part, readings_agree}
use vemips.Decode.{MapOrInfo, leaf, table, table_or, Map, nil, entry, find, find_in}

module _ {I J : Type 0} (f : I → J) where
  unfoldable mutual
    pub map_tree : MapOrInfo I → MapOrInfo J
    map_tree (leaf i) = leaf (f i)
    map_tree (table mask map) = table mask (map_arms map)
    map_tree (table_or mask map other) = table_or mask (map_arms map) (map_tree other)

    pub map_arms : Map I → Map J
    map_arms nil = nil
    map_arms (entry key node rest) = entry key (map_tree node) (map_arms rest)

  -- The search in an image finds the image.
  mutual
    unfolding map_tree find

    pub find-map_tree : (t : MapOrInfo I) (w : ℕ) → find (map_tree t) w ≡ Option.map f (find t w)
    find-map_tree (leaf i) w = refl
    find-map_tree (table mask map) w = find_in-map_arms map (bit_and w mask) w none
    find-map_tree (table_or mask map other) w =
        ap (find_in (map_arms map) (bit_and w mask) w) (find-map_tree other w)
        ∙ find_in-map_arms map (bit_and w mask) w (find other w)

    pub find_in-map_arms :
        (map : Map I) (key w : ℕ) (absent : Option I)
        → find_in (map_arms map) key w (Option.map f absent)
          ≡ Option.map f (find_in map key w absent)
    find_in-map_arms nil key w absent = refl
    find_in-map_arms (entry k node rest) key w absent =
        ground (arith, find-map_tree node w, find_in-map_arms rest key w absent)

module _ {I : Type 0} where
  -- What the search can find for a word whose bits under `mask` are `ref`: an arm is left out where
  -- its key differs in a bit that both masks read; where the arms' mask reads no other bit, the arm
  -- of the reference alone is left.
  unfoldable mutual
    pub reach : MapOrInfo I → ℕ → ℕ → List (Option I)
    reach (leaf i) mask ref = some i ∷ []
    reach (table m map) mask ref = reach_in map m mask ref (none ∷ [])
    reach (table_or m map other) mask ref = reach_in map m mask ref (reach other mask ref)

    pub reach_in : Map I → ℕ → ℕ → ℕ → List (Option I) → List (Option I)
    reach_in nil m mask ref absent = absent
    reach_in (entry key node rest) m mask ref absent = elim (bit_and mask m == m) [
      | true ↦ elim (key == bit_and ref m) [
        | true ↦ reach node mask ref
        | false ↦ reach_in rest m mask ref absent
      ]
      | false ↦ elim (bit_and key mask == bit_and ref m) [
        | true ↦ reach node mask ref ++ reach_in rest m mask ref absent
        | false ↦ reach_in rest m mask ref absent
      ]
    ]

  -- Both searches of an arm, as conditionals.
  find_in-entry :
      (key : ℕ) (node : MapOrInfo I) (rest : Map I) (k w : ℕ) (absent : Option I)
      → find_in (entry key node rest) k w absent
        ≡ (if key == k then find node w else find_in rest k w absent)
  unfolding find
  find_in-entry key node rest k w absent = ground arith

  reach_in-entry :
      (key : ℕ) (node : MapOrInfo I) (rest : Map I) (m mask ref : ℕ) (absent : List (Option I))
      → reach_in (entry key node rest) m mask ref absent ≡ (
          if bit_and mask m == m
          then if key == bit_and ref m then reach node mask ref else reach_in rest m mask ref absent
          else if bit_and key mask == bit_and ref m
          then reach node mask ref ++ reach_in rest m mask ref absent
          else reach_in rest m mask ref absent)
  unfolding reach
  reach_in-entry key node rest m mask ref absent = ground arith

  -- The arm of a word is among those that its encoding reaches.
  arm_reached :
      (same within exact agree : Bool) (found rest_found : Option I)
      (reached rest_reached : List (Option I))
      → (within ≡ true → same ≡ exact)
      → (same ≡ true → agree ≡ true)
      → Any (λ o. found ≡ o) reached
      → Any (λ o. rest_found ≡ o) rest_reached
      → Any
          (λ o. (if same then found else rest_found) ≡ o)
          (if within
            then if exact then reached else rest_reached
            else if agree
            then reached ++ rest_reached
            else rest_reached)
  arm_reached true true true agree _ _ reached _ fixes agrees taken others = taken
  arm_reached true true false agree _ _ reached _ fixes agrees taken others =
      absurd (cc (fixes refl))
  arm_reached false true true agree _ _ reached _ fixes agrees taken others =
      absurd (cc (fixes refl))
  arm_reached false true false agree _ _ reached _ fixes agrees taken others = others
  arm_reached true false exact true _ _ reached _ fixes agrees taken others =
      Any-append_left _ _ _ taken
  arm_reached true false exact false _ _ reached _ fixes agrees taken others =
      absurd (cc (agrees refl))
  arm_reached false false exact true _ _ reached _ fixes agrees taken others =
      Any-append_right _ reached _ others
  arm_reached false false exact false _ _ reached _ fixes agrees taken others = others

  mutual
    unfolding reach find

    pub find-reach :
        (t : MapOrInfo I) (w mask ref : ℕ)
        → bit_and w mask ≡ ref
        → Any (λ o. find t w ≡ o) (reach t mask ref)
    find-reach (leaf i) w mask ref h = inl refl
    find-reach (table m map) w mask ref h =
        find_in-reach_in map m w mask ref none (none ∷ []) h (inl refl)
    find-reach (table_or m map other) w mask ref h =
        find_in-reach_in map m w mask ref (find other w) (reach other mask ref) h
          (find-reach other w mask ref h)

    find_in-reach_in :
        (map : Map I) (m w mask ref : ℕ) (absent : Option I) (reached : List (Option I))
        → bit_and w mask ≡ ref
        → Any (λ o. absent ≡ o) reached
        → Any (λ o. find_in map (bit_and w m) w absent ≡ o) (reach_in map m mask ref reached)
    find_in-reach_in nil m w mask ref absent reached h there = there
    find_in-reach_in (entry key node rest) m w mask ref absent reached h there =
        let others = find_in-reach_in rest m w mask ref absent reached h there in
        let taken = find-reach node w mask ref h in
        let k = bit_and w m in
        rw (find_in-entry key node rest k w absent, reach_in-entry key node rest m mask ref reached)
          (arm_reached (key == k) (bit_and mask m == m) (key == bit_and ref m)
            (bit_and key mask == bit_and ref m) _ _ _ _
            (λ within.
              ap (λ t. key == t) (under_part w mask ref m h ((==_iff (bit_and mask m) m).0 within)))
            (λ same.
              (==_iff _ _).1 (readings_agree w m key mask ref (sym ((==_iff key k).0 same)) h))
            taken others)
