-- ===== src/Decode/Decided.antt =====
-- When the bits that are known of a word decide which leaf of a decision tree the search gives.
use vemips.Base.{
  ℕ, ◌≡◌, refl, ◌∙◌, sym, Option, none, some, bit_and, ◌==◌, Bool, true, false, not, ◌&&◌,
  Bool-cases, ==_iff, inl, inr, arith,
}
use vemips.Base.Masks.{under_part, readings_agree}
use vemips.Decode.{MapOrInfo, leaf, table, table_or, Map, nil, entry, find, find_in}

module _ {I : Type 0} where
  -- No key agrees with the known bits.
  unfoldable pub apart : Map I → ℕ → ℕ → ℕ → Bool
  apart nil m mask ref = true
  apart (entry key node rest) m mask ref =
      not (bit_and key mask == bit_and ref m) && apart rest m mask ref

  -- The search of a word of which the bits of `mask` are `ref`, where it looks at no other bits, or
  -- the others cannot lead to a key.
  unfoldable mutual
    pub decided : MapOrInfo I → ℕ → ℕ → Option I
    decided (leaf i) mask ref = some i
    decided (table m map) mask ref = elim (bit_and mask m == m) [
      | true ↦ decided_in map (bit_and ref m) mask ref none
      | false ↦ none
    ]
    decided (table_or m map other) mask ref = elim (bit_and mask m == m) [
      | true ↦ decided_in map (bit_and ref m) mask ref (decided other mask ref)
      | false ↦ elim (apart map m mask ref) [ true ↦ decided other mask ref | false ↦ none ]
    ]

    pub decided_in : Map I → ℕ → ℕ → ℕ → Option I → Option I
    decided_in nil key mask ref absent = absent
    decided_in (entry k node rest) key mask ref absent = elim (k == key) [
      | true ↦ decided node mask ref
      | false ↦ decided_in rest key mask ref absent
    ]

  find_in-apart :
      (map : Map I) (w m mask ref : ℕ) (absent : Option I)
      → bit_and w mask ≡ ref
      → apart map m mask ref ≡ true
      → find_in map (bit_and w m) w absent ≡ absent
  unfolding find apart
  find_in-apart nil w m mask ref absent h e = refl
  find_in-apart (entry key node rest) w m mask ref absent h e =
      elim (Bool-cases (key == bit_and w m)) [
        | inl same ↦
            let agree =
              readings_agree w m key mask ref (sym ((==_iff key (bit_and w m)).0 same)) h in
            absurd (ground arith)
        | inr other ↦
            let later = find_in-apart rest w m mask ref absent h (ground arith) in ground arith
      ]

  mutual
    unfolding find decided

    pub find-decided :
        (t : MapOrInfo I) (w mask ref : ℕ) (i : I)
        → bit_and w mask ≡ ref
        → decided t mask ref ≡ some i
        → find t w ≡ some i
    find-decided (leaf j) w mask ref i h e = e
    find-decided (table m map) w mask ref i h e = elim (Bool-cases (bit_and mask m == m)) [
      | inl known ↦
          find_in-decided map w m mask ref i none none h
            (under_part w mask ref m h ((==_iff (bit_and mask m) m).0 known)) (λ never. never)
            (ground arith)
      | inr unknown ↦ absurd (ground arith)
    ]
    find-decided (table_or m map other) w mask ref i h e = elim (Bool-cases (bit_and mask m == m)) [
      | inl known ↦
          find_in-decided map w m mask ref i (find other w) (decided other mask ref) h
            (under_part w mask ref m h ((==_iff (bit_and mask m) m).0 known))
            (find-decided other w mask ref i h) (ground arith)
      | inr unknown ↦ elim (Bool-cases (apart map m mask ref)) [
        | inl missed ↦
            find_in-apart map w m mask ref (find other w) h missed
            ∙ find-decided other w mask ref i h (ground arith)
        | inr unclear ↦ absurd (ground arith)
      ]
    ]

    find_in-decided :
        (map : Map I) (w m mask ref : ℕ) (i : I) (absent known : Option I)
        → bit_and w mask ≡ ref
        → bit_and w m ≡ bit_and ref m
        → (known ≡ some i → absent ≡ some i)
        → decided_in map (bit_and ref m) mask ref known ≡ some i
        → find_in map (bit_and w m) w absent ≡ some i
    find_in-decided nil w m mask ref i absent known h reads default e = default e
    find_in-decided (entry key node rest) w m mask ref i absent known h reads default e =
        elim (Bool-cases (key == bit_and ref m)) [
          | inl same ↦ let found = find-decided node w mask ref i h (ground arith) in ground arith
          | inr other ↦
              let later =
                find_in-decided rest w m mask ref i absent known h reads default (ground arith) in
              ground arith
        ]
