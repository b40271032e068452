-- ===== src/Decode/Tested.antt =====
-- What the way to each leaf of a decision tree has tested of the word.
use vemips.Base.{
  ℕ, ◌≡◌, sym, ap, ◌∙◌, ◌⊎◌, inl, inr, Option, none, some, bit_and, bit_or, List, [], ◌∷◌, ◌++◌,
  ◌==◌, Bool-cases, ==_iff, arith,
}
use vemips.Base.Lists.{Any, Any-append_left, Any-append_right}
use vemips.Base.Masks.{bit_and-bit_or}
use vemips.Decode.Build.Lookup.{Matches}
use vemips.Decode.{FullProcInfo, MapOrInfo, leaf, table, table_or, Map, nil, entry, find, find_in}

module _ {I : Type 0} where
  -- Each leaf with the mask of the bits that its way has read and what they have to be.
  unfoldable mutual
    pub tested : MapOrInfo I → ℕ → ℕ → List (FullProcInfo I)
    tested (leaf i) mask ref =
        record { instruction_mask = mask; ref_mask = ref; proc_info = i } ∷ []
    tested (table m map) mask ref = tested_in map m mask ref
    tested (table_or m map other) mask ref = tested_in map m mask ref ++ tested other mask ref

    pub tested_in : Map I → ℕ → ℕ → ℕ → List (FullProcInfo I)
    tested_in nil m mask ref = []
    tested_in (entry key node rest) m mask ref =
        tested node (bit_or mask m) (bit_or ref key) ++ tested_in rest m mask ref

  -- A leaf whose tests the word passes.
  abbrev pub Passed : ℕ → I → FullProcInfo I → Type 0
  Passed w i p = Matches w p × (p.proc_info ≡ i)

  mutual
    unfolding tested find

    pub find-tested :
        (t : MapOrInfo I) (w mask ref : ℕ) (i : I)
        → bit_and w mask ≡ ref
        → find t w ≡ some i
        → Any (Passed w i) (tested t mask ref)
    find-tested (leaf j) w mask ref i h found = inl (h, cc)
    find-tested (table m map) w mask ref i h found =
        elim (find_in-tested map m w mask ref i none h found) [
          | inl arm ↦ arm
          | inr never ↦ absurd (cc)
        ]
    find-tested (table_or m map other) w mask ref i h found =
        elim (find_in-tested map m w mask ref i (find other w) h found) [
          | inl arm ↦ Any-append_left _ _ _ arm
          | inr default ↦
              Any-append_right _ (tested_in map m mask ref) _
                (find-tested other w mask ref i h default)
        ]

    find_in-tested :
        (map : Map I) (m w mask ref : ℕ) (i : I) (absent : Option I)
        → bit_and w mask ≡ ref
        → find_in map (bit_and w m) w absent ≡ some i
        → Any (Passed w i) (tested_in map m mask ref) ⊎ (absent ≡ some i)
    find_in-tested nil m w mask ref i absent h found = inr found
    find_in-tested (entry key node rest) m w mask ref i absent h found =
        elim (Bool-cases (key == bit_and w m)) [
          | inl same ↦
              let reads : bit_and w (bit_or mask m) ≡ bit_or ref key =
                bit_and-bit_or w mask m
                ∙ ap (λ t. bit_or t (bit_and w m)) h
                ∙ ap (bit_or ref) (sym ((==_iff key (bit_and w m)).0 same)) in
              inl (
                Any-append_left _ _ _
                  (find-tested node w (bit_or mask m) (bit_or ref key) i reads (ground arith)))
          | inr apart ↦ elim (find_in-tested rest m w mask ref i absent h (ground arith)) [
            | inl later ↦
                inl (Any-append_right _ (tested node (bit_or mask m) (bit_or ref key)) _ later)
            | inr default ↦ inr default
          ]
        ]
