-- ===== src/Decode/Decoder/Encodings.antt =====
-- The generated decoder against the declarations of the instructions.
use vemips.Base.{ℕ, ◌≡◌, refl, inl, inr, subst, Option, some, List, [], ◌∷◌, bit_and}
use mathlib.Core.List.{map}
use vemips.Base.Lists.{Any, All, All-map_eq, All-at, Any-map}
use vemips.Decode.Decoder.{get_instruction, op_mask, op_ref}
use vemips.Decode.Instruction.Array.{all_instructions}
use vemips.Decode.Instruction.{Instruction, processor, cop1}
use vemips.Decode.Table.Info.{info_words}
use vemips.Decode.Tree.{reach, find-reach}
use vemips.Isa.Op.{Op}

-- The instructions that the decoder may give for a word that has the encoding of one: itself and,
-- where other declarations lie within its encoding, those.
abbrev general : Op → List Op
general Op.addiu = Op.move ∷ Op.addiu ∷ []
general Op.pop06 = Op.blezalc ∷ Op.blez ∷ Op.pop06 ∷ []
general Op.pop07 = Op.bgtzalc ∷ Op.bgtz ∷ Op.pop07 ∷ []
general Op.pop26 = Op.blezc ∷ Op.pop26 ∷ []
general Op.pop27 = Op.bgtzc ∷ Op.pop27 ∷ []
general Op.beqzc = Op.jic ∷ Op.beqzc ∷ []
general Op.bnezc = Op.jialc ∷ Op.bnezc ∷ []
general Op.bgtz = Op.bgtzalc ∷ Op.bgtz ∷ []
general Op.blez = Op.blezalc ∷ Op.blez ∷ []
general Op.cachee = Op.ll ∷ []
general Op.jalr = Op.jr ∷ Op.jalr ∷ []
general Op.jalr_hb = Op.jr_hb ∷ Op.jalr_hb ∷ []
general Op.sll = Op.ssnop ∷ Op.pause ∷ Op.nop ∷ Op.ehb ∷ Op.sll ∷ []
general Op.wait = Op.eretnc ∷ Op.wait ∷ []
general op = op ∷ []

abbrev pub candidates : Instruction → List Instruction
candidates (processor op) = map processor (general op)
candidates (cop1 op format) = cop1 op format ∷ []

Any-some :
    (o : Option Instruction) (js : List Instruction)
    → Any (λ p. o ≡ p) (map some js)
    → Any (λ j. o ≡ some j) js
Any-some o [] h = h
Any-some o (j ∷ js) (inl h) = inl h
Any-some o (j ∷ js) (inr h) = inr (Any-some o js h)

-- The instructions that the source declares: those of the array, and CACHEE, which it lacks.
abbrev pub declared : List Instruction
declared = processor Op.cachee ∷ all_instructions

reached_candidates :
    map (λ i. reach info_words (op_mask i) (op_ref i)) declared
    ≡ map (λ i. map some (candidates i)) declared
unfolding reach info_words op_mask op_ref all_instructions
reached_candidates = refl

reached_by_encoding :
    All (λ i. reach info_words (op_mask i) (op_ref i) ≡ map some (candidates i)) declared
reached_by_encoding = All-map_eq _ _ _ declared reached_candidates (λ i e. e)

-- A word that has the encoding of a declared instruction is decoded to that instruction, except
-- that a more special declaration within the encoding may be found instead (for ADDIU, POP06, POP07,
-- POP26, POP27, BEQZC, BNEZC, BGTZ, BLEZ, JALR, JALR_HB, SLL and WAIT), and that a word with the
-- encoding of CACHEE is always decoded to LL.
pub get_instruction-candidates :
    (w : ℕ) (i : Instruction)
    → Any (λ j. j ≡ i) declared
    → bit_and w (op_mask i) ≡ op_ref i
    → Any (λ j. get_instruction w ≡ some j) (candidates i)
unfolding get_instruction
get_instruction-candidates w i is_declared h =
    let reached =
      All-at (λ j. reach info_words (op_mask j) (op_ref j) ≡ map some (candidates j)) i declared
        (Any-map
          (λ j e r.
            subst (λ k. reach info_words (op_mask k) (op_ref k) ≡ map some (candidates k)) e r)
          declared is_declared)
        reached_by_encoding in
    Any-some (get_instruction w) (candidates i) (
      subst (Any (λ o. get_instruction w ≡ o)) reached
        (find-reach info_words w (op_mask i) (op_ref i) h))
