-- ===== src/Decode/Decoder/Tested.antt =====
-- The bits that the generated decoder tests before it gives an instruction, and that it tests no
-- others.
use mathlib.Core.List.{map}
use vemips.Base.{
  ℕ, ◌≡◌, ◌↔◌, ◌⊎◌, ap, refl, ◌∙◌, inl, inr, Option, none, some, Bool, true, false, Bool-cases,
  if◌then◌else◌, List, [], ◌∷◌, bit_and, subst,
}
use vemips.Base.Lists.{Any, All-map_eq, All-both, Any-All}
use vemips.Base.Masks.{under_part, bit_and-zero}
use vemips.Decode.Decoder.{get_instruction, op_mask, op_ref}
use vemips.Decode.Instruction.{Cop1Op, Instruction, processor, cop1}
use vemips.Decode.Table.Info.{info_words}
use vemips.Decode.Decided.{apart, decided, find-decided}
use vemips.Decode.Tested.{tested, find-tested, Passed}
use vemips.Decode.{FullProcInfo}
use vemips.Isa.Op.{Op}

-- The major opcode and the function field, or of ERET a few bits: all that is tested where the
-- declaration's mask has more.
abbrev loosely : Op → ℕ → ℕ
loosely Op.eret mask = 0xFE000058
loosely Op.sync mask = 0xFC00003F
loosely Op.clz mask = 0xFC00003F
loosely Op.xor mask = 0xFC00003F
loosely Op.subu mask = 0xFC00003F
loosely Op.sub mask = 0xFC00003F
loosely Op.srav mask = 0xFC00003F
loosely Op.sra mask = 0xFC00003F
loosely Op.sltu mask = 0xFC00003F
loosely Op.slt mask = 0xFC00003F
loosely Op.sllv mask = 0xFC00003F
loosely Op.sll mask = 0xFC00003F
loosely Op.selnez mask = 0xFC00003F
loosely Op.seleqz mask = 0xFC00003F
loosely Op.or mask = 0xFC00003F
loosely Op.nor mask = 0xFC00003F
loosely Op.and mask = 0xFC00003F
loosely Op.add mask = 0xFC00003F
loosely Op.lsa mask = 0xFC00003F
loosely Op.ginvi mask = 0xFC00003F
loosely Op.rdhwr mask = 0xFC00003F
loosely Op.swe mask = 0xFC00003F
loosely Op.she mask = 0xFC00003F
loosely Op.sbe mask = 0xFC00003F
loosely Op.prefe mask = 0xFC00003F
loosely Op.pref mask = 0xFC00003F
loosely Op.lwe mask = 0xFC00003F
loosely Op.lhue mask = 0xFC00003F
loosely Op.lhe mask = 0xFC00003F
loosely Op.lbue mask = 0xFC00003F
loosely Op.lbe mask = 0xFC00003F
loosely Op.cache mask = 0xFC00003F
loosely op mask = mask

abbrev loosely_cop1 : Cop1Op → ℕ → ℕ
loosely_cop1 Cop1Op.mfhc1 mask = 0xFFE00000
loosely_cop1 Cop1Op.mthc1 mask = 0xFFE00000
loosely_cop1 Cop1Op.mfc1 mask = 0xFFE00000
loosely_cop1 Cop1Op.mtc1 mask = 0xFFE00000
loosely_cop1 Cop1Op.cfc1 mask = 0xFFE00000
loosely_cop1 Cop1Op.ctc1 mask = 0xFFE00000
loosely_cop1 op mask = mask

-- The part of an instruction's mask that the decoder tests.
unfoldable pub tested_mask : Instruction → ℕ
unfolding op_mask
tested_mask (processor op) = loosely op (op_mask (processor op))
tested_mask (cop1 op format) = loosely_cop1 op (op_mask (cop1 op format))

-- A leaf whose tests hold those of its instruction.
abbrev IsTested : FullProcInfo Instruction → Type 0
IsTested p =
    (bit_and p.instruction_mask (tested_mask p.proc_info) ≡ tested_mask p.proc_info)
    × (bit_and p.ref_mask (tested_mask p.proc_info)
        ≡ bit_and (op_ref p.proc_info) (tested_mask p.proc_info))

masks_tested :
    map (λ p. bit_and p.instruction_mask (tested_mask p.proc_info)) (tested info_words 0 0)
    ≡ map (λ p. tested_mask p.proc_info) (tested info_words 0 0)
unfolding tested info_words tested_mask
masks_tested = refl

refs_tested :
    map (λ p. bit_and p.ref_mask (tested_mask p.proc_info)) (tested info_words 0 0)
    ≡ map (λ p. bit_and (op_ref p.proc_info) (tested_mask p.proc_info)) (tested info_words 0 0)
unfolding tested info_words tested_mask op_ref
refs_tested = refl

Passed-tested :
    (w : ℕ) (i : Instruction) (leaves : List (FullProcInfo Instruction))
    → Any (λ p. Passed w i p × IsTested p) leaves
    → bit_and w (tested_mask i) ≡ bit_and (op_ref i) (tested_mask i)
Passed-tested w i [] h = absurd h
Passed-tested w i (p ∷ leaves) (inl ((held, is_i), (mask, ref))) =
    subst (λ j. bit_and w (tested_mask j) ≡ bit_and (op_ref j) (tested_mask j)) is_i
      (under_part w p.instruction_mask p.ref_mask (tested_mask p.proc_info) held mask ∙ ref)
Passed-tested w i (p ∷ leaves) (inr later) = Passed-tested w i leaves later

-- The instructions whose encoding, with the bits that are tested, other encodings refine: for these
-- more bits tell which of them a word is.
unfoldable pub is_refined : Instruction → Bool
is_refined (processor Op.pop26) = true
is_refined (processor Op.pop27) = true
is_refined (processor Op.beqzc) = true
is_refined (processor Op.bnezc) = true
is_refined (processor Op.bgtz) = true
is_refined (processor Op.pop07) = true
is_refined (processor Op.wait) = true
is_refined (processor Op.jalr_hb) = true
is_refined (processor Op.jalr) = true
is_refined (processor Op.sll) = true
is_refined (processor Op.addiu) = true
is_refined (processor Op.blez) = true
is_refined (processor Op.pop06) = true
is_refined i = false

-- The word has the bits of the instruction's encoding that the decoder tests.
abbrev pub Agrees : Instruction → ℕ → Type 0
Agrees i w = bit_and w (tested_mask i) ≡ bit_and (op_ref i) (tested_mask i)

-- What those bits lead to.
abbrev leads_to : Instruction → Option Instruction
leads_to i = decided info_words (tested_mask i) (bit_and (op_ref i) (tested_mask i))

IsDecided : FullProcInfo Instruction → Type 0
IsDecided p = leads_to p.proc_info ≡ (if is_refined p.proc_info then none else some p.proc_info)

leaves_decided :
    map (λ p. leads_to p.proc_info) (tested info_words 0 0)
    ≡ map (λ p. if is_refined p.proc_info then none else some p.proc_info) (tested info_words 0 0)
unfolding tested info_words tested_mask op_ref is_refined decided apart
leaves_decided = refl

Passed-decided :
    (w : ℕ) (i : Instruction) (leaves : List (FullProcInfo Instruction))
    → Any (λ p. Passed w i p × IsDecided p) leaves
    → leads_to i ≡ (if is_refined i then none else some i)
unfolding IsDecided
Passed-decided w i [] h = absurd h
Passed-decided w i (p ∷ leaves) (inl ((held, is_i), leads)) =
    subst (λ j. leads_to j ≡ (if is_refined j then none else some j)) is_i leads
Passed-decided w i (p ∷ leaves) (inr later) = Passed-decided w i leaves later

get_instruction-Agrees : (w : ℕ) (i : Instruction) → get_instruction w ≡ some i → Agrees i w
unfolding get_instruction
get_instruction-Agrees w i h =
    let leaves = tested info_words 0 0 in
    Passed-tested w i leaves (
      Any-All (Passed w i) IsTested leaves (find-tested info_words w 0 0 i (bit_and-zero w) h) (
        All-both _ _ leaves (All-map_eq _ _ _ leaves masks_tested (λ p e. e))
          (All-map_eq _ _ _ leaves refs_tested (λ p e. e))))

get_instruction-leads :
    (w : ℕ) (i : Instruction)
    → get_instruction w ≡ some i
    → leads_to i ≡ (if is_refined i then none else some i)
unfolding get_instruction IsDecided
get_instruction-leads w i h =
    let leaves = tested info_words 0 0 in
    Passed-decided w i leaves (
      Any-All (Passed w i) IsDecided leaves (find-tested info_words w 0 0 i (bit_and-zero w) h)
        (All-map_eq _ _ _ leaves leaves_decided (λ p e. e)))

-- A word v that is decoded to an instruction has the bits of its encoding under the declared mask,
-- except that of 31 instructions of SPECIAL and SPECIAL3 only the major opcode and the function count,
-- of six moves of the coprocessor only the eleven upper bits, and of ERET only 0xFE000058. No other
-- bits count: any word w is decoded to the same instruction exactly where it has those bits, but for
-- 13 instructions whose encodings others refine.
pub get_instruction-tested :
    (v w : ℕ) (i : Instruction)
    → get_instruction v ≡ some i
    → Agrees i v × ((is_refined i ≡ true) ⊎ ((get_instruction w ≡ some i) ↔ Agrees i w))
unfolding get_instruction
get_instruction-tested v w i h = (
  get_instruction-Agrees v i h,
  elim (Bool-cases (is_refined i)) [
    | inl refined ↦ inl refined
    | inr whole ↦
        let leads : leads_to i ≡ some i =
          get_instruction-leads v i h ∙ ap (λ b. if b then none else some i) whole in
        inr (get_instruction-Agrees w i, λ agrees. find-decided info_words w _ _ i agrees leads)
  ],
)
