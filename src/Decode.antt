-- ===== src/Decode.antt =====
-- The search for the instruction of a word: the decision tree `MapOrInfo`
-- (src/mips/instructions/instructions_common.hpp), its lookup `FindExecuteInstruction` and its
-- construction `populate_map` (src/mips/instructions/instructions.cpp).
pub mod Select
pub mod Build
pub mod Tree
pub mod Tested
pub mod Decided
pub mod Instruction
pub mod Encoding
pub mod Table
pub mod Decoder
use vemips.Base.{ℕ, bit_and, Option, none, some, true, false, if◌then◌else◌, ◌==◌}

-- `FullProcInfo`; what the decoder returns of it, `InstructionInfo`, is left open.
pub record FullProcInfo {ℓ} (I : Type ℓ) : Type ℓ where
  pub instruction_mask : ℕ
  pub ref_mask : ℕ
  pub proc_info : I

-- `MapOrInfo`, by its members: `Info`, or `Mask` with `Map` and, where it is not null, `Default`.
-- `Map` is an association list.
mutual
  pub data MapOrInfo {ℓ} (I : Type ℓ) : Type ℓ where
    leaf : I → MapOrInfo I
    table : ℕ → Map I → MapOrInfo I
    table_or : ℕ → Map I → MapOrInfo I → MapOrInfo I

  pub data Map {ℓ} (I : Type ℓ) : Type ℓ where
    nil : Map I
    entry : ℕ → MapOrInfo I → Map I → Map I

-- `FindExecuteInstruction`: `find_in` is the search of one `Map`, which goes on in the tree that
-- it finds, and in `absent` where the key is not there.
unfoldable mutual
  pub find {ℓ} : {I : Type ℓ} → MapOrInfo I → ℕ → Option I
  find (leaf i) w = some i
  find (table mask map) w = find_in map (bit_and w mask) w none
  find (table_or mask map other) w = find_in map (bit_and w mask) w (find other w)

  pub find_in {ℓ} : {I : Type ℓ} → Map I → ℕ → ℕ → Option I → Option I
  find_in nil key w absent = absent
  find_in (entry k node rest) key w absent = elim (k == key) [
    | true ↦ find node w
    | false ↦ find_in rest key w absent
  ]

-- `Map[key] = new MapOrInfo`: what stood there is replaced.
unfoldable pub assign {ℓ} : {I : Type ℓ} → ℕ → MapOrInfo I → Map I → Map I
assign key node nil = entry key node nil
assign key node (entry k old rest) =
    if k == key then entry k node rest else entry k old (assign key node rest)
