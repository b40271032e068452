-- ===== src/Decode/Instruction.antt =====
-- What the decoder returns: an instruction of the general set or of the floating-point coprocessor
-- with the format that its `Execute` is built for
-- (src/mips/instructions/instructions_table.cpp, coprocessor1_inst.cpp).
pub mod Array
pub mod Procs
use vemips.Isa.Op.{Op}

-- The instructions that `Cop1InstructionDef` declares.
pub data Cop1Op : Type 0 where
  abs add bc1eqz bc1nez ceil_l ceil_w cfc1 class cmp_condn_d cmp_condn_s ctc1 cvt_d cvt_l cvt_s
        cvt_w div floor_l floor_w ldc1 lwc1 maddf max maxa mfc1 mfhc1 min mina mov msubf mtc1 mthc1
        mul neg recip rint round_l round_w rsqrt sdc1 sel seleqz selnez sqrt sub swc1 trunc_l
        trunc_w :
      Cop1Op

-- `instruction_type`; `normal` is that of the general set.
pub data InstructionType : Type 0 where
  single_fp double_fp word_fp long_fp void_fp : InstructionType

-- `InstructionInfo`, by the function that it holds.
pub data Instruction : Type 0 where
  processor : Op → Instruction
  cop1 : Cop1Op → InstructionType → Instruction
