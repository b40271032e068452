-- ===== src/Isa.antt =====
-- The instruction set: src/mips/instructions/processor_inst.cpp.
pub mod Op
pub mod Fields
pub mod Arithmetic
pub mod Logic
pub mod Shift
pub mod MulDiv
pub mod BitField
pub mod DelayBranch
pub mod CompactBranch
pub mod LoadStore
pub mod Linked
pub mod Trap
pub mod Execute
pub mod Overflow
pub mod Straight
pub mod Sound
pub mod Words
pub mod Branches
pub mod Products
