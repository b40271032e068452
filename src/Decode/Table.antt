-- ===== src/Decode/Table.antt =====
-- The generated decoder (src/mips/instructions/instructions_table.cpp).
pub mod Cases
pub mod Info
pub mod Execute
pub mod Index
