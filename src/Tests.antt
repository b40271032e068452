-- ===== src/Tests.antt =====
-- The theorems and the code at concrete inputs.
mod State
mod Memory
mod Linked
mod Isa
mod Cache
mod Coprocessor1
mod Decode
mod Executor
mod Run
mod System
