-- ===== src/Lib.antt =====
-- VeMIPS runs MIPS32 Release 6 programs. A processor fetches a word through its memory management,
-- decodes it, keeps the decoded line of 64 words in a small cache, executes it and moves its
-- program counter; a system around it takes the exceptions. This library models the interpreter of
-- that processor: its state, its memory accesses, the general instructions, the moves of the
-- floating-point coprocessor, the decoder, the cache and the loop.
--
-- Base: native numbers, Boolean tests, integers (Base/Int), machine words with their wrap-around
-- written out (Base/Word), bounds of the bitwise operations (Base/Bits), the algebra of masks
-- (Base/Masks), and what holds of elements of lists (Base/Lists).
--
-- Processor: the state of `processor` (src/mips/processor/processor.hpp) as a record, the single-
-- field members, and `Outcome`, the result of code that may throw, in which `undefined` stands for
-- what C++ leaves undefined. Processor/Options: the options and the exceptions (src/mips/mmu.hpp,
-- llsc.hpp, exception.hpp). Processor/Registers: words in registers.
--
-- Memory: `try_mem_fetch_except`, `mem_fetch`, `mem_poke`, `try_mem_write_except`, `mem_write` and
-- `handle_llsc` of processor.hpp, with a clause for each MMU. Memory/Source: `sys_memory_source`
-- (src/mips/system.cpp) and src/mips/memory_source.cpp. Memory/Bytes and Memory/Access: loads
-- after stores. Memory/Faults: address errors of stores. Memory/Link: what a store does to the
-- link. Guest memory is a function from offsets to bytes; the host is little-endian.
--
-- Isa: src/mips/instructions/processor_inst.cpp, a function `word → processor → Outcome processor`
-- for each `ProcInstructionDef`, in files by kind (Arithmetic, Logic, Shift, MulDiv, BitField,
-- DelayBranch, CompactBranch, LoadStore, Linked, Trap); Isa/Op names the instructions, Isa/Fields
-- reads the fields of a word (instructions_common.hpp), Isa/Execute is the wrapper
-- `PROC_Helper::Execute`. Coprocessor 0 is switched off in the source, so its instructions raise
-- the coprocessor exception. Isa/Overflow, Isa/Products, Isa/Branches, Isa/Words and
-- Isa/Linked/Atomic hold the laws of single instructions, and the files of Isa/Sound what every
-- instruction keeps, with the hypothesis `IsOrderly` on the handler. Isa/Straight and its files
-- are about the program counter and the flags.
--
-- Coprocessor1: the registers, the status word and those instructions of the floating-point
-- coprocessor (src/mips/coprocessor/coprocessor1, src/mips/instructions/coprocessor1_inst.cpp and
-- coprocessor1_support.hpp) that only move bits, on a host without floating-point exceptions:
-- Coprocessor1/Control the control registers, Coprocessor1/Move moves, selections and branches,
-- Coprocessor1/LoadStore loads and stores, Coprocessor1/Laws what follows. `clocked` is the clock
-- that the executor gives the coprocessor before each instruction, and Coprocessor1/Clock what it
-- does to a word. A `Machine` is a processor and its coprocessor; an exception in a function that
-- is `noexcept` is `unspecified`.
--
-- Decode: the decision tree `MapOrInfo` with its search `FindExecuteInstruction` and its
-- construction `populate_map` (src/mips/instructions/instructions.cpp; Decode/Select,
-- Decode/Build), and the generated table (src/mips/instructions/instructions_table.cpp).
-- Decode/Table holds the nested switches of `get_instruction`, `execute_instruction` and
-- `get_instruction_index` as the trees that they branch on, Decode/Instruction the two arrays of
-- instructions, Decode/Encoding the masks and references of the declarations, Decode/Decoder the
-- searches. `populate_map` has a unit of fuel for each entry, since each call and each group gets
-- fewer. `std::unordered_map` is an association list. Decode/Tree, Decode/Tested and
-- Decode/Decided compute, for any tree, which leaves the words of an encoding reach, which bits
-- have been tested on the way to a leaf, and which leaf the known bits of a word lead to, and
-- Decode/Decoder applies them to the table.
--
-- Cache: `hash_cache<0x100, 16, 2>` (src/mips/interpreter/cache/hash_cache.hpp), and
-- Cache/Coherence its agreement with memory.
--
-- Executor: `execute_internal` (src/mips/processor/processor.cpp). The scope guards of an
-- iteration are the fields of `Locals`, and `end_cycle` runs them in the order of their
-- destructors. The loop has fuel: a ticked run has a round of fuel for each clock, since each
-- round that goes on counts one instruction. Executor/Flow and Executor/Plain: program counter and
-- flags after an iteration. Executor/Sound and Executor/Run: what an iteration keeps, and the end
-- of a run.
--
-- System: the state of `system` (src/mips/system.hpp) and the exceptions and system calls of
-- `system_vemix` (src/emulator/system_vemix.cpp). System/Vemix: `brk` and `sbrk`; System/Writev:
-- `writev`, its loops by the rounds that are left; System/Calls: `handle_syscall`,
-- `handle_sys_exception` and `handle_exception`. Each gives the new state of the system beside the
-- processor's outcome. For each state of the system the second part is a `Handler` of the
-- executor; System/Orderly is what that interface asks. System/Break and System/Shrink are about
-- the heap's end, System/Spared about what the calls leave alone. Output is a list of the writes.
--
-- Tests: the code and the theorems at concrete inputs.
--
-- Parameters. The system's `handle_exception` is for the executor a `Handler`, a function that
-- gives a result word or throws. The numbers of the system calls and of the errors, which the C
-- libraries of the guest and of the host give, are the fields of `Numbers`. The executor takes any
-- `Decoder`; the table's indices, which also stand for instructions of the floating-point
-- coprocessor, are those of Decode. The copies of the host MMU, which run under the host's
-- structured exception handling, are the fields of `HostMmu`; the theorems on memory are about the
-- other two MMUs unless they say otherwise.
--
-- Not modelled: the JIT, the floating-point arithmetic, comparisons and conversions, the dispatch
-- of the coprocessor's instructions by the executor, the debuggers, the statistics, the ELF loader
-- and the construction of a system, the front end, the text that src/tablegen writes, and the
-- tools.
pub mod Base
pub mod Processor
pub mod Memory
pub mod Isa
pub mod Coprocessor1
pub mod Decode
pub mod Cache
pub mod Executor
pub mod System
pub mod Tests
