-- ===== src/Tests/State.antt =====
-- A small processor: 4 KiB of empty memory below a stack of 256 bytes, and 16 * r in register r.
use vemips.Base.{◌*◌, ◌%◌, ◌^◌, false, [], none, arith}
use vemips.Processor.Options.{Config, Mmu, Llsc, MisalignedAddressHandling}
use vemips.Processor.{Processor, thrown, no_flags}
use vemips.Processor.Registers.{HasWords}
use vemips.Isa.Trap.{Handler}

abbrev pub small_config : Config
small_config = record {
  memory_size = 4096;
  stack_size = 256;
  memory_source = record { size = 4096; with_shadow_memory = false; executable_blocks = [] };
  host_mmu = record { read_fault = λ a n. none; write = λ m a n v. m; write_fault = λ a n. none };
  llsc_type = Llsc.fine;
  mmu_type = Mmu.none;
  has_shadow_memory = false;
  ticked = false;
  handles_instruction_hazards = false;
  misaligned_address_handling = MisalignedAddressHandling.exception;
}

abbrev pub start : Processor
start = record {
  config = small_config;
  registers = λ r. r * 16 % 2 ^ 32;
  flags = no_flags;
  branch_target = 0;
  program_counter = 0x100;
  load_link = 0;
  user_value = 0;
  instruction_count = 0;
  target_instructions = 100;
  from_exception = false;
  memory = λ a. 0;
  shadow_memory = λ a. 0;
}

pub start-HasWords : HasWords start
start-HasWords r = omega arith

-- A system that takes no exception.
abbrev pub refuse : Handler
refuse e p = thrown e p
