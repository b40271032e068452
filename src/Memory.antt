-- ===== src/Memory.antt =====
-- The guest's loads and stores (`try_mem_fetch_except`, `mem_fetch`, `try_mem_write_except`,
-- `mem_write`, `mem_poke`, `handle_llsc` of src/mips/processor/processor.hpp).
-- The host is little-endian; a value of `size` bytes is a number below 256 ^ size.
pub mod Source
pub mod Bytes
pub mod Access
pub mod Link
pub mod Faults
use vemips.Base.{
  ℕ, zero, suc, ◌+◌, ◌-◌, ◌*◌, ◌/◌, ◌%◌, ltb, leb, ◌==◌, if◌then◌else◌, Bool, true, false, ◌&&◌,
  ◌||◌, add32, signed32, ltb_ℤ, leb_ℤ, sub_ℕ, pos, Option, none, some,
}
use vemips.Processor.Options.{Mmu, Llsc, ExceptionType}
use vemips.Processor.{Processor, Outcome, done, thrown, undefined, ◌>>=◌, update, throw_helper}
use Source.{at, at_instruction, write_at, get_first_unreadable}

unfoldable pub read_bytes : (ℕ → ℕ) → ℕ → ℕ → ℕ
read_bytes memory a zero = 0
read_bytes memory a (suc n) = memory a + 256 * read_bytes memory (suc a) n

unfoldable pub write_bytes : (ℕ → ℕ) → ℕ → ℕ → ℕ → ℕ → ℕ
write_bytes memory a zero value = memory
write_bytes memory a (suc n) value =
    write_bytes (update memory a (value % 256)) (suc a) n (value / 256)

-- `std::expected<T, uptr_guest>`; `wild` is a read outside the host's buffers.
pub data Fetched : Type 0 where
  fetched : ℕ → Fetched
  unreadable : ℕ → Fetched
  wild : Fetched

-- Does `[address, address + size)` hold address 0, counting past the top of the address space?
unfoldable pub zero_check_address : ℕ → ℕ → Bool
zero_check_address size address =
    leb_ℤ (sub_ℕ 0 (size - 1)) (signed32 address) && ltb_ℤ (signed32 address) (pos 1)

-- The error path's loop over the bytes of an access; `step i` is the address that round `i` looks
-- at, and `stack_offset` is added to it again.
unfoldable pub first_out_of_range : Processor → ℕ → (ℕ → ℕ) → ℕ → ℕ → Option ℕ
first_out_of_range p stack_offset step zero i = none
first_out_of_range p stack_offset step (suc left) i =
    let rest = first_out_of_range p stack_offset step left (suc i) in
    let offset_address = step i in
    if leb p.config.memory_size (add32 offset_address stack_offset) || offset_address == 0
    then some offset_address
    else rest

abbrev pub or_address : Option ℕ → ℕ → ℕ
or_address none address = address
or_address (some a) address = a

unfoldable pub fetch_error : Processor → ℕ → ℕ → ℕ
unfolding first_out_of_range
fetch_error p size address =
    or_address (first_out_of_range p p.config.stack_size (λ i. add32 address i) size 0) address

abbrev pub instruction_memory : Processor → ℕ → ℕ
instruction_memory p a = if p.config.has_shadow_memory then p.shadow_memory a else p.memory a

-- A read at an offset of `m_Memory`: the memory, then its shadow copy where there is one.
unfoldable pub read_source : Processor → ℕ → Bool → ℕ → Fetched
unfolding read_bytes
read_source p address for_instruction size =
    if for_instruction
    then if p.config.memory_source.with_shadow_memory
      then fetched (read_bytes p.shadow_memory address size)
      else wild
    else fetched (read_bytes p.memory address size)

unfoldable pub fetch_emulated : Option ℕ → Processor → Bool → ℕ → ℕ → Fetched
unfolding read_source get_first_unreadable
fetch_emulated (some _) p for_instruction size address = read_source p address for_instruction size
fetch_emulated none p for_instruction size address =
    unreadable (or_address (get_first_unreadable p.config.memory_source address size) address)

-- One clause for each MMU; the last two share the check for address 0.
unfoldable pub fetch_by : Mmu → Bool → ℕ → ℕ → Processor → Fetched
unfolding read_bytes zero_check_address fetch_error fetch_emulated at at_instruction
fetch_by Mmu.host for_instruction size address p =
    elim (p.config.host_mmu.read_fault address size) [
      | none ↦
          fetched
            (read_bytes (if for_instruction then instruction_memory p else p.memory) address size)
      | some a ↦ unreadable a
    ]
fetch_by Mmu.emulated for_instruction size address p =
    let a = add32 address p.config.stack_size in
    let m = p.config.memory_source in
    if zero_check_address size address
    then unreadable 0
    else fetch_emulated (if for_instruction then at_instruction m a size else at m a size) p
        for_instruction size a
fetch_by Mmu.none for_instruction size address p =
    let a = add32 address p.config.stack_size in
    if zero_check_address size address
    then unreadable 0
    else if leb (a + size) p.config.memory_size
    then fetched (read_bytes (if for_instruction then instruction_memory p else p.memory) a size)
    else unreadable (fetch_error p size a)

unfoldable pub try_mem_fetch_except : Bool → ℕ → ℕ → Processor → Fetched
unfolding fetch_by
try_mem_fetch_except for_instruction size address p =
    fetch_by p.config.mmu_type for_instruction size address p

unfoldable pub mem_fetch : ℕ → ℕ → Processor → Outcome ℕ
unfolding try_mem_fetch_except
mem_fetch size address p = elim (try_mem_fetch_except false size address p) [
  | fetched v ↦ done v
  | unreadable a ↦ throw_helper ExceptionType.ad_el p.program_counter a p
  | wild ↦ undefined
]

poke_by : Mmu → ℕ → ℕ → Processor → Fetched
unfolding zero_check_address fetch_error get_first_unreadable at
poke_by Mmu.host size address p = elim (p.config.host_mmu.read_fault address size) [
  | none ↦ fetched 0
  | some a ↦ unreadable a
]
poke_by Mmu.emulated size address p =
    let a = add32 address p.config.stack_size in
    let m = p.config.memory_source in
    if zero_check_address size address then unreadable address else elim (at m a size) [
      | some _ ↦ fetched 0
      | none ↦ unreadable (or_address (get_first_unreadable m a size) a)
    ]
poke_by Mmu.none size address p =
    let a = add32 address p.config.stack_size in
    if zero_check_address size address
    then unreadable address
    else if leb (a + size) p.config.memory_size
    then fetched 0
    else unreadable (fetch_error p size a)

-- The access without its value.
unfoldable pub mem_poke : ℕ → ℕ → Processor → Outcome (Unit {0})
unfolding poke_by
mem_poke size address p = elim (poke_by p.config.mmu_type size address p) [
  | fetched _ ↦ done tt
  | unreadable a ↦ throw_helper ExceptionType.ad_el p.program_counter a p
  | wild ↦ undefined
]

-- `load_link_align` is 8.
unfoldable pub handle_llsc_by : Llsc → ℕ → Processor → Processor
handle_llsc_by Llsc.fine address p =
    if address / 8 * 8 == p.load_link then record p { load_link = 0 } else p
handle_llsc_by Llsc.coarse address p = record p { load_link = 0 }
handle_llsc_by Llsc.none address p = p

unfoldable pub handle_llsc : ℕ → Processor → Processor
unfolding handle_llsc_by
handle_llsc address p = handle_llsc_by p.config.llsc_type address p

-- What follows `handle_llsc` does nothing.
unfoldable pub memory_touched : ℕ → Processor → Processor
unfolding handle_llsc
memory_touched pointer p = handle_llsc pointer p

-- `std::optional<uptr_guest>` with the new state; `crash` is a store through a null pointer.
pub data Stored : Type 0 where
  stored : Processor → Stored
  unwritable : ℕ → Processor → Stored
  crash : Stored

unfoldable pub store_at : ℕ → ℕ → ℕ → ℕ → Processor → Processor
unfolding write_bytes memory_touched
store_at a unshifted_address size value p =
    memory_touched unshifted_address (record p { memory = write_bytes p.memory a size value })

-- Each round of the store's error path looks at `address + 1`.
unfoldable pub store_error : Processor → ℕ → ℕ → ℕ
unfolding first_out_of_range
store_error p size address =
    or_address (first_out_of_range p p.config.stack_size (λ i. add32 address 1) size 0) address

unfoldable pub store_emulated : Option ℕ → ℕ → ℕ → ℕ → Processor → Stored
unfolding store_at
store_emulated (some a) unshifted_address size value p =
    stored (store_at a unshifted_address size value p)
store_emulated none unshifted_address size value p = crash

unfoldable pub write_by : Mmu → ℕ → ℕ → ℕ → Processor → Stored
unfolding zero_check_address store_at store_error store_emulated memory_touched write_at
write_by Mmu.host size address value p =
    let q =
      memory_touched address
        (record p { memory = p.config.host_mmu.write p.memory address size value }) in
    elim (p.config.host_mmu.write_fault address size) [ none ↦ stored q | some a ↦ unwritable a q ]
write_by Mmu.emulated size address value p =
    let a = add32 address p.config.stack_size in
    if zero_check_address size address
    then unwritable 0 p
    else store_emulated (write_at p.config.memory_source a size) address size value p
write_by Mmu.none size address value p =
    let a = add32 address p.config.stack_size in
    if zero_check_address size address
    then unwritable 0 p
    else if leb (a + size) p.config.memory_size
    then stored (store_at a address size value p)
    else unwritable (store_error p size a) p

unfoldable pub try_mem_write_except : ℕ → ℕ → ℕ → Processor → Stored
unfolding write_by
try_mem_write_except size address value p = write_by p.config.mmu_type size address value p

unfoldable pub mem_write : ℕ → ℕ → ℕ → Processor → Outcome Processor
unfolding try_mem_write_except
mem_write size address value p = elim (try_mem_write_except size address value p) [
  | stored q ↦ done q
  | unwritable a q ↦ throw_helper ExceptionType.ad_es q.program_counter a q
  | crash ↦ undefined
]
