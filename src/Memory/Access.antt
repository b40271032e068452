-- ===== src/Memory/Access.antt =====
-- Loads after stores, and the faults of an access, for the MMUs that the emulator implements.
use vemips.Base.{
  ℕ, ◌+◌, ◌-◌, ◌%◌, ◌^◌, ◌≤◌, ◌<◌, ◌≡◌, ◌≢◌, ◌⊎◌, inl, inr, refl, arith, leb, true, false, add32,
  Bool-cases, some, [], ◌∷◌,
}
use vemips.Processor.Options.{MemorySource, Mmu, Llsc, ExceptionType, cpu_exception}
use vemips.Processor.{Processor, done, thrown}
use vemips.Memory.{
  fetched, stored, zero_check_address, store_at, memory_touched, handle_llsc, handle_llsc_by,
  mem_fetch, mem_write, write_by, fetch_by, try_mem_fetch_except, try_mem_write_except,
  store_emulated, fetch_emulated, read_source, read_bytes, write_bytes, fetch_error,
}
use vemips.Memory.Source.{at, at_impl, write_at, in_block, is_writable}
use vemips.Memory.Bytes.{read_bytes-write_bytes, read_bytes-write_bytes_apart}

-- The offset of a guest address.
abbrev pub offset : ℕ → Processor → ℕ
offset address p = add32 address p.config.stack_size

-- What the link check leaves alone.
handle_llsc_keeps :
    (t : Llsc) (address : ℕ) (p : Processor)
    → let q = handle_llsc_by t address p in
      (q.memory ≡ p.memory)
      × (q.config ≡ p.config)
      × (q.registers ≡ p.registers)
      × (q.program_counter ≡ p.program_counter)
unfolding handle_llsc_by
handle_llsc_keeps Llsc.fine address p = ground arith
handle_llsc_keeps Llsc.coarse address p = (refl, refl, refl, refl)
handle_llsc_keeps Llsc.none address p = (refl, refl, refl, refl)

pub store_at_keeps :
    (a address size value : ℕ) (p : Processor)
    → let q = store_at a address size value p in
      (q.memory ≡ write_bytes p.memory a size value)
      × (q.config ≡ p.config)
      × (q.registers ≡ p.registers)
      × (q.program_counter ≡ p.program_counter)
unfolding store_at memory_touched handle_llsc
store_at_keeps a address size value p =
    handle_llsc_keeps p.config.llsc_type address
      (record p { memory = write_bytes p.memory a size value })

-- The conditions under which an access is accepted.
abbrev pub IsAccepted : Mmu → ℕ → ℕ → Processor → Type 0
IsAccepted Mmu.none size address p =
    (zero_check_address size address ≡ false) × (offset address p + size ≤ p.config.memory_size)
IsAccepted Mmu.emulated size address p =
    (zero_check_address size address ≡ false)
    × (offset address p + size ≤ p.config.memory_source.size)
IsAccepted Mmu.host size address p = ⊥

write-IsAccepted :
    (t : Mmu) (size address value : ℕ) (p q : Processor)
    → t ≢ Mmu.host
    → write_by t size address value p ≡ stored q
    → IsAccepted t size address p × (q ≡ store_at (offset address p) address size value p)
unfolding write_by write_at store_emulated
write-IsAccepted Mmu.emulated size address value p q guest e = ground arith
write-IsAccepted Mmu.host size address value p q guest e = absurd (guest refl)
write-IsAccepted Mmu.none size address value p q guest e = ground arith

fetch-accepted :
    (t : Mmu) (size address : ℕ) (p : Processor)
    → IsAccepted t size address p
    → fetch_by t false size address p ≡ fetched (read_bytes p.memory (offset address p) size)
unfolding fetch_by at at_impl fetch_emulated read_source
fetch-accepted Mmu.emulated size address p ok = ground arith
fetch-accepted Mmu.host size address p ok = absurd ok
fetch-accepted Mmu.none size address p ok = ground arith

-- Where a store is accepted too: the emulated MMU asks that no executable block holds all of it.
abbrev pub IsWritable : Mmu → ℕ → ℕ → Processor → Type 0
IsWritable Mmu.none size address p = IsAccepted Mmu.none size address p
IsWritable Mmu.emulated size address p =
    IsAccepted Mmu.emulated size address p
    × (in_block p.config.memory_source.executable_blocks (offset address p)
          (offset address p + size)
        ≡ false)
IsWritable Mmu.host size address p = ⊥

write_by-writable :
    (t : Mmu) (size address value : ℕ) (p : Processor)
    → IsWritable t size address p
    → write_by t size address value p ≡ stored (store_at (offset address p) address size value p)
unfolding write_by write_at store_emulated
write_by-writable Mmu.emulated size address value p ok = ground arith
write_by-writable Mmu.host size address value p ok = absurd ok
write_by-writable Mmu.none size address value p ok = ground arith

IsWritable→IsAccepted :
    (t : Mmu) (size address : ℕ) (p : Processor)
    → IsWritable t size address p
    → IsAccepted t size address p
IsWritable→IsAccepted Mmu.emulated size address p ok = ok.0
IsWritable→IsAccepted Mmu.host size address p ok = ok
IsWritable→IsAccepted Mmu.none size address p ok = ok

-- Whether a load is accepted depends on the options alone.
IsAccepted-congr :
    (t : Mmu) (size address : ℕ) (p q : Processor)
    → q.config ≡ p.config
    → IsAccepted t size address p
    → IsAccepted t size address q
IsAccepted-congr Mmu.emulated size address p q same ok = ground arith
IsAccepted-congr Mmu.host size address p q same ok = ok
IsAccepted-congr Mmu.none size address p q same ok = ground arith

fetch_by-fetched :
    (t : Mmu) (size address v : ℕ) (p : Processor)
    → t ≢ Mmu.host
    → fetch_by t false size address p ≡ fetched v
    → IsAccepted t size address p × (v ≡ read_bytes p.memory (offset address p) size)
unfolding fetch_by at at_impl fetch_emulated read_source
fetch_by-fetched Mmu.emulated size address v p guest e = ground arith
fetch_by-fetched Mmu.host size address v p guest e = absurd (guest refl)
fetch_by-fetched Mmu.none size address v p guest e = ground arith

-- A load that finishes was accepted, and reads the bytes at its offset.
mem_fetch-done :
    (size address v : ℕ) (p : Processor)
    → p.config.mmu_type ≢ Mmu.host
    → mem_fetch size address p ≡ done v
    → IsAccepted p.config.mmu_type size address p
      × (v ≡ read_bytes p.memory (offset address p) size)
unfolding mem_fetch try_mem_fetch_except
mem_fetch-done size address v p guest e =
    fetch_by-fetched p.config.mmu_type size address v p guest (ground arith)

mem_fetch-accepted :
    (size address : ℕ) (p : Processor)
    → IsAccepted p.config.mmu_type size address p
    → mem_fetch size address p ≡ done (read_bytes p.memory (offset address p) size)
unfolding mem_fetch try_mem_fetch_except
mem_fetch-accepted size address p ok =
    ground (arith, fetch-accepted p.config.mmu_type size address p ok)

-- A load accepted in one state is accepted in any with the same options.
pub mem_fetch-later :
    (size address : ℕ) (p q : Processor)
    → q.config ≡ p.config
    → IsAccepted p.config.mmu_type size address p
    → mem_fetch size address q ≡ done (read_bytes q.memory (offset address p) size)
mem_fetch-later size address p q same ok =
    let r = mem_fetch-accepted size address q in
    ground (arith, r (ground (arith, IsAccepted-congr p.config.mmu_type size address p q same ok)))

pub mem_write-writable :
    (size address value : ℕ) (p : Processor)
    → IsWritable p.config.mmu_type size address p
    → mem_write size address value p ≡ done (store_at (offset address p) address size value p)
unfolding mem_write try_mem_write_except
mem_write-writable size address value p ok =
    ground (arith, write_by-writable p.config.mmu_type size address value p ok)

mem_write-done :
    (size address value : ℕ) (p q : Processor)
    → p.config.mmu_type ≢ Mmu.host
    → mem_write size address value p ≡ done q
    → q ≡ store_at (offset address p) address size value p
unfolding mem_write try_mem_write_except
mem_write-done size address value p q guest e =
    (write-IsAccepted p.config.mmu_type size address value p q guest (ground arith)).1

-- What a store has written is read back in any later state with the same memory and options.
pub mem_fetch-written :
    (size address value : ℕ) (p q : Processor)
    → q.config ≡ p.config
    → q.memory ≡ write_bytes p.memory (offset address p) size value
    → IsWritable p.config.mmu_type size address p
    → value < 256 ^ size
    → mem_fetch size address q ≡ done value
mem_fetch-written size address value p q same written ok fits = ground (
  arith,
  mem_fetch-later size address p q same (IsWritable→IsAccepted p.config.mmu_type size address p ok),
  written,
  read_bytes-write_bytes size p.memory (offset address p) value fits,
)

-- Under the emulated MMU or none, a store of a value of its size that the checks accept (it is not
-- around address 0, ends inside the memory and is not in an executable block) completes, and a load
-- of the same size and address then completes with the stored value.
pub mem_write-then-mem_fetch :
    (size address value : ℕ) (p : Processor)
    → IsWritable p.config.mmu_type size address p
    → value < 256 ^ size
    → (q : Processor) × (mem_write size address value p ≡ done q)
      × (mem_fetch size address q ≡ done value)
mem_write-then-mem_fetch size address value p ok fits =
    let a = offset address p in
    let q = store_at a address size value p in
    let keeps = store_at_keeps a address size value p in
    (
      q,
      mem_write-writable size address value p ok,
      mem_fetch-written size address value p q keeps.1 keeps.0 ok fits,
    )

-- Under the emulated MMU or none, a completed store leaves every completed load that shares no byte
-- with it as it was.
pub mem_write-apart :
    (size address value l b v : ℕ) (p q : Processor)
    → p.config.mmu_type ≢ Mmu.host
    → mem_write size address value p ≡ done q
    → (offset b p + l ≤ offset address p) ⊎ (offset address p + size ≤ offset b p)
    → mem_fetch l b p ≡ done v
    → mem_fetch l b q ≡ done v
mem_write-apart size address value l b v p q guest e apart reads =
    let a = offset address p in
    let keeps = store_at_keeps a address size value p in
    let sure = mem_fetch-done l b v p guest reads in
    ground (
      arith,
      mem_fetch-later l b p (store_at a address size value p) keeps.1 sure.0,
      keeps.0,
      mem_write-done size address value p q guest e,
      read_bytes-write_bytes_apart size l a (offset b p) value p.memory (ground arith),
    )

-- One of the bytes of the access is at guest address 0, counted past the top of the address space.
abbrev pub HoldsZero : ℕ → ℕ → Type 0
HoldsZero size address = (k : ℕ) × (k < size) × ((address + k) % 2 ^ 32 ≡ 0)

zero_check-HoldsZero :
    (size address : ℕ)
    → address < 2 ^ 32
    → size < 2 ^ 31
    → zero_check_address size address ≡ true
    → 0 < size
    → HoldsZero size address
unfolding zero_check_address
zero_check-HoldsZero size address word small zero some_byte =
    ((2 ^ 32 - address) % 2 ^ 32, ground arith, ground arith)

zero_check-apart :
    (size address k : ℕ)
    → address < 2 ^ 32
    → size < 2 ^ 31
    → zero_check_address size address ≡ false
    → k < size
    → (address + k) % 2 ^ 32 ≢ 0
unfolding zero_check_address
zero_check-apart size address k word small nonzero inside = ground arith

pub zero_check-false :
    (size address : ℕ)
    → address < 2 ^ 32
    → 0 < size
    → size < 2 ^ 31
    → ¬ HoldsZero size address
    → zero_check_address size address ≡ false
zero_check-false size address word some_byte small clear =
    elim (Bool-cases (zero_check_address size address)) [
      | inl zero ↦ absurd (clear (zero_check-HoldsZero size address word small zero some_byte))
      | inr nonzero ↦ nonzero
    ]

-- Without an MMU, a load of 1 to 2 ^ 31 - 1 bytes completes with the bytes at its offset exactly where
-- none of its bytes is at address 0, counted past the top of the address space, and its range of
-- offsets ends inside the memory; otherwise it raises the address error at the program counter and
-- changes nothing.
pub mem_fetch-faults :
    (size address : ℕ) (p : Processor)
    → p.config.mmu_type ≡ Mmu.none
    → address < 2 ^ 32
    → 0 < size
    → size < 2 ^ 31
    → (¬ HoldsZero size address
        × (offset address p + size ≤ p.config.memory_size)
        × (mem_fetch size address p ≡ done (read_bytes p.memory (offset address p) size)))
      ⊎ ((HoldsZero size address ⊎ (p.config.memory_size < offset address p + size))
          × ((code : ℕ) × (mem_fetch size address p
                ≡ thrown (cpu_exception ExceptionType.ad_el p.program_counter code) p)))
unfolding mem_fetch try_mem_fetch_except fetch_by
mem_fetch-faults size address p mmu word some_byte small =
    let a = offset address p in
    elim (Bool-cases (zero_check_address size address)) [
      | inl zero ↦
          inr (inl (zero_check-HoldsZero size address word small zero some_byte), (0, ground arith))
      | inr nonzero ↦ elim (Bool-cases (leb (a + size) p.config.memory_size)) [
        | inl inside ↦ inl (
          (λ (k, below, at_zero). zero_check-apart size address k word small nonzero below at_zero),
          ground arith,
          ground arith,
        )
        | inr outside ↦ inr (inr (ground arith), (fetch_error p size a, ground arith))
      ]
    ]

-- With a single executable block, in a memory below 2 ^ 32 bytes: a store that starts in the block,
-- runs past its end and ends inside the memory is let through, though the byte it starts at is
-- reported as not writable.
pub write_at-past_block :
    (m : MemorySource) (first second a size : ℕ)
    → m.executable_blocks ≡ (first, second) ∷ []
    → first ≤ a
    → a + 1 ≤ second
    → second < a + size
    → a + size ≤ m.size
    → m.size < 2 ^ 32
    → (write_at m a size ≡ some a) × (is_writable m a ≡ false)
unfolding write_at is_writable at at_impl in_block
write_at-past_block m first second a size only from before past inside fits = ground arith
