-- ===== src/Isa/Sound/Store.antt =====
-- `mem_write` of src/mips/processor/processor.hpp on sound states.
use vemips.Base.{ℕ, ◌+◌, ◌*◌, ◌/◌, refl, arith, if_both, ◌==◌, leb, add32, Option, none, some}
use vemips.Processor.Options.{Mmu, Llsc, ExceptionType, cpu_exception}
use vemips.Processor.{Processor, done, thrown, undefined}
use vemips.Memory.{
  Stored, stored, unwritable, crash, zero_check_address, handle_llsc_by, handle_llsc,
  memory_touched, store_at, store_emulated, write_by, try_mem_write_except, mem_write,
}
use vemips.Memory.Source.{write_at}
use vemips.Memory.Bytes.{write_bytes-byte}
use vemips.Isa.Sound.{IsSound, HasBytes, AllFollow, Follows, stay, then-Follows}

-- A store leaves a sound state of the same run, whether it completes or not.
abbrev AllStored : Processor → Stored → Type 0
AllStored p (stored q) = Follows p q
AllStored p (unwritable a q) = Follows p q
AllStored p crash = Unit {0}

handle_llsc_by-Follows :
    (t : Llsc) (address : ℕ) (p : Processor) → IsSound p → Follows p (handle_llsc_by t address p)
unfolding handle_llsc_by
handle_llsc_by-Follows Llsc.fine address p s =
    if_both (Follows p) (address / 8 * 8 == p.load_link)
      ((s.0, s.1, s.2, s.3, omega arith, s.5, s.6), refl, refl, refl) (stay p s)
handle_llsc_by-Follows Llsc.coarse address p s =
    ((s.0, s.1, s.2, s.3, omega arith, s.5, s.6), refl, refl, refl)
handle_llsc_by-Follows Llsc.none address p s = stay p s

touch-Follows :
    (m : ℕ → ℕ) (address : ℕ) (p : Processor)
    → IsSound p
    → HasBytes m
    → Follows p (memory_touched address (record p { memory = m }))
unfolding memory_touched handle_llsc
touch-Follows m address p s bytes =
    let q = record p { memory = m } in
    let f : Follows p q = ((s.0, bytes, s.2, s.3, s.4, s.5, s.6), refl, refl, refl) in
    then-Follows p q (handle_llsc_by p.config.llsc_type address q) f
      (handle_llsc_by-Follows p.config.llsc_type address q f.0)

store_at-Follows :
    (a address size value : ℕ) (p : Processor)
    → IsSound p
    → Follows p (store_at a address size value p)
unfolding store_at
store_at-Follows a address size value p s =
    touch-Follows _ address p s (write_bytes-byte size p.memory a value s.1)

host-AllStored :
    (fault : Option ℕ) (p q : Processor)
    → Follows p q
    → AllStored p (elim fault [ none ↦ stored q | some a ↦ unwritable a q ])
host-AllStored none p q f = f
host-AllStored (some a) p q f = f

store_emulated-AllStored :
    (found : Option ℕ) (address size value : ℕ) (p : Processor)
    → IsSound p
    → AllStored p (store_emulated found address size value p)
unfolding store_emulated
store_emulated-AllStored none address size value p s = tt
store_emulated-AllStored (some a) address size value p s = store_at-Follows a address size value p s

write_by-AllStored :
    (t : Mmu) (size address value : ℕ) (p : Processor)
    → IsSound p
    → AllStored p (write_by t size address value p)
unfolding write_by
write_by-AllStored Mmu.host size address value p s =
    host-AllStored (p.config.host_mmu.write_fault address size) p _
      (touch-Follows _ address p s (s.6 p.memory address size value s.1))
write_by-AllStored Mmu.emulated size address value p s =
    if_both (AllStored p) (zero_check_address size address) (stay p s) (
      store_emulated-AllStored
        (write_at p.config.memory_source (add32 address p.config.stack_size) size) address size
        value p s)
write_by-AllStored Mmu.none size address value p s =
    let a = add32 address p.config.stack_size in
    if_both (AllStored p) (zero_check_address size address) (stay p s) (
      if_both (AllStored p) (leb (a + size) p.config.memory_size)
        (store_at-Follows a address size value p s) (stay p s))

pub mem_write-AllFollow :
    (size address value : ℕ) (p : Processor)
    → IsSound p
    → AllFollow p (mem_write size address value p)
unfolding mem_write try_mem_write_except
mem_write-AllFollow size address value p s =
    outcome (write_by p.config.mmu_type size address value p)
      (write_by-AllStored p.config.mmu_type size address value p s)
  where
    outcome :
        (o : Stored)
        → AllStored p o
        → AllFollow p (elim o [
          | stored q ↦ done q
          | unwritable a q ↦ thrown (cpu_exception ExceptionType.ad_es q.program_counter a) q
          | crash ↦ undefined
        ])
    outcome (stored q) f = f
    outcome (unwritable a q) f = f
    outcome crash f = tt
