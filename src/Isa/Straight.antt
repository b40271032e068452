-- ===== src/Isa/Straight.antt =====
-- What an instruction other than a branch, a jump or a system call leaves alone: the program counter,
-- the branch that is pending, and the flags. The accesses to memory, and the states they pass.
pub mod Cases
pub mod All
use vemips.Base.{
  ℕ, ◌*◌, ◌/◌, ◌%◌, ◌≡◌, refl, ◌∙◌, if_both, ◌==◌, leb, add32, false, Option, none, some,
}
use vemips.Isa.LoadStore.{handle_misaligned_address, misaligned_by, alignment}
use vemips.Memory.{
  Fetched, fetched, unreadable, wild, mem_fetch, try_mem_fetch_except, Stored, stored, unwritable,
  crash, zero_check_address, handle_llsc_by, handle_llsc, memory_touched, store_at, store_emulated,
  write_by, try_mem_write_except, mem_write,
}
use vemips.Memory.Source.{write_at}
use vemips.Processor.Options.{Mmu, Llsc, ExceptionType, cpu_exception, MisalignedAddressHandling}
use vemips.Processor.{
  Processor, Outcome, done, thrown, undefined, ◌>>=◌, set_register, set_load_link,
}

abbrev pub Straight : Processor → Processor → Type 0
Straight p q =
    (q.program_counter ≡ p.program_counter)
    × (q.branch_target ≡ p.branch_target)
    × (q.flags ≡ p.flags)

-- The states that an outcome holds, also one that throws.
abbrev pub AllStraight : Processor → Outcome Processor → Type 0
AllStraight p (done q) = Straight p q
AllStraight p (thrown e q) = Straight p q
AllStraight p undefined = Unit {0}

pub stays : (p : Processor) → Straight p p
stays p = (refl, refl, refl)

pub then-Straight : (p q r : Processor) → Straight p q → Straight q r → Straight p r
then-Straight p q r f g = (g.0 ∙ f.0, g.1 ∙ f.1, g.2 ∙ f.2)

-- The outcome of a part that gives a value.
abbrev pub IsQuiet {ℓ} : {A : Type ℓ} → Processor → Outcome A → Type 0
IsQuiet p (done a) = Unit {0}
IsQuiet p (thrown e q) = Straight p q
IsQuiet p undefined = Unit {0}

pub quiet_then {ℓ} :
    {A : Type ℓ} (p : Processor) (o : Outcome A) (k : A → Outcome Processor)
    → IsQuiet p o
    → ((a : A) → AllStraight p (k a))
    → AllStraight p (o >>= k)
quiet_then p (done a) k f g = g a
quiet_then p (thrown e q) k f g = f
quiet_then p undefined k f g = tt

pub bind-AllStraight :
    (p : Processor) (o : Outcome Processor) (k : Processor → Outcome Processor)
    → AllStraight p o
    → ((q : Processor) → Straight p q → AllStraight p (k q))
    → AllStraight p (o >>= k)
bind-AllStraight p (done q) k f g = g q f
bind-AllStraight p (thrown e q) k f g = f
bind-AllStraight p undefined k f g = tt

pub set_register-Straight : (p : Processor) (r v : ℕ) → Straight p (set_register p r v)
unfolding set_register
set_register-Straight p r v = if_both (Straight p) (r == 0) (stays p) (stays p)

-- A load; it is made in a state with the link already set.
pub mem_fetch-IsQuiet :
    (size address : ℕ) (p q : Processor) → Straight p q → IsQuiet p (mem_fetch size address q)
unfolding mem_fetch
mem_fetch-IsQuiet size address p q s = outcome (try_mem_fetch_except false size address q)
  where
    outcome :
        (f : Fetched)
        → IsQuiet p (elim f [
          | fetched v ↦ done v
          | unreadable a ↦ thrown (cpu_exception ExceptionType.ad_el q.program_counter a) q
          | wild ↦ undefined
        ])
    outcome (fetched v) = tt
    outcome (unreadable a) = s
    outcome wild = tt

misaligned_by-IsQuiet :
    (h : MisalignedAddressHandling) (type : ExceptionType) (size address : ℕ) (p : Processor)
    → IsQuiet p (misaligned_by h type size address p)
unfolding misaligned_by
misaligned_by-IsQuiet MisalignedAddressHandling.exception type size address p = stays p
misaligned_by-IsQuiet MisalignedAddressHandling.align type size address p = tt
misaligned_by-IsQuiet MisalignedAddressHandling.keep type size address p = tt

pub handle_misaligned_address-IsQuiet :
    (width : ℕ) (type : ExceptionType) (address : ℕ) (p : Processor)
    → IsQuiet p (handle_misaligned_address width type address p)
unfolding handle_misaligned_address
handle_misaligned_address-IsQuiet width type address p =
    if_both (IsQuiet p) (address % alignment width == 0) tt
      (misaligned_by-IsQuiet p.config.misaligned_address_handling type (alignment width) address p)

-- A store leaves the registers alone too.
abbrev pub Keeps : Processor → Processor → Type 0
Keeps p q = Straight p q × (q.registers ≡ p.registers)

unmoved : (p : Processor) → Keeps p p
unmoved p = (stays p, refl)

abbrev pub AllKeep : Processor → Outcome Processor → Type 0
AllKeep p (done q) = Keeps p q
AllKeep p (thrown e q) = Keeps p q
AllKeep p undefined = Unit {0}

abbrev AllStored : Processor → Stored → Type 0
AllStored p (stored q) = Keeps p q
AllStored p (unwritable a q) = Keeps p q
AllStored p crash = Unit {0}

handle_llsc_by-Keeps :
    (t : Llsc) (address : ℕ) (p : Processor) → Keeps p (handle_llsc_by t address p)
unfolding handle_llsc_by
handle_llsc_by-Keeps Llsc.fine address p =
    if_both (Keeps p) (address / 8 * 8 == p.load_link) (unmoved p) (unmoved p)
handle_llsc_by-Keeps Llsc.coarse address p = unmoved p
handle_llsc_by-Keeps Llsc.none address p = unmoved p

touch-Keeps :
    (m : ℕ → ℕ) (address : ℕ) (p : Processor)
    → Keeps p (memory_touched address (record p { memory = m }))
unfolding memory_touched handle_llsc
touch-Keeps m address p = handle_llsc_by-Keeps p.config.llsc_type address (record p { memory = m })

host-AllStored :
    (fault : Option ℕ) (p q : Processor)
    → Keeps p q
    → AllStored p (elim fault [ none ↦ stored q | some a ↦ unwritable a q ])
host-AllStored none p q f = f
host-AllStored (some a) p q f = f

store_emulated-AllStored :
    (found : Option ℕ) (address size value : ℕ) (p : Processor)
    → AllStored p (store_emulated found address size value p)
unfolding store_emulated store_at
store_emulated-AllStored none address size value p = tt
store_emulated-AllStored (some a) address size value p = touch-Keeps _ address p

write_by-AllStored :
    (t : Mmu) (size address value : ℕ) (p : Processor)
    → AllStored p (write_by t size address value p)
unfolding write_by store_at
write_by-AllStored Mmu.host size address value p =
    host-AllStored (p.config.host_mmu.write_fault address size) p _ (touch-Keeps _ address p)
write_by-AllStored Mmu.emulated size address value p =
    if_both (AllStored p) (zero_check_address size address) (unmoved p) (
      store_emulated-AllStored
        (write_at p.config.memory_source (add32 address p.config.stack_size) size) address size
        value p)
write_by-AllStored Mmu.none size address value p =
    if_both (AllStored p) (zero_check_address size address) (unmoved p)
      (if_both (AllStored p) (leb _ p.config.memory_size) (touch-Keeps _ address p) (unmoved p))

pub mem_write-AllKeep :
    (size address value : ℕ) (p : Processor) → AllKeep p (mem_write size address value p)
unfolding mem_write try_mem_write_except
mem_write-AllKeep size address value p =
    outcome (write_by p.config.mmu_type size address value p)
      (write_by-AllStored p.config.mmu_type size address value p)
  where
    outcome :
        (o : Stored)
        → AllStored p o
        → AllKeep p (elim o [
          | stored q ↦ done q
          | unwritable a q ↦ thrown (cpu_exception ExceptionType.ad_es q.program_counter a) q
          | crash ↦ undefined
        ])
    outcome (stored q) f = f
    outcome (unwritable a q) f = f
    outcome crash f = tt

pub mem_write-AllStraight :
    (size address value : ℕ) (p : Processor) → AllStraight p (mem_write size address value p)
mem_write-AllStraight size address value p =
    narrow (mem_write size address value p) (mem_write-AllKeep size address value p)
  where
    narrow : (o : Outcome Processor) → AllKeep p o → AllStraight p o
    narrow (done q) f = f.0
    narrow (thrown e q) f = f.0
    narrow undefined f = tt
