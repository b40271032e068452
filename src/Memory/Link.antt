-- ===== src/Memory/Link.antt =====
-- What a store does to the link register (`handle_llsc`, `memory_touched`).
use vemips.Base.{
  subst, ℕ, ◌+◌, ◌*◌, ◌/◌, ◌≡◌, refl, arith, add32, leb, ◌==◌, if◌then◌else◌, if_both, Option, none,
  some,
}
use vemips.Processor.Options.{Mmu, Llsc}
use vemips.Processor.{Processor, done}
use vemips.Memory.{
  Stored, stored, unwritable, crash, zero_check_address, handle_llsc, handle_llsc_by,
  memory_touched, store_at, store_emulated, write_by, try_mem_write_except, mem_write,
}
use vemips.Memory.Source.{write_at}

-- The link after the check for a store.
abbrev pub link_after : Llsc → ℕ → ℕ → ℕ
link_after Llsc.fine address link = if address / 8 * 8 == link then 0 else link
link_after Llsc.coarse address link = 0
link_after Llsc.none address link = link

handle_llsc_by-link :
    (t : Llsc) (address : ℕ) (p : Processor)
    → ((handle_llsc_by t address p).load_link ≡ link_after t address p.load_link)
      × ((handle_llsc_by t address p).config ≡ p.config)
unfolding handle_llsc_by
handle_llsc_by-link Llsc.fine address p = ground arith
handle_llsc_by-link Llsc.coarse address p = (refl, refl)
handle_llsc_by-link Llsc.none address p = (refl, refl)

abbrev HasLink : ℕ → Processor → Stored → Type 0
HasLink address p (stored q) =
    (q.load_link ≡ link_after p.config.llsc_type address p.load_link) × (q.config ≡ p.config)
HasLink address p (unwritable a q) = Unit {0}
HasLink address p crash = Unit {0}

store_at-link :
    (a address size value : ℕ) (p : Processor)
    → HasLink address p (stored (store_at a address size value p))
unfolding store_at memory_touched handle_llsc
store_at-link a address size value p = handle_llsc_by-link p.config.llsc_type address _

store_emulated-link :
    (found : Option ℕ) (address size value : ℕ) (p : Processor)
    → HasLink address p (store_emulated found address size value p)
unfolding store_emulated
store_emulated-link none address size value p = tt
store_emulated-link (some a) address size value p = store_at-link a address size value p

host-link :
    (fault : Option ℕ) (address : ℕ) (p q : Processor)
    → HasLink address p (stored q)
    → HasLink address p (elim fault [ none ↦ stored q | some a ↦ unwritable a q ])
host-link none address p q h = h
host-link (some a) address p q h = tt

write_by-link :
    (t : Mmu) (size address value : ℕ) (p : Processor)
    → HasLink address p (write_by t size address value p)
unfolding write_by store_at memory_touched handle_llsc
write_by-link Mmu.emulated size address value p =
    if_both (HasLink address p) (zero_check_address size address) tt (
      store_emulated-link (write_at p.config.memory_source (add32 address p.config.stack_size) size)
        address size value p)
write_by-link Mmu.host size address value p =
    host-link (p.config.host_mmu.write_fault address size) address p _
      (handle_llsc_by-link p.config.llsc_type address _)
write_by-link Mmu.none size address value p =
    let a = add32 address p.config.stack_size in
    if_both (HasLink address p) (zero_check_address size address) tt (
      if_both (HasLink address p) (leb (a + size) p.config.memory_size)
        (store_at-link a address size value p) tt)

-- A store that completes clears the link as its check says, under every MMU, and changes no option.
pub mem_write-link :
    (size address value : ℕ) (p q : Processor)
    → mem_write size address value p ≡ done q
    → (q.load_link ≡ link_after p.config.llsc_type address p.load_link) × (q.config ≡ p.config)
unfolding mem_write try_mem_write_except
mem_write-link size address value p q e =
    let sure : try_mem_write_except size address value p ≡ stored q = ground arith in
    subst (HasLink address p) sure (write_by-link p.config.mmu_type size address value p)
