-- ===== src/Isa/Linked/Atomic.antt =====
-- What LL, the stores and SC do together (`load_linked_` of src/mips/processor/processor.hpp, with
-- LL and SC of processor_inst.cpp). `link_after` is the link check of a store.
use vemips.Base.{
  ℕ, ◌*◌, ◌/◌, ◌%◌, ◌≡◌, ◌≢◌, refl, ap, ◌∙◌, arith, not, true, false, if◌then◌else◌, ◌==◌,
}
use vemips.Processor.Options.{Llsc, Config}
use vemips.Processor.{Processor, done, get_register, set_register, set_load_link}
use vemips.Processor.Registers.{HasWords, get_register-lt}
use vemips.Memory.{mem_fetch, mem_write, read_bytes, store_at}
use vemips.Memory.Access.{
  IsAccepted, IsWritable, offset, mem_fetch-later, mem_fetch-written, mem_write-writable,
  store_at_keeps,
}
use vemips.Memory.Link.{link_after, mem_write-link}
use vemips.Isa.Fields.{rt, rt_value}
use vemips.Isa.Linked.{ll, sc, linked_address, store_conditional, check_llsc, check_llsc_by}

-- LL from an aligned address that can be read completes: it loads the word and takes the link.
pub ll-links :
    (i : ℕ) (p : Processor)
    → linked_address i p % 4 ≡ 0
    → IsAccepted p.config.mmu_type 4 (linked_address i p) p
    → (q : Processor) × (ll i p ≡ done q)
      × (q.load_link ≡ linked_address i p)
      × (q.memory ≡ p.memory)
      × (q.config ≡ p.config)
      × (q.registers
          ≡ (set_register p
              (rt i)
              (read_bytes p.memory (offset (linked_address i p) p) 4)).registers)
unfolding ll set_load_link set_register
ll-links i p aligned ok =
    let a = linked_address i p in
    let v = read_bytes p.memory (offset a p) 4 in
    let e = mem_fetch-later 4 a p (set_load_link p a) refl ok in
    (
      set_register (set_load_link p a) (rt i) v,
      ground arith,
      ground arith,
      ground arith,
      ground arith,
      ground arith,
    )

check-passes :
    (t : Llsc) (address : ℕ) (p : Processor)
    → p.load_link ≡ address
    → address ≢ 0
    → check_llsc_by t p address ≡ true
unfolding check_llsc_by
check-passes Llsc.fine address p e nonzero = ground arith
check-passes Llsc.coarse address p e nonzero = ground arith
check-passes Llsc.none address p e nonzero = refl

check-fine :
    (a : ℕ) (p : Processor) → p.config.llsc_type ≡ Llsc.fine → check_llsc p a ≡ (p.load_link == a)
unfolding check_llsc check_llsc_by
check-fine a p fine = ap (λ t. check_llsc_by t p a) fine

check-coarse :
    (a : ℕ) (p : Processor)
    → p.config.llsc_type ≡ Llsc.coarse
    → check_llsc p a ≡ not (p.load_link == 0)
unfolding check_llsc check_llsc_by
check-coarse a p coarse = ap (λ t. check_llsc_by t p a) coarse

-- The link after a completed store, with the link check known.
store-link :
    (t : Llsc) (size address value : ℕ) (p q : Processor)
    → p.config.llsc_type ≡ t
    → mem_write size address value p ≡ done q
    → (q.load_link ≡ link_after t address p.load_link) × (q.config.llsc_type ≡ t)
store-link t size address value p q same e =
    let sure = mem_write-link size address value p q e in
    (
      sure.0 ∙ ap (λ u. link_after u address p.load_link) same,
      ap (λ (c : Config). c.llsc_type) sure.1 ∙ same,
    )

-- An SC that passes its check stores the word, gives 1 and ends the link.
sc-passes :
    (i : ℕ) (p : Processor)
    → linked_address i p % 4 ≡ 0
    → check_llsc p (linked_address i p) ≡ true
    → HasWords p
    → IsWritable p.config.mmu_type 4 (linked_address i p) p
    → (q : Processor) × (sc i p ≡ done q)
      × (q.load_link ≡ 0)
      × (get_register q (rt i) ≡ (if rt i == 0 then 0 else 1))
      × (mem_fetch 4 (linked_address i p) q ≡ done (rt_value i p))
unfolding sc store_conditional set_load_link set_register get_register
sc-passes i p aligned passes words ok =
    let a = linked_address i p in
    let s = store_at (offset a p) a 4 (rt_value i p) p in
    let e = mem_write-writable 4 a (rt_value i p) p ok in
    let keeps = store_at_keeps (offset a p) a 4 (rt_value i p) p in
    let q = set_load_link (set_register s (rt i) 1) 0 in
    (
      q,
      ground arith,
      ground arith,
      ground arith,
      mem_fetch-written 4 a (rt_value i p) p q (ground (arith, keeps.1)) (ground (arith, keeps.0))
          ok (omega (arith, get_register-lt p (rt i) words)),
    )

-- An SC that fails its check gives 0, ends the link and leaves the memory as it was.
sc-fails :
    (i : ℕ) (p : Processor)
    → linked_address i p % 4 ≡ 0
    → check_llsc p (linked_address i p) ≡ false
    → (q : Processor) × (sc i p ≡ done q)
      × (q.load_link ≡ 0)
      × (get_register q (rt i) ≡ 0)
      × (q.memory ≡ p.memory)
unfolding sc store_conditional set_load_link set_register get_register
sc-fails i p aligned fails =
    (set_load_link (set_register p (rt i) 0) 0, ground arith, refl, ground arith, ground arith)

-- An SC straight after a completed LL from the same aligned address other than 0 is made: the word is
-- stored, 1 is given (unless to register 0), and the link ends. This is so for every link check,
-- where the registers hold words and both accesses are accepted.
pub ll-then-sc :
    (i j : ℕ) (p q : Processor)
    → ll i p ≡ done q
    → linked_address i p % 4 ≡ 0
    → linked_address j q ≡ linked_address i p
    → linked_address i p ≢ 0
    → HasWords q
    → IsAccepted p.config.mmu_type 4 (linked_address i p) p
    → IsWritable q.config.mmu_type 4 (linked_address j q) q
    → (r : Processor) × (sc j q ≡ done r)
      × (r.load_link ≡ 0)
      × (get_register r (rt j) ≡ (if rt j == 0 then 0 else 1))
      × (mem_fetch 4 (linked_address j q) r ≡ done (rt_value j q))
unfolding check_llsc
ll-then-sc i j p q e aligned same nonzero words readable writable =
    let (s, loaded, link, _, _, _) = ll-links i p aligned readable in
    let passes : check_llsc q (linked_address j q) ≡ true =
      check-passes q.config.llsc_type (linked_address j q) q (ground arith) (ground arith) in
    sc-passes j q (ground arith) passes words writable

-- With the fine link check, a completed store to any of the eight bytes that start at the linked
-- address, which is a multiple of 8 and not 0, makes an SC to that address straight after it fail: 0
-- is given, the link ends and the memory stays as the store left it.
pub sc-after_store :
    (i size address value : ℕ) (p q : Processor)
    → p.config.llsc_type ≡ Llsc.fine
    → p.load_link ≡ address / 8 * 8
    → mem_write size address value p ≡ done q
    → linked_address i q ≡ p.load_link
    → p.load_link ≢ 0
    → (r : Processor) × (sc i q ≡ done r)
      × (r.load_link ≡ 0)
      × (get_register r (rt i) ≡ 0)
      × (r.memory ≡ q.memory)
sc-after_store i size address value p q fine link e same nonzero =
    let cleared = store-link Llsc.fine size address value p q fine e in
    sc-fails i q (ground arith) (ground (arith, check-fine (linked_address i q) q cleared.1))

-- With the fine link check, a link to an address that is 4 above a multiple of 8 outlives every
-- completed store, also to the linked address: where the registers hold words and, under the emulated or
-- no MMU, the linked word is not at address 0, inside the memory and under the emulated MMU not all in
-- one executable block, an SC to it straight after the store completes, stores its word, ends the link
-- and gives 1, unless to register 0, which reads as 0.
pub sc-upper_half :
    (i size address value : ℕ) (p q : Processor)
    → p.config.llsc_type ≡ Llsc.fine
    → p.load_link % 8 ≡ 4
    → mem_write size address value p ≡ done q
    → linked_address i q ≡ p.load_link
    → HasWords q
    → IsWritable q.config.mmu_type 4 (linked_address i q) q
    → (r : Processor) × (sc i q ≡ done r)
      × (r.load_link ≡ 0)
      × (get_register r (rt i) ≡ (if rt i == 0 then 0 else 1))
      × (mem_fetch 4 (linked_address i q) r ≡ done (rt_value i q))
sc-upper_half i size address value p q fine upper e same words ok =
    let kept = store-link Llsc.fine size address value p q fine e in
    sc-passes i q (omega (arith, same)) (ground (arith, check-fine (linked_address i q) q kept.1))
      words ok

-- With the coarse link check, a completed store to any address makes an SC to an aligned address
-- straight after it fail: 0 is given, the link ends and the memory stays as the store left it.
pub sc-coarse :
    (i size address value : ℕ) (p q : Processor)
    → p.config.llsc_type ≡ Llsc.coarse
    → mem_write size address value p ≡ done q
    → linked_address i q % 4 ≡ 0
    → (r : Processor) × (sc i q ≡ done r)
      × (r.load_link ≡ 0)
      × (get_register r (rt i) ≡ 0)
      × (r.memory ≡ q.memory)
sc-coarse i size address value p q coarse e aligned =
    let cleared = store-link Llsc.coarse size address value p q coarse e in
    sc-fails i q aligned (ground (arith, check-coarse (linked_address i q) q cleared.1))
