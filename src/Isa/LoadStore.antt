-- ===== src/Isa/LoadStore.antt =====
-- Loads and stores (processor_inst.cpp).
use vemips.Base.{ℕ, ◌-◌, ◌*◌, ◌/◌, ◌%◌, ◌^◌, ◌==◌, if◌then◌else◌, u32, add32, ◌<<<◌}
use vemips.Processor.Options.{MisalignedAddressHandling, ExceptionType}
use vemips.Processor.{
  Processor, Outcome, done, thrown, undefined, ◌>>=◌, set_register, throw_helper,
}
use vemips.Memory.{mem_fetch, mem_poke, mem_write}
use vemips.Isa.Fields.{rs, rt, rs_value, rt_value, immediate, sextend}

unfoldable pub misaligned_by :
    MisalignedAddressHandling → ExceptionType → ℕ → ℕ → Processor → Outcome ℕ
misaligned_by MisalignedAddressHandling.exception type size address p =
    throw_helper type address 0 p
misaligned_by MisalignedAddressHandling.align type size address p = done (address / size * size)
misaligned_by MisalignedAddressHandling.keep type size address p = done address

-- `make_bitmask((Bits - 1) / 8)` is a mask of (Bits - 1) / 8 ones: 1 for 16 bits, 7 for 32. This is
-- the mask plus one.
unfoldable pub alignment : ℕ → ℕ
alignment width = 2 ^ ((width - 1) / 8)

unfoldable pub handle_misaligned_address : ℕ → ExceptionType → ℕ → Processor → Outcome ℕ
unfolding misaligned_by alignment
handle_misaligned_address width type address p =
    if address % alignment width == 0
    then done address
    else misaligned_by p.config.misaligned_address_handling type (alignment width) address p

abbrev pub effective_address : ℕ → Processor → ℕ
effective_address i p = add32 (rs_value i p) (immediate i)

unfoldable pub lb : ℕ → Processor → Outcome Processor
lb i p = do v ← mem_fetch 1 (effective_address i p) p; done (set_register p (rt i) (sextend 8 v))

unfoldable pub lbu : ℕ → Processor → Outcome Processor
lbu i p = do v ← mem_fetch 1 (effective_address i p) p; done (set_register p (rt i) v)

unfoldable pub lh : ℕ → Processor → Outcome Processor
lh i p = do
  address ← handle_misaligned_address 16 ExceptionType.ad_el (effective_address i p) p
  v ← mem_fetch 2 address p
  done (set_register p (rt i) (sextend 16 v))

unfoldable pub lhu : ℕ → Processor → Outcome Processor
lhu i p = do
  address ← handle_misaligned_address 16 ExceptionType.ad_el (effective_address i p) p
  v ← mem_fetch 2 address p
  done (set_register p (rt i) v)

unfoldable pub lw : ℕ → Processor → Outcome Processor
lw i p = do
  address ← handle_misaligned_address 32 ExceptionType.ad_el (effective_address i p) p
  v ← mem_fetch 4 address p
  done (set_register p (rt i) v)

unfoldable pub lwpc : ℕ → Processor → Outcome Processor
lwpc i p = do
  v ← mem_fetch 4 (add32 p.program_counter (sextend 21 (u32 (i <<< 2)))) p
  done (set_register p (rs i) v)

unfoldable pub sb : ℕ → Processor → Outcome Processor
sb i p = mem_write 1 (effective_address i p) (rt_value i p % 2 ^ 8) p

unfoldable pub sh : ℕ → Processor → Outcome Processor
sh i p = do
  address ← handle_misaligned_address 16 ExceptionType.ad_es (effective_address i p) p
  mem_write 2 address (rt_value i p % 2 ^ 16) p

unfoldable pub sw : ℕ → Processor → Outcome Processor
sw i p = do
  address ← handle_misaligned_address 32 ExceptionType.ad_es (effective_address i p) p
  mem_write 4 address (rt_value i p) p

-- CACHE is `noexcept`: an exception of the poke ends the host's process. The address is made from
-- the base register's number.
unfoldable pub cache : ℕ → Processor → Outcome Processor
cache i p = elim (mem_poke 1 (add32 (rs i) (sextend 9 (i / 2 ^ 7))) p) [
  | done _ ↦ done p
  | thrown e q ↦ undefined
  | undefined ↦ undefined
]
