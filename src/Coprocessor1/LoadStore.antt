-- ===== src/Coprocessor1/LoadStore.antt =====
-- Loads and stores of floating-point registers (src/mips/instructions/coprocessor1_inst.cpp).
use vemips.Base.{ℕ, ◌*◌, ◌/◌, ◌%◌, ◌==◌, if◌then◌else◌}
use vemips.Processor.Options.{MisalignedAddressHandling, ExceptionType}
use vemips.Processor.{Processor, Outcome, done, throw_helper}
use vemips.Memory.{mem_fetch, mem_write}
use vemips.Isa.Fields.{rt}
use vemips.Isa.LoadStore.{alignment, effective_address}
use vemips.Coprocessor1.{Machine, Result, ran, get_low, get_long, set_low, set_long, continue}

unfoldable pub misaligned_by :
    MisalignedAddressHandling → ExceptionType → ℕ → ℕ → Processor → Outcome ℕ
misaligned_by MisalignedAddressHandling.exception type size address p =
    throw_helper type p.program_counter address p
misaligned_by MisalignedAddressHandling.align type size address p = done (address / size * size)
misaligned_by MisalignedAddressHandling.keep type size address p = done address

-- `EException` is given the counter and the address, unlike in the processor's own loads.
unfoldable pub handle_misaligned_address : ℕ → ExceptionType → ℕ → Processor → Outcome ℕ
unfolding misaligned_by alignment
handle_misaligned_address width type address p =
    if address % alignment width == 0
    then done address
    else misaligned_by p.config.misaligned_address_handling type (alignment width) address p

unfoldable pub ldc1 : ℕ → Machine → Result
unfolding handle_misaligned_address mem_fetch set_long
ldc1 i m =
    let p = m.processor in
    continue (handle_misaligned_address 64 ExceptionType.ad_el (effective_address i p) p) m (λ a.
      continue (mem_fetch 8 a p) m
        (λ v. ran (record m { coprocessor = set_long m.coprocessor (rt i) v })))

unfoldable pub lwc1 : ℕ → Machine → Result
unfolding handle_misaligned_address mem_fetch set_low
lwc1 i m =
    let p = m.processor in
    continue (handle_misaligned_address 32 ExceptionType.ad_el (effective_address i p) p) m (λ a.
      continue (mem_fetch 4 a p) m
        (λ v. ran (record m { coprocessor = set_low m.coprocessor (rt i) v })))

unfoldable pub sdc1 : ℕ → Machine → Result
unfolding handle_misaligned_address mem_write get_long
sdc1 i m =
    let p = m.processor in
    continue (handle_misaligned_address 64 ExceptionType.ad_es (effective_address i p) p) m (λ a.
      continue (mem_write 8 a (get_long m.coprocessor (rt i)) p) m
        (λ q. ran (record m { processor = q })))

unfoldable pub swc1 : ℕ → Machine → Result
unfolding handle_misaligned_address mem_write get_low
swc1 i m =
    let p = m.processor in
    continue (handle_misaligned_address 32 ExceptionType.ad_es (effective_address i p) p) m (λ a.
      continue (mem_write 4 a (get_low m.coprocessor (rt i)) p) m
        (λ q. ran (record m { processor = q })))
