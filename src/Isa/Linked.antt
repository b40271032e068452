-- ===== src/Isa/Linked.antt =====
-- Load-linked and store-conditional (processor_inst.cpp).
pub mod Atomic
use vemips.Base.{ℕ, ◌+◌, ◌*◌, ◌/◌, ◌%◌, ◌^◌, ◌==◌, if◌then◌else◌, Bool, true, not, add32, u32}
use vemips.Processor.Options.{Llsc, ExceptionType}
use vemips.Processor.{Processor, Outcome, done, ◌>>=◌, set_register, set_load_link, throw_helper}
use vemips.Memory.{mem_fetch, mem_write}
use vemips.Isa.Fields.{rt, rd, rs_value, rt_value, rd_value, sextend}

check_llsc_by : Llsc → Processor → ℕ → Bool
check_llsc_by Llsc.fine p address = p.load_link == address
check_llsc_by Llsc.coarse p address = not (p.load_link == 0)
check_llsc_by Llsc.none p address = true

unfoldable pub check_llsc : Processor → ℕ → Bool
unfolding check_llsc_by
check_llsc p address = check_llsc_by p.config.llsc_type p address

-- `TinyInt<9>(instruction >> 7)`, from the base.
unfoldable pub linked_address : ℕ → Processor → ℕ
linked_address i p = add32 (rs_value i p) (sextend 9 (i / 2 ^ 7))

-- The link is set before the fetch, which may throw.
unfoldable pub ll : ℕ → Processor → Outcome Processor
unfolding set_load_link
ll i p =
    let address = linked_address i p in
    if address % 4 == 0
    then (do
      v ← mem_fetch 4 address (set_load_link p address)
      done (set_register (set_load_link p address) (rt i) v))
    else throw_helper ExceptionType.ad_el address 0 p

unfoldable pub llwp : ℕ → Processor → Outcome Processor
unfolding set_load_link
llwp i p =
    let address = rs_value i p in
    if address % 8 == 0
    then (do
      v ← mem_fetch 8 address (set_load_link p address)
      done (
          set_register (set_register (set_load_link p address) (rt i) (u32 v)) (rd i) (v / 2 ^ 32)))
    else throw_helper ExceptionType.ad_el address 0 p

-- The part that SC and SCWP share: `size` bytes of `value` at an aligned address.
unfoldable pub store_conditional : ℕ → ℕ → ℕ → ℕ → Processor → Outcome Processor
unfolding check_llsc set_load_link
store_conditional size address value destination p =
    if check_llsc p address
    then (do
      q ← mem_write size address value p
      done (set_load_link (set_register q destination 1) 0))
    else done (set_load_link (set_register p destination 0) 0)

unfoldable pub sc : ℕ → Processor → Outcome Processor
unfolding store_conditional
sc i p =
    let address = linked_address i p in
    if address % 4 == 0
    then store_conditional 4 address (rt_value i p) (rt i) p
    else throw_helper ExceptionType.ad_es address 0 p

unfoldable pub scwp : ℕ → Processor → Outcome Processor
unfolding store_conditional
scwp i p =
    let address = rs_value i p in
    if address % 8 == 0
    then store_conditional 8 address (rt_value i p + rd_value i p * 2 ^ 32) (rt i) p
    else throw_helper ExceptionType.ad_es address 0 p
