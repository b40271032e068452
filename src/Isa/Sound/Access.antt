-- ===== src/Isa/Sound/Access.antt =====
-- Loads, stores and CACHE (processor_inst.cpp) on sound states.
use vemips.Base.{ℕ, ◌/◌, ◌%◌, ◌^◌, ◌<◌, refl, arith, if_both, ◌==◌, add32, sym, subst}
use native.Mathlib.Nat.{div-mul-le_self}
use vemips.Processor.Options.{MisalignedAddressHandling, ExceptionType}
use vemips.Processor.{Processor, Outcome, done, thrown, undefined, ◌>>=◌, set_register}
use vemips.Memory.{mem_fetch, mem_poke}
use vemips.Isa.Fields.{rs, rt, rt_value, sextend}
use vemips.Isa.LoadStore.{
  lb, lbu, lh, lhu, lw, lwpc, sb, sh, sw, cache, handle_misaligned_address, misaligned_by,
  alignment, effective_address,
}
use vemips.Isa.Sound.{IsSound, AllFollow, Follows, stay, set_register-Follows}
use vemips.Isa.Sound.Alu.{sextend-lt}
use vemips.Isa.Sound.Fetch.{IsLoad, mem_fetch-IsLoad}
use vemips.Isa.Sound.Store.{mem_write-AllFollow}

pub load_then :
    (n : ℕ) (p : Processor) (o : Outcome ℕ) (k : ℕ → Outcome Processor)
    → IsSound p
    → IsLoad n p o
    → ((v : ℕ) → v < n → AllFollow p (k v))
    → AllFollow p (o >>= k)
load_then n p (done v) k s b f = f v b
load_then n p (thrown e q) k s b f = subst (Follows p) (sym b) (stay p s)
load_then n p undefined k s b f = tt

misaligned_by-IsLoad :
    (t : MisalignedAddressHandling) (type : ExceptionType) (size address : ℕ) (p : Processor)
    → address < 2 ^ 32
    → IsLoad (2 ^ 32) p (misaligned_by t type size address p)
unfolding misaligned_by
misaligned_by-IsLoad MisalignedAddressHandling.exception type size address p fits = refl
misaligned_by-IsLoad MisalignedAddressHandling.align type size address p fits =
    omega (arith, div-mul-le_self address size)
misaligned_by-IsLoad MisalignedAddressHandling.keep type size address p fits = fits

aligned-IsLoad :
    (width : ℕ) (type : ExceptionType) (i : ℕ) (p : Processor)
    → IsLoad (2 ^ 32) p (handle_misaligned_address width type (effective_address i p) p)
unfolding handle_misaligned_address
aligned-IsLoad width type i p =
    if_both (IsLoad (2 ^ 32) p) (effective_address i p % alignment width == 0) (omega arith) (
      misaligned_by-IsLoad p.config.misaligned_address_handling type (alignment width)
        (effective_address i p) p (omega arith))

-- A load into a register.
load_register :
    (size address r : ℕ) (p : Processor) (convert : ℕ → ℕ)
    → IsSound p
    → ((v : ℕ) → v < 256 ^ size → convert v < 2 ^ 32)
    → AllFollow p (mem_fetch size address p >>= λ v. done (set_register p r (convert v)))
load_register size address r p convert s fits =
    load_then (256 ^ size) p (mem_fetch size address p) _ s (mem_fetch-IsLoad size address p s)
      (λ v b. set_register-Follows p r (convert v) s (fits v b))

pub lb-AllFollow : (i : ℕ) (p : Processor) → IsSound p → AllFollow p (lb i p)
unfolding lb
lb-AllFollow i p s =
    load_register 1 (effective_address i p) (rt i) p (λ v. sextend 8 v) s
      (λ v b. sextend-lt 8 v (omega arith))

pub lbu-AllFollow : (i : ℕ) (p : Processor) → IsSound p → AllFollow p (lbu i p)
unfolding lbu
lbu-AllFollow i p s =
    load_register 1 (effective_address i p) (rt i) p (λ v. v) s (λ v b. omega arith)

pub lh-AllFollow : (i : ℕ) (p : Processor) → IsSound p → AllFollow p (lh i p)
unfolding lh
lh-AllFollow i p s =
    load_then (2 ^ 32) p
      (handle_misaligned_address 16 ExceptionType.ad_el (effective_address i p) p) _ s
      (aligned-IsLoad 16 ExceptionType.ad_el i p)
      (λ a fits.
        load_register 2 a (rt i) p (λ v. sextend 16 v) s (λ v b. sextend-lt 16 v (omega arith)))

pub lhu-AllFollow : (i : ℕ) (p : Processor) → IsSound p → AllFollow p (lhu i p)
unfolding lhu
lhu-AllFollow i p s =
    load_then (2 ^ 32) p
      (handle_misaligned_address 16 ExceptionType.ad_el (effective_address i p) p) _ s
      (aligned-IsLoad 16 ExceptionType.ad_el i p)
      (λ a fits. load_register 2 a (rt i) p (λ v. v) s (λ v b. omega arith))

pub lw-AllFollow : (i : ℕ) (p : Processor) → IsSound p → AllFollow p (lw i p)
unfolding lw
lw-AllFollow i p s =
    load_then (2 ^ 32) p
      (handle_misaligned_address 32 ExceptionType.ad_el (effective_address i p) p) _ s
      (aligned-IsLoad 32 ExceptionType.ad_el i p)
      (λ a fits. load_register 4 a (rt i) p (λ v. v) s (λ v b. omega arith))

pub lwpc-AllFollow : (i : ℕ) (p : Processor) → IsSound p → AllFollow p (lwpc i p)
unfolding lwpc
lwpc-AllFollow i p s = load_register 4 _ (rs i) p (λ v. v) s (λ v b. omega arith)

pub sb-AllFollow : (i : ℕ) (p : Processor) → IsSound p → AllFollow p (sb i p)
unfolding sb
sb-AllFollow i p s = mem_write-AllFollow 1 (effective_address i p) (rt_value i p % 2 ^ 8) p s

pub sh-AllFollow : (i : ℕ) (p : Processor) → IsSound p → AllFollow p (sh i p)
unfolding sh
sh-AllFollow i p s =
    load_then (2 ^ 32) p
      (handle_misaligned_address 16 ExceptionType.ad_es (effective_address i p) p) _ s
      (aligned-IsLoad 16 ExceptionType.ad_es i p)
      (λ a fits. mem_write-AllFollow 2 a (rt_value i p % 2 ^ 16) p s)

pub sw-AllFollow : (i : ℕ) (p : Processor) → IsSound p → AllFollow p (sw i p)
unfolding sw
sw-AllFollow i p s =
    load_then (2 ^ 32) p
      (handle_misaligned_address 32 ExceptionType.ad_es (effective_address i p) p) _ s
      (aligned-IsLoad 32 ExceptionType.ad_es i p)
      (λ a fits. mem_write-AllFollow 4 a (rt_value i p) p s)

poked-AllFollow :
    (o : Outcome (Unit {0})) (p : Processor)
    → IsSound p
    → AllFollow p (elim o [ done _ ↦ done p | thrown e q ↦ undefined | undefined ↦ undefined ])
poked-AllFollow (done _) p s = stay p s
poked-AllFollow (thrown e q) p s = tt
poked-AllFollow undefined p s = tt

pub cache-AllFollow : (i : ℕ) (p : Processor) → IsSound p → AllFollow p (cache i p)
unfolding cache
cache-AllFollow i p s = poked-AllFollow (mem_poke 1 (add32 (rs i) (sextend 9 (i / 2 ^ 7))) p) p s
