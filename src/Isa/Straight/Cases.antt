-- ===== src/Isa/Straight/Cases.antt =====
-- The instructions that do more than write a register (src/mips/instructions/processor_inst.cpp).
use vemips.Base.{
  ◌-ℤ◌, ◌+ℤ◌, ltb_ℤ, leb_ℤ, signed32, leb, ℕ, ◌+◌, ◌-◌, ◌/◌, ◌%◌, ◌^◌, Bool, not, ◌==◌, if_both,
  ltb, add32, sub32, Option, none, some, ℤ, u32, if◌then◌else◌,
}
use vemips.Isa.Arithmetic.{add, sub, checked, overflows}
use vemips.Isa.BitField.{ext, ins, extract_bits, insert_bits, insert_by, lsb, msb}
use vemips.Isa.Fields.{shift_amount, rd, rt, rs, rs_value, rt_value, zextend, sextend, bits}
use vemips.Isa.Linked.{ll, llwp, sc, scwp, store_conditional, linked_address, check_llsc}
use vemips.Isa.LoadStore.{
  lb, lbu, lh, lhu, lw, lwpc, sb, sh, sw, cache, handle_misaligned_address, effective_address,
}
use vemips.Isa.Logic.{align}
use vemips.Isa.MulDiv.{div, modulo, divu, modu, write_divided, quotient, remainder}
use vemips.Isa.Shift.{rotr, rotrv, write_rotated, rotate, rs_amount}
use vemips.Isa.Straight.{
  Straight, AllStraight, stays, then-Straight, quiet_then, bind-AllStraight, set_register-Straight,
  mem_fetch-IsQuiet, handle_misaligned_address-IsQuiet, mem_write-AllStraight,
}
use vemips.Isa.Trap.{rdhwr, teq, tge, tgeu, tlt, tltu, tne, trap_if}
use vemips.Memory.{mem_fetch, mem_write, mem_poke}
use vemips.Processor.Options.{ExceptionType}
use vemips.Processor.{
  Processor, Outcome, done, thrown, undefined, set_register, set_load_link, ◌>>=◌,
}

write-Straight : (p q : Processor) (r v : ℕ) → Straight p q → Straight p (set_register q r v)
write-Straight p q r v f = then-Straight p q (set_register q r v) f (set_register-Straight q r v)

checked-AllStraight : (z : ℤ) (r : ℕ) (p : Processor) → AllStraight p (checked z r p)
unfolding checked
checked-AllStraight z r p =
    if_both (AllStraight p) (overflows z) (stays p) (set_register-Straight p r _)

pub add-AllStraight : (i : ℕ) (p : Processor) → AllStraight p (add i p)
unfolding add
add-AllStraight i p =
    checked-AllStraight (signed32 (rs_value i p) +ℤ signed32 (rt_value i p)) (rd i) p

pub sub-AllStraight : (i : ℕ) (p : Processor) → AllStraight p (sub i p)
unfolding sub
sub-AllStraight i p =
    checked-AllStraight (signed32 (rs_value i p) -ℤ signed32 (rt_value i p)) (rd i) p

write_divided-AllStraight :
    (i : ℕ) (o : Outcome ℕ) (p : Processor) → AllStraight p (write_divided i o p)
write_divided-AllStraight i (done v) p = set_register-Straight p (rd i) v
write_divided-AllStraight i (thrown e q) p = tt
write_divided-AllStraight i undefined p = tt

pub div-AllStraight : (i : ℕ) (p : Processor) → AllStraight p (div i p)
unfolding div
div-AllStraight i p =
    if_both (AllStraight p) (rt_value i p == 0) (set_register-Straight p (rd i) 0)
      (write_divided-AllStraight i (quotient (rs_value i p) (rt_value i p)) p)

pub modulo-AllStraight : (i : ℕ) (p : Processor) → AllStraight p (modulo i p)
unfolding modulo
modulo-AllStraight i p =
    if_both (AllStraight p) (rt_value i p == 0) (set_register-Straight p (rd i) 0)
      (write_divided-AllStraight i (remainder (rs_value i p) (rt_value i p)) p)

pub divu-AllStraight : (i : ℕ) (p : Processor) → AllStraight p (divu i p)
unfolding divu
divu-AllStraight i p =
    if_both (AllStraight p) (rt_value i p == 0) (set_register-Straight p (rd i) 0)
      (set_register-Straight p (rd i) _)

pub modu-AllStraight : (i : ℕ) (p : Processor) → AllStraight p (modu i p)
unfolding modu
modu-AllStraight i p =
    if_both (AllStraight p) (rt_value i p == 0) (set_register-Straight p (rd i) 0)
      (set_register-Straight p (rd i) _)

write_rotated-AllStraight :
    (i : ℕ) (o : Outcome ℕ) (p : Processor) → AllStraight p (write_rotated i o p)
write_rotated-AllStraight i (done v) p = set_register-Straight p (rd i) v
write_rotated-AllStraight i (thrown e q) p = tt
write_rotated-AllStraight i undefined p = tt

pub rotr-AllStraight : (i : ℕ) (p : Processor) → AllStraight p (rotr i p)
unfolding rotr
rotr-AllStraight i p = write_rotated-AllStraight i (rotate (rt_value i p) (shift_amount i)) p

pub rotrv-AllStraight : (i : ℕ) (p : Processor) → AllStraight p (rotrv i p)
unfolding rotrv
rotrv-AllStraight i p = write_rotated-AllStraight i (rotate (rt_value i p) (rs_amount i p)) p

pub align-AllStraight : (i : ℕ) (p : Processor) → AllStraight p (align i p)
unfolding align
align-AllStraight i p =
    if_both (AllStraight p) (zextend 2 i == 0) tt (set_register-Straight p (rd i) _)

preset-Straight :
    (test : Bool) (r v : ℕ) (p : Processor) → Straight p (if test then set_register p r v else p)
preset-Straight test r v p = if_both (Straight p) test (set_register-Straight p r v) (stays p)

pub ext-AllStraight : (i : ℕ) (p : Processor) → AllStraight p (ext i p)
unfolding ext
ext-AllStraight i p =
    let q = if ltb 31 (lsb i + msb i) then set_register p (rt i) (2 ^ 32 - 1) else p in
    write-Straight p q (rt i) (extract_bits (rs_value i q) (lsb i) (msb i + 1))
      (preset-Straight (ltb 31 (lsb i + msb i)) (rt i) (2 ^ 32 - 1) p)

insert_by-AllStraight :
    (o : Option ℕ) (i : ℕ) (p q : Processor) → Straight p q → AllStraight p (insert_by o i q)
unfolding insert_by
insert_by-AllStraight none i p q f = tt
insert_by-AllStraight (some mask) i p q f =
    write-Straight p q (rt i) (insert_bits mask (lsb i) (rs_value i q) (rt_value i q)) f

pub ins-AllStraight : (i : ℕ) (p : Processor) → AllStraight p (ins i p)
unfolding ins
ins-AllStraight i p =
    insert_by-AllStraight (bits (add32 (sub32 (msb i) (lsb i)) 1)) i p
      (if ltb (msb i) (lsb i) then set_register p (rt i) (2 ^ 32 - 1) else p)
      (preset-Straight (ltb (msb i) (lsb i)) (rt i) (2 ^ 32 - 1) p)

trap_if-AllStraight : (test : Bool) (i : ℕ) (p : Processor) → AllStraight p (trap_if test i p)
unfolding trap_if
trap_if-AllStraight test i p = if_both (AllStraight p) test (stays p) (stays p)

pub traps-AllStraight :
    (i : ℕ) (p : Processor)
    → AllStraight p (teq i p)
      × AllStraight p (tne i p)
      × AllStraight p (tge i p)
      × AllStraight p (tgeu i p)
      × AllStraight p (tlt i p)
      × AllStraight p (tltu i p)
unfolding teq tne tge tgeu tlt tltu
traps-AllStraight i p = (
  trap_if-AllStraight (rs_value i p == rt_value i p) i p,
  trap_if-AllStraight (not (rs_value i p == rt_value i p)) i p,
  trap_if-AllStraight (leb_ℤ (signed32 (rt_value i p)) (signed32 (rs_value i p))) i p,
  trap_if-AllStraight (leb (rt_value i p) (rs_value i p)) i p,
  trap_if-AllStraight (ltb_ℤ (signed32 (rs_value i p)) (signed32 (rt_value i p))) i p,
  trap_if-AllStraight (ltb (rs_value i p) (rt_value i p)) i p,
)

pub rdhwr-AllStraight : (i : ℕ) (p : Processor) → AllStraight p (rdhwr i p)
unfolding rdhwr
rdhwr-AllStraight i p =
    let read = λ (v : ℕ). set_register-Straight p (rt i) v in
    if_both (AllStraight p) (not (zextend 3 (i / 2 ^ 6) == 0)) (stays p) (
      if_both (AllStraight p) (rd i == 0) (read _) (
        if_both (AllStraight p) (rd i == 1) (read _) (
          if_both (AllStraight p) (rd i == 2) (read _) (
            if_both (AllStraight p) (rd i == 3) (read _) (
              if_both (AllStraight p) (rd i == 5) (read _)
                (if_both (AllStraight p) (rd i == 29) (read _) (stays p)))))))

-- Loads and stores.
load_register :
    (size a r : ℕ) (p : Processor) (f : ℕ → ℕ)
    → AllStraight p (mem_fetch size a p >>= λ v. done (set_register p r (f v)))
load_register size a r p f =
    quiet_then p (mem_fetch size a p) (λ v. done (set_register p r (f v)))
      (mem_fetch-IsQuiet size a p p (stays p)) (λ v. set_register-Straight p r (f v))

aligned_then :
    (width : ℕ) (type : ExceptionType) (a : ℕ) (p : Processor) (k : ℕ → Outcome Processor)
    → ((b : ℕ) → AllStraight p (k b))
    → AllStraight p (handle_misaligned_address width type a p >>= k)
aligned_then width type a p k f =
    quiet_then p (handle_misaligned_address width type a p) k
      (handle_misaligned_address-IsQuiet width type a p) f

pub lb-AllStraight : (i : ℕ) (p : Processor) → AllStraight p (lb i p)
unfolding lb
lb-AllStraight i p = load_register 1 (effective_address i p) (rt i) p (λ v. sextend 8 v)

pub lbu-AllStraight : (i : ℕ) (p : Processor) → AllStraight p (lbu i p)
unfolding lbu
lbu-AllStraight i p = load_register 1 (effective_address i p) (rt i) p (λ v. v)

pub lh-AllStraight : (i : ℕ) (p : Processor) → AllStraight p (lh i p)
unfolding lh
lh-AllStraight i p =
    aligned_then 16 ExceptionType.ad_el (effective_address i p) p _
      (λ a. load_register 2 a (rt i) p (λ v. sextend 16 v))

pub lhu-AllStraight : (i : ℕ) (p : Processor) → AllStraight p (lhu i p)
unfolding lhu
lhu-AllStraight i p =
    aligned_then 16 ExceptionType.ad_el (effective_address i p) p _
      (λ a. load_register 2 a (rt i) p (λ v. v))

pub lw-AllStraight : (i : ℕ) (p : Processor) → AllStraight p (lw i p)
unfolding lw
lw-AllStraight i p =
    aligned_then 32 ExceptionType.ad_el (effective_address i p) p _
      (λ a. load_register 4 a (rt i) p (λ v. v))

pub lwpc-AllStraight : (i : ℕ) (p : Processor) → AllStraight p (lwpc i p)
unfolding lwpc
lwpc-AllStraight i p = load_register 4 _ (rs i) p (λ v. v)

pub sb-AllStraight : (i : ℕ) (p : Processor) → AllStraight p (sb i p)
unfolding sb
sb-AllStraight i p = mem_write-AllStraight 1 _ _ p

pub sh-AllStraight : (i : ℕ) (p : Processor) → AllStraight p (sh i p)
unfolding sh
sh-AllStraight i p =
    aligned_then 16 ExceptionType.ad_es (effective_address i p) p _
      (λ a. mem_write-AllStraight 2 a _ p)

pub sw-AllStraight : (i : ℕ) (p : Processor) → AllStraight p (sw i p)
unfolding sw
sw-AllStraight i p =
    aligned_then 32 ExceptionType.ad_es (effective_address i p) p _
      (λ a. mem_write-AllStraight 4 a _ p)

linked-Straight : (a : ℕ) (p : Processor) → Straight p (set_load_link p a)
unfolding set_load_link
linked-Straight a p = stays p

end_link :
    (p q : Processor) (r v : ℕ) → Straight p q → Straight p (set_load_link (set_register q r v) 0)
end_link p q r v f =
    let s = set_register q r v in
    then-Straight p s (set_load_link s 0) (write-Straight p q r v f) (linked-Straight 0 s)

store_conditional-AllStraight :
    (size address value r : ℕ) (p : Processor)
    → AllStraight p (store_conditional size address value r p)
unfolding store_conditional
store_conditional-AllStraight size address value r p =
    if_both (AllStraight p) (check_llsc p address)
      (bind-AllStraight p (mem_write size address value p)
        (λ q. done (set_load_link (set_register q r 1) 0))
        (mem_write-AllStraight size address value p) (λ q f. end_link p q r 1 f))
      (end_link p p r 0 (stays p))

pub ll-AllStraight : (i : ℕ) (p : Processor) → AllStraight p (ll i p)
unfolding ll
ll-AllStraight i p =
    let a = linked_address i p in
    let q = set_load_link p a in
    if_both (AllStraight p) (a % 4 == 0)
      (quiet_then p (mem_fetch 4 a q) (λ v. done (set_register q (rt i) v))
        (mem_fetch-IsQuiet 4 a p q (linked-Straight a p))
        (λ v. write-Straight p q (rt i) v (linked-Straight a p)))
      (stays p)

pub llwp-AllStraight : (i : ℕ) (p : Processor) → AllStraight p (llwp i p)
unfolding llwp
llwp-AllStraight i p =
    let a = rs_value i p in
    let q = set_load_link p a in
    if_both (AllStraight p) (a % 8 == 0)
      (quiet_then p (mem_fetch 8 a q)
        (λ v. done (set_register (set_register q (rt i) (u32 v)) (rd i) (v / 2 ^ 32)))
        (mem_fetch-IsQuiet 8 a p q (linked-Straight a p))
        (λ v.
          write-Straight p (set_register q (rt i) (u32 v)) (rd i) (v / 2 ^ 32)
            (write-Straight p q (rt i) (u32 v) (linked-Straight a p))))
      (stays p)

pub sc-AllStraight : (i : ℕ) (p : Processor) → AllStraight p (sc i p)
unfolding sc
sc-AllStraight i p =
    if_both (AllStraight p) (linked_address i p % 4 == 0)
      (store_conditional-AllStraight 4 _ _ (rt i) p) (stays p)

pub scwp-AllStraight : (i : ℕ) (p : Processor) → AllStraight p (scwp i p)
unfolding scwp
scwp-AllStraight i p =
    if_both (AllStraight p) (rs_value i p % 8 == 0) (store_conditional-AllStraight 8 _ _ (rt i) p)
      (stays p)

pub cache-AllStraight : (i : ℕ) (p : Processor) → AllStraight p (cache i p)
unfolding cache
cache-AllStraight i p = outcome (mem_poke 1 _ p)
  where
    outcome :
        (o : Outcome (Unit {0}))
        → AllStraight p
            (elim o [ done _ ↦ done p | thrown e q ↦ undefined | undefined ↦ undefined ])
    outcome (done _) = stays p
    outcome (thrown e q) = tt
    outcome undefined = tt
