-- ===== src/Isa/Sound/System.antt =====
-- LL, SC, LLWP, SCWP and SYSCALL (processor_inst.cpp) on sound states.
use vemips.Base.{ℕ, ◌+◌, ◌*◌, ◌/◌, ◌%◌, ◌^◌, ◌<◌, ◌≡◌, refl, arith, if_both, ◌==◌, u32, sym, subst}
use vemips.Processor.Options.{Exception, cpu_exception, execution_complete, execution_fail}
use vemips.Processor.{
  Processor, Outcome, done, thrown, undefined, ◌>>=◌, set_register, set_load_link,
}
use vemips.Processor.Registers.{get_register-lt}
use vemips.Memory.{mem_fetch, mem_write}
use vemips.Isa.Fields.{rs, rt, rd, rs_value, rt_value, rd_value}
use vemips.Isa.Linked.{ll, llwp, sc, scwp, linked_address, store_conditional, check_llsc}
use vemips.Isa.Trap.{Handler, syscall, end_of_syscall}
use vemips.Isa.Sound.{
  IsSound, AllFollow, Follows, stay, then-Follows, all_then, bind-AllFollow, set_register-Follows,
  set_load_link-Follows,
}
use vemips.Isa.Sound.Fetch.{IsLoad, mem_fetch-IsLoad}
use vemips.Isa.Sound.Store.{mem_write-AllFollow}
use vemips.Isa.Sound.Access.{load_then}

-- The fetch of LL and LLWP starts from the state with the link.
linked_load :
    (n size address : ℕ) (p : Processor) (k : ℕ → Outcome Processor)
    → n ≡ 256 ^ size
    → IsSound p
    → address < 2 ^ 32
    → ((v : ℕ) → v < n → AllFollow (set_load_link p address) (k v))
    → AllFollow p (mem_fetch size address (set_load_link p address) >>= k)
linked_load n size address p k e s fits rest =
    let q = set_load_link p address in
    let f = set_load_link-Follows p address s fits in
    all_then p q (mem_fetch size address q >>= k) f (
      load_then n q (mem_fetch size address q) k f.0
        (subst (λ t. IsLoad t q (mem_fetch size address q)) (sym e)
          (mem_fetch-IsLoad size address q f.0))
        rest)

linked_address-lt : (i : ℕ) (p : Processor) → linked_address i p < 2 ^ 32
unfolding linked_address
linked_address-lt i p = omega arith

pub ll-AllFollow : (i : ℕ) (p : Processor) → IsSound p → AllFollow p (ll i p)
unfolding ll
ll-AllFollow i p s =
    let a = linked_address i p in
    let f = set_load_link-Follows p a s (linked_address-lt i p) in
    if_both (AllFollow p) (a % 4 == 0)
      (linked_load (256 ^ 4) 4 a p _ refl s (linked_address-lt i p)
        (λ v b. set_register-Follows (set_load_link p a) (rt i) v f.0 (omega arith)))
      (stay p s)

pub llwp-AllFollow : (i : ℕ) (p : Processor) → IsSound p → AllFollow p (llwp i p)
unfolding llwp
llwp-AllFollow i p s =
    let a = rs_value i p in
    let fits = get_register-lt p (rs i) s.0 in
    let f = set_load_link-Follows p a s fits in
    let q = set_load_link p a in
    if_both (AllFollow p) (a % 8 == 0)
      (linked_load (256 ^ 8) 8 a p _ refl s fits (λ v b.
        let g = set_register-Follows q (rt i) (u32 v) f.0 (omega arith) in
        let r = set_register q (rt i) (u32 v) in
        then-Follows q r (set_register r (rd i) (v / 2 ^ 32)) g
          (set_register-Follows r (rd i) (v / 2 ^ 32) g.0 (omega arith))))
      (stay p s)

end_link :
    (p : Processor) (r v : ℕ)
    → IsSound p
    → v < 2 ^ 32
    → Follows p (set_load_link (set_register p r v) 0)
end_link p r v s fits =
    let f = set_register-Follows p r v s fits in
    then-Follows p (set_register p r v) (set_load_link (set_register p r v) 0) f
      (set_load_link-Follows (set_register p r v) 0 f.0 (omega arith))

store_conditional-AllFollow :
    (size address value r : ℕ) (p : Processor)
    → IsSound p
    → AllFollow p (store_conditional size address value r p)
unfolding store_conditional
store_conditional-AllFollow size address value r p s =
    if_both (AllFollow p) (check_llsc p address)
      (bind-AllFollow p (mem_write size address value p) _
        (mem_write-AllFollow size address value p s) (λ q t. end_link q r 1 t (omega arith)))
      (end_link p r 0 s (omega arith))

pub sc-AllFollow : (i : ℕ) (p : Processor) → IsSound p → AllFollow p (sc i p)
unfolding sc
sc-AllFollow i p s =
    if_both (AllFollow p) (linked_address i p % 4 == 0)
      (store_conditional-AllFollow 4 (linked_address i p) (rt_value i p) (rt i) p s) (stay p s)

pub scwp-AllFollow : (i : ℕ) (p : Processor) → IsSound p → AllFollow p (scwp i p)
unfolding scwp
scwp-AllFollow i p s =
    if_both (AllFollow p) (rs_value i p % 8 == 0)
      (store_conditional-AllFollow 8 (rs_value i p) (rt_value i p + rd_value i p * 2 ^ 32) (rt i) p
        s)
      (stay p s)

-- What a system's handler of exceptions does with a sound state: it leaves a sound state of the same
-- run, and gives a word.
abbrev pub IsHandled : Processor → Outcome (ℕ × Processor) → Type 0
IsHandled p (done (v, q)) = Follows p q × (v < 2 ^ 32)
IsHandled p (thrown e q) = Follows p q
IsHandled p undefined = Unit {0}

abbrev pub IsOrderly : Handler → Type 0
IsOrderly h = (e : Exception) (p : Processor) → IsSound p → IsHandled p (h e p)

end_of_syscall-Follows :
    (e : Exception) (p : Processor) → IsSound p → Follows p (end_of_syscall e p)
unfolding end_of_syscall
end_of_syscall-Follows (cpu_exception type address code) p s = stay p s
end_of_syscall-Follows (execution_complete code) p s = set_register-Follows p 4 1 s (omega arith)
end_of_syscall-Follows execution_fail p s = set_register-Follows p 4 1 s (omega arith)

syscall_result :
    (p : Processor) (o : Outcome (ℕ × Processor))
    → IsHandled p o
    → AllFollow p (elim o [
      | done (result, q) ↦ done (set_register q 4 result)
      | thrown e q ↦ thrown e (end_of_syscall e q)
      | undefined ↦ undefined
    ])
syscall_result p (done (v, q)) f =
    then-Follows p q (set_register q 4 v) f.0 (set_register-Follows q 4 v f.0.0 f.1)
syscall_result p (thrown e q) f =
    then-Follows p q (end_of_syscall e q) f (end_of_syscall-Follows e q f.0)
syscall_result p undefined f = tt

pub syscall-AllFollow :
    (h : Handler) (i : ℕ) (p : Processor) → IsOrderly h → IsSound p → AllFollow p (syscall h i p)
unfolding syscall
syscall-AllFollow h i p orderly s = syscall_result p _ (orderly _ p s)
