-- ===== src/Tests/Linked.antt =====
-- LL, the stores and SC. The words are LL $3, 0($2) and SC $4, 0($2), and the same with 4($2);
-- register 2 is 32.
use vemips.Base.{ℕ, ◌+◌, ◌*◌, ◌%◌, ◌≡◌, ◌^◌, refl, arith, ◌==◌, if◌then◌else◌}
use vemips.Processor.Options.{Llsc, Mmu}
use vemips.Processor.{Processor, done, get_register, update, set_load_link, set_register}
use vemips.Processor.Registers.{HasWords}
use vemips.Memory.{mem_write, mem_fetch, zero_check_address, store_at}
use vemips.Memory.Access.{IsAccepted, IsWritable}
use vemips.Isa.Fields.{rt, rt_value, register_field, sextend}
use vemips.Isa.Linked.{ll, sc, linked_address}
use vemips.Isa.Linked.Atomic.{ll-then-sc, sc-after_store, sc-upper_half, sc-coarse}
use vemips.Tests.State.{start, start-HasWords, small_config}

abbrev ll_word : ℕ
ll_word = 2 * 2 ^ 21 + 3 * 2 ^ 16

abbrev sc_word : ℕ
sc_word = 2 * 2 ^ 21 + 4 * 2 ^ 16

abbrev sc_upper_word : ℕ
sc_upper_word = 2 * 2 ^ 21 + 4 * 2 ^ 16 + 4 * 2 ^ 7

-- After LL.
abbrev after_ll : Processor
after_ll = record start { load_link = 32; registers = update start.registers 3 0 }

after_ll-HasWords : HasWords after_ll
after_ll-HasWords r = ground (arith, start-HasWords r)

ll_runs : ll ll_word start ≡ done after_ll
unfolding ll mem_fetch linked_address get_register register_field sextend set_register
ll_runs = refl

ll_address : linked_address ll_word start ≡ 32
unfolding linked_address get_register register_field sextend
ll_address = refl

sc_address : linked_address sc_word after_ll ≡ 32
unfolding linked_address get_register register_field sextend
sc_address = refl

ll_readable : IsAccepted Mmu.none 4 (linked_address ll_word start) start
unfolding zero_check_address linked_address get_register register_field sextend
ll_readable = (refl, omega arith)

sc-IsWritable : IsWritable Mmu.none 4 (linked_address sc_word after_ll) after_ll
unfolding zero_check_address linked_address get_register register_field sextend
sc-IsWritable = (refl, omega arith)

ll-then-sc_example :
    (r : Processor) × (sc sc_word after_ll ≡ done r)
    × (r.load_link ≡ 0)
    × (get_register r (rt sc_word) ≡ (if rt sc_word == 0 then 0 else 1))
    × (mem_fetch 4 (linked_address sc_word after_ll) r ≡ done (rt_value sc_word after_ll))
ll-then-sc_example =
    ll-then-sc ll_word sc_word start after_ll ll_runs (ground (arith, ll_address))
      (ground (arith, ll_address, sc_address)) (ground (arith, ll_address)) after_ll-HasWords
      ll_readable sc-IsWritable

-- A store of another byte of the after_ll eight.
abbrev stored_over : Processor
stored_over = store_at 293 37 1 7 after_ll

store_runs : mem_write 1 37 7 after_ll ≡ done stored_over
unfolding mem_write
store_runs = refl

after_address : linked_address sc_word stored_over ≡ 32
unfolding linked_address store_at get_register register_field sextend
after_address = refl

sc-after_store_example :
    (r : Processor) × (sc sc_word stored_over ≡ done r)
    × (r.load_link ≡ 0)
    × (get_register r (rt sc_word) ≡ 0)
    × (r.memory ≡ stored_over.memory)
sc-after_store_example =
    sc-after_store sc_word 1 37 7 after_ll stored_over refl refl store_runs after_address
      (omega arith)

-- A link to the upper half, and a store to it.
abbrev upper : Processor
upper = set_load_link start 36

abbrev lost : Processor
lost = store_at 292 36 4 7 upper

lost_runs : mem_write 4 36 7 upper ≡ done lost
unfolding mem_write set_load_link
lost_runs = refl

lost_address : linked_address sc_upper_word lost ≡ upper.load_link
unfolding linked_address store_at set_load_link get_register register_field sextend
lost_address = refl

lost-HasWords : HasWords lost
unfolding store_at set_load_link
lost-HasWords r = start-HasWords r

upper_half : upper.load_link % 8 ≡ 4
unfolding set_load_link
upper_half = refl

lost-IsWritable : IsWritable lost.config.mmu_type 4 (linked_address sc_upper_word lost) lost
unfolding zero_check_address linked_address store_at set_load_link get_register register_field
    sextend
lost-IsWritable = (refl, omega arith)

upper_fine : upper.config.llsc_type ≡ Llsc.fine
unfolding set_load_link
upper_fine = refl

sc-upper_half_example :
    (r : Processor) × (sc sc_upper_word lost ≡ done r)
    × (r.load_link ≡ 0)
    × (get_register r (rt sc_upper_word) ≡ (if rt sc_upper_word == 0 then 0 else 1))
    × (mem_fetch 4 (linked_address sc_upper_word lost) r ≡ done (rt_value sc_upper_word lost))
sc-upper_half_example =
    sc-upper_half sc_upper_word 4 36 7 upper lost upper_fine upper_half lost_runs lost_address
      lost-HasWords lost-IsWritable

-- With the coarse check.
abbrev coarse : Processor
coarse = record after_ll { config = record small_config { llsc_type = Llsc.coarse } }

abbrev coarse_after : Processor
coarse_after = store_at 1256 1000 4 7 coarse

coarse_runs : mem_write 4 1000 7 coarse ≡ done coarse_after
unfolding mem_write
coarse_runs = refl

coarse_address : linked_address sc_word coarse_after % 4 ≡ 0
unfolding linked_address store_at get_register register_field sextend
coarse_address = refl

sc-coarse_example :
    (r : Processor) × (sc sc_word coarse_after ≡ done r)
    × (r.load_link ≡ 0)
    × (get_register r (rt sc_word) ≡ 0)
    × (r.memory ≡ coarse_after.memory)
sc-coarse_example = sc-coarse sc_word 4 1000 7 coarse coarse_after refl coarse_runs coarse_address
