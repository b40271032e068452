-- ===== src/Tests/Coprocessor1.antt =====
-- The coprocessor's moves. The words name rt and rd as they say.
use vemips.Base.{ℕ, ◌+◌, ◌*◌, ◌^◌, ◌≡◌, true, refl, arith}
use vemips.Processor.{set_register, update, get_register}
use vemips.Processor.Registers.{HasWords}
use vemips.Isa.Fields.{rd, rt, rt_value, register_field}
use vemips.Coprocessor1.{Machine, ran, of_word, get_long, clocked}
use vemips.Coprocessor1.Control.{ctc1, cfc1}
use vemips.Coprocessor1.Move.{mtc1, mthc1, mfc1, mfhc1}
use vemips.Coprocessor1.Laws.{◌>>◌, without_cause, settled, ctc1-cfc1, halves_move}
use vemips.Tests.State.{start, start-HasWords}

abbrev fields : ℕ → ℕ → ℕ
fields t d = t * 2 ^ 16 + d * 2 ^ 11

-- Flags and causes are set in register 3, and nothing is enabled.
abbrev before : Machine
before = record {
  processor = record start { registers = update start.registers 3 0x1f07c };
  coprocessor = record { needs_clock = true; fcsr = of_word 0; registers = λ r. r };
}

before-HasWords : HasWords before.processor
before-HasWords r = ground (arith, start-HasWords r)

abbrev written : Machine
written = record before { coprocessor = record before.coprocessor { fcsr = of_word 0x1f07c } }

written_lem : ctc1 (fields 3 31) before ≡ ran written
unfolding ctc1 register_field get_register
written_lem = refl

ctc1-cfc1_example :
    (k : Machine) × (cfc1 (fields 5 31) (clocked written) ≡ ran k)
    × (k.processor
        ≡ set_register before.processor
            (rt (fields 5 31))
            (without_cause (settled before.coprocessor (rt_value (fields 3 31) before.processor))))
unfolding register_field
ctc1-cfc1_example = ctc1-cfc1 (fields 3 31) (fields 5 31) before written refl refl written_lem

-- The machine of the example reads flags, and the two bits that the clock sets.
reads_flags : without_cause (settled before.coprocessor 0x1f07c) ≡ 0xC007C
reads_flags = refl

halves_move_example :
    (n : Machine) × (mtc1 (fields 3 7) before
        >> mthc1 (fields 4 7)
        >> mfc1 (fields 5 7)
        >> mfhc1 (fields 6 7)
      ≡ ran n)
    × (get_long n.coprocessor (rd (fields 3 7))
        ≡ rt_value (fields 4 7) before.processor * 2 ^ 32 + rt_value (fields 3 7) before.processor)
    × (n.processor
        ≡ set_register
            (set_register before.processor
              (rt (fields 5 7))
              (rt_value (fields 3 7) before.processor))
            (rt (fields 6 7))
            (rt_value (fields 4 7) before.processor))
    × ((k : ℕ)
        → ¬ (k ≡ rd (fields 3 7))
        → n.coprocessor.registers k ≡ before.coprocessor.registers k)
unfolding register_field
halves_move_example =
    halves_move (fields 3 7) (fields 4 7) (fields 5 7) (fields 6 7) before before-HasWords refl refl
      refl
