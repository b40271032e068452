-- ===== src/Tests/Run.antt =====
-- Sound states and runs. The decoder knows ADDU alone, so that the zero words of the empty memory are
-- reserved.
use vemips.Base.{ℕ, ◌+◌, ◌*◌, ◌^◌, ◌≡◌, arith, some, none, ◌==◌, if◌then◌else◌}
use vemips.Isa.Op.{Op}
use vemips.Isa.Sound.{IsSound, stay}
use vemips.Isa.Sound.System.{IsOrderly}
use vemips.Cache.{empty_cache, empty_line}
use vemips.Executor.{Decoder, Machine, Stepped, execute_ticked}
use vemips.Executor.Run.{IsFinished, execute_ticked-finishes}
use vemips.Tests.State.{start, start-HasWords, refuse}

start-IsSound : IsSound start
start-IsSound = (
  start-HasWords,
  λ j. omega arith,
  omega arith,
  omega arith,
  omega arith,
  omega arith,
  λ m a n v b. b,
)

refuse-IsOrderly : IsOrderly refuse
refuse-IsOrderly e p s = stay p s

abbrev addu_word : ℕ
addu_word = 2 * 2 ^ 21 + 3 * 2 ^ 16 + 4 * 2 ^ 11 + 33

abbrev only_addu : Decoder
only_addu i = if i == addu_word then some Op.addu else none

abbrev machine : Machine
machine = record { processor = start; cache = empty_cache; line = empty_line }

execute_ticked-finishes_example :
    (r : Stepped) × (execute_ticked refuse only_addu 5 machine ≡ some r) × IsFinished 5 r
execute_ticked-finishes_example =
    execute_ticked-finishes refuse only_addu 5 machine refuse-IsOrderly start-IsSound (omega arith)
