-- ===== src/Processor/Registers.antt =====
-- The laws of `get_register` and `set_register` (src/mips/processor/processor.hpp).
use vemips.Base.{ℕ, ◌^◌, ◌<◌, arith}
use vemips.Processor.{Processor, get_register, set_register}

-- Every register holds a word.
abbrev pub HasWords : Processor → Type 0
HasWords p = (r : ℕ) → p.registers r < 2 ^ 32

pub get_register-lt : (p : Processor) (r : ℕ) → HasWords p → get_register p r < 2 ^ 32
unfolding get_register
get_register-lt p r w = ground (arith, w r)

pub set_register-HasWords :
    (p : Processor) (r v : ℕ) → HasWords p → v < 2 ^ 32 → HasWords (set_register p r v)
unfolding set_register
set_register-HasWords p r v w fits k = ground (arith, w k)
