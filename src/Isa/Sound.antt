-- ===== src/Isa/Sound.antt =====
-- What every instruction keeps: words in the registers, bytes in the memory, and the members that
-- belong to the run. The child modules go through the instructions file by file.
pub mod Alu
pub mod MulDiv
pub mod Control
pub mod Compact
pub mod Fetch
pub mod Store
pub mod Access
pub mod System
pub mod All
use vemips.Base.{ℕ, ◌^◌, ◌<◌, ◌≡◌, refl, ◌∙◌, arith, if_both, ◌==◌}
use vemips.Processor.Options.{Exception, ExceptionType, cpu_exception}
use vemips.Processor.{
  Processor, Outcome, done, thrown, undefined, ◌>>=◌, set_register, set_link, delay_branch,
  compact_branch, set_program_counter_flagged, set_no_cti, set_load_link, throw_helper, update,
}
use vemips.Processor.Registers.{HasWords, set_register-HasWords}

-- Words in the registers and the other members, bytes in the memory; and the host's copy puts bytes
-- in the memory.
abbrev pub HasBytes : (ℕ → ℕ) → Type 0
HasBytes m = (j : ℕ) → m j < 256

abbrev pub IsSound : Processor → Type 0
IsSound p =
    HasWords p
    × HasBytes p.memory
    × (p.program_counter < 2 ^ 32)
    × (p.branch_target < 2 ^ 32)
    × (p.load_link < 2 ^ 32)
    × (p.user_value < 2 ^ 32)
    × ((m : ℕ → ℕ) (a n v : ℕ) → HasBytes m → HasBytes (p.config.host_mmu.write m a n v))

-- A sound state of the same run.
abbrev pub Follows : Processor → Processor → Type 0
Follows p q =
    IsSound q
    × (q.config ≡ p.config)
    × (q.instruction_count ≡ p.instruction_count)
    × (q.target_instructions ≡ p.target_instructions)

-- The states that an outcome holds.
abbrev pub AllFollow : Processor → Outcome Processor → Type 0
AllFollow p (done q) = Follows p q
AllFollow p (thrown e q) = Follows p q
AllFollow p undefined = Unit {0}

pub stay : (p : Processor) → IsSound p → Follows p p
stay p s = (s, refl, refl, refl)

pub then-Follows : (p q r : Processor) → Follows p q → Follows q r → Follows p r
then-Follows p q r f g = (g.0, g.1 ∙ f.1, g.2 ∙ f.2, g.3 ∙ f.3)

pub all_then :
    (p q : Processor) (o : Outcome Processor) → Follows p q → AllFollow q o → AllFollow p o
all_then p q (done r) f g = then-Follows p q r f g
all_then p q (thrown e r) f g = then-Follows p q r f g
all_then p q undefined f g = tt

pub bind-AllFollow :
    (p : Processor) (o : Outcome Processor) (k : Processor → Outcome Processor)
    → AllFollow p o
    → ((q : Processor) → IsSound q → AllFollow q (k q))
    → AllFollow p (o >>= k)
bind-AllFollow p (done q) k f g = all_then p q (k q) f (g q f.0)
bind-AllFollow p (thrown e q) k f g = f
bind-AllFollow p undefined k f g = tt

pub set_register-Follows :
    (p : Processor) (r v : ℕ) → IsSound p → v < 2 ^ 32 → Follows p (set_register p r v)
unfolding set_register
set_register-Follows p r v s fits =
    if_both (Follows p) (r == 0) (stay p s)
      ((λ k. ground (arith, s.0 k), s.1, s.2, s.3, s.4, s.5, s.6), refl, refl, refl)

pub set_link-Follows : (p : Processor) (v : ℕ) → IsSound p → v < 2 ^ 32 → Follows p (set_link p v)
unfolding set_link
set_link-Follows p v s fits =
    ((λ k. ground (arith, s.0 k), s.1, s.2, s.3, s.4, s.5, s.6), refl, refl, refl)

pub delay_branch-Follows :
    (p : Processor) (v : ℕ) → IsSound p → v < 2 ^ 32 → Follows p (delay_branch p v)
unfolding delay_branch
delay_branch-Follows p v s fits = ((s.0, s.1, s.2, fits, s.4, s.5, s.6), refl, refl, refl)

pub compact_branch-Follows :
    (p : Processor) (v : ℕ) → IsSound p → v < 2 ^ 32 → Follows p (compact_branch p v)
unfolding compact_branch
compact_branch-Follows p v s fits = ((s.0, s.1, fits, s.3, s.4, s.5, s.6), refl, refl, refl)

pub set_no_cti-Follows : (p : Processor) → IsSound p → Follows p (set_no_cti p)
unfolding set_no_cti
set_no_cti-Follows p s = (s, refl, refl, refl)

pub set_load_link-Follows :
    (p : Processor) (v : ℕ) → IsSound p → v < 2 ^ 32 → Follows p (set_load_link p v)
unfolding set_load_link
set_load_link-Follows p v s fits = ((s.0, s.1, s.2, s.3, fits, s.5, s.6), refl, refl, refl)
