-- ===== src/Memory/Source.antt =====
-- `sys_memory_source` (src/mips/system.cpp) and the scans of `memory_source`
-- (src/mips/memory_source.cpp). A pointer is its offset into `m_Memory`, and `none` is `nullptr`.
use vemips.Base.{
  ℕ, zero, suc, ◌+◌, ltb, leb, ◌==◌, if◌then◌else◌, Bool, true, false, not, ◌&&◌, ◌||◌, add32,
  Option, none, some, List, [], ◌∷◌,
}
use vemips.Processor.Options.{MemorySource}

abbrev pub is_some : Option ℕ → Bool
is_some none = false
is_some (some _) = true

-- Sizes are added as 64-bit numbers, so nothing wraps.
unfoldable pub at_impl : ℕ → ℕ → ℕ → ℕ → Option ℕ
at_impl memory memory_size offset size =
    if ltb memory_size (offset + size) then none else some (memory + offset)

unfoldable pub at : MemorySource → ℕ → ℕ → Option ℕ
unfolding at_impl
at m offset size = at_impl 0 m.size offset size

-- The shadow copy stands behind the memory, whether or not there is one.
unfoldable pub at_instruction : MemorySource → ℕ → ℕ → Option ℕ
unfolding at_impl
at_instruction m offset size = at_impl m.size m.size offset size

-- Does a block `(first, second)` hold all of `[offset, end)`?
unfoldable pub in_block : List (ℕ × ℕ) → ℕ → ℕ → Bool
in_block [] offset end = false
in_block ((first, second) ∷ blocks) offset end =
    leb first offset && leb end second || in_block blocks offset end

abbrev is_empty : List (ℕ × ℕ) → Bool
is_empty [] = true
is_empty (_ ∷ _) = false

unfoldable pub at_exec : MemorySource → ℕ → ℕ → Option ℕ
unfolding in_block
at_exec m offset size =
    if ltb m.size (offset + size)
    then none
    else if is_empty m.executable_blocks || in_block m.executable_blocks offset (offset + size)
    then some (m.size + offset)
    else none

unfoldable pub write_at : MemorySource → ℕ → ℕ → Option ℕ
unfolding in_block
write_at m offset size =
    if ltb m.size (offset + size)
    then none
    else if in_block m.executable_blocks offset (offset + size)
    then none
    else some offset

unfoldable pub is_readable : MemorySource → ℕ → Bool
unfolding at
is_readable m offset = is_some (at m offset 1)

-- `offset + 1` is a 32-bit sum here.
unfoldable pub is_writable : MemorySource → ℕ → Bool
unfolding at in_block
is_writable m offset =
    if is_some (at m offset 1)
    then not (in_block m.executable_blocks offset (add32 offset 1))
    else false

-- The first of `left` addresses from `offset + i` on that is 0 or fails the test.
unfoldable pub first_failing : (ℕ → Bool) → ℕ → ℕ → ℕ → Option ℕ
first_failing passes offset zero i = none
first_failing passes offset (suc left) i =
    let rest = first_failing passes offset left (suc i) in
    let address = add32 offset i in
    if address == 0 || not (passes address) then some address else rest

unfoldable pub get_first_unreadable : MemorySource → ℕ → ℕ → Option ℕ
unfolding first_failing is_readable
get_first_unreadable m offset size = first_failing (is_readable m) offset size 0

unfoldable pub get_first_unwritable : MemorySource → ℕ → ℕ → Option ℕ
unfolding first_failing is_writable
get_first_unwritable m offset size = first_failing (is_writable m) offset size 0
