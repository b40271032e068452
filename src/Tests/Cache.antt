-- ===== src/Tests/Cache.antt =====
-- The instruction cache (src/mips/interpreter/cache/hash_cache.hpp) on a memory of ADDU.
use vemips.Base.{ℕ, ◌≡◌, arith}
use vemips.Isa.Op.{Op}
use vemips.Cache.{Entry, HashCache, empty_cache, get_entry, invalidate}
use vemips.Cache.Coherence.{
  IsCoherent, empty_cache-IsCoherent, get_entry-IsCoherent, invalidate-missed,
}

-- Each word is an ADDU that is known by its address.
abbrev words : ℕ → Entry
words a = Entry.valid Op.addu a

get_entry-IsCoherent_example :
    ((get_entry words 0x1234 empty_cache).1 ≡ Entry.valid Op.addu 0x1234)
    × IsCoherent words (get_entry words 0x1234 empty_cache).0
get_entry-IsCoherent_example =
    get_entry-IsCoherent words 0x1234 empty_cache (omega arith) (omega arith)
      (empty_cache-IsCoherent words)

-- The cache with the line of 0x1200.
abbrev filled : HashCache
filled = (get_entry words 0x1234 empty_cache).0

filled-IsCoherent : IsCoherent words filled
filled-IsCoherent =
    (get_entry-IsCoherent words 0x1234 empty_cache (omega arith) (omega arith)
      (empty_cache-IsCoherent words)).1

invalidate-missed_example : invalidate 0x1234 256 filled ≡ filled
invalidate-missed_example =
    invalidate-missed words 0x1234 256 filled (omega arith) filled-IsCoherent
