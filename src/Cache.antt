-- ===== src/Cache.antt =====
-- The interpreter's instruction cache, `hash_cache<0x100, 16, 2>`
-- (src/mips/interpreter/cache/hash_cache.hpp): 16 buckets of two lines of 64 instructions.
pub mod Coherence
use vemips.Base.{ℕ, zero, suc, ◌+◌, ◌-◌, ◌*◌, ◌/◌, ◌%◌, ◌^◌, ◌==◌, if◌then◌else◌, Bool}
use vemips.Processor.{update}
use vemips.Isa.Op.{Op}

-- A decoded word, or what replaces it: `ri_index`, or `adel_index` with the unreadable address.
-- `wild` stands for whatever a read outside the host's buffers gives.
pub data Entry : Type 0 where
  valid : Op → ℕ → Entry
  reserved : Entry
  unreadable : ℕ → Entry
  wild : Entry

abbrev pub line_size_bytes : ℕ
line_size_bytes = 256

abbrev pub invalid_ptr : ℕ
invalid_ptr = 2 ^ 32 - 1

-- `data` is indexed below 64.
pub record Line : Type 0 where
  pub base_address : ℕ
  pub entries : ℕ → Entry

abbrev pub empty_line : Line
empty_line = record { base_address = invalid_ptr; entries = λ _. reserved }

pub record Bucket : Type 0 where
  pub line0 : Line
  pub line1 : Line
  pub write_offset : ℕ

abbrev pub empty_bucket : Bucket
empty_bucket = record { line0 = empty_line; line1 = empty_line; write_offset = 0 }

abbrev pub HashCache : Type 0
HashCache = ℕ → Bucket

abbrev pub empty_cache : HashCache
empty_cache _ = empty_bucket

unfoldable pub get_base_ptr : ℕ → ℕ
get_base_ptr ptr = ptr / line_size_bytes * line_size_bytes

unfoldable pub get_index_from_ptr : ℕ → ℕ
get_index_from_ptr ptr = ptr % line_size_bytes / 4

unfoldable pub get_bucket_index : ℕ → ℕ
get_bucket_index ptr = ptr / line_size_bytes % 16

unfoldable pub contains_static : ℕ → ℕ → Bool
contains_static base_ptr ptr = base_ptr == get_base_ptr ptr

-- `get` fetches and decodes the word at an address.
unfoldable pub populate_line : (ℕ → Entry) → ℕ → Line
populate_line get base = record { base_address = base; entries = λ k. get (base + 4 * k) }

-- The new bucket, and the line.
unfoldable pub fetch_line : (ℕ → Entry) → ℕ → Bucket → Bucket × Line
unfolding populate_line
fetch_line get ptr b =
    let base = get_base_ptr ptr in
    let line = populate_line get base in
    if b.line0.base_address == base
    then (b, b.line0)
    else if b.line1.base_address == base
    then (b, b.line1)
    else if b.write_offset == 0
    then (record b { line0 = line; write_offset = (b.write_offset + 1) % 2 }, line)
    else (record b { line1 = line; write_offset = (b.write_offset + 1) % 2 }, line)

unfoldable pub get_cache_line : (ℕ → Entry) → ℕ → HashCache → HashCache × Line
unfolding get_bucket_index
get_cache_line get ptr c =
    let (b, line) = fetch_line get ptr (c (get_bucket_index ptr)) in
    (update c (get_bucket_index ptr) b, line)

unfoldable pub get_entry : (ℕ → Entry) → ℕ → HashCache → HashCache × Entry
get_entry get ptr c =
    let (c', line) = get_cache_line get ptr c in (c', line.entries (get_index_from_ptr ptr))

unfoldable pub invalidate_bucket : ℕ → Bucket → Bucket
invalidate_bucket base_ptr b =
    if b.line0.base_address == base_ptr
    then record b { line0 = empty_line }
    else if b.line1.base_address == base_ptr
    then record b { line1 = empty_line }
    else b

-- `bucket_mask` is 15: the low four bits of the pointer are dropped, in every round.
invalidate_from : ℕ → ℕ → ℕ → HashCache → HashCache
unfolding invalidate_bucket
invalidate_from ptr zero i c = c
invalidate_from ptr (suc left) i c =
    let k = (get_bucket_index ptr + i) % 16 in
    invalidate_from ptr left (suc i) (update c k (invalidate_bucket (ptr / 16 * 16) (c k)))

unfoldable pub invalidate : ℕ → ℕ → HashCache → HashCache
unfolding invalidate_from get_bucket_index
invalidate ptr size c = invalidate_from ptr ((size + (line_size_bytes - 1)) / line_size_bytes) 0 c
