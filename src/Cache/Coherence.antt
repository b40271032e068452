-- ===== src/Cache/Coherence.antt =====
-- What the cache's lines hold, against fetching and decoding each word anew.
use vemips.Base.{
  ℕ, zero, suc, ◌+◌, ◌*◌, ◌/◌, ◌%◌, ◌^◌, ◌≤◌, ◌<◌, ◌≡◌, ◌⊎◌, inl, inr, refl, ap, ◌∙◌, arith,
  if_both, ◌==◌,
}
use mathlib.Core.Path.{fun_ext}
use vemips.Processor.{update}
use vemips.Cache.{
  Entry, Line, Bucket, HashCache, empty_cache, invalid_ptr, get_base_ptr, get_index_from_ptr,
  get_bucket_index, populate_line, fetch_line, get_cache_line, get_entry, invalidate_bucket,
  invalidate_from, invalidate,
}

-- A line is unused, or holds what `get` gives for its 256 bytes.
abbrev pub IsFresh : (ℕ → Entry) → Line → Type 0
IsFresh get line =
    (line.base_address ≡ invalid_ptr)
    ⊎ ((line.base_address % 256 ≡ 0) × ((k : ℕ) → line.entries k ≡ get (line.base_address + 4 * k)))

pub record IsFreshBucket (get : ℕ → Entry) (b : Bucket) : Type 0 where
  pub fresh0 : IsFresh get b.line0
  pub fresh1 : IsFresh get b.line1

abbrev pub IsCoherent : (ℕ → Entry) → HashCache → Type 0
IsCoherent get c = (k : ℕ) → IsFreshBucket get (c k)

pub empty_cache-IsCoherent : (get : ℕ → Entry) → IsCoherent get empty_cache
empty_cache-IsCoherent get k = record { fresh0 = inl refl; fresh1 = inl refl }

populate_line-IsFresh :
    (get : ℕ → Entry) (ptr : ℕ) → IsFresh get (populate_line get (get_base_ptr ptr))
unfolding populate_line get_base_ptr
populate_line-IsFresh get ptr = inr (omega arith, λ k. refl)

-- A fresh line for the base of `ptr` has the entry of `ptr`.
entry-IsFresh :
    (get : ℕ → Entry) (ptr : ℕ) (line : Line)
    → ptr % 4 ≡ 0
    → ptr < 2 ^ 32
    → line.base_address ≡ get_base_ptr ptr
    → IsFresh get line
    → line.entries (get_index_from_ptr ptr) ≡ get ptr
unfolding get_base_ptr get_index_from_ptr
entry-IsFresh get ptr line aligned word e (inl unused) = absurd (omega arith)
entry-IsFresh get ptr line aligned word e (inr (base, fresh)) =
    fresh (ptr % 256 / 4) ∙ ap get (omega arith)

fetch_line-base :
    (get : ℕ → Entry) (ptr : ℕ) (b : Bucket)
    → (fetch_line get ptr b).1.base_address ≡ get_base_ptr ptr
unfolding fetch_line populate_line
fetch_line-base get ptr b = ground arith

-- A bucket and its line, as `fetch_line` gives them.
abbrev AreFresh : (ℕ → Entry) → Bucket × Line → Type 0
AreFresh get r = IsFreshBucket get r.0 × IsFresh get r.1

fetch_line-AreFresh :
    (get : ℕ → Entry) (ptr : ℕ) (b : Bucket)
    → IsFreshBucket get b
    → AreFresh get (fetch_line get ptr b)
unfolding fetch_line
fetch_line-AreFresh get ptr b f =
    let base = get_base_ptr ptr in
    let new = populate_line-IsFresh get ptr in
    if_both (AreFresh get) (b.line0.base_address == base) (f, f.fresh0)
      (if_both (AreFresh get) (b.line1.base_address == base) (f, f.fresh1)
        (if_both (AreFresh get) (b.write_offset == 0)
          (record { fresh0 = new; fresh1 = f.fresh1 }, new)
          (record { fresh0 = f.fresh0; fresh1 = new }, new)))

-- A lookup gives the entry that fetching and decoding the word at the address would give now, and
-- the cache stays coherent with memory: hit, miss and eviction alike.
pub get_entry-IsCoherent :
    (get : ℕ → Entry) (ptr : ℕ) (c : HashCache)
    → ptr % 4 ≡ 0
    → ptr < 2 ^ 32
    → IsCoherent get c
    → ((get_entry get ptr c).1 ≡ get ptr) × IsCoherent get (get_entry get ptr c).0
unfolding get_entry get_cache_line
get_entry-IsCoherent get ptr c aligned word f =
    let n = get_bucket_index ptr in
    let both = fetch_line-AreFresh get ptr (c n) (f n) in
    (
      entry-IsFresh get ptr (fetch_line get ptr (c n)).1 aligned word
          (fetch_line-base get ptr (c n)) both.1,
      λ k. if_both (IsFreshBucket get) (n == k) both.0 (f k),
    )

-- `invalidate` looks for a line at the pointer less its low four bits.
invalidate_bucket-missed :
    (get : ℕ → Entry) (ptr : ℕ) (b : Bucket)
    → 16 ≤ ptr % 256
    → IsFreshBucket get b
    → invalidate_bucket (ptr / 16 * 16) b ≡ b
unfolding invalidate_bucket
invalidate_bucket-missed get ptr b low f = ground (arith, f.fresh0, f.fresh1)

update_self : (c : HashCache) (k : ℕ) → update c k (c k) ≡ c
update_self c k = fun_ext λ j. ground (arith, ap c {x = k} {y = j})

invalidate_from-missed :
    (get : ℕ → Entry) (ptr left i : ℕ) (c : HashCache)
    → 16 ≤ ptr % 256
    → IsCoherent get c
    → invalidate_from ptr left i c ≡ c
unfolding invalidate_from
invalidate_from-missed get ptr zero i c low f = refl
invalidate_from-missed get ptr (suc left) i c low f =
    let k = (get_bucket_index ptr + i) % 16 in
    rw (invalidate_bucket-missed get ptr (c k) low (f k), update_self c k)
      (invalidate_from-missed get ptr left (suc i) c low f)

-- Unless the pointer is in the first 16 bytes of its line, `invalidate` leaves every line as it
-- was, whatever the size of the range.
pub invalidate-missed :
    (get : ℕ → Entry) (ptr size : ℕ) (c : HashCache)
    → 16 ≤ ptr % 256
    → IsCoherent get c
    → invalidate ptr size c ≡ c
unfolding invalidate
invalidate-missed get ptr size c low f =
    invalidate_from-missed get ptr ((size + 255) / 256) 0 c low f
