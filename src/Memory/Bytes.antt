-- ===== src/Memory/Bytes.antt =====
-- `read_bytes` and `write_bytes`: an access of several bytes.
use vemips.Base.{ℕ, zero, suc, ◌+◌, ◌*◌, ◌/◌, ◌%◌, ◌^◌, ◌≤◌, ◌<◌, ◌≡◌, ◌⊎◌, inl, refl, arith}
use native.Mathlib.Nat.{pow-suc}
use vemips.Processor.{update}
use vemips.Memory.{read_bytes, write_bytes}

-- A write changes no byte outside its range.
pub write_bytes-outside :
    (n : ℕ) (m : ℕ → ℕ) (a v j : ℕ) → (j < a) ⊎ (a + n ≤ j) → write_bytes m a n v j ≡ m j
unfolding write_bytes
write_bytes-outside zero m a v j out = refl
write_bytes-outside (suc n) m a v j out =
    ground (arith, write_bytes-outside n (update m a (v % 256)) (suc a) (v / 256) j)

-- A read depends on its range alone.
pub read_bytes-congr :
    (n : ℕ) (m k : ℕ → ℕ) (a : ℕ)
    → ((j : ℕ) → a ≤ j → j < a + n → m j ≡ k j)
    → read_bytes m a n ≡ read_bytes k a n
unfolding read_bytes
read_bytes-congr zero m k a same = refl
read_bytes-congr (suc n) m k a same = omega (
  arith,
  same a (omega arith) (omega arith),
  read_bytes-congr n m k (suc a) (λ j p q. same j (omega arith) (omega arith)),
)

-- A write and a read that have no byte in common.
pub read_bytes-write_bytes_apart :
    (n l a b v : ℕ) (m : ℕ → ℕ)
    → (b + l ≤ a) ⊎ (a + n ≤ b)
    → read_bytes (write_bytes m a n v) b l ≡ read_bytes m b l
read_bytes-write_bytes_apart n l a b v m apart =
    read_bytes-congr l (write_bytes m a n v) m b
      (λ j p q. write_bytes-outside n m a v j (ground arith))

-- Reading back a write of the same size.
pub read_bytes-write_bytes :
    (n : ℕ) (m : ℕ → ℕ) (a v : ℕ) → v < 256 ^ n → read_bytes (write_bytes m a n v) a n ≡ v
unfolding read_bytes write_bytes
read_bytes-write_bytes zero m a v fits = omega arith
read_bytes-write_bytes (suc n) m a v fits =
    let e : 256 ^ suc n ≡ 256 ^ n * 256 = pow-suc 256 n in
    let k = update m a (v % 256) in
    let here : write_bytes k (suc a) n (v / 256) a ≡ k a =
      write_bytes-outside n k (suc a) (v / 256) a (inl (omega arith)) in
    let there = read_bytes-write_bytes n k (suc a) (v / 256) (omega arith) in
    ground (arith, here, there)

-- A read of bytes is below the size of its type.
pub read_bytes-lt : (n : ℕ) (m : ℕ → ℕ) (a : ℕ) → ((j : ℕ) → m j < 256) → read_bytes m a n < 256 ^ n
unfolding read_bytes
read_bytes-lt zero m a bytes = omega arith
read_bytes-lt (suc n) m a bytes =
    omega (arith, pow-suc 256 n, bytes a, read_bytes-lt n m (suc a) bytes)

pub write_bytes-byte :
    (n : ℕ) (m : ℕ → ℕ) (a v : ℕ) → ((j : ℕ) → m j < 256) → (j : ℕ) → write_bytes m a n v j < 256
unfolding write_bytes
write_bytes-byte zero m a v bytes j = bytes j
write_bytes-byte (suc n) m a v bytes j =
    write_bytes-byte n (update m a (v % 256)) (suc a) (v / 256) (λ k. ground (arith, bytes k)) j
