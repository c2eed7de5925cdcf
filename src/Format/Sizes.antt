-- ===== src/Format/Sizes.antt =====
-- The capacity of a bucket against the size of its block.
use nu_db.Prelude.{ℕ, ◌+◌, ◌^◌, ◌≤◌, ◌<◌, ◌≡◌, ◌↔◌, arith}
use nu_db.Endian.{Endian, bytes_up, object_bytes-to_little_endian}
use nu_db.Format.{Hasher, key_header_size, make_hash, pepper, bucket_size, bucket_capacity}

-- For a block size in 64 bits, a capacity c that is not zero is the largest number of entries that fit in a block, and it is
-- zero exactly for a block smaller than the header of a key file.
pub bucket_capacity-greatest :
    (block_size : ℕ)
    → block_size < 2 ^ 64
    → let c = bucket_capacity block_size in
      ((c ≡ 0) ↔ (block_size < key_header_size))
      × (0 < c → bucket_size c ≤ block_size)
      × (0 < c → block_size < bucket_size (c + 1))
unfolding bucket_capacity bucket_size
bucket_capacity-greatest block_size h = ((ground arith, ground arith), ground arith, ground arith)

-- A hash that is stored fits the 48 bits of its field.
pub make_hash-lt : (h : ℕ) → make_hash h < 2 ^ 48
unfolding make_hash
make_hash-lt h = omega arith

-- The pepper does not depend on the byte order of the machine: it is the digest of the salt's
-- bytes from the lowest up.
pub pepper-endian :
    (e : Endian) (hasher : Hasher) (salt : ℕ) → pepper e hasher salt ≡ hasher salt (bytes_up salt)
unfolding pepper
pepper-endian e hasher salt = rw (object_bytes-to_little_endian e salt)
