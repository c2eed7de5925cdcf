-- ===== src/Format.antt =====
-- detail/format.hpp: sizes, hashes and the arithmetic of the key file. Sizes and capacities are
-- small numbers of bytes and do not wrap in 64 bits.
pub mod Sizes
pub mod Bits
pub mod CeilPow2
pub mod Headers
pub mod RoundTrip
pub mod Verify
use nu_db.Prelude.{
  ℕ, ◌+◌, ◌-◌, ◌*◌, ◌/◌, ◌%◌, ◌^◌, min, bit_and, List, [], ◌∷◌, ◌||◌, ltb, ◌==◌, if◌then◌else◌,
}
use nu_db.Field.{u16, u48, size}
use nu_db.Field
use nu_db.Endian.{Endian, to_little_endian, object_bytes}

-- The template argument `Hasher`, a class outside the library: a seed, and the bytes to digest.
abbrev pub Hasher : Type 0
Hasher = ℕ → List ℕ → ℕ

abbrev pub current_version : ℕ
current_version = 2

-- `dat_file_header::size`, `key_file_header::size`, `log_file_header::size`
abbrev pub dat_header_size : ℕ
dat_header_size = 8 + 2 + 8 + 8 + 2 + 64

abbrev pub key_header_size : ℕ
key_header_size = 8 + 2 + 8 + 8 + 2 + 8 + 8 + 2 + 2 + 56

abbrev pub log_header_size : ℕ
log_header_size = 8 + 2 + 8 + 8 + 2 + 8 + 8 + 2 + 8 + 8

-- `make_hash<uint48_t>`
unfoldable pub make_hash : ℕ → ℕ
make_hash h = h / 2 ^ 16 % 2 ^ 48

-- `hash(key, key_size, salt)`
unfoldable pub hash : Hasher → List ℕ → ℕ → ℕ
unfolding make_hash
hash hasher key salt = make_hash (hasher salt key)

-- `pepper`: the digest of the bytes of `to_little_endian(salt)`, on a machine of either order.
unfoldable pub pepper : Endian → Hasher → ℕ → ℕ
pepper e hasher salt = hasher salt (object_bytes e (to_little_endian e salt))

-- The bytes before the entries of a bucket, and those of an entry.
abbrev pub bucket_header : ℕ
bucket_header = size u16 + size u48

abbrev pub entry_size : ℕ
entry_size = size u48 + size u48 + size u48

unfoldable pub bucket_size : ℕ → ℕ
bucket_size capacity = size u16 + size u48 + capacity * (size u48 + size u48 + size u48)

unfoldable pub bucket_capacity : ℕ → ℕ
bucket_capacity block_size =
    if ltb block_size key_header_size || ltb block_size bucket_header
    then 0
    else min (2 ^ 64 - 1) ((block_size - bucket_header) / entry_size)

unfoldable pub value_size : ℕ → ℕ → ℕ
value_size size key_size = Field.size u48 + key_size + size

-- The table `t` of `ceil_pow2`, and its loop.
abbrev pub masks : List ℕ
masks = 0xffff_ffff_0000_0000 ∷ 0xffff_0000 ∷ 0xff00 ∷ 0xf0 ∷ 0xc ∷ 0x2 ∷ []

unfoldable pub ceil_loop : List ℕ → ℕ → ℕ → ℕ → ℕ
ceil_loop [] x y j = y
ceil_loop (t ∷ ts) x y j =
    let k = if bit_and x t == 0 then 0 else j in ceil_loop ts (x / 2 ^ k) (y + k) (j / 2)

-- `ceil_pow2`; `x - 1` wraps at 0.
unfoldable pub ceil_pow2 : ℕ → ℕ
ceil_pow2 x =
    let y = if bit_and x ((x + 2 ^ 64 - 1) % 2 ^ 64) == 0 then 0 else 1 in
    2 ^ ceil_loop masks x y 32 % 2 ^ 64
