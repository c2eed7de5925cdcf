-- ===== src/Bucket.antt =====
-- detail/bucket.hpp: the bucket of a key file, as a view of a blob in memory.
pub mod Entries
pub mod Writes
pub mod LowerBound
pub mod Insert
pub mod Erase
pub mod Blob
pub mod Transfer
use nu_db.Prelude.{ℕ, zero, suc, ◌+◌, ◌-◌, ◌*◌, ◌/◌, ◌%◌, ◌^◌, Bool, ltb, leb, ◌==◌, if◌then◌else◌}
use nu_db.Error.{Result, ok, invalid_bucket_size, ◌>>=◌, ◌>>◌, fail_if}
use nu_db.Memory.{Memory, copy, fill}
use nu_db.Field.{u16, u48, readp}
use nu_db.Stream.{Istream, Ostream, blob, store, extend, read, read_size48, write}
use nu_db.File.{FileOps}
use nu_db.Format.{bucket_header, entry_size, bucket_size, bucket_capacity}

-- `bucket_index`; the subtraction wraps in 64 bits.
unfoldable pub bucket_index : ℕ → ℕ → ℕ → ℕ
bucket_index h buckets modulus =
    let n = h % modulus in if leb buckets n then (n + 2 ^ 64 - modulus / 2) % 2 ^ 64 else n

-- `bucket_t`, with the address `p` of its blob.
pub record Bucket : Type 0 where
  pub block_size : ℕ
  pub size : ℕ
  pub spill : ℕ
  pub p : ℕ

-- `bucket_t::value_type`
pub record Value : Type 0 where
  pub offset : ℕ
  pub hash : ℕ
  pub size : ℕ

-- `update`
unfoldable pub update : Memory → Bucket → Memory
unfolding write
update m b =
    let (os, m1) = write u16 (record { buf = b.p; written = 0 }) m b.size in
    (write u48 os m1 b.spill).1

-- `clear`
unfoldable pub clear : Memory → Bucket → Bucket × Memory
clear m b = (record b { size = 0; spill = 0 }, fill m b.p 0 b.block_size)

-- `bucket_t(block_size, p)`
unfoldable pub load : Memory → ℕ → ℕ → Result Bucket
unfolding read
load m block_size p = do
  (size, rest) ← read u16 m (record { buf = p; left = block_size })
  (spill, _) ← read u48 m rest
  ok (record { block_size = block_size; size = size; spill = spill; p = p })

-- `bucket_t(block_size, p, empty)`
unfoldable pub create : Memory → ℕ → ℕ → Bucket × Memory
unfolding clear
create m block_size p = clear m (record { block_size = block_size; size = 0; spill = 0; p = p })

-- `actual_size`, `empty` and `full`
unfoldable pub actual_size : Bucket → ℕ
actual_size b = bucket_size b.size

unfoldable pub empty : Bucket → Bool
empty b = b.size == 0

unfoldable pub full : Bucket → Bool
full b = leb (bucket_capacity b.block_size) b.size

-- `spill(offset)`
unfoldable pub set_spill : Memory → Bucket → ℕ → Bucket × Memory
set_spill m b offset = let c = record b { spill = offset } in (c, update m c)

-- `at` and `operator[]`
unfoldable pub at : Memory → Bucket → ℕ → Result Value
unfolding read_size48
at m b i = do
  let is : Istream = record { buf = b.p + bucket_header + i * entry_size; left = entry_size }
  (offset, s1) ← read u48 m is
  (size, s2) ← read_size48 m s1
  (hash, _) ← read u48 m s2
  ok (record { offset = offset; hash = hash; size = size })

-- The loop of `lower_bound`, over the hashes that stand `entry_size` bytes apart from q on. The
-- fuel is the number of entries, which `count` stays below.
unfoldable pub lower_loop : ℕ → Memory → ℕ → ℕ → ℕ → ℕ → ℕ
lower_loop zero m q h first count = first
lower_loop (suc fuel) m q h first count =
    let step = count / 2 in
    let i = first + step in
    let upper = lower_loop fuel m q h (i + 1) (count - (step + 1)) in
    let lower = lower_loop fuel m q h first step in
    if ltb 0 count
    then (if ltb (readp u48 m (q + i * entry_size)) h then upper else lower)
    else first

-- `lower_bound`
unfoldable pub lower_bound : Memory → Bucket → ℕ → ℕ
lower_bound m b h = lower_loop b.size m (b.p + bucket_header + 12) h 0 b.size

-- `insert`; the index is at most the size.
unfoldable pub insert : Memory → Bucket → ℕ → ℕ → ℕ → Bucket × Memory
unfolding write
insert m b offset size h =
    let i = lower_bound m b h in
    let p = b.p + bucket_header in
    let m1 = copy m (p + (i + 1) * entry_size) m (p + i * entry_size) ((b.size - i) * entry_size) in
    let b1 = record b { size = b.size + 1 } in
    let m2 = update m1 b1 in
    let (os1, m3) = write u48 (record { buf = p + i * entry_size; written = 0 }) m2 offset in
    let (os2, m4) = write u48 os1 m3 size in (b1, (write u48 os2 m4 h).1)

-- `erase`; the bucket is not empty.
unfoldable pub erase : Memory → Bucket → ℕ → Bucket × Memory
erase m b i =
    let p = b.p + bucket_header in
    let b1 = record b { size = b.size - 1 } in
    let m1 =
      if ltb i b1.size
      then copy m (p + i * entry_size) m (p + (i + 1) * entry_size) ((b1.size - i) * entry_size)
      else m in
    let m2 = fill m1 (p + b1.size * entry_size) 0 entry_size in (b1, update m2 b1)

-- `write(ostream&)`: the entries that are there, to the stream's buffer
unfoldable pub write_stream : Ostream → Memory → Memory → Bucket → Ostream × Memory
unfolding extend
write_stream os target m b =
    let (q, os1) = extend os (actual_size b) in (os1, copy target q m b.p (actual_size b))

module _ {F : Type 0} (ops : FileOps F) where
  -- `read(File&, offset, ec)`
  unfoldable pub read_file : F → Memory → Bucket → ℕ → Result (Bucket × Memory)
  unfolding read
  read_file f m b offset = do
    let cap = bucket_capacity b.block_size
    bs ← ops.read f offset (bucket_size cap)
    let m1 = store m b.p bs
    (size, rest) ← read u16 m1 (record { buf = b.p; left = b.block_size })
    (spill, _) ← read u48 m1 rest
    fail_if (ltb cap size) invalid_bucket_size
    ok (record b { size = size; spill = spill }, m1)

  -- `write(File&, offset, ec)`: the whole block, with zeros behind the entries
  unfoldable pub write_file : F → Memory → Bucket → ℕ → Result (F × Memory)
  write_file f m b offset = do
    let size = actual_size b
    let m1 = fill m (b.p + size) 0 (b.block_size - size)
    g ← ops.write f offset (blob m1 b.p b.block_size)
    ok (g, m1)
