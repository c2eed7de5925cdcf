-- ===== src/Rekey.antt =====
-- impl/rekey.ipp: a new key file for a data file, in passes over the data file. The data file
-- grows by spill records behind the records that are read, in the same file.
pub mod Start
pub mod Passes
pub mod Undone
use nu_db.Prelude.{
  ℕ, zero, suc, ◌+◌, ◌-◌, ◌*◌, ◌/◌, min, max, ◌||◌, none, some, List, [], ◌∷◌, ltb, leb,
  if◌then◌else◌,
}
use nu_db.Error.{Error, Result, ok, err, thrown, ◌>>=◌}
use nu_db.Memory.{Memory, fill}
use nu_db.Endian.{Endian}
use nu_db.Field.{u16, u48, size}
use nu_db.Stream.{Istream, blob, read, read_blob, read_size48}
use nu_db.File.{FileOps}
use nu_db.Format.{
  Hasher, hash, ceil_pow2, current_version, pepper, dat_header_size, key_header_size,
}
use nu_db.Format.Headers.{
  DatFileHeader, KeyFileHeader, key_type, read_dat_file, write_key, write_log_file,
}
use nu_db.Format.Verify.{verify_dat}
use nu_db.Bucket.{Bucket, bucket_index, load, insert}
use nu_db.Bucket
use nu_db.BulkIo.{Reader, Writer, reader, writer, eof, position, prepare_read, flush}
use nu_db.Spill.{maybe_spill}
use nu_db.Commit.Files.{log_header}
use nu_db.Recover.{Opened, opened, absent, unopened}

-- The arguments of `rekey`, with what it computes from them in the type `float`: the load factor
-- times 65536, and the number of buckets. The salt is the one that `make_salt` gives; the last two
-- are `readSize` and `writeSize`.
pub record Plan : Type 0 where
  pub salt : ℕ
  pub block_size : ℕ
  pub load : ℕ
  pub buckets : ℕ
  pub buffer_size : ℕ
  pub read_size : ℕ
  pub write_size : ℕ

-- `kh`; what it has no value for is not written.
unfoldable pub rekey_header : Endian → Hasher → DatFileHeader → Plan → KeyFileHeader
rekey_header endian hasher dh a = record {
  type = key_type;
  version = current_version;
  uid = dh.uid;
  appnum = dh.appnum;
  key_size = dh.key_size;
  salt = a.salt;
  pepper = pepper endian hasher a.salt;
  block_size = a.block_size;
  load_factor = min a.load 65535;
  capacity = 0;
  buckets = a.buckets;
  modulus = ceil_pow2 a.buckets;
}

-- The bytes of a buffer in which the header is written
unfoldable pub header_bytes : Memory → KeyFileHeader → ℕ → List ℕ
unfolding write_key
header_bytes m kh n = blob (write_key (record { buf = 0; written = 0 }) m kh).1 0 n

-- The loop that makes the empty buckets of the buffer, from the i-th on
unfoldable pub empty_buckets : ℕ → ℕ → ℕ → Memory → Memory
unfolding Bucket.create
empty_buckets block_size zero i m = m
empty_buckets block_size (suc n) i m =
    empty_buckets block_size n (i + 1) (Bucket.create m block_size (i * block_size)).1

-- The stream of a `prepare` whose error is not looked at
unfoldable pub unchecked :
    {F : Type 0} → Reader F → Result (Istream × Reader F) → Result (Istream × Reader F)
unchecked r (ok x) = ok x
unchecked r (err e) = ok (record { buf = 0; left = 0 }, r)
unchecked r thrown = thrown

-- The buckets of the buffer, and the writer of the spills
pub record Rekeyer (F : Type 0) : Type 0 where
  pub memory : Memory
  pub dw : Writer F

module _ {F : Type 0} (ops : FileOps F) (hasher : Hasher) (fresh : Memory) (kh : KeyFileHeader)
    (b0 b1 : ℕ) where
  -- A data record behind its size
  unfoldable pub rekey_value : ℕ → ℕ → Reader F → Rekeyer F → Result (Reader F × Rekeyer F)
  unfolding unchecked read_blob maybe_spill insert
  rekey_value offset n r s = do
    (is, v) ← unchecked r (prepare_read ops fresh r (kh.key_size + n))
    (key, _) ← read_blob v.buf.bytes is kh.key_size
    let h = hash hasher key kh.salt
    let i = bucket_index h kh.buckets kh.modulus
    if ltb i b0 || leb b1 i then ok (v, s) else do
      b ← load s.memory kh.block_size ((i - b0) * kh.block_size)
      (b', m, w) ← maybe_spill ops fresh s.memory b s.dw
      ok (v, record { memory = (insert m b' offset n h).1; dw = w })

  -- A spill record behind its zero, which is skipped
  unfoldable pub rekey_spill : Reader F → Result (Reader F)
  unfolding read
  rekey_spill r = do
    (is, v) ← prepare_read ops fresh r (size u16)
    (n, _) ← read u16 v.buf.bytes is
    (_, w) ← prepare_read ops fresh v n
    ok w

  -- The body of the loop over the data file, which is read as the writer has left it
  unfoldable pub rekey_record : Reader F → Rekeyer F → Result (Reader F × Rekeyer F)
  unfolding rekey_value rekey_spill read_size48
  rekey_record r s = do
    let offset = position r
    (is, v) ← prepare_read ops fresh (record r { file = s.dw.file }) (size u48)
    (n, _) ← read_size48 v.buf.bytes is
    if ltb 0 n then rekey_value offset n v s else (do w ← rekey_spill v; ok (w, s))
