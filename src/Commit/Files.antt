-- ===== src/Commit/Files.antt =====
-- impl/basic_store.ipp, commit: the log file and the key file.
use nu_db.Prelude.{ℕ, ◌+◌, ◌*◌, List, [], ◌∷◌}
use nu_db.Error.{Result, ok, ◌>>=◌}
use nu_db.Memory.{Memory}
use nu_db.Endian.{Endian}
use nu_db.Field.{u64, size}
use nu_db.Stream.{Ostream, write}
use nu_db.File.{FileOps}
use nu_db.Format.{Hasher, current_version, pepper}
use nu_db.Format.Headers.{LogFileHeader, log_type}
use nu_db.Bucket.{Bucket, actual_size, load, write_stream, write_file}
use nu_db.BulkIo.{Writer, prepare_write}

-- `lh`, from the fields of the key file's header and the sizes of the two files
unfoldable pub log_header : Endian → Hasher → ℕ → ℕ → ℕ → ℕ → ℕ → ℕ → ℕ → LogFileHeader
log_header endian hasher uid appnum key_size salt block_size kf_size df_size = record {
  type = log_type;
  version = current_version;
  uid = uid;
  appnum = appnum;
  key_size = key_size;
  salt = salt;
  pepper = pepper endian hasher salt;
  block_size = block_size;
  key_file_size = kf_size;
  dat_file_size = df_size;
}

-- The writes of a log record to the stream: the index and the bucket
unfoldable pub put_record : Ostream → Memory → Memory → ℕ → Bucket → Memory
unfolding write write_stream
put_record os target m n b = let (os1, m1) = write u64 os target n in (write_stream os1 m1 m b).1

module _ {F : Type 0} (ops : FileOps F) (fresh m : Memory) (block_size : ℕ) where
  -- A turn of the loop over `c0`, with a copy in memory at an address
  unfoldable pub write_record : Writer F → ℕ × ℕ → Result (Writer F)
  unfolding put_record
  write_record w (n, p) = do
    b ← load m block_size p
    (os, v) ← prepare_write ops fresh w (size u64 + actual_size b)
    ok (record v { buf = record v.buf { bytes = put_record os v.buf.bytes m n b } })

  -- The loop over `c0`
  unfoldable pub write_records : Writer F → List (ℕ × ℕ) → Result (Writer F)
  unfolding write_record
  write_records w [] = ok w
  write_records w (e ∷ es) = do v ← write_record w e; write_records v es

module _ {F : Type 0} (ops : FileOps F) (block_size : ℕ) where
  -- The loop over `c1`, which writes the buckets to the key file
  unfoldable pub write_buckets : Memory → F → List (ℕ × ℕ) → Result (F × Memory)
  write_buckets m kf [] = ok (kf, m)
  write_buckets m kf ((n, p) ∷ es) = do
    b ← load m block_size p
    (k, m') ← write_file ops kf m b ((n + 1) * block_size)
    write_buckets m' k es
