-- ===== src/Verify/Normal.antt =====
-- impl/verify.ipp, verify_normal: every value is in a bucket, and every entry of a bucket is that
-- of a value.
use nu_db.Prelude.{ℕ, zero, suc, ◌+◌, ◌*◌, not, none, some, ltb, ◌==◌, if◌then◌else◌}
use nu_db.Error.{
  Result, ok, err, thrown, short_spill, invalid_spill_size, missing_value, size_mismatch,
  hash_mismatch, fail_if,
}
use nu_db.Memory.{Memory}
use nu_db.Field.{u16, u48, size}
use nu_db.Stream.{Istream, read, read_blob, read_size48, store}
use nu_db.File.{FileOps}
use nu_db.Format.{Hasher, hash, bucket_size, dat_header_size}
use nu_db.Format.Headers.{KeyFileHeader}
use nu_db.Bucket.{Bucket, Value, bucket_index, at, load, read_file}
use nu_db.BulkIo.{Reader, reader, eof, position, prepare_read}
use nu_db.Compact.{read_bulk}
use nu_db.Run.{Run, once, ◌>>=◌}
use nu_db.Verify.{Info, short_as, spill_size, count_spill, count_chain, seek_chain}

-- What the loops keep: the bucket `b` with the buffer under it, and the counts.
pub record Checker : Type 0 where
  pub bucket : Bucket
  pub memory : Memory
  pub info : Info

-- What a search leaves: the bucket and its buffer, and `fetches`
pub record Found : Type 0 where
  pub bucket : Bucket
  pub memory : Memory
  pub fetches : ℕ

-- A value of n bytes that was found is counted.
unfoldable pub count_value : ℕ → Found → Checker → Checker
count_value n x s = record {
  bucket = x.bucket;
  memory = x.memory;
  info = record s.info {
    value_count = s.info.value_count + 1;
    value_bytes = s.info.value_bytes + n;
    fetches = x.fetches;
  };
}

module _ {F : Type 0} (ops : FileOps F) (hasher : Hasher) (fresh : Memory) (df kf : F)
    (kh : KeyFileHeader) where
  -- The search for a value of n bytes, whose key starts the stream, in its bucket and the spills
  unfoldable pub check_value : ℕ → ℕ → ℕ → Memory → Istream → Checker → Run Found
  unfolding read_blob seek_chain
  check_value fuel offset n bytes is s = do
    (key, rest) ← some (read_blob bytes is kh.key_size)
    (_, _) ← some (read_blob bytes rest n)
    let h = hash hasher key kh.salt
    let place = (bucket_index h kh.buckets kh.modulus + 1) * kh.block_size
    (b, m) ← some (read_file ops kf s.memory s.bucket place)
    (m', fetches) ← seek_chain ops df fuel b.p h offset m b (s.info.fetches + 1)
    once (record { bucket = b; memory = m'; fetches = fetches })

  -- A data record behind its size
  unfoldable pub normal_value : ℕ → ℕ → ℕ → Reader F → Checker → Run (Reader F × Checker)
  unfolding check_value count_value
  normal_value fuel offset n r s = do
    (is, v) ← some (prepare_read ops fresh r (kh.key_size + n))
    x ← check_value fuel offset n v.buf.bytes is s
    once (v, count_value n x s)

  -- A spill record behind its zero
  unfoldable pub normal_spill : Reader F → Checker → Run (Reader F × Checker)
  unfolding short_as read
  normal_spill r s = do
    (is, v) ← some (short_as short_spill (prepare_read ops fresh r (size u16)))
    (n, _) ← some (read u16 v.buf.bytes is)
    _ ← some (fail_if (not (n == bucket_size kh.capacity)) invalid_spill_size)
    (b, m, w) ← some (short_as short_spill (read_bulk ops fresh s.memory s.bucket v))
    once (
      w,
      record {
        bucket = b;
        memory = m;
        info = record s.info {
          spill_count_tot = s.info.spill_count_tot + 1;
          spill_bytes_tot = s.info.spill_bytes_tot + spill_size b;
        };
      },
    )

  -- The body of the loop over the data file
  unfoldable pub normal_record : ℕ → Reader F → Checker → Run (Reader F × Checker)
  unfolding normal_value normal_spill read_size48
  normal_record fuel r s = do
    let offset = position r
    (is, v) ← some (prepare_read ops fresh r (size u48))
    (n, _) ← some (read_size48 v.buf.bytes is)
    if ltb 0 n then normal_value fuel offset n v s else normal_spill v s

  -- The loop over the data file, with fuel for the records
  unfoldable pub normal_records : ℕ → ℕ → Reader F → Checker → Run Checker
  unfolding normal_record eof
  normal_records fuel zero r s = none
  normal_records fuel (suc turns) r s =
      if eof r then once s else do (v, t) ← normal_record fuel r s; normal_records fuel turns v t

  -- An entry against the value at its offset, whose size and key are read to the address pd
  unfoldable pub check_entry : ℕ → Value → Memory → Result Memory
  unfolding short_as read read_blob
  check_entry pd e m =
      elim (short_as missing_value (ops.read df e.offset (size u48 + kh.key_size))) [
        | err code ↦ err code
        | thrown ↦ thrown
        | ok bs ↦
            let m1 = store m pd bs in
            let is : Istream = record { buf = pd; left = size u48 + kh.key_size } in
            elim (read u48 m1 is) [
              | err code ↦ err code
              | thrown ↦ thrown
              | ok (n, rest) ↦ elim (read_blob m1 rest kh.key_size) [
                | err code ↦ err code
                | thrown ↦ thrown
                | ok (key, _) ↦
                    if not (n == e.size)
                    then err size_mismatch
                    else (if not (hash hasher key kh.salt == e.hash)
                        then err hash_mismatch
                        else ok m1)
              ]
            ]
      ]

  -- The loop over the entries of a bucket from i on, with their number as fuel
  unfoldable pub check_entries : ℕ → ℕ → Bucket → ℕ → Memory → Run Memory
  unfolding check_entry
  check_entries pd zero b i m = once m
  check_entries pd (suc fuel) b i m = do
    e ← some (at m b i)
    m' ← some (check_entry pd e m)
    check_entries pd fuel b (i + 1) m'

  -- The loop over a bucket and its spills: the number of spills; the fuel is that of buckets.
  unfoldable pub check_chain : ℕ → ℕ → ℕ → Checker → Run (ℕ × Checker)
  unfolding check_entries count_spill
  check_chain pd zero nspill s = none
  check_chain pd (suc fuel) nspill s = do
    let counted = record s.info { key_count = s.info.key_count + s.bucket.size }
    m ← check_entries pd s.bucket.size s.bucket 0 s.memory
    if s.bucket.spill == 0 then once (nspill, record s { memory = m; info = counted }) else (do
      (b, m') ← some (read_file ops df m s.bucket s.bucket.spill)
      check_chain pd fuel (nspill + 1)
          (record { bucket = b; memory = m'; info = count_spill b counted }))

  -- The loop over the key file from the bucket n on, with the number of buckets left
  unfoldable pub normal_buckets : ℕ → ℕ → ℕ → ℕ → Checker → Run Checker
  unfolding check_chain count_chain
  normal_buckets fuel pd zero n s = once s
  normal_buckets fuel pd (suc left) n s = do
    (b, m) ← some (read_file ops kf s.memory s.bucket ((n + 1) * kh.block_size))
    (nspill, t) ← check_chain pd fuel 0 (record s { bucket = b; memory = m })
    normal_buckets fuel pd left (n + 1) (record t { info = count_chain nspill t.info })

  -- `verify_normal`, for a data file of a size
  unfoldable pub verify_normal : ℕ → ℕ → ℕ → Info → Run Info
  unfolding normal_records normal_buckets reader
  verify_normal fuel turns file_size info = do
    b ← some (load fresh kh.block_size 0)
    let r = reader fresh df dat_header_size file_size (1024 * kh.block_size)
    s ← normal_records fuel turns r (record { bucket = b; memory = fresh; info = info })
    t ← normal_buckets fuel kh.block_size kh.buckets 0 s
    once t.info
