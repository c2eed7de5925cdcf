-- ===== src/Verify/Fast.antt =====
-- impl/verify.ipp, verify_fast: the same with a buffer for a part of the key file, in passes over
-- the data file.
use nu_db.Prelude.{
  ℕ, zero, suc, ◌+◌, ◌-◌, ◌*◌, ◌/◌, ◌^◌, min, Bool, true, false, not, ◌||◌, none, some, List, [],
  ◌∷◌, ltb, leb, ◌==◌, if◌then◌else◌,
}
use nu_db.Error.{
  ok, thrown, short_spill, short_data_record, short_value, invalid_spill_size, missing_value,
  orphaned_value, too_many_buckets, fail_if,
}
use nu_db.Memory.{Memory}
use nu_db.Field.{u16, u48, size}
use nu_db.Stream.{read, read_blob, read_size48, store}
use nu_db.File.{FileOps}
use nu_db.Format.{Hasher, hash, bucket_size, bucket_capacity, dat_header_size}
use nu_db.Format.Headers.{KeyFileHeader}
use nu_db.Bucket.{Bucket, bucket_index, load, read_file}
use nu_db.BulkIo.{Reader, reader, eof, position, prepare_read}
use nu_db.Run.{Run, once, ◌>>=◌}
use nu_db.Verify.{Info, short_as, spill_size, count_spill, count_chain, seek_chain}

-- The part [b0, b1) of the key file that is in the buffer, and the address of the bucket `tmp`
-- behind it.
pub record Chunk : Type 0 where
  pub b0 : ℕ
  pub b1 : ℕ
  pub q : ℕ

-- What the loops keep: `tmp`, the buffer, `nkeys` and the counts.
pub record Counter : Type 0 where
  pub tmp : Bucket
  pub memory : Memory
  pub nkeys : List ℕ
  pub info : Info

-- `nkeys[i]`, and `--nkeys[i]`, which wraps
abbrev pub key_at : ℕ → List ℕ → ℕ
key_at i [] = 0
key_at zero (x ∷ xs) = x
key_at (suc i) (x ∷ xs) = key_at i xs

unfoldable pub take_key : ℕ → List ℕ → List ℕ
take_key i [] = []
take_key zero (x ∷ xs) = (if x == 0 then 2 ^ 64 - 1 else x - 1) ∷ xs
take_key (suc i) (x ∷ xs) = x ∷ (take_key i xs)

unfoldable pub all_zero : List ℕ → Bool
all_zero [] = true
all_zero (x ∷ xs) = if not (x == 0) then false else all_zero xs

module _ {F : Type 0} (ops : FileOps F) (hasher : Hasher) (fresh : Memory) (df kf : F)
    (kh : KeyFileHeader) where
  -- The loop over the spills of a bucket: the number of keys, of which there are n so far, and of
  -- spills. The fuel is the number of buckets.
  unfoldable pub count_keys : ℕ → ℕ → ℕ → ℕ → Counter → Run (ℕ × (ℕ × Counter))
  unfolding short_as count_spill
  count_keys zero spill n nspill s = none
  count_keys (suc fuel) spill n nspill s = if spill == 0 then once (n, (nspill, s)) else do
    (t, m) ← some (short_as short_spill (read_file ops df s.memory s.tmp spill))
    count_keys fuel t.spill (n + t.size) (nspill + 1)
        (record s { tmp = t; memory = m; info = count_spill t s.info })

  -- The loop that counts the keys of the buckets in the buffer, from the i-th on
  unfoldable pub count_buckets : ℕ → ℕ → ℕ → Counter → Run (List ℕ × Counter)
  unfolding count_keys count_chain
  count_buckets fuel zero i s = once ([], s)
  count_buckets fuel (suc left) i s = do
    b ← some (load s.memory kh.block_size (i * kh.block_size))
    (n, (nspill, t)) ← count_keys fuel b.spill b.size 0 s
    let info = count_chain nspill t.info
    (rest, u) ←
        count_buckets fuel left (i + 1)
          (record t { info = record info { key_count = info.key_count + n } })
    once (n ∷ rest, u)

  -- A data record behind its size. `fetches` counts the bucket in the buffer as well.
  unfoldable pub fast_value : ℕ → Chunk → ℕ → ℕ → Reader F → Counter → Run (Reader F × Counter)
  unfolding read_blob seek_chain short_as
  fast_value fuel c offset n r s = do
    (is, v) ← some (short_as short_value (prepare_read ops fresh r (kh.key_size + n)))
    (key, rest) ← some (read_blob v.buf.bytes is kh.key_size)
    (_, _) ← some (read_blob v.buf.bytes rest n)
    let h = hash hasher key kh.salt
    let i = bucket_index h kh.buckets kh.modulus
    if ltb i c.b0 || leb c.b1 i then once (v, s) else do
      b ← some (load s.memory kh.block_size ((i - c.b0) * kh.block_size))
      (m, fetches) ← seek_chain ops df fuel c.q h offset s.memory b (s.info.fetches + 1)
      _ ← some (fail_if (key_at (i - c.b0) s.nkeys == 0) orphaned_value)
      once (
        v,
        record s {
          memory = m;
          nkeys = take_key (i - c.b0) s.nkeys;
          info = record s.info {
            value_count = s.info.value_count + 1;
            value_bytes = s.info.value_bytes + n;
            fetches = fetches;
          };
        },
      )

  -- A spill record behind its zero, which the first pass counts with the size of `tmp`
  unfoldable pub fast_spill : Chunk → Reader F → Counter → Run (Reader F × Counter)
  unfolding short_as read
  fast_spill c r s = do
    (is, v) ← some (short_as short_spill (prepare_read ops fresh r (size u16)))
    (n, _) ← some (read u16 v.buf.bytes is)
    _ ← some (fail_if (not (bucket_size (bucket_capacity n) == n)) invalid_spill_size)
    (_, w) ← some (short_as short_spill (prepare_read ops fresh v n))
    once (
      w,
      if c.b0 == 0
          then record s {
            info = record s.info {
              spill_count_tot = s.info.spill_count_tot + 1;
              spill_bytes_tot = s.info.spill_bytes_tot + spill_size s.tmp;
            };
          }
          else s,
    )

  -- The body of the loop over the data file, and the loop, with fuel for the records
  unfoldable pub fast_record : ℕ → Chunk → Reader F → Counter → Run (Reader F × Counter)
  unfolding fast_value fast_spill read_size48 short_as
  fast_record fuel c r s = do
    let offset = position r
    (is, v) ← some (short_as short_data_record (prepare_read ops fresh r (size u48)))
    (n, _) ← some (read_size48 v.buf.bytes is)
    if ltb 0 n then fast_value fuel c offset n v s else fast_spill c v s

  unfoldable pub fast_records : ℕ → Chunk → ℕ → Reader F → Counter → Run Counter
  unfolding fast_record eof
  fast_records fuel c zero r s = none
  fast_records fuel c (suc turns) r s =
      if eof r then once s else do (v, t) ← fast_record fuel c r s; fast_records fuel c turns v t

  -- A pass
  unfoldable pub fast_pass : ℕ → ℕ → ℕ → Chunk → Counter → Run Counter
  unfolding count_buckets fast_records all_zero reader
  fast_pass fuel turns file_size c s = do
    let bn = c.b1 - c.b0
    bs ← some (ops.read kf ((c.b0 + 1) * kh.block_size) (bn * kh.block_size))
    (nkeys, t) ← count_buckets fuel bn 0 (record s { memory = store s.memory 0 bs })
    let r = reader fresh df dat_header_size file_size (1024 * kh.block_size)
    u ← fast_records fuel c turns r (record t { nkeys = nkeys })
    _ ← some (fail_if (not (all_zero u.nkeys)) missing_value)
    once u

  -- The passes from the bucket b0 on; the fuel is the number of buckets.
  unfoldable pub fast_passes : ℕ → ℕ → ℕ → ℕ → ℕ → ℕ → Counter → Run Counter
  unfolding fast_pass
  fast_passes fuel turns file_size chunk zero b0 s = none
  fast_passes fuel turns file_size chunk (suc passes) b0 s =
      if leb kh.buckets b0 then once s else do
        let c : Chunk = record {
          b0 = b0;
          b1 = min (b0 + chunk) kh.buckets;
          q = chunk * kh.block_size;
        }
        t ← fast_pass fuel turns file_size c s
        fast_passes fuel turns file_size chunk passes (b0 + chunk) t

  -- `verify_fast`, with `sizeof(nkey_t)`, for a data file of a size
  unfoldable pub verify_fast : ℕ → ℕ → ℕ → ℕ → ℕ → Info → Run Info
  unfolding fast_passes
  verify_fast fuel turns key_bytes buffer_size file_size info = do
    _ ← some (fail_if (ltb (2 ^ 64 - 1) kh.buckets) too_many_buckets)
    _ ← some (if ltb buffer_size (2 * kh.block_size + key_bytes) then thrown else ok tt)
    let chunk = min kh.buckets ((buffer_size - kh.block_size) / (kh.block_size + key_bytes))
    tmp ← some (load fresh kh.block_size (chunk * kh.block_size))
    s ←
        fast_passes fuel turns file_size chunk (suc kh.buckets) 0
          (record { tmp = tmp; memory = fresh; nkeys = []; info = info })
    once s.info
