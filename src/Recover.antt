-- ===== src/Recover.antt =====
-- impl/recover.ipp: a commit that was cut short is taken back from its log.
pub mod Log
pub mod Blocks
pub mod Replay
pub mod Loop
pub mod Calls
pub mod Restores
pub mod Original
use nu_db.Prelude.{
  ℕ, zero, suc, ◌+◌, ◌*◌, Bool, true, false, not, ◌&&◌, Option, none, some, ltb, ◌==◌,
  if◌then◌else◌,
}
use nu_db.Error.{
  Error, Result, ok, err, thrown, short_read, no_key_file, invalid_log_spill, invalid_log_index,
  ◌>>=◌, ◌>>◌, fail_if,
}
use nu_db.Memory.{Memory}
use nu_db.Endian.{Endian}
use nu_db.Field.{u16, u48, u64, size, readp}
use nu_db.Stream.{read}
use nu_db.File.{FileOps}
use nu_db.Format.{Hasher, bucket_size, key_header_size, log_header_size}
use nu_db.Format.Headers.{
  KeyFileHeader, LogFileHeader, DatFileHeader, read_dat_file, read_key_file, read_log_file,
}
use nu_db.Format.Verify.{verify_dat, verify_key, verify_dat_key, verify_log, verify_key_log}
use nu_db.Bucket.{Bucket, update, load, write_file}
use nu_db.BulkIo.{Reader, reader, eof, prepare_read}
use nu_db.Compact.{read_bulk}

-- `ec == error::short_read`
unfoldable pub is_short : Error → Bool
is_short short_read = true
is_short _ = false

-- What the loop over the log keeps: the key file, the bucket `b` with the buffer under it, and the
-- reader of the log file.
pub record Replayer (F : Type 0) : Type 0 where
  pub kf : F
  pub bucket : Bucket
  pub bytes : Memory
  pub reader : Reader F

-- A turn of the loop goes on, or leaves it because the log is incomplete.
pub data Turn (F : Type 0) : Type 0 where
  onward : Replayer F → Turn F
  stopped : F → Turn F

module _ {F : Type 0} (ops : FileOps F) (fresh : Memory) where
  -- The checks of a record, and the write of its bucket to the key file
  unfoldable pub put_back : KeyFileHeader → ℕ → F → ℕ → Memory → Bucket → Result (F × Memory)
  put_back kh dat_size kf n m b = do
    fail_if (not (b.spill == 0) && ltb dat_size (b.spill + bucket_size kh.capacity))
        invalid_log_spill
    fail_if (ltb kh.buckets n) invalid_log_index
    write_file ops kf m b ((n + 1) * kh.block_size)

  -- The bucket and its buffer where `read` has failed: it has taken the header that it could read.
  unfoldable pub half_read : Memory → Bucket → Reader F → Bucket × Memory
  half_read m b r = elim (prepare_read ops fresh r (size u16 + size u48)) [
    | ok (is, r1) ↦
        let b1 = record b {
          size = readp u16 r1.buf.bytes is.buf;
          spill = readp u48 r1.buf.bytes (is.buf + size u16);
        } in
        (b1, update m b1)
    | err _ ↦ (b, m)
    | thrown ↦ (b, m)
  ]

  -- A record behind its index n. An error of `read` other than a short read is looked at only
  -- after the checks and the write.
  unfoldable pub replay_bucket : KeyFileHeader → ℕ → ℕ → Replayer F → Result (Turn F)
  unfolding put_back half_read
  replay_bucket kh dat_size n s = elim (read_bulk ops fresh s.bytes s.bucket s.reader) [
    | ok (b, m, r) ↦ put_back kh dat_size s.kf n m b >>= λ x.
        ok (onward (record { kf = x.0; bucket = b; bytes = x.1; reader = r }))
    | thrown ↦ thrown
    | err e ↦
        let (b, m) = half_read s.bytes s.bucket s.reader in
        if is_short e then ok (stopped s.kf) else put_back kh dat_size s.kf n m b >>= λ x. err e
  ]

  -- The body of the loop
  unfoldable pub replay_record : KeyFileHeader → ℕ → Replayer F → Result (Turn F)
  unfolding replay_bucket read
  replay_record kh dat_size s = elim (prepare_read ops fresh s.reader (size u64)) [
    | thrown ↦ thrown
    | err e ↦ if is_short e then ok (stopped s.kf) else err e
    | ok (is, r) ↦
        read u64 r.buf.bytes is >>= λ x. replay_bucket kh dat_size x.0 (record s { reader = r })
  ]

  -- The loop gives the key file; the fuel is the number of records and one, and `none` is that it
  -- ran out.
  unfoldable pub replay_log : ℕ → KeyFileHeader → ℕ → Replayer F → Option (Result F)
  unfolding replay_record eof
  replay_log zero kh dat_size s = none
  replay_log (suc fuel) kh dat_size s =
      if eof s.reader then some (ok s.kf) else elim (replay_record kh dat_size s) [
        | err e ↦ some (err e)
        | thrown ↦ some thrown
        | ok (stopped kf) ↦ some (ok kf)
        | ok (onward t) ↦ replay_log fuel kh dat_size t
      ]

-- What `lf.open` gives
pub data Opened (F : Type 0) : Type 0 where
  opened : F → Opened F
  absent : Opened F
  unopened : Error → Opened F

-- How `recover` returns without an error: there is no log, and the files stay as they are; the
-- log is erased, with the two files behind it; or the key file is erased too.
pub data Recovered (F : Type 0) : Type 0 where
  unlogged : F → F → Recovered F
  restored : F → F → Recovered F
  without_key : F → Recovered F

-- What `erase_file` of the log, and `File::erase` of the key file and of the log give.
pub record Erasures : Type 0 where
  pub old_log : Result (Unit {0})
  pub key : Result (Unit {0})
  pub log : Result (Unit {0})

module _ {F : Type 0} (ops : FileOps F) (erases : Erasures) where
  -- From the label `clear_log` on
  unfoldable pub clear_log : F → Recovered F → Result (Recovered F)
  clear_log lf done = do l ← ops.trunc lf 0; _ ← ops.sync l; erases.log; ok done

  -- From the label `trunc_files` on
  unfoldable pub trunc_files : LogFileHeader → F → F → F → Result (Recovered F)
  unfolding clear_log
  trunc_files lh df kf lf = do
    d ← ops.trunc df lh.dat_file_size
    d' ← ops.sync d
    if not (lh.key_file_size == 0)
        then (do k ← ops.trunc kf lh.key_file_size; k' ← ops.sync k; clear_log lf (restored d' k'))
        else erases.key >> clear_log lf (without_key d')

-- The data file and its size, its header and the key file, from what opening the files gives
unfoldable pub open_files :
    {F : Type 0}
    → FileOps F
    → Erasures
    → Result F
    → Result F
    → Result (F × (ℕ × (DatFileHeader × F)))
open_files ops erases dat key = do
  df ← dat
  dat_size ← ops.size df
  dh ← read_dat_file ops df
  verify_dat dh
  kf ← key
  key_size ← ops.size kf
  if not (ltb key_header_size key_size)
      then erases.old_log >> (erases.key >> err no_key_file)
      else ok (df, (dat_size, (dh, kf)))

module _ {F : Type 0} (ops : FileOps F) (endian : Endian) (hasher : Hasher) (fresh : Memory)
    (erases : Erasures) where
  -- The header of the key file, with its checks
  unfoldable pub check_key : DatFileHeader → LogFileHeader → F → Result KeyFileHeader
  check_key dh lh kf = do
    kh ← read_key_file ops kf
    verify_key endian hasher kh
    verify_dat_key endian hasher dh kh
    verify_key_log endian hasher kh lh
    ok kh

  -- The loop over the log, where it has a key file to restore: the buffers are new.
  unfoldable pub replay : ℕ → ℕ → KeyFileHeader → F → F → ℕ → Option (Result F)
  unfolding replay_log reader
  replay fuel dat_size kh kf lf log_size = elim (load fresh kh.block_size 0) [
    | err e ↦ some (err e)
    | thrown ↦ some thrown
    | ok b ↦ replay_log ops fresh fuel kh dat_size (record {
      kf = kf;
      bucket = b;
      bytes = fresh;
      reader = reader fresh lf log_header_size log_size (1024 * kh.block_size);
    })
  ]

  -- From the header of the log on
  unfoldable pub roll_back :
      ℕ → ℕ → DatFileHeader → LogFileHeader → F → F → F → ℕ → Option (Result (Recovered F))
  unfolding trunc_files check_key replay
  roll_back fuel dat_size dh lh df kf lf log_size =
      if lh.key_file_size == 0
      then some (trunc_files ops erases lh df kf lf)
      else elim (check_key dh lh kf) [
        | err e ↦ some (err e)
        | thrown ↦ some thrown
        | ok kh ↦ elim (replay fuel dat_size kh kf lf log_size) [
          | none ↦ none
          | some (err e) ↦ some (err e)
          | some thrown ↦ some thrown
          | some (ok k) ↦ some (trunc_files ops erases lh df k lf)
        ]
      ]

  -- From the opened log file on
  unfoldable pub recover_log : ℕ → ℕ → DatFileHeader → F → F → F → Option (Result (Recovered F))
  unfolding roll_back clear_log
  recover_log fuel dat_size dh df kf lf = elim (ops.size lf) [
    | err e ↦ some (err e)
    | thrown ↦ some thrown
    | ok log_size ↦ elim (read_log_file ops lf) [
      | err e ↦ if is_short e then some (clear_log ops erases lf (restored df kf)) else some (err e)
      | thrown ↦ some thrown
      | ok lh ↦ elim (verify_log endian hasher lh) [
        | err e ↦ some (err e)
        | thrown ↦ some thrown
        | ok _ ↦ roll_back fuel dat_size dh lh df kf lf log_size
      ]
    ]
  ]

  -- `recover`, with what opening the three files gives
  unfoldable pub recover : ℕ → Result F → Result F → Opened F → Option (Result (Recovered F))
  unfolding open_files recover_log
  recover fuel dat key log = elim (open_files ops erases dat key) [
    | err e ↦ some (err e)
    | thrown ↦ some thrown
    | ok (df, (dat_size, (dh, kf))) ↦ elim log [
      | absent ↦ some (ok (unlogged df kf))
      | unopened e ↦ some (err e)
      | opened lf ↦ recover_log fuel dat_size dh df kf lf
    ]
  ]
