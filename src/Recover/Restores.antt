-- ===== src/Recover/Restores.antt =====
-- `recover` of a database with a log.
use nu_db.Prelude.{ℕ, ◌*◌, ◌≤◌, ◌<◌, ◌≡◌, refl, ap, ◌∙◌, some, List, arith}
use nu_db.Error.{ok}
use nu_db.Memory.{Memory, IsBytes}
use nu_db.Endian.{Endian}
use nu_db.File.{FileOps, FileLaws, Works, Cuts}
use nu_db.Format.{Hasher, key_header_size, log_header_size}
use nu_db.Format.Headers.{
  DatFileHeader, KeyFileHeader, LogFileHeader, read_dat_file, read_key_file, read_log_file,
}
use nu_db.Format.Verify.{verify_dat, verify_key, verify_dat_key, verify_log, verify_key_log}
use nu_db.BulkIo.{reader}
use nu_db.BulkIo.Hands.{reader-IsVisitor}
use nu_db.Recover.{Erasures, opened, restored, replay, recover}
use nu_db.Recover.Log.{Log, restore, count, within}
use nu_db.Recover.Loop.{replay_log-Replays}
use nu_db.Recover.Calls.{
  IsCut, opened_files, checked_key, truncated, start, start_lem, replay_value, recover_value,
  recover_log_value, roll_back_value,
}

-- The three files have headers that pass the checks, and the key file is not empty.
pub record IsChecked {F : Type 0} (ops : FileOps F) (laws : FileLaws ops) (endian : Endian)
    (hasher : Hasher) (df kf lf : F) (dh : DatFileHeader) (kh : KeyFileHeader) (lh : LogFileHeader)
    : Type 0 where
  pub dat : read_dat_file ops df ≡ ok dh
  pub dat_valid : verify_dat dh ≡ ok tt
  pub key : read_key_file ops kf ≡ ok kh
  pub key_valid : verify_key endian hasher kh ≡ ok tt
  pub dat_key_valid : verify_dat_key endian hasher dh kh ≡ ok tt
  pub log : read_log_file ops lf ≡ ok lh
  pub log_valid : verify_log endian hasher lh ≡ ok tt
  pub key_log_valid : verify_key_log endian hasher kh lh ≡ ok tt
  pub buckets_there : key_header_size < laws.extent kf
  pub was_key : 0 < lh.key_file_size
  pub block_size : 8 ≤ kh.block_size
  pub log_bytes : IsBytes (laws.bytes lf)

-- The log of a commit, behind its header: a sequence of records, the last of which need not be
-- whole.
pub record IsLogged {F : Type 0} (ops : FileOps F) (laws : FileLaws ops) (endian : Endian)
    (hasher : Hasher) (df kf lf : F) (dh : DatFileHeader) (kh : KeyFileHeader) (lh : LogFileHeader)
    (images : List (ℕ × List ℕ)) : Type 0 where
  pub checked : IsChecked ops laws endian hasher df kf lf dh kh lh
  pub records : Log kh (laws.extent df) (laws.bytes lf) (laws.extent lf) log_header_size images

module _ {F : Type 0} (ops : FileOps F) (laws : FileLaws ops) (works : Works ops laws)
    (cuts : Cuts ops laws) (endian : Endian) (hasher : Hasher) (fresh : Memory)
    (erases : Erasures) where
  replayed :
      (fuel : ℕ) (df kf lf : F) (dh : DatFileHeader) (kh : KeyFileHeader) (lh : LogFileHeader)
      (images : List (ℕ × List ℕ))
      → (h : IsLogged ops laws endian hasher df kf lf dh kh lh images) → count h.records < fuel
      → (g : F) × (replay ops endian hasher fresh erases fuel
            (laws.extent df)
            kh
            kf
            lf
            (laws.extent lf)
          ≡ some (ok g))
        × (laws.bytes g ≡ restore (laws.bytes kf) kh.block_size images)
        × (laws.extent kf ≤ laws.extent g)
  replayed fuel df kf lf dh kh lh images h enough =
      let (visitor, at) =
        reader-IsVisitor ops laws fresh lf log_header_size (laws.extent lf) (1024 * kh.block_size)
          (within h.records) (omega arith) (works.reads lf) in
      let r = reader fresh lf log_header_size (laws.extent lf) (1024 * kh.block_size) in
      let (g, e, same, longer) =
        replay_log-Replays ops laws works fresh kh (laws.extent df) lf (laws.extent lf) fuel
          log_header_size (record { kf = kf; bucket = start fresh kh; bytes = fresh; reader = r })
          images (record { visitor = visitor; at = at; block_lem = refl }) h.checked.log_bytes
          h.records enough in
      (
        g,
        replay_value ops laws works cuts endian hasher fresh erases fuel (laws.extent df)
              (laws.extent lf) kh kf lf (start fresh kh)
              (start_lem ops laws works cuts endian hasher fresh erases kh h.checked.block_size)
            ∙ e,
        same,
        longer,
      )

  -- Where the files of a database stand as a commit has left them, every call succeeds, and the
  -- fuel exceeds the number of whole records, `recover` returns, with no log: the data file is cut
  -- to the size that the header of the log says; and the key file too, with the bucket of every
  -- whole record in the block of its index and zeros behind it, and with its other bytes as
  -- they were.
  pub recover-restore :
      (fuel : ℕ) (df kf lf : F) (dh : DatFileHeader) (kh : KeyFileHeader) (lh : LogFileHeader)
      (images : List (ℕ × List ℕ))
      → (h : IsLogged ops laws endian hasher df kf lf dh kh lh images) → count h.records < fuel
      → erases.log ≡ ok tt
      → (d : F) × (k : F) × (recover ops endian hasher fresh erases fuel (ok df) (ok kf) (opened lf)
          ≡ some (ok (restored d k)))
        × IsCut laws df (laws.bytes df) lh.dat_file_size d
        × IsCut laws kf (restore (laws.bytes kf) kh.block_size images) lh.key_file_size k
  recover-restore fuel df kf lf dh kh lh images h enough erased =
      let (g, e, same, longer) = replayed fuel df kf lf dh kh lh images h enough in
      let (d, k, done, dat, key) =
        truncated ops laws works cuts endian hasher fresh erases df g lf lh h.checked.was_key
          erased in
      (
        d,
        k,
        recover_value ops laws works cuts endian hasher fresh erases fuel df kf lf dh (
              opened_files ops laws works cuts endian hasher fresh erases df kf dh h.checked.dat
                h.checked.dat_valid h.checked.buckets_there)
            ∙ recover_log_value ops laws works cuts endian hasher fresh erases fuel df kf lf dh lh
                h.checked.log h.checked.log_valid
            ∙ roll_back_value ops laws works cuts endian hasher fresh erases fuel df kf lf g dh kh
                lh h.checked.was_key
                (checked_key ops laws works cuts endian hasher fresh erases kf dh kh lh
                  h.checked.key h.checked.key_valid h.checked.dat_key_valid h.checked.key_log_valid)
                e
            ∙ ap some done,
        dat,
        record {
          extent = key.extent;
          bytes = λ x lt below. key.bytes x lt (omega (arith, longer)) ∙ ap (λ m. m x) same;
        },
      )
