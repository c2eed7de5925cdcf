-- ===== src/Recover/Calls.antt =====
-- The calls that `recover` makes, from what each of them gives.
use nu_db.Prelude.{
  ℕ, ◌-◌, ◌*◌, ◌≤◌, ◌<◌, ◌≡◌, refl, ◌∙◌, some, Bool, if◌then◌else◌, ltb, ◌==◌, true, false, arith,
}
use nu_db.Error.{ok}
use nu_db.Memory.{Memory}
use nu_db.Endian.{Endian}
use nu_db.Stream.Items.{read_lem}
use nu_db.Field.{u16, u48, readp}
use nu_db.File.{FileOps, FileLaws, Works, Cuts}
use nu_db.Format.{Hasher, key_header_size, log_header_size}
use nu_db.Format.Headers.{
  DatFileHeader, KeyFileHeader, LogFileHeader, read_dat_file, read_key_file, read_log_file,
}
use nu_db.Format.Verify.{verify_dat, verify_key, verify_dat_key, verify_log, verify_key_log}
use nu_db.Bucket.{Bucket, load}
use nu_db.BulkIo.{reader}
use nu_db.Recover.{
  Erasures, opened, restored, open_files, check_key, trunc_files, clear_log, replay_log, replay,
  roll_back, recover_log, recover,
}

-- A file is cut to a number of bytes, the others being those of a memory.
pub record IsCut {F : Type 0} {ops : FileOps F} (laws : FileLaws ops) (was : F) (m : Memory)
    (size : ℕ) (f : F) : Type 0 where
  pub extent : laws.extent f ≡ size
  pub bytes : (x : ℕ) → x < size → x < laws.extent was → laws.bytes f x ≡ m x

-- The bucket that the loop starts with has whatever the new buffer holds.
abbrev pub start : Memory → KeyFileHeader → Bucket
start fresh kh = record {
  block_size = kh.block_size;
  size = readp u16 fresh 0;
  spill = readp u48 fresh 2;
  p = 0;
}

if-false : {A : Type 0} (c : Bool) (x y : A) → c ≡ false → (if c then x else y) ≡ y
if-false c x y e = rw e refl

module _ {F : Type 0} (ops : FileOps F) (laws : FileLaws ops) (works : Works ops laws)
    (cuts : Cuts ops laws) (endian : Endian) (hasher : Hasher) (fresh : Memory)
    (erases : Erasures) where
  pub opened_files :
      (df kf : F) (dh : DatFileHeader)
      → read_dat_file ops df ≡ ok dh
      → verify_dat dh ≡ ok tt
      → key_header_size < laws.extent kf
      → open_files ops erases (ok df) (ok kf) ≡ ok (df, (laws.extent df, (dh, kf)))
  unfolding open_files
  opened_files df kf dh e1 e2 lt =
      let large : ltb key_header_size (laws.extent kf) ≡ true = ground arith in
      rw (works.sizes df, e1, e2, works.sizes kf, large) refl

  pub checked_key :
      (kf : F) (dh : DatFileHeader) (kh : KeyFileHeader) (lh : LogFileHeader)
      → read_key_file ops kf ≡ ok kh
      → verify_key endian hasher kh ≡ ok tt
      → verify_dat_key endian hasher dh kh ≡ ok tt
      → verify_key_log endian hasher kh lh ≡ ok tt
      → check_key ops endian hasher fresh erases dh lh kf ≡ ok kh
  unfolding check_key
  checked_key kf dh kh lh e1 e2 e3 e4 = rw (e1, e2, e3, e4) refl

  -- The two files are cut, and the log is erased.
  pub truncated :
      (df kf lf : F) (lh : LogFileHeader)
      → 0 < lh.key_file_size
      → erases.log ≡ ok tt
      → (d : F) × (k : F) × (trunc_files ops erases lh df kf lf ≡ ok (restored d k))
        × IsCut laws df (laws.bytes df) lh.dat_file_size d
        × IsCut laws kf (laws.bytes kf) lh.key_file_size k
  unfolding trunc_files clear_log
  truncated df kf lf lh some_key erased =
      let (d, e1) = cuts.cuts df lh.dat_file_size in
      let (d', e2) = works.syncs d in
      let (k, e3) = cuts.cuts kf lh.key_file_size in
      let (k', e4) = works.syncs k in
      let (l, e5) = cuts.cuts lf 0 in
      let (l', e6) = works.syncs l in
      let a : (lh.key_file_size == 0) ≡ false = ground arith in
      (
        d',
        k',
        rw (e1, e2, a, e3, e4, e5, e6, erased) refl,
        record {
          extent = works.sync_extent d d' e2 ∙ cuts.cut_extent df _ d e1;
          bytes = λ x lt below. works.sync_lem d d' e2 x ∙ cuts.cut_lem df _ d e1 x lt below;
        },
        record {
          extent = works.sync_extent k k' e4 ∙ cuts.cut_extent kf _ k e3;
          bytes = λ x lt below. works.sync_lem k k' e4 x ∙ cuts.cut_lem kf _ k e3 x lt below;
        },
      )

  pub start_lem :
      (kh : KeyFileHeader) → 8 ≤ kh.block_size → load fresh kh.block_size 0 ≡ ok (start fresh kh)
  unfolding load
  start_lem kh room =
      rw
        (
          read_lem u16 fresh 0 kh.block_size (omega arith),
          read_lem u48 fresh 2 (kh.block_size - 2) (omega arith),
        )
        refl

  pub replay_value :
      (fuel dat_size log_size : ℕ) (kh : KeyFileHeader) (kf lf : F) (b : Bucket)
      → load fresh kh.block_size 0 ≡ ok b
      → replay ops endian hasher fresh erases fuel dat_size kh kf lf log_size
        ≡ replay_log ops fresh fuel kh dat_size (record {
          kf = kf;
          bucket = b;
          bytes = fresh;
          reader = reader fresh lf log_header_size log_size (1024 * kh.block_size);
        })
  unfolding replay
  replay_value fuel dat_size log_size kh kf lf b e = rw (e, replay) refl

  -- The calls, from what each of them gives
  pub recover_value :
      (fuel : ℕ) (df kf lf : F) (dh : DatFileHeader)
      → open_files ops erases (ok df) (ok kf) ≡ ok (df, (laws.extent df, (dh, kf)))
      → recover ops endian hasher fresh erases fuel (ok df) (ok kf) (opened lf)
        ≡ recover_log ops endian hasher fresh erases fuel (laws.extent df) dh df kf lf
  unfolding recover
  recover_value fuel df kf lf dh e = rw (e, recover) refl

  pub recover_log_value :
      (fuel : ℕ) (df kf lf : F) (dh : DatFileHeader) (lh : LogFileHeader)
      → read_log_file ops lf ≡ ok lh
      → verify_log endian hasher lh ≡ ok tt
      → recover_log ops endian hasher fresh erases fuel (laws.extent df) dh df kf lf
        ≡ roll_back ops endian hasher fresh erases fuel
            (laws.extent df)
            dh
            lh
            df
            kf
            lf
            (laws.extent lf)
  unfolding recover_log
  recover_log_value fuel df kf lf dh lh e1 e2 = rw (works.sizes lf, recover_log, e1, e2) refl

  pub roll_back_value :
      (fuel : ℕ) (df kf lf g : F) (dh : DatFileHeader) (kh : KeyFileHeader) (lh : LogFileHeader)
      → 0 < lh.key_file_size
      → check_key ops endian hasher fresh erases dh lh kf ≡ ok kh
      → replay ops endian hasher fresh erases fuel (laws.extent df) kh kf lf (laws.extent lf)
        ≡ some (ok g)
      → roll_back ops endian hasher fresh erases fuel
          (laws.extent df)
          dh
          lh
          df
          kf
          lf
          (laws.extent lf)
        ≡ some (trunc_files ops erases lh df g lf)
  unfolding roll_back
  roll_back_value fuel df kf lf g dh kh lh some_key e1 e2 =
      let a : (lh.key_file_size == 0) ≡ false = ground arith in
      if-false (lh.key_file_size == 0) _ _ a ∙ rw (e1, roll_back, e2) refl
