-- ===== src/Rekey/Passes.antt =====
-- impl/rekey.ipp: the loops, and the files that `rekey` makes.
use nu_db.Prelude.{ℕ, zero, suc, ◌+◌, ◌-◌, ◌*◌, ◌/◌, min, max, none, some, leb, if◌then◌else◌}
use nu_db.Error.{Result}
use nu_db.Memory.{Memory}
use nu_db.Endian.{Endian}
use nu_db.Stream.{blob}
use nu_db.File.{FileOps}
use nu_db.Format.{Hasher, dat_header_size}
use nu_db.Format.Headers.{KeyFileHeader, read_dat_file}
use nu_db.Format.Verify.{verify_dat}
use nu_db.BulkIo.{Reader, reader, writer, eof, flush}
use nu_db.Recover.{Opened}
use nu_db.Rekey.{Plan, Rekeyer, rekey_header, empty_buckets, rekey_record}
use nu_db.Rekey.Start.{no_log, start_key, start_log, allocate_key}
use nu_db.Run.{Run, once, ◌>>=◌}

module _ {F : Type 0} (ops : FileOps F) (hasher : Hasher) (fresh : Memory)
    (kh : KeyFileHeader) where
  -- The loop over the data file, with fuel for the records
  unfoldable pub rekey_records : ℕ → ℕ → ℕ → Reader F → Rekeyer F → Run (Rekeyer F)
  unfolding rekey_record eof
  rekey_records b0 b1 zero r s = none
  rekey_records b0 b1 (suc turns) r s = if eof r then once s else do
    (v, t) ← some (rekey_record ops hasher fresh kh b0 b1 r s)
    rekey_records b0 b1 turns v t

  -- A pass, for the buckets [b0, b1) of the key file
  unfoldable pub rekey_pass : ℕ → ℕ → ℕ → ℕ → ℕ → F → Rekeyer F → Run (F × Rekeyer F)
  unfolding rekey_records empty_buckets reader
  rekey_pass turns dat_size read_size b0 b1 kf s = do
    let bn = b1 - b0
    let m = empty_buckets kh.block_size bn 0 s.memory
    let r = reader fresh s.dw.file dat_header_size dat_size read_size
    t ← rekey_records b0 b1 turns r (record s { memory = m })
    k ← some (ops.write kf ((b0 + 1) * kh.block_size) (blob t.memory 0 (bn * kh.block_size)))
    once (k, t)

  -- The passes from the bucket b0 on; the fuel is the number of buckets.
  unfoldable pub rekey_passes : ℕ → ℕ → ℕ → ℕ → ℕ → ℕ → F → Rekeyer F → Run (F × Rekeyer F)
  unfolding rekey_pass
  rekey_passes turns dat_size read_size chunk zero b0 kf s = none
  rekey_passes turns dat_size read_size chunk (suc passes) b0 kf s =
      if leb kh.buckets b0 then once (kf, s) else do
        (k, t) ← rekey_pass turns dat_size read_size b0 (min (b0 + chunk) kh.buckets) kf s
        rekey_passes turns dat_size read_size chunk passes (b0 + chunk) k t

module _ {F : Type 0} (ops : FileOps F) (endian : Endian) (hasher : Hasher) (fresh : Memory) where
  -- `rekey`, with fuel for the records of the data file, and with what opening the data file and the
  -- log, creating the key file and the log, and erasing the log give: the data file and the key file.
  unfoldable pub rekey :
      ℕ → Plan → Result F → Opened F → Result F → Result F → Result (Unit {0}) → Run (F × F)
  unfolding rekey_header start_key start_log allocate_key rekey_passes no_log writer
  rekey turns a dat log key new_log erased = do
    df ← some dat
    dh ← some (read_dat_file ops df)
    _ ← some (verify_dat dh)
    dat_size ← some (ops.size df)
    _ ← some (no_log log)
    let kh = rekey_header endian hasher dh a
    k0 ← some key
    k1 ← some (start_key ops fresh kh k0)
    l0 ← some new_log
    l1 ← some (start_log ops endian hasher kh dat_size l0)
    k2 ← some (allocate_key ops fresh kh k1)
    let chunk = max 1 (a.buffer_size / kh.block_size)
    let s : Rekeyer F = record { memory = fresh; dw = writer fresh df dat_size a.write_size }
    (k3, t) ←
        rekey_passes ops hasher fresh kh turns dat_size a.read_size chunk (suc kh.buckets) 0 k2 s
    w ← some (flush ops fresh t.dw)
    _ ← some erased
    once (w.file, k3)
