-- ===== src/Rekey/Start.antt =====
-- impl/rekey.ipp: the headers of the key file and of the log that `rekey` starts with.
use nu_db.Prelude.{ℕ, ◌+◌, ◌-◌, ◌*◌, [], ◌∷◌}
use nu_db.Error.{Result, ok, err, log_file_exists, ◌>>=◌}
use nu_db.Memory.{Memory, fill}
use nu_db.Endian.{Endian}
use nu_db.File.{FileOps}
use nu_db.Format.{Hasher, key_header_size}
use nu_db.Format.Headers.{KeyFileHeader, write_log_file}
use nu_db.Commit.Files.{log_header}
use nu_db.Recover.{Opened, opened, absent, unopened}
use nu_db.Rekey.{header_bytes}

-- What opening the log file must give: there is none.
unfoldable pub no_log : {F : Type 0} → Opened F → Result (Unit {0})
no_log (opened f) = err log_file_exists
no_log absent = ok tt
no_log (unopened e) = err e

module _ {F : Type 0} (ops : FileOps F) where
  -- The key file with its header alone, before there is a log
  unfoldable pub start_key : Memory → KeyFileHeader → F → Result F
  unfolding header_bytes
  start_key fresh kh kf = ops.write kf 0 (header_bytes fresh kh key_header_size) >>= ops.sync

  -- The log file of `rekey`: after it, `recover` erases the key file.
  unfoldable pub start_log : Endian → Hasher → KeyFileHeader → ℕ → F → Result F
  unfolding log_header
  start_log endian hasher kh dat_size lf =
      write_log_file ops lf
        (log_header endian hasher kh.uid kh.appnum kh.key_size kh.salt kh.block_size 0 dat_size)
      >>= ops.sync

  -- The full key file: a block with the header, and a byte at the end of the last bucket
  unfoldable pub allocate_key : Memory → KeyFileHeader → F → Result F
  unfolding header_bytes
  allocate_key fresh kh kf = do
    k ← ops.write kf 0 (header_bytes (fill fresh 0 0 kh.block_size) kh kh.block_size)
    k' ← ops.sync k
    l ← ops.write k' ((kh.buckets + 1) * kh.block_size - 1) (0 ∷ [])
    ops.sync l
