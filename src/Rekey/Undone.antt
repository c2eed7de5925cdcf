-- ===== src/Rekey/Undone.antt =====
-- A `rekey` that was cut short, and `recover` after it.
use nu_db.Prelude.{ℕ}
use nu_db.Memory.{Memory}
use nu_db.Endian.{Endian}
use nu_db.Format.{Hasher}
use nu_db.Format.Headers.{KeyFileHeader, LogFileHeader}
use nu_db.Commit.Files.{log_header}

-- The header that `start_log` writes
abbrev pub log_of : Endian → Hasher → KeyFileHeader → ℕ → LogFileHeader
log_of endian hasher kh dat_size =
    log_header endian hasher kh.uid kh.appnum kh.key_size kh.salt kh.block_size 0 dat_size
