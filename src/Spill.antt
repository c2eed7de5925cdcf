-- ===== src/Spill.antt =====
-- detail/bucket.hpp, maybe_spill: a full bucket moves to the data file as a spill record.
pub mod Record
use nu_db.Prelude.{ℕ, ◌+◌, if◌then◌else◌}
use nu_db.Error.{Result, ok, ◌>>=◌}
use nu_db.Memory.{Memory}
use nu_db.Field.{u16, u48, size}
use nu_db.Stream.{Ostream, write}
use nu_db.File.{FileOps}
use nu_db.Bucket.{Bucket, actual_size, full, clear, set_spill, write_stream}
use nu_db.BulkIo.{Writer, tail, prepare_write}

module _ {F : Type 0} (ops : FileOps F) (fresh : Memory) where
  -- The spill record and the bucket that is left, once there is room in the writer.
  unfoldable pub spill_record :
      Memory → Bucket → ℕ → Ostream → Writer F → Bucket × Memory × Writer F
  spill_record m b offset os w =
      let (os1, m1) = write u48 os w.buf.bytes 0 in
      let (os2, m2) = write u16 os1 m1 (actual_size b) in
      let spill = offset + os2.written in
      let (_, m3) = write_stream os2 m2 m b in
      let (b1, n1) = clear m b in
      let (b2, n2) = set_spill n1 b1 spill in
      (b2, n2, record w { buf = record w.buf { bytes = m3 } })

  -- `maybe_spill`
  unfoldable pub maybe_spill : Memory → Bucket → Writer F → Result (Bucket × Memory × Writer F)
  maybe_spill m b w =
      if full b
      then (do
        let offset = tail w
        (os, v) ← prepare_write ops fresh w (size u48 + size u16 + actual_size b)
        ok (spill_record m b offset os v))
      else ok (b, m, w)
