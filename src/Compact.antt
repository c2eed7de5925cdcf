-- ===== src/Compact.antt =====
-- detail/bucket.hpp: `bucket_t::read` from a bulk reader, which takes a bucket less its unused
-- entries, as a log record has it.
pub mod Log
pub mod Image
use nu_db.Prelude.{ℕ, ◌+◌, ◌*◌}
use nu_db.Error.{Result, ok, ◌>>=◌}
use nu_db.Memory.{Memory, copy}
use nu_db.Field.{u16, u48, size}
use nu_db.Format.{bucket_header, entry_size}
use nu_db.Stream.{read, advance}
use nu_db.File.{FileOps}
use nu_db.Bucket.{Bucket, update}
use nu_db.BulkIo.{Reader, prepare_read}

module _ {F : Type 0} (ops : FileOps F) (fresh : Memory) where
  -- `read(bulk_reader&, ec)`. There is no test of the number of entries against the capacity.
  unfoldable pub read_bulk : Memory → Bucket → Reader F → Result (Bucket × Memory × Reader F)
  unfolding update advance read
  read_bulk m b r = do
    (is, r1) ← prepare_read ops fresh r (size u16 + size u48)
    (count, s1) ← read u16 r1.buf.bytes is
    (spill, _) ← read u48 r1.buf.bytes s1
    let b1 = record b { size = count; spill = spill }
    let m1 = update m b1
    let w = count * entry_size
    (is2, r2) ← prepare_read ops fresh r1 w
    (q, _) ← advance is2 w
    ok (b1, copy m1 (b.p + bucket_header) r2.buf.bytes q w, r2)
