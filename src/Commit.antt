-- ===== src/Commit.antt =====
-- impl/basic_store.ipp, commit: the loop that writes the inserted pairs to the data file.
pub mod Values
pub mod Buckets
pub mod Files
pub mod Steps
pub mod Blobs
pub mod Keys
pub mod Records
pub mod Logged
pub mod Crash
use nu_db.Prelude.{ℕ, List, [], ◌∷◌}
use nu_db.Error.{Result, ok, ◌>>=◌}
use nu_db.Memory.{Memory}
use nu_db.Field.{u48}
use nu_db.Stream.{Ostream, write, write_blob}
use nu_db.File.{FileOps}
use nu_db.Format.{value_size}
use nu_db.BulkIo.{Writer, tail, prepare_write}
use nu_db.Pool.{Item}

-- The writes of a data record to the stream
unfoldable pub put_value : Ostream → Memory → Item → Memory
unfolding write write_blob
put_value os m e =
    let (os1, m1) = write u48 os m e.size in
    let (os2, m2) = write_blob os1 m1 e.key in (write_blob os2 m2 e.content).1

module _ {F : Type 0} (ops : FileOps F) (fresh : Memory) (key_size : ℕ) where
  -- The body of the loop: the offset of the record, and the writer
  unfoldable pub write_value : Writer F → Item → Result (ℕ × Writer F)
  unfolding put_value
  write_value w e = do
    let offset = tail w
    (os, v) ← prepare_write ops fresh w (value_size e.size key_size)
    ok (offset, record v { buf = record v.buf { bytes = put_value os v.buf.bytes e } })

  -- The loop over the pool: each item gets its offset.
  unfoldable pub write_values : Writer F → List (Item × ℕ) → Result (List (Item × ℕ) × Writer F)
  unfolding write_value
  write_values w [] = ok ([], w)
  write_values w ((e, _) ∷ es) = do
    (offset, v) ← write_value w e
    (rest, u) ← write_values v es
    ok ((e, offset) ∷ rest, u)
