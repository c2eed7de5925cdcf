-- ===== src/BulkIo.antt =====
-- detail/bulkio.hpp and detail/buffer.hpp: large sequential reads and writes through a buffer.
-- Offsets stay far below 2^64.
pub mod Reading
pub mod Writing
pub mod Hands
use nu_db.Prelude.{ℕ, ◌+◌, ◌-◌, min, Bool, ltb, leb, ◌==◌, if◌then◌else◌}
use nu_db.Error.{Result, ok, err, short_read, ◌>>=◌}
use nu_db.Memory.{Memory, copy}
use nu_db.Stream.{Istream, Ostream, blob, store}
use nu_db.File.{FileOps}

-- `buffer`: its bytes and `size_`. A new block of memory holds anything.
pub record Buffer : Type 0 where
  pub bytes : Memory
  pub size : ℕ

-- `reserve`: a larger block is a new one, whose bytes are those of `fresh`.
unfoldable pub reserve : Memory → Buffer → ℕ → Buffer
reserve fresh b n =
    if ltb b.size n then record { bytes = fresh; size = n } else record b { size = n }

-- `bulk_reader`
pub record Reader (F : Type 0) : Type 0 where
  pub file : F
  pub buf : Buffer
  pub last : ℕ
  pub offset : ℕ
  pub avail : ℕ
  pub used : ℕ

-- `bulk_writer`
pub record Writer (F : Type 0) : Type 0 where
  pub file : F
  pub buf : Buffer
  pub offset : ℕ
  pub used : ℕ

module _ {F : Type 0} (fresh : Memory) where
  -- The constructors.
  unfoldable pub reader : F → ℕ → ℕ → ℕ → Reader F
  unfolding reserve
  reader f offset last buffer_size = record {
    file = f;
    buf = reserve fresh (record { bytes = fresh; size = 0 }) buffer_size;
    last = last;
    offset = offset;
    avail = 0;
    used = 0;
  }

  unfoldable pub writer : F → ℕ → ℕ → Writer F
  unfolding reserve
  writer f offset buffer_size = record {
    file = f;
    buf = reserve fresh (record { bytes = fresh; size = 0 }) buffer_size;
    offset = offset;
    used = 0;
  }

-- `bulk_reader::offset`, `eof` and `bulk_writer::offset`
abbrev pub position : {F : Type 0} → Reader F → ℕ
position r = r.offset - r.avail

unfoldable pub eof : {F : Type 0} → Reader F → Bool
eof r = leb r.last (position r)

abbrev pub tail : {F : Type 0} → Writer F → ℕ
tail w = w.offset + w.used

-- The bytes that are left of the buffer move to its start, or to a larger buffer.
unfoldable pub compact : Memory → Buffer → ℕ → ℕ → ℕ → Buffer
compact fresh b used avail needed =
    if ltb b.size needed
    then record { bytes = copy fresh 0 b.bytes used avail; size = needed }
    else record b { bytes = copy b.bytes 0 b.bytes used avail }

module _ {F : Type 0} (ops : FileOps F) (fresh : Memory) where
  -- The part of `bulk_reader::prepare` that reads from the file.
  unfoldable pub refill : Reader F → ℕ → Result (Reader F)
  refill r needed = if ltb r.last (r.offset + needed - r.avail) then err short_read else (do
    let b = compact fresh r.buf r.used r.avail needed
    let n = min (b.size - r.avail) (r.last - r.offset)
    bs ← ops.read r.file r.offset n
    ok (record r {
      buf = record b { bytes = store b.bytes r.avail bs };
      offset = r.offset + n;
      avail = r.avail + n;
      used = 0;
    }))

  -- `bulk_reader::prepare`
  unfoldable pub prepare_read : Reader F → ℕ → Result (Istream × Reader F)
  prepare_read r needed = do
    s ← if ltb r.avail needed then refill r needed else ok r
    ok (
      record { buf = s.used; left = needed },
      record s { used = s.used + needed; avail = s.avail - needed },
    )

  -- `bulk_writer::flush`
  unfoldable pub flush : Writer F → Result (Writer F)
  flush w =
      if ltb 0 w.used
      then (do
        g ← ops.write w.file w.offset (blob w.buf.bytes 0 w.used)
        ok (record w { file = g; offset = w.offset + w.used; used = 0 }))
      else ok w

  -- `bulk_writer::prepare`
  unfoldable pub prepare_write : Writer F → ℕ → Result (Ostream × Writer F)
  prepare_write w needed = do
    v ← if ltb w.buf.size (w.used + needed) then flush w else ok w
    let b = if ltb v.buf.size needed then reserve fresh v.buf needed else v.buf
    ok (record { buf = v.used; written = 0 }, record v { buf = b; used = v.used + needed })
