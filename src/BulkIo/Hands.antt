-- ===== src/BulkIo/Hands.antt =====
-- A reader of a file that can be read up to the reader's end: the bytes that it hands out, and
-- where it says that the read is short.
use nu_db.Prelude.{ℕ, ◌+◌, ◌≤◌, ◌<◌, ◌≡◌, refl, ap, ◌∙◌, arith}
use nu_db.Error.{ok, err, short_read}
use nu_db.Memory.{Memory}
use nu_db.Stream.{Istream}
use nu_db.File.{FileOps, FileLaws}
use nu_db.BulkIo.{Reader, position, prepare_read, reader}
use nu_db.BulkIo.Reading.{
  IsReader, ReadsWithin, prepare_read-total, prepare_read_short, reader-IsReader,
}

module _ {F : Type 0} (ops : FileOps F) (laws : FileLaws ops) (fresh : Memory) where
  -- A reader in order, whose file can be read up to the reader's end.
  pub record IsVisitor (f : F) (last : ℕ) (r : Reader F) : Type 0 where
    pub reader : IsReader ops laws fresh r
    pub file : r.file ≡ f
    pub last_lem : r.last ≡ last
    pub inside : last ≤ laws.extent f
    pub reads : ReadsWithin ops laws fresh f

  -- The next bytes, and the reader behind them
  pub record Hands (f : F) (last : ℕ) (r : Reader F) (needed : ℕ) (is : Istream) (v : Reader F)
      : Type 0 where
    pub done : prepare_read ops fresh r needed ≡ ok (is, v)
    pub visitor : IsVisitor f last v
    pub left : is.left ≡ needed
    pub bytes : (k : ℕ) → k < needed → v.buf.bytes (is.buf + k) ≡ laws.bytes f (position r + k)
    pub advanced : position v ≡ position r + needed

  pub next :
      (f : F) (last : ℕ) (r : Reader F) (needed : ℕ)
      → IsVisitor f last r
      → position r + needed ≤ last
      → (is : Istream) × (v : Reader F) × Hands f last r needed is v
  next f last r needed h fits =
      let ((is, v), done, got) =
        prepare_read-total ops laws fresh r needed h.reader (omega (arith, h.last_lem))
          (rw (h.last_lem, h.file) h.inside) (rw h.file h.reads) in
      (
        is,
        v,
        record {
          done = done;
          visitor = record {
            reader = got.reader;
            file = got.file ∙ h.file;
            last_lem = got.last ∙ h.last_lem;
            inside = h.inside;
            reads = h.reads;
          };
          left = got.length;
          bytes = λ k lt. got.bytes k lt ∙ ap (λ g. laws.bytes g (position r + k)) h.file;
          advanced = got.advanced;
        },
      )

  pub next_short :
      (f : F) (last : ℕ) (r : Reader F) (needed : ℕ)
      → IsVisitor f last r
      → last < position r + needed
      → prepare_read ops fresh r needed ≡ err short_read
  next_short f last r needed h short =
      prepare_read_short ops laws fresh r needed h.reader (omega (arith, h.last_lem))

  pub reader-IsVisitor :
      (f : F) (offset last size : ℕ)
      → offset ≤ last
      → last ≤ laws.extent f
      → ReadsWithin ops laws fresh f
      → IsVisitor f last (reader fresh f offset last size)
        × (position (reader fresh f offset last size) ≡ offset)
  reader-IsVisitor f offset last size le inside reads =
      let (ordered, at) = reader-IsReader ops laws fresh f offset last size le in
      (
        record {
          reader = ordered;
          file = unfold reader in refl;
          last_lem = unfold reader in refl;
          inside = inside;
          reads = reads;
        },
        at,
      )
