-- ===== src/Compact/Image.antt =====
-- What a bulk reader gives of a bucket, byte by byte, where the bytes need not be those of a
-- well-formed bucket; and where it says that the read is short.
use nu_db.Prelude.{
  ℕ, ◌+◌, ◌*◌, ◌-◌, ◌≤◌, ◌<◌, ◌≡◌, refl, ap, ◌∙◌, ltb, false, Bool-cases, inl, inr, ltb→lt, arith,
}
use nu_db.Error.{ok, err, short_read}
use nu_db.Memory.{Memory, IsBytes}
use nu_db.Field.{u16, u48, readp}
use nu_db.Field.RoundTrip.{readp_congr, writep_frame}
use nu_db.Field.Bytes.{writep-readp16, writep-readp48}
use nu_db.Stream.{Istream}
use nu_db.Format.{bucket_header, entry_size}
use nu_db.File.{FileOps, FileLaws}
use nu_db.Bucket.{Bucket, update}
use nu_db.Bucket.Writes.{copy_inside, copy_outside}
use nu_db.BulkIo.{Reader, position}
use nu_db.BulkIo.Hands.{IsVisitor, Hands, next, next_short}
use nu_db.Compact.{read_bulk}
use nu_db.Compact.Log.{loaded, read_bulk_value}

-- The bucket whose header stands in some bytes at an address
abbrev pub headed : Memory → ℕ → Bucket → Bucket
headed s p c = record c { size = readp u16 s p; spill = readp u48 s (p + 2) }

-- The header that is written anew has the bytes that were read.
header_bytes :
    (t s : Memory) (c : Bucket) (p k : ℕ)
    → IsBytes s
    → k < 8
    → update t (headed s p c) (c.p + k) ≡ s (p + k)
unfolding update
header_bytes t s c p k b lt = elim (Bool-cases (ltb k 2)) [
  | inl low ↦
      writep_frame u48 _ (c.p + 2) _ (c.p + k) (ground arith)
      ∙ writep-readp16 t s c.p p k b (ltb→lt _ _ low)
  | inr high ↦
      let e : c.p + k ≡ c.p + 2 + (k - 2) = ground arith in
      let f : p + k ≡ p + 2 + (k - 2) = ground arith in
      rw (e, f) (writep-readp48 _ s (c.p + 2) (p + 2) (k - 2) b (ground arith))
]

image_bytes :
    (t s source : Memory) (c : Bucket) (p a k : ℕ)
    → IsBytes s
    → ((j : ℕ) → j < readp u16 s p * entry_size → source (a + j) ≡ s (p + 8 + j))
    → k < 8 + readp u16 s p * entry_size
    → loaded t (headed s p c) c.p source a (c.p + k) ≡ s (p + k)
unfolding loaded
image_bytes t s source c p a k b got lt = elim (Bool-cases (ltb k 8)) [
  | inl low ↦
      copy_outside _ (c.p + bucket_header) source a _ (c.p + k) (ground arith)
      ∙ header_bytes t s c p k b (ltb→lt _ _ low)
  | inr high ↦
      let e : c.p + k ≡ c.p + bucket_header + (k - 8) = ground arith in
      let f : p + k ≡ p + 8 + (k - 8) = ground arith in
      rw (e, f)
        (copy_inside _ (c.p + bucket_header) source a _ (k - 8) (ground arith)
          ∙ got (k - 8) (ground arith))
]

module _ {F : Type 0} (ops : FileOps F) (laws : FileLaws ops) (fresh : Memory) where
  -- A bucket with the bytes that the file has from p on, and the reader behind them
  pub record Takes (f : F) (last p : ℕ) (t : Memory) (c : Bucket) (r : Reader F) (n : Memory)
      (s : Reader F) : Type 0 where
    pub done : read_bulk ops fresh t c r ≡ ok (headed (laws.bytes f) p c, n, s)
    pub visitor : IsVisitor ops laws fresh f last s
    pub advanced : position s ≡ p + (8 + readp u16 (laws.bytes f) p * entry_size)
    pub bytes :
        (k : ℕ)
        → k < 8 + readp u16 (laws.bytes f) p * entry_size
        → n (c.p + k) ≡ laws.bytes f (p + k)

  header_read :
      (f : F) (last p : ℕ) (r v : Reader F) (is : Istream)
      → position r ≡ p
      → Hands ops laws fresh f last r 8 is v
      → (readp u16 v.buf.bytes is.buf ≡ readp u16 (laws.bytes f) p)
        × (readp u48 v.buf.bytes (is.buf + 2) ≡ readp u48 (laws.bytes f) (p + 2))
  header_read f last p r v is at h = (
    readp_congr u16 v.buf.bytes (laws.bytes f) is.buf p
        (λ k lt. h.bytes k (omega arith) ∙ ap (λ x. laws.bytes f (x + k)) at),
    readp_congr u48 v.buf.bytes (laws.bytes f) (is.buf + 2) (p + 2) (λ k lt.
        let e : is.buf + 2 + k ≡ is.buf + (2 + k) = omega arith in
        let g : position r + (2 + k) ≡ p + 2 + k = omega (arith, at) in
        ap v.buf.bytes e ∙ h.bytes (2 + k) (omega arith) ∙ ap (laws.bytes f) g),
  )

  pub read_bulk-Takes :
      (f : F) (last p : ℕ) (t : Memory) (c : Bucket) (r : Reader F)
      → IsVisitor ops laws fresh f last r
      → position r ≡ p
      → IsBytes (laws.bytes f)
      → p + (8 + readp u16 (laws.bytes f) p * entry_size) ≤ last
      → (n : Memory) × (s : Reader F) × Takes f last p t c r n s
  read_bulk-Takes f last p t c r h at b fits =
      let (is, v, h1) = next ops laws fresh f last r 8 h (omega (arith, at)) in
      let w = readp u16 (laws.bytes f) p * entry_size in
      let (is2, s, h2) =
        next ops laws fresh f last v w h1.visitor (omega (arith, at, h1.advanced)) in
      let head = header_read f last p r v is at h1 in
      let got : (j : ℕ) → j < w → s.buf.bytes (is2.buf + j) ≡ laws.bytes f (p + 8 + j) =
        λ j lt. h2.bytes j lt ∙ ap (λ x. laws.bytes f (x + j)) (omega (arith, at, h1.advanced)) in
      (
        loaded t (headed (laws.bytes f) p c) c.p s.buf.bytes is2.buf,
        s,
        record {
          done =
              read_bulk_value ops laws fresh t (headed (laws.bytes f) p c) c r v s is is2 h1.done
                h1.left head h2.done h2.left refl;
          visitor = h2.visitor;
          advanced = omega (arith, at, h1.advanced, h2.advanced);
          bytes = λ k lt. image_bytes t (laws.bytes f) s.buf.bytes c p is2.buf k b got lt;
        },
      )

  -- A header that is not whole, and entries that are not
  pub read_bulk_short :
      (f : F) (last p : ℕ) (t : Memory) (c : Bucket) (r : Reader F)
      → IsVisitor ops laws fresh f last r
      → position r ≡ p
      → last < p + 8
      → read_bulk ops fresh t c r ≡ err short_read
  unfolding read_bulk
  read_bulk_short f last p t c r h at short =
      rw (next_short ops laws fresh f last r 8 h (omega (arith, at))) refl

  pub read_bulk_torn :
      (f : F) (last p : ℕ) (t : Memory) (c : Bucket) (r : Reader F)
      → IsVisitor ops laws fresh f last r
      → position r ≡ p
      → p + 8 ≤ last
      → last < p + (8 + readp u16 (laws.bytes f) p * entry_size)
      → read_bulk ops fresh t c r ≡ err short_read
  unfolding read_bulk
  read_bulk_torn f last p t c r h at fits short =
      let (is, v, h1) = next ops laws fresh f last r 8 h (omega (arith, at)) in
      let head = header_read f last p r v is at h1 in
      let a1 : ltb is.left 2 ≡ false = ground (arith, h1.left) in
      let a2 : ltb (is.left - 2) 6 ≡ false = ground (arith, h1.left) in
      let none_left =
        next_short ops laws fresh f last v (readp u16 (laws.bytes f) p * entry_size) h1.visitor
          (omega (arith, at, h1.advanced)) in
      rw (h1.done, a1, a2, head.0, none_left) refl
