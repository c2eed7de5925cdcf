-- ===== src/Compact/Log.antt =====
-- What a bulk reader gives where the file holds a bucket less its unused entries.
use nu_db.Prelude.{ℕ, ◌+◌, ◌*◌, ◌≤◌, ◌<◌, ◌≡◌, refl, ◌∙◌, ◌-◌, ltb, false, arith}
use nu_db.Error.{ok}
use nu_db.Memory.{Memory, copy}
use nu_db.Field.{u16, u48, readp}
use nu_db.Field.RoundTrip.{readp_congr}
use nu_db.Format.{bucket_header, entry_size, bucket_size}
use nu_db.Stream.{Istream}
use nu_db.File.{FileOps, FileLaws}
use nu_db.Bucket.{Bucket, actual_size, update}
use nu_db.Bucket.Entries.{entries, base}
use nu_db.Bucket.Insert.{IsBucket}
use nu_db.Bucket.Writes.{update_stored, copy_inside, copy_outside}
use nu_db.Bucket.Transfer.{Holds, there-IsBucket}
use nu_db.BulkIo.{Reader, position, prepare_read}
use nu_db.BulkIo.Reading.{IsReader, ReadsWithin, prepare_read-total}
use nu_db.Compact.{read_bulk}

-- The header that is written anew, and the entries that are copied behind it.
unfoldable pub loaded : Memory → Bucket → ℕ → Memory → ℕ → Memory
loaded t b q source a =
    copy (update t (record b { p = q })) (q + bucket_header) source a (b.size * entry_size)

loaded-IsBucket :
    (m t : Memory) (b : Bucket) (q : ℕ) (source : Memory) (a : ℕ)
    → IsBucket m b
    → ((k : ℕ) → k < b.size * entry_size → source (a + k) ≡ m (base b + k))
    → let n = loaded t b q source a in
      let d = record b { p = q } in IsBucket n d × (entries n d ≡ entries m b)
unfolding loaded
loaded-IsBucket m t b q source a v got =
    let d = record b { p = q } in
    let stored = update_stored t d (omega (arith, v.room, v.small)) v.spill_fits in
    let n = loaded t b q source a in
    there-IsBucket m n b q v (λ k lt. copy_inside _ (q + bucket_header) source a _ k lt ∙ got k lt)
      (readp_congr u16 n (update t d) q q
          (λ k lt. copy_outside _ (q + bucket_header) source a _ (q + k) (omega arith))
        ∙ stored.0)
      (readp_congr u48 n (update t d) (q + 2) (q + 2)
          (λ k lt. copy_outside _ (q + bucket_header) source a _ (q + 2 + k) (omega arith))
        ∙ stored.1)

module _ {F : Type 0} (ops : FileOps F) (laws : FileLaws ops) (fresh : Memory) where
  -- What reading a bucket gives: the bucket at its own blob, and the reader behind it.
  pub record Takes (m : Memory) (b : Bucket) (r : Reader F) (c : Bucket) (n : Memory) (s : Reader F)
      : Type 0 where
    pub bucket : IsBucket n c
    pub entries_same : entries n c ≡ entries m b
    pub spill : c.spill ≡ b.spill
    pub reader : IsReader ops laws fresh s
    pub advanced : position s ≡ position r + actual_size b

  count_handed :
      (m : Memory) (b : Bucket) (s : Reader F) (is : Istream)
      → IsBucket m b
      → ((k : ℕ) → k < 8 → s.buf.bytes (is.buf + k) ≡ m (b.p + k))
      → (readp u16 s.buf.bytes is.buf ≡ b.size) × (readp u48 s.buf.bytes (is.buf + 2) ≡ b.spill)
  count_handed m b s is v got = (
    readp_congr u16 s.buf.bytes m is.buf b.p (λ k lt. got k (omega arith)) ∙ v.stored_size,
    readp_congr u48 s.buf.bytes m (is.buf + 2) (b.p + 2) (λ k lt.
          let e : is.buf + 2 + k ≡ is.buf + (2 + k) = omega arith in
          let f : b.p + 2 + k ≡ b.p + (2 + k) = omega arith in
          rw (e, f) (got (2 + k) (omega arith)))
        ∙ v.stored_spill,
  )

  -- The calls of `read`, one after the other.
  pub read_bulk_value :
      (t : Memory) (b c : Bucket) (r r1 r2 : Reader F) (is is2 : Istream)
      → prepare_read ops fresh r 8 ≡ ok (is, r1)
      → is.left ≡ 8
      → (readp u16 r1.buf.bytes is.buf ≡ b.size) × (readp u48 r1.buf.bytes (is.buf + 2) ≡ b.spill)
      → prepare_read ops fresh r1 (b.size * entry_size) ≡ ok (is2, r2)
      → is2.left ≡ b.size * entry_size
      → c.block_size ≡ b.block_size
      → read_bulk ops fresh t c r
        ≡ ok (record b { p = c.p }, loaded t b c.p r2.buf.bytes is2.buf, r2)
  unfolding read_bulk loaded
  read_bulk_value t b c r r1 r2 is is2 e1 n1 head e2 n2 block =
      let a1 : ltb is.left 2 ≡ false = ground arith in
      let a2 : ltb (is.left - 2) 6 ≡ false = ground arith in
      let a3 : ltb is2.left (b.size * 18) ≡ false = ground arith in
      rw (e1, a1, a2, head.0, head.1, e2, a3, block) refl

  -- Where the file holds a well-formed bucket, less its unused entries, at the position of a
  -- reader in order, and can be read up to the reader's end, `read` gives a well-formed bucket
  -- with the same entries and spill, and leaves the reader behind it.
  pub read_bulk-Takes :
      (m t : Memory) (b : Bucket) (q size spill : ℕ) (r : Reader F)
      → IsBucket m b
      → Holds m b (laws.bytes r.file) (position r)
      → IsReader ops laws fresh r
      → position r + actual_size b ≤ r.last
      → r.last ≤ laws.extent r.file
      → ReadsWithin ops laws fresh r.file
      → let c : Bucket = record { block_size = b.block_size; size = size; spill = spill; p = q } in
        (x : Bucket × Memory × Reader F) × (read_bulk ops fresh t c r ≡ ok x)
        × Takes m b r x.0 x.1 x.2
  unfolding actual_size bucket_size
  read_bulk-Takes m t b q size spill r v there ordered left end reads =
      let (x1, e1, h1) = prepare_read-total ops laws fresh r 8 ordered (omega arith) end reads in
      let head = count_handed m b x1.1 x1.0 v (λ k lt. h1.bytes k lt ∙ there k (omega arith)) in
      let (x2, e2, h2) =
        prepare_read-total ops laws fresh x1.1 (b.size * entry_size) h1.reader
          (omega (arith, h1.advanced, h1.last)) (rw (h1.file, h1.last) end) (rw h1.file reads) in
      let got : (k : ℕ) → k < b.size * entry_size → x2.1.buf.bytes (x2.0.buf + k) ≡ m (base b + k) =
        λ k lt.
          let e : position r + 8 + k ≡ position r + (8 + k) = omega arith in
          let f : base b + k ≡ b.p + (8 + k) = omega arith in
          h2.bytes k lt ∙ rw (h1.file, h1.advanced, e, f) (there (8 + k) (omega arith)) in
      let c : Bucket = record { block_size = b.block_size; size = size; spill = spill; p = q } in
      let taken = loaded-IsBucket m t b q x2.1.buf.bytes x2.0.buf v got in
      (
        (record b { p = q }, loaded t b q x2.1.buf.bytes x2.0.buf, x2.1),
        read_bulk_value t b c r x1.1 x2.1 x1.0 x2.0 e1 h1.length head e2 h2.length refl,
        record {
          bucket = taken.0;
          entries_same = taken.1;
          spill = refl;
          reader = h2.reader;
          advanced = omega (arith, h1.advanced, h2.advanced);
        },
      )
