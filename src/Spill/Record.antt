-- ===== src/Spill/Record.antt =====
-- What a spill leaves behind: the entries, in the data file, and an empty bucket that points there.
use nu_db.Prelude.{
  ℕ, ◌+◌, ◌^◌, ◌≤◌, ◌<◌, ◌≡◌, refl, sym, ap, ◌∙◌, ◌⊎◌, inl, inr, arith, true, false, Bool-cases,
  subst,
}
use native.Mathlib.Nat.{mod-eq_of_lt}
use nu_db.Error.{ok, >>=-eq-ok, ok-injective}
use nu_db.Memory.{Memory, fill, copy}
use nu_db.Field.{u16, u48, size, readp, writep}
use nu_db.Field.RoundTrip.{readp_congr, readp-writep, writep_frame}
use nu_db.Format.{bucket_header, bucket_size}
use nu_db.Stream.{Ostream, write}
use nu_db.File.{FileOps, FileLaws}
use nu_db.Bucket.{Bucket, actual_size, full, clear, set_spill, write_stream}
use nu_db.Bucket.Entries.{entries, entries_from, entries_congr, base, shift}
use nu_db.Bucket.Writes.{update_frame, update_stored, fill_outside, copy_inside, copy_outside}
use nu_db.Bucket.Insert.{IsBucket}
use nu_db.BulkIo.{Writer, tail, prepare_write}
use nu_db.BulkIo.Writing.{
  view, Writes, prepare_write-total, Prepares, prepare_write-Prepares, view-stored,
}
use nu_db.Spill.{spill_record, maybe_spill}

-- The room that a spill record takes.
abbrev pub record_size : Bucket → ℕ
record_size b = size u48 + size u16 + actual_size b

-- The bytes of the record in the writer's buffer, from q on.
record_bytes : Memory → Memory → Bucket → ℕ → Memory
record_bytes t m b q =
    copy (writep u16 (writep u48 t q 0) (q + 6) (actual_size b)) (q + 6 + 2) m b.p (actual_size b)

module _ (t m : Memory) (b : Bucket) (q : ℕ) where
  record_before : (x : ℕ) → x < q → record_bytes t m b q x ≡ t x
  unfolding record_bytes
  record_before x lt =
      copy_outside _ (q + 6 + 2) m b.p _ x (omega arith)
      ∙ writep_frame u16 _ (q + 6) _ x (omega arith)
      ∙ writep_frame u48 t q 0 x (omega arith)

  record_zero : readp u48 (record_bytes t m b q) q ≡ 0
  unfolding record_bytes
  record_zero =
      readp_congr u48 _ (writep u48 t q 0) q q (λ k lt.
        copy_outside _ (q + 6 + 2) m b.p _ (q + k) (omega arith)
        ∙ writep_frame u16 _ (q + 6) _ (q + k) (omega arith))
      ∙ readp-writep u48 t q 0

  record_length : actual_size b < 2 ^ 16 → readp u16 (record_bytes t m b q) (q + 6) ≡ actual_size b
  unfolding record_bytes
  record_length h =
      readp_congr u16 _ (writep u16 (writep u48 t q 0) (q + 6) (actual_size b)) (q + 6) (q + 6)
        (λ k lt. copy_outside _ (q + 6 + 2) m b.p _ (q + 6 + k) (omega arith))
      ∙ readp-writep u16 _ (q + 6) (actual_size b)
      ∙ mod-eq_of_lt h

  record_entries : (k : ℕ) → k < actual_size b → record_bytes t m b q (q + 6 + 2 + k) ≡ m (b.p + k)
  unfolding record_bytes
  record_entries k lt = copy_inside _ (q + 6 + 2) m b.p _ k lt

-- The bucket after a spill: empty, and pointing to the record.
cleared : Memory → Bucket → ℕ → Bucket × Memory
cleared m b spill = let (b1, n1) = clear m b in set_spill n1 b1 spill

cleared-IsBucket :
    (m : Memory) (b : Bucket) (spill : ℕ)
    → IsBucket m b
    → spill < 2 ^ 48
    → let r = cleared m b spill in
      IsBucket r.1 r.0
      × (r.0.size ≡ 0)
      × (r.0.spill ≡ spill)
      × ((x : ℕ) → (x < b.p) ⊎ (b.p + b.block_size ≤ x) → r.1 x ≡ m x)
unfolding cleared clear set_spill
cleared-IsBucket m b spill v h =
    let c = record b { size = 0; spill = spill } in
    let stored = update_stored (fill m b.p 0 b.block_size) c (omega arith) h in
    (
      record {
        room = omega (arith, v.room);
        small = v.small;
        stored_size = stored.0;
        stored_spill = stored.1;
        spill_fits = h;
        sorted = λ i j le lt. absurd (omega arith);
      },
      refl,
      refl,
      λ x c'. update_frame _ c x (omega (arith, v.room)) ∙ fill_outside m b.p 0 b.block_size x c',
    )

small_record : (m : Memory) (b : Bucket) → IsBucket m b → actual_size b < 2 ^ 16
unfolding actual_size bucket_size
small_record m b v = omega (arith, v.room, v.small)

-- The entries of a record, read from the file, are those of the bucket that was spilled.
moved_entries :
    (view rec m : Memory) (b : Bucket) (p q : ℕ)
    → ((k : ℕ) → k < record_size b → view (p + k) ≡ rec (q + k))
    → ((k : ℕ) → k < actual_size b → rec (q + 6 + 2 + k) ≡ m (b.p + k))
    → entries_from view (p + 8 + bucket_header) b.size ≡ entries m b
unfolding actual_size bucket_size
moved_entries view rec m b p q there here =
    entries_congr b.size view m (p + 8 + bucket_header) (base b) (λ k lt.
      let a : p + 8 + bucket_header + k ≡ p + (16 + k) = omega arith in
      let c : q + (16 + k) ≡ q + 6 + 2 + (8 + k) = omega arith in
      let d : b.p + (8 + k) ≡ base b + k = omega arith in
      rw a (there (16 + k) (omega arith) ∙ rw c (here (8 + k) (omega arith)) ∙ ap m d))

module _ {F : Type 0} (ops : FileOps F) (laws : FileLaws ops) (fresh : Memory) where
  -- A spill: the file holds, behind all that was written, a zero, the size of the bucket and its
  -- entries; the bucket is empty and points to them.
  pub record Spills (m : Memory) (b : Bucket) (w : Writer F) (m' : Memory) (b' : Bucket)
      (w' : Writer F) : Type 0 where
    pub bucket : IsBucket m' b'
    pub size : b'.size ≡ 0
    pub spill : b'.spill ≡ tail w + 8
    pub zero_size : readp u48 (view ops laws fresh w') (tail w) ≡ 0
    pub length : readp u16 (view ops laws fresh w') (tail w + 6) ≡ actual_size b
    pub moved : entries (view ops laws fresh w') (record b { p = b'.spill }) ≡ entries m b
    pub before : (x : ℕ) → x < tail w → view ops laws fresh w' x ≡ view ops laws fresh w x
    pub outside : (x : ℕ) → (x < b.p) ⊎ (b.p + b.block_size ≤ x) → m' x ≡ m x
    pub tail_after : tail w' ≡ tail w + record_size b

  stored_writer : Memory → Bucket → Ostream → Writer F → Writer F
  stored_writer m b os v = record v {
    buf = record v.buf { bytes = record_bytes v.buf.bytes m b os.buf };
  }

  spill_record_lem :
      (m : Memory) (b : Bucket) (offset : ℕ) (os : Ostream) (v : Writer F)
      → os.written ≡ 0
      → spill_record ops fresh m b offset os v
        ≡ ((cleared m b (offset + 8)).0, (cleared m b (offset + 8)).1, stored_writer m b os v)
  unfolding spill_record cleared stored_writer record_bytes write write_stream
  spill_record_lem m b offset os v e = let f : os.written + 6 + 2 ≡ 8 = omega arith in rw f refl

  spill-Spills :
      (m : Memory) (b : Bucket) (w v : Writer F) (os : Ostream)
      → IsBucket m b
      → tail w + 8 < 2 ^ 48
      → Prepares ops laws fresh w (record_size b) os v
      → Spills m b w
          (cleared m b (tail w + 8)).1
          (cleared m b (tail w + 8)).0
          (stored_writer m b os v)
  unfolding stored_writer
  spill-Spills m b w v os is_bucket low p =
      let there = view ops laws fresh (stored_writer m b os v) in
      let (bucket, size, spill, outside) = cleared-IsBucket m b (tail w + 8) is_bucket low in
      let (before, inside) =
        view-stored ops laws fresh w v (record_size b) os (record_bytes v.buf.bytes m b os.buf) p
          (record_before v.buf.bytes m b os.buf) in
      record {
        bucket = bucket;
        size = size;
        spill = spill;
        zero_size =
            readp_congr u48 there (record_bytes v.buf.bytes m b os.buf) (tail w) os.buf
              (λ k lt. inside k (omega arith))
            ∙ record_zero v.buf.bytes m b os.buf;
        length =
            readp_congr u16 there (record_bytes v.buf.bytes m b os.buf) (tail w + 6) (os.buf + 6) (
              shift there (record_bytes v.buf.bytes m b os.buf) (tail w) os.buf (record_size b) 6 2
                inside (omega arith))
            ∙ record_length v.buf.bytes m b os.buf (small_record m b is_bucket);
        moved = rw spill (
            moved_entries there (record_bytes v.buf.bytes m b os.buf) m b (tail w) os.buf inside
              (record_entries v.buf.bytes m b os.buf));
        before = before;
        outside = outside;
        tail_after = omega (arith, p.start, p.used);
      }

  -- On a well-formed bucket, with a spill offset that fits 48 bits, and where it succeeds,
  -- `maybe_spill` moves the entries of a full bucket to the data file and
  -- leaves the bucket empty, pointing to them; it leaves any other bucket and the file alone.
  pub maybe_spill-Spills :
      (m : Memory) (b : Bucket) (w : Writer F) (r : Bucket × Memory × Writer F)
      → IsBucket m b
      → tail w + 8 < 2 ^ 48
      → maybe_spill ops fresh m b w ≡ ok r
      → ((full b ≡ true) × Spills m b w r.1 r.0 r.2) ⊎ ((full b ≡ false) × (r ≡ (b, m, w)))
  unfolding maybe_spill
  maybe_spill-Spills m b w r v low e = elim (Bool-cases (full b)) [
    | inr roomy ↦ inr (roomy, sym (ok-injective (rw roomy at e)))
    | inl crowded ↦
        let (x, ready, done) =
          >>=-eq-ok (prepare_write ops fresh w (record_size b))
            (λ x. ok (spill_record ops fresh m b (tail w) x.0 x.1)) (rw crowded at e) in
        let p = prepare_write-Prepares ops laws fresh w x.1 (record_size b) x.0 ready in
        inl (
          crowded,
          subst (λ (t : Bucket × Memory × Writer F). Spills m b w t.1 t.0 t.2)
              (sym (spill_record_lem m b (tail w) x.0 x.1 p.none_yet) ∙ ok-injective done)
              (spill-Spills m b w x.1 x.0 v low p),
        )
  ]

  -- Where writes to the data file succeed, `maybe_spill` succeeds on a well-formed bucket, with a
  -- spill offset that fits 48 bits. It moves
  -- the entries of a full bucket to the data file, behind all that was written, and leaves the
  -- bucket empty, pointing to them; it leaves any other bucket and the file alone.
  pub maybe_spill-total :
      (m : Memory) (b : Bucket) (w : Writer F)
      → IsBucket m b
      → tail w + 8 < 2 ^ 48
      → Writes ops laws fresh w.file
      → (r : Bucket × Memory × Writer F) × (maybe_spill ops fresh m b w ≡ ok r)
        × (((full b ≡ true) × Spills m b w r.1 r.0 r.2) ⊎ ((full b ≡ false) × (r ≡ (b, m, w))))
  unfolding maybe_spill
  maybe_spill-total m b w v low writes = elim (Bool-cases (full b)) [
    | inr roomy ↦ and_Spills ((b, m, w), rw roomy refl)
    | inl crowded ↦
        let (x, ready, p) = prepare_write-total ops laws fresh w (record_size b) writes in
        and_Spills (spill_record ops fresh m b (tail w) x.0 x.1, rw (crowded, ready) refl)
  ]
    where
      and_Spills :
          (r : Bucket × Memory × Writer F) × (maybe_spill ops fresh m b w ≡ ok r)
          → (r : Bucket × Memory × Writer F) × (maybe_spill ops fresh m b w ≡ ok r)
            × (((full b ≡ true) × Spills m b w r.1 r.0 r.2) ⊎ ((full b ≡ false) × (r ≡ (b, m, w))))
      and_Spills (r, done) = (r, done, maybe_spill-Spills m b w r v low done)
