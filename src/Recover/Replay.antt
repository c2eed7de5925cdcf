-- ===== src/Recover/Replay.antt =====
-- The loop over the log, against the records that the log holds.
use nu_db.Prelude.{
  ℕ, ◌+◌, ◌*◌, ◌≤◌, ◌≡◌, refl, ap, ◌∙◌, inl, inr, ◌⊎◌, List, not, ◌&&◌, ltb, ◌==◌, false, arith,
}
use nu_db.Error.{ok}
use nu_db.Memory.{Memory, IsBytes}
use nu_db.Field.{u64, readp}
use nu_db.Field.RoundTrip.{readp_congr}
use nu_db.Stream.{Istream, blob, store}
use nu_db.File.{FileOps, FileLaws, Works}
use nu_db.Format.{bucket_size}
use nu_db.Format.Headers.{KeyFileHeader}
use nu_db.Visit.Records.{blob-shift}
use nu_db.Bucket.{Bucket, actual_size, write_file}
use nu_db.BulkIo.{Reader, position, prepare_read}
use nu_db.BulkIo.Hands.{IsVisitor, Hands, next}
use nu_db.Compact.{read_bulk}
use nu_db.Compact.Image.{headed, read_bulk-Takes}
use nu_db.Recover.{Replayer, onward, put_back, replay_bucket, replay_record}
use nu_db.Recover.Log.{Sound, image_size, block}
use nu_db.Recover.Blocks.{write_file_blocks}

spill_inside :
    (spill size dat_size : ℕ)
    → (spill ≡ 0) ⊎ (spill + size ≤ dat_size)
    → (not (spill == 0) && ltb dat_size (spill + size)) ≡ false
spill_inside spill size dat_size (inl e) = ground (arith, e)
spill_inside spill size dat_size (inr le) = ground (arith, le)

same_store :
    (k : Memory) (offset size size' : ℕ) (bs bs' : List ℕ)
    → size ≡ size'
    → bs ≡ bs'
    → store k offset (block size bs) ≡ store k offset (block size' bs')
same_store k offset size size' bs bs' e f = rw (e, f) refl

module _ {F : Type 0} (ops : FileOps F) (laws : FileLaws ops) (works : Works ops laws)
    (fresh : Memory) (kh : KeyFileHeader) (dat_size : ℕ) where
  -- The state of the loop, where the reader stands at an offset of the log file
  pub record Stands (lf : F) (last p : ℕ) (s : Replayer F) : Type 0 where
    pub visitor : IsVisitor ops laws fresh lf last s.reader
    pub at : position s.reader ≡ p
    pub block_lem : s.bucket.block_size ≡ kh.block_size

  -- The calls of a turn, one after the other
  put_back_value :
      (f g : F) (n : ℕ) (b : Bucket) (m m1 : Memory)
      → (b.spill ≡ 0) ⊎ (b.spill + bucket_size kh.capacity ≤ dat_size)
      → n ≤ kh.buckets
      → write_file ops f m b ((n + 1) * kh.block_size) ≡ ok (g, m1)
      → put_back ops fresh kh dat_size f n m b ≡ ok (g, m1)
  unfolding put_back
  put_back_value f g n b m m1 spill low wrote =
      let a2 = spill_inside b.spill (bucket_size kh.capacity) dat_size spill in
      let a3 : ltb kh.buckets n ≡ false = ground arith in rw (a2, a3, wrote) refl

  replay_bucket_value :
      (s : Replayer F) (n : ℕ) (r : Reader F) (b : Bucket) (m m1 : Memory) (g : F)
      → read_bulk ops fresh s.bytes s.bucket s.reader ≡ ok (b, m, r)
      → put_back ops fresh kh dat_size s.kf n m b ≡ ok (g, m1)
      → replay_bucket ops fresh kh dat_size n s
        ≡ ok (onward (record { kf = g; bucket = b; bytes = m1; reader = r }))
  unfolding replay_bucket
  replay_bucket_value s n r b m m1 g e wrote = rw (e, replay_bucket, wrote) refl

  pub turn_value :
      (s : Replayer F) (n : ℕ) (is : Istream) (v : Reader F)
      → prepare_read ops fresh s.reader 8 ≡ ok (is, v)
      → is.left ≡ 8
      → readp u64 v.buf.bytes is.buf ≡ n
      → replay_record ops fresh kh dat_size s
        ≡ replay_bucket ops fresh kh dat_size n (record s { reader = v })
  unfolding replay_record
  turn_value s n is v e left index =
      let a1 : ltb is.left 8 ≡ false = ground arith in rw (e, replay_record, a1, index) refl

  pub index_read :
      (lf : F) (last p : ℕ) (r v : Reader F) (is : Istream)
      → position r ≡ p
      → Hands ops laws fresh lf last r 8 is v
      → readp u64 v.buf.bytes is.buf ≡ readp u64 (laws.bytes lf) p
  index_read lf last p r v is at h =
      readp_congr u64 v.buf.bytes (laws.bytes lf) is.buf p
        (λ k lt. h.bytes k lt ∙ ap (λ x. laws.bytes lf (x + k)) at)

  -- A turn on a record that is whole
  pub record Turned (lf : F) (last p : ℕ) (s t : Replayer F) : Type 0 where
    pub done : replay_record ops fresh kh dat_size s ≡ ok (onward t)
    pub stands : Stands lf last (p + 8 + image_size (laws.bytes lf) (p + 8)) t
    pub bytes :
        laws.bytes t.kf
        ≡ store (laws.bytes s.kf) ((readp u64 (laws.bytes lf) p + 1) * kh.block_size) (
            block kh.block_size (blob (laws.bytes lf) (p + 8) (image_size (laws.bytes lf) (p + 8))))
    pub extent : laws.extent s.kf ≤ laws.extent t.kf

  pub turn :
      (lf : F) (last p : ℕ) (s : Replayer F)
      → Stands lf last p s
      → IsBytes (laws.bytes lf)
      → readp u64 (laws.bytes lf) p ≤ kh.buckets
      → Sound kh dat_size (laws.bytes lf) (p + 8)
      → p + 8 + image_size (laws.bytes lf) (p + 8) ≤ last
      → (t : Replayer F) × Turned lf last p s t
  turn lf last p s h b low sound fits =
      let bytes = laws.bytes lf in
      let (is, v, h1) = next ops laws fresh lf last s.reader 8 h.visitor (omega (arith, h.at)) in
      let (m, r, h2) =
        read_bulk-Takes ops laws fresh lf last (p + 8) s.bytes s.bucket v h1.visitor
          (omega (arith, h.at, h1.advanced)) b (omega arith) in
      let c = headed bytes (p + 8) s.bucket in
      let n = readp u64 bytes p in
      let size : actual_size c ≡ image_size bytes (p + 8) =
        unfold actual_size bucket_size in refl in
      let (g, m1, h3) =
        write_file_blocks ops laws works s.kf m c ((n + 1) * kh.block_size)
          (omega (arith, size, sound.room, h.block_lem)) in
      let image : blob m c.p (actual_size c) ≡ blob bytes (p + 8) (image_size bytes (p + 8)) =
        rw size (blob-shift m bytes c.p (p + 8) _ h2.bytes) in
      (
        record { kf = g; bucket = c; bytes = m1; reader = r },
        record {
          done =
              turn_value s n is v h1.done h1.left (index_read lf last p s.reader v is h.at h1)
              ∙ replay_bucket_value (record s { reader = v }) n r c m m1 g h2.done
                  (put_back_value s.kf g n c m m1 sound.spill low h3.done);
          stands = record { visitor = h2.visitor; at = h2.advanced; block_lem = h.block_lem };
          bytes =
              h3.bytes
              ∙ same_store (laws.bytes s.kf) _ c.block_size kh.block_size _ _ h.block_lem image;
          extent = omega (arith, h3.extent);
        },
      )
