-- ===== src/Commit/Records.antt =====
-- The log file after `commit` has written the old buckets.
use nu_db.Prelude.{ℕ, ◌+◌, ◌^◌, ◌≤◌, ◌<◌, ◌≡◌, refl, sym, ap, ◌∙◌, inl, subst, List, [], ◌∷◌, arith}
use native.Mathlib.Nat.{mod-eq_of_lt}
use nu_db.Error.{ok}
use nu_db.Memory.{Memory}
use nu_db.Field.{u16, u48, u64, readp, writep}
use nu_db.Field.RoundTrip.{readp-writep, writep_frame, readp_congr}
use nu_db.Stream.{Ostream, blob}
use nu_db.File.{FileOps, FileLaws}
use nu_db.Format.{bucket_size}
use nu_db.Format.Headers.{KeyFileHeader}
use nu_db.Bucket.{Bucket, actual_size}
use nu_db.Bucket.Writes.{copy_inside, copy_outside}
use nu_db.BulkIo.{Writer, tail}
use nu_db.BulkIo.Writing.{view, Writes, IsAppending, prepare_write-total, view-stored}
use nu_db.Visit.Records.{blob-shift}
use nu_db.Recover.Log.{Log, end, logged, Sound, image_size}
use nu_db.Commit.Files.{put_record, write_record, write_records}
use nu_db.Commit.Blobs.{images, bucket_at, load_lem}

-- The buckets are sound, and their indices those of buckets.
abbrev pub Loggable : KeyFileHeader → ℕ → Memory → List (ℕ × ℕ) → Type 0
Loggable kh dat_size m [] = Unit {0}
Loggable kh dat_size m ((n, p) ∷ es) =
    ((n ≤ kh.buckets) × Sound kh dat_size m p) × Loggable kh dat_size m es

-- A record for the bucket at p stands at q.
record Kept (bytes : Memory) (q n : ℕ) (m : Memory) (p : ℕ) : Type 0 where
  index : readp u64 bytes q ≡ n
  body : (k : ℕ) → k < image_size m p → bytes (q + 8 + k) ≡ m (p + k)

same-Kept :
    (bytes bytes' : Memory) (q n : ℕ) (m : Memory) (p last : ℕ)
    → ((x : ℕ) → x < last → bytes' x ≡ bytes x)
    → q + 8 + image_size m p ≤ last
    → Kept bytes q n m p
    → Kept bytes' q n m p
same-Kept bytes bytes' q n m p last same fits h = record {
  index = readp_congr u64 bytes' bytes q q (λ k lt. same (q + k) (omega arith)) ∙ h.index;
  body = λ k lt. same (q + 8 + k) (omega arith) ∙ h.body k lt;
}

-- Such a record is one of the log.
Kept-Log :
    (kh : KeyFileHeader) (dat_size last : ℕ) (bytes : Memory) (q n : ℕ) (m : Memory) (p : ℕ)
    (rest : List (ℕ × List ℕ))
    → Kept bytes q n m p
    → n ≤ kh.buckets
    → Sound kh dat_size m p
    → q + 8 + image_size m p ≤ last
    → Log kh dat_size bytes last (q + 8 + image_size m p) rest
    → Log kh dat_size bytes last q ((n, blob m p (image_size m p)) ∷ rest)
Kept-Log kh dat_size last bytes q n m p rest h low sound fits more =
    let count : readp u16 bytes (q + 8) ≡ readp u16 m p =
      readp_congr u16 bytes m (q + 8) p (λ k lt. h.body k (omega arith)) in
    let spill : readp u48 bytes (q + 8 + 2) ≡ readp u48 m (p + 2) =
      readp_congr u48 bytes m (q + 8 + 2) (p + 2) (λ k lt.
        let a : q + 8 + 2 + k ≡ q + 8 + (2 + k) = omega arith in
        let b : p + 2 + k ≡ p + (2 + k) = omega arith in
        rw (a, b) (h.body (2 + k) (omega arith))) in
    let size : image_size bytes (q + 8) ≡ image_size m p = omega (arith, count) in
    let image : blob bytes (q + 8) (image_size bytes (q + 8)) ≡ blob m p (image_size m p) =
      ap (blob bytes (q + 8)) size ∙ blob-shift bytes m (q + 8) p (image_size m p) h.body in
    let sound' : Sound kh dat_size bytes (q + 8) = record {
      room = omega (arith, size, sound.room);
      spill = rw spill sound.spill;
    } in
    let record_there =
      logged q rest (omega (arith, h.index)) sound' (omega (arith, size))
        (subst (λ e. Log kh dat_size bytes last (q + 8 + e) rest) (sym size) more) in
    subst (λ e. Log kh dat_size bytes last q ((e, blob m p (image_size m p)) ∷ rest)) h.index
      (subst (λ e. Log kh dat_size bytes last q ((readp u64 bytes q, e) ∷ rest)) image record_there)

-- What is put into the stream
module _ (os : Ostream) (t m : Memory) (n : ℕ) (b : Bucket) where
  put_before : (x : ℕ) → x < os.buf → put_record os t m n b x ≡ t x
  unfolding put_record
  put_before x lt =
      copy_outside _ (os.buf + 8) m b.p _ x (omega arith) ∙ writep_frame u64 t os.buf n x (inl lt)

  put_index : n < 2 ^ 64 → readp u64 (put_record os t m n b) os.buf ≡ n
  unfolding put_record
  put_index low =
      readp_congr u64 _ (writep u64 t os.buf n) os.buf os.buf
        (λ k lt. copy_outside _ (os.buf + 8) m b.p _ (os.buf + k) (omega arith))
      ∙ readp-writep u64 t os.buf n
      ∙ mod-eq_of_lt low

  put_body : (k : ℕ) → k < actual_size b → put_record os t m n b (os.buf + 8 + k) ≡ m (b.p + k)
  unfolding put_record
  put_body k lt = copy_inside _ (os.buf + 8) m b.p _ k lt

module _ {F : Type 0} (ops : FileOps F) (laws : FileLaws ops) (fresh : Memory) (m : Memory)
    (kh : KeyFileHeader) (dat_size : ℕ) where
  -- A turn of the loop
  record Puts (w : Writer F) (n p : ℕ) (v : Writer F) : Type 0 where
    done : write_record ops fresh m kh.block_size w (n, p) ≡ ok v
    advanced : tail v ≡ tail w + 8 + image_size m p
    before : (x : ℕ) → x < tail w → view ops laws fresh v x ≡ view ops laws fresh w x
    kept : Kept (view ops laws fresh v) (tail w) n m p
    appending : IsAppending ops laws fresh w → IsAppending ops laws fresh v

  write_record-Puts :
      (w : Writer F) (n p : ℕ)
      → Writes ops laws fresh w.file
      → 8 ≤ kh.block_size
      → n < 2 ^ 64
      → (v : Writer F) × Puts w n p v
  unfolding write_record
  write_record-Puts w n p writes room low =
      let b = bucket_at m kh.block_size p in
      let long : actual_size b ≡ image_size m p = unfold actual_size bucket_size in refl in
      let ((os, v), done, h) = prepare_write-total ops laws fresh w (8 + actual_size b) writes in
      let t = put_record os v.buf.bytes m n b in
      let (before, inside) =
        view-stored ops laws fresh w v (8 + actual_size b) os t h
          (put_before os v.buf.bytes m n b) in
      let u = record v { buf = record v.buf { bytes = t } } in
      (
        u,
        record {
          done = rw (load_lem m kh.block_size p room, done) refl;
          advanced = omega (arith, h.start, h.used, long);
          before = before;
          kept = record {
            index =
                readp_congr u64 _ t (tail w) os.buf (λ k lt. inside k (omega arith))
                ∙ put_index os v.buf.bytes m n b low;
            body = λ k lt.
                let a : tail w + 8 + k ≡ tail w + (8 + k) = omega arith in
                let c : os.buf + 8 + k ≡ os.buf + (8 + k) = omega arith in
                ap (view ops laws fresh u) a
                ∙ inside (8 + k) (omega (arith, long))
                ∙ ap t (sym c)
                ∙ put_body os v.buf.bytes m n b k (omega (arith, long));
          };
          appending = h.appending;
        },
      )

  -- The records of the buckets follow one another behind all that was written.
  pub record Logs (w : Writer F) (es : List (ℕ × ℕ)) (v : Writer F) : Type 0 where
    pub done : write_records ops fresh m kh.block_size w es ≡ ok v
    pub log : Log kh dat_size (view ops laws fresh v) (tail v) (tail w) (images m es)
    pub before : (x : ℕ) → x < tail w → view ops laws fresh v x ≡ view ops laws fresh w x
    pub advanced : tail w ≤ tail v
    pub appending : IsAppending ops laws fresh w → IsAppending ops laws fresh v

  -- Where writes to files succeed, and the buckets of the cache are sound, the loop returns, and
  -- the log file will hold a record for each of them.
  pub write_records-Logs :
      (w : Writer F) (es : List (ℕ × ℕ))
      → ((f : F) → Writes ops laws fresh f)
      → 8 ≤ kh.block_size
      → kh.buckets < 2 ^ 64
      → Loggable kh dat_size m es
      → (v : Writer F) × Logs w es v
  unfolding write_records
  write_records-Logs w [] writes room few fit = (
    w,
    record {
      done = refl;
      log = end (tail w) refl;
      before = λ x lt. refl;
      advanced = omega arith;
      appending = λ a. a;
    },
  )
  write_records-Logs w ((n, p) ∷ es) writes room few ((low, sound), fit) =
      let (u, h) = write_record-Puts w n p (writes w.file) room (omega arith) in
      let (v, g) = write_records-Logs u es writes room few fit in
      let there =
        same-Kept (view ops laws fresh u) (view ops laws fresh v) (tail w) n m p (tail u) g.before
          (omega (arith, h.advanced)) h.kept in
      (
        v,
        record {
          done = rw (h.done, write_records) g.done;
          log =
              Kept-Log kh dat_size (tail v) (view ops laws fresh v) (tail w) n m p (images m es)
                there low sound (omega (arith, h.advanced, g.advanced))
                (subst (λ q. Log kh dat_size (view ops laws fresh v) (tail v) q (images m es))
                  h.advanced g.log);
          before = λ x lt. g.before x (omega (arith, h.advanced)) ∙ h.before x lt;
          advanced = omega (arith, h.advanced, g.advanced);
          appending = λ a. g.appending (h.appending a);
        },
      )
