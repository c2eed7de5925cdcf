-- ===== src/Commit/Keys.antt =====
-- The key file after `commit` has written the new buckets.
use nu_db.Prelude.{ℕ, ◌+◌, ◌*◌, ◌≤◌, ◌≡◌, refl, ap, ◌∙◌, List, [], ◌∷◌, arith}
use nu_db.Error.{ok}
use nu_db.Memory.{Memory}
use nu_db.Stream.{blob, store}
use nu_db.File.{FileOps, FileLaws, Works}
use nu_db.Format.{bucket_size}
use nu_db.Bucket.{actual_size}
use nu_db.Recover.Log.{image_size, block, restore}
use nu_db.Recover.Blocks.{write_file_blocks}
use nu_db.Commit.Files.{write_buckets}
use nu_db.Commit.Blobs.{images, Blobs, next_blob, bucket_at, load_lem, images-Apart, Apart-Blobs}

module _ {F : Type 0} (ops : FileOps F) (laws : FileLaws ops) (works : Works ops laws)
    (size : ℕ) where
  -- Every bucket stands in the block of its index, with zeros behind it; the rest of the file is as
  -- it was.
  pub record Writes (m : Memory) (kf : F) (es : List (ℕ × ℕ)) (k : F) (n : Memory) : Type 0 where
    pub done : write_buckets ops size m kf es ≡ ok (k, n)
    pub bytes : laws.bytes k ≡ restore (laws.bytes kf) size (images m es)
    pub extent : laws.extent kf ≤ laws.extent k

  -- Where writes to files succeed, and the buckets of the cache fit in blocks that lie apart, the
  -- loop returns, with every bucket in the key file.
  pub write_buckets-Writes :
      (m : Memory) (kf : F) (es : List (ℕ × ℕ))
      → 8 ≤ size
      → Blobs m size es
      → (k : F) × (n : Memory) × Writes m kf es k n
  unfolding write_buckets restore
  write_buckets-Writes m kf [] room blobs =
      (kf, m, record { done = refl; bytes = refl; extent = omega arith })
  write_buckets-Writes m kf ((n, p) ∷ es) room (next_blob _ _ _ fits apart rest) =
      let b = bucket_at m size p in
      let long : actual_size b ≡ image_size m p = unfold actual_size bucket_size in refl in
      let (g, m', h) =
        write_file_blocks ops laws works kf m b ((n + 1) * size) (omega (arith, long)) in
      let (k, m'', h') =
        write_buckets-Writes m' g es room (Apart-Blobs m m' size p room h.outside es apart rest) in
      let same = images-Apart m m' size p room h.outside es apart rest in
      (
        k,
        m'',
        record {
          done = rw (load_lem m size p room, write_buckets, h.done) h'.done;
          bytes =
              h'.bytes
              ∙ ap (λ t. restore (laws.bytes g) size t) same
              ∙ ap (λ t. restore t size (images m es)) h.bytes
              ∙ ap
                  (λ t.
                    restore (store (laws.bytes kf) ((n + 1) * size) (block size (blob m p t))) size
                      (images m es))
                  long;
          extent = omega (arith, h.extent, h'.extent);
        },
      )
