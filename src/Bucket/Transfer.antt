-- ===== src/Bucket/Transfer.antt =====
-- A bucket that is written to a file, and read back into another blob.
use nu_db.Prelude.{ℕ, ◌+◌, ◌-◌, ◌*◌, ◌≤◌, ◌<◌, ◌≡◌, refl, ap, ◌∙◌, List, arith, ltb, false}
use nu_db.Error.{ok, >>=-eq-ok, ok-injective}
use nu_db.Memory.{Memory, fill}
use nu_db.Field.{u16, u48, readp}
use nu_db.Field.RoundTrip.{readp_congr}
use nu_db.Format.{bucket_header, entry_size, bucket_size, bucket_capacity}
use nu_db.Stream.{blob, store}
use nu_db.Stream.Items.{store-blob, read_lem}
use nu_db.File.{FileOps, FileLaws}
use nu_db.Bucket.{Bucket, actual_size, read_file, write_file}
use nu_db.Bucket.Entries.{entries, entries_congr, base}
use nu_db.Bucket.LowerBound.{hash_at}
use nu_db.Bucket.Insert.{IsBucket}
use nu_db.Bucket.Writes.{fill_outside}

-- The bytes of a bucket, less the unused entries, stand in the memory n from q on.
abbrev pub Holds : Memory → Bucket → Memory → ℕ → Type 0
Holds m b n q = (k : ℕ) → k < actual_size b → n (q + k) ≡ m (b.p + k)

module _ (m n : Memory) (b : Bucket) (q : ℕ) (v : IsBucket m b) (same : Holds m b n q) where
  pub size_there : readp u16 n q ≡ b.size
  unfolding actual_size bucket_size
  size_there = readp_congr u16 n m q b.p (λ k lt. same k (omega arith)) ∙ v.stored_size

  pub spill_there : readp u48 n (q + 2) ≡ b.spill
  unfolding actual_size bucket_size
  spill_there =
      readp_congr u48 n m (q + 2) (b.p + 2) (λ k lt.
        let e : q + 2 + k ≡ q + (2 + k) = omega arith in
        let f : b.p + 2 + k ≡ b.p + (2 + k) = omega arith in rw (e, f) (same (2 + k) (omega arith)))
      ∙ v.stored_spill

  pub body_there : (k : ℕ) → k < b.size * entry_size → n (q + bucket_header + k) ≡ m (base b + k)
  unfolding actual_size bucket_size
  body_there k lt =
      let e : q + bucket_header + k ≡ q + (bucket_header + k) = omega arith in
      let f : base b + k ≡ b.p + (bucket_header + k) = omega arith in
      rw (e, f) (same (bucket_header + k) (omega arith))

-- A bucket whose header and entries stand in the memory n from q on.
module _ (m n : Memory) (b : Bucket) (q : ℕ) (v : IsBucket m b)
    (same : (k : ℕ) → k < b.size * entry_size → n (q + bucket_header + k) ≡ m (base b + k)) where
  hash_there :
      (i : ℕ) → i < b.size → readp u48 n (q + bucket_header + 12 + i * entry_size) ≡ hash_at m b i
  hash_there i lt =
      readp_congr u48 n m (q + bucket_header + 12 + i * entry_size)
        (b.p + bucket_header + 12 + i * entry_size)
        (λ k below.
          let d = 12 + i * entry_size + k in
          let e : q + bucket_header + 12 + i * entry_size + k ≡ q + bucket_header + d =
            omega arith in
          let f : b.p + bucket_header + 12 + i * entry_size + k ≡ base b + d = omega arith in
          rw (e, f) (same d (omega arith)))

  -- There it is a well-formed bucket with the same entries.
  pub there-IsBucket :
      readp u16 n q ≡ b.size
      → readp u48 n (q + 2) ≡ b.spill
      → IsBucket n (record b { p = q }) × (entries n (record b { p = q }) ≡ entries m b)
  there-IsBucket size spill = (
    record {
      room = v.room;
      small = v.small;
      stored_size = size;
      stored_spill = spill;
      spill_fits = v.spill_fits;
      sorted = λ i j le lt. rw (hash_there i (omega arith), hash_there j lt) (v.sorted i j le lt);
    },
    entries_congr b.size n m (q + bucket_header) (base b) same,
  )

-- A block has room for the buckets of its capacity.
fits_block :
    (m : Memory) (b : Bucket)
    → IsBucket m b
    → bucket_size (bucket_capacity b.block_size) ≤ b.block_size
unfolding bucket_size bucket_capacity
fits_block m b v = grind (arith, v.room, v.small)

module _ {F : Type 0} (ops : FileOps F) (laws : FileLaws ops) where
  written_bytes :
      (f g : F) (m m1 : Memory) (b : Bucket) (offset k : ℕ)
      → write_file ops f m b offset ≡ ok (g, m1)
      → actual_size b ≤ b.block_size
      → k < actual_size b
      → laws.bytes g (offset + k) ≡ m (b.p + k)
  unfolding write_file
  written_bytes f g m m1 b offset k e room lt =
      let n = fill m (b.p + actual_size b) 0 (b.block_size - actual_size b) in
      let (h, wrote, done) = >>=-eq-ok _ _ e in
      let p : h ≡ g = ap (λ r. r.0) (ok-injective done) in
      rw (← p) (
        laws.write_lem f offset (blob n b.p b.block_size) h wrote (offset + k)
        ∙ store-blob (laws.bytes f) n offset b.p b.block_size k (omega arith)
        ∙ fill_outside m (b.p + actual_size b) 0 (b.block_size - actual_size b) (b.p + k)
            (omega arith))

  pub read_into :
      (g : F) (m t : Memory) (b : Bucket) (q size spill offset : ℕ) (bs : List ℕ)
      → IsBucket m b
      → b.size ≤ bucket_capacity b.block_size
      → Holds m b (store t q bs) q
      → ops.read g offset (bucket_size (bucket_capacity b.block_size)) ≡ ok bs
      → read_file ops g t
          (record { block_size = b.block_size; size = size; spill = spill; p = q })
          offset
        ≡ ok (record b { p = q }, store t q bs)
  unfolding read_file
  read_into g m t b q size spill offset bs v fits same got =
      let low : ltb (bucket_capacity b.block_size) b.size ≡ false = ground arith in
      let n = store t q bs in
      rw
        (
          got,
          read_lem u16 n q b.block_size (omega (arith, v.room)),
          read_lem u48 n (q + 2) (b.block_size - 2) (omega (arith, v.room)),
          size_there m n b q v same,
          spill_there m n b q v same,
          low,
        )
        refl

  -- A well-formed bucket, of no more entries than its block has room for, that was written to a
  -- file and can be read, is read into another blob as a well-formed bucket with the same entries
  -- and spill.
  pub read_file-write_file :
      (f g : F) (m m1 t : Memory) (b : Bucket) (q size spill offset : ℕ) (bs : List ℕ)
      → IsBucket m b
      → b.size ≤ bucket_capacity b.block_size
      → write_file ops f m b offset ≡ ok (g, m1)
      → ops.read g offset (bucket_size (bucket_capacity b.block_size)) ≡ ok bs
      → let c : Bucket = record { block_size = b.block_size; size = size; spill = spill; p = q } in
        let d = record b { p = q } in
        (n : Memory) × (read_file ops g t c offset ≡ ok (d, n))
        × IsBucket n d
        × (entries n d ≡ entries m b)
  read_file-write_file f g m m1 t b q size spill offset bs v fits wrote got =
      let n = store t q bs in
      let there =
        there-IsBucket m n b q v (body_there m n b q v stored) (size_there m n b q v stored)
          (spill_there m n b q v stored) in
      (n, read_into g m t b q size spill offset bs v fits stored got, there.0, there.1)
    where
      stored : Holds m b (store t q bs) q
      stored k lt = rw (laws.read_lem g offset _ bs got) (
          store-blob t (laws.bytes g) q offset (bucket_size (bucket_capacity b.block_size)) k
            (unfold actual_size bucket_size in omega arith)
          ∙ written_bytes f g m m1 b offset k wrote
              (unfold actual_size bucket_size in omega (arith, v.room)) lt)

-- The same bytes are the same bucket.
pub same_bucket :
    (m n : Memory) (b : Bucket)
    → IsBucket m b
    → ((x : ℕ) → b.p ≤ x → x < b.p + b.block_size → n x ≡ m x)
    → IsBucket n b × (entries n b ≡ entries m b)
same_bucket m n b v same =
    let held : Holds m b n b.p = λ k lt.
      same (b.p + k) (omega arith) (unfold actual_size bucket_size in omega (arith, v.room)) in
    there-IsBucket m n b b.p v (body_there m n b b.p v held) (size_there m n b b.p v held)
      (spill_there m n b b.p v held)
