-- ===== src/Verify/Values.antt =====
-- What the loop of `verify_normal` over the data file has counted.
use nu_db.Prelude.{
  ℕ, ◌+◌, ◌<◌, ◌^◌, ◌≡◌, refl, List, [], ◌∷◌, length, Bool, ◌&&◌, true, false, ltb, ◌==◌, ◌%◌,
  arith,
}
use native.Mathlib.Nat.{mod-eq_of_lt}
use nu_db.Error.{Result, ok, err, orphaned_value}
use nu_db.Memory.{Memory}
use nu_db.Field.{u16, u48, readp}
use nu_db.Stream.{Istream}
use nu_db.File.{FileOps, FileLaws}
use nu_db.Format.{Hasher, hash, bucket_size}
use nu_db.Format.Headers.{KeyFileHeader}
use nu_db.Bucket.{Bucket, Value, bucket_index}
use nu_db.Verify.Seek.{indexed}
use nu_db.Stream.{blob}
use nu_db.Compact.{read_bulk}
use nu_db.BulkIo.{Reader, position, prepare_read}
use nu_db.Visit.Records.{Records, end, pair, spill}
use nu_db.Run.{once, ◌>>=◌}
use nu_db.Verify.{short_as, spill_size}
use nu_db.Verify.Normal.{
  Checker, check_value, count_value, normal_value, normal_spill, normal_record,
}

-- The sum of the sizes of the values
abbrev pub total : List (List ℕ × List ℕ) → ℕ
total [] = 0
total ((key, bytes) ∷ kvs) = length bytes + total kvs

-- The spill records of the file are those of full buckets, as `maybe_spill` makes them.
abbrev pub Full :
    {bytes : Memory} {key_size last p : ℕ} {kvs : List (List ℕ × List ℕ)}
    → ℕ
    → Records bytes key_size last p kvs
    → Type 0
Full capacity (end _ _) = Unit {0}
Full capacity (pair _ _ _ _ _ _ rest) = Full capacity rest
Full {bytes} capacity (spill p n _ _ _ rest) =
    (readp u16 bytes (p + 8) ≡ capacity) × (n ≡ bucket_size capacity) × Full capacity rest

-- The index of the bucket for a hash
abbrev pub place : KeyFileHeader → ℕ → ℕ
place kh h = bucket_index h kh.buckets kh.modulus

-- Every value of the file has an entry, with the hash of its key and its offset, among those of
-- the index for the hash.
unfoldable pub all_indexed :
    {bytes : Memory} {key_size last p : ℕ} {kvs : List (List ℕ × List ℕ)}
    → Hasher
    → KeyFileHeader
    → (ℕ → List Value)
    → Records bytes key_size last p kvs
    → Bool
all_indexed hasher kh contents (end _ _) = true
all_indexed {bytes} {key_size} hasher kh contents (pair p _ _ _ _ _ rest) =
    let h = hash hasher (blob bytes (p + 6) key_size) kh.salt in
    indexed h p (contents (place kh h)) && all_indexed hasher kh contents rest
all_indexed hasher kh contents (spill _ _ _ _ _ rest) = all_indexed hasher kh contents rest

-- The values counted, where each of them is indexed; else the error for a value that is not.
pub data Verdict (s : Checker) (kvs : List (List ℕ × List ℕ)) : Bool → Result Checker → Type 0 where
  orphaned : Verdict s kvs false (err orphaned_value)
  counted :
      (t : Checker)
      → t.info.value_count ≡ s.info.value_count + length kvs
      → t.info.value_bytes ≡ s.info.value_bytes + total kvs
      → Verdict s kvs true (ok t)

-- The verdict on the rest is one on the whole.
pub later :
    (s t : Checker) (kvs rest : List (List ℕ × List ℕ)) (n c : ℕ) (all : Bool) (x : Result Checker)
    → t.info.value_count ≡ s.info.value_count + c
    → t.info.value_bytes ≡ s.info.value_bytes + n
    → length kvs ≡ c + length rest
    → total kvs ≡ n + total rest
    → Verdict t rest all x
    → Verdict s kvs all x
later s t kvs rest n c all x e1 e2 e3 e4 orphaned = orphaned
later s t kvs rest n c all x e1 e2 e3 e4 (counted u a b) =
    counted u (omega (arith, a, e1, e3)) (omega (arith, b, e2, e4))

module _ {F : Type 0} (ops : FileOps F) (laws : FileLaws ops) (hasher : Hasher) (fresh : Memory)
    (df kf : F) (kh : KeyFileHeader) where
  pub pair_value :
      (fuel n : ℕ) (r v w : Reader F) (is is2 : Istream) (s : Checker)
      → prepare_read ops fresh r 6 ≡ ok (is, v)
      → is.left ≡ 6
      → readp u48 v.buf.bytes is.buf ≡ n
      → n < 2 ^ 32
      → 0 < n
      → prepare_read ops fresh v (kh.key_size + n) ≡ ok (is2, w)
      → normal_record ops hasher fresh df kf kh fuel r s ≡ (
          check_value ops hasher fresh df kf kh fuel (position r) n w.buf.bytes is2 s >>= λ x.
          once (w, count_value n x s))
  unfolding normal_record normal_value
  pair_value fuel n r v w is is2 s e1 left number small pos e2 =
      let a1 : ltb is.left 6 ≡ false = ground arith in
      let low : n % 2 ^ 32 ≡ n = mod-eq_of_lt small in
      let more : ltb 0 n ≡ true = ground arith in rw (e1, a1, number, low, more, e2) refl

  pub spill_head :
      (fuel : ℕ) (r v : Reader F) (is : Istream) (s : Checker)
      → prepare_read ops fresh r 6 ≡ ok (is, v)
      → is.left ≡ 6
      → readp u48 v.buf.bytes is.buf ≡ 0
      → normal_record ops hasher fresh df kf kh fuel r s
        ≡ normal_spill ops hasher fresh df kf kh v s
  unfolding normal_record
  spill_head fuel r v is s e1 left number =
      let a1 : ltb is.left 6 ≡ false = ground arith in rw (e1, a1, number) refl

  pub full_spill :
      (n : ℕ) (v u w : Reader F) (is : Istream) (s : Checker) (b : Bucket) (m : Memory)
      → prepare_read ops fresh v 2 ≡ ok (is, u)
      → is.left ≡ 2
      → readp u16 u.buf.bytes is.buf ≡ n
      → (n == bucket_size kh.capacity) ≡ true
      → read_bulk ops fresh s.memory s.bucket u ≡ ok (b, m, w)
      → (t : Checker) × (normal_spill ops hasher fresh df kf kh v s ≡ once (w, t))
        × (t.info.value_count ≡ s.info.value_count)
        × (t.info.value_bytes ≡ s.info.value_bytes)
        × (t.bucket.block_size ≡ b.block_size)
  unfolding normal_spill short_as
  full_spill n v u w is s b m e1 left number same e2 =
      let a1 : ltb is.left 2 ≡ false = ground arith in
      (
        record {
          bucket = b;
          memory = m;
          info = record s.info {
            spill_count_tot = s.info.spill_count_tot + 1;
            spill_bytes_tot = s.info.spill_bytes_tot + spill_size b;
          };
        },
        rw (e1, a1, number, same, e2) refl,
        refl,
        refl,
        refl,
      )
