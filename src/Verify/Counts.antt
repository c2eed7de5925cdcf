-- ===== src/Verify/Counts.antt =====
-- The loop of `verify_normal` over the data file, against the list of records that the file holds
-- and the entries of the key file.
use nu_db.Prelude.{
  ℕ, zero, suc, ◌+◌, ◌*◌, ◌^◌, ◌≤◌, ◌<◌, ◌≡◌, refl, ap, subst, ◌∙◌, some, List, [], ◌∷◌, length,
  Bool, true, false, ◌&&◌, ◌==◌, arith,
}
use nu_db.Error.{Result, ok, err, orphaned_value}
use nu_db.Memory.{Memory, IsBytes}
use nu_db.Field.{u16, u48, readp}
use nu_db.Field.RoundTrip.{readp_congr}
use nu_db.Stream.{Istream, blob}
use nu_db.Stream.Items.{length-blob}
use nu_db.File.{FileOps, FileLaws, Readable}
use nu_db.Format.{Hasher, hash, bucket_size}
use nu_db.Format.Headers.{KeyFileHeader}
use nu_db.Bucket.{Value}
use nu_db.BulkIo.{Reader, eof, position}
use nu_db.BulkIo.Hands.{IsVisitor, Hands, next}
use nu_db.Compact.Image.{read_bulk-Takes}
use nu_db.Visit.Records.{Records, end, pair, spill, count, within, blob-shift}
use nu_db.Run.{once, ◌>>=◌}
use nu_db.Verify.Normal.{Checker, Found, count_value, normal_record, normal_records}
use nu_db.Verify.Seek.{indexed}
use nu_db.Verify.Search.{Chained, Checked, check_value-indexed}
use nu_db.Verify.Values.{
  total, Full, Verdict, orphaned, counted, later, place, all_indexed, pair_value, spill_head,
  full_spill,
}

module _ {F : Type 0} (ops : FileOps F) (laws : FileLaws ops) (hasher : Hasher) (fresh : Memory)
    (df kf : F) (kh : KeyFileHeader) where
  -- The loop returns, with a verdict.
  abbrev Judges : ℕ → ℕ → Reader F → Checker → List (List ℕ × List ℕ) → Bool → Type 0
  Judges fuel turns r s kvs all =
      (x : Result Checker) × (normal_records ops hasher fresh df kf kh fuel turns r s ≡ some x)
      × Verdict s kvs all x

  ended :
      (fuel turns : ℕ) (r : Reader F) (s : Checker)
      → eof r ≡ true
      → Judges fuel (suc turns) r s [] true
  unfolding normal_records
  ended fuel turns r s e =
      (ok s, rw (e, normal_records) refl, counted s (omega arith) (omega arith))

  -- The turn on a value, whatever its search gives
  value_turn :
      (fuel turns n : ℕ) (r w : Reader F) (s : Checker) (found all : Bool) (y : Result Found)
      (kvs rest : List (List ℕ × List ℕ))
      → eof r ≡ false
      → normal_record ops hasher fresh df kf kh fuel r s
        ≡ (some y >>= λ x. once (w, count_value n x s))
      → Checked ops laws hasher fresh df kf kh found y
      → ((t : Checker) → t.bucket.block_size ≡ kh.block_size → Judges fuel turns w t rest all)
      → length kvs ≡ 1 + length rest
      → total kvs ≡ n + total rest
      → Judges fuel (suc turns) r s kvs (found && all)
  unfolding normal_records count_value
  value_turn fuel turns n r w s false all y kvs rest more e missing f e1 e2 =
      let stops : normal_record ops hasher fresh df kf kh fuel r s ≡ some (err orphaned_value) =
        e ∙ ap (λ z. some z >>= λ x. once (w, count_value n x s)) missing in
      (err orphaned_value, rw (more, normal_records, stops) refl, orphaned)
  value_turn fuel turns n r w s true all y kvs rest more e (a, found, same) f e1 e2 =
      let goes : normal_record ops hasher fresh df kf kh fuel r s ≡ once (w, count_value n a s) =
        e ∙ ap (λ z. some z >>= λ x. once (w, count_value n x s)) found in
      let (x, done, v) = f (count_value n a s) same in
      (
        x,
        rw (more, normal_records, goes) done,
        later s (count_value n a s) kvs rest n 1 all x (omega arith) (omega arith) e1 e2 v,
      )

  spill_turn :
      (fuel turns : ℕ) (r w : Reader F) (s t : Checker) (kvs : List (List ℕ × List ℕ)) (all : Bool)
      → eof r ≡ false
      → normal_record ops hasher fresh df kf kh fuel r s ≡ once (w, t)
      → t.info.value_count ≡ s.info.value_count
      → t.info.value_bytes ≡ s.info.value_bytes
      → Judges fuel turns w t kvs all
      → Judges fuel (suc turns) r s kvs all
  unfolding normal_records
  spill_turn fuel turns r w s t kvs all more e a b (x, done, v) = (
    x,
    rw (more, normal_records, e) done,
    later s t kvs kvs 0 0 all x (omega (arith, a)) (omega (arith, b)) (omega arith) (omega arith) v,
  )

  -- The turn on a spill record of a full bucket
  over_spill :
      (last fuel turns n p : ℕ) (r v u : Reader F) (is is2 : Istream) (s : Checker)
      (kvs : List (List ℕ × List ℕ)) (all : Bool)
      → Hands ops laws fresh df last r 6 is v
      → Hands ops laws fresh df last v 2 is2 u
      → position r ≡ p
      → eof r ≡ false
      → IsBytes (laws.bytes df)
      → readp u48 (laws.bytes df) p ≡ 0
      → readp u16 (laws.bytes df) (p + 6) ≡ n
      → readp u16 (laws.bytes df) (p + 8) ≡ kh.capacity
      → n ≡ bucket_size kh.capacity
      → p + 6 + 2 + n ≤ last
      → ((w : Reader F) (t : Checker)
          → IsVisitor ops laws fresh df last w
          → position w ≡ p + 6 + 2 + n
          → t.bucket.block_size ≡ s.bucket.block_size
          → Judges fuel turns w t kvs all)
      → Judges fuel (suc turns) r s kvs all
  over_spill last fuel turns n p r v u is is2 s kvs all h1 h2 at more b zeros size full same fits
        f =
      let number =
        readp_congr u48 v.buf.bytes (laws.bytes df) is.buf (position r) h1.bytes
        ∙ ap (readp u48 (laws.bytes df)) at
        ∙ zeros in
      let head = spill_head ops laws hasher fresh df kf kh fuel r v is s h1.done h1.left number in
      let there : position v ≡ p + 6 = omega (arith, h1.advanced, at) in
      let length =
        readp_congr u16 u.buf.bytes (laws.bytes df) is2.buf (position v) h2.bytes
        ∙ ap (readp u16 (laws.bytes df)) there
        ∙ size in
      let whole : n ≡ 8 + kh.capacity * 18 = unfold bucket_size in ground (arith, same) in
      let sized : (n == bucket_size kh.capacity) ≡ true = ground (arith, same) in
      let (m, w, h3) =
        read_bulk-Takes ops laws fresh df last (p + 8) s.memory s.bucket u h2.visitor
          (omega (arith, h2.advanced, there)) b (omega (arith, full, whole, fits)) in
      let (t, done, a, c, d) =
        full_spill ops laws hasher fresh df kf kh n v u w is2 s _ m h2.done h2.left length sized
          h3.done in
      spill_turn fuel turns r w s t kvs all more (head ∙ done) a c
        (f w t h3.visitor (omega (arith, h3.advanced, full, whole)) d)

  -- The bucket of every hash, with its spills, has the entries of its index.
  abbrev pub Holds : ℕ → (ℕ → List Value) → Type 0
  Holds fuel contents =
      (h : ℕ) → Chained ops laws hasher fresh df kf kh fuel (place kh h) (contents (place kh h))

  -- The turn on a data record
  over_value :
      (last fuel turns n p : ℕ) (r v w : Reader F) (is is2 : Istream) (s : Checker)
      (rest : List (List ℕ × List ℕ)) (contents : ℕ → List Value) (all : Bool)
      → Hands ops laws fresh df last r 6 is v
      → Hands ops laws fresh df last v (kh.key_size + n) is2 w
      → position r ≡ p
      → eof r ≡ false
      → Readable ops laws df
      → Readable ops laws kf
      → Holds fuel contents
      → s.bucket.block_size ≡ kh.block_size
      → 0 < n
      → n < 2 ^ 32
      → readp u48 (laws.bytes df) p ≡ n
      → ((t : Checker) → t.bucket.block_size ≡ kh.block_size → Judges fuel turns w t rest all)
      → let key = blob (laws.bytes df) (p + 6) kh.key_size in
        let h = hash hasher key kh.salt in
        Judges fuel
          (suc turns)
          r
          s
          ((key, blob (laws.bytes df) (p + 6 + kh.key_size) n) ∷ rest)
          (indexed h p (contents (place kh h)) && all)
  over_value last fuel turns n p r v w is is2 s rest contents all h1 h2 at more reads keys chains
        block pos small e f =
      let number =
        readp_congr u48 v.buf.bytes (laws.bytes df) is.buf (position r) h1.bytes
        ∙ ap (readp u48 (laws.bytes df)) at
        ∙ e in
      let key = blob (laws.bytes df) (p + 6) kh.key_size in
      let h = hash hasher key kh.salt in
      let same_key : blob w.buf.bytes is2.buf kh.key_size ≡ key =
        blob-shift w.buf.bytes (laws.bytes df) is2.buf (p + 6) kh.key_size (λ j lt.
          h2.bytes j (omega arith)
          ∙ ap (λ x. laws.bytes df (x + j)) (omega (arith, h1.advanced, at))) in
      let (y, found, checked) =
        check_value-indexed ops laws hasher fresh df kf kh fuel (position r) n w.buf.bytes is2 s key
          (contents (place kh h)) reads keys h2.left same_key block (chains h) in
      let turn =
        pair_value ops laws hasher fresh df kf kh fuel n r v w is is2 s h1.done h1.left number small
          pos h2.done in
      let size = length-blob (laws.bytes df) (p + 6 + kh.key_size) n in
      value_turn fuel turns n r w s _ all y _ rest more
        (turn ∙ ap (λ o. o >>= λ x. once (w, count_value n x s)) found)
        (subst (λ x. Checked ops laws hasher fresh df kf kh (indexed h x (contents (place kh h))) y)
          at checked)
        f (omega arith) (omega (arith, size))

  -- Where the two files can be read, the bytes of the data file behind an offset are data records
  -- and spill records of full buckets up to the end of the reader, the bucket of every hash and its
  -- spills, which are fewer than the fuel for them, are well-formed in the files, the bucket that
  -- they are read into has the block size of the key file, and the fuel for the records exceeds
  -- their number, the loop returns. Where every value has an entry with the hash of its key and its
  -- offset in the bucket for the hash or a spill of it, the loop succeeds, with the number of the
  -- values and the sum of their sizes added to the counts; and where a value has none, it gives
  -- `orphaned_value`.
  pub normal_records-Verdict :
      (fuel last turns p : ℕ) (r : Reader F) (s : Checker) (kvs : List (List ℕ × List ℕ))
      (contents : ℕ → List Value)
      → IsVisitor ops laws fresh df last r
      → position r ≡ p
      → IsBytes (laws.bytes df)
      → Readable ops laws df
      → Readable ops laws kf
      → Holds fuel contents
      → s.bucket.block_size ≡ kh.block_size
      → (records : Records (laws.bytes df) kh.key_size last p kvs) → Full kh.capacity records
      → count records < turns
      → (x : Result Checker) × (normal_records ops hasher fresh df kf kh fuel turns r s ≡ some x)
        × Verdict s kvs (all_indexed hasher kh contents records) x
  unfolding count all_indexed
  normal_records-Verdict fuel last zero p r s kvs contents h at b reads keys chains block records
        full enough =
      absurd (omega arith)
  normal_records-Verdict fuel last (suc turns) p r s kvs contents h at b reads keys chains block
        (end _ e) full enough =
      ended fuel turns r s (unfold eof in ground (arith, h.last_lem))
  normal_records-Verdict fuel last (suc turns) p r s kvs contents h at b reads keys chains block
        (pair _ n rest pos small e more) full enough =
      let below = within more in
      let (is, v, h1) = next ops laws fresh df last r 6 h (omega (arith, at)) in
      let (is2, w, h2) =
        next ops laws fresh df last v (kh.key_size + n) h1.visitor
          (omega (arith, h1.advanced, at)) in
      over_value last fuel turns n p r v w is is2 s rest contents _ h1 h2 at
        (unfold eof in ground (arith, h.last_lem)) reads keys chains block pos small e
        (λ t same.
          normal_records-Verdict fuel last turns _ w t rest contents h2.visitor
            (omega (arith, h1.advanced, h2.advanced, at)) b reads keys chains same more full
            (omega arith))
  normal_records-Verdict fuel last (suc turns) p r s kvs contents h at b reads keys chains block
        (spill _ n rest e0 e1 more) (capacity, whole, full) enough =
      let below = within more in
      let (is, v, h1) = next ops laws fresh df last r 6 h (omega (arith, at)) in
      let (is2, u, h2) =
        next ops laws fresh df last v 2 h1.visitor (omega (arith, h1.advanced, at)) in
      over_spill last fuel turns n p r v u is is2 s kvs _ h1 h2 at
        (unfold eof in ground (arith, h.last_lem)) b e0 e1 capacity whole below
        (λ w t visitor there same.
          normal_records-Verdict fuel last turns _ w t kvs contents visitor there b reads keys
            chains (same ∙ block) more full (omega arith))
