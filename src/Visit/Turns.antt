-- ===== src/Visit/Turns.antt =====
-- A turn of the loop of `visit`, on a data record and on a spill record.
use nu_db.Prelude.{ℕ, ◌+◌, ◌-◌, ◌<◌, ◌%◌, ◌^◌, ◌≡◌, refl, ap, ◌∙◌, List, true, false, ltb, arith}
use native.Mathlib.Nat.{mod-eq_of_lt}
use nu_db.Error.{Result, ok, ◌>>=◌}
use nu_db.Memory.{Memory}
use nu_db.Field.{u16, u48, readp}
use nu_db.Field.RoundTrip.{readp_congr}
use nu_db.Stream.{Istream, blob}
use nu_db.File.{FileOps, FileLaws}
use nu_db.BulkIo.{Reader, position, prepare_read}
use nu_db.BulkIo.Hands.{Hands}
use nu_db.Visit.{visit_data, skip_spill, visit_record}
use nu_db.Visit.Records.{blob-shift}

module _ {F S : Type 0} (ops : FileOps F) (laws : FileLaws ops) (fresh : Memory)
    (callback : S → List ℕ → List ℕ → Result S) (key_size : ℕ) where
  visit_data_value :
      (n : ℕ) (v w : Reader F) (is : Istream) (s : S)
      → prepare_read ops fresh v (key_size + n) ≡ ok (is, w)
      → is.left ≡ key_size + n
      → visit_data ops fresh callback key_size v n s ≡ (
          callback s (blob w.buf.bytes is.buf key_size) (blob w.buf.bytes (is.buf + key_size) n)
          >>= λ t. ok (w, t))
  unfolding visit_data
  visit_data_value n v w is s e left =
      let a2 : ltb is.left key_size ≡ false = ground arith in
      let a3 : ltb (is.left - key_size) n ≡ false = ground arith in rw (visit_data, e, a2, a3) refl

  visit_pair_value :
      (n : ℕ) (r v w : Reader F) (is is2 : Istream) (s : S)
      → prepare_read ops fresh r 6 ≡ ok (is, v)
      → is.left ≡ 6
      → readp u48 v.buf.bytes is.buf ≡ n
      → n < 2 ^ 32
      → 0 < n
      → prepare_read ops fresh v (key_size + n) ≡ ok (is2, w)
      → is2.left ≡ key_size + n
      → visit_record ops fresh callback key_size r s ≡ (
          callback s (blob w.buf.bytes is2.buf key_size) (blob w.buf.bytes (is2.buf + key_size) n)
          >>= λ t. ok (w, t))
  unfolding visit_record
  visit_pair_value n r v w is is2 s e1 left number small pos e2 left2 =
      let a1 : ltb is.left 6 ≡ false = ground arith in
      let low : n % 2 ^ 32 ≡ n = mod-eq_of_lt small in
      let more : ltb 0 n ≡ true = ground arith in
      rw (e1, a1, number, low, more) (visit_data_value n v w is2 s e2 left2)

  visit_spill_value :
      (n : ℕ) (r v u w : Reader F) (is is2 is3 : Istream) (s : S)
      → prepare_read ops fresh r 6 ≡ ok (is, v)
      → is.left ≡ 6
      → readp u48 v.buf.bytes is.buf ≡ 0
      → prepare_read ops fresh v 2 ≡ ok (is2, u)
      → is2.left ≡ 2
      → readp u16 u.buf.bytes is2.buf ≡ n
      → prepare_read ops fresh u n ≡ ok (is3, w)
      → visit_record ops fresh callback key_size r s ≡ ok (w, s)
  unfolding visit_record skip_spill
  visit_spill_value n r v u w is is2 is3 s e1 left number e2 left2 size e3 =
      let a1 : ltb is.left 6 ≡ false = ground arith in
      let a2 : ltb is2.left 2 ≡ false = ground arith in rw (e1, a1, number, e2, a2, size, e3) refl

  -- The key and the data, as the file has them
  handed :
      (f : F) (last n p : ℕ) (v w : Reader F) (is : Istream)
      → Hands ops laws fresh f last v (key_size + n) is w
      → position v ≡ p
      → (blob w.buf.bytes is.buf key_size ≡ blob (laws.bytes f) p key_size)
        × (blob w.buf.bytes (is.buf + key_size) n ≡ blob (laws.bytes f) (p + key_size) n)
  handed f last n p v w is h at = (
    blob-shift w.buf.bytes (laws.bytes f) is.buf p key_size
        (λ j lt. h.bytes j (omega arith) ∙ ap (λ x. laws.bytes f (x + j)) at),
    blob-shift w.buf.bytes (laws.bytes f) (is.buf + key_size) (p + key_size) n (λ j lt.
        let a : is.buf + key_size + j ≡ is.buf + (key_size + j) = omega arith in
        let b : position v + (key_size + j) ≡ p + key_size + j = omega (arith, at) in
        ap w.buf.bytes a ∙ h.bytes (key_size + j) (omega arith) ∙ ap (laws.bytes f) b),
  )

  -- A data record is handed to the callback.
  pub visit_pair :
      (f : F) (last n : ℕ) (r v w : Reader F) (is is2 : Istream) (s : S)
      → Hands ops laws fresh f last r 6 is v
      → Hands ops laws fresh f last v (key_size + n) is2 w
      → 0 < n
      → n < 2 ^ 32
      → readp u48 (laws.bytes f) (position r) ≡ n
      → let p = position r in
        let key = blob (laws.bytes f) (p + 6) key_size in
        let bytes = blob (laws.bytes f) (p + 6 + key_size) n in
        visit_record ops fresh callback key_size r s ≡ (callback s key bytes >>= λ t. ok (w, t))
  visit_pair f last n r v w is is2 s h h2 pos small e =
      let number = readp_congr u48 v.buf.bytes (laws.bytes f) is.buf (position r) h.bytes ∙ e in
      let (key_same, bytes_same) = handed f last n (position r + 6) v w is2 h2 h.advanced in
      rw (key_same, bytes_same) at
        (visit_pair_value n r v w is is2 s h.done h.left number small pos h2.done h2.left)

  -- A spill record is passed over.
  pub visit_spill :
      (f : F) (last n : ℕ) (r v u w : Reader F) (is is2 is3 : Istream) (s : S)
      → Hands ops laws fresh f last r 6 is v
      → Hands ops laws fresh f last v 2 is2 u
      → Hands ops laws fresh f last u n is3 w
      → readp u48 (laws.bytes f) (position r) ≡ 0
      → readp u16 (laws.bytes f) (position r + 6) ≡ n
      → visit_record ops fresh callback key_size r s ≡ ok (w, s)
  visit_spill f last n r v u w is is2 is3 s h h2 h3 e0 e1 =
      let zeros = readp_congr u48 v.buf.bytes (laws.bytes f) is.buf (position r) h.bytes ∙ e0 in
      let size =
        readp_congr u16 u.buf.bytes (laws.bytes f) is2.buf (position v) h2.bytes
        ∙ ap (readp u16 (laws.bytes f)) h.advanced
        ∙ e1 in
      visit_spill_value n r v u w is is2 is3 s h.done h.left zeros h2.done h2.left size h3.done
