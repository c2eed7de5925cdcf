-- ===== src/Visit/Whole.antt =====
-- `visit` against the list of records that the data file holds.
use nu_db.Prelude.{ℕ, zero, suc, ◌+◌, ◌<◌, ◌≡◌, refl, some, List, true, false, arith}
use nu_db.Error.{Result, ok, err, thrown, ◌>>=◌}
use nu_db.Memory.{Memory}
use nu_db.File.{FileOps, FileLaws}
use nu_db.Format.{dat_header_size}
use nu_db.Format.Headers.{DatFileHeader, read_dat_file}
use nu_db.Format.Verify.{verify_dat}
use nu_db.BulkIo.{Reader, reader, eof, position}
use nu_db.BulkIo.Reading.{ReadsWithin}
use nu_db.Visit.{visit_header, visit_record, visit_records, visit}
use nu_db.Visit.Records.{Records, end, pair, spill, count, within, visit_all}
use nu_db.BulkIo.Hands.{IsVisitor, next, reader-IsVisitor}
use nu_db.Visit.Turns.{visit_pair, visit_spill}

module _ {F S : Type 0} (ops : FileOps F) (laws : FileLaws ops) (fresh : Memory)
    (callback : S → List ℕ → List ℕ → Result S) (key_size : ℕ) where
  -- The loop goes on behind a record.
  go_on :
      (fuel : ℕ) (r w : Reader F) (s : S) (o : Result S) (rest : List (List ℕ × List ℕ))
      → eof r ≡ false
      → visit_record ops fresh callback key_size r s ≡ (o >>= λ t. ok (w, t))
      → ((t : S)
          → visit_records ops fresh callback key_size fuel w t ≡ some (visit_all callback t rest))
      → visit_records ops fresh callback key_size (suc fuel) r s
        ≡ some (o >>= λ t. visit_all callback t rest)
  unfolding visit_records
  go_on fuel r w s (ok t) rest more turn later = rw (more, visit_records, turn) (later t)
  go_on fuel r w s (err e) rest more turn later = rw (more, visit_records, turn) refl
  go_on fuel r w s thrown rest more turn later = rw (more, visit_records, turn) refl

  visit_records-Records :
      (f : F) (last fuel p : ℕ) (r : Reader F) (s : S) (kvs : List (List ℕ × List ℕ))
      → IsVisitor ops laws fresh f last r
      → position r ≡ p
      → (records : Records (laws.bytes f) key_size last p kvs) → count records < fuel
      → visit_records ops fresh callback key_size fuel r s ≡ some (visit_all callback s kvs)
  unfolding visit_records visit_all count eof
  visit_records-Records f last zero p r s kvs h at records enough = absurd (omega arith)
  visit_records-Records f last (suc fuel) p r s kvs h at (end _ e) enough =
      let stop : eof r ≡ true = ground (arith, h.last_lem) in rw (stop, visit_records) refl
  visit_records-Records f last (suc fuel) p r s kvs h at (pair _ n rest pos small e more) enough =
      let below = within more in
      let (is, v, h1) = next ops laws fresh f last r 6 h (omega (arith, at)) in
      let (is2, w, h2) =
        next ops laws fresh f last v (key_size + n) h1.visitor (omega (arith, h1.advanced, at)) in
      let turn =
        visit_pair ops laws fresh callback key_size f last n r v w is is2 s h1 h2 pos small
          (rw at e) in
      let going : eof r ≡ false = ground (arith, h.last_lem) in
      go_on fuel r w s _ rest going (rw at at turn) (λ t.
        visit_records-Records f last fuel _ w t rest h2.visitor
          (omega (arith, h1.advanced, h2.advanced, at)) more (omega arith))
  visit_records-Records f last (suc fuel) p r s kvs h at (spill _ n rest e0 e1 more) enough =
      let below = within more in
      let (is, v, h1) = next ops laws fresh f last r 6 h (omega (arith, at)) in
      let (is2, u, h2) =
        next ops laws fresh f last v 2 h1.visitor (omega (arith, h1.advanced, at)) in
      let (is3, w, h3) =
        next ops laws fresh f last u n h2.visitor (omega (arith, h1.advanced, h2.advanced, at)) in
      let turn =
        visit_spill ops laws fresh callback key_size f last n r v u w is is2 is3 s h1 h2 h3
          (rw at e0) (rw at e1) in
      let going : eof r ≡ false = ground (arith, h.last_lem) in
      go_on fuel r w s (ok s) kvs going turn (λ t.
        visit_records-Records f last fuel _ w t kvs h3.visitor
          (omega (arith, h1.advanced, h2.advanced, h3.advanced, at)) more (omega arith))

header :
    {F : Type 0} (ops : FileOps F) (df : F) (dh : DatFileHeader) (n : ℕ)
    → read_dat_file ops df ≡ ok dh
    → verify_dat dh ≡ ok tt
    → ops.size df ≡ ok n
    → visit_header ops df ≡ ok (dh.key_size, n)
unfolding visit_header
header ops df dh n e1 e2 e3 = rw (e1, visit_header, e2, e3) refl

module _ {F S : Type 0} (ops : FileOps F) (laws : FileLaws ops) (fresh : Memory)
    (callback : S → List ℕ → List ℕ → Result S) where
  -- For a data file with a header that passes the check, which can be read and whose bytes behind
  -- the header are data records and spill records up to its end, and with fuel that exceeds their
  -- number, `visit` returns: it hands every key and value to the callback once, in the order of
  -- the file, up to the first error of the callback, for every size of the read buffer.
  pub visit-visit_all :
      (fuel read_size n : ℕ) (df : F) (s : S) (dh : DatFileHeader) (kvs : List (List ℕ × List ℕ))
      → read_dat_file ops df ≡ ok dh
      → verify_dat dh ≡ ok tt
      → ops.size df ≡ ok n
      → ReadsWithin ops laws fresh df
      → (records : Records (laws.bytes df) dh.key_size n dat_header_size kvs) → count records < fuel
      → visit ops fresh callback fuel read_size df s ≡ some (visit_all callback s kvs)
  unfolding visit
  visit-visit_all fuel read_size n df s dh kvs e1 e2 e3 reads records enough =
      let r = reader fresh df dat_header_size n read_size in
      let (visitor, at) =
        reader-IsVisitor ops laws fresh df dat_header_size n read_size (within records)
          (omega (arith, laws.size_lem df n e3)) reads in
      rw (header ops df dh n e1 e2 e3, visit)
        (visit_records-Records ops laws fresh callback dh.key_size df n fuel dat_header_size r s kvs
          visitor at records enough)
