-- ===== src/Visit.antt =====
-- impl/visit.ipp: every data record of a data file, in the order of the file. The callback changes
-- a state of the caller, and may stop with an error; the progress callback is not modelled.
pub mod Records
pub mod Turns
pub mod Whole
use nu_db.Prelude.{ℕ, zero, suc, ◌+◌, Option, none, some, List, ltb, if◌then◌else◌}
use nu_db.Error.{Result, ok, err, thrown, ◌>>=◌, ◌>>◌}
use nu_db.Memory.{Memory}
use nu_db.Field.{u16, u48, size}
use nu_db.Stream.{Istream, read, read_blob, read_size48}
use nu_db.File.{FileOps}
use nu_db.Format.{dat_header_size}
use nu_db.Format.Headers.{read_dat_file}
use nu_db.Format.Verify.{verify_dat}
use nu_db.BulkIo.{Reader, reader, eof, prepare_read}

module _ {F S : Type 0} (ops : FileOps F) (fresh : Memory)
    (callback : S → List ℕ → List ℕ → Result S) (key_size : ℕ) where
  -- The key and the data of a record, in the stream that `prepare` gives
  unfoldable pub visit_bytes : Istream → Reader F → ℕ → S → Result (Reader F × S)
  unfolding read_blob
  visit_bytes is r n s = do
    (key, rest) ← read_blob r.buf.bytes is key_size
    (bytes, _) ← read_blob r.buf.bytes rest n
    t ← callback s key bytes
    ok (r, t)

  -- A data record behind its size. The error of `prepare` is not looked at: its stream is empty.
  unfoldable pub visit_data : Reader F → ℕ → S → Result (Reader F × S)
  unfolding visit_bytes
  visit_data r n s = elim (prepare_read ops fresh r (key_size + n)) [
    | ok (is, v) ↦ visit_bytes is v n s
    | err _ ↦ visit_bytes (record { buf = 0; left = 0 }) r n s
    | thrown ↦ thrown
  ]

  -- A spill record behind its zero
  unfoldable pub skip_spill : Reader F → S → Result (Reader F × S)
  unfolding read
  skip_spill r s = do
    (is, v) ← prepare_read ops fresh r (size u16)
    (n, _) ← read u16 v.buf.bytes is
    (_, w) ← prepare_read ops fresh v n
    ok (w, s)

  -- The body of the loop
  unfoldable pub visit_record : Reader F → S → Result (Reader F × S)
  unfolding visit_data skip_spill read_size48
  visit_record r s = do
    (is, v) ← prepare_read ops fresh r (size u48)
    (n, _) ← read_size48 v.buf.bytes is
    if ltb 0 n then visit_data v n s else skip_spill v s

  -- The loop; the fuel is the number of records and one, and `none` is that it ran out.
  unfoldable pub visit_records : ℕ → Reader F → S → Option (Result S)
  unfolding visit_record eof
  visit_records zero r s = none
  visit_records (suc fuel) r s = if eof r then some (ok s) else elim (visit_record r s) [
    | err e ↦ some (err e)
    | thrown ↦ some thrown
    | ok (r', s') ↦ visit_records fuel r' s'
  ]

-- The checks of the header, with the size of the keys and that of the file
unfoldable pub visit_header : {F : Type 0} → FileOps F → F → Result (ℕ × ℕ)
unfolding read_dat_file verify_dat
visit_header ops df = do
  dh ← read_dat_file ops df
  verify_dat dh
  file_size ← ops.size df
  ok (dh.key_size, file_size)

module _ {F S : Type 0} (ops : FileOps F) (fresh : Memory)
    (callback : S → List ℕ → List ℕ → Result S) where
  -- `visit` of an open file, with a buffer of a size
  unfoldable pub visit : ℕ → ℕ → F → S → Option (Result S)
  unfolding visit_records reader visit_header
  visit fuel read_size df s = elim (visit_header ops df) [
    | err e ↦ some (err e)
    | thrown ↦ some thrown
    | ok (key_size, file_size) ↦
        visit_records ops fresh callback key_size fuel
          (reader fresh df dat_header_size file_size read_size) s
  ]
