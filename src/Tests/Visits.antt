-- ===== src/Tests/Visits.antt =====
-- A data file with a data record and a spill record.
use nu_db.Prelude.{ℕ, ◌≡◌, refl, some, List, [], ◌∷◌, arith}
use nu_db.Error.{Result, ok, err, key_exists}
use nu_db.Memory.{poke}
use nu_db.Field.{readp, writep}
use nu_db.Stream.{blob, store}
use nu_db.Format.{dat_header_size}
use nu_db.Format.Headers.{DatFileHeader, dat_type, write_dat_file, read_dat_file, write_dat}
use nu_db.Format.RoundTrip.Files.{read_dat_file-write_dat_file}
use nu_db.Format.Verify.{verify_dat, same}
use nu_db.Visit.{visit}
use nu_db.Visit.Records.{Records, count, visit_all}
use nu_db.Visit.Whole.{visit-visit_all}
use nu_db.Tests.Device.{Device, device, device_laws, device_reads}

abbrev header : DatFileHeader
header = record { type = dat_type; version = 2; uid = 12345; appnum = 1; key_size = 2 }

-- A pair whose value has three bytes, and a spill of one byte
abbrev body : List ℕ
body = 0 ∷ 0 ∷ 0 ∷ 0 ∷ 0 ∷ 3 ∷ 21 ∷ 22 ∷ 31 ∷ 32 ∷ 33 ∷ 0 ∷ 0 ∷ 0 ∷ 0 ∷ 0 ∷ 0 ∷ 0 ∷ 1 ∷ 9 ∷ []

abbrev records_device : Device
records_device = record { bytes = store (λ x. 0) 92 body; extent = 112 }

abbrev run : Result Device → Device
run (ok f) = f
run _ = records_device

abbrev file : Device
file = run (write_dat_file device records_device header)

-- A callback that stops at the second pair.
abbrev keep_one : List (List ℕ) → List ℕ → List ℕ → Result (List (List ℕ))
keep_one [] key bytes = ok (key ∷ bytes ∷ [])
keep_one (b ∷ bs) key bytes = err key_exists

header_read : read_dat_file device file ≡ ok header
unfolding write_dat_file
header_read =
    read_dat_file-write_dat_file device device_laws records_device file header
      (blob file.bytes 0 dat_header_size)
      (record {
        version = omega arith;
        uid = omega arith;
        appnum = omega arith;
        key_size = omega arith;
      })
      refl (unfold blob in refl)

computed : Unit {0}
unfolding write_dat_file write_dat store poke writep readp blob
computed = tt

records : Records (device_laws.bytes file) 2 112 92 ((21 ∷ 22 ∷ [], 31 ∷ 32 ∷ 33 ∷ []) ∷ [])
unfolding computed device_laws
records =
    Records.pair 92 3 [] (omega arith) (omega arith) refl
      (Records.spill 103 1 [] refl refl (Records.end 112 refl))

two_records : count records ≡ 2
unfolding records count
two_records = refl

visit-visit_all_example :
    visit device (λ x. 7) keep_one 3 40 file []
    ≡ some (visit_all keep_one [] ((21 ∷ 22 ∷ [], 31 ∷ 32 ∷ 33 ∷ []) ∷ []))
visit-visit_all_example =
    visit-visit_all device device_laws (λ x. 7) keep_one 3 40 112 file [] header
      ((21 ∷ 22 ∷ [], 31 ∷ 32 ∷ 33 ∷ []) ∷ []) header_read (unfold verify_dat same in refl)
      (unfold write_dat_file blob in refl) (device_reads file) records (omega (arith, two_records))
