-- ===== src/Tests/Files.antt =====
-- Headers written to a file in memory, and the readers and writers over it.
use nu_db.Prelude.{◌≡◌, refl, arith}
use nu_db.Error.{Result, ok}
use nu_db.Stream.{Istream, Ostream, blob}
use nu_db.Format.{Hasher, key_header_size, bucket_capacity, ceil_pow2}
use nu_db.Format.Headers.{KeyFileHeader, key_type, bucket_count, write_key_file, read_key_file}
use nu_db.Format.RoundTrip.Files.{read_key_file-write_key_file}
use nu_db.BulkIo.{Reader, Writer, reader, prepare_read, prepare_write, flush}
use nu_db.BulkIo.Reading.{Reads, prepare_read-total, reader-IsReader}
use nu_db.BulkIo.Writing.{Prepares, Writes, prepare_write-total}
use nu_db.Tests.Device.{Device, blank, device, device_laws, device_extent, device_reads}

abbrev kh : KeyFileHeader
kh = record {
  type = key_type;
  version = 2;
  uid = 12345;
  appnum = 1;
  key_size = 32;
  salt = 99;
  pepper = 99;
  block_size = 128;
  load_factor = 32768;
  capacity = 6;
  buckets = 1;
  modulus = 1;
}

abbrev run {ℓ} : {A : Type ℓ} → Result A → A → A
run (ok a) d = a
run _ d = d

abbrev key_device : Device
key_device = run (write_key_file device blank kh) blank

read_key_file-write_key_file_example :
    read_key_file device key_device
    ≡ ok (record kh {
      capacity = bucket_capacity 128;
      buckets = bucket_count 128 128;
      modulus = ceil_pow2 (bucket_count 128 128);
    })
unfolding write_key_file
read_key_file-write_key_file_example =
    read_key_file-write_key_file device device_laws blank key_device kh
      (blob key_device.bytes 0 key_header_size) 128
      (record {
        version = omega arith;
        uid = omega arith;
        appnum = omega arith;
        key_size = omega arith;
        salt = omega arith;
        pepper = omega arith;
        block_size = omega arith;
        load_factor = omega arith;
      })
      refl (unfold blob in refl) (unfold blob in refl)

-- A hasher that returns its seed.
abbrev seed : Hasher
seed salt bytes = salt

-- A file of ten bytes, read four at a time through a buffer of eight.
abbrev ten : Device
ten = record { bytes = λ x. x; extent = 10 }

abbrev start : Reader Device
start = reader (λ x. 0) ten 0 10 8

abbrev first : Istream × Reader Device
first = run (prepare_read device (λ x. 0) start 4) (record { buf = 0; left = 0 }, start)

prepare_read-total_example :
    (x : Istream × Reader Device) × (prepare_read device (λ x. 0) start 4 ≡ ok x)
    × Reads device device_laws (λ x. 0) start 4 x.0 x.1
prepare_read-total_example =
    prepare_read-total device device_laws (λ x. 0) start 4
      (reader-IsReader device device_laws (λ x. 0) ten 0 10 8 (omega arith)).0
      (unfold reader in omega arith) (unfold reader in device_extent 10 ten (omega arith))
      (unfold reader in device_reads ten)

abbrev writing : Writer Device
writing = record { file = ten; buf = record { bytes = λ x. 9; size = 8 }; offset = 10; used = 6 }

abbrev flushed_writer : Writer Device
flushed_writer = run (flush device (λ x. 0) writing) writing

abbrev prepared : Ostream × Writer Device
prepared = run (prepare_write device (λ x. 0) writing 4) (record { buf = 0; written = 0 }, writing)

abbrev all_written : (f : Device) → Writes device device_laws (λ x. 0) f
all_written f p bs = (_, refl)

prepare_write-total_example :
    (r : Ostream × Writer Device) × (prepare_write device (λ x. 0) writing 4 ≡ ok r)
    × Prepares device device_laws (λ x. 0) writing 4 r.0 r.1
prepare_write-total_example =
    prepare_write-total device device_laws (λ x. 0) writing 4 (all_written ten)
