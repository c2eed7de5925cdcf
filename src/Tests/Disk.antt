-- ===== src/Tests/Disk.antt =====
-- A bucket of one entry that is written to a file in memory and read back.
use nu_db.Prelude.{◌+◌, ◌≡◌, refl, arith}
use nu_db.Error.{ok}
use nu_db.Memory.{Memory}
use nu_db.Format.{bucket_size, bucket_capacity}
use nu_db.Stream.{blob}
use nu_db.Bucket.{Bucket, create, clear, insert, full, actual_size, read_file, write_file}
use nu_db.Bucket.Entries.{entries}
use nu_db.Bucket.Blob.{create-IsBucket}
use nu_db.Bucket.Insert.{IsBucket}
use nu_db.Bucket.Insert.Refines.{insert-IsBucket}
use nu_db.Bucket.Transfer.{read_file-write_file}
use nu_db.BulkIo.{Reader, reader}
use nu_db.BulkIo.Reading.{reader-IsReader}
use nu_db.Compact.{read_bulk}
use nu_db.Compact.Log.{Takes, read_bulk-Takes}
use nu_db.Tests.Device.{
  Device, blank, device, device_laws, device_bytes, device_extent, device_reads,
}

abbrev threes : Memory
threes x = 3

source : Bucket × Memory
source = let (b, m) = create threes 200 16 in insert m b 1000 50 77

source-IsBucket : IsBucket source.1 source.0
unfolding source
source-IsBucket =
    let (b, m) = create threes 200 16 in
    (insert-IsBucket m b 1000 50 77 (create-IsBucket threes 200 16 (omega arith) (omega arith)).0
      (unfold create clear full bucket_capacity in refl) (omega arith) (omega arith)
      (omega arith)).0

abbrev written : Device × Memory
written = elim (write_file device blank source.1 source.0 400) [ ok r ↦ r | _ ↦ (blank, threes) ]

read_file-write_file_example :
    let c : Bucket = record { block_size = source.0.block_size; size = 9; spill = 9; p = 700 } in
    let d = record source.0 { p = 700 } in
    (n : Memory) × (read_file device written.0 threes c 400 ≡ ok (d, n))
    × IsBucket n d
    × (entries n d ≡ entries source.1 source.0)
read_file-write_file_example =
    read_file-write_file device device_laws blank written.0 source.1 written.1 threes source.0 700 9
      9 400 (blob written.0.bytes 400 (bucket_size (bucket_capacity source.0.block_size)))
      source-IsBucket (unfold source create clear insert bucket_capacity in omega arith)
      (unfold write_file in refl)
      (unfold write_file source create clear insert bucket_capacity bucket_size actual_size blob in
        refl)

-- A file whose bytes from 16 on are those of the bucket.
abbrev log : Device
log = record { bytes = source.1; extent = 60 }

abbrev log_reader : Reader Device
log_reader = reader threes log 16 60 12

read_bulk-Takes_example :
    let c : Bucket = record { block_size = source.0.block_size; size = 9; spill = 9; p = 700 } in
    (x : Bucket × Memory × Reader Device) × (read_bulk device threes threes c log_reader ≡ ok x)
    × Takes device device_laws threes source.1 source.0 log_reader x.0 x.1 x.2
read_bulk-Takes_example =
    read_bulk-Takes device device_laws threes source.1 threes source.0 700 9 9 log_reader
      source-IsBucket
      (unfold reader source create clear insert in λ k lt. device_bytes log (16 + k))
      (reader-IsReader device device_laws threes log 16 60 12 (omega arith)).0
      (unfold reader source create clear insert actual_size bucket_size in omega arith)
      (unfold reader in device_extent 60 log (omega arith)) (unfold reader in device_reads log)
