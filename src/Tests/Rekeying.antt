-- ===== src/Tests/Rekeying.antt =====
-- A key file that is made again for a data file.
use nu_db.Rekey.{Plan}
use nu_db.Tests.Device.{Device}

abbrev plan : Plan
plan = record {
  salt = 3;
  block_size = 104;
  load = 32768;
  buckets = 2;
  buffer_size = 104;
  read_size = 64;
  write_size = 64;
}

-- The key file after the first write of the whole header
abbrev half_made : Device
half_made = record { bytes = λ x. 0; extent = 208 }
