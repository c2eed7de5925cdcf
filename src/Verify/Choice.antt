-- ===== src/Verify/Choice.antt =====
-- impl/verify.ipp, verify: the checks of the headers, and the choice of the algorithm.
use nu_db.Prelude.{
  ℕ, ◌+◌, ◌-◌, ◌*◌, ◌/◌, ◌%◌, ◌^◌, min, Bool, ◌||◌, some, ltb, leb, ◌==◌, if◌then◌else◌,
}
use nu_db.Error.{Result}
use nu_db.Memory.{Memory}
use nu_db.Endian.{Endian}
use nu_db.File.{FileOps}
use nu_db.Format.{Hasher}
use nu_db.Format.Headers.{KeyFileHeader, read_dat_file, read_key_file, zeros}
use nu_db.Format.Verify.{verify_dat, verify_key, verify_dat_key}
use nu_db.Run.{Run, once, ◌>>=◌}
use nu_db.Verify.{Info}
use nu_db.Verify.Normal.{verify_normal}
use nu_db.Verify.Fast.{verify_fast}

-- `info = {}`
abbrev pub no_counts : Info
no_counts = record {
  key_count = 0;
  value_count = 0;
  value_bytes = 0;
  spill_count = 0;
  spill_count_tot = 0;
  spill_bytes = 0;
  spill_bytes_tot = 0;
  hist = zeros 10;
  fetches = 0;
}

-- Whether `verify_normal` is called, for a buffer of a size, with `sizeof(nkey_t)`. The estimate of
-- its work wraps in 64 bits.
unfoldable pub is_normal : KeyFileHeader → ℕ → ℕ → ℕ → ℕ → Bool
is_normal kh key_bytes buffer_size dat_size key_size =
    let chunk =
      if leb (2 * kh.block_size + key_bytes) buffer_size
      then min kh.buckets ((buffer_size - kh.block_size) / (kh.block_size + key_bytes))
      else 0 in
    let passes = if ltb 0 chunk then (kh.buckets + chunk - 1) / chunk else 0 in
    let work = kh.buckets * kh.load_factor * kh.capacity * kh.block_size in
    (chunk == 0)
    || ltb ((dat_size + work + key_size) % 2 ^ 64) ((passes * dat_size + key_size) % 2 ^ 64)

module _ {F : Type 0} (ops : FileOps F) (endian : Endian) (hasher : Hasher) (fresh : Memory) where
  -- The headers and the sizes of the two files, from what opening them gives
  unfoldable pub check_files : Result F → Result F → Run (F × (F × (KeyFileHeader × (ℕ × ℕ))))
  check_files dat key = do
    df ← some dat
    kf ← some key
    dh ← some (read_dat_file ops df)
    _ ← some (verify_dat dh)
    kh ← some (read_key_file ops kf)
    _ ← some (verify_key endian hasher kh)
    _ ← some (verify_dat_key endian hasher dh kh)
    key_size ← some (ops.size kf)
    dat_size ← some (ops.size df)
    once (df, (kf, (kh, (dat_size, key_size))))

  -- `verify`, with fuel for the spills of a bucket and for the records of the data file
  unfoldable pub verify : ℕ → ℕ → ℕ → ℕ → Result F → Result F → Run Info
  unfolding check_files is_normal verify_normal verify_fast
  verify fuel turns key_bytes buffer_size dat key = do
    (df, (kf, (kh, (dat_size, key_size)))) ← check_files dat key
    if is_normal kh key_bytes buffer_size dat_size key_size
        then verify_normal ops hasher fresh df kf kh fuel turns dat_size no_counts
        else verify_fast ops hasher fresh df kf kh fuel turns key_bytes buffer_size dat_size
            no_counts
