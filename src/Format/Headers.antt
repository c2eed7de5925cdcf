-- ===== src/Format/Headers.antt =====
-- The headers of the three files: their fields, and how they are written and read.
use nu_db.Prelude.{ℕ, zero, suc, ◌-◌, ◌/◌, List, [], ◌∷◌, ltb, if◌then◌else◌}
use nu_db.Error.{Result, ok, invalid_block_size, ◌>>=◌, ◌>>◌, fail_if}
use nu_db.Memory.{Memory, fill}
use nu_db.Field.{u16, u64}
use nu_db.Stream.{Istream, Ostream, blob, store, read, read_blob, write, write_blob}
use nu_db.File.{FileOps}
use nu_db.Format.{dat_header_size, key_header_size, log_header_size, bucket_capacity, ceil_pow2}

pub record DatFileHeader : Type 0 where
  pub type : List ℕ
  pub version : ℕ
  pub uid : ℕ
  pub appnum : ℕ
  pub key_size : ℕ

pub record KeyFileHeader : Type 0 where
  pub type : List ℕ
  pub version : ℕ
  pub uid : ℕ
  pub appnum : ℕ
  pub key_size : ℕ
  pub salt : ℕ
  pub pepper : ℕ
  pub block_size : ℕ
  pub load_factor : ℕ
  pub capacity : ℕ
  pub buckets : ℕ
  pub modulus : ℕ

pub record LogFileHeader : Type 0 where
  pub type : List ℕ
  pub version : ℕ
  pub uid : ℕ
  pub appnum : ℕ
  pub key_size : ℕ
  pub salt : ℕ
  pub pepper : ℕ
  pub block_size : ℕ
  pub key_file_size : ℕ
  pub dat_file_size : ℕ

-- "nudb.dat", "nudb.key" and "nudb.log"
abbrev pub dat_type : List ℕ
dat_type = b'n' ∷ b'u' ∷ b'd' ∷ b'b' ∷ b'.' ∷ b'd' ∷ b'a' ∷ b't' ∷ []

abbrev pub key_type : List ℕ
key_type = b'n' ∷ b'u' ∷ b'd' ∷ b'b' ∷ b'.' ∷ b'k' ∷ b'e' ∷ b'y' ∷ []

abbrev pub log_type : List ℕ
log_type = b'n' ∷ b'u' ∷ b'd' ∷ b'b' ∷ b'.' ∷ b'l' ∷ b'o' ∷ b'g' ∷ []

-- `reserved.fill(0)`
unfoldable pub zeros : ℕ → List ℕ
zeros zero = []
zeros (suc n) = 0 ∷ zeros n

-- `read(istream&, dat_file_header&)`
unfoldable pub read_dat : Memory → Istream → Result (DatFileHeader × Istream)
unfolding read read_blob
read_dat m s0 = do
  (type, s1) ← read_blob m s0 8
  (version, s2) ← read u16 m s1
  (uid, s3) ← read u64 m s2
  (appnum, s4) ← read u64 m s3
  (key_size, s5) ← read u16 m s4
  (_, s6) ← read_blob m s5 64
  ok (
    record { type = type; version = version; uid = uid; appnum = appnum; key_size = key_size },
    s6,
  )

-- `write(ostream&, dat_file_header const&)`
unfoldable pub write_dat : Ostream → Memory → DatFileHeader → Ostream × Memory
unfolding zeros
write_dat os m dh =
    let (os1, m1) = write_blob os m dat_type in
    let (os2, m2) = write u16 os1 m1 dh.version in
    let (os3, m3) = write u64 os2 m2 dh.uid in
    let (os4, m4) = write u64 os3 m3 dh.appnum in
    let (os5, m5) = write u16 os4 m4 dh.key_size in write_blob os5 m5 (zeros 64)

-- `kh.buckets` for a file of that size
abbrev pub bucket_count : ℕ → ℕ → ℕ
bucket_count file_size block_size =
    if ltb block_size file_size
    then (if ltb 0 block_size then (file_size - block_size) / block_size else 0)
    else 0

-- `read(istream&, noff_t, key_file_header&)`
unfoldable pub read_key : Memory → Istream → ℕ → Result (KeyFileHeader × Istream)
unfolding read read_blob
read_key m s0 file_size = do
  (type, s1) ← read_blob m s0 8
  (version, s2) ← read u16 m s1
  (uid, s3) ← read u64 m s2
  (appnum, s4) ← read u64 m s3
  (key_size, s5) ← read u16 m s4
  (salt, s6) ← read u64 m s5
  (pepper, s7) ← read u64 m s6
  (block_size, s8) ← read u16 m s7
  (load_factor, s9) ← read u16 m s8
  (_, s10) ← read_blob m s9 56
  ok (
    record {
      type = type;
      version = version;
      uid = uid;
      appnum = appnum;
      key_size = key_size;
      salt = salt;
      pepper = pepper;
      block_size = block_size;
      load_factor = load_factor;
      capacity = bucket_capacity block_size;
      buckets = bucket_count file_size block_size;
      modulus = ceil_pow2 (bucket_count file_size block_size);
    },
    s10,
  )

-- `write(ostream&, key_file_header const&)`
unfoldable pub write_key : Ostream → Memory → KeyFileHeader → Ostream × Memory
unfolding zeros
write_key os m kh =
    let (os1, m1) = write_blob os m key_type in
    let (os2, m2) = write u16 os1 m1 kh.version in
    let (os3, m3) = write u64 os2 m2 kh.uid in
    let (os4, m4) = write u64 os3 m3 kh.appnum in
    let (os5, m5) = write u16 os4 m4 kh.key_size in
    let (os6, m6) = write u64 os5 m5 kh.salt in
    let (os7, m7) = write u64 os6 m6 kh.pepper in
    let (os8, m8) = write u16 os7 m7 kh.block_size in
    let (os9, m9) = write u16 os8 m8 kh.load_factor in write_blob os9 m9 (zeros 56)

-- `read(istream&, log_file_header&)`
unfoldable pub read_log : Memory → Istream → Result (LogFileHeader × Istream)
unfolding read read_blob
read_log m s0 = do
  (type, s1) ← read_blob m s0 8
  (version, s2) ← read u16 m s1
  (uid, s3) ← read u64 m s2
  (appnum, s4) ← read u64 m s3
  (key_size, s5) ← read u16 m s4
  (salt, s6) ← read u64 m s5
  (pepper, s7) ← read u64 m s6
  (block_size, s8) ← read u16 m s7
  (key_file_size, s9) ← read u64 m s8
  (dat_file_size, s10) ← read u64 m s9
  ok (
    record {
      type = type;
      version = version;
      uid = uid;
      appnum = appnum;
      key_size = key_size;
      salt = salt;
      pepper = pepper;
      block_size = block_size;
      key_file_size = key_file_size;
      dat_file_size = dat_file_size;
    },
    s10,
  )

-- `write(ostream&, log_file_header const&)`
unfoldable pub write_log : Ostream → Memory → LogFileHeader → Ostream × Memory
write_log os m lh =
    let (os1, m1) = write_blob os m log_type in
    let (os2, m2) = write u16 os1 m1 lh.version in
    let (os3, m3) = write u64 os2 m2 lh.uid in
    let (os4, m4) = write u64 os3 m3 lh.appnum in
    let (os5, m5) = write u16 os4 m4 lh.key_size in
    let (os6, m6) = write u64 os5 m5 lh.salt in
    let (os7, m7) = write u64 os6 m6 lh.pepper in
    let (os8, m8) = write u16 os7 m7 lh.block_size in
    let (os9, m9) = write u64 os8 m8 lh.key_file_size in write u64 os9 m9 lh.dat_file_size

-- A new buffer. What it holds at first is never read; `write` of a key file header fills it.
abbrev pub new_buffer : Memory
new_buffer x = 0

module _ {F : Type 0} (ops : FileOps F) where
  -- `read(File&, dat_file_header&, ec)`
  unfoldable pub read_dat_file : F → Result DatFileHeader
  read_dat_file f = do
    bs ← ops.read f 0 dat_header_size
    (dh, _) ← read_dat (store new_buffer 0 bs) (record { buf = 0; left = dat_header_size })
    ok dh

  -- `write(File&, dat_file_header const&, ec)`
  unfoldable pub write_dat_file : F → DatFileHeader → Result F
  write_dat_file f dh =
      let (_, m) = write_dat (record { buf = 0; written = 0 }) new_buffer dh in
      ops.write f 0 (blob m 0 dat_header_size)

  -- `read(File&, key_file_header&, ec)`
  unfoldable pub read_key_file : F → Result KeyFileHeader
  read_key_file f = do
    bs ← ops.read f 0 key_header_size
    size ← ops.size f
    (kh, _) ← read_key (store new_buffer 0 bs) (record { buf = 0; left = key_header_size }) size
    ok kh

  -- `write(File&, key_file_header const&, ec)`: the whole first block
  unfoldable pub write_key_file : F → KeyFileHeader → Result F
  write_key_file f kh = do
    fail_if (ltb kh.block_size key_header_size) invalid_block_size
    let m0 = fill new_buffer 0 0 kh.block_size
    let (_, m) = write_key (record { buf = 0; written = 0 }) m0 kh
    ops.write f 0 (blob m 0 kh.block_size)

  -- `read(File&, log_file_header&, ec)`
  unfoldable pub read_log_file : F → Result LogFileHeader
  read_log_file f = do
    bs ← ops.read f 0 log_header_size
    (lh, _) ← read_log (store new_buffer 0 bs) (record { buf = 0; left = log_header_size })
    ok lh

  -- `write(File&, log_file_header const&, ec)`
  unfoldable pub write_log_file : F → LogFileHeader → Result F
  write_log_file f lh =
      let (_, m) = write_log (record { buf = 0; written = 0 }) new_buffer lh in
      ops.write f 0 (blob m 0 log_header_size)
