-- ===== src/Create.antt =====
-- impl/create.ipp: the files of a new database.
pub mod Calls
pub mod Opens
pub mod Fresh
use nu_db.Prelude.{ℕ, ◌+◌, ◌*◌, Option, none, some, min, ltb, if◌then◌else◌}
use nu_db.Error.{
  Error, Result, ok, err, thrown, invalid_key_size, invalid_block_size, invalid_load_factor, ◌>>=◌,
}
use nu_db.Memory.{Memory, fill}
use nu_db.Endian.{Endian}
use nu_db.Field.{u16, max}
use nu_db.File.{FileOps}
use nu_db.Format.{Hasher, bucket_capacity, current_version, pepper}
use nu_db.Format.Headers.{
  DatFileHeader, KeyFileHeader, dat_type, key_type, write_dat_file, write_key_file,
}
use nu_db.Bucket.{write_file}
use nu_db.Bucket

-- The arguments of `create`, with the number that `make_uid` gives. The load factor f, a `float`,
-- is the whole part of 65536 * f, where f lies between 0 and 1, and `none` where it does not.
pub record Settings : Type 0 where
  pub uid : ℕ
  pub appnum : ℕ
  pub salt : ℕ
  pub key_size : ℕ
  pub block_size : ℕ
  pub load : Option ℕ

-- How `create` ends: it refuses its arguments, makes the files, removes them after an error, or
-- leaves them as they are when a `std::logic_error` is thrown.
pub data Outcome (F : Type 0) : Type 0 where
  refused : Error → Outcome F
  made : F → F → F → Outcome F
  removed : Error → Outcome F
  left : Outcome F

-- `dh` and `kh`; what `kh` has no value for is not written.
unfoldable pub dat_header : Settings → DatFileHeader
dat_header a = record {
  type = dat_type;
  version = current_version;
  uid = a.uid;
  appnum = a.appnum;
  key_size = a.key_size;
}

unfoldable pub key_header : Endian → Hasher → Settings → ℕ → KeyFileHeader
key_header endian hasher a load = record {
  type = key_type;
  version = current_version;
  uid = a.uid;
  appnum = a.appnum;
  key_size = a.key_size;
  salt = a.salt;
  pepper = pepper endian hasher a.salt;
  block_size = a.block_size;
  load_factor = min load 65535;
  capacity = 0;
  buckets = 0;
  modulus = 0;
}

module _ {F : Type 0} (ops : FileOps F) (endian : Endian) (hasher : Hasher) (fresh : Memory) where
  -- The writes, where `fresh` is the memory in which the empty bucket is built.
  unfoldable pub fill_files : Settings → ℕ → F → F → F → Result (F × (F × F))
  fill_files a load df kf lf = do
    d ← write_dat_file ops df (dat_header a)
    k ← write_key_file ops kf (key_header endian hasher a load)
    let (b, m) = Bucket.create (fill fresh 0 0 a.block_size) a.block_size 0
    (k', _) ← write_file ops k m b a.block_size
    d' ← ops.sync d
    k'' ← ops.sync k'
    l ← ops.sync lf
    ok (d', (k'', l))

  -- `create`, with what the creation of each file gives
  unfoldable pub create : Settings → Result F → Result F → Result F → Outcome F
  unfolding fill_files
  create a df kf lf =
      if ltb a.key_size 1
      then refused invalid_key_size
      else (if ltb (max u16) a.block_size then refused invalid_block_size else elim a.load [
        | none ↦ refused invalid_load_factor
        | some load ↦
            if ltb (bucket_capacity a.block_size) 1
            then refused invalid_block_size
            else elim (df >>= λ d. kf >>= λ k. lf >>= λ l. fill_files a load d k l) [
              | ok (d, (k, l)) ↦ made d k l
              | err e ↦ removed e
              | thrown ↦ left
            ]
      ])
