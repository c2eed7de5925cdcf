-- ===== src/Format/Verify/Conditions.antt =====
-- When the checks of format.hpp pass.
use nu_db.Prelude.{◌<◌, ◌≡◌, ◌↔◌, arith}
use nu_db.Error.{ok, >>=-eq-ok}
use nu_db.Endian.{Endian}
use nu_db.Format.Headers.{DatFileHeader, KeyFileHeader, LogFileHeader, dat_type, key_type, log_type}
use nu_db.Format.{Hasher, current_version, pepper}
use nu_db.Format.Verify.{
  same_refl, same_sound, verify_dat, verify_key, verify_log, verify_dat_key, verify_key_log,
}

-- What the checks of one header ask.
pub record DatValid (dh : DatFileHeader) : Type 0 where
  pub type : dh.type ≡ dat_type
  pub version : dh.version ≡ current_version
  pub key_size : 0 < dh.key_size

-- The check of a data file header passes exactly where its type and version are right and its
-- keys are not empty.
pub verify_dat_iff : (dh : DatFileHeader) → (verify_dat dh ≡ ok tt) ↔ DatValid dh
unfolding verify_dat
verify_dat_iff dh = (
  λ h. ground (arith, same_sound dh.type dat_type),
  λ v. rw (v.type, same_refl dat_type) (ground arith),
)

module _ (endian : Endian) (hasher : Hasher) where
  pub record KeyValid (kh : KeyFileHeader) : Type 0 where
    pub type : kh.type ≡ key_type
    pub version : kh.version ≡ current_version
    pub key_size : 0 < kh.key_size
    pub pepper_matches : kh.pepper ≡ pepper endian hasher kh.salt
    pub load_factor : 0 < kh.load_factor
    pub capacity : 0 < kh.capacity
    pub buckets : 0 < kh.buckets

  pub record LogValid (lh : LogFileHeader) : Type 0 where
    pub type : lh.type ≡ log_type
    pub version : lh.version ≡ current_version
    pub pepper_matches : lh.pepper ≡ pepper endian hasher lh.salt
    pub key_size : 0 < lh.key_size

  -- The same for a key file header, with its pepper, load factor, capacity and buckets.
  pub verify_key_iff : (kh : KeyFileHeader) → (verify_key endian hasher kh ≡ ok tt) ↔ KeyValid kh
  unfolding verify_key
  verify_key_iff kh = (
    λ h. ground (arith, same_sound kh.type key_type),
    λ v. rw (v.type, same_refl key_type) (ground arith),
  )

  -- The same for a log file header.
  pub verify_log_iff : (lh : LogFileHeader) → (verify_log endian hasher lh ≡ ok tt) ↔ LogValid lh
  unfolding verify_log
  verify_log_iff lh = (
    λ h. ground (arith, same_sound lh.type log_type),
    λ v. rw (v.type, same_refl log_type) (ground arith),
  )

  pub record DatKeyMatch (dh : DatFileHeader) (kh : KeyFileHeader) : Type 0 where
    pub valid : KeyValid kh
    pub uid : kh.uid ≡ dh.uid
    pub appnum : kh.appnum ≡ dh.appnum
    pub key_size : kh.key_size ≡ dh.key_size

  pub record KeyLogMatch (kh : KeyFileHeader) (lh : LogFileHeader) : Type 0 where
    pub valid : LogValid lh
    pub uid : kh.uid ≡ lh.uid
    pub appnum : kh.appnum ≡ lh.appnum
    pub key_size : kh.key_size ≡ lh.key_size
    pub salt : kh.salt ≡ lh.salt
    pub pepper_same : kh.pepper ≡ lh.pepper
    pub block_size : kh.block_size ≡ lh.block_size

  -- A data file and a key file pass the check exactly where the key file's header is valid and
  -- agrees with the data file's on the identifiers and the size of keys.
  pub verify_dat_key_iff :
      (dh : DatFileHeader) (kh : KeyFileHeader)
      → (verify_dat_key endian hasher dh kh ≡ ok tt) ↔ DatKeyMatch dh kh
  unfolding verify_dat_key
  verify_dat_key_iff dh kh = (
    λ h.
        let (u, passed, rest) = >>=-eq-ok (verify_key endian hasher kh) _ h in
        record {
          valid = (verify_key_iff kh).0 passed;
          uid = ground arith;
          appnum = ground arith;
          key_size = ground arith;
        },
    λ m. rw ((verify_key_iff kh).1 m.valid) (ground arith),
  )

  -- A key file and a log file pass the check exactly where the log file's header is valid and
  -- agrees with the key file's on the identifiers, the sizes of keys and blocks, the salt and the
  -- pepper.
  pub verify_key_log_iff :
      (kh : KeyFileHeader) (lh : LogFileHeader)
      → (verify_key_log endian hasher kh lh ≡ ok tt) ↔ KeyLogMatch kh lh
  unfolding verify_key_log
  verify_key_log_iff kh lh = (
    λ h.
        let (u, passed, rest) = >>=-eq-ok (verify_log endian hasher lh) _ h in
        record {
          valid = (verify_log_iff lh).0 passed;
          uid = ground arith;
          appnum = ground arith;
          key_size = ground arith;
          salt = ground arith;
          pepper_same = ground arith;
          block_size = ground arith;
        },
    λ m. rw ((verify_log_iff lh).1 m.valid) (ground arith),
  )
