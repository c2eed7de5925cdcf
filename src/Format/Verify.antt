-- ===== src/Format/Verify.antt =====
-- The overloads of `verify` in detail/format.hpp: each check of a header, in the order of the
-- code, and when all of them pass.
pub mod Conditions
use nu_db.Prelude.{
  ℕ, ◌≤◌, ◌<◌, ◌≡◌, ◌↔◌, refl, Bool, true, false, not, ◌&&◌, List, [], ◌∷◌, arith, ltb, ◌==◌,
  Bool-cases, inl, inr,
}
use nu_db.Error.{
  Result, ok, err, ◌>>=◌, ◌>>◌, fail_if, Error, not_data_file, not_key_file, not_log_file,
  different_version, invalid_key_size, hash_mismatch, invalid_load_factor, invalid_capacity,
  invalid_bucket_count, uid_mismatch, appnum_mismatch, key_size_mismatch, salt_mismatch,
  pepper_mismatch, block_size_mismatch,
}
use nu_db.Endian.{Endian}
use nu_db.Format.Headers.{DatFileHeader, KeyFileHeader, LogFileHeader, dat_type, key_type, log_type}
use nu_db.Format.{Hasher, current_version, pepper}

-- `==` of two `std::string`s
unfoldable pub same : List ℕ → List ℕ → Bool
same [] [] = true
same (x ∷ xs) (y ∷ ys) = (x == y) && same xs ys
same xs ys = false

pub same_refl : (xs : List ℕ) → same xs xs ≡ true
unfolding same
same_refl [] = refl
same_refl (x ∷ xs) = ground (arith, same_refl xs)

pub same_sound : (xs ys : List ℕ) → same xs ys ≡ true → xs ≡ ys
unfolding same
same_sound [] [] h = refl
same_sound [] (y ∷ ys) h = cc
same_sound (x ∷ xs) [] h = cc
same_sound (x ∷ xs) (y ∷ ys) h = ground (arith, same_sound xs ys)

-- `verify(dat_file_header const&, ec)`
unfoldable pub verify_dat : DatFileHeader → Result (Unit {0})
verify_dat dh = do
  fail_if (not (same dh.type dat_type)) not_data_file
  fail_if (not (dh.version == current_version)) different_version
  fail_if (ltb dh.key_size 1) invalid_key_size

module _ (endian : Endian) (hasher : Hasher) where
  -- `verify<Hasher>(key_file_header const&, ec)`
  unfoldable pub verify_key : KeyFileHeader → Result (Unit {0})
  verify_key kh = do
    fail_if (not (same kh.type key_type)) not_key_file
    fail_if (not (kh.version == current_version)) different_version
    fail_if (ltb kh.key_size 1) invalid_key_size
    fail_if (not (kh.pepper == pepper endian hasher kh.salt)) hash_mismatch
    fail_if (ltb kh.load_factor 1) invalid_load_factor
    fail_if (ltb kh.capacity 1) invalid_capacity
    fail_if (ltb kh.buckets 1) invalid_bucket_count

  -- `verify<Hasher>(log_file_header const&, ec)`
  unfoldable pub verify_log : LogFileHeader → Result (Unit {0})
  verify_log lh = do
    fail_if (not (same lh.type log_type)) not_log_file
    fail_if (not (lh.version == current_version)) different_version
    fail_if (not (lh.pepper == pepper endian hasher lh.salt)) hash_mismatch
    fail_if (ltb lh.key_size 1) invalid_key_size

  -- `verify<Hasher>(dat_file_header const&, key_file_header const&, ec)`
  unfoldable pub verify_dat_key : DatFileHeader → KeyFileHeader → Result (Unit {0})
  verify_dat_key dh kh = do
    verify_key kh
    fail_if (not (kh.uid == dh.uid)) uid_mismatch
    fail_if (not (kh.appnum == dh.appnum)) appnum_mismatch
    fail_if (not (kh.key_size == dh.key_size)) key_size_mismatch

  -- `verify<Hasher>(key_file_header const&, log_file_header const&, ec)`
  unfoldable pub verify_key_log : KeyFileHeader → LogFileHeader → Result (Unit {0})
  verify_key_log kh lh = do
    verify_log lh
    fail_if (not (kh.uid == lh.uid)) uid_mismatch
    fail_if (not (kh.appnum == lh.appnum)) appnum_mismatch
    fail_if (not (kh.key_size == lh.key_size)) key_size_mismatch
    fail_if (not (kh.salt == lh.salt)) salt_mismatch
    fail_if (not (kh.pepper == lh.pepper)) pepper_mismatch
    fail_if (not (kh.block_size == lh.block_size)) block_size_mismatch
