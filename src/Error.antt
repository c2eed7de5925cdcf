-- ===== src/Error.antt =====
-- error.hpp and impl/error.ipp: the error codes, and the ways in which an operation ends.
use nu_db.Prelude.{ℕ, Bool, true, false, ◌≡◌, refl}

-- `enum class error`, less `success`, which is `ok` below. `os` stands for a code of another
-- category, which `File` returns.
pub data Error : Type 0 where
  key_not_found key_exists short_read log_file_exists no_key_file too_many_buckets : Error
  not_data_file not_key_file not_log_file different_version invalid_key_size : Error
  invalid_block_size short_key_file short_bucket short_spill short_data_record : Error
  short_value hash_mismatch invalid_load_factor invalid_capacity : Error
  invalid_bucket_count invalid_bucket_size incomplete_data_file_header : Error
  incomplete_key_file_header invalid_log_record invalid_log_spill : Error
  invalid_log_offset invalid_log_index invalid_spill_size uid_mismatch : Error
  appnum_mismatch key_size_mismatch salt_mismatch pepper_mismatch : Error
  block_size_mismatch orphaned_value missing_value size_mismatch duplicate_value : Error
  os : ℕ → Error

-- An operation with an `error_code&` argument returns, or sets the code and returns. It may
-- also throw `std::logic_error`.
pub data Result {ℓ} (A : Type ℓ) : Type ℓ where
  ok : A → Result A
  err : Error → Result A
  thrown : Result A

infixl 5 ◌>>=◌
abbrev pub ◌>>=◌ {κ μ} : {X : Type κ} {Y : Type μ} → Result X → (X → Result Y) → Result Y
ok x >>= next = next x
err code >>= next = err code
thrown >>= next = thrown

-- `if(bad) { ec = e; return; }`
infixl 5 ◌>>◌
abbrev pub ◌>>◌ {ℓ} : {B : Type ℓ} → Result (Unit {0}) → Result B → Result B
m >> k = m >>= λ _. k

abbrev pub fail_if : Bool → Error → Result (Unit {0})
fail_if true e = err e
fail_if false e = ok tt

-- Inversion of a successful bind.
pub >>=-eq-ok {κ μ} :
    {X : Type κ} {Y : Type μ} {y : Y} (r : Result X) (next : X → Result Y)
    → (r >>= next) ≡ ok y
    → (x : X) × (r ≡ ok x) × (next x ≡ ok y)
>>=-eq-ok (ok x) next done = (x, refl, done)
>>=-eq-ok (err code) next done = cc
>>=-eq-ok thrown next done = cc

pub ok-injective {ℓ} : {A : Type ℓ} {a b : A} → ok a ≡ ok b → a ≡ b
ok-injective h = cc
