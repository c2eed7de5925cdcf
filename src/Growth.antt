-- ===== src/Growth.antt =====
-- impl/basic_store.ipp, commit: how the key file grows by a bucket, and impl/rekey.ipp and
-- detail/format.hpp, where the modulus is computed anew.
pub mod Step
use nu_db.Prelude.{ℕ, ◌+◌, ◌-◌, ◌*◌, ◌/◌, ◌==◌, if◌then◌else◌}

-- `if(buckets == modulus) modulus *= 2;`
unfoldable pub next_modulus : ℕ → ℕ → ℕ
next_modulus buckets modulus = if buckets == modulus then modulus * 2 else modulus

-- `n1`: the bucket that is split, for the modulus after the step
unfoldable pub split_from : ℕ → ℕ → ℕ
split_from buckets modulus = buckets - modulus / 2

-- `n2`: the bucket that is made
unfoldable pub split_to : ℕ → ℕ
split_to buckets = buckets
