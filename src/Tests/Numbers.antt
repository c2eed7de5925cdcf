-- ===== src/Tests/Numbers.antt =====
-- Fields, sizes and the arithmetic of linear hashing at concrete values.
use nu_db.Prelude.{ℕ, ◌+◌, ◌*◌, ◌^◌, ◌≤◌, ◌<◌, ◌≡◌, ◌↔◌, refl, ◌⊎◌, arith}
use nu_db.Field.{u48, readp, writep}
use nu_db.Field.RoundTrip.{readp-writep}
use nu_db.Format.{key_header_size, bucket_size, bucket_capacity, ceil_loop, ceil_pow2}
use nu_db.Format.Sizes.{bucket_capacity-greatest}
use nu_db.Format.CeilPow2.{ceil_pow2-least}
use nu_db.Bucket.{bucket_index}
use nu_db.Growth.{next_modulus, split_from, split_to}
use nu_db.Growth.Step.{IsModulus, bucket_index_growth, next_modulus-ceil_pow2}

readp-writep_example : readp u48 (writep u48 (λ x. 3) 10 0x1_2345_6789_abcd) 10 ≡ 0x2345_6789_abcd
readp-writep_example = readp-writep u48 (λ x. 3) 10 0x1_2345_6789_abcd

bucket_capacity-greatest_example :
    let c = bucket_capacity 4096 in
    ((c ≡ 0) ↔ (4096 < key_header_size))
    × (0 < c → bucket_size c ≤ 4096)
    × (0 < c → 4096 < bucket_size (c + 1))
bucket_capacity-greatest_example = bucket_capacity-greatest 4096 (omega arith)

capacity_4096 : bucket_capacity 4096 ≡ 227
unfolding bucket_capacity
capacity_4096 = refl

abbrev hundred : ℕ
hundred = 100

ceil_pow2-least_example :
    (k : ℕ) × (ceil_pow2 hundred ≡ 2 ^ k)
    × (hundred ≤ 2 ^ k)
    × (0 < hundred → 2 ^ k < 2 * hundred)
    × (hundred ≡ 0 → k ≡ 0)
ceil_pow2-least_example = ceil_pow2-least hundred (omega arith)

ceil_pow2_runs : ceil_pow2 100 ≡ 128
unfolding ceil_pow2 ceil_loop
ceil_pow2_runs = refl

-- Five buckets under the modulus eight.
five : IsModulus 5 8
five = record { log = 3; power = refl; enough = omega arith; least = omega arith }

bucket_index_growth_example :
    (bucket_index 21 (5 + 1) (next_modulus 5 8) ≡ bucket_index 21 5 8)
    ⊎ ((bucket_index 21 5 8 ≡ split_from 5 (next_modulus 5 8))
        × (bucket_index 21 (5 + 1) (next_modulus 5 8) ≡ split_to 5))
bucket_index_growth_example = bucket_index_growth 21 5 8 (omega arith) (omega arith) five

next_modulus-ceil_pow2_example : next_modulus 8 (ceil_pow2 8) ≡ ceil_pow2 (8 + 1)
next_modulus-ceil_pow2_example = next_modulus-ceil_pow2 8 (omega arith) (omega arith)
