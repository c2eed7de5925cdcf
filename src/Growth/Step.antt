-- ===== src/Growth/Step.antt =====
-- Linear hashing: a step of growth keeps the modulus right and moves keys of one bucket only.
use nu_db.Prelude.{
  ℕ, suc, ◌+◌, ◌-◌, ◌*◌, ◌%◌, ◌^◌, ◌≤◌, ◌<◌, ◌≡◌, sym, ap, ◌∙◌, ◌⊎◌, inl, inr, arith, ltb, ltb→lt,
  ◌==◌, Bool-cases,
}
use native.Mathlib.Nat.{
  mod-lt, mod-eq_of_lt, mod-eq-sub-mod, mod-mod_of_dvd, dvd-mul_right, pow-suc,
}
use nu_db.Format.CeilPow2.{ceil_pow2-least, pow_reflect}
use nu_db.Format.{ceil_pow2}
use nu_db.Bucket.{bucket_index}
use nu_db.Growth.{next_modulus, split_from, split_to}

-- The modulus is the least power of two that is not less than the number of buckets.
pub record IsModulus (buckets modulus : ℕ) : Type 0 where
  pub log : ℕ
  pub power : modulus ≡ 2 ^ log
  pub enough : buckets ≤ modulus
  pub least : modulus < 2 * buckets

-- The index that is computed is that of a bucket, where there are buckets, and the modulus is at
-- least their number, at most twice that, and at most 2^32.
pub bucket_index-lt :
    (h buckets modulus : ℕ)
    → 0 < buckets
    → buckets ≤ modulus
    → modulus ≤ 2 * buckets
    → modulus ≤ 2 ^ 32
    → bucket_index h buckets modulus < buckets
unfolding bucket_index
bucket_index-lt h buckets modulus p a b c = ground (arith, mod-lt h {m = modulus})

-- Where the modulus is the least power of two that is not less than the number of buckets, which
-- is positive, it is so again after the key file has grown by a bucket.
pub next_modulus-IsModulus :
    (b m : ℕ) → 0 < b → IsModulus b m → IsModulus (b + 1) (next_modulus b m)
unfolding next_modulus
next_modulus-IsModulus b m p v = elim (Bool-cases (b == m)) [
  | inl same ↦ record {
    log = suc v.log;
    power = rw same (rw v.power (sym (pow-suc 2 v.log)));
    enough = ground arith;
    least = ground arith;
  }
  | inr other ↦ record {
    log = v.log;
    power = rw other v.power;
    enough = ground arith;
    least = ground arith;
  }
]

-- A double modulus leaves the remainder, or the remainder and the modulus.
mod_double : (h m : ℕ) → 0 < m → (h % (m * 2) ≡ h % m) ⊎ (h % (m * 2) ≡ h % m + m)
mod_double h m p = elim (Bool-cases (ltb (h % (m * 2)) m)) [
  | inl low ↦ inl (sym (mod-eq_of_lt (ltb→lt _ _ low)) ∙ again)
  | inr high ↦
      let le : m ≤ h % (m * 2) = ground arith in
      let lt : h % (m * 2) - m < m = omega (arith, mod-lt h {m = m * 2}) in
      let e = sym again ∙ mod-eq-sub-mod le ∙ mod-eq_of_lt lt in inr (omega arith)
]
  where
    again : h % (m * 2) % m ≡ h % m
    again = mod-mod_of_dvd m h (dvd-mul_right m 2)

-- When the key file grows from b > 0 to b + 1 buckets, with the right modulus for b, of at most
-- 2^32, a hash keeps its bucket, or goes from the one that is split to the new one.
pub bucket_index_growth :
    (h b m : ℕ)
    → 0 < b
    → m ≤ 2 ^ 32
    → IsModulus b m
    → let m' = next_modulus b m in
      let n = bucket_index h b m in
      let n' = bucket_index h (b + 1) m' in (n' ≡ n) ⊎ ((n ≡ split_from b m') × (n' ≡ split_to b))
unfolding bucket_index next_modulus split_from split_to
bucket_index_growth h b m p small v = elim (Bool-cases (b == m)) [
  | inl same ↦ ground (arith, mod_double h m, mod-lt h {m = m})
  | inr other ↦ ground (arith, mod-lt h {m = m})
]

ceil_pow2-IsModulus : (b : ℕ) → 0 < b → b ≤ 2 ^ 63 → IsModulus b (ceil_pow2 b)
ceil_pow2-IsModulus b p h =
    let (k, e, le, lt, _) = ceil_pow2-least b h in
    record { log = k; power = e; enough = rw e le; least = rw e (lt p) }

IsModulus-unique : (b m n : ℕ) → IsModulus b m → IsModulus b n → m ≡ n
IsModulus-unique b m n v w =
    let below = pow_reflect v.log (suc w.log) (omega (arith, pow-suc 2 w.log)) in
    let above = pow_reflect w.log (suc v.log) (omega (arith, pow-suc 2 v.log)) in
    let same : v.log ≡ w.log = omega arith in v.power ∙ ap (◌^◌ 2) same ∙ sym w.power

-- For every number of buckets from 1 to 2^63 - 1, the modulus that growth tracks step by step is the one that is computed anew when the key file
-- is opened or rebuilt.
pub next_modulus-ceil_pow2 :
    (b : ℕ) → 0 < b → b < 2 ^ 63 → next_modulus b (ceil_pow2 b) ≡ ceil_pow2 (b + 1)
next_modulus-ceil_pow2 b p h =
    IsModulus-unique (b + 1) (next_modulus b (ceil_pow2 b)) (ceil_pow2 (b + 1))
      (next_modulus-IsModulus b (ceil_pow2 b) p (ceil_pow2-IsModulus b p (omega arith)))
      (ceil_pow2-IsModulus (b + 1) (omega arith) (omega arith))
