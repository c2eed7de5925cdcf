-- ===== src/Bucket/LowerBound.antt =====
-- `lower_bound` on a bucket whose hashes do not fall.
use nu_db.Prelude.{
  ℕ, zero, suc, ◌+◌, ◌-◌, ◌*◌, ◌/◌, ◌≤◌, ◌<◌, arith, ltb, ltb→lt, inl, inr, Bool-cases,
}
use nu_db.Memory.{Memory}
use nu_db.Field.{u48, readp}
use nu_db.Format.{bucket_header, entry_size}
use nu_db.Bucket.{Bucket, lower_loop, lower_bound}

-- The hash of an entry of the bucket.
abbrev pub hash_at : Memory → Bucket → ℕ → ℕ
hash_at m b i = readp u48 m (b.p + bucket_header + 12 + i * entry_size)

abbrev pub IsSorted : Memory → Bucket → Type 0
IsSorted m b = (i j : ℕ) → i ≤ j → j < b.size → hash_at m b i ≤ hash_at m b j

-- i is the first place whose hash is not less than h.
pub record IsLowerBound (m : Memory) (b : Bucket) (h i : ℕ) : Type 0 where
  pub within : i ≤ b.size
  pub below : (j : ℕ) → j < i → hash_at m b j < h
  pub above : (j : ℕ) → i ≤ j → j < b.size → h ≤ hash_at m b j

lower_loop_lem :
    (m : Memory) (b : Bucket) (h : ℕ)
    → IsSorted m b
    → (fuel first count : ℕ) → count ≤ fuel
    → first + count ≤ b.size
    → ((j : ℕ) → j < first → hash_at m b j < h)
    → ((j : ℕ) → first + count ≤ j → j < b.size → h ≤ hash_at m b j)
    → IsLowerBound m b h (lower_loop fuel m (b.p + bucket_header + 12) h first count)
unfolding lower_loop
lower_loop_lem m b h s zero first count f w lo hi = record {
  within = omega arith;
  below = lo;
  above = λ j p q. hi j (omega arith) q;
}
lower_loop_lem m b h s (suc fuel) first count f w lo hi = elim (Bool-cases (ltb 0 count)) [
  | inr stop ↦
      rw stop (record { within = omega arith; below = lo; above = λ j p q. hi j (ground arith) q })
  | inl go ↦
      let i = first + count / 2 in
      elim (Bool-cases (ltb (readp u48 m (b.p + bucket_header + 12 + i * entry_size)) h)) [
        | inl less ↦
            rw (go, less)
              (lower_loop_lem m b h s fuel (i + 1) (count - (count / 2 + 1)) (ground arith)
                (ground arith)
                (λ j p. omega (arith, s j i (omega arith) (ground arith), ltb→lt _ _ less))
                (λ j p q. hi j (ground arith) q))
        | inr more ↦
            rw (go, more)
              (lower_loop_lem m b h s fuel first (count / 2) (ground arith) (ground arith) lo
                (λ j p q. ground (arith, s i j p q)))
      ]
]

-- On a bucket in order, the binary search finds the first entry whose hash is not less.
pub lower_bound-IsLowerBound :
    (m : Memory) (b : Bucket) (h : ℕ) → IsSorted m b → IsLowerBound m b h (lower_bound m b h)
unfolding lower_bound
lower_bound-IsLowerBound m b h s =
    lower_loop_lem m b h s b.size 0 b.size (omega arith) (omega arith) (λ j p. absurd (omega arith))
      (λ j p q. absurd (omega arith))
