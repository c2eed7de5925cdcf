-- ===== src/Bucket/Entries.antt =====
-- The entries of a bucket, read from its blob as a list.
use nu_db.Prelude.{
  ℕ, zero, suc, ◌+◌, ◌*◌, ◌%◌, ◌^◌, ◌≤◌, ◌<◌, ◌≡◌, refl, List, [], ◌∷◌, ◌++◌, arith,
}
use nu_db.Error.{ok}
use nu_db.Memory.{Memory}
use nu_db.Field.{u48, readp}
use nu_db.Field.RoundTrip.{readp_congr}
use nu_db.Format.{bucket_header, entry_size}
use nu_db.Bucket.{Bucket, Value, at}

-- The entry at an address.
unfoldable pub entry_at : Memory → ℕ → Value
entry_at m q = record {
  offset = readp u48 m q;
  hash = readp u48 m (q + 6 + 6);
  size = readp u48 m (q + 6) % 2 ^ 32;
}

-- n entries from an address on.
unfoldable pub entries_from : Memory → ℕ → ℕ → List Value
entries_from m q zero = []
entries_from m q (suc n) = entry_at m q ∷ entries_from m (q + entry_size) n

-- The address of the first entry.
abbrev pub base : Bucket → ℕ
base b = b.p + bucket_header

-- The entries of a bucket.
abbrev pub entries : Memory → Bucket → List Value
entries m b = entries_from m (base b) b.size

-- `at` never throws, and reads the entry at its place.
pub at_lem :
    (m : Memory) (b : Bucket) (i : ℕ) → at m b i ≡ ok (entry_at m (base b + i * entry_size))
unfolding at entry_at
at_lem m b i = refl

pub entries_append :
    (m : Memory) (q a b : ℕ)
    → entries_from m q (a + b) ≡ entries_from m q a ++ entries_from m (q + a * entry_size) b
unfolding entries_from
entries_append m q zero b =
    let e : zero + b ≡ b = omega arith in
    let f : q + zero * entry_size ≡ q = omega arith in rw (e, f) refl
entries_append m q (suc a) b =
    let e : suc a + b ≡ suc (a + b) = omega arith in
    let f : q + suc a * entry_size ≡ q + entry_size + a * entry_size = omega arith in
    rw (e, f, entries_append m (q + entry_size) a b) refl

-- Memories that agree on a range, at an offset into it.
pub shift :
    (m n : Memory) (p q c d e : ℕ)
    → ((k : ℕ) → k < c → m (p + k) ≡ n (q + k))
    → d + e ≤ c
    → (k : ℕ) → k < e
    → m (p + d + k) ≡ n (q + d + k)
shift m n p q c d e h le k lt =
    let a : p + d + k ≡ p + (d + k) = omega arith in
    let b : q + d + k ≡ q + (d + k) = omega arith in rw (a, b) (h (d + k) (omega arith))

-- Equal bytes are equal entries.
pub entry_at_congr :
    (m n : Memory) (p q : ℕ)
    → ((k : ℕ) → k < entry_size → m (p + k) ≡ n (q + k))
    → entry_at m p ≡ entry_at n q
unfolding entry_at
entry_at_congr m n p q h =
    rw
      (
        readp_congr u48 m n p q (λ k b. h k (omega arith)),
        readp_congr u48 m n (p + 6) (q + 6) (shift m n p q entry_size 6 6 h (omega arith)),
        readp_congr u48 m n (p + 6 + 6) (q + 6 + 6) (
            shift m n (p + 6) (q + 6) 12 6 6 (shift m n p q entry_size 6 12 h (omega arith))
              (omega arith)),
      )
      refl

pub entries_congr :
    (c : ℕ) (m n : Memory) (p q : ℕ)
    → ((k : ℕ) → k < c * entry_size → m (p + k) ≡ n (q + k))
    → entries_from m p c ≡ entries_from n q c
unfolding entries_from
entries_congr zero m n p q h = refl
entries_congr (suc c) m n p q h =
    rw
      (
        entry_at_congr m n p q (λ k b. h k (omega arith)),
        entries_congr c m n (p + entry_size) (q + entry_size)
            (shift m n p q (suc c * entry_size) entry_size (c * entry_size) h (omega arith)),
      )
      refl
