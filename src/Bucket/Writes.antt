-- ===== src/Bucket/Writes.antt =====
-- The stores that `update`, `insert` and `erase` make: what they change and what is read back.
use nu_db.Prelude.{ℕ, ◌+◌, ◌^◌, ◌≤◌, ◌<◌, ◌≡◌, ◌∙◌, ◌⊎◌, arith}
use native.Mathlib.Nat.{mod-eq_of_lt}
use nu_db.Memory.{Memory, copy, fill}
use nu_db.Field.{u16, u48, readp, writep}
use nu_db.Field.RoundTrip.{readp_congr, readp-writep, writep_frame}
use nu_db.Format.{bucket_header, entry_size}
use nu_db.Bucket.{Bucket, update}
use nu_db.Bucket.Entries.{entry_at}

-- The three fields of an entry, in the order in which `insert` writes them.
unfoldable pub put_entry : Memory → ℕ → ℕ → ℕ → ℕ → Memory
put_entry m q offset size h =
    writep u48 (writep u48 (writep u48 m q offset) (q + 6) size) (q + 6 + 6) h

pub put_entry_frame :
    (m : Memory) (q o s h x : ℕ) → (x < q) ⊎ (q + entry_size ≤ x) → put_entry m q o s h x ≡ m x
unfolding put_entry
put_entry_frame m q o s h x c =
    writep_frame u48 _ (q + 6 + 6) h x (omega arith)
    ∙ writep_frame u48 _ (q + 6) s x (omega arith)
    ∙ writep_frame u48 m q o x (omega arith)

-- A read is not changed by a write elsewhere.
pub readp-writep_apart :
    (m : Memory) (p q v : ℕ)
    → (p + 6 ≤ q) ⊎ (q + 6 ≤ p)
    → readp u48 (writep u48 m q v) p ≡ readp u48 m p
readp-writep_apart m p q v c =
    readp_congr u48 (writep u48 m q v) m p p (λ k h. writep_frame u48 m q v (p + k) (omega arith))

-- The entry is read back, where its fields fit.
pub entry_at-put_entry :
    (m : Memory) (q o s h : ℕ)
    → o < 2 ^ 48
    → s < 2 ^ 32
    → h < 2 ^ 48
    → entry_at (put_entry m q o s h) q ≡ record { offset = o; hash = h; size = s }
unfolding entry_at put_entry
entry_at-put_entry m q o s h ho hs hh =
    rw
      (
        readp-writep_apart (writep u48 (writep u48 m q o) (q + 6) s) q (q + 6 + 6) h (omega arith),
        readp-writep_apart (writep u48 m q o) q (q + 6) s (omega arith),
        readp-writep u48 m q o,
        readp-writep_apart (writep u48 (writep u48 m q o) (q + 6) s) (q + 6) (q + 6 + 6) h
            (omega arith),
        readp-writep u48 (writep u48 m q o) (q + 6) s,
        readp-writep u48 (writep u48 (writep u48 m q o) (q + 6) s) (q + 6 + 6) h,
      )
      (ground (arith, mod-eq_of_lt {n = o} {m = 2 ^ 48}))

pub update_frame :
    (m : Memory) (b : Bucket) (x : ℕ) → (x < b.p) ⊎ (b.p + bucket_header ≤ x) → update m b x ≡ m x
unfolding update
update_frame m b x c =
    writep_frame u48 _ (b.p + 2) b.spill x (omega arith)
    ∙ writep_frame u16 m b.p b.size x (omega arith)

-- After `update` the blob says the size and the spill of the bucket.
pub update_stored :
    (m : Memory) (b : Bucket)
    → b.size < 2 ^ 16
    → b.spill < 2 ^ 48
    → (readp u16 (update m b) b.p ≡ b.size) × (readp u48 (update m b) (b.p + 2) ≡ b.spill)
unfolding update
update_stored m b hs hp = (
  readp_congr u16 _ (writep u16 m b.p b.size) b.p b.p
        (λ k h. writep_frame u48 _ (b.p + 2) b.spill (b.p + k) (omega arith))
      ∙ readp-writep u16 m b.p b.size
      ∙ mod-eq_of_lt hs,
  readp-writep u48 (writep u16 m b.p b.size) (b.p + 2) b.spill ∙ mod-eq_of_lt hp,
)

pub copy_inside :
    (m : Memory) (dst : ℕ) (n : Memory) (p c k : ℕ) → k < c → copy m dst n p c (dst + k) ≡ n (p + k)
unfolding copy
copy_inside m dst n p c k h = ground arith

pub copy_outside :
    (m : Memory) (dst : ℕ) (n : Memory) (p c x : ℕ)
    → (x < dst) ⊎ (dst + c ≤ x)
    → copy m dst n p c x ≡ m x
unfolding copy
copy_outside m dst n p c x h = ground arith

pub fill_outside : (m : Memory) (p v c x : ℕ) → (x < p) ⊎ (p + c ≤ x) → fill m p v c x ≡ m x
unfolding fill
fill_outside m p v c x h = ground arith
