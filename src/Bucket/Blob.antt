-- ===== src/Bucket/Blob.antt =====
-- The constructors: a new bucket is well formed, and the blob of a bucket gives the bucket back.
use nu_db.Prelude.{ℕ, ◌+◌, ◌^◌, ◌≤◌, ◌<◌, ◌≡◌, refl, ◌∙◌, ◌⊎◌, arith}
use nu_db.Error.{ok}
use nu_db.Memory.{Memory, fill}
use nu_db.Field.{u16, u48, readp}
use nu_db.Field.RoundTrip.{readp_congr}
use nu_db.Bucket.{Bucket, load, create, clear}
use nu_db.Bucket.Insert.{IsBucket}
use nu_db.Bucket.Writes.{fill_outside}

fill_inside : (m : Memory) (p n k : ℕ) → k < n → fill m p 0 n (p + k) ≡ 0
unfolding fill
fill_inside m p n k h = ground arith

-- For a block of 8 to 65535 bytes, the constructor with the tag `empty` makes a well-formed bucket
-- with no entries, and changes no byte outside its block.
pub create-IsBucket :
    (m : Memory) (block_size p : ℕ)
    → 8 ≤ block_size
    → block_size < 2 ^ 16
    → let r = create m block_size p in
      IsBucket r.1 r.0 × (r.0.size ≡ 0) × ((x : ℕ) → (x < p) ⊎ (p + block_size ≤ x) → r.1 x ≡ m x)
unfolding create clear
create-IsBucket m block_size p lo hi = (
  record {
    room = omega arith;
    small = hi;
    stored_size = zero16;
    stored_spill = zero48;
    spill_fits = omega arith;
    sorted = λ i j le lt. absurd (omega arith);
  },
  refl,
  λ x c. fill_outside m p 0 block_size x c,
)
  where
    zero16 : readp u16 (fill m p 0 block_size) p ≡ 0
    zero16 =
        readp_congr u16 _ (λ x. 0) p 0 (λ k lt. fill_inside m p block_size k (omega arith))
        ∙ unfold readp in refl

    zero48 : readp u48 (fill m p 0 block_size) (p + 2) ≡ 0
    zero48 =
        readp_congr u48 _ (λ x. 0) (p + 2) 0
          (λ k lt.
            let e : p + 2 + k ≡ p + (2 + k) = omega arith in
            rw e (fill_inside m p block_size (2 + k) (omega arith)))
        ∙ unfold readp in refl

-- A well-formed bucket that is constructed again from its blob is as it was.
pub load-IsBucket : (m : Memory) (b : Bucket) → IsBucket m b → load m b.block_size b.p ≡ ok b
unfolding load
load-IsBucket m b v = ground arith
