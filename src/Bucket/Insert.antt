-- ===== src/Bucket/Insert.antt =====
-- `insert` refines sorted insertion and keeps the bucket well formed.
pub mod Refines
use nu_db.Prelude.{
  ℕ, zero, suc, ◌+◌, ◌-◌, ◌*◌, ◌%◌, ◌^◌, ◌≤◌, ◌<◌, ◌≡◌, refl, sym, ap, ◌∙◌, ◌⊎◌, inl, inr, List, [],
  ◌∷◌, ◌++◌, arith, ltb, leb, ◌==◌, if◌then◌else◌, true, false, Bool-cases,
}
use nu_db.Memory.{Memory, copy}
use nu_db.Field.{u16, u48, readp}
use nu_db.Field.RoundTrip.{readp_congr}
use nu_db.Format.{bucket_header, entry_size, bucket_size, bucket_capacity}
use nu_db.Format.Sizes.{bucket_capacity-greatest}
use nu_db.Bucket.{Bucket, Value, update, lower_bound, insert, full}
use nu_db.Bucket.Entries.{
  entry_at, entries_from, base, entries, entries_append, entry_at_congr, entries_congr,
}
use nu_db.Bucket.LowerBound.{hash_at, IsSorted, IsLowerBound, lower_bound-IsLowerBound}
use nu_db.Bucket.Writes.{
  put_entry, put_entry_frame, entry_at-put_entry, update_frame, update_stored, copy_inside,
  copy_outside,
}

-- The specification: an entry goes before the first one whose hash is not less.
unfoldable pub insert_entry : Value → List Value → List Value
insert_entry e [] = e ∷ []
insert_entry e (v ∷ vs) = if ltb v.hash e.hash then v ∷ insert_entry e vs else e ∷ v ∷ vs

-- A bucket that agrees with its blob, is in order and fits its block.
pub record IsBucket (m : Memory) (b : Bucket) : Type 0 where
  pub room : bucket_header + b.size * entry_size ≤ b.block_size
  pub small : b.block_size < 2 ^ 16
  pub stored_size : readp u16 m b.p ≡ b.size
  pub stored_spill : readp u48 m (b.p + 2) ≡ b.spill
  pub spill_fits : b.spill < 2 ^ 48
  pub sorted : IsSorted m b

-- The three stores of `insert` at the index i.
unfoldable pub insert_at : Memory → Bucket → ℕ → ℕ → ℕ → ℕ → Memory
insert_at m b i o s h =
    let p = b.p + bucket_header in
    let m1 = copy m (p + (i + 1) * entry_size) m (p + i * entry_size) ((b.size - i) * entry_size) in
    put_entry (update m1 (record b { size = b.size + 1 })) (p + i * entry_size) o s h

pub insert-insert_at :
    (m : Memory) (b : Bucket) (o s h : ℕ)
    → insert m b o s h ≡ (record b { size = b.size + 1 }, insert_at m b (lower_bound m b h) o s h)
unfolding insert insert_at put_entry
insert-insert_at m b o s h = refl

module _ (m : Memory) (b : Bucket) (i o s h : ℕ) (within : i ≤ b.size) where
  pub insert_at_before :
      (x : ℕ) → base b ≤ x → x < base b + i * entry_size → insert_at m b i o s h x ≡ m x
  unfolding insert_at
  insert_at_before x lo hi =
      put_entry_frame _ _ o s h x (omega arith)
      ∙ update_frame _ _ x (omega arith)
      ∙ copy_outside m _ m _ _ x (omega arith)

  pub insert_at_after :
      (k : ℕ)
      → k < (b.size - i) * entry_size
      → insert_at m b i o s h (base b + (i + 1) * entry_size + k) ≡ m (base b + i * entry_size + k)
  unfolding insert_at
  insert_at_after k lt =
      put_entry_frame _ _ o s h _ (omega arith)
      ∙ update_frame _ _ _ (omega arith)
      ∙ copy_inside m _ m _ _ k lt

  pub insert_at_outside :
      (x : ℕ) → (x < b.p) ⊎ (base b + (b.size + 1) * entry_size ≤ x) → insert_at m b i o s h x ≡ m x
  unfolding insert_at
  insert_at_outside x c =
      put_entry_frame _ _ o s h x (omega arith)
      ∙ update_frame _ _ x (omega arith)
      ∙ copy_outside m _ m _ _ x (omega arith)

  pub insert_at_stored :
      b.size + 1 < 2 ^ 16
      → b.spill < 2 ^ 48
      → let n = insert_at m b i o s h in
        (readp u16 n b.p ≡ b.size + 1) × (readp u48 n (b.p + 2) ≡ b.spill)
  unfolding insert_at
  insert_at_stored hs hp = (
    readp_congr u16 _ _ b.p b.p (λ k lt. put_entry_frame _ _ o s h (b.p + k) (omega arith))
        ∙ (update_stored _ _ hs hp).0,
    readp_congr u48 _ _ (b.p + 2) (b.p + 2)
          (λ k lt. put_entry_frame _ _ o s h (b.p + 2 + k) (omega arith))
        ∙ (update_stored _ _ hs hp).1,
  )
