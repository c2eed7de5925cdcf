-- ===== src/Bucket/Insert/Refines.antt =====
-- `insert` against sorted insertion into the list of entries.
use nu_db.Prelude.{
  ℕ, zero, suc, ◌+◌, ◌-◌, ◌*◌, ◌^◌, ◌≤◌, ◌<◌, ◌≡◌, refl, sym, ap, ◌∙◌, ◌⊎◌, inl, inr, List, [], ◌∷◌,
  ◌++◌, arith, ltb, ltb→lt, ==_iff, ◌==◌, false, Bool-cases,
}
use nu_db.Memory.{Memory}
use nu_db.Field.{u48, readp}
use nu_db.Field.RoundTrip.{readp_congr}
use nu_db.Format.{bucket_header, entry_size, bucket_size}
use nu_db.Format.Sizes.{bucket_capacity-greatest}
use nu_db.Bucket.{Bucket, Value, lower_bound, insert, full}
use nu_db.Bucket.Entries.{entry_at, entries_from, base, entries, entries_append, entries_congr}
use nu_db.Bucket.LowerBound.{hash_at, IsSorted, IsLowerBound, lower_bound-IsLowerBound}
use nu_db.Bucket.Writes.{entry_at-put_entry}
use nu_db.Bucket.Insert.{
  insert_entry, IsBucket, insert_at, insert-insert_at, insert_at_before, insert_at_after,
  insert_at_outside, insert_at_stored,
}

-- Every entry of a list has the property.
abbrev All : (Value → Type 0) → List Value → Type 0
All P [] = Unit {0}
All P (v ∷ vs) = P v × All P vs

-- The specification, on a list that is split at the place.
insert_entry_middle :
    (e : Value) (xs ys : List Value)
    → All (λ v. v.hash < e.hash) xs
    → All (λ v. e.hash ≤ v.hash) ys
    → insert_entry e (xs ++ ys) ≡ xs ++ e ∷ ys
unfolding insert_entry
insert_entry_middle e [] [] a b = refl
insert_entry_middle e [] (y ∷ ys) a b = ground arith
insert_entry_middle e (x ∷ xs) ys a b = ground (arith, insert_entry_middle e xs ys a.1 b)

All-entries :
    (P : Value → Type 0) (m : Memory) (q n : ℕ)
    → ((j : ℕ) → j < n → P (entry_at m (q + j * entry_size)))
    → All P (entries_from m q n)
unfolding entries_from
All-entries P m q zero h = tt
All-entries P m q (suc n) h =
    let e : q + 0 * entry_size ≡ q = omega arith in
    (
      rw e at (h 0 (omega arith)),
      All-entries P m (q + entry_size) n (λ j lt.
          let f : q + suc j * entry_size ≡ q + entry_size + j * entry_size = omega arith in
          rw f at (h (suc j) (omega arith))),
    )

-- The hash of an entry by its place and by its address.
entry-hash_at :
    (m : Memory) (b : Bucket) (j : ℕ) → (entry_at m (base b + j * entry_size)).hash ≡ hash_at m b j
unfolding entry_at
entry-hash_at m b j =
    let e : base b + j * entry_size + 6 + 6 ≡ base b + 12 + j * entry_size = omega arith in
    ap (readp u48 m) e

-- A place is before, at or behind another.
abbrev Place : ℕ → ℕ → Type 0
Place j i = (j < i) ⊎ ((j ≡ i) ⊎ ((l : ℕ) × (j ≡ l + 1) × (i ≤ l)))

place : (j i : ℕ) → Place j i
place j i = elim (Bool-cases (ltb j i)) [
  | inl low ↦ inl (ltb→lt j i low)
  | inr high ↦ elim (Bool-cases (j == i)) [
    | inl same ↦ inr (inl ((==_iff j i).0 same))
    | inr behind ↦ inr (inr (j - 1, ground arith, ground arith))
  ]
]

module _ (m : Memory) (b : Bucket) (i o s h : ℕ) (at_i : IsLowerBound m b h i) where
  e : Value
  e = record { offset = o; hash = h; size = s }

  n : Memory
  n = insert_at m b i o s h

  left : entries_from n (base b) i ≡ entries_from m (base b) i
  unfolding n
  left =
      entries_congr i _ m (base b) (base b)
        (λ k lt. insert_at_before m b i o s h at_i.within (base b + k) (omega arith) (omega arith))

  right :
      entries_from n (base b + i * entry_size + entry_size) (b.size - i)
      ≡ entries_from m (base b + i * entry_size) (b.size - i)
  unfolding n
  right =
      let q : base b + i * entry_size + entry_size ≡ base b + (i + 1) * entry_size = omega arith in
      rw q (
        entries_congr (b.size - i) _ m _ (base b + i * entry_size)
          (insert_at_after m b i o s h at_i.within))

  middle : o < 2 ^ 48 → s < 2 ^ 32 → h < 2 ^ 48 → entry_at n (base b + i * entry_size) ≡ e
  unfolding n e insert_at
  middle ho hs hh = entry_at-put_entry _ _ o s h ho hs hh

  pieces :
      o < 2 ^ 48
      → s < 2 ^ 32
      → h < 2 ^ 48
      → entries_from n (base b) i ++ entries_from n (base b + i * entry_size) (suc (b.size - i))
        ≡ entries_from m (base b) i ++ e ∷ entries_from m (base b + i * entry_size) (b.size - i)
  unfolding entries_from
  pieces ho hs hh = rw (left, middle ho hs hh, right) refl

  entries-insert_at :
      o < 2 ^ 48
      → s < 2 ^ 32
      → h < 2 ^ 48
      → entries_from n (base b) (b.size + 1) ≡ insert_entry e (entries m b)
  unfolding e
  entries-insert_at ho hs hh =
      let r = b.size - i in
      let sum : b.size + 1 ≡ i + suc r = omega (arith, at_i.within) in
      let sum' : b.size ≡ i + r = omega (arith, at_i.within) in
      ap (entries_from n (base b)) sum
      ∙ entries_append n (base b) i (suc r)
      ∙ pieces ho hs hh
      ∙ sym (
          insert_entry_middle e (entries_from m (base b) i)
            (entries_from m (base b + i * entry_size) r)
            (All-entries (λ v. v.hash < h) m (base b) i
              (λ j lt. rw (entry-hash_at m b j) (at_i.below j lt)))
            (All-entries (λ v. h ≤ v.hash) m (base b + i * entry_size) r
              (λ j lt.
                let q : base b + i * entry_size + j * entry_size ≡ base b + (i + j) * entry_size =
                  omega arith in
                rw (q, entry-hash_at m b (i + j))
                  (at_i.above (i + j) (omega arith) (omega arith)))))
      ∙ ap (insert_entry e)
          (sym (ap (entries_from m (base b)) sum' ∙ entries_append m (base b) i r))

  hash_before : (j : ℕ) → j < i → hash_at n (record b { size = b.size + 1 }) j ≡ hash_at m b j
  unfolding n
  hash_before j lt = readp_congr u48 _ m _ _ (λ k c.
      insert_at_before m b i o s h at_i.within (base b + 12 + j * entry_size + k) (omega arith)
        (omega arith))

  hash_between :
      o < 2 ^ 48 → s < 2 ^ 32 → h < 2 ^ 48 → hash_at n (record b { size = b.size + 1 }) i ≡ h
  unfolding e
  hash_between ho hs hh =
      sym (entry-hash_at n (record b { size = b.size + 1 }) i)
      ∙ ap (λ (v : Value). v.hash) (middle ho hs hh)

  hash_behind :
      (j : ℕ)
      → i ≤ j
      → j < b.size
      → hash_at n (record b { size = b.size + 1 }) (j + 1) ≡ hash_at m b j
  unfolding n
  hash_behind j ge lt = readp_congr u48 _ m _ _ (λ k c.
      let d = 12 + (j - i) * entry_size + k in
      let p : base b + 12 + (j + 1) * entry_size + k ≡ base b + (i + 1) * entry_size + d =
        omega arith in
      let q : base b + 12 + j * entry_size + k ≡ base b + i * entry_size + d = omega arith in
      rw (p, q) (insert_at_after m b i o s h at_i.within d (omega arith)))

  IsSorted-after :
      o < 2 ^ 48
      → s < 2 ^ 32
      → h < 2 ^ 48
      → IsSorted m b
      → IsSorted n (record b { size = b.size + 1 })
  IsSorted-after ho hs hh sorted j k le lt = go (place j i) (place k i)
    where
      c : Bucket
      c = record b { size = b.size + 1 }

      go : Place j i → Place k i → hash_at n c j ≤ hash_at n c k
      go (inl a) (inl d) =
          rw (hash_before j a, hash_before k d) (sorted j k le (omega (arith, at_i.within)))
      go (inl a) (inr (inl d)) =
          rw (hash_before j a, d, hash_between ho hs hh) (omega (arith, at_i.below j a))
      go (inl a) (inr (inr (l, d, f))) =
          rw (hash_before j a, d, hash_behind l f (omega arith))
            (sorted j l (omega arith) (omega arith))
      go (inr (inl a)) (inl d) = absurd (omega arith)
      go (inr (inl a)) (inr (inl d)) = rw (a, d) (omega arith)
      go (inr (inl a)) (inr (inr (l, d, f))) =
          rw (a, hash_between ho hs hh, d, hash_behind l f (omega arith))
            (at_i.above l f (omega arith))
      go (inr (inr (q, a, g))) (inl d) = absurd (omega arith)
      go (inr (inr (q, a, g))) (inr (inl d)) = absurd (omega arith)
      go (inr (inr (q, a, g))) (inr (inr (l, d, f))) =
          rw (a, hash_behind q g (omega arith), d, hash_behind l f (omega arith))
            (sorted q l (omega arith) (omega arith))

-- The bucket is not full: there is room for one more entry.
full_room :
    (b : Bucket)
    → b.block_size < 2 ^ 16
    → full b ≡ false
    → bucket_header + (b.size + 1) * entry_size ≤ b.block_size
unfolding full bucket_size
full_room b small h = ground (arith, bucket_capacity-greatest b.block_size (omega arith))

-- Where the entries are in order and the arguments fit their fields, `insert` is sorted
-- insertion into the list of entries.
pub entries-insert :
    (m : Memory) (b : Bucket) (o s h : ℕ)
    → IsSorted m b
    → o < 2 ^ 48
    → s < 2 ^ 32
    → h < 2 ^ 48
    → let r = insert m b o s h in
      entries r.1 r.0 ≡ insert_entry (record { offset = o; hash = h; size = s }) (entries m b)
entries-insert m b o s h sorted ho hs hh = rw (insert-insert_at m b o s h) (
    unfold n e in
    entries-insert_at m b (lower_bound m b h) o s h (lower_bound-IsLowerBound m b h sorted) ho hs
      hh)

-- `insert` of arguments that fit their fields, into a well-formed bucket that is not full, leaves
-- the bucket well formed and changes no byte outside its block.
pub insert-IsBucket :
    (m : Memory) (b : Bucket) (o s h : ℕ)
    → IsBucket m b
    → full b ≡ false
    → o < 2 ^ 48
    → s < 2 ^ 32
    → h < 2 ^ 48
    → let r = insert m b o s h in
      IsBucket r.1 r.0 × ((x : ℕ) → (x < b.p) ⊎ (b.p + b.block_size ≤ x) → r.1 x ≡ m x)
insert-IsBucket m b o s h v f ho hs hh =
    let i = lower_bound m b h in
    let at_i = lower_bound-IsLowerBound m b h v.sorted in
    let room = full_room b v.small f in
    let stored = insert_at_stored m b i o s h at_i.within (omega arith) v.spill_fits in
    rw (insert-insert_at m b o s h) (
      record {
        room = room;
        small = v.small;
        stored_size = stored.0;
        stored_spill = stored.1;
        spill_fits = v.spill_fits;
        sorted = unfold n in IsSorted-after m b i o s h at_i ho hs hh v.sorted;
      },
      λ x c. insert_at_outside m b i o s h at_i.within x (omega arith),
    )
