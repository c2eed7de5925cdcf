-- ===== src/Bucket/Erase.antt =====
-- `erase` refines removal from the list of entries and keeps the bucket well formed.
use nu_db.Prelude.{
  ℕ, zero, suc, ◌+◌, ◌-◌, ◌*◌, ◌≤◌, ◌<◌, ◌≡◌, refl, sym, ap, ◌∙◌, ◌⊎◌, inl, inr, List, [], ◌∷◌,
  ◌++◌, arith, ltb, ltb→lt, lt→ltb, if◌then◌else◌, Bool-cases,
}
use nu_db.Memory.{Memory, copy, fill}
use nu_db.Field.{u48}
use nu_db.Field.RoundTrip.{readp_congr}
use nu_db.Format.{bucket_header, entry_size}
use nu_db.Bucket.{Bucket, Value, update, erase}
use nu_db.Bucket.Entries.{entry_at, entries_from, base, entries, entries_append, entries_congr}
use nu_db.Bucket.LowerBound.{hash_at, IsSorted}
use nu_db.Bucket.Writes.{update_frame, update_stored, copy_inside, copy_outside, fill_outside}
use nu_db.Bucket.Insert.{IsBucket}

-- The specification: the list without its entry at an index.
unfoldable pub erase_entry : ℕ → List Value → List Value
erase_entry i [] = []
erase_entry zero (v ∷ vs) = vs
erase_entry (suc i) (v ∷ vs) = v ∷ erase_entry i vs

-- The entries that move down by one.
moved : Memory → Bucket → ℕ → Memory
moved m b i =
    let p = b.p + bucket_header in
    if ltb i (b.size - 1)
    then copy m (p + i * entry_size) m (p + (i + 1) * entry_size) ((b.size - 1 - i) * entry_size)
    else m

smaller : Bucket → Bucket
smaller b = record b { size = b.size - 1 }

erased : Memory → Bucket → ℕ → Memory
erased m b i =
    update (fill (moved m b i) (base b + (b.size - 1) * entry_size) 0 entry_size) (smaller b)

erase-erased : (m : Memory) (b : Bucket) (i : ℕ) → erase m b i ≡ (smaller b, erased m b i)
unfolding erase erased moved smaller
erase-erased m b i = refl

module _ (m : Memory) (b : Bucket) (i : ℕ) (within : i < b.size) where
  moved_outside :
      (x : ℕ)
      → (x < base b + i * entry_size) ⊎ (base b + (b.size - 1) * entry_size ≤ x)
      → moved m b i x ≡ m x
  unfolding moved
  moved_outside x c = elim (Bool-cases (ltb i (b.size - 1))) [
    | inl more ↦ rw more (copy_outside m _ m _ _ x (omega arith))
    | inr last ↦ rw last refl
  ]

  erased_outside :
      (x : ℕ)
      → (x < b.p)
        ⊎ ((base b ≤ x) × (x < base b + i * entry_size) ⊎ (base b + b.size * entry_size ≤ x))
      → erased m b i x ≡ m x
  unfolding erased smaller
  erased_outside x c =
      update_frame _ (smaller b) x (omega arith)
      ∙ fill_outside (moved m b i) _ 0 entry_size x (omega arith)
      ∙ moved_outside x (omega arith)

  erased_after :
      (k : ℕ)
      → k < (b.size - 1 - i) * entry_size
      → erased m b i (base b + i * entry_size + k) ≡ m (base b + (i + 1) * entry_size + k)
  unfolding erased smaller moved
  erased_after k lt =
      update_frame _ (smaller b) _ (omega arith)
      ∙ fill_outside (moved m b i) _ 0 entry_size _ (omega arith)
      ∙ rw (lt→ltb i (b.size - 1) (omega arith)) (copy_inside m _ m _ _ k lt)

  left : entries_from (erased m b i) (base b) i ≡ entries_from m (base b) i
  left =
      entries_congr i _ m (base b) (base b)
        (λ k lt. erased_outside (base b + k) (inr (inl (omega arith, omega arith))))

  right :
      entries_from (erased m b i) (base b + i * entry_size) (b.size - 1 - i)
      ≡ entries_from m (base b + i * entry_size + entry_size) (b.size - 1 - i)
  right =
      let q : base b + i * entry_size + entry_size ≡ base b + (i + 1) * entry_size = omega arith in
      rw q (entries_congr (b.size - 1 - i) _ m _ _ erased_after)

  hash_kept : (j : ℕ) → j < i → hash_at (erased m b i) (smaller b) j ≡ hash_at m b j
  unfolding smaller
  hash_kept j lt = readp_congr u48 _ m _ _ (λ k c.
      erased_outside (base b + 12 + j * entry_size + k) (inr (inl (omega arith, omega arith))))

  hash_moved :
      (j : ℕ) → i ≤ j → j + 1 < b.size → hash_at (erased m b i) (smaller b) j ≡ hash_at m b (j + 1)
  unfolding smaller
  hash_moved j ge lt = readp_congr u48 _ m _ _ (λ k c.
      let d = 12 + (j - i) * entry_size + k in
      let p : base b + 12 + j * entry_size + k ≡ base b + i * entry_size + d = omega arith in
      let q : base b + 12 + (j + 1) * entry_size + k ≡ base b + (i + 1) * entry_size + d =
        omega arith in
      rw (p, q) (erased_after d (omega arith)))

  erased-IsSorted : IsSorted m b → IsSorted (erased m b i) (smaller b)
  unfolding smaller
  erased-IsSorted sorted j k le lt = elim (Bool-cases (ltb j i)) [
    | inl a ↦ elim (Bool-cases (ltb k i)) [
      | inl d ↦
          rw (hash_kept j (ltb→lt j i a), hash_kept k (ltb→lt k i d)) (sorted j k le (omega arith))
      | inr d ↦
          rw (hash_kept j (ltb→lt j i a), hash_moved k (ground arith) (omega arith))
            (sorted j (k + 1) (omega arith) (omega arith))
    ]
    | inr a ↦
        rw (hash_moved j (ground arith) (ground arith), hash_moved k (ground arith) (omega arith))
          (sorted (j + 1) (k + 1) (omega arith) (omega arith))
  ]

erase_entry_middle :
    (ys : List Value) (v : Value) (m : Memory) (q i : ℕ)
    → erase_entry i (entries_from m q i ++ v ∷ ys) ≡ entries_from m q i ++ ys
unfolding erase_entry entries_from
erase_entry_middle ys v m q zero = refl
erase_entry_middle ys v m q (suc i) =
    ap (◌∷◌ (entry_at m q)) (erase_entry_middle ys v m (q + entry_size) i)

entries-erased :
    (m : Memory) (b : Bucket) (i : ℕ)
    → i < b.size
    → entries (erased m b i) (smaller b) ≡ erase_entry i (entries m b)
unfolding smaller entries_from
entries-erased m b i lt =
    let r = b.size - 1 - i in
    let sum : b.size - 1 ≡ i + r = omega arith in
    let sum' : b.size ≡ i + suc r = omega arith in
    let n = erased m b i in
    ap (entries_from n (base b)) sum
    ∙ entries_append n (base b) i r
    ∙ rw (left m b i lt, right m b i lt) refl
    ∙ sym (
        ap (erase_entry i) (ap (entries_from m (base b)) sum' ∙ entries_append m (base b) i (suc r))
        ∙ erase_entry_middle (entries_from m (base b + i * entry_size + entry_size) r)
            (entry_at m (base b + i * entry_size)) m (base b) i)

-- `erase` at an index below the size removes the entry there from the list of entries.
pub entries-erase :
    (m : Memory) (b : Bucket) (i : ℕ)
    → i < b.size
    → let r = erase m b i in entries r.1 r.0 ≡ erase_entry i (entries m b)
entries-erase m b i lt = rw (erase-erased m b i) (entries-erased m b i lt)

-- `erase` at an index below the size leaves a well-formed bucket well formed, and changes no byte
-- outside its block.
pub erase-IsBucket :
    (m : Memory) (b : Bucket) (i : ℕ)
    → IsBucket m b
    → i < b.size
    → let r = erase m b i in
      IsBucket r.1 r.0 × ((x : ℕ) → (x < b.p) ⊎ (b.p + b.block_size ≤ x) → r.1 x ≡ m x)
unfolding smaller erased
erase-IsBucket m b i v lt =
    let stored =
      update_stored (fill (moved m b i) (base b + (b.size - 1) * entry_size) 0 entry_size)
        (smaller b) (omega (arith, v.room, v.small)) v.spill_fits in
    rw (erase-erased m b i) (
      record {
        room = omega (arith, v.room);
        small = v.small;
        stored_size = stored.0;
        stored_spill = stored.1;
        spill_fits = v.spill_fits;
        sorted = erased-IsSorted m b i lt v.sorted;
      },
      λ x c. erased_outside m b i lt x (outside x c),
    )
  where
    outside :
        (x : ℕ)
        → (x < b.p) ⊎ (b.p + b.block_size ≤ x)
        → (x < b.p)
          ⊎ ((base b ≤ x) × (x < base b + i * entry_size) ⊎ (base b + b.size * entry_size ≤ x))
    outside x (inl c) = inl c
    outside x (inr c) = inr (inr (omega (arith, v.room)))
