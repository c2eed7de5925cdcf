-- ===== src/Verify/Seek.antt =====
-- The search of `verify` for the entry of a value, against the list of the entries of a bucket and
-- its spills.
use nu_db.Prelude.{
  ℕ, zero, suc, ◌+◌, ◌-◌, ◌*◌, ◌≤◌, ◌<◌, ◌≡◌, refl, sym, ap, ◌∙◌, Bool, true, false, List, [], ◌∷◌,
  ◌++◌, ◌==◌, ◌&&◌, ◌||◌, arith, Bool-cases, inl, inr,
}
use nu_db.Error.{ok}
use nu_db.Memory.{Memory}
use nu_db.Format.{entry_size}
use nu_db.Bucket.{Bucket, Value, lower_bound}
use nu_db.Bucket.Entries.{entries, entries_from, entry_at, base, at_lem, entries_append}
use nu_db.Bucket.LowerBound.{IsSorted, hash_at, lower_bound-IsLowerBound}
use nu_db.Fetch.Scan.{hash_at-entry_at, first_hash}
use nu_db.Verify.{seek_entries}

-- The specification: an entry of the list has the hash and the offset.
unfoldable pub indexed : ℕ → ℕ → List Value → Bool
indexed h offset [] = false
indexed h offset (v ∷ vs) = ((v.hash == h) && (v.offset == offset)) || indexed h offset vs

pub indexed-append :
    (h offset : ℕ) (vs ws : List Value)
    → indexed h offset (vs ++ ws) ≡ (indexed h offset vs || indexed h offset ws)
unfolding indexed
indexed-append h offset [] ws = refl
indexed-append h offset (v ∷ vs) ws = elim (Bool-cases ((v.hash == h) && (v.offset == offset))) [
  | inl found ↦ rw found refl
  | inr other ↦ rw other (indexed-append h offset vs ws)
]

-- No entry of the list has the hash.
indexed-none :
    (h offset : ℕ) (m : Memory) (n q : ℕ)
    → ((k : ℕ) → k < n → ((entry_at m (q + k * entry_size)).hash == h) ≡ false)
    → indexed h offset (entries_from m q n) ≡ false
unfolding indexed entries_from
indexed-none h offset m zero q other = refl
indexed-none h offset m (suc n) q other =
    let e : q + 0 * entry_size ≡ q = omega arith in
    let here = rw e at (other 0 (omega arith)) in
    rw here (
      indexed-none h offset m n (q + entry_size) (λ k lt.
        let f : q + entry_size + k * entry_size ≡ q + suc k * entry_size = omega arith in
        rw f (other (suc k) (omega arith))))

indexed_behind :
    (h offset : ℕ) (m : Memory) (b : Bucket) (i c n : ℕ)
    → IsSorted m b
    → i ≤ c
    → c + n ≡ b.size
    → h < hash_at m b i
    → indexed h offset (entries_from m (base b + c * entry_size) n) ≡ false
indexed_behind h offset m b i c n sorted le all above =
    indexed-none h offset m n (base b + c * entry_size) (λ k lt.
      ground (arith, hash_at-entry_at m b c k, sorted i (c + k) (omega arith) (omega arith)))

indexed_before :
    (h offset : ℕ) (m : Memory) (b : Bucket) (i : ℕ)
    → ((j : ℕ) → j < i → hash_at m b j < h)
    → indexed h offset (entries_from m (base b) i) ≡ false
indexed_before h offset m b i below = indexed-none h offset m i (base b) (λ k lt.
    let e : base b + 0 * entry_size ≡ base b = omega arith in
    let f : 0 + k ≡ k = omega arith in
    let g = rw (e, f) at (hash_at-entry_at m b 0 k) in ground (arith, below k lt, g))

-- A turn of the loop: it ends behind the hash or at the entry, or goes on.
module _ (m : Memory) (b : Bucket) (h offset n i fetches : ℕ) where
  turn_other :
      ((entry_at m (base b + i * entry_size)).hash == h) ≡ false
      → seek_entries (suc n) m b h offset i fetches ≡ ok (false, fetches)
  unfolding seek_entries
  turn_other other = rw (at_lem m b i, seek_entries) (rw other refl)

  turn_found :
      ((entry_at m (base b + i * entry_size)).hash == h) ≡ true
      → ((entry_at m (base b + i * entry_size)).offset == offset) ≡ true
      → seek_entries (suc n) m b h offset i fetches ≡ ok (true, fetches)
  unfolding seek_entries
  turn_found same_hash found = rw (at_lem m b i, seek_entries) (rw same_hash (rw found refl))

  turn_next :
      ((entry_at m (base b + i * entry_size)).hash == h) ≡ true
      → ((entry_at m (base b + i * entry_size)).offset == offset) ≡ false
      → seek_entries (suc n) m b h offset i fetches
        ≡ seek_entries n m b h offset (i + 1) (fetches + 1)
  unfolding seek_entries
  turn_next same_hash differs = rw (at_lem m b i, seek_entries) (rw same_hash (rw differs refl))

-- The loop from an entry on, in a bucket in order whose hashes are not less from there on
seek_entries_lem :
    (m : Memory) (b : Bucket) (h offset n i fetches : ℕ)
    → IsSorted m b
    → i + n ≡ b.size
    → ((j : ℕ) → i ≤ j → j < b.size → h ≤ hash_at m b j)
    → (f : ℕ) × (seek_entries n m b h offset i fetches
        ≡ ok (indexed h offset (entries_from m (base b + i * entry_size) n), f))
unfolding entries_from indexed
seek_entries_lem m b h offset zero i fetches sorted all above =
    (fetches, unfold seek_entries in refl)
seek_entries_lem m b h offset (suc n) i fetches sorted all above =
    let v = entry_at m (base b + i * entry_size) in
    let next : base b + i * entry_size + entry_size ≡ base b + (i + 1) * entry_size = omega arith in
    let (f, rest) =
      seek_entries_lem m b h offset n (i + 1) (fetches + 1) sorted (omega arith)
        (λ j le lt. above j (omega arith) lt) in
    let here = first_hash m b i in
    elim (Bool-cases (v.hash == h)) [
      | inr other ↦
          (let far : h < hash_at m b i = ground (arith, above i (omega arith) (omega arith)) in
            let none_left =
              indexed_behind h offset m b i (i + 1) n sorted (omega arith) (omega arith) far in
            (
              fetches,
              turn_other m b h offset n i fetches other
                  ∙ ap (λ x. ok (x, fetches)) (sym (rw (other, next) none_left)),
            ))
      | inl same_hash ↦ elim (Bool-cases (v.offset == offset)) [
        | inl found ↦ (
          fetches,
          turn_found m b h offset n i fetches same_hash found
              ∙ ap (λ x. ok (x, fetches)) (rw (same_hash, found) refl),
        )
        | inr differs ↦ (
          f,
          turn_next m b h offset n i fetches same_hash differs
              ∙ rest
              ∙ ap (λ x. ok (x, f)) (rw (same_hash, differs, next) refl),
        )
      ]
    ]

-- On a bucket in order, the loop from the lower bound on says whether the bucket has the entry.
pub seek_entries-indexed :
    (m : Memory) (b : Bucket) (h offset fetches : ℕ)
    → IsSorted m b
    → let i = lower_bound m b h in
      (f : ℕ) × (seek_entries (b.size - i) m b h offset i fetches
        ≡ ok (indexed h offset (entries m b), f))
seek_entries-indexed m b h offset fetches sorted =
    let i = lower_bound m b h in
    let at_i = lower_bound-IsLowerBound m b h sorted in
    let n = b.size - i in
    let size : b.size ≡ i + n = omega (arith, at_i.within) in
    let behind = entries_from m (base b + i * entry_size) n in
    let split : entries m b ≡ entries_from m (base b) i ++ behind =
      ap (entries_from m (base b)) size ∙ entries_append m (base b) i n in
    let whole : indexed h offset behind ≡ indexed h offset (entries m b) = sym (
      ap (indexed h offset) split
      ∙ indexed-append h offset (entries_from m (base b) i) behind
      ∙ ap (λ x. x || indexed h offset behind) (indexed_before h offset m b i at_i.below)) in
    let (f, found) =
      seek_entries_lem m b h offset n i fetches sorted (omega (arith, at_i.within)) at_i.above in
    (f, found ∙ ap (λ x. ok (x, f)) whole)
