-- ===== src/Fetch/Scan.antt =====
-- The search in one bucket against the search through its list of entries.
use nu_db.Prelude.{
  ℕ, zero, suc, ◌+◌, ◌-◌, ◌*◌, ◌≤◌, ◌<◌, ◌≡◌, refl, sym, ap, subst, ◌∙◌, Bool, true, false, Option,
  none, some, List, [], ◌∷◌, ◌++◌, take, drop, ◌==◌, ◌&&◌, if◌then◌else◌, arith, Bool-cases, inl,
  inr,
}
use nu_db.Error.{ok}
use nu_db.Memory.{Memory}
use nu_db.Field.{u48, readp}
use nu_db.Format.{entry_size}
use nu_db.Format.Verify.{same}
use nu_db.Stream.{blob}
use nu_db.Stream.Items.{take-blob, drop-blob}
use nu_db.File.{FileOps, FileLaws, Readable}
use nu_db.Bucket.{Bucket, Value, lower_bound}
use nu_db.Bucket.Entries.{entries, entries_from, entry_at, base, at_lem, entries_append}
use nu_db.Bucket.LowerBound.{IsSorted, hash_at, lower_bound-IsLowerBound}
use nu_db.Fetch.{fetch_entries, exists_entries}

-- The first of two results, if there is one.
abbrev pub or_else : {A : Type 0} → Option A → Option A → Option A
or_else none o = o
or_else (some a) o = some a

abbrev pub is_some : {A : Type 0} → Option A → Bool
is_some none = false
is_some (some a) = true

-- The data record of an entry: whether its key is the one, and its value.
module _ (bytes : Memory) (key_size : ℕ) where
  abbrev pub key_matches : List ℕ → Value → Bool
  key_matches key v = same (blob bytes (v.offset + 6) key_size) key

  abbrev pub value_of : Value → List ℕ
  value_of v = blob bytes (v.offset + 6 + key_size) v.size

  -- The specification: the value of the first entry that has the hash and the key.
  unfoldable pub find_value : ℕ → List ℕ → List Value → Option (List ℕ)
  find_value h key [] = none
  find_value h key (v ∷ vs) =
      if (v.hash == h) && key_matches key v then some (value_of v) else find_value h key vs

  pub find_value-nil : (h : ℕ) (key : List ℕ) → find_value h key [] ≡ none
  unfolding find_value
  find_value-nil h key = refl

  pub find_value-append :
      (h : ℕ) (key : List ℕ) (vs ws : List Value)
      → find_value h key (vs ++ ws) ≡ or_else (find_value h key vs) (find_value h key ws)
  unfolding find_value
  find_value-append h key [] ws = refl
  find_value-append h key (v ∷ vs) ws = elim (Bool-cases ((v.hash == h) && key_matches key v)) [
    | inl found ↦ rw found refl
    | inr other ↦ rw other (find_value-append h key vs ws)
  ]

  -- No entry of the list has the hash.
  find_value-none :
      (h : ℕ) (key : List ℕ) (m : Memory) (n q : ℕ)
      → ((k : ℕ) → k < n → ((entry_at m (q + k * entry_size)).hash == h) ≡ false)
      → find_value h key (entries_from m q n) ≡ none
  unfolding find_value entries_from
  find_value-none h key m zero q other = refl
  find_value-none h key m (suc n) q other =
      let e : q + 0 * entry_size ≡ q = omega arith in
      let here = rw e at (other 0 (omega arith)) in
      rw here (
        find_value-none h key m n (q + entry_size) (λ k lt.
          let f : q + entry_size + k * entry_size ≡ q + suc k * entry_size = omega arith in
          rw f (other (suc k) (omega arith))))

-- The hash of an entry, as the binary search and as the list of entries has it.
pub hash_at-entry_at :
    (m : Memory) (b : Bucket) (i k : ℕ)
    → (entry_at m (base b + i * entry_size + k * entry_size)).hash ≡ hash_at m b (i + k)
unfolding entry_at
hash_at-entry_at m b i k = ap (readp u48 m) (omega arith)

pub first_hash :
    (m : Memory) (b : Bucket) (i : ℕ) → (entry_at m (base b + i * entry_size)).hash ≡ hash_at m b i
first_hash m b i =
    let zeroth : i + 0 ≡ i = omega arith in
    let first : base b + i * entry_size + 0 * entry_size ≡ base b + i * entry_size = omega arith in
    rw (first, zeroth) at (hash_at-entry_at m b i 0)

-- All hashes of the first entries are below.
none_before :
    (bytes : Memory) (key_size h : ℕ) (key : List ℕ) (m : Memory) (b : Bucket) (i : ℕ)
    → ((j : ℕ) → j < i → hash_at m b j < h)
    → find_value bytes key_size h key (entries_from m (base b) i) ≡ none
none_before bytes key_size h key m b i below =
    find_value-none bytes key_size h key m i (base b) (λ k lt.
      let e : base b + 0 * entry_size ≡ base b = omega arith in
      let f : 0 + k ≡ k = omega arith in
      let g = rw (e, f) at (hash_at-entry_at m b 0 k) in ground (arith, below k lt, g))

-- Behind an entry whose hash is above, in a bucket in order.
none_behind :
    (bytes : Memory) (key_size h : ℕ) (key : List ℕ) (m : Memory) (b : Bucket) (i c n : ℕ)
    → IsSorted m b
    → i ≤ c
    → c + n ≡ b.size
    → h < hash_at m b i
    → find_value bytes key_size h key (entries_from m (base b + c * entry_size) n) ≡ none
none_behind bytes key_size h key m b i c n sorted le all above =
    find_value-none bytes key_size h key m n (base b + c * entry_size) (λ k lt.
      ground (arith, hash_at-entry_at m b c k, sorted i (c + k) (omega arith) (omega arith)))

module _ {F : Type 0} (ops : FileOps F) (laws : FileLaws ops) (df : F) (key_size : ℕ) where
  -- The data records of the entries are in the file.
  abbrev pub InFile : List Value → Type 0
  InFile [] = Unit {0}
  InFile (v ∷ vs) = (v.offset + 6 + (key_size + v.size) ≤ laws.extent df) × InFile vs

  pub InFile-append : (vs ws : List Value) → InFile (vs ++ ws) → InFile vs × InFile ws
  InFile-append [] ws h = (tt, h)
  InFile-append (v ∷ vs) ws h = let (a, b) = InFile-append vs ws h.1 in ((h.0, a), b)

  fetch_entries_lem :
      (m : Memory) (b : Bucket) (h : ℕ) (key : List ℕ) (n i : ℕ)
      → Readable ops laws df
      → IsSorted m b
      → i + n ≡ b.size
      → ((j : ℕ) → i ≤ j → j < b.size → h ≤ hash_at m b j)
      → InFile (entries_from m (base b + i * entry_size) n)
      → fetch_entries ops df key_size n m b h key i
        ≡ ok
            (find_value (laws.bytes df) key_size h key (entries_from m (base b + i * entry_size) n))
  unfolding fetch_entries entries_from find_value
  fetch_entries_lem m b h key zero i reads sorted all above inside = refl
  fetch_entries_lem m b h key (suc n) i reads sorted all above inside =
      let v = entry_at m (base b + i * entry_size) in
      let next : base b + i * entry_size + entry_size ≡ base b + (i + 1) * entry_size =
        omega arith in
      let rest =
        fetch_entries_lem m b h key n (i + 1) reads sorted (omega arith)
          (λ j le lt. above j (omega arith) lt) (rw next at inside.1) in
      let here = first_hash m b i in
      rw (at_lem m b i) (elim (Bool-cases (v.hash == h)) [
        | inr other ↦
            let far : h < hash_at m b i = ground (arith, above i (omega arith) (omega arith)) in
            rw (other, next)
              (ap ok (
                sym (
                  none_behind (laws.bytes df) key_size h key m b i (i + 1) n sorted (omega arith)
                    (omega arith) far)))
        | inl same_hash ↦
            let (bs, read) = reads (v.offset + 6) (key_size + v.size) inside.0 in
            let whole = laws.read_lem df (v.offset + 6) (key_size + v.size) bs read in
            let key_read =
              ap (take key_size) whole ∙ take-blob (laws.bytes df) (v.offset + 6) key_size v.size in
            let value_read =
              ap (drop key_size) whole ∙ drop-blob (laws.bytes df) (v.offset + 6) key_size v.size in
            rw (same_hash, read, key_read, value_read)
              (elim (Bool-cases (key_matches (laws.bytes df) key_size key v)) [
                | inl found ↦ rw found refl
                | inr differs ↦ rw (differs, next) rest
              ])
      ])

  exists_entries_lem :
      (m : Memory) (b : Bucket) (h : ℕ) (key : List ℕ) (n i : ℕ)
      → Readable ops laws df
      → IsSorted m b
      → i + n ≡ b.size
      → ((j : ℕ) → i ≤ j → j < b.size → h ≤ hash_at m b j)
      → InFile (entries_from m (base b + i * entry_size) n)
      → exists_entries ops df key_size n m b h key i
        ≡ ok (
            is_some (
              find_value
                (laws.bytes df)
                key_size
                h
                key
                (entries_from m (base b + i * entry_size) n)))
  unfolding exists_entries entries_from find_value
  exists_entries_lem m b h key zero i reads sorted all above inside = refl
  exists_entries_lem m b h key (suc n) i reads sorted all above inside =
      let v = entry_at m (base b + i * entry_size) in
      let next : base b + i * entry_size + entry_size ≡ base b + (i + 1) * entry_size =
        omega arith in
      let rest =
        exists_entries_lem m b h key n (i + 1) reads sorted (omega arith)
          (λ j le lt. above j (omega arith) lt) (rw next at inside.1) in
      let here = first_hash m b i in
      rw (at_lem m b i) (elim (Bool-cases (v.hash == h)) [
        | inr other ↦
            let far : h < hash_at m b i = ground (arith, above i (omega arith) (omega arith)) in
            rw (other, next)
              (ap (λ o. ok (is_some o))
                (sym (
                  none_behind (laws.bytes df) key_size h key m b i (i + 1) n sorted (omega arith)
                    (omega arith) far)))
        | inl same_hash ↦
            let (bs, read) = reads (v.offset + 6) key_size (omega (arith, inside.0)) in
            let key_read = laws.read_lem df (v.offset + 6) key_size bs read in
            rw (same_hash, read, key_read)
              (elim (Bool-cases (key_matches (laws.bytes df) key_size key v)) [
                | inl found ↦ rw found refl
                | inr differs ↦ rw (differs, next) rest
              ])
      ])

  -- The entries from the lower bound on decide the search.
  from_lower_bound :
      (m : Memory) (b : Bucket) (h : ℕ) (key : List ℕ)
      → IsSorted m b
      → InFile (entries m b)
      → let i = lower_bound m b h in
        let behind = entries_from m (base b + i * entry_size) (b.size - i) in
        InFile behind
        × (find_value (laws.bytes df) key_size h key behind
            ≡ find_value (laws.bytes df) key_size h key (entries m b))
  from_lower_bound m b h key sorted inside =
      let i = lower_bound m b h in
      let at_i = lower_bound-IsLowerBound m b h sorted in
      let n = b.size - i in
      let size : b.size ≡ i + n = omega (arith, at_i.within) in
      let behind = entries_from m (base b + i * entry_size) n in
      let split : entries m b ≡ entries_from m (base b) i ++ behind =
        ap (entries_from m (base b)) size ∙ entries_append m (base b) i n in
      let bytes = laws.bytes df in
      (
        (InFile-append (entries_from m (base b) i) behind (subst InFile split inside)).1,
        sym (
            ap (find_value bytes key_size h key) split
            ∙ find_value-append bytes key_size h key (entries_from m (base b) i) behind
            ∙ ap (λ o. or_else o (find_value bytes key_size h key behind))
                (none_before bytes key_size h key m b i at_i.below)),
      )

  -- On a bucket in order whose data records are in the file, the inner loops find the value of
  -- the first entry with the hash and the key, if there is one.
  pub fetch_entries-find_value :
      (m : Memory) (b : Bucket) (h : ℕ) (key : List ℕ)
      → Readable ops laws df
      → IsSorted m b
      → InFile (entries m b)
      → let i = lower_bound m b h in
        let found = find_value (laws.bytes df) key_size h key (entries m b) in
        (fetch_entries ops df key_size (b.size - i) m b h key i ≡ ok found)
        × (exists_entries ops df key_size (b.size - i) m b h key i ≡ ok (is_some found))
  fetch_entries-find_value m b h key reads sorted inside =
      let i = lower_bound m b h in
      let n = b.size - i in
      let at_i = lower_bound-IsLowerBound m b h sorted in
      let all : i + n ≡ b.size = omega (arith, at_i.within) in
      let (behind, found) = from_lower_bound m b h key sorted inside in
      (
        fetch_entries_lem m b h key n i reads sorted all at_i.above behind ∙ ap ok found,
        exists_entries_lem m b h key n i reads sorted all at_i.above behind
            ∙ ap (λ o. ok (is_some o)) found,
      )
