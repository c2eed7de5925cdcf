-- ===== src/Fetch/Chain.antt =====
-- The search through a bucket and its spills in the data file.
use nu_db.Prelude.{
  ℕ, zero, suc, ◌+◌, ◌-◌, ◌≤◌, ◌<◌, ◌≡◌, ◌≢◌, refl, sym, ap, subst, ◌∙◌, Option, none, some, List,
  [], ◌++◌, true, false, ◌==◌, arith, Option-cases, inl, inr,
}
use nu_db.Error.{Result, ok, err, key_not_found}
use nu_db.Memory.{Memory}
use nu_db.Field.{u16, u48, readp}
use nu_db.Format.{bucket_size, bucket_capacity}
use nu_db.Stream.{store}
use nu_db.Stream.Items.{store-blob, read_lem}
use nu_db.File.{FileOps, FileLaws, Readable}
use nu_db.Bucket.{Bucket, Value, actual_size, load, lower_bound, read_file}
use nu_db.Bucket.Entries.{entries}
use nu_db.Bucket.Insert.{IsBucket}
use nu_db.Bucket.Transfer.{Holds, there-IsBucket, size_there, spill_there, body_there, read_into}
use nu_db.Fetch.{fetch_entries, exists_entries, next_bucket, fetch_bucket, exists_bucket}
use nu_db.Fetch.Scan.{
  find_value, find_value-nil, find_value-append, or_else, is_some, InFile, InFile-append,
  fetch_entries-find_value,
}

pub load_value :
    (m : Memory) (block_size q : ℕ)
    → 8 ≤ block_size
    → load m block_size q
      ≡ ok (record {
        block_size = block_size;
        size = readp u16 m q;
        spill = readp u48 m (q + 2);
        p = q;
      })
unfolding load
load_value m block_size q h =
    rw
      (
        read_lem u16 m q block_size (omega arith),
        read_lem u48 m (q + 2) (block_size - 2) (omega arith),
      )
      refl

-- A bucket of a number of entries, at an address.
abbrev pub stored : ℕ → ℕ → ℕ → ℕ → Bucket
stored block_size size spill p = record {
  block_size = block_size;
  size = size;
  spill = spill;
  p = p;
}

-- What `fetch` says of a search.
abbrev pub answer : Option (List ℕ) → Result (List ℕ)
answer none = err key_not_found
answer (some value) = ok value

module _ {F : Type 0} (ops : FileOps F) (laws : FileLaws ops) (df : F) (block_size : ℕ) where
  -- The entries of the spills in the data file, from an offset on; 0 is the end of the chain.
  pub data Spilled : ℕ → List Value → Type 0 where
    end : (offset : ℕ) → offset ≡ 0 → Spilled offset []
    link :
        (offset size next : ℕ) (vs ws : List Value)
        → offset ≢ 0
        → IsBucket (laws.bytes df) (stored block_size size next offset)
        → size ≤ bucket_capacity block_size
        → offset + bucket_size (bucket_capacity block_size) ≤ laws.extent df
        → vs ≡ entries (laws.bytes df) (stored block_size size next offset) ++ ws
        → Spilled next ws
        → Spilled offset vs

  -- How many spills there are.
  unfoldable pub depth : {offset : ℕ} {vs : List Value} → Spilled offset vs → ℕ
  depth (end _ _) = 0
  depth (link _ _ _ _ _ _ _ _ _ _ rest) = suc (depth rest)

  -- A bucket is read as it stands in the file, whatever the bucket that it is read into held.
  pub read_stored :
      (m : Memory) (c : Bucket) (size next offset : ℕ)
      → c.block_size ≡ block_size
      → Readable ops laws df
      → IsBucket (laws.bytes df) (stored block_size size next offset)
      → size ≤ bucket_capacity block_size
      → offset + bucket_size (bucket_capacity block_size) ≤ laws.extent df
      → (n : Memory) × (read_file ops df m c offset ≡ ok (stored block_size size next c.p, n))
        × IsBucket n (stored block_size size next c.p)
        × (entries n (stored block_size size next c.p)
            ≡ entries (laws.bytes df) (stored block_size size next offset))
  read_stored m c size next offset same_size reads v fits inside =
      let b = stored block_size size next offset in
      let q = c.p in
      let (bs, got) = reads offset (bucket_size (bucket_capacity block_size)) inside in
      let n = store m q bs in
      let same : Holds (laws.bytes df) b n q = λ k lt. rw (laws.read_lem df offset _ bs got) (
        store-blob m (laws.bytes df) q offset (bucket_size (bucket_capacity block_size)) k
          (unfold actual_size bucket_size in omega arith)) in
      let there =
        there-IsBucket (laws.bytes df) n b q v (body_there (laws.bytes df) n b q v same)
          (size_there (laws.bytes df) n b q v same) (spill_there (laws.bytes df) n b q v same) in
      (
        n,
        subst
            (λ k.
              read_file ops df m (stored k c.size c.spill q) offset
              ≡ ok (stored block_size size next q, n))
            (sym same_size)
            (read_into ops laws df (laws.bytes df) m b q _ _ offset bs v fits same got),
        there.0,
        there.1,
      )

  -- The next bucket is read as it stands in the file.
  pub next_bucket_lem :
      (m : Memory) (q size next offset : ℕ)
      → Readable ops laws df
      → IsBucket (laws.bytes df) (stored block_size size next offset)
      → size ≤ bucket_capacity block_size
      → offset + bucket_size (bucket_capacity block_size) ≤ laws.extent df
      → (n : Memory) × (next_bucket ops df block_size q m offset
          ≡ ok (stored block_size size next q, n))
        × IsBucket n (stored block_size size next q)
        × (entries n (stored block_size size next q)
            ≡ entries (laws.bytes df) (stored block_size size next offset))
  unfolding next_bucket
  next_bucket_lem m q size next offset reads v fits inside =
      let c = stored block_size (readp u16 m q) (readp u48 m (q + 2)) q in
      let (n, read, there, same) = read_stored m c size next offset refl reads v fits inside in
      (n, rw (load_value m block_size q (omega (arith, v.room))) read, there, same)

  -- The inner loops, with the outcome of the search in the bucket.
  scanned :
      (key_size h : ℕ) (key : List ℕ) (m : Memory) (b : Bucket) (ws : List Value)
      → Readable ops laws df
      → IsBucket m b
      → InFile ops laws df key_size (entries m b)
      → (o : Option (List ℕ)) → find_value (laws.bytes df) key_size h key (entries m b) ≡ o
      → let i = lower_bound m b h in
        (fetch_entries ops df key_size (b.size - i) m b h key i ≡ ok o)
        × (exists_entries ops df key_size (b.size - i) m b h key i ≡ ok (is_some o))
        × (find_value (laws.bytes df) key_size h key (entries m b ++ ws)
            ≡ or_else o (find_value (laws.bytes df) key_size h key ws))
  scanned key_size h key m b ws reads v inside o e =
      let scan = fetch_entries-find_value ops laws df key_size m b h key reads v.sorted inside in
      let bytes = laws.bytes df in
      (
        scan.0 ∙ ap ok e,
        scan.1 ∙ ap (λ x. ok (is_some x)) e,
        find_value-append bytes key_size h key (entries m b) ws
            ∙ ap (λ x. or_else x (find_value bytes key_size h key ws)) e,
      )

  -- For a well-formed bucket, the chain of its spills in the data file, data records in that
  -- file, which can be read, and fuel that exceeds the number of spills, `fetch` and `exists`
  -- return: `fetch` with the value of the first entry of the bucket and its spills that has the
  -- hash and the key, or `key_not_found` where there is none, and `exists` with whether there is
  -- one.
  pub fetch_bucket-find_value :
      (key_size q h fuel : ℕ) (key : List ℕ) (m : Memory) (b : Bucket) (vs : List Value)
      → Readable ops laws df
      → IsBucket m b
      → (chain : Spilled b.spill vs) → InFile ops laws df key_size (entries m b ++ vs)
      → depth chain < fuel
      → let found = find_value (laws.bytes df) key_size h key (entries m b ++ vs) in
        (fetch_bucket ops df key_size block_size q fuel m b h key ≡ some (answer found))
        × (exists_bucket ops df key_size block_size q fuel m b h key ≡ some (ok (is_some found)))
  unfolding fetch_bucket exists_bucket depth
  fetch_bucket-find_value key_size q h zero key m b vs reads v chain inside enough =
      absurd (omega arith)
  fetch_bucket-find_value key_size q h (suc fuel) key m b vs reads v (end _ last) inside enough =
      let bytes = laws.bytes df in
      let here = (InFile-append ops laws df key_size (entries m b) [] inside).0 in
      let stop : (b.spill == 0) ≡ true = ground arith in
      elim (Option-cases (find_value bytes key_size h key (entries m b))) [
        | inl missing ↦
            let (f, e, w) = scanned key_size h key m b [] reads v here none missing in
            (
              rw (f, fetch_bucket, w, find_value-nil bytes key_size h key, stop) refl,
              rw (e, exists_bucket, w, find_value-nil bytes key_size h key, stop) refl,
            )
        | inr (d, found) ↦
            let (f, e, w) = scanned key_size h key m b [] reads v here (some d) found in
            (rw (f, fetch_bucket, w) refl, rw (e, exists_bucket, w) refl)
      ]
  fetch_bucket-find_value key_size q h (suc fuel) key m b vs reads v
        (link _ size next _ ws more there fits in_file split rest) inside enough =
      let bytes = laws.bytes df in
      let here = InFile-append ops laws df key_size (entries m b) vs inside in
      let go_on : (b.spill == 0) ≡ false = ground arith in
      let (n, read, is_bucket, same) =
        next_bucket_lem m q size next b.spill reads there fits in_file in
      let c = stored block_size size next q in
      let listed : vs ≡ entries n c ++ ws = split ∙ ap (λ es. es ++ ws) (sym same) in
      let later =
        fetch_bucket-find_value key_size q h fuel key n c ws reads is_bucket rest
          (subst (InFile ops laws df key_size) listed here.1) (omega arith) in
      elim (Option-cases (find_value bytes key_size h key (entries m b))) [
        | inl missing ↦
            let (f, e, w) = scanned key_size h key m b vs reads v here.0 none missing in
            (
              rw (f, fetch_bucket, w, go_on, read, listed) later.0,
              rw (e, exists_bucket, w, go_on, read, listed) later.1,
            )
        | inr (d, found) ↦
            let (f, e, w) = scanned key_size h key m b vs reads v here.0 (some d) found in
            (rw (f, fetch_bucket, w) refl, rw (e, exists_bucket, w) refl)
      ]
