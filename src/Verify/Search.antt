-- ===== src/Verify/Search.antt =====
-- The search of `verify_normal` for a value, in the bucket for its key and the spills.
use nu_db.Prelude.{
  ℕ, zero, suc, ◌+◌, ◌*◌, ◌≤◌, ◌<◌, ◌≡◌, ◌≢◌, ◌-◌, refl, sym, ap, subst, ◌∙◌, Bool, true, false,
  some, List, [], ◌++◌, ◌==◌, arith, Bool-cases, inl, inr,
}
use nu_db.Error.{Result, ok, err, orphaned_value}
use nu_db.Memory.{Memory}
use nu_db.Stream.Items.{read_blob_lem}
use nu_db.Stream.{Istream, blob}
use nu_db.File.{FileOps, FileLaws, Readable}
use nu_db.Format.{Hasher, hash, bucket_size, bucket_capacity}
use nu_db.Format.Headers.{KeyFileHeader}
use nu_db.Bucket.{Bucket, Value, bucket_index, read_file, lower_bound}
use nu_db.Bucket.Entries.{entries}
use nu_db.Bucket.Insert.{IsBucket}
use nu_db.Fetch.Chain.{Spilled, end, link, depth, stored, read_stored}
use nu_db.Run.{once, ◌>>=◌}
use nu_db.Verify.{seek_chain, seek_entries, short_as}
use nu_db.Verify.Normal.{Checker, Found, check_value}
use nu_db.Verify.Seek.{indexed, indexed-append, seek_entries-indexed}

-- A search succeeds where the list has the entry, and else says that the value is an orphan.
abbrev pub Sought : {A : Type 0} → Bool → Result A → Type 0
Sought {A} true y = (a : A) × (y ≡ ok a)
Sought false y = y ≡ err orphaned_value

indexed-nil : (h offset : ℕ) → indexed h offset [] ≡ false
unfolding indexed
indexed-nil h offset = refl

module _ {F : Type 0} (ops : FileOps F) (df : F) (q h offset fuel f fetches : ℕ) (m : Memory)
    (b : Bucket) where
  -- A turn of the search: the bucket has the entry, or it is the last, or the next one is read.
  turn_found :
      seek_entries (b.size - lower_bound m b h) m b h offset (lower_bound m b h) fetches
        ≡ ok (true, f)
      → seek_chain ops df (suc fuel) q h offset m b fetches ≡ once (m, f)
  unfolding seek_chain
  turn_found e = rw (e, seek_chain) refl

  turn_last :
      seek_entries (b.size - lower_bound m b h) m b h offset (lower_bound m b h) fetches
        ≡ ok (false, f)
      → b.spill ≡ 0
      → seek_chain ops df (suc fuel) q h offset m b fetches ≡ some (err orphaned_value)
  unfolding seek_chain
  turn_last e last =
      let stop : (b.spill == 0) ≡ true = ground arith in rw (e, seek_chain) (rw stop refl)

  turn_next :
      (c : Bucket) (n : Memory)
      → seek_entries (b.size - lower_bound m b h) m b h offset (lower_bound m b h) fetches
        ≡ ok (false, f)
      → b.spill ≢ 0
      → read_file ops df m (record b { p = q }) b.spill ≡ ok (c, n)
      → seek_chain ops df (suc fuel) q h offset m b fetches
        ≡ seek_chain ops df fuel q h offset n c (f + 1)
  unfolding seek_chain short_as
  turn_next c n e more read =
      let go_on : (b.spill == 0) ≡ false = ground arith in
      rw (e, seek_chain) (rw go_on (rw read refl))

module _ {F : Type 0} (ops : FileOps F) (laws : FileLaws ops) (df : F) (block_size : ℕ) where
  -- The search of a bucket and its spills is that of the list of their entries.
  abbrev Seeks : ℕ → ℕ → ℕ → ℕ → ℕ → Memory → Bucket → List Value → Type 0
  Seeks q h offset fuel fetches m b vs =
      (y : Result (Memory × ℕ)) × (seek_chain ops df fuel q h offset m b fetches ≡ some y)
      × Sought (indexed h offset (entries m b ++ vs)) y

  Seeks-found :
      (q h offset fuel f fetches : ℕ) (m : Memory) (b : Bucket) (vs : List Value)
      → seek_entries (b.size - lower_bound m b h) m b h offset (lower_bound m b h) fetches
        ≡ ok (indexed h offset (entries m b), f)
      → indexed h offset (entries m b) ≡ true
      → Seeks q h offset (suc fuel) fetches m b vs
  Seeks-found q h offset fuel f fetches m b vs e found = (
    ok (m, f),
    turn_found ops df q h offset fuel f fetches m b (e ∙ ap (λ x. ok (x, f)) found),
    rw (indexed-append h offset (entries m b) vs, found) ((m, f), refl),
  )

  pub seek_chain-indexed :
      (q h offset fuel fetches : ℕ) (m : Memory) (b : Bucket) (vs : List Value)
      → Readable ops laws df
      → IsBucket m b
      → b.block_size ≡ block_size
      → (chain : Spilled ops laws df block_size b.spill vs)
      → depth ops laws df block_size chain < fuel
      → (y : Result (Memory × ℕ)) × (seek_chain ops df fuel q h offset m b fetches ≡ some y)
        × Sought (indexed h offset (entries m b ++ vs)) y
  unfolding depth
  seek_chain-indexed q h offset zero fetches m b vs reads v same chain enough = absurd (omega arith)
  seek_chain-indexed q h offset (suc fuel) fetches m b vs reads v same (end _ last) enough =
      let (f, e) = seek_entries-indexed m b h offset fetches v.sorted in
      elim (Bool-cases (indexed h offset (entries m b))) [
        | inl found ↦ Seeks-found q h offset fuel f fetches m b [] e found
        | inr missing ↦ (
          err orphaned_value,
          turn_last ops df q h offset fuel f fetches m b (e ∙ ap (λ x. ok (x, f)) missing) last,
          rw (indexed-append h offset (entries m b) [], missing, indexed-nil h offset) refl,
        )
      ]
  seek_chain-indexed q h offset (suc fuel) fetches m b vs reads v same
        (link _ size next _ ws more there fits in_file split rest) enough =
      let (f, e) = seek_entries-indexed m b h offset fetches v.sorted in
      let (n, read, is_bucket, listed) =
        read_stored ops laws df block_size m (record b { p = q }) size next b.spill same reads there
          fits in_file in
      let c = stored block_size size next q in
      let all : vs ≡ entries n c ++ ws = split ∙ ap (λ es. es ++ ws) (sym listed) in
      elim (Bool-cases (indexed h offset (entries m b))) [
        | inl found ↦ Seeks-found q h offset fuel f fetches m b vs e found
        | inr missing ↦
            let (y, done, sought) =
              seek_chain-indexed q h offset fuel (f + 1) n c ws reads is_bucket refl rest
                (omega arith) in
            (
              y,
              turn_next ops df q h offset fuel f fetches m b c n (e ∙ ap (λ x. ok (x, f)) missing)
                    more read
                  ∙ done,
              rw (indexed-append h offset (entries m b) vs, missing, all) sought,
            )
      ]

module _ {F : Type 0} (ops : FileOps F) (laws : FileLaws ops) (hasher : Hasher) (fresh : Memory)
    (df kf : F) (kh : KeyFileHeader) where
  -- The entries that belong to an index: those of a well-formed bucket of the key file, and of its
  -- spills in the data file, which are fewer than the fuel.
  pub record Chained (fuel i : ℕ) (vs : List Value) : Type 0 where
    pub size : ℕ
    pub next : ℕ
    pub spilled : List Value
    pub bucket : IsBucket (laws.bytes kf) (stored kh.block_size size next ((i + 1) * kh.block_size))
    pub fits : size ≤ bucket_capacity kh.block_size
    pub in_file :
        (i + 1) * kh.block_size + bucket_size (bucket_capacity kh.block_size) ≤ laws.extent kf
    pub chain : Spilled ops laws df kh.block_size next spilled
    pub short : depth ops laws df kh.block_size chain < fuel
    pub split :
        vs
        ≡ entries (laws.bytes kf) (stored kh.block_size size next ((i + 1) * kh.block_size))
          ++ spilled

  -- What the search of a value gives, with a bucket of the block size of the key file
  abbrev pub Checked : Bool → Result Found → Type 0
  Checked true y = (x : Found) × (y ≡ ok x) × (x.bucket.block_size ≡ kh.block_size)
  Checked false y = y ≡ err orphaned_value

  Sought-Checked :
      (found : Bool) (y : Result (Memory × ℕ)) (b : Bucket)
      → b.block_size ≡ kh.block_size
      → Sought found y
      → (z : Result Found) × ((some y >>= λ (m, f).
            once (record { bucket = b; memory = m; fetches = f }))
          ≡ some z)
        × Checked found z
  Sought-Checked true y b same ((m, f), e) =
      let x : Found = record { bucket = b; memory = m; fetches = f } in
      (ok x, rw e refl, (x, refl, same))
  Sought-Checked false y b same e = (err orphaned_value, rw e refl, refl)

  check_value_lem :
      (fuel offset n : ℕ) (bytes m : Memory) (is : Istream) (s : Checker) (key : List ℕ)
      (b : Bucket)
      → is.left ≡ kh.key_size + n
      → blob bytes is.buf kh.key_size ≡ key
      → read_file ops kf s.memory s.bucket
          ((bucket_index (hash hasher key kh.salt) kh.buckets kh.modulus + 1) * kh.block_size)
        ≡ ok (b, m)
      → check_value ops hasher fresh df kf kh fuel offset n bytes is s ≡ (
          seek_chain ops df fuel b.p (hash hasher key kh.salt) offset m b (s.info.fetches + 1)
          >>= λ (m', f). once (record { bucket = b; memory = m'; fetches = f }))
  unfolding check_value
  check_value_lem fuel offset n bytes m is s key b left same_key read =
      let first = read_blob_lem bytes is.buf is.left kh.key_size (omega (arith, left)) in
      let second =
        read_blob_lem bytes (is.buf + kh.key_size) (is.left - kh.key_size) n
          (omega (arith, left)) in
      rw (first, check_value) (rw second (rw same_key (rw read refl)))

  -- The search for a value succeeds where the entries of its key's index have its hash and its
  -- offset.
  pub check_value-indexed :
      (fuel offset n : ℕ) (bytes : Memory) (is : Istream) (s : Checker) (key : List ℕ)
      (vs : List Value)
      → Readable ops laws df
      → Readable ops laws kf
      → is.left ≡ kh.key_size + n
      → blob bytes is.buf kh.key_size ≡ key
      → s.bucket.block_size ≡ kh.block_size
      → let h = hash hasher key kh.salt in
        Chained fuel (bucket_index h kh.buckets kh.modulus) vs
        → (y : Result Found) × (check_value ops hasher fresh df kf kh fuel offset n bytes is s
            ≡ some y)
          × Checked (indexed h offset vs) y
  check_value-indexed fuel offset n bytes is s key vs reads keys left same_key same v =
      let h = hash hasher key kh.salt in
      let (m, read, is_bucket, listed) =
        read_stored ops laws kf kh.block_size s.memory s.bucket v.size v.next
          ((bucket_index h kh.buckets kh.modulus + 1) * kh.block_size) same keys v.bucket v.fits
          v.in_file in
      let b = stored kh.block_size v.size v.next s.bucket.p in
      let (y, done, sought) =
        seek_chain-indexed ops laws df kh.block_size s.bucket.p h offset fuel (s.info.fetches + 1) m
          b v.spilled reads is_bucket refl v.chain v.short in
      let all : entries m b ++ v.spilled ≡ vs = ap (λ es. es ++ v.spilled) listed ∙ sym v.split in
      let (z, gives, checked) =
        Sought-Checked (indexed h offset vs) y b refl
          (subst (λ es. Sought (indexed h offset es) y) all sought) in
      (
        z,
        check_value_lem fuel offset n bytes m is s key b left same_key read
            ∙ ap (λ o. o >>= λ (m', f). once (record { bucket = b; memory = m'; fetches = f })) done
            ∙ gives,
        checked,
      )
