-- ===== src/Store/Contents.antt =====
-- What a store holds: the pairs of the two pools, and those of the buckets in the cache and in
-- the key file with their spills.
use nu_db.Prelude.{ℕ, ◌+◌, ◌*◌, ◌≤◌, ◌≡◌, Option, none, some, List, ◌++◌}
use nu_db.Error.{ok}
use nu_db.File.{FileOps, FileLaws, Readable}
use nu_db.Format.{Hasher, bucket_size, bucket_capacity}
use nu_db.Bucket.{Bucket, Value}
use nu_db.Bucket.Entries.{entries}
use nu_db.Bucket.Insert.{IsBucket}
use nu_db.Cache.{find}
use nu_db.Pool.{Pool}
use nu_db.Pool
use nu_db.Pool.Finds.{IsPool}
use nu_db.Fetch.Scan.{find_value, or_else}
use nu_db.Fetch.Chain.{Spilled, stored, depth}
use nu_db.Store.{Store, hash_of}

-- The value that a pool has for a key
unfoldable pub held : Pool → List ℕ → Option (List ℕ)
unfolding Pool.find
held p key = elim (Pool.find p key) [ some (e, _) ↦ some e.content | none ↦ none ]

module _ {F : Type 0} (ops : FileOps F) (laws : FileLaws ops) where
  -- The entries that belong to an index: those of a well-formed bucket, which the cache has or
  -- else the key file, and of its spills.
  pub data Listed (s : Store F) (n : ℕ) (vs : List Value) : Type 0 where
    cached :
        (b : Bucket) (ws : List Value)
        → find s.memory s.c1 n ≡ some (ok b)
        → IsBucket s.memory b
        → Spilled ops laws s.df s.block_size b.spill ws
        → vs ≡ entries s.memory b ++ ws
        → Listed s n vs
    on_disk :
        (size next : ℕ) (ws : List Value)
        → find s.memory s.c1 n ≡ none
        → IsBucket (laws.bytes s.kf) (stored s.block_size size next ((n + 1) * s.block_size))
        → size ≤ bucket_capacity s.block_size
        → (n + 1) * s.block_size + bucket_size (bucket_capacity s.block_size) ≤ laws.extent s.kf
        → Spilled ops laws s.df s.block_size next ws
        → vs
          ≡ entries (laws.bytes s.kf) (stored s.block_size size next ((n + 1) * s.block_size)) ++ ws
        → Listed s n vs

  -- How many spills a bucket has.
  unfoldable pub spills : {s : Store F} {n : ℕ} {vs : List Value} → Listed s n vs → ℕ
  spills (cached _ _ _ _ chain _) = depth ops laws _ _ chain
  spills (on_disk _ _ _ _ _ _ _ chain _) = depth ops laws _ _ chain

  -- A store without an error, whose pools are in order, with data files that give what they hold.
  pub record IsStore (s : Store F) : Type 0 where
    pub first : IsPool s.p0
    pub second : IsPool s.p1
    pub first_keys : s.p0.key_size ≡ s.key_size
    pub second_keys : s.p1.key_size ≡ s.key_size
    pub running : s.failed ≡ none
    pub data_reads : Readable ops laws s.df
    pub keys_read : Readable ops laws s.kf

  -- The specification: the value of a key in a store whose bucket for the key has the entries. The
  -- pool of new pairs comes first, then the pool that is being committed, then the files.
  abbrev pub value : Hasher → Store F → List Value → List ℕ → Option (List ℕ)
  value hasher s vs key =
      or_else (or_else (held s.p1 key) (held s.p0 key))
        (find_value (laws.bytes s.df) s.key_size (hash_of hasher s key) key vs)
