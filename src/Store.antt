-- ===== src/Store.antt =====
-- basic_store.hpp and impl/basic_store.ipp: an open database, and its operations `fetch` and
-- `insert` in a sequence. The locks are those of Gentex and of a shared mutex; each operation
-- here sees the state that it locks.
pub mod Contents
pub mod Lookup
pub mod Inserted
use nu_db.Prelude.{
  ℕ, ◌+◌, ◌*◌, Bool, true, false, Option, none, some, List, ltb, leb, ◌&&◌, if◌then◌else◌,
}
use nu_db.Error.{Error, Result, ok, err, thrown, key_exists}
use nu_db.Memory.{Memory}
use nu_db.File.{FileOps}
use nu_db.Format.{Hasher, hash}
use nu_db.Bucket.{bucket_index}
use nu_db.Pool.{Pool}
use nu_db.Pool
use nu_db.Cache.{Cache}
use nu_db.Cache
use nu_db.Fetch.{next_bucket, fetch_bucket, exists_bucket}

-- The members that `fetch` and `insert` use; `failed` is `ec_` where `ecb_` is set.
pub record Store (F : Type 0) : Type 0 where
  pub df : F
  pub kf : F
  pub memory : Memory
  pub p0 : Pool
  pub p1 : Pool
  pub c1 : Cache
  pub salt : ℕ
  pub key_size : ℕ
  pub block_size : ℕ
  pub buckets : ℕ
  pub modulus : ℕ
  pub pool_thresh : ℕ
  pub commit_limit : ℕ
  pub failed : Option Error

-- The search in the two pools of `fetch`, which gives what the callback gets
unfoldable pub pooled : {F : Type 0} → Store F → List ℕ → Option (List ℕ)
unfolding Pool.find
pooled s key = elim (Pool.find s.p1 key) [
  | some (e, _) ↦ some e.content
  | none ↦ elim (Pool.find s.p0 key) [ some (e, _) ↦ some e.content | none ↦ none ]
]

-- `p1.find(key) != p1.end() || p0.find(key) != p0.end()`
unfoldable pub in_pools : {F : Type 0} → Store F → List ℕ → Bool
unfolding Pool.find
in_pools s key = elim (Pool.find s.p1 key) [
  | some _ ↦ true
  | none ↦ elim (Pool.find s.p0 key) [ some _ ↦ true | none ↦ false ]
]

-- `hash(key, key_size, hasher)` and `bucket_index(h, buckets_, modulus_)`
abbrev pub hash_of : {F : Type 0} → Hasher → Store F → List ℕ → ℕ
hash_of hasher s key = hash hasher key s.salt

abbrev pub index_of : {F : Type 0} → Hasher → Store F → List ℕ → ℕ
index_of hasher s key = bucket_index (hash_of hasher s key) s.buckets s.modulus

module _ {F : Type 0} (ops : FileOps F) (hasher : Hasher) where
  -- `fetch` from the label `cont` on. The buffers for buckets of the key file and for spills are
  -- at `buf` and `q`, and the fuel is for the buckets of the chain.
  unfoldable pub fetch_stored : ℕ → ℕ → ℕ → Store F → List ℕ → Option (Result (List ℕ))
  unfolding Cache.find next_bucket fetch_bucket
  fetch_stored buf q fuel s key =
      let n = index_of hasher s key in
      let within = fetch_bucket ops s.df s.key_size s.block_size q fuel in
      elim (Cache.find s.memory s.c1 n) [
        | some (ok b) ↦ within s.memory b (hash_of hasher s key) key
        | some (err e) ↦ some (err e)
        | some thrown ↦ some thrown
        | none ↦ elim (next_bucket ops s.kf s.block_size buf s.memory ((n + 1) * s.block_size)) [
          | err e ↦ some (err e)
          | thrown ↦ some thrown
          | ok (b, m) ↦ within m b (hash_of hasher s key) key
        ]
      ]

  -- `fetch`
  unfoldable pub fetch : ℕ → ℕ → ℕ → Store F → List ℕ → Option (Result (List ℕ))
  unfolding pooled fetch_stored
  fetch buf q fuel s key = elim s.failed [
    | some e ↦ some (err e)
    | none ↦ elim (pooled s key) [
      | some value ↦ some (ok value)
      | none ↦ fetch_stored buf q fuel s key
    ]
  ]

  -- The test of `insert` whether the cache or the key file has the key
  unfoldable pub exists_stored : ℕ → ℕ → ℕ → Store F → List ℕ → Option (Result Bool)
  unfolding Cache.find next_bucket exists_bucket
  exists_stored buf q fuel s key =
      let n = index_of hasher s key in
      let within = exists_bucket ops s.df s.key_size s.block_size q fuel in
      elim (Cache.find s.memory s.c1 n) [
        | some (ok b) ↦ within s.memory b (hash_of hasher s key) key
        | some (err e) ↦ some (err e)
        | some thrown ↦ some thrown
        | none ↦ elim (next_bucket ops s.kf s.block_size buf s.memory ((n + 1) * s.block_size)) [
          | err e ↦ some (err e)
          | thrown ↦ some thrown
          | ok (b, m) ↦ within m b (hash_of hasher s key) key
        ]
      ]

  -- `insert` up to the insertion into the pool, where `new` puts blocks at the two places. The
  -- inner `none` is the null pointer of the arena.
  unfoldable pub insert :
      ℕ → ℕ → ℕ → ℕ → ℕ → Store F → List ℕ → List ℕ → ℕ → Option (Result (Option (Store F)))
  unfolding in_pools exists_stored Pool.insert
  insert buf q fuel place0 place1 s key content size = elim s.failed [
    | some e ↦ some (err e)
    | none ↦
        if in_pools s key then some (err key_exists) else elim (exists_stored buf q fuel s key) [
          | none ↦ none
          | some (err e) ↦ some (err e)
          | some thrown ↦ some thrown
          | some (ok true) ↦ some (err key_exists)
          | some (ok false) ↦ some (
              ok (elim (Pool.insert s.p1 place0 place1 (hash_of hasher s key) key content size) [
                | none ↦ none
                | some p ↦ some (record s { p1 = p })
              ]))
        ]
  ]

-- The end of `insert`: whether it waits for a commit, and, when it goes on, whether it notifies
-- the thread that commits.
unfoldable pub is_limited : {F : Type 0} → Store F → Bool
is_limited s = ltb 0 s.commit_limit && leb s.commit_limit s.p1.data_size

unfoldable pub notifies : {F : Type 0} → Store F → Bool
notifies s = leb s.pool_thresh s.p1.data_size
