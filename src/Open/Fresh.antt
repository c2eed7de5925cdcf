-- ===== src/Open/Fresh.antt =====
-- A database that was just created, and is opened: it holds no key.
use nu_db.Prelude.{ℕ, suc, ◌+◌, ◌*◌, ◌≤◌, ◌<◌, ◌≡◌, refl, none, some, [], List, ltb, false, arith}
use nu_db.Field.{u16, u48, readp}
use nu_db.Error.{ok, err, key_not_found, >>=-eq-ok}
use nu_db.Memory.{Memory}
use nu_db.Endian.{Endian}
use nu_db.File.{FileOps, FileLaws, Works}
use nu_db.Format.{Hasher, ceil_pow2, ceil_loop}
use nu_db.Format.Headers.{DatFileHeader, KeyFileHeader}
use nu_db.Format.Verify.{verify_key, verify_dat_key}
use nu_db.Arena.{Arena, element_size, arena}
use nu_db.Pool
use nu_db.Pool.{Pool}
use nu_db.Cache
use nu_db.Cache.{Cache}
use nu_db.Bucket.{Bucket, bucket_index, lower_bound, lower_loop, read_file}
use nu_db.Fetch.{next_bucket, fetch_bucket, exists_bucket, fetch_entries, exists_entries}
use nu_db.Fetch.Chain.{load_value}
use nu_db.Store.{Store, fetch, fetch_stored, exists_stored, pooled, hash_of}
use nu_db.Commit.Steps.{Committer}
use nu_db.Create.{Settings, made, create, dat_header, key_header}
use nu_db.Create.Opens.{IsSettings, IsEmptyDatabase, opened}
use nu_db.Create.Fresh.{create-IsEmptyDatabase}
use nu_db.Open.{state_with, new_state, open_store}

verify_key_first :
    (endian : Endian) (hasher : Hasher) (dh : DatFileHeader) (kh : KeyFileHeader)
    → verify_dat_key endian hasher dh kh ≡ ok tt
    → verify_key endian hasher kh ≡ ok tt
unfolding verify_dat_key
verify_key_first endian hasher dh kh e = let (x, first, rest) = >>=-eq-ok _ _ e in first

-- The only bucket has every hash.
only_bucket : (h : ℕ) → bucket_index h 1 (ceil_pow2 1) ≡ 0
unfolding bucket_index ceil_loop
only_bucket h = let one : ceil_pow2 1 ≡ 1 = unfold ceil_pow2 in refl in rw one (ground arith)

arena_value :
    (n : ℕ) → element_size < n → arena n ≡ ok (record { alloc_size = n; used = []; free = [] })
unfolding arena
arena_value n lt = ground arith

-- The pools and the caches of a new state
abbrev empty_arena : ℕ → Arena
empty_arena n = record { alloc_size = n; used = []; free = [] }

abbrev empty_pool : ℕ → ℕ → Pool
empty_pool key_size n = record {
  arena = empty_arena n;
  key_size = key_size;
  data_size = 0;
  map = [];
}

abbrev empty_cache : ℕ → ℕ → Cache
empty_cache key_size block_size = record {
  key_size = key_size;
  block_size = block_size;
  arena = empty_arena (block_size * 64);
  map = [];
}

pool_value : (key_size n : ℕ) → element_size < n → Pool.pool key_size n ≡ ok (empty_pool key_size n)
unfolding Pool.pool
pool_value key_size n lt = rw (arena_value n lt, Pool.pool) refl

cache_value :
    (key_size block_size : ℕ)
    → 0 < block_size
    → Cache.cache key_size block_size ≡ ok (empty_cache key_size block_size)
unfolding Cache.cache
cache_value key_size block_size p =
    rw (arena_value (block_size * 64) (omega (arith, p)), Cache.cache) refl

new_state_value :
    {F : Type 0} (m : Memory) (kh : KeyFileHeader) (n dat_block log_block : ℕ) (d k l : F)
    → element_size < n
    → 0 < kh.block_size
    → 0 < kh.buckets
    → new_state m kh n dat_block log_block d k l
      ≡ ok (
          state_with m kh dat_block log_block d k l
            (empty_pool kh.key_size n)
            (empty_cache kh.key_size kh.block_size))
unfolding new_state
new_state_value m kh n dat_block log_block d k l lt some_block some_bucket =
    let enough : ltb kh.buckets 1 ≡ false = ground (arith, some_bucket) in
    rw
      (
        pool_value kh.key_size n lt,
        new_state,
        cache_value kh.key_size kh.block_size some_block,
        enough,
      )
      refl

-- A store whose only bucket is empty, with nothing in memory.
record IsFresh {F : Type 0} (ops : FileOps F) (s : Store F) : Type 0 where
  first : s.p0.map ≡ []
  second : s.p1.map ≡ []
  no_copies : s.c1.map ≡ []
  one : s.buckets ≡ 1
  mask : s.modulus ≡ ceil_pow2 1
  running : s.failed ≡ none
  room : 8 ≤ s.block_size
  bucket :
      (t : Memory) (q size spill : ℕ)
      → let c : Bucket = record { block_size = s.block_size; size = size; spill = spill; p = q } in
        let e : Bucket = record { block_size = s.block_size; size = 0; spill = 0; p = q } in
        (n : Memory) × (read_file ops s.kf t c s.block_size ≡ ok (e, n))

module _ {F : Type 0} (ops : FileOps F) (hasher : Hasher) where
  bucket_lacks :
      (df : F) (key_size block_size q fuel p h : ℕ) (m : Memory) (key : List ℕ)
      → let b : Bucket = record { block_size = block_size; size = 0; spill = 0; p = p } in
        (fetch_bucket ops df key_size block_size q (suc fuel) m b h key ≡ some (err key_not_found))
        × (exists_bucket ops df key_size block_size q (suc fuel) m b h key ≡ some (ok false))
  unfolding fetch_bucket exists_bucket fetch_entries exists_entries lower_bound lower_loop
  bucket_lacks df key_size block_size q fuel p h m key = (refl, refl)

  fresh_lacks :
      (s : Store F) (buf q fuel : ℕ) (key : List ℕ)
      → IsFresh ops s
      → (fetch ops hasher buf q (suc fuel) s key ≡ some (err key_not_found))
        × (exists_stored ops hasher buf q (suc fuel) s key ≡ some (ok false))
  unfolding fetch pooled fetch_stored exists_stored Pool.find Pool.lookup Cache.find Cache.lookup
      next_bucket
  fresh_lacks s buf q fuel key v =
      let only : bucket_index (hash_of hasher s key) s.buckets s.modulus ≡ 0 =
        rw (v.one, v.mask) (only_bucket (hash_of hasher s key)) in
      let here : (0 + 1) * s.block_size ≡ s.block_size = omega arith in
      let (n, read) =
        v.bucket s.memory buf (readp u16 s.memory buf) (readp u48 s.memory (buf + 2)) in
      let lacks =
        bucket_lacks s.df s.key_size s.block_size q fuel buf (hash_of hasher s key) n key in
      (
        rw
            (
              v.running,
              fetch,
              v.second,
              v.first,
              fetch_stored,
              v.no_copies,
              only,
              here,
              load_value s.memory s.block_size buf v.room,
              read,
            )
            lacks.0,
        rw
            (
              v.no_copies,
              exists_stored,
              only,
              here,
              load_value s.memory s.block_size buf v.room,
              read,
            )
            lacks.1,
      )

  open_value :
      (endian : Endian) (a : Settings) (load arena_block_size dat_block log_block : ℕ) (m : Memory)
      (d k l : F)
      → IsSettings endian hasher a load
      → element_size < arena_block_size
      → IsEmptyDatabase ops endian hasher a load d k
      → (c : Committer F) × (open_store ops endian hasher m arena_block_size dat_block log_block
            (ok d)
            (ok k)
            (ok l)
          ≡ ok c)
        × IsFresh ops c.store
  unfolding open_store new_state state_with Pool.pool Cache.cache dat_header key_header
  open_value endian a load arena_block_size dat_block log_block m d k l v lt e =
      let large = v.large in
      let kh = opened endian hasher a load in
      let first = verify_key_first endian hasher _ _ e.both_valid in
      (
        state_with m kh dat_block log_block d k l (empty_pool a.key_size arena_block_size)
            (empty_cache a.key_size a.block_size),
        rw (e.dat, open_store, e.dat_valid, e.key, first, e.both_valid)
            (new_state_value m kh arena_block_size dat_block log_block d k l lt (omega arith)
              (omega arith)),
        record {
          first = refl;
          second = refl;
          no_copies = refl;
          one = refl;
          mask = refl;
          running = refl;
          room = omega arith;
          bucket = λ t q size spill. let (n, read, _) = e.bucket t q size spill in (n, read);
        },
      )

module _ {F : Type 0} (ops : FileOps F) (laws : FileLaws ops) (works : Works ops laws)
    (endian : Endian) (hasher : Hasher) (fresh : Memory) where
  -- Where the calls of the files succeed, the data file and the key file that `create` makes are
  -- opened, behind the call of `recover` and with any file as the log, for blocks of an arena of
  -- more than 24 bytes and arguments of `create` as `IsSettings` has them. The store is empty: for
  -- every key, `fetch` gives `key_not_found`, and the test of `insert` finds no such key.
  pub open_store-create :
      (a : Settings) (load arena_block_size dat_block log_block : ℕ) (m : Memory) (df kf lf lg : F)
      → IsSettings endian hasher a load
      → laws.extent kf ≡ 0
      → element_size < arena_block_size
      → (d k l : F) × (c : Committer F) × (create ops endian hasher fresh a (ok df) (ok kf) (ok lf)
          ≡ made d k l)
        × (open_store ops endian hasher m arena_block_size dat_block log_block (ok d) (ok k) (ok lg)
            ≡ ok c)
        × ((buf q fuel : ℕ) (key : List ℕ)
            → (fetch ops hasher buf q (suc fuel) c.store key ≡ some (err key_not_found))
              × (exists_stored ops hasher buf q (suc fuel) c.store key ≡ some (ok false)))
  open_store-create a load arena_block_size dat_block log_block m df kf lf lg v new lt =
      let (d, k, l, creates, empty) =
        create-IsEmptyDatabase ops laws works endian hasher fresh a load df kf lf v new in
      let (c, opens, is_fresh) =
        open_value ops hasher endian a load arena_block_size dat_block log_block m d k lg v lt
          empty in
      (
        d,
        k,
        l,
        c,
        creates,
        opens,
        λ buf q fuel key. fresh_lacks ops hasher c.store buf q fuel key is_fresh,
      )
