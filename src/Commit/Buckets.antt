-- ===== src/Commit/Buckets.antt =====
-- impl/basic_store.ipp, load and commit: the new view of the buckets. The caches and the buffers
-- share one memory; where `new` puts the blocks of the arenas is a sequence of places.
use nu_db.Prelude.{ℕ, ◌+◌, ◌-◌, ◌*◌, none, some, List, [], ◌∷◌, leb, if◌then◌else◌}
use nu_db.Memory.{Memory}
use nu_db.File.{FileOps}
use nu_db.Bucket.{Bucket, bucket_index, load, read_file}
use nu_db.Bucket
use nu_db.BulkIo.{Writer}
use nu_db.Cache.{Cache}
use nu_db.Cache
use nu_db.Growth.{next_modulus, split_from, split_to}
use nu_db.Pool.{Item}
use nu_db.Spill.{maybe_spill}
use nu_db.Split.{split}
use nu_db.Run.{Run, once, allocated, ◌>>=◌}

-- What does not change: the size of the blocks, the buffers `buf1` and `buf2`, `thresh_`, and the
-- places that `new` gives.
pub record Setting : Type 0 where
  pub block_size : ℕ
  pub buf1 : ℕ
  pub buf2 : ℕ
  pub thresh : ℕ
  pub places : ℕ → ℕ

-- What the loop changes; `news` counts the calls of the arenas.
pub record Building (F : Type 0) : Type 0 where
  pub memory : Memory
  pub c0 : Cache
  pub c1 : Cache
  pub w : Writer F
  pub frac : ℕ
  pub buckets : ℕ
  pub modulus : ℕ
  pub news : ℕ

module _ {F : Type 0} (ops : FileOps F) (fresh : Memory) (kf : F) (set : Setting) where
  -- `c1.insert(n, b)`, with the bucket that the iterator stands for, and `c0.insert(n, b)`
  unfoldable pub cache_new : ℕ → Bucket → Building F → Run (Bucket × Building F)
  unfolding Cache.insert
  cache_new n b s = do
    (r, m, c) ← allocated (Cache.insert s.memory s.c1 (set.places s.news) n b)
    d ← some r
    once (d, record s { memory = m; c1 = c; news = s.news + 1 })

  unfoldable pub cache_old : ℕ → Bucket → Building F → Run (Building F)
  unfolding Cache.insert
  cache_old n b s = do
    (_, m, c) ← allocated (Cache.insert s.memory s.c0 (set.places s.news) n b)
    once (record s { memory = m; c0 = c; news = s.news + 1 })

  -- The part of `load` that reads the key file
  unfoldable pub load_file : ℕ → Building F → Run (Bucket × Building F)
  unfolding cache_old cache_new
  load_file n s = do
    tmp ← some (load s.memory set.block_size set.buf2)
    (b, m) ← some (read_file ops kf s.memory tmp ((n + 1) * set.block_size))
    t ← cache_old n b (record s { memory = m })
    cache_new n b t

  -- `load(n, c1, c0, buf, ec)`
  unfoldable pub load_bucket : ℕ → Building F → Run (Bucket × Building F)
  unfolding load_file Cache.find
  load_bucket n s = elim (Cache.find s.memory s.c1 n) [
    | some r ↦ (do b ← some r; once (b, s))
    | none ↦ elim (Cache.find s.memory s.c0 n) [
      | some r ↦ (do b ← some r; cache_new n b s)
      | none ↦ load_file n s
    ]
  ]

  -- The split of a bucket, with fuel for its spills
  unfoldable pub grow : ℕ → Building F → Run (Building F)
  unfolding load_bucket Cache.create split
  grow fuel s = do
    let modulus = next_modulus s.buckets s.modulus
    let n2 = split_to s.buckets
    (b1, t) ← load_bucket (split_from s.buckets modulus) s
    (b2, m, c1) ← allocated (Cache.create t.memory t.c1 (set.places t.news) n2)
    tmp ← some (load m set.block_size set.buf1)
    (h, w) ← split ops fresh fuel m b1 b2 tmp n2 (s.buckets + 1) modulus t.w
    once (record t {
      memory = h.memory;
      c1 = c1;
      w = w;
      buckets = s.buckets + 1;
      modulus = modulus;
      news = t.news + 1;
    })

  -- `if((frac_ += 65536) >= thresh_)`, with the split
  unfoldable pub maybe_grow : ℕ → Building F → Run (Building F)
  unfolding grow
  maybe_grow fuel s =
      let frac = s.frac + 65536 in
      if leb set.thresh frac
      then grow fuel (record s { frac = frac - set.thresh })
      else once (record s { frac = frac })

  -- The insert of an item with its offset
  unfoldable pub index_item : Item × ℕ → Building F → Run (Building F)
  unfolding load_bucket maybe_spill
  index_item (e, offset) s = do
    (b, t) ← load_bucket (bucket_index e.hash s.buckets s.modulus) s
    (b', m, w) ← some (maybe_spill ops fresh t.memory b t.w)
    let (_, n) = Bucket.insert m b' offset e.size e.hash
    once (record t { memory = n; w = w })

  -- The loop over the pool
  unfoldable pub index_items : ℕ → List (Item × ℕ) → Building F → Run (Building F)
  unfolding maybe_grow index_item
  index_items fuel [] s = once s
  index_items fuel (e ∷ es) s = do t ← maybe_grow fuel s; u ← index_item e t; index_items fuel es u
