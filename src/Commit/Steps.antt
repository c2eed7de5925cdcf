-- ===== src/Commit/Steps.antt =====
-- impl/basic_store.ipp, commit: the whole of it, with what other threads wait for left out.
use nu_db.Prelude.{ℕ, max, some, if◌then◌else◌}
use nu_db.Memory.{Memory}
use nu_db.Endian.{Endian}
use nu_db.File.{FileOps}
use nu_db.Format.{Hasher}
use nu_db.Format.Headers.{write_log_file}
use nu_db.BulkIo.{writer, flush}
use nu_db.Cache.{Cache}
use nu_db.Cache
use nu_db.Pool
use nu_db.Pool.{Item}
use nu_db.Store.{Store}
use nu_db.Commit.{write_values}
use nu_db.Commit.Buckets.{Setting, Building, index_items}
use nu_db.Commit.Files.{log_header, write_records, write_buckets}
use nu_db.Run.{Run, once, ◌>>=◌}

-- The members that `commit` uses besides those of a `Store`
pub record Committer (F : Type 0) : Type 0 where
  pub store : Store F
  pub lf : F
  pub c0 : Cache
  pub uid : ℕ
  pub appnum : ℕ
  pub frac : ℕ
  pub thresh : ℕ
  pub data_write_size : ℕ
  pub log_write_size : ℕ

-- Where `buf1` and `buf2` are, and where `new` puts the blocks of the caches
pub record Buffers : Type 0 where
  pub buf1 : ℕ
  pub buf2 : ℕ
  pub places : ℕ → ℕ

-- Under the first lock: the pools change places, and `s_->c1` the place with the local cache.
unfoldable pub begin_commit : {F : Type 0} → Committer F → Cache → Committer F × Cache
begin_commit c c1 =
    let s = c.store in
    (
      record c {
        store = record s {
          p0 = s.p1;
          p1 = s.p0;
          c1 = c1;
          pool_thresh = max s.pool_thresh s.p1.data_size;
        };
      },
      s.c1,
    )

module _ {F : Type 0} (ops : FileOps F) (endian : Endian) (hasher : Hasher) (fresh : Memory) where
  -- The rollback information
  unfoldable pub prepare_rollback : Committer F → Run (Committer F)
  unfolding log_header
  prepare_rollback c = do
    let s = c.store
    kf_size ← some (ops.size s.kf)
    df_size ← some (ops.size s.df)
    let lh = log_header endian hasher c.uid c.appnum s.key_size s.salt s.block_size kf_size df_size
    l ← some (write_log_file ops c.lf lh)
    l' ← some (ops.sync l)
    once (record c { lf = l' })

  -- The data file: the pairs, and the spills of the buckets that they go to. The second cache is
  -- the local `c1`.
  unfoldable pub build : ℕ → Buffers → Committer F → Cache → Run (Building F × F)
  unfolding write_values index_items
  build fuel at c c1 = do
    let s = c.store
    let set : Setting = record {
      block_size = s.block_size;
      buf1 = at.buf1;
      buf2 = at.buf2;
      thresh = c.thresh;
      places = at.places;
    }
    size ← some (ops.size s.df)
    (items, w) ←
        some (write_values ops fresh s.key_size (writer fresh s.df size c.data_write_size) s.p0.map)
    t ← index_items ops fresh s.kf set fuel items (record {
      memory = s.memory;
      c0 = c.c0;
      c1 = c1;
      w = w;
      frac = c.frac;
      buckets = s.buckets;
      modulus = s.modulus;
      news = 0;
    })
    v ← some (flush ops fresh t.w)
    once (t, v.file)

  -- Under the second lock: readers get the new buckets.
  unfoldable pub publish : Committer F → Building F → F → Committer F
  publish c t df =
      let s = c.store in
      record c {
        store = record s {
          df = df;
          memory = t.memory;
          p0 = Pool.clear s.p0;
          c1 = t.c1;
          buckets = t.buckets;
          modulus = t.modulus;
        };
        c0 = t.c0;
        frac = t.frac;
      }

  -- The old buckets go to the log file.
  unfoldable pub write_clean : Committer F → Run (Committer F)
  unfolding write_records
  write_clean c = do
    size ← some (ops.size c.lf)
    w ← some (
        write_records ops fresh c.store.memory c.store.block_size
          (writer fresh c.lf size c.log_write_size) c.c0.map)
    v ← some (flush ops fresh w)
    l ← some (ops.sync v.file)
    once (record c { lf = l; c0 = Cache.clear c.c0 })

  -- The new buckets go to the key file, and the log file is emptied.
  unfoldable pub finish_commit : Committer F → Run (Committer F)
  unfolding write_buckets
  finish_commit c = do
    let s = c.store
    (k, m) ← some (write_buckets ops s.block_size s.memory s.kf s.c1.map)
    d ← some (ops.sync s.df)
    k' ← some (ops.sync k)
    l ← some (ops.trunc c.lf 0)
    l' ← some (ops.sync l)
    once (record c {
      store = record s { df = d; kf = k'; memory = m; c1 = Cache.clear s.c1 };
      lf = l';
    })

  -- `commit`, with fuel for the spills of a bucket that is split
  unfoldable pub commit : ℕ → Buffers → Committer F → Run (Committer F)
  unfolding prepare_rollback build publish write_clean finish_commit begin_commit Cache.no_cache
  commit fuel at c = if Pool.is_empty c.store.p1 then once c else (do
    empty_cache ← some Cache.no_cache
    let (c', c1) = begin_commit c empty_cache
    d ← prepare_rollback c'
    (t, df) ← build fuel at d c1
    e ← write_clean (publish d t df)
    finish_commit e)
