-- ===== src/Open.antt =====
-- impl/basic_store.ipp, open behind the call of `recover`, and close: the state of a store. The
-- thread that `open` starts is not modelled.
pub mod Fresh
use nu_db.Prelude.{ℕ, ◌*◌, ◌/◌, ◌^◌, max, Bool, Option, none, some, ltb, if◌then◌else◌}
use nu_db.Error.{Error, Result, ok, err, short_key_file, ◌>>=◌, ◌>>◌, fail_if}
use nu_db.Memory.{Memory}
use nu_db.Endian.{Endian}
use nu_db.File.{FileOps}
use nu_db.Format.{Hasher, ceil_pow2}
use nu_db.Format.Headers.{KeyFileHeader, read_dat_file, read_key_file}
use nu_db.Format.Verify.{verify_dat, verify_key, verify_dat_key}
use nu_db.Pool
use nu_db.Pool.{Pool}
use nu_db.Cache
use nu_db.Cache.{Cache}
use nu_db.Store.{Store}
use nu_db.Commit.Steps.{Committer}

-- The members of the state, and those that `open` sets behind it, for pools and caches; the two
-- numbers are `block_size(dat_path)` and `block_size(log_path)`.
unfoldable pub state_with :
    {F : Type 0} → Memory → KeyFileHeader → ℕ → ℕ → F → F → F → Pool → Cache → Committer F
state_with memory kh dat_block log_block df kf lf p c =
    let thresh = max 65536 (kh.load_factor * kh.capacity) in
    record {
      store = record {
        df = df;
        kf = kf;
        memory = memory;
        p0 = p;
        p1 = p;
        c1 = c;
        salt = kh.salt;
        key_size = kh.key_size;
        block_size = kh.block_size;
        buckets = kh.buckets;
        modulus = ceil_pow2 kh.buckets;
        pool_thresh = 1;
        commit_limit = 2 ^ 30;
        failed = none;
      };
      lf = lf;
      c0 = c;
      uid = kh.uid;
      appnum = kh.appnum;
      frac = thresh / 2;
      thresh = thresh;
      data_write_size = 32 * dat_block;
      log_write_size = 32 * log_block;
    }

-- `state(df, kf, lf, dp, kp, lp, kh, arenaBlockSize)`, and the test of `open` behind it. The two
-- pools are alike, and the two caches.
unfoldable pub new_state :
    {F : Type 0} → Memory → KeyFileHeader → ℕ → ℕ → ℕ → F → F → F → Result (Committer F)
unfolding Pool.pool Cache.cache state_with
new_state memory kh arena_block_size dat_block log_block df kf lf = do
  p ← Pool.pool kh.key_size arena_block_size
  c ← Cache.cache kh.key_size kh.block_size
  fail_if (ltb kh.buckets 1) short_key_file
  ok (state_with memory kh dat_block log_block df kf lf p c)

module _ {F : Type 0} (ops : FileOps F) (endian : Endian) (hasher : Hasher) where
  -- `open` behind the call of `recover`, with what opening the data file and the key file and
  -- creating the log file give
  unfoldable pub open_store :
      Memory → ℕ → ℕ → ℕ → Result F → Result F → Result F → Result (Committer F)
  unfolding new_state
  open_store memory arena_block_size dat_block log_block dat key log = do
    df ← dat
    kf ← key
    lf ← log
    dh ← read_dat_file ops df
    verify_dat dh
    kh ← read_key_file ops kf
    verify_key endian hasher kh
    verify_dat_key endian hasher dh kh
    new_state memory kh arena_block_size dat_block log_block df kf lf

-- `close` of an open store, once the thread has ended: the code that it gives, from what erasing the
-- log file gives. A log file is kept where the thread has met an error.
unfoldable pub close_store : {F : Type 0} → Store F → Result (Unit {0}) → Result (Unit {0})
close_store s erased = elim s.failed [ some e ↦ err e | none ↦ erased ]
