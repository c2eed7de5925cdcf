-- ===== src/Thread.antt =====
-- basic_store::run in impl/basic_store.ipp: the thread of an open store, which commits at least
-- once a second. What other threads do to the state between two turns is an argument.
use nu_db.Prelude.{ℕ, ◌/◌, max, leb, ◌||◌, ◌≡◌, refl, not, Bool, List, [], ◌∷◌, if◌then◌else◌}
use nu_db.Memory.{Memory}
use nu_db.Endian.{Endian}
use nu_db.File.{FileOps}
use nu_db.Format.{Hasher}
use nu_db.Pool
use nu_db.Cache
use nu_db.Run.{Run, once, ◌>>=◌}
use nu_db.Store.{Store, fetch, fetch_stored, pooled}
use nu_db.Commit.Steps.{Committer, Buffers, commit}

-- `pred`, for a store that is open or not
unfoldable pub has_work : {F : Type 0} → Bool → Store F → Bool
has_work is_open s =
    not is_open || leb s.pool_thresh s.p1.data_size || leb s.commit_limit s.p1.data_size

-- The memory that is given back after the wait for a whole second
unfoldable pub reclaim : {F : Type 0} → Committer F → Committer F
reclaim c =
    let s = c.store in
    record c {
      store = record s {
        pool_thresh = max 1 (s.pool_thresh / 2);
        p1 = Pool.shrink_to_fit s.p1;
        p0 = Pool.shrink_to_fit s.p0;
        c1 = Cache.shrink_to_fit s.c1;
      };
      c0 = Cache.shrink_to_fit c.c0;
    }

-- One turn of the thread, by what other threads have done since the last.
pub record Wakeup (F : Type 0) : Type 0 where
  pub timed_out : Bool
  pub others : Committer F → Committer F

module _ {F : Type 0} (ops : FileOps F) (endian : Endian) (hasher : Hasher) (fresh : Memory)
    (fuel : ℕ) (at : Buffers) where
  -- A turn of the inner loop, in a store that is still open
  unfoldable pub commit_turn : Bool → Committer F → Run (Committer F)
  unfolding commit reclaim
  commit_turn timed_out c = do
    d ← commit ops endian hasher fresh fuel at c
    once (if timed_out then reclaim d else d)

  -- `run`: the turns until the store is closed, and the last commit. An error ends it, and is the
  -- one that is kept in `ec_`.
  unfoldable pub run_turns :
      List (Wakeup F) → (Committer F → Committer F) → Committer F → Run (Committer F)
  unfolding commit_turn commit
  run_turns [] last c = commit ops endian hasher fresh fuel at (last c)
  run_turns (t ∷ ts) last c = do d ← commit_turn t.timed_out (t.others c); run_turns ts last d

module _ {F : Type 0} (ops : FileOps F) (hasher : Hasher) where
  -- `fetch` does not depend on the memory that is given back.
  reclaim-fetch :
      (buf q fuel : ℕ) (c : Committer F) (key : List ℕ)
      → fetch ops hasher buf q fuel (reclaim c).store key ≡ fetch ops hasher buf q fuel c.store key
  unfolding fetch fetch_stored pooled reclaim Pool.shrink_to_fit Cache.shrink_to_fit
  reclaim-fetch buf q fuel c key = refl
