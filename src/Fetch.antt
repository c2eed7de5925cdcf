-- ===== src/Fetch.antt =====
-- impl/basic_store.ipp, `fetch` and `exists` in a loaded bucket: the search for a key through the
-- entries of a bucket and of its spills. The callback of `fetch` gets the value that is returned.
pub mod Scan
pub mod Chain
use nu_db.Prelude.{
  ℕ, zero, suc, ◌+◌, ◌-◌, Bool, true, false, not, Option, none, some, List, take, drop, ltb, ◌==◌,
  if◌then◌else◌,
}
use nu_db.Error.{Result, ok, err, thrown, key_not_found, ◌>>=◌}
use nu_db.Memory.{Memory}
use nu_db.Field.{u48, size}
use nu_db.File.{FileOps}
use nu_db.Format.Verify.{same}
use nu_db.Bucket.{Bucket, at, lower_bound, load, read_file}

module _ {F : Type 0} (ops : FileOps F) (df : F) (key_size : ℕ) where
  -- The inner loop of `fetch` from the entry i on; the fuel is the number of entries behind it.
  unfoldable pub fetch_entries : ℕ → Memory → Bucket → ℕ → List ℕ → ℕ → Result (Option (List ℕ))
  fetch_entries zero m b h key i = ok none
  fetch_entries (suc fuel) m b h key i = do
    item ← at m b i
    let rest = fetch_entries fuel m b h key (i + 1)
    if not (item.hash == h) then ok none else do
      bytes ← ops.read df (item.offset + size u48) (key_size + item.size)
      if same (take key_size bytes) key then ok (some (drop key_size bytes)) else rest

  -- The inner loop of `exists`, which reads the key only
  unfoldable pub exists_entries : ℕ → Memory → Bucket → ℕ → List ℕ → ℕ → Result Bool
  exists_entries zero m b h key i = ok false
  exists_entries (suc fuel) m b h key i = do
    item ← at m b i
    let rest = exists_entries fuel m b h key (i + 1)
    if not (item.hash == h) then ok false else do
      bytes ← ops.read df (item.offset + size u48) key_size
      if same bytes key then ok true else rest

-- `b = bucket(block_size, buf); b.read(df, spill, ec)`: the next bucket, in a buffer at q
module _ {F : Type 0} (ops : FileOps F) (df : F) (block_size q : ℕ) where
  unfoldable pub next_bucket : Memory → ℕ → Result (Bucket × Memory)
  next_bucket m spill = do b ← load m block_size q; read_file ops df m b spill

module _ {F : Type 0} (ops : FileOps F) (df : F) (key_size block_size q : ℕ) where
  -- `fetch(h, key, b, callback, ec)`, on fuel for each bucket of the chain; `none` where the fuel
  -- runs out.
  unfoldable pub fetch_bucket : ℕ → Memory → Bucket → ℕ → List ℕ → Option (Result (List ℕ))
  unfolding fetch_entries next_bucket
  fetch_bucket zero m b h key = none
  fetch_bucket (suc fuel) m b h key =
      let i = lower_bound m b h in
      elim (fetch_entries ops df key_size (b.size - i) m b h key i) [
        | err e ↦ some (err e)
        | thrown ↦ some thrown
        | ok (some value) ↦ some (ok value)
        | ok none ↦
            if b.spill == 0
            then some (err key_not_found)
            else elim (next_bucket ops df block_size q m b.spill) [
              | err e ↦ some (err e)
              | thrown ↦ some thrown
              | ok (b', m') ↦ fetch_bucket fuel m' b' h key
            ]
      ]

  -- `exists(h, key, lock, b, ec)`
  unfoldable pub exists_bucket : ℕ → Memory → Bucket → ℕ → List ℕ → Option (Result Bool)
  unfolding exists_entries next_bucket
  exists_bucket zero m b h key = none
  exists_bucket (suc fuel) m b h key =
      let i = lower_bound m b h in
      elim (exists_entries ops df key_size (b.size - i) m b h key i) [
        | err e ↦ some (err e)
        | thrown ↦ some thrown
        | ok true ↦ some (ok true)
        | ok false ↦
            if b.spill == 0
            then some (ok false)
            else elim (next_bucket ops df block_size q m b.spill) [
              | err e ↦ some (err e)
              | thrown ↦ some thrown
              | ok (b', m') ↦ exists_bucket fuel m' b' h key
            ]
      ]
