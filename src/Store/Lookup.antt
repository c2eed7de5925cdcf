-- ===== src/Store/Lookup.antt =====
-- `fetch`, and the test of `insert`, against what the store holds.
use nu_db.Prelude.{
  ℕ, ◌<◌, ◌≡◌, refl, sym, ap, subst, ◌∙◌, ◌++◌, some, Option-cases, inl, inr, List, arith,
}
use nu_db.Error.{ok}
use nu_db.File.{FileOps, FileLaws}
use nu_db.Format.{Hasher}
use nu_db.Bucket.{Value}
use nu_db.Fetch.Scan.{or_else, InFile, find_value, is_some}
use nu_db.Fetch.Chain.{stored, next_bucket_lem, fetch_bucket-find_value, answer}
use nu_db.Store.{Store, pooled, in_pools, hash_of, index_of, fetch_stored, exists_stored, fetch}
use nu_db.Store.Contents.{Listed, cached, on_disk, spills, IsStore, value, held}

-- The test of `insert` on the pools is the search of `fetch` in them.
pub in_pools-pooled :
    {F : Type 0} (s : Store F) (key : List ℕ) → in_pools s key ≡ is_some (pooled s key)
unfolding in_pools pooled
in_pools-pooled s key = ground arith

-- The pool of new pairs is searched before the other.
pub pooled-held :
    {F : Type 0} (s : Store F) (key : List ℕ)
    → pooled s key ≡ or_else (held s.p1 key) (held s.p0 key)
unfolding pooled held
pooled-held s key = ground arith

module _ {F : Type 0} (ops : FileOps F) (laws : FileLaws ops) (hasher : Hasher) where
  -- The search behind the pools
  pub stored_lem :
      (buf q fuel : ℕ) (s : Store F) (key : List ℕ) (vs : List Value)
      → IsStore ops laws s
      → (listed : Listed ops laws s (index_of hasher s key) vs) → InFile ops laws s.df s.key_size vs
      → spills ops laws listed < fuel
      → let found = find_value (laws.bytes s.df) s.key_size (hash_of hasher s key) key vs in
        (fetch_stored ops hasher buf q fuel s key ≡ some (answer found))
        × (exists_stored ops hasher buf q fuel s key ≡ some (ok (is_some found)))
  unfolding fetch_stored exists_stored spills
  stored_lem buf q fuel s key vs v (cached b ws at_n is_bucket chain split) inside enough =
      let found =
        fetch_bucket-find_value ops laws s.df s.block_size s.key_size q (hash_of hasher s key) fuel
          key s.memory b ws v.data_reads is_bucket chain
          (subst (InFile ops laws s.df s.key_size) split inside) enough in
      (rw (at_n, fetch_stored, split) found.0, rw (at_n, exists_stored, split) found.1)
  stored_lem buf q fuel s key vs v (on_disk size next ws absent is_bucket fits in_file chain split)
        inside enough =
      let (m, read, here, same) =
        next_bucket_lem ops laws s.kf s.block_size s.memory buf size next _ v.keys_read is_bucket
          fits in_file in
      let c = stored s.block_size size next buf in
      let listed = split ∙ ap (λ es. es ++ ws) (sym same) in
      let found =
        fetch_bucket-find_value ops laws s.df s.block_size s.key_size q (hash_of hasher s key) fuel
          key m c ws v.data_reads here chain (subst (InFile ops laws s.df s.key_size) listed inside)
          enough in
      (
        rw (absent, fetch_stored, read, listed) found.0,
        rw (absent, exists_stored, read, listed) found.1,
      )

  -- In a store without an error, whose pools are in order and whose files can be read, let the
  -- bucket for a key be well-formed, in the cache or in the key file, with its spills and data
  -- records in the data file, and let the fuel exceed the number of spills. Then `fetch` returns
  -- the value of the key that the store holds, a pool before the files, or `key_not_found` where
  -- it holds none.
  pub fetch-value :
      (buf q fuel : ℕ) (s : Store F) (key : List ℕ) (vs : List Value)
      → IsStore ops laws s
      → (listed : Listed ops laws s (index_of hasher s key) vs) → InFile ops laws s.df s.key_size vs
      → spills ops laws listed < fuel
      → fetch ops hasher buf q fuel s key ≡ some (answer (value ops laws hasher s vs key))
  unfolding fetch
  fetch-value buf q fuel s key vs v listed inside enough =
      elim (Option-cases (pooled s key))
        as (λ _.
          fetch ops hasher buf q fuel s key ≡ some (answer (value ops laws hasher s vs key))) [
            | inl absent ↦
                (rw (v.running, fetch, ← pooled-held s key, absent)
                  (stored_lem buf q fuel s key vs v listed inside enough).0)
            | inr (d, found) ↦ (rw (v.running, fetch, ← pooled-held s key, found) refl)
          ]
