-- ===== src/Store/Inserted.antt =====
-- `insert` against what the store holds: a key that is there is refused, and another is added.
use nu_db.Prelude.{
  ℕ, ◌<◌, ◌≡◌, ◌≢◌, refl, sym, ap, ◌∙◌, ◌⊎◌, none, some, Option-cases, inl, inr, List, length, true,
  false, arith,
}
use nu_db.Error.{ok, err, key_exists}
use nu_db.File.{FileOps, FileLaws}
use nu_db.Format.{Hasher}
use nu_db.Bucket.{Value}
use nu_db.Arena.{Arena, alloc}
use nu_db.Arena.Disjoint.{IsPlace}
use nu_db.Pool.{Pool, Item, find}
use nu_db.Pool
use nu_db.Pool.Finds.{Inserts, insert-Inserts}
use nu_db.Fetch.Scan.{InFile, find_value, is_some}
use nu_db.Store.{
  Store, pooled, in_pools, hash_of, index_of, fetch_stored, exists_stored, fetch, insert,
}
use nu_db.Store.Contents.{Listed, spills, IsStore, value}
use nu_db.Store.Lookup.{in_pools-pooled, pooled-held, stored_lem}

-- A key that no pool has
not_pooled : {F : Type 0} (s : Store F) (key : List ℕ) → pooled s key ≡ none → find s.p1 key ≡ none
unfolding pooled
not_pooled s key h = ground arith

module _ {F : Type 0} (ops : FileOps F) (laws : FileLaws ops) (hasher : Hasher) where
  -- The store after an insertion: `fetch` gives the value of the key, and of every other key what
  -- it gave before.
  pub record Updates (s : Store F) (key content : List ℕ) (s' : Store F) : Type 0 where
    pub store : IsStore ops laws s'
    pub fetched : (buf q fuel : ℕ) → fetch ops hasher buf q fuel s' key ≡ some (ok content)
    pub others :
        (j : List ℕ)
        → length j ≡ s.key_size
        → j ≢ key
        → (buf q fuel : ℕ) → fetch ops hasher buf q fuel s' j ≡ fetch ops hasher buf q fuel s j

  with_pool :
      (s : Store F) (p : Pool) (e : Item)
      → IsStore ops laws s
      → Inserts s.p1 e p
      → Updates s e.key e.content (record s { p1 = p })
  unfolding fetch pooled fetch_stored
  with_pool s p e v got = record {
    store = record {
      first = v.first;
      second = got.pool;
      first_keys = v.first_keys;
      second_keys = got.key_size ∙ v.second_keys;
      running = v.running;
      data_reads = v.data_reads;
      keys_read = v.keys_read;
    };
    fetched = λ buf q fuel. rw (v.running, fetch, got.there) refl;
    others = λ j l ne buf q fuel.
        (let same : pooled (record s { p1 = p }) j ≡ pooled s j =
            rw (got.others j (l ∙ sym v.second_keys) ne, pooled) refl in
          rw (v.running, fetch, same) refl);
  }

  -- A key that is nowhere goes into the pool.
  insert_put :
      (buf q fuel place0 place1 size : ℕ) (s : Store F) (p : Pool) (key content : List ℕ)
      → s.failed ≡ none
      → in_pools s key ≡ false
      → exists_stored ops hasher buf q fuel s key ≡ some (ok false)
      → Pool.insert s.p1 place0 place1 (hash_of hasher s key) key content size ≡ some p
      → insert ops hasher buf q fuel place0 place1 s key content size
        ≡ some (ok (some (record s { p1 = p })))
  unfolding insert
  insert_put buf q fuel place0 place1 size s p key content running absent missing put =
      rw (running, insert, absent, missing, put)
        (ap (λ f. some (ok (some (record s { p1 = p; failed = f })))) running)

  -- In a store without an error, whose pools are in order and whose files can be read, let the
  -- bucket for a key of the store's size be well-formed, in the cache or in the key file, with
  -- its spills and data records in the data file, let the fuel exceed the number of spills, and
  -- let `new` give blocks that lie apart. Then `insert` returns. Where the store holds a value
  -- for the key it is refused with `key_exists`; where it holds none, the new store is as
  -- required of a store, and `fetch` gives the new value for the key and what it gave before for
  -- every other key of that size.
  pub insert-Updates :
      (buf q fuel place0 place1 size : ℕ) (s : Store F) (key content : List ℕ) (vs : List Value)
      → IsStore ops laws s
      → (listed : Listed ops laws s (index_of hasher s key) vs) → InFile ops laws s.df s.key_size vs
      → spills ops laws listed < fuel
      → length key ≡ s.key_size
      → IsPlace s.p1.arena place0 s.key_size
      → ((a : Arena) (p : ℕ)
          → alloc s.p1.arena place0 s.key_size ≡ some (p, a)
          → IsPlace a place1 size)
      → let before = value ops laws hasher s vs key in
        let done = insert ops hasher buf q fuel place0 place1 s key content size in
        ((is_some before ≡ true) × (done ≡ some (err key_exists)))
        ⊎ ((before ≡ none)
            × ((s' : Store F) × (done ≡ some (ok (some s'))) × Updates s key content s'))
  unfolding insert
  insert-Updates buf q fuel place0 place1 size s key content vs v listed inside enough k first
        second =
      let there = (stored_lem ops laws hasher buf q fuel s key vs v listed inside enough).1 in
      let in_pool = in_pools-pooled s key in
      let bytes = laws.bytes s.df in
      elim (Option-cases (pooled s key)) [
        | inr (d, found) ↦
            inl (rw (← pooled-held s key, found) refl, rw (v.running, insert, in_pool, found) refl)
        | inl absent ↦
            elim (Option-cases (find_value bytes s.key_size (hash_of hasher s key) key vs)) [
              | inr (d, found) ↦ inl (
                rw (← pooled-held s key, absent, found) refl,
                rw (v.running, insert, in_pool, absent, there, found) refl,
              )
              | inl missing ↦
                  let (p, put, got) =
                    insert-Inserts s.p1 place0 place1 (hash_of hasher s key) size key content
                      v.second (rw v.second_keys k) (not_pooled s key absent)
                      (rw v.second_keys first) (rw v.second_keys second) in
                  inr (
                    rw (← pooled-held s key, absent, missing) refl,
                    (
                      record s { p1 = p },
                      insert_put buf q fuel place0 place1 size s p key content v.running
                          (rw absent at in_pool) (rw missing at there) put,
                      with_pool s p _ v got,
                    ),
                  )
            ]
      ]
