-- ===== src/Cache.antt =====
-- detail/cache.hpp: copies of buckets in memory, by the index of the bucket. The map of
-- `boost::container::flat_map` is a list in order of its keys.
pub mod Holds
pub mod Adds
use nu_db.Prelude.{ℕ, ◌*◌, Bool, Option, none, some, List, [], ◌∷◌, length, ◌==◌, compare, Ordering}
use nu_db.Error.{Result, ok, thrown}
use nu_db.Memory.{Memory}
use nu_db.Stream.{Ostream}
use nu_db.Arena.{Arena, alloc, arena}
use nu_db.Arena
use nu_db.Bucket.{Bucket, load, write_stream}
use nu_db.Bucket

-- `cache_t`, with the address of each copy.
pub record Cache : Type 0 where
  pub key_size : ℕ
  pub block_size : ℕ
  pub arena : Arena
  pub map : List (ℕ × ℕ)

-- `cache_t(key_size, block_size)`
unfoldable pub cache : ℕ → ℕ → Result Cache
unfolding arena
cache key_size block_size = elim (arena (block_size * 64)) [
  | ok a ↦ ok (record { key_size = key_size; block_size = block_size; arena = a; map = [] })
  | _ ↦ thrown
]

-- `cache_t()`: a cache that will never have inserts
unfoldable pub no_cache : Result Cache
unfolding arena
no_cache = elim (arena 32) [
  | ok a ↦ ok (record { key_size = 0; block_size = 0; arena = a; map = [] })
  | _ ↦ thrown
]

-- `map_.find`
unfoldable pub lookup : ℕ → List (ℕ × ℕ) → Option ℕ
lookup n [] = none
lookup n ((k, p) ∷ rest) = elim (compare k n) [
  | Ordering.lt ↦ lookup n rest
  | Ordering.eq ↦ some p
  | Ordering.gt ↦ none
]

-- `map_.emplace`, and the address that the key has then
unfoldable pub emplace : ℕ → ℕ → List (ℕ × ℕ) → ℕ × List (ℕ × ℕ)
emplace n p [] = (p, (n, p) ∷ [])
emplace n p ((k, q) ∷ rest) = elim (compare k n) [
  | Ordering.lt ↦ (let (r, es) = emplace n p rest in (r, (k, q) ∷ es))
  | Ordering.eq ↦ (q, (k, q) ∷ rest)
  | Ordering.gt ↦ (p, (n, p) ∷ (k, q) ∷ rest)
]

-- `empty`
unfoldable pub is_empty : Cache → Bool
is_empty c = length c.map == 0

-- `find`, and the bucket that the iterator stands for; `none` is the end.
unfoldable pub find : Memory → Cache → ℕ → Option (Result Bucket)
unfolding lookup
find m c n = elim (lookup n c.map) [ none ↦ none | some p ↦ some (load m c.block_size p) ]

-- `create`, where `new` puts a block at the place if it is called
unfoldable pub create : Memory → Cache → ℕ → ℕ → Option (Bucket × Memory × Cache)
unfolding emplace
create m c place n = elim (alloc c.arena place c.block_size) [
  | none ↦ none
  | some (p, a) ↦
      let (b, m') = Bucket.create m c.block_size p in
      some (b, m', record c { arena = a; map = (emplace n p c.map).1 })
]

-- `insert`, and the bucket that the iterator stands for
unfoldable pub insert : Memory → Cache → ℕ → ℕ → Bucket → Option (Result Bucket × Memory × Cache)
unfolding emplace write_stream
insert m c place n b = elim (alloc c.arena place b.block_size) [
  | none ↦ none
  | some (p, a) ↦
      let (_, m') = write_stream (record { buf = p; written = 0 }) m m b in
      let (q, es) = emplace n p c.map in
      some (load m' c.block_size q, m', record c { arena = a; map = es })
]

-- `clear`, `shrink_to_fit` and `swap`
unfoldable pub clear : Cache → Cache
clear c = record c { arena = Arena.clear c.arena; map = [] }

unfoldable pub shrink_to_fit : Cache → Cache
shrink_to_fit c = record c { arena = Arena.shrink_to_fit c.arena }

unfoldable pub swap : Cache → Cache → Cache × Cache
swap lhs rhs = (rhs, lhs)
