-- ===== src/Pool.antt =====
-- detail/pool.hpp: the pairs that were inserted and are not yet committed, in the order of their
-- keys. `std::map` is a list in order; the bytes behind the pointers of an item, which are never
-- written again, are lists.
pub mod Order
pub mod Finds
use nu_db.Prelude.{ℕ, ◌+◌, Bool, Option, none, some, List, [], ◌∷◌, length, ◌==◌, compare, Ordering}
use nu_db.Error.{Result, ok, thrown}
use nu_db.Arena.{Arena, alloc, arena}
use nu_db.Arena

-- `memcmp` of two keys, which have as many bytes
unfoldable pub memcmp : List ℕ → List ℕ → Ordering
memcmp [] ys = Ordering.eq
memcmp (x ∷ xs) [] = Ordering.gt
memcmp (x ∷ xs) (y ∷ ys) = elim (compare x y) [
  | Ordering.lt ↦ Ordering.lt
  | Ordering.eq ↦ memcmp xs ys
  | Ordering.gt ↦ Ordering.gt
]

-- `pool_t::value_type`
pub record Item : Type 0 where
  pub hash : ℕ
  pub size : ℕ
  pub key : List ℕ
  pub content : List ℕ

-- `pool_t`; an item goes with its offset in the data file.
pub record Pool : Type 0 where
  pub arena : Arena
  pub key_size : ℕ
  pub data_size : ℕ
  pub map : List (Item × ℕ)

-- `pool_t(key_size, alloc_size)`
unfoldable pub pool : ℕ → ℕ → Result Pool
unfolding arena
pool key_size alloc_size = elim (arena alloc_size) [
  | ok a ↦ ok (record { arena = a; key_size = key_size; data_size = 0; map = [] })
  | _ ↦ thrown
]

-- `map_.find`
unfoldable pub lookup : List ℕ → List (Item × ℕ) → Option (Item × ℕ)
lookup key [] = none
lookup key ((e, offset) ∷ rest) = elim (memcmp e.key key) [
  | Ordering.lt ↦ lookup key rest
  | Ordering.eq ↦ some (e, offset)
  | Ordering.gt ↦ none
]

-- `map_.emplace`, which leaves a pair with an equal key alone
unfoldable pub emplace : Item → ℕ → List (Item × ℕ) → List (Item × ℕ)
emplace e offset [] = (e, offset) ∷ []
emplace e offset ((d, o) ∷ rest) = elim (memcmp d.key e.key) [
  | Ordering.lt ↦ (d, o) ∷ emplace e offset rest
  | Ordering.eq ↦ (d, o) ∷ rest
  | Ordering.gt ↦ (e, offset) ∷ (d, o) ∷ rest
]

-- `find`
unfoldable pub find : Pool → List ℕ → Option (Item × ℕ)
unfolding lookup
find p key = lookup key p.map

-- `empty` and `size`
abbrev pub size : Pool → ℕ
size p = length p.map

unfoldable pub is_empty : Pool → Bool
is_empty p = size p == 0

-- `insert`, where `new` puts blocks at the two places if it is called
unfoldable pub insert : Pool → ℕ → ℕ → ℕ → List ℕ → List ℕ → ℕ → Option Pool
unfolding emplace
insert p place0 place1 h key content size = elim (alloc p.arena place0 p.key_size) [
  | none ↦ none
  | some (_, a) ↦ elim (alloc a place1 size) [
    | none ↦ none
    | some (_, a') ↦ some (record p {
      arena = a';
      data_size = p.data_size + size;
      map = emplace (record { hash = h; size = size; key = key; content = content }) 0 p.map;
    })
  ]
]

-- `clear`
unfoldable pub clear : Pool → Pool
clear p = record p { arena = Arena.clear p.arena; data_size = 0; map = [] }

-- `shrink_to_fit`
unfoldable pub shrink_to_fit : Pool → Pool
shrink_to_fit p = record p { arena = Arena.shrink_to_fit p.arena }

-- `swap`
unfoldable pub swap : Pool → Pool → Pool × Pool
swap lhs rhs = (rhs, lhs)
