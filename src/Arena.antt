-- ===== src/Arena.antt =====
-- detail/arena.hpp: memory that is allocated in large blocks and given back all at once. An
-- address is a number; where `new` puts a block is an argument.
pub mod Disjoint
pub mod Clear
use nu_db.Prelude.{
  ℕ, ◌+◌, ◌-◌, ◌*◌, ◌/◌, max, Option, none, some, List, [], ◌∷◌, ltb, leb, if◌then◌else◌,
}
use nu_db.Error.{Result, ok, thrown}

-- `arena_t::element`: a block, by the address of the bytes behind its header.
pub record Element : Type 0 where
  pub base : ℕ
  pub capacity : ℕ
  pub used : ℕ

-- `sizeof(element)`: two numbers and a pointer of 64 bits
abbrev pub element_size : ℕ
element_size = 24

-- `arena_t`: the lists that start at `used_` and `free_`.
pub record Arena : Type 0 where
  pub alloc_size : ℕ
  pub used : List Element
  pub free : List Element

-- The constructor; an error is thrown.
unfoldable pub arena : ℕ → Result Arena
arena alloc_size =
    if leb alloc_size element_size
    then thrown
    else ok (record { alloc_size = alloc_size; used = []; free = [] })

-- `element::remain`
abbrev pub remain : Element → ℕ
remain e = e.capacity - e.used

-- `element::alloc`; `none` is the null pointer.
unfoldable pub take_bytes : Element → ℕ → Option (ℕ × Element)
take_bytes e n =
    if ltb (remain e) n then none else some (e.base + e.used, record e { used = e.used + n })

-- `element::alloc` on the first block of `used_`
unfoldable pub take_first : ℕ → Element → List Element → List Element → ℕ → Option (ℕ × Arena)
unfolding take_bytes
take_first alloc_size e es free n = elim (take_bytes e n) [
  | none ↦ none
  | some (p, e') ↦ some (p, record { alloc_size = alloc_size; used = e' ∷ es; free = free })
]

-- `n = 8 * ((n + 7) / 8)`
abbrev pub rounded : ℕ → ℕ
rounded n = 8 * ((n + 7) / 8)

-- The block that `new` makes at an address, with its header.
abbrev pub new_element : ℕ → ℕ → Element
new_element place size = record {
  base = place + element_size;
  capacity = size - element_size;
  used = 0;
}

-- The last lines of `alloc`: a new block
unfoldable pub alloc_new : Arena → ℕ → ℕ → Option (ℕ × Arena)
unfolding take_first
alloc_new a place n =
    take_first a.alloc_size (new_element place (max a.alloc_size (element_size + n))) a.used a.free
      n

-- The block in front of `free_`, if it has room
unfoldable pub alloc_free : ℕ → List Element → List Element → ℕ → ℕ → Option (ℕ × Arena)
unfolding alloc_new take_first
alloc_free alloc_size used [] place n =
    alloc_new (record { alloc_size = alloc_size; used = used; free = [] }) place n
alloc_free alloc_size used (e ∷ free) place n =
    if leb n (remain e)
    then take_first alloc_size e used free n
    else alloc_new (record { alloc_size = alloc_size; used = used; free = e ∷ free }) place n

-- `alloc`, for a number of bytes that is rounded up
unfoldable pub alloc_used : ℕ → List Element → List Element → ℕ → ℕ → Option (ℕ × Arena)
unfolding alloc_free take_first
alloc_used alloc_size [] free place n = alloc_free alloc_size [] free place n
alloc_used alloc_size (e ∷ used) free place n =
    if leb n (remain e)
    then take_first alloc_size e used free n
    else alloc_free alloc_size (e ∷ used) free place n

-- `alloc`
unfoldable pub alloc : Arena → ℕ → ℕ → Option (ℕ × Arena)
unfolding alloc_used
alloc a place n = alloc_used a.alloc_size a.used a.free place (rounded n)

-- The loop of `clear`: the blocks go to the front of `free_`, one by one.
unfoldable pub move_blocks : List Element → List Element → List Element
move_blocks [] free = free
move_blocks (e ∷ used) free = move_blocks used (record e { used = 0 } ∷ free)

-- `clear`
unfoldable pub clear : Arena → Arena
unfolding move_blocks
clear a = record a { used = []; free = move_blocks a.used a.free }

-- `shrink_to_fit`
unfoldable pub shrink_to_fit : Arena → Arena
shrink_to_fit a = record a { free = [] }

-- The move constructor: the new arena, and what is left of the other.
unfoldable pub move_arena : Arena → Arena × Arena
move_arena other = (other, record other { used = []; free = [] })

-- `swap`
unfoldable pub swap : Arena → Arena → Arena × Arena
swap lhs rhs = (rhs, lhs)
