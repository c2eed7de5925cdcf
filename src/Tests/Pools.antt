-- ===== src/Tests/Pools.antt =====
-- An arena, a pool and a cache that are filled.
use nu_db.Prelude.{ℕ, ◌≡◌, refl, some, [], ◌∷◌, arith, inl, inr}
use nu_db.Arena.{Arena, Element, alloc, clear}
use nu_db.Arena
use nu_db.Arena.Disjoint.{IsPlace, IsArena, Allocates, alloc-Allocates}
use nu_db.Pool.{Pool, Item, find, insert}
use nu_db.Pool
use nu_db.Pool.Finds.{IsPool, Inserts, insert-Inserts}

-- A block of 76 bytes at 124, of which 16 are in use, and an unused one at 324.
abbrev blocks : Arena
blocks = record {
  alloc_size = 100;
  used = record { base = 124; capacity = 76; used = 16 } ∷ [];
  free = record { base = 324; capacity = 76; used = 0 } ∷ [];
}

blocks-IsArena : IsArena blocks
blocks-IsArena = record {
  blocks = (omega arith, (inl (omega arith), tt), (omega arith, tt, tt));
  unused = (refl, tt);
}

alloc-Allocates_example :
    (p : ℕ) × (a' : Arena) × (alloc blocks 500 30 ≡ some (p, a')) × Allocates blocks 30 p a'
alloc-Allocates_example =
    alloc-Allocates blocks 500 30 blocks-IsArena (inr (omega arith), (inr (omega arith), tt))

-- A pool of keys of two bytes, with one pair.
abbrev first : Item
first = record { hash = 7; size = 3; key = 1 ∷ 9 ∷ []; content = 5 ∷ 5 ∷ 5 ∷ [] }

abbrev pairs : Pool
pairs = record { arena = blocks; key_size = 2; data_size = 3; map = (first, 0) ∷ [] }

pairs-IsPool : IsPool pairs
pairs-IsPool = record { ordered = (refl, tt, tt); counted = refl; arena = blocks-IsArena }

abbrev second : Item
second = record { hash = 8; size = 1; key = 1 ∷ 4 ∷ []; content = 6 ∷ [] }

-- The key takes 8 bytes of the first block.
after_key : Arena
after_key = record blocks { used = record { base = 124; capacity = 76; used = 24 } ∷ [] }

second-IsPlace : (a : Arena) (q : ℕ) → alloc blocks 500 2 ≡ some (q, a) → IsPlace a 700 1
second-IsPlace a q e =
    let here : alloc blocks 500 2 ≡ some (140, after_key) =
      unfold after_key alloc Arena.alloc_used Arena.take_first Arena.take_bytes in refl in
    let same : a ≡ after_key = cc in
    rw same (unfold after_key in (inr (omega arith), (inr (omega arith), tt)))

insert-Inserts_example :
    (p' : Pool) × (insert pairs 500 700 8 (1 ∷ 4 ∷ []) (6 ∷ []) 1 ≡ some p')
    × Inserts pairs second p'
insert-Inserts_example =
    insert-Inserts pairs 500 700 8 1 (1 ∷ 4 ∷ []) (6 ∷ []) pairs-IsPool refl
      (unfold find Pool.lookup Pool.memcmp in refl) (inr (omega arith), (inr (omega arith), tt))
      second-IsPlace
