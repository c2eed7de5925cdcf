-- ===== src/Pool/Finds.antt =====
-- The pool as a map from keys to items.
use nu_db.Prelude.{ℕ, ◌+◌, ◌≡◌, ◌≢◌, refl, none, some, List, [], ◌∷◌, length, Ordering, arith}
use nu_db.Arena.{Arena, alloc}
use nu_db.Arena.Disjoint.{IsArena, IsPlace, Taken, alloc-Allocates}
use nu_db.Arena.Clear.{clear-IsArena}
use nu_db.Pool.{Item, Pool, memcmp, lookup, emplace, find, insert, clear}
use nu_db.Pool.Order.{memcmp_refl, eq_of_memcmp, gt_of_memcmp_lt, lt_of_memcmp_gt, memcmp_trans}

-- The key comes before all keys of the list.
abbrev pub Before : List ℕ → List (Item × ℕ) → Type 0
Before key [] = Unit {0}
Before key ((e, o) ∷ rest) = (memcmp key e.key ≡ Ordering.lt) × Before key rest

-- Keys of one length, each before those that follow it.
abbrev pub IsOrdered : ℕ → List (Item × ℕ) → Type 0
IsOrdered n [] = Unit {0}
IsOrdered n ((e, o) ∷ rest) = (length e.key ≡ n) × Before e.key rest × IsOrdered n rest

abbrev pub total : List (Item × ℕ) → ℕ
total [] = 0
total ((e, o) ∷ rest) = e.size + total rest

pub record IsPool (p : Pool) : Type 0 where
  pub ordered : IsOrdered p.key_size p.map
  pub counted : p.data_size ≡ total p.map
  pub arena : IsArena p.arena

-- One more pair, and all other keys as before.
pub record Inserts (p : Pool) (e : Item) (p' : Pool) : Type 0 where
  pub pool : IsPool p'
  pub there : find p' e.key ≡ some (e, 0)
  pub others : (j : List ℕ) → length j ≡ p.key_size → j ≢ e.key → find p' j ≡ find p j
  pub data_size : p'.data_size ≡ p.data_size + e.size
  pub key_size : p'.key_size ≡ p.key_size

Before-trans :
    (j k : List ℕ) (es : List (Item × ℕ)) → memcmp j k ≡ Ordering.lt → Before k es → Before j es
Before-trans j k [] lt b = tt
Before-trans j k ((e, o) ∷ es) lt b = (memcmp_trans j k e.key lt b.0, Before-trans j k es lt b.1)

Before-emplace :
    (k : List ℕ) (e : Item) (o : ℕ) (es : List (Item × ℕ))
    → memcmp k e.key ≡ Ordering.lt
    → Before k es
    → Before k (emplace e o es)
unfolding emplace
Before-emplace k e o [] lt b = (lt, tt)
Before-emplace k e o ((d, q) ∷ es) lt b = ground (arith, Before-emplace k e o es lt b.1)

emplace-IsOrdered :
    (n : ℕ) (e : Item) (o : ℕ) (es : List (Item × ℕ))
    → length e.key ≡ n
    → IsOrdered n es
    → IsOrdered n (emplace e o es)
unfolding emplace
emplace-IsOrdered n e o [] h v = (h, tt, tt)
emplace-IsOrdered n e o ((d, q) ∷ es) h v = ground (
  arith,
  emplace-IsOrdered n e o es h v.2,
  Before-emplace d.key e o es,
  lt_of_memcmp_gt d.key e.key,
  Before-trans e.key d.key es,
)

lookup-emplace_self :
    (e : Item) (o : ℕ) (es : List (Item × ℕ))
    → lookup e.key es ≡ none
    → lookup e.key (emplace e o es) ≡ some (e, o)
unfolding lookup emplace
lookup-emplace_self e o [] h = ground (arith, memcmp_refl e.key)
lookup-emplace_self e o ((d, q) ∷ es) h =
    ground (arith, memcmp_refl e.key, lookup-emplace_self e o es)

total-emplace :
    (e : Item) (o : ℕ) (es : List (Item × ℕ))
    → lookup e.key es ≡ none
    → total (emplace e o es) ≡ e.size + total es
unfolding lookup emplace
total-emplace e o [] h = refl
total-emplace e o ((d, q) ∷ es) h = ground (arith, total-emplace e o es)

lookup-emplace_ne :
    (n : ℕ) (e : Item) (o : ℕ) (es : List (Item × ℕ)) (j : List ℕ)
    → length e.key ≡ n
    → length j ≡ n
    → IsOrdered n es
    → j ≢ e.key
    → lookup j (emplace e o es) ≡ lookup j es
unfolding lookup emplace
lookup-emplace_ne n e o [] j k l v ne =
    ground (arith, eq_of_memcmp e.key j, λ (p : j ≡ e.key). ne p)
lookup-emplace_ne n e o ((d, q) ∷ es) j k l v ne = ground (
  arith,
  lookup-emplace_ne n e o es j k l v.2 ne,
  eq_of_memcmp e.key j,
  lt_of_memcmp_gt e.key j,
  lt_of_memcmp_gt d.key e.key,
  memcmp_trans j e.key d.key,
  gt_of_memcmp_lt j d.key,
)

-- `insert` of a key that is not there, where `new` gives blocks that lie apart, adds the pair, and
-- leaves every other key as it was; the pool stays in order and its data size is the sum of the
-- sizes of its items.
pub insert-Inserts :
    (p : Pool) (place0 place1 h size : ℕ) (key content : List ℕ)
    → IsPool p
    → length key ≡ p.key_size
    → find p key ≡ none
    → IsPlace p.arena place0 p.key_size
    → ((a : Arena) (q : ℕ) → alloc p.arena place0 p.key_size ≡ some (q, a) → IsPlace a place1 size)
    → (p' : Pool) × (insert p place0 place1 h key content size ≡ some p')
      × Inserts p (record { hash = h; size = size; key = key; content = content }) p'
unfolding insert find
insert-Inserts p place0 place1 h size key content v k new first second =
    let e : Item = record { hash = h; size = size; key = key; content = content } in
    let (q, a, done, got) = alloc-Allocates p.arena place0 p.key_size v.arena first in
    let (q', a', done', got') = alloc-Allocates a place1 size got.arena (second a q done) in
    let p' : Pool = record p {
      arena = a';
      data_size = p.data_size + size;
      map = emplace e 0 p.map;
    } in
    (
      p',
      rw (done, insert) (rw (done', insert) refl),
      record {
        pool = record {
          ordered = emplace-IsOrdered p.key_size e 0 p.map k v.ordered;
          counted = omega (arith, v.counted, total-emplace e 0 p.map new);
          arena = got'.arena;
        };
        there = lookup-emplace_self e 0 p.map new;
        others = λ j l ne. lookup-emplace_ne p.key_size e 0 p.map j k l v.ordered ne;
        data_size = refl;
        key_size = refl;
      },
    )

-- `clear` leaves an ordered pool with no keys, no data, and no byte of the arena in use.
pub clear-IsPool :
    (p : Pool)
    → IsPool p
    → IsPool (clear p)
      × ((j : List ℕ) → find (clear p) j ≡ none)
      × ((clear p).data_size ≡ 0)
      × ((x : ℕ) → ¬ (Taken (clear p).arena.used x))
unfolding clear find lookup
clear-IsPool p v =
    let (arena, unused, _) = clear-IsArena p.arena v.arena in
    (record { ordered = tt; counted = refl; arena = arena }, λ j. refl, refl, unused)
