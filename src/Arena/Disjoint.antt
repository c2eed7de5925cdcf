-- ===== src/Arena/Disjoint.antt =====
-- Allocations lie inside their blocks and never overlap.
use nu_db.Prelude.{
  ℕ, ◌+◌, ◌≤◌, ◌<◌, max, ◌≡◌, refl, ◌⊎◌, inl, inr, Option, some, List, [], ◌∷◌, ◌++◌, ltb, leb,
  false, arith, Bool-cases,
}
use nu_db.Arena.{
  Element, Arena, element_size, remain, take_first, rounded, new_element, alloc_new, alloc_free,
  alloc_used, alloc,
}

-- The bytes of a block that are handed out.
abbrev pub Within : Element → ℕ → Type 0
Within e x = (e.base ≤ x) × (x < e.base + e.used)

-- A byte that some block of the list has handed out.
abbrev pub Taken : List Element → ℕ → Type 0
Taken [] x = ⊥
Taken (e ∷ es) x = Within e x ⊎ Taken es x

-- Two blocks have no byte in common.
abbrev pub Apart : Element → Element → Type 0
Apart d e = (d.base + d.capacity ≤ e.base) ⊎ (e.base + e.capacity ≤ d.base)

abbrev pub ApartAll : Element → List Element → Type 0
ApartAll d [] = Unit {0}
ApartAll d (e ∷ es) = Apart d e × ApartAll d es

-- Blocks that lie apart, with no more bytes used than they have.
abbrev pub IsBlocks : List Element → Type 0
IsBlocks [] = Unit {0}
IsBlocks (e ∷ es) = (e.used ≤ e.capacity) × ApartAll e es × IsBlocks es

abbrev pub IsUnused : List Element → Type 0
IsUnused [] = Unit {0}
IsUnused (e ∷ es) = (e.used ≡ 0) × IsUnused es

-- The blocks of the two lists lie apart, and those of the free list are not in use.
pub record IsArena (a : Arena) : Type 0 where
  pub blocks : IsBlocks (a.used ++ a.free)
  pub unused : IsUnused a.free

-- What an allocation of n bytes at p does: they were not in use, they are now, and so is what was.
pub record Allocates (a : Arena) (n p : ℕ) (a' : Arena) : Type 0 where
  pub arena : IsArena a'
  pub fresh : (x : ℕ) → p ≤ x → x < p + n → ¬ (Taken a.used x)
  pub taken : (x : ℕ) → p ≤ x → x < p + n → Taken a'.used x
  pub kept : (x : ℕ) → Taken a.used x → Taken a'.used x
  pub size : a'.alloc_size ≡ a.alloc_size

-- A block without its header.
abbrev pub block : ℕ → ℕ → Element
block place size = record { base = place; capacity = size; used = 0 }

-- `new` gives a block of its own, if the arena asks for one to allocate n bytes.
abbrev pub IsPlace : Arena → ℕ → ℕ → Type 0
IsPlace a place n =
    ApartAll (block place (max a.alloc_size (element_size + rounded n))) (a.used ++ a.free)

untaken :
    (e : Element) (es free : List Element) (x : ℕ)
    → ApartAll e (es ++ free)
    → IsBlocks (es ++ free)
    → e.base ≤ x
    → x < e.base + e.capacity
    → ¬ (Taken es x)
untaken e [] free x a v lo hi t = t
untaken e (d ∷ es) free x a v lo hi (inl w) = absurd (omega arith)
untaken e (d ∷ es) free x a v lo hi (inr t) = untaken e es free x a.1 v.2 lo hi t

pub Apart-sym : (d e : Element) → Apart d e → Apart e d
Apart-sym d e (inl a) = inr a
Apart-sym d e (inr a) = inl a

-- A block moves to the front.
ApartAll-front :
    (d : Element) (us : List Element) (e : Element) (free : List Element)
    → ApartAll d (us ++ e ∷ free)
    → ApartAll d (e ∷ us ++ free)
ApartAll-front d [] e free a = a
ApartAll-front d (u ∷ us) e free a =
    let rest = ApartAll-front d us e free a.1 in (rest.0, (a.0, rest.1))

IsBlocks-front :
    (us : List Element) (e : Element) (free : List Element)
    → IsBlocks (us ++ e ∷ free)
    → IsBlocks (e ∷ us ++ free)
IsBlocks-front [] e free v = v
IsBlocks-front (u ∷ us) e free v =
    let rest = IsBlocks-front us e free v.2 in
    let a = ApartAll-front u us e free v.1 in
    (rest.0, (Apart-sym u e a.0, rest.1), (v.0, a.1, rest.2))

-- A part of a block lies apart from what the block lies apart from.
pub ApartAll-within :
    (d e : Element) (es : List Element)
    → d.base ≤ e.base
    → e.base + e.capacity ≤ d.base + d.capacity
    → ApartAll d es
    → ApartAll e es
ApartAll-within d e [] p q a = tt
ApartAll-within d e (c ∷ es) p q a = (omega arith, ApartAll-within d e es p q a.1)

Allocates-in : {a a' : Arena} {p : ℕ} (n m : ℕ) → m ≤ n → Allocates a n p a' → Allocates a m p a'
Allocates-in n m le h = record {
  arena = h.arena;
  fresh = λ x lo hi. h.fresh x lo (omega arith);
  taken = λ x lo hi. h.taken x lo (omega arith);
  kept = h.kept;
  size = h.size;
}

-- The result of an allocation, and what it has done.
abbrev Done : Arena → ℕ → Option (ℕ × Arena) → Type 0
Done a n r = (p : ℕ) × (a' : Arena) × (r ≡ some (p, a')) × Allocates a n p a'

first_fresh :
    (e : Element) (es free : List Element) (n : ℕ)
    → IsBlocks ((e ∷ es) ++ free)
    → e.used + n ≤ e.capacity
    → (x : ℕ) → e.base + e.used ≤ x
    → x < e.base + e.used + n
    → ¬ (Taken (e ∷ es) x)
first_fresh e es free n v room x lo hi (inl w) = omega arith
first_fresh e es free n v room x lo hi (inr t) =
    untaken e es free x v.1 v.2 (omega arith) (omega arith) t

first_kept :
    (e : Element) (es : List Element) (n x : ℕ)
    → Taken (e ∷ es) x
    → Taken (record e { used = e.used + n } ∷ es) x
first_kept e es n x (inl w) = inl (omega arith, omega arith)
first_kept e es n x (inr t) = inr t

first_Done :
    (size : ℕ) (e : Element) (es free : List Element) (n : ℕ)
    → IsBlocks ((e ∷ es) ++ free)
    → IsUnused free
    → e.used + n ≤ e.capacity
    → Done
        (record { alloc_size = size; used = e ∷ es; free = free })
        n
        (take_first size e es free n)
unfolding take_first
first_Done size e es free n v unused room =
    let e' : Element = record e { used = e.used + n } in
    let enough : ltb (remain e) n ≡ false = ground arith in
    (
      e.base + e.used,
      record { alloc_size = size; used = e' ∷ es; free = free },
      rw (enough, take_first) refl,
      record {
        arena = record {
          blocks = (room, ApartAll-within e e' (es ++ free) (omega arith) (omega arith) v.1, v.2);
          unused = unused;
        };
        fresh = λ x lo hi. first_fresh e es free n v room x lo hi;
        taken = λ x lo hi. inl (omega arith, omega arith);
        kept = first_kept e es n;
        size = refl;
      },
    )

new_Done :
    (a : Arena) (place n : ℕ)
    → IsArena a
    → ApartAll (block place (max a.alloc_size (element_size + n))) (a.used ++ a.free)
    → Done a n (alloc_new a place n)
unfolding alloc_new
new_Done a place n v apart =
    let size = max a.alloc_size (element_size + n) in
    let e = new_element place size in
    let (p, a', done, h) =
      first_Done a.alloc_size e a.used a.free n
        (
          omega arith,
          ApartAll-within (block place size) e (a.used ++ a.free) (omega arith) (omega arith) apart,
          v.blocks,
        )
        v.unused (omega arith) in
    (
      p,
      a',
      done,
      record {
        arena = h.arena;
        fresh = λ x lo hi t. h.fresh x lo hi (inr t);
        taken = h.taken;
        kept = λ x t. h.kept x (inr t);
        size = h.size;
      },
    )

free_Done :
    (size : ℕ) (used free : List Element) (place n : ℕ)
    → IsBlocks (used ++ free)
    → IsUnused free
    → ApartAll (block place (max size (element_size + n))) (used ++ free)
    → Done
        (record { alloc_size = size; used = used; free = free })
        n
        (alloc_free size used free place n)
unfolding alloc_free
free_Done size used [] place n v unused apart =
    new_Done (record { alloc_size = size; used = used; free = [] }) place n
      (record { blocks = v; unused = unused }) apart
free_Done size used (e ∷ free) place n v unused apart = elim (Bool-cases (leb n (remain e))) [
  | inl room ↦
      let (p, a', done, h) =
        first_Done size e used free n (IsBlocks-front used e free v) unused.1 (ground arith) in
      (
        p,
        a',
        rw room done,
        record {
          arena = h.arena;
          fresh = λ x lo hi t. h.fresh x lo hi (inr t);
          taken = h.taken;
          kept = λ x t. h.kept x (inr t);
          size = h.size;
        },
      )
  | inr small ↦
      let (p, a', done, h) =
        new_Done (record { alloc_size = size; used = used; free = e ∷ free }) place n
          (record { blocks = v; unused = unused }) apart in
      (p, a', rw small done, h)
]

used_Done :
    (size : ℕ) (used free : List Element) (place n : ℕ)
    → IsBlocks (used ++ free)
    → IsUnused free
    → ApartAll (block place (max size (element_size + n))) (used ++ free)
    → Done
        (record { alloc_size = size; used = used; free = free })
        n
        (alloc_used size used free place n)
unfolding alloc_used
used_Done size [] free place n v unused apart = free_Done size [] free place n v unused apart
used_Done size (e ∷ used) free place n v unused apart = elim (Bool-cases (leb n (remain e))) [
  | inl room ↦
      let (p, a', done, h) = first_Done size e used free n v unused (ground arith) in
      (p, a', rw room done, h)
  | inr small ↦
      let (p, a', done, h) = free_Done size (e ∷ used) free place n v unused apart in
      (p, a', rw small done, h)
]

-- Where `new` gives a block that lies apart from those of the arena, `alloc` gives n bytes that
-- were not in use before and are then, it leaves what was in use in use, and the blocks stay
-- apart and are never overfull.
pub alloc-Allocates :
    (a : Arena) (place n : ℕ)
    → IsArena a
    → IsPlace a place n
    → (p : ℕ) × (a' : Arena) × (alloc a place n ≡ some (p, a')) × Allocates a n p a'
unfolding alloc
alloc-Allocates a place n v apart =
    let (p, a', done, h) =
      used_Done a.alloc_size a.used a.free place (rounded n) v.blocks v.unused apart in
    (p, a', done, Allocates-in (rounded n) n (omega arith) h)
