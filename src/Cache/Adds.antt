-- ===== src/Cache/Adds.antt =====
-- A bucket put into a cache: it is found from then on, and the others stay.
use nu_db.Prelude.{
  ℕ, ◌+◌, ◌≤◌, ◌<◌, ◌≡◌, ◌≢◌, ◌⊎◌, refl, ap, subst, inl, inr, none, some, Option-cases, arith, leb,
  ltb, Bool-cases,
}
use nu_db.Error.{ok}
use nu_db.Memory.{Memory, copy}
use nu_db.Arena.{Arena}
use nu_db.Arena.Disjoint.{Taken, alloc-Allocates, IsPlace}
use nu_db.Format.{bucket_size}
use nu_db.Bucket.{Bucket, load, actual_size, write_stream}
use nu_db.Bucket.Entries.{entries}
use nu_db.Bucket.Insert.{IsBucket}
use nu_db.Bucket.Blob.{load-IsBucket}
use nu_db.Bucket.Transfer.{Holds, there-IsBucket, size_there, spill_there, body_there}
use nu_db.Bucket.Writes.{copy_inside, copy_outside}
use nu_db.Cache.{Cache, lookup, emplace, find, insert}
use nu_db.Cache.Holds.{
  IsCache, Copies-kept, load-lookup, fresh-ApartAll, Copies-emplace, emplace-AreApart,
  emplace-IsOrdered, lookup-emplace_ne, lookup-emplace_self,
}

not_found : (m : Memory) (c : Cache) (n : ℕ) → find m c n ≡ none → lookup n c.map ≡ none
unfolding find
not_found m c n h = ground arith

-- A bucket is copied to memory that is not in use, so what is in use stays.
copy-Fresh :
    (m : Memory) (a : Arena) (p : ℕ) (b : Bucket)
    → IsBucket m b
    → ((x : ℕ) → p ≤ x → x < p + b.block_size → ¬ (Taken a.used x))
    → (x : ℕ) → Taken a.used x
    → copy m p m b.p (actual_size b) x ≡ m x
copy-Fresh m a p b v fresh x t = copy_outside m p m b.p (actual_size b) x side
  where
    fits : actual_size b ≤ b.block_size
    fits = unfold actual_size bucket_size in v.room

    side : (x < p) ⊎ (p + actual_size b ≤ x)
    side = elim (Bool-cases (ltb x p)) [
      | inl before ↦ inl (ground arith)
      | inr not_before ↦ elim (Bool-cases (leb (p + actual_size b) x)) [
        | inl after ↦ inr (ground arith)
        | inr not_after ↦ absurd (fresh x (ground arith) (ground (arith, fits)) t)
      ]
    ]

find-emplace_ne :
    (m m' : Memory) (c : Cache) (a : Arena) (n p j : ℕ)
    → j ≢ n
    → IsCache m c
    → ((x : ℕ) → Taken c.arena.used x → m' x ≡ m x)
    → find m' (record c { arena = a; map = (emplace n p c.map).1 }) j ≡ find m c j
unfolding find
find-emplace_ne m m' c a n p j ne v same =
    let others = lookup-emplace_ne n p j c.map ne v.ordered in
    elim (Option-cases (lookup j c.map))
      as (λ _. find m' (record c { arena = a; map = (emplace n p c.map).1 }) j ≡ find m c j) [
        | inl missing ↦ (rw (others, missing, find) refl)
        | inr (r, there) ↦
            (rw (others, there, find)
              (ap some (load-lookup m m' c.arena c.block_size j r c.map same v.copies there)))
      ]

-- The cache after a bucket was added: it is found, in memory of its own, and nothing else has
-- changed.
pub record Adds (m : Memory) (c : Cache) (n : ℕ) (b : Bucket) (m' : Memory) (c' : Cache)
    (d : Bucket) : Type 0 where
  pub cache : IsCache m' c'
  pub found : find m' c' n ≡ some (ok d)
  pub bucket : IsBucket m' d
  pub spill : d.spill ≡ b.spill
  pub same : entries m' d ≡ entries m b
  pub others : (j : ℕ) → j ≢ n → find m' c' j ≡ find m c j
  pub outside : (x : ℕ) → Taken c.arena.used x → m' x ≡ m x
  pub block_size : c'.block_size ≡ c.block_size

-- `insert` of a well-formed bucket of the cache's block size, at an index that is not there and
-- where `new` gives blocks that lie apart, gives the bucket that is found from then on at the
-- index: a well-formed copy with the same entries and spill, in memory of its own. What is found
-- at every other index is as it was.
pub insert-Adds :
    (m : Memory) (c : Cache) (place n : ℕ) (b : Bucket)
    → IsCache m c
    → IsBucket m b
    → b.block_size ≡ c.block_size
    → find m c n ≡ none
    → IsPlace c.arena place b.block_size
    → (d : Bucket) × (m' : Memory) × (c' : Cache) × (insert m c place n b ≡ some (ok d, m', c'))
      × Adds m c n b m' c' d
unfolding insert find write_stream
insert-Adds m c place n b v is_bucket same_size new fresh =
    let (p, a, done, got) = alloc-Allocates c.arena place b.block_size v.arena fresh in
    let d = record b { p = p } in
    let m' = copy m p m b.p (actual_size b) in
    let held : Holds m b m' p = λ k lt. copy_inside m p m b.p (actual_size b) k lt in
    let there =
      there-IsBucket m m' b p is_bucket (body_there m m' b p is_bucket held)
        (size_there m m' b p is_bucket held) (spill_there m m' b p is_bucket held) in
    let missing : lookup n c.map ≡ none = not_found m c n new in
    let (is_there, address) = lookup-emplace_self n p c.map missing in
    let outside : (x : ℕ) → Taken c.arena.used x → m' x ≡ m x =
      copy-Fresh m c.arena p b is_bucket got.fresh in
    let loaded : load m' c.block_size p ≡ ok d = rw (← same_size) (load-IsBucket m' d there.0) in
    let c' : Cache = record c { arena = a; map = (emplace n p c.map).1 } in
    (
      d,
      m',
      c',
      rw (done, insert) (rw (address, loaded) refl),
      record {
        cache = record {
          arena = got.arena;
          ordered = emplace-IsOrdered n p c.map v.ordered;
          copies =
              Copies-emplace m' a c.block_size n p c.map
                (record {
                  count = b.size;
                  link = b.spill;
                  bucket =
                      subst
                        (λ size.
                          IsBucket m'
                            (record { block_size = size; size = b.size; spill = b.spill; p = p }))
                        same_size there.0;
                  taken = λ x lo hi. got.taken x lo (omega (arith, same_size));
                })
                (Copies-kept m m' c.arena a c.block_size c.map outside got.kept v.copies);
          apart =
              emplace-AreApart c.block_size n p c.map
                (fresh-ApartAll m c.arena c.block_size p c.map
                  (omega (arith, same_size, is_bucket.room))
                  (λ x lo hi. got.fresh x lo (omega (arith, same_size))) v.copies)
                v.apart;
        };
        found = rw (is_there, find) (rw loaded refl);
        bucket = there.0;
        spill = refl;
        same = there.1;
        others = λ j ne. find-emplace_ne m m' c a n p j ne v outside;
        outside = outside;
        block_size = refl;
      },
    )
