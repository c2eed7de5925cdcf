-- ===== src/Tests/Buckets.antt =====
-- A bucket of 200 bytes at address 16 of a memory full of sevens.
use nu_db.Prelude.{ℕ, ◌+◌, ◌≤◌, ◌<◌, ◌^◌, ◌≡◌, refl, ◌⊎◌, [], ◌∷◌, map, arith, true, false}
use nu_db.Error.{ok}
use nu_db.Memory.{Memory, poke, copy, fill}
use nu_db.Field.{readp, writep}
use nu_db.Format.{bucket_capacity}
use nu_db.Bucket.{Bucket, update, clear, create, lower_loop, lower_bound, insert, erase, full}
use nu_db.Bucket.Blob.{create-IsBucket}
use nu_db.Bucket.Entries.{entry_at, entries_from, entries}
use nu_db.Bucket.LowerBound.{IsLowerBound, lower_bound-IsLowerBound}
use nu_db.Bucket.Insert.{IsBucket, insert_entry}
use nu_db.Bucket.Insert.Refines.{entries-insert, insert-IsBucket}
use nu_db.Bucket.Erase.{erase_entry, entries-erase, erase-IsBucket}
use nu_db.Spill.Record.{Spills, maybe_spill-total}
use nu_db.BulkIo.{Writer, writer}
use nu_db.Spill.{maybe_spill}
use nu_db.Tests.Device.{Device, blank, device, device_laws}

abbrev sevens : Memory
sevens x = 7

abbrev Loaded : Type 0
Loaded = Bucket × Memory

-- 5 entries fit.
first_block : Loaded
first_block = create sevens 200 16

first_block-IsBucket : IsBucket first_block.1 first_block.0
unfolding first_block
first_block-IsBucket = (create-IsBucket sevens 200 16 (omega arith) (omega arith)).0

one : Loaded
one = insert first_block.1 first_block.0 1000 50 77

insert-IsBucket_example :
    let r = insert first_block.1 first_block.0 1000 50 77 in
    IsBucket r.1 r.0
    × ((x : ℕ)
        → (x < first_block.0.p) ⊎ (first_block.0.p + first_block.0.block_size ≤ x)
        → r.1 x ≡ first_block.1 x)
insert-IsBucket_example =
    insert-IsBucket first_block.1 first_block.0 1000 50 77 first_block-IsBucket
      (unfold first_block create clear full bucket_capacity in refl) (omega arith) (omega arith)
      (omega arith)

entries-insert_example :
    let r = insert one.1 one.0 2000 60 33 in
    entries r.1 r.0
    ≡ insert_entry (record { offset = 2000; hash = 33; size = 60 }) (entries one.1 one.0)
unfolding one
entries-insert_example =
    entries-insert one.1 one.0 2000 60 33 insert-IsBucket_example.0.sorted (omega arith)
      (omega arith) (omega arith)

one_size : 0 < one.0.size
unfolding one insert first_block create clear
one_size = omega arith

entries-erase_example :
    let r = erase one.1 one.0 0 in entries r.1 r.0 ≡ erase_entry 0 (entries one.1 one.0)
entries-erase_example = entries-erase one.1 one.0 0 one_size

erase-IsBucket_example :
    let r = erase one.1 one.0 0 in
    IsBucket r.1 r.0
    × ((x : ℕ) → (x < one.0.p) ⊎ (one.0.p + one.0.block_size ≤ x) → r.1 x ≡ one.1 x)
unfolding one
erase-IsBucket_example = erase-IsBucket one.1 one.0 0 insert-IsBucket_example.0 one_size

lower_bound-IsLowerBound_example : IsLowerBound one.1 one.0 50 (lower_bound one.1 one.0 50)
unfolding one
lower_bound-IsLowerBound_example =
    lower_bound-IsLowerBound one.1 one.0 50 insert-IsBucket_example.0.sorted

-- A run: three insertions come out in the order of their hashes, and one is erased.
abbrev three : Loaded
three = let (b1, m1) = insert one.1 one.0 2000 60 33 in insert m1 b1 3000 70 55

program : Unit {0}
unfolding first_block one create clear insert erase update lower_bound lower_loop entry_at
    entries_from readp writep poke copy fill
program = tt

three_hashes : map (λ v. v.hash) (entries three.1 three.0) ≡ 33 ∷ 55 ∷ 77 ∷ []
unfolding program
three_hashes = refl

after_erase :
    map (λ v. v.offset) (let r = erase three.1 three.0 1 in entries r.1 r.0) ≡ 2000 ∷ 1000 ∷ []
unfolding program
after_erase = refl

-- A block of the least size is full with five entries.
put : Loaded → ℕ → Loaded
put l h = insert l.1 l.0 1000 50 h

put-IsBucket :
    (l : Loaded) (h : ℕ)
    → IsBucket l.1 l.0
    → full l.0 ≡ false
    → h < 2 ^ 48
    → IsBucket (put l h).1 (put l h).0
unfolding put
put-IsBucket l h v f lt = (insert-IsBucket l.1 l.0 1000 50 h v f (omega arith) (omega arith) lt).0

five : Loaded
unfolding put
five = put (put (put (put (put (create sevens 104 0) 5) 4) 9) 1) 7

five-IsBucket : IsBucket five.1 five.0
unfolding five full bucket_capacity insert create clear
five-IsBucket =
    put-IsBucket _ 7
      (put-IsBucket _ 1
        (put-IsBucket _ 9
          (put-IsBucket _ 4
            (put-IsBucket _ 5 (create-IsBucket sevens 104 0 (omega arith) (omega arith)).0 refl
              (omega arith))
            refl (omega arith))
          refl (omega arith))
        refl (omega arith))
      refl (omega arith)

abbrev empty_writer : Writer Device
empty_writer = writer sevens blank 92 64

maybe_spill-total_example :
    (r : Bucket × Memory × Writer Device) × (maybe_spill device sevens five.1 five.0 empty_writer
      ≡ ok r)
    × (((full five.0 ≡ true)
          × Spills device device_laws sevens five.1 five.0 empty_writer r.1 r.0 r.2)
        ⊎ ((full five.0 ≡ false) × (r ≡ (five.0, five.1, empty_writer))))
maybe_spill-total_example =
    maybe_spill-total device device_laws sevens five.1 five.0 empty_writer five-IsBucket
      (unfold writer in omega arith) (λ p bs. (_, refl))
