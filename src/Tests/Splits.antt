-- ===== src/Tests/Splits.antt =====
-- A bucket of two entries that is split between the indices 0 and 1.
use nu_db.Prelude.{ℕ, ◌≡◌, ◌==◌, refl, map, List, [], ◌∷◌, arith, some, inl}
use nu_db.Error.{Result, ok}
use nu_db.Memory.{Memory, poke, copy, fill}
use nu_db.Field.{readp, writep}
use nu_db.Format.{bucket_capacity}
use nu_db.Bucket.{
  Bucket, at, create, clear, insert, erase, update, full, lower_loop, lower_bound, bucket_index,
}
use nu_db.Bucket.Blob.{create-IsBucket}
use nu_db.Bucket.Entries.{entry_at, entries_from, entries}
use nu_db.Bucket.Insert.{IsBucket}
use nu_db.Bucket.Insert.Refines.{insert-IsBucket}
use nu_db.Bucket.Transfer.{same_bucket}
use nu_db.BulkIo.{writer}
use nu_db.Split.{Halves, split, move_entries, move_entry}
use nu_db.Split.Moves.{Fit}
use nu_db.Split.Divides.{Divides, split-Divides}
use nu_db.Tests.Device.{blank, device}

abbrev ones : Memory
ones x = 1

abbrev empty_block : Bucket × Memory
empty_block = create ones 200 16

one : Bucket × Memory
one = insert empty_block.1 empty_block.0 1000 50 76

two : Bucket × Memory
two = insert one.1 one.0 2000 60 77

one-IsBucket : IsBucket one.1 one.0
unfolding one
one-IsBucket =
    (insert-IsBucket empty_block.1 empty_block.0 1000 50 76
      (create-IsBucket ones 200 16 (omega arith) (omega arith)).0
      (unfold create clear full bucket_capacity in refl) (omega arith) (omega arith)
      (omega arith)).0

two-IsBucket : IsBucket two.1 two.0
unfolding two
two-IsBucket =
    (insert-IsBucket one.1 one.0 2000 60 77 one-IsBucket
      (unfold one insert create clear full bucket_capacity in refl) (omega arith) (omega arith)
      (omega arith)).0

-- The new bucket, behind the other
new : Bucket × Memory
new = create two.1 200 300

new-IsBucket : IsBucket new.1 new.0
unfolding new
new-IsBucket = (create-IsBucket two.1 200 300 (omega arith) (omega arith)).0

-- The first bucket, which the new one leaves alone
first-IsBucket : IsBucket new.1 two.0
unfolding new two one insert create clear
first-IsBucket =
    (same_bucket two.1 new.1 two.0 two-IsBucket (λ x lo hi.
      (create-IsBucket two.1 200 300 (omega arith) (omega arith)).2 x (inl (omega arith)))).0

computed : Unit {0}
unfolding new two one create clear insert update lower_bound lower_loop entry_at entries_from readp
    writep poke copy fill erase move_entries move_entry
computed = tt

two-Fit : Fit (entries new.1 two.0)
unfolding computed
two-Fit = ((omega arith, omega arith, omega arith), ((omega arith, omega arith, omega arith), tt))

split-Divides_example :
    (r : Halves) × (split device ones 0 new.1 two.0 new.0 new.0 1 2 2 (writer ones blank 92 64)
      ≡ some (ok (r, writer ones blank 92 64)))
    × Divides 1 2 2 new.1 two.0 new.0 r
split-Divides_example =
    split-Divides device ones 0 new.1 two.0 new.0 new.0 1 2 2 (writer ones blank 92 64)
      first-IsBucket new-IsBucket (unfold computed in inl (omega arith)) (unfold computed in refl)
      two-Fit (unfold computed bucket_capacity in omega arith)

-- The entry with an odd hash moves.
hashes : Result Halves → List ℕ × List ℕ
hashes (ok s) =
    (map (λ v. v.hash) (entries s.memory s.b1), map (λ v. v.hash) (entries s.memory s.b2))
hashes _ = ([], [])

odd_moves :
    hashes (
      move_entries
        (λ e. bucket_index e.hash 2 2 == 1)
        2
        (record { b1 = two.0; b2 = new.0; memory = new.1; index = 0 }))
    ≡ (76 ∷ [], 77 ∷ [])
unfolding computed bucket_index hashes at
odd_moves = refl
