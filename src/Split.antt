-- ===== src/Split.antt =====
-- impl/basic_store.ipp, split: the entries of a bucket that belong to a new one move there. The
-- buckets are views of one memory.
pub mod Moves
pub mod Divides
use nu_db.Prelude.{
  ℕ, zero, suc, ◌+◌, ◌-◌, Bool, true, false, not, Option, none, some, ltb, ◌==◌, if◌then◌else◌,
}
use nu_db.Error.{Result, ok, err, thrown, ◌>>=◌}
use nu_db.Memory.{Memory}
use nu_db.Format.{bucket_size, bucket_capacity}
use nu_db.File.{FileOps}
use nu_db.Bucket.{Bucket, Value, at, insert, erase, empty, set_spill, bucket_index, read_file}
use nu_db.BulkIo.{Writer, tail, flush}
use nu_db.Spill.{maybe_spill}

-- `n == n2` for the index of an entry
abbrev pub goes : ℕ → ℕ → ℕ → Value → Bool
goes n2 buckets modulus e = bucket_index e.hash buckets modulus == n2

-- The two buckets, the memory, and the index of the loop.
pub record Halves : Type 0 where
  pub b1 : Bucket
  pub b2 : Bucket
  pub memory : Memory
  pub index : ℕ

-- One turn of the loop over the entries of b1
unfoldable pub move_entry : Bool → Value → Halves → Halves
move_entry moves e s =
    if moves
    then (let (b2, m) = insert s.memory s.b2 e.offset e.size e.hash in
        let (b1, m') = erase m s.b1 s.index in record s { b1 = b1; b2 = b2; memory = m' })
    else record s { index = s.index + 1 }

-- The loop; the fuel is the number of entries behind the index.
unfoldable pub move_entries : (Value → Bool) → ℕ → Halves → Result Halves
unfolding move_entry
move_entries moves zero s = ok s
move_entries moves (suc fuel) s =
    if ltb s.index s.b1.size
    then (do e ← at s.memory s.b1 s.index; move_entries moves fuel (move_entry (moves e) e s))
    else ok s

module _ {F : Type 0} (ops : FileOps F) (fresh : Memory) where
  -- One turn of the loop over the entries of a spill
  unfoldable pub put_entry : Bool → Value → Halves × Writer F → Result (Halves × Writer F)
  unfolding maybe_spill
  put_entry moves e (s, w) =
      if moves
      then (do
        (b2, m, v) ← maybe_spill ops fresh s.memory s.b2 w
        let (b, n) = insert m b2 e.offset e.size e.hash
        ok (record s { b2 = b; memory = n }, v))
      else (do
        (b1, m, v) ← maybe_spill ops fresh s.memory s.b1 w
        let (b, n) = insert m b1 e.offset e.size e.hash
        ok (record s { b1 = b; memory = n }, v))

  -- The loop over the entries of a spill in `tmp` from i on, with their number as fuel
  unfoldable pub put_entries :
      (Value → Bool) → ℕ → Bucket → ℕ → Halves × Writer F → Result (Halves × Writer F)
  unfolding put_entry
  put_entries moves zero tmp i (s, w) = ok (s, w)
  put_entries moves (suc fuel) tmp i (s, w) = do
    e ← at s.memory tmp i
    r ← put_entry (moves e) e (s, w)
    put_entries moves fuel tmp (i + 1) r

  -- `flush` if any part of the spill record is in the write buffer
  unfoldable pub flush_before : ℕ → ℕ → Writer F → Result (Writer F)
  flush_before spill capacity w =
      if ltb (tail w - w.used) (spill + bucket_size capacity) then flush ops fresh w else ok w

  -- A turn of the loop over the spills, which gives the next spill
  unfoldable pub put_spill :
      (Value → Bool) → Bucket → ℕ → Halves × Writer F → Result (ℕ × (Halves × Writer F))
  unfolding flush_before put_entries
  put_spill moves tmp spill (s, w) = do
    v ← flush_before spill (bucket_capacity tmp.block_size) w
    (t, m) ← read_file ops v.file s.memory tmp spill
    r ← put_entries moves t.size t 0 (record s { memory = m }, v)
    ok (t.spill, r)

  -- The loop over the spills; the fuel is their number, and `none` is that it ran out.
  unfoldable pub put_spills :
      (Value → Bool) → ℕ → Bucket → ℕ → Halves × Writer F → Option (Result (Halves × Writer F))
  unfolding put_spill
  put_spills moves zero tmp spill r = none
  put_spills moves (suc fuel) tmp spill r = elim (put_spill moves tmp spill r) [
    | err e ↦ some (err e)
    | thrown ↦ some thrown
    | ok (next, r') ↦ if next == 0 then some (ok r') else put_spills moves fuel tmp next r'
  ]

  -- `split(b1, b2, tmp, n1, n2, buckets, modulus, w, ec)`
  unfoldable pub split :
      ℕ
      → Memory
      → Bucket
      → Bucket
      → Bucket
      → ℕ
      → ℕ
      → ℕ
      → Writer F
      → Option (Result (Halves × Writer F))
  unfolding move_entries put_spills
  split fuel m b1 b2 tmp n2 buckets modulus w =
      let moves = goes n2 buckets modulus in
      let start : Halves = record { b1 = b1; b2 = b2; memory = m; index = 0 } in
      if empty b1 then some (ok (start, w)) else elim (move_entries moves b1.size start) [
        | err e ↦ some (err e)
        | thrown ↦ some thrown
        | ok s ↦
            if s.b1.spill == 0
            then some (ok (s, w))
            else (let (b, n) = set_spill s.memory s.b1 0 in
                put_spills moves fuel tmp s.b1.spill (record s { b1 = b; memory = n }, w))
      ]
