-- ===== src/Verify.antt =====
-- impl/verify.ipp: the checks and counts of a data file and a key file. The progress callback and
-- the `float` members of `verify_info` are not modelled.
pub mod Normal
pub mod Fast
pub mod Choice
pub mod Seek
pub mod Search
pub mod Values
pub mod Counts
use nu_db.Prelude.{
  ℕ, zero, suc, ◌+◌, ◌-◌, ◌*◌, ◌<◌, Bool, true, false, not, none, some, List, [], ◌∷◌, length, leb,
  ltb, ◌==◌, if◌then◌else◌,
}
use nu_db.Error.{Error, Result, ok, err, thrown, orphaned_value, short_spill}
use nu_db.Error
use nu_db.Memory.{Memory}
use nu_db.File.{FileOps}
use nu_db.Field.{u16, u48, size}
use nu_db.Bucket.{Bucket, at, actual_size, lower_bound, read_file}
use nu_db.Recover.{is_short}
use nu_db.Run.{Run, once, ◌>>=◌}

-- What is measured, with the local `fetches`
pub record Info : Type 0 where
  pub key_count : ℕ
  pub value_count : ℕ
  pub value_bytes : ℕ
  pub spill_count : ℕ
  pub spill_count_tot : ℕ
  pub spill_bytes : ℕ
  pub spill_bytes_tot : ℕ
  pub hist : List ℕ
  pub fetches : ℕ

-- `if(ec == error::short_read) { ec = e; return; } if(ec) return;`
unfoldable pub short_as : {A : Type 0} → Error → Result A → Result A
unfolding is_short
short_as e (ok a) = ok a
short_as e (err code) = err (if is_short code then e else code)
short_as e thrown = thrown

-- The bytes of a spill record
abbrev pub spill_size : Bucket → ℕ
spill_size b = size u48 + size u16 + actual_size b

-- A used spill is counted.
unfoldable pub count_spill : Bucket → Info → Info
count_spill b s = record s {
  spill_count = s.spill_count + 1;
  spill_bytes = s.spill_bytes + spill_size b;
}

-- `++hist[nspill]`, where the last place stands for all larger numbers
unfoldable pub add_at : ℕ → List ℕ → List ℕ
add_at n [] = []
add_at zero (x ∷ xs) = (x + 1) ∷ xs
add_at (suc n) (x ∷ xs) = x ∷ (add_at n xs)

unfoldable pub count_chain : ℕ → Info → Info
count_chain nspill s =
    let n = if leb (length s.hist) nspill then length s.hist - 1 else nspill in
    record s { hist = add_at n s.hist }

-- The loop over the entries of a bucket from i on: whether one has the hash and the offset, and
-- `fetches`. The fuel is the number of entries behind i.
unfoldable pub seek_entries : ℕ → Memory → Bucket → ℕ → ℕ → ℕ → ℕ → Result (Bool × ℕ)
seek_entries zero m b h offset i fetches = ok (false, fetches)
seek_entries (suc fuel) m b h offset i fetches = elim (at m b i) [
  | err e ↦ err e
  | thrown ↦ thrown
  | ok item ↦
      let rest = seek_entries fuel m b h offset (i + 1) (fetches + 1) in
      if not (item.hash == h)
      then ok (false, fetches)
      else (if item.offset == offset then ok (true, fetches) else rest)
]

module _ {F : Type 0} (ops : FileOps F) (df : F) where
  -- The loop over a bucket and its spills, which are read to the address q: the memory and
  -- `fetches` where an entry is found. The fuel is the number of buckets.
  unfoldable pub seek_chain : ℕ → ℕ → ℕ → ℕ → Memory → Bucket → ℕ → Run (Memory × ℕ)
  unfolding seek_entries short_as
  seek_chain zero q h offset m b fetches = none
  seek_chain (suc fuel) q h offset m b fetches = do
    let i = lower_bound m b h
    (found, f) ← some (seek_entries (b.size - i) m b h offset i fetches)
    if found
        then once (m, f)
        else (if b.spill == 0 then some (err orphaned_value) else do
          (b', m') ← some (short_as short_spill (read_file ops df m (record b { p = q }) b.spill))
          seek_chain fuel q h offset m' b' (f + 1))
