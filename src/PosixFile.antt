-- ===== src/PosixFile.antt =====
-- impl/posix_file.ipp: the loops of `read` and `write` around the system's `pread` and `pwrite`,
-- which may move fewer bytes than they were asked for, and may be interrupted.
pub mod Read
pub mod Write
use nu_db.Prelude.{
  ℕ, zero, suc, ◌+◌, ◌-◌, ◌<◌, ◌≤◌, min, ◌≡◌, List, [], ◌∷◌, ◌++◌, length, take, drop, ◌==◌,
  if◌then◌else◌,
}
use mathlib.Core.Option.{Option, none, some}
use nu_db.Error.{Result, ok, err, short_read, os}
use nu_db.Memory.{Memory}
use nu_db.Stream.{blob, store}

-- What a system call answers: the bytes that it gave, or the error number.
pub data Answer : Type 0 where
  moved : List ℕ → Answer
  failed : ℕ → Answer

-- The operating system in a state of the type W: `pread(offset, amount)`, and its constants.
pub record System (W : Type 0) : Type 0 where
  pub pread : W → ℕ → ℕ → Answer × W
  pub eintr : ℕ
  pub ssize_max : ℕ

-- What POSIX says of `pread` on a regular file. The interruptions that are still to come are
-- finitely many.
pub record SystemLaws {W : Type 0} (sys : System W) : Type 0 where
  pub bytes : W → Memory
  pub extent : W → ℕ
  pub interruptions : W → ℕ
  pub ssize_max_pos : 0 < sys.ssize_max
  pub gives :
      (w w' : W) (offset amount b : ℕ) (bs : List ℕ)
      → sys.pread w offset amount ≡ (moved (b ∷ bs), w')
      → (b ∷ bs ≡ blob (bytes w) offset (length (b ∷ bs)))
        × (length (b ∷ bs) ≤ amount)
        × (offset + length (b ∷ bs) ≤ extent w)
  pub ends :
      (w w' : W) (offset amount : ℕ)
      → sys.pread w offset amount ≡ (moved [], w')
      → 0 < amount
      → extent w ≤ offset
  pub keeps :
      (w w' : W) (offset amount : ℕ) (a : Answer)
      → sys.pread w offset amount ≡ (a, w')
      → (bytes w' ≡ bytes w) × (extent w' ≡ extent w) × (interruptions w' ≤ interruptions w)
  pub interrupts :
      (w w' : W) (offset amount : ℕ)
      → sys.pread w offset amount ≡ (failed sys.eintr, w')
      → interruptions w' < interruptions w

-- How a call ends, with the bytes that it stored; `none` where it has not returned.
abbrev pub Outcome : Type 0 → Type 0
Outcome W = Option (Result (List ℕ × W))

-- The bytes that are stored behind those that are there.
abbrev pub attach : {W : Type 0} → List ℕ → Outcome W → Outcome W
attach bs (some (ok (cs, w))) = some (ok (bs ++ cs, w))
attach bs (some r) = some r
attach bs none = none

module _ {W : Type 0} (sys : System W) where
  -- The body of the loop behind `pread`.
  abbrev pub resume : (W → ℕ → ℕ → Outcome W) → ℕ → ℕ → Answer × W → Outcome W
  resume loop offset bytes (failed ev, w) =
      let again = loop w offset bytes in if ev == sys.eintr then again else some (err (os ev))
  resume loop offset bytes (moved [], w) = some (err short_read)
  resume loop offset bytes (moved (b ∷ bs), w) =
      attach (b ∷ bs) (loop w (offset + length (b ∷ bs)) (bytes - length (b ∷ bs)))

  -- `posix_file::read`. Each turn but an interrupted one gives a byte at least, so that the
  -- number of bytes and of interruptions together is enough fuel.
  unfoldable pub read : ℕ → W → ℕ → ℕ → Outcome W
  read fuel w offset zero = some (ok ([], w))
  read zero w offset (suc bytes) = none
  read (suc fuel) w offset (suc bytes) =
      resume (read fuel) offset (suc bytes) (sys.pread w offset (min (suc bytes) sys.ssize_max))

-- What `pwrite` answers: the number of bytes that it took, or the error number.
pub data Taken : Type 0 where
  took : ℕ → Taken
  refused : ℕ → Taken

-- The system as a writer: `pwrite(offset, bytes)`.
pub record Sink (W : Type 0) : Type 0 where
  pub pwrite : W → ℕ → List ℕ → Taken × W
  pub eintr : ℕ
  pub ssize_max : ℕ

-- What POSIX says of `pwrite` on a regular file: of bytes that are to be written it takes one at
-- least, from the first on.
pub record SinkLaws {W : Type 0} (sys : Sink W) : Type 0 where
  pub bytes : W → Memory
  pub interruptions : W → ℕ
  pub ssize_max_pos : 0 < sys.ssize_max
  pub takes :
      (w w' : W) (offset n : ℕ) (bs : List ℕ)
      → sys.pwrite w offset bs ≡ (took n, w')
      → 0 < length bs
      → (0 < n)
        × (n ≤ length bs)
        × (bytes w' ≡ store (bytes w) offset (take n bs))
        × (interruptions w' ≤ interruptions w)
  pub interrupts :
      (w w' : W) (offset : ℕ) (bs : List ℕ)
      → sys.pwrite w offset bs ≡ (refused sys.eintr, w')
      → (bytes w' ≡ bytes w) × (interruptions w' < interruptions w)

module _ {W : Type 0} (sys : Sink W) where
  -- The body of the loop behind `pwrite`.
  abbrev pub go_on :
      (W → ℕ → List ℕ → Option (Result W)) → ℕ → List ℕ → Taken × W → Option (Result W)
  go_on loop offset bs (refused ev, w) =
      let again = loop w offset bs in if ev == sys.eintr then again else some (err (os ev))
  go_on loop offset bs (took n, w) = loop w (offset + n) (drop n bs)

  -- `posix_file::write`, on fuel for each byte and each interruption.
  unfoldable pub write : ℕ → W → ℕ → List ℕ → Option (Result W)
  write fuel w offset [] = some (ok w)
  write zero w offset (b ∷ bs) = none
  write (suc fuel) w offset (b ∷ bs) =
      go_on (write fuel) offset (b ∷ bs)
        (sys.pwrite w offset (take (min (length (b ∷ bs)) sys.ssize_max) (b ∷ bs)))
