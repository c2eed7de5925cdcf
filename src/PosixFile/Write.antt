-- ===== src/PosixFile/Write.antt =====
-- The loop of `posix_file::write` returns, and what it was given stands in the file.
use nu_db.Prelude.{
  ℕ, zero, suc, ◌+◌, ◌<◌, ◌≤◌, min, ◌≡◌, ◌≢◌, refl, ◌∙◌, List, [], ◌∷◌, length, take, drop,
  length-drop, length-take, ◌==◌, arith, Bool-cases, inl, inr, ap,
}
use mathlib.Core.Option.{Option, some}
use nu_db.Error.{Result, ok, err, os}
use nu_db.Memory.{Memory, poke}
use nu_db.Stream.{store}
use nu_db.PosixFile.{Taken, took, refused, Sink, SinkLaws, go_on, write}

-- A store in two parts.
store-take :
    (m : Memory) (p n : ℕ) (bs : List ℕ)
    → store (store m p (take n bs)) (p + n) (drop n bs) ≡ store m p bs
unfolding store
store-take m p zero bs = let e : p + zero ≡ p = omega arith in rw e refl
store-take m p (suc n) [] = refl
store-take m p (suc n) (b ∷ bs) =
    let e : p + suc n ≡ p + 1 + n = omega arith in rw e (store-take (poke m p b) (p + 1) n bs)

-- The first bytes of the first bytes.
take-take : (n k : ℕ) (bs : List ℕ) → n ≤ k → take n (take k bs) ≡ take n bs
take-take zero k bs h = refl
take-take (suc n) zero bs h = absurd (omega arith)
take-take (suc n) (suc k) [] h = refl
take-take (suc n) (suc k) (b ∷ bs) h = ap (λ xs. b ∷ xs) (take-take n k bs (omega arith))

module _ {W : Type 0} (sys : Sink W) (laws : SinkLaws sys) where
  -- The ways in which `write` returns: with the bytes in the file and the rest of it as it was,
  -- or with an error of the system, which is not an interruption.
  pub data Returns (w : W) (offset : ℕ) (bs : List ℕ) : Option (Result W) → Type 0 where
    all :
        (v : W) → laws.bytes v ≡ store (laws.bytes w) offset bs → Returns w offset bs (some (ok v))
    error : (ev : ℕ) → ev ≢ sys.eintr → Returns w offset bs (some (err (os ev)))

  same_file :
      (w v : W) (offset : ℕ) (bs : List ℕ) {o : Option (Result W)}
      → laws.bytes v ≡ laws.bytes w
      → Returns v offset bs o
      → Returns w offset bs o
  same_file w v offset bs e (all u h) = all u (h ∙ ap (λ m. store m offset bs) e)
  same_file w v offset bs e (error ev h) = error ev h

  after_bytes :
      (w v : W) (offset n : ℕ) (bs : List ℕ) {o : Option (Result W)}
      → laws.bytes v ≡ store (laws.bytes w) offset (take n bs)
      → Returns v (offset + n) (drop n bs) o
      → Returns w offset bs o
  after_bytes w v offset n bs e (all u h) =
      all u
        (h ∙ ap (λ m. store m (offset + n) (drop n bs)) e ∙ store-take (laws.bytes w) offset n bs)
  after_bytes w v offset n bs e (error ev h) = error ev h

  -- A turn of the loop, where the turns that are left return.
  turn :
      (fuel : ℕ) (w : W) (offset : ℕ) (bs : List ℕ)
      → 0 < length bs
      → length bs + laws.interruptions w ≤ suc fuel
      → ((v : W) (o : ℕ) (cs : List ℕ)
          → length cs + laws.interruptions v ≤ fuel
          → Returns v o cs (write sys fuel v o cs))
      → (r : Taken × W) → sys.pwrite w offset (take (min (length bs) sys.ssize_max) bs) ≡ r
      → Returns w offset bs (go_on sys (write sys fuel) offset bs r)
  turn fuel w offset bs pos low rest (took n, v) e =
      let k = min (length bs) sys.ssize_max in
      let size = length-take k bs in
      let (some_byte, fits, stored, fewer) =
        laws.takes w v offset n (take k bs) e (omega (arith, size, laws.ssize_max_pos)) in
      let inside : n ≤ k = omega (arith, size) in
      after_bytes w v offset n bs
        (stored ∙ ap (store (laws.bytes w) offset) (take-take n k bs inside))
        (rest v (offset + n) (drop n bs) (omega (arith, length-drop n bs, size)))
  turn fuel w offset bs pos low rest (refused ev, v) e = elim (Bool-cases (ev == sys.eintr)) [
    | inl interrupted ↦
        let same : ev ≡ sys.eintr = ground arith in
        let (bytes_same, fewer) = laws.interrupts w v offset _ (rw same at e) in
        rw interrupted (same_file w v offset bs bytes_same (rest v offset bs (omega arith)))
    | inr other ↦ rw other (error ev (λ same. ground (arith, same)))
  ]

  -- With fuel for each byte and each interruption `write` returns: with the bytes in the file from
  -- the offset on, and the rest of the file as it was; or with an error of the system that is not
  -- an interruption.
  pub write-Returns :
      (fuel : ℕ) (w : W) (offset : ℕ) (bs : List ℕ)
      → length bs + laws.interruptions w ≤ fuel
      → Returns w offset bs (write sys fuel w offset bs)
  unfolding write store
  write-Returns fuel w offset [] h = all w refl
  write-Returns zero w offset (b ∷ bs) h = absurd (omega arith)
  write-Returns (suc fuel) w offset (b ∷ bs) h =
      turn fuel w offset (b ∷ bs) (omega arith) h (write-Returns fuel) _ refl
