-- ===== src/PosixFile/Read.antt =====
-- The loop of `posix_file::read` returns, and what it has stored is what the file holds.
use nu_db.Prelude.{
  ℕ, zero, suc, ◌+◌, ◌-◌, ◌<◌, ◌≤◌, min, ◌≡◌, ◌≢◌, refl, sym, ◌∙◌, List, [], ◌∷◌, ◌++◌, length,
  ◌==◌, arith, Bool-cases, inl, inr, ap,
}
use mathlib.Core.Option.{some}
use nu_db.Error.{ok, err, short_read, os}
use nu_db.Memory.{Memory}
use nu_db.Stream.{blob}
use nu_db.PosixFile.{Answer, moved, failed, System, SystemLaws, Outcome, attach, resume, read}

blob_append : (m : Memory) (p a b : ℕ) → blob m p (a + b) ≡ blob m p a ++ blob m (p + a) b
unfolding blob
blob_append m p zero b =
    let e : zero + b ≡ b = omega arith in let f : p + zero ≡ p = omega arith in rw (e, f) refl
blob_append m p (suc a) b =
    let e : suc a + b ≡ suc (a + b) = omega arith in
    let f : p + suc a ≡ p + 1 + a = omega arith in rw (e, f, blob_append m (p + 1) a b) refl

module _ {W : Type 0} (sys : System W) (laws : SystemLaws sys) where
  -- The ways in which `read` returns: with all the bytes, which the file has; with `short_read`,
  -- where the file has fewer; or with an error of the system, which is not an interruption.
  pub data Returns (w : W) (offset bytes : ℕ) : Outcome W → Type 0 where
    all :
        (w' : W) (bs : List ℕ)
        → bs ≡ blob (laws.bytes w) offset bytes
        → (0 < bytes → offset + bytes ≤ laws.extent w)
        → Returns w offset bytes (some (ok (bs, w')))
    short : laws.extent w < offset + bytes → Returns w offset bytes (some (err short_read))
    error : (ev : ℕ) → ev ≢ sys.eintr → Returns w offset bytes (some (err (os ev)))

  -- A call that changes nothing of the file comes before.
  same_file :
      (w v : W) (offset bytes : ℕ) {o : Outcome W}
      → laws.bytes v ≡ laws.bytes w
      → laws.extent v ≡ laws.extent w
      → Returns v offset bytes o
      → Returns w offset bytes o
  same_file w v offset bytes e f (all w' bs h k) =
      all w' bs (h ∙ ap (λ m. blob m offset bytes) e) (rw f at k)
  same_file w v offset bytes e f (short h) = short (rw f at h)
  same_file w v offset bytes e f (error ev h) = error ev h

  -- The bytes that a call gave come before the rest.
  after_bytes :
      (w : W) (offset bytes : ℕ) (cs : List ℕ) {o : Outcome W}
      → cs ≡ blob (laws.bytes w) offset (length cs)
      → length cs ≤ bytes
      → offset + length cs ≤ laws.extent w
      → Returns w (offset + length cs) (bytes - length cs) o
      → Returns w offset bytes (attach cs o)
  after_bytes w offset bytes cs given low inside (all w' bs h k) =
      let e : bytes ≡ length cs + (bytes - length cs) = omega arith in
      all w' (cs ++ bs)
        (ap (λ x. x ++ bs) given
          ∙ ap (λ x. blob (laws.bytes w) offset (length cs) ++ x) h
          ∙ sym (blob_append (laws.bytes w) offset (length cs) (bytes - length cs))
          ∙ ap (blob (laws.bytes w) offset) (sym e))
        (λ lt. ground arith)
  after_bytes w offset bytes cs given low inside (short h) = short (omega arith)
  after_bytes w offset bytes cs given low inside (error ev h) = error ev h

  -- A turn of the loop, where the turns that are left return.
  turn :
      (fuel : ℕ) (w : W) (offset bytes : ℕ)
      → 0 < bytes
      → bytes + laws.interruptions w ≤ suc fuel
      → ((v : W) (o n : ℕ) → n + laws.interruptions v ≤ fuel → Returns v o n (read sys fuel v o n))
      → (r : Answer × W) → sys.pread w offset (min bytes sys.ssize_max) ≡ r
      → Returns w offset bytes (resume sys (read sys fuel) offset bytes r)
  turn fuel w offset bytes pos low rest (moved [], v) e =
      short (omega (arith, laws.ends w v offset _ e (omega (arith, laws.ssize_max_pos))))
  turn fuel w offset bytes pos low rest (moved (b ∷ bs), v) e =
      let (given, fits, inside) = laws.gives w v offset _ b bs e in
      let (bytes_same, extent_same, fewer) = laws.keeps w v offset _ _ e in
      after_bytes w offset bytes (b ∷ bs) given (omega arith) inside (
        same_file w v _ _ bytes_same extent_same
          (rest v (offset + length (b ∷ bs)) (bytes - length (b ∷ bs)) (omega arith)))
  turn fuel w offset bytes pos low rest (failed ev, v) e = elim (Bool-cases (ev == sys.eintr)) [
    | inl interrupted ↦
        let same : ev ≡ sys.eintr = ground arith in
        let fewer = laws.interrupts w v offset _ (rw same at e) in
        let (bytes_same, extent_same, _) = laws.keeps w v offset _ _ e in
        rw interrupted
          (same_file w v offset bytes bytes_same extent_same (rest v offset bytes (omega arith)))
    | inr other ↦ rw other (error ev (λ same. ground (arith, same)))
  ]

  -- With fuel for each byte and each interruption `read` returns: with all the bytes of the range,
  -- which the file has; with `short_read`, where the range goes past the end of the file; or with
  -- an error of the system that is not an interruption.
  pub read-Returns :
      (fuel : ℕ) (w : W) (offset bytes : ℕ)
      → bytes + laws.interruptions w ≤ fuel
      → Returns w offset bytes (read sys fuel w offset bytes)
  unfolding read blob
  read-Returns fuel w offset zero h = all w [] refl (λ lt. absurd (omega arith))
  read-Returns zero w offset (suc bytes) h = absurd (omega arith)
  read-Returns (suc fuel) w offset (suc bytes) h =
      turn fuel w offset (suc bytes) (omega arith) h (read-Returns fuel) _ refl
