-- ===== src/BulkIo/Writing.antt =====
-- The writer seen as the file that it will leave: what is buffered counts as written.
use nu_db.Prelude.{
  ℕ, ◌+◌, ◌-◌, ◌≤◌, ◌<◌, ◌≡◌, refl, ap, ◌∙◌, ◌⊎◌, inl, inr, arith, ltb, leb, ◌&&◌, if◌then◌else◌,
  List, Bool-cases, subst, false, true,
}
use nu_db.Error.{ok, >>=-eq-ok, ok-injective}
use nu_db.Memory.{Memory}
use nu_db.Stream.{Ostream, blob}
use nu_db.Stream.Items.{store-blob, store_frame, length-blob}
use nu_db.File.{FileOps, FileLaws}
use nu_db.BulkIo.{Writer, tail, reserve, flush, prepare_write}

abbrev pub IsWriter : {F : Type 0} → Writer F → Type 0
IsWriter w = w.used ≤ w.buf.size

-- A place that is not in a range is before or behind it.
apart : (p x n : ℕ) → (leb p x && ltb x (p + n)) ≡ false → (x < p) ⊎ (p + n ≤ x)
apart p x n h = elim (Bool-cases (leb p x)) [
  | inl above ↦ inr (ground arith)
  | inr below ↦ inl (ground arith)
]

module _ {F : Type 0} (ops : FileOps F) (laws : FileLaws ops) (fresh : Memory) where
  -- The bytes of the file after a flush.
  unfoldable pub view : Writer F → Memory
  view w x =
      if leb w.offset x && ltb x (w.offset + w.used)
      then w.buf.bytes (x - w.offset)
      else laws.bytes w.file x

  -- The writer stands at the end of its file.
  abbrev pub IsAppending : Writer F → Type 0
  IsAppending w = laws.extent w.file ≡ w.offset

  -- A flush that succeeds has written what was buffered, and changes nothing of the view.
  pub record Flushes (w v : Writer F) : Type 0 where
    pub same : (x : ℕ) → view v x ≡ view w x
    pub written : (x : ℕ) → laws.bytes v.file x ≡ view w x
    pub tail_same : tail v ≡ tail w
    pub used : v.used ≡ 0
    pub size : v.buf.size ≡ w.buf.size
    pub appending : IsAppending w → IsAppending v

  flushed : Writer F → F → Writer F
  flushed w g = record w { file = g; offset = w.offset + w.used; used = 0 }

  flushed_bytes :
      (w : Writer F) (g : F)
      → ops.write w.file w.offset (blob w.buf.bytes 0 w.used) ≡ ok g
      → (x : ℕ) → laws.bytes g x ≡ view w x
  unfolding view
  flushed_bytes w g e x =
      let s = blob w.buf.bytes 0 w.used in
      let n = length-blob w.buf.bytes 0 w.used in
      elim (Bool-cases (leb w.offset x && ltb x (w.offset + w.used))) [
        | inl inside ↦
            let k = x - w.offset in
            let z : w.offset + k ≡ x = ground arith in
            let q : 0 + k ≡ k = omega arith in
            rw inside (
              laws.write_lem w.file w.offset s g e x
              ∙ rw (z, q) at
                  (store-blob (laws.bytes w.file) w.buf.bytes w.offset 0 w.used k (ground arith)))
        | inr outside ↦ rw outside (
            laws.write_lem w.file w.offset s g e x
            ∙ store_frame (laws.bytes w.file) w.offset s x (rw n (apart w.offset x w.used outside)))
      ]

  idle-Flushes : (w : Writer F) → w.used ≡ 0 → Flushes w w
  unfolding view
  idle-Flushes w e = record {
    same = λ x. refl;
    written = λ x. ground arith;
    tail_same = refl;
    used = e;
    size = refl;
    appending = λ h. h;
  }

  flushed-Flushes :
      (w : Writer F) (g : F)
      → ops.write w.file w.offset (blob w.buf.bytes 0 w.used) ≡ ok g
      → Flushes w (flushed w g)
  unfolding flushed
  flushed-Flushes w g e = record {
    same = λ x. unchanged (flushed_bytes w g e x);
    written = flushed_bytes w g e;
    tail_same = omega arith;
    used = refl;
    size = refl;
    appending = λ h.
        omega (arith, h, laws.write_extent w.file w.offset _ g e, length-blob w.buf.bytes 0 w.used);
  }
    where
      unchanged : {x : ℕ} → laws.bytes g x ≡ view w x → view (flushed w g) x ≡ view w x
      unchanged {x} h = unfold view flushed in ground arith

  -- Where `flush` succeeds, nothing is left in the buffer, the file has what was buffered, and the
  -- bytes of the file that was to be are the same as before.
  pub flush-Flushes : (w v : Writer F) → flush ops fresh w ≡ ok v → Flushes w v
  unfolding flush flushed
  flush-Flushes w v e = elim (Bool-cases (ltb 0 w.used)) [
    | inr idle ↦ subst (Flushes w) (ok-injective (rw idle at e)) (idle-Flushes w (ground arith))
    | inl busy ↦
        let (g, wrote, done) = >>=-eq-ok _ _ (rw busy at e) in
        subst (Flushes w) (ok-injective done) (flushed-Flushes w g wrote)
  ]

  -- Room for the next bytes at the end of what was written, whatever was done to make it.
  pub record Prepares (w : Writer F) (needed : ℕ) (os : Ostream) (v : Writer F) : Type 0 where
    pub room : IsWriter v
    pub start : v.offset + os.buf ≡ tail w
    pub none_yet : os.written ≡ 0
    pub used : v.used ≡ os.buf + needed
    pub before : (x : ℕ) → x < tail w → view v x ≡ view w x
    pub appending : IsAppending w → IsAppending v

  extended : Writer F → ℕ → Writer F
  extended v needed =
      let b = if ltb v.buf.size needed then reserve fresh v.buf needed else v.buf in
      record v { buf = b; used = v.used + needed }

  after_flush :
      (w v : Writer F) (needed : ℕ)
      → Flushes w v
      → Prepares w needed (record { buf = v.used; written = 0 }) (extended v needed)
  unfolding extended reserve view
  after_flush w v needed f = record {
    room = ground (arith, f.used);
    start = omega (arith, f.tail_same);
    none_yet = refl;
    used = refl;
    before = λ x lt. ground (arith, f.written x, f.tail_same, f.used);
    appending = f.appending;
  }

  with_room :
      (w : Writer F) (needed : ℕ)
      → w.used + needed ≤ w.buf.size
      → Prepares w needed (record { buf = w.used; written = 0 }) (extended w needed)
  unfolding extended reserve view
  with_room w needed h = record {
    room = ground arith;
    start = refl;
    none_yet = refl;
    used = refl;
    before = λ x lt. ground arith;
    appending = λ h. h;
  }

  -- Where `prepare` succeeds, the stream stands for the bytes behind all that was written so far,
  -- all of which stays as it was, and the buffer has room for them.
  pub prepare_write-Prepares :
      (w v : Writer F) (needed : ℕ) (os : Ostream)
      → prepare_write ops fresh w needed ≡ ok (os, v)
      → Prepares w needed os v
  unfolding prepare_write extended
  prepare_write-Prepares w v needed os e = elim (Bool-cases (ltb w.buf.size (w.used + needed))) [
    | inl more ↦
        let (u, flush_ok, done) = >>=-eq-ok _ _ (rw more at e) in
        subst (λ (x : Ostream × Writer F). Prepares w needed x.0 x.1) (ok-injective done)
          (after_flush w u needed (flush-Flushes w u flush_ok))
    | inr enough ↦
        subst (λ (x : Ostream × Writer F). Prepares w needed x.0 x.1)
          (ok-injective (rw enough at e)) (with_room w needed (ground arith))
  ]

  -- Every write to the file succeeds.
  abbrev pub Writes : F → Type 0
  Writes f = (p : ℕ) (bs : List ℕ) → (g : F) × (ops.write f p bs ≡ ok g)

  -- Where writes to the file succeed, `flush` succeeds: nothing is left in the buffer, the file has
  -- what was buffered, and the bytes of the file that was to be are the same as before.
  pub flush-total :
      (w : Writer F) → Writes w.file → (v : Writer F) × (flush ops fresh w ≡ ok v) × Flushes w v
  unfolding flush flushed
  flush-total w writes = elim (Bool-cases (ltb 0 w.used)) [
    | inr idle ↦ (w, rw idle refl, idle-Flushes w (ground arith))
    | inl busy ↦
        let (g, wrote) = writes w.offset (blob w.buf.bytes 0 w.used) in
        (flushed w g, rw (busy, wrote) refl, flushed-Flushes w g wrote)
  ]

  -- Where writes to the file succeed, `prepare` succeeds: the stream stands for the bytes behind
  -- all that was written so far, all of which stays as it was, and the buffer has room for them.
  pub prepare_write-total :
      (w : Writer F) (needed : ℕ)
      → Writes w.file
      → (r : Ostream × Writer F) × (prepare_write ops fresh w needed ≡ ok r)
        × Prepares w needed r.0 r.1
  unfolding prepare_write extended
  prepare_write-total w needed writes = elim (Bool-cases (ltb w.buf.size (w.used + needed))) [
    | inl more ↦
        let (u, flush_ok, f) = flush-total w writes in
        (_, rw (more, flush_ok) refl, after_flush w u needed f)
    | inr enough ↦ (_, rw enough refl, with_room w needed (ground arith))
  ]

  -- What the caller stores in the room it was given is what the file will hold there.
  pub view-stored :
      (w v : Writer F) (needed : ℕ) (os : Ostream) (m : Memory)
      → Prepares w needed os v
      → ((x : ℕ) → x < os.buf → m x ≡ v.buf.bytes x)
      → let u = record v { buf = record v.buf { bytes = m } } in
        ((x : ℕ) → x < tail w → view u x ≡ view w x)
        × ((k : ℕ) → k < needed → view u (tail w + k) ≡ m (os.buf + k))
  unfolding view
  view-stored w v needed os m p kept = (
    λ x lt. agree x lt ∙ p.before x lt,
    λ k lt.
        let inside : (leb v.offset (tail w + k) && ltb (tail w + k) (v.offset + v.used)) ≡ true =
          ground (arith, p.start, p.used) in
        let place : tail w + k - v.offset ≡ os.buf + k = omega (arith, p.start) in
        rw inside (ap m place),
  )
    where
      agree :
          (x : ℕ) → x < tail w → view (record v { buf = record v.buf { bytes = m } }) x ≡ view v x
      agree x lt = ground (arith, kept (x - v.offset), p.start)
