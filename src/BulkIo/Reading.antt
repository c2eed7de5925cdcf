-- ===== src/BulkIo/Reading.antt =====
-- The reader hands out the bytes of the file in order.
use nu_db.Prelude.{
  ℕ, ◌+◌, ◌-◌, ◌≤◌, ◌<◌, min, ◌≡◌, refl, ◌∙◌, inl, inr, arith, ltb, ltb→lt, lt→ltb, List, subst,
  Bool-cases, false,
}
use nu_db.Error.{ok, err, short_read, >>=-eq-ok, ok-injective}
use nu_db.Memory.{Memory, copy}
use nu_db.Stream.{Istream, store}
use nu_db.Stream.Items.{store-blob, store_frame}
use nu_db.File.{FileOps, FileLaws}
use nu_db.BulkIo.{Buffer, Reader, position, compact, refill, prepare_read, reader}

module _ {F : Type 0} (ops : FileOps F) (laws : FileLaws ops) (fresh : Memory) where
  -- What is left in the buffer are the bytes of the file from the position on.
  pub record IsReader (r : Reader F) : Type 0 where
    pub behind : r.avail ≤ r.offset
    pub inside : r.used + r.avail ≤ r.buf.size
    pub within : r.offset ≤ r.last
    pub holds :
        (k : ℕ) → k < r.avail → r.buf.bytes (r.used + k) ≡ laws.bytes r.file (position r + k)

  compact_keeps :
      (b : Buffer) (used avail needed k : ℕ)
      → k < avail
      → (compact fresh b used avail needed).bytes k ≡ b.bytes (used + k)
  unfolding compact copy
  compact_keeps b used avail needed k lt = ground arith

  compact_room :
      (b : Buffer) (used avail needed : ℕ) → needed ≤ (compact fresh b used avail needed).size
  unfolding compact
  compact_room b used avail needed = ground arith

  -- The reader after a read of the file that succeeded.
  refilled : Reader F → ℕ → List ℕ → Reader F
  refilled r needed bs =
      let b = compact fresh r.buf r.used r.avail needed in
      let n = min (b.size - r.avail) (r.last - r.offset) in
      record r {
        buf = record b { bytes = store b.bytes r.avail bs };
        offset = r.offset + n;
        avail = r.avail + n;
        used = 0;
      }

  abbrev Refills : Reader F → ℕ → Reader F → Type 0
  Refills r needed s =
      IsReader s
      × (needed ≤ s.avail)
      × (position s ≡ position r)
      × (s.file ≡ r.file)
      × (s.last ≡ r.last)

  module _ (r : Reader F) (needed : ℕ) (bs : List ℕ) (v : IsReader r) (lt : r.avail < needed) where
    b : Buffer
    b = compact fresh r.buf r.used r.avail needed

    n : ℕ
    unfolding b
    n = min (b.size - r.avail) (r.last - r.offset)

    filled :
        ops.read r.file r.offset n ≡ ok bs
        → (k : ℕ) → k < r.avail + n
        → store b.bytes r.avail bs (0 + k) ≡ laws.bytes r.file (position r + k)
    unfolding b n
    filled e k below = elim (Bool-cases (ltb k r.avail)) [
      | inl old ↦
          let z : 0 + k ≡ k = omega arith in
          rw z (
            store_frame b.bytes r.avail bs k (inl (ltb→lt k r.avail old))
            ∙ compact_keeps r.buf r.used r.avail needed k (ltb→lt k r.avail old)
            ∙ v.holds k (ltb→lt k r.avail old))
      | inr new ↦
          let j = k - r.avail in
          let z : 0 + k ≡ r.avail + j = ground arith in
          let q : position r + k ≡ r.offset + j = ground (arith, v.behind) in
          rw (z, q, laws.read_lem r.file r.offset n bs e)
            (store-blob b.bytes (laws.bytes r.file) r.avail r.offset n j (ground arith))
    ]

    refilled-Refills :
        ops.read r.file r.offset n ≡ ok bs
        → r.offset + needed - r.avail ≤ r.last
        → Refills r needed (refilled r needed bs)
    unfolding refilled b n
    refilled-Refills e le =
        let room = compact_room r.buf r.used r.avail needed in
        (
          record {
            behind = omega (arith, v.behind);
            inside = omega (arith, room);
            within = omega (arith, v.within);
            holds = λ k below.
                let z : r.offset + n - (r.avail + n) + k ≡ position r + k =
                  omega (arith, v.behind) in
                rw z (filled e k below);
          },
          omega (arith, room, v.within, v.behind),
          omega (arith, v.behind),
          refl,
          refl,
        )

  refill-Refills :
      (r s : Reader F) (needed : ℕ)
      → IsReader r
      → r.avail < needed
      → refill ops fresh r needed ≡ ok s
      → Refills r needed s
  unfolding refill refilled n b
  refill-Refills r s needed v lt e = elim (Bool-cases (ltb r.last (r.offset + needed - r.avail))) [
    | inl short ↦ cc (rw short at e)
    | inr long ↦
        let (bs, read, done) = >>=-eq-ok _ _ (rw long at e) in
        subst (λ t. Refills r needed t) (ok-injective done)
          (refilled-Refills r needed bs v lt read (ground arith))
  ]

  -- A stream of the bytes asked for, and the reader behind them.
  pub record Reads (r : Reader F) (needed : ℕ) (is : Istream) (s : Reader F) : Type 0 where
    pub reader : IsReader s
    pub length : is.left ≡ needed
    pub bytes : (k : ℕ) → k < needed → s.buf.bytes (is.buf + k) ≡ laws.bytes r.file (position r + k)
    pub advanced : position s ≡ position r + needed
    pub file : s.file ≡ r.file
    pub last : s.last ≡ r.last

  -- The stream, and the reader that has handed it out.
  abbrev taken : Reader F → ℕ → Istream × Reader F
  taken s needed = (
    record { buf = s.used; left = needed },
    record s { used = s.used + needed; avail = s.avail - needed },
  )

  take_Reads :
      (r s : Reader F) (needed : ℕ)
      → Refills r needed s
      → Reads r needed
          (record { buf = s.used; left = needed })
          (record s { used = s.used + needed; avail = s.avail - needed })
  take_Reads r s needed (v, enough, same, file, last) = record {
    reader = record {
      behind = omega (arith, v.behind);
      inside = omega (arith, v.inside);
      within = v.within;
      holds = λ k below.
          let z : s.used + needed + k ≡ s.used + (needed + k) = omega arith in
          let q : s.offset - (s.avail - needed) + k ≡ position s + (needed + k) =
            omega (arith, v.behind) in
          rw (z, q) (v.holds (needed + k) (omega arith));
    };
    length = refl;
    bytes = λ k below. rw (← file, ← same) (v.holds k (omega arith));
    advanced = omega (arith, v.behind);
    file = file;
    last = last;
  }

  -- Where the reader is in order and `prepare` succeeds, the stream has the next bytes of the file, and the reader stands
  -- behind them.
  pub prepare_read-Reads :
      (r s : Reader F) (needed : ℕ) (is : Istream)
      → IsReader r
      → prepare_read ops fresh r needed ≡ ok (is, s)
      → Reads r needed is s
  unfolding prepare_read
  prepare_read-Reads r s needed is v e = elim (Bool-cases (ltb r.avail needed)) [
    | inl more ↦
        let (t, read, done) = >>=-eq-ok _ _ (rw more at e) in
        let p = ok-injective done in
        subst (λ (x : Istream × Reader F). Reads r needed x.0 x.1) p
          (take_Reads r t needed (refill-Refills r t needed v (ltb→lt _ _ more) read))
    | inr enough ↦
        let p = ok-injective (rw enough at e) in
        subst (λ (x : Istream × Reader F). Reads r needed x.0 x.1) p
          (take_Reads r r needed (v, ground arith, refl, refl, refl))
  ]

  -- Every read of bytes that the file has succeeds.
  abbrev pub ReadsWithin : F → Type 0
  ReadsWithin f = (p n : ℕ) → p + n ≤ laws.extent f → (bs : List ℕ) × (ops.read f p n ≡ ok bs)

  -- Where the reader is in order, the bytes asked for are left and the file can be read up to the reader's end, `prepare`
  -- succeeds, with the next bytes of the file.
  pub prepare_read-total :
      (r : Reader F) (needed : ℕ)
      → IsReader r
      → position r + needed ≤ r.last
      → r.last ≤ laws.extent r.file
      → ReadsWithin r.file
      → (x : Istream × Reader F) × (prepare_read ops fresh r needed ≡ ok x) × Reads r needed x.0 x.1
  unfolding prepare_read refill refilled
  prepare_read-total r needed v left end reads = elim (Bool-cases (ltb r.avail needed)) [
    | inl more ↦
        let long : ltb r.last (r.offset + needed - r.avail) ≡ false = ground (arith, v.behind) in
        let b = compact fresh r.buf r.used r.avail needed in
        let fits : r.offset + min (b.size - r.avail) (r.last - r.offset) ≤ laws.extent r.file =
          omega (arith, v.within) in
        let (bs, read) = reads r.offset (min (b.size - r.avail) (r.last - r.offset)) fits in
        and_Reads (taken (refilled r needed bs) needed, rw (more, long, read) refl)
    | inr enough ↦ and_Reads (taken r needed, rw enough refl)
  ]
    where
      and_Reads :
          (x : Istream × Reader F) × (prepare_read ops fresh r needed ≡ ok x)
          → (x : Istream × Reader F) × (prepare_read ops fresh r needed ≡ ok x)
            × Reads r needed x.0 x.1
      and_Reads (x, done) = (x, done, prepare_read-Reads r x.1 needed x.0 v done)

  -- Where the reader is in order and fewer bytes are left in the file than are asked for, `prepare`
  -- says that the read is short.
  pub prepare_read_short :
      (r : Reader F) (needed : ℕ)
      → IsReader r
      → r.last < position r + needed
      → prepare_read ops fresh r needed ≡ err short_read
  unfolding prepare_read refill
  prepare_read_short r needed v h =
      let more : r.avail < needed = omega (arith, v.behind, v.within) in
      let short : r.last < r.offset + needed - r.avail = omega (arith, v.behind) in
      rw (lt→ltb _ _ more, lt→ltb _ _ short) refl

  -- A reader that was just made is at its start.
  pub reader-IsReader :
      (f : F) (offset last size : ℕ)
      → offset ≤ last
      → IsReader (reader fresh f offset last size)
        × (position (reader fresh f offset last size) ≡ offset)
  unfolding reader
  reader-IsReader f offset last size h = (
    record {
      behind = omega arith;
      inside = omega arith;
      within = h;
      holds = λ k below. absurd (omega arith);
    },
    omega arith,
  )
