-- ===== src/Commit/Values.antt =====
-- The data records of the inserted pairs, as the data file will hold them.
use nu_db.Prelude.{
  ℕ, ◌+◌, ◌≤◌, ◌<◌, ◌^◌, ◌≡◌, refl, ap, subst, ◌∙◌, inl, List, [], ◌∷◌, length, arith,
}
use native.Mathlib.Nat.{mod-eq_of_lt}
use nu_db.Error.{ok}
use nu_db.Memory.{Memory}
use nu_db.Field.{u48, readp, writep}
use nu_db.Field.RoundTrip.{readp-writep, writep_frame, readp_congr}
use nu_db.Stream.{Ostream, blob, store}
use nu_db.Stream.Items.{store_frame, blob-store}
use nu_db.File.{FileOps, FileLaws}
use nu_db.Format.{value_size}
use nu_db.BulkIo.{Writer, tail}
use nu_db.BulkIo.Writing.{view, Writes, prepare_write-total, view-stored}
use nu_db.Pool.{Item}
use nu_db.Visit.Records.{Records, end, pair, blob-shift}
use nu_db.Commit.{put_value, write_value, write_values}

-- The pairs of a pool, as keys and values
abbrev pub pairs : List (Item × ℕ) → List (List ℕ × List ℕ)
pairs [] = []
pairs ((e, _) ∷ es) = (e.key, e.content) ∷ pairs es

-- Items with keys of the size, and with contents that are not empty and fit.
abbrev pub Fit : ℕ → List (Item × ℕ) → Type 0
Fit key_size [] = Unit {0}
Fit key_size ((e, _) ∷ es) =
    ((length e.key ≡ key_size) × (length e.content ≡ e.size) × (0 < e.size) × (e.size < 2 ^ 32))
    × Fit key_size es

put_value-before :
    (os : Ostream) (m : Memory) (e : Item) (x : ℕ) → x < os.buf → put_value os m e x ≡ m x
unfolding put_value
put_value-before os m e x lt =
    store_frame _ (os.buf + 6 + length e.key) e.content x (inl (omega arith))
    ∙ store_frame _ (os.buf + 6) e.key x (inl (omega arith))
    ∙ writep_frame u48 m os.buf e.size x (inl lt)

put_value-size :
    (os : Ostream) (m : Memory) (e : Item)
    → e.size < 2 ^ 32
    → readp u48 (put_value os m e) os.buf ≡ e.size
unfolding put_value
put_value-size os m e small =
    readp_congr u48 _ (writep u48 m os.buf e.size) os.buf os.buf (λ k lt.
      store_frame _ (os.buf + 6 + length e.key) e.content (os.buf + k) (inl (omega arith))
      ∙ store_frame _ (os.buf + 6) e.key (os.buf + k) (inl (omega arith)))
    ∙ readp-writep u48 m os.buf e.size
    ∙ mod-eq_of_lt (omega arith)

put_value-key :
    (os : Ostream) (m : Memory) (e : Item)
    → blob (put_value os m e) (os.buf + 6) (length e.key) ≡ e.key
unfolding put_value
put_value-key os m e =
    blob-shift _ (store (writep u48 m os.buf e.size) (os.buf + 6) e.key) (os.buf + 6) (os.buf + 6)
      (length e.key)
      (λ k lt.
        store_frame _ (os.buf + 6 + length e.key) e.content (os.buf + 6 + k) (inl (omega arith)))
    ∙ blob-store (writep u48 m os.buf e.size) (os.buf + 6) e.key

put_value-content :
    (os : Ostream) (m : Memory) (e : Item)
    → blob (put_value os m e) (os.buf + 6 + length e.key) (length e.content) ≡ e.content
unfolding put_value
put_value-content os m e =
    blob-store (store (writep u48 m os.buf e.size) (os.buf + 6) e.key) (os.buf + 6 + length e.key)
      e.content

-- The data record of an item at an offset
pub record IsStored (bytes : Memory) (key_size : ℕ) (e : Item) (p : ℕ) : Type 0 where
  pub number : readp u48 bytes p ≡ e.size
  pub key : blob bytes (p + 6) key_size ≡ e.key
  pub content : blob bytes (p + 6 + key_size) e.size ≡ e.content

abbrev pub AreStored : Memory → ℕ → List (Item × ℕ) → Type 0
AreStored bytes key_size [] = Unit {0}
AreStored bytes key_size ((e, p) ∷ es) = IsStored bytes key_size e p × AreStored bytes key_size es

-- It stays where the bytes stay.
same-IsStored :
    (m n : Memory) (key_size : ℕ) (e : Item) (p q : ℕ)
    → ((x : ℕ) → x < q → n x ≡ m x)
    → p + 6 + (key_size + e.size) ≤ q
    → IsStored m key_size e p
    → IsStored n key_size e p
same-IsStored m n key_size e p q same fits h = record {
  number = readp_congr u48 n m p p (λ k lt. same (p + k) (omega arith)) ∙ h.number;
  key = blob-shift n m (p + 6) (p + 6) key_size (λ k lt. same (p + 6 + k) (omega arith)) ∙ h.key;
  content =
      blob-shift n m (p + 6 + key_size) (p + 6 + key_size) e.size
        (λ k lt. same (p + 6 + key_size + k) (omega arith))
      ∙ h.content;
}

-- It is a record that `visit` finds.
stored-Records :
    (m : Memory) (key_size last : ℕ) (e : Item) (p : ℕ) (rest : List (List ℕ × List ℕ))
    → 0 < e.size
    → e.size < 2 ^ 32
    → IsStored m key_size e p
    → Records m key_size last (p + 6 + (key_size + e.size)) rest
    → Records m key_size last p ((e.key, e.content) ∷ rest)
stored-Records m key_size last e p rest pos small h more =
    subst (λ k. Records m key_size last p ((k, e.content) ∷ rest)) h.key
      (subst (λ c. Records m key_size last p ((blob m (p + 6) key_size, c) ∷ rest)) h.content
        (pair p e.size rest pos small h.number more))

module _ {F : Type 0} (ops : FileOps F) (laws : FileLaws ops) (fresh : Memory) (key_size : ℕ) where
  -- A record behind all that was written
  record Puts (w : Writer F) (e : Item) (v : Writer F) : Type 0 where
    advanced : tail v ≡ tail w + 6 + (key_size + e.size)
    before : (x : ℕ) → x < tail w → view ops laws fresh v x ≡ view ops laws fresh w x
    stored : IsStored (view ops laws fresh v) key_size e (tail w)

  behind :
      (w : Writer F) (os : Ostream) (m n : Memory) (needed d j : ℕ)
      → ((x : ℕ) → x < needed → n (tail w + x) ≡ m (os.buf + x))
      → d + j < needed
      → n (tail w + d + j) ≡ m (os.buf + d + j)
  behind w os m n needed d j inside lt =
      let a : tail w + d + j ≡ tail w + (d + j) = omega arith in
      let b : os.buf + d + j ≡ os.buf + (d + j) = omega arith in rw (a, b) (inside (d + j) lt)

  same_content :
      (os : Ostream) (m : Memory) (e : Item)
      → length e.key ≡ key_size
      → length e.content ≡ e.size
      → blob (put_value os m e) (os.buf + 6 + key_size) e.size ≡ e.content
  same_content os m e k c = rw (k, c) at (put_value-content os m e)

  write_value-Puts :
      (w : Writer F) (e : Item)
      → Writes ops laws fresh w.file
      → length e.key ≡ key_size
      → length e.content ≡ e.size
      → e.size < 2 ^ 32
      → (v : Writer F) × (write_value ops fresh key_size w e ≡ ok (tail w, v)) × Puts w e v
  unfolding write_value
  write_value-Puts w e writes k c small =
      let needed = value_size e.size key_size in
      let ((os, v), done, p) = prepare_write-total ops laws fresh w needed writes in
      let m = put_value os v.buf.bytes e in
      let (before, inside) =
        view-stored ops laws fresh w v needed os m p (put_value-before os v.buf.bytes e) in
      let u = record v { buf = record v.buf { bytes = m } } in
      (
        u,
        rw done refl,
        record {
          advanced = unfold value_size in omega (arith, p.start, p.used);
          before = before;
          stored = record {
            number =
                readp_congr u48 _ m (tail w) os.buf
                  (λ j lt. inside j (unfold value_size in omega arith))
                ∙ put_value-size os v.buf.bytes e small;
            key =
                blob-shift _ m (tail w + 6) (os.buf + 6) key_size (λ j lt.
                  behind w os m (view ops laws fresh u) needed 6 j inside
                    (unfold value_size in omega arith))
                ∙ subst (λ n. blob m (os.buf + 6) n ≡ e.key) k (put_value-key os v.buf.bytes e);
            content =
                blob-shift _ m (tail w + 6 + key_size) (os.buf + 6 + key_size) e.size (λ j lt.
                  let a : tail w + 6 + key_size + j ≡ tail w + (6 + key_size) + j = omega arith in
                  let b : os.buf + 6 + key_size + j ≡ os.buf + (6 + key_size) + j = omega arith in
                  rw (a, b)
                    (behind w os m (view ops laws fresh u) needed (6 + key_size) j inside
                      (unfold value_size in omega arith)))
                ∙ same_content os v.buf.bytes e k c;
          };
        },
      )

  -- What the loop has done: every item has its offset and is stored there, and the records follow
  -- one another behind all that was written.
  pub record Appends (w : Writer F) (es rs : List (Item × ℕ)) (v : Writer F) : Type 0 where
    pub records : Records (view ops laws fresh v) key_size (tail v) (tail w) (pairs es)
    pub items : pairs rs ≡ pairs es
    pub stored : AreStored (view ops laws fresh v) key_size rs
    pub before : (x : ℕ) → x < tail w → view ops laws fresh v x ≡ view ops laws fresh w x

  -- Where writes to files succeed, and the keys have the size of the store's keys and the values
  -- are not empty and have less than 2^32 bytes, the loop returns: the file will hold, behind all
  -- that was written and that stays, a data record for each pair of the pool in turn, and the
  -- offset that each item gets is that of its record.
  pub write_values-Appends :
      (w : Writer F) (es : List (Item × ℕ))
      → ((f : F) → Writes ops laws fresh f)
      → Fit key_size es
      → (rs : List (Item × ℕ)) × (v : Writer F) × (write_values ops fresh key_size w es
          ≡ ok (rs, v))
        × Appends w es rs v
  unfolding write_values
  write_values-Appends w [] writes fit = (
    [],
    w,
    refl,
    record { records = end (tail w) refl; items = refl; stored = tt; before = λ x lt. refl },
  )
  write_values-Appends w ((e, o) ∷ es) writes fit =
      let (k, c, pos, small) = fit.0 in
      let (v, done, p) = write_value-Puts w e (writes w.file) k c small in
      let (rs, u, rest, h) = write_values-Appends v es writes fit.1 in
      let here =
        same-IsStored (view ops laws fresh v) (view ops laws fresh u) key_size e (tail w) (tail v)
          h.before (omega (arith, p.advanced)) p.stored in
      (
        (e, tail w) ∷ rs,
        u,
        rw (done, write_values, rest) refl,
        record {
          records =
              stored-Records (view ops laws fresh u) key_size (tail u) e (tail w) (pairs es) pos
                small here
                (subst (λ q. Records (view ops laws fresh u) key_size (tail u) q (pairs es))
                  p.advanced h.records);
          items = ap (λ r. (e.key, e.content) ∷ r) h.items;
          stored = (here, h.stored);
          before = λ x lt. h.before x (omega (arith, p.advanced)) ∙ p.before x lt;
        },
      )
