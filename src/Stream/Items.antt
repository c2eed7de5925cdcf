-- ===== src/Stream/Items.antt =====
-- What a run of writes leaves in the buffer, and how a run of reads takes it back.
use nu_db.Prelude.{
  take, drop, ℕ, zero, suc, ◌+◌, ◌-◌, ◌%◌, ◌≤◌, ◌<◌, ◌≡◌, refl, ap, ◌∙◌, ◌⊎◌, inl, List, [], ◌∷◌,
  arith, length,
}
use native.Mathlib.Nat.{add-zero}
use nu_db.Error.{ok}
use nu_db.Memory.{Memory, poke}
use nu_db.Field.{Field, readp, writep}
use nu_db.Field
use nu_db.Field.RoundTrip.{readp-writep, readp_congr, writep_frame}
use nu_db.Stream.{Ostream, extend, blob, store, read, read_blob, write, write_blob}

-- One write: a number in a field, or bytes.
pub data Item : Type 0 where
  num : Field → ℕ → Item
  bytes : List ℕ → Item

abbrev pub size : Item → ℕ
size (num f v) = Field.size f
size (bytes bs) = length bs

unfoldable pub write_items : Ostream → Memory → List Item → Ostream × Memory
write_items os m [] = (os, m)
write_items os m (num f v ∷ r) = let (os', m') = write f os m v in write_items os' m' r
write_items os m (bytes bs ∷ r) = let (os', m') = write_blob os m bs in write_items os' m' r

-- The buffer holds the items from an address on.
abbrev pub Holds : Memory → ℕ → Item → Type 0
Holds m p (num f v) = readp f m p ≡ v % (Field.max f + 1)
Holds m p (bytes bs) = blob m p (length bs) ≡ bs

abbrev pub Encodes : Memory → ℕ → List Item → Type 0
Encodes m p [] = Unit {0}
Encodes m p (i ∷ r) = Holds m p i × Encodes m (p + size i) r

-- Two memories that agree on a range.
abbrev pub Agree : Memory → Memory → ℕ → ℕ → Type 0
Agree m n p k = (x : ℕ) → p ≤ x → x < p + k → m x ≡ n x

blob_congr : (m n : Memory) (p k : ℕ) → Agree m n p k → blob m p k ≡ blob n p k
unfolding blob
blob_congr m n p zero h = refl
blob_congr m n p (suc k) h = rw (
  h p (omega arith) (omega arith),
  blob_congr m n (p + 1) k (λ x a b. h x (omega arith) (omega arith)),
)

pub store_frame :
    (m : Memory) (p : ℕ) (bs : List ℕ) (x : ℕ)
    → (x < p) ⊎ (p + length bs ≤ x)
    → store m p bs x ≡ m x
unfolding store
store_frame m p [] x h = refl
store_frame m p (b ∷ bs) x h =
    rw (store_frame (poke m p b) (p + 1) bs x (omega arith)) (unfold poke in ground arith)

pub blob-store : (m : Memory) (p : ℕ) (bs : List ℕ) → blob (store m p bs) p (length bs) ≡ bs
unfolding blob store
blob-store m p [] = refl
blob-store m p (b ∷ bs) =
    rw (store_frame (poke m p b) (p + 1) bs p (omega arith), blob-store (poke m p b) (p + 1) bs)
      (unfold poke in ground arith)

-- A run of writes leaves alone what stands before it.
write_items_frame :
    (os : Ostream) (m : Memory) (is : List Item) (x : ℕ)
    → x < os.buf
    → (write_items os m is).1 x ≡ m x
unfolding write_items write write_blob
write_items_frame os m [] x h = refl
write_items_frame os m (num f v ∷ r) x h =
    rw (write_items_frame (extend os (Field.size f)).1 (writep f m os.buf v) r x (omega arith))
      (writep_frame f m os.buf v x (inl h))
write_items_frame os m (bytes bs ∷ r) x h =
    rw (write_items_frame (extend os (length bs)).1 (store m os.buf bs) r x (omega arith))
      (store_frame m os.buf bs x (inl h))

-- After a run of writes the buffer holds the items in order.
pub write_items-Encodes :
    (os : Ostream) (m : Memory) (is : List Item) → Encodes (write_items os m is).1 os.buf is
unfolding write_items write write_blob
write_items-Encodes os m [] = tt
write_items-Encodes os m (num f v ∷ r) = (
  readp_congr f _ (writep f m os.buf v) os.buf os.buf (λ k h.
        write_items_frame (extend os (Field.size f)).1 (writep f m os.buf v) r (os.buf + k)
          (omega arith))
      ∙ readp-writep f m os.buf v,
  write_items-Encodes (extend os (Field.size f)).1 (writep f m os.buf v) r,
)
write_items-Encodes os m (bytes bs ∷ r) = (
  blob_congr _ (store m os.buf bs) os.buf (length bs)
        (λ x a b. write_items_frame (extend os (length bs)).1 (store m os.buf bs) r x (omega arith))
      ∙ blob-store m os.buf bs,
  write_items-Encodes (extend os (length bs)).1 (store m os.buf bs) r,
)

-- A read takes the next item, if the stream holds that many bytes.
pub read_lem :
    (f : Field) (m : Memory) (p n : ℕ)
    → Field.size f ≤ n
    → read f m (record { buf = p; left = n })
      ≡ ok (readp f m p, record { buf = p + Field.size f; left = n - Field.size f })
unfolding read
read_lem f m p n h = ground arith

pub read_blob_lem :
    (m : Memory) (p n k : ℕ)
    → k ≤ n
    → read_blob m (record { buf = p; left = n }) k
      ≡ ok (blob m p k, record { buf = p + k; left = n - k })
unfolding read_blob
read_blob_lem m p n k h = ground arith

abbrev pub total : List Item → ℕ
total [] = 0
total (i ∷ r) = size i + total r

-- Memories that agree on the bytes of the items encode the same items.
pub Encodes-congr :
    (m n : Memory) (p : ℕ) (is : List Item)
    → Agree n m p (total is)
    → Encodes m p is
    → Encodes n p is
Encodes-congr m n p [] h e = tt
Encodes-congr m n p (num f v ∷ r) h e = (
  readp_congr f n m p p (λ k b. h (p + k) (omega arith) (omega arith)) ∙ e.0,
  Encodes-congr m n (p + Field.size f) r (λ x a b. h x (omega arith) (omega arith)) e.1,
)
Encodes-congr m n p (bytes bs ∷ r) h e = (
  blob_congr n m p (length bs) (λ x a b. h x (omega arith) (omega arith)) ∙ e.0,
  Encodes-congr m n (p + length bs) r (λ x a b. h x (omega arith) (omega arith)) e.1,
)

-- Storing bytes that were read from elsewhere copies them.
pub store-blob : (m n : Memory) (p q k x : ℕ) → x < k → store m p (blob n q k) (p + x) ≡ n (q + x)
unfolding store blob
store-blob m n p q zero x h = elim h [ ]
store-blob m n p q (suc k) zero h =
    rw
      (
        store_frame (poke m p (n q)) (p + 1) (blob n (q + 1) k) (p + zero) (inl (omega arith)),
        add-zero p,
        add-zero q,
      )
      (unfold poke in ground arith)
store-blob m n p q (suc k) (suc x) h =
    let e : p + suc x ≡ p + 1 + x = omega arith in
    let f : q + suc x ≡ q + 1 + x = omega arith in
    rw (e, f) (store-blob (poke m p (n q)) n (p + 1) (q + 1) k x (omega arith))

pub length-blob : (m : Memory) (p n : ℕ) → length (blob m p n) ≡ n
unfolding blob
length-blob m p zero = refl
length-blob m p (suc n) = ap suc (length-blob m (p + 1) n)

pub store-blob_start : (a b : Memory) (k x : ℕ) → x < k → store a 0 (blob b 0 k) x ≡ b x
store-blob_start a b k x h = let e : 0 + x ≡ x = omega arith in rw e at (store-blob a b 0 0 k x h)

-- A blob in two parts.
pub take-blob : (m : Memory) (p a b : ℕ) → take a (blob m p (a + b)) ≡ blob m p a
unfolding blob
take-blob m p zero b = refl
take-blob m p (suc a) b =
    let e : suc a + b ≡ suc (a + b) = omega arith in
    rw e (ap (λ bs. m p ∷ bs) (take-blob m (p + 1) a b))

pub drop-blob : (m : Memory) (p a b : ℕ) → drop a (blob m p (a + b)) ≡ blob m (p + a) b
unfolding blob
drop-blob m p zero b =
    let e : zero + b ≡ b = omega arith in let f : p + zero ≡ p = omega arith in rw (e, f) refl
drop-blob m p (suc a) b =
    let e : suc a + b ≡ suc (a + b) = omega arith in
    let f : p + suc a ≡ p + 1 + a = omega arith in rw (e, f) (drop-blob m (p + 1) a b)
