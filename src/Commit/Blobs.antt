-- ===== src/Commit/Blobs.antt =====
-- The buckets that a cache has in memory, as the bytes that are written of them.
use nu_db.Prelude.{ℕ, ◌+◌, ◌-◌, ◌≤◌, ◌<◌, ◌≡◌, refl, ◌⊎◌, List, [], ◌∷◌, arith}
use nu_db.Error.{ok}
use nu_db.Memory.{Memory}
use nu_db.Field.{u16, u48, readp}
use nu_db.Field.RoundTrip.{readp_congr}
use nu_db.Stream.{blob}
use nu_db.Stream.Items.{read_lem}
use nu_db.Bucket.{Bucket, load}
use nu_db.Visit.Records.{blob-shift}
use nu_db.Recover.Log.{image_size}

-- The buckets of a cache, with their indices
abbrev pub images : Memory → List (ℕ × ℕ) → List (ℕ × List ℕ)
images m [] = []
images m ((n, p) ∷ es) = (n, blob m p (image_size m p)) ∷ images m es

-- The block at an address shares no byte with the others.
abbrev pub Apart : ℕ → ℕ → List (ℕ × ℕ) → Type 0
Apart size p [] = Unit {0}
Apart size p ((_, q) ∷ es) = ((p + size ≤ q) ⊎ (q + size ≤ p)) × Apart size p es

-- Buckets that fit in their blocks, which lie apart.
pub data Blobs (m : Memory) (size : ℕ) : List (ℕ × ℕ) → Type 0 where
  no_blob : Blobs m size []
  next_blob :
      (n p : ℕ) (es : List (ℕ × ℕ))
      → image_size m p ≤ size
      → Apart size p es
      → Blobs m size es
      → Blobs m size ((n, p) ∷ es)

-- The bucket that a cache has at an address
abbrev pub bucket_at : Memory → ℕ → ℕ → Bucket
bucket_at m size p = record {
  block_size = size;
  size = readp u16 m p;
  spill = readp u48 m (p + 2);
  p = p;
}

pub load_lem : (m : Memory) (size p : ℕ) → 8 ≤ size → load m size p ≡ ok (bucket_at m size p)
unfolding load
load_lem m size p room =
    rw (read_lem u16 m p size (omega arith), read_lem u48 m (p + 2) (size - 2) (omega arith)) refl

-- Memories that agree on a block have the same bucket there.
pub image_same :
    (m m' : Memory) (size p : ℕ)
    → 8 ≤ size
    → ((x : ℕ) → p ≤ x → x < p + size → m' x ≡ m x)
    → image_size m' p ≡ image_size m p
image_same m m' size p room same =
    let e : readp u16 m' p ≡ readp u16 m p =
      readp_congr u16 m' m p p (λ k lt. same (p + k) (omega arith) (omega arith)) in
    omega (arith, e)

module _ (m m' : Memory) (size p : ℕ) (room : 8 ≤ size)
    (same : (x : ℕ) → (x < p) ⊎ (p + size ≤ x) → m' x ≡ m x) where
  there : (q : ℕ) → (p + size ≤ q) ⊎ (q + size ≤ p) → image_size m' q ≡ image_size m q
  there q c = image_same m m' size q room (λ x a b. same x (omega arith))

  -- A change in one block leaves the buckets of the others alone.
  pub images-Apart :
      (es : List (ℕ × ℕ)) → Apart size p es → Blobs m size es → images m' es ≡ images m es
  images-Apart [] c blobs = refl
  images-Apart ((n, q) ∷ es) (c, cs) (next_blob _ _ _ fits _ rest) =
      let bytes : blob m' q (image_size m q) ≡ blob m q (image_size m q) =
        blob-shift m' m q q (image_size m q) (λ j lt. same (q + j) (omega arith)) in
      rw (there q c, bytes, images-Apart es cs rest) refl

  pub Apart-Blobs : (es : List (ℕ × ℕ)) → Apart size p es → Blobs m size es → Blobs m' size es
  Apart-Blobs [] c blobs = no_blob
  Apart-Blobs ((n, q) ∷ es) (c, cs) (next_blob _ _ _ fits apart rest) =
      next_blob n q es (omega (arith, there q c)) apart (Apart-Blobs es cs rest)
