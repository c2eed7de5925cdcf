-- ===== src/Visit/Records.antt =====
-- The list of data records that a data file holds.
use nu_db.Prelude.{ℕ, zero, suc, ◌+◌, ◌≤◌, ◌<◌, ◌^◌, ◌≡◌, refl, List, [], ◌∷◌, arith}
use nu_db.Error.{Result, ok, ◌>>=◌}
use nu_db.Memory.{Memory}
use nu_db.Field.{u16, u48, readp}
use nu_db.Stream.{blob}

-- The data records of a file from an offset to its end, with their keys and values, less the
-- spill records between them.
pub data Records (bytes : Memory) (key_size last : ℕ) : ℕ → List (List ℕ × List ℕ) → Type 0 where
  end : (p : ℕ) → p ≡ last → Records bytes key_size last p []
  pair :
      (p n : ℕ) (rest : List (List ℕ × List ℕ))
      → 0 < n
      → n < 2 ^ 32
      → readp u48 bytes p ≡ n
      → Records bytes key_size last (p + 6 + (key_size + n)) rest
      → Records bytes key_size last p
          ((blob bytes (p + 6) key_size, blob bytes (p + 6 + key_size) n) ∷ rest)
  spill :
      (p n : ℕ) (rest : List (List ℕ × List ℕ))
      → readp u48 bytes p ≡ 0
      → readp u16 bytes (p + 6) ≡ n
      → Records bytes key_size last (p + 6 + 2 + n) rest
      → Records bytes key_size last p rest

-- How many records there are.
unfoldable pub count :
    {bytes : Memory} {key_size last p : ℕ} {kvs : List (List ℕ × List ℕ)}
    → Records bytes key_size last p kvs
    → ℕ
count (end _ _) = 0
count (pair _ _ _ _ _ _ rest) = suc (count rest)
count (spill _ _ _ _ _ rest) = suc (count rest)

pub within :
    {bytes : Memory} {key_size last p : ℕ} {kvs : List (List ℕ × List ℕ)}
    → Records bytes key_size last p kvs
    → p ≤ last
within (end p e) = omega arith
within (pair p n ps pos small e rest) = omega (arith, within rest)
within (spill p n ps e f rest) = omega (arith, within rest)

-- The specification: the callback on each pair in turn, up to its first error
unfoldable pub visit_all :
    {S : Type 0} → (S → List ℕ → List ℕ → Result S) → S → List (List ℕ × List ℕ) → Result S
visit_all callback s [] = ok s
visit_all callback s ((key, bytes) ∷ rest) = callback s key bytes >>= λ t. visit_all callback t rest

pub blob-shift :
    (m n : Memory) (p q k : ℕ) → ((j : ℕ) → j < k → m (p + j) ≡ n (q + j)) → blob m p k ≡ blob n q k
unfolding blob
blob-shift m n p q zero h = refl
blob-shift m n p q (suc k) h =
    let e : p + 0 ≡ p = omega arith in
    let f : q + 0 ≡ q = omega arith in
    let here : m p ≡ n q = rw (e, f) at (h 0 (omega arith)) in
    rw
      (
        here,
        blob-shift m n (p + 1) (q + 1) k (λ j lt.
            let e : p + 1 + j ≡ p + suc j = omega arith in
            let f : q + 1 + j ≡ q + suc j = omega arith in rw (e, f) (h (suc j) (omega arith))),
      )
      refl
