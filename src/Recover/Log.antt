-- ===== src/Recover/Log.antt =====
-- The records that a log file holds, and the key file that they stand for.
use nu_db.Prelude.{
  ℕ, suc, ◌+◌, ◌-◌, ◌*◌, ◌≤◌, ◌<◌, ◌≡◌, refl, ap, ◌⊎◌, List, [], ◌∷◌, ◌++◌, length, arith,
}
use nu_db.Memory.{Memory}
use nu_db.Field.{u16, u48, u64, readp}
use nu_db.Stream.{blob, store}
use nu_db.Format.{entry_size, bucket_size}
use nu_db.Format.Headers.{KeyFileHeader, zeros}

-- The length of a bucket that a log record holds
abbrev pub image_size : Memory → ℕ → ℕ
image_size bytes p = 8 + readp u16 bytes p * entry_size

-- The bucket of a record fits in a block, and stands below the end of the data file if it spills.
pub record Sound (kh : KeyFileHeader) (dat_size : ℕ) (bytes : Memory) (p : ℕ) : Type 0 where
  pub room : image_size bytes p ≤ kh.block_size
  pub spill :
      (readp u48 bytes (p + 2) ≡ 0) ⊎ (readp u48 bytes (p + 2) + bucket_size kh.capacity ≤ dat_size)

-- The log from an offset on: the buckets with their indices, up to the end of the file or a record
-- that is not whole.
pub data Log (kh : KeyFileHeader) (dat_size : ℕ) (bytes : Memory) (last : ℕ)
    : ℕ → List (ℕ × List ℕ) → Type 0 where
  end : (p : ℕ) → p ≡ last → Log kh dat_size bytes last p []
  torn_index : (p : ℕ) → p < last → last < p + 8 → Log kh dat_size bytes last p []
  torn_header : (p : ℕ) → p + 8 ≤ last → last < p + 16 → Log kh dat_size bytes last p []
  torn_body :
      (p : ℕ)
      → p + 16 ≤ last
      → last < p + 8 + image_size bytes (p + 8)
      → Log kh dat_size bytes last p []
  logged :
      (p : ℕ) (rest : List (ℕ × List ℕ))
      → readp u64 bytes p ≤ kh.buckets
      → Sound kh dat_size bytes (p + 8)
      → p + 8 + image_size bytes (p + 8) ≤ last
      → Log kh dat_size bytes last (p + 8 + image_size bytes (p + 8)) rest
      → Log kh dat_size bytes last p
          ((readp u64 bytes p, blob bytes (p + 8) (image_size bytes (p + 8))) ∷ rest)

-- How many records are whole.
unfoldable pub count :
    {kh : KeyFileHeader} {dat_size : ℕ} {bytes : Memory} {last p : ℕ} {images : List (ℕ × List ℕ)}
    → Log kh dat_size bytes last p images
    → ℕ
count (end _ _) = 0
count (torn_index _ _ _) = 0
count (torn_header _ _ _) = 0
count (torn_body _ _ _) = 0
count (logged _ _ _ _ _ rest) = suc (count rest)

pub count_lem :
    {kh : KeyFileHeader} {dat_size : ℕ} {bytes : Memory} {last p : ℕ} {images : List (ℕ × List ℕ)}
    → (log : Log kh dat_size bytes last p images) → count log ≡ length images
unfolding count
count_lem (end _ _) = refl
count_lem (torn_index _ _ _) = refl
count_lem (torn_header _ _ _) = refl
count_lem (torn_body _ _ _) = refl
count_lem (logged _ _ _ _ _ rest) = ap suc (count_lem rest)

pub within :
    {kh : KeyFileHeader} {dat_size : ℕ} {bytes : Memory} {last p : ℕ} {images : List (ℕ × List ℕ)}
    → Log kh dat_size bytes last p images
    → p ≤ last
within (end p e) = omega arith
within (torn_index p a b) = omega arith
within (torn_header p a b) = omega arith
within (torn_body p a b) = omega arith
within (logged p rest n sound fits more) = omega arith

-- A block with a bucket at its start, and zeros behind it
abbrev pub block : ℕ → List ℕ → List ℕ
block size image = image ++ zeros (size - length image)

-- The specification: the bucket of each record is stored in the block of its index, in turn.
unfoldable pub restore : Memory → ℕ → List (ℕ × List ℕ) → Memory
restore k size [] = k
restore k size ((n, image) ∷ rest) = restore (store k ((n + 1) * size) (block size image)) size rest
