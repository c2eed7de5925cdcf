-- ===== src/Commit/Crash.antt =====
-- A crash while `commit` writes the key file, and `recover` after it.
use nu_db.Prelude.{
  ℕ, ◌+◌, ◌-◌, ◌*◌, ◌≤◌, ◌<◌, ◌≡◌, refl, ap, ◌∙◌, ◌⊎◌, inl, inr, some, false, List, [], ◌∷◌, leb,
  ltb, ◌&&◌, Bool-cases, length, length-append, arith, zero, suc,
}
use nu_db.Error.{ok}
use nu_db.Memory.{Memory}
use nu_db.Endian.{Endian}
use nu_db.Stream.{blob, store}
use nu_db.Stream.Items.{store_frame, length-blob}
use nu_db.File.{FileOps, FileLaws, Works, Cuts}
use nu_db.Format.{Hasher}
use nu_db.Format.Headers.{DatFileHeader, KeyFileHeader, LogFileHeader, zeros}
use nu_db.Recover.{Erasures, opened, restored, recover}
use nu_db.Recover.Log.{block, restore, image_size, count_lem}
use nu_db.Recover.Calls.{IsCut}
use nu_db.Recover.Restores.{IsChecked}
use nu_db.Recover.Original.{Covered, here, there, AreOriginal, recover-original}
use nu_db.Commit.Steps.{Committer}
use nu_db.Commit.Blobs.{images, Blobs, next_blob}
use nu_db.Commit.Logged.{IsLog}
use nu_db.Commit.Keys.{Writes}

-- A cache has a bucket of an index.
pub data Has : List (ℕ × ℕ) → ℕ → Type 0 where
  first : (n p : ℕ) (es : List (ℕ × ℕ)) → Has ((n, p) ∷ es) n
  later : (e : ℕ × ℕ) (es : List (ℕ × ℕ)) (n : ℕ) → Has es n → Has (e ∷ es) n

length-images : (m : Memory) (es : List (ℕ × ℕ)) → length (images m es) ≡ length es
length-images m [] = refl
length-images m (e ∷ es) = ap suc (length-images m es)

length-zeros : (n : ℕ) → length (zeros n) ≡ n
unfolding zeros
length-zeros zero = refl
length-zeros (suc n) = ap suc (length-zeros n)

block_length : (m : Memory) (size p n : ℕ) → n ≤ size → length (block size (blob m p n)) ≡ size
block_length m size p n fits =
    let a = length-append (blob m p n) (zeros (size - length (blob m p n))) in
    let b = length-zeros (size - length (blob m p n)) in
    let c = length-blob m p n in omega (arith, a, b, c)

-- A byte that is not in the block stays.
outside_block :
    (k : Memory) (p size x : ℕ) (bs : List ℕ)
    → length bs ≡ size
    → (leb p x && ltb x (p + size)) ≡ false
    → store k p bs x ≡ k x
outside_block k p size x bs e apart = store_frame k p bs x (rw e (beside apart))
  where
    beside : (leb p x && ltb x (p + size)) ≡ false → (x < p) ⊎ (p + size ≤ x)
    beside apart = ground (arith, apart)

-- The buckets of a cache change their own blocks only.
restore-Covered :
    (m : Memory) (size x : ℕ) (k : Memory) (es : List (ℕ × ℕ))
    → Blobs m size es
    → (restore k size (images m es) x ≡ k x) ⊎ Covered size x (images m es)
unfolding restore
restore-Covered m size x k [] blobs = inl refl
restore-Covered m size x k ((n, p) ∷ es) (next_blob _ _ _ fits apart rest) =
    elim (restore-Covered m size x
      (store k ((n + 1) * size) (block size (blob m p (image_size m p)))) es rest) [
        | inr later_on ↦ inr (there (n, blob m p (image_size m p)) (images m es) later_on)
        | inl same ↦ elim (Bool-cases (leb ((n + 1) * size) x && ltb x ((n + 1) * size + size))) [
          | inl within ↦
              inr (here n _ (images m es) (ground (arith, within)) (ground (arith, within)))
          | inr beside ↦ inl (
              same
              ∙ outside_block k ((n + 1) * size) size x _ (block_length m size p _ fits) beside)
        ]
      ]

Covered-Has :
    (m : Memory) (size x : ℕ) (es : List (ℕ × ℕ))
    → Covered size x (images m es)
    → (n : ℕ) × Has es n × ((n + 1) * size ≤ x) × (x < (n + 1) * size + size)
Covered-Has m size x [] c = elim c [ ]
Covered-Has m size x ((n, p) ∷ es) (here _ _ _ lo hi) = (n, first n p es, lo, hi)
Covered-Has m size x ((n, p) ∷ es) (there _ _ c) =
    let (k, h, lo, hi) = Covered-Has m size x es c in (k, later (n, p) es k h, lo, hi)

Has-Covered :
    (m : Memory) (size x n : ℕ) (es : List (ℕ × ℕ))
    → Has es n
    → (n + 1) * size ≤ x
    → x < (n + 1) * size + size
    → Covered size x (images m es)
Has-Covered m size x n _ (first _ p es) lo hi = here n _ (images m es) lo hi
Has-Covered m size x n _ (later e es _ h) lo hi =
    there (e.0, blob m e.1 (image_size m e.1)) (images m es) (Has-Covered m size x n es h lo hi)

module _ {F : Type 0} (ops : FileOps F) (laws : FileLaws ops) (works : Works ops laws)
    (cuts : Cuts ops laws) (endian : Endian) (hasher : Hasher) (fresh : Memory)
    (erases : Erasures) where
  -- A commit has written its log, in which stand the blocks that the key file had, and any of its
  -- new buckets, those of them that are not behind the end of the key file being in the log too.
  -- Where the headers of the files pass the checks, the log says the size that the key file had,
  -- every call succeeds, and the fuel exceeds the number of buckets in the log, `recover` returns: the key
  -- file has its size and all of its bytes from before the commit, and the data file is cut to
  -- the size that the log says.
  pub recover-write_clean :
      (fuel : ℕ) (c : Committer F) (l k : F) (n : Memory) (new : List (ℕ × ℕ)) (dh : DatFileHeader)
      (kh : KeyFileHeader) (lh : LogFileHeader)
      → IsLog ops laws works endian hasher fresh kh (laws.extent c.store.df) c l
      → length c.c0.map < fuel
      → AreOriginal kh.block_size (laws.bytes c.store.kf) (images c.store.memory c.c0.map)
      → Blobs c.store.memory kh.block_size new
      → Writes ops laws works kh.block_size c.store.memory c.store.kf new k n
      → ((i : ℕ) → Has new i → (i + 1) * kh.block_size < laws.extent c.store.kf → Has c.c0.map i)
      → IsChecked ops laws endian hasher c.store.df k l dh kh lh
      → lh.key_file_size ≡ laws.extent c.store.kf
      → erases.log ≡ ok tt
      → (d : F) × (k' : F) × (recover ops endian hasher fresh erases fuel
            (ok c.store.df)
            (ok k)
            (opened l)
          ≡ some (ok (restored d k')))
        × IsCut laws c.store.df (laws.bytes c.store.df) lh.dat_file_size d
        × (laws.extent k' ≡ lh.key_file_size)
        × ((x : ℕ) → x < lh.key_file_size → laws.bytes k' x ≡ laws.bytes c.store.kf x)
  recover-write_clean fuel c l k n new dh kh lh log enough originals blobs wrote old checked size
        erased =
      recover-original ops laws works cuts endian hasher fresh erases fuel (laws.bytes c.store.kf)
        c.store.df k l dh kh lh (images c.store.memory c.c0.map)
        (record { checked = checked; records = log.log })
        (omega (arith, enough, count_lem log.log, length-images c.store.memory c.c0.map)) erased
        (omega (arith, size, wrote.extent)) originals (λ x lt. changed x (omega (arith, size)))
    where
      changed :
          (x : ℕ)
          → x < laws.extent c.store.kf
          → (laws.bytes k x ≡ laws.bytes c.store.kf x)
            ⊎ Covered kh.block_size x (images c.store.memory c.c0.map)
      changed x lt =
          elim (restore-Covered c.store.memory kh.block_size x (laws.bytes c.store.kf) new blobs) [
            | inl same ↦ inl (ap (λ m. m x) wrote.bytes ∙ same)
            | inr written ↦
                let (i, has, lo, hi) = Covered-Has c.store.memory kh.block_size x new written in
                inr (
                  Has-Covered c.store.memory kh.block_size x i c.c0.map (old i has (omega arith)) lo
                    hi)
          ]
