-- ===== src/Recover/Original.antt =====
-- A commit that was cut short is taken back: the key file has the bytes that it had before.
use nu_db.Prelude.{
  ℕ, ◌+◌, ◌-◌, ◌*◌, ◌≤◌, ◌<◌, ◌≡◌, sym, ap, ◌∙◌, ◌⊎◌, inl, inr, some, List, [], ◌∷◌, leb, ltb,
  false, ◌&&◌, Bool-cases, arith,
}
use nu_db.Error.{ok}
use nu_db.Memory.{Memory}
use nu_db.Endian.{Endian}
use nu_db.Stream.{blob, store}
use nu_db.Stream.Items.{length-blob, store_frame, store-blob}
use nu_db.File.{FileOps, FileLaws, Works, Cuts}
use nu_db.Format.{Hasher}
use nu_db.Format.Headers.{DatFileHeader, KeyFileHeader, LogFileHeader}
use nu_db.Recover.{Erasures, opened, restored, recover}
use nu_db.Recover.Log.{block, restore, count}
use nu_db.Recover.Restores.{IsLogged, recover-restore}
use nu_db.Recover.Calls.{IsCut}

-- A byte of the key file lies in the block of a record.
pub data Covered (size x : ℕ) : List (ℕ × List ℕ) → Type 0 where
  here :
      (n : ℕ) (image : List ℕ) (rest : List (ℕ × List ℕ))
      → (n + 1) * size ≤ x
      → x < (n + 1) * size + size
      → Covered size x ((n, image) ∷ rest)
  there :
      (e : ℕ × List ℕ) (rest : List (ℕ × List ℕ)) → Covered size x rest → Covered size x (e ∷ rest)

-- The records hold the blocks that the key file had.
pub data AreOriginal (size : ℕ) (was : Memory) : List (ℕ × List ℕ) → Type 0 where
  none_logged : AreOriginal size was []
  original :
      (n : ℕ) (image : List ℕ) (rest : List (ℕ × List ℕ))
      → block size image ≡ blob was ((n + 1) * size) size
      → AreOriginal size was rest
      → AreOriginal size was ((n, image) ∷ rest)

module _ (k was : Memory) (size p x : ℕ) where
  inside : p ≤ x → x < p + size → store k p (blob was p size) x ≡ was x
  inside lo hi =
      let e : x ≡ p + (x - p) = omega arith in
      ap (store k p (blob was p size)) e
      ∙ store-blob k was p p size (x - p) (omega arith)
      ∙ ap was (sym e)

  outside : k x ≡ was x → store k p (blob was p size) x ≡ was x
  outside e = elim (Bool-cases (leb p x && ltb x (p + size))) [
    | inl within ↦ inside (ground (arith, within)) (ground (arith, within))
    | inr apart ↦
        store_frame k p (blob was p size) x (rw (length-blob was p size) (beside apart)) ∙ e
  ]
    where
      beside : (leb p x && ltb x (p + size)) ≡ false → (x < p) ⊎ (p + size ≤ x)
      beside apart = ground (arith, apart)

store-Covered :
    (k was : Memory) (size x n : ℕ) (image : List ℕ) (rest : List (ℕ × List ℕ))
    → (k x ≡ was x) ⊎ Covered size x ((n, image) ∷ rest)
    → let p = (n + 1) * size in (store k p (blob was p size) x ≡ was x) ⊎ Covered size x rest
store-Covered k was size x n image rest (inl e) = inl (outside k was size ((n + 1) * size) x e)
store-Covered k was size x n image rest (inr (here _ _ _ lo hi)) =
    inl (inside k was size ((n + 1) * size) x lo hi)
store-Covered k was size x n image rest (inr (there _ _ c)) = inr c

restore_lem :
    (was : Memory) (size x : ℕ) (k : Memory) (images : List (ℕ × List ℕ))
    → AreOriginal size was images
    → (k x ≡ was x) ⊎ Covered size x images
    → restore k size images x ≡ was x
unfolding restore
restore_lem was size x k _ none_logged (inl e) = e
restore_lem was size x k _ none_logged (inr c) = elim c [ ]
restore_lem was size x k _ (original n image rest same more) c = rw same (
    restore_lem was size x (store k ((n + 1) * size) (blob was ((n + 1) * size) size)) rest more
      (store-Covered k was size x n image rest c))

module _ {F : Type 0} (ops : FileOps F) (laws : FileLaws ops) (works : Works ops laws)
    (cuts : Cuts ops laws) (endian : Endian) (hasher : Hasher) (fresh : Memory)
    (erases : Erasures) where
  -- Where the files of a database stand as a commit has left them, so that the log holds the
  -- blocks that the key file had before, and the key file is not shorter than before and differs
  -- from what it was in those blocks only, every call succeeds, and the fuel exceeds the number
  -- of whole records, `recover` returns, with no log: the data file is cut to its size before the
  -- commit, and the key file has the size and the bytes that it had then.
  pub recover-original :
      (fuel : ℕ) (was : Memory) (df kf lf : F) (dh : DatFileHeader) (kh : KeyFileHeader)
      (lh : LogFileHeader) (images : List (ℕ × List ℕ))
      → (h : IsLogged ops laws endian hasher df kf lf dh kh lh images) → count h.records < fuel
      → erases.log ≡ ok tt
      → lh.key_file_size ≤ laws.extent kf
      → AreOriginal kh.block_size was images
      → ((x : ℕ)
          → x < lh.key_file_size
          → (laws.bytes kf x ≡ was x) ⊎ Covered kh.block_size x images)
      → (d : F) × (k : F) × (recover ops endian hasher fresh erases fuel (ok df) (ok kf) (opened lf)
          ≡ some (ok (restored d k)))
        × IsCut laws df (laws.bytes df) lh.dat_file_size d
        × (laws.extent k ≡ lh.key_file_size)
        × ((x : ℕ) → x < lh.key_file_size → laws.bytes k x ≡ was x)
  recover-original fuel was df kf lf dh kh lh images h enough erased longer originals changed =
      let (d, k, done, dat, key) =
        recover-restore ops laws works cuts endian hasher fresh erases fuel df kf lf dh kh lh images
          h enough erased in
      (
        d,
        k,
        done,
        dat,
        key.extent,
        λ x lt.
            key.bytes x lt (omega arith)
            ∙ restore_lem was kh.block_size x (laws.bytes kf) images originals (changed x lt),
      )
