-- ===== src/File.antt =====
-- The `File` template argument: the calls that the library makes of a file, and what they do.
-- concepts.hpp and the documentation state the requirements; posix_file.hpp and win32_file.hpp
-- meet them by calls of the operating system. A call may fail with any code.
use nu_db.Prelude.{ℕ, ◌+◌, ◌≤◌, ◌<◌, max, ◌≡◌, List, length}
use nu_db.Error.{Result, ok}
use nu_db.Memory.{Memory}
use nu_db.Stream.{blob, store}

-- `size`, `read(offset, buffer, bytes, ec)`, `write(offset, buffer, bytes, ec)`, `sync` and
-- `trunc`. A call that changes the file returns the new one.
pub record FileOps (F : Type 0) : Type 0 where
  pub size : F → Result ℕ
  pub read : F → ℕ → ℕ → Result (List ℕ)
  pub write : F → ℕ → List ℕ → Result F
  pub sync : F → Result F
  pub trunc : F → ℕ → Result F

-- What a call that succeeds has done, by the bytes of the file and their number.
pub record FileLaws {F : Type 0} (ops : FileOps F) : Type 0 where
  pub bytes : F → Memory
  pub extent : F → ℕ
  pub size_lem : (f : F) (n : ℕ) → ops.size f ≡ ok n → n ≡ extent f
  pub read_within : (f : F) (p n : ℕ) (bs : List ℕ) → ops.read f p n ≡ ok bs → p + n ≤ extent f
  pub read_lem : (f : F) (p n : ℕ) (bs : List ℕ) → ops.read f p n ≡ ok bs → bs ≡ blob (bytes f) p n
  pub write_lem :
      (f : F) (p : ℕ) (bs : List ℕ) (g : F)
      → ops.write f p bs ≡ ok g
      → (x : ℕ) → bytes g x ≡ store (bytes f) p bs x
  pub write_extent :
      (f : F) (p : ℕ) (bs : List ℕ) (g : F)
      → ops.write f p bs ≡ ok g
      → extent g ≡ max (extent f) (p + length bs)

-- Every read of bytes that the file has succeeds.
abbrev pub Readable : {F : Type 0} (ops : FileOps F) → FileLaws ops → F → Type 0
Readable ops laws f = (p n : ℕ) → p + n ≤ laws.extent f → (bs : List ℕ) × (ops.read f p n ≡ ok bs)

-- Files whose calls succeed, where reads lie within the file.
pub record Works {F : Type 0} (ops : FileOps F) (laws : FileLaws ops) : Type 0 where
  pub writes : (f : F) (p : ℕ) (bs : List ℕ) → (g : F) × (ops.write f p bs ≡ ok g)
  pub syncs : (f : F) → (g : F) × (ops.sync f ≡ ok g)
  pub sync_lem : (f g : F) → ops.sync f ≡ ok g → (x : ℕ) → laws.bytes g x ≡ laws.bytes f x
  pub sync_extent : (f g : F) → ops.sync f ≡ ok g → laws.extent g ≡ laws.extent f
  pub sizes : (f : F) → ops.size f ≡ ok (laws.extent f)
  pub reads : (f : F) → Readable ops laws f

-- `trunc` succeeds, and keeps the bytes before the new end.
pub record Cuts {F : Type 0} (ops : FileOps F) (laws : FileLaws ops) : Type 0 where
  pub cuts : (f : F) (n : ℕ) → (g : F) × (ops.trunc f n ≡ ok g)
  pub cut_lem :
      (f : F) (n : ℕ) (g : F)
      → ops.trunc f n ≡ ok g
      → (x : ℕ) → x < n
      → x < laws.extent f
      → laws.bytes g x ≡ laws.bytes f x
  pub cut_extent : (f : F) (n : ℕ) (g : F) → ops.trunc f n ≡ ok g → laws.extent g ≡ n
