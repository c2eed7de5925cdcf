-- ===== src/Stream.antt =====
-- detail/stream.hpp: the cursors over a buffer, and the reads and writes of field.hpp that go
-- through them. The buffer itself is the memory argument.
pub mod Items
use nu_db.Prelude.{ℕ, zero, suc, ◌+◌, ◌-◌, ◌%◌, ◌^◌, List, [], ◌∷◌, ltb, if◌then◌else◌, length}
use nu_db.Error.{Result, ok, thrown, ◌>>=◌}
use nu_db.Memory.{Memory, poke}
use nu_db.Field.{Field, u48, readp, writep}
use nu_db.Field

-- `istream_t`: the next byte, and the bytes left.
pub record Istream : Type 0 where
  pub buf : ℕ
  pub left : ℕ

-- `ostream_t`: the next byte, and the bytes written.
pub record Ostream : Type 0 where
  pub buf : ℕ
  pub written : ℕ

-- `istream_t::data`
unfoldable pub advance : Istream → ℕ → Result (ℕ × Istream)
advance is bytes =
    if ltb is.left bytes
    then thrown
    else ok (is.buf, record { buf = is.buf + bytes; left = is.left - bytes })

-- `ostream_t::data`
unfoldable pub extend : Ostream → ℕ → ℕ × Ostream
extend os bytes = (os.buf, record { buf = os.buf + bytes; written = os.written + bytes })

-- The bytes of a blob in memory.
unfoldable pub blob : Memory → ℕ → ℕ → List ℕ
blob m p zero = []
blob m p (suc n) = m p ∷ blob m (p + 1) n

-- `memcpy(p, bytes, length bytes)`
unfoldable pub store : Memory → ℕ → List ℕ → Memory
store m p [] = m
store m p (b ∷ bs) = store (poke m p b) (p + 1) bs

-- `read<T>(is, u)`
unfoldable pub read : Field → Memory → Istream → Result (ℕ × Istream)
unfolding advance
read f m is = do (p, rest) ← advance is (Field.size f); ok (readp f m p, rest)

-- `read(is, buffer, bytes)`
unfoldable pub read_blob : Memory → Istream → ℕ → Result (List ℕ × Istream)
unfolding advance
read_blob m is bytes = do (p, rest) ← advance is bytes; ok (blob m p bytes, rest)

-- `read_size48`, which keeps the low 32 bits
unfoldable pub read_size48 : Memory → Istream → Result (ℕ × Istream)
unfolding read
read_size48 m is = do (v, rest) ← read u48 m is; ok (v % 2 ^ 32, rest)

-- `write<T>(os, u)`
unfoldable pub write : Field → Ostream → Memory → ℕ → Ostream × Memory
unfolding extend
write f os m u = let (p, os') = extend os (Field.size f) in (os', writep f m p u)

-- `write(os, buffer, bytes)`
unfoldable pub write_blob : Ostream → Memory → List ℕ → Ostream × Memory
unfolding extend
write_blob os m bytes = let (p, os') = extend os (length bytes) in (os', store m p bytes)
