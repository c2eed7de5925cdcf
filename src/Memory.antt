-- ===== src/Memory.antt =====
-- The bytes that the code reaches through pointers: an address is a number, and `memcpy`,
-- `memmove` and `memset` are the C library's.
use nu_db.Prelude.{ℕ, ◌+◌, ◌-◌, ◌<◌, ◌&&◌, ltb, leb, ◌==◌, if◌then◌else◌}

abbrev pub Memory : Type 0
Memory = ℕ → ℕ

-- The type of a byte: every cell is below 256.
abbrev pub IsBytes : Memory → Type 0
IsBytes m = (a : ℕ) → m a < 256

-- `*p = v`
unfoldable pub poke : Memory → ℕ → ℕ → Memory
poke m p v x = if x == p then v else m x

-- `memmove(m + dst, src, n)` from the memory `src` at `p`; with two memories it is `memcpy`.
unfoldable pub copy : Memory → ℕ → Memory → ℕ → ℕ → Memory
copy m dst src p n x = if leb dst x && ltb x (dst + n) then src (p + (x - dst)) else m x

-- `memset(m + p, v, n)`
unfoldable pub fill : Memory → ℕ → ℕ → ℕ → Memory
fill m p v n x = if leb p x && ltb x (p + n) then v else m x
