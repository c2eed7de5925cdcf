-- ===== src/Field.antt =====
-- detail/field.hpp: the integers of the file format, big endian, in 1 to 8 bytes.
pub mod RoundTrip
pub mod Bytes
use nu_db.Prelude.{ℕ, ◌+◌, ◌*◌, ◌/◌, ◌%◌, ◌^◌}
use nu_db.Memory.{Memory, poke}

-- The template argument of `field`, `readp`, `read` and `write`.
pub data Field : Type 0 where
  u8 u16 u24 u32 u48 u64 : Field

-- `field<T>::size`
abbrev pub size : Field → ℕ
size u8 = 1
size u16 = 2
size u24 = 3
size u32 = 4
size u48 = 6
size u64 = 8

-- `field<T>::max`
abbrev pub max : Field → ℕ
max u8 = 0xff
max u16 = 0xffff
max u24 = 0xff_ffff
max u32 = 0xffff_ffff
max u48 = 0xffff_ffff_ffff
max u64 = 0xffff_ffff_ffff_ffff

-- `readp<T>`. The shifted bytes have no bit in common, so that `|` is a sum.
unfoldable pub readp : Field → Memory → ℕ → ℕ
readp u8 m p = m p
readp u16 m p = m p * 2 ^ 8 + m (p + 1)
readp u24 m p = m p * 2 ^ 16 + m (p + 1) * 2 ^ 8 + m (p + 2)
readp u32 m p = m p * 2 ^ 24 + m (p + 1) * 2 ^ 16 + m (p + 2) * 2 ^ 8 + m (p + 3)
readp u48 m p =
    m p * 2 ^ 40
    + m (p + 1) * 2 ^ 32
    + m (p + 2) * 2 ^ 24
    + m (p + 3) * 2 ^ 16
    + m (p + 4) * 2 ^ 8
    + m (p + 5)
readp u64 m p =
    m p * 2 ^ 56
    + m (p + 1) * 2 ^ 48
    + m (p + 2) * 2 ^ 40
    + m (p + 3) * 2 ^ 32
    + m (p + 4) * 2 ^ 24
    + m (p + 5) * 2 ^ 16
    + m (p + 6) * 2 ^ 8
    + m (p + 7)

-- The type `T` that `write` casts its argument to, by its number of values.
abbrev pub cast : Field → ℕ
cast u8 = 2 ^ 8
cast u16 = 2 ^ 16
cast u24 = 2 ^ 32
cast u32 = 2 ^ 32
cast u48 = 2 ^ 64
cast u64 = 2 ^ 64

-- The stores of `write<T>`, from the pointer that the stream hands out.
pub put : Field → Memory → ℕ → ℕ → Memory
put u8 m p t = poke m p t
put u16 m p t = poke (poke m p (t / 2 ^ 8 % 256)) (p + 1) (t % 256)
put u24 m p t =
    poke (poke (poke m p (t / 2 ^ 16 % 256)) (p + 1) (t / 2 ^ 8 % 256)) (p + 2) (t % 256)
put u32 m p t =
    poke
      (poke (poke (poke m p (t / 2 ^ 24 % 256)) (p + 1) (t / 2 ^ 16 % 256)) (p + 2)
        (t / 2 ^ 8 % 256))
      (p + 3) (t % 256)
put u48 m p t =
    let m = poke m p (t / 2 ^ 40 % 256) in
    let m = poke m (p + 1) (t / 2 ^ 32 % 256) in
    let m = poke m (p + 2) (t / 2 ^ 24 % 256) in
    let m = poke m (p + 3) (t / 2 ^ 16 % 256) in
    let m = poke m (p + 4) (t / 2 ^ 8 % 256) in poke m (p + 5) (t % 256)
put u64 m p t =
    let m = poke m p (t / 2 ^ 56 % 256) in
    let m = poke m (p + 1) (t / 2 ^ 48 % 256) in
    let m = poke m (p + 2) (t / 2 ^ 40 % 256) in
    let m = poke m (p + 3) (t / 2 ^ 32 % 256) in
    let m = poke m (p + 4) (t / 2 ^ 24 % 256) in
    let m = poke m (p + 5) (t / 2 ^ 16 % 256) in
    let m = poke m (p + 6) (t / 2 ^ 8 % 256) in poke m (p + 7) (t % 256)

unfoldable pub writep : Field → Memory → ℕ → ℕ → Memory
unfolding put
writep f m p u = put f m p (u % cast f)
