-- ===== src/Endian.antt =====
-- detail/endian.hpp: the order of the bytes of a machine word.
use nu_db.Prelude.{ℕ, ◌+◌, ◌*◌, ◌/◌, ◌%◌, ◌^◌, ◌≡◌, refl, List, [], ◌∷◌, arith}

pub data Endian : Type 0 where
  big little : Endian

-- The eight bytes of v from its lowest, or from its highest.
abbrev pub bytes_up : ℕ → List ℕ
bytes_up v =
    (v % 256)
    ∷ (v / 2 ^ 8 % 256)
    ∷ (v / 2 ^ 16 % 256)
    ∷ (v / 2 ^ 24 % 256)
    ∷ (v / 2 ^ 32 % 256)
    ∷ (v / 2 ^ 40 % 256)
    ∷ (v / 2 ^ 48 % 256)
    ∷ (v / 2 ^ 56 % 256)
    ∷ []

abbrev pub bytes_down : ℕ → List ℕ
bytes_down v =
    (v / 2 ^ 56 % 256)
    ∷ (v / 2 ^ 48 % 256)
    ∷ (v / 2 ^ 40 % 256)
    ∷ (v / 2 ^ 32 % 256)
    ∷ (v / 2 ^ 24 % 256)
    ∷ (v / 2 ^ 16 % 256)
    ∷ (v / 2 ^ 8 % 256)
    ∷ (v % 256)
    ∷ []

-- The memory of a `std::uint64_t` object on the machine.
unfoldable pub object_bytes : Endian → ℕ → List ℕ
object_bytes little v = bytes_up v
object_bytes big v = bytes_down v

-- The number that the eight bytes a0 to a7 of memory stand for: the union `U` of the source.
unfoldable pub union : Endian → ℕ → ℕ → ℕ → ℕ → ℕ → ℕ → ℕ → ℕ → ℕ
union little a0 a1 a2 a3 a4 a5 a6 a7 =
    a0
    + a1 * 2 ^ 8
    + a2 * 2 ^ 16
    + a3 * 2 ^ 24
    + a4 * 2 ^ 32
    + a5 * 2 ^ 40
    + a6 * 2 ^ 48
    + a7 * 2 ^ 56
union big a0 a1 a2 a3 a4 a5 a6 a7 =
    a7
    + a6 * 2 ^ 8
    + a5 * 2 ^ 16
    + a4 * 2 ^ 24
    + a3 * 2 ^ 32
    + a2 * 2 ^ 40
    + a1 * 2 ^ 48
    + a0 * 2 ^ 56

-- The overload with `std::false_type` stores the bytes one by one; the other one is the identity.
unfoldable pub to_little_endian : Endian → ℕ → ℕ
unfolding union
to_little_endian little v = v
to_little_endian big v =
    union big (v % 256) (v / 2 ^ 8 % 256) (v / 2 ^ 16 % 256) (v / 2 ^ 24 % 256) (v / 2 ^ 32 % 256)
      (v / 2 ^ 40 % 256) (v / 2 ^ 48 % 256) (v / 2 ^ 56 % 256)

-- In memory the result has the bytes of the argument from its lowest up, on either machine.
pub object_bytes-to_little_endian :
    (e : Endian) (v : ℕ) → object_bytes e (to_little_endian e v) ≡ bytes_up v
unfolding object_bytes to_little_endian
object_bytes-to_little_endian little v = refl
object_bytes-to_little_endian big v = ground arith
