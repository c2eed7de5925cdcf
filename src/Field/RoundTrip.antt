-- ===== src/Field/RoundTrip.antt =====
-- Laws of the encoded integers: what is read back, what a write leaves alone, and the bounds.
use nu_db.Prelude.{ℕ, ◌+◌, ◌/◌, ◌%◌, ◌^◌, ◌≤◌, ◌<◌, ◌≡◌, ◌⊎◌, arith}
use native.Mathlib.Nat.{add-zero}
use nu_db.Memory.{Memory, IsBytes, poke}
use nu_db.Field.{Field, u8, u16, u24, u32, u48, u64, size, max, cast, readp, writep, put}

size-pos : (f : Field) → 0 < size f
size-pos u8 = omega arith
size-pos u16 = omega arith
size-pos u24 = omega arith
size-pos u32 = omega arith
size-pos u48 = omega arith
size-pos u64 = omega arith

put_frame : (f : Field) (m : Memory) (p t x : ℕ) → (x < p) ⊎ (p + size f ≤ x) → put f m p t x ≡ m x
unfolding put poke
put_frame u8 m p t x h = ground arith
put_frame u16 m p t x h = ground arith
put_frame u24 m p t x h = ground arith
put_frame u32 m p t x h = ground arith
put_frame u48 m p t x h = ground arith
put_frame u64 m p t x h = ground arith

-- A write changes no byte but those of the field.
pub writep_frame :
    (f : Field) (m : Memory) (p v x : ℕ) → (x < p) ⊎ (p + size f ≤ x) → writep f m p v x ≡ m x
unfolding writep
writep_frame f m p v x h = put_frame f m p (v % cast f) x h

-- The bytes that a 48-bit write stores, in order.
pub put_bytes48 :
    (m : Memory) (p t : ℕ)
    → let w = put u48 m p t in
      (w p ≡ t / 2 ^ 40 % 256)
      × (w (p + 1) ≡ t / 2 ^ 32 % 256)
      × (w (p + 2) ≡ t / 2 ^ 24 % 256)
      × (w (p + 3) ≡ t / 2 ^ 16 % 256)
      × (w (p + 4) ≡ t / 2 ^ 8 % 256)
      × (w (p + 5) ≡ t % 256)
unfolding put poke
put_bytes48 m p t =
    (ground arith, ground arith, ground arith, ground arith, ground arith, ground arith)

-- The bytes that a 64-bit write stores, in order.
put_bytes64 :
    (m : Memory) (p t : ℕ)
    → let w = put u64 m p t in
      (w p ≡ t / 2 ^ 56 % 256)
      × (w (p + 1) ≡ t / 2 ^ 48 % 256)
      × (w (p + 2) ≡ t / 2 ^ 40 % 256)
      × (w (p + 3) ≡ t / 2 ^ 32 % 256)
      × (w (p + 4) ≡ t / 2 ^ 24 % 256)
      × (w (p + 5) ≡ t / 2 ^ 16 % 256)
      × (w (p + 6) ≡ t / 2 ^ 8 % 256)
      × (w (p + 7) ≡ t % 256)
unfolding put poke
put_bytes64 m p t = (
  ground arith,
  ground arith,
  ground arith,
  ground arith,
  ground arith,
  ground arith,
  ground arith,
  ground arith,
)

-- A field that is read where a number was written gives the number's low bits, as many as the
-- field has.
pub readp-writep : (f : Field) (m : Memory) (p t : ℕ) → readp f (writep f m p t) p ≡ t % (max f + 1)
unfolding readp writep
readp-writep u8 m p t = unfold put poke in ground arith
readp-writep u16 m p t = unfold put poke in ground arith
readp-writep u24 m p t = unfold put poke in ground arith
readp-writep u32 m p t = unfold put poke in ground arith
readp-writep u48 m p t = omega (arith, put_bytes48 m p (t % 2 ^ 64))
readp-writep u64 m p t = omega (arith, put_bytes64 m p (t % 2 ^ 64))

-- A read depends on the bytes of the field only.
pub readp_congr :
    (f : Field) (m n : Memory) (p q : ℕ)
    → ((k : ℕ) → k < size f → m (p + k) ≡ n (q + k))
    → readp f m p ≡ readp f n q
unfolding readp
readp_congr f m n p q h = go f (rw (add-zero p, add-zero q) at (h 0 (size-pos f))) h
  where
    go :
        (f : Field)
        → m p ≡ n q
        → ((k : ℕ) → k < size f → m (p + k) ≡ n (q + k))
        → readp f m p ≡ readp f n q
    go u8 e h = e
    go u16 e h = rw (e, h 1 (omega arith))
    go u24 e h = rw (e, h 1 (omega arith), h 2 (omega arith))
    go u32 e h = rw (e, h 1 (omega arith), h 2 (omega arith), h 3 (omega arith))
    go u48 e h = rw (
      e,
      h 1 (omega arith),
      h 2 (omega arith),
      h 3 (omega arith),
      h 4 (omega arith),
      h 5 (omega arith),
    )
    go u64 e h = rw (
      e,
      h 1 (omega arith),
      h 2 (omega arith),
      h 3 (omega arith),
      h 4 (omega arith),
      h 5 (omega arith),
      h 6 (omega arith),
      h 7 (omega arith),
    )

-- Where memory holds bytes, the number that is read from a field is at most the field's `max`.
pub readp-le-max : (f : Field) (m : Memory) (p : ℕ) → IsBytes m → readp f m p ≤ max f
unfolding readp
readp-le-max u8 m p b = omega (arith, b p)
readp-le-max u16 m p b = omega (arith, b p, b (p + 1))
readp-le-max u24 m p b = omega (arith, b p, b (p + 1), b (p + 2))
readp-le-max u32 m p b = omega (arith, b p, b (p + 1), b (p + 2), b (p + 3))
readp-le-max u48 m p b = omega (arith, b p, b (p + 1), b (p + 2), b (p + 3), b (p + 4), b (p + 5))
readp-le-max u64 m p b =
    omega (arith, b p, b (p + 1), b (p + 2), b (p + 3), b (p + 4), b (p + 5), b (p + 6), b (p + 7))

poke-IsBytes : (m : Memory) (p v : ℕ) → IsBytes m → IsBytes (poke m p (v % 256))
unfolding poke
poke-IsBytes m p v b x = ground (arith, b x)

-- A write keeps every cell a byte.
pub writep-IsBytes : (f : Field) (m : Memory) (p v : ℕ) → IsBytes m → IsBytes (writep f m p v)
unfolding writep put
writep-IsBytes u8 m p v b = (poke-IsBytes _ _ _ b)
writep-IsBytes u16 m p v b = (poke-IsBytes _ _ _ (poke-IsBytes _ _ _ b))
writep-IsBytes u24 m p v b = (poke-IsBytes _ _ _ (poke-IsBytes _ _ _ (poke-IsBytes _ _ _ b)))
writep-IsBytes u32 m p v b =
    (poke-IsBytes _ _ _ (poke-IsBytes _ _ _ (poke-IsBytes _ _ _ (poke-IsBytes _ _ _ b))))
writep-IsBytes u48 m p v b =
    (poke-IsBytes _ _ _ (
      poke-IsBytes _ _ _
        (poke-IsBytes _ _ _ (poke-IsBytes _ _ _ (poke-IsBytes _ _ _ (poke-IsBytes _ _ _ b))))))
writep-IsBytes u64 m p v b =
    (poke-IsBytes _ _ _ (
      poke-IsBytes _ _ _ (
        poke-IsBytes _ _ _ (
          poke-IsBytes _ _ _ (
            poke-IsBytes _ _ _ (poke-IsBytes _ _ _ (poke-IsBytes _ _ _ (poke-IsBytes _ _ _ b))))))))
