-- ===== src/Field/Bytes.antt =====
-- A number that is read from some bytes and written elsewhere: the bytes are the same.
use nu_db.Prelude.{ℕ, zero, suc, ◌+◌, ◌/◌, ◌%◌, ◌^◌, ◌<◌, ◌*◌, ◌≡◌, ◌∙◌, arith}
use native.Mathlib.Nat.{add-zero}
use nu_db.Memory.{Memory, IsBytes, poke}
use nu_db.Field.{u16, u48, readp, writep, put}
use nu_db.Field.RoundTrip.{put_bytes48}

digits48 :
    (a b c d e f : ℕ)
    → a < 256
    → b < 256
    → c < 256
    → d < 256
    → e < 256
    → f < 256
    → let t = a * 2 ^ 40 + b * 2 ^ 32 + c * 2 ^ 24 + d * 2 ^ 16 + e * 2 ^ 8 + f in
      (t % 2 ^ 64 ≡ t)
      × (t / 2 ^ 40 % 256 ≡ a)
      × (t / 2 ^ 32 % 256 ≡ b)
      × (t / 2 ^ 24 % 256 ≡ c)
      × (t / 2 ^ 16 % 256 ≡ d)
      × (t / 2 ^ 8 % 256 ≡ e)
      × (t % 256 ≡ f)
digits48 a b c d e f h1 h2 h3 h4 h5 h6 =
    (omega arith, omega arith, omega arith, omega arith, omega arith, omega arith, omega arith)

digits16 :
    (a b : ℕ)
    → a < 256
    → b < 256
    → let t = a * 2 ^ 8 + b in (t % 2 ^ 16 ≡ t) × (t / 2 ^ 8 % 256 ≡ a) × (t % 256 ≡ b)
digits16 a b h1 h2 = (omega arith, omega arith, omega arith)

put_bytes16 :
    (m : Memory) (p t : ℕ)
    → let w = put u16 m p t in (w p ≡ t / 2 ^ 8 % 256) × (w (p + 1) ≡ t % 256)
unfolding put poke
put_bytes16 m p t = (ground arith, ground arith)

pub writep-readp16 :
    (m s : Memory) (p q k : ℕ)
    → IsBytes s
    → k < 2
    → writep u16 m p (readp u16 s q) (p + k) ≡ s (q + k)
unfolding writep readp
writep-readp16 m s p q zero b h =
    let t = digits16 (s q) (s (q + 1)) (b q) (b (q + 1)) in
    rw (add-zero p, add-zero q, t.0) ((put_bytes16 m p _).0 ∙ t.1)
writep-readp16 m s p q (suc zero) b h =
    let t = digits16 (s q) (s (q + 1)) (b q) (b (q + 1)) in rw t.0 ((put_bytes16 m p _).1 ∙ t.2)
writep-readp16 m s p q (suc (suc k)) b h = absurd (omega arith)

bytes48 :
    (m s : Memory) (p q : ℕ)
    → IsBytes s
    → let w = writep u48 m p (readp u48 s q) in
      (w p ≡ s q)
      × (w (p + 1) ≡ s (q + 1))
      × (w (p + 2) ≡ s (q + 2))
      × (w (p + 3) ≡ s (q + 3))
      × (w (p + 4) ≡ s (q + 4))
      × (w (p + 5) ≡ s (q + 5))
unfolding writep readp
bytes48 m s p q b =
    let (same, d0, d1, d2, d3, d4, d5) =
      digits48 (s q) (s (q + 1)) (s (q + 2)) (s (q + 3)) (s (q + 4)) (s (q + 5)) (b q) (b (q + 1))
        (b (q + 2)) (b (q + 3)) (b (q + 4)) (b (q + 5)) in
    let (w0, w1, w2, w3, w4, w5) = put_bytes48 m p (
      s q * 2 ^ 40
      + s (q + 1) * 2 ^ 32
      + s (q + 2) * 2 ^ 24
      + s (q + 3) * 2 ^ 16
      + s (q + 4) * 2 ^ 8
      + s (q + 5)) in
    rw same (w0 ∙ d0, w1 ∙ d1, w2 ∙ d2, w3 ∙ d3, w4 ∙ d4, w5 ∙ d5)

pub writep-readp48 :
    (m s : Memory) (p q k : ℕ)
    → IsBytes s
    → k < 6
    → writep u48 m p (readp u48 s q) (p + k) ≡ s (q + k)
writep-readp48 m s p q zero b h = rw (add-zero p, add-zero q) (bytes48 m s p q b).0
writep-readp48 m s p q (suc zero) b h = (bytes48 m s p q b).1
writep-readp48 m s p q (suc (suc zero)) b h = (bytes48 m s p q b).2
writep-readp48 m s p q (suc (suc (suc zero))) b h = (bytes48 m s p q b).3
writep-readp48 m s p q (suc (suc (suc (suc zero)))) b h = (bytes48 m s p q b).4
writep-readp48 m s p q (suc (suc (suc (suc (suc zero))))) b h = (bytes48 m s p q b).5
writep-readp48 m s p q (suc (suc (suc (suc (suc (suc k)))))) b h = absurd (omega arith)
