-- ===== src/Format/CeilPow2.antt =====
-- `ceil_pow2` gives the least power of two that is not less than its argument.
use nu_db.Prelude.{
  ℕ, zero, suc, ◌+◌, ◌-◌, ◌*◌, ◌/◌, ◌%◌, ◌^◌, ◌≤◌, ◌<◌, bit_and, ◌≡◌, refl, ◌∙◌, sym, ap, List, [],
  ◌∷◌, false, inl, inr, arith, Bool-cases, ==_iff, ◌==◌, ltb, ltb→lt, if◌then◌else◌,
}
use native.Mathlib.Nat.{
  mod-eq_of_lt, div-one, add-zero, div-lt_iff_lt-mul, lt-div-mul-add, le-div_iff_mul-le, pow-suc,
  pow-le-pow_right,
}
use nu_db.Format.Bits.{bit_and_upper, bit_and_pred_zero, bit_and_pred_pow, pow-pos, pow-add}
use nu_db.Format.{masks, ceil_loop, ceil_pow2}

-- The masks halve a width of w bits, j at a time, down to one bit.
abbrev Halves : ℕ → ℕ → List ℕ → Type 0
Halves j w [] = w ≡ 1
Halves j w (t ∷ ts) = (w ≡ j + j) × (t ≡ (2 ^ j - 1) * 2 ^ j) × Halves (j / 2) j ts

masks-Halves : Halves 32 64 masks
masks-Halves = omega arith

-- r is the position of the highest bit of x.
abbrev IsLog : ℕ → ℕ → Type 0
IsLog r x = (2 ^ r ≤ x) × (x < 2 ^ r * 2)

IsLog-shift : (r j x : ℕ) → IsLog r (x / 2 ^ j) → IsLog (j + r) x
IsLog-shift r j x h = (
  rw (pow-add j r) (omega (arith, (le-div_iff_mul-le (pow-pos j)).0 h.0)),
  rw (pow-add j r) (omega (arith, (div-lt_iff_lt-mul (pow-pos j)).0 h.1)),
)

ceil_loop_lem :
    (ts : List ℕ) (x y j w : ℕ)
    → Halves j w ts
    → 0 < x
    → x < 2 ^ w
    → (r : ℕ) × (ceil_loop ts x y j ≡ y + r) × IsLog r x
unfolding ceil_loop
ceil_loop_lem [] x y j w h p b = (0, omega arith, (p, rw h at b))
ceil_loop_lem (t ∷ ts) x y j w (hw, ht, hs) p b = elim (Bool-cases (bit_and x t == 0)) [
  | inl small ↦
      let zero_upper : x / 2 ^ j * 2 ^ j ≡ 0 = sym upper ∙ (==_iff _ 0).0 small in
      let (r, q, l) = ceil_loop_lem ts x y (j / 2) j hs p (none_above zero_upper) in
      (r, rw (small, div-one x, add-zero y) q, l)
  | inr large ↦
      let (r, q, l) = ceil_loop_lem ts (x / 2 ^ j) (y + j) (j / 2) j hs (some_above large) (fits) in
      (j + r, rw large (omega arith), IsLog-shift r j x l)
]
  where
    bound : x < 2 ^ j * 2 ^ j
    bound = rw (hw, pow-add j j) at b

    upper : bit_and x t ≡ x / 2 ^ j * 2 ^ j
    upper = rw ht (bit_and_upper j x bound)

    none_above : x / 2 ^ j * 2 ^ j ≡ 0 → x < 2 ^ j
    none_above e = omega (arith, lt-div-mul-add {a = x} (pow-pos j))

    some_above : (bit_and x t == 0) ≡ false → 0 < x / 2 ^ j
    some_above e = grind (arith, upper)

    fits : x / 2 ^ j < 2 ^ j
    fits = (div-lt_iff_lt-mul (pow-pos j)).1 bound

pred_wrap : (x : ℕ) → 0 < x → x < 2 ^ 64 → (x + 2 ^ 64 - 1) % 2 ^ 64 ≡ x - 1
pred_wrap x p h = omega arith

pow-lt-63 : (k : ℕ) → 2 ^ k ≤ 2 ^ 63 → 2 ^ k % 2 ^ 64 ≡ 2 ^ k
pow-lt-63 k h = mod-eq_of_lt (omega arith)

pub pow_reflect : (a b : ℕ) → 2 ^ a < 2 ^ b → a < b
pow_reflect a b h = elim (Bool-cases (ltb a b)) [
  | inl less ↦ ltb→lt a b less
  | inr more ↦
      let e : b + (a - b) ≡ a = ground arith in
      absurd (grind (arith, ap (◌^◌ 2) e, pow-add b (a - b), pow-pos (a - b), pow-pos b))
]

le_down : {a b : ℕ} → a < suc b → a ≤ b
le_down h = omega arith

differ : (r x : ℕ) → 2 ^ r ≡ x → (bit_and x (x - 1) == 0) ≡ false → ⊥
differ r x e h = cc (rw (← e, bit_and_pred_pow r) at h)

ceil_pow2_value :
    (x y r k : ℕ)
    → 0 < x
    → x < 2 ^ 64
    → (if bit_and x (x - 1) == 0 then 0 else 1) ≡ y
    → ceil_loop masks x y 32 ≡ y + r
    → y + r ≡ k
    → 2 ^ k ≤ 2 ^ 63
    → ceil_pow2 x ≡ 2 ^ k
unfolding ceil_pow2
ceil_pow2_value x y r k p h e q f b = rw (pred_wrap x p h, e, q, f) (pow-lt-63 k b)

-- For every argument up to 2^63 the result is a power of two that is not less, and the least
-- such; at 0 it is 1.
pub ceil_pow2-least :
    (x : ℕ)
    → x ≤ 2 ^ 63
    → (k : ℕ) × (ceil_pow2 x ≡ 2 ^ k) × (x ≤ 2 ^ k) × (0 < x → 2 ^ k < 2 * x) × (x ≡ 0 → k ≡ 0)
ceil_pow2-least zero h =
    (0, unfold ceil_pow2 ceil_loop in refl, omega arith, omega arith, λ e. refl)
ceil_pow2-least (suc n) h = elim (Bool-cases (bit_and x (x - 1) == 0)) [
  | inl power ↦
      let (m, em) = bit_and_pred_zero x x (omega arith) (omega arith) ((==_iff _ 0).0 power) in
      let (r, q, l) = ceil_loop_lem masks x 0 32 64 masks-Halves (omega arith) (omega arith) in
      (
        r,
        ceil_pow2_value x 0 r r (omega arith) (omega arith) (rw power refl) q (omega arith)
            (omega arith),
        exact m r em l,
        omega arith,
        omega arith,
      )
  | inr other ↦
      let (r, q, l) = ceil_loop_lem masks x 1 32 64 masks-Halves (omega arith) (omega arith) in
      let ne : 2 ^ r < x = above r l other in
      (
        suc r,
        ceil_pow2_value x 1 r (suc r) (omega arith) (omega arith) (rw other refl) q (omega arith)
            (pow-le-pow_right (omega arith) (pow_reflect r 63 (omega arith))),
        omega (arith, pow-suc 2 r),
        omega (arith, pow-suc 2 r),
        omega arith,
      )
]
  where
    x : ℕ
    x = suc n

    exact : (m r : ℕ) → x ≡ 2 ^ m → IsLog r x → x ≤ 2 ^ r
    exact m r e l =
        let less : m < suc r = pow_reflect m (suc r) (omega (arith, pow-suc 2 r)) in
        let le' : 2 ^ m ≤ 2 ^ r = pow-le-pow_right (omega arith) (le_down less) in omega arith

    above : (r : ℕ) → IsLog r x → (bit_and x (x - 1) == 0) ≡ false → 2 ^ r < x
    above r l other = elim (Bool-cases (2 ^ r == x)) [
      | inl same ↦ absurd (differ r x ((==_iff (2 ^ r) x).0 same) other)
      | inr differs ↦ ground arith
    ]
