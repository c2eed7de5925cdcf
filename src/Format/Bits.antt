-- ===== src/Format/Bits.antt =====
-- `&` on numbers, from its digits: with itself, with a mask of high bits, and with x - 1.
use Prim.Native.Nat.{digits, bit_and-bitwise}
use nu_db.Prelude.{
  ℕ, zero, suc, ◌+◌, ◌-◌, ◌*◌, ◌/◌, ◌%◌, ◌^◌, ◌≤◌, ◌<◌, min, bit_and, ◌≡◌, refl, sym, ap, ◌∙◌, inl,
  inr, arith, ◌==◌, Bool-cases,
}
use native.Mathlib.Nat.{pow-suc, div-div-eq-div-mul}

-- The digits that the two numbers share, from as many steps.
abbrev shared : ℕ → ℕ → ℕ → ℕ
shared steps x y = digits (λ rest. zero) min steps x y

shared_none : (steps y : ℕ) → shared steps zero y ≡ zero
shared_none zero y = refl
shared_none (suc steps) y = refl

-- More steps than there are digits make no difference.
shared_steps : (x y s t : ℕ) → x ≤ s → x ≤ t → shared s x y ≡ shared t x y
shared_steps zero y s t p q = shared_none s y ∙ sym (shared_none t y)
shared_steps (suc x) y zero t p q = absurd (omega arith)
shared_steps (suc x) y (suc s) zero p q = absurd (omega arith)
shared_steps (suc x) y (suc s) (suc t) p q =
    let half = shared_steps (suc x / 2) (y / 2) s t (omega arith) (omega arith) in
    omega (arith, half)

pub pow-pos : (k : ℕ) → 0 < 2 ^ k
pow-pos zero = omega arith
pow-pos (suc k) = omega (arith, pow-suc 2 k, pow-pos k)

zero-bit_and : (b : ℕ) → bit_and 0 b ≡ 0
zero-bit_and b = bit_and-bitwise 0 b

-- The lowest digit, and the others.
bit_and_step : (x y : ℕ) → bit_and x y ≡ min (x % 2) (y % 2) + 2 * bit_and (x / 2) (y / 2)
bit_and_step zero y = omega (arith, zero-bit_and (y / 2), zero-bit_and y)
bit_and_step (suc x) y =
    let half = suc x / 2 in
    let steps = shared_steps half (y / 2) half x (omega arith) (omega arith) in
    omega (arith, steps, bit_and-bitwise half (y / 2), bit_and-bitwise (suc x) y)

-- A double shares no lowest bit.
bit_and_double : (a b : ℕ) → bit_and a (b * 2) ≡ bit_and (a / 2) b * 2
bit_and_double a b =
    let e : b * 2 / 2 ≡ b = omega arith in
    omega (arith, bit_and_step a (b * 2), ap (bit_and (a / 2)) e)

bit_and_self : (n a : ℕ) → a ≤ n → bit_and a a ≡ a
bit_and_self n zero h = zero-bit_and 0
bit_and_self zero (suc a) h = absurd (omega arith)
bit_and_self (suc n) (suc a) h =
    omega (arith, bit_and_step (suc a) (suc a), bit_and_self n (suc a / 2) (omega arith))

-- x = 2 y + 1 and x - 1 share the bits of 2 y.
bit_and_pred_odd : (x : ℕ) → x % 2 ≡ 1 → bit_and x (x - 1) ≡ x - 1
bit_and_pred_odd x h =
    let e : (x - 1) / 2 ≡ x / 2 = omega arith in
    omega (
      arith,
      bit_and_step x (x - 1),
      ap (bit_and (x / 2)) e,
      bit_and_self (x / 2) (x / 2) (omega arith),
    )

bit_and_pred_even :
    (x : ℕ) → 0 < x → x % 2 ≡ 0 → bit_and x (x - 1) ≡ bit_and (x / 2) (x / 2 - 1) * 2
bit_and_pred_even x p h =
    let e : (x - 1) / 2 ≡ x / 2 - 1 = omega arith in
    omega (arith, bit_and_step x (x - 1), ap (bit_and (x / 2)) e)

-- `x & (x - 1)` is zero at the powers of two only.
pub bit_and_pred_zero : (n x : ℕ) → x ≤ n → 0 < x → bit_and x (x - 1) ≡ 0 → (k : ℕ) × (x ≡ 2 ^ k)
bit_and_pred_zero zero x h p e = absurd (omega arith)
bit_and_pred_zero (suc n) x h p e = elim (Bool-cases (x % 2 == 0)) [
  | inr odd ↦ (0, ground (arith, bit_and_pred_odd x))
  | inl even ↦
      let (k, q) =
        bit_and_pred_zero n (x / 2) (omega arith) (ground arith)
          (ground (arith, bit_and_pred_even x)) in
      (suc k, ground (arith, pow-suc 2 k))
]

pub bit_and_pred_pow : (k : ℕ) → bit_and (2 ^ k) (2 ^ k - 1) ≡ 0
bit_and_pred_pow zero = refl
bit_and_pred_pow (suc k) =
    let e : 2 ^ suc k / 2 ≡ 2 ^ k = omega (arith, pow-suc 2 k) in
    let pos : 0 < 2 ^ suc k = omega (arith, pow-pos k, pow-suc 2 k) in
    let even : 2 ^ suc k % 2 ≡ 0 = omega (arith, pow-suc 2 k) in
    bit_and_pred_even (2 ^ suc k) pos even ∙ rw (e, bit_and_pred_pow k) refl

bit_and-zero : (bound x : ℕ) → x ≤ bound → bit_and x 0 ≡ 0
bit_and-zero bound zero h = zero-bit_and 0
bit_and-zero zero (suc x) h = absurd (omega arith)
bit_and-zero (suc bound) (suc x) h =
    let half = bit_and-zero bound (suc x / 2) (omega arith) in
    omega (arith, half, bit_and_step (suc x) 0)

-- A mask of ones keeps a number that is no wider.
bit_and_ones : (k a : ℕ) → a < 2 ^ k → bit_and a (2 ^ k - 1) ≡ a
bit_and_ones zero a h = omega (arith, bit_and-zero a a (omega arith))
bit_and_ones (suc k) a h =
    let e : (2 ^ suc k - 1) / 2 ≡ 2 ^ k - 1 = omega (arith, pow-suc 2 k) in
    omega (
      arith,
      pow-suc 2 k,
      pow-pos k,
      bit_and_step a (2 ^ suc k - 1),
      ap (bit_and (a / 2)) e,
      bit_and_ones k (a / 2) (omega (arith, pow-suc 2 k)),
    )

-- A mask moved up by k digits.
bit_and_shift : (k a b : ℕ) → bit_and a (b * 2 ^ k) ≡ bit_and (a / 2 ^ k) b * 2 ^ k
bit_and_shift zero a b =
    let e : b * 2 ^ zero ≡ b = omega arith in
    let f : a / 2 ^ zero ≡ a = omega arith in rw (e, f) (omega arith)
bit_and_shift (suc k) a b =
    let e : b * 2 ^ suc k ≡ b * 2 * 2 ^ k = rw (pow-suc 2 k) (omega arith) in
    let f : a / 2 ^ suc k ≡ a / 2 ^ k / 2 =
      rw (pow-suc 2 k) (sym (div-div-eq-div-mul a (2 ^ k) 2)) in
    rw (e, f, bit_and_shift k a (b * 2), bit_and_double (a / 2 ^ k) b, pow-suc 2 k) (omega arith)

-- The mask of the upper k of 2 k bits keeps the upper bits.
pub bit_and_upper :
    (k x : ℕ) → x < 2 ^ k * 2 ^ k → bit_and x ((2 ^ k - 1) * 2 ^ k) ≡ x / 2 ^ k * 2 ^ k
bit_and_upper k x h = rw (bit_and_shift k x (2 ^ k - 1), bit_and_ones k (x / 2 ^ k) (grind arith))

pub pow-add : (a b : ℕ) → 2 ^ (a + b) ≡ 2 ^ a * 2 ^ b
pow-add a zero = let e : a + zero ≡ a = omega arith in rw e (omega arith)
pow-add a (suc b) =
    let e : a + suc b ≡ suc (a + b) = omega arith in
    rw (e, pow-suc 2 (a + b), pow-suc 2 b, pow-add a b) (omega arith)
