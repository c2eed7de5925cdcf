-- ===== src/Pool/Order.antt =====
-- `memcmp` is a total order on keys of one length.
use nu_db.Prelude.{ℕ, ◌≡◌, refl, List, [], ◌∷◌, length, Ordering, arith}
use nu_db.Pool.{memcmp}

pub memcmp_refl : (xs : List ℕ) → memcmp xs xs ≡ Ordering.eq
unfolding memcmp
memcmp_refl [] = refl
memcmp_refl (x ∷ xs) = ground (arith, memcmp_refl xs)

pub eq_of_memcmp : (xs ys : List ℕ) → length xs ≡ length ys → memcmp xs ys ≡ Ordering.eq → xs ≡ ys
unfolding memcmp
eq_of_memcmp [] [] n h = refl
eq_of_memcmp [] (y ∷ ys) n h = absurd (omega arith)
eq_of_memcmp (x ∷ xs) [] n h = absurd (omega arith)
eq_of_memcmp (x ∷ xs) (y ∷ ys) n h = ground (arith, eq_of_memcmp xs ys)

pub gt_of_memcmp_lt :
    (xs ys : List ℕ)
    → length xs ≡ length ys
    → memcmp xs ys ≡ Ordering.lt
    → memcmp ys xs ≡ Ordering.gt
unfolding memcmp
gt_of_memcmp_lt [] ys n h = cc
gt_of_memcmp_lt (x ∷ xs) [] n h = cc
gt_of_memcmp_lt (x ∷ xs) (y ∷ ys) n h = ground (arith, gt_of_memcmp_lt xs ys)

pub lt_of_memcmp_gt :
    (xs ys : List ℕ)
    → length xs ≡ length ys
    → memcmp xs ys ≡ Ordering.gt
    → memcmp ys xs ≡ Ordering.lt
unfolding memcmp
lt_of_memcmp_gt [] ys n h = cc
lt_of_memcmp_gt (x ∷ xs) [] n h = absurd (omega arith)
lt_of_memcmp_gt (x ∷ xs) (y ∷ ys) n h = ground (arith, lt_of_memcmp_gt xs ys)

pub memcmp_trans :
    (xs ys zs : List ℕ)
    → memcmp xs ys ≡ Ordering.lt
    → memcmp ys zs ≡ Ordering.lt
    → memcmp xs zs ≡ Ordering.lt
unfolding memcmp
memcmp_trans [] ys zs h k = cc
memcmp_trans (x ∷ xs) [] zs h k = cc
memcmp_trans (x ∷ xs) (y ∷ ys) [] h k = cc
memcmp_trans (x ∷ xs) (y ∷ ys) (z ∷ zs) h k = ground (arith, memcmp_trans xs ys zs)
