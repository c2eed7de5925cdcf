-- ===== src/Cache/Holds.antt =====
-- A cache keeps its buckets: what is added takes memory of its own.
use nu_db.Prelude.{
  ℕ, ◌+◌, ◌≤◌, ◌<◌, ◌≡◌, ◌≢◌, refl, sym, subst, ◌∙◌, ◌⊎◌, inl, inr, none, some, List, [], ◌∷◌,
  compare, Ordering, arith, max, leb, Bool-cases,
}
use nu_db.Memory.{Memory}
use nu_db.Arena.{Arena}
use nu_db.Arena.Disjoint.{IsArena, Taken}
use nu_db.Bucket.{load}
use nu_db.Bucket.Insert.{IsBucket}
use nu_db.Bucket.Blob.{load-IsBucket}
use nu_db.Bucket.Transfer.{same_bucket}
use nu_db.Cache.{Cache, lookup, emplace}

Ordering-cases : (o : Ordering) → (o ≡ Ordering.lt) ⊎ ((o ≡ Ordering.eq) ⊎ (o ≡ Ordering.gt))
Ordering-cases Ordering.lt = inl refl
Ordering-cases Ordering.eq = inr (inl refl)
Ordering-cases Ordering.gt = inr (inr refl)

-- The block at an address is in use, and holds a well-formed bucket.
pub record Copy (m : Memory) (a : Arena) (block_size p : ℕ) : Type 0 where
  pub count : ℕ
  pub link : ℕ
  pub bucket : IsBucket m (record { block_size = block_size; size = count; spill = link; p = p })
  pub taken : (x : ℕ) → p ≤ x → x < p + block_size → Taken a.used x

abbrev pub Copies : Memory → Arena → ℕ → List (ℕ × ℕ) → Type 0
Copies m a size [] = Unit {0}
Copies m a size ((n, p) ∷ es) = Copy m a size p × Copies m a size es

-- Two blocks of a size have no byte in common.
abbrev pub Apart : ℕ → ℕ → ℕ → Type 0
Apart size p q = (p + size ≤ q) ⊎ (q + size ≤ p)

abbrev pub ApartAll : ℕ → ℕ → List (ℕ × ℕ) → Type 0
ApartAll size p [] = Unit {0}
ApartAll size p ((n, q) ∷ es) = Apart size p q × ApartAll size p es

-- Each copy in its own memory.
abbrev pub AreApart : ℕ → List (ℕ × ℕ) → Type 0
AreApart size [] = Unit {0}
AreApart size ((n, p) ∷ es) = ApartAll size p es × AreApart size es

abbrev pub Before : ℕ → List (ℕ × ℕ) → Type 0
Before n [] = Unit {0}
Before n ((k, p) ∷ es) = (n < k) × Before n es

abbrev pub IsOrdered : List (ℕ × ℕ) → Type 0
IsOrdered [] = Unit {0}
IsOrdered ((n, p) ∷ es) = Before n es × IsOrdered es

pub record IsCache (m : Memory) (c : Cache) : Type 0 where
  pub arena : IsArena c.arena
  pub ordered : IsOrdered c.map
  pub copies : Copies m c.arena c.block_size c.map
  pub apart : AreApart c.block_size c.map

pub lookup-emplace_self :
    (n p : ℕ) (es : List (ℕ × ℕ))
    → lookup n es ≡ none
    → (lookup n (emplace n p es).1 ≡ some p) × ((emplace n p es).0 ≡ p)
unfolding lookup emplace
lookup-emplace_self n p [] h = ground arith
lookup-emplace_self n p ((k, q) ∷ es) h = ground (arith, lookup-emplace_self n p es)

pub lookup-emplace_ne :
    (n p j : ℕ) (es : List (ℕ × ℕ))
    → j ≢ n
    → IsOrdered es
    → lookup j (emplace n p es).1 ≡ lookup j es
unfolding lookup emplace
lookup-emplace_ne n p j [] ne v = ground (arith, λ (e : j ≡ n). ne e)
lookup-emplace_ne n p j ((k, q) ∷ es) ne v =
    ground (arith, λ (e : j ≡ n). ne e, lookup-emplace_ne n p j es ne v.1)

Before-trans : (j n : ℕ) (es : List (ℕ × ℕ)) → j < n → Before n es → Before j es
Before-trans j n [] lt b = tt
Before-trans j n ((k, p) ∷ es) lt b = (omega arith, Before-trans j n es lt b.1)

Before-emplace : (j n p : ℕ) (es : List (ℕ × ℕ)) → j < n → Before j es → Before j (emplace n p es).1
unfolding emplace
Before-emplace j n p [] lt b = (lt, tt)
Before-emplace j n p ((k, q) ∷ es) lt b = ground (arith, Before-emplace j n p es lt b.1)

pub emplace-IsOrdered : (n p : ℕ) (es : List (ℕ × ℕ)) → IsOrdered es → IsOrdered (emplace n p es).1
unfolding emplace
emplace-IsOrdered n p [] v = (tt, tt)
emplace-IsOrdered n p ((k, q) ∷ es) v =
    ground (arith, emplace-IsOrdered n p es v.1, Before-emplace k n p es, Before-trans n k es)

Apart-sym : (size p q : ℕ) → Apart size p q → Apart size q p
Apart-sym size p q (inl a) = inr a
Apart-sym size p q (inr a) = inl a

ApartAll-emplace :
    (size r n p : ℕ) (es : List (ℕ × ℕ))
    → Apart size r p
    → ApartAll size r es
    → ApartAll size r (emplace n p es).1
unfolding emplace
ApartAll-emplace size r n p [] a b = (a, tt)
ApartAll-emplace size r n p ((k, q) ∷ es) a b = ground (arith, ApartAll-emplace size r n p es a b.1)

pub emplace-AreApart :
    (size n p : ℕ) (es : List (ℕ × ℕ))
    → ApartAll size p es
    → AreApart size es
    → AreApart size (emplace n p es).1
unfolding emplace
emplace-AreApart size n p [] a v = (tt, tt)
emplace-AreApart size n p ((k, q) ∷ es) a v = ground (
  arith,
  ApartAll-emplace size q n p es (Apart-sym size p q a.0) v.0,
  emplace-AreApart size n p es a.1 v.1,
)

pub Copies-emplace :
    (m : Memory) (a : Arena) (size n p : ℕ) (es : List (ℕ × ℕ))
    → Copy m a size p
    → Copies m a size es
    → Copies m a size (emplace n p es).1
unfolding emplace
Copies-emplace m a size n p [] c v = (c, tt)
Copies-emplace m a size n p ((k, q) ∷ es) c v = ground (arith, Copies-emplace m a size n p es c v.1)

-- Memory that was not in use lies apart from every copy.
pub fresh-ApartAll :
    (m : Memory) (a : Arena) (size p : ℕ) (es : List (ℕ × ℕ))
    → 0 < size
    → ((x : ℕ) → p ≤ x → x < p + size → ¬ (Taken a.used x))
    → Copies m a size es
    → ApartAll size p es
fresh-ApartAll m a size p [] pos fresh v = tt
fresh-ApartAll m a size p ((n, q) ∷ es) pos fresh v =
    (apart_of, fresh-ApartAll m a size p es pos fresh v.1)
  where
    x : ℕ
    x = max p q

    clash : p < q + size → q < p + size → ⊥
    clash l r = fresh x (omega arith) (omega arith) (v.0.taken x (omega arith) (omega arith))

    apart_of : Apart size p q
    apart_of = elim (Bool-cases (leb (p + size) q)) [
      | inl left ↦ inl (ground arith)
      | inr not_left ↦ elim (Bool-cases (leb (q + size) p)) [
        | inl right ↦ inr (ground arith)
        | inr not_right ↦ absurd (clash (ground arith) (ground arith))
      ]
    ]

-- Copies whose bytes stay.
pub Copies-kept :
    (m m' : Memory) (a a' : Arena) (size : ℕ) (es : List (ℕ × ℕ))
    → ((x : ℕ) → Taken a.used x → m' x ≡ m x)
    → ((x : ℕ) → Taken a.used x → Taken a'.used x)
    → Copies m a size es
    → Copies m' a' size es
Copies-kept m m' a a' size [] same kept v = tt
Copies-kept m m' a a' size ((n, p) ∷ es) same kept v = (
  record {
    count = v.0.count;
    link = v.0.link;
    bucket = (same_bucket m m' _ v.0.bucket (λ x lo hi. same x (v.0.taken x lo hi))).0;
    taken = λ x lo hi. kept x (v.0.taken x lo hi);
  },
  Copies-kept m m' a a' size es same kept v.1,
)

-- A copy that is found is one of them, and is loaded as it stands.
pub load-lookup :
    (m m' : Memory) (a : Arena) (size j p : ℕ) (es : List (ℕ × ℕ))
    → ((x : ℕ) → Taken a.used x → m' x ≡ m x)
    → Copies m a size es
    → lookup j es ≡ some p
    → load m' size p ≡ load m size p
unfolding lookup
load-lookup m m' a size j p [] same v e = cc
load-lookup m m' a size j p ((k, q) ∷ es) same v e = elim (Ordering-cases (compare k j)) [
  | inl lt ↦ load-lookup m m' a size j p es same v.1 (rw (lt, lookup) at e)
  | inr (inl eq) ↦
      let here : q ≡ p = cc (rw (eq, lookup) at e) in
      let there = same_bucket m m' _ v.0.bucket (λ x lo hi. same x (v.0.taken x lo hi)) in
      subst (λ r. load m' size r ≡ load m size r) here
        (load-IsBucket m' _ there.0 ∙ sym (load-IsBucket m _ v.0.bucket))
  | inr (inr gt) ↦ cc (rw (gt, lookup) at e)
]
