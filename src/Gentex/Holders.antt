-- ===== src/Gentex/Holders.antt =====
-- The counters against the locks that are held, over every order of the calls.
use nu_db.Prelude.{
  ℕ, ◌+◌, ◌≤◌, ◌<◌, ◌≡◌, ◌↔◌, refl, List, [], ◌∷◌, ◌++◌, arith, true, false, ◌==◌, if◌then◌else◌,
  Bool-cases, inl, inr,
}
use nu_db.Gentex.{Gentex, init, start, finish_waits, lock_gen, decrement, unlock_gen}

-- The locks that are held, by the generation that each was given.
abbrev pub Held : Type 0
Held = List ℕ

-- How many were taken in a generation, and how many in another.
unfoldable pub current : ℕ → Held → ℕ
current n [] = 0
current n (x ∷ xs) = (if x == n then 1 else 0) + current n xs

unfoldable pub former : ℕ → Held → ℕ
former n [] = 0
former n (x ∷ xs) = (if x == n then 0 else 1) + former n xs

-- No lock comes from a later generation.
abbrev pub UpTo : ℕ → Held → Type 0
UpTo n [] = Unit {0}
UpTo n (x ∷ xs) = (x ≤ n) × UpTo n xs

-- The calls of threads: a lock is taken, one of the held locks is let go, `start`, and `finish`
-- that returns.
pub data Step : Gentex → Held → Gentex → Held → Type 0 where
  locks : (g : Gentex) (h : Held) → Step g h (lock_gen g).0 ((lock_gen g).1 ∷ h)
  unlocks : (g : Gentex) (a b : Held) (x : ℕ) → Step g (a ++ x ∷ b) (unlock_gen g x).0 (a ++ b)
  starts : (g : Gentex) (h : Held) → Step g h (start g) h
  finishes : (g : Gentex) (h : Held) → finish_waits g ≡ false → Step g h g h

pub data Reach : Gentex → Held → Type 0 where
  here : Reach init []
  next : {g g' : Gentex} {h h' : Held} → Reach g h → Step g h g' h' → Reach g' h'

pub record Counts (g : Gentex) (h : Held) : Type 0 where
  pub cur : g.cur ≡ current g.gen h
  pub prev : g.prev ≡ former g.gen h
  pub up_to : UpTo g.gen h

current-append : (n : ℕ) (a b : Held) → current n (a ++ b) ≡ current n a + current n b
unfolding current
current-append n [] b = omega arith
current-append n (x ∷ a) b = omega (arith, current-append n a b)

former-append : (n : ℕ) (a b : Held) → former n (a ++ b) ≡ former n a + former n b
unfolding former
former-append n [] b = omega arith
former-append n (x ∷ a) b = omega (arith, former-append n a b)

UpTo-drop : (n x : ℕ) (a b : Held) → UpTo n (a ++ x ∷ b) → UpTo n (a ++ b)
UpTo-drop n x [] b u = u.1
UpTo-drop n x (y ∷ a) b u = (u.0, UpTo-drop n x a b u.1)

UpTo-suc : (n : ℕ) (h : Held) → UpTo n h → UpTo (n + 1) h
UpTo-suc n [] u = tt
UpTo-suc n (x ∷ h) u = (omega arith, UpTo-suc n h u.1)

-- All locks that are held when a generation starts are of a former one.
all_former :
    (n : ℕ) (h : Held)
    → UpTo n h
    → (current (n + 1) h ≡ 0) × (former (n + 1) h ≡ current n h + former n h)
unfolding current former
all_former n [] u = (refl, refl)
all_former n (x ∷ h) u = ground (arith, all_former n h u.1)

unlock-Counts :
    (g : Gentex) (a b : Held) (x : ℕ)
    → Counts g (a ++ x ∷ b)
    → Counts (unlock_gen g x).0 (a ++ b) × (0 < (if x == g.gen then g.cur else g.prev))
unfolding unlock_gen decrement current former
unlock-Counts g a b x v =
    let drop = UpTo-drop g.gen x a b v.up_to in
    let c = current-append g.gen a (x ∷ b) in
    let c' = current-append g.gen a b in
    let f = former-append g.gen a (x ∷ b) in
    let f' = former-append g.gen a b in
    elim (Bool-cases (x == g.gen)) [
      | inl same ↦
          rw same (record { cur = ground arith; prev = ground arith; up_to = drop }, ground arith)
      | inr other ↦
          rw other (record { cur = ground arith; prev = ground arith; up_to = drop }, ground arith)
    ]

Step-Counts : {g g' : Gentex} {h h' : Held} → Step g h g' h' → Counts g h → Counts g' h'
Step-Counts (locks g h) v =
    unfold lock_gen current former in
    record { cur = ground arith; prev = ground arith; up_to = (omega arith, v.up_to) }
Step-Counts (unlocks g a b x) v = (unlock-Counts g a b x v).0
Step-Counts (starts g h) v =
    unfold start in
    record {
      cur = ground (arith, all_former g.gen h v.up_to);
      prev = ground (arith, all_former g.gen h v.up_to);
      up_to = UpTo-suc g.gen h v.up_to;
    }
Step-Counts (finishes g h e) v = v

init-Counts : Counts init []
unfolding current former
init-Counts = record { cur = refl; prev = refl; up_to = tt }

-- In every order of the calls the two counters are the numbers of locks held from the current
-- generation and from former ones.
pub Reach-Counts : {g : Gentex} {h : Held} → Reach g h → Counts g h
Reach-Counts here = init-Counts
Reach-Counts (next r s) = Step-Counts s (Reach-Counts r)

-- Every lock that is held was taken in the generation n.
abbrev pub AllIn : ℕ → Held → Type 0
AllIn n [] = Unit {0}
AllIn n (x ∷ h) = (x ≡ n) × AllIn n h

pub former-zero : (n : ℕ) (h : Held) → (former n h ≡ 0) ↔ AllIn n h
unfolding former
former-zero n [] = (λ e. tt, λ a. refl)
former-zero n (x ∷ h) = (
  λ e. (ground arith, (former-zero n h).0 (ground arith)),
  λ a. ground (arith, (former-zero n h).1 a.1),
)

-- In every order of the calls `finish` returns exactly where each lock that is held was taken
-- after the last `start`.
pub finish_returns_iff :
    (g : Gentex) (h : Held) → Reach g h → (finish_waits g ≡ false) ↔ AllIn g.gen h
unfolding finish_waits
finish_returns_iff g h r =
    let v = Reach-Counts r in
    (λ e. (former-zero g.gen h).0 (ground arith), λ a. ground (arith, (former-zero g.gen h).1 a))

-- In every order of the calls, letting go of a lock that is held never takes a counter below zero, and where it ends the wait of `finish`
-- it notifies.
pub unlock_gen-wakes :
    (g : Gentex) (a b : Held) (x : ℕ)
    → Reach g (a ++ x ∷ b)
    → (0 < (if x == g.gen then g.cur else g.prev))
      × (finish_waits g ≡ true
          → finish_waits (unlock_gen g x).0 ≡ false
          → (unlock_gen g x).1 ≡ true)
unlock_gen-wakes g a b x r = (
  (unlock-Counts g a b x (Reach-Counts r)).1,
  unfold finish_waits unlock_gen decrement in ground arith,
)
