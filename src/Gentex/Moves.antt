-- ===== src/Gentex/Moves.antt =====
-- The RAII lock over its life: taken and let go, with and without a new generation between, and
-- moved.
use nu_db.Prelude.{ℕ, ◌+◌, ◌-◌, ◌^◌, ◌≡◌, ◌≢◌, refl, arith, true, false, ◌==◌, [], ◌∷◌, ◌++◌}
use nu_db.Gentex.Holders.{Held, Reach, Counts, AllIn, former-zero, finish_returns_iff}
use nu_db.Error.{ok, thrown, ◌>>=◌}
use nu_db.Gentex.{
  Gentex, Genlock, start, finish_waits, lock_gen, decrement, unlock_gen, lock, unlock, locked,
  destroy, move_construct,
}

-- A lock that is destroyed leaves the mutex as it was before it was taken; so too where a
-- generation starts between, as if the lock had never been taken.
pub destroy-locked :
    (x : ℕ) (g : Gentex)
    → (locked x g >>= (λ r. destroy r.0 r.1) ≡ ok g)
      × (locked x g >>= (λ r. destroy r.0 (start r.1)) ≡ ok (start g))
unfolding locked destroy start unlock_gen decrement
destroy-locked x g = (ground arith, ground arith)

AllIn-drop : (n x : ℕ) (a b : Held) → AllIn n (a ++ x ∷ b) → AllIn n (a ++ b)
AllIn-drop n x [] b u = u.1
AllIn-drop n x (y ∷ a) b u = (u.0, AllIn-drop n x a b u.1)

-- `lock` throws exactly where there is no mutex or the lock is owned, and otherwise owns it.
pub lock_lem :
    (l : Genlock) (g : Gentex)
    → (l.attached ≡ false → lock l g ≡ thrown)
      × (l.owned ≡ true → lock l g ≡ thrown)
      × (l.attached ≡ true
          → l.owned ≡ false
          → lock l g ≡ ok (record l { gen = g.gen; owned = true }, record g { cur = g.cur + 1 }))
unfolding lock lock_gen
lock_lem l g = (ground arith, ground arith, ground arith)

-- The move constructor does not take `gen_` over. Where the only locks that are held are of the
-- current generation, and one of them is moved to memory that holds another number, letting go of
-- the moved lock takes one from the counter of former locks, which is zero: the counters no longer
-- count the locks, and `finish`, which returned before, waits though no former lock is held.
pub unlock-move_construct :
    (x : ℕ) (l : Genlock) (g : Gentex) (a b : Held)
    → Reach g (a ++ g.gen ∷ b)
    → AllIn g.gen (a ++ g.gen ∷ b)
    → l.owned ≡ true
    → l.attached ≡ true
    → l.gen ≡ g.gen
    → x ≢ g.gen
    → (g' : Gentex) × (unlock (move_construct x l).0 g
        ≡ ok (record l { owned = false; gen = x }, g'))
      × (finish_waits g ≡ false)
      × (finish_waits g' ≡ true)
      × (¬ Counts g' (a ++ b))
unfolding unlock move_construct unlock_gen decrement
unlock-move_construct x l g a b r all o at e n =
    let returns = (finish_returns_iff g (a ++ g.gen ∷ b) r).1 all in
    let prev : g.prev ≡ 0 = unfold finish_waits in ground arith in
    let rest = AllIn-drop g.gen g.gen a b all in
    let none_former = (former-zero g.gen (a ++ b)).1 rest in
    let other : (x == g.gen) ≡ false = ground (arith, n) in
    (
      record g { prev = 2 ^ 64 - 1 },
      rw (at, o, other, prev) refl,
      returns,
      unfold finish_waits in refl,
      λ v. absurd (omega (arith, v.prev, none_former)),
    )
