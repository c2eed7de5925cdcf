-- ===== src/Gentex.antt =====
-- detail/gentex.hpp: the mutex that counts its holders by generation, and its RAII lock. Each
-- method runs under the internal mutex, so that a method is one step. The counters count
-- threads and commits, and do not grow to 2^64.
pub mod Holders
pub mod Moves
use nu_db.Prelude.{ℕ, ◌+◌, ◌-◌, ◌^◌, Bool, true, false, ◌&&◌, not, ◌==◌, if◌then◌else◌}
use nu_db.Error.{Result, ok, thrown}

pub record Gentex : Type 0 where
  pub gen : ℕ
  pub cur : ℕ
  pub prev : ℕ

abbrev pub init : Gentex
init = record { gen = 0; cur = 0; prev = 0 }

-- `start`
unfoldable pub start : Gentex → Gentex
start g = record { gen = g.gen + 1; cur = 0; prev = g.prev + g.cur }

-- `finish` returns once this test fails: `while(prev_ > 0) cond_.wait(l)`.
unfoldable pub finish_waits : Gentex → Bool
finish_waits g = not (g.prev == 0)

-- `lock_gen`
unfoldable pub lock_gen : Gentex → Gentex × ℕ
lock_gen g = (record g { cur = g.cur + 1 }, g.gen)

-- `--n` of a `std::size_t`
unfoldable pub decrement : ℕ → ℕ
decrement n = if n == 0 then 2 ^ 64 - 1 else n - 1

-- `unlock_gen`, and whether it notifies the threads that wait in `finish`.
unfoldable pub unlock_gen : Gentex → ℕ → Gentex × Bool
unfolding decrement
unlock_gen g gen =
    if gen == g.gen
    then (record g { cur = decrement g.cur }, false)
    else (let n = decrement g.prev in (record g { prev = n }, n == 0))

-- `genlock`: `attached` is whether `g_` points to the mutex. `gen_` has no initial value.
pub record Genlock : Type 0 where
  pub owned : Bool
  pub attached : Bool
  pub gen : ℕ

abbrev pub owns_lock : Genlock → Bool
owns_lock l = l.attached && l.owned

-- `lock`; both errors throw.
unfoldable pub lock : Genlock → Gentex → Result (Genlock × Gentex)
lock l g =
    if not l.attached
    then thrown
    else (if l.owned
        then thrown
        else (let (g', gen) = lock_gen g in ok (record l { gen = gen; owned = true }, g')))

-- `unlock`
unfoldable pub unlock : Genlock → Gentex → Result (Genlock × Gentex)
unlock l g =
    if not l.attached
    then thrown
    else (if not l.owned then thrown else ok (record l { owned = false }, (unlock_gen g l.gen).0))

-- `genlock(mutex_type&, std::defer_lock_t)` and `genlock(mutex_type&)`, where the memory of
-- `gen_` holds x
unfoldable pub deferred : ℕ → Genlock
deferred x = record { owned = false; attached = true; gen = x }

unfoldable pub locked : ℕ → Gentex → Result (Genlock × Gentex)
unfolding deferred lock lock_gen
locked x g = lock (deferred x) g

-- `~genlock`
unfoldable pub destroy : Genlock → Gentex → Result Gentex
unfolding unlock
destroy l g =
    if owns_lock l
    then (elim (unlock l g) [ ok (_, g') ↦ ok g' | Result.err e ↦ Result.err e | thrown ↦ thrown ])
    else ok g

-- `genlock(genlock&&)`: the new lock, and what is left of the old one.
unfoldable pub move_construct : ℕ → Genlock → Genlock × Genlock
move_construct x other = (
  record { owned = other.owned; attached = other.attached; gen = x },
  record other { owned = false; attached = false },
)

-- `operator=(genlock&&)`
unfoldable pub move_assign : Genlock → Genlock → Gentex → Result (Genlock × Genlock × Gentex)
unfolding destroy
move_assign l other g = elim (destroy l g) [
  | ok g' ↦ ok (
    record l { owned = other.owned; attached = other.attached },
    record other { owned = false; attached = false },
    g',
  )
  | Result.err e ↦ Result.err e
  | thrown ↦ thrown
]

-- `release`
unfoldable pub release : Genlock → Genlock
release l = record l { attached = false }

-- `swap`
unfoldable pub swap : Genlock → Genlock → Genlock × Genlock
swap l r = (
  record l { owned = r.owned; attached = r.attached },
  record r { owned = l.owned; attached = l.attached },
)
