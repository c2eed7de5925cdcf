-- ===== src/Tests/Locks.antt =====
-- Two readers and a commit on the generation mutex.
use nu_db.Prelude.{◌<◌, ◌≡◌, ◌↔◌, refl, [], ◌∷◌, true, false, arith, ◌==◌, if◌then◌else◌}
use nu_db.Error.{ok}
use nu_db.Gentex.{
  Gentex, Genlock, init, start, finish_waits, lock_gen, unlock_gen, unlock, move_construct,
}
use nu_db.Gentex.Holders.{
  Reach, here, next, locks, starts, Counts, AllIn, Reach-Counts, finish_returns_iff,
  unlock_gen-wakes,
}
use nu_db.Gentex.Moves.{unlock-move_construct}

-- A reader locks, a commit starts a generation, and another reader locks.
abbrev mixed : Gentex
mixed = (lock_gen (start (lock_gen init).0)).0

mixed-Reach : Reach mixed (1 ∷ 0 ∷ [])
unfolding lock_gen start
mixed-Reach = next (next (next here (locks init [])) (starts _ _)) (locks _ _)

Reach-Counts_example : Counts mixed (1 ∷ 0 ∷ [])
Reach-Counts_example = Reach-Counts mixed-Reach

finish_returns_iff_example : (finish_waits mixed ≡ false) ↔ AllIn mixed.gen (1 ∷ 0 ∷ [])
finish_returns_iff_example = finish_returns_iff mixed (1 ∷ 0 ∷ []) mixed-Reach

unlock_gen-wakes_example :
    (0 < (if 0 == mixed.gen then mixed.cur else mixed.prev))
    × (finish_waits mixed ≡ true
        → finish_waits (unlock_gen mixed 0).0 ≡ false
        → (unlock_gen mixed 0).1 ≡ true)
unlock_gen-wakes_example = unlock_gen-wakes mixed (1 ∷ []) [] 0 mixed-Reach

-- The older reader leaves: `finish` may return.
after_old : finish_waits (unlock_gen mixed 0).0 ≡ false
unfolding finish_waits unlock_gen lock_gen start
after_old = refl

abbrev owner : Genlock
owner = record { owned = true; attached = true; gen = 0 }

abbrev one_held : Gentex
one_held = record { gen = 0; cur = 1; prev = 0 }

one_held-Reach : Reach one_held (0 ∷ [])
unfolding lock_gen
one_held-Reach = next here (locks init [])

unlock-move_construct_example :
    (g' : Gentex) × (unlock (move_construct 5 owner).0 one_held
      ≡ ok (record owner { owned = false; gen = 5 }, g'))
    × (finish_waits one_held ≡ false)
    × (finish_waits g' ≡ true)
    × (¬ Counts g' [])
unlock-move_construct_example =
    unlock-move_construct 5 owner one_held [] [] one_held-Reach (refl, tt) refl refl refl
      (omega arith)
