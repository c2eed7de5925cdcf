-- ===== src/Tests/Commits.antt =====
-- Two pairs that are written through a buffer of sixteen bytes.
use nu_db.Prelude.{ℕ, ◌≡◌, refl, List, [], ◌∷◌, arith}
use nu_db.Error.{ok}
use nu_db.BulkIo.{Writer, writer}
use nu_db.Pool.{Item}
use nu_db.Commit.{write_values}
use nu_db.Commit.Values.{Appends, write_values-Appends}
use nu_db.Tests.Device.{Device, blank, device, device_laws}

abbrev first : Item
first = record { hash = 7; size = 3; key = 1 ∷ 9 ∷ []; content = 5 ∷ 5 ∷ 5 ∷ [] }

abbrev second : Item
second = record { hash = 8; size = 1; key = 2 ∷ 4 ∷ []; content = 6 ∷ [] }

abbrev waiting : List (Item × ℕ)
waiting = (first, 0) ∷ (second, 0) ∷ []

abbrev behind_header : Writer Device
behind_header = writer (λ x. 7) blank 92 16

write_values-Appends_example :
    (rs : List (Item × ℕ)) × (v : Writer Device) × (write_values device
        (λ x. 7)
        2
        behind_header
        waiting
      ≡ ok (rs, v))
    × Appends device device_laws (λ x. 7) 2 behind_header waiting rs v
write_values-Appends_example =
    write_values-Appends device device_laws (λ x. 7) 2 behind_header waiting (λ f p bs. (_, refl))
      ((refl, refl, omega arith, omega arith), ((refl, refl, omega arith, omega arith), tt))
