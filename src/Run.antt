-- ===== src/Run.antt =====
-- Operations that may run out of fuel, or meet the null pointer of an arena: then they give `none`.
use nu_db.Prelude.{Option, none, some}
use nu_db.Error.{Result, ok, err, thrown}

abbrev pub Run : Type 0 → Type 0
Run A = Option (Result A)

abbrev pub once : {A : Type 0} → A → Run A
once a = some (ok a)

infixl 5 ◌>>=◌
abbrev pub ◌>>=◌ : {A B : Type 0} → Run A → (A → Run B) → Run B
none >>= next = none
some (ok a) >>= next = next a
some (err e) >>= next = some (err e)
some thrown >>= next = some thrown

-- `none` is the null pointer.
abbrev pub allocated : {A : Type 0} → Option A → Run A
allocated none = none
allocated (some a) = once a
