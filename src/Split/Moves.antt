-- ===== src/Split/Moves.antt =====
-- The loop over the entries of the bucket that is split: those of the new bucket move there, and
-- the others stay in their order.
use nu_db.Prelude.{
  ℕ, zero, suc, ◌+◌, ◌*◌, ◌^◌, ◌≤◌, ◌<◌, ◌≡◌, refl, sym, ap, subst, ◌∙◌, ◌⊎◌, inl, inr, Bool, true,
  false, List, [], ◌∷◌, ◌++◌, length, length-append, arith, ltb, if◌then◌else◌, Bool-cases,
}
use nu_db.Error.{ok}
use nu_db.Memory.{Memory}
use nu_db.Format.{entry_size, bucket_capacity}
use nu_db.Bucket.{Bucket, Value, at, insert, erase, full}
use nu_db.Bucket.Entries.{entries, entries_from, entry_at, base, at_lem}
use nu_db.Bucket.Insert.{IsBucket, insert_entry}
use nu_db.Bucket.Insert.Refines.{entries-insert, insert-IsBucket}
use nu_db.Bucket.Erase.{erase_entry, entries-erase, erase-IsBucket}
use nu_db.Bucket.Transfer.{same_bucket}
use nu_db.Split.{Halves, move_entry, move_entries}

-- The specification: what stays, and the other list with what has moved into it.
unfoldable pub stays : (Value → Bool) → List Value → List Value
stays moves [] = []
stays moves (v ∷ vs) = if moves v then stays moves vs else v ∷ stays moves vs

unfoldable pub moved : (Value → Bool) → List Value → List Value → List Value
moved moves [] ws = ws
moved moves (v ∷ vs) ws = moved moves vs (if moves v then insert_entry v ws else ws)

-- Entries whose numbers fit the fields of a bucket
abbrev pub Fit : List Value → Type 0
Fit [] = Unit {0}
Fit (v ∷ vs) = ((v.offset < 2 ^ 48) × (v.size < 2 ^ 32) × (v.hash < 2 ^ 48)) × Fit vs

append_assoc : (xs ys zs : List Value) → (xs ++ ys) ++ zs ≡ xs ++ (ys ++ zs)
append_assoc [] ys zs = refl
append_assoc (x ∷ xs) ys zs = ap (λ r. x ∷ r) (append_assoc xs ys zs)

erase_entry-append :
    (us vs : List Value) (v : Value) → erase_entry (length us) (us ++ (v ∷ vs)) ≡ us ++ vs
unfolding erase_entry
erase_entry-append [] vs v = refl
erase_entry-append (u ∷ us) vs v = ap (λ r. u ∷ r) (erase_entry-append us vs v)

pub length-entries : (m : Memory) (q n : ℕ) → length (entries_from m q n) ≡ n
unfolding entries_from
length-entries m q zero = refl
length-entries m q (suc n) = omega (arith, length-entries m (q + entry_size) n)

entry-append :
    (m : Memory) (q n : ℕ) (us vs : List Value) (v : Value)
    → entries_from m q n ≡ us ++ (v ∷ vs)
    → entry_at m (q + length us * entry_size) ≡ v
unfolding entries_from
entry-append m q zero [] vs v e = cc
entry-append m q zero (u ∷ us) vs v e = cc
entry-append m q (suc n) [] vs v e = let here : q + 0 * entry_size ≡ q = omega arith in rw here cc
entry-append m q (suc n) (u ∷ us) vs v e =
    let there : q + length (u ∷ us) * entry_size ≡ q + entry_size + length us * entry_size =
      omega arith in
    rw there (entry-append m (q + entry_size) n us vs v cc)

-- Two buckets that lie apart.
abbrev pub Apart : Bucket → Bucket → Type 0
Apart b c = (b.p + b.block_size ≤ c.p) ⊎ (c.p + c.block_size ≤ b.p)

-- The state of the loop, which started in a memory: the entries that were looked at and stay, those to come, and the entries
-- of the new bucket, which has room for all that may come.
pub record IsSplit (m0 : Memory) (spill : ℕ) (s : Halves) (us vs ws : List Value) : Type 0 where
  pub first : IsBucket s.memory s.b1
  pub second : IsBucket s.memory s.b2
  pub apart : Apart s.b1 s.b2
  pub left : entries s.memory s.b1 ≡ us ++ vs
  pub right : entries s.memory s.b2 ≡ ws
  pub index : s.index ≡ length us
  pub room : s.b2.size + length vs ≤ bucket_capacity s.b2.block_size
  pub fit : Fit vs
  pub spilled : s.b1.spill ≡ spill
  pub outside :
      (x : ℕ)
      → (x < s.b1.p) ⊎ (s.b1.p + s.b1.block_size ≤ x)
      → (x < s.b2.p) ⊎ (s.b2.p + s.b2.block_size ≤ x)
      → s.memory x ≡ m0 x

index_below :
    (m0 : Memory) (spill : ℕ) (s : Halves) (us vs ws : List Value) (v : Value)
    → IsSplit m0 spill s us (v ∷ vs) ws
    → s.index < s.b1.size
index_below m0 spill s us vs ws v h = omega (
  arith,
  h.index,
  ap length h.left,
  length-entries s.memory (base s.b1) s.b1.size,
  length-append us (v ∷ vs),
)

-- An entry that stays
stay-IsSplit :
    (m0 : Memory) (spill : ℕ) (s : Halves) (us vs ws : List Value) (v : Value)
    → IsSplit m0 spill s us (v ∷ vs) ws
    → IsSplit m0 spill (move_entry false v s) (us ++ (v ∷ [])) vs ws
unfolding move_entry
stay-IsSplit m0 spill s us vs ws v h = record {
  first = h.first;
  second = h.second;
  apart = h.apart;
  left = h.left ∙ sym (append_assoc us (v ∷ []) vs);
  right = h.right;
  index = omega (arith, h.index, length-append us (v ∷ []));
  room = omega (arith, h.room);
  fit = h.fit.1;
  spilled = h.spilled;
  outside = h.outside;
}

-- An entry that moves
move-IsSplit :
    (m0 : Memory) (spill : ℕ) (s : Halves) (us vs ws : List Value) (v : Value)
    → IsSplit m0 spill s us (v ∷ vs) ws
    → IsSplit m0 spill (move_entry true v s) us vs (insert_entry v ws)
unfolding move_entry insert erase
move-IsSplit m0 spill s us vs ws v h =
    let (r1, outside1) =
      insert-IsBucket s.memory s.b2 v.offset v.size v.hash h.second
        (unfold full in ground (arith, h.room)) h.fit.0.0 h.fit.0.1 h.fit.0.2 in
    let m1 = (insert s.memory s.b2 v.offset v.size v.hash).1 in
    let b2 = (insert s.memory s.b2 v.offset v.size v.hash).0 in
    let here =
      same_bucket s.memory m1 s.b1 h.first (λ x lo hi. outside1 x (omega (arith, h.apart))) in
    let b1 = (erase m1 s.b1 s.index).0 in
    let m2 = (erase m1 s.b1 s.index).1 in
    let below = index_below m0 spill s us vs ws v h in
    let (r2, outside2) = erase-IsBucket m1 s.b1 s.index here.0 below in
    let there = same_bucket m1 m2 b2 r1 (λ x lo hi. outside2 x (omega (arith, h.apart))) in
    record {
      first = r2;
      second = there.0;
      apart = h.apart;
      left =
          entries-erase m1 s.b1 s.index below
          ∙ ap (erase_entry s.index) (here.1 ∙ h.left)
          ∙ ap (λ i. erase_entry i (us ++ (v ∷ vs))) h.index
          ∙ erase_entry-append us vs v;
      right =
          there.1
          ∙ entries-insert s.memory s.b2 v.offset v.size v.hash h.second.sorted h.fit.0.0 h.fit.0.1
              h.fit.0.2
          ∙ ap (insert_entry v) h.right;
      index = h.index;
      room = omega (arith, h.room);
      fit = h.fit.1;
      spilled = h.spilled;
      outside = λ x o1 o2. outside2 x o1 ∙ outside1 x o2 ∙ h.outside x o1 o2;
    }

pub append_nil : (xs : List Value) → xs ++ [] ≡ xs
append_nil [] = refl
append_nil (x ∷ xs) = ap (λ r. x ∷ r) (append_nil xs)

-- The loop comes to its end.
pub move_entries-IsSplit :
    (moves : Value → Bool) (fuel : ℕ) (m0 : Memory) (spill : ℕ) (s : Halves) (us vs ws : List Value)
    → length vs ≤ fuel
    → IsSplit m0 spill s us vs ws
    → (r : Halves) × (move_entries moves fuel s ≡ ok r)
      × IsSplit m0 spill r (us ++ stays moves vs) [] (moved moves vs ws)
unfolding move_entries stays moved
move_entries-IsSplit moves zero m0 spill s us [] ws le h =
    (s, refl, subst (λ us. IsSplit m0 spill s us [] ws) (sym (append_nil us)) h)
move_entries-IsSplit moves zero m0 spill s us (v ∷ vs) ws le h = absurd (omega arith)
move_entries-IsSplit moves (suc fuel) m0 spill s us [] ws le h =
    let counted : s.b1.size ≡ length us =
      sym (length-entries s.memory (base s.b1) s.b1.size) ∙ ap length (h.left ∙ append_nil us) in
    let last : ltb s.index s.b1.size ≡ false = ground (arith, h.index) in
    (
      s,
      rw (last, move_entries) refl,
      subst (λ us. IsSplit m0 spill s us [] ws) (sym (append_nil us)) h,
    )
move_entries-IsSplit moves (suc fuel) m0 spill s us (v ∷ vs) ws le h =
    let below = index_below m0 spill s us vs ws v h in
    let more : ltb s.index s.b1.size ≡ true = ground arith in
    let read : at s.memory s.b1 s.index ≡ ok v =
      at_lem s.memory s.b1 s.index
      ∙ ap (λ i. ok (entry_at s.memory (base s.b1 + i * entry_size))) h.index
      ∙ ap ok (entry-append s.memory (base s.b1) s.b1.size us vs v h.left) in
    elim (Bool-cases (moves v)) [
      | inl goes ↦
          let (r, done, split) =
            move_entries-IsSplit moves fuel m0 spill (move_entry true v s) us vs (insert_entry v ws)
              (omega arith) (move-IsSplit m0 spill s us vs ws v h) in
          (r, rw (more, move_entries, read, goes) done, rw goes split)
      | inr not_goes ↦
          let (r, done, split) =
            move_entries-IsSplit moves fuel m0 spill (move_entry false v s) (us ++ (v ∷ [])) vs ws
              (omega arith) (stay-IsSplit m0 spill s us vs ws v h) in
          (
            r,
            rw (more, move_entries, read, not_goes) done,
            rw not_goes (
                subst (λ us. IsSplit m0 spill r us [] (moved moves vs ws))
                  (append_assoc us (v ∷ []) (stays moves vs)) split),
          )
    ]
