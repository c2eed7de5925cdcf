-- ===== src/Split/Divides.antt =====
-- The split of a bucket that has no spills, and what a search finds in the two buckets after it.
use nu_db.Prelude.{
  ℕ, ◌+◌, ◌≤◌, ◌≡◌, refl, sym, ap, ◌∙◌, inl, inr, Bool, true, false, Option, some, List, [], ◌∷◌,
  ◌==◌, ◌&&◌, ◌||◌, arith, ltb, Bool-cases, if◌then◌else◌,
}
use nu_db.Error.{ok}
use nu_db.Memory.{Memory}
use nu_db.Format.{bucket_capacity}
use nu_db.File.{FileOps}
use nu_db.Bucket.{Bucket, Value, bucket_index, empty}
use nu_db.Bucket.Entries.{entries, entries_from, base}
use nu_db.Bucket.Insert.{IsBucket, insert_entry}
use nu_db.Fetch.Scan.{find_value, find_value-nil, is_some, key_matches}
use nu_db.BulkIo.{Writer}
use nu_db.Split.{Halves, goes, split}
use nu_db.Split.Moves.{stays, moved, Fit, Apart, move_entries-IsSplit, length-entries, append_nil}

is_some-if :
    (t : Bool) (x : List ℕ) (o : Option (List ℕ))
    → is_some (if t then some x else o) ≡ (t || is_some o)
is_some-if true x o = refl
is_some-if false x o = refl

or_swap : (a b c : Bool) → (a || (b || c)) ≡ (b || (a || c))
or_swap true true c = refl
or_swap true false c = refl
or_swap false b c = refl

or_turn : (a b c : Bool) → (a || (b || c)) ≡ ((b || a) || c)
or_turn true true c = refl
or_turn true false c = refl
or_turn false true c = refl
or_turn false false c = refl

-- What a search finds: a key that stays as before, and one that moves where it is moved to.
module _ (bytes : Memory) (key_size h : ℕ) (key : List ℕ) where
  abbrev hit : Value → Bool
  hit v = (v.hash == h) && key_matches bytes key_size key v

  abbrev pub has : List Value → Bool
  has vs = is_some (find_value bytes key_size h key vs)

  has-cons : (v : Value) (vs : List Value) → has (v ∷ vs) ≡ (hit v || has vs)
  unfolding find_value
  has-cons v vs = is_some-if (hit v) _ _

  -- An entry of another index has another hash.
  not_hit :
      (n2 buckets modulus : ℕ) (v : Value) (a b : Bool)
      → goes n2 buckets modulus v ≡ a
      → (bucket_index h buckets modulus == n2) ≡ b
      → ¬ (a ≡ b)
      → hit v ≡ false
  not_hit n2 buckets modulus v a b e f ne = elim (Bool-cases (v.hash == h)) [
    | inr other ↦ (rw other refl)
    | inl same ↦
        let here : v.hash ≡ h = ground arith in
        absurd (ne (sym e ∙ ap (λ x. bucket_index x buckets modulus == n2) here ∙ f))
  ]

  find_value-stays :
      (n2 buckets modulus : ℕ) (vs : List Value)
      → (bucket_index h buckets modulus == n2) ≡ false
      → find_value bytes key_size h key (stays (goes n2 buckets modulus) vs)
        ≡ find_value bytes key_size h key vs
  unfolding find_value stays
  find_value-stays n2 buckets modulus [] other = refl
  find_value-stays n2 buckets modulus (v ∷ vs) other =
      let rest = find_value-stays n2 buckets modulus vs other in
      elim (Bool-cases (goes n2 buckets modulus v)) [
        | inl moves ↦
            let missed =
              not_hit n2 buckets modulus v true false moves other (λ (e : true ≡ false). cc) in
            (rw (moves, missed) rest)
        | inr keeps ↦ (rw (keeps, find_value, rest) refl)
      ]

  has-insert_entry : (v : Value) (ws : List Value) → has (insert_entry v ws) ≡ (hit v || has ws)
  unfolding insert_entry
  has-insert_entry v [] = has-cons v []
  has-insert_entry v (w ∷ ws) = elim (Bool-cases (ltb w.hash v.hash)) [
    | inl before ↦
        (rw before (
          has-cons w (insert_entry v ws)
          ∙ ap (λ x. hit w || x) (has-insert_entry v ws)
          ∙ or_swap (hit w) (hit v) (has ws)
          ∙ ap (λ x. hit v || x) (sym (has-cons w ws))))
    | inr here ↦ (rw here (has-cons v (w ∷ ws)))
  ]

  has-moved :
      (n2 buckets modulus : ℕ) (vs ws : List Value)
      → (bucket_index h buckets modulus == n2) ≡ true
      → has (moved (goes n2 buckets modulus) vs ws) ≡ (has vs || has ws)
  unfolding moved
  has-moved n2 buckets modulus [] ws here =
      sym (ap (λ o. is_some o || has ws) (find_value-nil bytes key_size h key))
  has-moved n2 buckets modulus (v ∷ vs) ws here =
      let first = has-cons v vs in
      elim (Bool-cases (goes n2 buckets modulus v)) [
        | inl moves ↦
            (rw moves (
              has-moved n2 buckets modulus vs (insert_entry v ws) here
              ∙ ap (λ x. has vs || x) (has-insert_entry v ws)
              ∙ or_turn (has vs) (hit v) (has ws)
              ∙ ap (λ x. x || has ws) (sym first)))
        | inr keeps ↦
            let missed =
              not_hit n2 buckets modulus v false true keeps here (λ (e : false ≡ true). cc) in
            (rw keeps (
              has-moved n2 buckets modulus vs ws here
              ∙ ap (λ x. x || has ws) (sym (rw missed at first))))
      ]

no_entries : (m : Memory) (q n : ℕ) → n ≡ 0 → entries_from m q n ≡ []
unfolding entries_from
no_entries m q n e = rw e refl

-- The two buckets after a split of entries of which the new index takes some: what they hold, and
-- what a search for a key with a hash finds in them.
pub record Divides (n2 buckets modulus : ℕ) (m : Memory) (b1 b2 : Bucket) (r : Halves)
    : Type 0 where
  pub first : IsBucket r.memory r.b1
  pub second : IsBucket r.memory r.b2
  pub left : entries r.memory r.b1 ≡ stays (goes n2 buckets modulus) (entries m b1)
  pub right : entries r.memory r.b2 ≡ moved (goes n2 buckets modulus) (entries m b1) (entries m b2)
  pub kept :
      (bytes : Memory) (key_size h : ℕ) (key : List ℕ)
      → (bucket_index h buckets modulus == n2) ≡ false
      → find_value bytes key_size h key (entries r.memory r.b1)
        ≡ find_value bytes key_size h key (entries m b1)
  pub found :
      (bytes : Memory) (key_size h : ℕ) (key : List ℕ)
      → (bucket_index h buckets modulus == n2) ≡ true
      → has bytes key_size h key (entries r.memory r.b2)
        ≡ (has bytes key_size h key (entries m b1) || has bytes key_size h key (entries m b2))

divided :
    (n2 buckets modulus : ℕ) (m : Memory) (b1 b2 : Bucket) (r : Halves)
    → IsBucket r.memory r.b1
    → IsBucket r.memory r.b2
    → entries r.memory r.b1 ≡ stays (goes n2 buckets modulus) (entries m b1)
    → entries r.memory r.b2 ≡ moved (goes n2 buckets modulus) (entries m b1) (entries m b2)
    → Divides n2 buckets modulus m b1 b2 r
divided n2 buckets modulus m b1 b2 r first second left right = record {
  first = first;
  second = second;
  left = left;
  right = right;
  kept = λ bytes key_size h key other.
      ap (find_value bytes key_size h key) left
      ∙ find_value-stays bytes key_size h key n2 buckets modulus (entries m b1) other;
  found = λ bytes key_size h key here.
      ap (has bytes key_size h key) right
      ∙ has-moved bytes key_size h key n2 buckets modulus (entries m b1) (entries m b2) here;
}

module _ {F : Type 0} (ops : FileOps F) (fresh : Memory) where
  -- `split` of well-formed buckets in blocks that lie apart, where the first has no spills, its
  -- entries fit their fields and the second has room for all of them, returns with the writer as
  -- it was: the entries that the new index takes are inserted into the second, and the others
  -- stay in the first in their order. Both are well-formed. A search for a key of another index
  -- finds in the first what it found before, and for a key of the new index the second has the
  -- key where one of the two had it.
  pub split-Divides :
      (fuel : ℕ) (m : Memory) (b1 b2 tmp : Bucket) (n2 buckets modulus : ℕ) (w : Writer F)
      → IsBucket m b1
      → IsBucket m b2
      → Apart b1 b2
      → b1.spill ≡ 0
      → Fit (entries m b1)
      → b2.size + b1.size ≤ bucket_capacity b2.block_size
      → (r : Halves) × (split ops fresh fuel m b1 b2 tmp n2 buckets modulus w ≡ some (ok (r, w)))
        × Divides n2 buckets modulus m b1 b2 r
  unfolding split empty
  split-Divides fuel m b1 b2 tmp n2 buckets modulus w v1 v2 apart no_spill fit room =
      let start : Halves = record { b1 = b1; b2 = b2; memory = m; index = 0 } in
      let counted = length-entries m (base b1) b1.size in
      let (r, done, s) =
        move_entries-IsSplit (goes n2 buckets modulus) b1.size m 0 start [] (entries m b1)
          (entries m b2) (omega (arith, counted))
          (record {
            first = v1;
            second = v2;
            apart = apart;
            left = refl;
            right = refl;
            index = refl;
            room = omega (arith, counted, room);
            fit = fit;
            spilled = no_spill;
            outside = λ x o1 o2. refl;
          }) in
      elim (Bool-cases (b1.size == 0)) [
        | inl none_there ↦
            let nothing = no_entries m (base b1) b1.size (ground arith) in
            (
              start,
              rw (none_there, split) refl,
              divided n2 buckets modulus m b1 b2 start v1 v2 (rw nothing (unfold stays in refl))
                  (rw nothing (unfold moved in refl)),
            )
        | inr some_there ↦
            let last : (r.b1.spill == 0) ≡ true = ground (arith, s.spilled) in
            (
              r,
              rw (some_there, split, done, last) refl,
              divided n2 buckets modulus m b1 b2 r s.first s.second (s.left ∙ append_nil _) s.right,
            )
      ]
