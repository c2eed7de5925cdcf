-- ===== src/Tests/Posix.antt =====
-- A system that gives a byte at a time and is interrupted a number of times first.
use nu_db.Prelude.{
  ℕ, zero, suc, ◌+◌, ◌<◌, ◌≤◌, ◌≡◌, refl, List, [], ◌∷◌, length, take, arith, ltb, if◌then◌else◌,
  Bool-cases, inl, inr,
}
use nu_db.Memory.{Memory, poke}
use nu_db.Stream.{blob, store}
use nu_db.PosixFile.{
  Answer, moved, failed, System, SystemLaws, read, Taken, took, refused, Sink, SinkLaws, write,
}
use nu_db.PosixFile.Read.{Returns, read-Returns}
use nu_db.PosixFile.Write.{write-Returns}
use nu_db.PosixFile.Write

abbrev content : Memory
content x = x + 100

-- The state is the number of interruptions to come; the file has ten bytes.
abbrev pread : ℕ → ℕ → ℕ → Answer × ℕ
pread zero offset zero = (moved [], zero)
pread zero offset (suc a) =
    if ltb offset 10 then (moved (content offset ∷ []), zero) else (moved [], zero)
pread (suc k) offset amount = (failed 4, k)

abbrev host : System ℕ
host = record { pread = pread; eintr = 4; ssize_max = 1000 }

one_byte :
    (w w' offset amount b : ℕ) (bs : List ℕ)
    → pread w offset amount ≡ (moved (b ∷ bs), w')
    → (b ∷ bs ≡ blob content offset (length (b ∷ bs)))
      × (length (b ∷ bs) ≤ amount)
      × (offset + length (b ∷ bs) ≤ 10)
unfolding blob
one_byte zero w' offset zero b bs e = cc
one_byte (suc k) w' offset amount b bs e = cc
one_byte zero w' offset (suc a) b bs e = elim (Bool-cases (ltb offset 10)) [
  | inl there ↦
      let e' = rw there at e in
      let h : b ≡ content offset = cc in
      let t : bs ≡ [] = cc in rw (h, t) (refl, omega arith, ground arith)
  | inr behind ↦ let e' = rw behind at e in cc
]

at_end :
    (w w' offset amount : ℕ) → pread w offset amount ≡ (moved [], w') → 0 < amount → 10 ≤ offset
at_end zero w' offset zero e h = absurd (omega arith)
at_end (suc k) w' offset amount e h = cc
at_end zero w' offset (suc a) e h = elim (Bool-cases (ltb offset 10)) [
  | inl there ↦ let e' = rw there at e in cc
  | inr behind ↦ ground arith
]

fewer : (w w' offset amount : ℕ) (a : Answer) → pread w offset amount ≡ (a, w') → w' ≤ w
fewer zero w' offset zero a e = let h : w' ≡ zero = cc in omega arith
fewer (suc k) w' offset amount a e = let h : w' ≡ k = cc in omega arith
fewer zero w' offset (suc n) a e = elim (Bool-cases (ltb offset 10)) [
  | inl there ↦ let e' = rw there at e in let h : w' ≡ zero = cc in omega arith
  | inr behind ↦ let e' = rw behind at e in let h : w' ≡ zero = cc in omega arith
]

interrupted : (w w' offset amount : ℕ) → pread w offset amount ≡ (failed 4, w') → w' < w
interrupted zero w' offset zero e = cc
interrupted (suc k) w' offset amount e = let h : w' ≡ k = cc in omega arith
interrupted zero w' offset (suc a) e = elim (Bool-cases (ltb offset 10)) [
  | inl there ↦ let e' = rw there at e in cc
  | inr behind ↦ let e' = rw behind at e in cc
]

abbrev host_laws : SystemLaws host
host_laws = record {
  bytes = λ w. content;
  extent = λ w. 10;
  interruptions = λ w. w;
  ssize_max_pos = omega arith;
  gives = one_byte;
  ends = at_end;
  keeps = λ w w' offset amount a e. (refl, refl, fewer w w' offset amount a e);
  interrupts = interrupted;
}

read-Returns_example : Returns host host_laws 2 4 3 (read host 5 2 4 3)
read-Returns_example = read-Returns host host_laws 5 2 4 3 (omega arith)

-- A memory that is written a byte at a time, and the interruptions to come.
abbrev Disk : Type 0
Disk = Memory × ℕ

abbrev pwrite : Disk → ℕ → List ℕ → Taken × Disk
pwrite (m, zero) offset [] = (took 0, (m, zero))
pwrite (m, zero) offset (b ∷ bs) = (took 1, (poke m offset b, zero))
pwrite (m, suc k) offset bs = (refused 4, (m, k))

abbrev disk : Sink Disk
disk = record { pwrite = pwrite; eintr = 4; ssize_max = 1000 }

takes_one :
    (w w' : Disk) (offset n : ℕ) (bs : List ℕ)
    → pwrite w offset bs ≡ (took n, w')
    → 0 < length bs
    → (0 < n) × (n ≤ length bs) × (w'.0 ≡ store w.0 offset (take n bs)) × (w'.1 ≤ w.1)
unfolding store
takes_one (m, zero) w' offset n [] e h = absurd (omega arith)
takes_one (m, suc k) w' offset n bs e h = cc
takes_one (m, zero) w' offset n (b ∷ bs) e h =
    let one : n ≡ 1 = cc in
    let after : w' ≡ (poke m offset b, zero) = cc in
    rw (one, after) (omega arith, omega arith, refl, omega arith)

refuses :
    (w w' : Disk) (offset : ℕ) (bs : List ℕ)
    → pwrite w offset bs ≡ (refused 4, w')
    → (w'.0 ≡ w.0) × (w'.1 < w.1)
refuses (m, zero) w' offset [] e = cc
refuses (m, zero) w' offset (b ∷ bs) e = cc
refuses (m, suc k) w' offset bs e = let after : w' ≡ (m, k) = cc in rw after (refl, omega arith)

abbrev disk_laws : SinkLaws disk
disk_laws = record {
  bytes = λ w. w.0;
  interruptions = λ w. w.1;
  ssize_max_pos = omega arith;
  takes = takes_one;
  interrupts = refuses;
}

write-Returns_example :
    Write.Returns disk disk_laws
      (content, 2)
      4
      (7 ∷ 8 ∷ 9 ∷ [])
      (write disk 5 (content, 2) 4 (7 ∷ 8 ∷ 9 ∷ []))
write-Returns_example = write-Returns disk disk_laws 5 (content, 2) 4 (7 ∷ 8 ∷ 9 ∷ []) (omega arith)
