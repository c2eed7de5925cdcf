-- ===== src/Arena/Clear.antt =====
-- `clear` gives every block back, and none is in use.
use nu_db.Prelude.{ℕ, ◌+◌, ◌≤◌, ◌≡◌, refl, List, [], ◌∷◌, ◌++◌, length, arith}
use nu_db.Arena.{Element, Arena, move_blocks, clear}
use nu_db.Arena.Disjoint.{
  Apart, ApartAll, ApartAll-within, Apart-sym, IsArena, IsBlocks, IsUnused, Taken,
}

-- A block moves behind the first list.
ApartAll-behind :
    (d : Element) (us : List Element) (e : Element) (free : List Element)
    → Apart d e
    → ApartAll d (us ++ free)
    → ApartAll d (us ++ e ∷ free)
ApartAll-behind d [] e free p a = (p, a)
ApartAll-behind d (u ∷ us) e free p a = (a.0, ApartAll-behind d us e free p a.1)

IsBlocks-behind :
    (us : List Element) (e : Element) (free : List Element)
    → e.used ≤ e.capacity
    → ApartAll e (us ++ free)
    → IsBlocks (us ++ free)
    → IsBlocks (us ++ e ∷ free)
IsBlocks-behind [] e free fit a v = (fit, a, v)
IsBlocks-behind (u ∷ us) e free fit a v = (
  v.0,
  ApartAll-behind u us e free (Apart-sym e u a.0) v.1,
  IsBlocks-behind us e free fit a.1 v.2,
)

moved-IsBlocks :
    (us free : List Element)
    → IsBlocks (us ++ free)
    → IsUnused free
    → IsBlocks (move_blocks us free)
      × IsUnused (move_blocks us free)
      × (length (move_blocks us free) ≡ length us + length free)
unfolding move_blocks
moved-IsBlocks [] free v unused = (v, unused, omega arith)
moved-IsBlocks (e ∷ us) free v unused =
    let e' : Element = record e { used = 0 } in
    let (blocks, rest, count) =
      moved-IsBlocks us (e' ∷ free)
        (IsBlocks-behind us e' free (omega arith)
          (ApartAll-within e e' (us ++ free) (omega arith) (omega arith) v.1) v.2)
        (refl, unused) in
    (blocks, rest, omega arith)

-- After `clear` nothing is in use, and every block is there to be used again.
pub clear-IsArena :
    (a : Arena)
    → IsArena a
    → IsArena (clear a)
      × ((x : ℕ) → ¬ (Taken (clear a).used x))
      × (length (clear a).free ≡ length a.used + length a.free)
unfolding clear
clear-IsArena a v =
    let (blocks, unused, count) = moved-IsBlocks a.used a.free v.blocks v.unused in
    (record { blocks = blocks; unused = unused }, λ x t. t, count)
