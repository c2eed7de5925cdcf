-- ===== src/Recover/Blocks.antt =====
-- The block that `bucket_t::write` writes to the key file, as bytes.
use nu_db.Prelude.{
  ℕ, zero, suc, ◌+◌, ◌-◌, ◌≤◌, ◌<◌, max, ◌≡◌, refl, ap, ◌∙◌, ◌⊎◌, fun_ext, ◌∷◌, ◌++◌, arith,
}
use native.Mathlib.Nat.{add-zero}
use nu_db.Error.{ok}
use nu_db.Memory.{Memory, fill}
use nu_db.Stream.{blob, store}
use nu_db.Stream.Items.{length-blob}
use nu_db.File.{FileOps, FileLaws, Works}
use nu_db.Format.Headers.{zeros}
use nu_db.Visit.Records.{blob-shift}
use nu_db.Bucket.{Bucket, actual_size, write_file}
use nu_db.Bucket.Writes.{fill_outside}
use nu_db.Recover.Log.{block}

pub blob-append : (m : Memory) (p a b : ℕ) → blob m p (a + b) ≡ blob m p a ++ blob m (p + a) b
unfolding blob
blob-append m p zero b = let e : zero + b ≡ b = omega arith in rw (e, add-zero p) refl
blob-append m p (suc a) b =
    let e : suc a + b ≡ suc (a + b) = omega arith in
    let f : p + suc a ≡ p + 1 + a = omega arith in
    rw (e, f) (ap (λ bs. m p ∷ bs) (blob-append m (p + 1) a b))

blob-zeros : (m : Memory) (p n : ℕ) → ((x : ℕ) → p ≤ x → x < p + n → m x ≡ 0) → blob m p n ≡ zeros n
unfolding blob zeros
blob-zeros m p zero h = refl
blob-zeros m p (suc n) h =
    rw
      (
        h p (omega arith) (omega arith),
        blob-zeros m (p + 1) n (λ x a b. h x (omega arith) (omega arith)),
      )
      refl

fill_inside : (m : Memory) (p v c x : ℕ) → p ≤ x → x < p + c → fill m p v c x ≡ v
unfolding fill
fill_inside m p v c x a b = ground arith

-- The entries and the zeros behind them
pub blob-block :
    (m : Memory) (p size whole : ℕ)
    → size ≤ whole
    → blob (fill m (p + size) 0 (whole - size)) p whole ≡ block whole (blob m p size)
blob-block m p size whole fits =
    let n = fill m (p + size) 0 (whole - size) in
    let e : whole ≡ size + (whole - size) = omega arith in
    let head : blob n p size ≡ blob m p size =
      blob-shift n m p p size
        (λ j lt. fill_outside m (p + size) 0 (whole - size) (p + j) (omega arith)) in
    let rest : blob n (p + size) (whole - size) ≡ zeros (whole - size) =
      blob-zeros n (p + size) (whole - size)
        (λ x a b. fill_inside m (p + size) 0 (whole - size) x a b) in
    ap (blob n p) e
    ∙ blob-append n p size (whole - size)
    ∙ rw (head, rest, length-blob m p size) refl

module _ {F : Type 0} (ops : FileOps F) (laws : FileLaws ops) (works : Works ops laws) where
  -- The file gets the block, and is not shorter than before.
  pub record Blocked (f : F) (m : Memory) (b : Bucket) (offset : ℕ) (g : F) (n : Memory)
      : Type 0 where
    pub done : write_file ops f m b offset ≡ ok (g, n)
    pub bytes :
        laws.bytes g ≡ store (laws.bytes f) offset (block b.block_size (blob m b.p (actual_size b)))
    pub extent : laws.extent g ≡ max (laws.extent f) (offset + b.block_size)
    pub outside : (x : ℕ) → (x < b.p) ⊎ (b.p + b.block_size ≤ x) → n x ≡ m x

  pub write_file_blocks :
      (f : F) (m : Memory) (b : Bucket) (offset : ℕ)
      → actual_size b ≤ b.block_size
      → (g : F) × (n : Memory) × Blocked f m b offset g n
  unfolding write_file
  write_file_blocks f m b offset room =
      let n = fill m (b.p + actual_size b) 0 (b.block_size - actual_size b) in
      let (g, e) = works.writes f offset (blob n b.p b.block_size) in
      (
        g,
        n,
        record {
          done = rw e refl;
          bytes =
              fun_ext (λ x. laws.write_lem f offset _ g e x)
              ∙ ap (store (laws.bytes f) offset)
                  (blob-block m b.p (actual_size b) b.block_size room);
          extent =
              laws.write_extent f offset _ g e
              ∙ ap (λ n. max (laws.extent f) (offset + n)) (length-blob _ b.p b.block_size);
          outside = λ x c.
              fill_outside m (b.p + actual_size b) 0 (b.block_size - actual_size b) x (omega arith);
        },
      )
