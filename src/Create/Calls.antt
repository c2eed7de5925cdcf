-- ===== src/Create/Calls.antt =====
-- What the writes of `create` do to files whose calls succeed.
use nu_db.Prelude.{
  ℕ, ◌+◌, ◌-◌, ◌≤◌, ◌<◌, ◌≡◌, refl, sym, ap, ◌∙◌, inl, List, ltb, false, arith, max,
}
use nu_db.Error.{ok}
use nu_db.Memory.{Memory, fill}
use nu_db.Stream.{blob}
use nu_db.Stream.Items.{length-blob, store_frame}
use nu_db.File.{FileOps, FileLaws, Works}
use nu_db.Format.{bucket_capacity, bucket_size, dat_header_size, key_header_size}
use nu_db.Format.Headers.{
  DatFileHeader, KeyFileHeader, read_dat_file, write_dat_file, write_key_file, write_key,
  new_buffer,
}
use nu_db.Bucket.{Bucket, actual_size, read_file, write_file}
use nu_db.Visit.Records.{blob-shift}

module _ {F : Type 0} (ops : FileOps F) (laws : FileLaws ops) (works : Works ops laws) where
  -- Files with the same bytes give the same bytes.
  pub read_same :
      (f g : F) (p n : ℕ) (bs : List ℕ)
      → ((x : ℕ) → p ≤ x → x < p + n → laws.bytes g x ≡ laws.bytes f x)
      → p + n ≤ laws.extent g
      → ops.read f p n ≡ ok bs
      → ops.read g p n ≡ ok bs
  read_same f g p n bs same inside e =
      let (cs, d) = works.reads g p n inside in
      let equal =
        laws.read_lem g p n cs d
        ∙ blob-shift (laws.bytes g) (laws.bytes f) p p n
            (λ j lt. same (p + j) (omega arith) (omega arith))
        ∙ sym (laws.read_lem f p n bs e) in
      d ∙ ap ok equal

  pub read_dat_file_same :
      (f g : F) (bs : List ℕ)
      → ops.read f 0 dat_header_size ≡ ok bs
      → ops.read g 0 dat_header_size ≡ ok bs
      → read_dat_file ops g ≡ read_dat_file ops f
  unfolding read_dat_file
  read_dat_file_same f g bs e d = rw (e, d) refl

  pub read_file_same :
      (f g : F) (m : Memory) (b : Bucket) (p : ℕ) (bs : List ℕ)
      → ops.read f p (bucket_size (bucket_capacity b.block_size)) ≡ ok bs
      → ops.read g p (bucket_size (bucket_capacity b.block_size)) ≡ ok bs
      → read_file ops g m b p ≡ read_file ops f m b p
  unfolding read_file
  read_file_same f g m b p bs e d = rw (e, d) refl

  pub dat_done :
      (df : F) (dh : DatFileHeader)
      → (d : F) × (write_dat_file ops df dh ≡ ok d) × (dat_header_size ≤ laws.extent d)
  unfolding write_dat_file
  dat_done df dh =
      let (d, e) = works.writes df 0 _ in
      (d, e, omega (arith, laws.write_extent df 0 _ d e, length-blob _ 0 dat_header_size))

  pub key_done :
      (kf : F) (kh : KeyFileHeader)
      → key_header_size ≤ kh.block_size
      → laws.extent kf ≡ 0
      → (k : F) × (write_key_file ops kf kh ≡ ok k) × (laws.extent k ≡ kh.block_size)
  unfolding write_key_file
  key_done kf kh large new =
      let room : ltb kh.block_size key_header_size ≡ false = ground arith in
      let m =
        (write_key (record { buf = 0; written = 0 }) (fill new_buffer 0 0 kh.block_size) kh).1 in
      let (k, e) = works.writes kf 0 (blob m 0 kh.block_size) in
      (
        k,
        rw room e,
        omega (arith, laws.write_extent kf 0 _ k e, length-blob _ 0 kh.block_size, new),
      )

  pub bucket_done :
      (k : F) (m : Memory) (b : Bucket) (offset : ℕ)
      → (r : F) × (n : Memory) × (write_file ops k m b offset ≡ ok (r, n))
        × (laws.extent r ≡ max (laws.extent k) (offset + b.block_size))
        × ((x : ℕ) → x < offset → laws.bytes r x ≡ laws.bytes k x)
  unfolding write_file
  bucket_done k m b offset =
      let n = fill m (b.p + actual_size b) 0 (b.block_size - actual_size b) in
      let (r, e) = works.writes k offset (blob n b.p b.block_size) in
      (
        r,
        n,
        rw e refl,
        laws.write_extent k offset _ r e
            ∙ ap (λ n. max (laws.extent k) (offset + n)) (length-blob _ b.p b.block_size),
        λ x lt. laws.write_lem k offset _ r e x ∙ store_frame _ offset _ x (inl lt),
      )
