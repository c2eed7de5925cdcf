-- ===== src/Format/RoundTrip/Files.antt =====
-- A header written to a file is read back from it.
use nu_db.Prelude.{ℕ, ◌+◌, ◌≤◌, ◌<◌, ◌≡◌, refl, ◌∙◌, List, arith, ltb, inl, inr, Bool-cases}
use nu_db.Error.{ok}
use nu_db.Memory.{Memory, fill}
use nu_db.Stream.{Ostream, blob, store}
use nu_db.Stream.Items.{Item, Encodes, total, write_items-Encodes, Encodes-congr, store-blob_start}
use nu_db.File.{FileOps, FileLaws}
use nu_db.Format.Headers.{
  DatFileHeader, KeyFileHeader, LogFileHeader, dat_type, key_type, log_type, bucket_count,
  new_buffer, write_dat, write_key, write_log, read_dat_file, write_dat_file, read_key_file,
  write_key_file, read_log_file, write_log_file, zeros,
}
use nu_db.Format.RoundTrip.{
  DatFits, KeyFits, LogFits, dat_items, key_items, log_items, write_dat-items, write_key-items,
  write_log-items, dat_read, key_read, log_read,
}
use nu_db.Format.{dat_header_size, key_header_size, log_header_size, bucket_capacity, ceil_pow2}

-- The buffer in which a header was built.
start : Ostream
start = record { buf = 0; written = 0 }

module _ {F : Type 0} (ops : FileOps F) (laws : FileLaws ops) where
  -- Items at the start of a buffer that was written to a file are read back.
  file_Encodes :
      (f g : F) (m : Memory) (is : List Item) (n k : ℕ) (bs : List ℕ)
      → total is ≤ k
      → k ≤ n
      → Encodes m 0 is
      → ops.write f 0 (blob m 0 n) ≡ ok g
      → ops.read g 0 k ≡ ok bs
      → Encodes (store new_buffer 0 bs) 0 is
  file_Encodes f g m is n k bs hk hn e w r = Encodes-congr m (store new_buffer 0 bs) 0 is same e
    where
      same : (x : ℕ) → 0 ≤ x → x < 0 + total is → store new_buffer 0 bs x ≡ m x
      same x _ h = rw (laws.read_lem g 0 k bs r) (
          store-blob_start new_buffer (laws.bytes g) k x (omega arith)
          ∙ laws.write_lem f 0 (blob m 0 n) g w x
          ∙ store-blob_start (laws.bytes f) m n x (omega arith))

  dat_encoded : (dh : DatFileHeader) → Encodes (write_dat start new_buffer dh).1 0 (dat_items dh)
  unfolding start
  dat_encoded dh =
      rw (write_dat-items start new_buffer dh) (write_items-Encodes start new_buffer (dat_items dh))

  -- Where the header of the data file fits its fields, was written, and can be read, it is read as it
  -- was written, its type being that of a data file.
  pub read_dat_file-write_dat_file :
      (f g : F) (dh : DatFileHeader) (bs : List ℕ)
      → DatFits dh
      → write_dat_file ops f dh ≡ ok g
      → ops.read g 0 dat_header_size ≡ ok bs
      → read_dat_file ops g ≡ ok (record dh { type = dat_type })
  unfolding read_dat_file write_dat_file start dat_items zeros
  read_dat_file-write_dat_file f g dh bs fits w r =
      let held =
        file_Encodes f g _ (dat_items dh) dat_header_size dat_header_size bs (omega arith)
          (omega arith) (dat_encoded dh) w r in
      rw r (rw (dat_read (store new_buffer 0 bs) dh fits held) refl)

  key_encoded :
      (m : Memory) (kh : KeyFileHeader) → Encodes (write_key start m kh).1 0 (key_items kh)
  unfolding start
  key_encoded m kh = rw (write_key-items start m kh) (write_items-Encodes start m (key_items kh))

  -- The header of a key file of any size, whose first bytes are those that were written.
  pub read_key_file_start :
      (f g k : F) (kh : KeyFileHeader) (bs : List ℕ) (size : ℕ)
      → KeyFits kh
      → write_key_file ops f kh ≡ ok g
      → ops.read g 0 key_header_size ≡ ok bs
      → ops.read k 0 key_header_size ≡ ok bs
      → ops.size k ≡ ok size
      → read_key_file ops k
        ≡ ok (record kh {
          type = key_type;
          capacity = bucket_capacity kh.block_size;
          buckets = bucket_count size kh.block_size;
          modulus = ceil_pow2 (bucket_count size kh.block_size);
        })
  unfolding read_key_file write_key_file start key_items zeros
  read_key_file_start f g k kh bs size fits w r r' s =
      elim (Bool-cases (ltb kh.block_size key_header_size)) [
        | inl small ↦ cc (rw small at w)
        | inr large ↦
            let held =
              file_Encodes f g _ (key_items kh) kh.block_size key_header_size bs (omega arith)
                (ground arith) (key_encoded (fill new_buffer 0 0 kh.block_size) kh) (rw large at w)
                r in
            rw (r', s) (rw (key_read (store new_buffer 0 bs) kh size fits held) refl)
      ]

  -- Where the header of the key file fits its fields, was written, and can be read, it is read as
  -- it was written, its type being that of a key file, and the capacity, the number of buckets and
  -- the modulus being computed from the block size and the size of the file.
  pub read_key_file-write_key_file :
      (f g : F) (kh : KeyFileHeader) (bs : List ℕ) (size : ℕ)
      → KeyFits kh
      → write_key_file ops f kh ≡ ok g
      → ops.read g 0 key_header_size ≡ ok bs
      → ops.size g ≡ ok size
      → read_key_file ops g
        ≡ ok (record kh {
          type = key_type;
          capacity = bucket_capacity kh.block_size;
          buckets = bucket_count size kh.block_size;
          modulus = ceil_pow2 (bucket_count size kh.block_size);
        })
  read_key_file-write_key_file f g kh bs size fits w r s =
      read_key_file_start f g g kh bs size fits w r r s

  log_encoded : (lh : LogFileHeader) → Encodes (write_log start new_buffer lh).1 0 (log_items lh)
  unfolding start
  log_encoded lh =
      rw (write_log-items start new_buffer lh) (write_items-Encodes start new_buffer (log_items lh))

  -- Where the header of the log file fits its fields, was written, and can be read, it is read as it
  -- was written, its type being that of a log file.
  pub read_log_file-write_log_file :
      (f g : F) (lh : LogFileHeader) (bs : List ℕ)
      → LogFits lh
      → write_log_file ops f lh ≡ ok g
      → ops.read g 0 log_header_size ≡ ok bs
      → read_log_file ops g ≡ ok (record lh { type = log_type })
  unfolding read_log_file write_log_file start log_items zeros
  read_log_file-write_log_file f g lh bs fits w r =
      let held =
        file_Encodes f g _ (log_items lh) log_header_size log_header_size bs (omega arith)
          (omega arith) (log_encoded lh) w r in
      rw r (rw (log_read (store new_buffer 0 bs) lh fits held) refl)
