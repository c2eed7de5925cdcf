-- ===== src/Tests/Recovery.antt =====
-- A commit that was cut short while it wrote the key file.
use nu_db.Prelude.{
  ℕ, ◌+◌, ◌<◌, ◌≡◌, refl, inl, inr, ◌⊎◌, some, List, [], ◌∷◌, ◌++◌, Bool, true, ltb, ltb→lt, ◌&&◌,
  Bool-cases, arith,
}
use nu_db.Error.{ok, ok-injective}
use nu_db.Memory.{Memory, IsBytes, poke}
use nu_db.Endian.{little}
use nu_db.Field.{readp}
use nu_db.Stream.{blob, store}
use nu_db.Stream.Items.{store_frame}
use nu_db.File.{Cuts}
use nu_db.Format.{pepper, log_header_size, bucket_capacity, ceil_pow2, ceil_loop}
use nu_db.Format.Headers.{
  DatFileHeader, KeyFileHeader, LogFileHeader, dat_type, key_type, log_type, zeros, read_dat_file,
  read_key_file, read_log_file, read_dat, read_key, read_log,
}
use nu_db.Format.Verify.{verify_dat, verify_key, verify_dat_key, verify_log, verify_key_log, same}
use nu_db.Recover.{Erasures, opened, restored, recover}
use nu_db.Recover.Log.{Log, count, restore, image_size}
use nu_db.Recover.Restores.{IsLogged, recover-restore}
use nu_db.Recover.Calls.{IsCut}
use nu_db.Recover.Original.{Covered, AreOriginal, recover-original}
use nu_db.Tests.Device.{Device, device, device_laws, device_extent}
use nu_db.Tests.Creation.{five, works}

pub cuts : Cuts device device_laws
unfolding device_laws
cuts = record {
  cuts = λ f n. (_, refl);
  cut_lem = λ f n g e x lt below. cc (ok-injective e);
  cut_extent = λ f n g e. cc (ok-injective e);
}

abbrev pub bytes_of : List ℕ → Memory
bytes_of bs = store (λ x. 0) 0 bs

abbrev pub dat_device : Device
dat_device = record {
  bytes = bytes_of (dat_type ++ 0 ∷ 2 ∷ zeros 7 ++ 9 ∷ zeros 7 ++ 1 ∷ 0 ∷ 2 ∷ []);
  extent = 120;
}

abbrev key_head : List ℕ
key_head =
    key_type
    ++ 0 ∷ 2 ∷ zeros 7
    ++ 9 ∷ zeros 7
    ++ 1 ∷ 0 ∷ 2 ∷ zeros 7
    ++ 3 ∷ zeros 7
    ++ 5 ∷ 0 ∷ 104 ∷ 128 ∷ []

-- The key file before the commit, whose one bucket is empty
abbrev pub before : Memory
before = bytes_of key_head

-- The commit has put an entry in the bucket, and a bucket behind it.
abbrev key_device : Device
key_device = record { bytes = store before 104 (0 ∷ 1 ∷ []); extent = 312 }

-- The log has the empty bucket, and the first bytes of another record.
abbrev pub log_body : List ℕ
log_body =
    log_type
    ++ 0 ∷ 2 ∷ zeros 7
    ++ 9 ∷ zeros 7
    ++ 1 ∷ 0 ∷ 2 ∷ zeros 7
    ++ 3 ∷ zeros 7
    ++ 5 ∷ 0 ∷ 104 ∷ zeros 7
    ++ 208 ∷ zeros 7
    ++ 92 ∷ []

abbrev log_device : Device
log_device = record { bytes = bytes_of log_body; extent = 81 }

abbrev pub dh : DatFileHeader
dh = record { type = dat_type; version = 2; uid = 9; appnum = 1; key_size = 2 }

abbrev pub kh : KeyFileHeader
kh = record {
  type = key_type;
  version = 2;
  uid = 9;
  appnum = 1;
  key_size = 2;
  salt = 3;
  pepper = 5;
  block_size = 104;
  load_factor = 32768;
  capacity = 5;
  buckets = 2;
  modulus = 2;
}

abbrev pub lh : LogFileHeader
lh = record {
  type = log_type;
  version = 2;
  uid = 9;
  appnum = 1;
  key_size = 2;
  salt = 3;
  pepper = 5;
  block_size = 104;
  key_file_size = 208;
  dat_file_size = 92;
}

unfoldable pub computed : Unit {0}
unfolding store poke blob readp zeros
computed = tt

pub dat_read : read_dat_file device dat_device ≡ ok dh
unfolding computed read_dat_file read_dat
dat_read = refl

key_read : read_key_file device key_device ≡ ok kh
unfolding computed read_key_file bucket_capacity read_key ceil_pow2 ceil_loop
key_read = refl

log_read : read_log_file device log_device ≡ ok lh
unfolding computed read_log_file read_log
log_read = refl

-- Bytes in a list are bytes in memory.
unfoldable pub all_bytes : List ℕ → Bool
all_bytes [] = true
all_bytes (b ∷ bs) = ltb b 256 && all_bytes bs

pub store-IsBytes :
    (m : Memory) (p : ℕ) (bs : List ℕ) → IsBytes m → all_bytes bs ≡ true → IsBytes (store m p bs)
unfolding store all_bytes
store-IsBytes m p [] h e = h
store-IsBytes m p (b ∷ bs) h e =
    store-IsBytes (poke m p b) (p + 1) bs (λ x. unfold poke in ground (arith, h x)) (ground arith)

log_IsBytes : IsBytes log_device.bytes
log_IsBytes = store-IsBytes (λ x. 0) 0 log_body (λ x. omega arith) (unfold all_bytes zeros in refl)

record_size : image_size log_device.bytes 70 ≡ 8
unfolding computed
record_size = refl

log_records :
    Log kh 120 log_device.bytes 81 log_header_size
      ((0, blob log_device.bytes 70 (image_size log_device.bytes 70)) ∷ [])
unfolding computed
log_records =
    Log.logged 62 [] (omega arith) (record { room = omega arith; spill = inl refl }) (omega arith)
      (Log.torn_index 78 (omega arith) (omega arith))

one_record : count log_records ≡ 1
unfolding log_records count
one_record = refl

abbrev images : List (ℕ × List ℕ)
images = (0, blob log_device.bytes 70 (image_size log_device.bytes 70)) ∷ []

interrupted :
    IsLogged device device_laws little five dat_device key_device log_device dh kh lh images
unfolding device_laws verify_dat verify_key verify_dat_key verify_log verify_key_log same pepper
interrupted = record {
  checked = record {
    dat = dat_read;
    dat_valid = refl;
    key = key_read;
    key_valid = refl;
    dat_key_valid = refl;
    log = log_read;
    log_valid = refl;
    key_log_valid = refl;
    buckets_there = omega arith;
    was_key = omega arith;
    block_size = omega arith;
    log_bytes = log_IsBytes;
  };
  records = log_records;
}

few : count interrupted.records < 2
unfolding interrupted
few = omega (arith, one_record)

abbrev pub no_errors : Erasures
no_errors = record { old_log = ok tt; key = ok tt; log = ok tt }

originals : AreOriginal 104 before images
unfolding computed
originals = AreOriginal.original 0 _ [] refl AreOriginal.none_logged

changed : (x : ℕ) → x < 208 → (device_laws.bytes key_device x ≡ before x) ⊎ Covered 104 x images
unfolding device_laws
changed x lt = elim (Bool-cases (ltb x 104)) [
  | inl low ↦ inl (store_frame before 104 (0 ∷ 1 ∷ []) x (inl (ltb→lt _ _ low)))
  | inr high ↦ inr (Covered.here 0 _ [] (ground arith) (omega arith))
]

recover-restore_example :
    (d : Device) × (k : Device) × (recover device little five
        (λ x. 7)
        no_errors
        2
        (ok dat_device)
        (ok key_device)
        (opened log_device)
      ≡ some (ok (restored d k)))
    × IsCut device_laws dat_device (device_laws.bytes dat_device) 92 d
    × IsCut device_laws key_device (restore (device_laws.bytes key_device) 104 images) 208 k
recover-restore_example =
    recover-restore device device_laws works cuts little five (λ x. 7) no_errors 2 dat_device
      key_device log_device dh kh lh images interrupted few refl

recover-original_example :
    (d : Device) × (k : Device) × (recover device little five
        (λ x. 7)
        no_errors
        2
        (ok dat_device)
        (ok key_device)
        (opened log_device)
      ≡ some (ok (restored d k)))
    × IsCut device_laws dat_device (device_laws.bytes dat_device) 92 d
    × (device_laws.extent k ≡ 208)
    × ((x : ℕ) → x < 208 → device_laws.bytes k x ≡ before x)
recover-original_example =
    recover-original device device_laws works cuts little five (λ x. 7) no_errors 2 before
      dat_device key_device log_device dh kh lh images interrupted few refl
      (device_extent 208 key_device (omega arith)) originals changed
