-- ===== src/Tests/Crashes.antt =====
-- A commit that stops behind its writes to the key file.
use nu_db.Prelude.{
  ℕ, ◌+◌, ◌*◌, ◌<◌, ◌≡◌, refl, sym, ap, subst, ◌∙◌, inl, none, some, List, [], ◌∷◌, arith,
}
use nu_db.Error.{Result, ok, ok-injective}
use nu_db.Memory.{Memory, IsBytes, copy, fill}
use nu_db.Endian.{little}
use nu_db.Field.{writep}
use nu_db.Stream.{blob, store}
use nu_db.Format.{pepper, bucket_size, bucket_capacity, ceil_pow2, ceil_loop}
use nu_db.Format.Headers.{read_key_file, read_log_file, read_key, read_log}
use nu_db.Format.Verify.{verify_dat, verify_key, verify_dat_key, verify_log, verify_key_log, same}
use nu_db.Arena.{Arena}
use nu_db.Bucket.{load, write_stream, write_file, actual_size}
use nu_db.BulkIo.{writer, flush, prepare_write, reserve}
use nu_db.Cache.{Cache}
use nu_db.Cache
use nu_db.Pool.{Pool}
use nu_db.Recover.{opened, restored, recover}
use nu_db.Recover.Calls.{IsCut}
use nu_db.Recover.Restores.{IsChecked}
use nu_db.Recover.Original.{AreOriginal}
use nu_db.Commit.Steps.{Committer, write_clean}
use nu_db.Commit.Files.{write_records, write_record, put_record, write_buckets}
use nu_db.Commit.Blobs.{images, Blobs}
use nu_db.Commit.Logged.{IsLog, write_clean-IsLog}
use nu_db.Commit.Records.{Loggable}
use nu_db.Commit.Keys.{Writes, write_buckets-Writes}
use nu_db.Commit.Crash.{Has, recover-write_clean}
use nu_db.Run.{Run, once}
use nu_db.Tests.Device.{Device, device, device_laws}
use nu_db.Tests.Creation.{five, works}
use nu_db.Tests.Recovery.{
  cuts, bytes_of, dat_device, before, log_body, dh, kh, lh, dat_read, no_errors, computed,
  store-IsBytes, all_bytes,
}

abbrev no_arena : Arena
no_arena = record { alloc_size = 104; used = []; free = [] }

abbrev no_pool : Pool
no_pool = record { arena = no_arena; key_size = 2; data_size = 0; map = [] }

-- The old bucket is at 1000; the new ones are at 2000, with an entry, and at 3000.
abbrev filled : Memory
filled = store (λ x. 0) 2000 (0 ∷ 1 ∷ [])

abbrev old_cache : Cache
old_cache = record { key_size = 2; block_size = 104; arena = no_arena; map = (0, 1000) ∷ [] }

abbrev new_map : List (ℕ × ℕ)
new_map = (0, 2000) ∷ (1, 3000) ∷ []

abbrev log_head : Device
log_head = record { bytes = bytes_of log_body; extent = 62 }

abbrev committer : Committer Device
committer = record {
  store = record {
    df = dat_device;
    kf = record { bytes = before; extent = 208 };
    memory = filled;
    p0 = no_pool;
    p1 = no_pool;
    c1 = record old_cache { map = new_map };
    salt = 3;
    key_size = 2;
    block_size = 104;
    buckets = 2;
    modulus = 2;
    pool_thresh = 0;
    commit_limit = 0;
    failed = none;
  };
  lf = log_head;
  c0 = old_cache;
  uid = 9;
  appnum = 1;
  frac = 0;
  thresh = 65536;
  data_write_size = 100;
  log_write_size = 100;
}

abbrev fresh : Memory
fresh x = 7

abbrev log_of : Run (Committer Device) → Device
log_of (some (ok c)) = c.lf
log_of _ = log_head

abbrev key_of : Result (Device × Memory) → Device × Memory
key_of (ok r) = r
key_of _ = (log_head, fresh)

abbrev log_file : Device
log_file = log_of (write_clean device little five fresh committer)

abbrev key_file : Device × Memory
key_file = key_of (write_buckets device 104 filled committer.store.kf new_map)

new-Blobs : Blobs filled 104 new_map
unfolding computed
new-Blobs =
    Blobs.next_blob 0 2000 _ (omega arith) (inl (omega arith), tt)
      (Blobs.next_blob 1 3000 [] (omega arith) tt Blobs.no_blob)

-- The steps, as they are computed
log_file_done :
    write_clean device little five fresh committer
    ≡ once (record committer { lf = log_file; c0 = Cache.clear committer.c0 })
unfolding computed device_laws write_clean write_records write_record prepare_write flush put_record
    reserve writer load write_stream actual_size Cache.clear copy writep bucket_size
log_file_done = refl

key_file_done : write_buckets device 104 filled committer.store.kf new_map ≡ ok key_file
unfolding computed device_laws write_buckets write_file load actual_size fill bucket_size
key_file_done = refl

fits : Loggable kh 120 filled ((0, 1000) ∷ [])
unfolding computed
fits = ((omega arith, record { room = omega arith; spill = inl refl }), tt)

write_clean-IsLog_example :
    (l : Device) × IsLog device device_laws works little five fresh kh 120 committer l
write_clean-IsLog_example =
    write_clean-IsLog device device_laws works little five fresh kh 120 committer refl (omega arith)
      (omega arith) (unfold device_laws in refl) fits

log_file-IsLog : IsLog device device_laws works little five fresh kh 120 committer log_file
log_file-IsLog =
    let (l, h) =
      write_clean-IsLog device device_laws works little five fresh kh 120 committer refl
        (omega arith) (omega arith) (unfold device_laws in refl) fits in
    subst (IsLog device device_laws works little five fresh kh 120 committer)
      (ap log_of (sym h.done ∙ log_file_done)) h

write_buckets-Writes_example :
    (k : Device) × (n : Memory) × Writes device device_laws works 104 filled committer.store.kf
      new_map k n
write_buckets-Writes_example =
    write_buckets-Writes device device_laws works 104 filled committer.store.kf new_map
      (omega arith) new-Blobs

key_file-Writes :
    Writes device device_laws works 104 filled committer.store.kf new_map key_file.0 key_file.1
key_file-Writes =
    let (k, n, h) =
      write_buckets-Writes device device_laws works 104 filled committer.store.kf new_map
        (omega arith) new-Blobs in
    subst
      (λ (r : Device × Memory).
        Writes device device_laws works 104 filled committer.store.kf new_map r.0 r.1)
      (ok-injective (sym h.done ∙ key_file_done)) h

key_read : read_key_file device key_file.0 ≡ ok kh
unfolding key_file_done read_key_file read_key bucket_capacity ceil_pow2 ceil_loop
key_read = refl

log_read : read_log_file device log_file ≡ ok lh
unfolding log_file_done read_log_file read_log
log_read = refl

log_file-IsBytes : IsBytes log_file.bytes
unfolding log_file_done all_bytes
log_file-IsBytes =
    store-IsBytes log_head.bytes 62 (blob (λ x. 0) 0 16)
      (store-IsBytes (λ x. 0) 0 log_body (λ x. omega arith) refl) refl

checked : IsChecked device device_laws little five dat_device key_file.0 log_file dh kh lh
unfolding key_file_done log_file_done device_laws verify_dat verify_key verify_dat_key verify_log
    verify_key_log same pepper
checked = record {
  dat = dat_read;
  dat_valid = refl;
  key = key_read;
  key_valid = refl;
  dat_key_valid = refl;
  log = log_read;
  log_valid = refl;
  key_log_valid = refl;
  buckets_there = omega arith;
  was_key = omega arith;
  block_size = omega arith;
  log_bytes = log_file-IsBytes;
}

originals : AreOriginal 104 before (images filled old_cache.map)
unfolding computed
originals = AreOriginal.original 0 _ [] refl AreOriginal.none_logged

logged_before : (i : ℕ) → Has new_map i → (i + 1) * 104 < 208 → Has old_cache.map i
logged_before i (Has.first _ _ _) lt = Has.first 0 1000 []
logged_before i (Has.later _ _ _ (Has.first _ _ _)) lt = absurd (omega arith)
logged_before i (Has.later _ _ _ (Has.later _ _ _ c)) lt = elim c [ ]

recover-write_clean_example :
    (d : Device) × (k : Device) × (recover device little five fresh no_errors 2
        (ok dat_device)
        (ok key_file.0)
        (opened log_file)
      ≡ some (ok (restored d k)))
    × IsCut device_laws dat_device (device_laws.bytes dat_device) 92 d
    × (device_laws.extent k ≡ 208)
    × ((x : ℕ) → x < 208 → device_laws.bytes k x ≡ device_laws.bytes committer.store.kf x)
unfolding device_laws
recover-write_clean_example =
    recover-write_clean device device_laws works cuts little five fresh no_errors 2 committer
      log_file key_file.0 key_file.1 new_map dh kh lh log_file-IsLog (omega arith) originals
      new-Blobs key_file-Writes logged_before checked refl refl
