-- ===== src/Create/Opens.antt =====
-- What is read from the files that `create` has written.
use nu_db.Prelude.{ℕ, ◌+◌, ◌-◌, ◌^◌, ◌≤◌, ◌<◌, ◌≡◌, refl, ◌∙◌, some, ltb, true, arith}
use native.Mathlib.Nat.{div_self}
use nu_db.Error.{ok}
use nu_db.Memory.{Memory}
use nu_db.Endian.{Endian}
use nu_db.File.{FileOps, FileLaws, Works}
use nu_db.Format.{
  Hasher, bucket_capacity, bucket_size, ceil_pow2, pepper, dat_header_size, key_header_size,
}
use nu_db.Format.Headers.{
  KeyFileHeader, read_dat_file, write_dat_file, read_key_file, write_key_file, bucket_count,
}
use nu_db.Format.RoundTrip.Files.{read_dat_file-write_dat_file, read_key_file_start}
use nu_db.Format.Verify.{verify_dat, verify_dat_key}
use nu_db.Format.Verify.Conditions.{verify_dat_iff, verify_dat_key_iff}
use nu_db.Bucket.{Bucket, read_file, write_file}
use nu_db.Bucket.Insert.{IsBucket}
use nu_db.Bucket.Transfer.{read_file-write_file}
use nu_db.Create.{Settings, dat_header, key_header}
use nu_db.Create.Calls.{read_same, read_dat_file_same, read_file_same}

-- Arguments that `create` takes, and that fit the fields of the headers.
pub record IsSettings (endian : Endian) (hasher : Hasher) (a : Settings) (load : ℕ) : Type 0 where
  pub loaded : a.load ≡ some load
  pub positive : 0 < load
  pub keys : 0 < a.key_size
  pub short_keys : a.key_size < 2 ^ 16
  pub large : key_header_size ≤ a.block_size
  pub small : a.block_size < 2 ^ 16
  pub uid : a.uid < 2 ^ 64
  pub appnum : a.appnum < 2 ^ 64
  pub salt : a.salt < 2 ^ 64
  pub pepper_fits : pepper endian hasher a.salt < 2 ^ 64

-- The header of the key file as it is read: the file has one bucket.
abbrev pub opened : Endian → Hasher → Settings → ℕ → KeyFileHeader
opened endian hasher a load = record (key_header endian hasher a load) {
  capacity = bucket_capacity a.block_size;
  buckets = 1;
  modulus = ceil_pow2 1;
}

-- A data file and a key file that pass the checks that opening them makes, with an empty bucket.
pub record IsEmptyDatabase {F : Type 0} (ops : FileOps F) (endian : Endian) (hasher : Hasher)
    (a : Settings) (load : ℕ) (d k : F) : Type 0 where
  pub dat : read_dat_file ops d ≡ ok (dat_header a)
  pub dat_valid : verify_dat (dat_header a) ≡ ok tt
  pub key : read_key_file ops k ≡ ok (opened endian hasher a load)
  pub both_valid : verify_dat_key endian hasher (dat_header a) (opened endian hasher a load) ≡ ok tt
  pub bucket :
      (t : Memory) (q size spill : ℕ)
      → let c : Bucket = record { block_size = a.block_size; size = size; spill = spill; p = q } in
        let e : Bucket = record { block_size = a.block_size; size = 0; spill = 0; p = q } in
        (n : Memory) × (read_file ops k t c a.block_size ≡ ok (e, n)) × IsBucket n e

pub dat_header-valid :
    (endian : Endian) (hasher : Hasher) (a : Settings) (load : ℕ)
    → IsSettings endian hasher a load
    → (verify_dat (dat_header a) ≡ ok tt)
      × (verify_dat_key endian hasher (dat_header a) (opened endian hasher a load) ≡ ok tt)
unfolding dat_header key_header
dat_header-valid endian hasher a load v = (
  (verify_dat_iff (dat_header a)).1 (record { type = refl; version = refl; key_size = v.keys }),
  (verify_dat_key_iff endian hasher (dat_header a) (opened endian hasher a load)).1 (record {
    valid = record {
      type = refl;
      version = refl;
      key_size = v.keys;
      pepper_matches = refl;
      load_factor = omega (arith, v.positive);
      capacity = unfold bucket_capacity in ground (arith, v.large);
      buckets = omega arith;
    };
    uid = refl;
    appnum = refl;
    key_size = refl;
  }),
)

pub one_bucket : (b : ℕ) → 0 < b → bucket_count (b + b) b ≡ 1
one_bucket b p =
    let more : ltb b (b + b) ≡ true = ground arith in
    let some_size : ltb 0 b ≡ true = ground arith in
    let one : b + b - b ≡ b = omega arith in rw (more, some_size, one) (div_self p)

module _ {F : Type 0} (ops : FileOps F) (laws : FileLaws ops) (works : Works ops laws)
    (endian : Endian) (hasher : Hasher) (fresh : Memory) where
  pub dat_opens :
      (a : Settings) (load : ℕ) (df d d' : F)
      → IsSettings endian hasher a load
      → write_dat_file ops df (dat_header a) ≡ ok d
      → dat_header_size ≤ laws.extent d
      → ops.sync d ≡ ok d'
      → read_dat_file ops d' ≡ ok (dat_header a)
  unfolding dat_header
  dat_opens a load df d d' v e x s =
      let (bs, got) = works.reads d 0 dat_header_size (omega arith) in
      let got' =
        read_same ops laws works d d' 0 dat_header_size bs (λ y lo hi. works.sync_lem d d' s y)
          (omega (arith, works.sync_extent d d' s)) got in
      read_dat_file_same ops laws works d d' bs got got'
      ∙ read_dat_file-write_dat_file ops laws df d (dat_header a) bs
          (record {
            version = omega arith;
            uid = v.uid;
            appnum = v.appnum;
            key_size = v.short_keys;
          })
          e got

  pub key_opens :
      (a : Settings) (load : ℕ) (kf k r r' : F)
      → IsSettings endian hasher a load
      → write_key_file ops kf (key_header endian hasher a load) ≡ ok k
      → laws.extent k ≡ a.block_size
      → laws.extent r ≡ a.block_size + a.block_size
      → ((x : ℕ) → x < a.block_size → laws.bytes r x ≡ laws.bytes k x)
      → ops.sync r ≡ ok r'
      → read_key_file ops r' ≡ ok (opened endian hasher a load)
  unfolding key_header
  key_opens a load kf k r r' v e xk xr below s =
      let large = v.large in
      let extent' : laws.extent r' ≡ a.block_size + a.block_size = works.sync_extent r r' s ∙ xr in
      let (bs, got) = works.reads k 0 key_header_size (omega arith) in
      let got' =
        read_same ops laws works k r' 0 key_header_size bs
          (λ y lo hi. works.sync_lem r r' s y ∙ below y (omega arith)) (omega arith) got in
      let one = one_bucket a.block_size (omega arith) in
      rw (extent', one) at
        (read_key_file_start ops laws kf k r' (key_header endian hasher a load) bs (laws.extent r')
          (record {
            version = omega arith;
            uid = v.uid;
            appnum = v.appnum;
            key_size = v.short_keys;
            salt = v.salt;
            pepper = v.pepper_fits;
            block_size = v.small;
            load_factor = omega arith;
          })
          e got got' (works.sizes r'))

  pub bucket_opens :
      (k r r' : F) (m n t : Memory) (b : Bucket) (offset q size spill : ℕ)
      → IsBucket m b
      → b.size ≡ 0
      → write_file ops k m b offset ≡ ok (r, n)
      → offset + b.block_size ≤ laws.extent r
      → ops.sync r ≡ ok r'
      → let c : Bucket = record { block_size = b.block_size; size = size; spill = spill; p = q } in
        (o : Memory) × (read_file ops r' t c offset ≡ ok (record b { p = q }, o))
        × IsBucket o (record b { p = q })
  bucket_opens k r r' m n t b offset q size spill v none_there e x s =
      let whole = bucket_size (bucket_capacity b.block_size) in
      let fits : whole ≤ b.block_size =
        unfold bucket_size bucket_capacity in ground (arith, v.room) in
      let (bs, got) = works.reads r offset whole (omega arith) in
      let got' =
        read_same ops laws works r r' offset whole bs (λ y lo hi. works.sync_lem r r' s y)
          (omega (arith, works.sync_extent r r' s)) got in
      let (o, read, w, _) =
        read_file-write_file ops laws k r m n t b q size spill offset bs v (omega arith) e got in
      (o, read_file_same ops laws works r r' t _ offset bs got got' ∙ read, w)
