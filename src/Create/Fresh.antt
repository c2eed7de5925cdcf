-- ===== src/Create/Fresh.antt =====
-- The files that `create` makes are those of an empty database.
use nu_db.Prelude.{ℕ, ◌≡◌, refl, ltb, false, arith}
use nu_db.Error.{ok}
use nu_db.Memory.{Memory, fill}
use nu_db.Endian.{Endian}
use nu_db.File.{FileOps, FileLaws, Works}
use nu_db.Format.{Hasher, bucket_capacity}
use nu_db.Format.Headers.{write_dat_file, write_key_file}
use nu_db.Bucket.{Bucket, actual_size, read_file, write_file}
use nu_db.Bucket
use nu_db.Bucket.Blob.{create-IsBucket}
use nu_db.Create.{Settings, made, dat_header, key_header, fill_files, create}
use nu_db.Create.Calls.{dat_done, key_done, bucket_done}
use nu_db.Create.Opens.{
  IsSettings, IsEmptyDatabase, dat_header-valid, dat_opens, key_opens, bucket_opens,
}

module _ {F : Type 0} (ops : FileOps F) (laws : FileLaws ops) (works : Works ops laws)
    (endian : Endian) (hasher : Hasher) (fresh : Memory) where
  fill_files_value :
      (a : Settings) (load : ℕ) (df kf lf d k r d' r' l : F) (n : Memory)
      → let c = Bucket.create (fill fresh 0 0 a.block_size) a.block_size 0 in
        write_dat_file ops df (dat_header a) ≡ ok d
        → write_key_file ops kf (key_header endian hasher a load) ≡ ok k
        → write_file ops k c.1 c.0 a.block_size ≡ ok (r, n)
        → ops.sync d ≡ ok d'
        → ops.sync r ≡ ok r'
        → ops.sync lf ≡ ok l
        → fill_files ops endian hasher fresh a load df kf lf ≡ ok (d', (r', l))
  unfolding fill_files
  fill_files_value a load df kf lf d k r d' r' l n e1 e2 e3 e4 e5 e6 =
      rw (e1, fill_files, e2, e3, e4, e5, e6) refl

  create_value :
      (a : Settings) (load : ℕ) (df kf lf d k l : F)
      → IsSettings endian hasher a load
      → fill_files ops endian hasher fresh a load df kf lf ≡ ok (d, (k, l))
      → create ops endian hasher fresh a (ok df) (ok kf) (ok lf) ≡ made d k l
  unfolding create
  create_value a load df kf lf d k l v filled =
      let e1 : ltb a.key_size 1 ≡ false = ground (arith, v.keys) in
      let e2 : ltb 0xffff a.block_size ≡ false = ground (arith, v.small) in
      let e3 : ltb (bucket_capacity a.block_size) 1 ≡ false =
        unfold bucket_capacity in ground (arith, v.large) in
      rw (e1, create, e2, v.loaded, e3, filled) refl

  -- Where the calls of the files succeed, `create` makes the files of an empty database out of
  -- new ones, for a block of 104 to 65535 bytes, a load factor of at least 1/65536, and other
  -- arguments that are not zero where they must not be and fit the fields of the headers: the
  -- files pass the checks that opening them makes, and the one bucket of the key file is read as
  -- an empty one.
  pub create-IsEmptyDatabase :
      (a : Settings) (load : ℕ) (df kf lf : F)
      → IsSettings endian hasher a load
      → laws.extent kf ≡ 0
      → (d k l : F) × (create ops endian hasher fresh a (ok df) (ok kf) (ok lf) ≡ made d k l)
        × IsEmptyDatabase ops endian hasher a load d k
  create-IsEmptyDatabase a load df kf lf v new =
      let c = Bucket.create (fill fresh 0 0 a.block_size) a.block_size 0 in
      let size = a.block_size in
      let (d, e1, xd) = dat_done ops laws works df (dat_header a) in
      let (k, e2, xk) =
        key_done ops laws works kf (key_header endian hasher a load) (unfold key_header in v.large)
          new in
      let (r, n, e3, xr, below) = bucket_done ops laws works k c.1 c.0 size in
      let (d', e4) = works.syncs d in
      let (r', e5) = works.syncs r in
      let (l, e6) = works.syncs lf in
      let (dat_valid, both_valid) = dat_header-valid endian hasher a load v in
      (
        d',
        r',
        l,
        create_value a load df kf lf d' r' l v
            (fill_files_value a load df kf lf d k r d' r' l n e1 e2 e3 e4 e5 e6),
        record {
          dat = dat_opens ops laws works endian hasher fresh a load df d d' v e1 xd e4;
          dat_valid = dat_valid;
          key =
              key_opens ops laws works endian hasher fresh a load kf k r r' v e2
                (unfold key_header in xk)
                (unfold key_header Bucket.create Bucket.clear in omega (arith, xk, xr)) below e5;
          both_valid = both_valid;
          bucket = λ t q size spill.
              unfold Bucket.create Bucket.clear in
              bucket_opens ops laws works endian hasher fresh k r r' c.1 n t c.0 a.block_size q size
                spill
                (create-IsBucket (fill fresh 0 0 a.block_size) a.block_size 0
                  (omega (arith, v.large)) v.small).0
                refl e3 (omega (arith, xr)) e5;
        },
      )
