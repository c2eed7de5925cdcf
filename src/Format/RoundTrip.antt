-- ===== src/Format/RoundTrip.antt =====
-- A header that was written is read back, from the buffer and from the file.
pub mod Files
use nu_db.Prelude.{ℕ, ◌^◌, ◌<◌, ◌≡◌, refl, ◌∙◌, List, [], ◌∷◌}
use native.Mathlib.Nat.{mod-eq_of_lt}
use nu_db.Error.{ok}
use nu_db.Memory.{Memory}
use nu_db.Field.{u16, u64}
use nu_db.Stream.{Ostream}
use nu_db.Stream.Items.{Item, num, bytes, write_items, Encodes}
use nu_db.Format.Headers.{
  DatFileHeader, KeyFileHeader, LogFileHeader, dat_type, key_type, log_type, zeros, read_dat,
  write_dat, read_key, write_key, read_log, write_log, bucket_count,
}
use nu_db.Format.{dat_header_size, key_header_size, log_header_size, bucket_capacity, ceil_pow2}

unfoldable pub dat_items : DatFileHeader → List Item
dat_items dh =
    bytes dat_type
    ∷ num u16 dh.version
    ∷ num u64 dh.uid
    ∷ num u64 dh.appnum
    ∷ num u16 dh.key_size
    ∷ bytes (zeros 64)
    ∷ []

pub write_dat-items :
    (os : Ostream) (m : Memory) (dh : DatFileHeader)
    → write_dat os m dh ≡ write_items os m (dat_items dh)
unfolding write_dat write_items dat_items
write_dat-items os m dh = refl

-- The fields fit the integers of the file.
pub record DatFits (dh : DatFileHeader) : Type 0 where
  pub version : dh.version < 2 ^ 16
  pub uid : dh.uid < 2 ^ 64
  pub appnum : dh.appnum < 2 ^ 64
  pub key_size : dh.key_size < 2 ^ 16

pub dat_read :
    (m : Memory) (dh : DatFileHeader)
    → DatFits dh
    → Encodes m 0 (dat_items dh)
    → read_dat m (record { buf = 0; left = dat_header_size })
      ≡ ok (record dh { type = dat_type }, record { buf = dat_header_size; left = 0 })
unfolding read_dat dat_items
dat_read m dh fits e =
    rw
      (
        e.0,
        e.1.0 ∙ mod-eq_of_lt fits.version,
        e.1.1.0 ∙ mod-eq_of_lt fits.uid,
        e.1.1.1.0 ∙ mod-eq_of_lt fits.appnum,
        e.1.1.1.1.0 ∙ mod-eq_of_lt fits.key_size,
      )
      refl

unfoldable pub key_items : KeyFileHeader → List Item
key_items kh =
    bytes key_type
    ∷ num u16 kh.version
    ∷ num u64 kh.uid
    ∷ num u64 kh.appnum
    ∷ num u16 kh.key_size
    ∷ num u64 kh.salt
    ∷ num u64 kh.pepper
    ∷ num u16 kh.block_size
    ∷ num u16 kh.load_factor
    ∷ bytes (zeros 56)
    ∷ []

pub write_key-items :
    (os : Ostream) (m : Memory) (kh : KeyFileHeader)
    → write_key os m kh ≡ write_items os m (key_items kh)
unfolding write_key write_items key_items
write_key-items os m kh = refl

-- The fields fit the integers of the file.
pub record KeyFits (kh : KeyFileHeader) : Type 0 where
  pub version : kh.version < 2 ^ 16
  pub uid : kh.uid < 2 ^ 64
  pub appnum : kh.appnum < 2 ^ 64
  pub key_size : kh.key_size < 2 ^ 16
  pub salt : kh.salt < 2 ^ 64
  pub pepper : kh.pepper < 2 ^ 64
  pub block_size : kh.block_size < 2 ^ 16
  pub load_factor : kh.load_factor < 2 ^ 16

pub key_read :
    (m : Memory) (kh : KeyFileHeader) (size : ℕ)
    → KeyFits kh
    → Encodes m 0 (key_items kh)
    → read_key m (record { buf = 0; left = key_header_size }) size
      ≡ ok (
        record kh {
          type = key_type;
          capacity = bucket_capacity kh.block_size;
          buckets = bucket_count size kh.block_size;
          modulus = ceil_pow2 (bucket_count size kh.block_size);
        },
        record { buf = key_header_size; left = 0 },
      )
unfolding read_key key_items
key_read m kh size fits e =
    rw
      (
        e.0,
        e.1.0 ∙ mod-eq_of_lt fits.version,
        e.1.1.0 ∙ mod-eq_of_lt fits.uid,
        e.1.1.1.0 ∙ mod-eq_of_lt fits.appnum,
        e.1.1.1.1.0 ∙ mod-eq_of_lt fits.key_size,
        e.1.1.1.1.1.0 ∙ mod-eq_of_lt fits.salt,
        e.1.1.1.1.1.1.0 ∙ mod-eq_of_lt fits.pepper,
        e.1.1.1.1.1.1.1.0 ∙ mod-eq_of_lt fits.block_size,
        e.1.1.1.1.1.1.1.1.0 ∙ mod-eq_of_lt fits.load_factor,
      )
      refl

unfoldable pub log_items : LogFileHeader → List Item
log_items lh =
    bytes log_type
    ∷ num u16 lh.version
    ∷ num u64 lh.uid
    ∷ num u64 lh.appnum
    ∷ num u16 lh.key_size
    ∷ num u64 lh.salt
    ∷ num u64 lh.pepper
    ∷ num u16 lh.block_size
    ∷ num u64 lh.key_file_size
    ∷ num u64 lh.dat_file_size
    ∷ []

pub write_log-items :
    (os : Ostream) (m : Memory) (lh : LogFileHeader)
    → write_log os m lh ≡ write_items os m (log_items lh)
unfolding write_log write_items log_items
write_log-items os m lh = refl

-- The fields fit the integers of the file.
pub record LogFits (lh : LogFileHeader) : Type 0 where
  pub version : lh.version < 2 ^ 16
  pub uid : lh.uid < 2 ^ 64
  pub appnum : lh.appnum < 2 ^ 64
  pub key_size : lh.key_size < 2 ^ 16
  pub salt : lh.salt < 2 ^ 64
  pub pepper : lh.pepper < 2 ^ 64
  pub block_size : lh.block_size < 2 ^ 16
  pub key_file_size : lh.key_file_size < 2 ^ 64
  pub dat_file_size : lh.dat_file_size < 2 ^ 64

pub log_read :
    (m : Memory) (lh : LogFileHeader)
    → LogFits lh
    → Encodes m 0 (log_items lh)
    → read_log m (record { buf = 0; left = log_header_size })
      ≡ ok (record lh { type = log_type }, record { buf = log_header_size; left = 0 })
unfolding read_log log_items
log_read m lh fits e =
    rw
      (
        e.0,
        e.1.0 ∙ mod-eq_of_lt fits.version,
        e.1.1.0 ∙ mod-eq_of_lt fits.uid,
        e.1.1.1.0 ∙ mod-eq_of_lt fits.appnum,
        e.1.1.1.1.0 ∙ mod-eq_of_lt fits.key_size,
        e.1.1.1.1.1.0 ∙ mod-eq_of_lt fits.salt,
        e.1.1.1.1.1.1.0 ∙ mod-eq_of_lt fits.pepper,
        e.1.1.1.1.1.1.1.0 ∙ mod-eq_of_lt fits.block_size,
        e.1.1.1.1.1.1.1.1.0 ∙ mod-eq_of_lt fits.key_file_size,
        e.1.1.1.1.1.1.1.1.1.0 ∙ mod-eq_of_lt fits.dat_file_size,
      )
      refl
