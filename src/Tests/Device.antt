-- ===== src/Tests/Device.antt =====
-- A file in memory: it meets what is asked of a `File`.
use nu_db.Prelude.{
  ℕ, ◌+◌, ◌≤◌, max, ◌≡◌, refl, List, length, leb, leb→le, if◌then◌else◌, Bool-cases, inl, inr,
  arith, true,
}
use nu_db.Error.{Result, ok, err, short_read, ok-injective}
use nu_db.Memory.{Memory}
use nu_db.Stream.{blob, store}
use nu_db.File.{FileOps, FileLaws}

pub record Device : Type 0 where
  pub bytes : Memory
  pub extent : ℕ

abbrev pub blank : Device
blank = record { bytes = λ x. 0; extent = 0 }

abbrev pub read_device : Device → ℕ → ℕ → Result (List ℕ)
read_device f p n = if leb (p + n) f.extent then ok (blob f.bytes p n) else err short_read

abbrev pub write_device : Device → ℕ → List ℕ → Result Device
write_device f p bs =
    ok (record { bytes = store f.bytes p bs; extent = max f.extent (p + length bs) })

abbrev pub device : FileOps Device
device = record {
  size = λ f. ok f.extent;
  read = read_device;
  write = write_device;
  sync = λ f. ok f;
  trunc = λ f n. ok (record f { extent = n });
}

within : (f : Device) (p n : ℕ) (bs : List ℕ) → read_device f p n ≡ ok bs → p + n ≤ f.extent
within f p n bs e = elim (Bool-cases (leb (p + n) f.extent)) [
  | inl fits ↦ leb→le _ _ fits
  | inr short ↦ cc (rw short at e)
]

same_bytes :
    (f : Device) (p n : ℕ) (bs : List ℕ) → read_device f p n ≡ ok bs → bs ≡ blob f.bytes p n
same_bytes f p n bs e = elim (Bool-cases (leb (p + n) f.extent)) [
  | inl fits ↦ cc (rw fits at e)
  | inr short ↦ cc (rw short at e)
]

unfoldable pub device_laws : FileLaws device
unfolding within same_bytes
device_laws = record {
  bytes = λ f. f.bytes;
  extent = λ f. f.extent;
  size_lem = λ f n e. cc;
  read_within = within;
  read_lem = same_bytes;
  write_lem = λ f p bs g e x. cc (ok-injective e);
  write_extent = λ f p bs g e. cc (ok-injective e);
}

pub device_extent : (n : ℕ) (f : Device) → n ≤ f.extent → n ≤ device_laws.extent f
unfolding device_laws
device_extent n f h = h

pub device_reads :
    (f : Device) (p n : ℕ)
    → p + n ≤ device_laws.extent f
    → (bs : List ℕ) × (device.read f p n ≡ ok bs)
unfolding device_laws
device_reads f p n h =
    let e : leb (p + n) f.extent ≡ true = ground arith in (blob f.bytes p n, rw e refl)

pub device_bytes : (f : Device) (x : ℕ) → device_laws.bytes f x ≡ f.bytes x
unfolding device_laws
device_bytes f x = refl
