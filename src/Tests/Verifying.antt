-- ===== src/Tests/Verifying.antt =====
-- A data file with a value and the spill of a full bucket, and a key file with one bucket.
use nu_db.Prelude.{sym, subst, ℕ, ◌≡◌, refl, some, List, [], ◌∷◌, ◌++◌, true, arith}
use nu_db.Error.{Result, ok}
use nu_db.Memory.{IsBytes, poke, copy}
use nu_db.Field.{readp, writep}
use nu_db.Stream.{read, advance, read_size48, read_blob, blob, store}
use nu_db.Format.{bucket_size, bucket_capacity, hash, make_hash}
use nu_db.Format.Headers.{KeyFileHeader, key_type, zeros}
use nu_db.Bucket.{Value, bucket_index, read_file, lower_bound, lower_loop, at, update, actual_size}
use nu_db.BulkIo.{reader, reserve, eof, prepare_read, refill, compact}
use nu_db.Compact.{read_bulk}
use nu_db.BulkIo.Hands.{reader-IsVisitor}
use nu_db.Visit.Records.{Records, count}
use nu_db.Run.{Run}
use nu_db.Verify.{seek_chain, seek_entries, short_as}
use nu_db.Verify.Normal.{
  Checker, check_value, count_value, normal_value, normal_spill, normal_record, normal_records,
}
use nu_db.Verify.Seek.{indexed}
use nu_db.Verify.Search.{Chained}
use nu_db.Bucket.Insert.{IsBucket}
use nu_db.Bucket.Entries.{entries, entries_from, entry_at}
use nu_db.Fetch.Chain.{Spilled, depth, stored}
use nu_db.Verify.Values.{Verdict, Full, place, all_indexed}
use nu_db.Verify.Choice.{no_counts}
use nu_db.Verify.Counts.{Holds, normal_records-Verdict}
use nu_db.Tests.Device.{Device, device, device_laws, device_reads, device_extent}
use nu_db.Tests.Creation.{five}
use nu_db.Tests.Recovery.{store-IsBytes, all_bytes}

-- The key file has one bucket, with the entry of the value, and no spill.
abbrev kf : Device
kf = record {
  bytes =
      store (λ x. 0) 104 (0 ∷ 1 ∷ zeros 6 ++ 0 ∷ 0 ∷ 0 ∷ 0 ∷ 0 ∷ 92 ∷ 0 ∷ 0 ∷ 0 ∷ 0 ∷ 0 ∷ 3 ∷ []);
  extent = 208;
}

abbrev kh : KeyFileHeader
kh = record {
  type = key_type;
  version = 2;
  uid = 9;
  appnum = 1;
  key_size = 2;
  salt = 3;
  pepper = 5;
  block_size = 104;
  load_factor = 32768;
  capacity = 1;
  buckets = 1;
  modulus = 1;
}

-- A value of three bytes, and the spill of a bucket with one entry
abbrev body : List ℕ
body =
    0
    ∷ 0
    ∷ 0
    ∷ 0
    ∷ 0
    ∷ 3
    ∷ 21
    ∷ 22
    ∷ 31
    ∷ 32
    ∷ 33
    ∷ 0
    ∷ 0
    ∷ 0
    ∷ 0
    ∷ 0
    ∷ 0
    ∷ 0
    ∷ 26
    ∷ 0
    ∷ 1
    ∷ zeros 24

abbrev df : Device
df = record { bytes = store (λ x. 0) 92 body; extent = 137 }

abbrev kvs : List (List ℕ × List ℕ)
kvs = (21 ∷ 22 ∷ [], 31 ∷ 32 ∷ 33 ∷ []) ∷ []

computed : Unit {0}
unfolding store poke readp blob zeros
computed = tt

records : Records (device_laws.bytes df) 2 137 92 kvs
unfolding computed device_laws
records =
    Records.pair 92 3 [] (omega arith) (omega arith) refl
      (Records.spill 103 26 [] refl refl (Records.end 137 refl))

records-Full : Full 1 records
unfolding records computed device_laws bucket_size
records-Full = (refl, refl, tt)

two_records : count records ≡ 2
unfolding records count
two_records = refl

df-IsBytes : IsBytes (device_laws.bytes df)
unfolding device_laws
df-IsBytes = store-IsBytes (λ x. 0) 92 body (λ x. omega arith) (unfold all_bytes zeros in refl)

abbrev checker : Checker
checker = record {
  bucket = record { block_size = 104; size = 0; spill = 0; p = 0 };
  memory = λ x. 7;
  info = no_counts;
}

-- The entries of the one bucket
abbrev listed : List Value
listed = entries (device_laws.bytes kf) (stored 104 1 0 104) ++ []

bucket_there : IsBucket (device_laws.bytes kf) (stored 104 1 0 104)
unfolding computed device_laws
bucket_there = record {
  room = omega arith;
  small = omega arith;
  stored_size = refl;
  stored_spill = refl;
  spill_fits = omega arith;
  sorted = λ i j le lt. let same : i ≡ j = omega arith in rw same (omega arith);
}

first_Chained : Chained device device_laws five (λ x. 7) df kf kh 1 0 listed
unfolding depth bucket_capacity bucket_size device_laws
first_Chained = record {
  size = 1;
  next = 0;
  spilled = [];
  bucket = bucket_there;
  fits = omega arith;
  in_file = omega arith;
  chain = Spilled.end 0 refl;
  short = omega arith;
  split = refl;
}

all_Holds : Holds device device_laws five (λ x. 7) df kf kh 1 (λ i. listed)
unfolding bucket_index
all_Holds h =
    let first : place kh h ≡ 0 = ground arith in
    subst (λ i. Chained device device_laws five (λ x. 7) df kf kh 1 i listed) (sym first)
      first_Chained

-- The value is indexed.
value_indexed : all_indexed five kh (λ i. listed) records ≡ true
unfolding computed device_laws all_indexed indexed records entries_from entry_at hash make_hash
value_indexed = refl

normal_records-Verdict_example :
    (x : Result Checker) × (normal_records device five
        (λ x. 7)
        df
        kf
        kh
        1
        3
        (reader (λ x. 7) df 92 137 40)
        checker
      ≡ some x)
    × Verdict checker kvs (all_indexed five kh (λ i. listed) records) x
normal_records-Verdict_example =
    let (visitor, at) =
      reader-IsVisitor device device_laws (λ x. 7) df 92 137 40 (omega arith)
        (device_extent 137 df (omega arith)) (device_reads df) in
    normal_records-Verdict device device_laws five (λ x. 7) df kf kh 1 137 3 92
      (reader (λ x. 7) df 92 137 40) checker kvs (λ i. listed) visitor at df-IsBytes
      (device_reads df) (device_reads kf) all_Holds refl records records-Full
      (omega (arith, two_records))

-- The counts of a run: one value, of three bytes, and one spill record, of 34 bytes
counts : Run Checker → List ℕ
counts (some (ok s)) =
    s.info.value_count ∷ s.info.value_bytes ∷ s.info.spill_count_tot ∷ s.info.spill_bytes_tot ∷ []
counts _ = []

normal_run :
    counts (normal_records device five (λ x. 7) df kf kh 1 3 (reader (λ x. 7) df 92 137 40) checker)
    ≡ 1 ∷ 3 ∷ 1 ∷ 34 ∷ []
unfolding computed counts normal_records normal_record normal_value normal_spill check_value
    count_value seek_chain seek_entries short_as prepare_read refill compact reader reserve eof read
    read_blob read_size48 advance read_file read_bulk update copy at lower_bound lower_loop hash
    make_hash bucket_index bucket_size bucket_capacity writep actual_size
normal_run = refl
