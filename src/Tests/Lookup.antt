-- ===== src/Tests/Lookup.antt =====
-- A store with a cached bucket of one entry, whose data record is all zeros.
use nu_db.Prelude.{
  ℕ, ◌+◌, ◌*◌, ◌≤◌, ◌^◌, ◌≡◌, ◌∙◌, refl, ap, ◌⊎◌, none, some, List, [], ◌∷◌, ◌++◌, arith, true, inl,
  inr,
}
use nu_db.Error.{ok, err, key_exists}
use nu_db.Memory.{Memory, poke, copy, fill}
use nu_db.Field.{readp, writep}
use nu_db.Format.{Hasher}
use nu_db.Format
use nu_db.Bucket.{
  Bucket, create, clear, insert, update, full, lower_loop, lower_bound, bucket_index,
}
use nu_db.Bucket.Blob.{create-IsBucket, load-IsBucket}
use nu_db.Bucket.Entries.{entry_at, entries_from, entries}
use nu_db.Bucket.Insert.{IsBucket}
use nu_db.Bucket.Insert.Refines.{insert-IsBucket}
use nu_db.Arena.{Arena, Element, alloc}
use nu_db.Arena
use nu_db.Arena.Disjoint.{IsArena, IsPlace}
use nu_db.Pool.{Pool}
use nu_db.Pool.Finds.{IsPool}
use nu_db.Cache.{Cache, find}
use nu_db.Cache
use nu_db.Cache.Holds.{IsCache}
use nu_db.Cache.Adds.{Adds, insert-Adds}
use nu_db.Fetch.{fetch_bucket, exists_bucket}
use nu_db.Fetch.Scan.{InFile, find_value, is_some}
use nu_db.Fetch.Chain.{Spilled, depth, answer, fetch_bucket-find_value}
use nu_db.Fetch.Chain
use nu_db.Store.{Store, fetch, index_of}
use nu_db.Store
use nu_db.Store.Contents.{Listed, spills, IsStore, value}
use nu_db.Store.Contents
use nu_db.Store.Lookup.{fetch-value}
use nu_db.Store.Inserted.{Updates, insert-Updates}
use nu_db.Tests.Device.{Device, blank, device, device_laws, device_extent, device_reads}

abbrev twos : Memory
twos x = 2

-- The entry of 50 bytes at 1000, in a bucket at 16
source : Bucket × Memory
source = let (b, m) = create twos 200 16 in insert m b 1000 50 77

abbrev memory : Memory
memory = source.1

source-IsBucket : IsBucket memory source.0
unfolding source
source-IsBucket =
    let (b, m) = create twos 200 16 in
    (insert-IsBucket m b 1000 50 77 (create-IsBucket twos 200 16 (omega arith) (omega arith)).0
      (unfold create clear full Format.bucket_capacity in refl) (omega arith) (omega arith)
      (omega arith)).0

-- 1200 zeros
abbrev zeros_file : Device
zeros_file = record blank { extent = 1200 }

abbrev zero_key : List ℕ
zero_key = 0 ∷ 0 ∷ 0 ∷ 0 ∷ []

computed : Unit {0}
unfolding source create clear insert update lower_bound lower_loop entry_at entries_from readp
    writep poke copy fill
computed = tt

no_spill : source.0.spill ≡ 0
unfolding computed
no_spill = refl

end_of_chain : Spilled device device_laws zeros_file 200 source.0.spill []
end_of_chain = Chain.end _ no_spill

data_reads :
    (p n : ℕ)
    → p + n ≤ device_laws.extent zeros_file
    → (bs : List ℕ) × (device.read zeros_file p n ≡ ok bs)
data_reads = device_reads zeros_file

in_data : InFile device device_laws zeros_file 4 (entries memory source.0 ++ [])
unfolding computed
in_data = (device_extent 1060 zeros_file (omega arith), tt)

fetch_bucket-find_value_example :
    let found =
      find_value (device_laws.bytes zeros_file) 4 77 zero_key (entries memory source.0 ++ []) in
    (fetch_bucket device zeros_file 4 200 600 1 memory source.0 77 zero_key ≡ some (answer found))
    × (exists_bucket device zeros_file 4 200 600 1 memory source.0 77 zero_key
        ≡ some (ok (is_some found)))
fetch_bucket-find_value_example =
    fetch_bucket-find_value device device_laws zeros_file 200 4 600 77 1 zero_key memory source.0 []
      data_reads source-IsBucket end_of_chain in_data
      (unfold end_of_chain Chain.depth in omega arith)

-- The bucket as the cache has it at index 0, in an arena with room for one more.
abbrev cached_memory : Arena
cached_memory = record {
  alloc_size = 100;
  used = record { base = 16; capacity = 400; used = 200 } ∷ [];
  free = [];
}

abbrev buckets : Cache
buckets = record { key_size = 4; block_size = 200; arena = cached_memory; map = (0, 16) ∷ [] }

cached_memory-IsArena : IsArena cached_memory
cached_memory-IsArena = record { blocks = (omega arith, tt, tt); unused = tt }

shape : (source.0.block_size ≡ 200) × (source.0.p ≡ 16) × (source.0.size ≡ 1)
unfolding computed
shape = (refl, refl, refl)

there :
    IsBucket memory
      (record { block_size = 200; size = source.0.size; spill = source.0.spill; p = 16 })
unfolding computed
there = source-IsBucket

buckets-IsCache : IsCache memory buckets
buckets-IsCache = record {
  arena = cached_memory-IsArena;
  ordered = (tt, tt);
  copies = (
    record {
      count = source.0.size;
      link = source.0.spill;
      bucket = there;
      taken = λ x lo hi. inl (lo, hi);
    },
    tt,
  );
  apart = (tt, tt);
}

insert-Adds_example :
    (d : Bucket) × (m' : Memory) × (c' : Cache) × (Cache.insert memory buckets 1000 5 source.0
      ≡ some (ok d, m', c'))
    × Adds memory buckets 5 source.0 m' c' d
insert-Adds_example =
    insert-Adds memory buckets 1000 5 source.0 buckets-IsCache source-IsBucket shape.0
      (unfold find Cache.lookup in refl) (unfold computed in (inr (omega arith), tt))

abbrev no_memory : Arena
no_memory = record { alloc_size = 100; used = []; free = [] }

no_memory-IsArena : IsArena no_memory
no_memory-IsArena = record { blocks = tt; unused = tt }

abbrev no_pairs : Pool
no_pairs = record { arena = no_memory; key_size = 4; data_size = 0; map = [] }

no_pairs-IsPool : IsPool no_pairs
no_pairs-IsPool = record { ordered = tt; counted = refl; arena = no_memory-IsArena }

-- Every key has the hash 77.
abbrev hasher : Hasher
hasher salt bytes = 77 * 2 ^ 16

abbrev store : Store Device
store = record {
  df = zeros_file;
  kf = blank;
  memory = memory;
  p0 = no_pairs;
  p1 = no_pairs;
  c1 = buckets;
  salt = 9;
  key_size = 4;
  block_size = 200;
  buckets = 1;
  modulus = 1;
  pool_thresh = 1;
  commit_limit = 1000;
  failed = none;
}

store-IsStore : IsStore device device_laws store
store-IsStore = record {
  first = no_pairs-IsPool;
  second = no_pairs-IsPool;
  first_keys = refl;
  second_keys = refl;
  running = refl;
  data_reads = data_reads;
  keys_read = device_reads blank;
}

is_found : find memory buckets 0 ≡ some (ok source.0)
unfolding computed find Cache.lookup
is_found = ap some (load-IsBucket memory source.0 source-IsBucket)

only_index : (key : List ℕ) → index_of hasher store key ≡ 0
unfolding bucket_index Format.hash Format.make_hash
only_index key = refl

listed :
    (key : List ℕ)
    → Listed device device_laws store (index_of hasher store key) (entries memory source.0 ++ [])
listed key =
    Contents.cached source.0 [] (ap (find memory buckets) (only_index key) ∙ is_found)
      source-IsBucket end_of_chain refl

fetch-value_example :
    fetch device hasher 600 900 1 store zero_key
    ≡ some (answer (value device device_laws hasher store (entries memory source.0 ++ []) zero_key))
fetch-value_example =
    fetch-value device device_laws hasher 600 900 1 store zero_key _ store-IsStore (listed zero_key)
      in_data (unfold listed Contents.spills end_of_chain Chain.depth in omega arith)

abbrev one_key : List ℕ
one_key = 0 ∷ 0 ∷ 0 ∷ 1 ∷ []

-- The first block, with the key
with_key : Arena
with_key = record no_memory { used = record { base = 2024; capacity = 76; used = 8 } ∷ [] }

second-IsPlace : (a : Arena) (q : ℕ) → alloc no_memory 2000 4 ≡ some (q, a) → IsPlace a 3000 2
second-IsPlace a q e =
    let here : alloc no_memory 2000 4 ≡ some (2024, with_key) =
      unfold with_key alloc Arena.alloc_used Arena.alloc_free Arena.alloc_new Arena.take_first
        Arena.take_bytes in
      refl in
    let same : a ≡ with_key = cc in rw same (unfold with_key in (inr (omega arith), tt))

insert-Updates_example :
    let before = value device device_laws hasher store (entries memory source.0 ++ []) one_key in
    let done = Store.insert device hasher 600 900 1 2000 3000 store one_key (8 ∷ 8 ∷ []) 2 in
    ((is_some before ≡ true) × (done ≡ some (err key_exists)))
    ⊎ ((before ≡ none)
        × ((s' : Store Device) × (done ≡ some (ok (some s')))
            × Updates device device_laws hasher store one_key (8 ∷ 8 ∷ []) s'))
insert-Updates_example =
    insert-Updates device device_laws hasher 600 900 1 2000 3000 2 store one_key (8 ∷ 8 ∷ []) _
      store-IsStore (listed one_key) in_data
      (unfold listed Contents.spills end_of_chain Chain.depth in omega arith) refl tt second-IsPlace
