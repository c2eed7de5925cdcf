-- ===== src/Lib.antt =====
-- NuDB keeps an append-only table of fixed-size keys and values in two files: a data file of
-- records, and a key file of buckets, which is a hash table that grows by linear hashing. A third
-- file is the log by which a commit that was cut short is taken back. This library models the core
-- of that program: the headers under include/nudb/detail, of include/nudb/impl/basic_store.ipp the
-- operations `fetch` and `insert` and parts of `commit`, and `create` and `visit`.
--
-- The parts, and the files that model them:
--
-- - Memory: the bytes behind pointers, `memcpy`, `memmove` and `memset`. An address is a number.
-- - Error (include/nudb/error.hpp): the codes, and the ways in which an operation ends: a value, a
--   code, or a thrown `std::logic_error`. What an operation changed before it failed is not kept.
-- - Field (include/nudb/detail/field.hpp): `field<T>`, `readp`, `write`, over memory. Field.RoundTrip
--   has their lemmas.
-- - Stream (include/nudb/detail/stream.hpp, and `read` and `write` of field.hpp): the cursors
--   `istream_t` and `ostream_t`, whose buffer is the memory argument. Stream.Items treats the items
--   of a header as a list.
-- - Endian (include/nudb/detail/endian.hpp): `to_little_endian` on a machine of either byte order.
-- - File: the `File` template argument, as operations with laws.
-- - Format (include/nudb/detail/format.hpp): sizes, hashes and `ceil_pow2`; Format.Headers has the
--   three headers with their `read` and `write`, Format.Verify the overloads of `verify`. The class
--   `Hasher` is a parameter, a function of a seed and of bytes.
-- - Bucket (include/nudb/detail/bucket.hpp): `bucket_index` and `bucket_t`, a view of a block of
--   memory that starts with the number of entries and the offset of a spill. Bucket.Entries is the
--   list of entries that the block stands for, and the modules behind it state each operation
--   against that list.
-- - Growth (`basic_store::commit` in include/nudb/impl/basic_store.ipp): the step by which the key
--   file gets a bucket, as numbers.
-- - BulkIo (include/nudb/detail/bulkio.hpp and buffer.hpp): `bulk_reader` and `bulk_writer`.
--   BulkIo.Writing compares a writer with the file that it will leave after a flush.
-- - Spill (`maybe_spill` in include/nudb/detail/bucket.hpp): a full bucket goes to the data file
--   through a bulk writer.
-- - Compact (`bucket_t::read` from a bulk reader): a bucket as a log record has it, less its unused
--   entries. Bucket.Transfer has what writing a bucket to a file and reading it back keep.
-- - Gentex (include/nudb/detail/gentex.hpp): `gentex_t` and `genlock`. Each method runs under the
--   internal mutex and is one step; Gentex.Holders runs every order of the steps.
-- - PosixFile (`posix_file::read` and `write` in include/nudb/impl/posix_file.ipp): the loops around
--   the system's `pread` and `pwrite`, which are parameters with the laws of POSIX. Their fuel is a
--   turn for each byte and each interruption.
-- - Arena (include/nudb/detail/arena.hpp): `arena_t`, as the lists of its blocks. Where `new` puts a
--   block is an argument, and a hypothesis says that it lies apart from the other blocks.
-- - Pool (include/nudb/detail/pool.hpp): `pool_t`, the pairs that wait for a commit, in the order of
--   their keys. Pool.Order has the laws of `memcmp`.
-- - Cache (include/nudb/detail/cache.hpp): `cache_t`, copies of buckets in memory by their index.
-- - Fetch (`fetch` and `exists` of a loaded bucket in include/nudb/impl/basic_store.ipp): the search
--   through the entries of a bucket and through the chain of its spills in the data file. Its fuel
--   is the number of buckets of the chain, which is given to be finite.
-- - Store (include/nudb/basic_store.hpp and impl/basic_store.ipp): an open database, with `fetch` and
--   `insert`, each on the state that it locks. Store.Contents says what a store holds: the pairs of
--   the two pools, and the entries of the bucket for a key, which the cache or the key file has.
-- - Split (`basic_store::split` in include/nudb/impl/basic_store.ipp): the loops over the entries of
--   the bucket that is split and over its spills. The theorem is about a bucket without spills.
-- - Commit (`basic_store::commit` and `load`): the loop that writes the pairs of the pool to the data
--   file; Commit.Buckets has the loop that puts them into buckets, Commit.Files the loops that write
--   the log file and the key file, and Commit.Steps the whole, without what other threads wait for.
--   The places that `new` gives are an argument, and the spills of a bucket that is split have fuel.
--   Commit.Crash puts `commit` and `recover` together.
-- - Run: operations that may give no result, since fuel ran out or an arena gave the null pointer.
-- - Visit (include/nudb/impl/visit.ipp): the loop over the records of a data file, on fuel that the
--   number of records bounds.
-- - Create (include/nudb/impl/create.ipp): the checks of the arguments and the writes. What the
--   creation of each file gives is an argument, and so is the load factor's product with 65536.
-- - Recover (include/nudb/impl/recover.ipp): `recover`, from what opening and erasing the files
--   give. The loop over the log runs on fuel, which the number of whole records bounds. Recover.Log
--   is the list of the buckets that a log holds.
-- - Open (`basic_store::open` and `close` in include/nudb/impl/basic_store.ipp): the state of a store
--   from its files, behind the call of `recover`, and without the thread that `open` starts.
-- - Thread (`basic_store::run`): the turns of the thread that commits. What other threads do between
--   two turns is an argument, a function of the state.
-- - Rekey (include/nudb/impl/rekey.ipp): `rekey`, from what opening and creating the files give. The
--   number of buckets is an argument, since the code computes it in the type `float`. The passes run
--   on fuel, the number of buckets, and the loop over the data file on the number of its records.
--   Rekey.Undone puts the log of `rekey` and `recover` together.
-- - Verify (include/nudb/impl/verify.ipp): `verify` and its two algorithms, with the numbers that
--   they count. Verify.Normal is `verify_normal`, Verify.Fast `verify_fast`, Verify.Choice the checks
--   of the headers and the choice between the two; Verify.Search compares the search for a value with
--   the entries of a bucket and its spills, and Verify.Counts the counts with the records of the data
--   file. The progress callback and the members of type `float` are left out.
-- - Tests: a file in memory, runs of the definitions on small inputs, and uses of the theorems.
--
-- Conventions. Numbers are natural numbers. Where the source wraps and the result depends on it
-- (`bucket_index`, `ceil_pow2`, the casts of `write`, `make_hash`, the decrements of `gentex_t`)
-- the modulus is written out; sizes, offsets and counters are taken not to grow to 2^64. Bytes that
-- are shifted to places of their own are combined by a sum for the source's `|`. `BOOST_ASSERT` is
-- not part of the program. The binary search runs on fuel, the number of entries: the part that is
-- left to search is never longer than the fuel, so that the fuel does not run out. The block of a
-- bucket is smaller than 2^16 bytes, since the header of the key file has 16 bits for its size.
--
-- Not modelled: the other calls of the operating systems, the texts of the error messages, and xxHash,
-- which is a copy of another library. The tests, tools, examples and benchmarks are clients.
pub mod Prelude
pub mod Error
pub mod Run
pub mod Memory
pub mod Field
pub mod Stream
pub mod File
pub mod Endian
pub mod Format
pub mod Bucket
pub mod Growth
pub mod BulkIo
pub mod Compact
pub mod Spill
pub mod PosixFile
pub mod Arena
pub mod Pool
pub mod Fetch
pub mod Cache
pub mod Store
pub mod Split
pub mod Commit
pub mod Visit
pub mod Create
pub mod Recover
pub mod Open
pub mod Thread
pub mod Rekey
pub mod Verify
pub mod Gentex
pub mod Tests
