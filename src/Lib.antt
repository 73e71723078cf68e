-- ===== src/Lib.antt =====
-- The storage core of the object store in `src`: data that a client sends is cut into fragments
-- (`src/deduplicator`), each fragment is a run of bytes at a global pointer (`src/common/types`,
-- `src/common/utils/pointer_traits.h`), and the storage services count the references to the pages
-- that hold them (`src/storage`).
--
-- Base holds what the modules share: Boolean tests on numbers, lists over the native numbers, and
-- words. `std::size_t` is a number modulo 2^64 and `uint128_t` one modulo 2^128, with the
-- wrap-around written out in `add64`, `sub64` and `add128`. An exception is a value of `Result`.
-- `Option` around a `Result` is `none` for undefined behaviour or fuel that ran out.
--
-- Types models `src/common/types/fragment.h` and `address.h`. The bytes of an address are the list
-- of pointers that it covers, so that what storage holds is a function from pointers to bytes.
--
-- Pointers models `src/common/utils/pointer_traits.h`, for round-robin and erasure-coded groups.
--
-- Strings models the splitting, joining, trimming, comparing, hexadecimal and URI encoding functions
-- of `src/common/utils/strings.h` and `strings.cpp`.
--
-- Http models `src/entrypoint/http/range.cpp`, with the functions of the standard library that it calls on
-- texts and numbers. Writing a number has fuel for a round for each unit of the number, and one more.
--
-- Policy models `src/entrypoint/policy`: wildcards and Policy.Variables (`variables.cpp`),
-- Policy.Matchers (`matcher.h`, `matchers.h`), Policy.Json (`src/common/utils/json.h`),
-- Policy.Parser (`parser.cpp`) and Policy.Check (`policy.cpp`, `module.cpp`). A matcher is a function
-- from the variables of a request to a Boolean or an exception. What `json::parse` yields, the text of
-- the bucket's policy, and dates come from parameters.
--
-- Storage.RefCounter models `src/storage/reference_counter.cpp`, operation by operation, on a
-- key-value store that is the interface Storage.Kv: the laws of a map in one transaction. The
-- callback of `decrement`, which frees a byte range, is a parameter with a state of its own.
-- Storage.RrDataView models `src/storage/group/rr_data_view.cpp`: the address of a write, the counts that an
-- address stands for, what a link rejects, and the requests (Service) but for `read_address`.
-- Storage.EcDataView models `src/storage/group/ec_data_view.cpp`: Pieces and Split
-- cut fragments at chunks, Stripes is the layout of a write, Counts the references, Service the
-- requests, and Read is `read_address` with `src/storage/group/impl/address_utils.cpp`, the recovery of lost
-- chunks included. There the buffer is a function from places to bytes, and maps are lists of entries.
-- Storages are asked through Storage.Fanout, the `run_for_all` of
-- `src/common/coroutines/coro_util.h`; the Reed-Solomon code is a parameter. The loop over a fragment
-- has fuel for a round for each byte.
-- Storage.GlobalCache models `src/storage/global/cache.cpp`, the reads of the storage service through a
-- cache, which is Caches.LruCache, the model of `src/common/caches/lru_cache.h`: its list of nodes, whose
-- iterators are names, and its map from keys to iterators.
-- Storage.DataStore models `src/storage/default_data_store.cpp` and `data_file.cpp`: allocation, and
-- the loops that write, read and delete across files, with fuel for a round for each byte. Files of the
-- operating system are the interface `FileSystem`.
--
-- Cors models `src/entrypoint/cors`: the parser of the rules, behind the reading of XML, and the answers of
-- `module.cpp`. The rules, from the cache or the directory, are an argument of a request.
--
-- Dedup models `src/deduplicator/fragmentation.cpp` (Fragmentation, Flush and Reject) and
-- `src/deduplicator/interfaces/local_deduplicator.cpp` (Search and Deduplicate). The fragment set is
-- the interface Dedup.Set; `find` of the set, `read` of the cache, and `link` and `write` of the
-- storage service, with a state of its own, are parameters. What the code relies on, of the service,
-- is Dedup.Deduplicate.Service. The loop over a storage address has fuel for a round for each
-- byte and each storage fragment, the search for a round for each byte.
--
-- Not modelled: network, tracing, coroutines, threads, the database, and the HTTP front end but for ranges,
-- policies and CORS.
pub mod Base
pub mod Types
pub mod Strings
pub mod Pointers
pub mod Storage
pub mod Dedup
pub mod Caches
pub mod Cors
pub mod Http
pub mod Policy
