-- ===== src/Lib.antt =====
-- A model of parts of oasys, a C++ library of system utilities (delay-tolerant networking), with
-- the theorems that make them correct. Paths are those of the repository.
--
-- What is modelled, and where:
-- - Serialize: serialize/BufferedSerializeAction.cc and serialize/MarshalSerialize.cc. An object
--   is the list of the fields that its `serialize()` hands to the action; `Marshal::process`,
--   `MarshalSize::process` and `Unmarshal::process` are functions by clauses on the field
--   (`marshal`, `get_size`, `unmarshal`), `next_slice` and the growth of an ExpandableBuffer are
--   in Serialize/Buffer.
-- - Serialize.KeySerialize: serialize/KeySerialize.cc, the text form of keys, on the same fields:
--   `key_marshal` and `key_unmarshal` for `process`, with the formats of snprintf (`hex`, `hex16`)
--   and `strtoul` of the C library.
-- - Util.SparseBitmap: util/SparseBitmap.tcc, a vector of ranges as a list: `set` with its search and
--   its two loops, `clear`, `is_set`, `num_contiguous`, `num_set` and `validate`, for an unsigned
--   type of 64 bits. `clear` is told how many entries the vector has room for before it moves, which
--   decides whether the iterator of its loop survives an insertion.
-- - Util.SparseArray: util/SparseArray.h, the blocks as a list: `allocate` with the merge (`merged`) and
--   the fixup of the tail (`fix_tail`), `range_write`, `read` for `operator[]`, and `size`. The bytes of an
--   element are an argument, and what calloc and realloc leave in new memory are others.
-- - Util.Base16: util/Base16.cc, `encode` and `decode`.
-- - Util.Uri: util/URI.cc. A URI is a record with the members of the class; Parse has
--   `parse_generic_ssp` and `parse_authority`, Validate and IpLiteral the validators, Percent the
--   loops over percent-encoded text that the validators and the decoders share, Setters the
--   `set_` functions, Dots the resolution of '.' and '..' segments, Normalize `parse`, `assign`,
--   `normalize`, `set_ssp` and `subsume`, and Query `query_value`. The other files have laws. A
--   failed assertion is `none`, and so is the use of a variable that `sscanf` has left unset. The
--   setters keep the `int` that the source makes of the difference of two lengths (`int_diff`), so their
--   laws and those of `parse` are about texts shorter than 2^31 characters.
-- - Util.Cache: util/Cache.h and util/LRUList.h, the cache with pin counts: `get`, `pin`, both forms
--   of `unpin`, `put_and_pin` with its loop (`make_room`, `evict_last`), `evict` and `evict_all`. The
--   helper, a template parameter, is the record `Helper`, its laws are `Accounts`, and
--   util/CacheCapacityHelper.h is `capacity_helper`.
-- - Util.InitSequencer: util/InitSequencer.cc and util/InitSequencer.h, the steps that start a program
--   in the order of their dependencies: `add_step`, `add_extra_deps`, `mark_dep`, `topo_sort` with
--   `dfs`, `run_steps` and `start`, one function each; the error that a component returns is a
--   parameter.
-- - Util.TokenBucket: util/TokenBucket.cc; `update`, `drain` and the other methods get the time that
--   the source reads from the clock.
-- - Storage.DurableObjectCache: storage/DurableObjectCache.tcc, the cache of durable objects: the
--   table and the LRU list in a record, `put` with its eviction loop, and in Operations `get`,
--   `is_live`, `release`, `del`, `remove` and `flush`. The size of an object is that of `MarshalSize`,
--   from Serialize. Steps has the sequences of calls (`Reaches`).
-- - Thread.Notifier and Thread.MsgQueue: thread/Notifier.cc, the pipe that wakes a thread up, and
--   thread/MsgQueue.tcc. A method of MsgQueue is cut where it lets go of its lock: `push` and the
--   later attempts of `notify` (`attempt`), `pop_blocking` up to its wait and `pop_waited` after it,
--   `try_pop`. MsgQueue/Sections has the threads: `run_section` runs a section, and `Reaches` has the
--   sections in any order, each when it may run (`Allowed`).
--
-- Conventions. Numbers are natural numbers; where the C++ type is unsigned with w bits the
-- remainder by 2 ^ w is written out, `size_t` having 64 bits. A buffer is the list of its bytes,
-- a pointer into it an offset. Memory that is allocated and not yet written holds 0, but in
-- SparseArray. A `process`
-- call or a method returns the new state beside its result. Logging, locks and the destruction of
-- objects are left out: each method runs under the lock of its object from beginning to end, but for
-- those of MsgQueue.
--
-- Fuel. The loop of `Unmarshal::process` for terminated carriers takes the length of the buffer
-- and one more as its fuel, since each round takes a byte. The loop of `SparseBitmap::clear` takes
-- its fuel as an argument: an entry costs two turns where it is split and one otherwise, so more than
-- twice the number of entries is enough for a range that is not empty. The loops of
-- `DurableObjectCache::put` and `flush` take the length of the LRU list and one more, as each round
-- takes a key out of it. The loops of `URI::normalize_path`, `validate_ip_literal` and `query_value`
-- take the length of their text and one more: each turn leaves less of it behind the position where
-- the next one starts.
-- The loop of `InitSequencer::mark_dep` takes the number of steps and dependencies, and one more, as its
-- fuel: a step that is marked pushes no dependency a second time. The recursion of `dfs` takes its depth
-- as an argument: a number above all levels is enough, where a level falls along each edge.
-- The loop of `Cache::put_and_pin` takes the number of entries and one more: each turn evicts one.
-- The loop of `Notifier::drain_pipe` takes the number of bytes and one more, as each read has a byte.
-- The room of the pipe is an argument, above 0.
--
-- Not modelled: the USE_CRC option, the other serialize actions, the database back ends, the
-- generated XML data binding, sockets, the classes of threads and locks, timers, logging, the mail
-- protocol, and the bindings to Tcl and to XML parsers.
pub mod Base
pub mod Serialize
pub mod Storage
pub mod Thread
pub mod Util
