-- ===== src/Lib.antt =====
-- uni5db is an SQL server that keeps its tables in an ordered key-value store. This library models
-- the layers between the SQL values and that store, and the lock manager of the MySQL sessions.
--
--   Base      lists, options, results and Boolean tests that every part uses
--   Bytes     byte slices: equality, the lexicographic order, prefixes, big-endian integers, UTF-8
--   Types     `ColumnValue`, `DataType` and the schemas of src/types: column_value.rs, data_type.rs
--             and schema.rs; the equality and order of values with their decimals, and their texts
--   Storage   src/storage_layout: the byte cursor (cursor.rs), the self-describing value format,
--             the ordered floats and the fixed-width fields (tuple_codec.rs), the typed key format
--             (olap_stats.rs), the keys of rows, versions, index entries, chunks and statistics
--             and the ranges that scan them (keys.rs), the records of chunks and statistics and
--             the visibility of versions (olap_stats.rs), and the raw records of rows with their
--             tombstones and the writer and the readers of the fixed row format
--             (row_codec.rs, fast_row_decode.rs)
--   Store     src/mem_store.rs: maps, `MemoryKvStore`, `MemoryTransaction` with savepoints, the
--             predicates and aggregates that a scan evaluates, and the contract of a store over which
--             scans of tables are stated (Store/Tables.antt)
--   Engine    src/kv_engine_store: the store (store.rs) and the transaction (transaction.rs) over the
--             external storage engine
--   Locks     src/core/server/mysql_locks.rs, with the lock types of shared.rs and the releases of
--             context_session.rs: conflicts, queue, wait graph, and the manager over them
--
-- How the parts interact: a row's primary key is encoded by the key format, a key function puts the
-- table's prefix before it, and the store holds the row's bytes under the result. A scan is a range of
-- keys, which the store answers in key order; a transaction lays its own writes over the rows.
--
-- Numbers: an integer of w bits is its bit pattern below 2 ^ w, a float its IEEE bit pattern, a text
-- its UTF-8 bytes. `IsValid` says so of a value. Errors are values of `Result`.
--
-- Fuel: the decoders of nested values recurse on fuel, one more than the number of bytes left, since
-- each level of nesting reads a tag byte. A separate outcome stands for running out of it.
--
-- State: the store is the map behind its lock, an operation takes the map and gives the new one. A
-- hash map is its entries in some order, a tree map its entries in key order. The one place where the
-- code does not wait for a lock, the `try_read` of `overlay_pending`, has its success as an argument.
--
-- The lock manager's state is the held locks, the queue and the wait graph; a round of the loop of
-- `acquire_mysql_locks` is one function, and a step relation lets the sessions' rounds, waits, time-outs
-- and releases come in any order. The walk through the wait graph runs on fuel, one more than the
-- number of waits, since each step but the last sees a new waiting session.
--
-- Parameters: `FloatOps` and `FloatText` stand for the conversions, the arithmetic and the printing of
-- floats by the machine and its library; the order of floats is read off their bits. `Engine` stands
-- for the tables of the external storage engine, whose cursors are the batches that they give one after
-- the other, and `Answers` says that the batches of a query hold the entries of a store.
--
-- Not modelled: the SQL layer, the query engine, the wire protocols and the catalog, which rest on
-- libraries outside the repository; of src/kv_engine_store the aggregation by batches and the rewriting
-- of rows. The text that an error becomes is not kept apart from the error.
pub mod Base
pub mod Bytes
pub mod Types
pub mod Storage
pub mod Store
pub mod Engine
pub mod Locks
