-- ===== src/Lib.antt =====
-- AresDB keeps the recent rows of each table shard in memory. A batch of rows is first appended to
-- the redo log of the shard. A row goes into a live batch at the position that the live store hands
-- out; the primary key maps its key to that position; the snapshot manager (dimension tables) or the
-- backfill manager (fact tables) tracks how much of the redo log is covered, which the metastore
-- keeps across restarts, and the log is purged up to there; after a restart the rest is replayed.
-- The metastore also keeps the schemas, which have passed the schema validator, and the dictionaries
-- of enum columns. These are the parts modelled here:
--
--   Murmur     utils/hash.go: Murmur3Sum32, Murmur3Sum128 and Murmur3Sum64, on a list of bytes;
--              Murmur/Bounds on their range.
--   Record     memstore/common/primary_key.go: RecordID, Key and the sizes of the primary key.
--   Cuckoo     memstore/cuckoo_index.go: the state CuckooIndex. Its byte array is a list of cells,
--              eight to a bucket, the stash last. Find, Update and Delete are in Cuckoo/Lookup;
--              insertBucket, addNew, findOrAddNew, randomSwap, cuckooAdd and insert in
--              Cuckoo/Insert; newCuckooIndex, resize and FindOrInsert in Cuckoo/Resize. The other
--              children prove: Hash, Search, Find, Update, Delete on lookups; Cells, Place, Evict,
--              Stash, Scan, FindOrAdd on insertion; Fresh, Reload, Rehash, FindOrInsert on resizing.
--   Schema     memstore/common/data_type.go (Schema/DataType), metastore/common/model.go
--              (Schema/Table) and metastore/validator.go: the checks in Schema/Checks and
--              Schema/Validator, validateSchemaUpdate and Validate in Schema/Update. Proofs are in
--              TypeLaws, Valid, Valid/Whole, Update/Columns, Update/Compatible and Update/History.
--   Progress   memstore/snapshot_manager.go (Progress/Snapshot) and memstore/backfill_manager.go
--              (Progress/Backfill), with the guard that both Done methods share; SnapshotRun and
--              BackfillRun are about sequences of calls.
--   LiveStore  memstore/live_store.go: the map of batches, the write and the read position, and
--              what GetBatchIDs lists.
--   Stream     utils/stream_serialization.go: StreamDataReader and StreamDataWriter; Stream/Read on
--              what a read returns.
--   RedoLog    redolog/file_redolog_manager.go, over the log files of diskstore/local_diskstore.go:
--              AppendToRedoLog with its rotation. Iterator and the loop of PlayRedoLog
--              (memstore/recovery.go) are in RedoLog/Replay, CheckpointRedolog in RedoLog/Purge.
--              Replay/Records, Files, Whole and Recovery are on replays; Log, Append, Logged, Run
--              and RoundTrip on what a run of appends leaves on disk; SameSecond on a rotation in
--              the second of the file's creation; Purge/Listed and Purge/Checkpoint on purges.
--              RedoLog/Kafka is redolog/kafka_redolog_manager.go: the virtual files of 5000 messages,
--              CheckpointRedolog, addMessage and Iterator, over the offsets in the metastore. Its
--              Delivery is on what the iterator returns, Checkpoint, Starts and Run on runs of messages
--              and checkpoints, Restart on a restart before the first checkpoint.
--              RedoLog/Composite is redolog/composite_redolog_manager.go, with Steps and Rounds on
--              one message and Restart on a crash.
--   Ingestion  memstore/ingestion.go: the shard as far as the primary key, the live store, the redo
--              log on disk and the managers go. The loop of insertPrimaryKeys is in Ingestion/Rows,
--              ApplyUpsertBatch, saveUpsertBatch and HandleIngestion in Ingestion/Apply. Keys,
--              Positions and Records are on the records that the rows of a batch get, Batch on a
--              whole loop. Covered, Taken and Selected are on which rows are written, Promised is
--              what ApplyUpsertBatch promises, Saved on saveUpsertBatch, Refused on a batch with an
--              error in a later row, Start on a new shard.
--   MetaStore  metastore/disk_metastore.go: the state diskMetaStore and its watchers. The progress of
--              shards is in MetaStore/Shards, CreateTable, UpdateTable, UpdateTableConfig and
--              DeleteTable in Tables, AddColumn, UpdateColumn and DeleteColumn in Columns,
--              ExtendEnumDict and WatchEnumDictEvents in Enums, the versions of archive batches in
--              Batches. Proofs are in Actions, Failures, Refused, HalfCreated, Known,
--              SortColumn, Enums/Assign, Enums/Extend, Enums/Outcomes, Enums/Watch and Batches/Version.
--   Prelude    shared names, Boolean tests, integers and lists over the native numbers.
--   Tests      concrete runs, and the theorems applied to them.
--
-- Machine integers are natural numbers with the wrap-around written out where the code depends on
-- it: the words of the hashes, the counters that Delete decrements, batch ids and row indexes.
-- Counts of buckets, bytes, rows and slots are taken not to overflow. int64 file numbers and the
-- mutation counts are integers.
--
-- The only loop without a bound of its own is the resize loop of FindOrInsert. It runs on fuel, one
-- unit for each resize; running out is the result `none`. It is enough that one resize succeeds
-- within the fuel. The cuckoo process is bounded by maxTrials, as in the code. The loop of PlayRedoLog
-- runs on fuel too, one unit for each batch; a read of n bytes has n rounds, and the binary search
-- over n entries n rounds, as each round of these makes progress.
--
-- Random draws, the logarithm and the float32 growth of the index, the parsers of default values
-- (strconv, encoding/hex and the parsers of points and arrays), gopkg.in/validator.v2, the meta
-- store of the managers, NewUpsertBatch in a replay, the sizes of an upsert batch and 95 percent of
-- a buffer size are parameters. Of these only one law is asked for: Intn draws below its bound. A
-- file that is read is a parameter FileSource: each Read delivers a first part of what is left, and
-- io.EOF at the end. Which accesses of the metastore the file system refuses is a parameter as well.
-- The consumer of sarama is the sequence of what it delivers; this, the value of OffsetNewest,
-- ExtractBackfillBatch and the float32 test for 5 percent of the rows are parameters without a law.
--
-- Not modelled: locks (each method holds its lock for the whole body, so a run is a sequence of
-- calls), reports of memory use, metrics and JSON, column data of live batches and the encoding of
-- upsert batches, a write to a metastore file that fails half way, snapshots and archive batches on
-- disk, and the rest of the system: archiving, backfill and snapshot jobs, the query engine, the
-- broker, the controller, the data node and the HTTP interfaces.
pub mod Prelude
pub mod Murmur
pub mod Record
pub mod Cuckoo
pub mod Schema
pub mod Progress
pub mod Ingestion
pub mod LiveStore
pub mod Stream
pub mod RedoLog
pub mod MetaStore
pub mod Tests
