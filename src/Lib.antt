-- ===== src/Lib.antt =====
-- OLake, which copies tables and topics of a source to a lake: models of the parts that decide what
-- is copied, under which names and types, and what a sync remembers.
--
-- A driver (drivers/) discovers streams, with a TypeSchema each. The catalog (types/catalog.go)
-- wraps them, and a later discovery is merged with the catalog that the user edited. A sync reads the
-- selected streams of the catalog, in the chunks that the driver cuts, and notes in the state
-- (types/state.go) which chunks are left and how far each cursor got; a writer (destination/) maps
-- columns and types to those of the lake. The abstract driver (drivers/abstract/) runs the chunks of a
-- backfill through writer threads (destination/writers.go), which buffer and flush, and starts the
-- reading of changes when the backfills are over; the Parquet writer on S3 commits in two phases. Sets
-- (types/set.go) hold types, columns, keys and chunks in all of these.
--
-- Which file models what:
--   Base, Base/*              lists, options, tests and Go maps as association lists
--   Utils/Arrays, Text        utils/utils.go: ArrayContains, SplitAndTrim, ExtractColumnName,
--                             StreamIdentifier
--   Utils/Reformat            utils/utils.go: Reformat, IsLetterOrNumber
--   Utils/Retry, Retry/*      utils/utils.go: RetryOnBackoff and RetryWithSkip, with the work and the
--                             context as oracles
--   Types/Set, Set/*          types/set.go: the Set and each of its operations
--   Types/DataType, .../*     types/data_types.go and the typecast tree of types/type_schema.go
--   Types/Property, .../*     types/type_schema.go: Property.DataType and Nullable
--   Types/TypeSchema, .../*   types/type_schema.go: the columns of a stream
--   Types/UpdateType, .../*   types/delete_mode.go and types/query_engine.go
--   Types/Stream              types/stream.go, types/sync_mode.go and GenerateDestinationDetails
--   Types/Configured, .../*   types/stream_configured.go
--   Types/State, State/*      types/state.go: State, StreamState, their operations and their JSON
--   Types/Catalog, .../*      types/catalog.go: GetWrappedCatalog, mergeCatalogs, GetStreamsDelta
--   Typeutils/Filter, .../*   utils/typeutils/filter.go: FilterRecords
--   Typeutils/Compare, .../*  utils/typeutils/compare.go: Compare, and the orders that it is on each kind
--   Typeutils/Fields, .../*   utils/typeutils/fields.go: Process and the merges, and resolver.go: Resolve
--   Destination/Parquet       destination/parquet/parquet_2pc.go and Close of parquet.go: the bucket with its
--                             calls (ObjectStore), the keys, the metadata, and the commits (TwoPhase)
--   Destination/Writers, .../* destination/writers.go: Push, flush, Close, rollbackStats of a WriterThread
--   Drivers/Abstract/Backfill drivers/abstract/backfill.go: the attempts at a chunk, and the chunks of a stream
--   Drivers/Abstract/Cdc      drivers/abstract/cdc.go: RunChangeStream, and waitForBackfillCompletion
--   Drivers/Abstract/Incremental drivers/abstract/incremental.go: the cursors of a stream
--   Drivers/Abstract/Incremental/Thread the attempts at reading the changes of a stream
--   Drivers/Abstract/Prerequisites drivers/abstract/prerequisites.go: RunPrerequisites and what fails on it
--   Drivers/Abstract/Clear, Discovery drivers/abstract/abstract.go: ClearState, produceSampledSchemas
--   Utils/Path                the functions of Go's strings and path that keys of objects are made with
--   Drivers/Mysql/Charset     drivers/mysql/internal/backfill.go: key texts as big integers
--   Drivers/Mysql/Split       drivers/mysql/internal/backfill.go: splitEvenlyForInt, condenseStrings
--   Pkg/Jdbc, Jdbc/*          pkg/jdbc/jdbc.go: buildLexicographicChunkCondition, as a tree of tests, and
--                             the chunks of splitViaPKSample in drivers/mssql/internal/backfill.go
--   Tests/*                   the theorems at concrete inputs
--
-- Correspondence. A Go struct is a record, a pointer that may be nil an Option, a map or sync.Map an
-- association list whose order is one of those in which Go may range over it. An operation that
-- changes its receiver gives the new one. The operations of State, Set and TypeSchema run under a
-- lock, or on one goroutine, from their first read to their last write, so each is one step, and the
-- orders of calls of several goroutines are the lists of steps. A Go panic is a value of its own
-- (`panics`, or `none`), and so is an error.
--
-- Parameters. hashstructure.Hash, which gives the key of a set element, is the field `structure_hash`
-- of Hashing; where a theorem needs that it tells elements apart, that is a hypothesis.
-- reflect.DeepEqual is the record DeepEqual, and go-json's writing and reading of the values in a stream's state, which
-- need not give a value back, the record Codec of Types/State/Files; the Json of Destination/Parquet/Metadata is encoding/json, and
-- `reread` of Drivers/Abstract/Incremental/Thread what JSON makes of the cursors in the metadata. What becomes of each call of
-- S3 is a Fate, the SHA-256 of a thread's id a field of the record Parquet, and the writer behind a writer
-- thread the record Writer. Floats and %v are the record Platform. What fails in an attempt at a chunk is
-- a Trouble, the cancellation of the group's context among it, and what the contexts and the channel of a wait do is a
-- list of events. ParseFilterValue and getFilterColumnDataType are arguments of the filter, and ReformatValue, the
-- layout of times and what the source holds are arguments of the attempts at the changes. Of a retried
-- function, the results of its calls are the record Oracle, as is what the context says at each look.
-- The values that Go keeps behind `any` are type parameters.
--
-- Bounds and fuel. The counters of writer threads are int64, written out modulo 2 ^ 64. Int64 values of splitEvenlyForInt are kept as distances from the least int64, and
-- sums wrap at 2 ^ 64. Its loop has fuel for one round more than the distance of the bounds, and the
-- loop of decodeBigIntToCharsetString as many rounds as the number; the results below say that the
-- loops end within these.
--
-- Not modelled: the drivers' queries and protocols, the readers of binlogs, the writer to Iceberg and the
-- Java process behind it, the making of Parquet files, logging, telemetry, the command line, and the
-- writing of the state file. Of Compare, json.Number and the package's own Time are left out. In
-- buildLexicographicChunkCondition the extra filter, the quoting of literals and the cutting of a boundary's
-- text at its commas are left out; how a database compares values is its argument. In
-- RunChangeStream the work of the backfills on the chunks of the state is left out, which Backfill models.
-- Fields and Resolve start from the types that TypeFromValue detects, which is not modelled itself. Set.Range and Set.String, the JSON of a TypeSchema, and GetFilter, whose legacy
-- form is a regular expression, are not modelled either.
mod Base
pub mod Utils
pub mod Types
pub mod Typeutils
pub mod Pkg
pub mod Destination
pub mod Drivers
mod Tests
