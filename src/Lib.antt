-- ===== src/Lib.antt =====
-- rtail: a log server. Lines arrive at receivers (internal/ingest), become records
-- (internal/normalize, internal/model) and are appended to a store (internal/logstore). The durable
-- store writes each record to a write-ahead log (internal/wal) before anything else, keeps the
-- newest ones of every stream in a ring, tells subscribers, and from time to time seals the log's
-- active segment and flushes the batch to Parquet files (internal/parquetio), which a catalog
-- (internal/catalog) lists and compaction (internal/compact) merges. Searches and live tails are
-- filtered by rQL (internal/rql).
--
-- Base.antt and its children hold the shared names, lists over the native numbers, and tests.
--
-- Wal.antt: internal/wal/wal.go.
--   Wal/Frame.antt: the frame that `Append` writes, with CRC-32C computed bit by bit.
--   Wal/Replay.antt: `Log.Replay` (`replay`) and `zeroToEnd` over the bytes of a segment. The
--     callback is `visit` with its state, and `decode` is json.Unmarshal followed by
--     `walRecord.decode`, a parameter. Errors of the reader other than the end of the file are left
--     out. The loop runs on fuel, one more than the number of bytes; each round takes eight.
--   Wal/Log.antt: the struct `Log` and its methods. What the disk answers during one call is an
--     argument (`Disk`), so every failure of a write, truncation, fsync or creation is covered. A
--     file records, besides its content, how much of it and whether its name is durable; the code
--     sees neither. `Sync` is two functions, `sync_begin` and `sync_end`, for it lets go of the lock
--     while the fsync runs. `encoding/json` is the parameter `marshal` of `append`; what is relied
--     on is that an encoded record is not empty. Sizes are numbers without bound: a file stays
--     below 2 ^ 63 bytes, and segment numbers below 2 ^ 64.
--   Wal/Log/Schedule.antt: interleavings of the methods, as lists of actions. `syncing` is modelled
--     by letting `Sync`, `Rotate` and `Close` wait while a sync is in flight.
--
-- Rql.antt: internal/rql, the filter language.
--   Rql/Syntax.antt: the data of ast.go and the tokens. A text is a list of code points; float64 is a
--     parameter. Errors keep their position and which of the messages they have.
--   Rql/Operator.antt: `operators` and `splitOperator`.
--   Rql/Lex.antt: `lex`, `opensQuote`, `lexQuoted` and, of ast.go, `quoted`. The outer loop runs on
--     fuel, one more than the number of runes, of which each round takes one.
--   Rql/Parse.antt: `Parse` and what it calls. The token slice and `pos` are the list of the tokens
--     from `pos` on. Fuel is five for each token and four more, for the functions that call each
--     other without taking a token. `strconv.ParseFloat` is the parameter `parse_float`.
--
--   Rql/Values.antt: the values and records of internal/model/record.go that a filter reads, `Rank`,
--     `levelOf` and `Timestamp` of sql.go, and `Level` and `PinoLevel` of internal/normalize/normalize.go.
--     What they call of Go's standard library is the record `Library`: functions of any behaviour.
--     `IsObject` is a field of the record. An error keeps its kind and the text that it is about.
--   Rql/Predicate.antt: `ToPredicate` of predicate.go with `lookup` and every comparison. `jsonPath`, with
--     jsontext.go, is the parameter `json_path`.
--   Rql/Sql.antt: `ToSQL` of sql.go, with the arguments bound so far passed along. The resolver, which is
--     the query engine's, is any function. The case where no operator is known to `ordered` cannot be
--     reached from `comparison`.
--   Rql/Sql/Plan.antt: the conditions that `ToSQL` writes, as a tree, and their text.
--   Rql/Sql/Statement.antt: the SQL that `ToSQL` writes, as a syntax with a text of its own for every
--     operator, cast, test and CASE (`print`), and the form that each condition is. Nothing of it
--     is taken from the compiler's helpers, whose text is compared with it.
--   Rql/Agreement/Duck.antt: `DuckRow`, what DuckDB finds of each form of that syntax: the three truth
--     values of AND, OR and coalesce, NULL for a missing value, ILIKE with its wildcards and the
--     escaping backslash (`like`), regexp_matches, a simple CASE with its numerals, casts and the
--     order of numbers, texts, truth values and times. `GoLaws` is what is relied on of strings.ToLower,
--     strings.Contains and float64. DuckDB's upper and lower case are taken to be Go's.
--   Rql/Agreement.antt: `Stored`, what a row has of a record: each field in a column of its kind, with
--     the text that Go gives it, so a float that DuckDB writes otherwise than Go is left out, as is a
--     key whose type differs between files. A level that is stored is trimmed, as Level leaves it.
--     `ConditionRow` is a step of the proof, which Agreement/Laws.antt makes of `DuckRow`.
--
-- Auth.antt: internal/auth/auth.go. `Wrap` is a function from what it reads of a request to what it
--   answers; net/http and net/url have parsed the request. A cookie is read by its name.
--
-- Storage.antt: `SafeSegment` of internal/storage/storage.go, over code points. What hash/fnv computes
--   is a parameter.
--
-- Store.antt: internal/logstore.
--   Store/Ring.antt: `ring` of memory.go, a slice with a start and a count.
--   Store/Memory.antt: `Memory.Append`, one step under its lock, with what it tells the fanout as a
--     list of events, and `Memory.Backlog` of a named stream. A record is its stream, its sequence
--     number and the rest, a parameter.
--   Store/Durable.antt: the data of durable.go's `Durable`, with the rows that `Intend` and `Register`
--     of internal/catalog/catalog.go read and add. What the disk and the database answer in one call
--     is an argument (`Answers`), so every one of them may fail. A record `ObjectName` stands for the
--     text that `objectName` prints, and `SafeSegment` is any function. A row has the records of its
--     file. The order of the rows, which the code sorts by stream, is that of the batch. Times are
--     numbers. A sequence number is compared without the bound of SQLite's INTEGER, 2 ^ 63 - 1.
--   Store/Durable/Cycle.antt: `flush`, `seal`, `retry`, `replay`, `persist`, `write` and `backOff`. The
--     log is what Wal shows of it: a list of records for each segment, from which `Replay` delivers
--     all, or those before damage or an error.
--   Store/Durable/Runs.antt: `Append`, `OpenDurable` and `recover`, and runs with crashes. A flush is
--     one step, in which no append falls; a crash in the middle of it is a flush in which nothing
--     is answered any more, followed by a crash. A crash leaves any number of records of the active
--     segment. What `loadBacklog` restores is an argument, and `Close`, `collect` and `sweep` are left
--     out, so no row is ever taken away.
--   Store/Fanout.antt: `Fanout` and `Subscription` of logstore.go, with what their channels hold. Each method
--     is one step, since all of them take the lock; a pointer is a number, and a panic is `none`. The
--     loops over the map `subs` go through it in the order of the list that stands for it.
--
-- Client.antt: internal/client, the command-line client.
--   Client/Ansi.antt: `stripANSI` of ansi.go with `scanCSI` and `scanOSC`. A suffix of the line stands
--     for an index into it. Fuel is one more than the number of bytes, of which each round takes one.
--
-- Not modelled: network and file system I/O, SQLite, DuckDB and Parquet, the web application, and the
-- parts that PROJECT.json lists as such.
pub mod Auth
pub mod Base
pub mod Wal
pub mod Rql
pub mod Storage
pub mod Store
pub mod Client
