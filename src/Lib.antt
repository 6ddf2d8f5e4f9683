-- ===== src/Lib.antt =====
-- leser: an error tracker in one binary. Events come in over HTTP into a write-ahead log, a pipeline
-- groups them into issues, keeps them in a columnar store, and fires alerts; an API serves them.
--
-- internal/wal is modelled in Wal and its modules. A segment file is its list of bytes; the directory
-- (Wal/Disk) is the list of segment files by base offset, in no particular order. Wal/Crc is the CRC-32C
-- of hash/crc32, Wal/Record is appendRecord and scanRecord of segment.go, and Wal/Segment is
-- createSegment, readSegmentHeader and scanSegment. Wal/Log has the state of wal.go's Log, with the files
-- and, for each, the number of bytes that an fsync has made durable, and load. Wal/Writer has the checks
-- of Append, the batch that writeLoop collects, writeBatch and roll. Wal/Reader is the reader of reader.go
-- with Next, position, skipTo and Lag, Wal/Offsets its offset files with NewReader, Commit and
-- ConsumerOffset (and RefreshLagFromWAL of internal/ingest/pipeline.go), Wal/Retention is retention.go,
-- and Wal/Refresh is Refresh of a log that was opened read-only (Follower). Wal/Layout says when the state
-- and the files of a log agree (Holds): the files are those of the sealed segments and the active one,
-- each a header with the encoding of its entries. The other modules of Wal are about how writeBatch
-- (Appends, Batches), load after a crash (Rescans, Recovery, Durability), Next (Cursors, Delivery), Retain
-- and Refresh (Following, Current) keep to it. A loss of power (power_loss) cuts each file, sealed or
-- active, anywhere behind what has been synced; load takes the segments before the last as synced by the
-- roll that sealed them.
--
-- Issues is internal/metadata/issues.go: the table is the list of its rows, a statement of SQL the
-- function on that list that it describes, and a transaction that fails leaves the table as it was. The
-- organizations and projects that an insert must refer to are a parameter (References).
--
-- Eventstore is internal/eventstore: Eventstore itself has the store, Append and NeedsFlush of store.go
-- and query.go's Scan; Eventstore/Flush has Flush and writeSegment, Eventstore/Refresh has Open, Refresh
-- and readSegmentMeta, and Eventstore/Aggregate is aggregate.go, of which Eventstore/Aggregate/Counts
-- describes the counters. A Parquet file is its row groups as the library's reader presents them; that
-- their column index and Bloom filters do not contradict their rows is the hypothesis Indexed, and that a
-- file is written with the rows it is given is Faithful, of a parameter Disk that stands for the file
-- system and the Parquet writer and says of each attempt to write whether it succeeds. The order in which
-- Flush visits its map of partitions is a parameter too. A path is its project, its hour and the file's
-- name. What a store holds is compared up to order (Perm), as the abstract view of its contents. Calls of
-- Append that come while Flush writes are part of its model. Sketch is the HyperLogLog sketch of hll.go,
-- less its estimate.
--
-- Ingest is internal/ingest: Ingest/Envelope is envelope.go, Ingest/Dedupe the set of event ids of
-- pipeline.go, Ingest/Pipeline its Submit and process, and Ingest/Runs the loop of Run with its commits,
-- on top of the store of Eventstore. encoding/json and what bufio has read ahead are parameters, and so is
-- ExtractEvent of event.go. The log, the reader, the context and the file system come into a turn of the
-- loop as what they give; that the reader gives each record once, in order, is about Wal/Reader.
-- Ingest/Http is http.go up to the status of an answer. Grouping is internal/grouping, with SHA-1, the
-- regular expressions and path.Match as parameters, and Search is internal/search/search.go, on texts as
-- runes.
--
-- Cache is internal/cache/lru.go; the list and the map hold the same elements, and are one list. Ring is
-- internal/cluster/ring.go, with sort.Slice as a parameter, of which Ring/Sorts says what it promises
-- (Sorts); the order of entries of equal hash is not part of that. Alerts is internal/alerts/alerts.go,
-- with the clock, the context and the webhook as a World. Authz is internal/authz/authz.go, and Api the
-- authentication and authorization of a request in internal/api/api.go over it; the tables of tokens,
-- sessions and projects are a Store of functions, and what the owner of a project answers to a request
-- that is sent on is left out.
--
-- Prelude has what the modules share: Boolean tests, lists, little-endian bytes, texts as bytes,
-- dictionaries, Go's binary search, an insertion sort, and lists in another order.
--
-- Numbers: offsets, sizes, counts and times are natural numbers; what is written in 4 or 8 bytes wraps
-- there (put_le), and theorems that read it back ask for a value that fits. Hashes and checksums wrap at
-- 32 or 64 bits. Negative sizes and times before 1970 are not modelled. The scans of a file take its
-- length as fuel, each record having at least 17 bytes; the binary search takes the length of its range,
-- and the eviction loop the number of elements, of which each round removes one. Parse of an envelope
-- takes the length of the input plus two, each round reading a byte, and strconv the number itself or 16
-- digits.
--
-- Not modelled: failures of the file system in the log other than missing and existing files, the channels
-- between Append and writeLoop beyond the order of the requests, and Close; what the owner of a log does
-- while a read-only log's Refresh runs; the text of a segment's path; the estimate of a sketch;
-- ExtractEvent; rate limits, which are floating-point; the SQL of sessions, tokens and alert rules;
-- configuration, the command line, HTTP handlers, password hashing and the web page.
pub mod Alerts
pub mod Api
pub mod Authz
pub mod Cache
pub mod Eventstore
pub mod Grouping
pub mod Ingest
pub mod Issues
pub mod Prelude
pub mod Ring
pub mod Search
pub mod Sketch
pub mod Wal
