-- ===== src/Lib.antt =====
-- Twilight Core Explorer: a model of the explorer's core logic.
--
-- The indexer (apps/indexer) ingests blocks of the chain and projects them into tables; the API
-- (apps/api) reads the tables. Modelled here are the table that says which slot a consensus address
-- belonged to at a height, on which signature and liveness counts stand, the ingestion of a range
-- of blocks by several workers, the rotations of consensus keys, and the API's independent
-- verification of a published draw.
--
-- Common: Boolean tests on numbers, lists, options. Text: texts as lists of code points, and the
-- normalisation of consensus addresses. Json: JSON values.
--
-- Projection: apps/indexer/src/projections/cursor.ts (Cursor: the cursor table and the guard on the
-- chain id) and the failure rows of projections/types.ts (Failure).
--
-- Temporal: apps/indexer/src/projections/coreslot-temporal-map.ts. Types: the rows and the database
-- as a record. Table: the queries. Window: `closeWindow`, `openActiveWindow`, `closeActiveWindows`.
-- Events: lifecycle events and rotations. Genesis: the seed from the genesis slots. Height: one
-- height, and a range of heights. Each operation takes the database and returns it with its result.
-- A transaction that fails returns the database before it. Invariant: the well-formedness of the
-- table, with a module for each operation that keeps it; Lookup and History: what the queries
-- answer. A rotation is projected at its requested height with the status that it has by then: where
-- the upstream projection is ahead, one that is applied already takes effect there, before the events
-- between. The invariant of a height supposes rows in the order in which they take effect.
--
-- Ingest: apps/indexer/src. Cursor: cursor.ts, the row of the chain. Store: the tables that a
-- height writes, and its transaction. Height: `ingestHeight` of ingest-height.ts, with what was
-- read and the database's faults as arguments. Events: the events' rows and keys of mapper.ts.
-- Accounts: the addresses of account-extraction.ts. Range: `ingestRange` of ingest-range.ts.
-- Range/Worker: one worker, whose steps are what it does between two awaits; Range/System: all of
-- them, interleaved in any order. Every step that calls the node or the database may fail.
-- Range/Invariant: what holds of the shared variables, the database and each worker's place; Safety
-- stands on it, Termination on a measure, and Completion on both. The loop of `advanceWatermark`
-- takes a height out of a set at each round, and has the set's size as fuel.
--
-- KeyRotation: apps/indexer/src/projections/coreslot-key-rotation.ts. Types: the tables. Events:
-- the readers of attributes and the payload of an event. Rows, Slots and Failures: the row writers.
-- Projection: one message or event. Height: a height and a range. Invariant: when the rotations'
-- table is sound and how a row may change, with a module for each operation; Failed: events of
-- failed transactions; Recorded: what an applied event leaves. Attributes come as texts, as
-- `readString` reads them; Text/Integers has `BigInt` and the printing of integers.
--
-- Draw: apps/api/src/lib/draw-verify.ts. Bytes: the bounded parsers, hexadecimal and decimal texts.
-- Params, Candidates, Beacon, Hashes, Winners, Memo: one routine of the source each. Verify:
-- `verifyDraw` in two parts, Foundation and Outcome, put together in Run; Verified says what a
-- green verdict means.
--
-- Examples: runs on small inputs, and instances of the theorems.
--
-- Numbers are natural, but what `BigInt` reads of an event's attribute is an integer. Heights, ids
-- and amounts are `bigint` in the source and never negative there; a JSON number that is negative
-- or has a fraction is one constructor. `u16be`, `u32be` and `u64be` write the low bytes, and the
-- theorems on them say which numbers fit. Printing in decimal takes one round of fuel for each
-- digit: `n + 1` rounds are enough for `n`. All other loops recur on lists. Hexadecimal and decimal
-- texts (`Buffer.from` and `toString` of Node, `BigInt` and `toString` of the language) are written
-- out in Draw/Bytes, for the source's use of them.
--
-- Parameters: what the chain client fetches and the mapper makes of it, as the rows of a height;
-- SHA-256 of node:crypto, as a function from bytes to bytes with no law, and `JSON.parse`, as a
-- function from texts that may fail.
--
-- Not modelled: the texts of errors and of checks, the raw JSON that rows carry along, logging, the
-- database itself (rows are kept in the order of their creation, which decides between equal keys),
-- the mapping of raw data to rows but for the events' keys and the addresses, the other
-- projections, the API's routes, and the web application.
pub mod Common
pub mod Text
pub mod Projection
pub mod Temporal
pub mod Json
pub mod Draw
pub mod Ingest
pub mod KeyRotation
pub mod Examples
