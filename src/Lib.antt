-- ===== src/Lib.antt =====
-- Corvint Tasks: a fixture ticket store with journal-backed mutations. This library models the core
-- of the Go program: how a mutation of a ticket is admitted, computed and answered, and the
-- canonical encodings that it rests on.
--
-- The program computes a mutation as a pure function. An envelope and the trusted facts of a call
-- (internal/mutation, Apply) give a plan: the outcome, and on success the record that is to be
-- written. The record is checked by the ticket package (internal/ticket), whose fields and bytes are
-- those of the wire package (internal/wire); queue manifest and policy come from internal/intent.
--
--   Base, Text          Boolean tests, lists, and byte strings: a Go string is a list of bytes
--   Wire/Code           internal/wire/codes.go: the codes that the model uses, and Result, an error
--                       value reduced to its code
--   Wire/Limits         internal/wire/limits.go
--   Wire/Utf8           the decoding of UTF-8 and checkHostile of internal/wire/primitives.go
--   Wire/Decimal        Count and Size: decimalShape, ParseCount, ParseSize, CountOf
--   Wire/Primitives     digests, bounded texts, tokens, paths of internal/wire/primitives.go
--   Wire/Clock          ParseTimestamp and ParseDate
--   Wire/Ids            internal/wire/ids.go
--   Wire/Value, Encode  internal/wire/value.go and encode.go
--   Wire/Parsed, Scan   internal/wire/parse.go: the results of the parser, its state and the reader of
--                       strings
--   Wire/Parse          internal/wire/parse.go: Parse and ParseWith
--   Wire/Reader         internal/wire/reader.go: the sticky reader as a chain of results
--   Wire/CodeNames      the closed set of codes of internal/wire/codes.go
--   Wire/Sorted         SortedSet and CheckSortedUnique of internal/wire/value.go
--   Ticket/Names        the closed vocabularies of internal/ticket/record.go
--   Ticket/Record       the record, Record.Value, Record.Encode, EffectiveStatus
--   Ticket/Fields       the field checks of FromValue; Ticket/Validate: Record.validate, FromValue
--   Ticket/Inventory    internal/ticket/graph.go: NewInventory without its search for cycles, Get,
--                       CheckDependencies, CheckLocalToken
--   Ticket/Inventory/Planning  IDs and Sorted of internal/ticket/graph.go
--   Queue               internal/intent/queue.go and policy.go: the manifest, operations and roles
--   Mutation/Payload    the payloads and the envelope of internal/mutation/mutation.go
--   Mutation/Context    binding, context, role table, plan, outcome, replay
--   Mutation/Step       Context.step of internal/mutation/apply.go
--   Mutation/Finalize   acceptanceChanged, checkRecord, finalize, revalidate
--   Mutation/Create     create and allocateSerial
--   Mutation/Apply      Apply
--   Mutation/Memory     MemoryIndex of internal/mutation/replay.go
--   Snapshot/Stage      the descriptor of internal/snapshot/stage.go and its limits; Snapshot/Paths: names
--                       of receipts and request entries; Snapshot/Shape: StageDescriptor.shape
--   Snapshot/Descriptor StageDescriptor.Value, Encode and DecodeStageDescriptor of internal/snapshot/stage.go;
--                       Transaction/Stage/Codecs: the codecs as the staging code calls them
--   Snapshot/Head       internal/snapshot/head.go: heads and barriers; Init of receipt.go
--   Snapshot/Places     PostBound, AttemptQueue and ContentPath of internal/snapshot/receipt.go, BoundFor of
--                       internal/intent/store.go
--   Snapshot/Receipt    DecodeReceipt of internal/snapshot/head.go and validateEntries of receipt.go
--   Transaction/Stage   ClassifyStage of internal/transaction/stage.go: what is in the staging area, from
--                       the descriptor of internal/snapshot/stage.go
--   Transaction/Cleanup Cleanup of internal/transaction/stage.go; Transaction/Cleanup/Steps: its order as
--                       a step relation
--   Archive/Manifest    internal/archive/manifest.go
--   Archive/Cost        internal/archive/cost.go: the size of an archive; boundFor of layout.go
--   Transaction/Inventory  the inventory of internal/transaction/capacity.go: NewInventory, put, matches
--   Transaction/Capacity   measure, check, journalReserve and unpausePeak of internal/transaction/capacity.go;
--                       Transaction/Capacity/Check: CheckCapacity; Transaction/Capacity/Redo: RedoCapacity
--                       and AbortCapacity of internal/transaction/recovery.go
--   Transaction/Recovery  validateRedoInventory of internal/transaction/recovery.go, with DeleteRedo of
--                       internal/journal/redo.go
--   Samples, Examples   concrete inputs, and the theorems applied to them
--
-- The other files below these modules hold lemmas and theorems. The Go code copies what it changes,
-- so that records are values here. Integers are natural numbers: a Count is held as its number, and
-- its decimal string is CountOf of it; the code compares and adds Counts below 2^31, where an int64
-- does not overflow. A pointer that may be nil is an Option. A map is a list of its entries with
-- distinct keys. Errors carry their code only; messages and JSON pointers are left out.
--
-- The search of CheckDependencies runs on fuel: one more than the number of proposed edges and of
-- edges in the inventory, as each edge is pushed once at most; the search is shown to end on it. The
-- loop of allocateSerial runs on the tries that the source itself counts. The parser runs on four units
-- of fuel for each byte and one more, on which it is shown to have a result; its position is the text
-- that is left.
--
-- Parameters: SHA-256 is a function `sum`, the request index and the attempt oracle are functions
-- of the context. The record StageCalls is the interface of the staging code: the codecs of the
-- stage descriptor and of the head, which Transaction/Stage/Codecs fills, and the comparison of
-- an observation with the inventory, which is a parameter; the codec of receipts is a field of
-- RedoCalls. The bytes of the header of a file, which archive/tar of the standard library writes,
-- are a function `header` of the name and the size. The search for a free request path in
-- unpausePeak runs on the tries that the source counts, and so does that for a free shard.
--
-- Not modelled: the decoding of envelopes and outcomes, the derived view with the search for cycles,
-- the release records, the composition of plans, and the journal but for DeleteRedo. The physical
-- observations of snapshots, the export and the verification of archives, locks, the file store and
-- the command line are file-system work around this core.
-- DecodeReceipt is modelled behind the parser, on an object.
pub mod Archive
pub mod Base
pub mod Text
pub mod Wire
pub mod Ticket
pub mod Queue
pub mod Mutation
pub mod Snapshot
pub mod Transaction
pub mod Samples
pub mod Examples
