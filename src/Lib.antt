-- ===== src/Lib.antt =====
-- The core rules of Yandex Disk sync for Obsidian, with no input or output: how the devices of a
-- vault agree on one canonical index, what a reconciliation does with each path, how the durable queues
-- of mutations and vault events change, how sessions take turns, and what may be deleted.
--
-- A device keeps a desired index, which it stages from what the vault and the disk show, and a queue of
-- durable events. To publish, it reads the latest canonical index, reduces its desired index into it
-- (`mergeDesiredIndex`), and uploads the answer as the next revision. Devices meet only through that
-- index: each mutation carries the device, a sequence of the device and the revision that it was made
-- on, and the index carries for each device the highest accepted sequence, the watermark. The watcher
-- turns vault events into queue events; the receipts of a batch move the events that wait for it on.
--
-- Parts and files:
-- - Common: lists, tests, texts and dictionaries. Types: src/types.ts, the index, pending work and the
--   resources of the disk, a record for an interface and a field for a field.
-- - Paths.Ancestry: `PathAncestryIndex` of src/utils/path-utils.ts. Its loop takes fuel, one more than
--   the length of the path, since each round takes a slash and what follows it off.
-- - Canonical.Mutation and Canonical.Folder: src/sync/canonical/mutation-rules.ts, `classifyFileMutation`
--   with one function per branch, `mergeFileMutation`, and the rules for deleted folders.
-- - Canonical.Merge: src/sync/canonical/merge.ts. Context holds the input, the modes and the errors;
--   Replacement the two modes that start from the desired index; Authority the guards, the receipt of an
--   encryption epoch and the recovery of a target; Files the loop over the desired files; Logs the loops
--   over folder tombstones, moves and watermarks; Reduce puts them together. `Progress` is what the
--   source keeps in `merged`, `changed`, `rejectedPuts` and `diagnostics`; a `throw` is the constructor
--   `thrown` of `Result`. Steps, Rounds, Touched, Runs and Progressing say what one round, one run and one pass do to it.
-- - Local.Baseline: src/sync/local/baseline-rules.ts. Files.Actions: src/sync/files/action-rules.ts.
--   Files.Cover: src/sync/files/deletion-cover.ts, with the order of the language of the device as a
--   parameter; it uses Paths.Normal, more of src/utils/path-utils.ts, where the loop over ancestors takes
--   fuel, one more than the length of the path, since a directory is shorter than its path.
--   Files.Fingerprint: src/utils/resource-fingerprint.ts, whose text of a number is a parameter.
-- - Realtime: src/sync/realtime/rules.ts (Events, Rename, Causal) and src/sync/realtime/queue-rules.ts
--   (Waiting, Queue, Partition, Receipts). `RenameEvent` is the interface that a chain of renames asks of its
--   events; file and folder renames are its instances.
-- - Local.Operations and Local.Actions: src/sync/local/operation-store.ts, the store as a record and one
--   function per method (Puts and Confirm hold the methods on pending puts and on watermarks); its life
--   is the relation `StoreStep` of Local.Operations.Allocation, where the canonical state may accept a
--   prefix of the queue at any time. Common.Decimal writes the number in a mutation's id.
-- - Local.Observed: `LocalSyncState` of src/types.ts and `markRemoteObserved` of
--   src/sync/canonical/manager.ts.
-- - Reconciliation: src/sync/reconciliation/conflicts.ts. Operation is the record of an operation, with
--   the literals of its reason; Resolve is `resolveAction` and `compareFiles`, Determine
--   `determineOperations`, Epoch `determineEpochAdoptionOperations`. The four states of a path are called
--   here (the local file), remote or physical, base (of the device) and index (canonical).
-- - Coordinator: src/sync/coordinator.ts. A step is one turn of the event loop: the calls of `run`, with
--   those that their hooks make, the end of a preparation, the return of `onQueued`, the start and the
--   end of a session's body, and the two `finally` blocks that follow; Coordinator.Body is the body
--   itself, by what its hooks do and what it sees of `activeSession`. Fifo states the lock that the
--   promise chain implements.
-- - Semaphore: src/utils/semaphore.ts, the runs of `runWithConcurrencySettled` as a step relation over
--   every order in which tasks go on and settle.
-- - Tests: concrete inputs, and each theorem applied at one.
--
-- How the code is read: a text is the list of its UTF-16 units. A record with text keys is a list of
-- pairs in the order of insertion; keys that look like integers keep their place as well, and only own
-- keys count, so names such as `constructor` are absent unless they were stored. Two values are the
-- same, for `sameValue`, if all their fields are, which is what their JSON with ordered keys compares.
-- Copies through JSON are the value itself. `null` and absent values are `none`. Times, sizes,
-- revisions and sequences are whole numbers from zero. Optional booleans keep the difference between
-- absent and `false`, and count as conditions like in the source.
--
-- Not modelled: HTTP, locks and the commit of the index; the vault; the user interface; encryption;
-- backups; authentication; migration from older releases; the validation of paths by regular
-- expressions; logging and callbacks. They call the rules above or carry their decisions out.
mod Common
pub mod Types
pub mod Paths
pub mod Canonical
pub mod Local
pub mod Files
pub mod Realtime
pub mod Reconciliation
pub mod Coordinator
pub mod Semaphore
mod Tests
