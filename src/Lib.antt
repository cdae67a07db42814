-- ===== src/Lib.antt =====
-- Spruce, a leaderless in-memory event bus in Go: a model of the broker in internal/broker and of
-- the client library in pkg/spruce.
--
-- A broker keeps messages in a cache for their TTL, delivers them to the subscribers of a topic and
-- replicates them to its peers. Publishes enter through an admission that bounds their bytes. A
-- consumer group shares the messages of its topic among its members: its outstanding work waits in
-- lanes, one for each key, whose head is sent to the member with the highest score. A sent delivery
-- stays pending until it is acknowledged or its deadline passes; an acknowledgement leaves a
-- checkpoint, by which the group does not get the message again. Batches for a peer wait in a queue
-- that is bounded in bytes and are written in a binary format. A publish with an idempotency key
-- waits for one that is in progress. The client batches publishes, compresses payloads and
-- remembers the messages that it has seen.
--
-- The files and what they model, paths from the root of the repository:
--
-- - Cache: the message cache (`cache` of internal/broker/broker.go with `insertLocked`,
--   `dropOldestLocked`, `removeLocked`, `expireLocked`, its pages and replays). Slots are the
--   slices with removed pointers; Inserts, Expiry and Pages hold the operations that the root file
--   does not; Agreement, Keeping, Removal, Dropping, Room, Insertion, Due, Compaction, Expiring,
--   Popping and Expired are about the indices and each operation; Shelf is the view of a caller;
--   Paging and Walk are about the pages of a repair.
-- - Admission: publish admission (`acquirePublishAdmission`, `grantPublishAdmissionLocked`,
--   `releasePublishAdmission` of internal/broker/broker.go). A state is a record of the counter,
--   the waiters and the granted waiters; Admission/Schedule has every interleaving of the callers
--   as a relation, Admission/Rounds the grant loop.
-- - Checkpoints: the table of group checkpoints (`checkpointActiveLocked`, `putCheckpointLocked`,
--   `applyCheckpoints`, and internal/broker/checkpoint_memory.go). Order, Evicting, Invariant and
--   Active hold the order list, what eviction and every write keep and what a reader sees.
-- - Message: `Message`, `messageSize`, `deliveryAffinity` and `validTopic`.
-- - Groups: the work of consumer groups (internal/broker/group_work.go, and `reserveStreamMemory`
--   of internal/broker/stream_memory.go). Sending is the dispatch; LaneShape, Lanes and Removal are
--   about the lists of a group, Memory and Accounting about the charges, Dispatch about the choice
--   of what is sent and to whom.
-- - Deliveries: deliveries in flight (`sendDeliveryLocked`, `removeAcks`, `applyNacks` and the
--   deadlines of `maintenance`). Accounting and Ending are about the counters, Earliest and
--   Deadlines about the loop over the deadlines.
-- - Acks: the state changes of an acknowledgement, which join Deliveries, Checkpoints and Groups.
-- - Peers: the replication queues (`enqueuePeerBatchExcept`, `reserveReplicationCapacity`, the
--   accounting of `peerLoop`, and the reservation of `repairPeerStep` of internal/broker/repair.go).
--   Accounting has every interleaving of their atomic operations as a relation.
-- - Idempotency: the table of idempotency keys (`beginIdempotency`, `finishIdempotency`). Eviction
--   and Ownership are about who may publish for a key, Finishing about the end of a publish.
-- - Replay: the unsafe marks of the cache and `frontierBehind` (internal/broker/broker.go), and the
--   cursor of a stream (internal/broker/stream_cursor.go).
-- - Sequencing: sequence numbers and receive frontiers (`acceptLocked`, and
--   internal/broker/origin_memory.go). Batches holds `acceptBatchLocked` and
--   `drainContiguousLocked`, Replicated `acceptReplicatedBatch`; Numbers, Publishing, Receipts,
--   Pinned and Leftover are about them, Buffers, Overdue, Gaps, Chains and Receiving about the
--   messages that wait. It uses the cache, and the group work through the interface GroupWork.
-- - Wire: the peer batch format, version 2 (`writePeerBatch`, `appendPeerBatch`, `readPeerBatch`).
-- - Client: the producer batcher (pkg/spruce/batcher.go), payload compression
--   (pkg/spruce/compression.go), and `Deduper` and `PublishRetry` of pkg/spruce/client.go.
-- - Prelude: the library names, Boolean tests, native lengths, results, association lists and the
--   integers of Go that the parts share. The files named Examples hold runs on concrete states.
--
-- Strings and byte slices are lists of numbers. A Go map is an association list, whose order is the
-- order in which `range` meets the keys; no theorem depends on that order unless it names it. An
-- object that is shared through a pointer is named by a number or by its key. Times are arguments,
-- since the code reads the clock. Code that holds a mutex is one step, and so is one
-- atomic operation outside a mutex; what may happen between two steps is an argument, or the schedule
-- of a relation. A loop over a list recurses on the list.
-- The grant loop and the deadline loop recurse on fuel, the length of the queue and of the deadline
-- heap; the loops of the cache on the length of the slice after its head and of the expiry heap;
-- the loops over the gaps of an origin on their number. Each round takes one element away, so the
-- fuel is enough. The writers of the wire format keep the wrap-around of their integers; byte
-- counters stay below limits that are int64 values, so their sums do not wrap.
--
-- Parameters stand for code outside the repository and for what a caller decides: the gzip and zstd
-- codecs, which read back what they encoded; the score of a group member; the group work and the
-- delivery that the sequencing calls; the replies of the server, the end of the callers' contexts
-- and the random jitter for the client.
--
-- Not modelled: streams and the text form of their cursors, the registry of subscribers, the repair
-- loop and snapshots, version 1 of the peer format, HTTP handlers, configuration and metrics, and
-- the programs under cmd, which are I/O around the library.
pub mod Prelude
pub mod Wire
pub mod Admission
pub mod Cache
pub mod Checkpoints
pub mod Message
pub mod Groups
pub mod Deliveries
pub mod Acks
pub mod Peers
pub mod Idempotency
pub mod Replay
pub mod Sequencing
pub mod Client
