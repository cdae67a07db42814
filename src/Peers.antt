-- ===== src/Peers.antt =====
-- The replication queues of the peers: internal/broker/broker.go, from `enqueuePeerBatchExcept` to
-- `releaseReplicationReservation`, the accounting of `peerLoop`, and the reservation of
-- `repairPeerStep` of internal/broker/repair.go. `queuedBytes` is an atomic that no lock guards: what
-- other goroutines do between two atomic operations is an argument, or a step of the relation in
-- Accounting. A compare-and-swap that fails is tried again, so it stands for the one that succeeds.
-- Signals and metrics are left out. Sizes are int64 values below `ReplicationQueueBytes`, so no sum
-- wraps.
pub mod Accounting
mod Examples
use spruce.Prelude.{
  ℕ, zero, suc, ◌+◌, ◌-◌, ◌*◌, ◌/◌, ◌%◌, ◌^◌, ◌≤◌, ◌<◌, min, max, ◌≡◌, refl, sym, ap, subst, ◌∙◌,
  ◌≢◌, ◌⊎◌, inl, inr, ite, if_pos, if_neg, Bool, true, false, not, ◌&&◌, ◌||◌, Option, none, some,
  List, [], ◌∷◌, ◌++◌, map, append_assoc, append-nil, arith, dec_lt, dec_le, ℕ_discrete, ltb, leb,
  ◌==◌, if◌then◌else◌, tests, Bool-cases, Option-cases, some_inj, le→leb, length, get_elem?, take,
  drop, length-append, All, All-map, All-zip, All-drop_mid, All-snoc, sum_by, sum_by-append, Str,
  str_dec, Result, ok, err, ◌>>=◌, ◌>>◌, fail_if, bind_ok, passed,
}
use spruce.Message.{Message, message_size}

-- `ch` and `capacity` are the channel.
pub record Peer : Type 0 where
  pub ch : List (List Message)
  pub capacity : ℕ
  pub queued_bytes : ℕ
  pub repair_version : ℕ

-- `batchBytes`
unfoldable pub batch_bytes : List Message → ℕ
unfolding message_size
batch_bytes messages = sum_by message_size messages

-- A batch that is dropped makes the peer's copy incomplete, which a later repair makes up for.
abbrev pub needs_repair : Peer → Peer
needs_repair p = record p { repair_version = p.repair_version + 1 }

abbrev pub reserve : Peer → ℕ → Peer
reserve p bytes = record p { queued_bytes = p.queued_bytes + bytes }

-- The loop over the load and the compare-and-swap of `enqueuePeerBatchExcept`, with `limit` bytes as
-- `ReplicationQueueBytes`: `none` where the bytes do not fit.
unfoldable pub reserve_copy : ℕ → Peer → List Message → Option Peer
unfolding batch_bytes
reserve_copy limit p messages =
    if ltb limit (p.queued_bytes + batch_bytes messages)
    then none
    else some (reserve p (batch_bytes messages))

-- The send to the channel, where it has room.
unfoldable pub send_batch : Peer → List Message → Option Peer
send_batch p messages =
    if ltb (length p.ch) p.capacity then some (record p { ch = p.ch ++ (messages ∷ []) }) else none

-- `releaseReplicationReservation`, and the end of a batch in `peerLoop` or of a page.
unfoldable pub release_bytes : Peer → ℕ → Peer
release_bytes p bytes = record p { queued_bytes = p.queued_bytes - bytes }

-- The end of a copy that the full channel refused.
unfoldable pub roll_back : Peer → List Message → Peer
unfolding batch_bytes
roll_back p messages = needs_repair (release_bytes p (batch_bytes messages))

-- A peer without a reservation. Others run `meanwhile` after the compare-and-swap and `afterwards`
-- between a send that was refused and the rollback.
unfoldable pub enqueue : ℕ → (Peer → Peer) → (Peer → Peer) → Peer → List Message → Peer
enqueue limit meanwhile afterwards p messages = elim (reserve_copy limit p messages) [
  | none ↦ needs_repair p
  | some q ↦ elim (send_batch (meanwhile q) messages) [
    | none ↦ roll_back (afterwards (meanwhile q)) messages
    | some r ↦ r
  ]
]

unfoldable pub high_water : ℕ → ℕ
high_water limit = max (limit * 3 / 4) 1

unfoldable pub fits : ℕ → Peer → ℕ → Bool
fits limit p bytes =
    leb (p.queued_bytes + bytes) (high_water limit) || (p.queued_bytes == 0 && leb bytes limit)

-- `reserveReplicationCapacity`: the index of the first peer with room, and the peers.
unfoldable pub reserve_replication_capacity : ℕ → List Peer → ℕ → Option (ℕ × List Peer)
unfolding fits
reserve_replication_capacity limit [] bytes = none
reserve_replication_capacity limit (p ∷ ps) bytes =
    let later = reserve_replication_capacity limit ps bytes in
    if fits limit p bytes
    then some (0, reserve p bytes ∷ ps)
    else elim later [ none ↦ none | some (i, qs) ↦ some (suc i, p ∷ qs) ]

-- The reservation of `repairPeerStep`: `none` where the page does not fit.
unfoldable pub reserve_page : ℕ → Peer → ℕ → Option Peer
reserve_page limit p page =
    if ltb limit (p.queued_bytes + page) then none else some (reserve p page)

-- The bytes of a page, for the limits on the queue and on a message: `maxHeaders` is 8,192.
unfoldable pub page_bytes : ℕ → ℕ → ℕ
page_bytes limit max_message = min limit (max 1048576 (max_message + 2 * 8192 + 1024))

-- The other peers of `enqueuePeerBatchExcept`, each with what others do to it while its own copy is
-- queued: the index counts the peers, `reserved` is the peer
-- with the reservation and `confirmed` are those that hold the batch already.
unfoldable pub is_confirmed : ℕ → List ℕ → Bool
is_confirmed i [] = false
is_confirmed i (j ∷ js) = i == j || is_confirmed i js

unfoldable pub is_reserved : ℕ → Option ℕ → Bool
is_reserved i none = false
is_reserved i (some j) = i == j

unfoldable pub enqueue_others :
    ℕ
    → (ℕ → Peer → Peer)
    → (ℕ → Peer → Peer)
    → Option ℕ
    → List ℕ
    → ℕ
    → List Peer
    → List Message
    → List Peer
enqueue_others limit meanwhile afterwards reserved confirmed i [] messages = []
enqueue_others limit meanwhile afterwards reserved confirmed i (p ∷ ps) messages =
    (if is_confirmed i confirmed || is_reserved i reserved
      then p
      else enqueue limit (meanwhile i) (afterwards i) p messages)
    ∷ enqueue_others limit meanwhile afterwards reserved confirmed (suc i) ps messages

-- `peerLoop` takes a batch, which stays counted until it is sent or given up.
unfoldable pub take_batch : Peer → Option (List Message × Peer)
take_batch p = elim p.ch [ [] ↦ none | batch ∷ rest ↦ some (batch, record p { ch = rest }) ]

unfoldable pub finish_batch : Peer → List Message → Bool → Peer
unfolding batch_bytes
finish_batch p batch replicated =
    let q = if replicated then p else needs_repair p in
    record q { queued_bytes = q.queued_bytes - batch_bytes batch }
