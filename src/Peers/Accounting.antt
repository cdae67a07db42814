-- ===== src/Peers/Accounting.antt =====
-- `queuedBytes` of a peer under the interleavings of publishers and `peerLoop`, as a relation.
use spruce.Prelude.{
  ℕ, suc, ◌+◌, ◌≤◌, ◌<◌, ◌≡◌, refl, ap, ◌⊎◌, inl, inr, Bool, true, false, Option, none, some, List,
  [], ◌∷◌, ◌++◌, arith, ltb, if◌then◌else◌, Bool-cases, length, All, sum_by, sum_by-append,
}
use spruce.Message.{Message}
use spruce.Peers.{
  Peer, batch_bytes, needs_repair, reserve, reserve_copy, send_batch, release_bytes, roll_back,
  enqueue, high_water, fits, reserve_page, reserve_replication_capacity, take_batch, finish_batch,
}

-- A peer with the reservations of the publishers that have not sent their batch yet, the batches
-- without one that are counted and not sent yet, those that the full channel has refused and that are
-- still counted, the batch that its worker sends, and the page that its worker repairs with.
pub record Queue : Type 0 where
  pub peer : Peer
  pub reservations : List ℕ
  pub copies : List (List Message)
  pub refused : List (List Message)
  pub sending : List (List Message)
  pub pages : List ℕ

-- One operation of one of them on `queuedBytes` or on the channel. A mark for a repair goes with the
-- operation next to it, since neither the count nor the channel depends on `repairVersion`.
pub data Step (limit : ℕ) (s : Queue) : Queue → Type 0 where
  drops_copy :
      (messages : List Message)
      → reserve_copy limit s.peer messages ≡ none
      → Step limit s (record s { peer = needs_repair s.peer })
  counts_copy :
      (messages : List Message) {p : Peer}
      → reserve_copy limit s.peer messages ≡ some p
      → Step limit s (record s { peer = p; copies = messages ∷ s.copies })
  sends_copy :
      (messages : List Message) (before after : List (List Message)) {p : Peer}
      → s.copies ≡ before ++ (messages ∷ after)
      → send_batch s.peer messages ≡ some p
      → Step limit s (record s { peer = p; copies = before ++ after })
  refuses_copy :
      (messages : List Message) (before after : List (List Message))
      → s.copies ≡ before ++ (messages ∷ after)
      → send_batch s.peer messages ≡ none
      → Step limit s (record s { copies = before ++ after; refused = messages ∷ s.refused })
  rolls_back :
      (messages : List Message) (before after : List (List Message))
      → s.refused ≡ before ++ (messages ∷ after)
      → Step limit s (record s { peer = roll_back s.peer messages; refused = before ++ after })
  reserves :
      (bytes : ℕ)
      → fits limit s.peer bytes ≡ true
      → Step limit s
          (record s { peer = reserve s.peer bytes; reservations = bytes ∷ s.reservations })
  sends_reserved :
      (messages : List Message) (before after : List ℕ) {p : Peer}
      → s.reservations ≡ before ++ (batch_bytes messages ∷ after)
      → send_batch s.peer messages ≡ some p
      → Step limit s (record s { peer = p; reservations = before ++ after })
  releases :
      (bytes : ℕ) (before after : List ℕ)
      → s.reservations ≡ before ++ (bytes ∷ after)
      → Step limit s
          (record s { peer = release_bytes s.peer bytes; reservations = before ++ after })
  takes :
      {batch : List Message} {p : Peer}
      → s.sending ≡ []
      → s.pages ≡ []
      → take_batch s.peer ≡ some (batch, p)
      → Step limit s (record s { peer = p; sending = batch ∷ [] })
  finishes :
      (batch : List Message) (replicated : Bool)
      → s.sending ≡ batch ∷ []
      → Step limit s (record s { peer = finish_batch s.peer batch replicated; sending = [] })
  takes_page :
      (page : ℕ) {p : Peer}
      → s.sending ≡ []
      → s.pages ≡ []
      → reserve_page limit s.peer page ≡ some p
      → Step limit s (record s { peer = p; pages = page ∷ [] })
  finishes_page :
      (page : ℕ)
      → s.pages ≡ page ∷ []
      → Step limit s (record s { peer = release_bytes s.peer page; pages = [] })

pub data Reach (limit : ℕ) (s : Queue) : Queue → Type 0 where
  start : Reach limit s s
  step : {t u : Queue} → Reach limit s t → Step limit t u → Reach limit s u

abbrev pub total : List ℕ → ℕ
total = sum_by (λ n. n)

abbrev pub bytes_in : List (List Message) → ℕ
bytes_in = sum_by batch_bytes

-- The bytes that are held besides the batches in the channel.
abbrev pub held : Queue → ℕ
held s =
    total s.reservations
    + bytes_in s.copies
    + bytes_in s.refused
    + bytes_in s.sending
    + total s.pages

-- The count is the batches in the channel and what is held, and within the limit of the queue.
pub record Counted (limit : ℕ) (s : Queue) : Type 0 where
  pub counted : s.peer.queued_bytes ≡ bytes_in s.peer.ch + held s
  pub within : s.peer.queued_bytes ≤ limit

total-remove :
    (before after : List ℕ) (n : ℕ) → total (before ++ (n ∷ after)) ≡ n + total (before ++ after)
total-remove [] after n = refl
total-remove (b ∷ before) after n = omega (arith, total-remove before after n)

high_water-le : (limit : ℕ) → 0 < limit → high_water limit ≤ limit
unfolding high_water
high_water-le limit h = omega arith

bytes_in-snoc :
    (batches : List (List Message)) (m : List Message)
    → bytes_in (batches ++ (m ∷ [])) ≡ bytes_in batches + batch_bytes m
bytes_in-snoc batches m = omega (arith, sum_by-append batch_bytes batches (m ∷ []))

bytes_in-remove :
    (before after : List (List Message)) (m : List Message)
    → bytes_in (before ++ (m ∷ after)) ≡ batch_bytes m + bytes_in (before ++ after)
bytes_in-remove [] after m = refl
bytes_in-remove (b ∷ before) after m = omega (arith, bytes_in-remove before after m)

Step-Counted :
    (limit : ℕ) → 0 < limit → {s t : Queue} → Step limit s t → Counted limit s → Counted limit t
unfolding reserve_copy send_batch roll_back reserve_page take_batch finish_batch release_bytes fits
Step-Counted limit h {s} (drops_copy messages e) v = record {
  counted = v.counted;
  within = v.within;
}
Step-Counted limit h {s} (counts_copy messages e) v = ground arith
Step-Counted limit h {s} (sends_copy messages before after e f) v =
    ground (
      arith,
      bytes_in-snoc s.peer.ch messages,
      ap bytes_in e,
      bytes_in-remove before after messages,
    )
Step-Counted limit h {s} (refuses_copy messages before after e f) v =
    omega (arith, v.counted, v.within, ap bytes_in e, bytes_in-remove before after messages)
Step-Counted limit h {s} (rolls_back messages before after e) v =
    omega (arith, v.counted, v.within, ap bytes_in e, bytes_in-remove before after messages)
Step-Counted limit h {s} (reserves bytes e) v = ground (arith, high_water-le limit h)
Step-Counted limit h {s} (sends_reserved messages before after e f) v = ground (
  arith,
  bytes_in-snoc s.peer.ch messages,
  ap total e,
  total-remove before after (batch_bytes messages),
)
Step-Counted limit h {s} (releases bytes before after e) v =
    omega (arith, v.counted, v.within, ap total e, total-remove before after bytes)
Step-Counted limit h {s} (takes {batch} {p} e g f) v = ground (arith, ap bytes_in e)
Step-Counted limit h {s} (finishes batch true e) v =
    omega (arith, v.counted, v.within, ap bytes_in e)
Step-Counted limit h {s} (finishes batch false e) v =
    omega (arith, v.counted, v.within, ap bytes_in e)
Step-Counted limit h {s} (takes_page page e g f) v = ground (arith, ap total g)
Step-Counted limit h {s} (finishes_page page e) v = omega (arith, v.counted, v.within, ap total e)

abbrev pub empty_queue : ℕ → Queue
empty_queue capacity = record {
  peer = record { ch = []; capacity = capacity; queued_bytes = 0; repair_version = 0 };
  reservations = [];
  copies = [];
  refused = [];
  sending = [];
  pages = [];
}

-- However the operations of publishers and of the worker of the peer on the count and on the channel
-- interleave, from an empty queue, the count of queued bytes is that of the batches in the channel, the one being sent, the
-- reservations not yet used, the batches that are counted and not yet sent or not yet rolled back,
-- and the page of a repair; and it is never above a positive limit.
pub Reach-Counted :
    (limit capacity : ℕ)
    → 0 < limit
    → {s : Queue} → Reach limit (empty_queue capacity) s
    → Counted limit s
Reach-Counted limit capacity h start = record { counted = refl; within = omega arith }
Reach-Counted limit capacity h (step r st) =
    Step-Counted limit h st (Reach-Counted limit capacity h r)

-- A batch without a reservation is in the channel behind what was there when it was sent, or the
-- peer is marked for a repair, with the bytes of the batch not counted or taken off the count again:
-- whatever others do in between, it is never lost unnoticed.
pub enqueue-noticed :
    (limit : ℕ) (meanwhile afterwards : Peer → Peer) (p : Peer) (messages : List Message)
    → let q = meanwhile (reserve p (batch_bytes messages)) in
      let r = enqueue limit meanwhile afterwards p messages in
      ((r.ch ≡ q.ch ++ (messages ∷ [])) × (r.queued_bytes ≡ q.queued_bytes))
      ⊎ ((u : Peer) × ((u ≡ p) ⊎ (u ≡ release_bytes (afterwards q) (batch_bytes messages)))
          × (r.ch ≡ u.ch)
          × (r.repair_version ≡ u.repair_version + 1)
          × (r.queued_bytes ≡ u.queued_bytes))
unfolding enqueue reserve_copy send_batch roll_back
enqueue-noticed limit meanwhile afterwards p messages =
    let q = meanwhile (reserve p (batch_bytes messages)) in
    elim (Bool-cases (ltb limit (p.queued_bytes + batch_bytes messages))) [
      | inl full ↦ rw (full, enqueue, reserve_copy) (inr (p, inl refl, refl, refl, refl))
      | inr room ↦ elim (Bool-cases (ltb (length q.ch) q.capacity)) [
        | inl free ↦ rw (room, free, enqueue, reserve_copy, send_batch) (inl (refl, refl))
        | inr busy ↦
            rw (room, busy, enqueue, reserve_copy, send_batch, roll_back)
              (inr
                (release_bytes (afterwards q) (batch_bytes messages), inr refl, refl, refl, refl))
      ]
    ]

-- The two results of the search for a peer with room.
pub data Search (limit bytes : ℕ) (ps : List Peer) : Option (ℕ × List Peer) → Type 0 where
  no_peer : All (λ p. fits limit p bytes ≡ false) ps → Search limit bytes ps none
  first_peer :
      (before : List Peer) (p : Peer) (after : List Peer)
      → ps ≡ before ++ (p ∷ after)
      → All (λ q. fits limit q bytes ≡ false) before
      → fits limit p bytes ≡ true
      → Search limit bytes ps (some (length before, before ++ (reserve p bytes ∷ after)))

-- A reservation goes to the first peer with room, and counts its bytes there and nowhere else; there
-- is none exactly where no peer has room.
pub reserve_replication_capacity-Search :
    (limit : ℕ) (ps : List Peer) (bytes : ℕ)
    → Search limit bytes ps (reserve_replication_capacity limit ps bytes)
unfolding reserve_replication_capacity
reserve_replication_capacity-Search limit [] bytes = no_peer tt
reserve_replication_capacity-Search limit (p ∷ ps) bytes =
    next (fits limit p bytes) refl (reserve_replication_capacity limit ps bytes)
      (reserve_replication_capacity-Search limit ps bytes)
  where
    next :
        (b : Bool)
        → fits limit p bytes ≡ b
        → (r : Option (ℕ × List Peer)) → Search limit bytes ps r
        → Search limit bytes (p ∷ ps) (
            if b
            then some (0, reserve p bytes ∷ ps)
            else elim r [ none ↦ none | some (i, qs) ↦ some (suc i, p ∷ qs) ])
    next true e r s = first_peer [] p ps refl tt e
    next false e none (no_peer all) = no_peer (e, all)
    next false e (some x) (first_peer before q after same none_before ok_q) =
        first_peer (p ∷ before) q after (ap (◌∷◌ p) same) (e, none_before) ok_q
