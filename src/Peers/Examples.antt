-- ===== src/Peers/Examples.antt =====
-- A peer with room for two batches and a limit of 600 bytes.
use spruce.Prelude.{◌+◌, ◌≡◌, refl, ◌⊎◌, true, some, [], ◌∷◌, ◌++◌, map, arith}
use spruce.Message.{Message, message_size}
use spruce.Peers.{
  Peer, batch_bytes, reserve_copy, send_batch, roll_back, enqueue, high_water, fits, reserve,
  reserve_replication_capacity, release_bytes, is_confirmed, is_reserved, enqueue_others,
  take_batch, finish_batch, reserve_page,
}
use spruce.Peers.Accounting.{
  Queue, reserves, counts_copy, sends_copy, sends_reserved, takes, finishes, takes_page, Reach,
  start, step, Counted, empty_queue, Reach-Counted, enqueue-noticed,
}

program : Unit {0}
unfolding message_size batch_bytes enqueue high_water fits reserve_replication_capacity
    release_bytes reserve_copy send_batch roll_back is_confirmed is_reserved enqueue_others
    take_batch finish_batch reserve_page
program = tt

abbrev event : Message
event = record {
  id = 1 ∷ [];
  topic = 111 ∷ [];
  key = [];
  headers = [];
  payload = [];
  created_at = 10;
  expires_at = 100;
  origin = [];
  sequence = 1;
}

-- Nobody else runs in between.
abbrev alone : Peer → Peer
alone p = p

abbrev idle : Peer
idle = record { ch = []; capacity = 2; queued_bytes = 0; repair_version = 0 }

abbrev busy : Peer
busy = enqueue 600 alone alone idle (event ∷ [])

-- The peer with the reservation and the one that confirmed are left out.
only_the_last :
    map
      (λ p. p.queued_bytes)
      (enqueue_others 600
        (λ i. alone)
        (λ i. alone)
        (some 0)
        (1 ∷ [])
        0
        (idle ∷ idle ∷ idle ∷ [])
        (event ∷ []))
    ≡ 0 ∷ 0 ∷ 266 ∷ []
unfolding program
only_the_last = refl

dropped : (enqueue 600 alone alone busy (event ∷ event ∷ [])).repair_version ≡ 1
unfolding program
dropped = refl

-- Another publisher fills the channel between the compare-and-swap and the send.
abbrev filled : Peer → Peer
filled p = record p { ch = (event ∷ []) ∷ (event ∷ []) ∷ []; queued_bytes = p.queued_bytes + 532 }

overtaken : (enqueue 900 filled alone idle (event ∷ [])).queued_bytes ≡ 532
unfolding program
overtaken = refl

enqueue-noticed_example :
    (((enqueue 900 filled alone idle (event ∷ [])).ch
        ≡ (filled (reserve idle (batch_bytes (event ∷ [])))).ch ++ ((event ∷ []) ∷ []))
      × ((enqueue 900 filled alone idle (event ∷ [])).queued_bytes
          ≡ (filled (reserve idle (batch_bytes (event ∷ [])))).queued_bytes))
    ⊎ ((u : Peer) × ((u ≡ idle)
          ⊎ (u
              ≡ release_bytes
                  (filled (reserve idle (batch_bytes (event ∷ []))))
                  (batch_bytes (event ∷ []))))
        × ((enqueue 900 filled alone idle (event ∷ [])).ch ≡ u.ch)
        × ((enqueue 900 filled alone idle (event ∷ [])).repair_version ≡ u.repair_version + 1)
        × ((enqueue 900 filled alone idle (event ∷ [])).queued_bytes ≡ u.queued_bytes))
enqueue-noticed_example = enqueue-noticed 900 filled alone idle (event ∷ [])

-- A reservation, a batch that is counted meanwhile, both sends, and the worker, which then takes a
-- page of a repair.
abbrev start_queue : Queue
start_queue = empty_queue 2

abbrev reserved : Queue
reserved = record start_queue { peer = reserve idle 266; reservations = 266 ∷ [] }

abbrev counted_too : Queue
counted_too = record reserved { peer = reserve reserved.peer 266; copies = (event ∷ []) ∷ [] }

abbrev sent : Queue
sent = record counted_too {
  peer = record idle { ch = (event ∷ []) ∷ []; queued_bytes = 532 };
  reservations = [];
}

abbrev both_sent : Queue
both_sent = record sent {
  peer = record idle { ch = (event ∷ []) ∷ (event ∷ []) ∷ []; queued_bytes = 532 };
  copies = [];
}

abbrev taken : Queue
taken = record both_sent {
  peer = record idle { ch = (event ∷ []) ∷ []; queued_bytes = 532 };
  sending = (event ∷ []) ∷ [];
}

abbrev finished : Queue
finished = record taken {
  peer = record idle { ch = (event ∷ []) ∷ []; queued_bytes = 266 };
  sending = [];
}

abbrev repairing : Queue
repairing = record finished {
  peer = record idle { ch = (event ∷ []) ∷ []; queued_bytes = 566 };
  pages = 300 ∷ [];
}

run : Reach 600 (empty_queue 2) repairing
unfolding program
run =
    step {t = finished}
      (step {t = taken}
        (step {t = both_sent}
          (step {t = sent}
            (step {t = counted_too}
              (step {t = reserved} (step {t = start_queue} start (reserves 266 refl))
                (counts_copy (event ∷ []) refl))
              (sends_reserved (event ∷ []) [] [] refl refl))
            (sends_copy (event ∷ []) [] [] refl refl))
          (takes refl refl refl))
        (finishes (event ∷ []) true refl))
      (takes_page 300 refl refl refl)

Reach-Counted_example : Counted 600 repairing
Reach-Counted_example = Reach-Counted 600 2 (omega arith) run
