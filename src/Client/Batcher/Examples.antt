-- ===== src/Client/Batcher/Examples.antt =====
-- A batcher of two messages, with a client that answers every call with two IDs.
use spruce.Prelude.{
  ℕ, ◌+◌, ◌≡◌, refl, Bool, false, Option, some, List, [], ◌∷◌, arith, ℕ_discrete, ◌==◌, Str,
  str_dec, err,
}
use spruce.Prelude.Int.{pos, negsuc}
use spruce.Client.Options.{PublishOptions, int_dec, options_dec}
use spruce.Client.Batcher.{
  BatcherOptions, or_default, normalize, Item, batch_entry_size, publish_check, published,
  cancelled, failed, closed, exceeds_limits, Call, Run, entry_of, active, tell_cancelled, tell,
  checked, compatible, reset, append_item, must_flush, Event, publish, barrier, tick, tell_closed,
  flush_active, flush, flush_full, flush_for, take_item, handle, handle_all, stop,
}
use spruce.Client.Batcher.Results.{told, waiting, published_count, stop-told}
use spruce.Client.Batcher.Calls.{Batched, handle_all-Batched}

program : Unit {0}
unfolding str_dec ℕ_discrete int_dec options_dec or_default normalize batch_entry_size publish_check
    entry_of active tell_cancelled tell checked compatible reset append_item must_flush tell_closed
    flush_active flush flush_full flush_for take_item handle handle_all stop
program = tt

abbrev plain : PublishOptions
plain = record {
  key = [];
  content_type = [];
  producer_id = [];
  idempotency_key = [];
  ack = [];
  compression = [];
  ttl = pos 0;
}

abbrev item : ℕ → Item
item n = record { number = n; topic = 116 ∷ []; payload = n ∷ n ∷ []; options = plain }

abbrev keyed : Item
keyed = record (item 4) { options = record plain { key = 107 ∷ [] } }

abbrev opts : BatcherOptions
opts = normalize (pos 2) (pos 0) (negsuc 4) (pos 100)

abbrev replies : List Call → Option (List Str)
replies calls = some ((100 ∷ []) ∷ (101 ∷ []) ∷ [])

abbrev second_gone : ℕ → ℕ → Bool
second_gone look n = n == 2

abbrev start : Run
start = record {
  pending = [];
  pending_bytes = 0;
  timer = false;
  reads = 0;
  calls = [];
  results = [];
}

abbrev events : List Event
events =
    publish (item 1) ∷ publish (item 2) ∷ tick ∷ publish keyed ∷ publish (item 3) ∷ barrier ∷ []

-- The tick sends the first alone, so its call gets too many IDs; the other two make a full batch.
results_of :
    (stop replies second_gone
      (handle_all replies second_gone opts start events)
      (item 5 ∷ [])).results
    ≡ (2, cancelled)
      ∷ (1, failed)
      ∷ (4, published (100 ∷ []))
      ∷ (3, published (101 ∷ []))
      ∷ (5, closed)
      ∷ []
unfolding program
results_of = refl

too_large : publish_check (normalize (pos 2) (pos 7) (pos 1) (pos 1)) (item 1) ≡ err exceeds_limits
unfolding program
too_large = refl

stop-told_example :
    (told 3
        (stop replies second_gone
          (handle_all replies second_gone opts start events)
          (item 5 ∷ [])).results
      ≡ published_count 3 events + waiting 3 (item 5 ∷ []))
    × ((stop replies second_gone
          (handle_all replies second_gone opts start events)
          (item 5 ∷ [])).pending
        ≡ [])
stop-told_example = stop-told replies second_gone opts 3 start events (item 5 ∷ []) refl refl

abbrev ForTopic : Item → Type 0
ForTopic i = i.topic ≡ 116 ∷ []

handle_all-Batched_example :
    Batched opts ForTopic (handle_all replies second_gone opts start events)
unfolding program
handle_all-Batched_example =
    handle_all-Batched opts ForTopic replies second_gone start events (omega arith)
      ((refl, omega arith), ((refl, omega arith), ((refl, omega arith), ((refl, omega arith), tt))))
      (record {
        counted = refl;
        alike = tt;
        few = omega arith;
        small = omega arith;
        timed = λ h. absurd (omega arith);
        sound = tt;
      })
