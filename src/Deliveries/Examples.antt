-- ===== src/Deliveries/Examples.antt =====
-- One broadcast subscriber and one of a group, with room for two deliveries.
use spruce.Prelude.{◌≡◌, refl, true, false, none, [], ◌∷◌, arith, ℕ_discrete, str_dec}
use spruce.Prelude.Maps.{find, put, del}
use spruce.Message.{Message, message_size}
use spruce.Deliveries.Accounting.{Valid, send_delivery-Valid}
use spruce.Deliveries.Deadlines.{Collected, collect-Collected}
use spruce.Deliveries.{
  Pending, Limits, Deliveries, of_topic, link, remove_id, unlink, broadcast_pressured, no_room,
  refuse, start_delivery, send_delivery, give_back, end_delivery, remove_acks, apply_nack,
  apply_nacks, earliest, time_out, collect, redeliver,
}

program : Unit {0}
unfolding find put del str_dec ℕ_discrete message_size of_topic link remove_id unlink
    broadcast_pressured no_room refuse start_delivery send_delivery give_back end_delivery
    remove_acks apply_nack apply_nacks earliest time_out collect redeliver
program = tt

abbrev event : Message
event = record {
  id = 1 ∷ [];
  topic = 111 ∷ [];
  key = [];
  headers = [];
  payload = [];
  created_at = 10;
  expires_at = 100000;
  origin = [];
  sequence = 0;
}

abbrev limits : Limits
limits = record {
  max_inflight_bytes = 600;
  max_subscriber_inflight_bytes = 600;
  ack_deadline = 1000;
  max_attempts = 3;
  delivery_lag_limit = 100;
}

abbrev idle : Deliveries
idle = record {
  seq = 0;
  pending = [];
  topic_pending = [];
  pending_bytes = 0;
  deadlines = [];
  subs =
      (
        97 ∷ [],
        record {
          topic = 111 ∷ [];
          group = [];
          ch = [];
          capacity = 4;
          inflight_bytes = 0;
          cancelled = false;
        },
      )
      ∷ [];
}

abbrev sent : Deliveries
sent = (send_delivery limits idle (97 ∷ []) event 1 true 10).0

abbrev sent_twice : Deliveries
sent_twice = (send_delivery limits sent (97 ∷ []) event 1 true 500).0

third_refused : (send_delivery limits sent_twice (97 ∷ []) event 1 true 500).1 ≡ none
unfolding program
third_refused = refl

counts_bytes : sent_twice.pending_bytes ≡ 532
unfolding program
counts_bytes = refl

pressured :
    broadcast_pressured limits sent_twice.pending 110 (of_topic (111 ∷ []) sent_twice.topic_pending)
    ≡ true
unfolding program
pressured = refl

first_times_out : (collect 2 sent_twice 1200).0.deadlines ≡ (2, 1500) ∷ []
unfolding program
first_times_out = refl

-- The second is due at once after a negative acknowledgement.
both_time_out :
    (collect 2 (apply_nacks sent_twice (2 ∷ 9 ∷ []) 600) 1200).0
    ≡ record idle { seq = 2; subs = (collect 2 sent_twice 1500).0.subs }
unfolding program
both_time_out = refl

idle-Valid : Valid limits idle
unfolding find str_dec
idle-Valid = record {
  distinct = tt;
  items = tt;
  known = λ id p e. cc;
  counted = refl;
  bounded = omega arith;
  shares = λ id s e. ground arith;
  armed = λ id. refl;
}

sent-Valid : Valid limits sent
sent-Valid = send_delivery-Valid limits idle (97 ∷ []) event 1 true 10 idle-Valid (omega arith)

send_delivery-Valid_example : Valid limits sent_twice
send_delivery-Valid_example =
    send_delivery-Valid limits sent (97 ∷ []) event 1 true 500 sent-Valid (omega arith)

abbrev waiting : Pending
waiting = record {
  message = event;
  attempt = 2;
  group = [];
  subscriber_id = 97 ∷ [];
  expires_at = 100000;
  bytes = 266;
  next = 1010;
  delivered_at = 10;
}

collect-Collected_example : Collected limits sent_twice 1200 (collect 2 sent_twice 1200)
unfolding program
collect-Collected_example =
    collect-Collected limits 2 sent_twice 1200 (omega arith) send_delivery-Valid_example
