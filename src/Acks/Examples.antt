-- ===== src/Acks/Examples.antt =====
-- A delivery to a group, acknowledged.
use spruce.Prelude.{◌≡◌, refl, false, none, [], ◌∷◌, arith, ℕ_discrete, Str, str_dec}
use spruce.Prelude.Maps.{find}
use spruce.Message.{Message}
use spruce.Checkpoints.{OrderEntry}
use spruce.Deliveries.{Pending, Limits, Deliveries, send_delivery}
use spruce.Deliveries.Accounting.{send_delivery-Valid}
use spruce.Groups.{Group, Groups, wants, register_group}
use spruce.Groups.Accounting.{register_group-Accounted}
use spruce.Acks.{Broker, remove_ack, internal_ack}
use spruce.Acks.Completion.{Valid, active_in, internal_ack-Valid, remove_ack-unwanted}

abbrev billing : Str
billing = 98 ∷ []

abbrev event : Message
event = record {
  id = 1 ∷ [];
  topic = 111 ∷ [];
  key = [];
  headers = [];
  payload = [];
  created_at = 10;
  expires_at = 100000;
  origin = [];
  sequence = 0;
}

abbrev limits : Limits
limits = record {
  max_inflight_bytes = 600;
  max_subscriber_inflight_bytes = 600;
  ack_deadline = 1000;
  max_attempts = 3;
  delivery_lag_limit = 100;
}

abbrev connected : Deliveries
connected = record {
  seq = 0;
  pending = [];
  topic_pending = [];
  pending_bytes = 0;
  deadlines = [];
  subs =
      (
        97 ∷ [],
        record {
          topic = 111 ∷ [];
          group = billing;
          ch = [];
          capacity = 4;
          inflight_bytes = 0;
          cancelled = false;
        },
      )
      ∷ [];
}

abbrev no_groups : Groups
no_groups = record {
  groups = [];
  group_memory = 0;
  stream_memory = 0;
  stream_memory_bytes = 300000;
  max_streams = 4;
  max_attempts = 8;
}

abbrev broker : Broker
broker = record {
  deliveries = (send_delivery limits connected (97 ∷ []) event 1 false 10).0;
  checkpoints = record { entries = []; count = 0; head = 0; order = [] };
  groups = (register_group no_groups (111 ∷ []) billing).0;
}

broker-Valid : Valid limits 2 0 broker
unfolding find str_dec
broker-Valid = record {
  deliveries =
      send_delivery-Valid limits connected (97 ∷ []) event 1 false 10
        (record {
          distinct = tt;
          items = tt;
          known = λ id p e. cc;
          counted = refl;
          bounded = omega arith;
          shares = λ id s e. ground arith;
          armed = λ id. refl;
        })
        (omega arith);
  table = record {
    distinct = tt;
    counted = refl;
    ordered = record { covered = λ k e h. cc; current = tt; positive = tt; growing = tt };
  };
  fits = omega arith;
  groups = register_group-Accounted 0 no_groups (111 ∷ []) billing (omega arith);
}

abbrev other : OrderEntry
other = record {
  key = record { topic = 111 ∷ []; group = billing; message_id = 2 ∷ [] };
  expires_at = 500;
}

internal_ack-Valid_example : Valid limits 2 0 (internal_ack 2 600 broker (1 ∷ []) (other ∷ []) 20)
internal_ack-Valid_example =
    internal_ack-Valid limits 2 0 600 broker (1 ∷ []) (other ∷ []) 20 broker-Valid

abbrev delivered : Pending
delivered = record {
  message = event;
  attempt = 1;
  group = billing;
  subscriber_id = 97 ∷ [];
  expires_at = 100000;
  bytes = 266;
  next = 1010;
  delivered_at = 10;
}

abbrev group : Group
group = record {
  topic = 111 ∷ [];
  group = billing;
  lanes = [];
  work = [];
  charge = 1026;
  index_peak = 0;
}

remove_ack-unwanted_example :
    (find ℕ_discrete 1 (remove_ack 2 broker 1 delivered 20).deliveries.pending ≡ none)
    × (wants (active_in (remove_ack 2 broker 1 delivered 20).checkpoints 20) [] group event ≡ false)
remove_ack-unwanted_example =
    remove_ack-unwanted 2 broker 1 delivered [] group 20 (omega arith) broker-Valid.table (λ e. cc)
      (omega arith) refl refl
