-- ===== src/Deliveries.antt =====
-- Deliveries in flight: internal/broker/broker.go (`pending`, `linkTopicPendingLocked`,
-- `unlinkTopicPendingLocked`, `removeAcks`, `applyNacks`, `maintenance`) and `sendDeliveryLocked` of
-- internal/broker/group_work.go. A delivery is named by the sequence number that `nextID` encodes
-- in its ID. The deadline heap is the map from deliveries to the times of its items: `heap.Push` and
-- `heap.Fix` are writes, `heap.Remove` a deletion and `heap.Pop` takes an earliest item. A subscriber
-- is detached when it is no longer in `subs`. Times are Unix milliseconds, metrics are left out.
pub mod Earliest
pub mod Accounting
pub mod Ending
pub mod Deadlines
mod Examples
use spruce.Prelude.{
  ℕ, zero, suc, ◌+◌, ◌-◌, ◌*◌, ◌/◌, ◌%◌, ◌^◌, ◌≤◌, ◌<◌, min, max, ◌≡◌, refl, sym, ap, subst, ◌∙◌,
  ◌≢◌, ◌⊎◌, inl, inr, ite, if_pos, if_neg, Bool, true, false, not, ◌&&◌, ◌||◌, Option, none, some,
  List, [], ◌∷◌, ◌++◌, map, append_assoc, append-nil, arith, dec_lt, dec_le, ℕ_discrete, ltb, leb,
  ◌==◌, if◌then◌else◌, tests, Bool-cases, Option-cases, some_inj, length, get_elem?, take, drop,
  length-append, All, All-map, All-zip, All-drop_mid, All-snoc, sum_by, sum_by-append, Str, str_dec,
  Result, ok, err, ◌>>=◌, ◌>>◌, fail_if, bind_ok, passed,
}
use mathlib.Core.Option
use spruce.Prelude.Maps.{Map, find, put, del}
use spruce.Message.{Message, message_size}

-- `Delivery`; its other fields are those of the message.
pub record Delivery : Type 0 where
  pub delivery_id : ℕ
  pub message : Message
  pub attempt : ℕ

-- `ch` and `capacity` are the channel, `cancelled` whether `cancel` was called.
pub record Subscriber : Type 0 where
  pub topic : Str
  pub group : Str
  pub ch : List Delivery
  pub capacity : ℕ
  pub inflight_bytes : ℕ
  pub cancelled : Bool

pub record Pending : Type 0 where
  pub message : Message
  pub attempt : ℕ
  pub group : Str
  pub subscriber_id : Str
  pub expires_at : ℕ
  pub bytes : ℕ
  pub next : ℕ
  pub delivered_at : ℕ

pub record Limits : Type 0 where
  pub max_inflight_bytes : ℕ
  pub max_subscriber_inflight_bytes : ℕ
  pub ack_deadline : ℕ
  pub max_attempts : ℕ
  pub delivery_lag_limit : ℕ

pub record Deliveries : Type 0 where
  pub seq : ℕ
  pub pending : Map ℕ Pending
  pub topic_pending : Map Str (List ℕ)
  pub pending_bytes : ℕ
  pub deadlines : Map ℕ ℕ
  pub subs : Map Str Subscriber

-- The deliveries of a topic, oldest first; a topic without any has no state.
unfoldable pub of_topic : Str → Map Str (List ℕ) → List ℕ
of_topic topic states = elim (find str_dec topic states) [ none ↦ [] | some ids ↦ ids ]

unfoldable pub link : ℕ → Str → Map Str (List ℕ) → Map Str (List ℕ)
link id topic states = put str_dec topic (of_topic topic states ++ (id ∷ [])) states

unfoldable pub remove_id : ℕ → List ℕ → List ℕ
remove_id id [] = []
remove_id id (x ∷ xs) = ite (ℕ_discrete x id) xs (x ∷ remove_id id xs)

unfoldable pub unlink : ℕ → Str → Map Str (List ℕ) → Map Str (List ℕ)
unlink id topic states = elim (remove_id id (of_topic topic states)) [
  | [] ↦ del str_dec topic states
  | x ∷ xs ↦ put str_dec topic (x ∷ xs) states
]

-- `broadcastDeliveryPressuredLocked` on the deliveries of a topic.
unfoldable pub broadcast_pressured : Limits → Map ℕ Pending → ℕ → List ℕ → Bool
broadcast_pressured l pending now [] = false
broadcast_pressured l pending now (id ∷ ids) =
    let later = broadcast_pressured l pending now ids in
    elim (find ℕ_discrete id pending) [
      | none ↦ later
      | some p ↦ ite (str_dec p.group []) (leb l.delivery_lag_limit (now - p.delivered_at)) later
    ]

unfoldable pub no_room : Limits → Deliveries → Subscriber → ℕ → Bool
no_room l d s bytes =
    ltb l.max_inflight_bytes (d.pending_bytes + bytes)
    || ltb l.max_subscriber_inflight_bytes (s.inflight_bytes + bytes)
    || s.capacity == length s.ch

-- The cancelled stream of a broadcast subscriber without room.
unfoldable pub refuse : Deliveries → Str → Subscriber → Bool → Deliveries
refuse d subscriber s cancel_on_pressure =
    if cancel_on_pressure
    then record d { subs = put str_dec subscriber (record s { cancelled = true }) d.subs }
    else d

unfoldable pub start_delivery :
    Limits → Deliveries → Str → Subscriber → Message → ℕ → ℕ → Deliveries
unfolding message_size
start_delivery l d subscriber s m attempt now =
    let id = d.seq + 1 in
    let bytes = message_size m in
    let next = now + l.ack_deadline in
    record {
      seq = id;
      pending =
          put ℕ_discrete id
            (record {
              message = m;
              attempt = attempt;
              group = s.group;
              subscriber_id = subscriber;
              expires_at = m.expires_at;
              bytes = bytes;
              next = next;
              delivered_at = now;
            })
            d.pending;
      topic_pending = link id m.topic d.topic_pending;
      pending_bytes = d.pending_bytes + bytes;
      deadlines = put ℕ_discrete id next d.deadlines;
      subs =
          put str_dec subscriber
            (record s {
              ch = s.ch ++ (record { delivery_id = id; message = m; attempt = attempt } ∷ []);
              inflight_bytes = s.inflight_bytes + bytes;
            })
            d.subs;
    }

-- `sendDeliveryLocked`
unfoldable pub send_delivery :
    Limits → Deliveries → Str → Message → ℕ → Bool → ℕ → Deliveries × Option ℕ
send_delivery l d subscriber m attempt cancel_on_pressure now =
    elim (find str_dec subscriber d.subs) [
      | none ↦ (d, none)
      | some s ↦
          if no_room l d s (message_size m)
          then (refuse d subscriber s cancel_on_pressure, none)
          else (start_delivery l d subscriber s m attempt now, some (d.seq + 1))
    ]

-- The bytes of a delivery that ends go back to its subscriber, if it is still there.
unfoldable pub give_back : Pending → Map Str Subscriber → Map Str Subscriber
give_back p subs = elim (find str_dec p.subscriber_id subs) [
  | none ↦ subs
  | some s ↦
      put str_dec p.subscriber_id (record s { inflight_bytes = s.inflight_bytes - p.bytes }) subs
]

-- What `removeAcks` and `maintenance` do with a delivery that ends.
unfoldable pub end_delivery : Deliveries → ℕ → Pending → Deliveries
end_delivery d id p = record d {
  pending = del ℕ_discrete id d.pending;
  topic_pending = unlink id p.message.topic d.topic_pending;
  pending_bytes = d.pending_bytes - p.bytes;
  deadlines = del ℕ_discrete id d.deadlines;
  subs = give_back p d.subs;
}

-- `removeAcks` without its checkpoints: what is left, and the deliveries that were acknowledged.
unfoldable pub remove_acks : Deliveries → List ℕ → Deliveries × List Pending
remove_acks d [] = (d, [])
remove_acks d (id ∷ ids) = elim (find ℕ_discrete id d.pending) [
  | none ↦ remove_acks d ids
  | some p ↦ let (d', ps) = remove_acks (end_delivery d id p) ids in (d', p ∷ ps)
]

-- `applyNacks`
unfoldable pub apply_nack : Deliveries → ℕ → ℕ → Deliveries
apply_nack d id now = elim (find ℕ_discrete id d.pending) [
  | none ↦ d
  | some p ↦ record d {
    pending = put ℕ_discrete id (record p { next = now }) d.pending;
    deadlines = put ℕ_discrete id now d.deadlines;
  }
]

unfoldable pub apply_nacks : Deliveries → List ℕ → ℕ → Deliveries
apply_nacks d [] now = d
apply_nacks d (id ∷ ids) now = apply_nacks (apply_nack d id now) ids now

-- An earliest item of the heap.
unfoldable pub earliest : Map ℕ ℕ → Option (ℕ × ℕ)
earliest [] = none
earliest (e ∷ es) = elim (earliest es) [
  | none ↦ some e
  | some f ↦ if ltb f.1 e.1 then some f else some e
]

-- A round of the loop over the deadlines that have passed, or `none` where it ends.
unfoldable pub time_out : Deliveries → ℕ → Option (Deliveries × List Pending)
time_out d now = elim (earliest d.deadlines) [
  | none ↦ none
  | some (id, at) ↦ if ltb now at then none else elim (find ℕ_discrete id d.pending) [
    | none ↦ some (record d { deadlines = del ℕ_discrete id d.deadlines }, [])
    | some p ↦
        if not (p.next == at)
        then some (record d { deadlines = del ℕ_discrete id d.deadlines }, [])
        else some (end_delivery d id p, p ∷ [])
  ]
]

-- The loop. Each round takes an item from the heap, so its length is enough fuel
-- (Deliveries/Deadlines).
unfoldable pub collect : ℕ → Deliveries → ℕ → Deliveries × List Pending
collect zero d now = (d, [])
collect (suc fuel) d now = elim (time_out d now) [
  | none ↦ (d, [])
  | some (d', ps) ↦ let (d'', qs) = collect fuel d' now in (d'', ps ++ qs)
]

-- What `maintenance` does with a broadcast delivery that timed out; one of a group goes to
-- `retryGroup`.
unfoldable pub redeliver : Limits → Deliveries → Pending → ℕ → Deliveries
redeliver l d p now =
    if leb l.max_attempts p.attempt
    then d
    else if leb p.expires_at now
    then d
    else (send_delivery l d p.subscriber_id p.message (p.attempt + 1) true now).0
