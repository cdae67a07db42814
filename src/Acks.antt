-- ===== src/Acks.antt =====
-- Acknowledgements: `removeAcks`, `putCheckpointLocked`, `applyCheckpoints` and the state changes of
-- `internalAck` in internal/broker/broker.go, which join the deliveries, the checkpoints and the
-- work of the groups. All of it runs under `mu`. Forwarding to the peers is not state.
pub mod Completion
mod Examples
use spruce.Prelude.{
  ℕ, zero, suc, ◌+◌, ◌-◌, ◌*◌, ◌/◌, ◌%◌, ◌^◌, ◌≤◌, ◌<◌, min, max, ◌≡◌, refl, sym, ap, subst, ◌∙◌,
  ◌≢◌, ◌⊎◌, inl, inr, ite, if_pos, if_neg, Bool, true, false, not, ◌&&◌, ◌||◌, Option, none, some,
  List, [], ◌∷◌, ◌++◌, map, append_assoc, append-nil, arith, dec_lt, dec_le, ℕ_discrete, ltb, leb,
  ◌==◌, if◌then◌else◌, tests, Bool-cases, Option-cases, some_inj, length, get_elem?, take, drop,
  length-append, All, All-map, All-zip, All-drop_mid, All-snoc, sum_by, sum_by-append, Str, str_dec,
  Result, ok, err, ◌>>=◌, ◌>>◌, fail_if, bind_ok, passed,
}
use spruce.Prelude.Maps.{find}
use spruce.Checkpoints.{Key, OrderEntry, Table, checkpoint_active, put_checkpoint}
use spruce.Deliveries.{Pending, Deliveries, end_delivery}
use spruce.Groups.{Groups, complete_group_work}

pub record Broker : Type 0 where
  pub deliveries : Deliveries
  pub checkpoints : Table
  pub groups : Groups

unfoldable pub complete_written : Bool → Groups → Key → Groups
complete_written written gs key =
    if written then complete_group_work gs key.topic key.group key.message_id else gs

-- `putCheckpointLocked`: a checkpoint that is new or later also completes the work of its group.
unfoldable pub record_checkpoint : ℕ → Broker → OrderEntry → ℕ → Broker
record_checkpoint limit b o now =
    let (t, written) = put_checkpoint limit b.checkpoints o now in
    record b { checkpoints = t; groups = complete_written written b.groups o.key }

-- The checkpoint of a delivery to a group.
unfoldable pub checkpoint_of : Pending → OrderEntry
checkpoint_of p = record {
  key = record { topic = p.message.topic; group = p.group; message_id = p.message.id };
  expires_at = p.expires_at;
}

unfoldable pub checkpoint_delivery : ℕ → Broker → Pending → ℕ → Broker
checkpoint_delivery limit b p now =
    ite (str_dec p.group []) b (record_checkpoint limit b (checkpoint_of p) now)

unfoldable pub finish_delivery : Broker → ℕ → Pending → Broker
finish_delivery b id p = record b { deliveries = end_delivery b.deliveries id p }

unfoldable pub remove_ack : ℕ → Broker → ℕ → Pending → ℕ → Broker
remove_ack limit b id p now = finish_delivery (checkpoint_delivery limit b p now) id p

-- `removeAcks`, with the checkpoints that it returns.
unfoldable pub remove_acks : ℕ → Broker → List ℕ → ℕ → Broker × List OrderEntry
remove_acks limit b [] now = (b, [])
remove_acks limit b (id ∷ ids) now = elim (find ℕ_discrete id b.deliveries.pending) [
  | none ↦ remove_acks limit b ids now
  | some p ↦
      let (b', os) = remove_acks limit (remove_ack limit b id p now) ids now in
      (b', ite (str_dec p.group []) os (checkpoint_of p ∷ os))
]

unfoldable pub apply_checkpoint : ℕ → ℕ → Broker → OrderEntry → ℕ → Broker
apply_checkpoint limit max_ttl b o now =
    if leb o.expires_at (now + max_ttl) then record_checkpoint limit b o now else b

-- `applyCheckpoints`
unfoldable pub apply_checkpoints : ℕ → ℕ → Broker → List OrderEntry → ℕ → Broker
apply_checkpoints limit max_ttl b [] now = b
apply_checkpoints limit max_ttl b (o ∷ os) now =
    apply_checkpoints limit max_ttl (apply_checkpoint limit max_ttl b o now) os now

-- The two state changes of `internalAck`.
unfoldable pub internal_ack : ℕ → ℕ → Broker → List ℕ → List OrderEntry → ℕ → Broker
internal_ack limit max_ttl b ids checkpoints now =
    apply_checkpoints limit max_ttl (remove_acks limit b ids now).0 checkpoints now
