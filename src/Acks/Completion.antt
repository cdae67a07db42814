-- ===== src/Acks/Completion.antt =====
-- `removeAcks` and `internalAck` against the invariants of the parts that they change.
use spruce.Prelude.{
  ℕ, ◌+◌, ◌≤◌, ◌<◌, ◌≡◌, refl, sym, subst, ◌≢◌, inl, inr, ite, if_neg, Bool, true, false, none,
  some, List, [], ◌∷◌, arith, ℕ_discrete, leb, Bool-cases, Option-cases, Str, str_dec,
}
use spruce.Prelude.Maps.{find, find-del_self}
use spruce.Message.{Message}
use spruce.Checkpoints.{Key, OrderEntry, Table, checkpoint_active, put_checkpoint}
use spruce.Checkpoints.Invariant.{put_checkpoint-Valid}
use spruce.Checkpoints.Active.{put_checkpoint-active}
use spruce.Deliveries.{Pending, Limits, Deliveries, end_delivery}
use spruce.Deliveries.Ending.{end_delivery-Valid}
use spruce.Groups.{Group, Groups, wants}
use spruce.Groups.Accounting.{Accounted, complete_group_work-Accounted}
use spruce.Acks.{
  Broker, record_checkpoint, checkpoint_of, complete_written, checkpoint_delivery, finish_delivery,
  remove_ack, remove_acks, apply_checkpoint, apply_checkpoints, internal_ack,
}

abbrev pub TableValid : Table → Type 0
TableValid = spruce.Checkpoints.Evicting.Valid

abbrev pub DeliveriesValid : Limits → Deliveries → Type 0
DeliveriesValid = spruce.Deliveries.Accounting.Valid

-- The invariants of the three parts, where `other` bytes of the stream memory are held outside the
-- groups.
pub record Valid (l : Limits) (limit other : ℕ) (b : Broker) : Type 0 where
  pub deliveries : DeliveriesValid l b.deliveries
  pub table : TableValid b.checkpoints
  pub fits : b.checkpoints.count ≤ limit
  pub groups : Accounted other b.groups

complete_written-Accounted :
    (other : ℕ) (written : Bool) (gs : Groups) (key : Key)
    → Accounted other gs
    → Accounted other (complete_written written gs key)
unfolding complete_written
complete_written-Accounted other true gs key v =
    complete_group_work-Accounted other gs key.topic key.group key.message_id v
complete_written-Accounted other false gs key v = v

record_checkpoint-Valid :
    (l : Limits) (limit other : ℕ) (b : Broker) (o : OrderEntry) (now : ℕ)
    → Valid l limit other b
    → Valid l limit other (record_checkpoint limit b o now)
unfolding record_checkpoint
record_checkpoint-Valid l limit other b o now v = record {
  deliveries = v.deliveries;
  table = (put_checkpoint-Valid limit b.checkpoints o now v.table v.fits).0;
  fits = (put_checkpoint-Valid limit b.checkpoints o now v.table v.fits).1;
  groups =
      complete_written-Accounted other (put_checkpoint limit b.checkpoints o now).1 b.groups o.key
        v.groups;
}

checkpoint_delivery-Valid :
    (l : Limits) (limit other : ℕ) (b : Broker) (p : Pending) (now : ℕ)
    → Valid l limit other b
    → Valid l limit other (checkpoint_delivery limit b p now)
      × ((checkpoint_delivery limit b p now).deliveries ≡ b.deliveries)
unfolding checkpoint_delivery
checkpoint_delivery-Valid l limit other b p now v = cases (str_dec p.group [])
  where
    cases :
        (d : Dec (p.group ≡ []))
        → Valid l limit other (ite d b (record_checkpoint limit b (checkpoint_of p) now))
          × ((ite d b (record_checkpoint limit b (checkpoint_of p) now)).deliveries ≡ b.deliveries)
    cases (yes e) = (v, refl)
    cases (no ne) = (
      record_checkpoint-Valid l limit other b (checkpoint_of p) now v,
      unfold record_checkpoint in refl,
    )

remove_ack-Valid :
    (l : Limits) (limit other : ℕ) (b : Broker) (id : ℕ) (p : Pending) (now : ℕ)
    → find ℕ_discrete id b.deliveries.pending ≡ some p
    → Valid l limit other b
    → Valid l limit other (remove_ack limit b id p now)
unfolding remove_ack finish_delivery
remove_ack-Valid l limit other b id p now is v =
    let (w, same) = checkpoint_delivery-Valid l limit other b p now v in
    record {
      deliveries =
          end_delivery-Valid l _ id p
            (subst (λ d. find ℕ_discrete id d.pending ≡ some p) (sym same) is) w.deliveries;
      table = w.table;
      fits = w.fits;
      groups = w.groups;
    }

-- Acknowledging deliveries, each ID at most once pending, keeps the counters of the deliveries, the
-- checkpoint table and the memory of the groups in order.
pub remove_acks-Valid :
    (l : Limits) (limit other : ℕ) (b : Broker) (ids : List ℕ) (now : ℕ)
    → Valid l limit other b
    → Valid l limit other (remove_acks limit b ids now).0
unfolding remove_acks
remove_acks-Valid l limit other b [] now v = v
remove_acks-Valid l limit other b (id ∷ ids) now v =
    elim (Option-cases (find ℕ_discrete id b.deliveries.pending)) [
      | inl e ↦ rw (e, remove_acks) (remove_acks-Valid l limit other b ids now v)
      | inr (p, e) ↦
          rw (e, remove_acks)
            (remove_acks-Valid l limit other (remove_ack limit b id p now) ids now
              (remove_ack-Valid l limit other b id p now e v))
    ]

apply_checkpoint-Valid :
    (l : Limits) (limit other max_ttl : ℕ) (b : Broker) (o : OrderEntry) (now : ℕ)
    → Valid l limit other b
    → Valid l limit other (apply_checkpoint limit max_ttl b o now)
unfolding apply_checkpoint
apply_checkpoint-Valid l limit other max_ttl b o now v =
    elim (Bool-cases (leb o.expires_at (now + max_ttl))) [
      | inl near ↦ rw (near, apply_checkpoint) (record_checkpoint-Valid l limit other b o now v)
      | inr far ↦ rw (far, apply_checkpoint) v
    ]

apply_checkpoints-Valid_broker :
    (l : Limits) (limit other max_ttl : ℕ) (b : Broker) (os : List OrderEntry) (now : ℕ)
    → Valid l limit other b
    → Valid l limit other (apply_checkpoints limit max_ttl b os now)
unfolding apply_checkpoints
apply_checkpoints-Valid_broker l limit other max_ttl b [] now v = v
apply_checkpoints-Valid_broker l limit other max_ttl b (o ∷ os) now v =
    apply_checkpoints-Valid_broker l limit other max_ttl (apply_checkpoint limit max_ttl b o now) os
      now (apply_checkpoint-Valid l limit other max_ttl b o now v)

-- An acknowledgement from a peer keeps the invariants of the deliveries, the checkpoint table and
-- the group work, whatever delivery IDs and checkpoints it carries.
pub internal_ack-Valid :
    (l : Limits) (limit other max_ttl : ℕ) (b : Broker) (ids : List ℕ) (os : List OrderEntry)
    (now : ℕ)
    → Valid l limit other b
    → Valid l limit other (internal_ack limit max_ttl b ids os now)
unfolding internal_ack
internal_ack-Valid l limit other max_ttl b ids os now v =
    apply_checkpoints-Valid_broker l limit other max_ttl _ os now
      (remove_acks-Valid l limit other b ids now v)

-- A read of the table as the groups use it.
abbrev pub active_in : Table → ℕ → Str → Str → Str → Bool
active_in t now topic group id =
    checkpoint_active t (record { topic = topic; group = group; message_id = id }) now

active-unwanted :
    (active : Str → Str → Str → Bool) (only : Str) (g : Group) (m : Message)
    → active g.topic g.group m.id ≡ true
    → wants active only g m ≡ false
unfolding wants
active-unwanted active only g m h = rw h (ground arith)

-- With room for one checkpoint at least, an acknowledged delivery of a group that has not expired
-- is gone, and by the checkpoint that it leaves the group does not want its message.
pub remove_ack-unwanted :
    (limit : ℕ) (b : Broker) (id : ℕ) (p : Pending) (only : Str) (g : Group) (now : ℕ)
    → 0 < limit
    → TableValid b.checkpoints
    → p.group ≢ []
    → now < p.expires_at
    → g.topic ≡ p.message.topic
    → g.group ≡ p.group
    → (find ℕ_discrete id (remove_ack limit b id p now).deliveries.pending ≡ none)
      × (wants (active_in (remove_ack limit b id p now).checkpoints now) only g p.message ≡ false)
unfolding remove_ack finish_delivery checkpoint_delivery record_checkpoint
remove_ack-unwanted limit b id p only g now room v grouped fresh topic group =
    rw (if_neg (str_dec p.group []) grouped b (record_checkpoint limit b (checkpoint_of p) now)) (
      unfold end_delivery in find-del_self ℕ_discrete id b.deliveries.pending,
      active-unwanted (active_in (put_checkpoint limit b.checkpoints (checkpoint_of p) now).0 now)
          only g p.message (rw (topic, group) written),
    )
  where
    written :
        active_in
          (put_checkpoint limit b.checkpoints (checkpoint_of p) now).0
          now
          p.message.topic
          p.group
          p.message.id
        ≡ true
    written =
        unfold checkpoint_of in
        put_checkpoint-active limit b.checkpoints (checkpoint_of p) now room v fresh
