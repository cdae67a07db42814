-- ===== src/Sequencing/Untouched.antt =====
-- An insertion into the cache of internal/broker/broker.go leaves the buffered messages alone.
use spruce.Prelude.{
  ℕ, zero, suc, ◌+◌, ◌-◌, ◌≡◌, refl, ◌∙◌, inl, inr, Bool, true, ◌&&◌, none, some, arith, ltb,
  Bool-cases, Option-cases, length, get_elem?, Str, str_dec,
}
use spruce.Prelude.Maps.{find}
use spruce.Message.{Message, message_size}
use spruce.Cache.{
  Cache, Cached, Frontier, mark, extend_frontier, record_frontier, settle_topic, leave_topic,
  leave_order, take_out, remove_message,
}
use spruce.Cache.Inserts.{drop_from, drop_oldest, make_space, add_message, insert_message}
use spruce.Cache.Slots.{clear}

pub record SameBuffers (c c' : Cache) : Type 0 where
  pub reorder : c'.reorder ≡ c.reorder
  pub bytes : c'.reorder_bytes ≡ c.reorder_bytes

SameBuffers-trans : (a b c : Cache) → SameBuffers a b → SameBuffers b c → SameBuffers a c
SameBuffers-trans a b c p q = record { reorder = q.reorder ∙ p.reorder; bytes = q.bytes ∙ p.bytes }

extend_frontier-SameBuffers :
    (c : Cache) (m : Message) (f : Frontier) → SameBuffers c (extend_frontier c m f)
unfolding extend_frontier mark
extend_frontier-SameBuffers c m f = ground arith

record_frontier-SameBuffers :
    (now : ℕ) (c : Cache) (m : Message) → SameBuffers c (record_frontier now c m)
unfolding record_frontier mark
record_frontier-SameBuffers now c m = grind (arith, extend_frontier-SameBuffers)

take_out-SameBuffers : (p : Bool) (c : Cache) (it : Cached) → SameBuffers c (take_out p c it)
unfolding take_out leave_topic settle_topic leave_order
take_out-SameBuffers p c it = ground arith

remove-SameBuffers : (now : ℕ) (c : Cache) (id : Str) → SameBuffers c (remove_message now c id true)
unfolding remove_message
remove-SameBuffers now c id = elim (Option-cases (find str_dec id c.items)) [
  | inl e ↦ rw (e, remove_message) (record { reorder = refl; bytes = refl })
  | inr (it, e) ↦
      rw (e, remove_message)
        (SameBuffers-trans c (record_frontier now c it.stored.message) _
          (record_frontier-SameBuffers now c it.stored.message) (take_out-SameBuffers true _ it))
]

abbrev pass : Cache → Cache
pass c = record c {
  order = clear c.order_head c.order;
  order_head = c.order_head + 1;
  tombstones = c.tombstones + 1;
}

from_pass : (c d : Cache) → SameBuffers (pass c) d → SameBuffers c d
from_pass c d s = record { reorder = s.reorder; bytes = s.bytes }

drop_from-SameBuffers : (fuel now : ℕ) (c : Cache) → SameBuffers c (drop_from fuel now c)
unfolding drop_from
drop_from-SameBuffers zero now c = record { reorder = refl; bytes = refl }
drop_from-SameBuffers (suc fuel) now c = elim (Option-cases (get_elem? c.order c.order_head)) [
  | inl e ↦ rw (e, drop_from) (record { reorder = refl; bytes = refl })
  | inr (none, e) ↦ rw (e, drop_from) (from_pass c _ (drop_from-SameBuffers fuel now (pass c)))
  | inr (some s, e) ↦ elim (Option-cases (find str_dec s.message.id c.items)) [
    | inl f ↦ rw (e, f, drop_from) (from_pass c _ (drop_from-SameBuffers fuel now (pass c)))
    | inr (it, f) ↦
        rw (e, f, drop_from) (from_pass c _ (remove-SameBuffers now (pass c) s.message.id))
  ]
]

make_space-SameBuffers :
    (fuel now size : ℕ) (c : Cache) → SameBuffers c (make_space fuel now size c)
unfolding make_space drop_oldest
make_space-SameBuffers zero now size c = record { reorder = refl; bytes = refl }
make_space-SameBuffers (suc fuel) now size c =
    elim (Bool-cases (ltb c.max_bytes (c.bytes + size) && ltb c.order_head (length c.order))) [
      | inr h ↦ rw (h, make_space) (record { reorder = refl; bytes = refl })
      | inl h ↦
          rw (h, make_space)
            (SameBuffers-trans c (drop_oldest now c) _
              (drop_from-SameBuffers (length c.order - c.order_head) now c)
              (make_space-SameBuffers fuel now size (drop_oldest now c)))
    ]

pub insert_message-SameBuffers :
    (now : ℕ) (c : Cache) (m : Message) → SameBuffers c (insert_message now c m).0
unfolding insert_message add_message
insert_message-SameBuffers now c m =
    let s = make_space-SameBuffers (length c.order - c.order_head) now (message_size m) c in
    ground arith
