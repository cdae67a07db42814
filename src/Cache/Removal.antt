-- ===== src/Cache/Removal.antt =====
-- `removeLocked` and `dropOldestLocked` of internal/broker/broker.go, on the order of the cache.
use spruce.Prelude.{
  ℕ, ◌≤◌, ◌≡◌, refl, sym, ap, subst, ◌∙◌, ◌≢◌, ◌⊎◌, inl, inr, if_pos, Bool, true, false, none, some,
  arith, Option-cases, length, get_elem?, Str, str_dec,
}
use spruce.Prelude.Maps.{find, del, found-del}
use spruce.Message.{Message}
use spruce.Cache.Slots.{Pointers, clear, get_elem?-clear_self}
use spruce.Cache.{
  Stored, Cached, Cache, Frontier, mark, extend_frontier, record_frontier, points_at, settle_topic,
  leave_topic, leave_order, take_out, unlink_expiry,
}
use spruce.Cache.Keeping.{leave_topic-Keeps, leave_topic-KeepStored}
use spruce.Cache.Agreement.{IsKept, Keeps, del-IsKept}

-- What an operation on other fields leaves alone.
pub record Same (c c' : Cache) : Type 0 where
  pub items : c'.items ≡ c.items
  pub order : c'.order ≡ c.order
  pub head : c'.order_head ≡ c.order_head
  pub bytes : c'.bytes ≡ c.bytes
  pub expiries : c'.expiries ≡ c.expiries
  pub limit : c'.max_bytes ≡ c.max_bytes
  pub ordinal : c'.next_ordinal ≡ c.next_ordinal
  pub rejects : c'.reject_pressure ≡ c.reject_pressure

pub Same-refl : (c : Cache) → Same c c
Same-refl c = record {
  items = refl;
  order = refl;
  head = refl;
  bytes = refl;
  expiries = refl;
  limit = refl;
  ordinal = refl;
  rejects = refl;
}

pub Same-trans : (a b c : Cache) → Same a b → Same b c → Same a c
Same-trans a b c p q = record {
  items = q.items ∙ p.items;
  order = q.order ∙ p.order;
  head = q.head ∙ p.head;
  bytes = q.bytes ∙ p.bytes;
  expiries = q.expiries ∙ p.expiries;
  limit = q.limit ∙ p.limit;
  ordinal = q.ordinal ∙ p.ordinal;
  rejects = q.rejects ∙ p.rejects;
}

extend_frontier-Same : (c : Cache) (m : Message) (f : Frontier) → Same c (extend_frontier c m f)
unfolding extend_frontier mark
extend_frontier-Same c m f = ground arith

pub record_frontier-Same : (now : ℕ) (c : Cache) (m : Message) → Same c (record_frontier now c m)
unfolding record_frontier mark
record_frontier-Same now c m = grind (arith, extend_frontier-Same)

-- The list of a topic and the items are what changes.
pub record Near (c c' : Cache) : Type 0 where
  pub order : c'.order ≡ c.order
  pub head : c'.order_head ≡ c.order_head
  pub bytes : c'.bytes ≡ c.bytes
  pub expiries : c'.expiries ≡ c.expiries
  pub limit : c'.max_bytes ≡ c.max_bytes
  pub ordinal : c'.next_ordinal ≡ c.next_ordinal
  pub rejects : c'.reject_pressure ≡ c.reject_pressure

leave_topic-Near : (c : Cache) (it : Cached) → Near c (leave_topic c it)
unfolding leave_topic settle_topic
leave_topic-Near c it = ground arith

points_at_self : (s : Stored) → points_at s.message.id (some (some s)) ≡ true
unfolding points_at
points_at_self s = rw (if_pos (str_dec s.message.id s.message.id) refl true false) refl

-- Whether or not the slot has been emptied before, it is empty afterwards.
pub leave_order-clear :
    (c : Cache) (it : Cached) (order : Pointers Stored)
    → get_elem? order it.order_index ≡ some (some it.stored)
    → (c.order ≡ order) ⊎ (c.order ≡ clear it.order_index order)
    → (leave_order c it).order ≡ clear it.order_index order
unfolding leave_order
leave_order-clear c it order there (inl e) = rw (e, there, points_at_self it.stored) refl
leave_order-clear c it order there (inr e) =
    unfold points_at in rw (e, get_elem?-clear_self it.order_index it.stored order there) refl

leave_order-rest :
    (c : Cache) (it : Cached)
    → ((leave_order c it).items ≡ c.items)
      × ((leave_order c it).order_head ≡ c.order_head)
      × ((leave_order c it).bytes ≡ c.bytes)
      × ((leave_order c it).expiries ≡ c.expiries)
      × ((leave_order c it).max_bytes ≡ c.max_bytes)
      × ((leave_order c it).next_ordinal ≡ c.next_ordinal)
      × ((leave_order c it).reject_pressure ≡ c.reject_pressure)
unfolding leave_order
leave_order-rest c it = ground arith

-- An item is taken out of a cache that is in order, or of one whose head is just past its slot.
pub record TakenOut (c c' : Cache) (slots : Pointers Stored) (it : Cached) : Type 0 where
  pub kept : Keeps c'
  pub order : c'.order ≡ clear it.order_index slots
  pub head : c'.order_head ≡ c.order_head
  pub limit : c'.max_bytes ≡ c.max_bytes
  pub ordinal : c'.next_ordinal ≡ c.next_ordinal
  pub rejects : c'.reject_pressure ≡ c.reject_pressure
  pub expiries :
      c'.expiries ≡ unlink_expiry it.stored.message.expires_at it.stored.message.id c.expiries
  pub left :
      (j : Str) (jt : Cached)
      → find str_dec j c'.items ≡ some jt
      → (j ≢ it.stored.message.id)
        × ((kt : Cached) × (find str_dec j c.items ≡ some kt) × (kt.stored ≡ jt.stored))

module _ (c : Cache) (order : Pointers Stored) (head : ℕ) (it : Cached)
    (found : find str_dec it.stored.message.id c.items ≡ some it)
    (kept : IsKept c.items order head c.bytes)
    (cleared : (c.order ≡ order) ⊎ (c.order ≡ clear it.order_index order))
    (moved : (i : ℕ) (s : Stored)
      → i ≢ it.order_index
      → get_elem? order i ≡ some (some s)
      → c.order_head ≤ i)
    (within : c.order_head ≤ length order) where
  pub take_out-TakenOut : (pressure : Bool) → TakenOut c (take_out pressure c it) order it
  unfolding take_out
  take_out-TakenOut pressure =
      let less = record c { items = del str_dec it.stored.message.id c.items } in
      let rest = leave_order-rest less it in
      let near = leave_topic-Near (leave_order less it) it in
      let cleared' = leave_order-clear less it order (kept.placed _ it found).1 cleared in
      let k =
        del-IsKept c.items order head c.bytes c.order_head it.stored.message.id it found kept moved
          within in
      record {
        kept =
            rw (near.order ∙ cleared', near.head ∙ rest.1, near.bytes ∙ rest.2)
              (leave_topic-Keeps (leave_order less it) it _ _ _ (rw (rest.0) k));
        order = near.order ∙ cleared';
        head = near.head ∙ rest.1;
        limit = near.limit ∙ rest.4;
        ordinal = near.ordinal ∙ rest.5;
        rejects = near.rejects ∙ rest.6;
        expiries = ap (unlink_expiry _ _) (near.expiries ∙ rest.3);
        left = λ j jt h.
            let (kt, f, same) = leave_topic-KeepStored (leave_order less it) it j jt h in
            let (ne, old) =
              found-del str_dec it.stored.message.id j kt c.items
                (subst (λ x. find str_dec j x ≡ some kt) rest.0 f) in
            (ne, (kt, old, same));
      }

pub TakenOut-fewer :
    (c c' : Cache) (slots : Pointers Stored) (it : Cached)
    → TakenOut c c' slots it
    → (id : Str) → find str_dec id c.items ≡ none
    → find str_dec id c'.items ≡ none
TakenOut-fewer c c' slots it out id missing = elim (Option-cases (find str_dec id c'.items)) [
  | inl e ↦ e
  | inr (jt, e) ↦
      let (ne, (kt, f, same)) = out.left id jt e in
      let both : none ≡ some kt = sym missing ∙ f in absurd (cc)
]
