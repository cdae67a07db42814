-- ===== src/Cache/Inserts.antt =====
-- `dropOldestLocked`, `insertLocked` and `insertBatchLocked` of internal/broker/broker.go.
use spruce.Prelude.{
  ℕ, zero, suc, ◌+◌, ◌-◌, Bool, true, false, ◌&&◌, none, some, List, [], ◌∷◌, ◌++◌, ℕ_discrete, ltb,
  if◌then◌else◌, length, get_elem?, Str, str_dec, Result, ok, err,
}
use spruce.Prelude.Maps.{Map, find, put}
use spruce.Message.{Message, message_size}
use spruce.Cache.Slots.{clear}
use spruce.Cache.{Stored, Cached, Cache, topic_list, remove_message}

-- `dropOldestLocked`, with the length of the slice after the head as fuel.
unfoldable pub drop_from : ℕ → ℕ → Cache → Cache
drop_from zero now c = c
drop_from (suc fuel) now c = elim (get_elem? c.order c.order_head) [
  | none ↦ c
  | some slot ↦
      let c' = record c {
        order = clear c.order_head c.order;
        order_head = c.order_head + 1;
        tombstones = c.tombstones + 1;
      } in
      elim slot [
        | none ↦ drop_from fuel now c'
        | some s ↦ elim (find str_dec s.message.id c.items) [
          | none ↦ drop_from fuel now c'
          | some it ↦ remove_message now c' s.message.id true
        ]
      ]
]

unfoldable pub drop_oldest : ℕ → Cache → Cache
drop_oldest now c = drop_from (length c.order - c.order_head) now c

-- The loop of `insertLocked`: each round moves the head on.
unfoldable pub make_space : ℕ → ℕ → ℕ → Cache → Cache
make_space zero now size c = c
make_space (suc fuel) now size c =
    let rest = make_space fuel now size (drop_oldest now c) in
    if ltb c.max_bytes (c.bytes + size) && ltb c.order_head (length c.order) then rest else c

unfoldable pub link_expiry : ℕ → Str → Map ℕ (List Str) → Map ℕ (List Str)
link_expiry at id expiries = elim (find ℕ_discrete at expiries) [
  | none ↦ put ℕ_discrete at (id ∷ []) expiries
  | some ids ↦ put ℕ_discrete at (id ∷ ids) expiries
]

-- The message with the next ordinal, at the end of both lists.
abbrev pub new_stored : Cache → Message → Stored
new_stored c m = record { message = m; ordinal = c.next_ordinal + 1 }

abbrev pub new_cached : Cache → Message → Cached
new_cached c m = record {
  stored = new_stored c m;
  order_index = length c.order;
  topic_index = length (topic_list m.topic c.topics);
}

-- The writes of `insertLocked`, once there is room.
unfoldable pub add_message : Cache → Message → Cache
add_message c m = record c {
  items = put str_dec m.id (new_cached c m) c.items;
  next_ordinal = c.next_ordinal + 1;
  order = c.order ++ (some (new_stored c m) ∷ []);
  topics =
      put str_dec m.topic (topic_list m.topic c.topics ++ (some (new_stored c m) ∷ [])) c.topics;
  expiries = link_expiry m.expires_at m.id c.expiries;
  bytes = c.bytes + message_size m;
}

pub data CacheError : Type 0 where
  exceeds_capacity : CacheError
  retention_capacity : CacheError

-- `insertLocked`: whether the message is new.
unfoldable pub insert_message : ℕ → Cache → Message → Cache × Result CacheError Bool
insert_message now c m = elim (find str_dec m.id c.items) [
  | some _ ↦ (c, ok false)
  | none ↦
      if ltb c.max_bytes (message_size m)
      then (c, err exceeds_capacity)
      else if c.reject_pressure && ltb c.max_bytes (c.bytes + message_size m)
      then (c, err retention_capacity)
      else (
        add_message (make_space (length c.order - c.order_head) now (message_size m) c) m,
        ok true,
      )
]

abbrev is_ok_true : Result CacheError Bool → Bool
is_ok_true r = elim r [ err _ ↦ false | ok b ↦ b ]

-- `insertBatchLocked`
unfoldable pub insert_batch : ℕ → Cache → List Message → Cache × List Bool
insert_batch now c [] = (c, [])
insert_batch now c (m ∷ ms) =
    let (c', r) = insert_message now c m in
    let (c'', rs) = insert_batch now c' ms in (c'', is_ok_true r ∷ rs)
