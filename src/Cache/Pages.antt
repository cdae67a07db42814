-- ===== src/Cache/Pages.antt =====
-- What reads the cache of internal/broker/broker.go: `putLocked` and `putBatchLocked`, which expire
-- first, the pages of a snapshot and of a repair, and the lists of a replay.
use spruce.Prelude.{
  ℕ, ◌+◌, ◌-◌, ite, Bool, true, false, ◌||◌, Option, none, some, List, [], ◌∷◌, ltb, leb, ◌==◌,
  if◌then◌else◌, drop, Str, str_dec, Result, ok, err,
}
use spruce.Prelude.Maps.{Map, find}
use spruce.Message.{Message, message_size}
use spruce.Replay.{value_at}
use spruce.Cache.Slots.{Pointers}
use mathlib.Core.Option
use spruce.Cache.{Cache, Stored, topic_list, points_at}
use spruce.Cache.Inserts.{CacheError, exceeds_capacity, insert_message, insert_batch}
use spruce.Cache.Expiry.{expire_cache}

-- `put` and `putLocked`
unfoldable pub put_message : Cache → Message → ℕ → Cache × Result CacheError Bool
put_message c m now = insert_message now (expire_cache now c) m

-- The check of `putBatchLocked`: the sum of the sizes, as far as it stays within the budget.
unfoldable pub batch_within : ℕ → ℕ → List Message → Bool
batch_within budget total [] = true
batch_within budget total (m ∷ ms) =
    if ltb budget (message_size m) || ltb (budget - message_size m) total
    then false
    else batch_within budget (total + message_size m) ms

-- `putBatch` and `putBatchLocked`
unfoldable pub put_batch : Cache → List Message → ℕ → Cache × Result CacheError (List Bool)
put_batch c ms now =
    let c' = expire_cache now c in
    if batch_within c'.max_bytes 0 ms
    then (let (c'', inserted) = insert_batch now c' ms in (c'', ok inserted))
    else (c', err exceeds_capacity)

abbrev pub max_batch_messages : ℕ
max_batch_messages = 4096

-- The loop of a page over the slots: the messages, or nothing where the first one is too large.
unfoldable pub fill_page : ℕ → ℕ → ℕ → Pointers Stored → Option (List Stored)
fill_page limit count bytes [] = some []
fill_page limit count bytes (none ∷ slots) = fill_page limit count bytes slots
fill_page limit count bytes (some s ∷ slots) =
    let rest = fill_page limit (count + 1) (bytes + message_size s.message) slots in
    if leb max_batch_messages count
    then some []
    else if ltb limit (bytes + message_size s.message)
    then (if count == 0 then none else some [])
    else Option.map (λ ss. s ∷ ss) rest

-- Where a page after this ID starts.
unfoldable pub place_after : Str → ℕ → Pointers Stored → Option ℕ
place_after id i [] = none
place_after id i (slot ∷ slots) =
    if points_at id (some slot) then some (i + 1) else place_after id (i + 1) slots

unfoldable pub last_id : Str → List Stored → Str
last_id id [] = id
last_id id (s ∷ ss) = last_id s.message.id ss

unfoldable pub page_start : Cache → Str → Option ℕ
page_start c after =
    ite (str_dec after []) (some c.order_head)
      (place_after after c.order_head (drop c.order_head c.order))

-- `page`, without the expiry before it.
unfoldable pub page : Cache → Str → ℕ → Option (List Stored × Str)
page c after limit = elim (page_start c after) [
  | none ↦ none
  | some start ↦
      Option.map (λ out. (out, last_id after out)) (fill_page limit 0 0 (drop start c.order))
]

-- The slots that a repair has still to send.
unfoldable pub after_ordinal : ℕ → Pointers Stored → Pointers Stored
after_ordinal after [] = []
after_ordinal after (none ∷ slots) = after_ordinal after slots
after_ordinal after (some s ∷ slots) =
    if leb s.ordinal after then after_ordinal after slots else some s ∷ after_ordinal after slots

unfoldable pub last_ordinal : ℕ → List Stored → ℕ
last_ordinal n [] = n
last_ordinal n (s ∷ ss) = last_ordinal s.ordinal ss

-- `repairPage`, without the expiry before it.
unfoldable pub repair_page : Cache → ℕ → ℕ → Option (List Stored × ℕ)
repair_page c after limit =
    Option.map (λ out. (out, last_ordinal after out))
      (fill_page limit 0 0 (after_ordinal after c.order))

-- `has` and `get`
unfoldable pub get_message : Cache → Str → Option Message
get_message c id = Option.map (λ it. it.stored.message) (find str_dec id c.items)

unfoldable pub has_message : Cache → Str → Bool
has_message c id = elim (find str_dec id c.items) [ none ↦ false | some _ ↦ true ]

-- `replayLocked`
unfoldable pub replay_after : Map Str ℕ → Pointers Stored → List Message
replay_after cursor [] = []
replay_after cursor (none ∷ slots) = replay_after cursor slots
replay_after cursor (some s ∷ slots) =
    let rest = replay_after cursor slots in
    if ltb (value_at s.message.origin cursor) s.message.sequence then s.message ∷ rest else rest

unfoldable pub replay : Cache → Str → Map Str ℕ → List Message
replay c topic cursor = replay_after cursor (topic_list topic c.topics)

-- The stable sort by time.
unfoldable pub insert_by_time : Message → List Message → List Message
insert_by_time m [] = m ∷ []
insert_by_time m (n ∷ ns) =
    if leb m.created_at n.created_at then m ∷ n ∷ ns else n ∷ insert_by_time m ns

unfoldable pub created_since : ℕ → Pointers Stored → List Message
created_since since [] = []
created_since since (none ∷ slots) = created_since since slots
created_since since (some s ∷ slots) =
    let rest = created_since since slots in
    if leb since s.message.created_at then insert_by_time s.message rest else rest

-- `replaySinceLocked`
unfoldable pub replay_since : Cache → Str → ℕ → List Message
replay_since c topic since = created_since since (topic_list topic c.topics)
