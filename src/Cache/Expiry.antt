-- ===== src/Cache/Expiry.antt =====
-- `expireLocked` of internal/broker/broker.go: the metadata that is looked at once a second, the
-- messages whose time is over, and the compaction of the order.
use spruce.Prelude.{
  ℕ, zero, suc, ◌+◌, ◌-◌, ◌*◌, ite, true, false, ◌&&◌, Option, none, some, List, [], ◌∷◌, map,
  ℕ_discrete, ltb, leb, ◌==◌, if◌then◌else◌, length, sum_by, Str, str_dec,
}
use spruce.Prelude.Maps.{Map, find, put, del}
use spruce.Message.{Message, message_size}
use spruce.Replay.{Marks, clear_unsafe, topic_unsafe}
use spruce.Cache.Slots.{Pointers, somes}
use spruce.Cache.{
  Cache, Stored, Cached, TopicSequence, live_frontiers, topic_list, order_place, renumber,
  remove_message,
}

unfoldable pub gaps_of : Str → Map Str (Map ℕ Message) → Map ℕ Message
gaps_of origin reorder = elim (find str_dec origin reorder) [ none ↦ [] | some gaps ↦ gaps ]

-- Receive frontiers whose history is over, unless messages wait behind them.
unfoldable pub forget_origin : ℕ → Str × ℕ → Cache → Cache
forget_origin now e c =
    if leb e.1 now && length (gaps_of e.0 c.reorder) == 0
    then record c {
      received_until = del str_dec e.0 c.received_until;
      received_through = del str_dec e.0 c.received_through;
    }
    else c

unfoldable pub forget_origins : ℕ → List (Str × ℕ) → Cache → Cache
forget_origins now [] c = c
forget_origins now (e ∷ es) c = forget_origins now es (forget_origin now e c)

unfoldable pub forget_marks : ℕ → List (Str × Map Str ℕ) → Marks → Marks
forget_marks now [] u = u
forget_marks now (e ∷ es) u = forget_marks now es (topic_unsafe now u e.0).1

unfoldable pub forget_sequences :
    ℕ → Map Str (Pointers Stored) → Map Str TopicSequence → Map Str TopicSequence
forget_sequences now topics [] = []
forget_sequences now topics (e ∷ es) =
    let rest = forget_sequences now topics es in
    if leb e.1.expires_at now && length (topic_list e.0 topics) == 0 then rest else e ∷ rest

unfoldable pub live_gaps : ℕ → Map ℕ Message → Map ℕ Message
live_gaps now [] = []
live_gaps now (e ∷ es) = if leb e.1.expires_at now then live_gaps now es else e ∷ live_gaps now es

unfoldable pub gap_bytes : Map ℕ Message → ℕ
gap_bytes gaps = sum_by (λ e. message_size e.1) gaps

-- The topic of the last message of the loop, which has the topic of its origin.
unfoldable pub gap_topic : Str → Map ℕ Message → Str
gap_topic topic [] = topic
gap_topic topic (e ∷ es) = gap_topic e.1.topic es

-- "gap:" and the origin
unfoldable pub gap_source : Str → Str
gap_source origin = 103 ∷ 97 ∷ 112 ∷ 58 ∷ origin

unfoldable pub clear_gap : Cache → Str → Str → Cache
clear_gap c topic origin =
    ite (str_dec topic []) c (record c { unsafe = clear_unsafe c.unsafe topic (gap_source origin) })

-- One origin of the loop over `reorder`.
unfoldable pub expire_gaps : ℕ → Str → Map ℕ Message → Cache → Cache
expire_gaps now origin gaps c =
    let left = live_gaps now gaps in
    let c' = record c { reorder_bytes = c.reorder_bytes + gap_bytes left - gap_bytes gaps } in
    elim left [
      | [] ↦
          clear_gap
            (record c' {
              reorder = del str_dec origin c.reorder;
              reorder_since = del str_dec origin c.reorder_since;
            })
            (gap_topic [] gaps) origin
      | e ∷ es ↦ record c' { reorder = put str_dec origin (e ∷ es) c.reorder }
    ]

unfoldable pub expire_reorder : ℕ → List (Str × Map ℕ Message) → Cache → Cache
expire_reorder now [] c = c
expire_reorder now (e ∷ es) c = expire_reorder now es (expire_gaps now e.0 e.1 c)

unfoldable pub expire_metadata : ℕ → Cache → Cache
expire_metadata now c =
    if ltb now c.next_metadata_expiry
    then c
    else let c' = forget_origins now c.received_until c in
      expire_reorder now c.reorder (record c' {
        next_metadata_expiry = now + 1000;
        frontiers = live_frontiers now c'.frontiers;
        unsafe = forget_marks now c'.unsafe c'.unsafe;
        topic_sequences = forget_sequences now c'.topics c'.topic_sequences;
      })

-- The item on top of the heap: the earliest time, and its messages.
unfoldable pub next_expiry : Map ℕ (List Str) → Option (ℕ × List Str)
next_expiry [] = none
next_expiry (e ∷ es) = elim (next_expiry es) [
  | none ↦ some e
  | some f ↦ if ltb f.0 e.0 then some f else some e
]

-- The messages of an item that has been popped.
unfoldable pub remove_due : ℕ → List Str → Cache → Cache
remove_due at [] c = c
remove_due at (id ∷ ids) c = remove_due at ids (elim (find str_dec id c.items) [
  | none ↦ c
  | some it ↦ if it.stored.message.expires_at == at then remove_message at c id false else c
])

-- The loop over the heap, with its length as fuel: each round pops an item and none is pushed.
unfoldable pub expire_due : ℕ → ℕ → Cache → Cache
expire_due zero now c = c
expire_due (suc fuel) now c = elim (next_expiry c.expiries) [
  | none ↦ c
  | some e ↦ elim (leb e.0 now) [
    | true ↦
        expire_due fuel now
          (remove_due e.0 e.1 (record c { expiries = del ℕ_discrete e.0 c.expiries }))
    | false ↦ c
  ]
]

unfoldable pub listed : Map Str Cached → List Stored → List Stored
listed items [] = []
listed items (s ∷ ss) = elim (find str_dec s.message.id items) [
  | none ↦ listed items ss
  | some _ ↦ s ∷ listed items ss
]

abbrev pub order_compact_tombstones : ℕ
order_compact_tombstones = 1024

-- The slots that are left, without the empty ones.
unfoldable pub compact_kept : Cache → List Stored → Cache
compact_kept c kept = record c {
  items = renumber order_place 0 kept c.items;
  order = map some kept;
  order_head = 0;
  tombstones = 0;
}

unfoldable pub compact_order : Cache → Cache
compact_order c =
    if ltb order_compact_tombstones c.tombstones && ltb (length c.order) (c.tombstones * 2)
    then compact_kept c (listed c.items (somes c.order))
    else c

-- `expireLocked`
unfoldable pub expire_cache : ℕ → Cache → Cache
expire_cache now c =
    let c' = expire_metadata now c in compact_order (expire_due (length c'.expiries) now c')
