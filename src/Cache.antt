-- ===== src/Cache.antt =====
-- The message cache of internal/broker/broker.go: `cache`, `removeLocked` and the lists that it keeps. Messages are shared through pointers; a message that
-- the cache holds is named by its ID, since `items` has one for each ID. Its fields `orderIndex`,
-- `topicIndex` and `repairOrdinal` stand in Cached and Stored. Byte counts are sums of sizes below
-- `maxBytes`, an int64. Insertion, expiry and the readers are in Inserts, Expiry and Pages.
pub mod Agreement
pub mod Inserts
pub mod Dropping
pub mod Popping
pub mod Slots
pub mod Expiry
pub mod Pages
pub mod Keeping
pub mod Removal
pub mod Due
pub mod Room
pub mod Insertion
pub mod Compaction
pub mod Expiring
pub mod Expired
pub mod Paging
pub mod Walk
pub mod Shelf
mod Examples
use spruce.Prelude.{
  ℕ, zero, suc, ◌+◌, ◌-◌, ◌*◌, ◌/◌, ◌%◌, ◌^◌, ◌≤◌, ◌<◌, min, max, ◌≡◌, refl, sym, ap, subst, ◌∙◌,
  ◌≢◌, ◌⊎◌, inl, inr, ite, if_pos, if_neg, Bool, true, false, not, ◌&&◌, ◌||◌, Option, none, some,
  List, [], ◌∷◌, ◌++◌, map, append_assoc, append-nil, arith, dec_lt, dec_le, ℕ_discrete, ltb, leb,
  ◌==◌, if◌then◌else◌, tests, Bool-cases, Option-cases, some_inj, le→leb, length, get_elem?, take,
  drop, length-append, All, All-map, All-zip, All-drop_mid, All-snoc, sum_by, sum_by-append, Str,
  str_dec, Result, ok, err, ◌>>=◌, ◌>>◌, fail_if, bind_ok, passed,
}
use spruce.Prelude.Maps.{Map, find, put, del}
use spruce.Message.{Message, message_size}
use spruce.Replay.{Marks, mark_unsafe, value_at}
use spruce.Cache.Slots.{Pointers, somes, clear}

-- A message, and its `repairOrdinal`.
pub record Stored : Type 0 where
  pub message : Message
  pub ordinal : ℕ

-- A message with its places in `order` and in the list of its topic.
pub record Cached : Type 0 where
  pub stored : Stored
  pub order_index : ℕ
  pub topic_index : ℕ

pub record Frontier : Type 0 where
  pub sequences : Map Str ℕ
  pub expires_at : ℕ

pub record TopicSequence : Type 0 where
  pub origin : Str
  pub next : ℕ
  pub expires_at : ℕ

-- `cache`. The expiry heap and its items are one map from a time to the IDs that expire then.
pub record Cache : Type 0 where
  pub items : Map Str Cached
  pub order : Pointers Stored
  pub order_head : ℕ
  pub tombstones : ℕ
  pub expiries : Map ℕ (List Str)
  pub topics : Map Str (Pointers Stored)
  pub topic_tombstones : Map Str ℕ
  pub frontiers : Map Str Frontier
  pub frontier_limit : ℕ
  pub unsafe : Marks
  pub topic_sequences : Map Str TopicSequence
  pub received_through : Map Str ℕ
  pub received_until : Map Str ℕ
  pub next_metadata_expiry : ℕ
  pub reorder : Map Str (Map ℕ Message)
  pub reorder_since : Map Str ℕ
  pub reorder_bytes : ℕ
  pub reorder_limit : ℕ
  pub bytes : ℕ
  pub next_ordinal : ℕ
  pub max_bytes : ℕ
  pub reject_pressure : Bool
  pub evicted : ℕ
  pub expired : ℕ

-- `newCache`
unfoldable pub new_cache : ℕ → Cache
new_cache limit = record {
  items = [];
  order = [];
  order_head = 0;
  tombstones = 0;
  expiries = [];
  topics = [];
  topic_tombstones = [];
  frontiers = [];
  frontier_limit = max (limit / 128) 1024;
  unsafe = [];
  topic_sequences = [];
  received_through = [];
  received_until = [];
  next_metadata_expiry = 0;
  reorder = [];
  reorder_since = [];
  reorder_bytes = 0;
  reorder_limit = 4096;
  bytes = 0;
  next_ordinal = 0;
  max_bytes = limit;
  reject_pressure = false;
  evicted = 0;
  expired = 0;
}

abbrev pub id_of : Stored → Str
id_of s = s.message.id

abbrev pub size_of : Stored → ℕ
size_of s = message_size s.message

-- "frontier-capacity"
abbrev frontier_capacity : Str
frontier_capacity =
    102 ∷ 114 ∷ 111 ∷ 110 ∷ 116 ∷ 105 ∷ 101 ∷ 114 ∷ 45 ∷ 99 ∷ 97 ∷ 112 ∷ 97 ∷ 99 ∷ 105 ∷ 116 ∷ 121
    ∷ []

-- "frontier-origins"
abbrev frontier_origins : Str
frontier_origins =
    102 ∷ 114 ∷ 111 ∷ 110 ∷ 116 ∷ 105 ∷ 101 ∷ 114 ∷ 45 ∷ 111 ∷ 114 ∷ 105 ∷ 103 ∷ 105 ∷ 110 ∷ 115
    ∷ []

unfoldable pub mark : Cache → Message → Str → Cache
mark c m source = record c {
  unsafe = mark_unsafe c.frontier_limit c.unsafe m.topic source m.expires_at;
}

-- The frontiers of topics with history left at this time.
unfoldable pub live_frontiers : ℕ → Map Str Frontier → Map Str Frontier
live_frontiers now [] = []
live_frontiers now (f ∷ fs) =
    if leb f.1.expires_at now then live_frontiers now fs else f ∷ live_frontiers now fs

-- A frontier notes at most 256 origins.
unfoldable pub extend_frontier : Cache → Message → Frontier → Cache
extend_frontier c m f =
    let f' : Frontier = record {
      sequences = put str_dec m.origin (max (value_at m.origin f.sequences) m.sequence) f.sequences;
      expires_at = max f.expires_at m.expires_at;
    } in
    let c' = record c { frontiers = put str_dec m.topic f' c.frontiers } in
    elim (find str_dec m.origin f.sequences) [
      | some _ ↦ c'
      | none ↦ if leb 256 (length f.sequences) then mark c m frontier_origins else c'
    ]

abbrev no_frontier : Frontier
no_frontier = record { sequences = []; expires_at = 0 }

-- What `removeLocked` notes of a message that is removed under pressure.
unfoldable pub record_frontier : ℕ → Cache → Message → Cache
record_frontier now c m = ite (str_dec m.origin []) c (elim (find str_dec m.topic c.frontiers) [
  | some f ↦ extend_frontier c m f
  | none ↦
      let left =
        if leb c.frontier_limit (length c.frontiers)
        then live_frontiers now c.frontiers
        else c.frontiers in
      let c' = record c { frontiers = left } in
      if leb c.frontier_limit (length left)
      then mark c' m frontier_capacity
      else extend_frontier c' m no_frontier
])

-- Whether the slot points to the message with this ID.
unfoldable pub points_at : Str → Option (Option Stored) → Bool
points_at id slot = elim slot [
  | none ↦ false
  | some none ↦ false
  | some (some s) ↦ ite (str_dec s.message.id id) true false
]

abbrev pub order_place : ℕ → Cached → Cached
order_place i it = record it { order_index = i }

abbrev pub topic_place : ℕ → Cached → Cached
topic_place i it = record it { topic_index = i }

-- Compaction gives each message that is left its new place.
unfoldable pub renumber : (ℕ → Cached → Cached) → ℕ → List Stored → Map Str Cached → Map Str Cached
renumber place i [] items = items
renumber place i (s ∷ ss) items =
    renumber place (i + 1) ss (elim (find str_dec s.message.id items) [
      | none ↦ items
      | some it ↦ put str_dec s.message.id (place i it) items
    ])

abbrev pub topic_compact_tombstones : ℕ
topic_compact_tombstones = 256

unfoldable pub topic_list : Str → Map Str (Pointers Stored) → Pointers Stored
topic_list topic topics = elim (find str_dec topic topics) [ none ↦ [] | some slots ↦ slots ]

unfoldable pub set_topic :
    Str → Pointers Stored → Map Str (Pointers Stored) → Map Str (Pointers Stored)
set_topic topic slots topics = elim slots [
  | [] ↦ del str_dec topic topics
  | s ∷ ss ↦ put str_dec topic (s ∷ ss) topics
]

-- The list of a topic after one of its messages has left, with the count of empty slots.
unfoldable pub settle_topic : Cache → Str → Pointers Stored → ℕ → Cache
settle_topic c topic slots holes =
    if holes == length slots
    then record c {
      topics = del str_dec topic c.topics;
      topic_tombstones = del str_dec topic c.topic_tombstones;
    }
    else if ltb topic_compact_tombstones holes && ltb (length slots) (holes * 2)
    then record c {
      items = renumber topic_place 0 (somes slots) c.items;
      topics = set_topic topic (map some (somes slots)) c.topics;
      topic_tombstones = del str_dec topic c.topic_tombstones;
    }
    else record c {
      topics = put str_dec topic slots c.topics;
      topic_tombstones = put str_dec topic holes c.topic_tombstones;
    }

unfoldable pub leave_topic : Cache → Cached → Cache
leave_topic c it =
    let topic = it.stored.message.topic in
    let slots = topic_list topic c.topics in
    if points_at it.stored.message.id (get_elem? slots it.topic_index)
    then settle_topic c topic (clear it.topic_index slots) (value_at topic c.topic_tombstones + 1)
    else c

unfoldable pub leave_order : Cache → Cached → Cache
leave_order c it =
    if points_at it.stored.message.id (get_elem? c.order it.order_index)
    then record c { order = clear it.order_index c.order; tombstones = c.tombstones + 1 }
    else c

unfoldable pub without : Str → List Str → List Str
without id [] = []
without id (x ∷ xs) = ite (str_dec x id) (without id xs) (x ∷ without id xs)

-- `unlinkExpiryLocked`. The item of a time that the loop over the heap has popped is gone.
unfoldable pub unlink_expiry : ℕ → Str → Map ℕ (List Str) → Map ℕ (List Str)
unlink_expiry at id expiries = elim (find ℕ_discrete at expiries) [
  | none ↦ expiries
  | some ids ↦ elim (without id ids) [
    | [] ↦ del ℕ_discrete at expiries
    | x ∷ xs ↦ put ℕ_discrete at (x ∷ xs) expiries
  ]
]

-- The rest of `removeLocked`, for an item that is there.
unfoldable pub take_out : Bool → Cache → Cached → Cache
take_out pressure c it =
    let m = it.stored.message in
    let c' = record c { items = del str_dec m.id c.items } in
    let c'' = leave_topic (leave_order c' it) it in
    record c'' {
      expiries = unlink_expiry m.expires_at m.id c''.expiries;
      bytes = c''.bytes - message_size m;
      evicted = if pressure then c''.evicted + 1 else c''.evicted;
      expired = if pressure then c''.expired else c''.expired + 1;
    }

-- `removeLocked`
unfoldable pub remove_message : ℕ → Cache → Str → Bool → Cache
remove_message now c id pressure = elim (find str_dec id c.items) [
  | none ↦ c
  | some it ↦ take_out pressure (if pressure then record_frontier now c it.stored.message else c) it
]
