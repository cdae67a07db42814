-- ===== src/Sequencing.antt =====
-- Sequence numbers of published messages: `acceptLocked`, `acceptBatchLocked` and
-- `drainContiguousLocked` of internal/broker/broker.go, and internal/broker/origin_memory.go. The
-- work of the consumer groups and the delivery to subscribers are an interface, GroupWork, since the
-- sequencing only calls them. The cache lock is held throughout, and one reading of the clock stands
-- for those of a call. What peers send is in the child Replicated.
pub mod Numbers
pub mod Receipts
pub mod Batches
pub mod Replicated
pub mod Publishing
pub mod Pinned
pub mod Leftover
pub mod Untouched
pub mod Buffers
pub mod Overdue
pub mod Gaps
pub mod Chains
pub mod Receiving
mod Examples
use spruce.Prelude.{
  ℕ, zero, suc, ◌+◌, ◌-◌, ◌*◌, ◌/◌, ◌%◌, ◌^◌, ◌≤◌, ◌<◌, min, max, ◌≡◌, refl, sym, ap, subst, ◌∙◌,
  ◌≢◌, ◌⊎◌, inl, inr, ite, if_pos, if_neg, Bool, true, false, not, ◌&&◌, ◌||◌, Option, none, some,
  List, [], ◌∷◌, ◌++◌, map, append_assoc, append-nil, arith, dec_lt, dec_le, ℕ_discrete, ltb, leb,
  ◌==◌, if◌then◌else◌, tests, Bool-cases, Option-cases, some_inj, le→leb, length, get_elem?, take,
  drop, length-append, All, All-map, All-zip, All-drop_mid, All-snoc, sum_by, sum_by-append, Str,
  str_dec, Result, ok, err, ◌>>=◌, ◌>>◌, fail_if, bind_ok, passed,
}
use spruce.Prelude.Maps.{Map, find, put, del}
use spruce.Message.{Message, message_size}
use spruce.Replay.{value_at, clear_unsafe}
use spruce.Cache.{Cache, Cached, TopicSequence, mark}
use spruce.Cache.Inserts.{CacheError, insert_message, insert_batch}
use spruce.Cache.Expiry.{expire_cache, gaps_of, gap_source}
use spruce.Cache.Pages.{batch_within}

pub data AcceptError : Type 0 where
  too_large : AcceptError
  retention_full : AcceptError
  no_topic_sequence : AcceptError
  invalid_sequence : AcceptError
  sequence_missing : AcceptError

-- What the sequencing asks of the consumer groups: `prepareGroupWork`, which fails for want of
-- capacity only and then changes nothing, and `deliver`.
pub record GroupWork (W : Type 0) : Type 0 where
  pub prepare : W → List Message → Option W
  pub deliver : W → Message → W

-- The fields of `Broker` that are used here.
pub record Intake (W : Type 0) : Type 0 where
  pub cache : Cache
  pub work : W
  pub origin : Str
  pub minted : ℕ
  pub duplicates : ℕ
  pub dropped : ℕ

-- `recordReceivedLocked`
unfoldable pub record_received : ℕ → Cache → Message → Cache
record_received now c m = record c {
  received_through =
      put str_dec m.origin (max (value_at m.origin c.received_through) m.sequence)
        c.received_through;
  received_until =
      put str_dec m.origin (max (value_at m.origin c.received_until) m.expires_at) c.received_until;
  reorder_since =
      if ltb 0 (length (gaps_of m.origin c.reorder))
      then put str_dec m.origin now c.reorder_since
      else c.reorder_since;
}

-- "local:" and the topic
unfoldable pub local_origin : Str → Str
local_origin topic = 108 ∷ 111 ∷ 99 ∷ 97 ∷ 108 ∷ 58 ∷ topic

-- The origin under which a message will be received.
unfoldable pub origin_of : Cache → Message → Str
origin_of c m = elim m.origin [
  | x ∷ xs ↦ x ∷ xs
  | [] ↦ elim (find str_dec m.topic c.topic_sequences) [
    | some state ↦ state.origin
    | none ↦ local_origin m.topic
  ]
]

unfoldable pub add_to : Str → List Str → List Str
add_to x [] = x ∷ []
add_to x (y ∷ ys) = ite (str_dec x y) (y ∷ ys) (y ∷ add_to x ys)

unfoldable pub new_origins : Cache → List Message → List Str
new_origins c [] = []
new_origins c (m ∷ ms) =
    let rest = new_origins c ms in
    elim (find str_dec (origin_of c m) c.received_through) [
      | some _ ↦ rest
      | none ↦ add_to (origin_of c m) rest
    ]

-- `originCapacityLocked`
unfoldable pub origin_capacity : Cache → List Message → Bool
origin_capacity c ms =
    leb (length c.received_through + length ms) c.frontier_limit
    || leb (length c.received_through + length (new_origins c ms)) c.frontier_limit

-- `strconv.FormatUint(n, 36)`
unfoldable pub digit36 : ℕ → ℕ
digit36 d = if ltb d 10 then 48 + d else 87 + d

unfoldable pub base36_onto : ℕ → ℕ → Str → Str
base36_onto zero n out = out
base36_onto (suc fuel) n out =
    let more = base36_onto fuel (n / 36) (digit36 (n % 36) ∷ out) in
    if ltb n 36 then digit36 n ∷ out else more

-- A uint64 has at most 13 digits.
unfoldable pub base36 : ℕ → Str
base36 n = base36_onto 13 n []

-- "sequence-capacity"
abbrev sequence_capacity : Str
sequence_capacity =
    115 ∷ 101 ∷ 113 ∷ 117 ∷ 101 ∷ 110 ∷ 99 ∷ 101 ∷ 45 ∷ 99 ∷ 97 ∷ 112 ∷ 97 ∷ 99 ∷ 105 ∷ 116 ∷ 121
    ∷ []

unfoldable pub gap_at : Str → ℕ → Cache → Option Message
gap_at origin sequence c = find ℕ_discrete sequence (gaps_of origin c.reorder)

-- A buffered message leaves the gaps of its origin.
unfoldable pub take_gap : Str → Message → Cache → Cache
take_gap origin m c = record c {
  reorder = put str_dec origin (del ℕ_discrete m.sequence (gaps_of origin c.reorder)) c.reorder;
  reorder_bytes = c.reorder_bytes - message_size m;
}

-- No message of the origin is buffered any more.
unfoldable pub close_gap : Str → Str → Cache → Cache
close_gap origin topic c = record c {
  reorder = del str_dec origin c.reorder;
  reorder_since = del str_dec origin c.reorder_since;
  unsafe = clear_unsafe c.unsafe topic (gap_source origin);
}

unfoldable pub close_empty : Str → Str → Cache → Cache
close_empty origin topic c =
    if length (gaps_of origin c.reorder) == 0 then close_gap origin topic c else c

unfoldable pub of_cache_error : CacheError → AcceptError
of_cache_error CacheError.exceeds_capacity = too_large
of_cache_error CacheError.retention_capacity = retention_full

-- A message that is published here, to a topic without numbers.
abbrev pub lacks_sequence : Cache → Message → Bool
lacks_sequence c m =
    ite (str_dec m.origin [])
      (elim (find str_dec m.topic c.topic_sequences) [ none ↦ true | some _ ↦ false ]) false

module _ {W : Type 0} where
  abbrev pub with_cache : Intake W → Cache → Intake W
  with_cache s c = record s { cache = c }

  unfoldable pub duplicate : Intake W → Intake W
  duplicate s = record s { duplicates = s.duplicates + 1 }

  -- The next number of a topic, for a message that has none yet.
  unfoldable pub number_message : ℕ → Intake W → Message → TopicSequence → Intake W × Message
  number_message now s m state =
      let m' = record m { origin = state.origin; sequence = state.next + 1 } in
      let state' = record state {
        next = state.next + 1;
        expires_at = max state.expires_at m.expires_at;
      } in
      let c = s.cache in
      (
        with_cache s (
            record_received now
              (record c { topic_sequences = put str_dec m.topic state' c.topic_sequences }) m'),
        m',
      )

  -- The origin of a topic that has none yet.
  unfoldable pub new_sequence : Intake W → TopicSequence
  new_sequence s = record {
    origin = s.origin ++ (46 ∷ base36 (s.minted + 1));
    next = 0;
    expires_at = 0;
  }

  -- The sequence number of a message that is published here.
  unfoldable pub assign_sequence : ℕ → Intake W → Message → Intake W × Option Message
  assign_sequence now s m = elim (find str_dec m.topic s.cache.topic_sequences) [
    | some state ↦ let (s', m') = number_message now s m state in (s', some m')
    | none ↦
        if leb s.cache.frontier_limit (length s.cache.topic_sequences)
        then (with_cache s (mark s.cache m sequence_capacity), none)
        else (let (s', m') =
              number_message now (record s { minted = s.minted + 1 }) m (new_sequence s) in
            (s', some m'))
  ]

module _ {W : Type 0} (groups : GroupWork W) where
  -- What follows an insertion: delivery, or a count.
  unfoldable pub note_insert :
      Intake W → Message → Cache × Result CacheError Bool → Intake W × Result AcceptError Bool
  note_insert s m (c, err e) = (with_cache s c, err (of_cache_error e))
  note_insert s m (c, ok false) = (duplicate (with_cache s c), ok false)
  note_insert s m (c, ok true) = (record s { cache = c; work = groups.deliver s.work m }, ok true)

  -- The end of `acceptLocked`.
  unfoldable pub store_message : ℕ → Intake W → Message → Intake W × Result AcceptError Bool
  store_message now s m = note_insert s m (insert_message now s.cache m)

  unfoldable pub store_assigned : ℕ → Intake W × Option Message → Intake W × Result AcceptError Bool
  store_assigned now (s, none) = (s, err no_topic_sequence)
  store_assigned now (s, some m) = store_message now s m

  unfoldable pub enter_message : ℕ → Intake W → Message → Intake W × Result AcceptError Bool
  enter_message now s m =
      ite (str_dec m.origin []) (store_assigned now (assign_sequence now s m))
        (store_message now s m)

  -- `acceptLocked` after the expiry.
  unfoldable pub admit_message : ℕ → Intake W → Message → Intake W × Result AcceptError Bool
  admit_message now s m =
      let c = s.cache in
      if ltb c.max_bytes (message_size m)
      then (s, err too_large)
      else elim (find str_dec m.id c.items) [
        | some _ ↦ (duplicate s, ok false)
        | none ↦
            if ltb c.max_bytes (c.bytes + c.reorder_bytes + message_size m)
            then (s, err retention_full)
            else if lacks_sequence c m && leb c.frontier_limit (length c.topic_sequences)
            then (s, err no_topic_sequence)
            else if not (origin_capacity c (m ∷ []))
            then (s, err retention_full)
            else elim (groups.prepare s.work (m ∷ [])) [
              | none ↦ (s, err retention_full)
              | some w ↦ enter_message now (record s { work = w }) m
            ]
      ]

  -- `acceptLocked`
  unfoldable pub accept_message : ℕ → Intake W → Message → Intake W × Result AcceptError Bool
  accept_message now s m = admit_message now (with_cache s (expire_cache now s.cache)) m
