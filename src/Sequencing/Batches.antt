-- ===== src/Sequencing/Batches.antt =====
-- `drainContiguousLocked` and `acceptBatchLocked` of internal/broker/broker.go.
use spruce.Prelude.{
  ℕ, zero, suc, ◌+◌, ite, Bool, true, false, not, ◌&&◌, ◌||◌, Option, none, some, List, [], ◌∷◌,
  ℕ_discrete, ltb, leb, ◌==◌, if◌then◌else◌, length, Str, str_dec, ok, err,
}
use spruce.Prelude.Maps.{Map, find, put}
use spruce.Message.{Message, message_size}
use spruce.Replay.{value_at}
use spruce.Cache.{Cache, mark}
use spruce.Cache.Inserts.{insert_message, insert_batch}
use spruce.Cache.Expiry.{expire_cache, gaps_of}
use spruce.Cache.Pages.{batch_within}
use spruce.Sequencing.{
  AcceptError, too_large, retention_full, no_topic_sequence, GroupWork, Intake, record_received,
  add_to, origin_capacity, gap_at, take_gap, close_gap, close_empty, of_cache_error, with_cache,
  duplicate, assign_sequence, lacks_sequence,
}

-- An expired message uses up its number.
unfoldable pub pass_over : Str → Message → Cache → Cache
pass_over origin m c = record c {
  received_through = put str_dec origin m.sequence c.received_through;
  received_until =
      if ltb (value_at origin c.received_until) m.expires_at
      then put str_dec origin m.expires_at c.received_until
      else c.received_until;
}

-- A message that could not be stored stays buffered.
unfoldable pub return_gap : Str → Message → Cache → Cache
return_gap origin m c = record c {
  reorder = put str_dec origin (put ℕ_discrete m.sequence m (gaps_of origin c.reorder)) c.reorder;
  reorder_bytes = c.reorder_bytes + message_size m;
}

abbrev no_gaps : Str → Cache → Bool
no_gaps origin c = length (gaps_of origin c.reorder) == 0

unfoldable pub new_topics : Cache → List Message → List Str
new_topics c [] = []
new_topics c (m ∷ ms) =
    let rest = new_topics c ms in if lacks_sequence c m then add_to m.topic rest else rest

-- Whether the message is buffered already, so that a repair moves it.
unfoldable pub is_buffered : Cache → Message → Bool
is_buffered c m = elim (gap_at m.origin m.sequence c) [
  | none ↦ false
  | some b ↦ ite (str_dec b.id m.id) true false
]

-- The bytes that a batch adds to those that are held.
unfoldable pub added_bytes : Bool → Cache → List Message → ℕ
added_bytes repair c [] = 0
added_bytes repair c (m ∷ ms) =
    let rest = added_bytes repair c ms in
    elim (find str_dec m.id c.items) [
      | some _ ↦ rest
      | none ↦ if repair && is_buffered c m then rest else message_size m + rest
    ]

-- "repair:" and the origin
unfoldable pub repair_source : Str → Str
repair_source origin = 114 ∷ 101 ∷ 112 ∷ 97 ∷ 105 ∷ 114 ∷ 58 ∷ origin

-- What a repair does about the gaps before a message of its page.
unfoldable pub repair_gap : Message → Cache → Cache
repair_gap m c =
    let c' = if is_buffered c m then close_empty m.origin m.topic (take_gap m.origin m c) else c in
    if ltb (value_at m.origin c'.received_through + 1) m.sequence
    then mark c' m (repair_source m.origin)
    else c'

module _ {W : Type 0} where
  -- The number of one message of a batch: that of the stored one, a new one, or its own.
  unfoldable pub number_one : Bool → ℕ → Intake W → Message → Intake W × Option Message
  number_one repair now s m =
      let c = if repair then repair_gap m s.cache else s.cache in
      elim (find str_dec m.id c.items) [
        | some it ↦ (
          with_cache s c,
          some (record m {
            origin = it.stored.message.origin;
            sequence = it.stored.message.sequence;
          }),
        )
        | none ↦
            ite (str_dec m.origin []) (assign_sequence now (with_cache s c) m)
              (with_cache s (record_received now c m), some m)
      ]

  unfoldable pub number_all : Bool → ℕ → List Message → Intake W → Intake W × Option (List Message)
  number_all repair now [] s = (s, some [])
  number_all repair now (m ∷ ms) s =
      let (s', r) = number_one repair now s m in
      let (s'', rs) = number_all repair now ms s' in
      elim r [
        | none ↦ (s', none)
        | some m' ↦ (s'', elim rs [ none ↦ none | some ms' ↦ some (m' ∷ ms') ])
      ]

module _ {W : Type 0} (groups : GroupWork W) where
  -- What follows the insertion of a buffered message.
  unfoldable pub promote : ℕ → Message → Bool → Intake W → Intake W
  promote now m inserted s =
      let s' = with_cache s (record_received now s.cache m) in
      if inserted then record s' { work = groups.deliver s'.work m } else duplicate s'

  -- `drainContiguousLocked`, with the number of the buffered messages as fuel.
  unfoldable pub drain : ℕ → ℕ → Str → Intake W → Intake W × Option AcceptError
  drain zero now origin s = (s, none)
  drain (suc fuel) now origin s =
      elim (gap_at origin (value_at origin s.cache.received_through + 1) s.cache) [
        | none ↦ (s, none)
        | some m ↦
            let c = take_gap origin m s.cache in
            elim (leb m.expires_at now) [
              | true ↦
                  let c' = pass_over origin m c in
                  elim (no_gaps origin c') [
                    | true ↦ (with_cache s (close_gap origin m.topic c'), none)
                    | false ↦ drain fuel now origin (with_cache s c')
                  ]
              | false ↦ elim (groups.prepare s.work (m ∷ [])) [
                | none ↦ (s, some retention_full)
                | some w ↦
                    let (c', r) = insert_message now c m in
                    elim r [
                      | err e ↦ (
                        record s { work = w; cache = return_gap origin m c' },
                        some (of_cache_error e),
                      )
                      | ok inserted ↦
                          let s' = promote now m inserted (record s { work = w; cache = c' }) in
                          elim (no_gaps origin s'.cache) [
                            | true ↦ (with_cache s' (close_gap origin m.topic s'.cache), none)
                            | false ↦ drain fuel now origin s'
                          ]
                    ]
              ]
            ]
      ]

  unfoldable pub drain_origin : ℕ → Str → Intake W → Intake W × Option AcceptError
  drain_origin now origin s = drain (length (gaps_of origin s.cache.reorder)) now origin s

  -- Want of capacity ends the drain of an origin; any other error ends the call.
  unfoldable pub drain_all :
      ℕ → List (Str × Map ℕ Message) → Intake W → Intake W × Option AcceptError
  drain_all now [] s = (s, none)
  drain_all now (e ∷ es) s =
      let (s', r) = drain_origin now e.0 s in
      let rest = drain_all now es s' in
      elim r [ none ↦ rest | some retention_full ↦ rest | some other ↦ (s', some other) ]

  unfoldable pub deliver_all : List Message → List Bool → Intake W → Intake W
  deliver_all [] bs s = s
  deliver_all (m ∷ ms) [] s = s
  deliver_all (m ∷ ms) (b ∷ bs) s =
      deliver_all ms bs (if b then record s { work = groups.deliver s.work m } else duplicate s)

  -- `acceptBatchLocked` once the batch is admitted.
  unfoldable pub enter_batch : Bool → ℕ → Intake W → List Message → Intake W × Option AcceptError
  enter_batch repair now s ms =
      let (s', r) = number_all repair now ms s in
      elim r [
        | none ↦ (s', some no_topic_sequence)
        | some ms' ↦
            let (c, inserted) = insert_batch now s'.cache ms' in
            let s'' = deliver_all ms' inserted (with_cache s' c) in
            drain_all now s''.cache.reorder s''
      ]

  -- `acceptBatchLocked` after the expiry.
  unfoldable pub admit_batch : Bool → ℕ → Intake W → List Message → Intake W × Option AcceptError
  admit_batch repair now s ms =
      let c = s.cache in
      if not (batch_within c.max_bytes 0 ms)
      then (s, some too_large)
      else if ltb c.frontier_limit (length c.topic_sequences + length (new_topics c ms))
      then (s, some no_topic_sequence)
      else if ltb c.max_bytes (c.bytes + c.reorder_bytes + added_bytes repair c ms)
          || not (origin_capacity c ms)
      then (s, some retention_full)
      else elim (groups.prepare s.work ms) [
        | none ↦ (s, some retention_full)
        | some w ↦ enter_batch repair now (record s { work = w }) ms
      ]

  -- `acceptBatchLocked`
  unfoldable pub accept_batch : Bool → ℕ → Intake W → List Message → Intake W × Option AcceptError
  accept_batch repair now s ms = admit_batch repair now (with_cache s (expire_cache now s.cache)) ms
