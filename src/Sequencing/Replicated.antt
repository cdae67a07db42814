-- ===== src/Sequencing/Replicated.antt =====
-- `acceptReplicatedBatch` of internal/broker/broker.go: what a peer sends, in any order.
use spruce.Prelude.{
  Result, ok, err, ℕ, zero, suc, ◌+◌, ◌-◌, ◌/◌, max, ite, Bool, true, false, not, ◌&&◌, ◌||◌,
  Option, none, some, List, [], ◌∷◌, ℕ_discrete, ltb, leb, ◌==◌, if◌then◌else◌, length, Str,
  str_dec, ok, err, passed,
}
use spruce.Prelude.Maps.{find, put, del}
use spruce.Message.{Message, message_size}
use spruce.Replay.{value_at}
use spruce.Cache.{Cache, mark}
use spruce.Cache.Inserts.{CacheError, insert_message}
use spruce.Cache.Expiry.{expire_cache, gaps_of, gap_source}
use spruce.Sequencing.{
  AcceptError, retention_full, invalid_sequence, sequence_missing, GroupWork, Intake,
  record_received, origin_capacity, gap_at, take_gap, close_gap, close_empty, of_cache_error,
  with_cache, duplicate,
}
use spruce.Sequencing.Batches.{return_gap}

unfoldable pub valid_sequences : ℕ → List Message → Bool
valid_sequences limit [] = true
valid_sequences limit (m ∷ ms) =
    if length m.origin == 0 || m.sequence == 0 || ltb limit (message_size m)
    then false
    else valid_sequences limit ms

unfoldable pub same_key : Message → Message → Bool
same_key m n = ite (str_dec m.origin n.origin) (m.sequence == n.sequence) false

unfoldable pub has_key : Message → List Message → Bool
has_key m [] = false
has_key m (n ∷ ns) = same_key m n || has_key m ns

-- The bytes that the batch may add, each sequence number counted once.
unfoldable pub replicated_bytes : Cache → List Message → List Message → ℕ
replicated_bytes c seen [] = 0
replicated_bytes c seen (m ∷ ms) =
    let rest = replicated_bytes c (if has_key m seen then seen else m ∷ seen) ms in
    if has_key m seen then rest else elim (find str_dec m.id c.items) [
      | some _ ↦ rest
      | none ↦ elim (gap_at m.origin m.sequence c) [
        | some _ ↦ rest
        | none ↦
            if ltb (value_at m.origin c.received_through) m.sequence
            then message_size m + rest
            else rest
      ]
    ]

-- Whether one string is before another, byte by byte.
unfoldable pub str_before : Str → Str → Bool
str_before [] [] = false
str_before [] (y ∷ ys) = true
str_before (x ∷ xs) [] = false
str_before (x ∷ xs) (y ∷ ys) = ltb x y || (x == y && str_before xs ys)

unfoldable pub sequence_before : Message → Message → Bool
sequence_before m n =
    ite (str_dec m.origin n.origin) (ltb m.sequence n.sequence) (str_before m.origin n.origin)

-- The stable sort by origin and sequence.
unfoldable pub insert_in_sequence : Message → List Message → List Message
insert_in_sequence m [] = m ∷ []
insert_in_sequence m (n ∷ ns) =
    if sequence_before n m then n ∷ insert_in_sequence m ns else m ∷ n ∷ ns

unfoldable pub sort_sequences : List Message → List Message
sort_sequences [] = []
sort_sequences (m ∷ ms) = insert_in_sequence m (sort_sequences ms)

-- "overflow:" and the origin
unfoldable pub overflow_source : Str → Str
overflow_source origin = 111 ∷ 118 ∷ 101 ∷ 114 ∷ 102 ∷ 108 ∷ 111 ∷ 119 ∷ 58 ∷ origin

-- A message that is buffered leaves the gaps, where it is there.
unfoldable pub drop_gap : Message → Cache → Cache
drop_gap m c = elim (gap_at m.origin m.sequence c) [ none ↦ c | some _ ↦ take_gap m.origin m c ]

-- An expired message moves the receive frontier.
unfoldable pub move_through : Message → Cache → Cache
move_through m c = record c {
  received_through =
      put str_dec m.origin (max (value_at m.origin c.received_through) m.sequence)
        c.received_through;
}

-- The next of the chain after an expired message, or the end of the gaps.
unfoldable pub after_expired : Message → Cache → Cache × Option Message
after_expired m c = elim (find str_dec m.origin c.reorder) [
  | none ↦ (c, none)
  | some _ ↦
      let c' = drop_gap m c in
      if length (gaps_of m.origin c'.reorder) == 0
      then (close_gap m.origin m.topic c', none)
      else (c', gap_at m.origin (m.sequence + 1) c')
]

-- A live message goes back to the gaps where it was buffered before.
unfoldable pub keep_gap : Bool → Message → Cache → Cache
keep_gap buffered m c =
    if buffered then mark (return_gap m.origin m c) m (gap_source m.origin) else c

-- The next of the chain after a message that was stored.
unfoldable pub take_next : Message → Cache → Cache × Option Message
take_next m c = elim (gap_at m.origin (m.sequence + 1) c) [
  | none ↦ (close_empty m.origin m.topic c, none)
  | some next ↦
      let c' = record c {
        reorder =
            put str_dec m.origin (del ℕ_discrete (m.sequence + 1) (gaps_of m.origin c.reorder))
              c.reorder;
        reorder_bytes = c.reorder_bytes - message_size next;
      } in
      (close_empty m.origin m.topic c', some next)
]

module _ {W : Type 0} where
  -- A message that is ahead of its origin waits.
  unfoldable pub buffer_message : ℕ → Intake W → Message → Intake W × Option AcceptError
  buffer_message now s m =
      let c = s.cache in
      let gaps = gaps_of m.origin c.reorder in
      let c' = record c { reorder = put str_dec m.origin gaps c.reorder } in
      elim (find ℕ_discrete m.sequence gaps) [
        | some _ ↦ (duplicate (with_cache s c'), none)
        | none ↦
            if leb c.reorder_limit (length gaps)
              || ltb (c.max_bytes / 4) (c.reorder_bytes + message_size m)
            then (
              record s { cache = mark c' m (overflow_source m.origin); dropped = s.dropped + 1 },
              some retention_full,
            )
            else (
              with_cache s (
                  mark
                    (record c {
                      reorder = put str_dec m.origin (put ℕ_discrete m.sequence m gaps) c.reorder;
                      reorder_since =
                          if value_at m.origin c.reorder_since == 0
                          then put str_dec m.origin now c.reorder_since
                          else c.reorder_since;
                      reorder_bytes = c.reorder_bytes + message_size m;
                    })
                    m (gap_source m.origin)),
              none,
            )
      ]

-- How a round of the loop over the gaps ends: with the call, or with the message that is due next and
-- the flag `fromGap`.
pub data Round (W : Type 0) : Type 0 where
  ended : Intake W → Option AcceptError → Round W
  onward : Bool → Message → Intake W → Round W

module _ {W : Type 0} where
  unfoldable pub go_on : Bool → Intake W → Cache × Option Message → Round W
  go_on from_gap s (c, none) = ended (with_cache s c) none
  go_on from_gap s (c, some n) = onward from_gap n (with_cache s c)

module _ {W : Type 0} (groups : GroupWork W) where
  unfoldable pub count_stored : ℕ → Message → W → Bool → Intake W → Cache → Intake W
  count_stored now m w inserted s c =
      let s' = record s { cache = record_received now c m; work = w } in
      if inserted then record s' { work = groups.deliver w m } else duplicate s'

  unfoldable pub chain_insert :
      ℕ → Bool → Message → Intake W → W → Cache × Result CacheError Bool → Round W
  chain_insert now from_gap m s w (c, err e) =
      ended (record s { cache = c; work = w }) (some (of_cache_error e))
  chain_insert now from_gap m s w (c, ok inserted) =
      let s' = count_stored now m w inserted s c in go_on from_gap s' (take_next m s'.cache)

  unfoldable pub chain_live : ℕ → Bool → Bool → Message → Intake W → Cache → Round W
  chain_live now from_gap passed m s c = elim (groups.prepare s.work (m ∷ [])) [
    | none ↦ ended (with_cache s (keep_gap (passed || from_gap) m c)) (some retention_full)
    | some w ↦ chain_insert now from_gap m s w (insert_message now c m)
  ]

  unfoldable pub chain_round : ℕ → Bool → Bool → Message → Intake W → Round W
  chain_round now from_gap passed m s =
      let c = if from_gap then drop_gap m s.cache else s.cache in
      if leb m.expires_at now
      then go_on true s (after_expired m (move_through m c))
      else chain_live now from_gap passed m s c

  -- The loop from a message that is due next over the gaps behind it, with one more than the number of
  -- the buffered messages as fuel. `passed` says that the first message of the loop has been passed.
  unfoldable pub chain : ℕ → ℕ → Bool → Bool → Message → Intake W → Intake W × Option AcceptError
  chain zero now from_gap passed m s = (s, none)
  chain (suc fuel) now from_gap passed m s = elim (chain_round now from_gap passed m s) [
    | ended s' e ↦ (s', e)
    | onward from_gap' n s' ↦ chain fuel now from_gap' true n s'
  ]

  unfoldable pub run_chain : ℕ → Bool → Message → Intake W → Intake W × Option AcceptError
  run_chain now from_gap m s =
      chain (length (gaps_of m.origin s.cache.reorder) + 1) now from_gap false m s

  -- A message that has been received, which may release one that waits.
  unfoldable pub receive_again : ℕ → Intake W → Message → Intake W × Option AcceptError
  receive_again now s m =
      let through = value_at m.origin s.cache.received_through in
      elim (gap_at m.origin (through + 1) s.cache) [
        | none ↦ (s, none)
        | some next ↦
            let s' = with_cache s (take_gap m.origin next s.cache) in
            if ltb (through + 1) next.sequence
            then buffer_message now s' next
            else run_chain now true next s'
      ]

  unfoldable pub receive_message : ℕ → Intake W → Message → Intake W × Option AcceptError
  receive_message now s m =
      let through = value_at m.origin s.cache.received_through in
      if leb m.sequence through
      then elim (find str_dec m.id s.cache.items) [
        | some _ ↦ receive_again now (duplicate s) m
        | none ↦ if ltb now m.expires_at then (s, some sequence_missing) else receive_again now s m
      ]
      else if ltb (through + 1) m.sequence
      then buffer_message now s m
      else run_chain now false m s

  unfoldable pub receive_all : ℕ → List Message → Intake W → Intake W × Option AcceptError
  receive_all now [] s = (s, none)
  receive_all now (m ∷ ms) s =
      let (s', r) = receive_message now s m in
      let rest = receive_all now ms s' in elim r [ none ↦ rest | some e ↦ (s', some e) ]

  unfoldable pub admit_replicated : ℕ → Intake W → List Message → Intake W × Option AcceptError
  admit_replicated now s ms =
      let c = s.cache in
      if not (valid_sequences c.max_bytes ms)
      then (s, some invalid_sequence)
      else if not (origin_capacity c ms)
          || ltb c.max_bytes (c.bytes + c.reorder_bytes + replicated_bytes c [] ms)
      then (s, some retention_full)
      else receive_all now (sort_sequences ms) s

  -- `acceptReplicatedBatch`
  unfoldable pub accept_replicated : ℕ → Intake W → List Message → Intake W × Option AcceptError
  accept_replicated now s ms = admit_replicated now (with_cache s (expire_cache now s.cache)) ms
