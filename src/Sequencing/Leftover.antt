-- ===== src/Sequencing/Leftover.antt =====
-- A message that comes again while a copy of it is buffered, in `acceptReplicatedBatch` of
-- internal/broker/broker.go.
use spruce.Prelude.{
  ℕ, suc, ◌+◌, ◌≤◌, ◌<◌, max, ◌≡◌, refl, ap, ◌∙◌, false, none, some, [], ◌∷◌, arith, ℕ_discrete,
  leb, ◌==◌, length, str_dec,
}
use spruce.Prelude.Maps.{Map, find}
use spruce.Message.{Message, message_size}
use spruce.Replay.{value_at}
use spruce.Cache.Inserts.{add_message}
use spruce.Cache.Expiry.{gaps_of}
use spruce.Sequencing.{GroupWork, Intake, record_received, gap_at, close_empty}
use spruce.Sequencing.Numbers.{insert_message-adds, value_at-put_self}
use spruce.Sequencing.Replicated.{
  take_next, go_on, count_stored, chain_insert, chain_live, chain_round, chain, run_chain,
  receive_message,
}

found-length :
    (k : ℕ) (m : Message) (gaps : Map ℕ Message)
    → find ℕ_discrete k gaps ≡ some m
    → (length gaps == 0) ≡ false
unfolding find
found-length k m [] h = absurd (cc)
found-length k m (e ∷ gaps) h = ground arith

-- The state after a message is stored.
abbrev stored : {W : Type 0} → GroupWork W → ℕ → Intake W → W → Message → Intake W
stored groups now s w m = record s {
  cache = record_received now (add_message s.cache m) m;
  work = groups.deliver w m;
}

module _ {W : Type 0} (groups : GroupWork W) (now : ℕ) (s : Intake W) (m : Message) (w : W)
    (next : m.sequence ≡ value_at m.origin s.cache.received_through + 1) (live : now < m.expires_at)
    (wanted : groups.prepare s.work (m ∷ []) ≡ some w)
    (new : find str_dec m.id s.cache.items ≡ none)
    (room : s.cache.bytes + message_size m ≤ s.cache.max_bytes)
    (copy : gap_at m.origin m.sequence s.cache ≡ some m)
    (last : gap_at m.origin (m.sequence + 1) s.cache ≡ none) where
  stays-open : take_next m (stored groups now s w m).cache ≡ ((stored groups now s w m).cache, none)
  unfolding take_next close_empty gap_at record_received add_message
  stays-open =
      let l = last in
      let full = found-length m.sequence m (gaps_of m.origin s.cache.reorder) copy in ground arith

  chain-stored :
      (fuel : ℕ) → chain groups (suc fuel) now false false m s ≡ (stored groups now s w m, none)
  unfolding chain chain_round chain_live chain_insert count_stored go_on
  chain-stored fuel =
      let e = insert_message-adds now s.cache m new room in
      let t = stays-open in let d : leb m.expires_at now ≡ false = ground arith in ground arith

  receive-stored : receive_message groups now s m ≡ (stored groups now s w m, none)
  unfolding receive_message run_chain
  receive-stored =
      let e : length (gaps_of m.origin s.cache.reorder) + 1
          ≡ suc (length (gaps_of m.origin s.cache.reorder)) =
        omega arith in
      let t = chain-stored (length (gaps_of m.origin s.cache.reorder)) in
      let t' : chain groups (length (gaps_of m.origin s.cache.reorder) + 1) now false false m s
          ≡ (stored groups now s w m, none) =
        ap (λ n. chain groups n now false false m s) e ∙ t in
      ground arith

  -- A message comes that is the next of its origin and has not expired, while a copy of it is buffered
  -- and no message with the number after it. If the groups take it, its ID is not cached and the cache has room for it,
  -- it is stored and counts as received; but its copy stays buffered, and charged, behind the receive
  -- frontier.
  pub receive_message-leaves :
      ((receive_message groups now s m).1 ≡ none)
      × (m.sequence ≤ value_at m.origin (receive_message groups now s m).0.cache.received_through)
      × (gap_at m.origin m.sequence (receive_message groups now s m).0.cache ≡ some m)
      × ((receive_message groups now s m).0.cache.reorder_bytes ≡ s.cache.reorder_bytes)
      × ((receive_message groups now s m).0.cache.bytes ≡ s.cache.bytes + message_size m)
  unfolding record_received add_message gap_at
  receive_message-leaves = rw receive-stored (
    refl,
    rw
        (value_at-put_self m.origin (max (value_at m.origin s.cache.received_through) m.sequence)
          s.cache.received_through)
        (omega arith),
    copy,
    refl,
    refl,
  )
