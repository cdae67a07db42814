-- ===== src/Sequencing/Pinned.antt =====
-- An expired message in `acceptReplicatedBatch` of internal/broker/broker.go.
use spruce.Prelude.{
  ℕ, suc, ◌+◌, ◌≤◌, ◌≡◌, refl, ap, ◌∙◌, ◌≢◌, true, false, none, some, List, [], ◌∷◌, arith, ◌==◌,
  le→leb, length, Str, str_dec,
}
use spruce.Prelude.Maps.{find, find-put_self}
use spruce.Message.{Message, message_size}
use spruce.Replay.{value_at}
use spruce.Cache.{Cache}
use spruce.Cache.Expiry.{gaps_of, expire_cache}
use spruce.Sequencing.{GroupWork, Intake, origin_capacity, with_cache}
use spruce.Sequencing.Replicated.{
  valid_sequences, has_key, replicated_bytes, insert_in_sequence, sort_sequences, move_through,
  after_expired, chain_round, go_on, chain, run_chain, receive_message, receive_all,
  admit_replicated, accept_replicated,
}
use spruce.Sequencing.Receipts.{Pinned, expire_times, expire_times-Pinned}

length_pos : (xs : Str) → xs ≢ [] → (length xs == 0) ≡ false
length_pos [] h = absurd (h refl)
length_pos (x ∷ xs) h = ground arith

after_expired_alone :
    (m : Message) (c : Cache)
    → find str_dec m.origin c.reorder ≡ none
    → after_expired m (move_through m c) ≡ (move_through m c, none)
unfolding after_expired move_through
after_expired_alone m c e = rw (e, after_expired) refl

-- A message that is due next and over moves the frontier, where nothing is buffered behind it.
chain_over :
    {W : Type 0} (groups : GroupWork W) (fuel now : ℕ) (s : Intake W) (m : Message)
    → m.expires_at ≤ now
    → find str_dec m.origin s.cache.reorder ≡ none
    → chain groups (suc fuel) now false false m s ≡ (with_cache s (move_through m s.cache), none)
unfolding chain chain_round go_on
chain_over groups fuel now s m over alone =
    let e = after_expired_alone m s.cache alone in
    let past = le→leb m.expires_at now over in ground arith

run_chain_over :
    {W : Type 0} (groups : GroupWork W) (now : ℕ) (s : Intake W) (m : Message)
    → m.expires_at ≤ now
    → find str_dec m.origin s.cache.reorder ≡ none
    → run_chain groups now false m s ≡ (with_cache s (move_through m s.cache), none)
unfolding run_chain gaps_of
run_chain_over groups now s m over alone =
    ap (λ n. chain groups n now false false m s) (omega arith)
    ∙ chain_over groups (length (gaps_of m.origin s.cache.reorder)) now s m over alone

module _ {W : Type 0} (groups : GroupWork W) (now : ℕ) (s : Intake W) (m : Message)
    (named : m.origin ≢ []) (first : m.sequence ≡ 1) (over : m.expires_at ≤ now)
    (unknown : find str_dec m.origin s.cache.received_through ≡ none)
    (unbuffered : find str_dec m.origin s.cache.reorder ≡ none)
    (capacity : origin_capacity s.cache (m ∷ []) ≡ true)
    (room : s.cache.bytes + s.cache.reorder_bytes + message_size m ≤ s.cache.max_bytes) where
  alone-valid : valid_sequences s.cache.max_bytes (m ∷ []) ≡ true
  unfolding valid_sequences
  alone-valid = ground (arith, length_pos m.origin named)

  alone-bytes : replicated_bytes s.cache [] (m ∷ []) ≤ message_size m
  unfolding replicated_bytes has_key
  alone-bytes = ground arith

  receive_first : receive_message groups now s m ≡ (with_cache s (move_through m s.cache), none)
  unfolding receive_message value_at
  receive_first = let e = run_chain_over groups now s m over unbuffered in ground arith

  receive_alone : receive_all groups now (m ∷ []) s ≡ (with_cache s (move_through m s.cache), none)
  unfolding receive_all
  receive_alone = let e = receive_first in ground arith

  admit_first :
      admit_replicated groups now s (m ∷ []) ≡ (with_cache s (move_through m s.cache), none)
  unfolding admit_replicated sort_sequences insert_in_sequence
  admit_first = let b = alone-bytes in let v = alone-valid in let e = receive_alone in ground arith

module _ {W : Type 0} (groups : GroupWork W) (now : ℕ) (s : Intake W) (m : Message)
    (named : m.origin ≢ []) (first : m.sequence ≡ 1) (over : m.expires_at ≤ now)
    (unknown : find str_dec m.origin (expire_cache now s.cache).received_through ≡ none)
    (untimed : find str_dec m.origin (expire_cache now s.cache).received_until ≡ none)
    (unbuffered : find str_dec m.origin (expire_cache now s.cache).reorder ≡ none)
    (capacity : origin_capacity (expire_cache now s.cache) (m ∷ []) ≡ true)
    (room : (expire_cache now s.cache).bytes
        + (expire_cache now s.cache).reorder_bytes
        + message_size m
      ≤ (expire_cache now s.cache).max_bytes) where
  received :
      accept_replicated groups now s (m ∷ [])
      ≡ (with_cache s (move_through m (expire_cache now s.cache)), none)
  unfolding accept_replicated admit_replicated
  received =
      admit_first groups now (with_cache s (expire_cache now s.cache)) m named first over unknown
        unbuffered capacity room

  -- A batch of one message is accepted if the message is the first of a named origin (its sequence number
  -- is 1), its time is over when it arrives, and the cache, as its expiry leaves it, knows neither a
  -- frontier nor a time nor buffered messages of that origin, may note one more origin, and has room
  -- for the message. The receive frontier of the origin is then kept for good: however often and
  -- however late the cache expires what it holds.
  pub accept_replicated-pins :
      ((accept_replicated groups now s (m ∷ [])).1 ≡ none)
      × ((times : List ℕ)
          → find str_dec m.origin
              (expire_times times
                (accept_replicated groups now s (m ∷ [])).0.cache).received_through
            ≡ some 1)
  accept_replicated-pins = rw received (
    refl,
    λ times.
        (expire_times-Pinned times 1 m.origin (move_through m (expire_cache now s.cache)) moved).0,
  )
    where
      moved : Pinned m.origin 1 (move_through m (expire_cache now s.cache))
      moved =
          unfold move_through in
          (
            find-put_self str_dec m.origin _ (expire_cache now s.cache).received_through
                ∙ ap some (unfold value_at in rw (unknown, value_at, first) refl),
            untimed,
          )
