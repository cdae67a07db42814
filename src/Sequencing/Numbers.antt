-- ===== src/Sequencing/Numbers.antt =====
-- The number that `acceptLocked` of internal/broker/broker.go gives a message.
use spruce.Prelude.{
  ℕ, zero, suc, ◌+◌, ◌-◌, ◌≤◌, max, ◌≡◌, refl, ap, subst, ◌≢◌, ◌⊎◌, Bool, true, false, ◌&&◌, none,
  some, [], ◌∷◌, ◌++◌, arith, ltb, length, Str, str_dec, Result, ok, err,
}
use spruce.Prelude.Maps.{Map, find, put, find-put_self}
use spruce.Message.{Message, message_size}
use spruce.Replay.{value_at}
use spruce.Cache.Slots.{somes, somes-snoc}
use spruce.Cache.{Cache, TopicSequence}
use spruce.Cache.Inserts.{new_stored, make_space, add_message, insert_message}
use spruce.Cache.Insertion.{IsValid, insert_message-IsValid}
use spruce.Sequencing.{
  AcceptError, GroupWork, Intake, duplicate, new_sequence, note_insert, store_message,
}

-- Where there is room nothing is evicted.
make_space_idle :
    (fuel now size : ℕ) (c : Cache) → c.bytes + size ≤ c.max_bytes → make_space fuel now size c ≡ c
unfolding make_space
make_space_idle zero now size c h = refl
make_space_idle (suc fuel) now size c h =
    let fits : ltb c.max_bytes (c.bytes + size) ≡ false = ground arith in rw (fits, make_space) refl

pub insert_message-adds :
    (now : ℕ) (c : Cache) (m : Message)
    → find str_dec m.id c.items ≡ none
    → c.bytes + message_size m ≤ c.max_bytes
    → insert_message now c m ≡ (add_message c m, ok true)
unfolding insert_message
insert_message-adds now c m new room =
    let small : ltb c.max_bytes (message_size m) ≡ false = ground arith in
    let accepted : (c.reject_pressure && ltb c.max_bytes (c.bytes + message_size m)) ≡ false =
      ground arith in
    rw
      (
        new,
        small,
        accepted,
        make_space_idle (length c.order - c.order_head) now (message_size m) c room,
        insert_message,
      )
      refl

pub value_at-put_self :
    (k : Str) (v : ℕ) (entries : Map Str ℕ) → value_at k (put str_dec k v entries) ≡ v
unfolding value_at
value_at-put_self k v entries = rw (find-put_self str_dec k v entries, value_at) refl

-- The numbers of a topic before its next message: those it has, or those of a new origin.
abbrev pub Numbers : {W : Type 0} → Intake W → Message → TopicSequence → Type 0
Numbers s m state =
    (find str_dec m.topic s.cache.topic_sequences ≡ some state)
    ⊎ ((find str_dec m.topic s.cache.topic_sequences ≡ none) × (state ≡ new_sequence s))

module _ {W : Type 0} where
  -- A message is stored at the end, all others stay, and the limit on bytes counts those that are
  -- buffered too.
  pub record StoredLast (s s' : Intake W) (m : Message) : Type 0 where
    pub contents : somes s'.cache.order ≡ somes s.cache.order ++ (new_stored s.cache m ∷ [])
    pub bounded : s'.cache.bytes + s'.cache.reorder_bytes ≤ s'.cache.max_bytes
    pub valid : IsValid s.cache → IsValid s'.cache

  -- A message got the next number of its topic, and counts as received.
  pub record Numbered (s s' : Intake W) (m m' : Message) (state : TopicSequence) : Type 0 where
    pub before : Numbers s m state
    pub number : m' ≡ record m { origin = state.origin; sequence = state.next + 1 }
    pub after :
        find str_dec m.topic s'.cache.topic_sequences
        ≡ some
            (record state { next = state.next + 1; expires_at = max state.expires_at m.expires_at })
    pub others :
        (topic : Str)
        → topic ≢ m.topic
        → find str_dec topic s'.cache.topic_sequences ≡ find str_dec topic s.cache.topic_sequences
    pub received : state.next + 1 ≤ value_at state.origin s'.cache.received_through

module _ {W : Type 0} (groups : GroupWork W) (now : ℕ) (s : Intake W) (m : Message)
    (new : find str_dec m.id s.cache.items ≡ none)
    (room : s.cache.bytes + s.cache.reorder_bytes + message_size m ≤ s.cache.max_bytes) where
  -- There is room, so the message is stored and delivered.
  pub store_message-adds :
      store_message groups now s m
      ≡ (record s { cache = add_message s.cache m; work = groups.deliver s.work m }, ok true)
  unfolding store_message note_insert
  store_message-adds =
      ap (note_insert groups s m) (insert_message-adds now s.cache m new (omega arith))

  pub add-StoredLast :
      (w : W) → StoredLast s (record s { cache = add_message s.cache m; work = w }) m
  unfolding add_message
  add-StoredLast w = record {
    contents = somes-snoc s.cache.order (new_stored s.cache m);
    bounded = omega (arith, room);
    valid = λ v.
        unfold add_message in
        subst (λ r. IsValid r.0) (insert_message-adds now s.cache m new (omega arith))
          (insert_message-IsValid now s.cache m v);
  }

module _ {W : Type 0} where
  -- What an accepted message is stored as: itself, or with the number that it got here.
  abbrev pub Named : Intake W → Intake W → Message → Message → Type 0
  Named s s' m m' =
      ((m.origin ≢ []) × (m' ≡ m))
      ⊎ ((m.origin ≡ []) × ((state : TopicSequence) × Numbered s s' m m' state))

  -- What `acceptLocked` ends with, from the state after the expiry.
  abbrev pub Accepted : Intake W → Message → Intake W × Result AcceptError Bool → Type 0
  Accepted s m (s', err e) = s' ≡ s
  Accepted s m (s', ok false) = (s' ≡ duplicate s) × (find str_dec m.id s.cache.items ≢ none)
  Accepted s m (s', ok true) = (m' : Message) × StoredLast s s' m' × Named s s' m m'
