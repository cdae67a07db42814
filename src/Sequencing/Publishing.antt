-- ===== src/Sequencing/Publishing.antt =====
-- `acceptLocked` of internal/broker/broker.go, on a message that a client publishes or a peer hands on.
use spruce.Prelude.{
  ℕ, ◌+◌, ◌≤◌, max, ◌≡◌, refl, sym, subst, ◌≢◌, inl, inr, if_pos, if_neg, Bool, false, not, ◌&&◌,
  none, some, [], ◌∷◌, arith, ltb, leb, Bool-cases, Option-cases, length, str_dec,
}
use spruce.Prelude.Maps.{find, find-put_self, find-put_ne}
use spruce.Message.{Message, message_size}
use spruce.Replay.{value_at}
use spruce.Cache.{Cached, TopicSequence}
use spruce.Cache.Inserts.{add_message}
use spruce.Cache.Expiry.{expire_cache}
use spruce.Sequencing.{
  GroupWork, Intake, record_received, origin_capacity, with_cache, lacks_sequence, number_message,
  new_sequence, assign_sequence, store_message, store_assigned, enter_message, admit_message,
  accept_message,
}
use spruce.Sequencing.Numbers.{
  value_at-put_self, Numbers, store_message-adds, add-StoredLast, Accepted,
}

module _ {W : Type 0} (groups : GroupWork W) (now : ℕ) (s : Intake W) (w : W) (m : Message)
    (new : find str_dec m.id s.cache.items ≡ none)
    (room : s.cache.bytes + s.cache.reorder_bytes + message_size m ≤ s.cache.max_bytes) where
  -- A message with its own number is stored.
  own-Accepted : m.origin ≢ [] → Accepted s m (store_message groups now (record s { work = w }) m)
  own-Accepted foreign =
      subst (Accepted s m) (sym (store_message-adds groups now (record s { work = w }) m new room))
        (
          m,
          (let last = add-StoredLast groups now s m new room in
              let l = last (groups.deliver w m) in
              record { contents = l.contents; bounded = l.bounded; valid = l.valid }),
          inl (foreign, refl),
        )

  -- A message with its new number is stored.
  number-Accepted :
      (n : ℕ) (state : TopicSequence)
      → Numbers s m state
      → m.origin ≡ []
      → Accepted s m (
          store_message groups now
            (number_message now (record s { work = w; minted = n }) m state).0
            (number_message now (record s { work = w; minted = n }) m state).1)
  unfolding number_message record_received message_size
  number-Accepted n state before own =
      let s1 : Intake W = record s { work = w; minted = n } in
      let m' : Message = record m { origin = state.origin; sequence = state.next + 1 } in
      let s2 : Intake W = (number_message now s1 m state).0 in
      subst (Accepted s m) (sym (store_message-adds groups now s2 m' new room)) (
        m',
        (let l = add-StoredLast groups now s2 m' new room (groups.deliver w m') in
            record {
              contents = l.contents;
              bounded = l.bounded;
              valid = λ v.
                  l.valid
                    (record { kept = v.kept; bounded = v.bounded; due = v.due; rising = v.rising });
            }),
        inr (
          own,
          (
            state,
            record {
              before = before;
              number = refl;
              after =
                  unfold add_message in
                  find-put_self str_dec m.topic
                    (record state {
                      next = state.next + 1;
                      expires_at = max state.expires_at m.expires_at;
                    })
                    s.cache.topic_sequences;
              others = λ t ne.
                  unfold add_message in
                  find-put_ne str_dec m.topic t
                    (record state {
                      next = state.next + 1;
                      expires_at = max state.expires_at m.expires_at;
                    })
                    s.cache.topic_sequences ne;
              received =
                  unfold add_message in
                  rw
                    (value_at-put_self state.origin
                      (max (value_at state.origin s.cache.received_through) (state.next + 1))
                      s.cache.received_through)
                    (omega arith);
            },
          ),
        ),
      )

  assign_old :
      (state : TopicSequence)
      → find str_dec m.topic s.cache.topic_sequences ≡ some state
      → assign_sequence now (record s { work = w }) m ≡ (
        (number_message now (record s { work = w }) m state).0,
        some (number_message now (record s { work = w }) m state).1,
      )
  unfolding assign_sequence
  assign_old state e = rw (e, assign_sequence) refl

  assign_new :
      find str_dec m.topic s.cache.topic_sequences ≡ none
      → leb s.cache.frontier_limit (length s.cache.topic_sequences) ≡ false
      → assign_sequence now (record s { work = w }) m ≡ (
        (number_message now (record s { work = w; minted = s.minted + 1 }) m (new_sequence s)).0,
        some
            (number_message now
              (record s { work = w; minted = s.minted + 1 })
              m
              (new_sequence s)).1,
      )
  unfolding assign_sequence new_sequence
  assign_new e free = rw (e, free, assign_sequence) refl

  enter-Accepted :
      (lacks_sequence s.cache m && leb s.cache.frontier_limit (length s.cache.topic_sequences))
        ≡ false
      → Accepted s m (enter_message groups now (record s { work = w }) m)
  unfolding enter_message store_assigned
  enter-Accepted spare = elim (str_dec m.origin []) [
    | no foreign ↦ rw (if_neg (str_dec m.origin []) foreign _ _) (own-Accepted foreign)
    | yes own ↦
        rw (if_pos (str_dec m.origin []) own _ _)
          (elim (Option-cases (find str_dec m.topic s.cache.topic_sequences)) [
            | inr (state, e) ↦
                subst (λ a. Accepted s m (store_assigned groups now a)) (sym (assign_old state e))
                  (number-Accepted s.minted state (inl e) own)
            | inl e ↦
                subst (λ a. Accepted s m (store_assigned groups now a))
                  (sym (assign_new e (free own e)))
                  (number-Accepted (s.minted + 1) (new_sequence s) (inr (e, refl)) own)
          ])
  ]
    where
      free :
          m.origin ≡ []
          → find str_dec m.topic s.cache.topic_sequences ≡ none
          → leb s.cache.frontier_limit (length s.cache.topic_sequences) ≡ false
      free own e = rw (if_pos (str_dec m.origin []) own, e) at spare

admit_message-Accepted :
    {W : Type 0} (groups : GroupWork W) (now : ℕ) (s : Intake W) (m : Message)
    → Accepted s m (admit_message groups now s m)
unfolding admit_message
admit_message-Accepted groups now s m = elim (Bool-cases (ltb s.cache.max_bytes (message_size m))) [
  | inl large ↦ rw (large, admit_message) refl
  | inr small ↦ elim (Option-cases (find str_dec m.id s.cache.items)) [
    | inr (it, e) ↦ rw (small, e, admit_message) (refl, λ n. clash it e n)
    | inl e ↦ elim (Bool-cases full) [
      | inl h ↦ rw (small, e, h, admit_message) refl
      | inr room ↦ elim (Bool-cases spare) [
        | inl h ↦ rw (small, e, room, h, admit_message) refl
        | inr free ↦ elim (Bool-cases (not (origin_capacity s.cache (m ∷ [])))) [
          | inl h ↦ rw (small, e, room, free, h, admit_message) refl
          | inr origins ↦ elim (Option-cases (groups.prepare s.work (m ∷ []))) [
            | inl h ↦ rw (small, e, room, free, origins, h, admit_message) refl
            | inr (w, h) ↦
                rw (small, e, room, free, origins, h, admit_message)
                  (enter-Accepted groups now s w m e (fits room) free)
          ]
        ]
      ]
    ]
  ]
]
  where
    full : Bool
    full = ltb s.cache.max_bytes (s.cache.bytes + s.cache.reorder_bytes + message_size m)

    spare : Bool
    spare = lacks_sequence s.cache m && leb s.cache.frontier_limit (length s.cache.topic_sequences)

    fits :
        ltb s.cache.max_bytes (s.cache.bytes + s.cache.reorder_bytes + message_size m) ≡ false
        → s.cache.bytes + s.cache.reorder_bytes + message_size m ≤ s.cache.max_bytes
    fits h = ground arith

    clash :
        (it : Cached)
        → find str_dec m.id s.cache.items ≡ some it
        → find str_dec m.id s.cache.items ≢ none
    clash it a b = cc

-- Of `acceptLocked` on any message: an error leaves the state as the expiry left it, so that no
-- sequence number, no group work and no bytes are taken; a known ID only counts a duplicate; and a
-- message that is accepted is stored at the end with nothing evicted, within the limit that counts
-- the buffered messages too. If it is published here it has the next number of its topic, which is
-- noted as received, and no other topic's numbers change; from a peer it keeps its own.
pub accept_message-Accepted :
    {W : Type 0} (groups : GroupWork W) (now : ℕ) (s : Intake W) (m : Message)
    → Accepted (with_cache s (expire_cache now s.cache)) m (accept_message groups now s m)
unfolding accept_message
accept_message-Accepted groups now s m =
    admit_message-Accepted groups now (with_cache s (expire_cache now s.cache)) m
