-- ===== src/Sequencing/Receiving.antt =====
-- `acceptReplicatedBatch` of internal/broker/broker.go, on the buffered messages.
use spruce.Prelude.{
  ℕ, ◌+◌, ap, subst, ◌∙◌, inl, inr, Bool, true, false, not, ◌||◌, Option, none, some, List, [], ◌∷◌,
  ltb, leb, Bool-cases, Option-cases, All, str_dec,
}
use spruce.Prelude.Maps.{find}
use spruce.Message.{Message}
use spruce.Replay.{value_at}
use spruce.Sequencing.{
  origin_capacity, AcceptError, GroupWork, Intake, gap_at, take_gap, with_cache, duplicate,
}
use spruce.Sequencing.Buffers.{Numbering, Agrees, Buffers}
use spruce.Sequencing.Replicated.{
  run_chain, receive_again, receive_message, receive_all, insert_in_sequence, sort_sequences,
  admit_replicated, accept_replicated, sequence_before, valid_sequences, replicated_bytes,
}
use spruce.Cache.Expiry.{expire_cache}
use spruce.Sequencing.Overdue.{expire_cache-Buffers}
use spruce.Sequencing.Gaps.{keyed_same, take_gap-Buffers, buffer_message-Buffers}
use spruce.Sequencing.Chains.{chain-Buffers}

module _ {W : Type 0} (groups : GroupWork W) (truth : Numbering) (now : ℕ) where
  run_chain-Buffers :
      (from_gap : Bool) (m : Message) (s : Intake W)
      → Agrees truth m
      → Buffers truth s.cache
      → Buffers truth (run_chain groups now from_gap m s).0.cache
  unfolding run_chain
  run_chain-Buffers from_gap m s own v =
      chain-Buffers groups truth now _ from_gap false m s own v (λ a b. cc)

  receive_again-Buffers :
      (s : Intake W) (m : Message)
      → Buffers truth s.cache
      → Buffers truth (receive_again groups now s m).0.cache
  unfolding receive_again
  receive_again-Buffers s m v =
      elim (Option-cases
        (gap_at m.origin (value_at m.origin s.cache.received_through + 1) s.cache)) [
          | inl e ↦ rw (e, receive_again) v
          | inr (n, e) ↦
              let (a, b, own) = keyed_same truth m.origin _ n s.cache v e in
              let taken : Buffers truth (take_gap m.origin n s.cache) =
                subst (λ o. Buffers truth (take_gap o n s.cache)) b
                  (take_gap-Buffers truth n s.cache v (
                    ap (λ o. gap_at o n.sequence s.cache) b
                    ∙ ap (λ k. gap_at m.origin k s.cache) a
                    ∙ e)).0 in
              elim (Bool-cases (ltb (value_at m.origin s.cache.received_through + 1) n.sequence)) [
                | inl h ↦
                    rw (e, h, receive_again)
                      (buffer_message-Buffers truth now (with_cache s (take_gap m.origin n s.cache))
                        n own taken)
                | inr h ↦
                    rw (e, h, receive_again)
                      (run_chain-Buffers true n (with_cache s (take_gap m.origin n s.cache)) own
                        taken)
              ]
        ]

  receive_message-Buffers :
      (s : Intake W) (m : Message)
      → Agrees truth m
      → Buffers truth s.cache
      → Buffers truth (receive_message groups now s m).0.cache
  unfolding receive_message
  receive_message-Buffers s m own v =
      elim (Bool-cases (leb m.sequence (value_at m.origin s.cache.received_through))) [
        | inl old ↦ elim (Option-cases (find str_dec m.id s.cache.items)) [
          | inr (it, e) ↦
              rw (old, e, receive_message)
                (receive_again-Buffers (duplicate s) m (unfold duplicate in v))
          | inl e ↦ elim (Bool-cases (ltb now m.expires_at)) [
            | inl h ↦ rw (old, e, h, receive_message) v
            | inr h ↦ rw (old, e, h, receive_message) (receive_again-Buffers s m v)
          ]
        ]
        | inr new ↦
            elim (Bool-cases (ltb (value_at m.origin s.cache.received_through + 1) m.sequence)) [
              | inl h ↦ rw (new, h, receive_message) (buffer_message-Buffers truth now s m own v)
              | inr h ↦ rw (new, h, receive_message) (run_chain-Buffers false m s own v)
            ]
      ]

  receive_all-Buffers :
      (ms : List Message) (s : Intake W)
      → All (Agrees truth) ms
      → Buffers truth s.cache
      → Buffers truth (receive_all groups now ms s).0.cache
  unfolding receive_all
  receive_all-Buffers [] s own v = v
  receive_all-Buffers (m ∷ ms) s own v =
      cases (receive_message groups now s m).1 (receive_message-Buffers s m own.0 v)
        (receive_all-Buffers ms (receive_message groups now s m).0 own.1)
    where
      cases :
          (r : Option AcceptError)
          → Buffers truth (receive_message groups now s m).0.cache
          → (Buffers truth (receive_message groups now s m).0.cache
              → Buffers truth
                  (receive_all groups now ms (receive_message groups now s m).0).0.cache)
          → Buffers truth
              (elim r as (λ _. Intake W × Option AcceptError) [
                | none ↦ receive_all groups now ms (receive_message groups now s m).0
                | some e ↦ ((receive_message groups now s m).0, some e)
              ]).0.cache
      cases none k ih = ih k
      cases (some e) k ih = k

insert-All :
    (truth : Numbering) (m : Message) (ms : List Message)
    → Agrees truth m
    → All (Agrees truth) ms
    → All (Agrees truth) (insert_in_sequence m ms)
unfolding insert_in_sequence
insert-All truth m [] own all = (own, tt)
insert-All truth m (n ∷ ns) own all = elim (Bool-cases (sequence_before n m)) [
  | inl h ↦ rw (h, insert_in_sequence) (all.0, insert-All truth m ns own all.1)
  | inr h ↦ rw (h, insert_in_sequence) (own, all)
]

sort-All :
    (truth : Numbering) (ms : List Message)
    → All (Agrees truth) ms
    → All (Agrees truth) (sort_sequences ms)
unfolding sort_sequences
sort-All truth [] all = tt
sort-All truth (m ∷ ms) all = insert-All truth m (sort_sequences ms) all.0 (sort-All truth ms all.1)

admit_replicated-Buffers :
    {W : Type 0} (groups : GroupWork W) (truth : Numbering) (now : ℕ) (s : Intake W)
    (ms : List Message)
    → All (Agrees truth) ms
    → Buffers truth s.cache
    → Buffers truth (admit_replicated groups now s ms).0.cache
unfolding admit_replicated
admit_replicated-Buffers groups truth now s ms own v =
    elim (Bool-cases (not (valid_sequences s.cache.max_bytes ms))) [
      | inl h ↦ rw (h, admit_replicated) v
      | inr valid ↦
          elim (Bool-cases (
            not (origin_capacity s.cache ms)
            || ltb s.cache.max_bytes
                (s.cache.bytes + s.cache.reorder_bytes + replicated_bytes s.cache [] ms))) [
                  | inl h ↦ rw (valid, h, admit_replicated) v
                  | inr h ↦
                      rw (valid, h, admit_replicated)
                        (receive_all-Buffers groups truth now (sort_sequences ms) s
                          (sort-All truth ms own) v)
                ]
    ]

-- Where all copies of a message are the same, a batch from a peer, whether it is accepted whole, in
-- part or not, and in whatever order its messages come, keeps the buffers in order, through the
-- expiry at its start too: each buffered message stands once, under its own origin and number, and
-- the count of buffered bytes is exactly that of these messages.
pub accept_replicated-Buffers :
    {W : Type 0} (groups : GroupWork W) (truth : Numbering) (now : ℕ) (s : Intake W)
    (ms : List Message)
    → All (Agrees truth) ms
    → Buffers truth s.cache
    → Buffers truth (accept_replicated groups now s ms).0.cache
unfolding accept_replicated
accept_replicated-Buffers groups truth now s ms own v =
    admit_replicated-Buffers groups truth now (with_cache s (expire_cache now s.cache)) ms own
      (expire_cache-Buffers truth now s.cache v)
