-- ===== src/Sequencing/Gaps.antt =====
-- `acceptReplicatedBatch` of internal/broker/broker.go, on the buffered messages.
use spruce.Prelude.{
  ℕ, ◌+◌, ◌-◌, ◌/◌, ◌≡◌, refl, sym, ap, ◌∙◌, inl, inr, Bool, true, false, ◌||◌, Option, none, some,
  [], ◌∷◌, arith, ℕ_discrete, ltb, leb, ◌==◌, Bool-cases, Option-cases, length, Str, str_dec,
}
use spruce.Prelude.Maps.{Map, find, put, del, find-del_self}
use spruce.Message.{Message, message_size}
use spruce.Cache.{Cache, mark}
use spruce.Cache.Expiry.{gaps_of, gap_bytes}
use spruce.Sequencing.{Intake, record_received, gap_at, take_gap, close_gap, close_empty, duplicate}
use spruce.Sequencing.Batches.{return_gap}
use spruce.Sequencing.Buffers.{
  Numbering, Agrees, Buffers, take-IsBuffered, join-IsBuffered, same-IsBuffered, del-IsBuffered,
  gaps_of-put_self, gaps_of-del_self, gaps_of-del_ne,
}
use spruce.Sequencing.Untouched.{SameBuffers}
use spruce.Sequencing.Replicated.{drop_gap, after_expired, keep_gap, take_next, buffer_message}

pub SameBuffers-Buffers :
    (truth : Numbering) (c c' : Cache) → SameBuffers c c' → Buffers truth c → Buffers truth c'
SameBuffers-Buffers truth c c' s v = rw (s.reorder, s.bytes) v

-- What a message of the gaps is.
pub keyed_same :
    (truth : Numbering) (o : Str) (k : ℕ) (m : Message) (c : Cache)
    → Buffers truth c
    → gap_at o k c ≡ some m
    → (m.sequence ≡ k) × (m.origin ≡ o) × Agrees truth m
unfolding gap_at
keyed_same truth o k m c v h = v.keyed o k m h

pub take_gap-Buffers :
    (truth : Numbering) (m : Message) (c : Cache)
    → Buffers truth c
    → gap_at m.origin m.sequence c ≡ some m
    → Buffers truth (take_gap m.origin m c)
      × (gap_at m.origin m.sequence (take_gap m.origin m c) ≡ none)
unfolding take_gap gap_at
take_gap-Buffers truth m c v h = (
  take-IsBuffered truth m.origin m.sequence m c v (unfold gap_at in h),
  ap (find ℕ_discrete m.sequence) (gaps_of-put_self m.origin _ c.reorder)
      ∙ find-del_self ℕ_discrete m.sequence (gaps_of m.origin c.reorder),
)

-- A message that agrees with the gaps is not buffered after it is dropped.
pub drop_gap-Buffers :
    (truth : Numbering) (m : Message) (c : Cache)
    → Agrees truth m
    → Buffers truth c
    → Buffers truth (drop_gap m c) × (gap_at m.origin m.sequence (drop_gap m c) ≡ none)
unfolding drop_gap
drop_gap-Buffers truth m c own v = elim (Option-cases (gap_at m.origin m.sequence c)) [
  | inl e ↦ rw (e, drop_gap) (v, e)
  | inr (n, e) ↦
      let (a, b, agrees) = keyed_same truth m.origin m.sequence n c v e in
      let same : n ≡ m =
        agrees ∙ ap (λ o. truth o n.sequence) b ∙ ap (truth m.origin) a ∙ sym own in
      rw (e, drop_gap) (take_gap-Buffers truth m c v (e ∙ ap some same))
]

empty_counts : (b : ℕ) (gaps : Map ℕ Message) → (length gaps == 0) ≡ true → b + gap_bytes gaps ≡ b
unfolding gap_bytes
empty_counts b [] h = omega arith
empty_counts b (e ∷ es) h = absurd (ground arith)

close_empty-Buffers :
    (truth : Numbering) (o topic : Str) (c : Cache)
    → Buffers truth c
    → Buffers truth (close_empty o topic c)
unfolding close_empty close_gap
close_empty-Buffers truth o topic c v = elim (Bool-cases (length (gaps_of o c.reorder) == 0)) [
  | inr h ↦ rw (h, close_empty) v
  | inl h ↦
      rw (h, close_empty)
        (del-IsBuffered truth o c.reorder c.reorder_bytes c.reorder_bytes v
          (empty_counts c.reorder_bytes (gaps_of o c.reorder) h))
]

-- The next message of a chain agrees with its place.
abbrev pub NextAgrees : Numbering → Message → Option Message → Type 0
NextAgrees truth m none = Unit {0}
NextAgrees truth m (some n) = Agrees truth n

pub after_expired-Buffers :
    (truth : Numbering) (m : Message) (c : Cache)
    → Agrees truth m
    → Buffers truth c
    → Buffers truth (after_expired m c).0 × NextAgrees truth m (after_expired m c).1
unfolding after_expired close_gap
after_expired-Buffers truth m c own v = elim (Option-cases (find str_dec m.origin c.reorder)) [
  | inl e ↦ rw (e, after_expired) (v, tt)
  | inr (g, e) ↦
      let d = drop_gap-Buffers truth m c own v in
      elim (Bool-cases (length (gaps_of m.origin (drop_gap m c).reorder) == 0)) [
        | inl h ↦
            rw (e, h, after_expired)
              (
                del-IsBuffered truth m.origin (drop_gap m c).reorder (drop_gap m c).reorder_bytes
                    (drop_gap m c).reorder_bytes d.0
                    (empty_counts (drop_gap m c).reorder_bytes
                      (gaps_of m.origin (drop_gap m c).reorder) h),
                tt,
              )
        | inr h ↦
            rw (e, h, after_expired)
              (d.0, next (gap_at m.origin (m.sequence + 1) (drop_gap m c)) refl d.0)
      ]
]
  where
    next :
        (o : Option Message)
        → gap_at m.origin (m.sequence + 1) (drop_gap m c) ≡ o
        → Buffers truth (drop_gap m c)
        → NextAgrees truth m o
    next none e d = tt
    next (some n) e d = (keyed_same truth m.origin (m.sequence + 1) n (drop_gap m c) d e).2

-- The next message of a chain agrees, and waits no more.
abbrev pub NextTaken : Numbering → Cache → Option Message → Type 0
NextTaken truth c none = Unit {0}
NextTaken truth c (some n) = Agrees truth n × (gap_at n.origin n.sequence c ≡ none)

close_empty-none :
    (o p topic : Str) (k : ℕ) (c : Cache)
    → gap_at p k c ≡ none
    → gap_at p k (close_empty o topic c) ≡ none
unfolding close_empty close_gap gap_at
close_empty-none o p topic k c h = elim (Bool-cases (length (gaps_of o c.reorder) == 0)) [
  | inr e ↦ rw (e, close_empty) h
  | inl e ↦
      rw (e, close_empty)
        (elim (str_dec p o) [
          | yes same ↦
              ap (λ x. find ℕ_discrete k (gaps_of x (del str_dec o c.reorder))) same
              ∙ ap (find ℕ_discrete k) (gaps_of-del_self o c.reorder)
              ∙ (unfold find in refl)
          | no ne ↦ ap (find ℕ_discrete k) (gaps_of-del_ne o p c.reorder ne) ∙ h
        ])
]

pub take_next-Buffers :
    (truth : Numbering) (m : Message) (c : Cache)
    → Buffers truth c
    → Buffers truth (take_next m c).0 × NextTaken truth (take_next m c).0 (take_next m c).1
unfolding take_next
take_next-Buffers truth m c v = elim (Option-cases (gap_at m.origin (m.sequence + 1) c)) [
  | inl e ↦ rw (e, take_next) (close_empty-Buffers truth m.origin m.topic c v, tt)
  | inr (n, e) ↦
      let (a, b, agrees) = keyed_same truth m.origin (m.sequence + 1) n c v e in
      rw (e, take_next)
        (
          close_empty-Buffers truth m.origin m.topic _
              (take-IsBuffered truth m.origin (m.sequence + 1) n c v e),
          (agrees, close_empty-none m.origin n.origin m.topic n.sequence _ (taken n a b)),
        )
]
  where
    taken :
        (n : Message)
        → n.sequence ≡ m.sequence + 1
        → n.origin ≡ m.origin
        → gap_at n.origin n.sequence (record c {
          reorder =
              put str_dec m.origin
                (del ℕ_discrete (m.sequence + 1) (gaps_of m.origin c.reorder))
                c.reorder;
          reorder_bytes = c.reorder_bytes - message_size n;
        })
          ≡ none
    taken n a b =
        unfold gap_at in
        rw
          (
            a,
            b,
            gaps_of-put_self m.origin (del ℕ_discrete (m.sequence + 1) (gaps_of m.origin c.reorder))
                c.reorder,
          )
          (find-del_self ℕ_discrete (m.sequence + 1) (gaps_of m.origin c.reorder))

mark-Buffers :
    (truth : Numbering) (c : Cache) (m : Message) (source : Str)
    → Buffers truth c
    → Buffers truth (mark c m source)
unfolding mark
mark-Buffers truth c m source v = v

pub buffer_message-Buffers :
    {W : Type 0} (truth : Numbering) (now : ℕ) (s : Intake W) (m : Message)
    → Agrees truth m
    → Buffers truth s.cache
    → Buffers truth (buffer_message now s m).0.cache
unfolding buffer_message mark duplicate
buffer_message-Buffers truth now s m own v =
    elim (Option-cases (find ℕ_discrete m.sequence (gaps_of m.origin s.cache.reorder))) [
      | inr (n, e) ↦ rw (e, buffer_message) (same-IsBuffered truth m.origin s.cache v)
      | inl e ↦
          elim (Bool-cases (
            leb s.cache.reorder_limit (length (gaps_of m.origin s.cache.reorder))
            || ltb (s.cache.max_bytes / 4) (s.cache.reorder_bytes + message_size m))) [
              | inl h ↦ rw (e, h, buffer_message) (same-IsBuffered truth m.origin s.cache v)
              | inr h ↦
                  rw (e, h, buffer_message)
                    (join-IsBuffered truth m s.cache v own (unfold gap_at in e))
            ]
    ]

pub keep_gap-Buffers :
    (truth : Numbering) (buffered : Bool) (m : Message) (c : Cache)
    → Agrees truth m
    → Buffers truth c
    → (buffered ≡ true → gap_at m.origin m.sequence c ≡ none)
    → Buffers truth (keep_gap buffered m c)
unfolding keep_gap mark return_gap
keep_gap-Buffers truth true m c own v h = join-IsBuffered truth m c v own (h refl)
keep_gap-Buffers truth false m c own v h = v

record_received-Buffers :
    (truth : Numbering) (now : ℕ) (c : Cache) (m : Message)
    → Buffers truth c
    → Buffers truth (record_received now c m)
unfolding record_received
record_received-Buffers truth now c m v = v
