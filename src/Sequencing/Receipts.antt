-- ===== src/Sequencing/Receipts.antt =====
-- The receive frontiers under `expireLocked` of internal/broker/broker.go.
use spruce.Prelude.{
  ℕ, zero, suc, ◌≡◌, refl, sym, ap, ◌∙◌, ◌≢◌, inl, inr, if_pos, if_neg, false, ◌&&◌, Option, none,
  some, List, [], ◌∷◌, arith, ℕ_discrete, ltb, leb, ◌==◌, if◌then◌else◌, Bool-cases, Option-cases,
  length, Str, str_dec,
}
use spruce.Prelude.Maps.{Map, find, del, find-del_ne}
use spruce.Message.{Message}
use spruce.Cache.{Cache, Cached, settle_topic, leave_topic, leave_order, take_out, remove_message}
use spruce.Cache.Expiry.{
  gaps_of, forget_origin, forget_origins, clear_gap, expire_gaps, expire_reorder, expire_metadata,
  next_expiry, remove_due, expire_due, compact_kept, compact_order, expire_cache,
}

-- Nothing received is forgotten, and what waits is the same.
pub record SameMemory (c c' : Cache) : Type 0 where
  pub through : c'.received_through ≡ c.received_through
  pub until : c'.received_until ≡ c.received_until
  pub reorder : c'.reorder ≡ c.reorder
  pub bytes : c'.reorder_bytes ≡ c.reorder_bytes

SameMemory-trans : (a b c : Cache) → SameMemory a b → SameMemory b c → SameMemory a c
SameMemory-trans a b c p q = record {
  through = q.through ∙ p.through;
  until = q.until ∙ p.until;
  reorder = q.reorder ∙ p.reorder;
  bytes = q.bytes ∙ p.bytes;
}

take_out-SameMemory : (c : Cache) (it : Cached) → SameMemory c (take_out false c it)
unfolding take_out leave_topic settle_topic leave_order
take_out-SameMemory c it = ground arith

remove_due-SameMemory : (at : ℕ) (ids : List Str) (c : Cache) → SameMemory c (remove_due at ids c)
unfolding remove_due remove_message
remove_due-SameMemory at [] c = record {
  through = refl;
  until = refl;
  reorder = refl;
  bytes = refl;
}
remove_due-SameMemory at (id ∷ ids) c =
    SameMemory-trans c _ _ (one (find str_dec id c.items) refl) (remove_due-SameMemory at ids _)
  where
    one :
        (o : Option Cached)
        → find str_dec id c.items ≡ o
        → SameMemory c (elim o [
          | none ↦ c
          | some it ↦ if it.stored.message.expires_at == at then remove_message at c id false else c
        ])
    one none e = record { through = refl; until = refl; reorder = refl; bytes = refl }
    one (some it) e = elim (Bool-cases (it.stored.message.expires_at == at)) [
      | inr h ↦ rw h (record { through = refl; until = refl; reorder = refl; bytes = refl })
      | inl h ↦ rw (h, e, remove_message) (take_out-SameMemory c it)
    ]

expire_due-SameMemory : (fuel now : ℕ) (c : Cache) → SameMemory c (expire_due fuel now c)
unfolding expire_due
expire_due-SameMemory zero now c = record {
  through = refl;
  until = refl;
  reorder = refl;
  bytes = refl;
}
expire_due-SameMemory (suc fuel) now c = elim (Option-cases (next_expiry c.expiries)) [
  | inl e ↦
      rw (e, expire_due) (record { through = refl; until = refl; reorder = refl; bytes = refl })
  | inr (top, e) ↦ elim (Bool-cases (leb top.0 now)) [
    | inr h ↦
        rw (e, h, expire_due)
          (record { through = refl; until = refl; reorder = refl; bytes = refl })
    | inl h ↦
        let popped : Cache = record c { expiries = del ℕ_discrete top.0 c.expiries } in
        let a = remove_due-SameMemory top.0 top.1 popped in
        rw (e, h, expire_due)
          (SameMemory-trans c (remove_due top.0 top.1 popped) _
            (record { through = a.through; until = a.until; reorder = a.reorder; bytes = a.bytes })
            (expire_due-SameMemory fuel now (remove_due top.0 top.1 popped)))
  ]
]

compact_order-SameMemory : (c : Cache) → SameMemory c (compact_order c)
unfolding compact_order compact_kept
compact_order-SameMemory c = ground arith

-- The expiry of messages and the compaction.
pub expire_due-SameMemory_compacted :
    (now : ℕ) (c : Cache) → SameMemory c (compact_order (expire_due (length c.expiries) now c))
expire_due-SameMemory_compacted now c =
    SameMemory-trans c _ _ (expire_due-SameMemory (length c.expiries) now c)
      (compact_order-SameMemory (expire_due (length c.expiries) now c))

-- Nothing received is forgotten.
record SameReceipts (c c' : Cache) : Type 0 where
  pub through : c'.received_through ≡ c.received_through
  pub until : c'.received_until ≡ c.received_until

SameReceipts-trans : (a b c : Cache) → SameReceipts a b → SameReceipts b c → SameReceipts a c
SameReceipts-trans a b c p q = record { through = q.through ∙ p.through; until = q.until ∙ p.until }

expire_gaps-SameReceipts :
    (now : ℕ) (origin : Str) (gaps : Map ℕ Message) (c : Cache)
    → SameReceipts c (expire_gaps now origin gaps c)
unfolding expire_gaps clear_gap
expire_gaps-SameReceipts now origin gaps c = ground arith

expire_reorder-SameReceipts :
    (now : ℕ) (es : List (Str × Map ℕ Message)) (c : Cache)
    → SameReceipts c (expire_reorder now es c)
unfolding expire_reorder
expire_reorder-SameReceipts now [] c = record { through = refl; until = refl }
expire_reorder-SameReceipts now (e ∷ es) c =
    SameReceipts-trans c (expire_gaps now e.0 e.1 c) _ (expire_gaps-SameReceipts now e.0 e.1 c)
      (expire_reorder-SameReceipts now es (expire_gaps now e.0 e.1 c))

-- An origin that has a frontier and no time until which it is kept.
abbrev pub Pinned : Str → ℕ → Cache → Type 0
Pinned origin n c =
    (find str_dec origin c.received_through ≡ some n)
    × (find str_dec origin c.received_until ≡ none)

SameReceipts-Pinned :
    (origin : Str) (n : ℕ) (c c' : Cache)
    → SameReceipts c c'
    → Pinned origin n c
    → Pinned origin n c'
SameReceipts-Pinned origin n c c' s p =
    (ap (find str_dec origin) s.through ∙ p.0, ap (find str_dec origin) s.until ∙ p.1)

forget_origin-Pinned :
    (now n : ℕ) (origin : Str) (e : Str × ℕ) (c : Cache)
    → origin ≢ e.0
    → Pinned origin n c
    → Pinned origin n (forget_origin now e c)
unfolding forget_origin
forget_origin-Pinned now n origin e c ne p =
    elim (Bool-cases (leb e.1 now && length (gaps_of e.0 c.reorder) == 0)) [
      | inr h ↦ rw (h, forget_origin) p
      | inl h ↦
          rw (h, forget_origin)
            (
              find-del_ne str_dec e.0 origin c.received_through ne ∙ p.0,
              find-del_ne str_dec e.0 origin c.received_until ne ∙ p.1,
            )
    ]

forget_origins-Pinned :
    (now n : ℕ) (origin : Str) (es : List (Str × ℕ)) (c : Cache)
    → find str_dec origin es ≡ none
    → Pinned origin n c
    → Pinned origin n (forget_origins now es c)
unfolding forget_origins find
forget_origins-Pinned now n origin [] c missing p = p
forget_origins-Pinned now n origin (e ∷ es) c missing p = elim (str_dec origin e.0) [
  | yes same ↦
      absurd (ground (arith, if_pos (str_dec origin e.0) same (some e.1) (find str_dec origin es)))
  | no ne ↦
      forget_origins-Pinned now n origin es (forget_origin now e c)
        (sym (if_neg (str_dec origin e.0) ne (some e.1) (find str_dec origin es)) ∙ missing)
        (forget_origin-Pinned now n origin e c ne p)
]

expire_cache-Pinned :
    (now n : ℕ) (origin : Str) (c : Cache)
    → Pinned origin n c
    → Pinned origin n (expire_cache now c)
unfolding expire_cache expire_metadata
expire_cache-Pinned now n origin c p = elim (Bool-cases (ltb now c.next_metadata_expiry)) [
  | inl early ↦ rest c (rw (early, expire_metadata) p)
  | inr late ↦ rest c (
      rw (late, expire_metadata)
        (SameReceipts-Pinned origin n _ _ (expire_reorder-SameReceipts now c.reorder _)
          (forget_origins-Pinned now n origin c.received_until c p.1 p)))
]
  where
    rest :
        (d : Cache) → Pinned origin n (expire_metadata now d) → Pinned origin n (expire_cache now d)
    rest d q =
        let d' = expire_metadata now d in
        let m = expire_due-SameMemory_compacted now d' in
        SameReceipts-Pinned origin n d' (compact_order (expire_due (length d'.expiries) now d'))
          (record { through = m.through; until = m.until }) q

-- Expiry at one time after another.
unfoldable pub expire_times : List ℕ → Cache → Cache
expire_times [] c = c
expire_times (t ∷ ts) c = expire_times ts (expire_cache t c)

pub expire_times-Pinned :
    (ts : List ℕ) (n : ℕ) (origin : Str) (c : Cache)
    → Pinned origin n c
    → Pinned origin n (expire_times ts c)
unfolding expire_times
expire_times-Pinned [] n origin c p = p
expire_times-Pinned (t ∷ ts) n origin c p =
    expire_times-Pinned ts n origin (expire_cache t c) (expire_cache-Pinned t n origin c p)
