-- ===== src/Sequencing/Overdue.antt =====
-- `expireLocked` of internal/broker/broker.go on the buffered messages: the loop over `reorder`.
use spruce.Prelude.{
  ℕ, ◌+◌, ◌-◌, ◌≤◌, ◌≡◌, refl, sym, ap, subst, ◌∙◌, ◌≢◌, inl, inr, none, some, List, [], ◌∷◌, arith,
  Bool-cases, ℕ_discrete, ltb, leb, Str, str_dec, if_pos, ite, if_neg, Option, length,
}
use spruce.Prelude.Maps.{Map, find, Distinct, find-put_ne, find-del_ne}
use spruce.Message.{Message}
use spruce.Replay.{clear_unsafe}
use spruce.Cache.{Cache}
use spruce.Cache.Expiry.{
  gaps_of, gap_bytes, gap_topic, gap_source, live_gaps, clear_gap, expire_gaps, expire_reorder,
  forget_origin, forget_origins, expire_metadata, expire_due, compact_order, expire_cache,
}
use spruce.Sequencing.Buffers.{
  Numbering, IsBuffered, Buffers, put-IsBuffered, del-IsBuffered, total-del,
}
use spruce.Sequencing.Receipts.{expire_due-SameMemory_compacted}

live_gaps-absent :
    (now k : ℕ) (gaps : Map ℕ Message)
    → find ℕ_discrete k gaps ≡ none
    → find ℕ_discrete k (live_gaps now gaps) ≡ none
unfolding find live_gaps
live_gaps-absent now k [] h = refl
live_gaps-absent now k (e ∷ es) h = ground (arith, live_gaps-absent now k es)

live_gaps-Distinct :
    (now : ℕ) (gaps : Map ℕ Message)
    → Distinct ℕ_discrete gaps
    → Distinct ℕ_discrete (live_gaps now gaps)
unfolding live_gaps
live_gaps-Distinct now [] d = tt
live_gaps-Distinct now (e ∷ es) d = elim (Bool-cases (leb e.1.expires_at now)) [
  | inl h ↦ rw (h, live_gaps) (live_gaps-Distinct now es d.1)
  | inr h ↦ rw (h, live_gaps) (live_gaps-absent now e.0 es d.0, live_gaps-Distinct now es d.1)
]

-- What is left was there.
found-live_gaps :
    (now k : ℕ) (m : Message) (gaps : Map ℕ Message)
    → Distinct ℕ_discrete gaps
    → find ℕ_discrete k (live_gaps now gaps) ≡ some m
    → find ℕ_discrete k gaps ≡ some m
unfolding find live_gaps
found-live_gaps now k m [] d h = h
found-live_gaps now k m (e ∷ es) d h = ground (arith, found-live_gaps now k m es d.1)

gaps_of-found :
    (o : Str) (gaps : Map ℕ Message) (r : Map Str (Map ℕ Message))
    → find str_dec o r ≡ some gaps
    → gaps_of o r ≡ gaps
unfolding gaps_of
gaps_of-found o gaps r f = rw (f, gaps_of) refl

clear_gap-Buffers :
    (truth : Numbering) (c : Cache) (topic o : Str)
    → Buffers truth c
    → Buffers truth (clear_gap c topic o)
unfolding clear_gap
clear_gap-Buffers truth c topic o v =
    elim (str_dec topic [])
      as (λ d.
        Buffers truth
          (ite d c (record c { unsafe = clear_unsafe c.unsafe topic (gap_source o) }))) [
            | yes t ↦ v
            | no t ↦ v
          ]

-- The expired messages of one origin are no longer counted.
expire_gaps-Buffers :
    (truth : Numbering) (now : ℕ) (o : Str) (gaps : Map ℕ Message) (c : Cache)
    → Buffers truth c
    → find str_dec o c.reorder ≡ some gaps
    → Buffers truth (expire_gaps now o gaps c)
unfolding expire_gaps
expire_gaps-Buffers truth now o gaps c v f = cases (live_gaps now gaps) refl
  where
    e : gaps_of o c.reorder ≡ gaps
    e = gaps_of-found o gaps c.reorder f

    nothing : gap_bytes [] ≡ 0
    nothing = unfold gap_bytes in refl

    enough : gap_bytes gaps ≤ c.reorder_bytes
    enough = omega (arith, v.counted, total-del o c.reorder v.distinct, ap gap_bytes e)

    cases :
        (left : Map ℕ Message)
        → live_gaps now gaps ≡ left
        → Buffers truth (expire_gaps now o gaps c)
    cases [] l =
        rw (l, expire_gaps)
          (clear_gap-Buffers truth _ (gap_topic [] gaps) o (
            del-IsBuffered truth o c.reorder c.reorder_bytes
              (c.reorder_bytes + gap_bytes (live_gaps now gaps) - gap_bytes gaps) v
              (omega (arith, enough, ap gap_bytes e, ap gap_bytes l, nothing))))
    cases (g ∷ gs) l =
        rw (l, expire_gaps)
          (put-IsBuffered truth o (g ∷ gs) c.reorder c.reorder_bytes
            (c.reorder_bytes + gap_bytes (live_gaps now gaps) - gap_bytes gaps) v
            (subst (Distinct ℕ_discrete) l
              (live_gaps-Distinct now gaps (subst (Distinct ℕ_discrete) e (v.once o))))
            (λ k m h. v.keyed o k m (
              ap (find ℕ_discrete k) e
              ∙ found-live_gaps now k m gaps (subst (Distinct ℕ_discrete) e (v.once o))
                  (ap (find ℕ_discrete k) l ∙ h)))
            (omega (arith, enough, ap gap_bytes e, ap gap_bytes l)))

expire_gaps-others :
    (now : ℕ) (o p : Str) (gaps : Map ℕ Message) (c : Cache)
    → p ≢ o
    → find str_dec p (expire_gaps now o gaps c).reorder ≡ find str_dec p c.reorder
unfolding expire_gaps clear_gap
expire_gaps-others now o p gaps c ne = ground (
  arith,
  find-del_ne str_dec o p c.reorder ne,
  find-put_ne str_dec o p (live_gaps now gaps) c.reorder ne,
)

expire_reorder-Buffers :
    (truth : Numbering) (now : ℕ) (es : List (Str × Map ℕ Message)) (c : Cache)
    → Buffers truth c
    → Distinct str_dec es
    → ((p : Str) (g : Map ℕ Message)
        → find str_dec p es ≡ some g
        → find str_dec p c.reorder ≡ some g)
    → Buffers truth (expire_reorder now es c)
unfolding expire_reorder find
expire_reorder-Buffers truth now [] c v d there = v
expire_reorder-Buffers truth now (e ∷ es) c v d there =
    expire_reorder-Buffers truth now es (expire_gaps now e.0 e.1 c)
      (expire_gaps-Buffers truth now e.0 e.1 c v
        (there e.0 e.1 (if_pos (str_dec e.0 e.0) refl (some e.1) (find str_dec e.0 es))))
      d.1
      (λ p g f. elim (str_dec p e.0) [
        | yes same ↦ absurd (clash (ap (λ x. find str_dec x es) same ∙ d.0) f)
        | no ne ↦
            expire_gaps-others now e.0 p e.1 c ne
            ∙ there p g (if_neg (str_dec p e.0) ne (some e.1) (find str_dec p es) ∙ f)
      ])
  where
    clash : {o : Option (Map ℕ Message)} {g : Map ℕ Message} → o ≡ none → o ≢ some g
    clash a b = cc

forget_origins-reorder :
    (now : ℕ) (es : List (Str × ℕ)) (c : Cache)
    → ((forget_origins now es c).reorder ≡ c.reorder)
      × ((forget_origins now es c).reorder_bytes ≡ c.reorder_bytes)
unfolding forget_origins forget_origin
forget_origins-reorder now [] c = (refl, refl)
forget_origins-reorder now (e ∷ es) c =
    ground (arith, forget_origins-reorder now es (forget_origin now e c))

expire_metadata-Buffers :
    (truth : Numbering) (now : ℕ) (c : Cache)
    → Buffers truth c
    → Buffers truth (expire_metadata now c)
unfolding expire_metadata
expire_metadata-Buffers truth now c v = elim (Bool-cases (ltb now c.next_metadata_expiry)) [
  | inl early ↦ rw (early, expire_metadata) v
  | inr late ↦
      let (r, b) = forget_origins-reorder now c.received_until c in
      rw (late, expire_metadata)
        (expire_reorder-Buffers truth now c.reorder _
          (subst (λ x. IsBuffered truth x (forget_origins now c.received_until c).reorder_bytes)
            (sym r) (subst (IsBuffered truth c.reorder) (sym b) v))
          v.distinct (λ p g f. ap (find str_dec p) r ∙ f))
]

-- The expiry keeps the buffers in order.
pub expire_cache-Buffers :
    (truth : Numbering) (now : ℕ) (c : Cache) → Buffers truth c → Buffers truth (expire_cache now c)
unfolding expire_cache
expire_cache-Buffers truth now c v =
    let d = expire_metadata now c in
    let w = expire_metadata-Buffers truth now c v in
    let m = expire_due-SameMemory_compacted now d in
    subst
      (λ x. IsBuffered truth x (compact_order (expire_due (length d.expiries) now d)).reorder_bytes)
      (sym m.reorder) (subst (IsBuffered truth d.reorder) (sym m.bytes) w)
