-- ===== src/Cache/Expired.antt =====
-- The whole of `expireLocked` of internal/broker/broker.go.
use spruce.Prelude.{
  ℕ, ◌≤◌, ◌≡◌, sym, ap, ◌∙◌, inl, inr, List, [], ◌∷◌, arith, ltb, leb, Bool-cases, length, sum_by,
  Str,
}
use spruce.Prelude.Maps.{Map}
use spruce.Message.{Message}
use spruce.Replay.{Marks}
use spruce.Cache.Slots.{somes}
use spruce.Cache.{Stored, Cache, Frontier, TopicSequence, size_of}
use spruce.Cache.Agreement.{Keeps}
use spruce.Cache.Removal.{Same, Same-refl, Same-trans}
use spruce.Cache.Due.{AllDue}
use spruce.Cache.Expiry.{
  expire_due, forget_origin, forget_origins, expire_gaps, clear_gap, expire_reorder,
  expire_metadata, expire_cache,
}
use spruce.Cache.Expiring.{keep_live}
use spruce.Cache.Compaction.{compact_order-Compacted}
use spruce.Cache.Insertion.{Rising, Rising-lower, IsValid}
use spruce.Cache.Popping.{expire_due-Expiring, Quiet-live}

forget_origin-Same : (now : ℕ) (e : Str × ℕ) (c : Cache) → Same c (forget_origin now e c)
unfolding forget_origin
forget_origin-Same now e c = ground arith

forget_origins-Same : (now : ℕ) (es : List (Str × ℕ)) (c : Cache) → Same c (forget_origins now es c)
unfolding forget_origins
forget_origins-Same now [] c = Same-refl c
forget_origins-Same now (e ∷ es) c =
    Same-trans c (forget_origin now e c) _ (forget_origin-Same now e c)
      (forget_origins-Same now es (forget_origin now e c))

expire_gaps-Same :
    (now : ℕ) (origin : Str) (gaps : Map ℕ Message) (c : Cache)
    → Same c (expire_gaps now origin gaps c)
unfolding expire_gaps clear_gap
expire_gaps-Same now origin gaps c = ground arith

expire_reorder-Same :
    (now : ℕ) (es : List (Str × Map ℕ Message)) (c : Cache) → Same c (expire_reorder now es c)
unfolding expire_reorder
expire_reorder-Same now [] c = Same-refl c
expire_reorder-Same now (e ∷ es) c =
    Same-trans c (expire_gaps now e.0 e.1 c) _ (expire_gaps-Same now e.0 e.1 c)
      (expire_reorder-Same now es (expire_gaps now e.0 e.1 c))

expire_metadata-Same : (now : ℕ) (c : Cache) → Same c (expire_metadata now c)
unfolding expire_metadata
expire_metadata-Same now c = elim (Bool-cases (ltb now c.next_metadata_expiry)) [
  | inl early ↦ rw (early, expire_metadata) (Same-refl c)
  | inr late ↦
      rw (late, expire_metadata)
        (Same-trans c _ _ (from_origins (forget_origins-Same now c.received_until c))
          (expire_reorder-Same now c.reorder _))
]
  where
    from_origins :
        {d : Cache} {fs : Map Str Frontier} {u : Marks} {ts : Map Str TopicSequence} {n : ℕ}
        → Same c d
        → Same c (record d {
          next_metadata_expiry = n;
          frontiers = fs;
          unsafe = u;
          topic_sequences = ts;
        })
    from_origins s = record {
      items = s.items;
      order = s.order;
      head = s.head;
      bytes = s.bytes;
      expiries = s.expiries;
      limit = s.limit;
      ordinal = s.ordinal;
      rejects = s.rejects;
    }

keep_live-Rising :
    (now low top : ℕ) (ss : List Stored) → Rising low ss top → Rising low (keep_live now ss) top
unfolding keep_live
keep_live-Rising now low top [] r = r
keep_live-Rising now low top (s ∷ ss) r = elim (Bool-cases (leb s.message.expires_at now)) [
  | inl over ↦ rw over (
      Rising-lower s.ordinal low top (keep_live now ss) (omega arith)
        (keep_live-Rising now s.ordinal top ss r.1))
  | inr later ↦ rw later (r.0, keep_live-Rising now s.ordinal top ss r.1)
]

keep_live-total :
    (now : ℕ) (ss : List Stored) → sum_by size_of (keep_live now ss) ≤ sum_by size_of ss
unfolding keep_live
keep_live-total now [] = omega arith
keep_live-total now (s ∷ ss) = ground (arith, keep_live-total now ss)

-- What `expireLocked` does for a reader.
pub record Live (now : ℕ) (c c' : Cache) : Type 0 where
  pub valid : IsValid c'
  pub contents : somes c'.order ≡ keep_live now (somes c.order)
  pub ordinal : c'.next_ordinal ≡ c.next_ordinal
  pub limit : c'.max_bytes ≡ c.max_bytes
  pub rejects : c'.reject_pressure ≡ c.reject_pressure

-- Expiry at any time keeps a valid cache valid and leaves exactly the messages whose time is not
-- over, in their order; the next ordinal, the byte limit and the mode stay.
pub expire_cache-Live : (now : ℕ) (c : Cache) → IsValid c → Live now c (expire_cache now c)
unfolding expire_cache
expire_cache-Live now c v =
    let same = expire_metadata-Same now c in
    let c1 = expire_metadata now c in
    let kept : Keeps c1 = rw (same.items, same.order, same.head, same.bytes) v.kept in
    let due : AllDue c1 = rw (same.items, same.expiries) v.due in
    let (x, due', quiet) = expire_due-Expiring (length c1.expiries) now c1 (omega arith) kept due in
    let c2 = expire_due (length c1.expiries) now c1 in
    let out = compact_order-Compacted c2 x.kept in
    let contents =
      out.contents
      ∙ sym (Quiet-live now c2 x.kept due' quiet)
      ∙ x.contents
      ∙ ap (λ o. keep_live now (somes o)) same.order in
    record {
      valid = record {
        kept = out.kept;
        bounded = omega (
          arith,
          v.bounded,
          v.kept.counted,
          out.kept.counted,
          ap (sum_by size_of) contents,
          keep_live-total now (somes c.order),
          out.limit,
          x.limit,
          same.limit,
        );
        due = out.due due';
        rising =
            rw (contents, out.ordinal ∙ x.ordinal ∙ same.ordinal)
              (keep_live-Rising now 0 c.next_ordinal (somes c.order) v.rising);
      };
      contents = contents;
      ordinal = out.ordinal ∙ x.ordinal ∙ same.ordinal;
      limit = out.limit ∙ x.limit ∙ same.limit;
      rejects = out.rejects ∙ x.rejects ∙ same.rejects;
    }
