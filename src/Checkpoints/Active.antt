-- ===== src/Checkpoints/Active.antt =====
-- `checkpointActiveLocked` after a write and after a compaction.
use spruce.Prelude.{
  ℕ, ◌+◌, ◌*◌, ◌≤◌, ◌<◌, ◌≡◌, refl, sym, ap, subst, ◌∙◌, ◌≢◌, inl, inr, if_pos, true, false, some,
  List, [], ◌∷◌, ◌++◌, arith, ltb, leb, lt→ltb, ◌==◌, Bool-cases, length, All-drop_mid,
}
use spruce.Prelude.Maps.{Map, Distinct, find}
use spruce.Checkpoints.{
  Key, key_dec, OrderEntry, Table, expiry, evict_one, evict, compact_one, compact_loop, compact,
  record_entry, trim, put_checkpoint, checkpoint_active,
}
use spruce.Checkpoints.Order.{Ordered, In, expiry-del_ne, expiry-del_self, expiry-put}
use spruce.Checkpoints.Invariant.{record_entry-Valid}
use spruce.Checkpoints.Evicting.{Valid, evict_one-Valid}

one_key :
    (k : Key) (m : Map Key ℕ)
    → Distinct key_dec m
    → ((j : Key) (e : ℕ) → find key_dec j m ≡ some e → j ≡ k)
    → length m ≤ 1
unfolding find
one_key k [] d only = omega arith
one_key k (x ∷ []) d only = omega arith
one_key k (x ∷ y ∷ m) d only =
    let first : x.0 ≡ k = only x.0 x.1 (if_pos (key_dec x.0 x.0) refl _ _) in
    elim (key_dec y.0 x.0) [
      | yes same ↦ absurd (ground (arith, d.0, same))
      | no other ↦ absurd (other (only y.0 y.1 (ground (arith, other)) ∙ sym first))
    ]

-- The newest entry outlives the eviction: while others are left, they go first.
evict-keeps :
    (limit : ℕ) (pre : List OrderEntry) (o : OrderEntry) (t : Table)
    → 0 < limit
    → Valid t
    → t.order ≡ pre ++ (o ∷ [])
    → expiry t.entries o.key ≡ o.expires_at
    → expiry (evict limit (pre ++ (o ∷ [])) t).entries o.key ≡ o.expires_at
unfolding evict
evict-keeps limit [] o t p v e h =
    let ord = subst (Ordered t.entries) e v.ordered in
    let few = one_key o.key t.entries v.distinct (λ j x f. from_last j x (ord.covered j x f)) in
    let within : ltb limit t.count ≡ false = ground (arith, few, v.counted) in rw within h
  where
    from_last : (j : Key) (x : ℕ) → In (record { key = j; expires_at = x }) (o ∷ []) → j ≡ o.key
    from_last j x (inl same) = ap (λ y. y.key) same
    from_last j x (inr none_left) = absurd none_left
evict-keeps limit (x ∷ pre) o t p v e h = elim (Bool-cases (ltb limit t.count)) [
  | inr done ↦ rw done h
  | inl more ↦
      let (v', e') = evict_one-Valid t x (pre ++ (o ∷ [])) v e in
      rw more (evict-keeps limit pre o (evict_one t x (pre ++ (o ∷ []))) p v' e' kept)
]
  where
    ord : Ordered t.entries (x ∷ (pre ++ (o ∷ [])))
    ord = subst (Ordered t.entries) e v.ordered

    older : o.key ≡ x.key → x.expires_at < o.expires_at
    older =
        (All-drop_mid (λ y. y.key ≡ x.key → x.expires_at < y.expires_at) pre o [] ord.growing.0).0

    newer : expiry t.entries x.key ≡ x.expires_at → o.key ≢ x.key
    newer hit same = absurd (omega (arith, older same, ap (expiry t.entries) same, h, hit))

    kept : expiry (evict_one t x (pre ++ (o ∷ []))).entries o.key ≡ o.expires_at
    kept = elim (Bool-cases (expiry t.entries x.key == x.expires_at)) [
      | inr miss ↦ unfold evict_one in rw miss h
      | inl hit ↦
          unfold evict_one in
          rw hit (expiry-del_ne x.key o.key t.entries (newer (ground arith)) ∙ h)
    ]

-- Compaction drops what is no longer active, and nothing else.
compact_one-active :
    (now : ℕ) (o : OrderEntry) (t : Table) (k : Key)
    → checkpoint_active (compact_one now o t) k now ≡ checkpoint_active t k now
unfolding checkpoint_active compact_one
compact_one-active now o t k = elim (key_dec k o.key) [
  | yes same ↦
      subst (λ j. ltb now (expiry (compact_one now o t).entries j) ≡ ltb now (expiry t.entries j))
        (sym same) (ground (arith, expiry-del_self o.key t.entries))
  | no other ↦ ground (arith, expiry-del_ne o.key k t.entries other)
]

compact_loop-active :
    (now : ℕ) (os : List OrderEntry) (t : Table) (k : Key)
    → checkpoint_active (compact_loop now os t) k now ≡ checkpoint_active t k now
unfolding compact_loop
compact_loop-active now [] t k = refl
compact_loop-active now (o ∷ os) t k =
    compact_loop-active now os (compact_one now o t) k ∙ compact_one-active now o t k

-- Compaction changes nothing that a reader can see at its time: every checkpoint is active after it
-- exactly if it was before.
pub compact-active :
    (now : ℕ) (t : Table) (k : Key)
    → checkpoint_active (compact now t) k now ≡ checkpoint_active t k now
unfolding compact checkpoint_active
compact-active now t k = compact_loop-active now t.order (record t { head = 0; order = [] }) k

trim-active :
    (limit now : ℕ) (t : Table) (k : Key)
    → checkpoint_active (trim limit now t) k now ≡ checkpoint_active t k now
unfolding trim
trim-active limit now t k = elim (Bool-cases (ltb (2 * limit) (t.head + length t.order))) [
  | inl long ↦ rw (long, trim) (compact-active now t k)
  | inr short ↦ rw (short, trim)
]

-- With room for one entry at least, a checkpoint that has not expired is active right after it is
-- written: it is never the one that its own write evicts.
pub put_checkpoint-active :
    (limit : ℕ) (t : Table) (o : OrderEntry) (now : ℕ)
    → 0 < limit
    → Valid t
    → now < o.expires_at
    → checkpoint_active (put_checkpoint limit t o now).0 o.key now ≡ true
unfolding put_checkpoint record_entry
put_checkpoint-active limit t o now p v fresh =
    elim (Bool-cases (leb o.expires_at (expiry t.entries o.key))) [
      | inl known ↦
          rw (lt_leb o.expires_at now fresh, known, put_checkpoint)
            (unfold checkpoint_active in ground arith)
      | inr newer ↦
          let t' = record_entry t o in
          let kept : expiry (evict limit t'.order t').entries o.key ≡ o.expires_at =
            evict-keeps limit t.order o t' p (record_entry-Valid t o v (ground arith))
              (unfold record_entry in refl)
              (unfold record_entry in
                ground (arith, expiry-put o.key o.key o.expires_at t.entries)) in
          rw (lt_leb o.expires_at now fresh, newer, put_checkpoint)
            (trim-active limit now _ o.key
              ∙ (unfold checkpoint_active in rw kept (lt→ltb now o.expires_at fresh)))
    ]
  where
    lt_leb : (a b : ℕ) → b < a → leb a b ≡ false
    lt_leb a b h = ground arith
