-- ===== src/Checkpoints/Invariant.antt =====
-- The invariant of the checkpoint table under `putCheckpointLocked` and its parts.
use spruce.Prelude.{
  ℕ, ◌+◌, ◌*◌, ◌≤◌, ◌<◌, ◌≡◌, refl, sym, ap, subst, ◌∙◌, ◌≢◌, inl, inr, some, List, [], ◌∷◌, ◌++◌,
  append_assoc, append-nil, arith, ltb, leb, ◌==◌, if◌then◌else◌, Bool-cases, Option-cases, length,
  All, All-map, All-zip, All-drop_mid, All-snoc,
}
use native.Mathlib.Nat.{le_trans}
use spruce.Prelude.Maps.{
  Map, Distinct, length-del, length-put_new, length-put_old, find, put, del, find-put, find-put_ne,
  put-Distinct, del-Distinct,
}
use spruce.Checkpoints.{
  Key, key_dec, OrderEntry, Table, expiry, delete, compact_one, compact_loop, compact, record_entry,
  trim, put_checkpoint, apply_one, apply_checkpoints,
}
use spruce.Checkpoints.Order.{
  Exact, Growing, In, Ordered, delete-Ordered, expiry-del_ne, expiry-put, find_of_expiry,
  skip-Ordered,
}
use spruce.Checkpoints.Evicting.{Valid, evict-Valid}

entry_positive :
    (m : Map Key ℕ) (os : List OrderEntry) (k : Key) (e : ℕ)
    → Ordered m os
    → find key_dec k m ≡ some e
    → 0 < e
entry_positive m os k e v h = from_order os (v.covered k e h) v.positive
  where
    from_order :
        (xs : List OrderEntry)
        → In (record { key = k; expires_at = e }) xs
        → All (λ o. 0 < o.expires_at) xs
        → 0 < e
    from_order [] i p = absurd i
    from_order (x ∷ xs) (inl same) p = subst (λ n. 0 < n) (ap (λ y. y.expires_at) (sym same)) p.0
    from_order (x ∷ xs) (inr i) p = from_order xs i p.1

In-left : (x : OrderEntry) (xs ys : List OrderEntry) → In x xs → In x (xs ++ ys)
In-left x (y ∷ xs) ys (inl e) = inl e
In-left x (y ∷ xs) ys (inr i) = inr (In-left x xs ys i)
In-left x [] ys i = absurd i

In-last : (x : OrderEntry) (xs : List OrderEntry) → In x (xs ++ (x ∷ []))
In-last x [] = inl refl
In-last x (y ∷ xs) = inr (In-last x xs)

Growing-snoc :
    (xs : List OrderEntry) (o : OrderEntry)
    → Growing xs
    → All (λ x. o.key ≡ x.key → x.expires_at < o.expires_at) xs
    → Growing (xs ++ (o ∷ []))
Growing-snoc [] o g h = (tt, tt)
Growing-snoc (x ∷ xs) o g h = (
  All-snoc (λ y. y.key ≡ x.key → x.expires_at < y.expires_at) xs o g.0 h.0,
  Growing-snoc xs o g.1 h.1,
)

record_entry-Ordered :
    (m : Map Key ℕ) (os : List OrderEntry) (o : OrderEntry)
    → Ordered m os
    → expiry m o.key < o.expires_at
    → Ordered (put key_dec o.key o.expires_at m) (os ++ (o ∷ []))
record_entry-Ordered m os o v newer = record {
  covered = λ k e h. elim (key_dec k o.key) [
    | yes same ↦
        let value : e ≡ o.expires_at = ground (arith, find-put key_dec o.key k o.expires_at m) in
        subst (λ x. In x (os ++ (o ∷ []))) (ground (arith, same, value)) (In-last o os)
    | no other ↦
        In-left (record { key = k; expires_at = e }) os (o ∷ [])
          (v.covered k e (sym (find-put_ne key_dec o.key k o.expires_at m other) ∙ h))
  ];
  current =
      All-snoc (λ x. x.expires_at ≤ expiry (put key_dec o.key o.expires_at m) x.key) os o
        (All-map {A = OrderEntry} (λ x. x.expires_at ≤ expiry m x.key)
          (λ x. x.expires_at ≤ expiry (put key_dec o.key o.expires_at m) x.key)
          (λ x le. ground (arith, expiry-put o.key x.key o.expires_at m, newer)) os v.current)
        (ground (arith, expiry-put o.key o.key o.expires_at m));
  positive = All-snoc (λ x. 0 < x.expires_at) os o v.positive (omega arith);
  growing = Growing-snoc os o v.growing (
      All-map {A = OrderEntry} (λ x. x.expires_at ≤ expiry m x.key)
        (λ x. o.key ≡ x.key → x.expires_at < o.expires_at)
        (λ x le same. omega (arith, le, newer, ap (expiry m) same)) os v.current);
}

count_put :
    (t : Table) (o : OrderEntry)
    → Valid t
    → (if expiry t.entries o.key == 0 then t.count + 1 else t.count)
      ≡ length (put key_dec o.key o.expires_at t.entries)
unfolding expiry
count_put t o v = elim (Option-cases (find key_dec o.key t.entries)) [
  | inl e ↦
      rw (e, expiry)
        (omega (arith, v.counted, length-put_new key_dec o.key o.expires_at t.entries e))
  | inr (x, e) ↦ ground (
    arith,
    e,
    v.counted,
    entry_positive t.entries t.order o.key x v.ordered e,
    length-put_old key_dec o.key o.expires_at x t.entries e,
  )
]

pub record_entry-Valid :
    (t : Table) (o : OrderEntry)
    → Valid t
    → expiry t.entries o.key < o.expires_at
    → Valid (record_entry t o)
unfolding record_entry
record_entry-Valid t o v newer = record {
  distinct = put-Distinct key_dec o.key o.expires_at t.entries v.distinct;
  counted = count_put t o v;
  ordered = record_entry-Ordered t.entries t.order o v.ordered newer;
}

All-left : (P : OrderEntry → Type 0) (xs ys : List OrderEntry) → All P (xs ++ ys) → All P xs
All-left P [] ys h = tt
All-left P (x ∷ xs) ys h = (h.0, All-left P xs ys h.1)

compact_loop-Valid :
    (now : ℕ) (os : List OrderEntry) (t : Table)
    → Distinct key_dec t.entries
    → t.count ≡ length t.entries
    → Ordered t.entries (t.order ++ os)
    → Exact t.entries t.order
    → Valid (compact_loop now os t)
unfolding compact_loop
compact_loop-Valid now [] t d c v ex = record {
  distinct = d;
  counted = c;
  ordered = subst (Ordered t.entries) (append-nil t.order) v;
}
compact_loop-Valid now (o ∷ os) t d c v ex =
    elim (Bool-cases (expiry t.entries o.key == o.expires_at)) [
      | inr stale ↦ rw stale (
          compact_loop-Valid now os t d c (skip-Ordered t.entries t.order os o v (ground arith)) ex)
      | inl same ↦
          let eq : expiry t.entries o.key ≡ o.expires_at = ground arith in
          elim (Bool-cases (leb o.expires_at now)) [
            | inr live ↦
                rw (same, live)
                  (compact_loop-Valid now os (record t { order = t.order ++ (o ∷ []) }) d c
                    (subst (Ordered t.entries) (sym (append_assoc t.order (o ∷ []) os)) v)
                    (All-snoc (λ x. expiry t.entries x.key ≡ x.expires_at) t.order o ex eq))
            | inl old ↦
                let (v', ne) = delete-Ordered t.entries t.order os o v ex eq in
                let positive = (All-drop_mid (λ x. 0 < x.expires_at) t.order o os v.positive).0 in
                let found = find_of_expiry o.key t.entries o.expires_at eq positive in
                rw (same, old)
                  (compact_loop-Valid now os (delete t o.key)
                    (del-Distinct key_dec o.key t.entries d)
                    (omega (arith, c, length-del key_dec o.key o.expires_at t.entries d found)) v'
                    (All-zip {A = OrderEntry} (λ x. x.key ≢ o.key)
                      (λ x. expiry t.entries x.key ≡ x.expires_at)
                      (λ x. expiry (del key_dec o.key t.entries) x.key ≡ x.expires_at)
                      (λ x n here. expiry-del_ne o.key x.key t.entries n ∙ here) t.order
                      (All-left (λ x. x.key ≢ o.key) t.order os ne) ex))
          ]
    ]

pub compact-Valid : (now : ℕ) (t : Table) → Valid t → Valid (compact now t)
unfolding compact
compact-Valid now t v =
    compact_loop-Valid now t.order (record t { head = 0; order = [] }) v.distinct v.counted
      v.ordered tt

compact_one-count : (now : ℕ) (o : OrderEntry) (t : Table) → (compact_one now o t).count ≤ t.count
unfolding compact_one
compact_one-count now o t = ground arith

compact_loop-count :
    (now : ℕ) (os : List OrderEntry) (t : Table) → (compact_loop now os t).count ≤ t.count
unfolding compact_loop
compact_loop-count now [] t = omega arith
compact_loop-count now (o ∷ os) t =
    le_trans (compact_loop-count now os (compact_one now o t)) (compact_one-count now o t)

trim-Valid :
    (limit now : ℕ) (t : Table)
    → Valid t
    → t.count ≤ limit
    → Valid (trim limit now t) × ((trim limit now t).count ≤ limit)
unfolding trim
trim-Valid limit now t v h = elim (Bool-cases (ltb (2 * limit) (t.head + length t.order))) [
  | inl long ↦ rw (long, trim) (compact-Valid now t v, le_trans (shrinks t) h)
  | inr short ↦ rw (short, trim) (v, h)
]
  where
    shrinks : (t : Table) → (compact now t).count ≤ t.count
    shrinks t = unfold compact in compact_loop-count now t.order (record t { head = 0; order = [] })

-- A valid table within its limit is valid and within its limit after every write, whatever is
-- written: its count is the number of its entries, none of them twice, and each has an order entry
-- by which it can be evicted.
pub put_checkpoint-Valid :
    (limit : ℕ) (t : Table) (o : OrderEntry) (now : ℕ)
    → Valid t
    → t.count ≤ limit
    → Valid (put_checkpoint limit t o now).0 × ((put_checkpoint limit t o now).0.count ≤ limit)
unfolding put_checkpoint
put_checkpoint-Valid limit t o now v h = elim (Bool-cases (leb o.expires_at now)) [
  | inl old ↦ rw (old, put_checkpoint) (v, h)
  | inr fresh ↦ elim (Bool-cases (leb o.expires_at (expiry t.entries o.key))) [
    | inl known ↦ rw (fresh, known, put_checkpoint) (v, h)
    | inr newer ↦
        let (v', h') =
          evict-Valid limit _ (record_entry t o) (record_entry-Valid t o v (ground arith)) refl in
        rw (fresh, newer, put_checkpoint) (trim-Valid limit now _ v' h')
  ]
]

apply_one-Valid :
    (limit max_ttl : ℕ) (o : OrderEntry) (t : Table) (now : ℕ)
    → Valid t
    → t.count ≤ limit
    → Valid (apply_one limit max_ttl o t now) × ((apply_one limit max_ttl o t now).count ≤ limit)
unfolding apply_one
apply_one-Valid limit max_ttl o t now v h = elim (Bool-cases (leb o.expires_at (now + max_ttl))) [
  | inl near ↦ rw (near, apply_one) (put_checkpoint-Valid limit t o now v h)
  | inr far ↦ rw (far, apply_one) (v, h)
]

-- A valid table within its limit stays so after every list of checkpoints that a peer sends.
pub apply_checkpoints-Valid :
    (limit max_ttl : ℕ) (os : List OrderEntry) (t : Table) (now : ℕ)
    → Valid t
    → t.count ≤ limit
    → Valid (apply_checkpoints limit max_ttl os t now)
      × ((apply_checkpoints limit max_ttl os t now).count ≤ limit)
unfolding apply_checkpoints
apply_checkpoints-Valid limit max_ttl [] t now v h = (v, h)
apply_checkpoints-Valid limit max_ttl (o ∷ os) t now v h =
    let (v', h') = apply_one-Valid limit max_ttl o t now v h in
    apply_checkpoints-Valid limit max_ttl os (apply_one limit max_ttl o t now) now v' h'
