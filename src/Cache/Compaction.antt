-- ===== src/Cache/Compaction.antt =====
-- The compaction of the order at the end of `expireLocked` of internal/broker/broker.go.
use spruce.Prelude.{
  ℕ, zero, suc, ◌+◌, ◌*◌, ◌≡◌, refl, sym, ap, subst, ◌∙◌, ◌≢◌, ◌⊎◌, inl, inr, ◌&&◌, none, some,
  List, [], ◌∷◌, map, arith, ltb, Bool-cases, Option-cases, some_inj, length, get_elem?, Str,
  str_dec,
}
use spruce.Prelude.Maps.{Map, find, put, find-put_self, find-put_ne}
use spruce.Cache.Slots.{
  Pointers, somes, somes-map, get_elem?-somes, somes-get_elem?, get_elem?-map-some,
  map-some-get_elem?,
}
use spruce.Cache.{Stored, Cached, Cache, order_place, renumber}
use spruce.Cache.Keeping.{renumber-KeepStored}
use spruce.Cache.Agreement.{Keeps}
use spruce.Cache.Due.{Due, AllDue, Listed, Member}
use spruce.Cache.Expiry.{listed, compact_kept, compact_order, order_compact_tombstones}

-- No ID twice.
abbrev Unique : List Stored → Type 0
Unique [] = Unit
Unique (s ∷ ss) =
    ((k : ℕ) (t : Stored) → get_elem? ss k ≡ some t → t.message.id ≢ s.message.id) × Unique ss

somes-Unique :
    (xs : Pointers Stored)
    → ((i j : ℕ) (s t : Stored)
        → get_elem? xs i ≡ some (some s)
        → get_elem? xs j ≡ some (some t)
        → s.message.id ≡ t.message.id
        → i ≡ j)
    → Unique (somes xs)
unfolding somes
somes-Unique [] h = tt
somes-Unique (none ∷ xs) h =
    somes-Unique xs (λ i j s t a b e. omega (arith, h (suc i) (suc j) s t a b e))
somes-Unique (some s ∷ xs) h = (
  λ k t a e.
      let (i, b) = get_elem?-somes k t xs a in
      absurd (omega (arith, h 0 (suc i) s t refl b (sym e))),
  somes-Unique xs (λ i j s' t a b e. omega (arith, h (suc i) (suc j) s' t a b e)),
)

renumber_other :
    (j : Str) (n : ℕ) (ss : List Stored) (items : Map Str Cached)
    → ((k : ℕ) (t : Stored) → get_elem? ss k ≡ some t → t.message.id ≢ j)
    → find str_dec j (renumber order_place n ss items) ≡ find str_dec j items
unfolding renumber
renumber_other j n [] items h = refl
renumber_other j n (s ∷ ss) items h = elim (Option-cases (find str_dec s.message.id items)) [
  | inl e ↦ rw (e, renumber) (renumber_other j (n + 1) ss items (λ k. h (suc k)))
  | inr (it, e) ↦
      rw (e, renumber)
        (renumber_other j (n + 1) ss _ (λ k. h (suc k))
          ∙ find-put_ne str_dec s.message.id j (order_place n it) items (λ x. h 0 s refl (sym x)))
]

renumber_at :
    (k n : ℕ) (s : Stored) (it : Cached) (ss : List Stored) (items : Map Str Cached)
    → Unique ss
    → get_elem? ss k ≡ some s
    → find str_dec s.message.id items ≡ some it
    → find str_dec s.message.id (renumber order_place n ss items) ≡ some (order_place (n + k) it)
unfolding renumber
renumber_at k n s it [] items u h found = absurd (cc)
renumber_at zero n s it (t ∷ ss) items u h found =
    let same : t ≡ s = some_inj h in
    rw (ap (λ x. find str_dec x.message.id items) same ∙ found, renumber)
      (renumber_other s.message.id (n + 1) ss _
          (λ k x a. subst (λ y. x.message.id ≢ y.message.id) same (u.0 k x a))
        ∙ ap (λ x. find str_dec s.message.id (put str_dec x.message.id (order_place n it) items))
            same
        ∙ find-put_self str_dec s.message.id (order_place n it) items
        ∙ ap (λ i. some (order_place i it)) (omega arith))
renumber_at (suc k) n s it (t ∷ ss) items u h found =
    elim (Option-cases (find str_dec t.message.id items)) [
      | inl e ↦
          rw (e, renumber)
            (renumber_at k (n + 1) s it ss items u.1 h found
              ∙ ap (λ i. some (order_place i it)) (omega arith))
      | inr (jt, e) ↦
          rw (e, renumber)
            (renumber_at k (n + 1) s it ss (put str_dec t.message.id (order_place n jt) items) u.1 h
                (find-put_ne str_dec t.message.id s.message.id (order_place n jt) items (u.0 k s h)
                  ∙ found)
              ∙ ap (λ i. some (order_place i it)) (omega arith))
    ]

-- Every message in the order has its item.
listed-all :
    (items : Map Str Cached) (ss : List Stored)
    → ((k : ℕ) (s : Stored)
        → get_elem? ss k ≡ some s
        → (it : Cached) × (find str_dec s.message.id items ≡ some it))
    → listed items ss ≡ ss
unfolding listed
listed-all items [] h = refl
listed-all items (s ∷ ss) h =
    let (it, e) = h 0 s refl in rw (e, listed) (ap (◌∷◌ s) (listed-all items ss (λ k. h (suc k))))

Keeps-listed : (c : Cache) → Keeps c → listed c.items (somes c.order) ≡ somes c.order
Keeps-listed c k = listed-all c.items (somes c.order) (λ i s h.
    let (n, a) = get_elem?-somes i s c.order h in let (it, f, _, _) = k.held n s a in (it, f))

Keeps-Unique : (c : Cache) → Keeps c → Unique (somes c.order)
Keeps-Unique c k = somes-Unique c.order λ i j s t a b e.
    let (it, f, _, p) = k.held i s a in
    let (jt, g, _, q) = k.held j t b in
    let same : it ≡ jt = some_inj (sym f ∙ ap (λ x. find str_dec x c.items) e ∙ g) in
    sym p ∙ ap (λ x. x.order_index) same ∙ q

compact_kept-Keeps : (c : Cache) → Keeps c → Keeps (compact_kept c (somes c.order))
unfolding compact_kept
compact_kept-Keeps c k = record {
  placed = λ j jt h.
      place j jt h
        (renumber-KeepStored order_place (λ i it. refl) 0 (somes c.order) c.items j jt h);
  held = λ i s h.
      let a = map-some-get_elem? i s (somes c.order) h in
      let (n, b) = get_elem?-somes i s c.order a in
      let (it, f, same, _) = k.held n s b in
      (
        order_place (0 + i) it,
        renumber_at i 0 s it (somes c.order) c.items (Keeps-Unique c k) a f,
        same,
        omega arith,
      );
  started = λ i s h. omega arith;
  inside = omega arith;
  counted = rw (somes-map (somes c.order)) k.counted;
}
  where
    place :
        (j : Str) (jt : Cached)
        → find str_dec j (renumber order_place 0 (somes c.order) c.items) ≡ some jt
        → ((it : Cached) × (find str_dec j c.items ≡ some it) × (it.stored ≡ jt.stored))
        → (jt.stored.message.id ≡ j)
          × (get_elem? (map some (somes c.order)) jt.order_index ≡ some (some jt.stored))
    place j jt h (it, f, same) =
        let (a, b) = k.placed j it f in
        let (n, e) = somes-get_elem? it.order_index it.stored c.order b in
        let now =
          renumber_at n 0 it.stored it (somes c.order) c.items (Keeps-Unique c k) e
            (ap (λ x. find str_dec x c.items) a ∙ f) in
        let at : jt ≡ order_place (0 + n) it = some_inj (
          sym h
          ∙ ap (λ x. find str_dec x (renumber order_place 0 (somes c.order) c.items)) (sym a)
          ∙ now) in
        (
          ap (λ x. x.message.id) (sym same) ∙ a,
          ap (λ x. get_elem? (map some (somes c.order)) x.order_index) at
              ∙ ap (get_elem? (map some (somes c.order))) (omega arith)
              ∙ get_elem?-map-some n it.stored (somes c.order) e
              ∙ ap (λ x. some (some x)) same,
        )

-- The messages in the order are the same, and all else that an order needs.
pub record Compacted (c c' : Cache) : Type 0 where
  pub kept : Keeps c'
  pub contents : somes c'.order ≡ somes c.order
  pub due : AllDue c → AllDue c'
  pub bytes : c'.bytes ≡ c.bytes
  pub limit : c'.max_bytes ≡ c.max_bytes
  pub ordinal : c'.next_ordinal ≡ c.next_ordinal
  pub rejects : c'.reject_pressure ≡ c.reject_pressure

pub compact_order-Compacted : (c : Cache) → Keeps c → Compacted c (compact_order c)
unfolding compact_order
compact_order-Compacted c k =
    elim (Bool-cases
      (ltb order_compact_tombstones c.tombstones && ltb (length c.order) (c.tombstones * 2))) [
        | inr few ↦
            rw (few, compact_order)
              (record {
                kept = k;
                contents = refl;
                due = λ d. d;
                bytes = refl;
                limit = refl;
                ordinal = refl;
                rejects = refl;
              })
        | inl many ↦
            rw (many, Keeps-listed c k, compact_order)
              (record {
                kept = compact_kept-Keeps c k;
                contents = unfold compact_kept in somes-map (somes c.order);
                due = λ d. unfold compact_kept in moved d;
                bytes = unfold compact_kept in refl;
                limit = unfold compact_kept in refl;
                ordinal = unfold compact_kept in refl;
                rejects = unfold compact_kept in refl;
              })
      ]
  where
    moved : AllDue c → Due (renumber order_place 0 (somes c.order) c.items) c.expiries 0 []
    moved d j jt h =
        let (it, f, same) =
          renumber-KeepStored order_place (λ i x. refl) 0 (somes c.order) c.items j jt h in
        subst
          (λ s.
            Listed s.message.expires_at j c.expiries ⊎ ((s.message.expires_at ≡ 0) × Member j []))
          same (d j it f)
