-- ===== src/Cache/Insertion.antt =====
-- `insertLocked` and `insertBatchLocked` of internal/broker/broker.go.
use spruce.Prelude.{
  ℕ, ◌+◌, ◌-◌, ◌≤◌, ◌<◌, ◌≡◌, refl, sym, ap, subst, ◌∙◌, ◌≢◌, inl, inr, Bool, true, false, ◌&&◌,
  none, some, List, [], ◌∷◌, ◌++◌, arith, ltb, Bool-cases, Option-cases, ltb→lt, length,
  length-append, sum_by-append, Str, str_dec, Result, ok, err,
}
use spruce.Prelude.Maps.{find, put, found-put, find-put_self, find-put_ne}
use spruce.Message.{Message, message_size}
use spruce.Cache.Slots.{somes, somes-snoc, get_elem?-snoc, get_elem?-append, get_elem?-last}
use spruce.Cache.{Stored, Cached, Cache, new_cache, size_of}
use spruce.Cache.Inserts.{
  CacheError, exceeds_capacity, retention_capacity, new_stored, new_cached, make_space, add_message,
  insert_message, insert_batch, link_expiry,
}
use spruce.Cache.Agreement.{Keeps}
use spruce.Cache.Due.{AllDue, Listed, link_expiry-Listed, link_expiry-Listed_self}
use spruce.Cache.Room.{make_space-Roomy}
use spruce.Cache.Dropping.{total, evict_oldest}

-- The ordinals of a list go up, from above one number to another.
abbrev pub Rising : ℕ → List Stored → ℕ → Type 0
Rising low [] top = low ≤ top
Rising low (s ∷ ss) top = (low < s.ordinal) × Rising s.ordinal ss top

pub Rising-lower :
    (low low' top : ℕ) (ss : List Stored) → low' ≤ low → Rising low ss top → Rising low' ss top
Rising-lower low low' top [] h r = omega arith
Rising-lower low low' top (s ∷ ss) h r = (omega arith, r.1)

Rising-tail :
    (low top : ℕ) (s : Stored) (ss : List Stored) → Rising low (s ∷ ss) top → Rising low ss top
Rising-tail low top s ss r = Rising-lower s.ordinal low top ss (omega arith) r.1

evict_oldest-Rising :
    (limit size low top : ℕ) (ss : List Stored)
    → Rising low ss top
    → Rising low (evict_oldest limit size ss) top
unfolding evict_oldest
evict_oldest-Rising limit size low top [] r = r
evict_oldest-Rising limit size low top (s ∷ ss) r =
    elim (Bool-cases (ltb limit (total (s ∷ ss) + size))) [
      | inl over ↦ rw over (evict_oldest-Rising limit size low top ss (Rising-tail low top s ss r))
      | inr fits ↦ rw fits r
    ]

Rising-snoc :
    (low top : ℕ) (ss : List Stored) (s : Stored)
    → Rising low ss top
    → s.ordinal ≡ top + 1
    → Rising low (ss ++ (s ∷ [])) (top + 1)
Rising-snoc low top [] s r e = omega arith
Rising-snoc low top (t ∷ ts) s r e = (r.0, Rising-snoc t.ordinal top ts s r.1 e)

-- A cache in order: items and order agree, the bytes are within the limit, each message is listed
-- under its expiry, and the ordinals follow the order of arrival.
pub record IsValid (c : Cache) : Type 0 where
  pub kept : Keeps c
  pub bounded : c.bytes ≤ c.max_bytes
  pub due : AllDue c
  pub rising : Rising 0 (somes c.order) c.next_ordinal

-- A new message is appended, where there is room.
add-Keeps :
    (c : Cache) (m : Message) → Keeps c → find str_dec m.id c.items ≡ none → Keeps (add_message c m)
unfolding add_message
add-Keeps c m k new = record {
  placed = λ j jt h. elim (found-put str_dec m.id j (new_cached c m) jt c.items h) [
    | inl (e, same) ↦ (
      ap (λ x. x.stored.message.id) same ∙ sym e,
      rw same (get_elem?-last (new_stored c m) c.order),
    )
    | inr (ne, old) ↦
        let (a, b) = k.placed j jt old in (a, get_elem?-append jt.order_index jt.stored c.order _ b)
  ];
  held = λ i s h. elim (get_elem?-snoc i (new_stored c m) s c.order h) [
    | inl old ↦
        let (jt, f, a, b) = k.held i s old in
        (
          jt,
          find-put_ne str_dec m.id s.message.id (new_cached c m) c.items (λ e. clash f e new) ∙ f,
          a,
          b,
        )
    | inr (e, same) ↦ (
      new_cached c m,
      ap (λ x. find str_dec x.message.id (put str_dec m.id (new_cached c m) c.items)) same
          ∙ find-put_self str_dec m.id (new_cached c m) c.items,
      sym same,
      sym e,
    )
  ];
  started = λ i s h. elim (get_elem?-snoc i (new_stored c m) s c.order h) [
    | inl old ↦ k.started i s old
    | inr (e, same) ↦ omega (arith, k.inside, e)
  ];
  inside = omega (arith, k.inside, length-append c.order (some (new_stored c m) ∷ []));
  counted =
      rw (somes-snoc c.order (new_stored c m))
        (omega (arith, k.counted, sum_by-append size_of (somes c.order) (new_stored c m ∷ [])));
}
  where
    clash :
        {j : Str} {jt : Cached}
        → find str_dec j c.items ≡ some jt
        → j ≡ m.id
        → find str_dec m.id c.items ≡ none
        → ⊥
    clash {j} {jt} f e n =
        let both : none ≡ some jt = sym n ∙ ap (λ x. find str_dec x c.items) (sym e) ∙ f in cc

add-AllDue : (c : Cache) (m : Message) → AllDue c → AllDue (add_message c m)
unfolding add_message
add-AllDue c m due j jt h = elim (found-put str_dec m.id j (new_cached c m) jt c.items h) [
  | inl (e, same) ↦ inl (
      rw same (
        subst (λ x. Listed m.expires_at x (link_expiry m.expires_at m.id c.expiries)) (sym e)
          (link_expiry-Listed_self m.expires_at m.id c.expiries)))
  | inr (ne, old) ↦ elim (due j jt old) [
    | inl l ↦ inl (link_expiry-Listed m.expires_at jt.stored.message.expires_at m.id j c.expiries l)
    | inr (_, bad) ↦ absurd bad
  ]
]

-- What an insertion of `m` into `c` ends with.
pub record Added (c c' : Cache) (m : Message) : Type 0 where
  pub fresh : find str_dec m.id c.items ≡ none
  pub valid : IsValid c'
  pub contents :
      somes c'.order
      ≡ evict_oldest c.max_bytes (message_size m) (somes c.order) ++ (new_stored c m ∷ [])
  pub ordinal : c'.next_ordinal ≡ c.next_ordinal + 1
  pub limit : c'.max_bytes ≡ c.max_bytes
  pub rejects : c'.reject_pressure ≡ c.reject_pressure

-- Refused, or known already: the cache is as it was.
abbrev pub Inserted : Cache → Message → Cache × Result CacheError Bool → Type 0
Inserted c m (c', ok true) = Added c c' m
Inserted c m (c', ok false) = (c' ≡ c) × (find str_dec m.id c.items ≢ none)
Inserted c m (c', err exceeds_capacity) = (c' ≡ c) × (c.max_bytes < message_size m)
Inserted c m (c', err retention_capacity) =
    (c' ≡ c) × (c.reject_pressure ≡ true) × (c.max_bytes < c.bytes + message_size m)

pub add-Added :
    (now : ℕ) (c : Cache) (m : Message)
    → IsValid c
    → find str_dec m.id c.items ≡ none
    → message_size m ≤ c.max_bytes
    → Added c (add_message (make_space (length c.order - c.order_head) now (message_size m) c) m) m
add-Added now c m v new small =
    let r =
      make_space-Roomy (length c.order - c.order_head) now (message_size m) c v.kept small
        (omega arith) in
    let c' = make_space (length c.order - c.order_head) now (message_size m) c in
    let rising : Rising 0 (somes c'.order) c'.next_ordinal =
      rw (r.contents, r.ordinal)
        (evict_oldest-Rising c.max_bytes (message_size m) 0 c.next_ordinal (somes c.order)
          v.rising) in
    record {
      fresh = new;
      valid = record {
        kept = add-Keeps c' m r.kept (r.fewer m.id new);
        bounded = unfold add_message in omega (arith, r.room);
        due = add-AllDue c' m (r.due v.due);
        rising =
            unfold add_message in
            rw (somes-snoc c'.order (new_stored c' m))
              (Rising-snoc 0 c'.next_ordinal (somes c'.order) (new_stored c' m) rising refl);
      };
      contents =
          unfold add_message in
          (somes-snoc c'.order (new_stored c' m)
            ∙ ap (λ n. somes c'.order ++ (record { message = m; ordinal = n + 1 } ∷ [])) r.ordinal
            ∙ ap (λ ss. ss ++ (new_stored c m ∷ [])) r.contents);
      ordinal = unfold add_message in ap (λ n. n + 1) r.ordinal;
      limit = unfold add_message in r.limit;
      rejects = unfold add_message in r.rejects;
    }

-- Against a valid cache, an insertion either changes nothing, for the reason that its result gives:
-- the ID is known, the message is larger than the cache, or the cache rejects what needs an eviction;
-- or the cache is valid and holds, in the order of arrival, the message after those that were there
-- without the oldest, of which exactly as many go as the byte limit demands.
pub insert_message-Inserted :
    (now : ℕ) (c : Cache) (m : Message) → IsValid c → Inserted c m (insert_message now c m)
unfolding insert_message
insert_message-Inserted now c m v = elim (Option-cases (find str_dec m.id c.items)) [
  | inr (it, e) ↦ rw (e, insert_message) (refl, cc)
  | inl e ↦ elim (Bool-cases (ltb c.max_bytes (message_size m))) [
    | inl large ↦ rw (e, large, insert_message) (refl, ltb→lt _ _ large)
    | inr small ↦
        elim (Bool-cases (c.reject_pressure && ltb c.max_bytes (c.bytes + message_size m))) [
          | inl refused ↦ rw (e, small, refused, insert_message) (refl, ground arith, ground arith)
          | inr accepted ↦
              rw (e, small, accepted, insert_message) (add-Added now c m v e (ground arith))
        ]
  ]
]

-- Every insertion keeps the cache valid, whatever its result.
pub insert_message-IsValid :
    (now : ℕ) (c : Cache) (m : Message) → IsValid c → IsValid (insert_message now c m).0
insert_message-IsValid now c m v =
    cases (insert_message now c m) (insert_message-Inserted now c m v)
  where
    cases : (r : Cache × Result CacheError Bool) → Inserted c m r → IsValid r.0
    cases (c', ok true) h = h.valid
    cases (c', ok false) h = subst IsValid (sym h.0) v
    cases (c', err exceeds_capacity) h = subst IsValid (sym h.0) v
    cases (c', err retention_capacity) h = subst IsValid (sym h.0) v

pub insert_batch-IsValid :
    (now : ℕ) (c : Cache) (ms : List Message) → IsValid c → IsValid (insert_batch now c ms).0
unfolding insert_batch
insert_batch-IsValid now c [] v = v
insert_batch-IsValid now c (m ∷ ms) v =
    insert_batch-IsValid now (insert_message now c m).0 ms (insert_message-IsValid now c m v)

pub new_cache-IsValid : (limit : ℕ) → IsValid (new_cache limit)
unfolding new_cache find somes
new_cache-IsValid limit = record {
  kept = record {
    placed = λ id it h. absurd (cc);
    held = λ i s h. absurd (cc);
    started = λ i s h. absurd (cc);
    inside = omega arith;
    counted = refl;
  };
  bounded = omega arith;
  due = λ id it h. absurd (cc);
  rising = omega arith;
}
