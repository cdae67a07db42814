-- ===== src/Cache/Shelf.antt =====
-- The cache as its callers see it: the messages in the order of arrival, and `put` on them.
use spruce.Prelude.{
  ℕ, zero, suc, ◌+◌, ◌≡◌, refl, sym, ap, subst, ◌∙◌, ◌≢◌, inl, inr, ite, if_pos, Bool, true, false,
  ◌&&◌, none, some, List, [], ◌∷◌, ◌++◌, arith, ltb, if◌then◌else◌, Bool-cases, Option-cases,
  some_inj, get_elem?, Str, str_dec, Result, ok, err,
}
use spruce.Message.{Message, message_size}
use spruce.Prelude.Maps.{find}
use spruce.Cache.Slots.{somes, get_elem?-somes, somes-get_elem?}
use spruce.Cache.{Stored, Cached, Cache}
use spruce.Cache.Inserts.{CacheError, exceeds_capacity, retention_capacity, insert_message}
use spruce.Cache.Agreement.{Keeps}
use spruce.Cache.Dropping.{total, evict_oldest}
use spruce.Cache.Insertion.{IsValid, Added, add-Added, insert_message-IsValid}
use spruce.Cache.Expiry.{expire_cache}
use spruce.Cache.Expiring.{keep_live}
use spruce.Cache.Expired.{expire_cache-Live}
use spruce.Cache.Pages.{put_message}

pub record Shelf : Type 0 where
  pub messages : List Stored
  pub ordinal : ℕ
  pub limit : ℕ
  pub rejects : Bool

abbrev pub view : Cache → Shelf
view c = record {
  messages = somes c.order;
  ordinal = c.next_ordinal;
  limit = c.max_bytes;
  rejects = c.reject_pressure;
}

unfoldable pub on_shelf : Str → List Stored → Bool
on_shelf id [] = false
on_shelf id (s ∷ ss) = ite (str_dec s.message.id id) true (on_shelf id ss)

-- The messages of a shelf after a new one.
unfoldable pub shelve : Shelf → Message → Shelf
shelve s m = record s {
  messages =
      evict_oldest s.limit (message_size m) s.messages
      ++ (record { message = m; ordinal = s.ordinal + 1 } ∷ []);
  ordinal = s.ordinal + 1;
}

unfoldable pub shelf_insert : Shelf → Message → Shelf × Result CacheError Bool
shelf_insert s m =
    if on_shelf m.id s.messages
    then (s, ok false)
    else if ltb s.limit (message_size m)
    then (s, err exceeds_capacity)
    else if s.rejects && ltb s.limit (total s.messages + message_size m)
    then (s, err retention_capacity)
    else (shelve s m, ok true)

-- `put` in terms of the messages alone.
unfoldable pub shelf_put : Shelf → Message → ℕ → Shelf × Result CacheError Bool
shelf_put s m now = shelf_insert (record s { messages = keep_live now s.messages }) m

on_shelf-true :
    (id : Str) (ss : List Stored)
    → on_shelf id ss ≡ true
    → (k : ℕ) × (s : Stored) × (get_elem? ss k ≡ some s) × (s.message.id ≡ id)
unfolding on_shelf
on_shelf-true id [] h = absurd (cc)
on_shelf-true id (s ∷ ss) h = cases (str_dec s.message.id id) h (on_shelf-true id ss)
  where
    cases :
        (d : Dec (s.message.id ≡ id))
        → ite d true (on_shelf id ss) ≡ true
        → (on_shelf id ss ≡ true
            → (k : ℕ) × (t : Stored) × (get_elem? ss k ≡ some t) × (t.message.id ≡ id))
        → (k : ℕ) × (t : Stored) × (get_elem? (s ∷ ss) k ≡ some t) × (t.message.id ≡ id)
    cases (yes e) h ih = (0, s, refl, e)
    cases (no ne) h ih = let (k, t, a, b) = ih h in (suc k, t, a, b)

get_elem?-on_shelf :
    (k : ℕ) (s : Stored) (ss : List Stored)
    → get_elem? ss k ≡ some s
    → on_shelf s.message.id ss ≡ true
unfolding on_shelf
get_elem?-on_shelf k s [] h = absurd (cc)
get_elem?-on_shelf zero s (t ∷ ss) h =
    if_pos (str_dec t.message.id s.message.id) (ap (λ x. x.message.id) (some_inj h)) true
      (on_shelf s.message.id ss)
get_elem?-on_shelf (suc k) s (t ∷ ss) h = ground (arith, get_elem?-on_shelf k s ss h)

-- An ID is known to the items exactly when its message is in the order.
on_shelf-find :
    (c : Cache) (id : Str)
    → Keeps c
    → find str_dec id c.items ≡ none
    → on_shelf id (somes c.order) ≡ false
on_shelf-find c id k missing = elim (Bool-cases (on_shelf id (somes c.order))) [
  | inr e ↦ e
  | inl e ↦
      let (n, s, a, b) = on_shelf-true id (somes c.order) e in
      let (i, h) = get_elem?-somes n s c.order a in
      let (it, f, _, _) = k.held i s h in
      let both : none ≡ some it = sym missing ∙ ap (λ x. find str_dec x c.items) (sym b) ∙ f in
      absurd (cc)
]

find-on_shelf :
    (c : Cache) (id : Str)
    → Keeps c
    → find str_dec id c.items ≢ none
    → on_shelf id (somes c.order) ≡ true
find-on_shelf c id k known = elim (Option-cases (find str_dec id c.items)) [
  | inl e ↦ absurd (known e)
  | inr (it, e) ↦
      let (a, b) = k.placed id it e in
      let (n, h) = somes-get_elem? it.order_index it.stored c.order b in
      subst (λ x. on_shelf x (somes c.order) ≡ true) a
        (get_elem?-on_shelf n it.stored (somes c.order) h)
]

abbrev Shelved : Cache × Result CacheError Bool → Shelf × Result CacheError Bool
Shelved r = (view r.0, r.1)

shelve-Added : (c c' : Cache) (m : Message) → Added c c' m → view c' ≡ shelve (view c) m
unfolding shelve
shelve-Added c c' m a = rw (sym a.contents, sym a.ordinal, sym a.limit, sym a.rejects) refl

insert_message-shelf :
    (now : ℕ) (c : Cache) (m : Message)
    → IsValid c
    → Shelved (insert_message now c m) ≡ shelf_insert (view c) m
unfolding insert_message shelf_insert
insert_message-shelf now c m v = elim (Option-cases (find str_dec m.id c.items)) [
  | inr (it, e) ↦ rw (e, find-on_shelf c m.id v.kept (λ n. clash it e n), insert_message) refl
  | inl e ↦ elim (Bool-cases (ltb c.max_bytes (message_size m))) [
    | inl large ↦ rw (e, on_shelf-find c m.id v.kept e, large, insert_message, shelf_insert) refl
    | inr small ↦
        elim (Bool-cases (c.reject_pressure && ltb c.max_bytes (c.bytes + message_size m))) [
          | inl refused ↦
              rw
                (
                  e,
                  on_shelf-find c m.id v.kept e,
                  small,
                  refused,
                  test true refused,
                  insert_message,
                  shelf_insert,
                )
                refl
          | inr accepted ↦
              rw
                (
                  e,
                  on_shelf-find c m.id v.kept e,
                  small,
                  accepted,
                  test false accepted,
                  insert_message,
                  shelf_insert,
                )
                (ap (λ s. (s, ok true)) (shelve-Added c _ m (add-Added now c m v e (ground arith))))
        ]
  ]
]
  where
    clash :
        (it : Cached) → find str_dec m.id c.items ≡ some it → find str_dec m.id c.items ≡ none → ⊥
    clash it a b = cc

    test :
        (b : Bool)
        → (c.reject_pressure && ltb c.max_bytes (c.bytes + message_size m)) ≡ b
        → (c.reject_pressure && ltb c.max_bytes (total (somes c.order) + message_size m)) ≡ b
    test b h =
        subst (λ n. (c.reject_pressure && ltb c.max_bytes (n + message_size m)) ≡ b) v.kept.counted
          h

-- The calls of a history on a cache, each at its time, with their results.
unfoldable pub put_all : List (Message × ℕ) → Cache → Cache × List (Result CacheError Bool)
put_all [] c = (c, [])
put_all (call ∷ calls) c =
    let (c', r) = put_message c call.0 call.1 in let (c'', rs) = put_all calls c' in (c'', r ∷ rs)

unfoldable pub shelf_put_all : List (Message × ℕ) → Shelf → Shelf × List (Result CacheError Bool)
shelf_put_all [] s = (s, [])
shelf_put_all (call ∷ calls) s =
    let (s', r) = shelf_put s call.0 call.1 in
    let (s'', rs) = shelf_put_all calls s' in (s'', r ∷ rs)

put_message-shelf :
    (c : Cache) (m : Message) (now : ℕ)
    → IsValid c
    → Shelved (put_message c m now) ≡ shelf_put (view c) m now
unfolding put_message shelf_put
put_message-shelf c m now v =
    let l = expire_cache-Live now c v in
    insert_message-shelf now (expire_cache now c) m l.valid
    ∙ ap (λ s. shelf_insert s m) (rw (l.contents, l.ordinal, l.limit, l.rejects) refl)

put_message-IsValid :
    (c : Cache) (m : Message) (now : ℕ) → IsValid c → IsValid (put_message c m now).0
unfolding put_message
put_message-IsValid c m now v =
    insert_message-IsValid now (expire_cache now c) m (expire_cache-Live now c v).valid

-- Any history of calls on a valid cache, each at its time, gives the results of the same calls on
-- the list of its messages in the order of arrival and leaves that list: expired messages go first, a
-- known ID changes nothing, a message that is too large is refused, and where bytes are short the
-- oldest messages go, or the new one is refused if the cache rejects pressure. The cache is valid
-- afterwards.
pub put_all-Shelved :
    (calls : List (Message × ℕ)) (c : Cache)
    → IsValid c
    → ((view (put_all calls c).0, (put_all calls c).1) ≡ shelf_put_all calls (view c))
      × IsValid (put_all calls c).0
unfolding put_all shelf_put_all
put_all-Shelved [] c v = (refl, v)
put_all-Shelved (call ∷ calls) c v =
    let (e, v') =
      put_all-Shelved calls (put_message c call.0 call.1).0
        (put_message-IsValid c call.0 call.1 v) in
    let one = put_message-shelf c call.0 call.1 v in
    (
      ap (λ r. (r.0, (put_message c call.0 call.1).1 ∷ r.1)) e
          ∙ ap (λ r. ((shelf_put_all calls r.0).0, r.1 ∷ (shelf_put_all calls r.0).1)) one,
      v',
    )
