-- ===== src/Cache/Agreement.antt =====
-- The items and the order of the cache of internal/broker/broker.go, and how they agree.
use spruce.Prelude.{
  ℕ, ◌+◌, ◌-◌, ◌≤◌, ◌≡◌, sym, ap, ◌∙◌, ◌≢◌, inl, inr, some, List, [], ◌∷◌, arith, Option-cases,
  some_inj, length, get_elem?, sum_by, sum_by-append, Str, str_dec,
}
use spruce.Prelude.Maps.{
  Map, find, put, del, found-put, found-del, find-put_self, find-put_ne, find-del_ne,
}
use spruce.Message.{message_size}
use spruce.Cache.Slots.{
  Pointers, somes, clear, length-clear, get_elem?-clear, get_elem?-clear_ne, somes-clear,
}
use spruce.Cache.{Stored, Cached, Cache, size_of, topic_place, renumber}

-- Items and order are about the same messages, each at the index that its item has; no message
-- stands before the head; and the bytes are those of the messages in the order.
pub record IsKept (items : Map Str Cached) (order : Pointers Stored) (head bytes : ℕ) : Type 0 where
  pub placed :
      (id : Str) (it : Cached)
      → find str_dec id items ≡ some it
      → (it.stored.message.id ≡ id) × (get_elem? order it.order_index ≡ some (some it.stored))
  pub held :
      (i : ℕ) (s : Stored)
      → get_elem? order i ≡ some (some s)
      → (it : Cached) × (find str_dec s.message.id items ≡ some it)
        × (it.stored ≡ s)
        × (it.order_index ≡ i)
  pub started : (i : ℕ) (s : Stored) → get_elem? order i ≡ some (some s) → head ≤ i
  pub inside : head ≤ length order
  pub counted : bytes ≡ sum_by size_of (somes order)

abbrev pub Keeps : Cache → Type 0
Keeps c = IsKept c.items c.order c.order_head c.bytes

module _ (items : Map Str Cached) (order : Pointers Stored) (head bytes : ℕ) where
  -- Writing an index into the list of a topic.
  place_topic-IsKept :
      (id : Str) (i : ℕ) (it : Cached)
      → find str_dec id items ≡ some it
      → IsKept items order head bytes
      → IsKept (put str_dec id (topic_place i it) items) order head bytes
  place_topic-IsKept id i it found k = record {
    placed = λ j jt h. elim (found-put str_dec id j (topic_place i it) jt items h) [
      | inl (e, same) ↦
          let p = k.placed id it found in
          (ap (λ x. x.stored.message.id) same ∙ p.0 ∙ sym e, rw same p.1)
      | inr (ne, old) ↦ k.placed j jt old
    ];
    held = λ n s h. slot n s (k.held n s h) (str_dec s.message.id id);
    started = k.started;
    inside = k.inside;
    counted = k.counted;
  }
    where
      slot :
          (n : ℕ) (s : Stored)
          → (jt : Cached) × (find str_dec s.message.id items ≡ some jt)
            × (jt.stored ≡ s)
            × (jt.order_index ≡ n)
          → Dec (s.message.id ≡ id)
          → (jt : Cached) × (find str_dec s.message.id (put str_dec id (topic_place i it) items)
              ≡ some jt)
            × (jt.stored ≡ s)
            × (jt.order_index ≡ n)
      slot n s (jt, f, a, b) (yes e) =
          let same : jt ≡ it = some_inj (sym f ∙ ap (λ x. find str_dec x items) e ∙ found) in
          (
            topic_place i it,
            ap (λ x. find str_dec x (put str_dec id (topic_place i it) items)) e
                ∙ find-put_self str_dec id (topic_place i it) items,
            ap (λ x. x.stored) (sym same) ∙ a,
            ap (λ x. x.order_index) (sym same) ∙ b,
          )
      slot n s (jt, f, a, b) (no ne) =
          (jt, find-put_ne str_dec id s.message.id (topic_place i it) items ne ∙ f, a, b)

pub renumber_topic-IsKept :
    (i : ℕ) (ss : List Stored) (items : Map Str Cached) (order : Pointers Stored) (head bytes : ℕ)
    → IsKept items order head bytes
    → IsKept (renumber topic_place i ss items) order head bytes
unfolding renumber
renumber_topic-IsKept i [] items order head bytes k = k
renumber_topic-IsKept i (s ∷ ss) items order head bytes k =
    elim (Option-cases (find str_dec s.message.id items)) [
      | inl e ↦ rw (e, renumber) (renumber_topic-IsKept (i + 1) ss items order head bytes k)
      | inr (it, e) ↦
          rw (e, renumber)
            (renumber_topic-IsKept (i + 1) ss (put str_dec s.message.id (topic_place i it) items)
              order head bytes (place_topic-IsKept items order head bytes s.message.id i it e k))
    ]

-- A message is removed, and the head may move as long as it passes no other.
pub del-IsKept :
    (items : Map Str Cached) (order : Pointers Stored) (head bytes head' : ℕ) (id : Str)
    (it : Cached)
    → find str_dec id items ≡ some it
    → IsKept items order head bytes
    → ((i : ℕ) (s : Stored) → i ≢ it.order_index → get_elem? order i ≡ some (some s) → head' ≤ i)
    → head' ≤ length order
    → IsKept
        (del str_dec id items)
        (clear it.order_index order)
        head'
        (bytes - message_size it.stored.message)
del-IsKept items order head bytes head' id it found k moved within = record {
  placed = λ j jt h.
      let (ne, old) = found-del str_dec id j jt items h in
      let (a, b) = k.placed j jt old in
      (a, get_elem?-clear_ne it.order_index jt.order_index order (apart j jt ne a b) ∙ b);
  held = λ i s h.
      let (ne, old) = get_elem?-clear it.order_index i s order h in
      let (jt, f, a, b) = k.held i s old in
      (jt, find-del_ne str_dec id s.message.id items (other i s jt ne f b) ∙ f, a, b);
  started = λ i s h. let (ne, old) = get_elem?-clear it.order_index i s order h in moved i s ne old;
  inside = omega (arith, within, length-clear it.order_index order);
  counted =
      let (pre, post, a, b) = somes-clear it.order_index it.stored order (k.placed id it found).1 in
      rw b (
        omega (
          arith,
          k.counted,
          ap (sum_by size_of) a,
          sum_by-append size_of pre (it.stored ∷ post),
          sum_by-append size_of pre post,
        ));
}
  where
    apart :
        (j : Str) (jt : Cached)
        → j ≢ id
        → jt.stored.message.id ≡ j
        → get_elem? order jt.order_index ≡ some (some jt.stored)
        → jt.order_index ≢ it.order_index
    apart j jt ne a b same =
        let own = (k.placed id it found) in
        let stored : jt.stored ≡ it.stored =
          some_inj (some_inj (sym b ∙ ap (λ x. get_elem? order x) same ∙ own.1)) in
        ne (sym a ∙ ap (λ x. x.message.id) stored ∙ own.0)

    other :
        (i : ℕ) (s : Stored) (jt : Cached)
        → i ≢ it.order_index
        → find str_dec s.message.id items ≡ some jt
        → jt.order_index ≡ i
        → s.message.id ≢ id
    other i s jt ne f b same = ne (
        sym b
        ∙ ap (λ x. x.order_index) (some_inj (sym f ∙ ap (λ x. find str_dec x items) same ∙ found)))
