-- ===== src/Client/Batcher/Calls.antt =====
-- The calls of `PublishBatchEntries` that `ProducerBatcher.run` makes.
use spruce.Prelude.{
  ℕ, suc, ◌+◌, ◌≤◌, ◌<◌, ◌≡◌, refl, sym, ap, subst, ◌∙◌, inl, inr, ite, Bool, true, false, ◌||◌,
  Option, List, [], ◌∷◌, ◌++◌, map, arith, leb, if◌then◌else◌, Bool-cases, length, length-append,
  All, All-snoc, sum_by, sum_by-append, Str, str_dec,
}
use spruce.Client.Options.{PublishOptions, without_key, options_dec}
use spruce.Client.Batcher.{
  BatcherOptions, Item, Call, Run, size_of, active, reset, entry_of, compatible, flush_active,
  flush, must_flush, append_item, flush_full, flush_for, take_item, Event, publish, barrier, tick,
  handle, handle_all,
}

abbrev pub bytes_of : List Item → ℕ
bytes_of = sum_by size_of

module _ (opts : BatcherOptions) (P : Item → Type 0) where
  -- An item and the topic and options it travels with.
  abbrev pub Fits : Str → PublishOptions → Item → Type 0
  Fits topic shared item = P item × (item.topic ≡ topic) × (without_key item.options ≡ shared)

  pub record Sound (c : Call) : Type 0 where
    pub items : List Item
    pub encoded : c.entries ≡ map entry_of items
    pub fit : All (Fits c.topic c.shared) items
    pub some_item : 0 < length items
    pub few : length items ≤ opts.max_messages
    pub small : bytes_of items ≤ opts.max_bytes

  -- The pending items fit together, with their timer running, and there is room for one more.
  abbrev pub Alike : List Item → Type 0
  Alike [] = Unit {0}
  Alike (first ∷ rest) = All (Fits first.topic (without_key first.options)) (first ∷ rest)

  pub record Batched (r : Run) : Type 0 where
    pub counted : r.pending_bytes ≡ bytes_of r.pending
    pub alike : Alike r.pending
    pub few : length r.pending ≤ opts.max_messages
    pub small : r.pending_bytes ≤ opts.max_bytes
    pub timed : 0 < length r.pending → r.timer ≡ true
    pub sound : All Sound r.calls

  -- Between two events there is room for one more item.
  abbrev pub Room : Run → Type 0
  Room r = (length r.pending < opts.max_messages) × (r.pending_bytes < opts.max_bytes)

  active-All :
      (gone : ℕ → Bool) (Q : Item → Type 0) (items : List Item)
      → All Q items
      → All Q (active gone items)
        × (length (active gone items) ≤ length items)
        × (bytes_of (active gone items) ≤ bytes_of items)
  unfolding active
  active-All gone Q [] h = (tt, omega arith, omega arith)
  active-All gone Q (item ∷ items) h = cases (gone item.number) (active-All gone Q items h.1)
    where
      cases :
          (b : Bool)
          → All Q (active gone items)
            × (length (active gone items) ≤ length items)
            × (bytes_of (active gone items) ≤ bytes_of items)
          → All Q (if b then active gone items else item ∷ active gone items)
            × (length (if b then active gone items else item ∷ active gone items)
                ≤ suc (length items))
            × (bytes_of (if b then active gone items else item ∷ active gone items)
                ≤ size_of item + bytes_of items)
      cases true ih = (ih.0, omega (arith, ih.1), omega (arith, ih.1))
      cases false ih = ((h.0, ih.0), omega (arith, ih.1), omega (arith, ih.1))

  compatible-Fits :
      (first item : Item)
      → P item
      → compatible first item ≡ true
      → Fits first.topic (without_key first.options) item
  unfolding compatible
  compatible-Fits first item p h =
      cases (str_dec first.topic item.topic)
        (options_dec (without_key first.options) (without_key item.options)) h
    where
      cases :
          (d : Dec (first.topic ≡ item.topic))
          (e : Dec (without_key first.options ≡ without_key item.options))
          → ite d (ite e true false) false ≡ true
          → Fits first.topic (without_key first.options) item
      cases (yes t) (yes o) h = (p, sym t, sym o)
      cases (yes t) (no no_o) h = absurd (cc)
      cases (no no_t) e h = absurd (cc)

  module _ (reply : List Call → Option (List Str)) (ctx_err : ℕ → ℕ → Bool) where
    flush_active-Batched :
        (r : Run) (first : Item) (all items : List Item)
        → All (Fits first.topic (without_key first.options)) items
        → length items ≤ opts.max_messages
        → bytes_of items ≤ opts.max_bytes
        → All Sound r.calls
        → Batched (flush_active reply ctx_err r first all items)
    unfolding flush_active reset
    flush_active-Batched r first all [] fit few small sound = record {
      counted = refl;
      alike = tt;
      few = omega arith;
      small = omega arith;
      timed = λ h. absurd (omega arith);
      sound = sound;
    }
    flush_active-Batched r first all (item ∷ items) fit few small sound = record {
      counted = refl;
      alike = tt;
      few = omega arith;
      small = omega arith;
      timed = λ h. absurd (omega arith);
      sound = All-snoc Sound r.calls _ sound (record {
        items = item ∷ items;
        encoded = refl;
        fit = fit;
        some_item = omega arith;
        few = few;
        small = small;
      });
    }

    -- A flush leaves nothing pending.
    flush-Batched :
        (r : Run)
        → Batched r
        → Batched (flush reply ctx_err r)
          × ((flush reply ctx_err r).pending ≡ [])
          × ((flush reply ctx_err r).pending_bytes ≡ 0)
    unfolding flush
    flush-Batched r v = cases r.pending refl
      where
        cases :
            (items : List Item)
            → r.pending ≡ items
            → Batched (flush reply ctx_err r)
              × ((flush reply ctx_err r).pending ≡ [])
              × ((flush reply ctx_err r).pending_bytes ≡ 0)
        cases [] e = rw (e, flush) (v, e, v.counted ∙ ap bytes_of e)
        cases (first ∷ rest) e =
            rw (e, flush)
              (
                flush_active-Batched r first (first ∷ rest)
                    (active (ctx_err r.reads) (first ∷ rest)) a.0
                    (omega (arith, a.1, v.few, ap length e))
                    (omega (arith, a.2, v.counted, v.small, ap bytes_of e)) v.sound,
                (nothing (active (ctx_err r.reads) (first ∷ rest))).0,
                (nothing (active (ctx_err r.reads) (first ∷ rest))).1,
              )
          where
            a :
                All
                  (Fits first.topic (without_key first.options))
                  (active (ctx_err r.reads) (first ∷ rest))
                × (length (active (ctx_err r.reads) (first ∷ rest)) ≤ length (first ∷ rest))
                × (bytes_of (active (ctx_err r.reads) (first ∷ rest)) ≤ bytes_of (first ∷ rest))
            a =
                active-All (ctx_err r.reads) (Fits first.topic (without_key first.options))
                  (first ∷ rest) (subst Alike e v.alike)

            nothing :
                (items : List Item)
                → ((flush_active reply ctx_err r first (first ∷ rest) items).pending ≡ [])
                  × ((flush_active reply ctx_err r first (first ∷ rest) items).pending_bytes ≡ 0)
            nothing [] = unfold flush_active reset in (refl, refl)
            nothing (item ∷ items) = unfold flush_active reset in (refl, refl)

    -- The pending batch can take the item.
    abbrev Takes : Run → Item → Type 0
    Takes r item =
        (Alike (r.pending ++ (item ∷ [])))
        × (length r.pending < opts.max_messages)
        × (r.pending_bytes + size_of item ≤ opts.max_bytes)

    append_item-Batched :
        (r : Run) (item : Item) → Batched r → Takes r item → Batched (append_item r item)
    unfolding append_item
    append_item-Batched r item v t = record {
      counted = omega (arith, v.counted, sum_by-append size_of r.pending (item ∷ []));
      alike = t.0;
      few = omega (arith, t.1, length-append r.pending (item ∷ []));
      small = t.2;
      timed = λ h. ground (arith, v.timed);
      sound = v.sound;
    }

    Takes-empty :
        (r : Run) (item : Item)
        → 0 < opts.max_messages
        → size_of item ≤ opts.max_bytes
        → P item
        → r.pending ≡ []
        → r.pending_bytes ≡ 0
        → Takes r item
    Takes-empty r item some_room small p e z = (
      subst (λ items. Alike (items ++ (item ∷ []))) (sym e) ((p, refl, refl), tt),
      omega (arith, ap length e),
      omega arith,
    )

    Takes-pending :
        (r : Run) (item : Item)
        → 0 < opts.max_messages
        → size_of item ≤ opts.max_bytes
        → P item
        → Batched r
        → must_flush opts r item ≡ false
        → Takes r item
    unfolding must_flush
    Takes-pending r item some_room small p v h = cases r.pending refl
      where
        cases : (items : List Item) → r.pending ≡ items → Takes r item
        cases [] e = Takes-empty r item some_room small p e (v.counted ∙ ap bytes_of e)
        cases (first ∷ rest) e =
            let test = rw (e, must_flush) at h in
            (
              subst (λ items. Alike (items ++ (item ∷ []))) (sym e)
                  (All-snoc (Fits first.topic (without_key first.options)) (first ∷ rest) item
                    (subst Alike e v.alike) (compatible-Fits first item p (ground arith))),
              ground arith,
              ground arith,
            )

    flush_for-Batched :
        (r : Run) (item : Item)
        → 0 < opts.max_messages
        → size_of item ≤ opts.max_bytes
        → P item
        → Batched r
        → Batched (flush_for reply ctx_err opts r item)
          × Takes (flush_for reply ctx_err opts r item) item
    unfolding flush_for
    flush_for-Batched r item some_room small p v = elim (Bool-cases (must_flush opts r item)) [
      | inl must ↦
          let (w, e, z) = flush-Batched r v in
          rw (must, flush_for) (w, Takes-empty (flush reply ctx_err r) item some_room small p e z)
      | inr fits ↦ rw (fits, flush_for) (v, Takes-pending r item some_room small p v fits)
    ]

    flush_full-Batched : (r : Run) → Batched r → Batched (flush_full reply ctx_err opts r)
    unfolding flush_full
    flush_full-Batched r v =
        pick (leb opts.max_messages (length r.pending) || leb opts.max_bytes r.pending_bytes)
      where
        pick : (b : Bool) → Batched (if b then flush reply ctx_err r else r)
        pick true = (flush-Batched r v).0
        pick false = v

    take_item-Batched :
        (r : Run) (item : Item)
        → 0 < opts.max_messages
        → size_of item ≤ opts.max_bytes
        → P item
        → Batched r
        → Batched (take_item reply ctx_err opts r item)
    unfolding take_item
    take_item-Batched r item some_room small p v = elim (Bool-cases (ctx_err r.reads item.number)) [
      | inl over ↦
          rw (over, take_item)
            (record {
              counted = v.counted;
              alike = v.alike;
              few = v.few;
              small = v.small;
              timed = v.timed;
              sound = v.sound;
            })
      | inr live ↦
          let looked : Batched (record r { reads = r.reads + 1 }) = record {
            counted = v.counted;
            alike = v.alike;
            few = v.few;
            small = v.small;
            timed = v.timed;
            sound = v.sound;
          } in
          let (w, t) =
            flush_for-Batched (record r { reads = r.reads + 1 }) item some_room small p looked in
          rw (live, take_item) (flush_full-Batched _ (append_item-Batched _ item w t))
    ]

    abbrev pub Published : List Event → Type 0
    Published [] = Unit {0}
    Published (publish item ∷ es) = (P item × (size_of item ≤ opts.max_bytes)) × Published es
    Published (barrier ∷ es) = Published es
    Published (tick ∷ es) = Published es

    tick-Batched :
        (r : Run) (b : Bool) → Batched r → Batched (if b then flush reply ctx_err r else r)
    tick-Batched r true v = (flush-Batched r v).0
    tick-Batched r false v = v

    -- From a batcher in order, whatever is published, flushed and timed, with items that passed the
    -- check of `Publish`: each call has between one and `max_messages` entries and at most
    -- `max_bytes` bytes, its entries are items that were published, for the topic and with the
    -- options of the call, and while items are pending their timer runs.
    pub handle_all-Batched :
        (r : Run) (es : List Event)
        → 0 < opts.max_messages
        → Published es
        → Batched r
        → Batched (handle_all reply ctx_err opts r es)
    unfolding handle_all handle
    handle_all-Batched r [] some_room h v = v
    handle_all-Batched r (publish item ∷ es) some_room h v =
        handle_all-Batched (take_item reply ctx_err opts r item) es some_room h.1
          (take_item-Batched r item some_room h.0.1 h.0.0 v)
    handle_all-Batched r (barrier ∷ es) some_room h v =
        handle_all-Batched (flush reply ctx_err r) es some_room h (flush-Batched r v).0
    handle_all-Batched r (tick ∷ es) some_room h v =
        handle_all-Batched (if r.timer then flush reply ctx_err r else r) es some_room h
          (tick-Batched r r.timer v)
