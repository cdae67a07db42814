-- ===== src/Client/Batcher/Results.antt =====
-- The results that `ProducerBatcher.run` sends to its callers, counted for each item.
use spruce.Prelude.{
  ℕ, ◌+◌, ◌≡◌, refl, ap, ◌∙◌, inl, inr, Bool, true, false, Option, none, some, List, [], ◌∷◌, ◌++◌,
  map, arith, ◌==◌, if◌then◌else◌, Bool-cases, sum_by, sum_by-append, Str,
}
use spruce.Client.Options.{without_key}
use spruce.Client.Batcher.{
  BatcherOptions, Item, Outcome, cancelled, Call, Run, active, tell_cancelled, tell, checked, reset,
  entry_of, flush_active, flush, append_item, flush_full, flush_for, take_item, Event, publish,
  barrier, tick, handle, handle_all, tell_closed, stop,
}

abbrev pub one : ℕ → ℕ → ℕ
one n k = if k == n then 1 else 0

-- How often a number has a result, is pending, and is published.
abbrev pub told : ℕ → List (ℕ × Outcome) → ℕ
told n = sum_by (λ e. one n e.0)

abbrev pub waiting : ℕ → List Item → ℕ
waiting n = sum_by (λ item. one n item.number)

abbrev pub due : ℕ → Run → ℕ
due n r = told n r.results + waiting n r.pending

told-tell :
    (n : ℕ) (items : List Item) (reply : Option (List Str))
    → told n (tell items reply) ≡ waiting n items
unfolding tell
told-tell n [] reply = refl
told-tell n (item ∷ items) none = omega (arith, told-tell n items none)
told-tell n (item ∷ items) (some []) = omega (arith, told-tell n items (some []))
told-tell n (item ∷ items) (some (id ∷ ids)) = omega (arith, told-tell n items (some ids))

told-tell_cancelled :
    (n : ℕ) (gone : ℕ → Bool) (items : List Item)
    → told n (tell_cancelled gone items) + waiting n (active gone items) ≡ waiting n items
unfolding tell_cancelled active
told-tell_cancelled n gone [] = refl
told-tell_cancelled n gone (item ∷ items) = ground (arith, told-tell_cancelled n gone items)

told-append : (n : ℕ) (xs ys : List (ℕ × Outcome)) → told n (xs ++ ys) ≡ told n xs + told n ys
told-append n xs ys = sum_by-append (λ e. one n e.0) xs ys

waiting-snoc :
    (n : ℕ) (items : List Item) (item : Item)
    → waiting n (items ++ (item ∷ [])) ≡ waiting n items + one n item.number
waiting-snoc n items item =
    omega (arith, sum_by-append (λ (i : Item). one n i.number) items (item ∷ []))

told-tell_closed : (n : ℕ) (items : List Item) → told n (tell_closed items) ≡ waiting n items
unfolding tell_closed
told-tell_closed n [] = refl
told-tell_closed n (item ∷ items) = omega (arith, told-tell_closed n items)

abbrev pub published_count : ℕ → List Event → ℕ
published_count n [] = 0
published_count n (publish item ∷ es) = one n item.number + published_count n es
published_count n (barrier ∷ es) = published_count n es
published_count n (tick ∷ es) = published_count n es

module _ (reply : List Call → Option (List Str)) (ctx_err : ℕ → ℕ → Bool) where
  flush_active-due :
      (n : ℕ) (r : Run) (first : Item) (all items : List Item)
      → told n (tell_cancelled (ctx_err r.reads) all) + waiting n items ≡ waiting n all
      → told n (flush_active reply ctx_err r first all items).results
        ≡ told n r.results + waiting n all
  unfolding flush_active reset
  flush_active-due n r first all [] h =
      omega (arith, h, told-append n r.results (tell_cancelled (ctx_err r.reads) all))
  flush_active-due n r first all (item ∷ items) h = done (
      checked (item ∷ items) (
        reply (
          r.calls
          ++ (record {
            topic = first.topic;
            entries = map entry_of (item ∷ items);
            shared = without_key first.options;
          }
              ∷ []))))
    where
      done :
          (answer : Option (List Str))
          → told n
              (r.results ++ (tell_cancelled (ctx_err r.reads) all ++ tell (item ∷ items) answer))
            ≡ told n r.results + waiting n all
      done answer = omega (
        arith,
        h,
        told-append n r.results
            (tell_cancelled (ctx_err r.reads) all ++ tell (item ∷ items) answer),
        told-append n (tell_cancelled (ctx_err r.reads) all) (tell (item ∷ items) answer),
        told-tell n (item ∷ items) answer,
      )

  flush_active-pending :
      (r : Run) (first : Item) (all items : List Item)
      → (flush_active reply ctx_err r first all items).pending ≡ []
  unfolding flush_active reset
  flush_active-pending r first all [] = refl
  flush_active-pending r first all (item ∷ items) = refl

  -- A flush leaves nothing pending, and what was pending has a result.
  flush-due :
      (n : ℕ) (r : Run)
      → (due n (flush reply ctx_err r) ≡ due n r) × ((flush reply ctx_err r).pending ≡ [])
  unfolding flush
  flush-due n r = cases r.pending refl
    where
      cases :
          (items : List Item)
          → r.pending ≡ items
          → (due n (flush reply ctx_err r) ≡ due n r) × ((flush reply ctx_err r).pending ≡ [])
      cases [] e = rw (e, flush) (rw e refl, e)
      cases (first ∷ rest) e =
          rw (e, flush)
            (
              omega (
                arith,
                ap (waiting n) (
                    flush_active-pending r first (first ∷ rest)
                      (active (ctx_err r.reads) (first ∷ rest))),
                flush_active-due n r first (first ∷ rest) (active (ctx_err r.reads) (first ∷ rest))
                    (told-tell_cancelled n (ctx_err r.reads) (first ∷ rest)),
              ),
              flush_active-pending r first (first ∷ rest) (active (ctx_err r.reads) (first ∷ rest)),
            )

  tick-due : (n : ℕ) (r : Run) (b : Bool) → due n (if b then flush reply ctx_err r else r) ≡ due n r
  tick-due n r true = (flush-due n r).0
  tick-due n r false = refl

  module _ (opts : BatcherOptions) where
    flush_full-due : (n : ℕ) (r : Run) → due n (flush_full reply ctx_err opts r) ≡ due n r
    unfolding flush_full
    flush_full-due n r = ground (arith, (flush-due n r).0)

    flush_for-due :
        (n : ℕ) (r : Run) (item : Item) → due n (flush_for reply ctx_err opts r item) ≡ due n r
    unfolding flush_for
    flush_for-due n r item = ground (arith, (flush-due n r).0)

    append_item-due :
        (n : ℕ) (r : Run) (item : Item) → due n (append_item r item) ≡ due n r + one n item.number
    unfolding append_item
    append_item-due n r item = omega (arith, waiting-snoc n r.pending item)

    take_item-due :
        (n : ℕ) (r : Run) (item : Item)
        → due n (take_item reply ctx_err opts r item) ≡ due n r + one n item.number
    unfolding take_item
    take_item-due n r item = elim (Bool-cases (ctx_err r.reads item.number)) [
      | inl over ↦
          rw (over, take_item)
            (omega (arith, told-append n r.results ((item.number, cancelled) ∷ [])))
      | inr live ↦
          rw (live, take_item)
            (flush_full-due n _
              ∙ append_item-due n _ item
              ∙ ap (λ k. k + one n item.number)
                  (flush_for-due n (record r { reads = r.reads + 1 }) item))
    ]

    handle_all-due :
        (n : ℕ) (r : Run) (es : List Event)
        → due n (handle_all reply ctx_err opts r es) ≡ due n r + published_count n es
    unfolding handle_all handle
    handle_all-due n r [] = omega arith
    handle_all-due n r (publish item ∷ es) =
        omega
          (arith, handle_all-due n (take_item reply ctx_err opts r item) es, take_item-due n r item)
    handle_all-due n r (barrier ∷ es) =
        omega (arith, handle_all-due n (flush reply ctx_err r) es, (flush-due n r).0)
    handle_all-due n r (tick ∷ es) = omega (
      arith,
      handle_all-due n (if r.timer then flush reply ctx_err r else r) es,
      tick-due n r r.timer,
    )

    -- Whatever the client replies, whichever contexts end when, and however publishes, barriers
    -- and timer ticks alternate from an empty batcher: once it has stopped, nothing is pending,
    -- and each item has been told a result exactly as often as it was published, those left in the
    -- queue included.
    pub stop-told :
        (n : ℕ) (r : Run) (es : List Event) (queued : List Item)
        → r.pending ≡ []
        → r.results ≡ []
        → (told n (stop reply ctx_err (handle_all reply ctx_err opts r es) queued).results
            ≡ published_count n es + waiting n queued)
          × ((stop reply ctx_err (handle_all reply ctx_err opts r es) queued).pending ≡ [])
    unfolding stop
    stop-told n r es queued none_pending none_told =
        let end = handle_all reply ctx_err opts r es in
        let (same, empty) = flush-due n end in
        (
          omega (
            arith,
            told-append n (flush reply ctx_err end).results (tell_closed queued),
            told-tell_closed n queued,
            same,
            handle_all-due n r es,
            ap (waiting n) empty,
            ap (waiting n) none_pending,
            ap (told n) none_told,
          ),
          empty,
        )
