-- ===== src/Client/Batcher.antt =====
-- The producer batcher: pkg/spruce/batcher.go. The fields of `batchPublish` that `run` reads are an
-- item, whose number stands for the pointer. `run` handles one command at a time, so its state goes
-- from event to event; the channel `done` of an item is the log of the results.
pub mod Results
pub mod Limits
pub mod Calls
mod Examples
use spruce.Prelude.{
  ℕ, zero, suc, ◌+◌, ◌-◌, ◌*◌, ◌/◌, ◌%◌, ◌^◌, ◌≤◌, ◌<◌, min, max, ◌≡◌, refl, sym, ap, subst, ◌∙◌,
  ◌≢◌, ◌⊎◌, inl, inr, ite, if_pos, if_neg, Bool, true, false, not, ◌&&◌, ◌||◌, Option, none, some,
  List, [], ◌∷◌, ◌++◌, map, append_assoc, append-nil, arith, dec_lt, dec_le, ℕ_discrete, ltb, leb,
  ◌==◌, if◌then◌else◌, tests, Bool-cases, Option-cases, some_inj, length, get_elem?, take, drop,
  length-append, All, All-map, All-zip, All-drop_mid, All-snoc, sum_by, sum_by-append, Str, str_dec,
  Result, ok, err, ◌>>=◌, ◌>>◌, fail_if, bind_ok, passed,
}
use spruce.Prelude.Int.{ℤ, pos, negsuc}
use spruce.Client.Options.{PublishOptions, BatchEntry, options_dec, without_key}

pub record BatcherOptions : Type 0 where
  pub max_messages : ℕ
  pub max_bytes : ℕ
  pub max_delay : ℕ
  pub queue_depth : ℕ

-- `if x <= 0 { x = default }`
unfoldable pub or_default : ℤ → ℕ → ℕ
or_default (pos zero) default = default
or_default (pos (suc n)) default = suc n
or_default (negsuc n) default = default

-- The options as `NewProducerBatcher` keeps them; durations are in nanoseconds.
unfoldable pub normalize : ℤ → ℤ → ℤ → ℤ → BatcherOptions
normalize max_messages max_bytes max_delay queue_depth = record {
  max_messages = min (or_default max_messages 256) 4096;
  max_bytes = min (or_default max_bytes 1048576) 16777216;
  max_delay = or_default max_delay 250000;
  queue_depth = min (or_default queue_depth 4096) 65536;
}

pub record Item : Type 0 where
  pub number : ℕ
  pub topic : Str
  pub payload : Str
  pub options : PublishOptions

unfoldable pub batch_entry_size : Str → Str → ℕ
batch_entry_size payload key = 6 + length key + length payload

abbrev pub size_of : Item → ℕ
size_of item = batch_entry_size item.payload item.options.key

-- The errors of `Publish` before it waits.
pub data Refusal : Type 0 where
  topic_required : Refusal
  exceeds_limits : Refusal
  incompatible_option : Refusal

abbrev pub local : Str
local = 108 ∷ 111 ∷ 99 ∷ 97 ∷ 108 ∷ []

abbrev empty_text : Str → Bool
empty_text s = ite (str_dec s []) true false

unfoldable pub publish_check : BatcherOptions → Item → Result Refusal (Unit {0})
unfolding batch_entry_size
publish_check opts item = do
  fail_if (empty_text item.topic) topic_required
  fail_if
      (ltb opts.max_bytes (size_of item)
        || ltb 1048576 (length item.payload)
        || ltb 8192 (length item.options.key))
      exceeds_limits
  fail_if
      (not (empty_text item.options.idempotency_key)
        || (not (empty_text item.options.ack)
            && not (ite (str_dec item.options.ack local) true false)))
      incompatible_option
  ok tt

-- What an item's caller receives.
pub data Outcome : Type 0 where
  published : Str → Outcome
  cancelled : Outcome
  failed : Outcome
  closed : Outcome

-- A call of `PublishBatchEntries`.
pub record Call : Type 0 where
  pub topic : Str
  pub entries : List BatchEntry
  pub shared : PublishOptions

-- `reads` counts the looks at the items' contexts.
pub record Run : Type 0 where
  pub pending : List Item
  pub pending_bytes : ℕ
  pub timer : Bool
  pub reads : ℕ
  pub calls : List Call
  pub results : List (ℕ × Outcome)

unfoldable pub entry_of : Item → BatchEntry
entry_of item = record { payload = item.payload; key = item.options.key }

unfoldable pub active : (ℕ → Bool) → List Item → List Item
active gone [] = []
active gone (item ∷ items) =
    if gone item.number then active gone items else item ∷ active gone items

unfoldable pub tell_cancelled : (ℕ → Bool) → List Item → List (ℕ × Outcome)
tell_cancelled gone [] = []
tell_cancelled gone (item ∷ items) =
    if gone item.number
    then (item.number, cancelled) ∷ tell_cancelled gone items
    else tell_cancelled gone items

-- The results of the active items: an ID each, or the error of the call for all.
unfoldable pub tell : List Item → Option (List Str) → List (ℕ × Outcome)
tell [] reply = []
tell (item ∷ items) none = (item.number, failed) ∷ tell items none
tell (item ∷ items) (some []) = (item.number, published []) ∷ tell items (some [])
tell (item ∷ items) (some (id ∷ ids)) = (item.number, published id) ∷ tell items (some ids)

-- A reply with another number of IDs is an error.
unfoldable pub checked : List Item → Option (List Str) → Option (List Str)
checked items none = none
checked items (some ids) = if length ids == length items then some ids else none

unfoldable pub compatible : Item → Item → Bool
compatible a c =
    ite (str_dec a.topic c.topic)
      (ite (options_dec (without_key a.options) (without_key c.options)) true false) false

unfoldable pub reset : Run → Run
reset r = record r { pending = []; pending_bytes = 0; timer = false }

unfoldable pub append_item : Run → Item → Run
unfolding batch_entry_size
append_item r item = record r {
  pending = r.pending ++ (item ∷ []);
  pending_bytes = r.pending_bytes + size_of item;
  timer = if length r.pending == 0 then true else r.timer;
}

-- Whether the pending batch cannot take the item.
unfoldable pub must_flush : BatcherOptions → Run → Item → Bool
must_flush opts r item = elim r.pending [
  | [] ↦ false
  | first ∷ rest ↦
      not (compatible first item)
      || leb opts.max_messages (length r.pending)
      || ltb opts.max_bytes (r.pending_bytes + size_of item)
]

-- What `run` takes up next. A timer that is off does not fire.
pub data Event : Type 0 where
  publish : Item → Event
  barrier : Event
  tick : Event

-- The items that are still in the queue when the batcher stops.
unfoldable pub tell_closed : List Item → List (ℕ × Outcome)
tell_closed [] = []
tell_closed (item ∷ items) = (item.number, closed) ∷ tell_closed items

-- `reply` is what `PublishBatchEntries` returns to the last of the calls so far, `none` for an error,
-- and `ctx_err n` tells whose contexts are over at the n-th look.
module _ (reply : List Call → Option (List Str)) (ctx_err : ℕ → ℕ → Bool) where
  -- `flush` where some contexts are over and these items are left.
  unfoldable pub flush_active : Run → Item → List Item → List Item → Run
  flush_active r first all [] = reset (record r {
    reads = r.reads + 1;
    results = r.results ++ tell_cancelled (ctx_err r.reads) all;
  })
  flush_active r first all (item ∷ items) =
      let calls =
        r.calls
        ++ (record {
          topic = first.topic;
          entries = map entry_of (item ∷ items);
          shared = without_key first.options;
        }
            ∷ []) in
      reset (record r {
        reads = r.reads + 1;
        calls = calls;
        results =
            r.results
            ++ (tell_cancelled (ctx_err r.reads) all
                ++ tell (item ∷ items) (checked (item ∷ items) (reply calls)));
      })

  -- `flush`
  unfoldable pub flush : Run → Run
  flush r = elim r.pending [
    | [] ↦ r
    | first ∷ rest ↦ flush_active r first (first ∷ rest) (active (ctx_err r.reads) (first ∷ rest))
  ]

  unfoldable pub flush_full : BatcherOptions → Run → Run
  flush_full opts r =
      if leb opts.max_messages (length r.pending) || leb opts.max_bytes r.pending_bytes
      then flush r
      else r

  unfoldable pub flush_for : BatcherOptions → Run → Item → Run
  flush_for opts r item = if must_flush opts r item then flush r else r

  -- A publish command.
  unfoldable pub take_item : BatcherOptions → Run → Item → Run
  take_item opts r item =
      let looked = record r { reads = r.reads + 1 } in
      if ctx_err r.reads item.number
      then record looked { results = r.results ++ ((item.number, cancelled) ∷ []) }
      else flush_full opts (append_item (flush_for opts looked item) item)

  unfoldable pub handle : BatcherOptions → Run → Event → Run
  handle opts r (publish item) = take_item opts r item
  handle opts r barrier = flush r
  handle opts r tick = if r.timer then flush r else r

  unfoldable pub handle_all : BatcherOptions → Run → List Event → Run
  handle_all opts r [] = r
  handle_all opts r (e ∷ es) = handle_all opts (handle opts r e) es

  -- The end: the pending items are flushed, and those in the queue are told.
  unfoldable pub stop : Run → List Item → Run
  stop r queued = let r' = flush r in record r' { results = r'.results ++ tell_closed queued }
