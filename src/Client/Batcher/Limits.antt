-- ===== src/Client/Batcher/Limits.antt =====
-- The options of `NewProducerBatcher` and the check of `Publish`.
use spruce.Prelude.{
  ℕ, zero, suc, ◌≤◌, ◌<◌, ◌≡◌, sym, ◌∙◌, ◌≢◌, if_pos, true, false, ◌||◌, [], arith, ltb, length,
  str_dec, ok, passed,
}
use spruce.Prelude.Int.{ℤ, pos, negsuc}
use spruce.Client.Batcher.{
  BatcherOptions, or_default, normalize, Item, size_of, publish_check, empty_text, topic_required,
  exceeds_limits,
}

or_default_pos : (z : ℤ) (default : ℕ) → 0 < default → 0 < or_default z default
unfolding or_default
or_default_pos (pos zero) default h = h
or_default_pos (pos (suc n)) default h = omega arith
or_default_pos (negsuc n) default h = h

-- Whatever the caller asks for, the limits are positive and within those of the protocol.
pub normalize-bounds :
    (max_messages max_bytes max_delay queue_depth : ℤ)
    → let o = normalize max_messages max_bytes max_delay queue_depth in
      (0 < o.max_messages)
      × (o.max_messages ≤ 4096)
      × (0 < o.max_bytes)
      × (o.max_bytes ≤ 16777216)
      × (0 < o.max_delay)
      × (0 < o.queue_depth)
      × (o.queue_depth ≤ 65536)
unfolding normalize
normalize-bounds a b c d = omega (
  arith,
  or_default_pos a 256 (omega arith),
  or_default_pos b 1048576 (omega arith),
  or_default_pos c 250000 (omega arith),
  or_default_pos d 4096 (omega arith),
)

-- An item that `Publish` lets through fits in a batch and in the protocol.
pub publish_check-fits :
    (opts : BatcherOptions) (item : Item)
    → publish_check opts item ≡ ok tt
    → (item.topic ≢ [])
      × (size_of item ≤ opts.max_bytes)
      × (length item.payload ≤ 1048576)
      × (length item.options.key ≤ 8192)
unfolding publish_check
publish_check-fits opts item h =
    let (named, h₁) = passed (empty_text item.topic) topic_required _ h in
    let (sized, h₂) =
      passed
        (ltb opts.max_bytes (size_of item)
          || ltb 1048576 (length item.payload)
          || ltb 8192 (length item.options.key))
        exceeds_limits _ h₁ in
    (
      λ e. ground (arith, sym (if_pos (str_dec item.topic []) e true false) ∙ named),
      ground arith,
      ground arith,
      ground arith,
    )
