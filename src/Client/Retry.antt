-- ===== src/Client/Retry.antt =====
-- `PublishRetry` and `retryDelay` of pkg/spruce/client.go. Durations are nanoseconds below 2^62, so
-- doubling a backoff does not wrap. What `Publish` returns, the random jitter and whether the context
-- ends in a wait are functions of the number of the attempt.
pub mod Attempts
mod Examples
use spruce.Prelude.{
  ℕ, zero, suc, ◌+◌, ◌-◌, ◌*◌, ◌/◌, ◌%◌, ◌^◌, ◌≤◌, ◌<◌, min, max, ◌≡◌, refl, sym, ap, subst, ◌∙◌,
  ◌≢◌, ◌⊎◌, inl, inr, ite, if_pos, if_neg, Bool, true, false, not, ◌&&◌, ◌||◌, Option, none, some,
  List, [], ◌∷◌, ◌++◌, map, append_assoc, append-nil, arith, dec_lt, dec_le, ℕ_discrete, ltb, leb,
  ◌==◌, if◌then◌else◌, tests, Bool-cases, Option-cases, some_inj, le→leb, length, get_elem?, take,
  drop, length-append, All, All-map, All-zip, All-drop_mid, All-snoc, sum_by, sum_by-append, Str,
  str_dec, Result, ok, err, ◌>>=◌, ◌>>◌, fail_if, bind_ok, passed,
}
use spruce.Prelude.Int.{ℤ, pos, negsuc}
use spruce.Client.Options.{PublishOptions}

-- What `Publish` returns: a result, an `*Error` with its status and `RetryAfter`, or another error.
pub data Reply : Type 0 where
  published : Str → Reply
  api_error : ℕ → ℕ → Reply
  other_error : Reply

pub record RetryOptions : Type 0 where
  pub max_attempts : ℕ
  pub min_backoff : ℕ
  pub max_backoff : ℕ

abbrev positive_or : ℤ → ℕ → ℕ
positive_or (pos zero) default = default
positive_or (pos (suc n)) default = suc n
positive_or (negsuc n) default = default

unfoldable pub retry_options : ℤ → ℤ → ℤ → RetryOptions
retry_options max_attempts min_backoff max_backoff = record {
  max_attempts = positive_or max_attempts 8;
  min_backoff = positive_or min_backoff 50000000;
  max_backoff = positive_or max_backoff 2000000000;
}

unfoldable pub is_permanent : Reply → Bool
is_permanent (published id) = false
is_permanent (api_error status retry_after) =
    not (status == 408) && not (status == 429) && ltb status 500
is_permanent other_error = false

unfoldable pub retry_after_of : Reply → ℕ
retry_after_of (published id) = 0
retry_after_of (api_error status retry_after) = retry_after
retry_after_of other_error = 0

-- `retryDelay`; the jitter is below the backoff, or 0.
unfoldable pub retry_delay : ℕ → ℕ → ℕ → ℕ → ℕ
retry_delay backoff maximum retry_after jitter =
    max (min (backoff / 2 + jitter % max 1 backoff) maximum) retry_after

pub data Outcome : Type 0 where
  missing_identity : Outcome
  done : Str → Outcome
  rejected : Reply → Outcome
  gave_up : Reply → Outcome
  interrupted : Outcome

module _ (opts : RetryOptions) (reply : ℕ → Reply) (jitter : ℕ → ℕ) (ends : ℕ → Bool) where
  -- What the loop returns at this attempt, or `none` where it goes on after the delay.
  unfoldable pub settle : ℕ → ℕ → Option Outcome
  settle left attempt = elim (reply attempt) [
    | published id ↦ some (done id)
    | api_error status retry_after ↦
        if is_permanent (api_error status retry_after)
        then some (rejected (api_error status retry_after))
        else if left == 0
        then some (gave_up (api_error status retry_after))
        else if ends attempt
        then some interrupted
        else none
    | other_error ↦
        if left == 0
        then some (gave_up other_error)
        else if ends attempt
        then some interrupted
        else none
  ]

  abbrev delay_of : ℕ → ℕ → ℕ
  delay_of attempt backoff =
      retry_delay backoff opts.max_backoff (retry_after_of (reply attempt)) (jitter attempt)

  -- The loop with this many attempts left after the present one: the outcome, the number of the last
  -- attempt, and the delays before the attempts that follow.
  unfoldable pub retry_loop : ℕ → ℕ → ℕ → Outcome × ℕ × List ℕ
  unfolding retry_delay retry_after_of
  retry_loop zero attempt backoff = elim (settle 0 attempt) [
    | some o ↦ (o, attempt, [])
    | none ↦ (interrupted, attempt, [])
  ]
  retry_loop (suc left) attempt backoff =
      let (o, last, delays) = retry_loop left (attempt + 1) (min (backoff * 2) opts.max_backoff) in
      elim (settle (suc left) attempt) [
        | some o' ↦ (o', attempt, [])
        | none ↦ (o, last, delay_of attempt backoff ∷ delays)
      ]

  -- `PublishRetry`; the options are normalised, so that at least one attempt is made.
  unfoldable pub publish_retry : PublishOptions → Outcome × ℕ × List ℕ
  publish_retry o =
      if ite (str_dec o.producer_id []) true (ite (str_dec o.idempotency_key []) true false)
      then (missing_identity, 0, [])
      else retry_loop (opts.max_attempts - 1) 0 opts.min_backoff
