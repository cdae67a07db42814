-- ===== src/Client/Retry/Examples.antt =====
-- A publish that succeeds at the third attempt.
use spruce.Prelude.{ℕ, ◌≡◌, refl, Bool, false, [], ◌∷◌, ℕ_discrete, ◌==◌, if◌then◌else◌, str_dec}
use spruce.Prelude.Int.{pos, negsuc}
use spruce.Client.Options.{PublishOptions}
use spruce.Client.Retry.{
  Reply, published, api_error, RetryOptions, retry_options, is_permanent, retry_after_of,
  retry_delay, done, rejected, gave_up, settle, retry_loop, publish_retry,
}
use spruce.Client.Retry.Attempts.{Tried, publish_retry-Tried}

program : Unit {0}
unfolding str_dec ℕ_discrete retry_options is_permanent retry_after_of retry_delay settle retry_loop
    publish_retry
program = tt

abbrev keyed : PublishOptions
keyed = record {
  key = [];
  content_type = [];
  producer_id = 112 ∷ [];
  idempotency_key = 105 ∷ [];
  ack = [];
  compression = [];
  ttl = pos 0;
}

abbrev busy_twice : ℕ → Reply
busy_twice n =
    if n == 0 then api_error 503 0 else if n == 1 then api_error 429 7000 else published (100 ∷ [])

abbrev opts : RetryOptions
opts = retry_options (negsuc 0) (pos 100) (pos 1000)

abbrev never : ℕ → Bool
never n = false

third : publish_retry opts busy_twice (λ n. 30) never keyed ≡ (done (100 ∷ []), 2, 80 ∷ 7000 ∷ [])
unfolding program
third = refl

gives_up :
    (publish_retry (record opts { max_attempts = 2 }) busy_twice (λ n. 30) never keyed).0
    ≡ gave_up (api_error 429 7000)
unfolding program
gives_up = refl

not_retried :
    publish_retry opts (λ n. api_error 400 0) (λ n. 30) never keyed
    ≡ (rejected (api_error 400 0), 0, [])
unfolding program
not_retried = refl

publish_retry-Tried_example :
    Tried opts busy_twice (λ n. 30) never 0 7 (publish_retry opts busy_twice (λ n. 30) never keyed)
unfolding program
publish_retry-Tried_example =
    publish_retry-Tried opts busy_twice (λ n. 30) never keyed (λ e. cc) (λ e. cc)
