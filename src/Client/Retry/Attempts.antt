-- ===== src/Client/Retry/Attempts.antt =====
-- The attempts of a publish with retries: how many there are, what ends them, and how long they wait.
use spruce.Prelude.{
  ℕ, zero, suc, ◌+◌, ◌-◌, ◌*◌, ◌≤◌, min, max, ◌≡◌, refl, sym, subst, ◌≢◌, inl, inr, ite, if_neg,
  Bool, true, false, Option, none, some, List, [], ◌∷◌, arith, ◌==◌, if◌then◌else◌, Bool-cases,
  Option-cases, some_inj, length, str_dec,
}
use spruce.Client.Options.{PublishOptions}
use spruce.Client.Retry.{
  Reply, published, api_error, other_error, RetryOptions, is_permanent, retry_after_of, retry_delay,
  Outcome, missing_identity, done, rejected, gave_up, interrupted, settle, retry_loop,
  publish_retry,
}

-- A delay is at least what the server asked for, and no longer than that or the largest backoff.
pub retry_delay-bounds :
    (backoff maximum retry_after jitter : ℕ)
    → (retry_after ≤ retry_delay backoff maximum retry_after jitter)
      × (retry_delay backoff maximum retry_after jitter ≤ max maximum retry_after)
unfolding retry_delay
retry_delay-bounds backoff maximum retry_after jitter = omega arith

not_none : {x : Outcome} → ◌≡◌ {A = Option Outcome} (some x) none → ⊥
not_none e = cc

module _ (opts : RetryOptions) (reply : ℕ → Reply) (jitter : ℕ → ℕ) (ends : ℕ → Bool) where
  -- What an outcome says of the reply that it ends with.
  abbrev pub Ended : Outcome → ℕ → Type 0
  Ended missing_identity n = ⊥
  Ended (done id) n = reply n ≡ published id
  Ended (rejected r) n = (reply n ≡ r) × (is_permanent r ≡ true)
  Ended (gave_up r) n = (reply n ≡ r) × (is_permanent r ≡ false)
  Ended interrupted n = ends n ≡ true

  -- From one attempt to the last, with the delays between them.
  pub record Tried (first limit : ℕ) (r : Outcome × ℕ × List ℕ) : Type 0 where
    pub after : first ≤ r.1
    pub before : r.1 ≤ first + limit
    pub spaced : first + length r.2 ≡ r.1
    pub ended : Ended r.0 r.1
    pub exhausted : (q : Reply) → r.0 ≡ gave_up q → r.1 ≡ first + limit

  -- What ends the loop here, with this many attempts left.
  abbrev Ends : ℕ → ℕ → Outcome → Type 0
  Ends left attempt o = Ended o attempt × ((q : Reply) → o ≡ gave_up q → left ≡ 0)

  settle-Ended :
      (left attempt : ℕ) (o : Outcome)
      → settle opts reply jitter ends left attempt ≡ some o
      → Ends left attempt o
  unfolding settle
  settle-Ended left attempt o h = cases (reply attempt) refl
    where
      last :
          (r : Reply)
          → reply attempt ≡ r
          → is_permanent r ≡ false
          → (if left == 0
              then some (gave_up r)
              else if ends attempt
              then some interrupted
              else none)
            ≡ some o
          → Ends left attempt o
      last r e keep k = elim (Bool-cases (left == 0)) [
        | inl zero_left ↦
            subst (Ends left attempt) (some_inj (rw zero_left at k))
              ((e, keep), λ q x. ground arith)
        | inr more ↦ elim (Bool-cases (ends attempt)) [
          | inl over ↦
              subst (Ends left attempt) (some_inj (rw (more, over) at k)) (over, λ q x. absurd (cc))
          | inr goes_on ↦ absurd (not_none (sym (rw (more, goes_on) at k)))
        ]
      ]

      cases : (r : Reply) → reply attempt ≡ r → Ends left attempt o
      cases (published id) e =
          subst (Ends left attempt) (some_inj (rw (e, settle) at h)) (e, λ q x. absurd (cc))
      cases (api_error status wait) e = elim (Bool-cases (is_permanent (api_error status wait))) [
        | inl permanent ↦
            subst (Ends left attempt) (some_inj (rw (e, permanent, settle) at h))
              ((e, permanent), λ q x. absurd (cc))
        | inr passing ↦ last (api_error status wait) e passing (rw (e, passing, settle) at h)
      ]
      cases other_error e = last other_error e (unfold is_permanent in refl) (rw (e, settle) at h)

  settle-last : (attempt : ℕ) → settle opts reply jitter ends 0 attempt ≢ none
  unfolding settle
  settle-last attempt h = cases (reply attempt) refl
    where
      cases : (r : Reply) → reply attempt ≡ r → ⊥
      cases (published id) e = not_none (rw (e, settle) at h)
      cases (api_error status wait) e = elim (Bool-cases (is_permanent (api_error status wait))) [
        | inl permanent ↦ not_none (rw (e, permanent, settle) at h)
        | inr passing ↦ not_none (rw (e, passing, settle) at h)
      ]
      cases other_error e = not_none (rw (e, settle) at h)

  retry_loop-Tried :
      (left attempt backoff : ℕ)
      → Tried attempt left (retry_loop opts reply jitter ends left attempt backoff)
  unfolding retry_loop
  retry_loop-Tried zero attempt backoff =
      elim (Option-cases (settle opts reply jitter ends 0 attempt)) [
        | inl e ↦ absurd (settle-last attempt e)
        | inr (o, e) ↦
            rw (e, retry_loop)
              (record {
                after = omega arith;
                before = omega arith;
                spaced = omega arith;
                ended = (settle-Ended 0 attempt o e).0;
                exhausted = λ q h. omega arith;
              })
      ]
  retry_loop-Tried (suc left) attempt backoff =
      next
        (retry_loop opts reply jitter ends left (attempt + 1) (min (backoff * 2) opts.max_backoff))
        (retry_loop-Tried left (attempt + 1) (min (backoff * 2) opts.max_backoff))
        (settle opts reply jitter ends (suc left) attempt) refl
    where
      next :
          (r : Outcome × ℕ × List ℕ)
          → Tried (attempt + 1) left r
          → (s : Option Outcome) → settle opts reply jitter ends (suc left) attempt ≡ s
          → Tried attempt (suc left) (elim s [
            | some o ↦ (o, attempt, [])
            | none ↦ (
              r.0,
              r.1,
              retry_delay backoff opts.max_backoff (retry_after_of (reply attempt)) (jitter attempt)
                  ∷ r.2,
            )
          ])
      next r t none e = record {
        after = omega (arith, t.after);
        before = omega (arith, t.before);
        spaced = omega (arith, t.spaced);
        ended = t.ended;
        exhausted = λ q h. omega (arith, t.exhausted q h);
      }
      next r t (some o) e = record {
        after = omega arith;
        before = omega arith;
        spaced = omega arith;
        ended = (settle-Ended (suc left) attempt o e).0;
        exhausted = λ q h. absurd (omega (arith, (settle-Ended (suc left) attempt o e).1 q h));
      }

  -- However the server replies, a publish with a producer ID and an idempotency key is tried at least
  -- once and at most `max_attempts` times, with one delay between two attempts. It ends with the
  -- result of the last attempt, with an error that no retry would change, with the last error when
  -- no attempt is left, or where the context ends.
  pub publish_retry-Tried :
      (o : PublishOptions)
      → o.producer_id ≢ []
      → o.idempotency_key ≢ []
      → Tried 0 (opts.max_attempts - 1) (publish_retry opts reply jitter ends o)
  unfolding publish_retry
  publish_retry-Tried o producer key =
      rw
        (
          if_neg (str_dec o.producer_id []) producer true
              (ite (str_dec o.idempotency_key []) true false),
          if_neg (str_dec o.idempotency_key []) key true false,
        )
        (retry_loop-Tried (opts.max_attempts - 1) 0 opts.min_backoff)
