-- ===== src/Admission.antt =====
-- Publish admission: internal/broker/broker.go, from `acquirePublishAdmission` to
-- `releasePublishAdmission`. Each step below runs under `admissionMu`; the waits between them are
-- the arguments of a schedule (Admission/Schedule). Byte counts are positive int64 values below the
-- budget, so no sum wraps, and `available` is not negative while the count is within the budget.
pub mod Rounds
pub mod Schedule
mod Examples
use spruce.Prelude.{
  ℕ, zero, suc, ◌+◌, ◌-◌, ◌*◌, ◌/◌, ◌%◌, ◌^◌, ◌≤◌, ◌<◌, min, max, ◌≡◌, refl, sym, ap, subst, ◌∙◌,
  ◌≢◌, ◌⊎◌, inl, inr, ite, if_pos, if_neg, Bool, true, false, not, ◌&&◌, ◌||◌, Option, none, some,
  List, [], ◌∷◌, ◌++◌, map, append_assoc, append-nil, arith, dec_lt, dec_le, ℕ_discrete, ltb, leb,
  ◌==◌, if◌then◌else◌, tests, Bool-cases, Option-cases, length, get_elem?, take, drop,
  length-append, All, sum_by, sum_by-append, Str, str_dec, Result, ok, err, ◌>>=◌, ◌>>◌, fail_if,
  bind_ok, passed,
}

-- `publishAdmissionWaiter`; the number stands for the pointer.
pub record Waiter : Type 0 where
  pub id : ℕ
  pub bytes : ℕ
  pub bypassed : ℕ

-- `granted` holds the waiters whose `ready` channel is closed and whose goroutine has not woken.
pub record Admission : Type 0 where
  pub budget : ℕ
  pub used : ℕ
  pub waiters : List Waiter
  pub granted : List Waiter
  pub next_id : ℕ

abbrev pub available : Admission → ℕ
available a = a.budget - a.used

-- The inner loop: the first waiter that fits, where a head that was passed over eight times and
-- does not fit closes the search.
unfoldable pub select : ℕ → ℕ → List Waiter → Option ℕ
select i free [] = none
select i free (w ∷ ws) =
    if leb w.bytes free
    then some i
    else if i == 0 && leb 8 w.bypassed
    then none
    else select (suc i) free ws

unfoldable pub bypass : ℕ → List Waiter → List Waiter
bypass zero ws = ws
bypass (suc n) [] = []
bypass (suc n) (w ∷ ws) =
    (if ltb w.bypassed 8 then record w { bypassed = w.bypassed + 1 } else w) ∷ bypass n ws

unfoldable pub remove_at : ℕ → List Waiter → List Waiter
remove_at i [] = []
remove_at zero (w ∷ ws) = ws
remove_at (suc i) (w ∷ ws) = w ∷ remove_at i ws

-- One round of the outer loop for the waiter at `i`.
unfoldable pub grant_at : Admission → ℕ → Waiter → Admission
grant_at a i w = record a {
  used = a.used + w.bytes;
  waiters = remove_at i (bypass i a.waiters);
  granted = a.granted ++ (w ∷ []);
}

-- A round, or `none` where the loop ends.
unfoldable pub round : Admission → Option Admission
round a = elim (select 0 (available a) a.waiters) [
  | none ↦ none
  | some i ↦ elim (get_elem? a.waiters i) [ none ↦ none | some w ↦ some (grant_at a i w) ]
]

-- `grantPublishAdmissionLocked`. Each round takes a waiter away, so the queue's length is enough
-- fuel (Admission/Rounds).
unfoldable pub grant_rounds : ℕ → Admission → Admission
grant_rounds zero a = a
grant_rounds (suc fuel) a = elim (round a) [ none ↦ a | some a' ↦ grant_rounds fuel a' ]

unfoldable pub grant : Admission → Admission
grant a = grant_rounds (length a.waiters) a

pub data Request : Type 0 where
  refused : Request
  admitted : Admission → Request
  queued : ℕ → Admission → Request

-- `acquirePublishAdmission` up to its wait.
unfoldable pub acquire : Admission → ℕ → Request
acquire a bytes =
    if bytes == 0 || ltb a.budget bytes
    then refused
    else if length a.waiters == 0 && leb (a.used + bytes) a.budget
    then admitted (record a { used = a.used + bytes })
    else queued a.next_id (record a {
      waiters = a.waiters ++ (record { id = a.next_id; bytes = bytes; bypassed = 0 } ∷ []);
      next_id = suc a.next_id;
    })

unfoldable pub take_waiter : ℕ → List Waiter → Option Waiter
take_waiter id [] = none
take_waiter id (w ∷ ws) = if w.id == id then some w else take_waiter id ws

unfoldable pub remove_waiter : ℕ → List Waiter → List Waiter
remove_waiter id [] = []
remove_waiter id (w ∷ ws) = if w.id == id then ws else w ∷ remove_waiter id ws

-- The wait ends by `waiter.ready`: the bytes that the caller now holds.
unfoldable pub wake : Admission → ℕ → Option (ℕ × Admission)
wake a id = elim (take_waiter id a.granted) [
  | none ↦ none
  | some w ↦ some (w.bytes, record a { granted = remove_waiter id a.granted })
]

-- The wait ends by the context or the timer. A grant that came first still counts.
unfoldable pub give_up : Admission → ℕ → Option ℕ × Admission
unfolding wake
give_up a id = elim (wake a id) [
  | some (bytes, a') ↦ (some bytes, a')
  | none ↦ (none, grant (record a { waiters = remove_waiter id a.waiters }))
]

-- `releasePublishAdmission`
unfoldable pub release : Admission → ℕ → Admission
release a bytes = grant (record a { used = a.used - bytes })
