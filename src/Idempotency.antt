-- ===== src/Idempotency.antt =====
-- The idempotency table: `beginIdempotency` and `finishIdempotency` of internal/broker/broker.go. An
-- entry is named by a number, which stands for its pointer; `store` holds what the pointers point
-- to. Each function is one critical section of `mu`; the wait for `ready` lies between two of them.
-- Times are Unix milliseconds.
pub mod Eviction
pub mod Ownership
pub mod Finishing
mod Examples
use spruce.Prelude.{
  ℕ, zero, suc, ◌+◌, ◌-◌, ◌*◌, ◌/◌, ◌%◌, ◌^◌, ◌≤◌, ◌<◌, min, max, ◌≡◌, refl, sym, ap, subst, ◌∙◌,
  ◌≢◌, ◌⊎◌, inl, inr, ite, if_pos, if_neg, Bool, true, false, not, ◌&&◌, ◌||◌, Option, none, some,
  List, [], ◌∷◌, ◌++◌, map, append_assoc, append-nil, arith, dec_lt, dec_le, ℕ_discrete, ltb, leb,
  ◌==◌, if◌then◌else◌, tests, Bool-cases, Option-cases, some_inj, le→leb, length, get_elem?, take,
  drop, length-append, All, All-map, All-zip, All-drop_mid, All-snoc, sum_by, sum_by-append, Str,
  str_dec, Result, ok, err, ◌>>=◌, ◌>>◌, fail_if, bind_ok, passed,
}
use spruce.Prelude.Maps.{Map, find, put, del}

-- `idempotencyEntry`; `ready` tells whether the channel is closed.
pub record Entry : Type 0 where
  pub id : Str
  pub expires_at : ℕ
  pub accepted : Bool
  pub replicated : Bool
  pub ready : Bool
  pub fingerprint : Str
  pub in_progress : Bool

-- `entries` and `order` are `idempotency` and `idempotencyOrder`.
pub record Table : Type 0 where
  pub entries : Map Str ℕ
  pub order : List (Str × ℕ)
  pub store : Map ℕ Entry
  pub next : ℕ

unfoldable pub entry_of : Table → Str → Option (ℕ × Entry)
entry_of t key = elim (find str_dec key t.entries) [
  | none ↦ none
  | some n ↦ elim (find ℕ_discrete n t.store) [ none ↦ none | some e ↦ some (n, e) ]
]

-- `m[key] == entry`
unfoldable pub points_to : Map Str ℕ → Str × ℕ → Bool
points_to entries item = elim (find str_dec item.0 entries) [ none ↦ false | some n ↦ n == item.1 ]

unfoldable pub in_progress_at : Map ℕ Entry → ℕ → Bool
in_progress_at store n = elim (find ℕ_discrete n store) [ none ↦ false | some e ↦ e.in_progress ]

-- The eviction: the first item of the order whose entry is current and done, `none` without one.
unfoldable pub evict :
    Map ℕ Entry → Map Str ℕ → List (Str × ℕ) → Option (Map Str ℕ × List (Str × ℕ))
evict store entries [] = none
evict store entries (item ∷ items) =
    let later = evict store entries items in
    if points_to entries item && not (in_progress_at store item.1)
    then some (del str_dec item.0 entries, items)
    else elim later [ none ↦ none | some (es, rest) ↦ some (es, item ∷ rest) ]

unfoldable pub compact : Map Str ℕ → List (Str × ℕ) → List (Str × ℕ)
compact entries [] = []
compact entries (item ∷ items) =
    if points_to entries item then item ∷ compact entries items else compact entries items

-- The new entry of an owner.
unfoldable pub insert : ℕ → Table → Str → Entry → Table
insert capacity t key e =
    let entries = put str_dec key t.next t.entries in
    let order = t.order ++ ((key, t.next) ∷ []) in
    record {
      entries = entries;
      order = if ltb (2 * capacity) (length order) then compact entries order else order;
      store = put ℕ_discrete t.next e t.store;
      next = suc t.next;
    }

-- Room for one more entry, or `none` where every entry is in progress.
unfoldable pub make_room : ℕ → Table → Option Table
make_room capacity t =
    if leb capacity (length t.entries)
    then elim (evict t.store t.entries t.order) [
      | none ↦ none
      | some (es, rest) ↦ some (record t { entries = es; order = rest })
    ]
    else some t

pub data Begin : Type 0 where
  conflict : Begin
  wait_for : ℕ → Begin
  exhausted : Begin
  owner : ℕ → Table → Begin

unfoldable pub start_entry : ℕ → Table → Str → Str → ℕ → Str → Begin
start_entry capacity t key id expires_at fingerprint = elim (make_room capacity t) [
  | none ↦ exhausted
  | some t' ↦ owner t'.next (
      insert capacity t' key (record {
        id = id;
        expires_at = expires_at;
        accepted = false;
        replicated = false;
        ready = false;
        fingerprint = fingerprint;
        in_progress = true;
      }))
]

unfoldable pub is_current : Entry → ℕ → Bool
is_current e now = e.in_progress || ltb now e.expires_at

-- `beginIdempotency` up to its wait.
unfoldable pub begin_idempotency : ℕ → Table → Str → Str → ℕ → Str → ℕ → Begin
begin_idempotency capacity t key id expires_at fingerprint now = elim (entry_of t key) [
  | none ↦ start_entry capacity t key id expires_at fingerprint
  | some (n, e) ↦
      if is_current e now
      then ite (str_dec e.fingerprint fingerprint) (wait_for n) conflict
      else start_entry capacity t key id expires_at fingerprint
]

-- The wait is over: the caller joins an entry that was accepted, and begins again otherwise.
unfoldable pub joins : Table → ℕ → Bool
joins t n = elim (find ℕ_discrete n t.store) [ none ↦ false | some e ↦ e.ready && e.accepted ]

-- `finishIdempotency`
unfoldable pub finish_idempotency : Table → Str → ℕ → Bool → Bool → Table
finish_idempotency t key n accepted replicated = elim (find ℕ_discrete n t.store) [
  | none ↦ t
  | some e ↦ record t {
    entries =
        if not accepted && points_to t.entries (key, n)
        then del str_dec key t.entries
        else t.entries;
    store =
        put ℕ_discrete n
          (record e {
            accepted = accepted;
            replicated = replicated;
            in_progress = false;
            ready = true;
          })
          t.store;
  }
]
