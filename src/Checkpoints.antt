-- ===== src/Checkpoints.antt =====
-- Group ACK checkpoints: internal/broker/broker.go, from `checkpointActiveLocked` to
-- `applyCheckpoints`, and internal/broker/checkpoint_memory.go. The two-level map from a scope and a
-- message ID to an expiry is a map from pairs: an inner map that becomes empty is deleted there and
-- vanishes here. Times are Unix milliseconds. `order` is `checkpointOrder` from `checkpointHead` on.
pub mod Evicting
pub mod Order
pub mod Invariant
pub mod Active
mod Examples
use spruce.Prelude.{
  ℕ, zero, suc, ◌+◌, ◌-◌, ◌*◌, ◌/◌, ◌%◌, ◌^◌, ◌≤◌, ◌<◌, min, max, ◌≡◌, refl, sym, ap, subst, ◌∙◌,
  ◌≢◌, ◌⊎◌, inl, inr, ite, if_pos, if_neg, Bool, true, false, not, ◌&&◌, ◌||◌, Option, none, some,
  List, [], ◌∷◌, ◌++◌, map, append_assoc, append-nil, arith, dec_lt, dec_le, ℕ_discrete, ltb, leb,
  ◌==◌, if◌then◌else◌, tests, Bool-cases, Option-cases, length, get_elem?, take, drop,
  length-append, All, sum_by, sum_by-append, Str, str_dec, Result, ok, err, ◌>>=◌, ◌>>◌, fail_if,
  bind_ok, passed,
}
use spruce.Prelude.Maps.{Map, find, put, del}

-- `checkpointScope` with a message ID.
pub record Key : Type 0 where
  pub topic : Str
  pub group : Str
  pub message_id : Str

unfoldable pub key_dec : Discrete Key
unfolding str_dec
key_dec = hlevel str_dec

-- `checkpointOrderEntry`
pub record OrderEntry : Type 0 where
  pub key : Key
  pub expires_at : ℕ

-- `entries`, `count`, `head` and `order` are `checkpoints`, `checkpointCount`, `checkpointHead` and
-- the unconsumed part of `checkpointOrder`.
pub record Table : Type 0 where
  pub entries : Map Key ℕ
  pub count : ℕ
  pub head : ℕ
  pub order : List OrderEntry

-- `m[key]`, which is 0 where the key is missing.
unfoldable pub expiry : Map Key ℕ → Key → ℕ
expiry m k = elim (find key_dec k m) [ none ↦ 0 | some e ↦ e ]

unfoldable pub checkpoint_active : Table → Key → ℕ → Bool
checkpoint_active t k now = ltb now (expiry t.entries k)

abbrev pub delete : Table → Key → Table
delete t k = record t { entries = del key_dec k t.entries; count = t.count - 1 }

-- One round of the eviction loop, on the entry at the head.
unfoldable pub evict_one : Table → OrderEntry → List OrderEntry → Table
evict_one t old rest =
    let t' = record t { head = t.head + 1; order = rest } in
    if expiry t.entries old.key == old.expires_at then delete t' old.key else t'

unfoldable pub evict : ℕ → List OrderEntry → Table → Table
evict limit [] t = t
evict limit (old ∷ rest) t =
    let next = evict limit rest (evict_one t old rest) in if ltb limit t.count then next else t

-- The loop of `compactCheckpointsLocked`; `kept` is in the table's order.
unfoldable pub compact_one : ℕ → OrderEntry → Table → Table
compact_one now old t =
    if not (expiry t.entries old.key == old.expires_at)
    then t
    else if leb old.expires_at now
    then delete t old.key
    else record t { order = t.order ++ (old ∷ []) }

unfoldable pub compact_loop : ℕ → List OrderEntry → Table → Table
unfolding compact_one
compact_loop now [] t = t
compact_loop now (old ∷ rest) t = compact_loop now rest (compact_one now old t)

unfoldable pub compact : ℕ → Table → Table
compact now t = compact_loop now t.order (record t { head = 0; order = [] })

-- `putCheckpointLocked` without the completion of group work, which the caller runs where the
-- second component is true.
unfoldable pub record_entry : Table → OrderEntry → Table
record_entry t o = record t {
  entries = put key_dec o.key o.expires_at t.entries;
  count = if expiry t.entries o.key == 0 then t.count + 1 else t.count;
  order = t.order ++ (o ∷ []);
}

unfoldable pub trim : ℕ → ℕ → Table → Table
trim limit now t = if ltb (2 * limit) (t.head + length t.order) then compact now t else t

unfoldable pub put_checkpoint : ℕ → Table → OrderEntry → ℕ → Table × Bool
put_checkpoint limit t o now =
    if leb o.expires_at now
    then (t, false)
    else if leb o.expires_at (expiry t.entries o.key)
    then (t, false)
    else let t' = record_entry t o in (trim limit now (evict limit t'.order t'), true)

-- `applyCheckpoints` for checkpoints that a peer sent: an expiry beyond the longest TTL is ignored.
unfoldable pub apply_one : ℕ → ℕ → OrderEntry → Table → ℕ → Table
apply_one limit max_ttl o t now =
    if leb o.expires_at (now + max_ttl) then (put_checkpoint limit t o now).0 else t

unfoldable pub apply_checkpoints : ℕ → ℕ → List OrderEntry → Table → ℕ → Table
apply_checkpoints limit max_ttl [] t now = t
apply_checkpoints limit max_ttl (o ∷ os) t now =
    apply_checkpoints limit max_ttl os (apply_one limit max_ttl o t now) now
