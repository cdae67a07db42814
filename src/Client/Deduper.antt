-- ===== src/Client/Deduper.antt =====
-- The consumer's record of the messages that it has seen: `Deduper` of pkg/spruce/client.go. Times
-- are nanoseconds; `time.Time.Equal` on the times that were stored is equality.
pub mod Bounded
pub mod Memory
mod Examples
use spruce.Prelude.{
  ℕ, zero, suc, ◌+◌, ◌-◌, ◌*◌, ◌/◌, ◌%◌, ◌^◌, ◌≤◌, ◌<◌, min, max, ◌≡◌, refl, sym, ap, subst, ◌∙◌,
  ◌≢◌, ◌⊎◌, inl, inr, ite, if_pos, if_neg, Bool, true, false, not, ◌&&◌, ◌||◌, Option, none, some,
  List, [], ◌∷◌, ◌++◌, map, append_assoc, append-nil, arith, dec_lt, dec_le, ℕ_discrete, ltb, leb,
  ◌==◌, if◌then◌else◌, tests, Bool-cases, Option-cases, some_inj, le→leb, length, get_elem?, take,
  drop, length-append, All, All-map, All-zip, All-drop_mid, All-snoc, sum_by, sum_by-append, Str,
  str_dec, Result, ok, err, ◌>>=◌, ◌>>◌, fail_if, bind_ok, passed,
}
use spruce.Prelude.Int.{ℤ, pos, negsuc}
use spruce.Prelude.Maps.{Map, find, put, del}

pub record DedupeEntry : Type 0 where
  pub id : Str
  pub until : ℕ

pub record Deduper : Type 0 where
  pub ttl : ℕ
  pub max_entries : ℕ
  pub seen : Map Str ℕ
  pub order : List DedupeEntry

abbrev positive_or : ℤ → ℕ → ℕ
positive_or (pos zero) default = default
positive_or (pos (suc n)) default = suc n
positive_or (negsuc n) default = default

-- `NewDeduper`
unfoldable pub new_deduper : ℤ → ℤ → Deduper
new_deduper max_entries ttl = record {
  ttl = positive_or ttl 300000000000;
  max_entries = positive_or max_entries 65536;
  seen = [];
  order = [];
}

-- An ID that was seen and has not expired.
unfoldable pub is_fresh : Deduper → Str → ℕ → Bool
is_fresh d id now = elim (find str_dec id d.seen) [ none ↦ false | some until ↦ ltb now until ]

-- The loop that drops the oldest entries.
unfoldable pub forget_one : Map Str ℕ → DedupeEntry → Map Str ℕ
forget_one seen old = elim (find str_dec old.id seen) [
  | none ↦ seen
  | some until ↦ if until == old.until then del str_dec old.id seen else seen
]

unfoldable pub forget : ℕ → Map Str ℕ → List DedupeEntry → Map Str ℕ × List DedupeEntry
forget limit seen [] = (seen, [])
forget limit seen (old ∷ rest) =
    let next = forget limit (forget_one seen old) rest in
    if ltb limit (length (old ∷ rest)) then next else (seen, old ∷ rest)

-- `Seen`, with what it leaves.
unfoldable pub mark_seen : Deduper → Str → ℕ → Bool × Deduper
mark_seen d id now =
    if is_fresh d id now
    then (true, d)
    else let until = now + d.ttl in
      let (seen, order) =
        forget d.max_entries (put str_dec id until d.seen)
          (d.order ++ (record { id = id; until = until } ∷ [])) in
      (false, record d { seen = seen; order = order })
