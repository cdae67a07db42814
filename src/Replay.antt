-- ===== src/Replay.antt =====
-- What a broker knows of the history that a replay needs: the unsafe marks of the cache
-- (`markUnsafeLocked`, `clearUnsafeLocked`, `topicUnsafeLocked`) and `frontierBehind` of
-- internal/broker/broker.go, and the cursor of a stream, internal/broker/stream_cursor.go. Times are
-- Unix milliseconds and not negative. The text form of a cursor is left out.
pub mod Marks
pub mod Cursor
mod Examples
use spruce.Prelude.{
  ℕ, zero, suc, ◌+◌, ◌-◌, ◌*◌, ◌/◌, ◌%◌, ◌^◌, ◌≤◌, ◌<◌, min, max, ◌≡◌, refl, sym, ap, subst, ◌∙◌,
  ◌≢◌, ◌⊎◌, inl, inr, ite, if_pos, if_neg, Bool, true, false, not, ◌&&◌, ◌||◌, Option, none, some,
  List, [], ◌∷◌, ◌++◌, map, append_assoc, append-nil, arith, dec_lt, dec_le, ℕ_discrete, ltb, leb,
  ◌==◌, if◌then◌else◌, tests, Bool-cases, Option-cases, some_inj, le→leb, length, get_elem?, take,
  drop, length-append, All, All-map, All-zip, All-drop_mid, All-snoc, sum_by, sum_by-append, Str,
  str_dec, Result, ok, err, ◌>>=◌, ◌>>◌, fail_if, bind_ok, passed,
}
use spruce.Prelude.Maps.{Map, find, put, del}

abbrev pub Marks : Type 0
Marks = Map Str (Map Str ℕ)

-- "*"
abbrev pub all_topics : Str
all_topics = 42 ∷ []

-- "capacity"
abbrev pub capacity : Str
capacity = 99 ∷ 97 ∷ 112 ∷ 97 ∷ 99 ∷ 105 ∷ 116 ∷ 121 ∷ []

unfoldable pub value_at : Str → Map Str ℕ → ℕ
value_at k m = elim (find str_dec k m) [ none ↦ 0 | some v ↦ v ]

-- The mark itself: a topic with 256 sources counts further ones together.
unfoldable pub mark_source : Marks → Str → Str → Map Str ℕ → ℕ → Marks
mark_source u topic source entries until =
    let name = if leb 256 (length entries) then capacity else source in
    put str_dec topic (put str_dec name (max (value_at name entries) until) entries) u

unfoldable pub sources_of : Str → Marks → Map Str ℕ
sources_of topic u = elim (find str_dec topic u) [ none ↦ [] | some entries ↦ entries ]

-- `markUnsafeLocked`, with `frontierLimit` as the limit of topics: where it is reached, a mark of a new
-- topic counts for all topics.
unfoldable pub mark_unsafe : ℕ → Marks → Str → Str → ℕ → Marks
mark_unsafe limit u topic source until = if until == 0 then u else elim (find str_dec topic u) [
  | some entries ↦ mark_source u topic source entries until
  | none ↦
      if leb limit (length u)
      then mark_source u all_topics capacity (sources_of all_topics u) until
      else mark_source u topic source [] until
]

unfoldable pub set_sources : Str → Map Str ℕ → Marks → Marks
set_sources topic entries u = elim entries [
  | [] ↦ del str_dec topic u
  | e ∷ es ↦ put str_dec topic (e ∷ es) u
]

-- `clearUnsafeLocked`
unfoldable pub clear_unsafe : Marks → Str → Str → Marks
clear_unsafe u topic source = elim (find str_dec topic u) [
  | none ↦ u
  | some entries ↦ set_sources topic (del str_dec source entries) u
]

unfoldable pub live : ℕ → Map Str ℕ → Map Str ℕ
live now [] = []
live now (e ∷ es) = if leb e.1 now then live now es else e ∷ live now es

abbrev pub not_empty : Map Str ℕ → Bool
not_empty [] = false
not_empty (e ∷ es) = true

-- `topicUnsafeLocked`, which drops what it finds expired.
unfoldable pub key_unsafe : ℕ → Marks → Str → Bool × Marks
key_unsafe now u key = elim (find str_dec key u) [
  | none ↦ (false, u)
  | some entries ↦ (not_empty (live now entries), set_sources key (live now entries) u)
]

unfoldable pub topic_unsafe : ℕ → Marks → Str → Bool × Marks
topic_unsafe now u topic =
    let (a, u') = key_unsafe now u all_topics in
    let (b, u'') = key_unsafe now u' topic in (a || b, u'')

-- `frontierBehind`, where there is a frontier.
unfoldable pub frontier_behind : Map Str ℕ → Map Str ℕ → Bool
frontier_behind cursor [] = false
frontier_behind cursor (e ∷ es) = ltb (value_at e.0 cursor) e.1 || frontier_behind cursor es

-- `streamCursor`
pub record StreamCursor : Type 0 where
  pub sequences : Map Str ℕ
  pub expires : Map Str ℕ

unfoldable pub drop_expired : ℕ → List (Str × ℕ) → StreamCursor → StreamCursor
drop_expired now [] c = c
drop_expired now (e ∷ es) c = drop_expired now es (
    if ltb 0 e.1 && leb e.1 now
    then record { sequences = del str_dec e.0 c.sequences; expires = del str_dec e.0 c.expires }
    else c)

-- `advance` by a delivery of this origin, sequence and expiry.
unfoldable pub advance : StreamCursor → Str → ℕ → ℕ → ℕ → StreamCursor
advance c origin sequence expires_at now = elim (find str_dec origin c.sequences) [
  | none ↦
      let d = drop_expired now c.expires c in
      record {
        sequences = put str_dec origin (max (value_at origin d.sequences) sequence) d.sequences;
        expires = put str_dec origin (max (value_at origin d.expires) expires_at) d.expires;
      }
  | some s ↦ record {
    sequences = put str_dec origin (max s sequence) c.sequences;
    expires =
        if ltb 0 (value_at origin c.expires)
        then put str_dec origin (max (value_at origin c.expires) expires_at) c.expires
        else c.expires;
  }
]
