-- ===== src/Replay/Marks.antt =====
-- `topicUnsafeLocked` after `markUnsafeLocked`.
use spruce.Prelude.{
  ℕ, ◌<◌, max, ◌≡◌, refl, subst, ◌≢◌, ◌⊎◌, inl, inr, ite, if_pos, Bool, true, false, some, [], ◌∷◌,
  arith, leb, ◌==◌, if◌then◌else◌, Bool-cases, Option-cases, some_inj, length, Str, str_dec,
}
use spruce.Prelude.Maps.{Map, find, put, find-put, find-put_ne, find-put_self, find-del_ne}
use spruce.Replay.{
  Marks, all_topics, capacity, value_at, mark_source, sources_of, mark_unsafe, set_sources, live,
  not_empty, key_unsafe, topic_unsafe,
}

live-some :
    (now : ℕ) (s : Str) (v : ℕ) (entries : Map Str ℕ)
    → find str_dec s entries ≡ some v
    → now < v
    → not_empty (live now entries) ≡ true
unfolding find live
live-some now s v [] h later = absurd (cc)
live-some now s v (e ∷ es) h later =
    cases (str_dec s e.0) h (Bool-cases (leb e.1 now)) (live-some now s v es)
  where
    cases :
        (d : Dec (s ≡ e.0))
        → ite d (some e.1) (find str_dec s es) ≡ some v
        → ((leb e.1 now ≡ true) ⊎ (leb e.1 now ≡ false))
        → (find str_dec s es ≡ some v → now < v → not_empty (live now es) ≡ true)
        → not_empty (if leb e.1 now then live now es else e ∷ live now es) ≡ true
    cases d k (inr alive) ih = rw alive refl
    cases (yes same) k (inl over) ih = absurd (ground (arith, some_inj k))
    cases (no ne) k (inl over) ih = rw over (ih k later)

-- The key has a mark that is not over.
abbrev Marked : ℕ → Marks → Str → Type 0
Marked now u key = not_empty (live now (sources_of key u)) ≡ true

sources-put :
    (u : Marks) (key other : Str) (entries : Map Str ℕ)
    → sources_of other (put str_dec key entries u)
      ≡ ite (str_dec other key) entries (sources_of other u)
unfolding sources_of
sources-put u key other entries = ground (arith, find-put str_dec key other entries u)

mark_source-Marked :
    (now : ℕ) (u : Marks) (topic source : Str) (entries : Map Str ℕ) (until : ℕ)
    → now < until
    → Marked now (mark_source u topic source entries until) topic
unfolding mark_source
mark_source-Marked now u topic source entries until later =
    rw
      (
        sources-put u topic topic (marked (leb 256 (length entries))),
        if_pos (str_dec topic topic) refl (marked (leb 256 (length entries))) (sources_of topic u),
      )
      (live-some now (name (leb 256 (length entries))) _ (marked (leb 256 (length entries)))
        (find-put_self str_dec (name (leb 256 (length entries))) _ entries) (omega arith))
  where
    name : Bool → Str
    name b = if b then capacity else source

    marked : Bool → Map Str ℕ
    marked b = put str_dec (name b) (max (value_at (name b) entries) until) entries

key_unsafe-Marked :
    (now : ℕ) (u : Marks) (key : Str) → Marked now u key → (key_unsafe now u key).0 ≡ true
unfolding key_unsafe sources_of
key_unsafe-Marked now u key h = elim (Option-cases (find str_dec key u)) [
  | inl e ↦ absurd (unfold live in ground arith)
  | inr (entries, e) ↦ ground arith
]

-- Looking at another key changes nothing here.
sources-set_sources :
    (key other : Str) (entries : Map Str ℕ) (u : Marks)
    → other ≢ key
    → sources_of other (set_sources key entries u) ≡ sources_of other u
unfolding set_sources sources_of
sources-set_sources key other [] u ne = rw (find-del_ne str_dec key other u ne, sources_of) refl
sources-set_sources key other (e ∷ es) u ne =
    rw (find-put_ne str_dec key other (e ∷ es) u ne, sources_of) refl

sources-key_unsafe :
    (now : ℕ) (u : Marks) (key other : Str)
    → other ≢ key
    → sources_of other (key_unsafe now u key).1 ≡ sources_of other u
unfolding key_unsafe
sources-key_unsafe now u key other ne = elim (Option-cases (find str_dec key u)) [
  | inl e ↦ rw (e, key_unsafe) refl
  | inr (entries, e) ↦ rw (e, key_unsafe) (sources-set_sources key other (live now entries) u ne)
]

-- A topic is unsafe if it is marked itself, or all topics are.
topic_unsafe-Marked :
    (now : ℕ) (u : Marks) (topic : Str)
    → Marked now u topic ⊎ Marked now u all_topics
    → (topic_unsafe now u topic).0 ≡ true
unfolding topic_unsafe
topic_unsafe-Marked now u topic (inr all) =
    rw (key_unsafe-Marked now u all_topics all) (ground arith)
topic_unsafe-Marked now u topic (inl own) = elim (str_dec topic all_topics) [
  | yes e ↦ rw (key_unsafe-Marked now u all_topics (subst (Marked now u) e own)) (ground arith)
  | no ne ↦
      rw
        (key_unsafe-Marked now (key_unsafe now u all_topics).1 topic
          (rw (sources-key_unsafe now u all_topics topic ne) own))
        (ground arith)
]

mark_unsafe-Marked :
    (limit now : ℕ) (u : Marks) (topic source : Str) (until : ℕ)
    → now < until
    → Marked now (mark_unsafe limit u topic source until) topic
      ⊎ Marked now (mark_unsafe limit u topic source until) all_topics
unfolding mark_unsafe
mark_unsafe-Marked limit now u topic source until later =
    let positive : (until == 0) ≡ false = ground arith in
    elim (Option-cases (find str_dec topic u)) [
      | inr (entries, e) ↦
          rw (positive, e, mark_unsafe)
            (inl (mark_source-Marked now u topic source entries until later))
      | inl e ↦ elim (Bool-cases (leb limit (length u))) [
        | inl full ↦
            rw (positive, e, full, mark_unsafe)
              (inr (
                mark_source-Marked now u all_topics capacity (sources_of all_topics u) until later))
        | inr room ↦
            rw (positive, e, room, mark_unsafe)
              (inl (mark_source-Marked now u topic source [] until later))
      ]
    ]

-- A mark that is not over makes its topic unsafe, also where the topics or the sources of the topic
-- have reached their limits and the mark is kept under a more general name.
pub mark_unsafe-seen :
    (limit now : ℕ) (u : Marks) (topic source : Str) (until : ℕ)
    → now < until
    → (topic_unsafe now (mark_unsafe limit u topic source until) topic).0 ≡ true
mark_unsafe-seen limit now u topic source until later =
    topic_unsafe-Marked now _ topic (mark_unsafe-Marked limit now u topic source until later)
