-- ===== src/Cache/Keeping.antt =====
-- `removeLocked` of internal/broker/broker.go on the list of a topic: the places that it changes.
use spruce.Prelude.{
  ℕ, ◌+◌, ◌*◌, ◌≡◌, refl, sym, ap, ◌∙◌, inl, inr, ◌&&◌, some, List, [], ◌∷◌, ltb, ◌==◌, Bool-cases,
  Option-cases, length, get_elem?, Str, str_dec,
}
use spruce.Prelude.Maps.{Map, find, put, found-put}
use spruce.Replay.{value_at}
use spruce.Cache.Slots.{Pointers, somes, clear}
use spruce.Cache.{
  Stored, Cached, Cache, points_at, topic_place, renumber, topic_list, settle_topic, leave_topic,
}
use spruce.Cache.Agreement.{IsKept, renumber_topic-IsKept}

-- Items that hold the same messages as these, or fewer of them.
abbrev pub KeepStored : Map Str Cached → Map Str Cached → Type 0
KeepStored items items' =
    (j : Str) (jt : Cached)
    → find str_dec j items' ≡ some jt
    → (it : Cached) × (find str_dec j items ≡ some it) × (it.stored ≡ jt.stored)

module _ (place : ℕ → Cached → Cached)
    (keeps : (i : ℕ) (it : Cached) → (place i it).stored ≡ it.stored) where
  place-KeepStored :
      (id : Str) (i : ℕ) (it : Cached) (items : Map Str Cached)
      → find str_dec id items ≡ some it
      → KeepStored items (put str_dec id (place i it) items)
  place-KeepStored id i it items found j jt h =
      elim (found-put str_dec id j (place i it) jt items h) [
        | inl (e, same) ↦ (
          it,
          ap (λ x. find str_dec x items) e ∙ found,
          sym (keeps i it) ∙ ap (λ x. x.stored) (sym same),
        )
        | inr (ne, old) ↦ (jt, old, refl)
      ]

  pub renumber-KeepStored :
      (i : ℕ) (ss : List Stored) (items : Map Str Cached)
      → KeepStored items (renumber place i ss items)
  unfolding renumber
  renumber-KeepStored i [] items = λ j jt h. (jt, h, refl)
  renumber-KeepStored i (s ∷ ss) items = elim (Option-cases (find str_dec s.message.id items)) [
    | inl e ↦ rw (e, renumber) (renumber-KeepStored (i + 1) ss items)
    | inr (it, e) ↦
        rw (e, renumber)
          λ j jt h.
            let (kt, f, a) =
              renumber-KeepStored (i + 1) ss (put str_dec s.message.id (place i it) items) j jt h in
            let (lt, g, b) = place-KeepStored s.message.id i it items e j kt f in (lt, g, b ∙ a)
  ]

pub leave_topic-KeepStored : (c : Cache) (it : Cached) → KeepStored c.items (leave_topic c it).items
unfolding leave_topic settle_topic
leave_topic-KeepStored c it =
    elim (Bool-cases (points_at it.stored.message.id (get_elem? slots it.topic_index))) [
      | inr out ↦ rw (out, leave_topic) (λ j jt h. (jt, h, refl))
      | inl there ↦
          rw (there, leave_topic)
            (elim (Bool-cases (holes == length left)) [
              | inl empty ↦ rw (empty, settle_topic) (λ j jt h. (jt, h, refl))
              | inr filled ↦ elim (Bool-cases (ltb 256 holes && ltb (length left) (holes * 2))) [
                | inl many ↦
                    rw (filled, many, settle_topic)
                      (renumber-KeepStored topic_place (λ i it. refl) 0 (somes left) c.items)
                | inr few ↦ rw (filled, few, settle_topic) (λ j jt h. (jt, h, refl))
              ]
            ])
    ]
  where
    slots : Pointers Stored
    slots = topic_list it.stored.message.topic c.topics

    left : Pointers Stored
    left = clear it.topic_index slots

    holes : ℕ
    holes = value_at it.stored.message.topic c.topic_tombstones + 1

pub leave_topic-Keeps :
    (c : Cache) (it : Cached) (order : Pointers Stored) (head bytes : ℕ)
    → IsKept c.items order head bytes
    → IsKept (leave_topic c it).items order head bytes
unfolding leave_topic settle_topic
leave_topic-Keeps c it order head bytes k =
    elim (Bool-cases (points_at it.stored.message.id (get_elem? slots it.topic_index))) [
      | inr out ↦ rw (out, leave_topic) k
      | inl there ↦
          rw (there, leave_topic)
            (elim (Bool-cases (holes == length left)) [
              | inl empty ↦ rw (empty, settle_topic) k
              | inr filled ↦ elim (Bool-cases (ltb 256 holes && ltb (length left) (holes * 2))) [
                | inl many ↦
                    rw (filled, many, settle_topic)
                      (renumber_topic-IsKept 0 (somes left) c.items order head bytes k)
                | inr few ↦ rw (filled, few, settle_topic) k
              ]
            ])
    ]
  where
    slots : Pointers Stored
    slots = topic_list it.stored.message.topic c.topics

    left : Pointers Stored
    left = clear it.topic_index slots

    holes : ℕ
    holes = value_at it.stored.message.topic c.topic_tombstones + 1
