-- ===== src/Client/Deduper/Bounded.antt =====
-- The memory of `Deduper.Seen` of pkg/spruce/client.go: its map against its order.
use spruce.Prelude.{
  ℕ, ◌+◌, ◌≤◌, ◌≡◌, refl, sym, subst, ◌∙◌, ◌⊎◌, inl, inr, if_pos, Bool, true, false, Option, none,
  some, List, [], ◌∷◌, ◌++◌, arith, ltb, ◌==◌, if◌then◌else◌, Bool-cases, Option-cases, some_inj,
  length, Str, str_dec,
}
use spruce.Prelude.Maps.{
  Map, Distinct, find, put, del, found-put, found-del, put-Distinct, del-Distinct, length-del,
}
use spruce.Client.Deduper.{DedupeEntry, Deduper, is_fresh, forget_one, forget, mark_seen}

-- An ID and the time until which it is remembered stand in the order.
abbrev pub Listed : Str → ℕ → List DedupeEntry → Type 0
Listed id until [] = ⊥
Listed id until (e ∷ es) = ((id ≡ e.id) × (until ≡ e.until)) ⊎ Listed id until es

-- Every ID in the map has its entry in the order, which is within the limit.
pub record Valid (d : Deduper) : Type 0 where
  pub distinct : Distinct str_dec d.seen
  pub listed :
      (id : Str) (until : ℕ) → find str_dec id d.seen ≡ some until → Listed id until d.order
  pub bounded : length d.order ≤ d.max_entries

abbrev pub Covered : Map Str ℕ → List DedupeEntry → Type 0
Covered seen order =
    (id : Str) (until : ℕ) → find str_dec id seen ≡ some until → Listed id until order

Listed-snoc :
    (id : Str) (until : ℕ) (es : List DedupeEntry) (e : DedupeEntry)
    → Listed id until es
    → Listed id until (es ++ (e ∷ []))
Listed-snoc id until [] e h = absurd h
Listed-snoc id until (x ∷ es) e (inl h) = inl h
Listed-snoc id until (x ∷ es) e (inr h) = inr (Listed-snoc id until es e h)

Listed-last : (e : DedupeEntry) (es : List DedupeEntry) → Listed e.id e.until (es ++ (e ∷ []))
Listed-last e [] = inl (refl, refl)
Listed-last e (x ∷ es) = inr (Listed-last e es)

Listed-tail :
    (id : Str) (until : ℕ) (e : DedupeEntry) (es : List DedupeEntry)
    → (id ≡ e.id → until ≡ e.until → ⊥)
    → Listed id until (e ∷ es)
    → Listed id until es
Listed-tail id until e es other (inl (a, b)) = absurd (other a b)
Listed-tail id until e es other (inr h) = h

forget_one-Covered :
    (seen : Map Str ℕ) (old : DedupeEntry) (rest : List DedupeEntry)
    → Distinct str_dec seen
    → Covered seen (old ∷ rest)
    → Distinct str_dec (forget_one seen old) × Covered (forget_one seen old) rest
unfolding forget_one
forget_one-Covered seen old rest d c = elim (Option-cases (find str_dec old.id seen)) [
  | inl gone ↦
      rw (gone, forget_one)
        (
          d,
          λ id until found.
              Listed-tail id until old rest
                (λ a b. clash gone (subst (λ x. find str_dec x seen ≡ some until) a found))
                (c id until found),
        )
  | inr (kept, is) ↦ elim (Bool-cases (kept == old.until)) [
    | inl same ↦
        rw (is, same, forget_one)
          (
            del-Distinct str_dec old.id seen d,
            λ id until found.
                let (ne, before) = found-del str_dec old.id id until seen found in
                Listed-tail id until old rest (λ a b. ne a) (c id until before),
          )
    | inr other ↦
        rw (is, other, forget_one)
          (
            d,
            λ id until found.
                Listed-tail id until old rest
                  (λ a b.
                    differs other (
                      some_inj (sym is ∙ subst (λ x. find str_dec x seen ≡ some until) a found)
                      ∙ b))
                  (c id until found),
          )
  ]
]
  where
    clash : {o : Option ℕ} {u : ℕ} → o ≡ none → o ≡ some u → ⊥
    clash a b = cc

    differs : {a b : ℕ} → (a == b) ≡ false → a ≡ b → ⊥
    differs h e = ground arith

forget-Covered :
    (limit : ℕ) (order : List DedupeEntry) (seen : Map Str ℕ)
    → Distinct str_dec seen
    → Covered seen order
    → Distinct str_dec (forget limit seen order).0
      × Covered (forget limit seen order).0 (forget limit seen order).1
      × (length (forget limit seen order).1 ≤ limit)
unfolding forget
forget-Covered limit [] seen d c = (d, c, omega arith)
forget-Covered limit (old ∷ rest) seen d c =
    pick (forget_one-Covered seen old rest d c) (ltb limit (length (old ∷ rest))) refl
      (forget-Covered limit rest (forget_one seen old))
  where
    pick :
        Distinct str_dec (forget_one seen old) × Covered (forget_one seen old) rest
        → (b : Bool) → ltb limit (length (old ∷ rest)) ≡ b
        → (Distinct str_dec (forget_one seen old)
            → Covered (forget_one seen old) rest
            → Distinct str_dec (forget limit (forget_one seen old) rest).0
              × Covered
                  (forget limit (forget_one seen old) rest).0
                  (forget limit (forget_one seen old) rest).1
              × (length (forget limit (forget_one seen old) rest).1 ≤ limit))
        → Distinct str_dec
            (if b then forget limit (forget_one seen old) rest else (seen, old ∷ rest)).0
          × Covered
              (if b then forget limit (forget_one seen old) rest else (seen, old ∷ rest)).0
              (if b then forget limit (forget_one seen old) rest else (seen, old ∷ rest)).1
          × (length (if b then forget limit (forget_one seen old) rest else (seen, old ∷ rest)).1
              ≤ limit)
    pick (d', c') true e ih = ih d' c'
    pick k false e ih = (d, c, ground arith)

-- At most as many IDs are remembered as there are order entries.
Covered-length :
    (order : List DedupeEntry) (seen : Map Str ℕ)
    → Distinct str_dec seen
    → Covered seen order
    → length seen ≤ length order
Covered-length [] [] d c = omega arith
Covered-length [] (e ∷ seen) d c =
    absurd (c e.0 e.1 (unfold find in if_pos (str_dec e.0 e.0) refl _ _))
Covered-length (o ∷ order) seen d c = elim (Option-cases (find str_dec o.id seen)) [
  | inl gone ↦ omega (arith, Covered-length order seen d (uncovered gone))
  | inr (u, is) ↦ omega (
    arith,
    length-del str_dec o.id u seen d is,
    Covered-length order (del str_dec o.id seen) (del-Distinct str_dec o.id seen d)
        (λ id until found.
          let (ne, before) = found-del str_dec o.id id until seen found in
          Listed-tail id until o order (λ a b. ne a) (c id until before)),
  )
]
  where
    clash : {o : Option ℕ} {u : ℕ} → o ≡ none → o ≡ some u → ⊥
    clash a b = cc

    uncovered : find str_dec o.id seen ≡ none → Covered seen order
    uncovered gone id until found =
        Listed-tail id until o order
          (λ a b. clash gone (subst (λ x. find str_dec x seen ≡ some until) a found))
          (c id until found)

mark_seen-Valid : (d : Deduper) (id : Str) (now : ℕ) → Valid d → Valid (mark_seen d id now).1
unfolding mark_seen
mark_seen-Valid d id now v = elim (Bool-cases (is_fresh d id now)) [
  | inl known ↦ rw (known, mark_seen) v
  | inr new ↦
      let entry : DedupeEntry = record { id = id; until = now + d.ttl } in
      let added : Covered (put str_dec id (now + d.ttl) d.seen) (d.order ++ (entry ∷ [])) =
        λ j until found. elim (found-put str_dec id j (now + d.ttl) until d.seen found) [
          | inl (same, eq) ↦
              subst (λ x. Listed j x (d.order ++ (entry ∷ []))) (sym eq)
                (subst (λ x. Listed x (now + d.ttl) (d.order ++ (entry ∷ []))) (sym same)
                  (Listed-last entry d.order))
          | inr (ne, old) ↦ Listed-snoc j until d.order entry (v.listed j until old)
        ] in
      let (d', c', b') =
        forget-Covered d.max_entries (d.order ++ (entry ∷ [])) (put str_dec id (now + d.ttl) d.seen)
          (put-Distinct str_dec id (now + d.ttl) d.seen v.distinct) added in
      rw (new, mark_seen) (record { distinct = d'; listed = c'; bounded = b' })
]

-- Whatever the IDs and times, `Seen` keeps the record in order and bounded: at most `max_entries` IDs
-- are remembered.
pub mark_seen-bounded :
    (d : Deduper) (id : Str) (now : ℕ)
    → Valid d
    → Valid (mark_seen d id now).1
      × (length (mark_seen d id now).1.seen ≤ (mark_seen d id now).1.max_entries)
mark_seen-bounded d id now v =
    let w = mark_seen-Valid d id now v in
    (w, omega (arith, w.bounded, Covered-length _ _ w.distinct w.listed))
