-- ===== src/Client/Deduper/Memory.antt =====
-- What `Deduper.Seen` remembers, of pkg/spruce/client.go.
use spruce.Prelude.{
  suc, ◌≤◌, ap, append_assoc, length-append, ◌⊎◌, ℕ, ◌+◌, ◌<◌, ◌≡◌, refl, sym, subst, ◌∙◌, inl, inr,
  Bool, true, false, some, List, [], ◌∷◌, ◌++◌, arith, ltb, ◌==◌, if◌then◌else◌, Bool-cases,
  Option-cases, some_inj, lt→ltb, length, All, Str, str_dec,
}
use spruce.Prelude.Maps.{Map, find, put, find-put_self, find-put_ne, find-del_ne}
use spruce.Client.Deduper.{DedupeEntry, Deduper, is_fresh, forget_one, forget, mark_seen}

forget_one-keeps :
    (seen : Map Str ℕ) (old : DedupeEntry) (id : Str) (until : ℕ)
    → old.until < until
    → find str_dec id seen ≡ some until
    → find str_dec id (forget_one seen old) ≡ some until
unfolding forget_one
forget_one-keeps seen old id until older found = elim (Option-cases (find str_dec old.id seen)) [
  | inl gone ↦ rw (gone, forget_one) found
  | inr (kept, is) ↦ elim (Bool-cases (kept == old.until)) [
    | inl same ↦
        rw (is, same, forget_one)
          (find-del_ne str_dec old.id id seen (λ e. absurd (
              late same
                (some_inj (sym is ∙ subst (λ x. find str_dec x seen ≡ some until) e found))))
            ∙ found)
    | inr other ↦ rw (is, other, forget_one) found
  ]
]
  where
    late : {k : ℕ} → (k == old.until) ≡ true → k ≡ until → ⊥
    late h e = ground arith

-- An ID is remembered until a time, and at most `n` entries are younger than its own.
record Kept (id : Str) (until n : ℕ) (seen : Map Str ℕ) (order : List DedupeEntry) : Type 0 where
  older : List DedupeEntry
  younger : List DedupeEntry
  stands : order ≡ older ++ (record { id = id; until = until } ∷ younger)
  before : All (λ e. e.until < until) older
  few : length younger ≤ n
  found : find str_dec id seen ≡ some until

forget-Kept :
    (limit n : ℕ) (id : Str) (until : ℕ) (older younger : List DedupeEntry) (seen : Map Str ℕ)
    → n < limit
    → length younger ≤ n
    → All (λ e. e.until < until) older
    → find str_dec id seen ≡ some until
    → let r = forget limit seen (older ++ (record { id = id; until = until } ∷ younger)) in
      Kept id until n r.0 r.1
unfolding forget
forget-Kept limit n id until [] younger seen room few b found =
    let own : DedupeEntry = record { id = id; until = until } in
    let stays : ltb limit (length (own ∷ younger)) ≡ false = ground arith in
    rw (stays, forget)
      (record {
        older = [];
        younger = younger;
        stands = refl;
        before = tt;
        few = few;
        found = found;
      })
forget-Kept limit n id until (old ∷ older) younger seen room few b found =
    pick (ltb limit (length (old ∷ (older ++ (record { id = id; until = until } ∷ younger))))) (
      forget-Kept limit n id until older younger (forget_one seen old) room few b.1
        (forget_one-keeps seen old id until b.0 found))
  where
    rest : List DedupeEntry
    rest = older ++ (record { id = id; until = until } ∷ younger)

    pick :
        (c : Bool)
        → Kept id until n
            (forget limit (forget_one seen old) rest).0
            (forget limit (forget_one seen old) rest).1
        → Kept id until n
            (if c then forget limit (forget_one seen old) rest else (seen, old ∷ rest)).0
            (if c then forget limit (forget_one seen old) rest else (seen, old ∷ rest)).1
    pick true ih = ih
    pick false ih = record {
      older = old ∷ older;
      younger = younger;
      stands = refl;
      before = b;
      few = few;
      found = found;
    }

fresh_lem :
    (d : Deduper) (id : Str) (until later : ℕ)
    → find str_dec id d.seen ≡ some until
    → later < until
    → is_fresh d id later ≡ true
unfolding is_fresh
fresh_lem d id until later h soon = rw (h, is_fresh) (lt→ltb later until soon)

-- Another call leaves the ID remembered, with one younger entry more at most.
mark_seen-Kept :
    (d : Deduper) (id other : Str) (until now n : ℕ)
    → suc n < d.max_entries
    → now < until
    → Kept id until n d.seen d.order
    → Kept id until (suc n) (mark_seen d other now).1.seen (mark_seen d other now).1.order
unfolding mark_seen
mark_seen-Kept d id other until now n room soon k = elim (Bool-cases (is_fresh d other now)) [
  | inl known ↦
      rw (known, mark_seen)
        (record {
          older = k.older;
          younger = k.younger;
          stands = k.stands;
          before = k.before;
          few = omega (arith, k.few);
          found = k.found;
        })
  | inr unknown ↦
      rw (unknown, mark_seen)
        (subst
          (λ o.
            Kept id until (suc n)
              (forget d.max_entries (put str_dec other (now + d.ttl) d.seen) o).0
              (forget d.max_entries (put str_dec other (now + d.ttl) d.seen) o).1)
          (sym (append_assoc k.older (record { id = id; until = until } ∷ k.younger) (entry ∷ []))
            ∙ ap (λ o. o ++ (entry ∷ [])) (sym k.stands))
          (forget-Kept d.max_entries (suc n) id until k.older (k.younger ++ (entry ∷ [])) _ room
            (omega (arith, k.few, length-append k.younger (entry ∷ []))) k.before
            (find-put_ne str_dec other id (now + d.ttl) d.seen (λ e. different unknown e)
              ∙ k.found)))
]
  where
    entry : DedupeEntry
    entry = record { id = other; until = now + d.ttl }

    different : is_fresh d other now ≡ false → id ≡ other → ⊥
    different stale e =
        let fresh : is_fresh d other now ≡ true =
          subst (λ x. is_fresh d x now ≡ true) e (fresh_lem d id until now k.found soon) in
        ground arith

-- Calls of `Seen`, each with its time.
unfoldable pub mark_all : List (Str × ℕ) → Deduper → Deduper
mark_all [] d = d
mark_all (c ∷ cs) d = mark_all cs (mark_seen d c.0 c.1).1

mark_seen-max :
    (d : Deduper) (id : Str) (now : ℕ) → (mark_seen d id now).1.max_entries ≡ d.max_entries
unfolding mark_seen
mark_seen-max d id now = ground arith

mark_all-Kept :
    (d : Deduper) (id : Str) (until n : ℕ) (calls : List (Str × ℕ))
    → n + length calls < d.max_entries
    → All (λ c. c.1 < until) calls
    → Kept id until n d.seen d.order
    → find str_dec id (mark_all calls d).seen ≡ some until
unfolding mark_all
mark_all-Kept d id until n [] room soon k = k.found
mark_all-Kept d id until n (c ∷ cs) room soon k =
    mark_all-Kept (mark_seen d c.0 c.1).1 id until (suc n) cs
      (omega (arith, mark_seen-max d c.0 c.1)) soon.1
      (mark_seen-Kept d id c.0 until c.1 n (omega arith) soon.0 k)

-- An ID that `Seen` reports as new is recognised until its time is over, whatever IDs are passed to
-- `Seen` in between, if these calls are fewer than the entries that it may remember, come
-- before that time is over, and every entry that was remembered before ends earlier than the new one.
pub mark_seen-remembers :
    (d : Deduper) (id : Str) (now : ℕ) (calls : List (Str × ℕ)) (later : ℕ)
    → length calls < d.max_entries
    → All (λ c. c.1 < now + d.ttl) calls
    → All (λ e. e.until < now + d.ttl) d.order
    → later < now + d.ttl
    → (mark_seen d id now).0 ≡ false
    → (mark_seen (mark_all calls (mark_seen d id now).1) id later).0 ≡ true
unfolding mark_seen
mark_seen-remembers d id now calls later room between moved soon new =
    let fresh =
      fresh_lem (mark_all calls (mark_seen d id now).1) id (now + d.ttl) later
        (mark_all-Kept (mark_seen d id now).1 id (now + d.ttl) 0 calls
          (omega (arith, room, mark_seen-max d id now)) between
          (first (Bool-cases (is_fresh d id now))))
        soon in
    rw (fresh, mark_seen) refl
  where
    first :
        ((is_fresh d id now ≡ true) ⊎ (is_fresh d id now ≡ false))
        → Kept id (now + d.ttl) 0 (mark_seen d id now).1.seen (mark_seen d id now).1.order
    first (inl known) = absurd (ground arith)
    first (inr unknown) =
        rw (unknown, mark_seen)
          (forget-Kept d.max_entries 0 id (now + d.ttl) d.order [] _ (omega arith) (omega arith)
            moved (find-put_self str_dec id (now + d.ttl) d.seen))
