-- ===== src/Cache/Due.antt =====
-- The expiry items of the cache (`expiryItems`, `unlinkExpiryLocked`): where a message that is held is
-- found when its time is over.
use spruce.Prelude.{
  ℕ, ◌≡◌, refl, sym, ap, subst, ◌∙◌, ◌≢◌, ◌⊎◌, inl, inr, ite, none, some, List, [], ◌∷◌, ℕ_discrete,
  Option-cases, some_inj, Str, str_dec,
}
use spruce.Prelude.Maps.{Map, find, put, del, find-put_self, find-put_ne, find-del_ne}
use spruce.Cache.Slots.{Pointers}
use spruce.Cache.{Stored, Cached, Cache, without, unlink_expiry}
use spruce.Cache.Inserts.{link_expiry}
use spruce.Cache.Removal.{TakenOut}

abbrev pub Member : Str → List Str → Type 0
Member id [] = ⊥
Member id (x ∷ xs) = (x ≡ id) ⊎ Member id xs

abbrev pub Listed : ℕ → Str → Map ℕ (List Str) → Type 0
Listed at id expiries = (ids : List Str) × (find ℕ_discrete at expiries ≡ some ids) × Member id ids

-- Every message is found at its time, but for those that are to be removed next.
abbrev pub Due : Map Str Cached → Map ℕ (List Str) → ℕ → List Str → Type 0
Due items expiries at pending =
    (id : Str) (it : Cached)
    → find str_dec id items ≡ some it
    → Listed it.stored.message.expires_at id expiries
      ⊎ ((it.stored.message.expires_at ≡ at) × Member id pending)

pub Member-without :
    (j id : Str) (ids : List Str) → j ≢ id → Member j ids → Member j (without id ids)
unfolding without
Member-without j id [] ne h = absurd h
Member-without j id (x ∷ xs) ne h = cases (str_dec x id) h (Member-without j id xs ne)
  where
    cases :
        (d : Dec (x ≡ id))
        → ((x ≡ j) ⊎ Member j xs)
        → (Member j xs → Member j (without id xs))
        → Member j (ite d (without id xs) (x ∷ without id xs))
    cases (yes e) (inl same) ih = absurd (ne (sym same ∙ e))
    cases (yes e) (inr m) ih = ih m
    cases (no n) (inl same) ih = inl same
    cases (no n) (inr m) ih = inr (ih m)

-- Unlinking one message leaves the others where they are.
pub unlink_expiry-Listed :
    (at t : ℕ) (id j : Str) (expiries : Map ℕ (List Str))
    → j ≢ id
    → Listed t j expiries
    → Listed t j (unlink_expiry at id expiries)
unfolding unlink_expiry
unlink_expiry-Listed at t id j expiries ne (ids, f, m) =
    elim (Option-cases (find ℕ_discrete at expiries)) [
      | inl e ↦ rw (e, unlink_expiry) (ids, f, m)
      | inr (xs, e) ↦ rw (e, unlink_expiry) (cases xs e (without id xs) refl (ℕ_discrete t at))
    ]
  where
    cases :
        (xs : List Str)
        → find ℕ_discrete at expiries ≡ some xs
        → (ys : List Str) → without id xs ≡ ys
        → Dec (t ≡ at)
        → Listed t j (elim ys [
          | [] ↦ del ℕ_discrete at expiries
          | y ∷ ys' ↦ put ℕ_discrete at (y ∷ ys') expiries
        ])
    cases xs e [] w (no apart) = (ids, find-del_ne ℕ_discrete at t expiries apart ∙ f, m)
    cases xs e (y ∷ ys) w (no apart) =
        (ids, find-put_ne ℕ_discrete at t (y ∷ ys) expiries apart ∙ f, m)
    cases xs e ys w (yes same) =
        let here : ids ≡ xs = some_inj (sym f ∙ ap (λ n. find ℕ_discrete n expiries) same ∙ e) in
        let m' : Member j ys =
          subst (Member j) w (Member-without j id xs ne (subst (Member j) here m)) in
        filled ys m' same
      where
        filled :
            (ys : List Str)
            → Member j ys
            → t ≡ at
            → Listed t j (elim ys [
              | [] ↦ del ℕ_discrete at expiries
              | y ∷ ys' ↦ put ℕ_discrete at (y ∷ ys') expiries
            ])
        filled [] h same = absurd h
        filled (y ∷ ys) h same = (
          y ∷ ys,
          ap (λ n. find ℕ_discrete n (put ℕ_discrete at (y ∷ ys) expiries)) same
              ∙ find-put_self ℕ_discrete at (y ∷ ys) expiries,
          h,
        )

pub TakenOut-Due :
    (c c' : Cache) (slots : Pointers Stored) (it : Cached) (at : ℕ) (pending pending' : List Str)
    → TakenOut c c' slots it
    → ((j : Str) → j ≢ it.stored.message.id → Member j pending → Member j pending')
    → Due c.items c.expiries at pending
    → Due c'.items c'.expiries at pending'
TakenOut-Due c c' slots it at pending pending' out left due j jt h =
    let (ne, (kt, f, same)) = out.left j jt h in
    elim (due j kt f) [
      | inl l ↦ inl (
          rw out.expiries (
            unlink_expiry-Listed it.stored.message.expires_at jt.stored.message.expires_at
              it.stored.message.id j c.expiries ne
              (subst (λ s. Listed s.message.expires_at j c.expiries) same l)))
      | inr (t, m) ↦ inr (ap (λ s. s.message.expires_at) (sym same) ∙ t, left j ne m)
    ]

pub link_expiry-Listed_self :
    (at : ℕ) (id : Str) (expiries : Map ℕ (List Str)) → Listed at id (link_expiry at id expiries)
unfolding link_expiry
link_expiry-Listed_self at id expiries = elim (Option-cases (find ℕ_discrete at expiries)) [
  | inl e ↦ rw (e, link_expiry) (id ∷ [], find-put_self ℕ_discrete at (id ∷ []) expiries, inl refl)
  | inr (ids, e) ↦
      rw (e, link_expiry) (id ∷ ids, find-put_self ℕ_discrete at (id ∷ ids) expiries, inl refl)
]

pub link_expiry-Listed :
    (at t : ℕ) (id j : Str) (expiries : Map ℕ (List Str))
    → Listed t j expiries
    → Listed t j (link_expiry at id expiries)
unfolding link_expiry
link_expiry-Listed at t id j expiries (ids, f, m) =
    elim (Option-cases (find ℕ_discrete at expiries)) [
      | inl e ↦
          rw (e, link_expiry)
            (elim (ℕ_discrete t at) [
              | yes same ↦ absurd (clash (ap (λ n. find ℕ_discrete n expiries) same) e)
              | no ne ↦ (ids, find-put_ne ℕ_discrete at t (id ∷ []) expiries ne ∙ f, m)
            ])
      | inr (xs, e) ↦
          rw (e, link_expiry)
            (elim (ℕ_discrete t at) [
              | yes same ↦ (
                id ∷ xs,
                ap (λ n. find ℕ_discrete n (put ℕ_discrete at (id ∷ xs) expiries)) same
                    ∙ find-put_self ℕ_discrete at (id ∷ xs) expiries,
                inr (
                    subst (Member j)
                      (some_inj (sym f ∙ ap (λ n. find ℕ_discrete n expiries) same ∙ e)) m),
              )
              | no ne ↦ (ids, find-put_ne ℕ_discrete at t (id ∷ xs) expiries ne ∙ f, m)
            ])
    ]
  where
    clash :
        find ℕ_discrete t expiries ≡ find ℕ_discrete at expiries
        → find ℕ_discrete at expiries ≡ none
        → ⊥
    clash a b = cc

abbrev pub AllDue : Cache → Type 0
AllDue c = Due c.items c.expiries 0 []

pub TakenOut-AllDue :
    (c c' : Cache) (slots : Pointers Stored) (it : Cached)
    → TakenOut c c' slots it
    → AllDue c
    → AllDue c'
TakenOut-AllDue c c' slots it out due = TakenOut-Due c c' slots it 0 [] [] out (λ j ne h. h) due
