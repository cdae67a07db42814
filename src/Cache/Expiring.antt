-- ===== src/Cache/Expiring.antt =====
-- The top of the expiry heap of internal/broker/broker.go, and the messages whose time is not over.
use spruce.Prelude.{
  ℕ, suc, ◌≤◌, ◌<◌, ◌≡◌, refl, sym, ap, subst, ◌∙◌, ◌≢◌, inl, inr, if_pos, if_neg, false, none,
  some, List, [], ◌∷◌, ◌++◌, arith, ℕ_discrete, ltb, leb, if◌then◌else◌, Bool-cases, Option-cases,
  some_inj, ltb→lt, le→leb, length, get_elem?, Str,
}
use spruce.Prelude.Maps.{Map, find, del, length-del-le}
use spruce.Cache.{Stored}
use spruce.Cache.Expiry.{next_expiry}

-- The messages whose time is not over.
unfoldable pub keep_live : ℕ → List Stored → List Stored
keep_live now [] = []
keep_live now (s ∷ ss) =
    if leb s.message.expires_at now then keep_live now ss else s ∷ keep_live now ss

pub keep_live-drop_mid :
    (now : ℕ) (pre : List Stored) (s : Stored) (post : List Stored)
    → s.message.expires_at ≤ now
    → keep_live now (pre ++ (s ∷ post)) ≡ keep_live now (pre ++ post)
unfolding keep_live
keep_live-drop_mid now [] s post h = rw (le→leb _ _ h) refl
keep_live-drop_mid now (t ∷ pre) s post h = rw (keep_live-drop_mid now pre s post h) refl

pub keep_live-all :
    (now : ℕ) (ss : List Stored)
    → ((k : ℕ) (s : Stored) → get_elem? ss k ≡ some s → now < s.message.expires_at)
    → keep_live now ss ≡ ss
unfolding keep_live
keep_live-all now [] h = refl
keep_live-all now (s ∷ ss) h =
    let later : leb s.message.expires_at now ≡ false = ground (arith, h 0 s refl) in
    rw (later, keep_live) (ap (◌∷◌ s) (keep_live-all now ss (λ k. h (suc k))))

-- The top of the heap is in the map, and nothing is earlier.
pub next_expiry-least :
    (m : Map ℕ (List Str)) (e : ℕ × List Str)
    → next_expiry m ≡ some e
    → (find ℕ_discrete e.0 m ≡ some e.1)
      × ((t : ℕ) (ids : List Str) → find ℕ_discrete t m ≡ some ids → e.0 ≤ t)
unfolding next_expiry find
next_expiry-least [] e h = absurd (cc)
next_expiry-least (x ∷ xs) e h = elim (Option-cases (next_expiry xs)) [
  | inl n ↦ first (some_inj (rw (n, next_expiry) at h)) (λ t ids f. empty xs n t ids f)
  | inr (f, n) ↦ split f (next_expiry-least xs f n) (rw (n, next_expiry) at h)
]
  where
    empty :
        (ys : Map ℕ (List Str))
        → next_expiry ys ≡ none
        → (t : ℕ) (ids : List Str) → find ℕ_discrete t ys ≡ some ids
        → x.0 ≤ t
    empty [] n t ids f = absurd (cc)
    empty (y ∷ ys) n t ids f = elim (Option-cases (next_expiry ys)) [
      | inl k ↦ let k' : some y ≡ none = (rw (k, next_expiry) at n) in absurd (cc)
      | inr (z, k) ↦ absurd (never z (rw (k, next_expiry) at n))
    ]
      where
        never : (z : ℕ × List Str) → (if ltb z.0 y.0 then some z else some y) ≡ none → ⊥
        never z k = ground arith

    first :
        x ≡ e
        → ((t : ℕ) (ids : List Str) → find ℕ_discrete t xs ≡ some ids → x.0 ≤ t)
        → (find ℕ_discrete e.0 (x ∷ xs) ≡ some e.1)
          × ((t : ℕ) (ids : List Str) → find ℕ_discrete t (x ∷ xs) ≡ some ids → e.0 ≤ t)
    first same least = (
      subst (λ y. find ℕ_discrete y.0 (x ∷ xs) ≡ some y.1) same
          (if_pos (ℕ_discrete x.0 x.0) refl (some x.1) (find ℕ_discrete x.0 xs)),
      subst (λ y. (t : ℕ) (ids : List Str) → find ℕ_discrete t (x ∷ xs) ≡ some ids → y.0 ≤ t) same
          (λ t ids f. elim (ℕ_discrete t x.0) [
            | yes p ↦ omega (arith, p)
            | no p ↦ least t ids (sym (if_neg (ℕ_discrete t x.0) p _ _) ∙ f)
          ]),
    )

    split :
        (f : ℕ × List Str)
        → (find ℕ_discrete f.0 xs ≡ some f.1)
          × ((t : ℕ) (ids : List Str) → find ℕ_discrete t xs ≡ some ids → f.0 ≤ t)
        → (if ltb f.0 x.0 then some f else some x) ≡ some e
        → (find ℕ_discrete e.0 (x ∷ xs) ≡ some e.1)
          × ((t : ℕ) (ids : List Str) → find ℕ_discrete t (x ∷ xs) ≡ some ids → e.0 ≤ t)
    split f (found, least) h = elim (Bool-cases (ltb f.0 x.0)) [
      | inr late ↦
          first (some_inj (rw late at h)) (λ t ids k. let b = least t ids k in ground arith)
      | inl early ↦
          let same : f ≡ e = some_inj (rw early at h) in
          let before : f.0 < x.0 = ltb→lt _ _ early in
          (
            subst (λ y. find ℕ_discrete y.0 (x ∷ xs) ≡ some y.1) same
                (if_neg (ℕ_discrete f.0 x.0) (λ p. absurd (omega (arith, before, p))) _ _ ∙ found),
            subst (λ y. (t : ℕ) (ids : List Str) → find ℕ_discrete t (x ∷ xs) ≡ some ids → y.0 ≤ t)
                same
                (λ t ids k. elim (ℕ_discrete t x.0) [
                  | yes p ↦ omega (arith, p, before)
                  | no p ↦ least t ids (sym (if_neg (ℕ_discrete t x.0) p _ _) ∙ k)
                ]),
          )
    ]

pub length-del-lt :
    (k : ℕ) (w : List Str) (m : Map ℕ (List Str))
    → find ℕ_discrete k m ≡ some w
    → length (del ℕ_discrete k m) < length m
unfolding find del
length-del-lt k w [] h = absurd (cc)
length-del-lt k w (e ∷ m) h = ground (arith, length-del-lt k w m, length-del-le ℕ_discrete k m)

pub next_expiry-none :
    (t : ℕ) (ids : List Str) (m : Map ℕ (List Str))
    → next_expiry m ≡ none
    → find ℕ_discrete t m ≢ some ids
unfolding next_expiry find
next_expiry-none t ids [] h = λ f. cc
next_expiry-none t ids (x ∷ xs) h = λ f. elim (Option-cases (next_expiry xs)) [
  | inl n ↦ let bad : some x ≡ none = (rw (n, next_expiry) at h) in absurd (cc)
  | inr (y, n) ↦ absurd (never y (rw (n, next_expiry) at h))
]
  where
    never : (y : ℕ × List Str) → (if ltb y.0 x.0 then some y else some x) ≢ none
    never y k = ground arith
