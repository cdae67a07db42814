-- ===== src/Checkpoints/Order.antt =====
-- The order in which checkpoints are evicted, against the entries of the table.
use spruce.Prelude.{
  ℕ, ◌≤◌, ◌<◌, ◌≡◌, sym, ap, subst, ◌∙◌, ◌≢◌, ◌⊎◌, inl, inr, ite, some, List, [], ◌∷◌, ◌++◌, arith,
  All, All-zip, All-drop_mid,
}
use spruce.Prelude.Maps.{Map, find, put, del, find-put, find-del_self, find-del_ne}
use spruce.Checkpoints.{Key, key_dec, OrderEntry, expiry}

abbrev pub In : OrderEntry → List OrderEntry → Type 0
In o [] = ⊥
In o (x ∷ xs) = (o ≡ x) ⊎ In o xs

-- Along the order the expiries of one key grow.
abbrev pub Growing : List OrderEntry → Type 0
Growing [] = Unit {0}
Growing (o ∷ os) = All (λ x. x.key ≡ o.key → o.expires_at < x.expires_at) os × Growing os

-- What holds of the entries against an order. The order may be split in two, as in a loop.
pub record Ordered (m : Map Key ℕ) (os : List OrderEntry) : Type 0 where
  pub covered :
      (k : Key) (e : ℕ) → find key_dec k m ≡ some e → In (record { key = k; expires_at = e }) os
  pub current : All (λ o. o.expires_at ≤ expiry m o.key) os
  pub positive : All (λ o. 0 < o.expires_at) os
  pub growing : Growing os

pub expiry-del_self : (k : Key) (m : Map Key ℕ) → expiry (del key_dec k m) k ≡ 0
unfolding expiry
expiry-del_self k m = rw (find-del_self key_dec k m, expiry)

pub expiry-del_ne : (k j : Key) (m : Map Key ℕ) → j ≢ k → expiry (del key_dec k m) j ≡ expiry m j
unfolding expiry
expiry-del_ne k j m h = rw (find-del_ne key_dec k j m h, expiry)

pub expiry-put :
    (k j : Key) (e : ℕ) (m : Map Key ℕ)
    → expiry (put key_dec k e m) j ≡ ite (key_dec j k) e (expiry m j)
unfolding expiry
expiry-put k j e m = ground (arith, find-put key_dec k j e m)

pub find_of_expiry :
    (k : Key) (m : Map Key ℕ) (e : ℕ) → expiry m k ≡ e → 0 < e → find key_dec k m ≡ some e
unfolding expiry
find_of_expiry k m e h p = ground arith

pub In-drop_mid :
    (x o : OrderEntry) (pre post : List OrderEntry)
    → In x (pre ++ (o ∷ post))
    → (x ≡ o) ⊎ In x (pre ++ post)
In-drop_mid x o [] post h = h
In-drop_mid x o (y ∷ pre) post (inl e) = inr (inl e)
In-drop_mid x o (y ∷ pre) post (inr i) = elim (In-drop_mid x o pre post i) [
  | inl e ↦ inl e
  | inr j ↦ inr (inr j)
]

pub Growing-drop_mid :
    (pre post : List OrderEntry) (o : OrderEntry)
    → Growing (pre ++ (o ∷ post))
    → Growing (pre ++ post)
Growing-drop_mid [] post o g = g.1
Growing-drop_mid (x ∷ pre) post o g = (
  (All-drop_mid (λ y. y.key ≡ x.key → x.expires_at < y.expires_at) pre o post g.0).1,
  Growing-drop_mid pre post o g.1,
)

-- The entries that precede are the table's own: no other expiry is written for their keys.
abbrev pub Exact : Map Key ℕ → List OrderEntry → Type 0
Exact m = All (λ o. expiry m o.key ≡ o.expires_at)

pub others_ne :
    (m : Map Key ℕ) (pre post : List OrderEntry) (o : OrderEntry)
    → Growing (pre ++ (o ∷ post))
    → Exact m pre
    → All (λ x. x.expires_at ≤ expiry m x.key) (pre ++ (o ∷ post))
    → expiry m o.key ≡ o.expires_at
    → All (λ x. x.key ≢ o.key) (pre ++ post)
others_ne m [] post o g ex cur e =
    All-zip (λ x. x.key ≡ o.key → o.expires_at < x.expires_at) (λ x. x.expires_at ≤ expiry m x.key)
      (λ x. x.key ≢ o.key)
      (λ x lt le same. absurd (omega (arith, lt same, le, ap (expiry m) same, e))) post g.0 cur.1
others_ne m (y ∷ pre) post o g ex cur e = (
  λ same. absurd (
      omega (
        arith,
        (All-drop_mid (λ x. x.key ≡ y.key → y.expires_at < x.expires_at) pre o post g.0).0
            (sym same),
        ex.0,
        ap (expiry m) same,
        e,
      )),
  others_ne m pre post o g.1 ex.1 cur.1 e,
)

pub expiry_here :
    (m : Map Key ℕ) (x : OrderEntry)
    → find key_dec x.key m ≡ some x.expires_at
    → expiry m x.key ≡ x.expires_at
unfolding expiry
expiry_here m x h = rw (h, expiry)

module _ (m : Map Key ℕ) (pre post : List OrderEntry) (o : OrderEntry)
    (v : Ordered m (pre ++ (o ∷ post))) where
  -- An entry that the table has overwritten can go.
  pub skip-Ordered : expiry m o.key ≢ o.expires_at → Ordered m (pre ++ post)
  unfolding expiry
  skip-Ordered stale = record {
    covered = λ k e h.
        elim (In-drop_mid (record { key = k; expires_at = e }) o pre post (v.covered k e h)) [
          | inl same ↦
              absurd (stale (subst (λ x. expiry m x.key ≡ x.expires_at) same (expiry_here m _ h)))
          | inr i ↦ i
        ];
    current = (All-drop_mid _ pre o post v.current).1;
    positive = (All-drop_mid _ pre o post v.positive).1;
    growing = Growing-drop_mid pre post o v.growing;
  }

  pub delete-Ordered :
      Exact m pre
      → expiry m o.key ≡ o.expires_at
      → Ordered (del key_dec o.key m) (pre ++ post) × All (λ x. x.key ≢ o.key) (pre ++ post)
  delete-Ordered ex e =
      let ne = others_ne m pre post o v.growing ex v.current e in
      (
        record {
          covered = λ k x h. elim (key_dec k o.key) [
            | yes same ↦ absurd (ground (arith, find-del_self key_dec o.key m))
            | no other ↦
                elim (In-drop_mid (record { key = k; expires_at = x }) o pre post
                  (v.covered k x (sym (find-del_ne key_dec o.key k m other) ∙ h))) [
                    | inl here ↦ absurd (other (ap (λ y. y.key) here))
                    | inr i ↦ i
                  ]
          ];
          current =
              All-zip {A = OrderEntry} (λ x. x.key ≢ o.key) (λ x. x.expires_at ≤ expiry m x.key)
                (λ x. x.expires_at ≤ expiry (del key_dec o.key m) x.key)
                (λ x n le. rw (expiry-del_ne o.key x.key m n) le) (pre ++ post) ne
                (All-drop_mid _ pre o post v.current).1;
          positive = (All-drop_mid _ pre o post v.positive).1;
          growing = Growing-drop_mid pre post o v.growing;
        },
        ne,
      )
