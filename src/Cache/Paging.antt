-- ===== src/Cache/Paging.antt =====
-- The pages of `repairPage` and `page` of internal/broker/broker.go.
use spruce.Prelude.{
  ℕ, ◌+◌, ◌≤◌, ◌<◌, ◌≡◌, refl, sym, ap, subst, ◌∙◌, ◌⊎◌, inl, inr, true, false, Option, none, some,
  List, [], ◌∷◌, ◌++◌, arith, ltb, leb, ◌==◌, if◌then◌else◌, Bool-cases, ltb→lt, le→leb, length,
}
use mathlib.Core.Option
use spruce.Message.{message_size}
use spruce.Cache.Slots.{Pointers, somes}
use spruce.Cache.{Stored, Cache}
use spruce.Cache.Dropping.{total}
use spruce.Cache.Insertion.{Rising, Rising-lower, IsValid}
use spruce.Cache.Pages.{fill_page, after_ordinal, last_ordinal, repair_page, max_batch_messages}

-- What a page takes of the messages that are left: as many as the limits on bytes and messages
-- admit, and at least one if there is one.
pub record Page (limit count bytes : ℕ) (all out : List Stored) : Type 0 where
  pub rest : List Stored
  pub split : all ≡ out ++ rest
  pub fits : bytes + total out ≤ limit
  pub short : count + length out ≤ 4096
  pub onward : (rest ≡ []) ⊎ (0 < count + length out)
  pub whole :
      (rest ≡ [])
      ⊎ ((count + length out ≡ 4096)
          ⊎ ((s : Stored) × (ss : List Stored) × (rest ≡ s ∷ ss)
              × (limit < bytes + total out + message_size s.message)))

-- No page: the first message alone is larger than one.
abbrev pub Blocked : ℕ → List Stored → Type 0
Blocked limit all =
    (s : Stored) × (ss : List Stored) × (all ≡ s ∷ ss) × (limit < message_size s.message)

abbrev Filled : ℕ → ℕ → ℕ → List Stored → Option (List Stored) → Type 0
Filled limit count bytes all none =
    (s : Stored) × (ss : List Stored) × (all ≡ s ∷ ss)
    × (limit < bytes + message_size s.message)
    × (count ≡ 0)
Filled limit count bytes all (some out) = Page limit count bytes all out

take_one :
    (limit count bytes : ℕ) (s : Stored) (all : List Stored) (r : Option (List Stored))
    → Filled limit (count + 1) (bytes + message_size s.message) all r
    → Filled limit count bytes (s ∷ all) (Option.map (λ ss. s ∷ ss) r)
take_one limit count bytes s all none (t, ts, e, f, z) = absurd (omega (arith, z))
take_one limit count bytes s all (some out) p = record {
  rest = p.rest;
  split = ap (◌∷◌ s) p.split;
  fits = omega (arith, p.fits);
  short = omega (arith, p.short);
  onward = inr (omega arith);
  whole = elim p.whole [
    | inl e ↦ inl e
    | inr (inl e) ↦ inr (inl (omega (arith, e)))
    | inr (inr (t, ts, e, f)) ↦ inr (inr (t, ts, e, omega (arith, f)))
  ];
}

fill_page-Filled :
    (limit count bytes : ℕ) (slots : Pointers Stored)
    → bytes ≤ limit
    → count ≤ 4096
    → Filled limit count bytes (somes slots) (fill_page limit count bytes slots)
unfolding fill_page somes
fill_page-Filled limit count bytes [] b n = record {
  rest = [];
  split = refl;
  fits = omega arith;
  short = omega arith;
  onward = inl refl;
  whole = inl refl;
}
fill_page-Filled limit count bytes (none ∷ slots) b n = fill_page-Filled limit count bytes slots b n
fill_page-Filled limit count bytes (some s ∷ slots) b n =
    elim (Bool-cases (leb max_batch_messages count)) [
      | inl full ↦
          rw (full, fill_page)
            (record {
              rest = s ∷ somes slots;
              split = refl;
              fits = omega arith;
              short = omega arith;
              onward = inr (ground arith);
              whole = inr (inl (ground arith));
            })
      | inr more ↦ elim (Bool-cases (ltb limit (bytes + message_size s.message))) [
        | inr small ↦
            rw (more, small, fill_page)
              (take_one limit count bytes s (somes slots) _ (
                fill_page-Filled limit (count + 1) (bytes + message_size s.message) slots
                  (ground arith) (ground arith)))
        | inl large ↦ elim (Bool-cases (count == 0)) [
          | inl first ↦
              rw (more, large, first, fill_page)
                (s, somes slots, refl, ltb→lt _ _ large, ground arith)
          | inr later ↦
              rw (more, large, later, fill_page)
                (record {
                  rest = s ∷ somes slots;
                  split = refl;
                  fits = omega arith;
                  short = omega arith;
                  onward = inr (ground arith);
                  whole = inr (inr (s, somes slots, refl, ground arith));
                })
        ]
      ]
    ]

-- The messages with a later ordinal.
unfoldable pub later : ℕ → List Stored → List Stored
later after [] = []
later after (s ∷ ss) = if leb s.ordinal after then later after ss else s ∷ later after ss

somes-after_ordinal :
    (after : ℕ) (slots : Pointers Stored)
    → somes (after_ordinal after slots) ≡ later after (somes slots)
unfolding somes after_ordinal later
somes-after_ordinal after [] = refl
somes-after_ordinal after (none ∷ slots) = somes-after_ordinal after slots
somes-after_ordinal after (some s ∷ slots) = elim (Bool-cases (leb s.ordinal after)) [
  | inl old ↦ rw (old, after_ordinal, later) (somes-after_ordinal after slots)
  | inr new ↦ rw (new, after_ordinal, later) (ap (◌∷◌ s) (somes-after_ordinal after slots))
]

later-all : (after top : ℕ) (ss : List Stored) → Rising after ss top → later after ss ≡ ss
unfolding later
later-all after top [] r = refl
later-all after top (s ∷ ss) r =
    let new : leb s.ordinal after ≡ false = ground arith in
    rw (new, later)
      (ap (◌∷◌ s) (later-all after top ss (Rising-lower s.ordinal after top ss (omega arith) r.1)))

last_ordinal-ge :
    (low top : ℕ) (out rest : List Stored)
    → Rising low (out ++ rest) top
    → low ≤ last_ordinal low out
unfolding last_ordinal
last_ordinal-ge low top [] rest r = omega arith
last_ordinal-ge low top (s ∷ out) rest r =
    omega (arith, r.0, last_ordinal-ge s.ordinal top out rest r.1)

-- After the messages of a page come those that it left.
later-last :
    (low top : ℕ) (out rest : List Stored)
    → Rising low (out ++ rest) top
    → later (last_ordinal low out) (out ++ rest) ≡ rest
unfolding last_ordinal later
later-last low top [] rest r = later-all low top rest r
later-last low top (s ∷ out) rest r =
    let old : leb s.ordinal (last_ordinal s.ordinal out) ≡ true =
      le→leb _ _ (last_ordinal-ge s.ordinal top out rest r.1) in
    rw (old, later) (later-last s.ordinal top out rest r.1)

later-front :
    (low top after : ℕ) (s : Stored) (ss all : List Stored)
    → Rising low (s ∷ ss) top
    → leb s.ordinal after ≡ false
    → later after (s ∷ ss) ≡ all
    → s ∷ ss ≡ all
later-front low top after s ss all r new e =
    sym (later-all after top (s ∷ ss) (ground arith, r.1)) ∙ e

last_ordinal-gt :
    (low top after : ℕ) (ss : List Stored) (t : Stored) (out rest : List Stored)
    → Rising low ss top
    → later after ss ≡ t ∷ (out ++ rest)
    → after < last_ordinal t.ordinal out
unfolding later
last_ordinal-gt low top after [] t out rest r e = absurd (cc)
last_ordinal-gt low top after (s ∷ ss) t out rest r e = elim (Bool-cases (leb s.ordinal after)) [
  | inl old ↦ last_ordinal-gt s.ordinal top after ss t out rest r.1 (rw (old, later) at e)
  | inr new ↦
      let r' : Rising low (t ∷ (out ++ rest)) top =
        subst (λ xs. Rising low xs top) (later-front low top after s ss _ r new e) r in
      omega (
        arith,
        last_ordinal-ge t.ordinal top out rest r'.1,
        first (later-front low top after s ss _ r new e) new,
      )
]
  where
    first : s ∷ ss ≡ t ∷ (out ++ rest) → leb s.ordinal after ≡ false → after < t.ordinal
    first e new = let same : s ≡ t = cc in rw (← same) (ground arith)

-- The same, of all messages in the order.
later-resumes :
    (low top after : ℕ) (ss out rest : List Stored)
    → Rising low ss top
    → later after ss ≡ out ++ rest
    → later (last_ordinal after out) ss ≡ rest
unfolding later last_ordinal
later-resumes low top after ss [] rest r e = e
later-resumes low top after [] (t ∷ out) rest r e = absurd (cc)
later-resumes low top after (s ∷ ss) (t ∷ out) rest r e = elim (Bool-cases (leb s.ordinal after)) [
  | inl old ↦
      let e' : later after ss ≡ t ∷ (out ++ rest) = rw (old, later) at e in
      let past : leb s.ordinal (last_ordinal t.ordinal out) ≡ true =
        ground (arith, last_ordinal-gt s.ordinal top after ss t out rest r.1 e') in
      rw (past, later) (later-resumes s.ordinal top after ss (t ∷ out) rest r.1 e')
  | inr new ↦
      let all = later-front low top after s ss _ r new e in
      let r' : Rising after ((t ∷ out) ++ rest) top =
        subst (λ xs. Rising after xs top) all (ground arith, r.1) in
      ap (later (last_ordinal t.ordinal out)) all ∙ later-last after top (t ∷ out) rest r'
]

abbrev pub Resumes : Cache → ℕ → ℕ → Option (List Stored × ℕ) → Type 0
Resumes c after limit none = Blocked limit (later after (somes c.order))
Resumes c after limit (some (out, next)) =
    (page : Page limit 0 0 (later after (somes c.order)) out) × (later next (somes c.order)
      ≡ page.rest)

-- Of a valid cache, a repair page after an ordinal takes messages in their order from those with a
-- later ordinal, within its limits on bytes and messages, stops only at one of these or at the end,
-- and has at least one message if any is left; and what comes after its last ordinal is exactly what
-- it left. It is refused only where the next message alone is above the limit on bytes.
pub repair_page-Resumes :
    (c : Cache) (after limit : ℕ) → IsValid c → Resumes c after limit (repair_page c after limit)
unfolding repair_page
repair_page-Resumes c after limit v = finish (fill_page limit 0 0 (after_ordinal after c.order)) (
    rw (← somes-after_ordinal after c.order)
      (fill_page-Filled limit 0 0 (after_ordinal after c.order) (omega arith) (omega arith)))
  where
    finish :
        (r : Option (List Stored))
        → Filled limit 0 0 (later after (somes c.order)) r
        → Resumes c after limit (Option.map (λ out. (out, last_ordinal after out)) r)
    finish none (s, ss, e, f, z) = (s, ss, e, omega (arith, f))
    finish (some out) p =
        (p, later-resumes 0 c.next_ordinal after (somes c.order) out p.rest v.rising p.split)
