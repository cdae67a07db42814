-- ===== src/Cache/Walk.antt =====
-- The walk of a repair over the pages of `repairPage` of internal/broker/broker.go, one after another
-- as `repairPeerStep` of internal/broker/repair.go asks for them.
use spruce.Prelude.{
  ℕ, zero, suc, ◌≤◌, ◌≡◌, refl, sym, ap, subst, ◌∙◌, inl, inr, Option, none, some, List, [], ◌∷◌,
  ◌++◌, arith, leb, Bool-cases, length, length-append, All,
}
use spruce.Message.{message_size}
use spruce.Cache.Slots.{somes}
use spruce.Cache.{Stored, Cache}
use spruce.Cache.Insertion.{IsValid}
use spruce.Cache.Pages.{repair_page}
use spruce.Cache.Paging.{Resumes, later, repair_page-Resumes}

-- The pages while the cache stays as it is. An empty page ends the walk.
unfoldable pub repair_pages : ℕ → Cache → ℕ → ℕ → List (List Stored)
repair_pages zero c after limit = []
repair_pages (suc fuel) c after limit = elim (repair_page c after limit) [
  | none ↦ []
  | some p ↦ elim p.0 [ [] ↦ [] | s ∷ ss ↦ (s ∷ ss) ∷ repair_pages fuel c p.1 limit ]
]

abbrev pub join : List (List Stored) → List Stored
join [] = []
join (p ∷ ps) = p ++ join ps

later-All :
    (limit after : ℕ) (ss : List Stored)
    → All (λ s. message_size s.message ≤ limit) ss
    → All (λ s. message_size s.message ≤ limit) (later after ss)
unfolding later
later-All limit after [] h = tt
later-All limit after (s ∷ ss) h = elim (Bool-cases (leb s.ordinal after)) [
  | inl old ↦ rw (old, later) (later-All limit after ss h.1)
  | inr new ↦ rw (new, later) (h.0, later-All limit after ss h.1)
]

-- Where every message of a valid cache fits in a page, the pages of a repair after an ordinal, asked
-- for one after another while the cache stays as it is, come to an end after at most as many pages as
-- there are later messages, and hold each of these exactly once, in the order of arrival.
pub repair_pages-all :
    (fuel : ℕ) (c : Cache) (after limit : ℕ)
    → IsValid c
    → All (λ s. message_size s.message ≤ limit) (somes c.order)
    → length (later after (somes c.order)) ≤ fuel
    → join (repair_pages fuel c after limit) ≡ later after (somes c.order)
unfolding repair_pages
repair_pages-all zero c after limit v small enough = none_left (later after (somes c.order)) enough
  where
    none_left : (ss : List Stored) → length ss ≤ 0 → [] ≡ ss
    none_left [] h = refl
    none_left (s ∷ ss) h = absurd (omega arith)
repair_pages-all (suc fuel) c after limit v small enough =
    step (repair_page c after limit) (repair_page-Resumes c after limit v)
      (λ next. repair_pages-all fuel c next limit v small)
  where
    step :
        (r : Option (List Stored × ℕ))
        → Resumes c after limit r
        → ((next : ℕ)
            → length (later next (somes c.order)) ≤ fuel
            → join (repair_pages fuel c next limit) ≡ later next (somes c.order))
        → join (elim r [
          | none ↦ []
          | some p ↦ elim p.0 [ [] ↦ [] | s ∷ ss ↦ (s ∷ ss) ∷ repair_pages fuel c p.1 limit ]
        ])
          ≡ later after (somes c.order)
    step none (s, ss, e, large) ih =
        let h =
          subst (All (λ s. message_size s.message ≤ limit)) e
            (later-All limit after (somes c.order) small) in
        absurd (omega (arith, h.0, large))
    step (some ([], next)) (page, e) ih = elim page.onward [
      | inl done ↦ sym (page.split ∙ done)
      | inr bad ↦ absurd (omega (arith, bad))
    ]
    step (some (s ∷ ss, next)) (page, e) ih =
        ap (λ xs. (s ∷ ss) ++ xs)
          (ih next (
              omega (
                arith,
                enough,
                ap length page.split,
                length-append (s ∷ ss) page.rest,
                ap length e,
              ))
            ∙ e)
        ∙ sym page.split
