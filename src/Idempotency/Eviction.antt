-- ===== src/Idempotency/Eviction.antt =====
-- The eviction of `beginIdempotency`.
use spruce.Prelude.{
  ℕ, ◌+◌, ◌≡◌, sym, ap, subst, ◌∙◌, inl, inr, true, not, ◌&&◌, none, some, List, [], ◌∷◌, arith,
  Bool-cases, Option-cases, some_inj, length, Str, str_dec,
}
use spruce.Prelude.Maps.{Map, Distinct, find, find-del_ne, del-Distinct, length-del}
use spruce.Idempotency.{Entry, points_to, in_progress_at, evict}

-- What an eviction leaves: no entry in progress goes.
pub record Evicted (store : Map ℕ Entry) (entries : Map Str ℕ) (r : Map Str ℕ × List (Str × ℕ))
    : Type 0 where
  pub distinct : Distinct str_dec entries → Distinct str_dec r.0
  pub shorter : Distinct str_dec entries → length r.0 + 1 ≡ length entries
  pub spared :
      (key : Str) (n : ℕ)
      → find str_dec key entries ≡ some n
      → in_progress_at store n ≡ true
      → find str_dec key r.0 ≡ some n

points_to-found :
    (entries : Map Str ℕ) (item : Str × ℕ)
    → points_to entries item ≡ true
    → find str_dec item.0 entries ≡ some item.1
unfolding points_to
points_to-found entries item h = elim (Option-cases (find str_dec item.0 entries)) [
  | inl e ↦ absurd (ground arith)
  | inr (n, e) ↦ e ∙ ap some (ground arith)
]

pub evict-Evicted :
    (store : Map ℕ Entry) (entries : Map Str ℕ) (items : List (Str × ℕ))
    (r : Map Str ℕ × List (Str × ℕ))
    → evict store entries items ≡ some r
    → Evicted store entries r
unfolding evict
evict-Evicted store entries [] r h = absurd (cc)
evict-Evicted store entries (item ∷ items) r h =
    elim (Bool-cases (points_to entries item && not (in_progress_at store item.1))) [
      | inl hit ↦
          let is = points_to-found entries item (ground arith) in
          subst (Evicted store entries) (some_inj (rw (hit, evict) at h)) (record {
            distinct = λ d. del-Distinct str_dec item.0 entries d;
            shorter = λ d. length-del str_dec item.0 item.1 entries d is;
            spared = λ key n found busy. elim (str_dec key item.0) [
              | yes e ↦ absurd (
                  idle hit busy
                    (some_inj (sym (subst (λ x. find str_dec x entries ≡ some n) e found) ∙ is)))
              | no ne ↦ find-del_ne str_dec item.0 key entries ne ∙ found
            ];
          })
      | inr miss ↦ elim (Option-cases (evict store entries items)) [
        | inl e ↦ absurd (cc_none (rw (miss, e, evict) at h))
        | inr (q, e) ↦
            let ih = evict-Evicted store entries items q e in
            subst (Evicted store entries) (some_inj (rw (miss, e, evict) at h))
              (record { distinct = ih.distinct; shorter = ih.shorter; spared = ih.spared })
      ]
    ]
  where
    cc_none : {x : Map Str ℕ × List (Str × ℕ)} → none ≡ some x → ⊥
    cc_none e = cc

    idle :
        {n : ℕ}
        → (points_to entries item && not (in_progress_at store item.1)) ≡ true
        → in_progress_at store n ≡ true
        → n ≡ item.1
        → ⊥
    idle {n} h busy e = ground (arith, subst (λ x. in_progress_at store x ≡ true) e busy)
