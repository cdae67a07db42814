-- ===== src/Deliveries/Deadlines.antt =====
-- The loop of `maintenance` over the deadlines that have passed.
use spruce.Prelude.{
  ℕ, zero, suc, ◌+◌, ◌≤◌, ◌<◌, ◌≡◌, refl, sym, ap, subst, ◌∙◌, inl, inr, ite, if_pos, if_neg, true,
  Option, none, some, List, [], ◌∷◌, ◌++◌, arith, ℕ_discrete, ltb, ◌==◌, if◌then◌else◌, Bool-cases,
  Option-cases, some_inj, ltb→lt, length, All, sum_by,
}
use mathlib.Core.Option
use spruce.Prelude.Maps.{Map, Distinct, find, del, find-del_self, find-del_ne}
use spruce.Deliveries.{Pending, Limits, Deliveries, end_delivery, earliest, time_out, collect}
use spruce.Deliveries.Accounting.{Valid}
use spruce.Deliveries.Ending.{known_bytes, end_delivery-Valid}
use spruce.Deliveries.Earliest.{
  First, earliest-none, earliest-First, earliest-le, del-shorter, only, here, later,
}

-- What stays of a delivery when the loop has run.
abbrev pub kept : ℕ → Option Pending → Option Pending
kept now none = none
kept now (some p) = if ltb now p.next then some p else none

-- What the loop returns: the deliveries whose deadline has not passed stay, exactly those that are
-- due are taken, and the bytes of both together are what was in flight.
pub record Collected (l : Limits) (d : Deliveries) (now : ℕ) (r : Deliveries × List Pending)
    : Type 0 where
  pub valid : Valid l r.0
  pub stays : (id : ℕ) → find ℕ_discrete id r.0.pending ≡ kept now (find ℕ_discrete id d.pending)
  pub due : All (λ p. p.next ≤ now) r.1
  pub moved : r.0.pending_bytes + sum_by (λ p. p.bytes) r.1 ≡ d.pending_bytes

-- A round takes one due delivery, or the loop ends with none due.
data Round (l : Limits) (d : Deliveries) (now : ℕ)
    : Option (Deliveries × List Pending) → Type 0 where
  stopped :
      ((id : ℕ) (p : Pending) → find ℕ_discrete id d.pending ≡ some p → now < p.next)
      → Round l d now none
  taken :
      (id : ℕ) (p : Pending)
      → find ℕ_discrete id d.pending ≡ some p
      → p.next ≤ now
      → length (del ℕ_discrete id d.deadlines) < length d.deadlines
      → Round l d now (some (end_delivery d id p, p ∷ []))

armed_at :
    (l : Limits) (d : Deliveries) (id : ℕ) (p : Pending)
    → Valid l d
    → find ℕ_discrete id d.pending ≡ some p
    → find ℕ_discrete id d.deadlines ≡ some p.next
armed_at l d id p v e = v.armed id ∙ ap (Option.map (λ q. q.next)) e

find-earliest :
    (es : Map ℕ ℕ) (first : ℕ × ℕ)
    → Distinct ℕ_discrete es
    → earliest es ≡ some first
    → find ℕ_discrete first.0 es ≡ some first.1
unfolding find earliest
find-earliest [] first d h = absurd (cc)
find-earliest (e ∷ es) first d h = cases (earliest-First e es first h) (find-earliest es first d.1)
  where
    clash : {o : Option ℕ} {a : ℕ} → o ≡ none → o ≡ some a → ⊥
    clash p q = cc

    cases :
        First e es first
        → (earliest es ≡ some first → find ℕ_discrete first.0 es ≡ some first.1)
        → ite (ℕ_discrete first.0 e.0) (some e.1) (find ℕ_discrete first.0 es) ≡ some first.1
    cases (only a b) ih =
        rw (a, if_pos (ℕ_discrete e.0 e.0) refl (some e.1) (find ℕ_discrete e.0 es)) refl
    cases (here f a x le) ih =
        rw (a, if_pos (ℕ_discrete e.0 e.0) refl (some e.1) (find ℕ_discrete e.0 es)) refl
    cases (later x lt) ih =
        if_neg (ℕ_discrete first.0 e.0)
          (λ y. clash d.0 (subst (λ k. find ℕ_discrete k es ≡ some first.1) y (ih x))) _ _
        ∙ ih x

next-inverse :
    (o : Option Pending) (at : ℕ)
    → some at ≡ Option.map (λ p. p.next) o
    → (p : Pending) × (o ≡ some p) × (p.next ≡ at)
next-inverse none at h = absurd (cc)
next-inverse (some p) at h = (p, refl, some_inj (sym h))

time_out-Round :
    (l : Limits) (d : Deliveries) (now : ℕ) → Valid l d → Round l d now (time_out d now)
unfolding time_out
time_out-Round l d now v = elim (Option-cases (earliest d.deadlines)) [
  | inl e ↦
      rw (e, time_out) (stopped (λ id p is. absurd (empty id p.next e (armed_at l d id p v is))))
  | inr (first, e) ↦ elim (Bool-cases (ltb now first.1)) [
    | inl early ↦
        rw (e, early, time_out)
          (stopped (λ id p is. omega (
            arith,
            ltb→lt now first.1 early,
            earliest-le d.deadlines first e id p.next (armed_at l d id p v is),
          )))
    | inr past ↦
        let (p, is, same) =
          next-inverse (find ℕ_discrete first.0 d.pending) first.1
            (sym (find-earliest d.deadlines first v.items e) ∙ v.armed first.0) in
        let hit : (p.next == first.1) ≡ true = ground arith in
        rw (e, past, is, hit, time_out)
          (taken first.0 p is (ground arith) (del-shorter d.deadlines first e))
  ]
]
  where
    empty : (id at : ℕ) → earliest d.deadlines ≡ none → find ℕ_discrete id d.deadlines ≡ some at → ⊥
    empty id at e h = unfold find in ground (arith, earliest-none d.deadlines e)

kept-end :
    (now id j : ℕ) (p : Pending) (pending : Map ℕ Pending)
    → find ℕ_discrete id pending ≡ some p
    → p.next ≤ now
    → kept now (find ℕ_discrete j (del ℕ_discrete id pending))
      ≡ kept now (find ℕ_discrete j pending)
kept-end now id j p pending is due = elim (ℕ_discrete j id) [
  | yes e ↦ rw (e, find-del_self ℕ_discrete id pending, is) (ground arith)
  | no ne ↦ ap (kept now) (find-del_ne ℕ_discrete id j pending ne)
]

kept_all :
    (now : ℕ) (o : Option Pending) → ((p : Pending) → o ≡ some p → now < p.next) → o ≡ kept now o
kept_all now none h = refl
kept_all now (some p) h = ground (arith, h p refl)

abbrev Rest : ℕ → Deliveries → ℕ → Option (Deliveries × List Pending) → Deliveries × List Pending
Rest fuel d now none = (d, [])
Rest fuel d now (some r) = ((collect fuel r.0 now).0, r.1 ++ (collect fuel r.0 now).1)

taken-Collected :
    (l : Limits) (d : Deliveries) (now id : ℕ) (p : Pending) (r : Deliveries × List Pending)
    → Valid l d
    → find ℕ_discrete id d.pending ≡ some p
    → p.next ≤ now
    → Collected l (end_delivery d id p) now r
    → Collected l d now (r.0, p ∷ r.1)
unfolding end_delivery
taken-Collected l d now id p r v is due c = record {
  valid = c.valid;
  stays = λ j. c.stays j ∙ kept-end now id j p d.pending is due;
  due = (due, c.due);
  moved = omega (arith, c.moved, v.counted, (known_bytes l d id p is v).0);
}

-- The loop ends with every delivery that is due taken, no other one, and the bytes accounted for.
pub collect-Collected :
    (l : Limits) (fuel : ℕ) (d : Deliveries) (now : ℕ)
    → length d.deadlines ≤ fuel
    → Valid l d
    → Collected l d now (collect fuel d now)
unfolding collect
collect-Collected l zero d now h v = record {
  valid = v;
  stays = λ id.
      kept_all now (find ℕ_discrete id d.pending)
        (λ p is. absurd (none_in id d.deadlines h (armed_at l d id p v is)));
  due = tt;
  moved = omega arith;
}
  where
    none_in :
        (id : ℕ) (es : Map ℕ ℕ) → length es ≤ 0 → {at : ℕ} → find ℕ_discrete id es ≡ some at → ⊥
    none_in id [] h e = unfold find in cc
    none_in id (x ∷ es) h e = omega arith
collect-Collected l (suc fuel) d now h v =
    next (time_out d now) (time_out-Round l d now v) (λ e. collect-Collected l fuel e now)
  where
    next :
        (o : Option (Deliveries × List Pending))
        → Round l d now o
        → ((e : Deliveries)
            → length e.deadlines ≤ fuel
            → Valid l e
            → Collected l e now (collect fuel e now))
        → Collected l d now (Rest fuel d now o)
    next none (stopped all) ih = record {
      valid = v;
      stays = λ id. kept_all now (find ℕ_discrete id d.pending) (all id);
      due = tt;
      moved = omega arith;
    }
    next (some r) (taken id p is due shorter) ih = taken-Collected l d now id p _ v is due (
        ih (end_delivery d id p) (unfold end_delivery in omega (arith, h, shorter))
          (end_delivery-Valid l d id p is v))
