-- ===== src/Deliveries/Earliest.antt =====
-- The earliest of the deadlines that the loop of `maintenance` pops.
use spruce.Prelude.{
  ℕ, suc, ◌≤◌, ◌<◌, ◌≡◌, refl, sym, ap, ◌∙◌, inl, inr, ite, none, some, [], ◌∷◌, arith, ℕ_discrete,
  ltb, Bool-cases, Option-cases, some_inj, length,
}
use spruce.Prelude.Maps.{Map, find, del, length-del-le}
use spruce.Deliveries.{earliest}

-- The ways in which `earliest` finds an item.
pub data First (e : ℕ × ℕ) (es : Map ℕ ℕ) (first : ℕ × ℕ) : Type 0 where
  only : first ≡ e → es ≡ [] → First e es first
  here : (f : ℕ × ℕ) → first ≡ e → earliest es ≡ some f → e.1 ≤ f.1 → First e es first
  later : earliest es ≡ some first → first.1 < e.1 → First e es first

pub earliest-none : (es : Map ℕ ℕ) → earliest es ≡ none → es ≡ []
unfolding earliest
earliest-none [] h = refl
earliest-none (e ∷ es) h =
    absurd (elim (Option-cases (earliest es)) [ inl x ↦ ground arith | inr (f, x) ↦ ground arith ])

pub earliest-First :
    (e : ℕ × ℕ) (es : Map ℕ ℕ) (first : ℕ × ℕ) → earliest (e ∷ es) ≡ some first → First e es first
unfolding earliest
earliest-First e es first h = elim (Option-cases (earliest es)) [
  | inl x ↦ only (some_inj (sym (rw (x, earliest) at h))) (earliest-none es x)
  | inr (f, x) ↦ elim (Bool-cases (ltb f.1 e.1)) [
    | inl less ↦
        let same : first ≡ f = some_inj (sym (rw (x, less, earliest) at h)) in
        later (x ∙ ap some (sym same)) (rw same (ground arith))
    | inr more ↦ here f (some_inj (sym (rw (x, more, earliest) at h))) x (ground arith)
  ]
]

-- No item is before the earliest.
pub earliest-le :
    (es : Map ℕ ℕ) (first : ℕ × ℕ)
    → earliest es ≡ some first
    → (j at : ℕ) → find ℕ_discrete j es ≡ some at
    → first.1 ≤ at
unfolding find
earliest-le [] first h j at found = absurd (cc)
earliest-le (e ∷ es) first h j at found =
    cases (ℕ_discrete j e.0) found (earliest-First e es first h) (λ f x. earliest-le es f x j at)
  where
    cases :
        (d : Dec (j ≡ e.0))
        → ite d (some e.1) (find ℕ_discrete j es) ≡ some at
        → First e es first
        → ((f : ℕ × ℕ) → earliest es ≡ some f → find ℕ_discrete j es ≡ some at → f.1 ≤ at)
        → first.1 ≤ at
    cases (yes y) k (only a b) ih = rw a (omega (arith, some_inj k))
    cases (yes y) k (here f a x le) ih = rw a (omega (arith, some_inj k))
    cases (yes y) k (later x lt) ih = omega (arith, some_inj k)
    cases (no n) k (only a b) ih = absurd (ground (arith, b))
    cases (no n) k (here f a x le) ih = rw a (omega (arith, ih f x k))
    cases (no n) k (later x lt) ih = ih first x k

pub del-shorter :
    (es : Map ℕ ℕ) (first : ℕ × ℕ)
    → earliest es ≡ some first
    → length (del ℕ_discrete first.0 es) < length es
unfolding del earliest
del-shorter [] first h = absurd (cc)
del-shorter (e ∷ es) first h =
    cases (ℕ_discrete first.0 e.0) (earliest-First e es first h) (del-shorter es first)
  where
    cases :
        (d : Dec (first.0 ≡ e.0))
        → First e es first
        → (earliest es ≡ some first → length (del ℕ_discrete first.0 es) < length es)
        → length (ite d (del ℕ_discrete first.0 es) (e ∷ del ℕ_discrete first.0 es))
          < suc (length es)
    cases (yes y) f ih = omega (arith, length-del-le ℕ_discrete first.0 es)
    cases (no n) (only a b) ih = absurd (n (ap (λ x. x.0) a))
    cases (no n) (here f a x le) ih = absurd (n (ap (λ x. x.0) a))
    cases (no n) (later x lt) ih = omega (arith, ih x)
