-- ===== src/Admission/Schedule.antt =====
-- Publish admission under any interleaving of its callers: each step is one critical section of
-- `admissionMu`, or a goroutine that finds its `ready` channel closed.
use spruce.Prelude.{
  ℕ, ◌+◌, ◌-◌, ◌≤◌, ◌≡◌, refl, sym, ap, subst, ◌∙◌, ◌⊎◌, inl, inr, none, some, List, [], ◌∷◌, ◌++◌,
  arith, Option-cases, sum_by, sum_by-append,
}
use spruce.Admission.Rounds.{waiting, Rounds, ended, grants, grant-Rounds}
use spruce.Admission.{
  Waiter, Admission, admitted, queued, grant, acquire, wake, give_up, release, take_waiter,
  remove_waiter,
}

-- `held` lists the bytes that the handlers in progress were admitted with.
pub record System : Type 0 where
  pub admission : Admission
  pub held : List ℕ

abbrev pub total : List ℕ → ℕ
total = sum_by (λ n. n)

pub data Step (s : System) : System → Type 0 where
  admits :
      (bytes : ℕ) {a : Admission}
      → acquire s.admission bytes ≡ admitted a
      → Step s (record { admission = a; held = bytes ∷ s.held })
  waits :
      (bytes : ℕ) {id : ℕ} {a : Admission}
      → acquire s.admission bytes ≡ queued id a
      → Step s (record s { admission = a })
  wakes :
      (id : ℕ) {bytes : ℕ} {a : Admission}
      → wake s.admission id ≡ some (bytes, a)
      → Step s (record { admission = a; held = bytes ∷ s.held })
  times_out :
      (id : ℕ) {a : Admission}
      → give_up s.admission id ≡ (none, a)
      → Step s (record s { admission = a })
  granted_late :
      (id : ℕ) {bytes : ℕ} {a : Admission}
      → give_up s.admission id ≡ (some bytes, a)
      → Step s (record { admission = a; held = bytes ∷ s.held })
  releases :
      (bytes : ℕ) (before after : List ℕ)
      → s.held ≡ before ++ (bytes ∷ after)
      → Step s (record { admission = release s.admission bytes; held = before ++ after })

pub data Reach (s : System) : System → Type 0 where
  start : Reach s s
  step : {t u : System} → Reach s t → Step t u → Reach s u

abbrev pub idle : ℕ → System
idle budget = record {
  admission = record { budget = budget; used = 0; waiters = []; granted = []; next_id = 0 };
  held = [];
}

-- The count is what the handlers in progress hold and what was granted to waiters that still sleep,
-- and it stays within the budget.
pub record Accounted (budget : ℕ) (s : System) : Type 0 where
  pub same_budget : s.admission.budget ≡ budget
  pub counted : s.admission.used ≡ total s.held + waiting s.admission.granted
  pub within : s.admission.used ≤ budget

waiting-remove :
    (id : ℕ) (ws : List Waiter) (w : Waiter)
    → take_waiter id ws ≡ some w
    → waiting (remove_waiter id ws) + w.bytes ≡ waiting ws
unfolding take_waiter remove_waiter
waiting-remove id [] w h = absurd (cc)
waiting-remove id (x ∷ ws) w h = ground (arith, waiting-remove id ws w)

total-remove :
    (before after : List ℕ) (n : ℕ) → total (before ++ (n ∷ after)) ≡ n + total (before ++ after)
total-remove [] after n = refl
total-remove (b ∷ before) after n = omega (arith, total-remove before after n)

Rounds-Accounted :
    (budget : ℕ) (held : List ℕ) {a b : Admission}
    → Rounds a b
    → Accounted budget (record { admission = a; held = held })
    → Accounted budget (record { admission = b; held = held })
Rounds-Accounted budget held (ended a) v = v
Rounds-Accounted budget held (grants a b c w g r) v = Rounds-Accounted budget held r (record {
  same_budget = g.same_budget ∙ v.same_budget;
  counted = omega (
    arith,
    g.counted,
    v.counted,
    ap waiting g.noted,
    sum_by-append (λ (x : Waiter). x.bytes) a.granted (w ∷ []),
  );
  within = omega (arith, g.counted, g.fits, v.within, v.same_budget);
})

grant-Accounted :
    (budget : ℕ) (held : List ℕ) (a : Admission)
    → Accounted budget (record { admission = a; held = held })
    → Accounted budget (record { admission = grant a; held = held })
grant-Accounted budget held a v = Rounds-Accounted budget held (grant-Rounds a).0 v

wake-Accounted :
    (budget : ℕ) (s : System) (id bytes : ℕ) (a : Admission)
    → Accounted budget s
    → wake s.admission id ≡ some (bytes, a)
    → Accounted budget (record { admission = a; held = bytes ∷ s.held })
unfolding wake
wake-Accounted budget s id bytes a v h = elim (Option-cases (take_waiter id s.admission.granted)) [
  | inl e ↦ absurd (ground arith)
  | inr (w, e) ↦ ground (arith, waiting-remove id s.admission.granted w e)
]

give_up-cases :
    (a : Admission) (id : ℕ)
    → ((give_up a id ≡ (none, grant (record a { waiters = remove_waiter id a.waiters }))))
      ⊎ ((bytes : ℕ) × (b : Admission) × (wake a id ≡ some (bytes, b))
          × (give_up a id ≡ (some bytes, b)))
unfolding give_up
give_up-cases a id = elim (Option-cases (wake a id)) [
  | inl e ↦ inl (rw (e, give_up))
  | inr (r, e) ↦ inr (r.0, r.1, e, rw (e, give_up))
]

Step-Accounted : (budget : ℕ) {s t : System} → Step s t → Accounted budget s → Accounted budget t
unfolding acquire release
Step-Accounted budget {s} (admits bytes e) v = ground arith
Step-Accounted budget {s} (waits bytes e) v = ground arith
Step-Accounted budget {s} (wakes id {bytes} {a} e) v = wake-Accounted budget s id bytes a v e
Step-Accounted budget {s} (times_out id {a} e) v = elim (give_up-cases s.admission id) [
  | inl g ↦
      subst (λ x. Accounted budget (record s { admission = x })) (ap (λ r. r.1) (sym g ∙ e))
        (grant-Accounted budget s.held
          (record s.admission { waiters = remove_waiter id s.admission.waiters })
          (record { same_budget = v.same_budget; counted = v.counted; within = v.within }))
  | inr (bytes, b, w, g) ↦ absurd (cc)
]
Step-Accounted budget {s} (granted_late id {bytes} {a} e) v = elim (give_up-cases s.admission id) [
  | inl g ↦ absurd (cc)
  | inr (n, b, w, g) ↦ wake-Accounted budget s id bytes a v (w ∙ cc)
]
Step-Accounted budget {s} (releases bytes before after e) v =
    grant-Accounted budget (before ++ after)
      (record s.admission { used = s.admission.used - bytes })
      (record {
        same_budget = v.same_budget;
        counted = omega (arith, v.counted, ap total e, total-remove before after bytes);
        within = omega (arith, v.within);
      })

-- Whatever the order of the requests, grants, timeouts and releases from an idle broker, the count
-- of admitted bytes is exactly what the running handlers and the granted waiters hold, and never
-- exceeds the budget.
pub Reach-Accounted : (budget : ℕ) {s : System} → Reach (idle budget) s → Accounted budget s
Reach-Accounted budget start = omega arith
Reach-Accounted budget (step r st) = Step-Accounted budget st (Reach-Accounted budget r)
