-- ===== src/Admission/Rounds.antt =====
-- What one round of the grant loop does, and where the loop ends.
use spruce.Prelude.{
  ℕ, zero, suc, ◌+◌, ◌≤◌, ◌<◌, ◌≡◌, refl, subst, ◌⊎◌, inl, inr, false, Option, none, some, List, [],
  ◌∷◌, ◌++◌, arith, leb, Bool-cases, Option-cases, length, get_elem?, All, sum_by,
}
use native.Mathlib.Nat.{le_refl}
use spruce.Admission.{
  Waiter, Admission, available, select, bypass, remove_at, grant_at, round, grant_rounds, grant,
}

abbrev pub waiting : List Waiter → ℕ
waiting = sum_by (λ w. w.bytes)

-- A selected index is in the queue, its waiter fits, and no waiter before it does.
select-fits :
    (i k free : ℕ) (ws : List Waiter)
    → select i free ws ≡ some k
    → (w : Waiter) × (n : ℕ) × (k ≡ i + n) × (get_elem? ws n ≡ some w) × (w.bytes ≤ free)
unfolding select
select-fits i k free [] h = absurd (cc)
select-fits i k free (w ∷ ws) h = elim (Bool-cases (leb w.bytes free)) [
  | inl fits ↦ (w, 0, ground arith, refl, ground arith)
  | inr big ↦
      let (w', n, e, at, fits) = select-fits (suc i) k free ws (ground arith) in
      (w', suc n, omega arith, at, fits)
]

waiting-bypass : (n : ℕ) (ws : List Waiter) → waiting (bypass n ws) ≡ waiting ws
unfolding bypass
waiting-bypass zero ws = refl
waiting-bypass (suc n) [] = refl
waiting-bypass (suc n) (w ∷ ws) = ground (arith, waiting-bypass n ws)

length-bypass : (n : ℕ) (ws : List Waiter) → length (bypass n ws) ≡ length ws
unfolding bypass
length-bypass zero ws = refl
length-bypass (suc n) [] = refl
length-bypass (suc n) (w ∷ ws) = ground (arith, length-bypass n ws)

remove_at-bypass :
    (n : ℕ) (ws : List Waiter) {w : Waiter}
    → get_elem? ws n ≡ some w
    → (waiting (remove_at n (bypass n ws)) + w.bytes ≡ waiting ws)
      × (length (remove_at n (bypass n ws)) + 1 ≡ length ws)
unfolding bypass remove_at
remove_at-bypass n [] h = absurd (ground arith)
remove_at-bypass zero (x ∷ ws) h = ground arith
remove_at-bypass (suc n) (x ∷ ws) h = ground (arith, remove_at-bypass n ws h)

-- A round grants one waiter that fits and moves its bytes from the queue to the count.
pub record Grants (a b : Admission) (w : Waiter) : Type 0 where
  pub queued : (i : ℕ) × (get_elem? a.waiters i ≡ some w)
  pub fits : w.bytes ≤ available a
  pub counted : b.used ≡ a.used + w.bytes
  pub moved : waiting b.waiters + w.bytes ≡ waiting a.waiters
  pub shorter : length b.waiters + 1 ≡ length a.waiters
  pub noted : b.granted ≡ a.granted ++ (w ∷ [])
  pub same_budget : b.budget ≡ a.budget
  pub same_ids : b.next_id ≡ a.next_id

grant_at-Grants :
    (a : Admission) (i : ℕ) (w : Waiter)
    → get_elem? a.waiters i ≡ some w
    → w.bytes ≤ available a
    → Grants a (grant_at a i w) w
unfolding grant_at
grant_at-Grants a i w at fit =
    let (m, l) = remove_at-bypass i a.waiters at in
    record {
      queued = (i, at);
      fits = fit;
      counted = refl;
      moved = m;
      shorter = l;
      noted = refl;
      same_budget = refl;
      same_ids = refl;
    }

-- The two ways in which a round can end.
pub data Round (a : Admission) : Option Admission → Type 0 where
  stopped : select 0 (available a) a.waiters ≡ none → Round a none
  granting : {b : Admission} (w : Waiter) → Grants a b w → Round a (some b)

pub round-Round : (a : Admission) → Round a (round a)
unfolding round
round-Round a = elim (Option-cases (select 0 (available a) a.waiters)) [
  | inl e ↦ rw (e, round) (stopped e)
  | inr (k, e) ↦
      let (w, n, kn, at, fits) = select-fits 0 k (available a) a.waiters e in
      let here : get_elem? a.waiters k ≡ some w =
        subst (λ j. get_elem? a.waiters j ≡ some w) (omega arith) at in
      rw (e, here, round) (granting w (grant_at-Grants a k w here fits))
]

-- Where the loop stands still: no waiter is selected.
abbrev pub Settled : Admission → Type 0
Settled a = select 0 (available a) a.waiters ≡ none

-- Rounds from `a` to `b`, each granting a waiter that fits.
pub data Rounds : Admission → Admission → Type 0 where
  ended : (a : Admission) → Rounds a a
  grants : (a b c : Admission) (w : Waiter) → Grants a b w → Rounds b c → Rounds a c

abbrev go_on : ℕ → Admission → Option Admission → Admission
go_on fuel a none = a
go_on fuel a (some b) = grant_rounds fuel b

grant_rounds-Rounds :
    (fuel : ℕ) (a : Admission)
    → length a.waiters ≤ fuel
    → Rounds a (grant_rounds fuel a) × Settled (grant_rounds fuel a)
unfolding grant_rounds
grant_rounds-Rounds zero a h = (ended a, none_left a.waiters h)
  where
    none_left : (ws : List Waiter) → length ws ≤ 0 → select 0 (available a) ws ≡ none
    none_left [] h = unfold select in refl
    none_left (w ∷ ws) h = absurd (omega arith)
grant_rounds-Rounds (suc fuel) a h =
    next (round a) (round-Round a) (λ b. grant_rounds-Rounds fuel b)
  where
    next :
        (r : Option Admission)
        → Round a r
        → ((b : Admission)
            → length b.waiters ≤ fuel
            → Rounds b (grant_rounds fuel b) × Settled (grant_rounds fuel b))
        → Rounds a (go_on fuel a r) × Settled (go_on fuel a r)
    next none (stopped e) ih = (ended a, e)
    next (some b) (granting w g) ih =
        let (rounds, settled) = ih b (omega arith) in (grants a b _ w g rounds, settled)

-- The loop of `grantPublishAdmissionLocked` ends, each of its rounds grants one queued waiter that
-- fits and moves its bytes from the queue to the count, and when it ends no waiter is selected.
pub grant-Rounds : (a : Admission) → Rounds a (grant a) × Settled (grant a)
unfolding grant
grant-Rounds a = grant_rounds-Rounds (length a.waiters) a (le_refl _)

select-none :
    (i free : ℕ) (ws : List Waiter) → 0 < i → select i free ws ≡ none → All (λ w. free < w.bytes) ws
unfolding select
select-none i free [] p h = tt
select-none i free (w ∷ ws) p h = ground (arith, select-none (suc i) free ws)

-- After the grant loop the head of the queue does not fit in what is left, and unless the head was
-- already passed over eight times no other waiter fits either.
pub grant-nothing_fits :
    (a : Admission) (w : Waiter) (ws : List Waiter)
    → (grant a).waiters ≡ w ∷ ws
    → (available (grant a) < w.bytes)
      × (w.bypassed < 8 → All (λ v. available (grant a) < v.bytes) ws)
unfolding select
grant-nothing_fits a w ws e =
    let settled = subst (λ l. select 0 (available (grant a)) l ≡ none) e (grant-Rounds a).1 in
    (ground (arith, settled), λ few. select-none 1 _ ws (omega arith) (ground (arith, settled)))

select_head :
    (k free : ℕ) (w : Waiter) (ws : List Waiter)
    → select 0 free (w ∷ ws) ≡ some k
    → (k ≡ 0) ⊎ ((w.bypassed < 8) × (n : ℕ) × (k ≡ suc n))
unfolding select
select_head k free w ws h = elim (Bool-cases (leb w.bytes free)) [
  | inl fits ↦ inl (ground arith)
  | inr big ↦
      let few : leb 8 w.bypassed ≡ false = ground arith in
      let (v, n, e, _, _) = select-fits 1 k free ws (ground arith) in
      inr (ground (arith, few), n, omega arith)
]

-- What the round for index `k` leaves at the head of the queue.
abbrev Head : Admission → Waiter → List Waiter → Admission → Type 0
Head a w ws b =
    ((b.waiters ≡ ws) × (b.granted ≡ a.granted ++ (w ∷ [])))
    ⊎ ((w.bypassed < 8)
        × (rest : List Waiter) × (b.waiters ≡ record w { bypassed = w.bypassed + 1 } ∷ rest))

grant_at-Head :
    (a b : Admission) (k : ℕ) (w : Waiter) (ws : List Waiter)
    → (k ≡ 0) ⊎ ((w.bypassed < 8) × (n : ℕ) × (k ≡ suc n))
    → a.waiters ≡ w ∷ ws
    → elim (get_elem? a.waiters k) [ none ↦ none | some v ↦ some (grant_at a k v) ] ≡ some b
    → Head a w ws b
unfolding grant_at bypass remove_at
grant_at-Head a b k w ws (inl z) e h = inl (ground arith, ground arith)
grant_at-Head a b k w ws (inr (few, n, z)) e h = inr (few, remove_at n (bypass n ws), ground arith)

-- A round either grants the head of the queue, or passes it over, and then the head stays first
-- with its count one higher; a head that was passed over eight times is not passed over again.
pub round-head :
    (a b : Admission) (w : Waiter) (ws : List Waiter)
    → a.waiters ≡ w ∷ ws
    → round a ≡ some b
    → ((b.waiters ≡ ws) × (b.granted ≡ a.granted ++ (w ∷ [])))
      ⊎ ((w.bypassed < 8)
          × (rest : List Waiter) × (b.waiters ≡ record w { bypassed = w.bypassed + 1 } ∷ rest))
unfolding round
round-head a b w ws e h = elim (Option-cases (select 0 (available a) a.waiters)) [
  | inl s ↦ absurd (ground arith)
  | inr (k, s) ↦
      grant_at-Head a b k w ws
        (select_head k (available a) w ws (subst (λ l. select 0 (available a) l ≡ some k) e s)) e
        (rw (s, round) at h)
]
