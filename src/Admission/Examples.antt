-- ===== src/Admission/Examples.antt =====
-- Publish admission on one full queue.
use spruce.Prelude.{ℕ, ◌<◌, ◌≡◌, refl, ◌⊎◌, List, [], ◌∷◌, ◌++◌, All}
use spruce.Admission.Rounds.{Rounds, Settled, grant-Rounds, grant-nothing_fits, round-head}
use spruce.Admission.Schedule.{
  System, admits, waits, releases, Reach, start, step, idle, Accounted, Reach-Accounted,
}
use spruce.Admission.{
  Waiter, Admission, available, select, bypass, remove_at, grant_at, round, grant_rounds, grant,
  acquire, release,
}

program : Unit {0}
unfolding select bypass remove_at grant_at round grant_rounds grant acquire release
program = tt

abbrev waiter : ℕ → ℕ → ℕ → Waiter
waiter id bytes bypassed = record { id = id; bytes = bytes; bypassed = bypassed }

abbrev full : Admission
full = record {
  budget = 10;
  used = 8;
  waiters = waiter 1 5 7 ∷ waiter 2 2 0 ∷ waiter 3 2 0 ∷ [];
  granted = [];
  next_id = 4;
}

abbrev passed_over : Admission
passed_over = record full {
  used = 10;
  waiters = waiter 1 5 8 ∷ waiter 3 2 0 ∷ [];
  granted = waiter 2 2 0 ∷ [];
}

full-grant : grant full ≡ passed_over
unfolding program
full-grant = refl

-- The head was passed over eight times: the waiter of two bytes behind it is not served.
head_first : release passed_over 4 ≡ record passed_over { used = 6 }
unfolding program
head_first = refl

grant-Rounds_example : Rounds full (grant full) × Settled (grant full)
grant-Rounds_example = grant-Rounds full

grant-nothing_fits_example :
    (available (grant full) < 5)
    × (8 < 8 → All (λ (v : Waiter). available (grant full) < v.bytes) (waiter 3 2 0 ∷ []))
unfolding program
grant-nothing_fits_example = grant-nothing_fits full (waiter 1 5 8) (waiter 3 2 0 ∷ []) refl

round-head_example :
    ((passed_over.waiters ≡ waiter 2 2 0 ∷ waiter 3 2 0 ∷ [])
      × (passed_over.granted ≡ [] ++ (waiter 1 5 7 ∷ [])))
    ⊎ ((7 < 8) × (rest : List Waiter) × (passed_over.waiters ≡ waiter 1 5 8 ∷ rest))
unfolding program
round-head_example = round-head full passed_over (waiter 1 5 7) _ refl refl

abbrev queueing : System
queueing = record {
  admission = record {
    budget = 10;
    used = 8;
    waiters = waiter 0 5 0 ∷ [];
    granted = [];
    next_id = 1;
  };
  held = 8 ∷ [];
}

abbrev handed_over : System
handed_over = record { admission = release queueing.admission 8; held = [] }

history : Reach (idle 10) handed_over
unfolding program
history = step (step (step start (admits 8 refl)) (waits 5 refl)) (releases 8 [] [] refl)

Reach-Accounted_example : Accounted 10 handed_over
Reach-Accounted_example = Reach-Accounted 10 history
