-- ===== src/Idempotency/Ownership.antt =====
-- The owners that `beginIdempotency` makes.
use spruce.Prelude.{
  ℕ, ◌≤◌, ◌<◌, ◌≡◌, refl, sym, subst, ◌∙◌, ◌≢◌, inl, inr, ite, if_pos, if_neg, true, none, some,
  arith, ℕ_discrete, leb, Bool-cases, Option-cases, some_inj, length, Str, str_dec,
}
use spruce.Prelude.Maps.{
  Map, Distinct, find, put, find-put_ne, find-put_self, found-put, put-Distinct, length-put-le,
}
use spruce.Idempotency.{
  Entry, Table, entry_of, in_progress_at, evict, insert, make_room, conflict, wait_for, exhausted,
  owner, start_entry, is_current, begin_idempotency,
}
use spruce.Idempotency.Eviction.{evict-Evicted}

-- The keys are distinct and within the capacity, and numbers are not used twice.
pub record Valid (capacity : ℕ) (t : Table) : Type 0 where
  pub distinct : Distinct str_dec t.entries
  pub bounded : length t.entries ≤ capacity
  pub used : (n : ℕ) (e : Entry) → find ℕ_discrete n t.store ≡ some e → n < t.next

-- The key has this entry, and it is in progress.
abbrev pub Owned : Table → Str → ℕ → Type 0
Owned t key n = (find str_dec key t.entries ≡ some n) × (in_progress_at t.store n ≡ true)

-- Room was made: nothing that is in progress has gone.
record Roomy (capacity : ℕ) (t t' : Table) : Type 0 where
  distinct : Distinct str_dec t'.entries
  room : length t'.entries < capacity
  spared : (key : Str) (n : ℕ) → Owned t key n → find str_dec key t'.entries ≡ some n
  same_store : t'.store ≡ t.store
  same_next : t'.next ≡ t.next

make_room-Roomy :
    (capacity : ℕ) (t t' : Table)
    → 0 < capacity
    → Valid capacity t
    → make_room capacity t ≡ some t'
    → Roomy capacity t t'
unfolding make_room
make_room-Roomy capacity t t' positive v h = elim (Bool-cases (leb capacity (length t.entries))) [
  | inr free ↦ subst (Roomy capacity t) (some_inj (rw (free, make_room) at h)) (record {
    distinct = v.distinct;
    room = ground arith;
    spared = λ key n o. o.0;
    same_store = refl;
    same_next = refl;
  })
  | inl full ↦ elim (Option-cases (evict t.store t.entries t.order)) [
    | inl e ↦ absurd (clash (rw (full, e, make_room) at h))
    | inr (r, e) ↦
        let ev = evict-Evicted t.store t.entries t.order r e in
        subst (Roomy capacity t) (some_inj (rw (full, e, make_room) at h)) (record {
          distinct = ev.distinct v.distinct;
          room = omega (arith, ev.shorter v.distinct, v.bounded);
          spared = λ key n o. ev.spared key n o.0 o.1;
          same_store = refl;
          same_next = refl;
        })
  ]
]
  where
    clash : {x : Table} → none ≡ some x → ⊥
    clash e = cc

-- What a new owner finds: its entry is in progress, and so is every other that was.
pub record Begun (capacity : ℕ) (t : Table) (key : Str) (n : ℕ) (t' : Table) : Type 0 where
  pub valid : Valid capacity t'
  pub owned : Owned t' key n
  pub others : (k : Str) (m : ℕ) → k ≢ key → Owned t k m → Owned t' k m

pub in_progress-put :
    (store : Map ℕ Entry) (n : ℕ) (e : Entry)
    → in_progress_at (put ℕ_discrete n e store) n ≡ e.in_progress
unfolding in_progress_at
in_progress-put store n e = rw (find-put_self ℕ_discrete n e store, in_progress_at) refl

pub in_progress-put_ne :
    (store : Map ℕ Entry) (n m : ℕ) (e : Entry)
    → m ≢ n
    → in_progress_at (put ℕ_discrete n e store) m ≡ in_progress_at store m
unfolding in_progress_at
in_progress-put_ne store n m e ne = rw (find-put_ne ℕ_discrete n m e store ne, in_progress_at) refl

in_progress-used :
    (capacity : ℕ) (t : Table) (m : ℕ)
    → Valid capacity t
    → in_progress_at t.store m ≡ true
    → m < t.next
unfolding in_progress_at
in_progress-used capacity t m v h = elim (Option-cases (find ℕ_discrete m t.store)) [
  | inl e ↦ absurd (ground arith)
  | inr (x, e) ↦ v.used m x e
]

insert-Begun :
    (capacity : ℕ) (t t' : Table) (key : Str) (e : Entry)
    → e.in_progress ≡ true
    → Valid capacity t
    → Roomy capacity t t'
    → Begun capacity t key t'.next (insert capacity t' key e)
unfolding insert
insert-Begun capacity t t' key e busy v r = record {
  valid = record {
    distinct = put-Distinct str_dec key t'.next t'.entries r.distinct;
    bounded = omega (arith, length-put-le str_dec key t'.next t'.entries, r.room);
    used = λ n x found. elim (found-put ℕ_discrete t'.next n e x t'.store found) [
      | inl (same, eq) ↦ omega arith
      | inr (ne, old) ↦ omega (
        arith,
        r.same_next,
        v.used n x (subst (λ s. find ℕ_discrete n s ≡ some x) r.same_store old),
      )
    ];
  };
  owned = (find-put_self str_dec key t'.next t'.entries, in_progress-put t'.store t'.next e ∙ busy);
  others = λ k m ne o. (
    find-put_ne str_dec key k t'.next t'.entries ne ∙ r.spared k m o,
    in_progress-put_ne t'.store t'.next m e
          (λ same. absurd (omega (arith, same, r.same_next, in_progress-used capacity t m v o.1)))
        ∙ subst (λ x. in_progress_at x m ≡ true) (sym r.same_store) o.1,
  );
}

start_entry-Begun :
    (capacity : ℕ) (t t' : Table) (key id : Str) (expires_at : ℕ) (fingerprint : Str) (n : ℕ)
    → 0 < capacity
    → Valid capacity t
    → start_entry capacity t key id expires_at fingerprint ≡ owner n t'
    → Begun capacity t key n t'
unfolding start_entry
start_entry-Begun capacity t t' key id expires_at fingerprint n positive v h =
    elim (Option-cases (make_room capacity t)) [
      | inl e ↦ absurd (full (rw (e, start_entry) at h))
      | inr (u, e) ↦
          let (same_n, same_t) = owner_inj (rw (e, start_entry) at h) in
          subst (λ k. Begun capacity t key k t') same_n
            (subst (Begun capacity t key u.next) same_t
              (insert-Begun capacity t u key _ refl v (make_room-Roomy capacity t u positive v e)))
    ]
  where
    full : {k : ℕ} {x : Table} → exhausted ≡ owner k x → ⊥
    full e = cc

    owner_inj : {k m : ℕ} {x y : Table} → owner k x ≡ owner m y → (k ≡ m) × (x ≡ y)
    owner_inj e = (cc, cc)

pub begin_idempotency-waits :
    (capacity : ℕ) (t : Table) (key id : Str) (expires_at : ℕ) (fingerprint : Str) (now n : ℕ)
    (e : Entry)
    → Owned t key n
    → find ℕ_discrete n t.store ≡ some e
    → (e.fingerprint ≡ fingerprint
        → begin_idempotency capacity t key id expires_at fingerprint now ≡ wait_for n)
      × (e.fingerprint ≢ fingerprint
          → begin_idempotency capacity t key id expires_at fingerprint now ≡ conflict)
unfolding begin_idempotency entry_of in_progress_at is_current
begin_idempotency-waits capacity t key id expires_at fingerprint now n e (has, busy) there =
    let running : e.in_progress ≡ true = rw (there, in_progress_at) at busy in
    rw (has, there, running, begin_idempotency)
      (
        λ same. if_pos (str_dec e.fingerprint fingerprint) same (wait_for n) conflict,
        λ other. if_neg (str_dec e.fingerprint fingerprint) other (wait_for n) conflict,
      )

-- From a valid table with a positive capacity, a request that becomes the owner leaves the table
-- valid and within its capacity, with its own entry in progress. No other entry that is in
-- progress is evicted for it, and none was in progress for its key.
pub begin_idempotency-Begun :
    (capacity : ℕ) (t t' : Table) (key id : Str) (expires_at : ℕ) (fingerprint : Str) (now n : ℕ)
    → 0 < capacity
    → Valid capacity t
    → begin_idempotency capacity t key id expires_at fingerprint now ≡ owner n t'
    → Begun capacity t key n t' × ((m : ℕ) → ¬ Owned t key m)
unfolding begin_idempotency
begin_idempotency-Begun capacity t t' key id expires_at fingerprint now n positive v h = (
  begun,
  λ m o. elim (Option-cases (find ℕ_discrete m t.store)) [
    | inl lost ↦ absurd (unfold in_progress_at in ground (arith, o.1))
    | inr (e, there) ↦
        let (same, other) =
          begin_idempotency-waits capacity t key id expires_at fingerprint now m e o there in
        elim (str_dec e.fingerprint fingerprint) [
          | yes f ↦ waits (sym (same f) ∙ h)
          | no nf ↦ conflicts (sym (other nf) ∙ h)
        ]
  ],
)
  where
    waits : {k : ℕ} {x : Table} {m : ℕ} → wait_for m ≡ owner k x → ⊥
    waits e = cc

    conflicts : {k : ℕ} {x : Table} → conflict ≡ owner k x → ⊥
    conflicts e = cc

    refuses :
        (fp : Str) (m : ℕ) (d : Dec (fp ≡ fingerprint))
        → ite d (wait_for m) conflict ≡ owner n t'
        → ⊥
    refuses fp m (yes same) e = cc
    refuses fp m (no other) e = cc

    begun : Begun capacity t key n t'
    begun = elim (Option-cases (entry_of t key)) [
      | inl e ↦
          start_entry-Begun capacity t t' key id expires_at fingerprint n positive v
            (rw (e, begin_idempotency) at h)
      | inr (r, e) ↦ elim (Bool-cases (is_current r.1 now)) [
        | inr old ↦
            start_entry-Begun capacity t t' key id expires_at fingerprint n positive v
              (rw (e, old, begin_idempotency) at h)
        | inl current ↦ absurd (
            refuses r.1.fingerprint r.0 (str_dec r.1.fingerprint fingerprint)
              (rw (e, current, begin_idempotency) at h))
      ]
    ]
