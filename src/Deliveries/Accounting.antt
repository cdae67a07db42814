-- ===== src/Deliveries/Accounting.antt =====
-- The counters of the deliveries in flight against the deliveries themselves, and the deadlines.
use spruce.Prelude.{
  ℕ, ◌+◌, ◌≤◌, ◌≡◌, refl, sym, ap, subst, ◌∙◌, inl, inr, ite, if_pos, if_neg, Bool, true, false,
  none, some, [], ◌∷◌, arith, ℕ_discrete, Bool-cases, Option-cases, length, length-append, sum_by,
  Str, str_dec,
}
use mathlib.Core.Option
use spruce.Prelude.Maps.{
  Map, Distinct, find, put, del, find-put, find-put_ne, found-put, find-del_self, find-del_ne,
  put-Distinct, sum_by-put_new,
}
use spruce.Message.{Message, message_size}
use spruce.Deliveries.{
  Subscriber, Pending, Limits, Deliveries, no_room, refuse, start_delivery, send_delivery,
}

abbrev pub in_flight : Map ℕ Pending → ℕ
in_flight = sum_by (λ e. e.1.bytes)

abbrev pub share : Str → ℕ × Pending → ℕ
share s e = ite (str_dec e.1.subscriber_id s) e.1.bytes 0

abbrev pub held : Str → Map ℕ Pending → ℕ
held s = sum_by (share s)

abbrev pub Shares : Limits → Map ℕ Pending → Str → Subscriber → Type 0
Shares l pending id s =
    (s.inflight_bytes ≡ held id pending)
    × (s.inflight_bytes ≤ l.max_subscriber_inflight_bytes)
    × (length s.ch ≤ s.capacity)

-- The bytes are counted exactly, for the broker and for each subscriber, and within both limits; each
-- delivery has its deadline in the heap, and no other item is there.
pub record Valid (l : Limits) (d : Deliveries) : Type 0 where
  pub distinct : Distinct ℕ_discrete d.pending
  pub items : Distinct ℕ_discrete d.deadlines
  pub known :
      (id : ℕ) (p : Pending)
      → find ℕ_discrete id d.pending ≡ some p
      → (id ≤ d.seq) × (p.attempt ≤ l.max_attempts)
  pub counted : d.pending_bytes ≡ in_flight d.pending
  pub bounded : d.pending_bytes ≤ l.max_inflight_bytes
  pub shares :
      (id : Str) (s : Subscriber) → find str_dec id d.subs ≡ some s → Shares l d.pending id s
  pub armed :
      (id : ℕ)
      → find ℕ_discrete id d.deadlines ≡ Option.map (λ p. p.next) (find ℕ_discrete id d.pending)

new_id : (l : Limits) (d : Deliveries) → Valid l d → find ℕ_discrete (d.seq + 1) d.pending ≡ none
new_id l d v = elim (Option-cases (find ℕ_discrete (d.seq + 1) d.pending)) [
  | inl e ↦ e
  | inr (p, e) ↦ absurd (omega (arith, v.known (d.seq + 1) p e))
]

pub armed-put :
    (id j at : ℕ) (p : Pending) (pending : Map ℕ Pending) (deadlines : Map ℕ ℕ)
    → p.next ≡ at
    → find ℕ_discrete j deadlines ≡ Option.map (λ q. q.next) (find ℕ_discrete j pending)
    → find ℕ_discrete j (put ℕ_discrete id at deadlines)
      ≡ Option.map (λ q. q.next) (find ℕ_discrete j (put ℕ_discrete id p pending))
armed-put id j at p pending deadlines e h =
    rw (find-put ℕ_discrete id j at deadlines, find-put ℕ_discrete id j p pending)
      (both (ℕ_discrete j id))
  where
    both :
        (d : Dec (j ≡ id))
        → ite d (some at) (find ℕ_discrete j deadlines)
          ≡ Option.map (λ q. q.next) (ite d (some p) (find ℕ_discrete j pending))
    both (yes same) = ap some (sym e)
    both (no ne) = h

pub armed-del :
    (id j : ℕ) (pending : Map ℕ Pending) (deadlines : Map ℕ ℕ)
    → find ℕ_discrete j deadlines ≡ Option.map (λ q. q.next) (find ℕ_discrete j pending)
    → find ℕ_discrete j (del ℕ_discrete id deadlines)
      ≡ Option.map (λ q. q.next) (find ℕ_discrete j (del ℕ_discrete id pending))
armed-del id j pending deadlines h = elim (ℕ_discrete j id) [
  | yes e ↦
      subst
        (λ x.
          find ℕ_discrete x (del ℕ_discrete id deadlines)
          ≡ Option.map (λ q. q.next) (find ℕ_discrete x (del ℕ_discrete id pending)))
        (sym e)
        (rw (find-del_self ℕ_discrete id deadlines, find-del_self ℕ_discrete id pending) refl)
  | no ne ↦ rw (find-del_ne ℕ_discrete id j deadlines ne, find-del_ne ℕ_discrete id j pending ne) h
]

-- A change of one subscriber that leaves the deliveries alone.
refuse-Valid :
    (l : Limits) (d : Deliveries) (subscriber : Str) (s : Subscriber) (cancel : Bool)
    → find str_dec subscriber d.subs ≡ some s
    → Valid l d
    → Valid l (refuse d subscriber s cancel)
unfolding refuse
refuse-Valid l d subscriber s false e v = v
refuse-Valid l d subscriber s true e v = record {
  distinct = v.distinct;
  items = v.items;
  known = v.known;
  counted = v.counted;
  bounded = v.bounded;
  shares = λ id t found. elim (str_dec id subscriber) [
    | yes same ↦ ground (
      arith,
      find-put str_dec subscriber id (record s { cancelled = true }) d.subs,
      v.shares subscriber s e,
    )
    | no ne ↦ v.shares id t (sym (find-put_ne str_dec subscriber id _ d.subs ne) ∙ found)
  ];
  armed = v.armed;
}

held-put :
    (id : ℕ) (p : Pending) (sid : Str) (pending : Map ℕ Pending)
    → find ℕ_discrete id pending ≡ none
    → held sid (put ℕ_discrete id p pending) ≡ held sid pending + share sid (id, p)
held-put id p sid pending new = sum_by-put_new ℕ_discrete (share sid) id p pending new

start_delivery-Valid :
    (l : Limits) (d : Deliveries) (subscriber : Str) (s : Subscriber) (m : Message)
    (attempt now : ℕ)
    → find str_dec subscriber d.subs ≡ some s
    → no_room l d s (message_size m) ≡ false
    → attempt ≤ l.max_attempts
    → Valid l d
    → Valid l (start_delivery l d subscriber s m attempt now)
unfolding start_delivery
start_delivery-Valid l d subscriber s m attempt now e room few v = record {
  distinct = put-Distinct ℕ_discrete (d.seq + 1) _ d.pending v.distinct;
  items = put-Distinct ℕ_discrete (d.seq + 1) _ d.deadlines v.items;
  known = λ id p found. elim (found-put ℕ_discrete (d.seq + 1) id _ p d.pending found) [
    | inl (same, eq) ↦ (omega arith, subst (λ q. q.attempt ≤ l.max_attempts) (sym eq) few)
    | inr (ne, old) ↦ omega (arith, v.known id p old)
  ];
  counted = omega (
    arith,
    v.counted,
    sum_by-put_new ℕ_discrete (λ e. e.1.bytes) (d.seq + 1) _ d.pending (new_id l d v),
  );
  bounded = unfold no_room in ground arith;
  shares = λ id t found.
      rw (held-put (d.seq + 1) _ id d.pending (new_id l d v))
        (elim (found-put str_dec subscriber id _ t d.subs found) [
          | inl (same, eq) ↦
              rw (eq, if_pos (str_dec subscriber id) (sym same) (message_size m) 0)
                (unfold no_room in
                  ground (
                    arith,
                    length-append s.ch
                        (record { delivery_id = d.seq + 1; message = m; attempt = attempt } ∷ []),
                    subst (λ x. Shares l d.pending x s) (sym same) (v.shares subscriber s e),
                  ))
          | inr (ne, old) ↦
              rw (if_neg (str_dec subscriber id) (λ x. ne (sym x)) (message_size m) 0)
                (omega (arith, v.shares id t old))
        ]);
  armed = λ id. armed-put (d.seq + 1) id _ _ d.pending d.deadlines refl (v.armed id);
}

-- Sending a delivery whose attempt is within the limit keeps the counters in order, whether it is
-- refused or not: the bytes are counted exactly, for the broker and for each subscriber, within
-- both limits, and each delivery has its deadline in the heap.
pub send_delivery-Valid :
    (l : Limits) (d : Deliveries) (subscriber : Str) (m : Message) (attempt : ℕ) (cancel : Bool)
    (now : ℕ)
    → Valid l d
    → attempt ≤ l.max_attempts
    → Valid l (send_delivery l d subscriber m attempt cancel now).0
unfolding send_delivery
send_delivery-Valid l d subscriber m attempt cancel now v few =
    elim (Option-cases (find str_dec subscriber d.subs)) [
      | inl e ↦ rw (e, send_delivery) v
      | inr (s, e) ↦ elim (Bool-cases (no_room l d s (message_size m))) [
        | inl full ↦ rw (e, full, send_delivery) (refuse-Valid l d subscriber s cancel e v)
        | inr room ↦
            rw (e, room, send_delivery)
              (start_delivery-Valid l d subscriber s m attempt now e room few v)
      ]
    ]
