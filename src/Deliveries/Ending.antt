-- ===== src/Deliveries/Ending.antt =====
-- The invariant of the deliveries in flight where a delivery ends, is refused or is sent again.
use spruce.Prelude.{
  ℕ, ◌+◌, ◌-◌, ◌≡◌, refl, sym, subst, ◌∙◌, ◌≢◌, inl, inr, if_pos, if_neg, true, none, some, List,
  [], ◌∷◌, arith, ℕ_discrete, leb, Bool-cases, Option-cases, Str, str_dec,
}
use spruce.Prelude.Maps.{
  find, del, found-put, found-del, put-Distinct, del-Distinct, sum_by-put_old, sum_by-del,
}
use spruce.Deliveries.{
  Subscriber, Pending, Limits, Deliveries, give_back, end_delivery, remove_acks, apply_nack,
  apply_nacks, redeliver,
}
use spruce.Deliveries.Accounting.{
  in_flight, share, held, Shares, Valid, armed-put, armed-del, send_delivery-Valid,
}

pub known_bytes :
    (l : Limits) (d : Deliveries) (id : ℕ) (p : Pending)
    → find ℕ_discrete id d.pending ≡ some p
    → Valid l d
    → (in_flight (del ℕ_discrete id d.pending) + p.bytes ≡ in_flight d.pending)
      × ((sid : Str)
          → held sid (del ℕ_discrete id d.pending) + share sid (id, p) ≡ held sid d.pending)
known_bytes l d id p e v = (
  sum_by-del ℕ_discrete (λ x. x.1.bytes) id p d.pending v.distinct e,
  λ sid. sum_by-del ℕ_discrete (share sid) id p d.pending v.distinct e,
)

give_back-Shares :
    (l : Limits) (d : Deliveries) (id : ℕ) (p : Pending) (sid : Str) (t : Subscriber)
    → find ℕ_discrete id d.pending ≡ some p
    → Valid l d
    → find str_dec sid (give_back p d.subs) ≡ some t
    → Shares l (del ℕ_discrete id d.pending) sid t
unfolding give_back
give_back-Shares l d id p sid t e v found =
    elim (Option-cases (find str_dec p.subscriber_id d.subs)) [
      | inl gone ↦
          let old : find str_dec sid d.subs ≡ some t = rw (gone, give_back) at found in
          elim (str_dec p.subscriber_id sid) [
            | yes same ↦
                absurd (
                  none_some (sym gone ∙ subst (λ x. find str_dec x d.subs ≡ some t) (sym same) old))
            | no ne ↦ other ne old
          ]
      | inr (s, here) ↦
          elim (found-put str_dec p.subscriber_id sid _ t d.subs (rw (here, give_back) at found)) [
            | inl (same, eq) ↦ mine s here same eq
            | inr (ne, old) ↦ other (λ x. ne (sym x)) old
          ]
    ]
  where
    none_some : {o : Subscriber} → none ≡ some o → ⊥
    none_some h = cc

    less : held sid (del ℕ_discrete id d.pending) + share sid (id, p) ≡ held sid d.pending
    less = (known_bytes l d id p e v).1 sid

    other :
        p.subscriber_id ≢ sid
        → find str_dec sid d.subs ≡ some t
        → Shares l (del ℕ_discrete id d.pending) sid t
    other ne old =
        omega (arith, v.shares sid t old, less, if_neg (str_dec p.subscriber_id sid) ne p.bytes 0)

    mine :
        (s : Subscriber)
        → find str_dec p.subscriber_id d.subs ≡ some s
        → sid ≡ p.subscriber_id
        → t ≡ record s { inflight_bytes = s.inflight_bytes - p.bytes }
        → Shares l (del ℕ_discrete id d.pending) sid t
    mine s here same eq = rw eq (
        omega (
          arith,
          subst (λ x. Shares l d.pending x s) (sym same) (v.shares _ s here),
          less,
          if_pos (str_dec p.subscriber_id sid) (sym same) p.bytes 0,
        ))

-- The end of a delivery gives its bytes back.
pub end_delivery-Valid :
    (l : Limits) (d : Deliveries) (id : ℕ) (p : Pending)
    → find ℕ_discrete id d.pending ≡ some p
    → Valid l d
    → Valid l (end_delivery d id p)
unfolding end_delivery
end_delivery-Valid l d id p e v = record {
  distinct = del-Distinct ℕ_discrete id d.pending v.distinct;
  items = del-Distinct ℕ_discrete id d.deadlines v.items;
  known = λ j q found. v.known j q (found-del ℕ_discrete id j q d.pending found).1;
  counted = omega (arith, v.counted, (known_bytes l d id p e v).0);
  bounded = omega (arith, v.bounded);
  shares = λ sid t found. give_back-Shares l d id p sid t e v found;
  armed = λ j. armed-del id j d.pending d.deadlines (v.armed j);
}

-- Acknowledging any list of deliveries, known or not and also twice, keeps the counters exact and
-- the deadlines those of the deliveries that are left.
pub remove_acks-Valid :
    (l : Limits) (d : Deliveries) (ids : List ℕ) → Valid l d → Valid l (remove_acks d ids).0
unfolding remove_acks
remove_acks-Valid l d [] v = v
remove_acks-Valid l d (id ∷ ids) v = elim (Option-cases (find ℕ_discrete id d.pending)) [
  | inl e ↦ rw (e, remove_acks) (remove_acks-Valid l d ids v)
  | inr (p, e) ↦
      rw (e, remove_acks)
        (remove_acks-Valid l (end_delivery d id p) ids (end_delivery-Valid l d id p e v))
]

apply_nack-Valid :
    (l : Limits) (d : Deliveries) (id now : ℕ) → Valid l d → Valid l (apply_nack d id now)
unfolding apply_nack
apply_nack-Valid l d id now v = elim (Option-cases (find ℕ_discrete id d.pending)) [
  | inl e ↦ rw (e, apply_nack) v
  | inr (p, e) ↦
      rw (e, apply_nack)
        (record {
          distinct = put-Distinct ℕ_discrete id _ d.pending v.distinct;
          items = put-Distinct ℕ_discrete id now d.deadlines v.items;
          known = λ j q found. elim (found-put ℕ_discrete id j _ q d.pending found) [
            | inl (same, eq) ↦ rw (same, eq) (v.known id p e)
            | inr (ne, old) ↦ v.known j q old
          ];
          counted = omega (
            arith,
            v.counted,
            sum_by-put_old ℕ_discrete (λ x. x.1.bytes) id (record p { next = now }) p d.pending e,
          );
          bounded = v.bounded;
          shares = λ sid t found. omega (
            arith,
            v.shares sid t found,
            sum_by-put_old ℕ_discrete (share sid) id (record p { next = now }) p d.pending e,
          );
          armed = λ j. armed-put id j now _ d.pending d.deadlines refl (v.armed j);
        })
]

-- A negative acknowledgement moves the deadline in the heap with that of the delivery.
pub apply_nacks-Valid :
    (l : Limits) (d : Deliveries) (ids : List ℕ) (now : ℕ)
    → Valid l d
    → Valid l (apply_nacks d ids now)
unfolding apply_nacks
apply_nacks-Valid l d [] now v = v
apply_nacks-Valid l d (id ∷ ids) now v =
    apply_nacks-Valid l (apply_nack d id now) ids now (apply_nack-Valid l d id now v)

-- Redelivering what timed out keeps the counters in order, in which no delivery in flight has an
-- attempt above the limit.
pub redeliver-Valid :
    (l : Limits) (d : Deliveries) (p : Pending) (now : ℕ)
    → Valid l d
    → Valid l (redeliver l d p now)
unfolding redeliver
redeliver-Valid l d p now v = elim (Bool-cases (leb l.max_attempts p.attempt)) [
  | inl last ↦ rw (last, redeliver) v
  | inr few ↦ elim (Bool-cases (leb p.expires_at now)) [
    | inl late ↦ rw (few, late, redeliver) v
    | inr fresh ↦
        rw (few, fresh, redeliver)
          (send_delivery-Valid l d p.subscriber_id p.message (p.attempt + 1) true now v
            (ground arith))
  ]
]
