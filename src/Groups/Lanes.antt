-- ===== src/Groups/Lanes.antt =====
-- The invariant of the lanes of one group, under new work, retries and dispatch.
use spruce.Prelude.{
  ℕ, ◌+◌, min, ◌≡◌, refl, sym, subst, ◌∙◌, ◌≢◌, inl, inr, ite, if_pos, if_neg, none, some, List, [],
  ◌∷◌, ◌++◌, arith, Option-cases, All, All-map, All-snoc, Str, str_dec,
}
use spruce.Prelude.Maps.{Map, find, put, find-put_ne, find-put_self}
use spruce.Message.{Message, delivery_affinity}
use spruce.Groups.{Work, Group, lane, add_work, work_charge, retry_work}
use spruce.Groups.Sending.{mark_sent}
use spruce.Groups.LaneShape.{
  Inside, Once, Entry, Idle, IdleTail, ValidLane, ValidGroup, lane-put, Entry-put, Idle-put,
  Entry-put_new, not_inside_new, Inside-last, Inside-left, Once-snoc, IdleTail-snoc, IdleTail-map,
}

-- The new work of a message goes to the end of its lane, idle.
pub add_work-ValidGroup :
    (g : Group) (m : Message)
    → find str_dec m.id g.work ≡ none
    → ValidGroup g
    → ValidGroup (add_work g m)
unfolding add_work
add_work-ValidGroup g m new v = record { lanes_valid = lanes_valid; queued = queued }
  where
    key : Str
    key = delivery_affinity m

    w : Work
    w = record {
      key = key;
      expires = m.expires_at;
      charge = work_charge m;
      attempt = 1;
      delivery = [];
    }

    work : Map Str Work
    work = put str_dec m.id w g.work

    old : (j : Str) → ValidLane work j (lane j g.lanes)
    old j = record {
      entries =
          All-map (Entry g.work j) (Entry work j) (λ i h. Entry-put_new g.work j m.id w i new h) _
            (v.lanes_valid j).entries;
      once = (v.lanes_valid j).once;
      gated =
          IdleTail-map g.work work (λ i h. Idle-put g.work m.id w i refl h) _
            (v.lanes_valid j).gated;
    }

    here : find str_dec m.id work ≡ some w
    here = find-put_self str_dec m.id w g.work

    own : ValidLane work key (lane key g.lanes ++ (m.id ∷ []))
    own = record {
      entries = All-snoc (Entry work key) _ m.id (old key).entries (w, here, refl);
      once =
          Once-snoc m.id _ (old key).once
            (not_inside_new g.work key m.id _ new (v.lanes_valid key).entries);
      gated = IdleTail-snoc work m.id _ (old key).gated (λ x found. ground (arith, here));
    }

    lanes_valid :
        (j : Str)
        → ValidLane work j (lane j (put str_dec key (lane key g.lanes ++ (m.id ∷ [])) g.lanes))
    lanes_valid j =
        rw (lane-put key j (lane key g.lanes ++ (m.id ∷ [])) g.lanes) (pick (str_dec j key))
      where
        pick :
            (d : Dec (j ≡ key))
            → ValidLane work j (ite d (lane key g.lanes ++ (m.id ∷ [])) (lane j g.lanes))
        pick (yes e) = subst (λ k. ValidLane work k (lane key g.lanes ++ (m.id ∷ []))) (sym e) own
        pick (no ne) = old j

    queued :
        (id : Str) (x : Work)
        → find str_dec id work ≡ some x
        → Inside id (lane x.key (put str_dec key (lane key g.lanes ++ (m.id ∷ [])) g.lanes))
    queued id x found =
        rw (lane-put key x.key (lane key g.lanes ++ (m.id ∷ [])) g.lanes)
          (at_end (str_dec x.key key) (str_dec id m.id))
      where
        at_end :
            (d : Dec (x.key ≡ key))
            → Dec (id ≡ m.id)
            → Inside id (ite d (lane key g.lanes ++ (m.id ∷ [])) (lane x.key g.lanes))
        at_end (yes k) (yes e) =
            subst (λ i. Inside i (lane key g.lanes ++ (m.id ∷ []))) (sym e) (Inside-last m.id _)
        at_end (no nk) (yes e) = absurd (nk (ground (arith, here, found, e)))
        at_end (yes k) (no ne) = Inside-left id m.id _ (
            subst (λ j. Inside id (lane j g.lanes)) k
              (v.queued id x (sym (find-put_ne str_dec m.id id w g.work ne) ∙ found)))
        at_end (no nk) (no ne) =
            v.queued id x (sym (find-put_ne str_dec m.id id w g.work ne) ∙ found)

-- A new entry for an ID that keeps its key. Work that is in flight may only be a lane's head.
module _ (g : Group) (id : Str) (w w' : Work) (v : ValidGroup g)
    (found : find str_dec id g.work ≡ some w) (same_key : w'.key ≡ w.key) where
  private_work : Map Str Work
  private_work = put str_dec id w' g.work

  entries_kept : (j : Str) → All (Entry private_work j) (lane j g.lanes)
  unfolding private_work
  entries_kept j =
      All-map (Entry g.work j) (Entry private_work j) keep (lane j g.lanes)
        (v.lanes_valid j).entries
    where
      keep : (i : Str) → Entry g.work j i → Entry (put str_dec id w' g.work) j i
      keep i (x, f, k) = elim (str_dec i id) [
        | yes e ↦ Entry-put g.work j id w' i (same_key ∙ ground (arith, found, e)) (x, f, k)
        | no ne ↦ (x, find-put_ne str_dec id i w' g.work ne ∙ f, k)
      ]

  queued_kept :
      (i : Str) (x : Work) → find str_dec i private_work ≡ some x → Inside i (lane x.key g.lanes)
  unfolding private_work
  queued_kept i x f = elim (str_dec i id) [
    | yes e ↦
        let k : x.key ≡ w.key = ground (arith, find-put_self str_dec id w' g.work, same_key) in
        subst (λ j. Inside j (lane x.key g.lanes)) (sym e)
          (subst (λ j. Inside id (lane j g.lanes)) (sym k) (v.queued id w found))
    | no ne ↦ v.queued i x (sym (find-put_ne str_dec id i w' g.work ne) ∙ f)
  ]

  replace-ValidGroup :
      ((j : Str) → IdleTail (put str_dec id w' g.work) (lane j g.lanes))
      → ValidGroup (record g { work = put str_dec id w' g.work })
  unfolding private_work
  replace-ValidGroup gated = record {
    lanes_valid =
        λ j. record { entries = entries_kept j; once = (v.lanes_valid j).once; gated = gated j };
    queued = queued_kept;
  }

-- A retry keeps the group in order: no entry leaves its lane, and only heads are in flight.
pub retry_work-ValidGroup :
    (max_attempts : ℕ) (id delivery : Str) (g : Group)
    → ValidGroup g
    → ValidGroup (retry_work max_attempts id delivery g)
unfolding retry_work
retry_work-ValidGroup max_attempts id delivery g v = elim (Option-cases (find str_dec id g.work)) [
  | inl e ↦ rw (e, retry_work) v
  | inr (w, e) ↦ elim (str_dec w.delivery delivery) [
    | no ne ↦ rw (e, if_neg (str_dec w.delivery delivery) ne, retry_work) v
    | yes same ↦
        let w' : Work = record w { delivery = []; attempt = min (w.attempt + 1) max_attempts } in
        rw (e, if_pos (str_dec w.delivery delivery) same, retry_work)
          (replace-ValidGroup g id w w' v e refl (λ j.
            IdleTail-map g.work _ (λ i h. Idle-put g.work id w' i refl h) _
              (v.lanes_valid j).gated))
  ]
]

Idle-put_others :
    (work : Map Str Work) (id : Str) (w : Work) (ids : List Str)
    → ¬ Inside id ids
    → All (Idle work) ids
    → All (Idle (put str_dec id w work)) ids
Idle-put_others work id w [] n h = tt
Idle-put_others work id w (x ∷ ids) n h = (
  λ y f. h.0 y (sym (find-put_ne str_dec id x w work (λ e. n (inl (sym e)))) ∙ f),
  Idle-put_others work id w ids (λ i. n (inr i)) h.1,
)

IdleTail-put_head :
    (work : Map Str Work) (id : Str) (w : Work) (ids rest : List Str)
    → ids ≡ id ∷ rest
    → Once ids
    → IdleTail work ids
    → IdleTail (put str_dec id w work) ids
IdleTail-put_head work id w ids rest e o g =
    subst (IdleTail (put str_dec id w work)) (sym e)
      (Idle-put_others work id w rest (subst Once e o).0 (subst (IdleTail work) e g))

IdleTail-put_others :
    (work : Map Str Work) (id : Str) (w : Work) (ids : List Str)
    → ¬ Inside id ids
    → IdleTail work ids
    → IdleTail (put str_dec id w work) ids
IdleTail-put_others work id w [] n g = tt
IdleTail-put_others work id w (x ∷ ids) n g = Idle-put_others work id w ids (λ i. n (inr i)) g

pub other_lane :
    (work : Map Str Work) (j id : Str) (w : Work) (ids : List Str)
    → find str_dec id work ≡ some w
    → w.key ≢ j
    → All (Entry work j) ids
    → ¬ Inside id ids
other_lane work j id w [] f ne h i = i
other_lane work j id w (x ∷ ids) f ne h (inl e) = ne (ground (arith, h.0.1, h.0.2))
other_lane work j id w (x ∷ ids) f ne h (inr i) = other_lane work j id w ids f ne h.1 i

-- Marking the head of a lane as sent keeps the group in order: in every lane only the head is ever
-- in flight.
pub mark_sent-ValidGroup :
    (g : Group) (id : Str) (rest : List Str) (w : Work) (delivery : Str)
    → lane w.key g.lanes ≡ id ∷ rest
    → find str_dec id g.work ≡ some w
    → ValidGroup g
    → ValidGroup (mark_sent g id w delivery)
unfolding mark_sent
mark_sent-ValidGroup g id rest w delivery head found v = elim (str_dec delivery []) [
  | yes e ↦ rw (if_pos (str_dec delivery []) e, mark_sent) v
  | no ne ↦
      rw (if_neg (str_dec delivery []) ne, mark_sent)
        (replace-ValidGroup g id w (record w { delivery = delivery }) v found refl gated)
]
  where
    sent : Work
    sent = record w { delivery = delivery }

    gated : (j : Str) → IdleTail (put str_dec id sent g.work) (lane j g.lanes)
    gated j = elim (str_dec w.key j) [
      | yes e ↦
          subst (λ k. IdleTail (put str_dec id sent g.work) (lane k g.lanes)) e
            (IdleTail-put_head g.work id sent _ rest head (v.lanes_valid w.key).once
              (v.lanes_valid w.key).gated)
      | no ne ↦
          IdleTail-put_others g.work id sent _
            (other_lane g.work j id w _ found ne (v.lanes_valid j).entries) (v.lanes_valid j).gated
    ]
