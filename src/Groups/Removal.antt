-- ===== src/Groups/Removal.antt =====
-- The removal of an entry from its group, in a lane or at its head.
use spruce.Prelude.{
  ◌≡◌, refl, sym, subst, ◌∙◌, ◌≢◌, inl, inr, ite, if_pos, if_neg, some, List, [], ◌∷◌, arith, All,
  All-map, Str, str_dec,
}
use spruce.Prelude.Maps.{Map, find, put, del, find-del_self, find-del_ne}
use spruce.Groups.Lanes.{other_lane}
use spruce.Groups.LaneShape.{
  Inside, Once, Entry, Idle, IdleTail, ValidLane, ValidGroup, lane-put, lane-del, lane-del_self,
}
use spruce.Groups.{Work, Group, lane, remove_id, remove_work}

Inside-remove : (id x : Str) (ids : List Str) → Inside x (remove_id id ids) → Inside x ids
unfolding remove_id
Inside-remove id x [] i = i
Inside-remove id x (y ∷ ids) i = elim (str_dec y id) [
  | yes e ↦ inr (rw (if_pos (str_dec y id) e, remove_id) at i)
  | no ne ↦ in_rest (Inside-remove id x ids) (rw (if_neg (str_dec y id) ne, remove_id) at i)
]
  where
    in_rest :
        (Inside x (remove_id id ids) → Inside x ids)
        → Inside x (y ∷ remove_id id ids)
        → Inside x (y ∷ ids)
    in_rest ih (inl e) = inl e
    in_rest ih (inr j) = inr (ih j)

Inside-remove_ne :
    (id x : Str) (ids : List Str) → x ≢ id → Inside x ids → Inside x (remove_id id ids)
unfolding remove_id
Inside-remove_ne id x [] ne i = i
Inside-remove_ne id x (y ∷ ids) ne (inl e) =
    rw (if_neg (str_dec y id) (λ s. ne (e ∙ s)), remove_id) (inl e)
Inside-remove_ne id x (y ∷ ids) ne (inr i) = elim (str_dec y id) [
  | yes e ↦ rw (if_pos (str_dec y id) e, remove_id) i
  | no other ↦ rw (if_neg (str_dec y id) other, remove_id) (inr (Inside-remove_ne id x ids ne i))
]

Once-remove :
    (id : Str) (ids : List Str)
    → Once ids
    → Once (remove_id id ids) × (¬ Inside id (remove_id id ids))
unfolding remove_id
Once-remove id [] o = (tt, λ i. i)
Once-remove id (y ∷ ids) o = elim (str_dec y id) [
  | yes e ↦ rw (if_pos (str_dec y id) e, remove_id) (o.1, subst (λ k. ¬ Inside k ids) e o.0)
  | no ne ↦
      let (once, gone) = Once-remove id ids o.1 in
      rw (if_neg (str_dec y id) ne, remove_id)
        ((λ i. o.0 (Inside-remove id y ids i), once), not_here gone (λ e. ne (sym e)))
]
  where
    not_here : ¬ Inside id (remove_id id ids) → id ≢ y → ¬ Inside id (y ∷ remove_id id ids)
    not_here gone ne (inl e) = ne e
    not_here gone ne (inr i) = gone i

All-remove : (P : Str → Type 0) (id : Str) (ids : List Str) → All P ids → All P (remove_id id ids)
unfolding remove_id
All-remove P id [] h = tt
All-remove P id (y ∷ ids) h = elim (str_dec y id) [
  | yes e ↦ rw (if_pos (str_dec y id) e, remove_id) h.1
  | no ne ↦ rw (if_neg (str_dec y id) ne, remove_id) (h.0, All-remove P id ids h.1)
]

IdleTail-All : (work : Map Str Work) (ids : List Str) → All (Idle work) ids → IdleTail work ids
IdleTail-All work [] h = tt
IdleTail-All work (x ∷ ids) h = h.1

IdleTail-remove :
    (work : Map Str Work) (id : Str) (ids : List Str)
    → IdleTail work ids
    → IdleTail work (remove_id id ids)
unfolding remove_id
IdleTail-remove work id [] g = tt
IdleTail-remove work id (y ∷ ids) g = elim (str_dec y id) [
  | yes e ↦ rw (if_pos (str_dec y id) e, remove_id) (IdleTail-All work ids g)
  | no ne ↦ rw (if_neg (str_dec y id) ne, remove_id) (All-remove (Idle work) id ids g)
]

Idle-del : (work : Map Str Work) (id j : Str) → Idle work j → Idle (del str_dec id work) j
Idle-del work id j h w f = elim (str_dec j id) [
  | yes e ↦ ground (arith, find-del_self str_dec id work)
  | no ne ↦ h w (sym (find-del_ne str_dec id j work ne) ∙ f)
]

IdleTail-del :
    (work : Map Str Work) (id : Str) (ids : List Str)
    → IdleTail work ids
    → IdleTail (del str_dec id work) ids
IdleTail-del work id [] g = tt
IdleTail-del work id (x ∷ ids) g =
    All-map (Idle work) (Idle (del str_dec id work)) (λ j h. Idle-del work id j h) ids g

entries-del :
    (work : Map Str Work) (id j : Str) (ids : List Str)
    → ¬ Inside id ids
    → All (Entry work j) ids
    → All (Entry (del str_dec id work) j) ids
entries-del work id j [] n h = tt
entries-del work id j (x ∷ ids) n h =
    let (w, f, k) = h.0 in
    (
      (w, find-del_ne str_dec id x work (λ e. n (inl (sym e))) ∙ f, k),
      entries-del work id j ids (λ i. n (inr i)) h.1,
    )

abbrev lanes_after : Str → List Str → Map Str (List Str) → Map Str (List Str)
lanes_after key rest lanes = elim rest [
  | [] ↦ del str_dec key lanes
  | x ∷ xs ↦ put str_dec key (x ∷ xs) lanes
]

lane-lanes_after :
    (key j : Str) (rest : List Str) (lanes : Map Str (List Str))
    → lane j (lanes_after key rest lanes) ≡ ite (str_dec j key) rest (lane j lanes)
lane-lanes_after key j (x ∷ xs) lanes = lane-put key j (x ∷ xs) lanes
lane-lanes_after key j [] lanes = elim (str_dec j key) [
  | yes e ↦
      rw (if_pos (str_dec j key) e)
        (subst (λ k. lane k (del str_dec key lanes) ≡ []) (sym e) (lane-del_self key lanes))
  | no ne ↦ rw (if_neg (str_dec j key) ne) (lane-del key j lanes ne)
]

-- Removing an entry from a group in order leaves the group in order, and its lane is the old one
-- without the entry.
pub remove_work-ValidGroup :
    (g : Group) (id : Str) (w : Work)
    → find str_dec id g.work ≡ some w
    → ValidGroup g
    → ValidGroup (remove_work g id w)
      × (lane w.key (remove_work g id w).lanes ≡ remove_id id (lane w.key g.lanes))
unfolding remove_work
remove_work-ValidGroup g id w found v = (
  record { lanes_valid = lanes_valid; queued = queued },
  lane-lanes_after w.key w.key rest g.lanes ∙ if_pos (str_dec w.key w.key) refl _ _,
)
  where
    rest : List Str
    rest = remove_id id (lane w.key g.lanes)

    work : Map Str Work
    work = del str_dec id g.work

    own : ValidLane work w.key rest
    own =
        let (once, gone) = Once-remove id (lane w.key g.lanes) (v.lanes_valid w.key).once in
        record {
          entries =
              entries-del g.work id w.key rest gone
                (All-remove (Entry g.work w.key) id _ (v.lanes_valid w.key).entries);
          once = once;
          gated =
              IdleTail-del g.work id rest (IdleTail-remove g.work id _ (v.lanes_valid w.key).gated);
        }

    other : (j : Str) → w.key ≢ j → ValidLane work j (lane j g.lanes)
    other j ne = record {
      entries =
          entries-del g.work id j _ (other_lane g.work j id w _ found ne (v.lanes_valid j).entries)
            (v.lanes_valid j).entries;
      once = (v.lanes_valid j).once;
      gated = IdleTail-del g.work id _ (v.lanes_valid j).gated;
    }

    lanes_valid : (j : Str) → ValidLane work j (lane j (lanes_after w.key rest g.lanes))
    lanes_valid j = rw (lane-lanes_after w.key j rest g.lanes) (pick (str_dec j w.key))
      where
        pick : (d : Dec (j ≡ w.key)) → ValidLane work j (ite d rest (lane j g.lanes))
        pick (yes e) = subst (λ k. ValidLane work k rest) (sym e) own
        pick (no ne) = other j (λ e. ne (sym e))

    queued :
        (i : Str) (x : Work)
        → find str_dec i work ≡ some x
        → Inside i (lane x.key (lanes_after w.key rest g.lanes))
    queued i x f =
        rw (lane-lanes_after w.key x.key rest g.lanes) (pick (str_dec i id) (str_dec x.key w.key))
      where
        pick : Dec (i ≡ id) → (d : Dec (x.key ≡ w.key)) → Inside i (ite d rest (lane x.key g.lanes))
        pick (yes e) d = absurd (ground (arith, find-del_self str_dec id g.work))
        pick (no ne) (yes k) = Inside-remove_ne id i _ ne (
            subst (λ j. Inside i (lane j g.lanes)) k
              (v.queued i x (sym (find-del_ne str_dec id i g.work ne) ∙ f)))
        pick (no ne) (no nk) = v.queued i x (sym (find-del_ne str_dec id i g.work ne) ∙ f)
