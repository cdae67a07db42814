-- ===== src/Groups/Sending.antt =====
-- The choice of a member and the end of `dispatchGroupLocked`, of internal/broker/group_work.go.
use spruce.Prelude.{
  ℕ, ite, Bool, true, false, not, ◌||◌, Option, none, some, List, [], ◌∷◌, ltb, leb, if◌then◌else◌,
  Str, str_dec,
}
use mathlib.Core.Option
use spruce.Prelude.Maps.{find, put}
use spruce.Message.{Message}
use spruce.Groups.{Work, Group, lane}

-- A member of a consumer group, as the dispatch sees it.
pub record Member : Type 0 where
  pub id : Str
  pub affinity : Str
  pub detached : Bool
  pub replaying : Bool

unfoldable pub some_replaying : List Member → Bool
some_replaying [] = false
some_replaying (s ∷ ss) = s.replaying || some_replaying ss

-- Rendezvous: the first member with the highest score, in the order of `range`.
unfoldable pub consider : (Member → ℕ) → Option Member → Member → Option Member
consider score selected s = if s.detached || s.replaying then selected else elim selected [
  | none ↦ some s
  | some t ↦ if ltb (score t) (score s) then some s else some t
]

unfoldable pub best_member : (Member → ℕ) → Option Member → List Member → Option Member
unfolding consider
best_member score selected [] = selected
best_member score selected (s ∷ ss) = best_member score (consider score selected s) ss

unfoldable pub blocked : List Member → Str → Work → Message → ℕ → Bool
blocked members id w m now =
    not (ite (str_dec w.delivery []) true false)
    || not (ite (str_dec m.id id) true false)
    || leb w.expires now
    || some_replaying members

-- `dispatchGroupLocked` up to the choice of a member: the head of the lane, if it is not in flight,
-- its message is cached and has not expired, and no member is replaying.
unfoldable pub dispatch_target :
    (Member → ℕ) → List Member → Group → Str → Option Message → ℕ → Option (Str × Work × Member)
dispatch_target score members g key cached now = elim (lane key g.lanes) [
  | [] ↦ none
  | id ∷ rest ↦ elim (find str_dec id g.work) [
    | none ↦ none
    | some w ↦ elim cached [
      | none ↦ none
      | some m ↦
          if blocked members id w m now
          then none
          else Option.map (λ s. (id, w, s)) (best_member score none members)
    ]
  ]
]

-- Its end: `delivery` is what `sendDeliveryLocked` returned, empty where it found no room.
unfoldable pub mark_sent : Group → Str → Work → Str → Group
mark_sent g id w delivery =
    ite (str_dec delivery []) g
      (record g { work = put str_dec id (record w { delivery = delivery }) g.work })
