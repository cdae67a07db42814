-- ===== src/Groups/Dispatch.antt =====
-- The choice of what to send and to whom.
use spruce.Prelude.{
  ◌≤◌, ℕ, ◌<◌, ◌≡◌, ◌⊎◌, false, Option, none, some, List, [], ◌∷◌, All, Str, str_dec,
}
use mathlib.Core.Option
use spruce.Prelude.Maps.{find}
use spruce.Message.{Message}
use spruce.Groups.{Work, Group, lane}
use spruce.Groups.Sending.{Member, some_replaying}

abbrev pub IsEligible : Member → Type 0
IsEligible s = (s.detached ≡ false) × (s.replaying ≡ false)

abbrev pub Among : Member → List Member → Type 0
Among s [] = ⊥
Among s (t ∷ ts) = (s ≡ t) ⊎ Among s ts

-- What was selected before has no higher score.
abbrev AtMost : (Member → ℕ) → Option Member → Member → Type 0
AtMost score none s = Unit {0}
AtMost score (some u) s = score u ≤ score s

-- What `consider` makes of a member.
data Considered (score : Member → ℕ) (o : Option Member) (t : Member) : Option Member → Type 0 where
  passed_over : ¬ IsEligible t → Considered score o t o
  takes_over : IsEligible t → AtMost score o t → Considered score o t (some t)
  stays : (u : Member) → o ≡ some u → score t ≤ score u → Considered score o t (some u)

-- The best of the members, where `o` was selected before them.
abbrev BestAfter : (Member → ℕ) → Option Member → List Member → Option Member → Type 0
BestAfter score o ts none = (o ≡ none) × All (λ t. ¬ IsEligible t) ts
BestAfter score o ts (some s) =
    ((o ≡ some s) ⊎ (Among s ts × IsEligible s))
    × All (λ t. IsEligible t → score t ≤ score s) ts
    × AtMost score o s

-- The member is eligible, and no eligible one has a higher score.
pub record IsBest (score : Member → ℕ) (members : List Member) (s : Member) : Type 0 where
  pub among : Among s members
  pub eligible : IsEligible s
  pub highest : All (λ t. IsEligible t → score t ≤ score s) members

-- The head of a lane may be sent: it is not in flight, it is the message that is cached, the time of
-- its entry is not over, and no member is replaying.
pub record Sends (members : List Member) (g : Group) (key : Str) (cached : Option Message) (now : ℕ)
    (id : Str) (w : Work) : Type 0 where
  pub head : (rest : List Str) × (lane key g.lanes ≡ id ∷ rest)
  pub entry : find str_dec id g.work ≡ some w
  pub idle : w.delivery ≡ []
  pub message : (m : Message) × (cached ≡ some m) × (m.id ≡ id)
  pub live : now < w.expires
  pub calm : some_replaying members ≡ false

module _ (score : Member → ℕ) (members : List Member) (g : Group) (key : Str)
    (cached : Option Message) (now : ℕ) where
  -- Something is to be sent, and somebody to send it to.
  abbrev pub Ready : Type 0
  Ready =
      (id : Str) × (w : Work) × (s : Member) × Sends members g key cached now id w
      × Among s members
      × IsEligible s

  abbrev pub Dispatched : Option (Str × Work × Member) → Type 0
  Dispatched none = ¬ Ready
  Dispatched (some (id, w, s)) = Sends members g key cached now id w × IsBest score members s
