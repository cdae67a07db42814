-- ===== src/Groups/LaneShape.antt =====
-- What holds of each lane of a group, of internal/broker/groups.go, and how it carries over to new
-- entries.
use spruce.Prelude.{
  ◌≡◌, refl, sym, ◌∙◌, ◌≢◌, ◌⊎◌, inl, inr, ite, none, some, List, [], ◌∷◌, ◌++◌, arith, All,
  All-map, All-snoc, Str, str_dec,
}
use spruce.Prelude.Maps.{Map, find, put, del, find-put, find-put_ne, find-del_self, find-del_ne}
use spruce.Groups.{Work, Group, lane}

abbrev pub Inside : Str → List Str → Type 0
Inside id [] = ⊥
Inside id (x ∷ xs) = (id ≡ x) ⊎ Inside id xs

abbrev pub Once : List Str → Type 0
Once [] = Unit {0}
Once (x ∷ xs) = (¬ Inside x xs) × Once xs

-- The entry of an ID is there, under the key of its lane.
abbrev pub Entry : Map Str Work → Str → Str → Type 0
Entry work key id = (w : Work) × (find str_dec id work ≡ some w) × (w.key ≡ key)

-- The entry of an ID is not in flight.
abbrev pub Idle : Map Str Work → Str → Type 0
Idle work id = (w : Work) → find str_dec id work ≡ some w → w.delivery ≡ []

abbrev pub IdleTail : Map Str Work → List Str → Type 0
IdleTail work [] = Unit {0}
IdleTail work (head ∷ rest) = All (Idle work) rest

pub record ValidLane (work : Map Str Work) (key : Str) (ids : List Str) : Type 0 where
  pub entries : All (Entry work key) ids
  pub once : Once ids
  pub gated : IdleTail work ids

pub record ValidGroup (g : Group) : Type 0 where
  pub lanes_valid : (key : Str) → ValidLane g.work key (lane key g.lanes)
  pub queued :
      (id : Str) (w : Work) → find str_dec id g.work ≡ some w → Inside id (lane w.key g.lanes)

-- Lanes as a map.

pub lane-put :
    (key j : Str) (ids : List Str) (lanes : Map Str (List Str))
    → lane j (put str_dec key ids lanes) ≡ ite (str_dec j key) ids (lane j lanes)
unfolding lane
lane-put key j ids lanes = ground (arith, find-put str_dec key j ids lanes)

pub lane-del :
    (key j : Str) (lanes : Map Str (List Str))
    → j ≢ key
    → lane j (del str_dec key lanes) ≡ lane j lanes
unfolding lane
lane-del key j lanes ne = rw (find-del_ne str_dec key j lanes ne, lane)

pub lane-del_self : (key : Str) (lanes : Map Str (List Str)) → lane key (del str_dec key lanes) ≡ []
unfolding lane
lane-del_self key lanes = rw (find-del_self str_dec key lanes, lane)

-- A lane under a change of the entry of another ID.

pub Entry-put :
    (work : Map Str Work) (key id : Str) (w : Work) (j : Str)
    → w.key ≡ key
    → Entry work key j
    → Entry (put str_dec id w work) key j
Entry-put work key id w j same (x, found, k) = elim (str_dec j id) [
  | yes e ↦ (w, ground (arith, find-put str_dec id j w work), same)
  | no ne ↦ (x, find-put_ne str_dec id j w work ne ∙ found, k)
]

pub Idle-put :
    (work : Map Str Work) (id : Str) (w : Work) (j : Str)
    → w.delivery ≡ []
    → Idle work j
    → Idle (put str_dec id w work) j
Idle-put work id w j idle h x found = elim (str_dec j id) [
  | yes e ↦ ground (arith, find-put str_dec id j w work)
  | no ne ↦ h x (sym (find-put_ne str_dec id j w work ne) ∙ found)
]

pub Entry-put_new :
    (work : Map Str Work) (key id : Str) (w : Work) (j : Str)
    → find str_dec id work ≡ none
    → Entry work key j
    → Entry (put str_dec id w work) key j
Entry-put_new work key id w j new (x, found, k) =
    (x, find-put_ne str_dec id j w work (λ e. ground arith) ∙ found, k)

pub not_inside_new :
    (work : Map Str Work) (key id : Str) (ids : List Str)
    → find str_dec id work ≡ none
    → All (Entry work key) ids
    → ¬ Inside id ids
not_inside_new work key id [] new h i = i
not_inside_new work key id (x ∷ xs) new h (inl e) = ground (arith, h.0.1)
not_inside_new work key id (x ∷ xs) new h (inr i) = not_inside_new work key id xs new h.1 i

Inside-snoc : (id x : Str) (ids : List Str) → Inside id (ids ++ (x ∷ [])) → Inside id ids ⊎ (id ≡ x)
Inside-snoc id x [] (inl e) = inr e
Inside-snoc id x [] (inr none_left) = absurd none_left
Inside-snoc id x (y ∷ ids) (inl e) = inl (inl e)
Inside-snoc id x (y ∷ ids) (inr i) = elim (Inside-snoc id x ids i) [
  | inl j ↦ inl (inr j)
  | inr e ↦ inr e
]

pub Inside-last : (id : Str) (ids : List Str) → Inside id (ids ++ (id ∷ []))
Inside-last id [] = inl refl
Inside-last id (x ∷ ids) = inr (Inside-last id ids)

pub Inside-left : (id x : Str) (ids : List Str) → Inside id ids → Inside id (ids ++ (x ∷ []))
Inside-left id x [] i = absurd i
Inside-left id x (y ∷ ids) (inl e) = inl e
Inside-left id x (y ∷ ids) (inr i) = inr (Inside-left id x ids i)

pub Once-snoc : (id : Str) (ids : List Str) → Once ids → ¬ Inside id ids → Once (ids ++ (id ∷ []))
Once-snoc id [] o n = (λ i. i, tt)
Once-snoc id (x ∷ ids) o n = (
  λ i. elim (Inside-snoc x id ids i) [ inl j ↦ o.0 j | inr e ↦ n (inl (sym e)) ],
  Once-snoc id ids o.1 (λ i. n (inr i)),
)

pub IdleTail-snoc :
    (work : Map Str Work) (id : Str) (ids : List Str)
    → IdleTail work ids
    → Idle work id
    → IdleTail work (ids ++ (id ∷ []))
IdleTail-snoc work id [] g h = tt
IdleTail-snoc work id (x ∷ ids) g h = All-snoc (Idle work) ids id g h

pub IdleTail-map :
    (a b : Map Str Work)
    → ((j : Str) → Idle a j → Idle b j)
    → (ids : List Str) → IdleTail a ids
    → IdleTail b ids
IdleTail-map a b f [] g = tt
IdleTail-map a b f (x ∷ ids) g = All-map (Idle a) (Idle b) f ids g
