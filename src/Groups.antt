-- ===== src/Groups.antt =====
-- Outstanding work of consumer groups: internal/broker/group_work.go. A `*groupWork` is named by its
-- message ID, which is its key in `work`; the linked list of a lane is the list of the IDs in it.
-- The compaction of the Go maps on a geometric shrink copies them, which only `index_peak` shows.
-- `groupWorkByTopic` is the part of `groupWork` with a topic. Memory counters stay below
-- `StreamMemoryBytes`, an int64, so no sum wraps.
pub mod Sending
pub mod LaneShape
pub mod Lanes
pub mod Removal
pub mod Dispatch
pub mod Memory
pub mod Accounting
mod Examples
use spruce.Prelude.{
  ℕ, zero, suc, ◌+◌, ◌-◌, ◌*◌, ◌/◌, ◌%◌, ◌^◌, ◌≤◌, ◌<◌, min, max, ◌≡◌, refl, sym, ap, subst, ◌∙◌,
  ◌≢◌, ◌⊎◌, inl, inr, ite, if_pos, if_neg, Bool, true, false, not, ◌&&◌, ◌||◌, Option, none, some,
  List, [], ◌∷◌, ◌++◌, map, append_assoc, append-nil, arith, dec_lt, dec_le, ℕ_discrete, ltb, leb,
  ◌==◌, if◌then◌else◌, tests, Bool-cases, Option-cases, length, get_elem?, take, drop,
  length-append, All, All-map, All-zip, All-drop_mid, All-snoc, sum_by, sum_by-append, Str, str_dec,
  Result, ok, err, ◌>>=◌, ◌>>◌, fail_if, bind_ok, passed,
}
use mathlib.Core.Option
use spruce.Prelude.Maps.{Map, find, put, del}
use spruce.Message.{Message, delivery_affinity}

abbrev pub stream_memory_reservation : ℕ
stream_memory_reservation = 262144

-- `delivery` is empty while the work is not in flight.
pub record Work : Type 0 where
  pub key : Str
  pub expires : ℕ
  pub charge : ℕ
  pub attempt : ℕ
  pub delivery : Str

pub record Group : Type 0 where
  pub topic : Str
  pub group : Str
  pub lanes : Map Str (List Str)
  pub work : Map Str Work
  pub charge : ℕ
  pub index_peak : ℕ

-- The fields of `Broker` and `Config` that this file uses.
pub record Groups : Type 0 where
  pub groups : List Group
  pub group_memory : ℕ
  pub stream_memory : ℕ
  pub stream_memory_bytes : ℕ
  pub max_streams : ℕ
  pub max_attempts : ℕ

-- `reserveStreamMemory`, whose loop retries until its compare-and-swap succeeds.
unfoldable pub reserve_stream_memory : Groups → ℕ → Option Groups
reserve_stream_memory b bytes =
    if ltb b.stream_memory_bytes (b.stream_memory + bytes)
    then none
    else some (record b { stream_memory = b.stream_memory + bytes })

unfoldable pub find_group : Str → Str → List Group → Option Group
find_group topic group [] = none
find_group topic group (g ∷ gs) =
    ite (str_dec g.topic topic) (ite (str_dec g.group group) (some g) (find_group topic group gs))
      (find_group topic group gs)

abbrev pub fits_groups : Groups → ℕ → Bool
fits_groups b charge =
    leb (b.group_memory + charge + stream_memory_reservation) b.stream_memory_bytes

-- `registerGroupLocked`
unfoldable pub register_group : Groups → Str → Str → Groups × Bool
unfolding reserve_stream_memory
register_group b topic group = elim (find_group topic group b.groups) [
  | some g ↦ (b, true)
  | none ↦
      let charge = 1024 + length topic + length group in
      if leb b.max_streams (length b.groups) || not (fits_groups b charge)
      then (b, false)
      else elim (reserve_stream_memory b charge) [
        | none ↦ (b, false)
        | some b' ↦ (
          record b' {
            groups =
                b'.groups
                ++ (record {
                  topic = topic;
                  group = group;
                  lanes = [];
                  work = [];
                  charge = charge;
                  index_peak = 0;
                }
                    ∷ []);
            group_memory = b'.group_memory + charge;
          },
          true,
        )
      ]
]

-- `workCharge`
unfoldable pub work_charge : Message → ℕ
unfolding delivery_affinity
work_charge m = 384 + length m.id + length (delivery_affinity m)

-- Whether a group needs the message: `active` is `checkpointActiveLocked` at this time, and an empty
-- `only_group` stands for every group.
unfoldable pub concerns : Str → Str → Str → Message → Bool
concerns only_group topic group m =
    ite (str_dec m.topic topic)
      (ite (str_dec only_group []) true (ite (str_dec group only_group) true false)) false

unfoldable pub missing : Str → Map Str Work → Bool
missing id work = elim (find str_dec id work) [ none ↦ true | some w ↦ false ]

unfoldable pub wants : (Str → Str → Str → Bool) → Str → Group → Message → Bool
wants active only_group g m =
    concerns only_group g.topic g.group m
    && missing m.id g.work
    && not (active g.topic g.group m.id)

unfoldable pub lane : Str → Map Str (List Str) → List Str
lane key lanes = elim (find str_dec key lanes) [ none ↦ [] | some ids ↦ ids ]

unfoldable pub add_work : Group → Message → Group
add_work g m =
    let key = delivery_affinity m in
    let work =
      put str_dec m.id
        (record {
          key = key;
          expires = m.expires_at;
          charge = work_charge m;
          attempt = 1;
          delivery = [];
        })
        g.work in
    record g {
      lanes = put str_dec key (lane key g.lanes ++ (m.id ∷ [])) g.lanes;
      work = work;
      index_peak = max g.index_peak (length work);
    }

module _ (active : Str → Str → Str → Bool) (only_group : Str) where
  -- The first pass: the charge of every missing entry, before any is made.
  unfoldable pub charge_groups : List Group → Message → ℕ
  charge_groups [] m = 0
  charge_groups (g ∷ gs) m =
      (if wants active only_group g m then work_charge m else 0) + charge_groups gs m

  unfoldable pub charge_messages : List Group → List Message → ℕ
  charge_messages gs [] = 0
  charge_messages gs (m ∷ ms) = charge_groups gs m + charge_messages gs ms

  -- The second pass: the entries, and the charge that was used.
  unfoldable pub add_groups : List Group → Message → List Group × ℕ
  add_groups [] m = ([], 0)
  add_groups (g ∷ gs) m =
      let (gs', used) = add_groups gs m in
      if wants active only_group g m
      then (add_work g m ∷ gs', work_charge m + used)
      else (g ∷ gs', used)

  unfoldable pub add_messages : List Group → List Message → List Group × ℕ
  add_messages gs [] = (gs, 0)
  add_messages gs (m ∷ ms) =
      let (gs', used) = add_groups gs m in
      let (gs'', used') = add_messages gs' ms in (gs'', used + used')

  -- `prepareGroupWork`; `none` is errRetentionCapacity.
  unfoldable pub prepare_group_work : Groups → List Message → Option Groups
  unfolding reserve_stream_memory
  prepare_group_work b messages =
      let charge = charge_messages b.groups messages in
      if not (fits_groups b charge) then none else elim (reserve_stream_memory b charge) [
        | none ↦ none
        | some b' ↦
            let (groups, used) = add_messages b'.groups messages in
            some (record b' {
              groups = groups;
              stream_memory = b'.stream_memory - (charge - used);
              group_memory = b'.group_memory + used;
            })
      ]

unfoldable pub remove_id : Str → List Str → List Str
remove_id id [] = []
remove_id id (x ∷ xs) = ite (str_dec x id) xs (x ∷ remove_id id xs)

-- `removeGroupWorkLocked` on the group.
unfoldable pub remove_work : Group → Str → Work → Group
remove_work g id w =
    let work = del str_dec id g.work in
    let rest = remove_id id (lane w.key g.lanes) in
    record g {
      lanes = elim rest [
        | [] ↦ del str_dec w.key g.lanes
        | x ∷ xs ↦ put str_dec w.key (x ∷ xs) g.lanes
      ];
      work = work;
      index_peak =
          if ltb 8 g.index_peak && ltb (length work) (g.index_peak / 4)
          then length work
          else g.index_peak;
    }

-- The release of its charge.
abbrev pub uncharge : Groups → ℕ → Groups
uncharge b charge = record b {
  stream_memory = b.stream_memory - charge;
  group_memory = b.group_memory - charge;
}

-- A change to the group of one scope.
unfoldable pub update_group : Str → Str → (Group → Group) → List Group → List Group
update_group topic group f [] = []
update_group topic group f (g ∷ gs) =
    ite (str_dec g.topic topic)
      (ite (str_dec g.group group) (f g ∷ gs) (g ∷ update_group topic group f gs))
      (g ∷ update_group topic group f gs)

-- `completeGroupWorkLocked`; the wake-up of the group worker is not state.
unfoldable pub complete_group_work : Groups → Str → Str → Str → Groups
complete_group_work b topic group id = elim (find_group topic group b.groups) [
  | none ↦ b
  | some g ↦ elim (find str_dec id g.work) [
    | none ↦ b
    | some w ↦
        uncharge
          (record b { groups = update_group topic group (λ g'. remove_work g' id w) b.groups })
          w.charge
  ]
]

-- `retryGroup` on the group, for a pending delivery that timed out.
unfoldable pub retry_work : ℕ → Str → Str → Group → Group
retry_work max_attempts id delivery g = elim (find str_dec id g.work) [
  | none ↦ g
  | some w ↦
      ite (str_dec w.delivery delivery)
        (record g {
          work =
              put str_dec id
                (record w { delivery = []; attempt = min (w.attempt + 1) max_attempts }) g.work;
        })
        g
]

unfoldable pub retry_group : Groups → Str → Str → Str → Str → Groups
retry_group b topic group id delivery = record b {
  groups = update_group topic group (retry_work b.max_attempts id delivery) b.groups;
}
