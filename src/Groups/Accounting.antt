-- ===== src/Groups/Accounting.antt =====
-- The memory counters of the broker against the entries of all groups.
use spruce.Prelude.{
  ℕ, ◌+◌, ◌-◌, ◌≤◌, ◌≡◌, sym, subst, ◌⊎◌, inl, inr, ite, Bool, true, not, ◌||◌, Option, none, some,
  List, [], ◌∷◌, arith, ltb, leb, Bool-cases, Option-cases, some_inj, length, All, All-snoc,
  sum_by-append, Str, str_dec,
}
use spruce.Prelude.Maps.{Distinct, find, del-Distinct, sum_by-del}
use spruce.Message.{Message}
use spruce.Groups.LaneShape.{ValidGroup}
use spruce.Groups.Removal.{remove_work-ValidGroup}
use spruce.Groups.{
  Work, Group, Groups, stream_memory_reservation, reserve_stream_memory, find_group, fits_groups,
  register_group, charge_messages, add_messages, prepare_group_work, remove_work, update_group,
  complete_group_work, lane,
}
use spruce.Groups.Memory.{
  work_memory, memory_of, AllDistinct, Served, AddedAll, add_messages-AddedAll,
}

-- The counters, where `other` bytes of the stream memory are held outside the groups: both count the
-- groups and their entries exactly, within the budget.
pub record Accounted (other : ℕ) (b : Groups) : Type 0 where
  pub counted : b.group_memory ≡ memory_of b.groups
  pub reserved : b.group_memory + stream_memory_reservation ≤ b.stream_memory_bytes
  pub shared : b.stream_memory ≡ memory_of b.groups + other
  pub bounded : b.stream_memory ≤ b.stream_memory_bytes
  pub distinct : AllDistinct b.groups
  pub lanes : All ValidGroup b.groups

reserve_cases :
    (b : Groups) (bytes : ℕ)
    → (reserve_stream_memory b bytes ≡ none)
      ⊎ ((b.stream_memory + bytes ≤ b.stream_memory_bytes)
          × (reserve_stream_memory b bytes
              ≡ some (record b { stream_memory = b.stream_memory + bytes })))
unfolding reserve_stream_memory
reserve_cases b bytes = elim (Bool-cases (ltb b.stream_memory_bytes (b.stream_memory + bytes))) [
  | inl over ↦ inl (rw over)
  | inr fits ↦ inr (ground arith, rw fits)
]

-- Where the counters and lanes are in order, an admission that succeeds keeps them so and makes an
-- entry for every message in every group that still needs it: none of the groups wants any of the
-- messages afterwards. Both counters, and so the stream memory too, keep exactly the charge of the
-- entries that it made, and the rest of what it reserved is given back, also where a message stands
-- in the list twice. What others hold of the stream memory is as before.
pub prepare_group_work-Accounted :
    (active : Str → Str → Str → Bool) (only : Str) (other : ℕ) (b b' : Groups) (ms : List Message)
    → Accounted other b
    → prepare_group_work active only b ms ≡ some b'
    → Accounted other b' × All (λ m. Served active only m b'.groups) ms
unfolding prepare_group_work
prepare_group_work-Accounted active only other b b' ms v h =
    elim (Bool-cases (fits_groups b (charge_messages active only b.groups ms))) [
      | inr over ↦ absurd (none_some (rw (over, prepare_group_work) at h))
      | inl fits ↦ elim (reserve_cases b (charge_messages active only b.groups ms)) [
        | inl full ↦ absurd (none_some (rw (fits, full, prepare_group_work) at h))
        | inr (room, taken) ↦
            subst (λ x. Accounted other x × All (λ m. Served active only m x.groups) ms)
              (some_inj (rw (fits, taken, prepare_group_work) at h))
              (done fits room (add_messages-AddedAll active only b.groups ms))
      ]
    ]
  where
    none_some : ◌≡◌ {A = Option Groups} none (some b') → ⊥
    none_some e = cc

    charge : ℕ
    charge = charge_messages active only b.groups ms

    r : List Group × ℕ
    r = add_messages active only b.groups ms

    done :
        fits_groups b charge ≡ true
        → b.stream_memory + charge ≤ b.stream_memory_bytes
        → AddedAll active only b.groups ms r
        → let x : Groups = record b {
          groups = r.0;
          stream_memory = b.stream_memory + charge - (charge - r.1);
          group_memory = b.group_memory + r.1;
        } in
          Accounted other x × All (λ m. Served active only m x.groups) ms
    done fits room a = (
      record {
        counted = omega (arith, a.charged, v.counted);
        reserved = ground (arith, fits, a.bounded);
        shared = omega (arith, a.charged, v.shared, a.bounded);
        bounded = omega (arith, room, a.bounded);
        distinct = a.distinct v.distinct;
        lanes = a.valid v.lanes;
      },
      a.served,
    )

-- Where the counters and lanes are in order, a registration keeps them so, whether it is refused,
-- finds the group there or adds it with the charge of its scope.
pub register_group-Accounted :
    (other : ℕ) (b : Groups) (topic group : Str)
    → Accounted other b
    → Accounted other (register_group b topic group).0
unfolding register_group
register_group-Accounted other b topic group v =
    elim (Option-cases (find_group topic group b.groups)) [
      | inr (g, known) ↦ rw (known, register_group) v
      | inl new ↦
          elim (Bool-cases (leb b.max_streams (length b.groups) || not (fits_groups b charge))) [
            | inl over ↦ rw (new, over, register_group) v
            | inr fits ↦ elim (reserve_cases b charge) [
              | inl full ↦ rw (new, fits, full, register_group) v
              | inr (room, taken) ↦
                  rw (new, fits, taken, register_group)
                    (record {
                      counted = omega (
                        arith,
                        v.counted,
                        sum_by-append (λ (x : Group). x.charge + work_memory x.work) b.groups
                            (empty ∷ []),
                      );
                      reserved = ground (arith, fits);
                      shared = omega (
                        arith,
                        v.shared,
                        sum_by-append (λ (x : Group). x.charge + work_memory x.work) b.groups
                            (empty ∷ []),
                      );
                      bounded = room;
                      distinct =
                          All-snoc (λ x. Distinct str_dec x.work) b.groups empty v.distinct tt;
                      lanes = All-snoc ValidGroup b.groups empty v.lanes empty-ValidGroup;
                    })
            ]
          ]
    ]
  where
    charge : ℕ
    charge = 1024 + length topic + length group

    empty : Group
    empty = record {
      topic = topic;
      group = group;
      lanes = [];
      work = [];
      charge = charge;
      index_peak = 0;
    }

    empty-ValidGroup : ValidGroup empty
    empty-ValidGroup =
        unfold lane find in
        record {
          lanes_valid = λ key. record { entries = tt; once = tt; gated = tt };
          queued = λ id w e. absurd (cc);
        }

update_group-removes :
    (topic group id : Str) (w : Work) (gs : List Group) (g : Group)
    → AllDistinct gs
    → All ValidGroup gs
    → find_group topic group gs ≡ some g
    → find str_dec id g.work ≡ some w
    → let gs' = update_group topic group (λ x. remove_work x id w) gs in
      (memory_of gs' + w.charge ≡ memory_of gs) × AllDistinct gs' × All ValidGroup gs'
unfolding find_group update_group
update_group-removes topic group id w [] g d v f e = absurd (cc)
update_group-removes topic group id w (x ∷ gs) g d v f e =
    pick (str_dec x.topic topic) (str_dec x.group group) f
      (λ h. update_group-removes topic group id w gs g d.1 v.1 h e)
  where
    removed :
        (x : Group)
        → find str_dec id x.work ≡ some w
        → Distinct str_dec x.work
        → (remove_work x id w).charge + work_memory (remove_work x id w).work + w.charge
          ≡ x.charge + work_memory x.work
    removed x ex dx =
        unfold remove_work in
        omega (arith, sum_by-del str_dec (λ (p : Str × Work). p.1.charge) id w x.work dx ex)

    distinct_del :
        (x : Group) → Distinct str_dec x.work → Distinct str_dec (remove_work x id w).work
    distinct_del x dx = unfold remove_work in del-Distinct str_dec id x.work dx

    pick :
        (a : Dec (x.topic ≡ topic)) (b : Dec (x.group ≡ group))
        → ite a (ite b (some x) (find_group topic group gs)) (find_group topic group gs) ≡ some g
        → (find_group topic group gs ≡ some g
            → let gs' = update_group topic group (λ y. remove_work y id w) gs in
              (memory_of gs' + w.charge ≡ memory_of gs) × AllDistinct gs' × All ValidGroup gs')
        → let gs' =
            ite a
              (ite b
                (remove_work x id w ∷ gs)
                (x ∷ update_group topic group (λ y. remove_work y id w) gs))
              (x ∷ update_group topic group (λ y. remove_work y id w) gs) in
          (memory_of gs' + w.charge ≡ memory_of (x ∷ gs)) × AllDistinct gs' × All ValidGroup gs'
    pick (yes p) (yes q) f ih =
        let ex : find str_dec id x.work ≡ some w =
          subst (λ y. find str_dec id y.work ≡ some w) (sym (some_inj f)) e in
        (
          omega (arith, removed x ex d.0),
          (distinct_del x d.0, d.1),
          ((remove_work-ValidGroup x id w ex v.0).0, v.1),
        )
    pick (yes p) (no nq) f ih = let (m, ds, vs) = ih f in (omega (arith, m), (d.0, ds), (v.0, vs))
    pick (no np) b f ih = let (m, ds, vs) = ih f in (omega (arith, m), (d.0, ds), (v.0, vs))

-- Where the counters and lanes are in order, completing a message keeps them so: what both counters
-- hold for the groups afterwards is again exactly the charges of the groups and of the entries that
-- are left, and what others hold of the stream memory is as before.
pub complete_group_work-Accounted :
    (other : ℕ) (b : Groups) (topic group id : Str)
    → Accounted other b
    → Accounted other (complete_group_work b topic group id)
unfolding complete_group_work
complete_group_work-Accounted other b topic group id v =
    elim (Option-cases (find_group topic group b.groups)) [
      | inl none_there ↦ rw (none_there, complete_group_work) v
      | inr (g, known) ↦ elim (Option-cases (find str_dec id g.work)) [
        | inl done ↦ rw (known, done, complete_group_work) v
        | inr (w, there) ↦
            let (m, ds, vs) =
              update_group-removes topic group id w b.groups g v.distinct v.lanes known there in
            rw (known, there, complete_group_work)
              (record {
                counted = omega (arith, m, v.counted);
                reserved = omega (arith, v.reserved);
                shared = omega (arith, m, v.shared);
                bounded = omega (arith, v.bounded);
                distinct = ds;
                lanes = vs;
              })
      ]
    ]
