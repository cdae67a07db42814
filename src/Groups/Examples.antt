-- ===== src/Groups/Examples.antt =====
-- One group with two messages of one key.
use spruce.Prelude.{
  ℕ, ◌≡◌, refl, Bool, false, none, some, [], ◌∷◌, arith, ℕ_discrete, All, sum_by, Str, str_dec,
}
use spruce.Prelude.Maps.{find, put, del}
use spruce.Message.{Message, delivery_affinity}
use spruce.Groups.Lanes.{mark_sent-ValidGroup}
use spruce.Groups.LaneShape.{ValidGroup}
use spruce.Groups.Removal.{remove_work-ValidGroup}
use spruce.Groups.Memory.{Served}
use spruce.Groups.Accounting.{
  Accounted, prepare_group_work-Accounted, register_group-Accounted, complete_group_work-Accounted,
}
use spruce.Groups.{
  Work, Group, Groups, reserve_stream_memory, find_group, register_group, work_charge, concerns,
  missing, wants, lane, add_work, charge_groups, charge_messages, add_groups, add_messages,
  prepare_group_work, remove_id, remove_work, update_group, complete_group_work, retry_work,
}
use spruce.Groups.Sending.{
  Member, some_replaying, consider, best_member, blocked, dispatch_target, mark_sent,
}

program : Unit {0}
unfolding find put del str_dec ℕ_discrete delivery_affinity reserve_stream_memory find_group
    register_group work_charge concerns missing wants lane add_work charge_groups charge_messages
    add_groups add_messages prepare_group_work remove_id remove_work update_group
    complete_group_work retry_work some_replaying consider best_member blocked dispatch_target
    mark_sent
program = tt

abbrev orders : Str
orders = 111 ∷ []

abbrev billing : Str
billing = 98 ∷ []

abbrev event : ℕ → Message
event n = record {
  id = n ∷ [];
  topic = orders;
  key = 107 ∷ [];
  headers = [];
  payload = [];
  created_at = 10;
  expires_at = 100;
  origin = [];
  sequence = 0;
}

abbrev none_active : Str → Str → Str → Bool
none_active topic group id = false

abbrev idle : Groups
idle = record {
  groups = [];
  group_memory = 0;
  stream_memory = 0;
  stream_memory_bytes = 300000;
  max_streams = 4;
  max_attempts = 8;
}

abbrev registered : Groups
registered = (register_group idle orders billing).0

abbrev queued_work : Work
queued_work = record { key = 107 ∷ []; expires = 100; charge = 386; attempt = 1; delivery = [] }

abbrev queued_group : Group
queued_group = record {
  topic = orders;
  group = billing;
  lanes = (107 ∷ [], (1 ∷ []) ∷ (2 ∷ []) ∷ []) ∷ [];
  work = (1 ∷ [], queued_work) ∷ (2 ∷ [], queued_work) ∷ [];
  charge = 1026;
  index_peak = 2;
}

-- The second copy of the first message is charged and given back.
abbrev queued : Groups
queued = record idle { groups = queued_group ∷ []; group_memory = 1798; stream_memory = 1798 }

prepared :
    prepare_group_work none_active [] registered (event 1 ∷ event 2 ∷ event 1 ∷ []) ≡ some queued
unfolding program
prepared = refl

too_small :
    prepare_group_work none_active []
      (record registered { stream_memory_bytes = 263500 })
      (event 1 ∷ [])
    ≡ none
unfolding program
too_small = refl

idle-Accounted : Accounted 0 idle
idle-Accounted = omega arith

registered-Accounted : Accounted 0 registered
registered-Accounted = register_group-Accounted 0 idle orders billing idle-Accounted

prepare_group_work-Accounted_example :
    Accounted 0 queued
    × All (λ m. Served none_active [] m queued.groups) (event 1 ∷ event 2 ∷ event 1 ∷ [])
prepare_group_work-Accounted_example =
    prepare_group_work-Accounted none_active [] 0 registered queued
      (event 1 ∷ event 2 ∷ event 1 ∷ []) registered-Accounted prepared

complete_group_work-Accounted_example :
    Accounted 0 (complete_group_work queued orders billing (1 ∷ []))
complete_group_work-Accounted_example =
    complete_group_work-Accounted 0 queued orders billing (1 ∷ [])
      prepare_group_work-Accounted_example.0

queued-ValidGroup : ValidGroup queued_group
queued-ValidGroup = prepare_group_work-Accounted_example.0.lanes.0

abbrev member : ℕ → Member
member n = record { id = n ∷ []; affinity = []; detached = false; replaying = false }

abbrev by_id : Member → ℕ
by_id s = sum_by (λ n. n) s.id

dispatches :
    dispatch_target by_id (member 3 ∷ []) queued_group (107 ∷ []) (some (event 1)) 20
    ≡ some (1 ∷ [], queued_work, member 3)
unfolding program
dispatches = refl

mark_sent-ValidGroup_example : ValidGroup (mark_sent queued_group (1 ∷ []) queued_work (100 ∷ []))
unfolding program
mark_sent-ValidGroup_example =
    mark_sent-ValidGroup queued_group (1 ∷ []) ((2 ∷ []) ∷ []) queued_work (100 ∷ []) refl refl
      queued-ValidGroup

remove_work-ValidGroup_example :
    ValidGroup (remove_work queued_group (1 ∷ []) queued_work)
    × (lane (107 ∷ []) (remove_work queued_group (1 ∷ []) queued_work).lanes
        ≡ remove_id (1 ∷ []) (lane (107 ∷ []) queued_group.lanes))
unfolding program
remove_work-ValidGroup_example =
    remove_work-ValidGroup queued_group (1 ∷ []) queued_work refl queued-ValidGroup
