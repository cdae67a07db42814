-- ===== src/Sequencing/Examples.antt =====
-- Runs of the sequencing on concrete messages.
use spruce.Prelude.{
  ℕ, ◌+◌, ◌≤◌, ◌≡◌, refl, ◌≢◌, true, false, none, some, List, [], ◌∷◌, map, arith, ℕ_discrete, ◌==◌,
  if◌then◌else◌, length, Str, str_dec,
}
use spruce.Prelude.Maps.{find, put, del}
use spruce.Message.{Message, message_size}
use spruce.Replay.{mark_unsafe, mark_source, sources_of, value_at, clear_unsafe, set_sources}
use spruce.Cache.Slots.{somes, clear}
use spruce.Cache.{
  new_cache, mark, topic_list, remove_message, take_out, leave_topic, points_at, leave_order,
  settle_topic,
}
use spruce.Cache.Inserts.{make_space, link_expiry, add_message, insert_message, insert_batch}
use spruce.Cache.Expiry.{
  gaps_of, forget_origin, forget_origins, forget_marks, forget_sequences, live_gaps, gap_bytes,
  expire_gaps, expire_reorder, next_expiry, expire_due, compact_order, expire_metadata,
  expire_cache, gap_source, clear_gap, gap_topic, remove_due,
}
use spruce.Cache.Pages.{batch_within}
use spruce.Sequencing.{
  sequence_missing, GroupWork, Intake, record_received, local_origin, origin_of, add_to,
  new_origins, origin_capacity, digit36, base36_onto, base36, gap_at, take_gap, close_gap,
  close_empty, of_cache_error, duplicate, number_message, new_sequence, assign_sequence,
  note_insert, store_message, store_assigned, enter_message, admit_message, accept_message,
}
use spruce.Sequencing.Batches.{
  pass_over, return_gap, new_topics, is_buffered, added_bytes, repair_source, repair_gap,
  number_one, number_all, promote, drain, drain_origin, drain_all, deliver_all, enter_batch,
  admit_batch, accept_batch,
}
use spruce.Sequencing.Replicated.{
  valid_sequences, same_key, has_key, replicated_bytes, str_before, sequence_before,
  insert_in_sequence, sort_sequences, overflow_source, drop_gap, move_through, after_expired,
  keep_gap, take_next, buffer_message, go_on, count_stored, chain_insert, chain_live, chain_round,
  chain, run_chain, receive_again, receive_message, receive_all, admit_replicated,
  accept_replicated,
}
use spruce.Sequencing.Publishing
use spruce.Sequencing.Numbers.{Accepted}
use spruce.Sequencing.Leftover
use spruce.Sequencing.Buffers.{Numbering, Buffers}
use spruce.Sequencing.Receiving
use spruce.Sequencing.Pinned
use spruce.Sequencing.Receipts.{expire_times}

program : Unit {0}
unfolding message_size mark_unsafe mark_source sources_of value_at clear_unsafe set_sources somes
    clear new_cache mark topic_list make_space link_expiry add_message insert_message insert_batch
    gaps_of forget_origin forget_origins forget_marks forget_sequences live_gaps gap_bytes
    expire_gaps expire_reorder next_expiry expire_due compact_order expire_metadata expire_cache
    gap_source batch_within record_received local_origin origin_of add_to new_origins
    origin_capacity digit36 base36_onto base36 gap_at take_gap close_gap close_empty of_cache_error
    duplicate number_message new_sequence assign_sequence note_insert store_message store_assigned
    enter_message admit_message accept_message pass_over return_gap new_topics is_buffered
    added_bytes repair_source repair_gap number_one number_all promote drain drain_origin drain_all
    deliver_all enter_batch admit_batch accept_batch valid_sequences same_key has_key
    replicated_bytes str_before sequence_before insert_in_sequence sort_sequences overflow_source
    drop_gap move_through after_expired keep_gap take_next buffer_message go_on count_stored
    chain_insert chain_live chain_round chain run_chain receive_again receive_message receive_all
    admit_replicated accept_replicated find put del str_dec ℕ_discrete
program = tt

-- The groups want every message; the work is the list of the deliveries, the last one first.
abbrev recorder : GroupWork (List Message)
recorder = record { prepare = λ w ms. some w; deliver = λ w m. m ∷ w }

abbrev idle : Intake (List Message)
idle = record {
  cache = new_cache 4000;
  work = [];
  origin = b'b' ∷ [];
  minted = 0;
  duplicates = 0;
  dropped = 0;
}

abbrev message : ℕ → Str → ℕ → ℕ → Message
message id origin sequence expires_at = record {
  id = id ∷ [];
  topic = b't' ∷ [];
  key = [];
  headers = [];
  payload = [];
  created_at = 1;
  expires_at = expires_at;
  origin = origin;
  sequence = sequence;
}

abbrev peer : Str
peer = b'p' ∷ []

abbrev ids : Intake (List Message) → List Str
ids s = map (λ m. m.message.id) (somes s.cache.order)

-- Two publishes to one topic: the origin "b.1" and the numbers 1 and 2.
abbrev published : Intake (List Message)
published =
    (accept_message recorder 10 (accept_message recorder 10 idle (message 1 [] 0 90)).0
      (message 2 [] 0 90)).0

published_numbers :
    map {B = Str × ℕ} (λ m. (m.message.origin, m.message.sequence)) (somes published.cache.order)
    ≡ (b'b' ∷ b'.' ∷ b'1' ∷ [], 1) ∷ (b'b' ∷ b'.' ∷ b'1' ∷ [], 2) ∷ []
unfolding program
published_numbers = refl

batch_numbers :
    map
      (λ m. m.message.sequence)
      (somes
        (accept_batch recorder false 10 published
          (message 3 [] 0 90 ∷ message 2 [] 0 90 ∷ message 4 [] 0 90 ∷ [])).0.cache.order)
    ≡ 1 ∷ 2 ∷ 3 ∷ 4 ∷ []
unfolding program
batch_numbers = refl

-- The third message waits for the second; the first and the second may come in one batch.
abbrev waiting : Intake (List Message)
waiting = (accept_replicated recorder 10 idle (message 3 peer 3 90 ∷ message 1 peer 1 90 ∷ [])).0

waiting_state :
    (ids waiting ≡ (1 ∷ []) ∷ [])
    × (waiting.cache.reorder_bytes ≡ 266)
    × (find str_dec peer waiting.cache.received_through ≡ some 1)
unfolding program
waiting_state = (refl, refl, refl)

abbrev complete : Intake (List Message)
complete = (accept_replicated recorder 10 waiting (message 2 peer 2 90 ∷ [])).0

complete_state :
    (ids complete ≡ (1 ∷ []) ∷ (2 ∷ []) ∷ (3 ∷ []) ∷ [])
    × (complete.cache.reorder_bytes ≡ 0)
    × (complete.cache.reorder ≡ [])
    × (complete.cache.unsafe ≡ [])
    × (find str_dec peer complete.cache.received_through ≡ some 3)
unfolding program
complete_state = (refl, refl, refl, refl, refl)

-- A number that was received before, of a message that is not held.
missing :
    (accept_replicated recorder 10 complete (message 9 peer 2 90 ∷ [])).1 ≡ some sequence_missing
unfolding program
missing = refl

accept_message-Accepted_example :
    Accepted
      (record published { cache = expire_cache 20 published.cache })
      (message 5 [] 0 80)
      (accept_message recorder 20 published (message 5 [] 0 80))
accept_message-Accepted_example =
    Publishing.accept_message-Accepted recorder 20 published (message 5 [] 0 80)

abbrev late : Message
late = message 7 peer 1 5

late_fits :
    (expire_cache 10 idle.cache).bytes
      + (expire_cache 10 idle.cache).reorder_bytes
      + message_size late
    ≤ (expire_cache 10 idle.cache).max_bytes
unfolding program
late_fits = omega arith

late_unknown :
    (find str_dec late.origin (expire_cache 10 idle.cache).received_through ≡ none)
    × (find str_dec late.origin (expire_cache 10 idle.cache).received_until ≡ none)
    × (find str_dec late.origin (expire_cache 10 idle.cache).reorder ≡ none)
    × (origin_capacity (expire_cache 10 idle.cache) (late ∷ []) ≡ true)
unfolding program
late_unknown = (refl, refl, refl, refl)

late_named : late.origin ≢ []
late_named = λ e. cc

accept_replicated-pins_example :
    ((accept_replicated recorder 10 idle (late ∷ [])).1 ≡ none)
    × ((times : List ℕ)
        → find str_dec late.origin
            (expire_times times
              (accept_replicated recorder 10 idle (late ∷ [])).0.cache).received_through
          ≡ some 1)
accept_replicated-pins_example =
    Pinned.accept_replicated-pins recorder 10 idle late late_named refl (omega arith) late_unknown.0
      late_unknown.1 late_unknown.2 late_unknown.3 late_fits

-- Groups with room for one message.
abbrev narrow : GroupWork (List Message)
narrow = record { prepare = λ w ms. if length w == 0 then some w else none; deliver = λ w m. m ∷ w }

abbrev second : Message
second = message 2 peer 2 90

-- The second message waits, the first is stored, and the groups refuse the second then.
abbrev held_back : Intake (List Message)
held_back =
    (accept_replicated narrow 10 (accept_replicated narrow 10 idle (second ∷ [])).0
      (message 1 peer 1 90 ∷ [])).0

held_back_state :
    (second.sequence ≡ value_at peer held_back.cache.received_through + 1)
    × (find str_dec second.id held_back.cache.items ≡ none)
    × (gap_at peer second.sequence held_back.cache ≡ some second)
    × (gap_at peer (second.sequence + 1) held_back.cache ≡ none)
    × (held_back.cache.bytes + message_size second ≤ held_back.cache.max_bytes)
unfolding program
held_back_state = (refl, refl, refl, refl, omega arith)

receive_message-leaves_example :
    ((receive_message recorder 10 held_back second).1 ≡ none)
    × (second.sequence
        ≤ value_at peer (receive_message recorder 10 held_back second).0.cache.received_through)
    × (gap_at peer second.sequence (receive_message recorder 10 held_back second).0.cache
        ≡ some second)
    × ((receive_message recorder 10 held_back second).0.cache.reorder_bytes
        ≡ held_back.cache.reorder_bytes)
    × ((receive_message recorder 10 held_back second).0.cache.bytes
        ≡ held_back.cache.bytes + message_size second)
receive_message-leaves_example =
    Leftover.receive_message-leaves recorder 10 held_back second held_back.work held_back_state.0
      (omega arith) refl held_back_state.1 held_back_state.4 held_back_state.2 held_back_state.3

-- What the numbers stand for here.
abbrev truth : Numbering
truth origin k = message k origin k 90

idle-Buffers : Buffers truth idle.cache
unfolding program
idle-Buffers = record {
  distinct = tt;
  once = λ o. tt;
  keyed = λ o k m h. absurd (cc);
  counted = refl;
}

-- The first message is stored and the third one waits.
abbrev one_waits : Intake (List Message)
one_waits = (accept_replicated recorder 10 idle (message 3 peer 3 90 ∷ message 1 peer 1 90 ∷ [])).0

one_waits-Buffers : Buffers truth one_waits.cache
one_waits-Buffers =
    Receiving.accept_replicated-Buffers recorder truth 10 idle
      (message 3 peer 3 90 ∷ message 1 peer 1 90 ∷ []) (refl, (refl, tt)) idle-Buffers

waiting_bytes : one_waits.cache.reorder_bytes ≡ message_size (message 3 peer 3 90)
unfolding program
waiting_bytes = refl

-- Much later it has expired.
overdue_bytes : (accept_replicated recorder 2000 one_waits []).0.cache.reorder_bytes ≡ 0
unfolding program clear_gap gap_topic remove_due remove_message take_out leave_topic points_at
    leave_order settle_topic
overdue_bytes = refl

accept_replicated-Buffers_example :
    Buffers truth (accept_replicated recorder 2000 one_waits (message 2 peer 2 90 ∷ [])).0.cache
accept_replicated-Buffers_example =
    Receiving.accept_replicated-Buffers recorder truth 2000 one_waits (message 2 peer 2 90 ∷ [])
      (refl, tt) one_waits-Buffers
