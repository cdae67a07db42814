-- ===== src/Cache/Examples.antt =====
-- Runs of the cache on concrete messages.
use spruce.Prelude.{
  ℕ, ◌≤◌, ◌≡◌, refl, true, false, some, List, [], ◌∷◌, map, arith, ℕ_discrete, length, All, str_dec,
  ok, err,
}
use spruce.Prelude.Maps.{find, put, del}
use spruce.Message.{Message, message_size}
use spruce.Replay.{
  mark_unsafe, mark_source, sources_of, value_at, topic_unsafe, key_unsafe, set_sources,
}
use spruce.Cache.Slots.{somes, clear}
use mathlib.Core.Option
use spruce.Cache.{
  Cache, new_cache, live_frontiers, extend_frontier, record_frontier, mark, points_at, renumber,
  topic_list, set_topic, settle_topic, leave_topic, leave_order, without, unlink_expiry, take_out,
  remove_message,
}
use spruce.Cache.Inserts.{
  exceeds_capacity, drop_from, drop_oldest, make_space, link_expiry, add_message, insert_message,
}
use spruce.Cache.Expiry.{
  forget_origin, forget_origins, forget_marks, forget_sequences, expire_reorder, next_expiry,
  remove_due, expire_due, compact_order, expire_metadata, expire_cache,
}
use spruce.Cache.Expired
use spruce.Cache.Expired.{Live}
use spruce.Cache.Insertion
use spruce.Cache.Insertion.{IsValid, Inserted}
use spruce.Cache.Pages.{
  put_message, repair_page, fill_page, after_ordinal, last_ordinal, replay, replay_after, page,
  page_start, place_after, last_id,
}
use spruce.Cache.Paging
use spruce.Cache.Paging.{Resumes, later}
use spruce.Cache.Walk
use spruce.Cache.Walk.{repair_pages, join}
use spruce.Cache.Shelf
use spruce.Cache.Shelf.{view, put_all, shelf_put_all}

program : Unit {0}
unfolding message_size mark_unsafe mark_source sources_of value_at topic_unsafe key_unsafe
    set_sources somes clear new_cache live_frontiers extend_frontier record_frontier mark points_at
    renumber topic_list set_topic settle_topic leave_topic leave_order without unlink_expiry
    take_out remove_message drop_from drop_oldest make_space link_expiry add_message insert_message
    forget_origin forget_origins forget_marks forget_sequences expire_reorder next_expiry remove_due
    expire_due compact_order expire_metadata expire_cache put_message repair_page fill_page
    after_ordinal last_ordinal replay replay_after page page_start place_after last_id put_all find
    put del str_dec ℕ_discrete
program = tt

-- Messages of 267 bytes of topic "t".
abbrev message : ℕ → ℕ → Message
message id expires_at = record {
  id = id ∷ [];
  topic = b't' ∷ [];
  key = [];
  headers = [];
  payload = 0 ∷ [];
  created_at = 1;
  expires_at = expires_at;
  origin = b'o' ∷ [];
  sequence = id;
}

-- A cache for two messages.
abbrev calls : List (Message × ℕ)
calls = (message 1 90, 10) ∷ (message 2 50, 10) ∷ (message 3 70, 20) ∷ (message 3 70, 20) ∷ []

-- The third message evicts the first, and comes a second time.
put_results : (put_all calls (new_cache 600)).1 ≡ ok true ∷ ok true ∷ ok true ∷ ok false ∷ []
unfolding program
put_results = refl

put_order :
    map (λ s. s.message.id) (somes (put_all calls (new_cache 600)).0.order)
    ≡ (2 ∷ []) ∷ (3 ∷ []) ∷ []
unfolding program
put_order = refl

-- The frontier of the topic remembers the one that was evicted.
put_frontier :
    Option.map
      (λ f. f.sequences)
      (find str_dec (b't' ∷ []) (put_all calls (new_cache 600)).0.frontiers)
    ≡ some ((b'o' ∷ [], 1) ∷ [])
unfolding program
put_frontier = refl

replay_rest :
    map (λ m. m.id) (replay (put_all calls (new_cache 600)).0 (b't' ∷ []) ((b'o' ∷ [], 2) ∷ []))
    ≡ (3 ∷ []) ∷ []
unfolding program
replay_rest = refl

page_rest :
    Option.map (λ p. p.1) (page (put_all calls (new_cache 600)).0 (2 ∷ []) 300) ≡ some (3 ∷ [])
unfolding program
page_rest = refl

expire_order :
    map (λ s. s.message.id) (somes (expire_cache 60 (put_all calls (new_cache 600)).0).order)
    ≡ (3 ∷ []) ∷ []
unfolding program
expire_order = refl

-- A message that is larger than the cache.
put_large : (put_message (new_cache 100) (message 1 90) 10).1 ≡ err exceeds_capacity
unfolding program
put_large = refl

abbrev held : Cache
held = (put_all calls (new_cache 600)).0

held-IsValid : IsValid held
held-IsValid = (Shelf.put_all-Shelved calls (new_cache 600) (Insertion.new_cache-IsValid 600)).1

put_all-Shelved_example :
    ((view (put_all calls (new_cache 600)).0, (put_all calls (new_cache 600)).1)
      ≡ shelf_put_all calls (view (new_cache 600)))
    × IsValid (put_all calls (new_cache 600)).0
put_all-Shelved_example =
    Shelf.put_all-Shelved calls (new_cache 600) (Insertion.new_cache-IsValid 600)

insert_message-Inserted_example :
    Inserted held (message 4 80) (insert_message 20 held (message 4 80))
insert_message-Inserted_example =
    Insertion.insert_message-Inserted 20 held (message 4 80) held-IsValid

expire_cache-Live_example : Live 60 held (expire_cache 60 held)
expire_cache-Live_example = Expired.expire_cache-Live 60 held held-IsValid

repair_page-Resumes_example : Resumes held 0 300 (repair_page held 0 300)
repair_page-Resumes_example = Paging.repair_page-Resumes held 0 300 held-IsValid

held_small : All (λ s. message_size s.message ≤ 300) (somes held.order)
unfolding program
held_small = omega arith

held_two : length (later 0 (somes held.order)) ≤ 2
unfolding program later
held_two = omega arith

repair_pages-all_example : join (repair_pages 2 held 0 300) ≡ later 0 (somes held.order)
repair_pages-all_example = Walk.repair_pages-all 2 held 0 300 held-IsValid held_small held_two
