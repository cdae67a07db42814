-- ===== src/Replay/Examples.antt =====
-- Marks at the limit of one topic, and a stream that meets a new origin.
use spruce.Prelude.{◌≡◌, refl, true, false, [], ◌∷◌, arith, ℕ_discrete, str_dec}
use spruce.Prelude.Maps.{find, put, del}
use spruce.Replay.{
  Marks, all_topics, capacity, value_at, mark_source, sources_of, mark_unsafe, set_sources,
  clear_unsafe, live, key_unsafe, topic_unsafe, frontier_behind, StreamCursor, drop_expired,
  advance,
}
use spruce.Replay.Marks.{mark_unsafe-seen}
use spruce.Replay.Cursor.{Advanced, advance-Advanced}

program : Unit {0}
unfolding find put del str_dec ℕ_discrete value_at mark_source sources_of mark_unsafe set_sources
    clear_unsafe live key_unsafe topic_unsafe frontier_behind drop_expired advance
program = tt

abbrev one_marked : Marks
one_marked = mark_unsafe 1 [] (111 ∷ []) (1 ∷ []) 50

-- The second topic does not fit, so all topics are marked.
for_all :
    mark_unsafe 1 one_marked (112 ∷ []) (1 ∷ []) 60
    ≡ (111 ∷ [], (1 ∷ [], 50) ∷ []) ∷ (all_topics, (capacity, 60) ∷ []) ∷ []
unfolding program
for_all = refl

over_at_55 : topic_unsafe 55 one_marked (111 ∷ []) ≡ (false, [])
unfolding program
over_at_55 = refl

cleared : clear_unsafe one_marked (111 ∷ []) (1 ∷ []) ≡ []
unfolding program
cleared = refl

behind : frontier_behind ((7 ∷ [], 3) ∷ []) ((7 ∷ [], 3) ∷ (8 ∷ [], 1) ∷ []) ≡ true
unfolding program
behind = refl

abbrev cursor : StreamCursor
cursor = record {
  sequences = (7 ∷ [], 3) ∷ (8 ∷ [], 5) ∷ [];
  expires = (7 ∷ [], 40) ∷ (8 ∷ [], 0) ∷ [];
}

-- The first origin is over; that of unknown expiry stays.
moved : (advance cursor (9 ∷ []) 2 90 50).sequences ≡ (8 ∷ [], 5) ∷ (9 ∷ [], 2) ∷ []
unfolding program
moved = refl

mark_unsafe-seen_example :
    (topic_unsafe 55 (mark_unsafe 1 one_marked (112 ∷ []) (1 ∷ []) 60) (112 ∷ [])).0 ≡ true
mark_unsafe-seen_example = mark_unsafe-seen 1 55 one_marked (112 ∷ []) (1 ∷ []) 60 (omega arith)

advance-Advanced_example : Advanced cursor (9 ∷ []) 2 50 (advance cursor (9 ∷ []) 2 90 50)
advance-Advanced_example = advance-Advanced cursor (9 ∷ []) 2 90 50
