-- ===== src/Idempotency/Examples.antt =====
-- A table with room for two keys.
use spruce.Prelude.{ℕ, ◌≡◌, refl, true, false, [], ◌∷◌, map, arith, ℕ_discrete, str_dec}
use spruce.Prelude.Maps.{find, put, del}
use spruce.Idempotency.{
  Entry, Table, entry_of, points_to, in_progress_at, evict, compact, insert, make_room, Begin,
  conflict, wait_for, exhausted, owner, start_entry, is_current, begin_idempotency, joins,
  finish_idempotency,
}
use spruce.Idempotency.Ownership.{Valid, Owned, Begun, begin_idempotency-Begun}
use spruce.Idempotency.Finishing.{Finished, finish_idempotency-Finished}

program : Unit {0}
unfolding find put del str_dec ℕ_discrete entry_of points_to in_progress_at evict compact insert
    make_room start_entry is_current begin_idempotency joins finish_idempotency
program = tt

abbrev empty : Table
empty = record { entries = []; order = []; store = []; next = 0 }

abbrev table_of : Begin → Table
table_of conflict = empty
table_of (wait_for n) = empty
table_of exhausted = empty
table_of (owner n t) = t

abbrev begin_at : Table → ℕ → Begin
begin_at t key = begin_idempotency 2 t (key ∷ []) (105 ∷ []) 100 (7 ∷ []) 10

abbrev one_busy : Table
one_busy = table_of (begin_at empty 1)

abbrev two_busy : Table
two_busy = table_of (begin_at one_busy 2)

third_exhausted : begin_at two_busy 3 ≡ exhausted
unfolding program
third_exhausted = refl

abbrev one_done : Table
one_done = finish_idempotency two_busy (1 ∷ []) 0 true true

-- The key that is done makes room.
third_owns : map (λ e. e.0) (table_of (begin_at one_done 3)).entries ≡ (2 ∷ []) ∷ (3 ∷ []) ∷ []
unfolding program
third_owns = refl

other_message : begin_idempotency 2 one_done (1 ∷ []) (105 ∷ []) 100 (8 ∷ []) 10 ≡ conflict
unfolding program
other_message = refl

empty-Valid : Valid 2 empty
unfolding find
empty-Valid = record { distinct = tt; bounded = omega arith; used = λ n e h. cc }

begin_idempotency-Begun_example :
    Begun 2 empty (1 ∷ []) 0 one_busy × ((m : ℕ) → ¬ Owned empty (1 ∷ []) m)
unfolding program
begin_idempotency-Begun_example =
    begin_idempotency-Begun 2 empty one_busy (1 ∷ []) (105 ∷ []) 100 (7 ∷ []) 10 0 (omega arith)
      empty-Valid refl

abbrev running : Entry
running = record {
  id = 105 ∷ [];
  expires_at = 100;
  accepted = false;
  replicated = false;
  ready = false;
  fingerprint = 7 ∷ [];
  in_progress = true;
}

finish_idempotency-Finished_example :
    Finished 2 one_busy (1 ∷ []) 0 false (finish_idempotency one_busy (1 ∷ []) 0 false false)
finish_idempotency-Finished_example =
    finish_idempotency-Finished 2 one_busy (1 ∷ []) 0 false false
      begin_idempotency-Begun_example.0.valid begin_idempotency-Begun_example.0.owned
