-- ===== src/Checkpoints/Examples.antt =====
-- A table of two checkpoints at its limit.
use spruce.Prelude.{ℕ, ◌≤◌, ◌≡◌, refl, true, [], ◌∷◌, arith, ℕ_discrete, str_dec}
use spruce.Prelude.Maps.{find, put, del}
use spruce.Checkpoints.Invariant.{put_checkpoint-Valid, apply_checkpoints-Valid}
use spruce.Checkpoints.Evicting.{Valid}
use spruce.Checkpoints.Active.{compact-active, put_checkpoint-active}
use spruce.Checkpoints.{
  Key, key_dec, OrderEntry, Table, expiry, evict_one, evict, compact_one, compact_loop, compact,
  record_entry, trim, put_checkpoint, apply_one, apply_checkpoints, checkpoint_active,
}

program : Unit {0}
unfolding find put del key_dec str_dec ℕ_discrete expiry evict_one evict compact_one compact_loop
    compact record_entry trim put_checkpoint apply_one apply_checkpoints checkpoint_active
program = tt

abbrev key : ℕ → Key
key n = record { topic = 111 ∷ []; group = 103 ∷ []; message_id = n ∷ [] }

abbrev done : ℕ → ℕ → OrderEntry
done n expires = record { key = key n; expires_at = expires }

abbrev empty : Table
empty = record { entries = []; count = 0; head = 0; order = [] }

abbrev two : Table
two = record {
  entries = (key 1, 50) ∷ (key 2, 60) ∷ [];
  count = 2;
  head = 0;
  order = done 1 50 ∷ done 2 60 ∷ [];
}

two_written : apply_checkpoints 2 100 (done 1 50 ∷ done 2 60 ∷ done 3 500 ∷ []) empty 10 ≡ two
unfolding program
two_written = refl

-- The oldest entry is evicted for the third.
third_written : (put_checkpoint 2 two (done 3 70) 10).0 ≡ record {
  entries = (key 2, 60) ∷ (key 3, 70) ∷ [];
  count = 2;
  head = 1;
  order = done 2 60 ∷ done 3 70 ∷ [];
}
unfolding program
third_written = refl

empty-Valid : Valid empty
unfolding find
empty-Valid = record {
  distinct = tt;
  counted = refl;
  ordered = record { covered = λ k e h. cc; current = tt; positive = tt; growing = tt };
}

two-Valid : Valid two
unfolding program
two-Valid =
    (apply_checkpoints-Valid 2 100 (done 1 50 ∷ done 2 60 ∷ done 3 500 ∷ []) empty 10 empty-Valid
      (omega arith)).0

put_checkpoint-Valid_example :
    Valid (put_checkpoint 2 two (done 3 70) 10).0
    × ((put_checkpoint 2 two (done 3 70) 10).0.count ≤ 2)
put_checkpoint-Valid_example = put_checkpoint-Valid 2 two (done 3 70) 10 two-Valid (omega arith)

compact-active_example :
    checkpoint_active (compact 55 two) (key 2) 55 ≡ checkpoint_active two (key 2) 55
compact-active_example = compact-active 55 two (key 2)

put_checkpoint-active_example :
    checkpoint_active (put_checkpoint 2 two (done 3 70) 10).0 (key 3) 10 ≡ true
put_checkpoint-active_example =
    put_checkpoint-active 2 two (done 3 70) 10 (omega arith) two-Valid (omega arith)
