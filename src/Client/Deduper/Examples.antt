-- ===== src/Client/Deduper/Examples.antt =====
-- A record of two IDs.
use spruce.Prelude.{◌≡◌, refl, true, false, [], ◌∷◌, arith, ℕ_discrete, str_dec}
use spruce.Prelude.Int.{pos}
use spruce.Prelude.Maps.{find, put, del}
use spruce.Client.Deduper.{Deduper, new_deduper, is_fresh, forget_one, forget, mark_seen}
use spruce.Client.Deduper.Memory.{mark_all, mark_seen-remembers}
use spruce.Client.Deduper.Bounded.{Valid}

program : Unit {0}
unfolding find put del str_dec ℕ_discrete new_deduper is_fresh forget_one forget mark_seen
program = tt

abbrev start : Deduper
start = new_deduper (pos 2) (pos 100)

abbrev three_later : Deduper
three_later = (mark_seen (mark_seen (mark_seen start (1 ∷ []) 10).1 (2 ∷ []) 20).1 (3 ∷ []) 30).1

first_forgotten : (mark_seen three_later (1 ∷ []) 40).0 ≡ false
unfolding program
first_forgotten = refl

third_known : (mark_seen three_later (3 ∷ []) 129).0 ≡ true
unfolding program
third_known = refl

start-Valid : Valid start
unfolding program
start-Valid = record { distinct = tt; listed = λ id until e. cc; bounded = omega arith }

-- Another ID comes in between.
mark_seen-remembers_example :
    (mark_seen (mark_all ((5 ∷ [], 50) ∷ []) (mark_seen three_later (4 ∷ []) 40).1) (4 ∷ []) 60).0
    ≡ true
unfolding program
mark_seen-remembers_example =
    mark_seen-remembers three_later (4 ∷ []) 40 ((5 ∷ [], 50) ∷ []) 60 (omega arith)
      (omega arith, tt) (omega arith, (omega arith, tt)) (omega arith) refl
