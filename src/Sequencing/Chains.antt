-- ===== src/Sequencing/Chains.antt =====
-- `acceptReplicatedBatch` of internal/broker/broker.go: its loop over the gaps, on the
-- buffered messages.
use spruce.Prelude.{
  ℕ, zero, suc, ◌≡◌, refl, inl, inr, Bool, true, false, ◌||◌, Option, none, some, [], ◌∷◌, leb,
  if◌then◌else◌, Bool-cases, Option-cases, Result, ok, err, passed,
}
use spruce.Message.{Message}
use spruce.Cache.{Cache}
use spruce.Cache.Inserts.{CacheError, insert_message}
use spruce.Sequencing.{AcceptError, GroupWork, Intake, record_received, gap_at, duplicate}
use spruce.Sequencing.Buffers.{Numbering, Agrees, Buffers}
use spruce.Sequencing.Untouched.{insert_message-SameBuffers}
use spruce.Sequencing.Replicated.{
  drop_gap, move_through, after_expired, Round, ended, onward, go_on, count_stored, chain_insert,
  chain_live, chain_round, chain,
}
use spruce.Sequencing.Gaps.{
  SameBuffers-Buffers, drop_gap-Buffers, after_expired-Buffers, take_next-Buffers, keep_gap-Buffers,
  NextAgrees, NextTaken,
}

-- A round ends with buffers in order, and goes on with a message that is buffered only if it comes
-- from the gaps.
abbrev RoundBuffers : {W : Type 0} → Numbering → Round W → Type 0
RoundBuffers truth (ended s e) = Buffers truth s.cache
RoundBuffers truth (onward from_gap n s) =
    Agrees truth n
    × Buffers truth s.cache
    × (from_gap ≡ false → gap_at n.origin n.sequence s.cache ≡ none)

go_on_expired :
    {W : Type 0} (truth : Numbering) (m : Message) (s : Intake W) (r : Cache × Option Message)
    → Buffers truth r.0 × NextAgrees truth m r.1
    → RoundBuffers truth (go_on true s r)
unfolding go_on
go_on_expired truth m s (c, none) h = h.0
go_on_expired truth m s (c, some n) h = (h.1, h.0, λ e. cc)

go_on_taken :
    {W : Type 0} (truth : Numbering) (from_gap : Bool) (s : Intake W) (r : Cache × Option Message)
    → Buffers truth r.0 × NextTaken truth r.0 r.1
    → RoundBuffers truth (go_on from_gap s r)
unfolding go_on
go_on_taken truth from_gap s (c, none) h = h.0
go_on_taken truth from_gap s (c, some n) h = (h.1.0, h.0, λ e. h.1.1)

module _ {W : Type 0} (groups : GroupWork W) (truth : Numbering) (now : ℕ) where
  count_stored-Buffers :
      (m : Message) (w : W) (inserted : Bool) (s : Intake W) (c : Cache)
      → Buffers truth c
      → Buffers truth (count_stored groups now m w inserted s c).cache
  unfolding count_stored record_received duplicate
  count_stored-Buffers m w true s c v = v
  count_stored-Buffers m w false s c v = v

  chain_insert-Buffers :
      (from_gap : Bool) (m : Message) (s : Intake W) (w : W) (r : Cache × Result CacheError Bool)
      → Buffers truth r.0
      → RoundBuffers truth (chain_insert groups now from_gap m s w r)
  unfolding chain_insert
  chain_insert-Buffers from_gap m s w (c, err e) v = v
  chain_insert-Buffers from_gap m s w (c, ok inserted) v =
      go_on_taken truth from_gap (count_stored groups now m w inserted s c) _ (
        take_next-Buffers truth m (count_stored groups now m w inserted s c).cache
          (count_stored-Buffers m w inserted s c v))

  chain_live-Buffers :
      (from_gap passed : Bool) (m : Message) (s : Intake W) (c : Cache)
      → Agrees truth m
      → Buffers truth c
      → ((passed || from_gap) ≡ true → gap_at m.origin m.sequence c ≡ none)
      → RoundBuffers truth (chain_live groups now from_gap passed m s c)
  unfolding chain_live
  chain_live-Buffers from_gap passed m s c own v free =
      elim (Option-cases (groups.prepare s.work (m ∷ []))) [
        | inl e ↦ rw (e, chain_live) (keep_gap-Buffers truth (passed || from_gap) m c own v free)
        | inr (w, e) ↦
            rw (e, chain_live)
              (chain_insert-Buffers from_gap m s w (insert_message now c m)
                (SameBuffers-Buffers truth c _ (insert_message-SameBuffers now c m) v))
      ]

  chain_round-Buffers :
      (from_gap passed : Bool) (m : Message) (s : Intake W)
      → Agrees truth m
      → Buffers truth s.cache
      → (from_gap ≡ false → passed ≡ true → gap_at m.origin m.sequence s.cache ≡ none)
      → RoundBuffers truth (chain_round groups now from_gap passed m s)
  unfolding chain_round
  chain_round-Buffers from_gap passed m s own v free =
      finish (if from_gap then drop_gap m s.cache else s.cache) (start from_gap free)
    where
      start :
          (b : Bool)
          → (b ≡ false → passed ≡ true → gap_at m.origin m.sequence s.cache ≡ none)
          → Buffers truth (if b then drop_gap m s.cache else s.cache)
            × ((passed || b) ≡ true
                → gap_at m.origin m.sequence (if b then drop_gap m s.cache else s.cache) ≡ none)
      start true f = let d = drop_gap-Buffers truth m s.cache own v in (d.0, λ e. d.1)
      start false f = (v, λ e. f refl (passed_of passed e))
        where
          passed_of : (p : Bool) → (p || false) ≡ true → p ≡ true
          passed_of true e = refl
          passed_of false e = e

      finish :
          (c : Cache)
          → Buffers truth c × ((passed || from_gap) ≡ true → gap_at m.origin m.sequence c ≡ none)
          → RoundBuffers truth (
              if leb m.expires_at now
              then go_on true s (after_expired m (move_through m c))
              else chain_live groups now from_gap passed m s c)
      finish c (k, f) = elim (Bool-cases (leb m.expires_at now)) [
        | inl e ↦ rw e (
            go_on_expired truth m s (after_expired m (move_through m c))
              (after_expired-Buffers truth m (move_through m c) own (unfold move_through in k)))
        | inr e ↦ rw e (chain_live-Buffers from_gap passed m s c own k f)
      ]

  pub chain-Buffers :
      (fuel : ℕ) (from_gap passed : Bool) (m : Message) (s : Intake W)
      → Agrees truth m
      → Buffers truth s.cache
      → (from_gap ≡ false → passed ≡ true → gap_at m.origin m.sequence s.cache ≡ none)
      → Buffers truth (chain groups fuel now from_gap passed m s).0.cache
  unfolding chain
  chain-Buffers zero from_gap passed m s own v free = v
  chain-Buffers (suc fuel) from_gap passed m s own v free =
      next (chain_round groups now from_gap passed m s)
        (chain_round-Buffers from_gap passed m s own v free)
        (λ b n t a k f. chain-Buffers fuel b true n t a k f)
    where
      next :
          (r : Round W)
          → RoundBuffers truth r
          → ((b : Bool) (n : Message) (t : Intake W)
              → Agrees truth n
              → Buffers truth t.cache
              → (b ≡ false → true ≡ true → gap_at n.origin n.sequence t.cache ≡ none)
              → Buffers truth (chain groups fuel now b true n t).0.cache)
          → Buffers truth
              (elim r as (λ _. Intake W × Option AcceptError) [
                | ended s' e ↦ (s', e)
                | onward b n t ↦ chain groups fuel now b true n t
              ]).0.cache
      next (ended s' e) h ih = h
      next (onward b n t) (a, k, f) ih = ih b n t a k (λ e _. f e)
