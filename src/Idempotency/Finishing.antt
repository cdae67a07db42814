-- ===== src/Idempotency/Finishing.antt =====
-- `finishIdempotency`: the end of an owner's publish.
use spruce.Prelude.{
  ℕ, ◌<◌, ◌≡◌, refl, sym, subst, ◌∙◌, ◌≢◌, inl, inr, Bool, true, false, not, ◌&&◌, none, some,
  arith, ℕ_discrete, if◌then◌else◌, Option-cases, some_inj, Str, str_dec,
}
use spruce.Prelude.Maps.{
  Map, find, put, del, find-put_self, find-del_self, find-del_ne, found-put, del-Distinct,
  length-del-le,
}
use spruce.Idempotency.{Entry, Table, points_to, in_progress_at, joins, finish_idempotency}
use spruce.Idempotency.Ownership.{Valid, Owned, in_progress-put, in_progress-put_ne}

-- What the end of an owner's publish leaves.
pub record Finished (capacity : ℕ) (t : Table) (key : Str) (n : ℕ) (accepted : Bool) (t' : Table)
    : Type 0 where
  pub valid : Valid capacity t'
  pub done : in_progress_at t'.store n ≡ false
  pub kept : accepted ≡ true → (joins t' n ≡ true) × (find str_dec key t'.entries ≡ some n)
  pub released : accepted ≡ false → find str_dec key t'.entries ≡ none
  pub others : (k : Str) (m : ℕ) → m ≢ n → Owned t k m → Owned t' k m

-- The end of an owner's publish keeps the table valid. An entry that was accepted stays and is
-- joined by those who wait for it; one that was not leaves its key free. All other owners are as
-- before.
pub finish_idempotency-Finished :
    (capacity : ℕ) (t : Table) (key : Str) (n : ℕ) (accepted replicated : Bool)
    → Valid capacity t
    → Owned t key n
    → Finished capacity t key n accepted (finish_idempotency t key n accepted replicated)
unfolding finish_idempotency
finish_idempotency-Finished capacity t key n accepted replicated v (has, busy) =
    elim (Option-cases (find ℕ_discrete n t.store)) [
      | inl e ↦ absurd (unfold in_progress_at in ground arith)
      | inr (x, e) ↦ rw (e, finish_idempotency) (finished x e accepted)
    ]
  where
    stored : Entry → Bool → Map ℕ Entry
    stored x a =
        put ℕ_discrete n
          (record x { accepted = a; replicated = replicated; in_progress = false; ready = true })
          t.store

    used :
        (x : Entry) (a : Bool)
        → find ℕ_discrete n t.store ≡ some x
        → (m : ℕ) (y : Entry) → find ℕ_discrete m (stored x a) ≡ some y
        → m < t.next
    used x a e m y found = elim (found-put ℕ_discrete n m _ y t.store found) [
      | inl (same, eq) ↦ omega (arith, same, v.used n x e)
      | inr (ne, old) ↦ v.used m y old
    ]

    hit : points_to t.entries (key, n) ≡ true
    hit = unfold points_to in rw (has, points_to) (ground arith)

    finished :
        (x : Entry)
        → find ℕ_discrete n t.store ≡ some x
        → (a : Bool)
        → Finished capacity t key n a (record t {
          entries =
              if not a && points_to t.entries (key, n)
              then del str_dec key t.entries
              else t.entries;
          store = stored x a;
        })
    finished x e true = record {
      valid = record { distinct = v.distinct; bounded = v.bounded; used = used x true e };
      done = in_progress-put t.store n _;
      kept = λ h. (unfold joins in rw (find-put_self ℕ_discrete n _ t.store, joins) refl, has);
      released = λ h. absurd (cc);
      others = λ k m ne o. (o.0, in_progress-put_ne t.store n m _ ne ∙ o.1);
    }
    finished x e false = rw hit (record {
      valid = record {
        distinct = del-Distinct str_dec key t.entries v.distinct;
        bounded = omega (arith, length-del-le str_dec key t.entries, v.bounded);
        used = used x false e;
      };
      done = in_progress-put t.store n _;
      kept = λ h. absurd (cc);
      released = λ h. find-del_self str_dec key t.entries;
      others = λ k m ne o. (
        find-del_ne str_dec key k t.entries (λ same.
              ne (some_inj (sym (subst (λ z. find str_dec z t.entries ≡ some m) same o.0) ∙ has)))
            ∙ o.0,
        in_progress-put_ne t.store n m _ ne ∙ o.1,
      );
    })
