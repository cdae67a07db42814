-- ===== src/Cache/Dropping.antt =====
-- `dropOldestLocked` of internal/broker/broker.go, against the list of the messages in the order of
-- their arrival.
use spruce.Prelude.{
  ℕ, zero, suc, ◌+◌, ◌-◌, ◌≤◌, ◌<◌, ◌≡◌, sym, ap, subst, ◌∙◌, ◌≢◌, inl, inr, true, none, some, List,
  [], ◌∷◌, arith, ltb, if◌then◌else◌, Option-cases, length, get_elem?, sum_by, Str, str_dec,
}
use spruce.Prelude.Maps.{find}
use spruce.Cache.Slots.{
  somes, clear, length-clear, get_elem?-clear, get_elem?-clear_ne, somes-clear_first,
  somes-clear_none, somes-none, length-le_of_none, get_elem?-lt, lt_of_some,
}
use spruce.Cache.{Stored, Cache, size_of, record_frontier, remove_message}
use spruce.Cache.Inserts.{drop_from, drop_oldest}
use spruce.Cache.Agreement.{Keeps}
use spruce.Cache.Due.{Due, AllDue, TakenOut-AllDue}
use spruce.Cache.Removal.{TakenOut-fewer, record_frontier-Same, take_out-TakenOut}

abbrev pub total : List Stored → ℕ
total = sum_by size_of

-- The oldest messages go until a message of this size fits.
unfoldable pub evict_oldest : ℕ → ℕ → List Stored → List Stored
evict_oldest limit size [] = []
evict_oldest limit size (s ∷ ss) =
    if ltb limit (total (s ∷ ss) + size) then evict_oldest limit size ss else s ∷ ss

-- The oldest message has left.
pub record Dropped (c c' : Cache) (rest : List Stored) : Type 0 where
  pub kept : Keeps c'
  pub contents : somes c'.order ≡ rest
  pub due : AllDue c → AllDue c'
  pub fewer : (id : Str) → find str_dec id c.items ≡ none → find str_dec id c'.items ≡ none
  pub onward : c.order_head < c'.order_head
  pub length_same : length c'.order ≡ length c.order
  pub limit : c'.max_bytes ≡ c.max_bytes
  pub ordinal : c'.next_ordinal ≡ c.next_ordinal
  pub rejects : c'.reject_pressure ≡ c.reject_pressure

-- The head moves past a slot.
abbrev pass : Cache → Cache
pass c = record c {
  order = clear c.order_head c.order;
  order_head = c.order_head + 1;
  tombstones = c.tombstones + 1;
}

-- The oldest message stands at the head.
drop_here :
    (now : ℕ) (c : Cache) (s : Stored)
    → Keeps c
    → get_elem? c.order c.order_head ≡ some (some s)
    → Dropped c (remove_message now (pass c) s.message.id true) (somes (clear c.order_head c.order))
unfolding remove_message
drop_here now c s k here =
    let (it, found, stored, place) = k.held c.order_head s here in
    let c' = record_frontier now (pass c) it.stored.message in
    let same = record_frontier-Same now (pass c) it.stored.message in
    let found' : find str_dec it.stored.message.id c'.items ≡ some it =
      rw same.items (ap (λ x. find str_dec x.message.id c.items) stored ∙ found) in
    let out =
      take_out-TakenOut c' c.order c.order_head it found' (rw (same.items, same.bytes) k)
        (inr (rw place same.order))
        (λ i x ne h.
          rw same.head
            (omega (arith, k.started i x h, λ (e : i ≡ c.order_head). ne (e ∙ sym place))))
        (rw same.head (omega (arith, get_elem?-lt c.order_head s c.order here))) true in
    rw (found, remove_message)
      (record {
        kept = out.kept;
        contents = ap somes (out.order ∙ ap (λ i. clear i c.order) place);
        due = λ due. TakenOut-AllDue c' _ c.order it out (
            subst (λ x. Due x c'.expiries 0 []) (sym same.items)
              (subst (λ x. Due c.items x 0 []) (sym same.expiries) due));
        fewer = λ id missing.
            TakenOut-fewer c' _ c.order it out id (ap (find str_dec id) same.items ∙ missing);
        onward = omega (arith, out.head, same.head);
        length_same = ap length out.order ∙ length-clear it.order_index c.order;
        limit = out.limit ∙ same.limit;
        ordinal = out.ordinal ∙ same.ordinal;
        rejects = out.rejects ∙ same.rejects;
      })

-- The slot at the head is empty.
pass-Keeps : (c : Cache) → Keeps c → get_elem? c.order c.order_head ≡ some none → Keeps (pass c)
pass-Keeps c k empty = record {
  placed = λ id it h.
      let (a, b) = k.placed id it h in
      (a, get_elem?-clear_ne c.order_head it.order_index c.order (λ e. clash e b) ∙ b);
  held = λ i s h. k.held i s (get_elem?-clear c.order_head i s c.order h).1;
  started = λ i s h.
      let (ne, old) = get_elem?-clear c.order_head i s c.order h in
      omega (arith, k.started i s old, ne);
  inside =
      omega (arith, lt_of_some c.order_head none c.order empty, length-clear c.order_head c.order);
  counted = rw (somes-clear_none c.order_head c.order (λ y h. none_clash h)) k.counted;
}
  where
    clash : {i : ℕ} {s : Stored} → i ≡ c.order_head → get_elem? c.order i ≡ some (some s) → ⊥
    clash {i} {s} e h =
        let same : some none ≡ some (some s) = sym empty ∙ ap (get_elem? c.order) (sym e) ∙ h in cc

    none_clash : {s : Stored} → get_elem? c.order c.order_head ≡ some (some s) → ⊥
    none_clash {s} h = let same : some none ≡ some (some s) = sym empty ∙ h in cc

-- Nothing stands past the end.
pub none_after_end : (c : Cache) → Keeps c → length c.order ≤ c.order_head → somes c.order ≡ []
none_after_end c k past =
    somes-none c.order (λ j y h. omega (arith, get_elem?-lt j y c.order h, k.started j y h))

-- The first slot that is not empty holds the oldest message.
oldest_here :
    (c : Cache) (s t : Stored) (ss : List Stored)
    → Keeps c
    → get_elem? c.order c.order_head ≡ some (some t)
    → somes c.order ≡ s ∷ ss
    → somes (clear c.order_head c.order) ≡ ss
oldest_here c s t ss k here all =
    cons_inj (sym (somes-clear_first c.order_head t c.order here k.started) ∙ all)
  where
    cons_inj : {a b : Stored} {xs ys : List Stored} → a ∷ xs ≡ b ∷ ys → xs ≡ ys
    cons_inj e = cc

drop_from-Dropped :
    (fuel now : ℕ) (c : Cache) (s : Stored) (ss : List Stored)
    → length c.order ≤ c.order_head + fuel
    → Keeps c
    → somes c.order ≡ s ∷ ss
    → Dropped c (drop_from fuel now c) ss
unfolding drop_from
drop_from-Dropped zero now c s ss long k all =
    let none_left = none_after_end c k (omega (arith, long)) in absurd (cc)
drop_from-Dropped (suc fuel) now c s ss long k all =
    elim (Option-cases (get_elem? c.order c.order_head)) [
      | inl e ↦
          let none_left = none_after_end c k (length-le_of_none c.order_head c.order e) in
          absurd (cc)
      | inr (none, e) ↦
          let passed = pass-Keeps c k e in
          let d =
            drop_from-Dropped fuel now (pass c) s ss
              (omega (arith, long, length-clear c.order_head c.order)) passed
              (somes-clear_none c.order_head c.order (λ y h. none_clash y e h) ∙ all) in
          rw (e, drop_from)
            (record {
              kept = d.kept;
              contents = d.contents;
              due = d.due;
              fewer = d.fewer;
              onward = omega (arith, d.onward);
              length_same = d.length_same ∙ length-clear c.order_head c.order;
              limit = d.limit;
              ordinal = d.ordinal;
              rejects = d.rejects;
            })
      | inr (some t, e) ↦
          let (it, found, _, _) = k.held c.order_head t e in
          rw (e, found, drop_from)
            (subst (Dropped c _) (oldest_here c s t ss k e all) (drop_here now c t k e))
    ]
  where
    none_clash :
        (y : Stored)
        → get_elem? c.order c.order_head ≡ some none
        → get_elem? c.order c.order_head ≢ some (some y)
    none_clash y a b = cc

-- The oldest message is dropped, where there is one.
pub drop_oldest-Dropped :
    (now : ℕ) (c : Cache) (s : Stored) (ss : List Stored)
    → Keeps c
    → somes c.order ≡ s ∷ ss
    → Dropped c (drop_oldest now c) ss
unfolding drop_oldest
drop_oldest-Dropped now c s ss k all =
    drop_from-Dropped (length c.order - c.order_head) now c s ss (omega arith) k all
