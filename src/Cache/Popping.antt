-- ===== src/Cache/Popping.antt =====
-- The loop of `expireLocked` over the expiry heap, of internal/broker/broker.go.
use spruce.Prelude.{
  ℕ, zero, suc, ◌≤◌, ◌<◌, ◌≡◌, refl, sym, ap, subst, ◌∙◌, ◌≢◌, ◌⊎◌, inl, inr, false, Option, none,
  some, List, [], ◌∷◌, arith, ℕ_discrete, leb, ◌==◌, Bool-cases, Option-cases, some_inj, leb→le,
  length, Str, str_dec,
}
use spruce.Prelude.Maps.{Map, find, del, find-del_ne, find-del_self}
use spruce.Cache.Slots.{somes, somes-clear, get_elem?-somes}
use spruce.Cache.{Cached, Cache, unlink_expiry, remove_message}
use spruce.Cache.Agreement.{Keeps}
use spruce.Cache.Removal.{take_out-TakenOut}
use spruce.Cache.Due.{Due, AllDue, Member, TakenOut-Due}
use spruce.Cache.Expiry.{next_expiry, remove_due, expire_due}
use spruce.Cache.Expiring.{
  keep_live, keep_live-drop_mid, keep_live-all, next_expiry-least, length-del-lt, next_expiry-none,
}

-- A step of the expiry at this time.
pub record Expiring (now : ℕ) (c c' : Cache) : Type 0 where
  pub kept : Keeps c'
  pub contents : keep_live now (somes c'.order) ≡ keep_live now (somes c.order)
  pub limit : c'.max_bytes ≡ c.max_bytes
  pub ordinal : c'.next_ordinal ≡ c.next_ordinal
  pub rejects : c'.reject_pressure ≡ c.reject_pressure

Expiring-trans : (now : ℕ) (a b c : Cache) → Expiring now a b → Expiring now b c → Expiring now a c
Expiring-trans now a b c p q = record {
  kept = q.kept;
  contents = q.contents ∙ p.contents;
  limit = q.limit ∙ p.limit;
  ordinal = q.ordinal ∙ p.ordinal;
  rejects = q.rejects ∙ p.rejects;
}

-- One message of a popped item is removed.
record Removed (now : ℕ) (id : Str) (c c' : Cache) : Type 0 where
  pub step : Expiring now c c'
  pub expiries : c'.expiries ≡ c.expiries
  pub rest :
      (at : ℕ) (ids : List Str)
      → Due c.items c.expiries at (id ∷ ids)
      → Due c'.items c'.expiries at ids

remove_here :
    (at now : ℕ) (id : Str) (it : Cached) (c : Cache)
    → Keeps c
    → find str_dec id c.items ≡ some it
    → it.stored.message.expires_at ≡ at
    → find ℕ_discrete at c.expiries ≡ none
    → at ≤ now
    → Removed now id c (remove_message at c id false)
unfolding remove_message
remove_here at now id it c k found over popped due =
    let (own, there) = k.placed id it found in
    let out =
      take_out-TakenOut c c.order c.order_head it (ap (λ x. find str_dec x c.items) own ∙ found) k
        (inl refl) (λ i s ne h. k.started i s h) k.inside false in
    let (pre, post, a, b) = somes-clear it.order_index it.stored c.order there in
    rw (found, remove_message)
      (record {
        step = record {
          kept = out.kept;
          contents =
              ap (λ o. keep_live now (somes o)) out.order
              ∙ ap (keep_live now) b
              ∙ sym (keep_live-drop_mid now pre it.stored post (omega (arith, over)))
              ∙ ap (keep_live now) (sym a);
          limit = out.limit;
          ordinal = out.ordinal;
          rejects = out.rejects;
        };
        expiries =
            out.expiries
            ∙ ap (λ t. unlink_expiry t it.stored.message.id c.expiries) over
            ∙ same_expiries (find ℕ_discrete at c.expiries) refl popped;
        rest = λ t ids d.
            TakenOut-Due c _ c.order it t (id ∷ ids) ids out
              (λ j ne m. later j ids (rw (← own) ne) m) d;
      })
  where
    same_expiries :
        (o : Option (List Str))
        → find ℕ_discrete at c.expiries ≡ o
        → o ≡ none
        → unlink_expiry at it.stored.message.id c.expiries ≡ c.expiries
    same_expiries none e h = unfold unlink_expiry in rw (e, unlink_expiry) refl
    same_expiries (some ids) e h = absurd (cc)

    later : (j : Str) (ids : List Str) → j ≢ id → ((id ≡ j) ⊎ Member j ids) → Member j ids
    later j ids ne (inl same) = absurd (ne (sym same))
    later j ids ne (inr m) = m

remove_due-Expiring :
    (at now : ℕ) (ids : List Str) (c : Cache)
    → Keeps c
    → find ℕ_discrete at c.expiries ≡ none
    → at ≤ now
    → Due c.items c.expiries at ids
    → Expiring now c (remove_due at ids c)
      × ((remove_due at ids c).expiries ≡ c.expiries)
      × AllDue (remove_due at ids c)
unfolding remove_due
remove_due-Expiring at now [] c k popped over due = (
  record { kept = k; contents = refl; limit = refl; ordinal = refl; rejects = refl },
  refl,
  λ j jt h. elim (due j jt h) [ inl l ↦ inl l | inr (_, bad) ↦ absurd bad ],
)
remove_due-Expiring at now (id ∷ ids) c k popped over due =
    elim (Option-cases (find str_dec id c.items)) [
      | inl e ↦
          rw (e, remove_due)
            (remove_due-Expiring at now ids c k popped over (skip (λ it f. absurd (clash e f))))
      | inr (it, e) ↦ elim (Bool-cases (it.stored.message.expires_at == at)) [
        | inl same ↦
            let r = remove_here at now id it c k e (ground arith) popped over in
            let (x, y, z) =
              remove_due-Expiring at now ids (remove_message at c id false) r.step.kept
                (ap (find ℕ_discrete at) r.expiries ∙ popped) over (r.rest at ids due) in
            rw (e, same, remove_due) (Expiring-trans now c _ _ r.step x, y ∙ r.expiries, z)
        | inr other ↦
            rw (e, other, remove_due)
              (remove_due-Expiring at now ids c k popped over
                (skip (λ jt f t. never it jt other (some_inj (sym e ∙ f)) t)))
      ]
    ]
  where
    clash : {jt : Cached} → find str_dec id c.items ≡ none → find str_dec id c.items ≢ some jt
    clash a b = cc

    never :
        (it jt : Cached)
        → (it.stored.message.expires_at == at) ≡ false
        → it ≡ jt
        → jt.stored.message.expires_at ≢ at
    never it jt other same t =
        let t' : it.stored.message.expires_at ≡ at =
          ap (λ x. x.stored.message.expires_at) same ∙ t in
        ground arith

    skip :
        ((jt : Cached) → find str_dec id c.items ≡ some jt → jt.stored.message.expires_at ≢ at)
        → Due c.items c.expiries at ids
    skip none_here j jt h = elim (due j jt h) [
      | inl l ↦ inl l
      | inr (t, inr m) ↦ inr (t, m)
      | inr (t, inl same) ↦ absurd (none_here jt (ap (λ x. find str_dec x c.items) same ∙ h) t)
    ]

-- No item of the heap is due.
abbrev Quiet : ℕ → Cache → Type 0
Quiet now c = (t : ℕ) (ids : List Str) → find ℕ_discrete t c.expiries ≡ some ids → now < t

pub expire_due-Expiring :
    (fuel now : ℕ) (c : Cache)
    → length c.expiries ≤ fuel
    → Keeps c
    → AllDue c
    → Expiring now c (expire_due fuel now c)
      × AllDue (expire_due fuel now c)
      × Quiet now (expire_due fuel now c)
unfolding expire_due
expire_due-Expiring zero now c short k due = (
  record { kept = k; contents = refl; limit = refl; ordinal = refl; rejects = refl },
  due,
  λ t ids f. absurd (empty c.expiries short t ids f),
)
  where
    empty :
        (m : Map ℕ (List Str))
        → length m ≤ 0
        → (t : ℕ) (ids : List Str) → find ℕ_discrete t m ≢ some ids
    empty [] h t ids f = unfold find in absurd (cc)
    empty (x ∷ xs) h t ids f = absurd (omega arith)
expire_due-Expiring (suc fuel) now c short k due = elim (Option-cases (next_expiry c.expiries)) [
  | inl e ↦
      rw (e, expire_due)
        (
          record { kept = k; contents = refl; limit = refl; ordinal = refl; rejects = refl },
          due,
          λ t ids f. absurd (next_expiry-none t ids c.expiries e f),
        )
  | inr (top, e) ↦
      let (found, least) = next_expiry-least c.expiries top e in
      elim (Bool-cases (leb top.0 now)) [
        | inr later ↦
            rw (e, later, expire_due)
              (
                record { kept = k; contents = refl; limit = refl; ordinal = refl; rejects = refl },
                due,
                λ t ids f. let b = least t ids f in ground arith,
              )
        | inl over ↦
            let popped : Cache = record c { expiries = del ℕ_discrete top.0 c.expiries } in
            let (x, y, z) =
              remove_due-Expiring top.0 now top.1 popped k
                (find-del_self ℕ_discrete top.0 c.expiries) (leb→le _ _ over)
                (open_due top found) in
            let (p, q, r) =
              expire_due-Expiring fuel now (remove_due top.0 top.1 popped)
                (omega (arith, short, ap length y, length-del-lt top.0 top.1 c.expiries found))
                x.kept z in
            rw (e, over, expire_due) (Expiring-trans now c _ _ (from_popped top x) p, q, r)
      ]
]
  where
    from_popped :
        (top : ℕ × List Str) {d : Cache}
        → Expiring now (record c { expiries = del ℕ_discrete top.0 c.expiries }) d
        → Expiring now c d
    from_popped top x = record {
      kept = x.kept;
      contents = x.contents;
      limit = x.limit;
      ordinal = x.ordinal;
      rejects = x.rejects;
    }

    open_due :
        (top : ℕ × List Str)
        → find ℕ_discrete top.0 c.expiries ≡ some top.1
        → Due c.items (del ℕ_discrete top.0 c.expiries) top.0 top.1
    open_due top found j jt h = elim (due j jt h) [
      | inr (_, bad) ↦ absurd bad
      | inl (ids, f, m) ↦ elim (ℕ_discrete jt.stored.message.expires_at top.0) [
        | yes same ↦
            let ids_same : ids ≡ top.1 =
              some_inj (sym f ∙ ap (λ t. find ℕ_discrete t c.expiries) same ∙ found) in
            inr (same, subst (Member j) ids_same m)
        | no ne ↦ inl (ids, find-del_ne ℕ_discrete top.0 _ c.expiries ne ∙ f, m)
      ]
    ]

-- Once nothing is due, what is held is live.
pub Quiet-live :
    (now : ℕ) (c : Cache)
    → Keeps c
    → AllDue c
    → Quiet now c
    → keep_live now (somes c.order) ≡ somes c.order
Quiet-live now c k due quiet = keep_live-all now (somes c.order) λ n s h.
    let (i, a) = get_elem?-somes n s c.order h in
    let (it, f, same, _) = k.held i s a in
    elim (due s.message.id it f) [
      | inl (ids, g, m) ↦ subst (λ x. now < x.message.expires_at) same (quiet _ ids g)
      | inr (_, bad) ↦ absurd bad
    ]
