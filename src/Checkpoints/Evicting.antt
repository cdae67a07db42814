-- ===== src/Checkpoints/Evicting.antt =====
-- The invariant of the checkpoint table, and eviction under it.
use spruce.Prelude.{
  ℕ, ◌≤◌, ◌≡◌, refl, subst, inl, inr, if_pos, some, List, [], ◌∷◌, arith, ltb, ◌==◌, Bool-cases,
  length,
}
use spruce.Prelude.Maps.{Map, Distinct, length-del, find, del-Distinct}
use spruce.Checkpoints.{Key, key_dec, OrderEntry, Table, expiry, evict_one, evict}
use spruce.Checkpoints.Order.{Ordered, delete-Ordered, find_of_expiry, skip-Ordered}

pub record Valid (t : Table) : Type 0 where
  pub distinct : Distinct key_dec t.entries
  pub counted : t.count ≡ length t.entries
  pub ordered : Ordered t.entries t.order

pub evict_one-Valid :
    (t : Table) (o : OrderEntry) (rest : List OrderEntry)
    → Valid t
    → t.order ≡ o ∷ rest
    → Valid (evict_one t o rest) × ((evict_one t o rest).order ≡ rest)
unfolding evict_one
evict_one-Valid t o rest v e =
    let ord = subst (Ordered t.entries) e v.ordered in
    elim (Bool-cases (expiry t.entries o.key == o.expires_at)) [
      | inl hit ↦
          let eq : expiry t.entries o.key ≡ o.expires_at = ground arith in
          let found = find_of_expiry o.key t.entries o.expires_at eq ord.positive.0 in
          rw (hit, evict_one)
            (
              record {
                distinct = del-Distinct key_dec o.key t.entries v.distinct;
                counted = omega (
                  arith,
                  v.counted,
                  length-del key_dec o.key o.expires_at t.entries v.distinct found,
                );
                ordered = (delete-Ordered t.entries [] rest o ord tt eq).0;
              },
              refl,
            )
      | inr miss ↦
          rw (miss, evict_one)
            (
              record {
                distinct = v.distinct;
                counted = v.counted;
                ordered = skip-Ordered t.entries [] rest o ord (ground arith);
              },
              refl,
            )
    ]

no_entries : (m : Map Key ℕ) → ((k : Key) (e : ℕ) → find key_dec k m ≡ some e → ⊥) → length m ≡ 0
unfolding find
no_entries [] none_found = refl
no_entries (x ∷ m) none_found = absurd (none_found x.0 x.1 (if_pos (key_dec x.0 x.0) refl _ _))

pub evict-Valid :
    (limit : ℕ) (os : List OrderEntry) (t : Table)
    → Valid t
    → t.order ≡ os
    → Valid (evict limit os t) × ((evict limit os t).count ≤ limit)
unfolding evict
evict-Valid limit [] t v e = (
  v,
  omega (arith, v.counted, no_entries t.entries (subst (Ordered t.entries) e v.ordered).covered),
)
evict-Valid limit (o ∷ os) t v e = elim (Bool-cases (ltb limit t.count)) [
  | inl more ↦
      let (v', e') = evict_one-Valid t o os v e in
      rw more (evict-Valid limit os (evict_one t o os) v' e')
  | inr done ↦ rw done (v, ground arith)
]
