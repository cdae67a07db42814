-- ===== src/Cache/Room.antt =====
-- The loop of `insertLocked` that makes room, against the list of the
-- messages in the order of their arrival.
use spruce.Prelude.{
  ℕ, zero, suc, ◌+◌, ◌≤◌, ◌≡◌, refl, sym, ap, subst, ◌∙◌, ◌⊎◌, inl, inr, true, false, none, List,
  [], ◌∷◌, arith, ltb, Bool-cases, length, Str, str_dec,
}
use spruce.Prelude.Maps.{find}
use spruce.Cache.Slots.{somes}
use spruce.Cache.{Stored, Cache}
use spruce.Cache.Inserts.{drop_oldest, make_space}
use spruce.Cache.Agreement.{Keeps}
use spruce.Cache.Due.{AllDue}
use spruce.Cache.Dropping.{total, evict_oldest, none_after_end, drop_oldest-Dropped}

-- Room for a message has been made.
pub record Roomy (size : ℕ) (c c' : Cache) : Type 0 where
  pub kept : Keeps c'
  pub contents : somes c'.order ≡ evict_oldest c.max_bytes size (somes c.order)
  pub due : AllDue c → AllDue c'
  pub fewer : (id : Str) → find str_dec id c.items ≡ none → find str_dec id c'.items ≡ none
  pub room : c'.bytes + size ≤ c'.max_bytes
  pub limit : c'.max_bytes ≡ c.max_bytes
  pub ordinal : c'.next_ordinal ≡ c.next_ordinal
  pub rejects : c'.reject_pressure ≡ c.reject_pressure

fits-Roomy : (size : ℕ) (c : Cache) → Keeps c → c.bytes + size ≤ c.max_bytes → Roomy size c c
unfolding evict_oldest
fits-Roomy size c k fits = record {
  kept = k;
  contents = whole (somes c.order) k.counted;
  due = λ due. due;
  fewer = λ id h. h;
  room = fits;
  limit = refl;
  ordinal = refl;
  rejects = refl;
}
  where
    whole : (ss : List Stored) → c.bytes ≡ total ss → ss ≡ evict_oldest c.max_bytes size ss
    whole [] e = refl
    whole (s ∷ ss) e = ground arith

empty-bytes : (c : Cache) → Keeps c → somes c.order ≡ [] → c.bytes ≡ 0
empty-bytes c k e = k.counted ∙ ap total e

pub make_space-Roomy :
    (fuel now size : ℕ) (c : Cache)
    → Keeps c
    → size ≤ c.max_bytes
    → length c.order ≤ c.order_head + fuel
    → Roomy size c (make_space fuel now size c)
unfolding make_space
make_space-Roomy zero now size c k small long =
    fits-Roomy size c k (omega (arith, empty-bytes c k (none_after_end c k (omega (arith, long)))))
make_space-Roomy (suc fuel) now size c k small long =
    cases (somes c.order) refl (Bool-cases (ltb c.max_bytes (c.bytes + size)))
      (Bool-cases (ltb c.order_head (length c.order)))
      (λ k' small' long'. make_space-Roomy fuel now size (drop_oldest now c) k' small' long')
  where
    cases :
        (ss : List Stored)
        → somes c.order ≡ ss
        → ((ltb c.max_bytes (c.bytes + size) ≡ true) ⊎ (ltb c.max_bytes (c.bytes + size) ≡ false))
        → ((ltb c.order_head (length c.order) ≡ true) ⊎ (ltb c.order_head (length c.order) ≡ false))
        → (Keeps (drop_oldest now c)
            → size ≤ (drop_oldest now c).max_bytes
            → length (drop_oldest now c).order ≤ (drop_oldest now c).order_head + fuel
            → Roomy size (drop_oldest now c) (make_space fuel now size (drop_oldest now c)))
        → Roomy size c (make_space (suc fuel) now size c)
    cases ss e (inr fits) _ ih = rw (fits, make_space) (fits-Roomy size c k (ground arith))
    cases [] e (inl over) _ ih = absurd (ground (arith, empty-bytes c k e))
    cases (s ∷ ss) e (inl over) (inr past) ih =
        let none_left = none_after_end c k (ground arith) in absurd (cc)
    cases (s ∷ ss) e (inl over) (inl before) ih =
        let d = drop_oldest-Dropped now c s ss k e in
        let r = ih d.kept (rw d.limit small) (omega (arith, long, d.onward, d.length_same)) in
        rw (over, before, make_space)
          (record {
            kept = r.kept;
            contents =
                r.contents
                ∙ ap (λ l. evict_oldest l size (somes (drop_oldest now c).order)) d.limit
                ∙ ap (evict_oldest c.max_bytes size) d.contents
                ∙ step s ss
                    (subst (λ n. ltb c.max_bytes (n + size) ≡ true) (k.counted ∙ ap total e) over)
                ∙ ap (evict_oldest c.max_bytes size) (sym e);
            due = λ due. r.due (d.due due);
            fewer = λ id h. r.fewer id (d.fewer id h);
            room = r.room;
            limit = r.limit ∙ d.limit;
            ordinal = r.ordinal ∙ d.ordinal;
            rejects = r.rejects ∙ d.rejects;
          })
      where
        step :
            (t : Stored) (ts : List Stored)
            → ltb c.max_bytes (total (t ∷ ts) + size) ≡ true
            → evict_oldest c.max_bytes size ts ≡ evict_oldest c.max_bytes size (t ∷ ts)
        step t ts h = unfold evict_oldest in rw h refl
