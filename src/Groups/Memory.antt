-- ===== src/Groups/Memory.antt =====
-- The memory that the group indexes are charged with, and what an admission leaves behind.
use spruce.Prelude.{
  ℕ, ◌+◌, ◌≤◌, ◌≡◌, refl, ◌⊎◌, inl, inr, ite, if_pos, Bool, true, false, ◌&&◌, none, List, [], ◌∷◌,
  arith, if◌then◌else◌, Bool-cases, Option-cases, All, sum_by, Str, str_dec,
}
use spruce.Prelude.Maps.{Map, Distinct, find, put, find-put, put-Distinct, sum_by-put_new}
use spruce.Message.{Message}
use spruce.Groups.Lanes.{add_work-ValidGroup}
use spruce.Groups.LaneShape.{ValidGroup}
use spruce.Groups.{
  Work, Group, work_charge, missing, wants, add_work, charge_groups, charge_messages, add_groups,
  add_messages,
}

abbrev pub work_memory : Map Str Work → ℕ
work_memory = sum_by (λ e. e.1.charge)

abbrev pub memory_of : List Group → ℕ
memory_of = sum_by (λ g. g.charge + work_memory g.work)

abbrev pub AllDistinct : List Group → Type 0
AllDistinct = All (λ g. Distinct str_dec g.work)

wants-new :
    (active : Str → Str → Str → Bool) (only : Str) (g : Group) (m : Message)
    → wants active only g m ≡ true
    → find str_dec m.id g.work ≡ none
unfolding wants missing
wants-new active only g m h = elim (Option-cases (find str_dec m.id g.work)) [
  | inl e ↦ e
  | inr (w, e) ↦ absurd (ground arith)
]

work_memory-add_work :
    (g : Group) (m : Message)
    → find str_dec m.id g.work ≡ none
    → work_memory (add_work g m).work ≡ work_memory g.work + work_charge m
unfolding add_work
work_memory-add_work g m new = sum_by-put_new str_dec (λ e. e.1.charge) m.id _ g.work new

missing-put :
    (id j : Str) (w : Work) (work : Map Str Work)
    → missing j (put str_dec id w work) ≡ ite (str_dec j id) false (missing j work)
unfolding missing
missing-put id j w work = ground (arith, find-put str_dec id j w work)

-- An entry that is made does not make another one wanted.
wants-add_work :
    (active : Str → Str → Str → Bool) (only : Str) (g : Group) (m n : Message)
    → wants active only g m ≡ false
    → wants active only (add_work g n) m ≡ false
unfolding wants add_work
wants-add_work active only g m n h =
    rw (missing-put n.id m.id _ g.work) (cases _ _ (str_dec m.id n.id) h)
  where
    cases :
        (a b : Bool) (d : Dec (m.id ≡ n.id))
        → (a && missing m.id g.work && b) ≡ false
        → (a && ite d false (missing m.id g.work) && b) ≡ false
    cases a b (yes e) k = ground arith
    cases a b (no ne) k = k

wants-add_work_self :
    (active : Str → Str → Str → Bool) (only : Str) (g : Group) (m : Message)
    → wants active only (add_work g m) m ≡ false
unfolding wants add_work
wants-add_work_self active only g m =
    rw (missing-put m.id m.id _ g.work, if_pos (str_dec m.id m.id) refl false (missing m.id g.work))
      (ground arith)

module _ (active : Str → Str → Str → Bool) (only : Str) where
  abbrev pub Served : Message → List Group → Type 0
  Served m = All (λ g. wants active only g m ≡ false)

  -- What one message does to the groups.
  pub record Added (gs : List Group) (m : Message) (r : List Group × ℕ) : Type 0 where
    pub charged : memory_of r.0 ≡ memory_of gs + r.1
    pub exact : r.1 ≡ charge_groups active only gs m
    pub served : Served m r.0
    pub still : (n : Message) → Served n gs → Served n r.0
    pub less : (n : Message) → charge_groups active only r.0 n ≤ charge_groups active only gs n
    pub distinct : AllDistinct gs → AllDistinct r.0
    pub valid : All ValidGroup gs → All ValidGroup r.0

  add_groups-Added : (gs : List Group) (m : Message) → Added gs m (add_groups active only gs m)
  unfolding add_groups charge_groups
  add_groups-Added [] m = record {
    charged = refl;
    exact = refl;
    served = tt;
    still = λ n s. tt;
    less = λ n. omega arith;
    distinct = λ d. d;
    valid = λ v. v;
  }
  add_groups-Added (g ∷ gs) m = step (add_groups-Added gs m) (Bool-cases (wants active only g m))
    where
      less_one :
          (g' : Group) (n : Message) (x y : ℕ)
          → (wants active only g n ≡ false → wants active only g' n ≡ false)
          → x ≤ y
          → (if wants active only g' n then work_charge n else 0) + x
            ≤ (if wants active only g n then work_charge n else 0) + y
      less_one g' n x y keep le = ground (arith, keep)

      step :
          Added gs m (add_groups active only gs m)
          → ((wants active only g m ≡ true) ⊎ (wants active only g m ≡ false))
          → Added (g ∷ gs) m (add_groups active only (g ∷ gs) m)
      step ih (inr e) = rw e (record {
        charged = omega (arith, ih.charged);
        exact = ground (arith, ih.exact, e);
        served = (e, ih.served);
        still = λ n s. (s.0, ih.still n s.1);
        less = λ n. omega (arith, ih.less n);
        distinct = λ d. (d.0, ih.distinct d.1);
        valid = λ v. (v.0, ih.valid v.1);
      })
      step ih (inl e) =
          let new = wants-new active only g m e in
          rw e (record {
            charged = omega (arith, ih.charged, work_memory-add_work g m new, same_charge g m);
            exact = ground (arith, ih.exact, e);
            served = (wants-add_work_self active only g m, ih.served);
            still = λ n s. (wants-add_work active only g n m s.0, ih.still n s.1);
            less =
                λ n. less_one (add_work g m) n _ _ (wants-add_work active only g n m) (ih.less n);
            distinct = λ d. (distinct_add g m d.0, ih.distinct d.1);
            valid = λ v. (add_work-ValidGroup g m new v.0, ih.valid v.1);
          })
        where
          same_charge : (g : Group) (m : Message) → (add_work g m).charge ≡ g.charge
          same_charge g m = unfold add_work in refl

          distinct_add :
              (g : Group) (m : Message)
              → Distinct str_dec g.work
              → Distinct str_dec (add_work g m).work
          distinct_add g m d = unfold add_work in put-Distinct str_dec m.id _ g.work d

  -- What a list of messages does to the groups.
  pub record AddedAll (gs : List Group) (ms : List Message) (r : List Group × ℕ) : Type 0 where
    pub charged : memory_of r.0 ≡ memory_of gs + r.1
    pub bounded : r.1 ≤ charge_messages active only gs ms
    pub served : All (λ m. Served m r.0) ms
    pub still : (n : Message) → Served n gs → Served n r.0
    pub distinct : AllDistinct gs → AllDistinct r.0
    pub valid : All ValidGroup gs → All ValidGroup r.0

  charge_messages-le :
      (gs gs' : List Group)
      → ((n : Message) → charge_groups active only gs' n ≤ charge_groups active only gs n)
      → (ms : List Message) → charge_messages active only gs' ms ≤ charge_messages active only gs ms
  unfolding charge_messages
  charge_messages-le gs gs' h [] = omega arith
  charge_messages-le gs gs' h (m ∷ ms) = omega (arith, h m, charge_messages-le gs gs' h ms)

  pub add_messages-AddedAll :
      (gs : List Group) (ms : List Message) → AddedAll gs ms (add_messages active only gs ms)
  unfolding add_messages charge_messages
  add_messages-AddedAll gs [] = record {
    charged = omega arith;
    bounded = omega arith;
    served = tt;
    still = λ n s. s;
    distinct = λ d. d;
    valid = λ v. v;
  }
  add_messages-AddedAll gs (m ∷ ms) =
      let gs' = (add_groups active only gs m).0 in
      let first = add_groups-Added gs m in
      let rest = add_messages-AddedAll gs' ms in
      record {
        charged = omega (arith, first.charged, rest.charged);
        bounded = omega (arith, first.exact, rest.bounded, charge_messages-le gs gs' first.less ms);
        served = (rest.still m first.served, rest.served);
        still = λ n s. rest.still n (first.still n s);
        distinct = λ d. rest.distinct (first.distinct d);
        valid = λ v. rest.valid (first.valid v);
      }
