-- ===== src/Prelude/Maps.antt =====
-- A Go map as an association list: the order of the list is the order in which `range` meets the
-- entries. A write to a key that is there replaces its value, and any other goes to the end.
use Prim.Native.Nat.{ℕ, ◌+◌, ◌≤◌}
use mathlib.Core.List.{List, [], ◌∷◌, ◌++◌}
use mathlib.Core.Logic.{◌≢◌, ◌⊎◌, inl, inr, ite, if_pos, if_neg}
use mathlib.Core.Option.{Option, none, some}
use mathlib.Core.Path.{◌≡◌, refl, sym, subst, ◌∙◌}
use native.Mathlib.Omega.{arith}
use spruce.Prelude.Lists.{length, sum_by}

abbrev pub Map {ℓ} : Type ℓ → Type ℓ → Type ℓ
Map K V = List (K × V)

module _ {ℓ} {K V : Type ℓ} (dec : Discrete K) where
  unfoldable pub find : K → Map K V → Option V
  find k [] = none
  find k (e ∷ m) = ite (dec k e.0) (some e.1) (find k m)

  unfoldable pub put : K → V → Map K V → Map K V
  put k v [] = (k, v) ∷ []
  put k v (e ∷ m) = ite (dec k e.0) ((k, v) ∷ m) (e ∷ put k v m)

  unfoldable pub del : K → Map K V → Map K V
  del k [] = []
  del k (e ∷ m) = ite (dec k e.0) (del k m) (e ∷ del k m)

  pub find-put :
      (k j : K) (v : V) (m : Map K V) → find j (put k v m) ≡ ite (dec j k) (some v) (find j m)
  unfolding find put
  find-put k j v [] = refl
  find-put k j v (e ∷ m) = ground (arith, find-put k j v m)

  pub find-put_self : (k : K) (v : V) (m : Map K V) → find k (put k v m) ≡ some v
  find-put_self k v m = rw (find-put k k v m) (if_pos (dec k k) refl _ _)

  pub find-put_ne : (k j : K) (v : V) (m : Map K V) → j ≢ k → find j (put k v m) ≡ find j m
  find-put_ne k j v m h = rw (find-put k j v m) (if_neg (dec j k) h _ _)

  pub found-put :
      (k j : K) (v w : V) (m : Map K V)
      → find j (put k v m) ≡ some w
      → ((j ≡ k) × (w ≡ v)) ⊎ ((j ≢ k) × (find j m ≡ some w))
  found-put k j v w m h = cases (dec j k) (rw (find-put k j v m) at h)
    where
      cases :
          (d : Dec (j ≡ k))
          → ite d (some v) (find j m) ≡ some w
          → ((j ≡ k) × (w ≡ v)) ⊎ ((j ≢ k) × (find j m ≡ some w))
      cases (yes e) h = inl (e, cc)
      cases (no ne) h = inr (ne, h)

  pub find-del_self : (k : K) (m : Map K V) → find k (del k m) ≡ none
  unfolding find del
  find-del_self k [] = refl
  find-del_self k (e ∷ m) = ground (arith, find-del_self k m)

  pub find-del_ne : (k j : K) (m : Map K V) → j ≢ k → find j (del k m) ≡ find j m
  unfolding find del
  find-del_ne k j [] h = refl
  find-del_ne k j (e ∷ m) h = ground (arith, find-del_ne k j m h)

  pub found-del :
      (k j : K) (w : V) (m : Map K V) → find j (del k m) ≡ some w → (j ≢ k) × (find j m ≡ some w)
  found-del k j w m h = elim (dec j k) [
    | yes e ↦ absurd (clash (find-del_self k m) (subst (λ x. find x (del k m) ≡ some w) e h))
    | no ne ↦ (ne, sym (find-del_ne k j m ne) ∙ h)
  ]
    where
      clash : {o : Option V} → o ≡ none → o ≡ some w → ⊥
      clash a b = cc

  -- No key twice.
  abbrev pub Distinct : Map K V → Type ℓ
  Distinct [] = Unit {ℓ}
  Distinct (e ∷ m) = (find e.0 m ≡ none) × Distinct m

  pub put-Distinct : (k : K) (v : V) (m : Map K V) → Distinct m → Distinct (put k v m)
  unfolding put find
  put-Distinct k v [] h = (refl, tt)
  put-Distinct k v (e ∷ m) h = ground (arith, find-put k e.0 v m, put-Distinct k v m h.1)

  ne_of_find-append : (j k : K) (v : V) (m n : Map K V) → find j (m ++ ((k, v) ∷ n)) ≡ none → j ≢ k
  unfolding find
  ne_of_find-append j k v [] n h = λ e. ground arith
  ne_of_find-append j k v (e ∷ m) n h = ne_of_find-append j k v m n (ground arith)

  pub Distinct-append_find :
      (k : K) (v : V) (m n : Map K V) → Distinct (m ++ ((k, v) ∷ n)) → find k m ≡ none
  unfolding find
  Distinct-append_find k v [] n h = refl
  Distinct-append_find k v (e ∷ m) n h =
      ground (arith, ne_of_find-append e.0 k v m n h.0, Distinct-append_find k v m n h.1)

  pub put_new : (k : K) (v : V) (m : Map K V) → find k m ≡ none → put k v m ≡ m ++ ((k, v) ∷ [])
  unfolding find put
  put_new k v [] h = refl
  put_new k v (e ∷ m) h = ground (arith, put_new k v m)

  pub del_absent : (k : K) (m : Map K V) → find k m ≡ none → del k m ≡ m
  unfolding find del
  del_absent k [] h = refl
  del_absent k (e ∷ m) h = ground (arith, del_absent k m)

  pub find-del_absent : (k j : K) (m : Map K V) → find j m ≡ none → find j (del k m) ≡ none
  unfolding find del
  find-del_absent k j [] h = refl
  find-del_absent k j (e ∷ m) h = ground (arith, find-del_absent k j m)

  pub del-Distinct : (k : K) (m : Map K V) → Distinct m → Distinct (del k m)
  unfolding del
  del-Distinct k [] h = tt
  del-Distinct k (e ∷ m) h = ground (arith, find-del_absent k e.0 m h.0, del-Distinct k m h.1)

  pub length-put-le : (k : K) (v : V) (m : Map K V) → length (put k v m) ≤ length m + 1
  unfolding put
  length-put-le k v [] = omega arith
  length-put-le k v (e ∷ m) = ground (arith, length-put-le k v m)

  pub length-del-le : (k : K) (m : Map K V) → length (del k m) ≤ length m
  unfolding del
  length-del-le k [] = omega arith
  length-del-le k (e ∷ m) = ground (arith, length-del-le k m)

  pub length-put_new :
      (k : K) (v : V) (m : Map K V) → find k m ≡ none → length (put k v m) ≡ length m + 1
  unfolding find put
  length-put_new k v [] h = refl
  length-put_new k v (e ∷ m) h = ground (arith, length-put_new k v m)

  pub length-put_old :
      (k : K) (v w : V) (m : Map K V) → find k m ≡ some w → length (put k v m) ≡ length m
  unfolding find put
  length-put_old k v w [] h = absurd (cc)
  length-put_old k v w (e ∷ m) h = ground (arith, length-put_old k v w m)

  pub length-del :
      (k : K) (w : V) (m : Map K V)
      → Distinct m
      → find k m ≡ some w
      → length (del k m) + 1 ≡ length m
  unfolding find del
  length-del k w [] d h = absurd (cc)
  length-del k w (e ∷ m) d h = ground (arith, length-del k w m d.1, del_absent k m)

  module _ (f : K × V → ℕ) where
    pub sum_by-put-le : (k : K) (v : V) (m : Map K V) → sum_by f (put k v m) ≤ sum_by f m + f (k, v)
    unfolding put
    sum_by-put-le k v [] = omega arith
    sum_by-put-le k v (e ∷ m) = ground (arith, sum_by-put-le k v m)

    pub sum_by-put_new :
        (k : K) (v : V) (m : Map K V)
        → find k m ≡ none
        → sum_by f (put k v m) ≡ sum_by f m + f (k, v)
    unfolding find put
    sum_by-put_new k v [] h = omega arith
    sum_by-put_new k v (e ∷ m) h = ground (arith, sum_by-put_new k v m)

    pub sum_by-put_old :
        (k : K) (v w : V) (m : Map K V)
        → find k m ≡ some w
        → sum_by f (put k v m) + f (k, w) ≡ sum_by f m + f (k, v)
    unfolding find put
    sum_by-put_old k v w [] h = absurd (cc)
    sum_by-put_old k v w (e ∷ m) h = ground (arith, sum_by-put_old k v w m)

    pub sum_by-del :
        (k : K) (w : V) (m : Map K V)
        → Distinct m
        → find k m ≡ some w
        → sum_by f (del k m) + f (k, w) ≡ sum_by f m
    unfolding find del
    sum_by-del k w [] d h = absurd (cc)
    sum_by-del k w (e ∷ m) d h = ground (arith, sum_by-del k w m d.1, del_absent k m)
