-- ===== src/Cache/Slots.antt =====
-- Slices of pointers in which a removed message leaves nil behind, as `order` and `topics` of the
-- cache of internal/broker/broker.go are kept.
use spruce.Prelude.{
  ℕ, zero, suc, ◌≤◌, ◌<◌, ◌≡◌, refl, ap, ◌≢◌, ◌⊎◌, inl, inr, Option, none, some, List, [], ◌∷◌,
  ◌++◌, map, arith, some_inj, length, get_elem?,
}

abbrev pub Pointers {ℓ} : Type ℓ → Type ℓ
Pointers A = List (Option A)

module _ {ℓ} {A : Type ℓ} where
  -- The messages that are left, in order.
  unfoldable pub somes : Pointers A → List A
  somes [] = []
  somes (none ∷ xs) = somes xs
  somes (some x ∷ xs) = x ∷ somes xs

  -- `order[i] = nil`
  unfoldable pub clear : ℕ → Pointers A → Pointers A
  clear i [] = []
  clear zero (x ∷ xs) = none ∷ xs
  clear (suc i) (x ∷ xs) = x ∷ clear i xs

  pub length-clear : (i : ℕ) (xs : Pointers A) → length (clear i xs) ≡ length xs
  unfolding clear
  length-clear i [] = refl
  length-clear zero (x ∷ xs) = refl
  length-clear (suc i) (x ∷ xs) = omega (arith, length-clear i xs)

  pub get_elem?-clear :
      (i j : ℕ) (x : A) (xs : Pointers A)
      → get_elem? (clear i xs) j ≡ some (some x)
      → (j ≢ i) × (get_elem? xs j ≡ some (some x))
  unfolding clear
  get_elem?-clear i j x [] h = absurd (cc)
  get_elem?-clear zero zero x (y ∷ xs) h = absurd (cc)
  get_elem?-clear zero (suc j) x (y ∷ xs) h = (λ e. absurd (omega (arith, e)), h)
  get_elem?-clear (suc i) zero x (y ∷ xs) h = (λ e. absurd (omega (arith, e)), h)
  get_elem?-clear (suc i) (suc j) x (y ∷ xs) h =
      let (ne, k) = get_elem?-clear i j x xs h in (λ e. ne (omega (arith, e)), k)

  pub get_elem?-clear_ne :
      (i j : ℕ) (xs : Pointers A) → j ≢ i → get_elem? (clear i xs) j ≡ get_elem? xs j
  unfolding clear
  get_elem?-clear_ne i j [] ne = refl
  get_elem?-clear_ne zero zero (y ∷ xs) ne = absurd (ne refl)
  get_elem?-clear_ne zero (suc j) (y ∷ xs) ne = refl
  get_elem?-clear_ne (suc i) zero (y ∷ xs) ne = refl
  get_elem?-clear_ne (suc i) (suc j) (y ∷ xs) ne =
      get_elem?-clear_ne i j xs (λ e. ne (omega (arith, e)))

  -- The slots around one that is filled: what is left of them, with it and without.
  pub somes-clear :
      (i : ℕ) (x : A) (xs : Pointers A)
      → get_elem? xs i ≡ some (some x)
      → (pre : List A) × (post : List A) × (somes xs ≡ pre ++ (x ∷ post))
        × (somes (clear i xs) ≡ pre ++ post)
  unfolding clear somes
  somes-clear i x [] h = absurd (cc)
  somes-clear zero x (none ∷ xs) h = absurd (cc)
  somes-clear zero x (some y ∷ xs) h = ([], somes xs, cc, refl)
  somes-clear (suc i) x (none ∷ xs) h = somes-clear i x xs h
  somes-clear (suc i) x (some y ∷ xs) h =
      let (pre, post, a, b) = somes-clear i x xs h in (y ∷ pre, post, ap (◌∷◌ y) a, ap (◌∷◌ y) b)

  -- Where the slots before one that is filled are empty, it is the first of what is left.
  pub somes-clear_first :
      (i : ℕ) (x : A) (xs : Pointers A)
      → get_elem? xs i ≡ some (some x)
      → ((j : ℕ) (y : A) → get_elem? xs j ≡ some (some y) → i ≤ j)
      → somes xs ≡ x ∷ somes (clear i xs)
  unfolding clear somes
  somes-clear_first i x [] h first = absurd (cc)
  somes-clear_first zero x (none ∷ xs) h first = absurd (cc)
  somes-clear_first zero x (some y ∷ xs) h first = cc
  somes-clear_first (suc i) x (none ∷ xs) h first =
      somes-clear_first i x xs h (λ j y k. omega (arith, first (suc j) y k))
  somes-clear_first (suc i) x (some y ∷ xs) h first = absurd (omega (arith, first 0 y refl))

  pub somes-clear_none :
      (i : ℕ) (xs : Pointers A)
      → ((y : A) → get_elem? xs i ≢ some (some y))
      → somes (clear i xs) ≡ somes xs
  unfolding clear somes
  somes-clear_none i [] h = refl
  somes-clear_none zero (none ∷ xs) h = refl
  somes-clear_none zero (some y ∷ xs) h = absurd (h y refl)
  somes-clear_none (suc i) (none ∷ xs) h = somes-clear_none i xs h
  somes-clear_none (suc i) (some y ∷ xs) h = ap (◌∷◌ y) (somes-clear_none i xs h)

  pub somes-none :
      (xs : Pointers A) → ((j : ℕ) (y : A) → get_elem? xs j ≢ some (some y)) → somes xs ≡ []
  unfolding somes
  somes-none [] h = refl
  somes-none (none ∷ xs) h = somes-none xs (λ j y. h (suc j) y)
  somes-none (some y ∷ xs) h = absurd (h 0 y refl)

  pub somes-snoc : (xs : Pointers A) (x : A) → somes (xs ++ (some x ∷ [])) ≡ somes xs ++ (x ∷ [])
  unfolding somes
  somes-snoc [] x = refl
  somes-snoc (none ∷ xs) x = somes-snoc xs x
  somes-snoc (some y ∷ xs) x = ap (◌∷◌ y) (somes-snoc xs x)

  pub somes-map : (xs : List A) → somes (map some xs) ≡ xs
  unfolding somes
  somes-map [] = refl
  somes-map (x ∷ xs) = ap (◌∷◌ x) (somes-map xs)

  -- What is left stands in some slot.
  pub get_elem?-somes :
      (j : ℕ) (x : A) (xs : Pointers A)
      → get_elem? (somes xs) j ≡ some x
      → (i : ℕ) × (get_elem? xs i ≡ some (some x))
  unfolding somes
  get_elem?-somes j x [] h = absurd (cc)
  get_elem?-somes j x (none ∷ xs) h = let (i, k) = get_elem?-somes j x xs h in (suc i, k)
  get_elem?-somes zero x (some y ∷ xs) h = (0, ap some h)
  get_elem?-somes (suc j) x (some y ∷ xs) h = let (i, k) = get_elem?-somes j x xs h in (suc i, k)

  pub get_elem?-snoc :
      (j : ℕ) (y x : A) (xs : Pointers A)
      → get_elem? (xs ++ (some y ∷ [])) j ≡ some (some x)
      → (get_elem? xs j ≡ some (some x)) ⊎ ((j ≡ length xs) × (x ≡ y))
  get_elem?-snoc zero y x [] h = inr (refl, cc)
  get_elem?-snoc (suc j) y x [] h = absurd (cc)
  get_elem?-snoc zero y x (z ∷ xs) h = inl h
  get_elem?-snoc (suc j) y x (z ∷ xs) h = elim (get_elem?-snoc j y x xs h) [
    | inl k ↦ inl k
    | inr (e, k) ↦ inr (ap suc e, k)
  ]

  pub get_elem?-append :
      (j : ℕ) (x : A) (xs ys : Pointers A)
      → get_elem? xs j ≡ some (some x)
      → get_elem? (xs ++ ys) j ≡ some (some x)
  get_elem?-append j x [] ys h = absurd (cc)
  get_elem?-append zero x (z ∷ xs) ys h = h
  get_elem?-append (suc j) x (z ∷ xs) ys h = get_elem?-append j x xs ys h

  pub get_elem?-last :
      (y : A) (xs : Pointers A) → get_elem? (xs ++ (some y ∷ [])) (length xs) ≡ some (some y)
  get_elem?-last y [] = refl
  get_elem?-last y (z ∷ xs) = get_elem?-last y xs

  pub get_elem?-lt :
      (j : ℕ) (x : A) (xs : Pointers A) → get_elem? xs j ≡ some (some x) → j < length xs
  get_elem?-lt j x [] h = absurd (cc)
  get_elem?-lt zero x (z ∷ xs) h = omega arith
  get_elem?-lt (suc j) x (z ∷ xs) h = omega (arith, get_elem?-lt j x xs h)

  pub length-le_of_none : (i : ℕ) (xs : Pointers A) → get_elem? xs i ≡ none → length xs ≤ i
  length-le_of_none i [] h = omega arith
  length-le_of_none zero (z ∷ xs) h = absurd (cc)
  length-le_of_none (suc i) (z ∷ xs) h = omega (arith, length-le_of_none i xs h)

  pub get_elem?-clear_self :
      (i : ℕ) (x : A) (xs : Pointers A)
      → get_elem? xs i ≡ some (some x)
      → get_elem? (clear i xs) i ≡ some none
  unfolding clear
  get_elem?-clear_self i x [] h = absurd (cc)
  get_elem?-clear_self zero x (z ∷ xs) h = refl
  get_elem?-clear_self (suc i) x (z ∷ xs) h = get_elem?-clear_self i x xs h

  pub lt_of_some :
      (j : ℕ) (x : Option A) (xs : Pointers A) → get_elem? xs j ≡ some x → j < length xs
  lt_of_some j x [] h = absurd (cc)
  lt_of_some zero x (z ∷ xs) h = omega arith
  lt_of_some (suc j) x (z ∷ xs) h = omega (arith, lt_of_some j x xs h)

  -- A filled slot is somewhere in what is left.
  pub somes-get_elem? :
      (i : ℕ) (x : A) (xs : Pointers A)
      → get_elem? xs i ≡ some (some x)
      → (k : ℕ) × (get_elem? (somes xs) k ≡ some x)
  unfolding somes
  somes-get_elem? i x [] h = absurd (cc)
  somes-get_elem? zero x (none ∷ xs) h = absurd (cc)
  somes-get_elem? zero x (some y ∷ xs) h = (0, some_inj h)
  somes-get_elem? (suc i) x (none ∷ xs) h = somes-get_elem? i x xs h
  somes-get_elem? (suc i) x (some y ∷ xs) h = let (k, e) = somes-get_elem? i x xs h in (suc k, e)

  pub get_elem?-map-some :
      (i : ℕ) (x : A) (xs : List A)
      → get_elem? xs i ≡ some x
      → get_elem? (map some xs) i ≡ some (some x)
  get_elem?-map-some i x [] h = absurd (cc)
  get_elem?-map-some zero x (y ∷ xs) h = ap some h
  get_elem?-map-some (suc i) x (y ∷ xs) h = get_elem?-map-some i x xs h

  pub map-some-get_elem? :
      (i : ℕ) (x : A) (xs : List A)
      → get_elem? (map some xs) i ≡ some (some x)
      → get_elem? xs i ≡ some x
  map-some-get_elem? i x [] h = absurd (cc)
  map-some-get_elem? zero x (y ∷ xs) h = some_inj h
  map-some-get_elem? (suc i) x (y ∷ xs) h = map-some-get_elem? i x xs h
