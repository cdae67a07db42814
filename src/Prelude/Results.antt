-- ===== src/Prelude/Results.antt =====
-- Go's (value, error) pair, and what a successful chain of calls says of its parts.
use mathlib.Core.Bool.{Bool, true, false}
use mathlib.Core.Path.{◌≡◌, refl}

-- Exactly one of the two is set.
pub data Result {ℓ κ} (E : Type ℓ) (A : Type κ) : Type (ℓ ⊔ κ) where
  err : E → Result E A
  ok : A → Result E A

module _ {ℓ} {E : Type ℓ} where
  infixl 5 ◌>>=◌ ◌>>◌
  abbrev pub ◌>>=◌ {κ μ} : {A : Type κ} {B : Type μ} → Result E A → (A → Result E B) → Result E B
  r >>= next = elim r [ err e ↦ err e | ok value ↦ next value ]

  abbrev pub ◌>>◌ {μ} : {B : Type μ} → Result E (Unit {0}) → Result E B → Result E B
  check >> next = elim check [ err e ↦ err e | ok _ ↦ next ]

  -- `if test { return err }`
  abbrev pub fail_if : Bool → E → Result E (Unit {0})
  fail_if test e = elim test [ true ↦ err e | false ↦ ok tt ]

  pub bind_ok {κ μ} :
      {A : Type κ} {B : Type μ} (r : Result E A) (next : A → Result E B) {out : B}
      → (r >>= next) ≡ ok out
      → (value : A) × (r ≡ ok value) × (next value ≡ ok out)
  bind_ok (err e) next p = cc
  bind_ok (ok value) next p = (value, refl, p)

  pub passed {μ} :
      {B : Type μ} (test : Bool) (e : E) (next : Result E B) {out : B}
      → (fail_if test e >> next) ≡ ok out
      → (test ≡ false) × (next ≡ ok out)
  passed false e next p = (refl, p)
  passed true e next p = cc

  pub ok_fst {κ μ} :
      {A : Type κ} {B : Type μ} {a a' : A} {b b' : B}
      → ◌≡◌ {A = Result E (A × B)} (ok (a, b)) (ok (a', b'))
      → a ≡ a'
  ok_fst p = cc
