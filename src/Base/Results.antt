-- ===== src/Base/Results.antt =====
-- Rust's `Result<A, E>`, the `?` operator as bind, and the inversion of a successful chain.
use mathlib.Core.Path.{◌≡◌, refl}
use mathlib.Core.Logic.{◌⊎◌, inl, inr}
use mathlib.Core.Option.{Option, none, some}

pub data Result {ℓ} (E : Type 0) (A : Type ℓ) : Type ℓ where
  ok : A → Result E A
  err : E → Result E A

module _ {E : Type 0} where
  pub Result-cases {ℓ} :
      {A : Type ℓ} (r : Result E A) → ((a : A) × (r ≡ ok a)) ⊎ ((e : E) × (r ≡ err e))
  Result-cases (err e) = inr (e, refl)
  Result-cases (ok a) = inl (a, refl)

  pub ok_inj {ℓ} : {A : Type ℓ} {a b : A} → ◌≡◌ {A = Result E A} (ok a) (ok b) → a ≡ b
  ok_inj h = cc

  -- `map_err` of the standard library.
  abbrev pub map_err {ℓ} : {F : Type 0} {A : Type ℓ} → (E → F) → Result E A → Result F A
  map_err change (err e) = err (change e)
  map_err change (ok a) = ok a

  module _ {ℓ κ} {A : Type ℓ} {B : Type κ} where
    infixl 5 ◌>>=◌
    abbrev pub ◌>>=◌ : Result E A → (A → Result E B) → Result E B
    err e >>= next = err e
    ok a >>= next = next a

    pub >>=-eq-ok :
        (first : Result E A) (next : A → Result E B) {b : B}
        → (first >>= next) ≡ ok b
        → (a : A) × (first ≡ ok a) × (next a ≡ ok b)
    >>=-eq-ok (err e) next h = cc
    >>=-eq-ok (ok a) next h = (a, refl, h)

  infixl 5 ◌>>◌
  abbrev pub ◌>>◌ {κ} : {B : Type κ} → Result E (Unit {0}) → Result E B → Result E B
  check >> next = check >>= λ _. next

pub Option-cases {ℓ} : {A : Type ℓ} (o : Option A) → (o ≡ none) ⊎ ((a : A) × (o ≡ some a))
Option-cases (some a) = inr (a, refl)
Option-cases none = inl refl
