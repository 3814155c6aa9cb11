-- ===== src/Base/Ordered.antt =====
-- Total orders as comparison functions, and the lexicographic order that Rust derives for `Vec`.
use Prim.Native.Nat.{compare, Ordering}
use mathlib.Core.Path.{◌≡◌, refl}
use mathlib.Core.Logic.{◌⊎◌, inl, inr}
use mathlib.Core.List.{List, [], ◌∷◌, ◌++◌}
use native.Mathlib.Omega.{arith}

-- `Ordering::reverse` and `Ordering::then`.
abbrev pub reverse : Ordering → Ordering
reverse Ordering.lt = Ordering.gt
reverse Ordering.eq = Ordering.eq
reverse Ordering.gt = Ordering.lt

abbrev pub then_cmp : Ordering → Ordering → Ordering
then_cmp Ordering.lt k = Ordering.lt
then_cmp Ordering.eq k = k
then_cmp Ordering.gt k = Ordering.gt

pub Ordering-cases : (o : Ordering) → (o ≡ Ordering.lt) ⊎ (o ≡ Ordering.eq) ⊎ (o ≡ Ordering.gt)
Ordering-cases Ordering.lt = inl refl
Ordering-cases Ordering.eq = inr (inl refl)
Ordering-cases Ordering.gt = inr (inr refl)

-- What makes a comparison function a total order whose equality is `≡`.
pub record IsOrder {ℓ} {A : Type ℓ} (cmp : A → A → Ordering) : Type ℓ where
  pub self : (a : A) → cmp a a ≡ Ordering.eq
  pub antisym : (a b : A) → cmp a b ≡ Ordering.eq → a ≡ b
  pub flip : (a b : A) → cmp b a ≡ reverse (cmp a b)
  pub trans : (a b c : A) → cmp a b ≡ Ordering.lt → cmp b c ≡ Ordering.lt → cmp a c ≡ Ordering.lt

pub compare-IsOrder : IsOrder compare
compare-IsOrder = record {
  self = λ a. ground arith;
  antisym = λ a b h. ground arith;
  flip = λ a b. ground arith;
  trans = λ a b c h k. ground arith;
}

module _ {ℓ} {A : Type ℓ} (cmp : A → A → Ordering) where
  -- `Ord` for `Vec<A>`: the first difference decides, and a proper prefix is smaller.
  unfoldable pub lexicographic : List A → List A → Ordering
  lexicographic [] [] = Ordering.eq
  lexicographic [] (y ∷ ys) = Ordering.lt
  lexicographic (x ∷ xs) [] = Ordering.gt
  lexicographic (x ∷ xs) (y ∷ ys) = then_cmp (cmp x y) (lexicographic xs ys)

module _ {ℓ} {A : Type ℓ} {cmp : A → A → Ordering} (o : IsOrder cmp) where
  lexicographic_self : (xs : List A) → lexicographic cmp xs xs ≡ Ordering.eq
  unfolding lexicographic
  lexicographic_self [] = refl
  lexicographic_self (x ∷ xs) = rw (o.self x) (lexicographic_self xs)

  lexicographic_antisym : (xs ys : List A) → lexicographic cmp xs ys ≡ Ordering.eq → xs ≡ ys
  unfolding lexicographic
  lexicographic_antisym [] [] h = refl
  lexicographic_antisym [] (y ∷ ys) h = cc
  lexicographic_antisym (x ∷ xs) [] h = cc
  lexicographic_antisym (x ∷ xs) (y ∷ ys) h =
      ground (arith, o.antisym x y, lexicographic_antisym xs ys)

  lexicographic_flip :
      (xs ys : List A) → lexicographic cmp ys xs ≡ reverse (lexicographic cmp xs ys)
  unfolding lexicographic
  lexicographic_flip [] [] = refl
  lexicographic_flip [] (y ∷ ys) = refl
  lexicographic_flip (x ∷ xs) [] = refl
  lexicographic_flip (x ∷ xs) (y ∷ ys) = ground (arith, o.flip x y, lexicographic_flip xs ys)

  lexicographic_trans :
      (xs ys zs : List A)
      → lexicographic cmp xs ys ≡ Ordering.lt
      → lexicographic cmp ys zs ≡ Ordering.lt
      → lexicographic cmp xs zs ≡ Ordering.lt
  unfolding lexicographic
  lexicographic_trans [] [] zs h k = cc
  lexicographic_trans [] (y ∷ ys) [] h k = cc
  lexicographic_trans [] (y ∷ ys) (z ∷ zs) h k = refl
  lexicographic_trans (x ∷ xs) [] zs h k = cc
  lexicographic_trans (x ∷ xs) (y ∷ ys) [] h k = cc
  lexicographic_trans (x ∷ xs) (y ∷ ys) (z ∷ zs) h k =
      ground
        (arith, o.trans x y z, o.antisym x y, o.antisym y z, o.self x, lexicographic_trans xs ys zs)

  pub lexicographic-IsOrder : IsOrder (lexicographic cmp)
  lexicographic-IsOrder = record {
    self = lexicographic_self;
    antisym = lexicographic_antisym;
    flip = lexicographic_flip;
    trans = lexicographic_trans;
  }

  -- What two lists start with in common does not count.
  pub lexicographic-append :
      (base xs ys : List A) → lexicographic cmp (base ++ xs) (base ++ ys) ≡ lexicographic cmp xs ys
  unfolding lexicographic
  lexicographic-append [] xs ys = refl
  lexicographic-append (b ∷ base) xs ys = rw (o.self b) (lexicographic-append base xs ys)

  pub lexicographic-prefix :
      (base : List A) (y : A) (ys : List A)
      → lexicographic cmp base (base ++ (y ∷ ys)) ≡ Ordering.lt
  unfolding lexicographic
  lexicographic-prefix [] y ys = refl
  lexicographic-prefix (b ∷ base) y ys = rw (o.self b) (lexicographic-prefix base y ys)

  pub lexicographic-first :
      (base : List A) {x y : A} (xs ys : List A)
      → cmp x y ≡ Ordering.lt
      → lexicographic cmp (base ++ (x ∷ xs)) (base ++ (y ∷ ys)) ≡ Ordering.lt
  unfolding lexicographic
  lexicographic-first [] xs ys h = rw h refl
  lexicographic-first (b ∷ base) xs ys h = rw (o.self b) (lexicographic-first base xs ys h)
