-- ===== src/Types/Comparison.antt =====
-- The comparison of byte strings that types.rs and others use, and conjunctions of such tests.
use quic_sync.Base.{◌≡◌, refl, Bool, true, false, ◌&&◌, [], ◌∷◌, arith}
use quic_sync.Base.Words.{Bytes}
use quic_sync.Types.{bytes_eq}

pub bytes_eq-eq : (a b : Bytes) → bytes_eq a b ≡ true → a ≡ b
unfolding bytes_eq
bytes_eq-eq [] [] h = refl
bytes_eq-eq [] (y ∷ b) h = cc
bytes_eq-eq (x ∷ a) [] h = cc
bytes_eq-eq (x ∷ a) (y ∷ b) h = ground (arith, bytes_eq-eq a b)

pub bytes_eq_self : (a : Bytes) → bytes_eq a a ≡ true
unfolding bytes_eq
bytes_eq_self [] = refl
bytes_eq_self (x ∷ a) = ground (arith, bytes_eq_self a)

pub both-true : (a b : Bool) → (a && b) ≡ true → (a ≡ true) × (b ≡ true)
both-true true b h = (refl, h)
both-true false b h = cc
