-- ===== src/Base/Words.antt =====
-- Bytes, and the little-endian words and two's-complement integers of the standard library.
use Prim.Native.Nat.{ℕ, zero, suc, ◌+◌, ◌-◌, ◌*◌, ◌/◌, ◌%◌, ◌^◌, ◌<◌}
use mathlib.Core.Path.{◌≡◌, refl, ap, ap₂, ◌∙◌}
use mathlib.Core.List.{List, [], ◌∷◌}
use native.Mathlib.Omega.{arith}
use native.Mathlib.Nat.{pow-suc}
use quic_sync.Base.Tests.{ltb, if◌then◌else◌}
use quic_sync.Base.Lists.{length, All}

abbrev pub Bytes : Type 0
Bytes = List ℕ

abbrev pub IsByte : ℕ → Type 0
IsByte b = b < 256

abbrev pub IsU16 : ℕ → Type 0
IsU16 v = v < 2 ^ 16

abbrev pub IsU32 : ℕ → Type 0
IsU32 v = v < 2 ^ 32

abbrev pub IsU64 : ℕ → Type 0
IsU64 v = v < 2 ^ 64

-- `v.to_le_bytes()` of a word of `n` bytes.
unfoldable pub to_le_bytes : ℕ → ℕ → Bytes
to_le_bytes zero v = []
to_le_bytes (suc n) v = (v % 256) ∷ to_le_bytes n (v / 256)

unfoldable pub from_le_bytes : Bytes → ℕ
from_le_bytes [] = 0
from_le_bytes (b ∷ bs) = b + 256 * from_le_bytes bs

pub length-to_le_bytes : (n v : ℕ) → length (to_le_bytes n v) ≡ n
unfolding to_le_bytes
length-to_le_bytes zero v = refl
length-to_le_bytes (suc n) v = ap suc (length-to_le_bytes n (v / 256))

pub from_le_bytes-to_le_bytes : (n v : ℕ) → v < 256 ^ n → from_le_bytes (to_le_bytes n v) ≡ v
unfolding to_le_bytes from_le_bytes
from_le_bytes-to_le_bytes zero v h = omega (arith)
from_le_bytes-to_le_bytes (suc n) v h =
    omega (arith, from_le_bytes-to_le_bytes n (v / 256) (omega (arith, pow-suc 256 n)))

pub to_le_bytes-from_le_bytes :
    (n : ℕ) (bs : Bytes) → length bs ≡ n → All IsByte bs → to_le_bytes n (from_le_bytes bs) ≡ bs
unfolding to_le_bytes from_le_bytes
to_le_bytes-from_le_bytes zero [] e h = refl
to_le_bytes-from_le_bytes zero (b ∷ bs) e h = absurd (omega arith)
to_le_bytes-from_le_bytes (suc n) [] e h = absurd (omega arith)
to_le_bytes-from_le_bytes (suc n) (b ∷ bs) e (hb, hbs) =
    ap₂ (λ (x : ℕ) (l : Bytes). x ∷ l) (omega arith)
      (ap (to_le_bytes n) (omega arith) ∙ to_le_bytes-from_le_bytes n bs (omega arith) hbs)

pub from_le_bytes-lt :
    (n : ℕ) (bs : Bytes) → length bs ≡ n → All IsByte bs → from_le_bytes bs < 256 ^ n
unfolding from_le_bytes
from_le_bytes-lt zero [] e h = omega arith
from_le_bytes-lt zero (b ∷ bs) e h = absurd (omega arith)
from_le_bytes-lt (suc n) [] e h = absurd (omega arith)
from_le_bytes-lt (suc n) (b ∷ bs) e (hb, hbs) =
    omega (arith, from_le_bytes-lt n bs (omega arith) hbs, pow-suc 256 n)

-- Signed integers; `negsuc n` is -(n + 1).
pub data ℤ : Type 0 where
  pos : ℕ → ℤ
  negsuc : ℕ → ℤ

abbrev pub IsI128 : ℤ → Type 0
IsI128 (pos n) = n < 2 ^ 127
IsI128 (negsuc n) = n < 2 ^ 127

-- The bit pattern of an `i128`, and the integer that a pattern stands for.
unfoldable pub bits_of : ℤ → ℕ
bits_of (pos n) = n
bits_of (negsuc n) = 2 ^ 128 - (n + 1)

unfoldable pub of_bits : ℕ → ℤ
of_bits v = if ltb v (2 ^ 127) then pos v else negsuc (2 ^ 128 - (v + 1))

pub of_bits-bits_of : (i : ℤ) → IsI128 i → of_bits (bits_of i) ≡ i
unfolding of_bits bits_of
of_bits-bits_of (pos n) h = ground arith
of_bits-bits_of (negsuc n) h = ground arith

pub bits_of-lt : (i : ℤ) → IsI128 i → bits_of i < 256 ^ 16
unfolding bits_of
bits_of-lt (pos n) h = omega arith
bits_of-lt (negsuc n) h = omega arith

pub bits_of-of_bits : (v : ℕ) → v < 2 ^ 128 → bits_of (of_bits v) ≡ v
unfolding of_bits bits_of
bits_of-of_bits v h = ground arith
