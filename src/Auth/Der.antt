-- ===== src/Auth/Der.antt =====
-- crates/quicsync-core/src/auth.rs: `der_value`, `der` and `der_sequence`.
pub mod RoundTrip
use quic_sync.Base.{
  ℕ, zero, suc, ◌+◌, ◌-◌, ◌*◌, ◌/◌, ◌%◌, ◌^◌, Bool, false, ◌||◌, Option, none, some, List, [], ◌∷◌,
  ◌++◌, length, take, drop, ltb, ◌==◌, if◌then◌else◌, Result, ok, err, ◌>>=◌,
}
use quic_sync.Base.Words.{Bytes}

-- `Result<_, ()>`
abbrev pub Parsed {ℓ} : Type ℓ → Type ℓ
Parsed = Result (Unit {0})

abbrev pub malformed {ℓ} : {A : Type ℓ} → Parsed A
malformed = err tt

abbrev pub required {ℓ} : {A : Type ℓ} → Option A → Parsed A
required none = malformed
required (some a) = ok a

unfoldable pub split_at_checked : ℕ → Bytes → Option (Bytes × Bytes)
split_at_checked n bs = if ltb (length bs) n then none else some (take n bs, drop n bs)

-- `length.checked_mul(256)` and `.checked_add(byte)` of a `usize` of 64 bits.
unfoldable pub shift_in : ℕ → ℕ → Option ℕ
shift_in l b =
    if ltb (l * 256) (2 ^ 64)
    then (if ltb (l * 256 + b) (2 ^ 64) then some (l * 256 + b) else none)
    else none

-- The `try_fold` over the bytes of a length.
unfoldable pub read_length : ℕ → Bytes → Option ℕ
read_length l [] = some l
read_length l (b ∷ bs) = elim (shift_in l b) [ none ↦ none | some l' ↦ read_length l' bs ]

unfoldable pub starts_with_zero : Bytes → Bool
starts_with_zero [] = false
starts_with_zero (b ∷ bs) = b == 0

-- The length and what follows it.
unfoldable pub long_length : ℕ → Bytes → Parsed (ℕ × Bytes)
long_length count bs =
    if count == 0 || ltb 8 count
    then malformed
    else (required (split_at_checked count bs) >>= λ split.
        let (encoded, rest) = split in
        if starts_with_zero encoded
        then malformed
        else (required (read_length 0 encoded) >>= λ l.
            if ltb l 128 then malformed else ok (l, rest)))

-- The tag, the value and what follows.
unfoldable pub der_value : Bytes → Parsed (ℕ × Bytes × Bytes)
der_value [] = malformed
der_value (tag ∷ []) = malformed
der_value (tag ∷ first ∷ rest) =
    (if ltb first 128 then ok (first, rest) else long_length (first % 128) rest) >>= λ header.
    let (l, value_and_remaining) = header in
    required (split_at_checked l value_and_remaining) >>= λ split.
    let (value, remaining) = split in ok (tag, value, remaining)

-- `n.to_be_bytes()` of a word of as many bytes.
unfoldable pub to_be_bytes : ℕ → ℕ → Bytes
to_be_bytes zero n = []
to_be_bytes (suc count) n = to_be_bytes count (n / 256) ++ (n % 256 ∷ [])

-- `bytes.iter().position(|byte| *byte != 0)`
unfoldable pub first_nonzero : Bytes → Option ℕ
first_nonzero [] = none
first_nonzero (b ∷ bs) =
    let later = first_nonzero bs in
    if b == 0 then (elim later [ none ↦ none | some n ↦ some (suc n) ]) else some 0

unfoldable pub significant : Bytes → Bytes
significant bs = drop (elim (first_nonzero bs) [ none ↦ length bs - 1 | some n ↦ n ]) bs

unfoldable pub der_length : ℕ → Bytes
der_length n =
    if ltb n 128
    then n ∷ []
    else let bytes = significant (to_be_bytes 8 n) in (128 + length bytes) ∷ bytes

unfoldable pub der : ℕ → Bytes → Bytes
der tag value = tag ∷ (der_length (length value) ++ value)

unfoldable pub concat : List Bytes → Bytes
concat [] = []
concat (v ∷ vs) = v ++ concat vs

unfoldable pub der_sequence : List Bytes → Bytes
der_sequence values = der 48 (concat values)
