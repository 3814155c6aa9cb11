-- ===== src/Config/Pins.antt =====
-- The text of a configured peer pin in crates/quicsync-core/src/config.rs: hexadecimal digits of
-- either case.
use mathlib.Core.Path.{subst}
use quic_sync.Base.{
  ok_inj, inl, inr, ◌⊎◌, eq→==, ℕ, suc, ◌+◌, ◌*◌, ◌/◌, ◌%◌, ◌<◌, ◌≡◌, refl, ap, Bool, true, false,
  [], ◌∷◌, length, All, ltb, ◌==◌, if◌then◌else◌, ok, >>=-eq-ok, arith,
}
use quic_sync.Base.Words.{Bytes, IsByte}
use quic_sync.Types.{IsDigest}
use quic_sync.Config.{hex_digit, hex_pairs, parse_pin, PeerPin}

hex_digit-bound : (v d : ℕ) → hex_digit v ≡ ok d → d < 16
unfolding hex_digit
hex_digit-bound v d h = ground arith

abbrev IsHalf : ℕ → Bytes → Type 0
IsHalf n bytes = (length bytes ≡ n / 2) × All IsByte bytes

pair-IsByte : {high low : ℕ} → high < 16 → low < 16 → IsByte (high * 16 + low)
pair-IsByte h k = omega arith

hex_pairs-bound : (value bytes : Bytes) → hex_pairs value ≡ ok bytes → IsHalf (length value) bytes
unfolding hex_pairs
hex_pairs-bound [] bytes h = subst (IsHalf 0) (ok_inj h) (omega arith, tt)
hex_pairs-bound (x ∷ []) bytes h = subst (IsHalf 1) (ok_inj h) (omega arith, tt)
hex_pairs-bound (x ∷ y ∷ rest) bytes h =
    let (high, ex, h1) = >>=-eq-ok (hex_digit x) _ h in
    let (low, ey, h2) = >>=-eq-ok (hex_digit y) _ h1 in
    let (later, el, h3) = >>=-eq-ok (hex_pairs rest) _ h2 in
    let (len, all) = hex_pairs-bound rest later el in
    subst (IsHalf (suc (suc (length rest)))) (ok_inj h3) (
      omega (arith, len),
      (pair-IsByte (hex_digit-bound x high ex) (hex_digit-bound y low ey), all),
    )

-- `{:x}` and `{:X}` of a digit.
abbrev pub hex_char : Bool → ℕ → ℕ
hex_char upper d = if ltb d 10 then d + b'0' else if upper then d + 55 else d + 87

abbrev pub hex_text : Bool → Bytes → Bytes
hex_text upper [] = []
hex_text upper (b ∷ bs) = hex_char upper (b / 16) ∷ hex_char upper (b % 16) ∷ hex_text upper bs

hex_digit-hex_char : (upper : Bool) (d : ℕ) → d < 16 → hex_digit (hex_char upper d) ≡ ok d
unfolding hex_digit
hex_digit-hex_char true d h = ground arith
hex_digit-hex_char false d h = ground arith

hex_pairs-hex_text :
    (upper : Bool) (bytes : Bytes) → All IsByte bytes → hex_pairs (hex_text upper bytes) ≡ ok bytes
unfolding hex_pairs
hex_pairs-hex_text upper [] h = refl
hex_pairs-hex_text upper (b ∷ bs) (h, hs) =
    rw
      (
        hex_digit-hex_char upper (b / 16) (omega arith),
        hex_digit-hex_char upper (b % 16) (omega arith),
        hex_pairs-hex_text upper bs hs,
      )
      (ap (λ n. ok (n ∷ bs)) (omega arith))

length-hex_text : (upper : Bool) (bytes : Bytes) → length (hex_text upper bytes) ≡ 2 * length bytes
length-hex_text upper [] = refl
length-hex_text upper (b ∷ bs) = omega (arith, length-hex_text upper bs)

-- The hexadecimal text of 32 bytes, in capitals or not, is parsed to the pin of those bytes.
pub parse_pin-hex_text :
    (upper : Bool) (bytes : Bytes)
    → IsDigest bytes
    → parse_pin (hex_text upper bytes) ≡ ok (record { bytes = bytes })
unfolding parse_pin
parse_pin-hex_text upper bytes (len, all) =
    rw (parse_pin, length-hex_text upper bytes, len, hex_pairs-hex_text upper bytes all) refl

eq_or_ne : (n : ℕ) → (n ≡ 64) ⊎ ((n == 64) ≡ false)
eq_or_ne n = ground arith

-- A pin that is parsed holds 32 bytes.
pub parse_pin-IsDigest :
    (value : Bytes) (pin : PeerPin) → parse_pin value ≡ ok pin → IsDigest pin.bytes
unfolding parse_pin
parse_pin-IsDigest value pin h = elim (eq_or_ne (length value)) [
  | inl e ↦
      let (bytes, eb, last) =
        >>=-eq-ok (hex_pairs value) _ (rw (parse_pin, eq→== (length value) 64 e) at h) in
      let (len, all) = hex_pairs-bound value bytes eb in
      subst (λ (p : PeerPin). IsDigest p.bytes) (ok_inj last) (omega (arith, len), all)
  | inr e ↦ absurd (cc (rw (parse_pin, e) at h))
]
