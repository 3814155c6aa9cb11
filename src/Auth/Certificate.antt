-- ===== src/Auth/Certificate.antt =====
-- crates/quicsync-core/src/auth.rs: `fingerprint_certificate` and `self_signed_certificate`. SHA-256,
-- the key pair and the random generator are other crates' and so parameters.
pub mod Created
use quic_sync.Base.{
  ℕ, zero, suc, ◌-◌, ◌%◌, Bool, true, false, not, ◌||◌, List, [], ◌∷◌, length, take, ◌==◌,
  if◌then◌else◌, ok, err, Option, none, some, ◌>>=◌,
}
use quic_sync.Base.Words.{Bytes}
use quic_sync.Error.{PeerError, Fallible, failed_with, invalid_configuration}
use quic_sync.Auth.Der.{Parsed, malformed, der_value, der, der_sequence}

abbrev pub configuration_error : PeerError
configuration_error = failed_with invalid_configuration

abbrev pub is_empty : Bytes → Bool
is_empty [] = true
is_empty (b ∷ bs) = false

-- `tbs.first() == Some(&0xa0)`
abbrev pub has_version : Bytes → Bool
has_version [] = false
has_version (b ∷ bs) = b == 160

-- What follows the first values.
unfoldable pub skip : ℕ → Bytes → Parsed Bytes
skip zero bs = ok bs
skip (suc n) bs = der_value bs >>= λ parsed. let (tag, value, rest) = parsed in skip n rest

abbrev pub sequence_tag : ℕ
sequence_tag = 48

module _ (sha256 : Bytes → Bytes) where
  unfoldable pub fingerprint_spki : Bytes → Bytes
  fingerprint_spki spki = sha256 spki

  unfoldable pub fingerprint_start : Bytes → Parsed Bytes
  fingerprint_start spki_start = der_value spki_start >>= λ parsed.
      let (tag, value, rest) = parsed in
      if not (tag == sequence_tag)
      then malformed
      else ok (fingerprint_spki (take (length spki_start - length rest) spki_start))

  unfoldable pub fingerprint_tbs : Bytes → Parsed Bytes
  fingerprint_tbs tbs = (if has_version tbs then skip 1 tbs else ok tbs) >>= λ unversioned.
      skip 5 unversioned >>= λ spki_start. fingerprint_start spki_start

  unfoldable pub fingerprint_certificate : Bytes → Parsed Bytes
  fingerprint_certificate certificate = der_value certificate >>= λ outer.
      let (certificate_tag, certificate_value, remaining) = outer in
      if not (certificate_tag == sequence_tag) || not (is_empty remaining)
      then malformed
      else (der_value certificate_value >>= λ inner.
          let (tbs_tag, tbs, rest) = inner in
          if not (tbs_tag == sequence_tag) then malformed else fingerprint_tbs tbs)

abbrev pub ed25519_algorithm : Bytes
ed25519_algorithm = 48 ∷ 5 ∷ 6 ∷ 3 ∷ 43 ∷ 101 ∷ 112 ∷ []

abbrev pub empty_name : Bytes
empty_name = 48 ∷ 0 ∷ []

abbrev pub validity : Bytes
validity =
    48 ∷ 30 ∷ 23 ∷ 13 ∷ b'2' ∷ b'5' ∷ b'0' ∷ b'1' ∷ b'0' ∷ b'1' ∷ b'0' ∷ b'0' ∷ b'0' ∷ b'0' ∷ b'0'
    ∷ b'0' ∷ b'Z' ∷ 23 ∷ 13 ∷ b'4' ∷ b'9' ∷ b'1' ∷ b'2' ∷ b'3' ∷ b'1' ∷ b'2' ∷ b'3' ∷ b'5' ∷ b'9'
    ∷ b'5' ∷ b'9' ∷ b'Z' ∷ []

-- `serial[0] &= 0x7f` and its replacement by 1.
unfoldable pub positive_serial : Bytes → Bytes
positive_serial [] = []
positive_serial (b ∷ bs) = (if b % 128 == 0 then 1 else b % 128) ∷ bs

unfoldable pub ed25519_spki : Bytes → Bytes
ed25519_spki public_key = der_sequence (ed25519_algorithm ∷ der 3 (0 ∷ public_key) ∷ [])

unfoldable pub certificate_tbs : Bytes → Bytes → Bytes
certificate_tbs public_key random = der_sequence (
    der 160 (der 2 (2 ∷ []))
    ∷ der 2 (positive_serial random)
    ∷ ed25519_algorithm
    ∷ empty_name
    ∷ validity
    ∷ empty_name
    ∷ ed25519_spki public_key
    ∷ [])

-- With the key pair's public key and signing, and what `random.fill` put into the 16 bytes of the
-- serial number; none where it fails.
unfoldable pub self_signed_certificate : Bytes → (Bytes → Bytes) → Option Bytes → Fallible Bytes
self_signed_certificate public_key sign none = err configuration_error
self_signed_certificate public_key sign (some random) =
    let tbs = certificate_tbs public_key random in
    ok (der_sequence (tbs ∷ ed25519_algorithm ∷ der 3 (0 ∷ sign tbs) ∷ []))
