-- ===== src/Auth/Grants.antt =====
-- crates/quicsync-core/src/auth.rs: the authorizer and the check of a peer's pin. A `HashSet` is
-- the list of what was inserted, and a `Fingerprint` its 32 bytes.
pub mod Authorized
use quic_sync.Base.{
  ℕ, Bool, true, false, ◌&&◌, ◌||◌, not, List, [], ◌∷◌, length, ltb, leb, ◌==◌, if◌then◌else◌, ok,
  err, Result, ◌>>=◌, ◌>>◌,
}
use quic_sync.Base.Words.{Bytes}
use quic_sync.Types.{bytes_eq, handshake}
use quic_sync.Error.{
  PeerError, Fallible, failed_with, invalid_configuration, authentication_failed,
  authorization_denied,
}
use quic_sync.Base.{none, some}
use quic_sync.Auth.Der.{Parsed}
use quic_sync.Auth.Certificate.{fingerprint_certificate}

pub data Direction : Type 0 where
  source_to_destination destination_to_source : Direction

pub record PeerGrant : Type 0 where
  pub pin : Bytes
  pub root_id : Bytes
  pub direction : Direction

pub record Authorization : Type 0 where
  pub peer : Bytes
  pub root_id : Bytes
  pub direction : Direction

abbrev pub same_direction : Direction → Direction → Bool
same_direction source_to_destination source_to_destination = true
same_direction destination_to_source destination_to_source = true
same_direction _ _ = false

-- The derived equality of grants, and `HashSet::contains`.
unfoldable pub grant_eq : PeerGrant → PeerGrant → Bool
grant_eq g h =
    bytes_eq g.pin h.pin && (bytes_eq g.root_id h.root_id && same_direction g.direction h.direction)

unfoldable pub holds_grant : List PeerGrant → PeerGrant → Bool
holds_grant [] g = false
holds_grant (h ∷ hs) g = let rest = holds_grant hs g in if grant_eq h g then true else rest

-- `byte.is_ascii_alphanumeric()` or one of `-`, `_` and `.`.
unfoldable pub is_root_byte : ℕ → Bool
is_root_byte b =
    (leb b'0' b && leb b b'9')
    || (leb b'A' b && leb b b'Z')
    || (leb b'a' b && leb b b'z')
    || b == b'-'
    || b == b'_'
    || b == b'.'

unfoldable pub has_other_byte : Bytes → Bool
has_other_byte [] = false
has_other_byte (b ∷ bs) = not (is_root_byte b) || has_other_byte bs

unfoldable pub validate_root_id : Bytes → Fallible (Unit {0})
validate_root_id root_id =
    if length root_id == 0 || ltb 255 (length root_id) || has_other_byte root_id
    then err (failed_with invalid_configuration)
    else ok tt

-- The loop of `Authorizer::new`, with the grants validated.
unfoldable pub add_grants : List PeerGrant → List PeerGrant → Fallible (List PeerGrant)
add_grants validated [] = ok validated
add_grants validated (g ∷ gs) =
    let rest = add_grants (g ∷ validated) gs in
    validate_root_id g.root_id
    >> (if holds_grant validated g then err (failed_with invalid_configuration) else rest)

unfoldable pub new_authorizer : List PeerGrant → Fallible (List PeerGrant)
new_authorizer = add_grants []

unfoldable pub authorize : List PeerGrant → Bytes → Bytes → Direction → Fallible Authorization
authorize grants peer root_id direction =
    if holds_grant grants (record { pin = peer; root_id = root_id; direction = direction })
    then ok (record { peer = peer; root_id = root_id; direction = direction })
    else err (record { code = authorization_denied; phase = some handshake })

-- The errors of rustls that the check returns.
pub data CertificateError : Type 0 where
  bad_encoding unknown_issuer : CertificateError

unfoldable pub holds_fingerprint : List Bytes → Bytes → Bool
holds_fingerprint [] f = false
holds_fingerprint (g ∷ gs) f =
    let rest = holds_fingerprint gs f in if bytes_eq g f then true else rest

module _ (sha256 : Bytes → Bytes) where
  unfoldable pub verify_pin : (Bytes → Bool) → Bytes → Result CertificateError (Unit {0})
  verify_pin accepted certificate = elim (fingerprint_certificate sha256 certificate) [
    | err e ↦ err bad_encoding
    | ok fingerprint ↦ if accepted fingerprint then ok tt else err unknown_issuer
  ]

  unfoldable pub from_certificate_der : Bytes → Fallible Bytes
  from_certificate_der certificate = elim (fingerprint_certificate sha256 certificate) [
    | err e ↦ err (record { code = authentication_failed; phase = some handshake })
    | ok fingerprint ↦ ok fingerprint
  ]

  -- The client's verifier of a server, and the server's of a client.
  unfoldable pub verify_server_cert : Bytes → Bytes → Result CertificateError (Unit {0})
  verify_server_cert expected = verify_pin (λ fingerprint. bytes_eq fingerprint expected)

  unfoldable pub verify_client_cert : List Bytes → Bytes → Result CertificateError (Unit {0})
  verify_client_cert allowed = verify_pin (holds_fingerprint allowed)
