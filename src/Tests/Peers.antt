-- ===== src/Tests/Peers.antt =====
-- The configuration of crates/quicsync-core/src/config.rs, the identities of
-- crates/quicsync-core/src/auth.rs and the error codes of crates/quicsync-core/src/error.rs on
-- concrete values.
use mathlib.Core.List.{Memᴰ}
use quic_sync.Base.{ℕ, zero, suc, ◌≡◌, refl, true, false, some, none, [], ◌∷◌, ◌++◌, ok, err, arith}
use quic_sync.Base.Words.{Bytes}
use quic_sync.Types.{IsDigest}
use quic_sync.Error.{io, as_str, from_str}
use quic_sync.Error.Codes.{from_str_iff}
use quic_sync.Auth.Der.{der, der_value}
use quic_sync.Auth.Der.RoundTrip.{der_value-der}
use quic_sync.Auth.Certificate.{
  fingerprint_certificate, self_signed_certificate, ed25519_spki, configuration_error,
}
use quic_sync.Auth.Certificate.Created.{fingerprint_certificate-self_signed_certificate}
use quic_sync.Auth.Grants.{
  Direction, source_to_destination, destination_to_source, PeerGrant, Authorization, new_authorizer,
  authorize,
}
use quic_sync.Auth.Grants.Authorized.{authorize_iff}
use quic_sync.Config.{Limits, RawLimits, default_limits, resolve, PeerPin, parse_pin, RootId}
use quic_sync.Config.Bounds.{IsLimits, IsResolved, resolve_iff}
use quic_sync.Config.Pins.{hex_text, parse_pin-hex_text}
use quic_sync.Config.Files.{System, Status, ValidatedRoot}
use quic_sync.Config.Load.{
  RawDestinationConfig, DestinationConfig, DestinationRoot, load_destination, authorize as may_sync,
}
use quic_sync.Config.Granted.{IsGranted, authorizes_iff}
use quic_sync.Config.Peers.{IsDestination, load_destination-IsDestination}

abbrev copies : ℕ → ℕ → Bytes
copies zero b = []
copies (suc n) b = b ∷ copies n b

abbrev no_limits : RawLimits
no_limits = record {
  max_frame_bytes = none;
  max_path_bytes = none;
  max_components = none;
  max_parallel_hashes = none;
  max_parallel_transfers = none;
  max_inflight_bytes = none;
}

resolve_iff_example :
    (resolve no_limits ≡ ok default_limits
      → IsResolved no_limits default_limits × IsLimits default_limits)
    × (IsResolved no_limits default_limits
        → IsLimits default_limits
        → resolve no_limits ≡ ok default_limits)
resolve_iff_example = resolve_iff no_limits default_limits

from_str_iff_example :
    (from_str "io_error" ≡ ok io → as_str io ≡ "io_error")
    × (as_str io ≡ "io_error" → from_str "io_error" ≡ ok io)
from_str_iff_example = from_str_iff "io_error" io

abbrev key : Bytes
key = copies 32 171

key-IsDigest : IsDigest key
key-IsDigest = ground arith

key_parsed : parse_pin (hex_text true key) ≡ ok (record { bytes = key })
unfolding parse_pin quic_sync.Config.hex_pairs quic_sync.Config.hex_digit
key_parsed = refl

parse_pin-hex_text_example : parse_pin (hex_text false key) ≡ ok (record { bytes = key })
parse_pin-hex_text_example = parse_pin-hex_text false key key-IsDigest

der_value-der_example : der_value (der 48 (1 ∷ 2 ∷ []) ++ (7 ∷ [])) ≡ ok (48, 1 ∷ 2 ∷ [], 7 ∷ [])
der_value-der_example = der_value-der 48 (1 ∷ 2 ∷ []) (7 ∷ []) (omega arith)

-- A digest that shows its input.
abbrev shown : Bytes → Bytes
shown bs = bs

abbrev signed : Bytes → Bytes
signed m = copies 64 1

fingerprint_certificate-self_signed_certificate_example :
    (made : Bytes) × (self_signed_certificate key signed (some (copies 16 0)) ≡ ok made)
    × (fingerprint_certificate shown made ≡ ok (ed25519_spki key))
fingerprint_certificate-self_signed_certificate_example =
    fingerprint_certificate-self_signed_certificate shown key (copies 16 0) refl refl signed
      (λ m. refl)

no_serial : self_signed_certificate key signed none ≡ err configuration_error
unfolding self_signed_certificate
no_serial = refl

abbrev home : Bytes
home = b'h' ∷ []

abbrev grant : PeerGrant
grant = record { pin = key; root_id = home; direction = source_to_destination }

granted : new_authorizer (grant ∷ []) ≡ ok (grant ∷ [])
unfolding new_authorizer quic_sync.Auth.Grants.add_grants quic_sync.Auth.Grants.validate_root_id
    quic_sync.Auth.Grants.has_other_byte quic_sync.Auth.Grants.is_root_byte
    quic_sync.Auth.Grants.holds_grant
granted = refl

authorize_iff_example :
    ((a : Authorization)
      → authorize (grant ∷ []) key home source_to_destination ≡ ok a
      → Memᴰ grant (grant ∷ [])
        × (a ≡ record { peer = key; root_id = home; direction = source_to_destination }))
    × (Memᴰ grant (grant ∷ [])
        → authorize (grant ∷ []) key home source_to_destination
          ≡ ok (record { peer = key; root_id = home; direction = source_to_destination }))
authorize_iff_example =
    authorize_iff (grant ∷ []) (grant ∷ []) key home source_to_destination granted

-- A system on which every path is a directory and a private file of the user 7.
abbrev status : Status
status = record {
  is_dir = true;
  is_file = true;
  is_symlink = false;
  device = 1;
  inode = 2;
  uid = 7;
  mode = 384;
}

abbrev system : System
system = record {
  symlink_metadata = λ path. some status;
  metadata = λ path. some status;
  open_directory = λ path. some 3;
  open_file = λ path. some 4;
  descriptor_metadata = λ descriptor. some status;
  read_to_string = λ descriptor. some [];
  effective_user = 7;
  join = λ path name. path ++ (b'/' ∷ name);
  is_absolute = λ path. false;
}

abbrev raw : RawDestinationConfig
raw = record {
  listen_address = [];
  roots = record { id = home; path = []; authorized_peers = hex_text true key ∷ [] } ∷ [];
  limits = no_limits;
}

abbrev loaded : DestinationConfig ℕ
loaded = record {
  listen_address = 5;
  roots =
      record {
        id = record { text = home };
        root = record { path = b'/' ∷ b'/' ∷ []; descriptor = 3; device = 1; inode = 2 };
        authorized_peers = record { bytes = key } ∷ [];
      }
      ∷ [];
  limits = default_limits;
  private_key =
      b'/' ∷ b'/' ∷ b'.' ∷ b'q' ∷ b'u' ∷ b'i' ∷ b'c' ∷ b's' ∷ b'y' ∷ b'n' ∷ b'c' ∷ b'/' ∷ b'i'
      ∷ b'd' ∷ b'e' ∷ b'n' ∷ b't' ∷ b'i' ∷ b't' ∷ b'y' ∷ b'.' ∷ b'k' ∷ b'e' ∷ b'y' ∷ [];
}

loads : load_destination system (λ text. some 5) (λ text. some raw) (b'/' ∷ []) ≡ ok loaded
unfolding load_destination quic_sync.Config.Files.open_root quic_sync.Config.Files.reject_symlink
    quic_sync.Config.Files.validate_admin_directory quic_sync.Config.Files.validate_owner
    quic_sync.Config.Files.writable_by_others quic_sync.Config.Files.validate_private_key
    quic_sync.Config.Files.is_private quic_sync.Config.Files.open_secure_file
    quic_sync.Config.Files.read_toml quic_sync.Config.Load.load_roots
    quic_sync.Config.Load.load_pins quic_sync.Config.Load.holds_bytes
    quic_sync.Config.Load.holds_identity quic_sync.Config.parse_root_id
    quic_sync.Config.all_root_bytes quic_sync.Config.is_root_byte quic_sync.Config.hex_pairs
    quic_sync.Config.hex_digit quic_sync.Config.validate quic_sync.Config.validate_limit parse_pin
    resolve quic_sync.Types.bytes_eq
loads = refl

load_destination-IsDestination_example : IsDestination loaded
load_destination-IsDestination_example =
    load_destination-IsDestination system (λ text. some 5) (λ text. some raw) (b'/' ∷ []) loaded
      loads

abbrev pin : PeerPin
pin = record { bytes = key }

authorizes_iff_example :
    (may_sync ℕ loaded pin home ≡ true → IsGranted loaded.roots pin home)
    × (IsGranted loaded.roots pin home → may_sync ℕ loaded pin home ≡ true)
authorizes_iff_example = authorizes_iff loaded pin home
