-- ===== src/Config.antt =====
-- crates/quicsync-core/src/config.rs: limits, root identifiers and peer pins. The children hold
-- what is read from files and the loading of a whole configuration.
pub mod Bounds
pub mod Pins
pub mod Files
pub mod Load
pub mod Peers
pub mod Granted
use quic_sync.Base.{
  ℕ, ◌+◌, ◌-◌, ◌*◌, Bool, true, false, ◌&&◌, ◌||◌, not, Option, none, some, List, [], ◌∷◌, length,
  ltb, leb, ◌==◌, if◌then◌else◌, ok, err, ◌>>=◌, ◌>>◌,
}
use quic_sync.Base.Words.{Bytes}
use quic_sync.Types.{bytes_eq}
use quic_sync.Error.{PeerError, Fallible, invalid_configuration, failed_with}

abbrev pub invalid : PeerError
invalid = failed_with invalid_configuration

abbrev pub most_frame_bytes : ℕ
most_frame_bytes = 1073741824

abbrev pub most_path_bytes : ℕ
most_path_bytes = 1048576

abbrev pub most_components : ℕ
most_components = 4096

abbrev pub most_parallel_work : ℕ
most_parallel_work = 1024

abbrev pub most_inflight_bytes : ℕ
most_inflight_bytes = 17179869184

pub record Limits : Type 0 where
  pub max_frame_bytes : ℕ
  pub max_path_bytes : ℕ
  pub max_components : ℕ
  pub max_parallel_hashes : ℕ
  pub max_parallel_transfers : ℕ
  pub max_inflight_bytes : ℕ

abbrev pub default_limits : Limits
default_limits = record {
  max_frame_bytes = 16777216;
  max_path_bytes = 16384;
  max_components = 256;
  max_parallel_hashes = 4;
  max_parallel_transfers = 4;
  max_inflight_bytes = 67108864;
}

unfoldable pub validate_limit : ℕ → ℕ → Fallible (Unit {0})
validate_limit value maximum = if value == 0 || ltb maximum value then err invalid else ok tt

unfoldable pub validate : Limits → Fallible Limits
validate l =
    validate_limit l.max_frame_bytes most_frame_bytes
    >> validate_limit l.max_path_bytes most_path_bytes
    >> validate_limit l.max_components most_components
    >> validate_limit l.max_parallel_hashes most_parallel_work
    >> validate_limit l.max_parallel_transfers most_parallel_work
    >> validate_limit l.max_inflight_bytes most_inflight_bytes
    >> (if ltb l.max_frame_bytes l.max_path_bytes then err invalid else ok l)

pub record RawLimits : Type 0 where
  pub max_frame_bytes : Option ℕ
  pub max_path_bytes : Option ℕ
  pub max_components : Option ℕ
  pub max_parallel_hashes : Option ℕ
  pub max_parallel_transfers : Option ℕ
  pub max_inflight_bytes : Option ℕ

abbrev pub unwrap_or : ℕ → Option ℕ → ℕ
unwrap_or d none = d
unwrap_or d (some n) = n

abbrev pub with_defaults : RawLimits → Limits
with_defaults raw = record {
  max_frame_bytes = unwrap_or default_limits.max_frame_bytes raw.max_frame_bytes;
  max_path_bytes = unwrap_or default_limits.max_path_bytes raw.max_path_bytes;
  max_components = unwrap_or default_limits.max_components raw.max_components;
  max_parallel_hashes = unwrap_or default_limits.max_parallel_hashes raw.max_parallel_hashes;
  max_parallel_transfers =
      unwrap_or default_limits.max_parallel_transfers raw.max_parallel_transfers;
  max_inflight_bytes = unwrap_or default_limits.max_inflight_bytes raw.max_inflight_bytes;
}

unfoldable pub resolve : RawLimits → Fallible Limits
resolve raw = validate (with_defaults raw)

-- `byte.is_ascii_alphanumeric()` and the three other bytes of a root ID.
unfoldable pub is_root_byte : ℕ → Bool
is_root_byte b =
    (leb b'0' b && leb b b'9')
    || (leb b'A' b && leb b b'Z')
    || (leb b'a' b && leb b b'z')
    || b == b'-'
    || b == b'_'
    || b == b'.'

unfoldable pub all_root_bytes : Bytes → Bool
all_root_bytes [] = true
all_root_bytes (b ∷ bs) = is_root_byte b && all_root_bytes bs

-- A Rust `String` is the list of its UTF-8 bytes.
pub record RootId : Type 0 where
  pub text : Bytes

unfoldable pub parse_root_id : Bytes → Fallible RootId
parse_root_id value =
    if length value == 0 || ltb 128 (length value) || not (all_root_bytes value)
    then err invalid
    else ok (record { text = value })

-- `[u8; 32]`: a Rust value has 32 bytes, which is the predicate `IsDigest` of it, and `parse_pin` makes
-- no other.
pub record PeerPin : Type 0 where
  pub bytes : Bytes

unfoldable pub hex_digit : ℕ → Fallible ℕ
hex_digit v =
    if leb b'0' v && leb v b'9'
    then ok (v - b'0')
    else if leb b'a' v && leb v b'f'
    then ok (v - b'a' + 10)
    else if leb b'A' v && leb v b'F'
    then ok (v - b'A' + 10)
    else err invalid

-- The loop over the chunks of two; `(high << 4) | low` has no carry, since digits are below 16.
unfoldable pub hex_pairs : Bytes → Fallible Bytes
hex_pairs [] = ok []
hex_pairs (x ∷ []) = ok []
hex_pairs (x ∷ y ∷ rest) =
    let later = hex_pairs rest in
    hex_digit x >>= λ high. hex_digit y >>= λ low. later >>= λ bytes. ok ((high * 16 + low) ∷ bytes)

unfoldable pub parse_pin : Bytes → Fallible PeerPin
parse_pin value =
    if length value == 64
    then (hex_pairs value >>= λ bytes. ok (record { bytes = bytes }))
    else err invalid
