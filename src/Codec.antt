-- ===== src/Codec.antt =====
-- crates/quicsync-core/src/protocol/codec.rs: the wire format. The children hold its parts:
-- variable-length integers, the writer and the reader of payload fields, frames, and the
-- incremental decoder.
pub mod Varint
pub mod Writer
pub mod Reader
pub mod Codes
pub mod Wire
pub mod Frame
pub mod Decoder
pub mod RoundTrip
use Prim.Native.String.{String}
use quic_sync.Base.{ℕ, ◌<◌, ◌≤◌, ◌+◌, ◌||◌, ltb, ◌==◌, if◌then◌else◌, Result, ok, err, ◌≡◌, ◌^◌}
use quic_sync.Messages.{ProtocolVersion}

abbrev pub max_varint_bytes : ℕ
max_varint_bytes = 10

abbrev pub version_bytes : ℕ
version_bytes = 2

abbrev pub kind_bytes : ℕ
kind_bytes = 1

pub record CodecLimits : Type 0 where
  pub max_frame_bytes : ℕ
  pub max_path_bytes : ℕ
  pub max_components : ℕ
  pub max_collection_items : ℕ

pub data CodecError : Type 0 where
  invalid_limits : CodecError
  -- the declared length and the limit
  frame_too_large : ℕ → ℕ → CodecError
  varint_overflow noncanonical_varint unexpected_eof trailing_bytes : CodecError
  unknown_message_kind : ℕ → CodecError
  unsupported_version : ProtocolVersion → CodecError
  invalid_value duplicate_value noncanonical_order limit_exceeded : String → CodecError

abbrev pub Coded {ℓ} : Type ℓ → Type ℓ
Coded = Result CodecError

unfoldable pub new_limits : ℕ → ℕ → ℕ → ℕ → Coded CodecLimits
new_limits frame path components items =
    if ltb frame (kind_bytes + version_bytes)
    then err invalid_limits
    else if path == 0 || ltb frame path || components == 0 || items == 0
    then err invalid_limits
    else ok (record {
      max_frame_bytes = frame;
      max_path_bytes = path;
      max_components = components;
      max_collection_items = items;
    })
