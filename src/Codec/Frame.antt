-- ===== src/Codec/Frame.antt =====
-- `encode` and `decode` of codec.rs: one message in one length-delimited frame.
pub mod RoundTrip
use quic_sync.Base.{
  ℕ, ◌+◌, ◌^◌, ◌||◌, Bool, List, [], ◌∷◌, ◌++◌, length, take, drop, ltb, ◌==◌, if◌then◌else◌, not,
  ok, err, ◌>>=◌, ◌>>◌, Option, none, some,
}
use quic_sync.Base.Words.{Bytes, to_le_bytes}
use quic_sync.Messages.{current_version}
use quic_sync.Codec.{
  CodecLimits, Coded, frame_too_large, unexpected_eof, trailing_bytes, invalid_value,
  unsupported_version, kind_bytes, version_bytes,
}
use quic_sync.Codec.Varint.{put_varint, parse_varint}
use quic_sync.Codec.Reader
use quic_sync.Codec.Wire.{WireMessage}

unfoldable pub check_frame_length : ℕ → CodecLimits → Coded (Unit {0})
check_frame_length declared limits =
    if ltb limits.max_frame_bytes declared
    then err (frame_too_large declared limits.max_frame_bytes)
    else if ltb declared (kind_bytes + version_bytes)
    then err (invalid_value "frame length")
    else ok tt

module _ {T : Type 0} (wire : WireMessage T) (limits : CodecLimits) where
  -- The payload: the kind, the version, and the fields.
  unfoldable pub payload_of : T → Coded Bytes
  payload_of value = do
    fields ← wire.encode_fields limits value
    ok (wire.kind value ∷ to_le_bytes 2 current_version ++ fields)

  unfoldable pub encode : T → Coded Bytes
  encode value = do
    payload ← payload_of value
    if ltb limits.max_frame_bytes (length payload)
        then err (frame_too_large (length payload) limits.max_frame_bytes)
        else ok (put_varint (length payload) [] ++ payload)

  unfoldable pub decode_payload : Bytes → Coded T
  decode_payload payload = do
    (kind, after_kind) ← Reader.u8 payload
    (version, fields) ← Reader.u16 after_kind
    if version == current_version
        then (do
          (value, rest) ← wire.decode_fields limits kind fields
          Reader.finish rest
          ok value)
        else err (unsupported_version version)

  -- `usize::try_from(declared)` does not fail where `usize` has 64 bits; `checked_add` may.
  unfoldable pub decode : Bytes → Coded T
  decode input = do
    (declared, header_len) ← parse_varint input
    check_frame_length declared limits
    let end = header_len + declared
    if ltb end (2 ^ 64)
        then (if ltb (length input) end
            then err unexpected_eof
            else if length input == end
            then decode_payload (take declared (drop header_len input))
            else err trailing_bytes)
        else err (frame_too_large declared limits.max_frame_bytes)
