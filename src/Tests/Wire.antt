-- ===== src/Tests/Wire.antt =====
-- Messages, frames and the decoder of crates/quicsync-core/src/protocol/codec.rs on concrete bytes.
use mathlib.Core.List.{flatten}
use quic_sync.Base.{
  ℕ, ◌≡◌, ◌≤◌, ◌+◌, refl, true, some, none, List, [], ◌∷◌, ◌++◌, length, ok, err, All, arith,
}
use quic_sync.Base.Words.{Bytes, IsU64}
use quic_sync.Messages.{Control, start_sync, plan_end, IsControl}
use quic_sync.Messages.Utf8.{is_utf8}
use quic_sync.Codec.{
  CodecLimits, CodecError, Coded, noncanonical_varint, unsupported_version, invalid_value,
}
use quic_sync.Codec.RoundTrip.Wire.{control_wire-IsWire}
use quic_sync.Codec.RoundTrip.Records.{IsSized}
use quic_sync.Codec.Wire.{control_wire}
use quic_sync.Codec.Frame.{encode, decode}
use quic_sync.Codec.Frame.RoundTrip.{decode-encode, length-put_varint}
use quic_sync.Codec.Varint.{put_varint, parse_varint}
use quic_sync.Codec.Varint.RoundTrip.{parse_varint-put_varint, put_varint-parse_varint}
use quic_sync.Codec.Decoder.{Decoder, fresh, push, IsDecoder, buffered_len}
use quic_sync.Codec.Decoder.Invariant.{fresh-IsDecoder}
use quic_sync.Codec.Decoder.Bytewise.{push-feed_all, feed_all, outcome, joined}
use quic_sync.Codec.Decoder.Chunks.{push-append, push-append_err, push-IsDecoder}
use quic_sync.Codec.Decoder.Frames.{push-encode, encode_all}

abbrev limits : CodecLimits
limits = record {
  max_frame_bytes = 128;
  max_path_bytes = 32;
  max_components = 4;
  max_collection_items = 4;
}

limits-IsSized : IsSized limits
limits-IsSized = record {
  frame_fits = omega arith;
  path_fits = omega arith;
  count_fits = omega arith;
}

abbrev start : Control
start = start_sync (b'a' ∷ b'b' ∷ [])

start-IsControl : IsControl start
unfolding is_utf8
start-IsControl = (refl, (omega arith, (omega arith, tt)))

abbrev start_frame : Bytes
start_frame = 6 ∷ 3 ∷ 1 ∷ 0 ∷ 2 ∷ b'a' ∷ b'b' ∷ []

start_encoded : encode control_wire limits start ≡ ok start_frame
unfolding encode quic_sync.Codec.Frame.payload_of quic_sync.Codec.Wire.encode_control
    quic_sync.Codec.Writer.string quic_sync.Codec.Writer.bytes quic_sync.Codec.Writer.◌<+>◌
    quic_sync.Base.Words.to_le_bytes put_varint quic_sync.Codec.Wire.control_kind
start_encoded = refl

abbrev end_frame : Bytes
end_frame = 3 ∷ 11 ∷ 1 ∷ 0 ∷ []

both_encoded :
    encode_all control_wire limits (start ∷ plan_end ∷ []) ≡ ok (start_frame ∷ end_frame ∷ [])
unfolding encode_all encode quic_sync.Codec.Frame.payload_of quic_sync.Codec.Wire.encode_control
    quic_sync.Codec.Writer.string quic_sync.Codec.Writer.bytes quic_sync.Codec.Writer.◌<+>◌
    quic_sync.Base.Words.to_le_bytes put_varint quic_sync.Codec.Wire.control_kind
both_encoded = refl

-- A second frame of the version 2.
newer : decode control_wire limits (3 ∷ 11 ∷ 2 ∷ 0 ∷ []) ≡ err (unsupported_version 2)
unfolding decode parse_varint quic_sync.Codec.Frame.check_frame_length
    quic_sync.Codec.Frame.decode_payload quic_sync.Codec.Reader.u8 quic_sync.Codec.Reader.u16
    quic_sync.Codec.Reader.take quic_sync.Base.Words.from_le_bytes
newer = refl

abbrev partial : Decoder
partial = record { header = 6 ∷ []; expected = some 6; payload = 3 ∷ 1 ∷ [] }

partial_pushed : push control_wire limits fresh (6 ∷ 3 ∷ 1 ∷ []) ≡ some (partial, ok [])
unfolding push quic_sync.Codec.Decoder.push_loop quic_sync.Codec.Decoder.round_at
    quic_sync.Codec.Decoder.header_byte parse_varint quic_sync.Codec.Frame.check_frame_length
    quic_sync.Codec.Decoder.fill_if quic_sync.Codec.Decoder.fill_to quic_sync.Codec.Decoder.complete
partial_pushed = refl

partial_refused :
    push control_wire limits fresh (2 ∷ 3 ∷ []) ≡ some (fresh, err (invalid_value "frame length"))
unfolding push quic_sync.Codec.Decoder.push_loop quic_sync.Codec.Decoder.round_at
    quic_sync.Codec.Decoder.header_byte parse_varint quic_sync.Codec.Frame.check_frame_length
partial_refused = refl

decode-encode_example : decode control_wire limits start_frame ≡ ok start
decode-encode_example =
    decode-encode control_wire-IsWire limits limits-IsSized start start_frame (omega arith)
      start-IsControl start_encoded

push-encode_example :
    push control_wire limits fresh (flatten (start_frame ∷ end_frame ∷ []))
    ≡ some (fresh, ok (start ∷ plan_end ∷ []))
push-encode_example =
    push-encode control_wire-IsWire limits limits-IsSized (start ∷ plan_end ∷ [])
      (start_frame ∷ end_frame ∷ []) (start-IsControl, (tt, tt)) both_encoded

parse_varint-put_varint_example :
    parse_varint (put_varint 300 [] ++ (7 ∷ [])) ≡ ok (300, length (put_varint 300 []))
parse_varint-put_varint_example = parse_varint-put_varint 300 (7 ∷ []) (omega arith)

three_hundred : parse_varint (172 ∷ 2 ∷ 7 ∷ []) ≡ ok (300, 2)
unfolding parse_varint
three_hundred = refl

put_varint-parse_varint_example :
    IsU64 300
    × ((rest : Bytes) × (172 ∷ 2 ∷ 7 ∷ [] ≡ put_varint 300 [] ++ rest))
    × (2 ≡ length (put_varint 300 []))
put_varint-parse_varint_example =
    put_varint-parse_varint (172 ∷ 2 ∷ 7 ∷ []) 300 2 (omega arith, (omega arith, (omega arith, tt)))
      three_hundred

length-put_varint_example : (1 ≤ length (put_varint 300 [])) × (length (put_varint 300 []) ≤ 10)
length-put_varint_example = length-put_varint 300 (omega arith)

push-append_example :
    (r : Decoder × Coded (List Control)) × (push control_wire limits partial (0 ∷ 2 ∷ []) ≡ some r)
    × (push control_wire limits fresh (6 ∷ 3 ∷ 1 ∷ [] ++ (0 ∷ 2 ∷ []))
        ≡ some (joined control_wire limits [] r))
push-append_example =
    push-append control_wire limits fresh partial (6 ∷ 3 ∷ 1 ∷ []) (0 ∷ 2 ∷ []) []
      (fresh-IsDecoder limits) partial_pushed

push-append_err_example :
    push control_wire limits fresh (2 ∷ 3 ∷ [] ++ start_frame)
    ≡ some (fresh, err (invalid_value "frame length"))
push-append_err_example =
    push-append_err control_wire limits fresh fresh (2 ∷ 3 ∷ []) start_frame
      (invalid_value "frame length") (fresh-IsDecoder limits) partial_refused

push-IsDecoder_example :
    (d' : Decoder) × (r : Coded (List Control)) × (push control_wire limits fresh start_frame
      ≡ some (d', r))
    × IsDecoder limits d'
    × (buffered_len d' ≤ 10 + limits.max_frame_bytes)
push-IsDecoder_example =
    push-IsDecoder control_wire limits fresh start_frame (fresh-IsDecoder limits)

push-feed_all_example :
    push control_wire limits fresh start_frame
    ≡ some (outcome control_wire limits [] (feed_all control_wire limits fresh start_frame))
push-feed_all_example = push-feed_all control_wire limits fresh start_frame (fresh-IsDecoder limits)
