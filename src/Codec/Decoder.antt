-- ===== src/Codec/Decoder.antt =====
-- `Decoder` of codec.rs: frames are taken from chunks of any size, one frame buffered at most.
pub mod Invariant
pub mod Bytewise
pub mod Chunks
pub mod Frames
use quic_sync.Base.{
  ℕ, zero, suc, ◌+◌, ◌-◌, ◌<◌, ◌≤◌, ◌≡◌, Bool, Option, none, some, List, [], ◌∷◌, ◌++◌, length,
  take, drop, min, ltb, ◌==◌, if◌then◌else◌, ok, err, ◌>>=◌, ◌>>◌,
}
use quic_sync.Base.Words.{Bytes}
use quic_sync.Codec.{
  CodecLimits, CodecError, Coded, varint_overflow, unexpected_eof, max_varint_bytes,
}
use quic_sync.Codec.Varint.{parse_varint}
use quic_sync.Codec.Wire.{WireMessage}
use quic_sync.Codec.Frame.{check_frame_length, decode_payload}

-- `header` holds the first `header_len` bytes of the array. The limits are a parameter.
pub record Decoder : Type 0 where
  pub header : Bytes
  pub expected : Option ℕ
  pub payload : Bytes

-- `Decoder::new`, and the state after `reset`.
abbrev pub fresh : Decoder
fresh = record { header = []; expected = none; payload = [] }

unfoldable pub buffered_len : Decoder → ℕ
buffered_len d = length d.header + length d.payload

unfoldable pub finish : Decoder → Coded (Unit {0})
finish d =
    if length d.header == 0
    then if length d.payload == 0
      then elim d.expected [ none ↦ ok tt | some n ↦ err unexpected_eof ]
      else err unexpected_eof
    else err unexpected_eof

module _ {T : Type 0} (wire : WireMessage T) (limits : CodecLimits) where
  -- The first half of a round of `push`: a byte of the length. Each error resets the decoder.
  unfoldable pub header_byte : Decoder → ℕ → Coded Decoder
  header_byte d byte =
      if length d.header == max_varint_bytes
      then err varint_overflow
      else let header = d.header ++ (byte ∷ []) in
        if ltb byte 128
        then (do
          (declared, used) ← parse_varint header
          check_frame_length declared limits
          ok (record d { header = header; expected = some declared }))
        else ok (record d { header = header })

  -- The end of a round, on the payload so far: the list holds the message that it completes.
  unfoldable pub complete : Decoder → ℕ → Bytes → Bytes → Coded (Decoder × Bytes × List T)
  complete d expected payload rest =
      if length payload == expected
      then (do message ← decode_payload wire limits payload; ok (fresh, rest, message ∷ []))
      else ok (record d { payload = payload }, rest, [])

  -- The second half: payload bytes, as many as are due and at hand.
  unfoldable pub fill_to : Decoder → ℕ → Bytes → Coded (Decoder × Bytes × List T)
  fill_to d expected input =
      let count = min (expected - length d.payload) (length input) in
      complete d expected (d.payload ++ take count input) (drop count input)

  -- `if let Some(expected) = self.expected`
  unfoldable pub fill_if : Option ℕ → Decoder → Bytes → Coded (Decoder × Bytes × List T)
  fill_if none d input = ok (d, input, [])
  fill_if (some n) d input = fill_to d n input

  abbrev pub fill : Decoder → Bytes → Coded (Decoder × Bytes × List T)
  fill d input = fill_if d.expected d input

  -- A round of the loop, on an input that is not empty: a byte of the length is read first if none
  -- is expected yet.
  unfoldable pub round_at : Option ℕ → Decoder → ℕ → Bytes → Coded (Decoder × Bytes × List T)
  round_at none d byte rest = header_byte d byte >>= λ d'. fill d' rest
  round_at (some n) d byte rest = fill d (byte ∷ rest)

  abbrev pub round : Decoder → ℕ → Bytes → Coded (Decoder × Bytes × List T)
  round d byte rest = round_at d.expected d byte rest

  -- The loop, with the rounds left. `none` means that they ran out; after an error the decoder is
  -- reset, and the messages of this call are lost.
  unfoldable pub push_loop : ℕ → Decoder → Bytes → List T → Option (Decoder × Coded (List T))
  push_loop fuel d [] messages = some (d, ok messages)
  push_loop zero d (b ∷ input) messages = none
  push_loop (suc fuel) d (b ∷ input) messages = elim (round d b input) [
    | err e ↦ some (fresh, err e)
    | ok (d', rest, more) ↦ push_loop fuel d' rest (messages ++ more)
  ]

  -- Each round takes a byte at least.
  unfoldable pub push : Decoder → Bytes → Option (Decoder × Coded (List T))
  push d input = push_loop (length input) d input []

-- What `new` sets up and `push` keeps: a length is read byte by byte, then fewer payload bytes are
-- held than it says, and it is within the limit.
abbrev pub IsFilling : CodecLimits → Option ℕ → Bytes → Type 0
IsFilling limits none payload = payload ≡ []
IsFilling limits (some n) payload = (length payload < n) × (n ≤ limits.max_frame_bytes)

pub record IsDecoder (limits : CodecLimits) (d : Decoder) : Type 0 where
  pub header_short : length d.header ≤ 10
  pub filling : IsFilling limits d.expected d.payload
