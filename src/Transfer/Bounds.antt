-- ===== src/Transfer/Bounds.antt =====
-- The size of the chunks of crates/quicsync-core/src/sync/transfer.rs and the limit on frames.
use quic_sync.Base.{
  ℕ, ◌+◌, ◌≤◌, ◌≡◌, refl, false, [], ◌∷◌, ◌++◌, length, length-append, ltb, ge→ltb, ok, arith,
}
use quic_sync.Base.Words.{Bytes, to_le_bytes, length-to_le_bytes}
use quic_sync.Config.{Limits}
use quic_sync.Messages.{current_version, FileTransfer, whole_file, signature, delta}
use quic_sync.Codec.{CodecLimits}
use quic_sync.Codec.Varint.{put_varint}
use quic_sync.Codec.Wire.{encode_transfer, transfer_kind, transfer_wire}
use quic_sync.Codec.Frame.{encode, payload_of}
use quic_sync.Codec.Frame.RoundTrip.{length-put_varint}
use quic_sync.Codec.Writer
use quic_sync.Transfer.{chunk_size, codec_limits}

chunk_size-fits :
    (limits : Limits) (n : ℕ)
    → chunk_size limits ≡ ok n
    → (n + 32 ≤ limits.max_frame_bytes) × (n ≤ 65536)
unfolding chunk_size
chunk_size-fits limits n h = ground (arith)

encode-fitting :
    (limits : CodecLimits) (m : FileTransfer) (fields : Bytes)
    → encode_transfer limits m ≡ ok fields
    → length fields + 3 ≤ limits.max_frame_bytes
    → (frame : Bytes) × (encode transfer_wire limits m ≡ ok frame)
unfolding encode payload_of
encode-fitting limits m fields h k =
    let payload : Bytes = transfer_kind m ∷ to_le_bytes 2 current_version ++ fields in
    let size : length payload ≡ 3 + length fields = omega (
      arith,
      length-append (to_le_bytes 2 current_version) fields,
      length-to_le_bytes 2 current_version,
    ) in
    let fits : ltb limits.max_frame_bytes (length payload) ≡ false =
      ge→ltb limits.max_frame_bytes (length payload) (omega (arith, size)) in
    (put_varint (length payload) [] ++ payload, rw (encode, payload_of, h, fits) refl)

-- The fields of a chunk: its length and its bytes.
length-chunk :
    (bytes : Bytes)
    → length bytes ≤ 65536
    → length (put_varint (length bytes) [] ++ bytes) ≤ length bytes + 10
length-chunk bytes h =
    let bound = length-put_varint (length bytes) (omega arith) in
    omega (arith, bound.1, length-append (put_varint (length bytes) []) bytes)

-- Where a transfer is started with a limit on frames, its chunks are small enough: a message of a chunk
-- of at most their size is written within the limit, be it of a whole file, a signature or a delta.
pub encode-chunk_size :
    (limits : Limits) (n : ℕ) (bytes : Bytes)
    → chunk_size limits ≡ ok n
    → length bytes ≤ n
    → ((frame : Bytes) × (encode transfer_wire (codec_limits limits) (whole_file bytes) ≡ ok frame))
      × ((frame : Bytes) × (encode transfer_wire (codec_limits limits) (signature bytes)
            ≡ ok frame))
      × ((frame : Bytes) × (encode transfer_wire (codec_limits limits) (delta bytes) ≡ ok frame))
unfolding encode_transfer codec_limits Writer.bytes Writer.◌<+>◌
encode-chunk_size limits n bytes h k =
    let (room, small) = chunk_size-fits limits n h in
    let fields : Bytes = put_varint (length bytes) [] ++ bytes in
    let few : length fields ≤ length bytes + 10 = length-chunk bytes (omega arith) in
    let fits : length fields + 3 ≤ limits.max_frame_bytes = omega (arith, few) in
    (
      encode-fitting (codec_limits limits) (whole_file bytes) fields refl fits,
      encode-fitting (codec_limits limits) (signature bytes) fields refl fits,
      encode-fitting (codec_limits limits) (delta bytes) fields refl fits,
    )
