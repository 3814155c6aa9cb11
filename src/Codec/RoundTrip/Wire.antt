-- ===== src/Codec/RoundTrip/Wire.antt =====
-- The round trip of the fields of every kind of message, as a law of the trait `WireMessage`.
use quic_sync.Base.{arith, ◌<◌, ◌^◌}
use quic_sync.Types.{RelativePath, OperationId}
use quic_sync.Messages.{
  Control, start_sync, start_accepted, operation, plan_end, complete_ack, failure, IndexMessage,
  index_record, index_end, FileTransfer, update_request, create_request, whole_file, signature,
  signature_end, delta, transfer_end, transfer_accepted, IsControl, IsIndexMessage, IsFileTransfer,
  IsWirePath,
}
use quic_sync.Codec.{CodecLimits}
use quic_sync.Codec.Reader
use quic_sync.Codec.Reader.{◌>>=◌, pure}
use quic_sync.Codec.Writer
use quic_sync.Codec.Writer.{◌<+>◌}
use quic_sync.Codec.Codes.{Codes, Codes-bind, Codes-map, Codes-pure}
use quic_sync.Codec.Wire.{WireMessage, control_wire, index_wire, transfer_wire}
use quic_sync.Codec.Wire.{control_kind, encode_control, decode_control, index_kind, encode_index}
use quic_sync.Codec.Wire.{decode_index, transfer_kind, encode_transfer, decode_transfer}
use quic_sync.Codec.RoundTrip.Fields.{Codes-u64, Codes-field, Codes-string}
use quic_sync.Codec.RoundTrip.Paths.{Codes-path}
use quic_sync.Codec.RoundTrip.Records.{IsSized, Codes-record, Codes-operation, Codes-failure}

-- What an implementation of `WireMessage` owes, for limits that fit the word: the kind is a byte,
-- and the fields of a value that the Rust type admits, where they are written in no more bytes than
-- `max_frame_bytes`, are read back under its kind.
pub record IsWire {T : Type 0} (wire : WireMessage T) (Valid : T → Type 0) : Type 0 where
  pub kind_byte : (m : T) → wire.kind m < 256
  pub codes :
      (limits : CodecLimits) (m : T)
      → IsSized limits
      → Valid m
      → Codes limits (wire.encode_fields limits m) (wire.decode_fields limits (wire.kind m)) m

control_kind_byte : (m : Control) → control_kind m < 256
unfolding control_kind
control_kind_byte plan_end = omega arith
control_kind_byte _ = omega arith

index_kind_byte : (m : IndexMessage) → index_kind m < 256
unfolding index_kind
index_kind_byte index_end = omega arith
index_kind_byte _ = omega arith

transfer_kind_byte : (m : FileTransfer) → transfer_kind m < 256
unfolding transfer_kind
transfer_kind_byte signature_end = omega arith
transfer_kind_byte _ = omega arith

module _ (limits : CodecLimits) where
  control-Codes :
      (m : Control)
      → IsSized limits
      → IsControl m
      → Codes limits (encode_control limits m) (decode_control limits (control_kind m)) m
  unfolding control_kind encode_control decode_control
  control-Codes (start_sync s) sized h =
      Codes-map _ _ start_sync s (Codes-string sized.frame_fits s h)
  control-Codes (operation o) sized h = Codes-map _ _ operation o (Codes-operation sized o h)
  control-Codes (failure f) sized h = Codes-map _ _ failure f (Codes-failure sized f h)
  control-Codes start_accepted sized h = Codes-pure start_accepted
  control-Codes plan_end sized h = Codes-pure plan_end
  control-Codes complete_ack sized h = Codes-pure complete_ack

  index-Codes :
      (m : IndexMessage)
      → IsSized limits
      → IsIndexMessage m
      → Codes limits (encode_index limits m) (decode_index limits (index_kind m)) m
  unfolding index_kind encode_index decode_index
  index-Codes (index_record r) sized h = Codes-map _ _ index_record r (Codes-record sized r h)
  index-Codes index_end sized h = Codes-pure index_end

  Codes-request :
      (id : OperationId) (p : RelativePath) (make : OperationId → RelativePath → FileTransfer)
      → IsSized limits
      → IsWirePath p
      → id < 2 ^ 64
      → Codes limits
          (Writer.u64 id <+> Writer.path limits p)
          (Reader.u64 >>= λ i. Reader.path limits >>= λ q. pure (make i q))
          (make id p)
  Codes-request id p make sized h fits =
      Codes-bind _ _ _ _ id (make id p) (Codes-u64 id fits)
        (Codes-map _ _ (make id) p (Codes-path p sized.path_fits sized.count_fits h.0))

  transfer-Codes :
      (m : FileTransfer)
      → IsSized limits
      → IsFileTransfer m
      → Codes limits (encode_transfer limits m) (decode_transfer limits (transfer_kind m)) m
  unfolding transfer_kind encode_transfer decode_transfer
  transfer-Codes (update_request i p) sized h = Codes-request i p update_request sized h.1 h.0
  transfer-Codes (create_request i p) sized h = Codes-request i p create_request sized h.1 h.0
  transfer-Codes (whole_file s) sized h =
      Codes-map _ _ whole_file s (Codes-field sized.frame_fits s)
  transfer-Codes (signature s) sized h = Codes-map _ _ signature s (Codes-field sized.frame_fits s)
  transfer-Codes (delta s) sized h = Codes-map _ _ delta s (Codes-field sized.frame_fits s)
  transfer-Codes (transfer_accepted i) sized h = Codes-map _ _ transfer_accepted i (Codes-u64 i h)
  transfer-Codes signature_end sized h = Codes-pure signature_end
  transfer-Codes transfer_end sized h = Codes-pure transfer_end

-- Every control message that the Rust types admit has a kind below 256. For limits that fit the word,
-- its fields, where they are written in no more bytes than the limit on a frame, are read back under
-- this kind, whatever follows them.
pub control_wire-IsWire : IsWire control_wire IsControl
control_wire-IsWire = record { kind_byte = control_kind_byte; codes = control-Codes }

-- Every index message that the Rust types admit has a kind below 256. For limits that fit the word,
-- its fields, where they are written in no more bytes than the limit on a frame, are read back under
-- this kind, whatever follows them.
pub index_wire-IsWire : IsWire index_wire IsIndexMessage
index_wire-IsWire = record { kind_byte = index_kind_byte; codes = index-Codes }

-- Every file transfer message that the Rust types admit has a kind below 256. For limits that fit
-- the word, its fields, where they are written in no more bytes than the limit on a frame, are read
-- back under this kind, whatever follows them.
pub transfer_wire-IsWire : IsWire transfer_wire IsFileTransfer
transfer_wire-IsWire = record { kind_byte = transfer_kind_byte; codes = transfer-Codes }
