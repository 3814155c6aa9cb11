-- ===== src/Codec/Wire.antt =====
-- The trait `WireMessage` of codec.rs and its three implementations.
use quic_sync.Base.{ℕ, ◌==◌, if◌then◌else◌, ok, []}
use quic_sync.Base.Words.{Bytes}
use quic_sync.Messages.{
  Control, start_sync, start_accepted, operation, plan_end, complete_ack, failure, IndexMessage,
  index_record, index_end, FileTransfer, update_request, create_request, whole_file, signature,
  signature_end, delta, transfer_end, transfer_accepted,
}
use quic_sync.Codec.{CodecLimits, Coded, unknown_message_kind}
use quic_sync.Codec.Writer
use quic_sync.Codec.Writer.{◌<+>◌}
use quic_sync.Codec.Reader
use quic_sync.Codec.Reader.{Reader, ◌>>=◌, pure, fail}

pub record WireMessage (T : Type 0) : Type 0 where
  pub kind : T → ℕ
  pub encode_fields : CodecLimits → T → Coded Bytes
  pub decode_fields : CodecLimits → ℕ → Reader T

unfoldable pub control_kind : Control → ℕ
control_kind (start_sync root_id) = 3
control_kind start_accepted = 7
control_kind (operation o) = 10
control_kind plan_end = 11
control_kind complete_ack = 13
control_kind (failure f) = 15

unfoldable pub encode_control : CodecLimits → Control → Coded Bytes
encode_control limits (start_sync root_id) = Writer.string root_id
encode_control limits (operation o) = Writer.operation limits o
encode_control limits (failure f) = Writer.failure limits f
encode_control limits _ = ok []

unfoldable pub decode_control : CodecLimits → ℕ → Reader Control
decode_control limits kind =
    if kind == 3
    then (do root_id ← Reader.string limits; pure (start_sync root_id))
    else if kind == 7
    then pure start_accepted
    else if kind == 10
    then (do o ← Reader.operation limits; pure (operation o))
    else if kind == 11
    then pure plan_end
    else if kind == 13
    then pure complete_ack
    else if kind == 15
    then (do f ← Reader.failure limits; pure (failure f))
    else fail (unknown_message_kind kind)

unfoldable pub index_kind : IndexMessage → ℕ
index_kind (index_record r) = 1
index_kind index_end = 2

unfoldable pub encode_index : CodecLimits → IndexMessage → Coded Bytes
encode_index limits (index_record r) = Writer.record_fields limits r
encode_index limits index_end = ok []

unfoldable pub decode_index : CodecLimits → ℕ → Reader IndexMessage
decode_index limits kind =
    if kind == 1
    then (do r ← Reader.record_fields limits; pure (index_record r))
    else if kind == 2
    then pure index_end
    else fail (unknown_message_kind kind)

unfoldable pub transfer_kind : FileTransfer → ℕ
transfer_kind (update_request id path) = 1
transfer_kind (create_request id path) = 7
transfer_kind (whole_file content) = 8
transfer_kind (signature content) = 2
transfer_kind signature_end = 3
transfer_kind (delta content) = 4
transfer_kind transfer_end = 5
transfer_kind (transfer_accepted id) = 6

unfoldable pub encode_transfer : CodecLimits → FileTransfer → Coded Bytes
encode_transfer limits (update_request id path) = Writer.u64 id <+> Writer.path limits path
encode_transfer limits (create_request id path) = Writer.u64 id <+> Writer.path limits path
encode_transfer limits (signature content) = Writer.bytes content
encode_transfer limits (delta content) = Writer.bytes content
encode_transfer limits (whole_file content) = Writer.bytes content
encode_transfer limits signature_end = ok []
encode_transfer limits transfer_end = ok []
encode_transfer limits (transfer_accepted id) = Writer.u64 id

unfoldable pub decode_transfer : CodecLimits → ℕ → Reader FileTransfer
decode_transfer limits kind =
    if kind == 1
    then (do id ← Reader.u64; path ← Reader.path limits; pure (update_request id path))
    else if kind == 2
    then (do content ← Reader.bytes limits; pure (signature content))
    else if kind == 3
    then pure signature_end
    else if kind == 4
    then (do content ← Reader.bytes limits; pure (delta content))
    else if kind == 5
    then pure transfer_end
    else if kind == 6
    then (do id ← Reader.u64; pure (transfer_accepted id))
    else if kind == 7
    then (do id ← Reader.u64; path ← Reader.path limits; pure (create_request id path))
    else if kind == 8
    then (do content ← Reader.bytes limits; pure (whole_file content))
    else fail (unknown_message_kind kind)

abbrev pub control_wire : WireMessage Control
control_wire = record {
  kind = control_kind;
  encode_fields = encode_control;
  decode_fields = decode_control;
}

abbrev pub index_wire : WireMessage IndexMessage
index_wire = record {
  kind = index_kind;
  encode_fields = encode_index;
  decode_fields = decode_index;
}

abbrev pub transfer_wire : WireMessage FileTransfer
transfer_wire = record {
  kind = transfer_kind;
  encode_fields = encode_transfer;
  decode_fields = decode_transfer;
}
