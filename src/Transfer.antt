-- ===== src/Transfer.antt =====
-- crates/quicsync-core/src/sync/transfer.rs: the chunks of a file and the reader that puts them
-- together again.
pub mod Content
pub mod CutOff
pub mod Whole
pub mod Bounds
use quic_sync.Base.{
  ℕ, suc, ◌+◌, ◌-◌, Bool, true, false, Option, none, some, List, [], ◌∷◌, ◌++◌, take, drop, min,
  ltb, ◌==◌, if◌then◌else◌, ok, err, ◌>>=◌,
}
use quic_sync.Base.Words.{Bytes}
use quic_sync.Error.{PeerError, Fallible, failed_with, operation_failed}
use quic_sync.Config.{Limits}
use quic_sync.Codec.{CodecLimits}
use quic_sync.Types.{OperationId, RelativePath}
use quic_sync.Messages.{
  FileTransfer, whole_file, transfer_end, update_request, create_request, transfer_accepted,
  signature, signature_end, delta,
}

abbrev pub failure : PeerError
failure = failed_with operation_failed

-- crates/quicsync-core/src/protocol/codec.rs: `From<&Limits>`.
unfoldable pub codec_limits : Limits → CodecLimits
codec_limits limits = record {
  max_frame_bytes = limits.max_frame_bytes;
  max_path_bytes = limits.max_path_bytes;
  max_components = limits.max_components;
  max_collection_items = limits.max_components;
}

-- `Wire::new`: room for the fields around a chunk.
unfoldable pub chunk_size : Limits → Fallible ℕ
chunk_size limits =
    if ltb 32 limits.max_frame_bytes
    then ok (min (limits.max_frame_bytes - 32) 65536)
    else err failure

pub data Chunk : Type 0 where
  data_chunk : Bytes → Chunk
  end_chunk : Chunk

-- The channel's chunks left, with the channel closed behind the last, the bytes at hand, and whether
-- the end was received.
pub record Input : Type 0 where
  pub rx : List Chunk
  pub current : Bytes
  pub ended : Bool

abbrev pub new_input : List Chunk → Input
new_input rx = record { rx = rx; current = []; ended = false }

-- The loop of `read` for at most so many bytes, more than none.
unfoldable pub read_loop : ℕ → Bytes → Bool → List Chunk → Fallible (Bytes × Input)
read_loop n (b ∷ bs) ended rx =
    ok (take n (b ∷ bs), record { rx = rx; current = drop n (b ∷ bs); ended = ended })
read_loop n [] true rx = ok ([], record { rx = rx; current = []; ended = true })
read_loop n [] false [] = err failure
read_loop n [] false (data_chunk bytes ∷ rx) = read_loop n bytes false rx
read_loop n [] false (end_chunk ∷ rx) = read_loop n [] true rx

unfoldable pub read : ℕ → Input → Fallible (Bytes × Input)
read n input = if n == 0 then ok ([], input) else read_loop n input.current input.ended input.rx

-- The consumer receives as long as `open_after` holds of the number of chunks sent, and the buffer
-- has `size` bytes.
module _ (open_after : ℕ → Bool) (size : ℕ) where
  -- The chunks sent behind so many others for the reads of a file, until one returns nothing.
  unfoldable pub produce : ℕ → List (Option Bytes) → List Bytes × Fallible (Unit {0})
  produce sent [] = ([], ok tt)
  produce sent (none ∷ rest) = ([], err failure)
  produce sent (some [] ∷ rest) = ([], ok tt)
  produce sent (some (b ∷ bs) ∷ rest) =
      let (chunks, result) = produce (suc sent) rest in
      if open_after sent then (take size (b ∷ bs) ∷ chunks, result) else ([], err failure)

-- The messages of a whole file.
unfoldable pub whole_files : List Bytes → List FileTransfer
whole_files [] = []
whole_files (c ∷ cs) = whole_file c ∷ whole_files cs

-- `Wire::send` of each message behind so many others: what went out, until one is refused.
unfoldable pub send_messages :
    (ℕ → Option PeerError) → ℕ → List FileTransfer → List FileTransfer × Fallible (Unit {0})
send_messages refused sent [] = ([], ok tt)
send_messages refused sent (m ∷ ms) =
    let (out, result) = send_messages refused (suc sent) ms in
    elim (refused sent) [ none ↦ (m ∷ out, result) | some e ↦ ([], err e) ]

-- The messages that went out, and how sending ended. Where the worker fails, `try_join!` ends the
-- loop that sends, which has passed on so many of the chunks; an error of that loop comes first.
unfoldable pub send_whole :
    (ℕ → Option PeerError)
    → (ℕ → Bool)
    → ℕ
    → ℕ
    → List (Option Bytes)
    → List FileTransfer × Fallible (Unit {0})
send_whole refused open_after size passed reads =
    let (chunks, result) = produce open_after size 0 reads in
    elim result [
      | ok _ ↦ send_messages refused 0 (whole_files chunks ++ (transfer_end ∷ []))
      | err e ↦
          let (out, sending) = send_messages refused 0 (whole_files (take passed chunks)) in
          (out, sending >>= λ _. err e)
    ]

-- The chunks that the receiver makes of messages.
unfoldable pub receive_whole : List FileTransfer → List Chunk × Fallible (Unit {0})
receive_whole [] = ([], err failure)
receive_whole (whole_file bytes ∷ rest) =
    let (chunks, result) = receive_whole rest in (data_chunk bytes ∷ chunks, result)
receive_whole (transfer_end ∷ rest) = (end_chunk ∷ [], ok tt)
receive_whole (_ ∷ rest) = ([], err failure)

-- The first message of the destination, and what the source reads of it.
unfoldable pub request : Bool → OperationId → RelativePath → FileTransfer
request true id path = update_request id path
request false id path = create_request id path

unfoldable pub requested : FileTransfer → Fallible (OperationId × RelativePath × Bool)
requested (update_request id path) = ok (id, path, true)
requested (create_request id path) = ok (id, path, false)
requested _ = err failure

-- The last message, which the source waits for.
unfoldable pub accepted : OperationId → FileTransfer → Fallible (Unit {0})
accepted id (transfer_accepted other) = if id == other then ok tt else err failure
accepted id _ = err failure

-- The signature of the basis, and the delta, as messages and as the chunks received.
unfoldable pub signature_messages : List Bytes → List FileTransfer
signature_messages [] = signature_end ∷ []
signature_messages (c ∷ cs) = signature c ∷ signature_messages cs

unfoldable pub delta_messages : List Bytes → List FileTransfer
delta_messages [] = transfer_end ∷ []
delta_messages (c ∷ cs) = delta c ∷ delta_messages cs

unfoldable pub receive_signature : List FileTransfer → List Chunk × Fallible (Unit {0})
receive_signature [] = ([], err failure)
receive_signature (signature bytes ∷ rest) =
    let (chunks, result) = receive_signature rest in (data_chunk bytes ∷ chunks, result)
receive_signature (signature_end ∷ rest) = (end_chunk ∷ [], ok tt)
receive_signature (_ ∷ rest) = ([], err failure)

unfoldable pub receive_delta : List FileTransfer → List Chunk × Fallible (Unit {0})
receive_delta [] = ([], err failure)
receive_delta (delta bytes ∷ rest) =
    let (chunks, result) = receive_delta rest in (data_chunk bytes ∷ chunks, result)
receive_delta (transfer_end ∷ rest) = (end_chunk ∷ [], ok tt)
receive_delta (_ ∷ rest) = ([], err failure)
