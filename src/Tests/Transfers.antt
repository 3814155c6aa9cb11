-- ===== src/Tests/Transfers.antt =====
-- The chunks of crates/quicsync-core/src/sync/transfer.rs on a small file.
use quic_sync.Base.{
  ℕ, suc, ◌≡◌, ◌==◌, length, Bool, true, refl, Option, some, none, List, [], ◌∷◌, ok, err, arith,
}
use quic_sync.Base.Words.{Bytes}
use quic_sync.Config.{default_limits}
use quic_sync.Metadata.{read_all}
use quic_sync.Messages.{FileTransfer, whole_file, signature, delta, transfer_accepted}
use quic_sync.Codec.Wire.{transfer_wire}
use quic_sync.Codec.Frame.{encode}
use quic_sync.Transfer.{
  Chunk, Input, data_chunk, new_input, chunk_size, codec_limits, produce, whole_files,
  send_messages, end_chunk, send_whole, receive_whole, read, accepted, failure,
}
use quic_sync.Transfer.Content.{drain}
use quic_sync.Transfer.Whole.{AreWithin, send_whole-drain, receive_whole-send_whole}
use quic_sync.Error.{PeerError}
use quic_sync.Transfer.Bounds.{encode-chunk_size}

abbrev reads : List (Option Bytes)
reads = some (1 ∷ 2 ∷ []) ∷ some (3 ∷ []) ∷ some [] ∷ []

abbrev never : ℕ → Option PeerError
never n = none

abbrev stays : ℕ → Bool
stays n = true

reads-AreWithin : AreWithin 2 reads
reads-AreWithin = ground arith

abbrev bytes : Bytes
bytes = 1 ∷ 2 ∷ 3 ∷ []

reads_give : read_all reads ≡ ok bytes
unfolding read_all
reads_give = refl

send_whole-drain_example :
    (messages : List FileTransfer) × (chunks : List Chunk) × (send_whole never stays 2 0 reads
      ≡ (messages, ok tt))
    × (receive_whole messages ≡ (chunks, ok tt))
    × (drain 4 2 (new_input chunks) ≡ ok bytes)
send_whole-drain_example =
    send_whole-drain never stays 2 0 reads bytes 1 4 (λ k. refl) (λ k. refl) reads-AreWithin
      reads_give (omega arith)

abbrev sent_chunks : List Chunk
sent_chunks = data_chunk (1 ∷ 2 ∷ []) ∷ data_chunk (3 ∷ []) ∷ end_chunk ∷ []

taken : receive_whole (send_whole never stays 2 0 reads).0 ≡ (sent_chunks, ok tt)
unfolding send_whole produce send_messages whole_files receive_whole
taken = refl

receive_whole-send_whole_example :
    (given : Bytes) × (read_all reads ≡ ok given)
    × (drain (suc (length given)) 2 (new_input sent_chunks) ≡ ok given)
receive_whole-send_whole_example =
    receive_whole-send_whole never stays 2 0 reads sent_chunks 1 reads-AreWithin taken

-- The second read fails when the first chunk is passed on: that one has gone out.
second_read_fails :
    send_whole never stays 2 1 (some (1 ∷ 2 ∷ []) ∷ none ∷ [])
    ≡ (whole_file (1 ∷ 2 ∷ []) ∷ [], err failure)
unfolding send_whole produce send_messages whole_files
second_read_fails = refl

-- The consumer goes away behind one chunk.
consumer_closed : produce (λ n. n == 0) 2 0 reads ≡ ((1 ∷ 2 ∷ []) ∷ [], err failure)
unfolding produce
consumer_closed = refl

-- A channel that closes without the end is an error for the reader.
interrupted : drain 4 2 (new_input (data_chunk (1 ∷ []) ∷ [])) ≡ err failure
unfolding drain read quic_sync.Transfer.read_loop
interrupted = refl

other_id : accepted 3 (transfer_accepted 4) ≡ err failure
unfolding accepted
other_id = refl

default_chunks : chunk_size default_limits ≡ ok 65536
unfolding chunk_size
default_chunks = refl

encode-chunk_size_example :
    ((frame : Bytes) × (encode transfer_wire (codec_limits default_limits) (whole_file bytes)
        ≡ ok frame))
    × ((frame : Bytes) × (encode transfer_wire (codec_limits default_limits) (signature bytes)
          ≡ ok frame))
    × ((frame : Bytes) × (encode transfer_wire (codec_limits default_limits) (delta bytes)
          ≡ ok frame))
encode-chunk_size_example =
    encode-chunk_size default_limits 65536 bytes default_chunks (omega arith)
