-- ===== src/Lib.antt =====
-- QuicSync mirrors a source directory onto a destination over QUIC. The source and the destination
-- scan their trees into ordered indexes of records; the destination's planner merges the two into
-- operations; files are transferred and the result is committed. All messages go through one codec.
-- Paths below are relative to crates/quicsync-core/src.
--
-- The parts and their files:
-- - Types and its children: types.rs. A `Vec<u8>` is a list of natural numbers, and the predicates
--   IsPath, IsDigest, IsMetadata and IsRecord say what the Rust types guarantee of values.
-- - Error, Error/Codes: error.rs. Elsewhere an error is its code and phase, the PeerError: the
--   diagnostic texts are for people and no code reads them.
-- - Messages, Messages/Utf8: protocol/messages.rs, and the check of `String::from_utf8`.
-- - Codec and its children: protocol/codec.rs. Varint has `put_varint` and `parse_varint`, Writer
--   and Reader the methods of these names, Wire the trait `WireMessage` and its implementations,
--   Frame `encode` and `decode`, and Decoder the incremental decoder. A method of `Writer` returns
--   the bytes that it pushes; a `Reader` is a function of the bytes left.
-- - Planner and its children: sync/planner.rs. A channel is the list of what is received from it,
--   closed behind the last item; the consumer receives as long as a predicate holds of the number
--   of operations sent.
-- - Config and its children: config.rs. Files has the checks on directories and files, Load the two
--   configurations. The operating system, the TOML parser and the parser of socket addresses are
--   parameters.
-- - Auth and its children: auth.rs. Der has the DER reader and writer, Certificate the fingerprint
--   of a certificate and the self-signed certificate, Grants the authorizer and the check of pins.
--   SHA-256, signing and random bytes are parameters.
-- - Paths and its children: filesystem/paths.rs. Paths has `decode_relative_path`, and
--   `append_component` of filesystem/scan.rs; Paths/Resolve the walk through descriptors.
-- - Metadata: filesystem/metadata.rs. The operating system and BLAKE3 are parameters.
-- - Ignore and Ignore/Decision: filesystem/ignore.rs. The matcher of the crate `ignore` is a
--   parameter.
-- - Scan and its children: filesystem/scan.rs. Names has the order of a directory's entries, Order
--   and Growth what a step adds to the index, Depth why the walk ends, Root `scan_root`, Managed
--   the entries that are managed, Ended and Complete their records, and Synced the scans of two
--   roots with the plan for them. The receiver of the channel is a predicate on the number of
--   messages sent.
-- - System: the calls on descriptors, as functions of a state of the world.
-- - Staging: filesystem/staging.rs.
-- - Commit and its children: sync/commit.rs. Commit has the order of the changes, over an interface
--   of what makes a change, and Install fills the interface. Schedule is the order as a list,
--   Replayed compares it with the code, Past, Touched and Stack have the paths in it, Done and
--   Whole the operations in it, Staged the changes kept while transfers run, Times the time of a
--   link.
-- - Transfer and its children: sync/transfer.rs. A channel is the list of its chunks, closed behind
--   the last; the reads of a file are the list of what each returns. What is sent takes as parameters
--   whether the consumer of the chunks is still there, which message is refused, and how many chunks
--   have been passed on when the worker fails. Content is the loop of a reader, CutOff the messages
--   that are refused, Whole what arrives of a file.
-- - Base: what the others share: tests, lists, results, words of machine width and total orders.
-- - Tests: runs on concrete values and instances of the theorems.
--
-- How the parts meet: a scan asks the ignore policy and the metadata for each entry and sends
-- records to the planner, which sends the operations of Messages, which the codec writes. The
-- committer makes the operations in the order of their identifiers, files through Staging, and each
-- change through the walk of Paths. The limits of the configuration bound the paths that the
-- lexical gate and the scanner accept.
--
-- Bounds and fuel: `usize` has 64 bits. The identifiers of the planner are numbers of a `u64`, which
-- wrap. A loop over bytes is structural recursion; the loop of
-- `put_varint` is recursion on a well-founded order. The loop of `Decoder::push` has as many rounds
-- as there are bytes, since each round takes one at least; the loop of `plan` takes fuel, and more
-- fuel than there are records is enough. The walk of `scan_directory` has a number of levels of
-- directories left; one more than the limit on the components of a path is enough for every file
-- system. The loops of the committer are structural recursion.
--
-- Not modelled: the transport, the sessions and the tasks of a transfer with the calls of librsync,
-- which are input and output for the most part; the TLS configuration, which is calls of rustls;
-- the texts of diagnostics; the blocking worker that a scan runs on.
pub mod Base
pub mod Types
pub mod Error
pub mod Messages
pub mod Planner
pub mod Codec
pub mod Config
mod Tests
pub mod Paths
pub mod Metadata
pub mod Ignore
pub mod Scan
pub mod System
pub mod Staging
pub mod Commit
pub mod Transfer
pub mod Auth
