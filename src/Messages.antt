-- ===== src/Messages.antt =====
-- crates/quicsync-core/src/protocol/messages.rs: the messages of the three kinds of stream.
use quic_sync.Base.{ℕ, Bool, Option, List, ◌≡◌, ◌<◌, true, All, ◌≤◌}
use quic_sync.Base.Words.{Bytes, IsByte, IsU64}
use quic_sync.Types.{
  OperationId, RelativePath, EntryKind, IndexRecord, Phase, IsPath, IsRecord, AllSome,
}
use quic_sync.Messages.Utf8.{is_utf8}
pub mod Utf8

abbrev pub ProtocolVersion : Type 0
ProtocolVersion = ℕ

abbrev pub current_version : ProtocolVersion
current_version = 1

pub data Operation : Type 0 where
  upsert_directory : OperationId → IndexRecord → Operation
  -- the flag is `update`
  upsert_file : Bool → OperationId → IndexRecord → Operation
  upsert_symlink : OperationId → IndexRecord → Operation
  delete : OperationId → RelativePath → EntryKind → Operation

unfoldable pub operation_id : Operation → OperationId
operation_id (upsert_directory i r) = i
operation_id (upsert_file u i r) = i
operation_id (upsert_symlink i r) = i
operation_id (delete i p k) = i

unfoldable pub operation_path : Operation → RelativePath
operation_path (upsert_directory i r) = r.path
operation_path (upsert_file u i r) = r.path
operation_path (upsert_symlink i r) = r.path
operation_path (delete i p k) = p

pub data WireErrorCode : Type 0 where
  incompatible_protocol invalid_message unauthorized invalid_path integrity_failure : WireErrorCode
  resource_limit unsupported_filesystem cancelled internal : WireErrorCode

-- A Rust `String` is the list of its UTF-8 bytes.
pub record WireFailure : Type 0 where
  pub code : WireErrorCode
  pub message : Bytes
  pub phase : Phase
  pub operation : Option OperationId
  pub path : Option RelativePath

pub data Control : Type 0 where
  start_sync : Bytes → Control
  start_accepted : Control
  operation : Operation → Control
  plan_end : Control
  complete_ack : Control
  failure : WireFailure → Control

pub data IndexMessage : Type 0 where
  index_record : IndexRecord → IndexMessage
  index_end : IndexMessage

pub data FileTransfer : Type 0 where
  update_request : OperationId → RelativePath → FileTransfer
  create_request : OperationId → RelativePath → FileTransfer
  whole_file : Bytes → FileTransfer
  signature : Bytes → FileTransfer
  signature_end : FileTransfer
  delta : Bytes → FileTransfer
  transfer_end : FileTransfer
  transfer_accepted : OperationId → FileTransfer

-- What the Rust types guarantee of a message.
abbrev pub IsText : Bytes → Type 0
IsText s = (is_utf8 s ≡ true) × All IsByte s

abbrev pub IsWirePath : RelativePath → Type 0
IsWirePath p = IsPath p × All (All IsByte) p.components

abbrev pub IsOperation : Operation → Type 0
IsOperation (upsert_directory i r) = IsU64 i × IsRecord r
IsOperation (upsert_file u i r) = IsU64 i × IsRecord r
IsOperation (upsert_symlink i r) = IsU64 i × IsRecord r
IsOperation (delete i p k) = IsU64 i × IsWirePath p

pub record IsFailure (f : WireFailure) : Type 0 where
  pub message_text : IsText f.message
  pub operation_fits : AllSome IsU64 f.operation
  pub path_valid : AllSome IsWirePath f.path

abbrev pub IsControl : Control → Type 0
IsControl (start_sync s) = IsText s
IsControl (operation o) = IsOperation o
IsControl (failure f) = IsFailure f
IsControl _ = Unit

abbrev pub IsIndexMessage : IndexMessage → Type 0
IsIndexMessage (index_record r) = IsRecord r
IsIndexMessage index_end = Unit

abbrev pub IsFileTransfer : FileTransfer → Type 0
IsFileTransfer (update_request i p) = IsU64 i × IsWirePath p
IsFileTransfer (create_request i p) = IsU64 i × IsWirePath p
IsFileTransfer (whole_file s) = All IsByte s
IsFileTransfer (signature s) = All IsByte s
IsFileTransfer (delta s) = All IsByte s
IsFileTransfer (transfer_accepted i) = IsU64 i
IsFileTransfer _ = Unit
