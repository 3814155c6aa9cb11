-- ===== src/Error.antt =====
-- crates/quicsync-core/src/error.rs: error categories, local errors, and what a peer is told.
pub mod Codes
use Prim.Native.String.{String}
use text.Mathlib.Text.{◌==◌ as str_eq}
use quic_sync.Base.{Bool, Option, none, some, List, [], ◌∷◌, Result, ok, err, if◌then◌else◌}
use quic_sync.Types.{OperationId, Phase, RelativePath}

pub data ErrorCode : Type 0 where
  invalid_configuration authentication_failed authorization_denied protocol_violation : ErrorCode
  unsupported_protocol invalid_path path_confinement_violation integrity_mismatch : ErrorCode
  unsupported_filesystem resource_limit_exceeded operation_failed io : ErrorCode
  transport_unavailable completion_unknown cancelled internal : ErrorCode

-- `ErrorCode::ALL`.
abbrev pub all_codes : List ErrorCode
all_codes =
    invalid_configuration ∷ authentication_failed ∷ authorization_denied ∷ protocol_violation
    ∷ unsupported_protocol ∷ invalid_path ∷ path_confinement_violation ∷ integrity_mismatch
    ∷ unsupported_filesystem ∷ resource_limit_exceeded ∷ operation_failed ∷ io
    ∷ transport_unavailable ∷ completion_unknown ∷ cancelled ∷ internal ∷ []

unfoldable pub as_str : ErrorCode → String
as_str invalid_configuration = "invalid_configuration"
as_str authentication_failed = "authentication_failed"
as_str authorization_denied = "authorization_denied"
as_str protocol_violation = "protocol_violation"
as_str unsupported_protocol = "unsupported_protocol"
as_str invalid_path = "invalid_path"
as_str path_confinement_violation = "path_confinement_violation"
as_str integrity_mismatch = "integrity_mismatch"
as_str unsupported_filesystem = "unsupported_filesystem"
as_str resource_limit_exceeded = "resource_limit_exceeded"
as_str operation_failed = "operation_failed"
as_str io = "io_error"
as_str transport_unavailable = "transport_unavailable"
as_str completion_unknown = "completion_unknown"
as_str cancelled = "cancelled"
as_str internal = "internal_error"

unfoldable pub peer_message : ErrorCode → String
peer_message invalid_configuration = "local configuration is invalid"
peer_message authentication_failed = "request rejected"
peer_message authorization_denied = "request rejected"
peer_message protocol_violation = "protocol violation"
peer_message unsupported_protocol = "protocol is not supported"
peer_message invalid_path = "path is invalid"
peer_message path_confinement_violation = "path is invalid"
peer_message integrity_mismatch = "content verification failed"
peer_message unsupported_filesystem = "filesystem operation is not supported"
peer_message resource_limit_exceeded = "resource limit exceeded"
peer_message operation_failed = "operation failed"
peer_message io = "input/output operation failed"
peer_message transport_unavailable = "transport is unavailable"
peer_message completion_unknown = "completion status is unknown"
peer_message cancelled = "operation cancelled"
peer_message internal = "internal error"

pub data UnknownErrorCode : Type 0 where
  unknown : String → UnknownErrorCode

-- The `find` of `from_str` over the codes left.
unfoldable pub find_code : List ErrorCode → String → Option ErrorCode
find_code [] value = none
find_code (c ∷ cs) value =
    let rest = find_code cs value in if str_eq (as_str c) value then some c else rest

unfoldable pub from_str : String → Result UnknownErrorCode ErrorCode
from_str value = elim (find_code all_codes value) [ none ↦ err (unknown value) | some c ↦ ok c ]

pub record ErrorContext : Type 0 where
  pub operation : Option OperationId
  pub path : Option RelativePath

abbrev pub no_context : ErrorContext
no_context = record { operation = none; path = none }

unfoldable pub with_operation : ErrorContext → OperationId → ErrorContext
with_operation c id = record c { operation = some id }

unfoldable pub with_path : ErrorContext → RelativePath → ErrorContext
with_path c p = record c { path = some p }

pub record QuicSyncError : Type 0 where
  pub code : ErrorCode
  pub phase : Option Phase
  pub diagnostic : String
  pub context : ErrorContext

unfoldable pub new_error : ErrorCode → Option Phase → String → QuicSyncError
new_error code phase diagnostic = record {
  code = code;
  phase = phase;
  diagnostic = diagnostic;
  context = no_context;
}

unfoldable pub with_context : QuicSyncError → ErrorContext → QuicSyncError
with_context e c = record e { context = c }

-- What a peer may be told. The other modules return errors in this form: the diagnostic texts are
-- for people, and no code reads them.
pub record PeerError : Type 0 where
  pub code : ErrorCode
  pub phase : Option Phase

unfoldable pub peer_error : QuicSyncError → PeerError
peer_error e = record { code = e.code; phase = e.phase }

unfoldable pub message : PeerError → String
message e = peer_message e.code

abbrev pub Fallible {ℓ} : Type ℓ → Type ℓ
Fallible = Result PeerError

-- `QuicSyncError::new(code, None, …)`
abbrev pub failed_with : ErrorCode → PeerError
failed_with code = record { code = code; phase = none }
