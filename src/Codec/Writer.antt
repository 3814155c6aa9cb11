-- ===== src/Codec/Writer.antt =====
-- `Writer` of codec.rs. A method returns the bytes that it pushes, or its error; the methods run
-- in order by `<+>`, which stands for `?` and the next call.
use quic_sync.Base.{
  ℕ, ◌+◌, ◌^◌, Option, none, some, List, [], ◌∷◌, ◌++◌, length as size, ltb, if◌then◌else◌, ok, err,
  ◌>>=◌,
}
use quic_sync.Base.Words.{Bytes, ℤ, to_le_bytes, bits_of}
use quic_sync.Types.{
  OperationId, Digest, RelativePath, EntryKind, directory, regular_file, symlink, IndexRecord,
  Phase, handshake, policy, indexing, planning, transferring, ready_to_commit, committing, complete,
  failed,
}
use quic_sync.Messages.{
  Operation, upsert_directory, upsert_file, upsert_symlink, delete, WireErrorCode, WireFailure,
  incompatible_protocol, invalid_message, unauthorized, invalid_path, integrity_failure,
  resource_limit, unsupported_filesystem, cancelled, internal,
}
use quic_sync.Codec.{CodecLimits, Coded, limit_exceeded}
use quic_sync.Codec.Varint.{put_varint}

infixr 5 ◌<+>◌
unfoldable pub ◌<+>◌ : Coded Bytes → Coded Bytes → Coded Bytes
v <+> w = v >>= λ bs. w >>= λ cs. ok (bs ++ cs)

abbrev pub u8 : ℕ → Coded Bytes
u8 value = ok (value ∷ [])

abbrev pub u16 : ℕ → Coded Bytes
u16 value = ok (to_le_bytes 2 value)

abbrev pub u32 : ℕ → Coded Bytes
u32 value = ok (to_le_bytes 4 value)

abbrev pub u64 : ℕ → Coded Bytes
u64 value = ok (to_le_bytes 8 value)

abbrev pub i128 : ℤ → Coded Bytes
i128 value = ok (to_le_bytes 16 (bits_of value))

abbrev pub raw : Bytes → Coded Bytes
raw value = ok value

abbrev pub length : ℕ → Coded Bytes
length value = ok (put_varint value [])

unfoldable pub bytes : Bytes → Coded Bytes
bytes value = length (size value) <+> raw value

unfoldable pub string : Bytes → Coded Bytes
string value = bytes value

unfoldable pub digest : Digest → Coded Bytes
digest value = raw value

unfoldable pub optional : {A : Type 0} → Option A → (A → Coded Bytes) → Coded Bytes
optional (some value) write = u8 1 <+> write value
optional none write = u8 0

unfoldable pub entry_kind : EntryKind → Coded Bytes
entry_kind directory = u8 1
entry_kind regular_file = u8 2
entry_kind symlink = u8 3

unfoldable pub phase_tag : Phase → ℕ
phase_tag handshake = 1
phase_tag policy = 2
phase_tag indexing = 3
phase_tag planning = 4
phase_tag transferring = 5
phase_tag ready_to_commit = 6
phase_tag committing = 7
phase_tag complete = 8
phase_tag failed = 9

-- `value.code as u16`
unfoldable pub error_code : WireErrorCode → ℕ
error_code incompatible_protocol = 1
error_code invalid_message = 2
error_code unauthorized = 3
error_code invalid_path = 4
error_code integrity_failure = 5
error_code resource_limit = 6
error_code unsupported_filesystem = 7
error_code cancelled = 8
error_code internal = 9

-- The `try_fold` of `path`, with the check on `usize`.
unfoldable pub total_bytes : ℕ → List Bytes → Coded ℕ
total_bytes total [] = ok total
total_bytes total (c ∷ cs) =
    let rest = total_bytes (total + size c) cs in
    if ltb (total + size c) (2 ^ 64) then rest else err (limit_exceeded "path bytes")

-- The loop over the components.
unfoldable pub all_bytes : List Bytes → Coded Bytes
all_bytes [] = ok []
all_bytes (c ∷ cs) = bytes c <+> all_bytes cs

module _ (limits : CodecLimits) where
  unfoldable pub path : RelativePath → Coded Bytes
  path value =
      if ltb limits.max_components (size value.components)
      then err (limit_exceeded "path components")
      else do
        total ← total_bytes 0 value.components
        if ltb limits.max_path_bytes total
            then err (limit_exceeded "path bytes")
            else length (size value.components) <+> all_bytes value.components

  unfoldable pub record_fields : IndexRecord → Coded Bytes
  record_fields value =
      path value.path
      <+> entry_kind value.metadata.kind
      <+> u32 value.metadata.mode
      <+> i128 value.metadata.mtime_ns
      <+> u64 value.metadata.size
      <+> optional value.digest digest
      <+> optional value.symlink_target bytes

  unfoldable pub upsert : ℕ → OperationId → IndexRecord → Coded Bytes
  upsert tag id value = u8 tag <+> u64 id <+> record_fields value

  unfoldable pub operation : Operation → Coded Bytes
  operation (upsert_directory id value) = upsert 1 id value
  operation (upsert_file update id value) = upsert (if update then 5 else 2) id value
  operation (upsert_symlink id value) = upsert 3 id value
  operation (delete id target kind) = u8 4 <+> u64 id <+> path target <+> entry_kind kind

  unfoldable pub failure : WireFailure → Coded Bytes
  failure value =
      u16 (error_code value.code)
      <+> string value.message
      <+> u8 (phase_tag value.phase)
      <+> optional value.operation u64
      <+> optional value.path path
