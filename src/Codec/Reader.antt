-- ===== src/Codec/Reader.antt =====
-- `Reader` of codec.rs. Its state is the slice `&bytes[offset..]`; an error ends the decoding, so
-- no state is kept beside it. `offset.checked_add(length)` overflows only where the slice is too
-- short as well, with the same error.
use quic_sync.Base.{
  ℕ, zero, suc, ◌+◌, ◌-◌, Option, none, some, List, [], ◌∷◌, length as size, take as first, drop,
  ltb, ◌==◌, ◌||◌, leb, ◌&&◌, if◌then◌else◌, ok, err, map_err,
}
use quic_sync.Base.Words.{Bytes, ℤ, from_le_bytes, of_bits}
use quic_sync.Types.{
  Digest, RelativePath, EntryKind, directory, regular_file, symlink, IndexRecord, Phase, handshake,
  policy, indexing, planning, transferring, ready_to_commit, committing, complete, failed, new_path,
}
use quic_sync.Messages.{
  Operation, upsert_directory, upsert_file, upsert_symlink, delete, WireErrorCode, WireFailure,
  incompatible_protocol, invalid_message, unauthorized, invalid_path, integrity_failure,
  resource_limit, unsupported_filesystem, cancelled, internal,
}
use quic_sync.Messages.Utf8.{is_utf8}
use quic_sync.Codec.{
  CodecLimits, CodecError, Coded, unexpected_eof, limit_exceeded, invalid_value, trailing_bytes,
}
use quic_sync.Codec.Varint.{parse_varint}

abbrev pub Reader : Type 0 → Type 0
Reader A = Bytes → Coded (A × Bytes)

infixl 5 ◌>>=◌
abbrev pub ◌>>=◌ : {A B : Type 0} → Reader A → (A → Reader B) → Reader B
◌>>=◌ m f s = elim (m s) [ err e ↦ err e | ok (a, rest) ↦ f a rest ]

abbrev pub pure : {A : Type 0} → A → Reader A
pure a s = ok (a, s)

abbrev pub fail : {A : Type 0} → CodecError → Reader A
fail e s = err e

abbrev pub lift : {A : Type 0} → Coded A → Reader A
lift (ok a) s = ok (a, s)
lift (err e) s = err e

unfoldable pub take : ℕ → Reader Bytes
take n s = if ltb (size s) n then err unexpected_eof else ok (first n s, drop n s)

-- `array::<1>()?[0]`
unfoldable pub u8 : Reader ℕ
u8 [] = err unexpected_eof
u8 (b ∷ rest) = ok (b, rest)

unfoldable pub u16 : Reader ℕ
u16 = do bs ← take 2; pure (from_le_bytes bs)

unfoldable pub u32 : Reader ℕ
u32 = do bs ← take 4; pure (from_le_bytes bs)

unfoldable pub u64 : Reader ℕ
u64 = do bs ← take 8; pure (from_le_bytes bs)

unfoldable pub i128 : Reader ℤ
i128 = do bs ← take 16; pure (of_bits (from_le_bytes bs))

-- `usize::try_from` does not fail where `usize` has 64 bits.
unfoldable pub length : Reader ℕ
length s = elim (parse_varint s) [ err e ↦ err e | ok (value, used) ↦ ok (value, drop used s) ]

unfoldable pub bounded_length : ℕ → CodecError → Reader ℕ
bounded_length maximum error = do n ← length; if ltb maximum n then fail error else pure n

unfoldable pub digest : Reader Digest
digest = take 32

unfoldable pub optional : {A : Type 0} → Reader A → Reader (Option A)
optional read = do
  tag ← u8
  if tag == 0
      then pure none
      else if tag == 1
      then (do a ← read; pure (some a))
      else fail (invalid_value "optional tag")

unfoldable pub entry_kind : Reader EntryKind
entry_kind = do
  tag ← u8
  if tag == 1
      then pure directory
      else if tag == 2
      then pure regular_file
      else if tag == 3
      then pure symlink
      else fail (invalid_value "entry kind")

unfoldable pub phase : ℕ → Coded Phase
phase value =
    if value == 1
    then ok handshake
    else if value == 2
    then ok policy
    else if value == 3
    then ok indexing
    else if value == 4
    then ok planning
    else if value == 5
    then ok transferring
    else if value == 6
    then ok ready_to_commit
    else if value == 7
    then ok committing
    else if value == 8
    then ok complete
    else if value == 9
    then ok failed
    else err (invalid_value "phase")

unfoldable pub wire_error : ℕ → Coded WireErrorCode
wire_error value =
    if value == 1
    then ok incompatible_protocol
    else if value == 2
    then ok invalid_message
    else if value == 3
    then ok unauthorized
    else if value == 4
    then ok invalid_path
    else if value == 5
    then ok integrity_failure
    else if value == 6
    then ok resource_limit
    else if value == 7
    then ok unsupported_filesystem
    else if value == 8
    then ok cancelled
    else if value == 9
    then ok internal
    else err (invalid_value "wire error code")

module _ (limits : CodecLimits) where
  unfoldable pub bytes : Reader Bytes
  bytes = do n ← bounded_length limits.max_frame_bytes (limit_exceeded "field bytes"); take n

  unfoldable pub string : Reader Bytes
  string = do text ← bytes; if is_utf8 text then pure text else fail (invalid_value "UTF-8 string")

  -- The loop of `path`, for the components left to read and the total so far.
  unfoldable pub components : ℕ → ℕ → Reader (List Bytes)
  components zero total = pure []
  components (suc n) total = do
    len ← bounded_length (limits.max_path_bytes - total) (limit_exceeded "path bytes")
    c ← take len
    cs ← components n (total + len)
    pure (c ∷ cs)

  unfoldable pub path : Reader RelativePath
  path = do
    count ← bounded_length limits.max_components (limit_exceeded "path components")
    if count == 0 then fail (invalid_value "relative path") else (do
      cs ← components count 0
      lift (map_err (λ _. invalid_value "relative path") (new_path cs)))

  unfoldable pub record_fields : Reader IndexRecord
  record_fields = do
    p ← path
    k ← entry_kind
    m ← u32
    t ← i128
    n ← u64
    d ← optional digest
    l ← optional bytes
    pure (record {
      path = p;
      metadata = record { kind = k; mode = m; mtime_ns = t; size = n };
      digest = d;
      symlink_target = l;
    })

  unfoldable pub operation : Reader Operation
  operation = do
    tag ← u8
    id ← u64
    if (leb 1 tag && leb tag 3) || tag == 5
        then (do
          value ← record_fields
          pure (
              if tag == 1
              then upsert_directory id value
              else if tag == 2 || tag == 5
              then upsert_file (tag == 5) id value
              else upsert_symlink id value))
        else if tag == 4
        then (do target ← path; kind ← entry_kind; pure (delete id target kind))
        else fail (invalid_value "operation tag")

  unfoldable pub failure : Reader WireFailure
  failure = do
    code ← u16
    c ← lift (wire_error code)
    text ← string
    tag ← u8
    p ← lift (phase tag)
    id ← optional u64
    target ← optional path
    pure (record { code = c; message = text; phase = p; operation = id; path = target })

-- `Reader::finish`, on what is left of the payload.
unfoldable pub finish : Bytes → Coded (Unit {0})
finish [] = ok tt
finish (b ∷ rest) = err trailing_bytes
