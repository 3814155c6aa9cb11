-- ===== src/Codec/RoundTrip/Records.antt =====
-- Round trips of index records, operations and failures: `Writer::record`, `Writer::operation`,
-- `Writer::failure` and their readers in codec.rs.
use quic_sync.Base.{ℕ, All, true, false, ◌≡◌, refl}
use quic_sync.Base.Words.{IsByte, IsU64}
use quic_sync.Types.{OperationId, IndexRecord, IsRecord, IsDigest}
use quic_sync.Messages.{
  Operation, upsert_directory, upsert_file, upsert_symlink, delete, WireFailure, IsOperation,
  IsFailure, IsWirePath,
}
use quic_sync.Codec.{CodecLimits}
use quic_sync.Codec.Writer
use quic_sync.Codec.Writer.{◌<+>◌}
use quic_sync.Codec.Reader
use quic_sync.Codec.Reader.{Reader, ◌>>=◌, pure, lift}
use quic_sync.Codec.Codes.{Codes, Codes-bind, Codes-map}
use quic_sync.Codec.RoundTrip.Fields.{
  Codes-u8, Codes-u16, Codes-u32, Codes-u64, Codes-i128, Codes-digest, Codes-optional,
  Codes-entry_kind, Codes-field, Codes-string, phase-phase_tag, wire_error-error_code,
  error_code-IsU16,
}
use quic_sync.Codec.RoundTrip.Paths.{Codes-path}

-- Limits that fit a `usize`.
pub record IsSized (limits : CodecLimits) : Type 0 where
  pub frame_fits : IsU64 limits.max_frame_bytes
  pub path_fits : IsU64 limits.max_path_bytes
  pub count_fits : IsU64 limits.max_components

module _ {limits : CodecLimits} (sized : IsSized limits) where
  pub Codes-record :
      (r : IndexRecord)
      → IsRecord r
      → Codes limits (Writer.record_fields limits r) (Reader.record_fields limits) r
  unfolding Writer.record_fields Reader.record_fields
  Codes-record r h =
      let m = h.metadata_valid in
      Codes-bind _ _ _ _ r.path r (Codes-path r.path sized.path_fits sized.count_fits h.path_valid)
        (Codes-bind _ _ _ _ r.metadata.kind r (Codes-entry_kind r.metadata.kind) (
          Codes-bind _ _ _ _ r.metadata.mode r (Codes-u32 r.metadata.mode m.mode_fits) (
            Codes-bind _ _ _ _ r.metadata.mtime_ns r (Codes-i128 r.metadata.mtime_ns m.mtime_fits) (
              Codes-bind _ _ _ _ r.metadata.size r (Codes-u64 r.metadata.size m.size_fits) (
                Codes-bind _ _ _ _ r.digest r
                  (Codes-optional IsDigest r.digest _ _ Codes-digest h.digest_valid)
                  (Codes-map _ _ _ r.symlink_target (
                    Codes-optional (All IsByte) r.symlink_target _ _
                      (λ s _. Codes-field sized.frame_fits s) h.target_valid)))))))

  Codes-upsert :
      (tag : ℕ) (id : OperationId) (r : IndexRecord) (make : IndexRecord → Operation)
      (f : ℕ → OperationId → Reader Operation)
      → IsU64 id
      → IsRecord r
      → f tag id ≡ (Reader.record_fields limits >>= λ value. pure (make value))
      → Codes limits
          (Writer.upsert limits tag id r)
          (Reader.u8 >>= λ t. Reader.u64 >>= λ i. f t i)
          (make r)
  unfolding Writer.upsert
  Codes-upsert tag id r make f fits valid e = Codes-bind _ _ _ _ tag (make r) (Codes-u8 tag) (
      Codes-bind _ _ _ _ id (make r) (Codes-u64 id fits)
        (rw e (Codes-map _ _ make r (Codes-record r valid))))

  pub Codes-operation :
      (o : Operation)
      → IsOperation o
      → Codes limits (Writer.operation limits o) (Reader.operation limits) o
  unfolding Writer.operation Reader.operation
  Codes-operation (upsert_directory id r) h =
      Codes-upsert 1 id r (upsert_directory id) _ h.0 h.1 refl
  Codes-operation (upsert_file true id r) h =
      Codes-upsert 5 id r (upsert_file true id) _ h.0 h.1 refl
  Codes-operation (upsert_file false id r) h =
      Codes-upsert 2 id r (upsert_file false id) _ h.0 h.1 refl
  Codes-operation (upsert_symlink id r) h = Codes-upsert 3 id r (upsert_symlink id) _ h.0 h.1 refl
  Codes-operation (delete id p k) h = Codes-bind _ _ _ _ 4 (delete id p k) (Codes-u8 4) (
      Codes-bind _ _ _ _ id (delete id p k) (Codes-u64 id h.0) (
        Codes-bind _ _ _ _ p (delete id p k) (Codes-path p sized.path_fits sized.count_fits h.1.0)
          (Codes-map _ _ _ k (Codes-entry_kind k))))

  pub Codes-failure :
      (f : WireFailure)
      → IsFailure f
      → Codes limits (Writer.failure limits f) (Reader.failure limits) f
  unfolding Writer.failure Reader.failure
  Codes-failure f h =
      Codes-bind _ _ _ _ (Writer.error_code f.code) f
        (Codes-u16 (Writer.error_code f.code) (error_code-IsU16 f.code))
        (rw (wire_error-error_code f.code) (
          Codes-bind _ _ _ _ f.message f (Codes-string sized.frame_fits f.message h.message_text) (
            Codes-bind _ _ _ _ (Writer.phase_tag f.phase) f (Codes-u8 (Writer.phase_tag f.phase)) (
              rw (phase-phase_tag f.phase) (
                Codes-bind _ _ _ _ f.operation f
                  (Codes-optional IsU64 f.operation _ _ Codes-u64 h.operation_fits)
                  (Codes-map _ _ _ f.path (
                    Codes-optional IsWirePath f.path _ _
                      (λ p v. Codes-path p sized.path_fits sized.count_fits v.0) h.path_valid)))))))
