-- ===== src/Codec/RoundTrip/Fields.antt =====
-- Round trips of the scalar fields, byte strings and optional fields of codec.rs.
use quic_sync.Base.{
  ℕ, ◌≤◌, ◌<◌, ◌^◌, Option, none, some, [], ◌++◌, length, length-append, take-append_length,
  drop-append_length, ok, arith, ◌≡◌, refl, ap, ge→ltb,
}
use quic_sync.Base.Words.{
  Bytes, IsU16, IsU32, IsU64, ℤ, IsI128, to_le_bytes, from_le_bytes, bits_of, of_bits,
  length-to_le_bytes, from_le_bytes-to_le_bytes, of_bits-bits_of, bits_of-lt,
}
use quic_sync.Types.{Digest, EntryKind, directory, regular_file, symlink, Phase, IsDigest, AllSome}
use quic_sync.Types.{handshake}
use quic_sync.Messages.{WireErrorCode, incompatible_protocol, IsText}
use quic_sync.Codec.{CodecLimits, CodecError, Coded, limit_exceeded}
use quic_sync.Codec.Varint.{put_varint}
use quic_sync.Codec.Varint.RoundTrip.{parse_varint-put_varint}
use quic_sync.Codec.Writer
use quic_sync.Codec.Writer.{◌<+>◌}
use quic_sync.Codec.Reader
use quic_sync.Codec.Reader.{Reader, ◌>>=◌, pure}
use quic_sync.Codec.Codes.{Codes, Codes-bind, Codes-map, Codes-bytes, <+>-eq-ok, ok-injective}

take-append : (n : ℕ) (bs rest : Bytes) → length bs ≡ n → Reader.take n (bs ++ rest) ≡ ok (bs, rest)
unfolding Reader.take
take-append n bs rest h = rw (
  ← h,
  ge→ltb (length (bs ++ rest)) (length bs) (omega (arith, length-append bs rest)),
  take-append_length bs rest,
  drop-append_length bs rest,
)

-- A word of `n` bytes.
module _ {limits : CodecLimits} where
  Codes-word :
      {A : Type 0} (n v : ℕ) (g : ℕ → A) (a : A)
      → v < 256 ^ n
      → g v ≡ a
      → Codes limits (ok (to_le_bytes n v)) (Reader.take n >>= λ bs. pure (g (from_le_bytes bs))) a
  Codes-word n v g a fits e = Codes-bytes _ _ a λ rest.
      rw (take-append n (to_le_bytes n v) rest (length-to_le_bytes n v), ◌>>=◌)
        (rw (from_le_bytes-to_le_bytes n v fits, e) refl)

  pub Codes-u8 : (v : ℕ) → Codes limits (Writer.u8 v) Reader.u8 v
  unfolding Reader.u8
  Codes-u8 v = Codes-bytes _ _ v λ rest. refl

  pub Codes-u16 : (v : ℕ) → IsU16 v → Codes limits (Writer.u16 v) Reader.u16 v
  unfolding Reader.u16
  Codes-u16 v h = Codes-word 2 v (λ n. n) v (omega arith) refl

  pub Codes-u32 : (v : ℕ) → IsU32 v → Codes limits (Writer.u32 v) Reader.u32 v
  unfolding Reader.u32
  Codes-u32 v h = Codes-word 4 v (λ n. n) v (omega arith) refl

  pub Codes-u64 : (v : ℕ) → IsU64 v → Codes limits (Writer.u64 v) Reader.u64 v
  unfolding Reader.u64
  Codes-u64 v h = Codes-word 8 v (λ n. n) v (omega arith) refl

  pub Codes-i128 : (v : ℤ) → IsI128 v → Codes limits (Writer.i128 v) Reader.i128 v
  unfolding Reader.i128
  Codes-i128 v h = Codes-word 16 (bits_of v) of_bits v (bits_of-lt v h) (of_bits-bits_of v h)

  pub Codes-length : (v : ℕ) → IsU64 v → Codes limits (Writer.length v) Reader.length v
  unfolding Reader.length
  Codes-length v h = Codes-bytes _ _ v λ rest.
      rw (parse_varint-put_varint v rest h, Reader.length)
        (rw (drop-append_length (put_varint v []) rest) refl)

  pub Codes-bounded_length :
      (v maximum : ℕ) (e : CodecError)
      → IsU64 v
      → v ≤ maximum
      → Codes limits (Writer.length v) (Reader.bounded_length maximum e) v
  unfolding Reader.bounded_length
  Codes-bounded_length v maximum e h le = record {
    reads = λ bs rest w fits.
        rw ((Codes-length v h).reads bs rest w fits, ◌>>=◌) (rw (ge→ltb maximum v le) refl);
  }

  pub Codes-take : (bs : Bytes) → Codes limits (Writer.raw bs) (Reader.take (length bs)) bs
  Codes-take bs = Codes-bytes bs _ bs λ rest. take-append (length bs) bs rest refl

  pub Codes-digest : (d : Digest) → IsDigest d → Codes limits (Writer.digest d) Reader.digest d
  unfolding Writer.digest Reader.digest
  Codes-digest d h = Codes-bytes d _ d λ rest. take-append 32 d rest h.0

  pub Codes-optional :
      {A : Type 0} (P : A → Type 0) (o : Option A) (write : A → Coded Bytes) (read : Reader A)
      → ((a : A) → P a → Codes limits (write a) read a)
      → AllSome P o
      → Codes limits (Writer.optional o write) (Reader.optional read) o
  unfolding Writer.optional Reader.optional
  Codes-optional P none write read codes h = Codes-bytes _ _ none λ rest. unfold Reader.u8 in refl
  Codes-optional P (some a) write read codes h =
      Codes-bind (Writer.u8 1) (write a) Reader.u8 _ 1 (some a) (Codes-u8 1)
        (Codes-map (write a) read some a (codes a h))

  pub Codes-entry_kind : (k : EntryKind) → Codes limits (Writer.entry_kind k) Reader.entry_kind k
  unfolding Writer.entry_kind Reader.entry_kind Reader.u8
  Codes-entry_kind directory = Codes-bytes _ _ _ λ rest. refl
  Codes-entry_kind regular_file = Codes-bytes _ _ _ λ rest. refl
  Codes-entry_kind symlink = Codes-bytes _ _ _ λ rest. refl

pub phase-phase_tag : (p : Phase) → Reader.phase (Writer.phase_tag p) ≡ ok p
unfolding Reader.phase Writer.phase_tag
phase-phase_tag handshake = refl
phase-phase_tag _ = refl

pub wire_error-error_code : (c : WireErrorCode) → Reader.wire_error (Writer.error_code c) ≡ ok c
unfolding Reader.wire_error Writer.error_code
wire_error-error_code incompatible_protocol = refl
wire_error-error_code _ = refl

pub error_code-IsU16 : (c : WireErrorCode) → IsU16 (Writer.error_code c)
unfolding Writer.error_code
error_code-IsU16 incompatible_protocol = omega arith
error_code-IsU16 _ = omega arith

module _ {limits : CodecLimits} (sized : IsU64 limits.max_frame_bytes) where
  pub Codes-field : (s : Bytes) → Codes limits (Writer.bytes s) (Reader.bytes limits) s
  unfolding Writer.bytes Reader.bytes
  Codes-field s = record {
    reads = λ bs rest w fits.
        let (xs, ys, p, q, e) = <+>-eq-ok (Writer.length (length s)) (Writer.raw s) bs w in
        let short : length s ≤ limits.max_frame_bytes =
          rw (ok-injective q)
            (omega (arith, ap (λ (l : Bytes). length l) e, length-append xs ys)) in
        (Codes-bind {limits = limits} (Writer.length (length s)) (Writer.raw s)
            (Reader.bounded_length limits.max_frame_bytes (limit_exceeded "field bytes"))
            Reader.take (length s) s
            (Codes-bounded_length (length s) limits.max_frame_bytes _ (omega arith) short)
            (Codes-take s)).reads
          bs rest w fits;
  }

  pub Codes-string :
      (s : Bytes) → IsText s → Codes limits (Writer.string s) (Reader.string limits) s
  unfolding Writer.string Reader.string
  Codes-string s h = record {
    reads = λ bs rest w fits. rw ((Codes-field s).reads bs rest w fits, ◌>>=◌) (rw h.0 refl);
  }
