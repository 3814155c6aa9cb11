-- ===== src/Codec/Frame/RoundTrip.antt =====
-- `decode` takes back what `encode` wrote, for every implementation of `WireMessage`.
use quic_sync.Base.{
  ℕ, zero, suc, ◌+◌, ◌≤◌, ◌<◌, ◌^◌, ◌/◌, [], ◌∷◌, ◌++◌, append-nil, length, length-append,
  drop-append_length, take-length, ok, >>=-eq-ok, arith, ◌≡◌, refl, ap, sym, ◌∙◌, ge→ltb, lt→ltb,
  ==_iff,
}
use quic_sync.Base.Words.{Bytes, IsU64, to_le_bytes, length-to_le_bytes}
use quic_sync.Messages.{current_version}
use quic_sync.Codec.{CodecLimits}
use quic_sync.Codec.Varint.{put_varint}
use quic_sync.Codec.Varint.RoundTrip.{groups, put_varint-groups, parse_varint-put_varint}
use quic_sync.Codec.Reader
use quic_sync.Codec.Codes.{ok-injective}
use quic_sync.Codec.Wire.{WireMessage}
use quic_sync.Codec.RoundTrip.Wire.{IsWire}
use quic_sync.Codec.RoundTrip.Records.{IsSized}
use quic_sync.Codec.RoundTrip.Fields.{Codes-u16}
use quic_sync.Codec.Frame.{check_frame_length, payload_of, encode, decode_payload, decode}

length-groups : (k v : ℕ) → (1 ≤ length (groups k v)) × (length (groups k v) ≤ k + 1)
unfolding groups
length-groups zero v = omega arith
length-groups (suc k) v = ground (arith, length-groups k (v / 128))

-- A `u64` takes one to ten bytes.
pub length-put_varint :
    (v : ℕ) → IsU64 v → (1 ≤ length (put_varint v [])) × (length (put_varint v []) ≤ 10)
length-put_varint v h = rw (put_varint-groups v [] h) (length-groups 9 v)

-- What `encode` makes: the length in front of a payload that is in bounds and decodes.
pub record IsFrame {T : Type 0} (wire : WireMessage T) (limits : CodecLimits) (m : T)
    (frame : Bytes) : Type 0 where
  pub payload : Bytes
  pub shape : frame ≡ put_varint (length payload) [] ++ payload
  pub at_least : 3 ≤ length payload
  pub at_most : length payload ≤ limits.max_frame_bytes
  pub decodes : decode_payload wire limits payload ≡ ok m

module _ {T : Type 0} {wire : WireMessage T} {Valid : T → Type 0} (law : IsWire wire Valid)
    (limits : CodecLimits) (sized : IsSized limits) where
  payload-decodes :
      (m : T) (fields : Bytes)
      → Valid m
      → wire.encode_fields limits m ≡ ok fields
      → length fields + 3 ≤ limits.max_frame_bytes
      → decode_payload wire limits (wire.kind m ∷ to_le_bytes 2 current_version ++ fields) ≡ ok m
  unfolding decode_payload Reader.u8
  payload-decodes m fields valid e fits =
      let version : Reader.u16 (to_le_bytes 2 current_version ++ fields) ≡ ok (1, fields) =
        (Codes-u16 {limits = limits} 1 (omega arith)).reads (to_le_bytes 2 1) fields refl
          (rw (length-to_le_bytes 2 1) (omega arith)) in
      let value : wire.decode_fields limits (wire.kind m) fields ≡ ok (m, []) =
        ap (wire.decode_fields limits (wire.kind m)) (sym (append-nil fields))
        ∙ (law.codes limits m sized valid).reads fields [] e (omega arith) in
      rw (version, value) (unfold Reader.finish in refl)

  pub encode-IsFrame :
      (m : T) (frame : Bytes)
      → Valid m
      → encode wire limits m ≡ ok frame
      → IsFrame wire limits m frame
  unfolding encode payload_of
  encode-IsFrame m frame valid e =
      let (payload, p, q) = >>=-eq-ok (payload_of wire limits m) _ e in
      let (fields, r, s) = >>=-eq-ok (wire.encode_fields limits m) _ p in
      let made = ok-injective s in
      let short : length payload ≤ limits.max_frame_bytes = ground arith in
      let long : length payload ≡ length fields + 3 =
        rw (← made, length-append, length-to_le_bytes) (omega arith) in
      record {
        payload = payload;
        shape = ground arith;
        at_least = omega arith;
        at_most = short;
        decodes = rw (← made) (payload-decodes m fields valid r (omega arith));
      }

-- The frame of a payload in bounds is taken apart into the payload.
decode-frame :
    {T : Type 0} (wire : WireMessage T) (limits : CodecLimits) (payload : Bytes)
    → limits.max_frame_bytes + 10 < 2 ^ 64
    → 3 ≤ length payload
    → length payload ≤ limits.max_frame_bytes
    → decode wire limits (put_varint (length payload) [] ++ payload)
      ≡ decode_payload wire limits payload
unfolding decode check_frame_length
decode-frame wire limits payload small least most =
    let n : ℕ = length payload in
    let header : Bytes = put_varint n [] in
    let fits : IsU64 n = omega arith in
    let ten = length-put_varint n fits in
    let end : length (header ++ payload) ≡ length header + n = length-append header payload in
    rw
      (
        parse_varint-put_varint n payload fits,
        ge→ltb limits.max_frame_bytes n most,
        ge→ltb n 3 least,
        lt→ltb (length header + n) (2 ^ 64) (omega arith),
        end,
        ge→ltb (length header + n) (length header + n) (omega arith),
        (==_iff (length header + n) (length header + n)).1 refl,
        drop-append_length header payload,
      )
      (ap (decode_payload wire limits) (take-length payload))

module _ {T : Type 0} {wire : WireMessage T} {Valid : T → Type 0} (law : IsWire wire Valid)
    (limits : CodecLimits) (sized : IsSized limits) where
  -- For a lawful kind of message and limits that fit the word, a frame that `encode` made of a
  -- message that the Rust types admit is decoded to this message.
  pub decode-encode :
      (m : T) (frame : Bytes)
      → limits.max_frame_bytes + 10 < 2 ^ 64
      → Valid m
      → encode wire limits m ≡ ok frame
      → decode wire limits frame ≡ ok m
  decode-encode m frame small valid e =
      let f = encode-IsFrame law limits sized m frame valid e in
      rw f.shape (decode-frame wire limits f.payload small f.at_least f.at_most ∙ f.decodes)
