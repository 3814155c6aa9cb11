-- ===== src/Codec/Decoder/Frames.antt =====
-- The decoder takes a stream of frames apart into the messages that they were made from.
use quic_sync.Base.{
  ℕ, zero, suc, ◌+◌, ◌-◌, ◌/◌, ◌^◌, ◌%◌, ◌<◌, ◌≤◌, ◌≡◌, ◌∙◌, refl, ap, true, false, none, some,
  List, [], ◌∷◌, ◌++◌, length, min, ltb, ok, ◌>>=◌, arith, inl, inr, append_assoc, All, append-nil,
  length-append, take-append_length, drop-append_length, Bool-cases, lt→ne, eq→==, lt→ltb, ge→ltb,
  ltb→lt, >>=-eq-ok,
}
use mathlib.Core.Path.{subst}
use mathlib.Core.List.{flatten}
use native.Mathlib.Nat.{pow-suc}
use quic_sync.Base.Words.{Bytes, IsU64}
use quic_sync.Codec.{CodecLimits, Coded}
use quic_sync.Codec.Varint.{put_varint, parse_varint}
use quic_sync.Codec.Varint.RoundTrip.{groups, put_varint-groups, parse_varint-put_varint}
use quic_sync.Codec.Wire.{WireMessage}
use quic_sync.Codec.Frame.{check_frame_length, decode_payload, encode}
use quic_sync.Codec.Frame.RoundTrip.{IsFrame, encode-IsFrame, length-put_varint}
use quic_sync.Codec.RoundTrip.Wire.{IsWire}
use quic_sync.Codec.RoundTrip.Records.{IsSized}
use quic_sync.Codec.Decoder.{Decoder, fresh, header_byte, complete, fill_to, push}
use quic_sync.Codec.Decoder.Invariant.{fresh-IsDecoder}
use quic_sync.Codec.Decoder.Bytewise.{
  feed_all, push-feed_all, outcome, feed-none, fill_to-feed_all, bind_ok, add,
}

ok_frames : {a b : List Bytes} → ◌≡◌ {A = Coded (List Bytes)} (ok a) (ok b) → a ≡ b
ok_frames h = cc

groups-zero : (v : ℕ) → groups zero v ≡ v ∷ []
unfolding groups
groups-zero v = refl

groups-low : (k v : ℕ) → ltb v 128 ≡ true → groups (suc k) v ≡ v ∷ []
unfolding groups
groups-low k v h = rw h

groups-high :
    (k v : ℕ) → ltb v 128 ≡ false → groups (suc k) v ≡ (v % 128 + 128) ∷ groups k (v / 128)
unfolding groups
groups-high k v h = rw h

check_frame_length-bounds :
    (limits : CodecLimits) (n : ℕ)
    → 3 ≤ n
    → n ≤ limits.max_frame_bytes
    → check_frame_length n limits ≡ ok tt
unfolding check_frame_length
check_frame_length-bounds limits n least most = ground arith

-- `encode` on each message.
unfoldable pub encode_all : {T : Type 0} → WireMessage T → CodecLimits → List T → Coded (List Bytes)
encode_all wire limits [] = ok []
encode_all wire limits (m ∷ ms) =
    encode wire limits m >>= λ f. encode_all wire limits ms >>= λ fs. ok (f ∷ fs)

abbrev AreFrames : {T : Type 0} → WireMessage T → CodecLimits → List T → List Bytes → Type 0
AreFrames wire limits [] [] = Unit
AreFrames wire limits [] (f ∷ fs) = ⊥
AreFrames wire limits (m ∷ ms) [] = ⊥
AreFrames wire limits (m ∷ ms) (f ∷ fs) = IsFrame wire limits m f × AreFrames wire limits ms fs

encode_all-AreFrames :
    {T : Type 0} {wire : WireMessage T} {Valid : T → Type 0}
    → IsWire wire Valid
    → (limits : CodecLimits) → IsSized limits
    → (ms : List T) (frames : List Bytes) → All Valid ms
    → encode_all wire limits ms ≡ ok frames
    → AreFrames wire limits ms frames
unfolding encode_all
encode_all-AreFrames law limits sized [] [] valid e = tt
encode_all-AreFrames law limits sized [] (f ∷ fs) valid e = cc
encode_all-AreFrames {wire} law limits sized (m ∷ ms) frames valid e =
    let (f, p, q) = >>=-eq-ok (encode wire limits m) _ e in
    let (fs, r, s) = >>=-eq-ok (encode_all wire limits ms) _ q in
    subst (AreFrames wire limits (m ∷ ms)) (ok_frames s) (
      encode-IsFrame law limits sized m f valid.0 p,
      encode_all-AreFrames law limits sized ms fs valid.1 r,
    )

module _ {T : Type 0} (wire : WireMessage T) (limits : CodecLimits) where
  abbrev reading : Bytes → Decoder
  reading header = record { header = header; expected = none; payload = [] }

  abbrev awaiting : Bytes → ℕ → Decoder
  awaiting header n = record { header = header; expected = some n; payload = [] }

  header_byte-inner :
      (header : Bytes) (b : ℕ)
      → length header < 10
      → 128 ≤ b
      → header_byte wire limits (reading header) b ≡ ok (reading (header ++ (b ∷ [])))
  unfolding header_byte
  header_byte-inner header b short top = rw (lt→ne (length header) 10 short, ge→ltb b 128 top)

  header_byte-last :
      (header : Bytes) (b n used : ℕ)
      → length header < 10
      → b < 128
      → parse_varint (header ++ (b ∷ [])) ≡ ok (n, used)
      → check_frame_length n limits ≡ ok tt
      → header_byte wire limits (reading header) b ≡ ok (awaiting (header ++ (b ∷ [])) n)
  unfolding header_byte
  header_byte-last header b n used short low parsed checked =
      rw (lt→ne (length header) 10 short, lt→ltb b 128 low, parsed, checked)

  feed_all-step :
      (header rest : Bytes) (b : ℕ) (d : Decoder)
      → header_byte wire limits (reading header) b ≡ ok d
      → feed_all wire limits (reading header) (b ∷ rest) ≡ feed_all wire limits d rest
  unfolding feed_all
  feed_all-step header rest b d h =
      rw (feed-none wire limits (reading header) b refl, h) (bind_ok wire limits _)

  feed_all-final :
      (v n used : ℕ) (header bs rest : Bytes)
      → bs ≡ v ∷ []
      → v < 128
      → length header < 10
      → parse_varint (header ++ bs) ≡ ok (n, used)
      → check_frame_length n limits ≡ ok tt
      → feed_all wire limits (reading header) (bs ++ rest)
        ≡ feed_all wire limits (awaiting (header ++ bs) n) rest
  feed_all-final v n used header bs rest e low short parsed checked = rw e (
      feed_all-step header rest v _
        (header_byte-last header v n used short low (rw e at parsed) checked))

  -- The bytes of a length, one by one, up to the last.
  feed_all-groups :
      (k v n used : ℕ) (header rest : Bytes)
      → v < 128 ^ suc k
      → length header + length (groups k v) ≤ 10
      → parse_varint (header ++ groups k v) ≡ ok (n, used)
      → check_frame_length n limits ≡ ok tt
      → feed_all wire limits (reading header) (groups k v ++ rest)
        ≡ feed_all wire limits (awaiting (header ++ groups k v) n) rest
  feed_all-groups zero v n used header rest small short parsed checked =
      feed_all-final v n used header (groups zero v) rest (groups-zero v) (omega arith)
        (omega (arith, ap (λ (l : Bytes). length l) (groups-zero v))) parsed checked
  feed_all-groups (suc k) v n used header rest small short parsed checked =
      elim (Bool-cases (ltb v 128)) [
        | inl low ↦
            let e = groups-low k v low in
            feed_all-final v n used header (groups (suc k) v) rest e (ltb→lt v 128 low)
              (omega (arith, ap (λ (l : Bytes). length l) e)) parsed checked
        | inr more ↦
            let b : ℕ = v % 128 + 128 in
            let e = groups-high k v more in
            let assoc = append_assoc header (b ∷ []) (groups k (v / 128)) in
            let size = ap (λ (l : Bytes). length l) e in
            rw (e, ← assoc)
              (feed_all-step header (groups k (v / 128) ++ rest) b _
                  (header_byte-inner header b (omega (arith, size)) (omega arith))
                ∙ feed_all-groups k (v / 128) n used (header ++ (b ∷ [])) rest
                    (omega (arith, pow-suc 128 (suc k))) (rw length-append (omega (arith, size)))
                    (rw (e, ← assoc) at parsed) checked)
      ]

  feed_all-payload :
      (m : T) (header payload rest : Bytes)
      → 3 ≤ length payload
      → decode_payload wire limits payload ≡ ok m
      → feed_all wire limits (awaiting header (length payload)) (payload ++ rest)
        ≡ add wire limits (m ∷ []) (feed_all wire limits fresh rest)
  unfolding fill_to complete
  feed_all-payload m header payload rest least decodes =
      let n : ℕ = length payload in
      let count : min (n - 0) (length (payload ++ rest)) ≡ n =
        omega (arith, length-append payload rest) in
      fill_to-feed_all wire limits (payload ++ rest) (awaiting header n) n refl (omega arith)
      ∙ rw (
        count,
        take-append_length payload rest,
        drop-append_length payload rest,
        eq→== n n refl,
        decodes,
      )

  feed_all-frame :
      (m : T) (frame rest : Bytes)
      → limits.max_frame_bytes < 2 ^ 64
      → IsFrame wire limits m frame
      → feed_all wire limits fresh (frame ++ rest)
        ≡ add wire limits (m ∷ []) (feed_all wire limits fresh rest)
  feed_all-frame m frame rest sized f =
      let n : ℕ = length f.payload in
      let fits : IsU64 n = omega (arith, f.at_most) in
      let header = put_varint-groups n [] fits in
      let whole : frame ++ rest ≡ groups 9 n ++ (f.payload ++ rest) =
        ap (λ (l : Bytes). l ++ rest) (f.shape ∙ ap (λ (l : Bytes). l ++ f.payload) header)
        ∙ append_assoc (groups 9 n) f.payload rest in
      let parsed = parse_varint-put_varint n [] fits in
      rw whole (
        feed_all-groups 9 n n (length (groups 9 n)) [] (f.payload ++ rest) (omega arith)
          (omega (arith, length-put_varint n fits, ap (λ (l : Bytes). length l) header))
          (rw (append-nil (put_varint n []), header) at parsed)
          (check_frame_length-bounds limits n f.at_least f.at_most)
        ∙ feed_all-payload m (groups 9 n) f.payload rest f.at_least f.decodes)

  feed_all-frames :
      (ms : List T) (frames : List Bytes)
      → limits.max_frame_bytes < 2 ^ 64
      → AreFrames wire limits ms frames
      → feed_all wire limits fresh (flatten frames) ≡ ok (fresh, ms)
  unfolding flatten
  feed_all-frames [] [] sized h = unfold feed_all in refl
  feed_all-frames [] (f ∷ fs) sized h = absurd h
  feed_all-frames (m ∷ ms) [] sized h = absurd h
  feed_all-frames (m ∷ ms) (f ∷ fs) sized h =
      feed_all-frame m f (flatten fs) sized h.0
      ∙ ap (add wire limits (m ∷ [])) (feed_all-frames ms fs sized h.1)

module _ {T : Type 0} {wire : WireMessage T} {Valid : T → Type 0} (law : IsWire wire Valid)
    (limits : CodecLimits) (sized : IsSized limits) where
  -- For a lawful kind of message and limits that fit the word: from a new decoder, the frames that `encode` made of valid messages, one behind the other, are
  -- decoded to these messages in order, and the decoder is as new.
  pub push-encode :
      (ms : List T) (frames : List Bytes)
      → All Valid ms
      → encode_all wire limits ms ≡ ok frames
      → push wire limits fresh (flatten frames) ≡ some (fresh, ok ms)
  push-encode ms frames valid e =
      push-feed_all wire limits fresh (flatten frames) (fresh-IsDecoder limits)
      ∙ ap (λ r. some (outcome wire limits [] r))
          (feed_all-frames wire limits ms frames sized.frame_fits
            (encode_all-AreFrames law limits sized ms frames valid e))
