-- ===== src/Codec/Decoder/Invariant.antt =====
-- The invariant of the decoder, and that each round of `push` keeps it and takes input.
use quic_sync.Base.{
  ℕ, ◌-◌, ◌≤◌, ◌≡◌, ◌∙◌, sym, refl, ap, Option, none, some, List, [], ◌∷◌, ◌++◌, length, take, drop,
  min, ok, ◌>>=◌, >>=-eq-ok, arith, inl, inr, length-append, length-take, length-drop, Option-cases,
}
use mathlib.Core.Path.{subst}
use quic_sync.Base.Words.{Bytes}
use quic_sync.Codec.{CodecLimits, Coded}
use quic_sync.Codec.Wire.{WireMessage}
use quic_sync.Codec.Frame.{check_frame_length}
use quic_sync.Codec.Decoder.{
  Decoder, fresh, header_byte, complete, fill_to, fill_if, fill, round_at, round, IsDecoder,
  IsFilling,
}

pub fresh-IsDecoder : (limits : CodecLimits) → IsDecoder limits fresh
fresh-IsDecoder limits = record { header_short = omega arith; filling = refl }

pub check_frame_length-eq-ok :
    (n : ℕ) (limits : CodecLimits)
    → check_frame_length n limits ≡ ok tt
    → (3 ≤ n) × (n ≤ limits.max_frame_bytes)
unfolding check_frame_length
check_frame_length-eq-ok n limits h = ground arith

module _ {T : Type 0} (wire : WireMessage T) (limits : CodecLimits) where
  pub header_byte-IsDecoder :
      (d d' : Decoder) (b : ℕ)
      → IsDecoder limits d
      → d.expected ≡ none
      → header_byte wire limits d b ≡ ok d'
      → IsDecoder limits d'
  unfolding header_byte check_frame_length
  header_byte-IsDecoder d d' b v e h = ground (arith, length-append d.header (b ∷ []))

  complete-IsDecoder :
      (d d' : Decoder) (n : ℕ) (payload rest rest' : Bytes) (ms : List T)
      → length d.header ≤ 10
      → d.expected ≡ some n
      → length payload ≤ n
      → n ≤ limits.max_frame_bytes
      → complete wire limits d n payload rest ≡ ok (d', rest', ms)
      → IsDecoder limits d' × (rest' ≡ rest)
  unfolding complete
  complete-IsDecoder d d' n payload rest rest' ms short e le most h = ground arith

  fill_to-IsDecoder :
      (d d' : Decoder) (n : ℕ) (input rest : Bytes) (ms : List T)
      → IsDecoder limits d
      → d.expected ≡ some n
      → fill_to wire limits d n input ≡ ok (d', rest, ms)
      → IsDecoder limits d'
        × (length rest ≡ length input - min (n - length d.payload) (length input))
  unfolding fill_to
  fill_to-IsDecoder d d' n input rest ms v e h =
      let count : ℕ = min (n - length d.payload) (length input) in
      let state : IsFilling limits (some n) d.payload =
        subst (λ x. IsFilling limits x d.payload) e v.filling in
      let kept =
        complete-IsDecoder d d' n (d.payload ++ take count input) (drop count input) rest ms
          v.header_short e
          (rw (length-append d.payload (take count input), length-take count input) (omega arith))
          state.1 h in
      (kept.0, ap (λ (l : Bytes). length l) kept.1 ∙ length-drop count input)

  pub fill-some :
      (d : Decoder) (n : ℕ) (input : Bytes)
      → d.expected ≡ some n
      → fill wire limits d input ≡ fill_to wire limits d n input
  unfolding fill_if
  fill-some d n input e = ap (λ (o : Option ℕ). fill_if wire limits o d input) e

  pub fill-none :
      (d : Decoder) (input : Bytes)
      → d.expected ≡ none
      → fill wire limits d input ≡ ok (d, input, [])
  unfolding fill_if
  fill-none d input e = ap (λ (o : Option ℕ). fill_if wire limits o d input) e

  pub round-none :
      (d : Decoder) (b : ℕ) (input : Bytes)
      → d.expected ≡ none
      → round wire limits d b input
        ≡ (header_byte wire limits d b >>= λ d'. fill wire limits d' input)
  unfolding round_at
  round-none d b input e = ap (λ (o : Option ℕ). round_at wire limits o d b input) e

  pub round-some :
      (d : Decoder) (n b : ℕ) (input : Bytes)
      → d.expected ≡ some n
      → round wire limits d b input ≡ fill_to wire limits d n (b ∷ input)
  unfolding round_at
  round-some d n b input e =
      ap (λ (o : Option ℕ). round_at wire limits o d b input) e ∙ fill-some d n (b ∷ input) e

  fill-IsDecoder :
      (d d' : Decoder) (input rest : Bytes) (ms : List T)
      → IsDecoder limits d
      → fill wire limits d input ≡ ok (d', rest, ms)
      → IsDecoder limits d' × (length rest ≤ length input)
  fill-IsDecoder d d' input rest ms v h = elim (Option-cases d.expected) [
    | inl e ↦
        let same : ◌≡◌ {A = Coded (Decoder × Bytes × List T)} (ok (d, input, []))
            (ok (d', rest, ms)) =
          sym (fill-none d input e) ∙ h in
        (ground arith, ground arith)
    | inr (n, e) ↦
        let kept = fill_to-IsDecoder d d' n input rest ms v e (sym (fill-some d n input e) ∙ h) in
        (kept.0, omega (arith, kept.1))
  ]

  -- A round leaves a decoder that satisfies the invariant, and a shorter input.
  pub round-IsDecoder :
      (d d' : Decoder) (b : ℕ) (input rest : Bytes) (ms : List T)
      → IsDecoder limits d
      → round wire limits d b input ≡ ok (d', rest, ms)
      → IsDecoder limits d' × (length rest ≤ length input)
  round-IsDecoder d d' b input rest ms v h = elim (Option-cases d.expected) [
    | inl e ↦
        let (d1, p, q) =
          >>=-eq-ok (header_byte wire limits d b) _ (sym (round-none d b input e) ∙ h) in
        fill-IsDecoder d1 d' input rest ms (header_byte-IsDecoder d d1 b v e p) q
    | inr (n, e) ↦
        let kept =
          fill_to-IsDecoder d d' n (b ∷ input) rest ms v e (sym (round-some d n b input e) ∙ h) in
        let state : IsFilling limits (some n) d.payload =
          subst (λ x. IsFilling limits x d.payload) e v.filling in
        (kept.0, omega (arith, kept.1))
  ]
