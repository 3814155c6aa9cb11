-- ===== src/Codec/Decoder/Chunks.antt =====
-- `push` keeps the decoder's invariant, and chunks are answered as the input that they make up.
use quic_sync.Base.{
  ℕ, zero, suc, ◌+◌, ◌≤◌, ◌≡◌, ◌∙◌, sym, ap, Option, some, List, [], ◌∷◌, ◌++◌, length, ok, err,
  arith, inl, inr, Result-cases, Option-cases,
}
use mathlib.Core.Path.{subst}
use quic_sync.Base.Words.{Bytes}
use quic_sync.Codec.{CodecLimits, CodecError, Coded}
use quic_sync.Codec.Wire.{WireMessage}
use quic_sync.Codec.Decoder.{
  Decoder, fresh, round, push_loop, push, IsDecoder, IsFilling, buffered_len,
}
use quic_sync.Codec.Decoder.Invariant.{fresh-IsDecoder, round-IsDecoder}
use quic_sync.Codec.Decoder.Bytewise.{
  feed_all, push-feed_all, feed_all-append, outcome, joined, joined-outcome,
}

some_pair :
    {A B : Type 0} {a a' : A} {b b' : B}
    → ◌≡◌ {A = Option (A × B)} (some (a, b)) (some (a', b'))
    → (a ≡ a') × (b ≡ b')
some_pair h = (cc, cc)

module _ {T : Type 0} (wire : WireMessage T) (limits : CodecLimits) where
  push_loop-IsDecoder :
      (fuel : ℕ) (d d' : Decoder) (input : Bytes) (ms : List T) (r : Coded (List T))
      → IsDecoder limits d
      → push_loop wire limits fuel d input ms ≡ some (d', r)
      → IsDecoder limits d'
  unfolding push_loop
  push_loop-IsDecoder fuel d d' [] ms r v h = subst (IsDecoder limits) (some_pair h).0 v
  push_loop-IsDecoder zero d d' (b ∷ bs) ms r v h = cc
  push_loop-IsDecoder (suc fuel) d d' (b ∷ bs) ms r v h =
      elim (Result-cases (round wire limits d b bs)) [
        | inr (x, e) ↦
            subst (IsDecoder limits) (some_pair (rw (e, push_loop) at h)).0 (fresh-IsDecoder limits)
        | inl ((d1, rest, more), e) ↦
            push_loop-IsDecoder fuel d1 d' rest (ms ++ more) r
              (round-IsDecoder wire limits d d1 b bs rest more v e).0 (rw (e, push_loop) at h)
      ]

  buffered : (d : Decoder) → IsDecoder limits d → buffered_len d ≤ 10 + limits.max_frame_bytes
  unfolding buffered_len
  buffered d v = elim (Option-cases d.expected) [
    | inl e ↦
        let nothing : d.payload ≡ [] = subst (λ x. IsFilling limits x d.payload) e v.filling in
        omega (arith, v.header_short, ap (λ (l : Bytes). length l) nothing)
    | inr (n, e) ↦
        let state : IsFilling limits (some n) d.payload =
          subst (λ x. IsFilling limits x d.payload) e v.filling in
        omega (arith, v.header_short, state.0, state.1)
  ]

  -- From a decoder that satisfies the invariant `push` answers every input, the invariant holds
  -- again, and no more than a header and one frame is buffered.
  pub push-IsDecoder :
      (d : Decoder) (input : Bytes)
      → IsDecoder limits d
      → (d' : Decoder) × (r : Coded (List T)) × (push wire limits d input ≡ some (d', r))
        × IsDecoder limits d'
        × (buffered_len d' ≤ 10 + limits.max_frame_bytes)
  unfolding push buffered_len
  push-IsDecoder d input v =
      let (d', r) = outcome wire limits [] (feed_all wire limits d input) in
      let answer = push-feed_all wire limits d input v in
      let kept = push_loop-IsDecoder (length input) d d' input [] r v answer in
      (d', r, answer, kept, buffered d' kept)

  outcome-eq-ok :
      (r : Coded (Decoder × List T)) (d : Decoder) (ms : List T)
      → ◌≡◌ {A = Option (Decoder × Coded (List T))}
          (some (outcome wire limits [] r))
          (some (d, ok ms))
      → r ≡ ok (d, ms)
  outcome-eq-ok (ok p) d ms h = ground arith
  outcome-eq-ok (err e) d ms h = cc (some_pair h).1

  outcome-eq-err :
      (r : Coded (Decoder × List T)) (d : Decoder) (e : CodecError)
      → ◌≡◌ {A = Option (Decoder × Coded (List T))}
          (some (outcome wire limits [] r))
          (some (d, err e))
      → r ≡ err e
  outcome-eq-err (ok p) d e h = cc (some_pair h).1
  outcome-eq-err (err x) d e h = cc (some_pair h).1

  -- From a decoder that satisfies the invariant, two chunks are answered as the one input that they
  -- make up, where the first has no error.
  pub push-append :
      (d d' : Decoder) (xs ys : Bytes) (ms : List T)
      → IsDecoder limits d
      → push wire limits d xs ≡ some (d', ok ms)
      → (r : Decoder × Coded (List T)) × (push wire limits d' ys ≡ some r)
        × (push wire limits d (xs ++ ys) ≡ some (joined wire limits ms r))
  unfolding push
  push-append d d' xs ys ms v h =
      let first =
        outcome-eq-ok (feed_all wire limits d xs) d' ms
          (sym (push-feed_all wire limits d xs v) ∙ h) in
      let v' = push_loop-IsDecoder (length xs) d d' xs [] (ok ms) v h in
      let rest = feed_all wire limits d' ys in
      (
        outcome wire limits [] rest,
        push-feed_all wire limits d' ys v',
        push-feed_all wire limits d (xs ++ ys) v
            ∙ rw (feed_all-append wire limits d xs ys, first)
                (ap some (joined-outcome wire limits ms rest)),
      )

  -- From a decoder that satisfies the invariant, where a first chunk has an error, the input that it
  -- makes up with a second chunk has it, and the decoder is as new.
  pub push-append_err :
      (d d' : Decoder) (xs ys : Bytes) (e : CodecError)
      → IsDecoder limits d
      → push wire limits d xs ≡ some (d', err e)
      → push wire limits d (xs ++ ys) ≡ some (fresh, err e)
  push-append_err d d' xs ys e v h =
      let first =
        outcome-eq-err (feed_all wire limits d xs) d' e
          (sym (push-feed_all wire limits d xs v) ∙ h) in
      push-feed_all wire limits d (xs ++ ys) v ∙ rw (feed_all-append wire limits d xs ys, first)
