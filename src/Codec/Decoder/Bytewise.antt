-- ===== src/Codec/Decoder/Bytewise.antt =====
-- `push` against a reference decoder that takes one byte at a time: how the input is cut into
-- chunks does not matter.
use quic_sync.Base.{
  ℕ, zero, suc, ◌+◌, ◌-◌, ◌<◌, ◌≤◌, ◌≡◌, ◌∙◌, sym, refl, ap, Option, none, some, List, [], ◌∷◌,
  ◌++◌, length, take, min, ◌==◌, if◌then◌else◌, ok, err, ◌>>=◌, arith, inl, inr, append_assoc,
  append-nil, length-append, Result-cases, Option-cases, lt→ne, eq→==, eq_or_lt,
}
use mathlib.Core.Path.{subst}
use quic_sync.Codec.Decoder.Invariant.{
  header_byte-IsDecoder, round-IsDecoder, fill-none, fill-some, round-none, round-some,
}
use quic_sync.Base.Words.{Bytes}
use quic_sync.Codec.{CodecLimits, Coded}
use quic_sync.Codec.Wire.{WireMessage}
use quic_sync.Codec.Frame.{decode_payload}
use quic_sync.Codec.Decoder.{
  Decoder, IsFilling, fresh, header_byte, complete, fill_to, fill, round, push_loop, push,
  IsDecoder,
}

module _ {T : Type 0} (wire : WireMessage T) (limits : CodecLimits) where
  unfoldable pub payload_byte : Decoder → ℕ → ℕ → Coded (Decoder × List T)
  payload_byte d n byte =
      let payload = d.payload ++ (byte ∷ []) in
      if length payload == n
      then (do message ← decode_payload wire limits payload; ok (fresh, message ∷ []))
      else ok (record d { payload = payload }, [])

  unfoldable pub feed_at : Option ℕ → Decoder → ℕ → Coded (Decoder × List T)
  unfolding payload_byte
  feed_at none d byte = header_byte wire limits d byte >>= λ d'. ok (d', [])
  feed_at (some n) d byte = payload_byte d n byte

  abbrev pub feed : Decoder → ℕ → Coded (Decoder × List T)
  feed d byte = feed_at d.expected d byte

  unfoldable pub feed_all : Decoder → Bytes → Coded (Decoder × List T)
  feed_all d [] = ok (d, [])
  feed_all d (b ∷ bs) = do (d', ms) ← feed d b; (d'', more) ← feed_all d' bs; ok (d'', ms ++ more)

  -- One more byte of the payload, while more are due after it.
  fill_to-cons :
      (d : Decoder) (n b : ℕ) (bs : Bytes)
      → length d.payload + 1 < n
      → fill_to wire limits d n (b ∷ bs)
        ≡ fill_to wire limits (record d { payload = d.payload ++ (b ∷ []) }) n bs
  unfolding fill_to complete
  fill_to-cons d n b bs h =
      let more : Bytes = d.payload ++ (b ∷ []) in
      let c : ℕ = min (n - length more) (length bs) in
      let count : min (n - length d.payload) (suc (length bs)) ≡ suc c =
        omega (arith, length-append d.payload (b ∷ [])) in
      rw (count, append_assoc d.payload (b ∷ []) (take c bs))

  -- The byte that completes the payload.
  fill_to-last :
      (d : Decoder) (n b : ℕ) (bs : Bytes)
      → length d.payload + 1 ≡ n
      → fill_to wire limits d n (b ∷ bs) ≡ complete wire limits d n (d.payload ++ (b ∷ [])) bs
  unfolding fill_to
  fill_to-last d n b bs h =
      let count : min (n - length d.payload) (suc (length bs)) ≡ 1 = omega arith in rw count

  fill_to-nil :
      (d : Decoder) (n : ℕ) → length d.payload < n → fill_to wire limits d n [] ≡ ok (d, [], [])
  unfolding fill_to complete
  fill_to-nil d n h =
      let count : min (n - length d.payload) 0 ≡ 0 = omega arith in
      rw (count, append-nil d.payload, lt→ne (length d.payload) n h)

  -- A round's outcome, and the reference decoder on what is left.
  abbrev go_on : Coded (Decoder × Bytes × List T) → Coded (Decoder × List T)
  go_on r = r >>= λ (d, rest, ms). feed_all d rest >>= λ (d', more). ok (d', ms ++ more)

  pub bind_ok : (r : Coded (Decoder × List T)) → (r >>= λ (d, ms). ok (d, ms)) ≡ r
  bind_ok (ok p) = refl
  bind_ok (err e) = refl

  pub feed-none :
      (d : Decoder) (b : ℕ)
      → d.expected ≡ none
      → feed d b ≡ (header_byte wire limits d b >>= λ d'. ok (d', []))
  unfolding feed_at
  feed-none d b e = ap (λ (o : Option ℕ). feed_at o d b) e

  feed-some : (d : Decoder) (n b : ℕ) → d.expected ≡ some n → feed d b ≡ payload_byte d n b
  unfolding feed_at
  feed-some d n b e = ap (λ (o : Option ℕ). feed_at o d b) e

  feed_all-more :
      (d : Decoder) (n b : ℕ) (bs : Bytes)
      → d.expected ≡ some n
      → length d.payload + 1 < n
      → feed_all d (b ∷ bs) ≡ feed_all (record d { payload = d.payload ++ (b ∷ []) }) bs
  unfolding feed_all payload_byte
  feed_all-more d n b bs e h =
      let more : length (d.payload ++ (b ∷ [])) < n =
        omega (arith, length-append d.payload (b ∷ [])) in
      rw (feed-some d n b e, lt→ne (length (d.payload ++ (b ∷ []))) n more) (bind_ok _)

  feed_all-last :
      (d : Decoder) (n b : ℕ) (bs : Bytes)
      → d.expected ≡ some n
      → length d.payload + 1 ≡ n
      → feed_all d (b ∷ bs) ≡ go_on (complete wire limits d n (d.payload ++ (b ∷ [])) bs)
  unfolding feed_all payload_byte complete
  feed_all-last d n b bs e h =
      let full : length (d.payload ++ (b ∷ [])) ≡ n =
        omega (arith, length-append d.payload (b ∷ [])) in
      let tested = eq→== (length (d.payload ++ (b ∷ []))) n full in
      elim (Result-cases (decode_payload wire limits (d.payload ++ (b ∷ [])))) [
        | inl (m, r) ↦ rw (feed-some d n b e, tested, r)
        | inr (x, r) ↦ rw (feed-some d n b e, tested, r)
      ]

  pub fill_to-feed_all :
      (input : Bytes) (d : Decoder) (n : ℕ)
      → d.expected ≡ some n
      → length d.payload < n
      → feed_all d input ≡ go_on (fill_to wire limits d n input)
  fill_to-feed_all [] d n e h = rw (fill_to-nil d n h) (unfold feed_all in refl)
  fill_to-feed_all (b ∷ bs) d n e h = elim (eq_or_lt (length d.payload + 1) n (omega arith)) [
    | inl last ↦ rw (fill_to-last d n b bs last) (feed_all-last d n b bs e last)
    | inr more ↦
        let d' : Decoder = record d { payload = d.payload ++ (b ∷ []) } in
        rw (fill_to-cons d n b bs more) (
          feed_all-more d n b bs e more
          ∙ fill_to-feed_all bs d' n e (omega (arith, length-append d.payload (b ∷ []))))
  ]

  fill-feed_all :
      (d : Decoder) (bs : Bytes)
      → IsDecoder limits d
      → feed_all d bs ≡ go_on (fill wire limits d bs)
  fill-feed_all d bs v = elim (Option-cases d.expected) [
    | inl e ↦ sym (bind_ok (feed_all d bs)) ∙ ap go_on (sym (fill-none wire limits d bs e))
    | inr (n, e) ↦
        let state : IsFilling limits (some n) d.payload =
          subst (λ x. IsFilling limits x d.payload) e v.filling in
        fill_to-feed_all bs d n e state.0 ∙ ap go_on (sym (fill-some wire limits d n bs e))
  ]

  feed_all-none :
      (d : Decoder) (b : ℕ) (bs : Bytes)
      → IsDecoder limits d
      → d.expected ≡ none
      → feed_all d (b ∷ bs) ≡ go_on (header_byte wire limits d b >>= λ d'. fill wire limits d' bs)
  unfolding feed_all
  feed_all-none d b bs v e = elim (Result-cases (header_byte wire limits d b)) [
    | inr (x, h) ↦ rw (feed-none d b e, h)
    | inl (d', h) ↦
        rw (feed-none d b e, h)
          (bind_ok _ ∙ fill-feed_all d' bs (header_byte-IsDecoder wire limits d d' b v e h))
  ]

  round-feed_all :
      (d : Decoder) (b : ℕ) (bs : Bytes)
      → IsDecoder limits d
      → feed_all d (b ∷ bs) ≡ go_on (round wire limits d b bs)
  round-feed_all d b bs v = elim (Option-cases d.expected) [
    | inl e ↦ feed_all-none d b bs v e ∙ ap go_on (sym (round-none wire limits d b bs e))
    | inr (n, e) ↦
        let state : IsFilling limits (some n) d.payload =
          subst (λ x. IsFilling limits x d.payload) e v.filling in
        fill_to-feed_all (b ∷ bs) d n e state.0 ∙ ap go_on (sym (round-some wire limits d n b bs e))
  ]

  -- What `push` answers, after the messages so far, where the reference decoder gives `r`.
  abbrev pub outcome : List T → Coded (Decoder × List T) → Decoder × Coded (List T)
  outcome ms (ok (d, more)) = (d, ok (ms ++ more))
  outcome ms (err e) = (fresh, err e)

  outcome-bind :
      (ms more : List T) (r : Coded (Decoder × List T))
      → outcome ms (r >>= λ (d, l). ok (d, more ++ l)) ≡ outcome (ms ++ more) r
  outcome-bind ms more (ok (d, l)) = ap (λ (l : List T). (d, ok l)) (sym (append_assoc ms more l))
  outcome-bind ms more (err e) = refl

  push_loop-feed_all :
      (fuel : ℕ) (d : Decoder) (input : Bytes) (ms : List T)
      → IsDecoder limits d
      → length input ≤ fuel
      → push_loop wire limits fuel d input ms ≡ some (outcome ms (feed_all d input))
  unfolding push_loop
  push_loop-feed_all fuel d [] ms v h =
      unfold feed_all in ap (λ (l : List T). some (d, ok l)) (sym (append-nil ms))
  push_loop-feed_all zero d (b ∷ bs) ms v h = absurd (omega arith)
  push_loop-feed_all (suc fuel) d (b ∷ bs) ms v h = elim (Result-cases (round wire limits d b bs)) [
    | inr (x, e) ↦ rw (round-feed_all d b bs v, e, push_loop)
    | inl ((d', rest, more), e) ↦
        let kept = round-IsDecoder wire limits d d' b bs rest more v e in
        rw (round-feed_all d b bs v, e, push_loop)
          (push_loop-feed_all fuel d' rest (ms ++ more) kept.0 (omega (arith, kept.1))
            ∙ ap some (sym (outcome-bind ms more (feed_all d' rest))))
  ]

  -- From a decoder that satisfies the invariant the rounds of `push` never run out, and its answer
  -- is that of the reference decoder, which takes one byte at a time.
  pub push-feed_all :
      (d : Decoder) (input : Bytes)
      → IsDecoder limits d
      → push wire limits d input ≡ some (outcome [] (feed_all d input))
  unfolding push
  push-feed_all d input v = push_loop-feed_all (length input) d input [] v (omega arith)

  abbrev pub add : List T → Coded (Decoder × List T) → Coded (Decoder × List T)
  add ms r = r >>= λ (d, more). ok (d, ms ++ more)

  -- The reference decoder on further input.
  abbrev pub resume : Coded (Decoder × List T) → Bytes → Coded (Decoder × List T)
  resume r ys = r >>= λ (d, ms). add ms (feed_all d ys)

  add-add : (ms l : List T) (r : Coded (Decoder × List T)) → add (ms ++ l) r ≡ add ms (add l r)
  add-add ms l (ok (d, more)) = ap (λ (x : List T). ok (d, x)) (append_assoc ms l more)
  add-add ms l (err e) = refl

  resume-add :
      (ms : List T) (r : Coded (Decoder × List T)) (ys : Bytes)
      → resume (add ms r) ys ≡ add ms (resume r ys)
  resume-add ms (ok (d, l)) ys = add-add ms l (feed_all d ys)
  resume-add ms (err e) ys = refl

  pub feed_all-append :
      (d : Decoder) (xs ys : Bytes) → feed_all d (xs ++ ys) ≡ resume (feed_all d xs) ys
  unfolding feed_all
  feed_all-append d [] ys = sym (bind_ok (feed_all d ys))
  feed_all-append d (x ∷ xs) ys = elim (Result-cases (feed d x)) [
    | inr (e, h) ↦ rw h
    | inl ((d', ms), h) ↦ rw (h, feed_all-append d' xs ys) (sym (resume-add ms (feed_all d' xs) ys))
  ]

  -- What `push` answers to a first chunk and then to a second one, as one answer.
  abbrev pub joined : List T → Decoder × Coded (List T) → Decoder × Coded (List T)
  joined ms (d, ok more) = (d, ok (ms ++ more))
  joined ms (d, err e) = (d, err e)

  pub joined-outcome :
      (ms : List T) (r : Coded (Decoder × List T))
      → outcome [] (add ms r) ≡ joined ms (outcome [] r)
  joined-outcome ms (ok (d, l)) = refl
  joined-outcome ms (err e) = refl
