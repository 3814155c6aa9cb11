-- ===== src/Transfer/CutOff.antt =====
-- The messages of a whole file in crates/quicsync-core/src/sync/transfer.rs where some are refused, and
-- what the receiver makes of those that went out.
use quic_sync.Base.{
  ℕ, suc, ◌≡◌, ◌≢◌, ◌∙◌, ◌⊎◌, inl, inr, sym, refl, ap, Option, none, List, [], ◌∷◌, ◌++◌, ok, err,
  Option-cases,
}
use quic_sync.Base.Words.{Bytes}
use quic_sync.Error.{PeerError, Fallible}
use quic_sync.Messages.{FileTransfer, whole_file, transfer_end}
use quic_sync.Transfer.{Chunk, whole_files, send_messages, receive_whole, failure}

abbrev pub whole_messages : List Bytes → List FileTransfer
whole_messages chunks = whole_files chunks ++ (transfer_end ∷ [])

abbrev pub AllOrCutOff : List Bytes → List FileTransfer → Type 0
AllOrCutOff cs out = (out ≡ whole_messages cs) ⊎ ((receive_whole out).1 ≡ err failure)

AllOrCutOff-chunk :
    (c : Bytes) (cs : List Bytes) (out : List FileTransfer)
    → AllOrCutOff cs out
    → AllOrCutOff (c ∷ cs) (whole_file c ∷ out)
unfolding whole_files receive_whole
AllOrCutOff-chunk c cs out (inl e) = inl (ap (λ (l : List FileTransfer). whole_file c ∷ l) e)
AllOrCutOff-chunk c cs out (inr e) = inr e

module _ (refused : ℕ → Option PeerError) where
  pub send_messages_all :
      ((n : ℕ) → refused n ≡ none)
      → (sent : ℕ) (ms : List FileTransfer) → send_messages refused sent ms ≡ (ms, ok tt)
  unfolding send_messages
  send_messages_all never sent [] = refl
  send_messages_all never sent (m ∷ ms) =
      rw (send_messages, never sent, send_messages_all never (suc sent) ms) refl

  -- The receiver does not take chunks without the end for a file.
  pub cut_off :
      (sent : ℕ) (cs : List Bytes)
      → (receive_whole (send_messages refused sent (whole_files cs)).0).1 ≡ err failure
  unfolding send_messages whole_files receive_whole
  cut_off sent [] = refl
  cut_off sent (c ∷ cs) = elim (Option-cases (refused sent)) [
    | inl e ↦ rw (send_messages, e) (cut_off (suc sent) cs)
    | inr (e, h) ↦ rw (send_messages, h) refl
  ]

  pub all_or_cut_off :
      (sent : ℕ) (cs : List Bytes)
      → AllOrCutOff cs (send_messages refused sent (whole_messages cs)).0
  unfolding send_messages whole_files receive_whole
  all_or_cut_off sent [] = elim (Option-cases (refused sent)) [
    | inl e ↦ inl (rw (send_messages, e) refl)
    | inr (e, h) ↦ inr (rw (send_messages, h) refl)
  ]
  all_or_cut_off sent (c ∷ cs) = elim (Option-cases (refused sent)) [
    | inl e ↦
        rw (send_messages, e)
          (AllOrCutOff-chunk c cs (send_messages refused (suc sent) (whole_messages cs)).0
            (all_or_cut_off (suc sent) cs))
    | inr (e, h) ↦ inr (rw (send_messages, h) refl)
  ]

pub not_taken :
    (out : List FileTransfer) (chunks : List Chunk)
    → (receive_whole out).1 ≡ err failure
    → receive_whole out ≢ (chunks, ok tt)
not_taken out chunks e h = differ (sym e ∙ ap (λ (r : List Chunk × Fallible (Unit {0})). r.1) h)
  where
    differ : ◌≢◌ {A = Fallible (Unit {0})} (err failure) (ok tt)
    differ x = cc
