-- ===== src/Transfer/Whole.antt =====
-- What arrives of a whole file that crates/quicsync-core/src/sync/transfer.rs sends, also where
-- sending is cut off.
use quic_sync.Base.{
  ℕ, zero, suc, ◌≡◌, ◌≢◌, ◌∙◌, inl, inr, sym, refl, ap, Bool, true, Option, none, some, List, [],
  ◌∷◌, ◌++◌, take, ok, err, ok_inj, >>=-eq-ok, arith, length, ◌<◌, ◌≤◌, All, Bool-cases,
  Result-cases,
}
use mathlib.Core.Path.{subst}
use quic_sync.Base.Words.{Bytes}
use quic_sync.Error.{PeerError, Fallible}
use quic_sync.Types.{AllSome}
use quic_sync.Metadata.{read_all}
use quic_sync.Messages.{FileTransfer}
use quic_sync.Transfer.{
  Chunk, new_input, produce, whole_files, send_messages, send_whole, receive_whole, failure,
}
use quic_sync.Transfer.CutOff.{
  whole_messages, send_messages_all, cut_off, all_or_cut_off, not_taken,
}
use quic_sync.Transfer.Content.{chunk_content, content_of, drain, drain-content, bind-id}

-- What `Read::read` promises: no read returns more bytes than the buffer has.
abbrev pub AreWithin : ℕ → List (Option Bytes) → Type 0
AreWithin size = All (AllSome (λ bs. length bs ≤ size))

take_short : (n : ℕ) (xs : Bytes) → length xs ≤ n → take n xs ≡ xs
take_short zero [] h = refl
take_short zero (x ∷ xs) h = absurd (omega arith)
take_short (suc n) [] h = refl
take_short (suc n) (x ∷ xs) h = ap (λ (l : Bytes). x ∷ l) (take_short n xs (omega arith))

-- The receiver takes the messages of `chunks` for a file of `bytes`.
record IsWhole (chunks : List Bytes) (bytes : Bytes) : Type 0 where
  received : (receive_whole (whole_messages chunks)).1 ≡ ok tt
  same : chunk_content (receive_whole (whole_messages chunks)).0 ≡ ok bytes

IsWhole-none : IsWhole [] []
unfolding whole_files receive_whole chunk_content
IsWhole-none = record { received = refl; same = refl }

IsWhole-chunk :
    (c : Bytes) (cs : List Bytes) (bytes : Bytes) → IsWhole cs bytes → IsWhole (c ∷ cs) (c ++ bytes)
unfolding whole_files receive_whole chunk_content
IsWhole-chunk c cs bytes h = record { received = h.received; same = rw h.same refl }

module _ (open_after : ℕ → Bool) (size : ℕ) where
  -- Where the worker ends without an error, it has sent all that the reads give.
  produce-IsWhole :
      (sent : ℕ) (reads : List (Option Bytes))
      → AreWithin size reads
      → (produce open_after size sent reads).1 ≡ ok tt
      → (bytes : Bytes) × (read_all reads ≡ ok bytes)
        × IsWhole (produce open_after size sent reads).0 bytes
  unfolding produce read_all
  produce-IsWhole sent [] h k = ([], refl, IsWhole-none)
  produce-IsWhole sent (none ∷ rest) h k = cc
  produce-IsWhole sent (some [] ∷ rest) h k = ([], refl, IsWhole-none)
  produce-IsWhole sent (some (b ∷ bs) ∷ rest) (fits, h) k = elim (Bool-cases (open_after sent)) [
    | inl e ↦
        let (later, all, whole) = produce-IsWhole (suc sent) rest h (rw (produce, e) at k) in
        (
          (b ∷ bs) ++ later,
          rw (read_all, all) refl,
          rw (produce, e, take_short size (b ∷ bs) fits)
              (IsWhole-chunk (b ∷ bs) (produce open_after size (suc sent) rest).0 later whole),
        )
    | inr e ↦ absurd (refused (rw (produce, e) at k))
  ]
    where
      refused : ◌≢◌ {A = Fallible (Unit {0})} (err failure) (ok tt)
      refused e = cc

  -- Where the consumer stays and every read succeeds, it does.
  produce-ok :
      ((n : ℕ) → open_after n ≡ true)
      → (sent : ℕ) (reads : List (Option Bytes)) (bytes : Bytes) → read_all reads ≡ ok bytes
      → (produce open_after size sent reads).1 ≡ ok tt
  unfolding produce read_all
  produce-ok always sent [] bytes h = refl
  produce-ok always sent (none ∷ rest) bytes h = cc
  produce-ok always sent (some [] ∷ rest) bytes h = refl
  produce-ok always sent (some (b ∷ bs) ∷ rest) bytes h =
      let (later, e, f) = >>=-eq-ok (read_all rest) _ h in
      rw (produce, always sent) (produce-ok always (suc sent) rest later e)

drain-whole :
    (n : ℕ) (cs : List Bytes) (bytes : Bytes) (fuel : ℕ)
    → IsWhole cs bytes
    → length bytes < fuel
    → drain fuel (suc n) (new_input (receive_whole (whole_messages cs)).0) ≡ ok bytes
unfolding content_of
drain-whole n cs bytes fuel whole k =
    let chunks = (receive_whole (whole_messages cs)).0 in
    drain-content fuel n (new_input chunks) bytes (bind-id (chunk_content chunks) ∙ whole.same) k

receive_whole-eta :
    (ms : List FileTransfer)
    → (receive_whole ms).1 ≡ ok tt
    → receive_whole ms ≡ ((receive_whole ms).0, ok tt)
receive_whole-eta ms h = ap (λ (r : Fallible (Unit {0})). ((receive_whole ms).0, r)) h

drain-taken :
    (n : ℕ) (cs : List Bytes) (bytes : Bytes) (chunks : List Chunk)
    → IsWhole cs bytes
    → receive_whole (whole_messages cs) ≡ (chunks, ok tt)
    → drain (suc (length bytes)) (suc n) (new_input chunks) ≡ ok bytes
drain-taken n cs bytes chunks whole h =
    subst (λ (l : List Chunk). drain (suc (length bytes)) (suc n) (new_input l) ≡ ok bytes)
      (ap (λ (r : List Chunk × Fallible (Unit {0})). r.0) h)
      (drain-whole n cs bytes (suc (length bytes)) whole (omega arith))

module _ (refused : ℕ → Option PeerError) (open_after : ℕ → Bool) (size passed : ℕ) where
  -- Where the consumer stays and no message is refused, a file whose reads give `bytes`, none of them
  -- more than the buffer has, is sent without an error, as messages of which the receiver makes chunks,
  -- and reads of those, each of at most any number of bytes but none, give `bytes` again and then the
  -- end.
  pub send_whole-drain :
      (reads : List (Option Bytes)) (bytes : Bytes) (n fuel : ℕ)
      → ((k : ℕ) → refused k ≡ none)
      → ((k : ℕ) → open_after k ≡ true)
      → AreWithin size reads
      → read_all reads ≡ ok bytes
      → length bytes < fuel
      → (messages : List FileTransfer) × (chunks : List Chunk) × (send_whole refused open_after size
            passed reads
          ≡ (messages, ok tt))
        × (receive_whole messages ≡ (chunks, ok tt))
        × (drain fuel (suc n) (new_input chunks) ≡ ok bytes)
  unfolding send_whole
  send_whole-drain reads bytes n fuel never always fits h k =
      let all = produce-ok open_after size always 0 reads bytes h in
      let (read, same, whole) = produce-IsWhole open_after size 0 reads fits all in
      let cs = (produce open_after size 0 reads).0 in
      let given = subst (IsWhole cs) (ok_inj (sym same ∙ h)) whole in
      (
        whole_messages cs,
        (receive_whole (whole_messages cs)).0,
        rw (send_whole, all) (send_messages_all refused never 0 (whole_messages cs)),
        receive_whole-eta (whole_messages cs) given.received,
        drain-whole n cs bytes fuel given k,
      )

  -- Whatever the sender meets (an error of a read, a consumer that goes away, a message that is
  -- refused), for reads of no more than the buffer has: where the receiver takes the messages that went
  -- out for a whole file, every read of the file up to its end succeeded, and reads of the chunks
  -- received, each of at most any number of bytes but none, give the bytes of these reads and then the
  -- end.
  pub receive_whole-send_whole :
      (reads : List (Option Bytes)) (chunks : List Chunk) (n : ℕ)
      → AreWithin size reads
      → receive_whole (send_whole refused open_after size passed reads).0 ≡ (chunks, ok tt)
      → (bytes : Bytes) × (read_all reads ≡ ok bytes)
        × (drain (suc (length bytes)) (suc n) (new_input chunks) ≡ ok bytes)
  unfolding send_whole
  receive_whole-send_whole reads chunks n fits h =
      let (cs, result) = produce open_after size 0 reads in
      elim (Result-cases result) [
        | inl (_, all) ↦
            let (bytes, same, whole) = produce-IsWhole open_after size 0 reads fits all in
            let taken = rw (send_whole, all) at h in
            let out = (send_messages refused 0 (whole_messages cs)).0 in
            elim (all_or_cut_off refused 0 cs) [
              | inl e ↦ (bytes, same, drain-taken n cs bytes chunks whole (rw e at taken))
              | inr e ↦ absurd (not_taken out chunks e taken)
            ]
        | inr (x, e) ↦
            let out = (send_messages refused 0 (whole_files (take passed cs))).0 in
            absurd
              (not_taken out chunks (cut_off refused 0 (take passed cs)) (rw (send_whole, e) at h))
      ]
