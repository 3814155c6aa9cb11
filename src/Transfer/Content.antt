-- ===== src/Transfer/Content.antt =====
-- What is read from the chunks of crates/quicsync-core/src/sync/transfer.rs by the loop of a reader.
use quic_sync.Base.{
  ℕ, zero, suc, ◌≡◌, ◌≢◌, ◌∙◌, sym, refl, ap, Bool, true, false, List, [], ◌∷◌, ◌++◌, append_assoc,
  append-nil, take, drop, take-append-drop, ok, err, ok_inj, ◌==◌, ◌>>=◌, >>=-eq-ok, arith, length,
  length-append, ◌<◌,
}
use quic_sync.Base.Words.{Bytes}
use quic_sync.Error.{Fallible}
use quic_sync.Transfer.{Chunk, data_chunk, end_chunk, Input, read_loop, read, failure}

-- The bytes that are still to be read; an error if the channel closes before the end.
unfoldable pub chunk_content : List Chunk → Fallible Bytes
chunk_content [] = err failure
chunk_content (data_chunk bytes ∷ rx) = chunk_content rx >>= λ later. ok (bytes ++ later)
chunk_content (end_chunk ∷ rx) = ok []

unfoldable pub content_of : Bytes → Bool → List Chunk → Fallible Bytes
content_of current true rx = ok current
content_of current false rx = chunk_content rx >>= λ later. ok (current ++ later)

abbrev pub content : Input → Fallible Bytes
content input = content_of input.current input.ended input.rx

-- One read takes the first bytes of the content, and none only at its end.
record IsRead (before : Bytes) (out : Bytes × Input) : Type 0 where
  after : Bytes
  rest : content out.1 ≡ ok after
  parts : before ≡ out.0 ++ after
  at_end : out.0 ≡ [] → before ≡ []

pub bind-id : {A : Type 0} (r : Fallible A) → (r >>= λ a. ok a) ≡ r
bind-id (ok a) = refl
bind-id (err e) = refl

no_read : (b : ℕ) (bs : Bytes) {A : Type 0} → b ∷ bs ≡ [] → A
no_read b bs h = absurd (ne h)
  where
    ne : b ∷ bs ≢ []
    ne e = cc

at_hand :
    (n b : ℕ) (bs : Bytes) (ended : Bool) (rx : List Chunk) (before later : Bytes)
    → content_of (drop n bs) ended rx ≡ ok (drop n bs ++ later)
    → (b ∷ bs) ++ later ≡ before
    → (out : Bytes × Input) × (read_loop (suc n) (b ∷ bs) ended rx ≡ ok out) × IsRead before out
unfolding read_loop
at_hand n b bs ended rx before later h e = (
  (b ∷ take n bs, record { rx = rx; current = drop n bs; ended = ended }),
  refl,
  record {
    after = drop n bs ++ later;
    rest = h;
    parts =
        sym e
        ∙ ap (λ (l : Bytes). b ∷ (l ++ later)) (sym (take-append-drop n bs))
        ∙ ap (λ (l : Bytes). b ∷ l) (append_assoc (take n bs) (drop n bs) later);
    at_end = λ x. no_read b (take n bs) x;
  },
)

finished :
    (n : ℕ) (rx : List Chunk) (before : Bytes)
    → [] ≡ before
    → (out : Bytes × Input) × (read_loop (suc n) [] true rx ≡ ok out) × IsRead before out
unfolding read_loop content_of
finished n rx before h = (
  ([], record { rx = rx; current = []; ended = true }),
  refl,
  record { after = []; rest = refl; parts = sym h; at_end = λ x. sym h },
)

read_loop-IsRead :
    (n : ℕ) (current : Bytes) (ended : Bool) (rx : List Chunk) (before : Bytes)
    → content_of current ended rx ≡ ok before
    → (out : Bytes × Input) × (read_loop (suc n) current ended rx ≡ ok out) × IsRead before out
unfolding read_loop content_of chunk_content
read_loop-IsRead n (b ∷ bs) true rx before h =
    at_hand n b bs true rx before [] (ap ok (sym (append-nil (drop n bs))))
      (append-nil (b ∷ bs) ∙ ok_inj h)
read_loop-IsRead n (b ∷ bs) false rx before h =
    let (later, e, f) = >>=-eq-ok (chunk_content rx) _ h in
    at_hand n b bs false rx before later (rw (content_of, e) refl) (ok_inj f)
read_loop-IsRead n [] true rx before h = finished n rx before (ok_inj h)
read_loop-IsRead n [] false [] before h = cc
read_loop-IsRead n [] false (data_chunk bytes ∷ rx) before h =
    read_loop-IsRead n bytes false rx before (sym (bind-id (content_of bytes false rx)) ∙ h)
read_loop-IsRead n [] false (end_chunk ∷ rx) before h = finished n rx before (ok_inj h)

-- Reads of at most `n` bytes until one returns none, as `io::copy` makes them.
unfoldable pub drain : ℕ → ℕ → Input → Fallible Bytes
drain zero n input = err failure
drain (suc fuel) n input = read n input >>= λ (bytes, rest). elim bytes [
  | [] ↦ ok []
  | b ∷ bs ↦ drain fuel n rest >>= λ later. ok ((b ∷ bs) ++ later)
]

positive : (n : ℕ) → (suc n == 0) ≡ false
positive n = ground arith

read-IsRead :
    (n : ℕ) (input : Input) (before : Bytes)
    → content input ≡ ok before
    → (out : Bytes × Input) × (read (suc n) input ≡ ok out) × IsRead before out
unfolding read
read-IsRead n input before h =
    rw (read, positive n) (read_loop-IsRead n input.current input.ended input.rx before h)

-- A read, and what the loop makes of the rest.
drained :
    (fuel n : ℕ) (before : Bytes) (out : Bytes × Input)
    → IsRead before out
    → length before < suc fuel
    → ((after : Bytes)
        → content out.1 ≡ ok after
        → length after < fuel
        → drain fuel n out.1 ≡ ok after)
    → (elim out.0 [ [] ↦ ok [] | b ∷ bs ↦ drain fuel n out.1 >>= λ later. ok ((b ∷ bs) ++ later) ])
      ≡ ok before
drained fuel n before ([], rest) r k more = ap ok (sym (r.at_end refl))
drained fuel n before (b ∷ bs, rest) r k more =
    let shorter = ap length r.parts in
    rw (more r.after r.rest (omega (arith, shorter, length-append bs r.after)))
      (ap ok (sym r.parts))

pub drain-content :
    (fuel n : ℕ) (input : Input) (before : Bytes)
    → content input ≡ ok before
    → length before < fuel
    → drain fuel (suc n) input ≡ ok before
unfolding drain
drain-content zero n input before h k = absurd (omega arith)
drain-content (suc fuel) n input before h k =
    let (out, e, r) = read-IsRead n input before h in
    rw (drain, e) (drained fuel (suc n) before out r k (λ after. drain-content fuel n out.1 after))
