-- ===== src/Planner/Merge.antt =====
-- `plan` on two complete indexes: the loop ends, and what it sends is a structural merge.
use quic_sync.Base.{
  ℕ, zero, suc, ◌+◌, ◌<◌, ◌≡◌, ◌∙◌, sym, refl, ap, Bool, true, false, Option, none, some, List, [],
  ◌∷◌, ◌++◌, length, append_assoc, append-nil, Ordering, ok, arith,
}
use quic_sync.Base.Ordered.{reverse, Ordering-cases}
use mathlib.Core.Path.{ap₂}
use quic_sync.Base.{inl, inr}
use quic_sync.Types.{IndexRecord}
use quic_sync.Types.Order.{compare_path, is_le, compare_path-IsOrder}
use quic_sync.Messages.{Operation, index_record, index_end}
use quic_sync.Planner.{
  Channel, read, round_operations, consumed, taken, advance, Planned, send_all, id_after, plan_loop,
  plan,
}

-- What a scan sends for an index: its records, then `End`.
abbrev pub feed : List IndexRecord → Channel
feed [] = ok index_end ∷ []
feed (r ∷ rs) = ok (index_record r) ∷ feed rs

-- The first record of an index, and the channel behind it.
abbrev first : List IndexRecord → Option IndexRecord
first [] = none
first (r ∷ rs) = some r

abbrev after : List IndexRecord → Channel
after [] = []
after (r ∷ rs) = feed rs

read-feed : (rs : List IndexRecord) → read (feed rs) ≡ ok (first rs, after rs)
unfolding read
read-feed [] = refl
read-feed (r ∷ rs) = refl

-- The operations for two indexes, with identifiers from `id` on.
unfoldable pub merge : List IndexRecord → List IndexRecord → ℕ → List Operation
merge [] [] id = []
merge (a ∷ ls) [] id =
    let now = round_operations (some a) none id in now ++ merge ls [] (id_after id now)
merge [] (b ∷ ks) id =
    let now = round_operations none (some b) id in now ++ merge [] ks (id_after id now)
merge (a ∷ ls) (b ∷ ks) id = elim (compare_path a.path b.path) [
  | Ordering.lt ↦
      let now = round_operations (some a) none id in now ++ merge ls (b ∷ ks) (id_after id now)
  | Ordering.eq ↦
      let now = round_operations (some a) (some b) id in now ++ merge ls ks (id_after id now)
  | Ordering.gt ↦
      let now = round_operations none (some b) id in now ++ merge (a ∷ ls) ks (id_after id now)
]

path_flip : (a b : IndexRecord) → compare_path b.path a.path ≡ reverse (compare_path a.path b.path)
path_flip a b = compare_path-IsOrder.flip a.path b.path

consumed-lt :
    (a b : IndexRecord)
    → compare_path a.path b.path ≡ Ordering.lt
    → consumed (some a) (some b) ≡ some (true, false)
unfolding consumed
consumed-lt a b e =
    ap₂ (λ (x y : Ordering). some (is_le x, is_le y)) e (path_flip a b ∙ ap reverse e)

consumed-eq :
    (a b : IndexRecord)
    → compare_path a.path b.path ≡ Ordering.eq
    → consumed (some a) (some b) ≡ some (true, true)
unfolding consumed
consumed-eq a b e =
    ap₂ (λ (x y : Ordering). some (is_le x, is_le y)) e (path_flip a b ∙ ap reverse e)

consumed-gt :
    (a b : IndexRecord)
    → compare_path a.path b.path ≡ Ordering.gt
    → consumed (some a) (some b) ≡ some (false, true)
unfolding consumed
consumed-gt a b e =
    ap₂ (λ (x y : Ordering). some (is_le x, is_le y)) e (path_flip a b ∙ ap reverse e)

module _ (open_after : ℕ → Bool) (always : (n : ℕ) → open_after n ≡ true) where
  send_all-open : (sent os : List Operation) → send_all open_after sent os ≡ (sent ++ os, true)
  unfolding send_all
  send_all-open sent [] = ap (λ (l : List Operation). (l, true)) (sym (append-nil sent))
  send_all-open sent (o ∷ os) =
      rw (always (length sent), send_all-open (sent ++ (o ∷ [])) os, append_assoc sent (o ∷ []) os)

  finished : List Operation → List IndexRecord → List IndexRecord → ℕ → Option Planned
  finished sent source destination id =
      some (record { sent = sent ++ merge source destination id; result = ok tt })

  -- A round whose reads succeed.
  plan_loop-round :
      (fuel id : ℕ) (sent : List Operation) (left right : Option IndexRecord) (s d : Channel)
      (from_s from_d : Bool) (left' right' : Option IndexRecord) (s' d' : Channel)
      → consumed left right ≡ some (from_s, from_d)
      → advance from_s left s ≡ ok (left', s')
      → advance from_d right d ≡ ok (right', d')
      → let now = round_operations (taken from_s left) (taken from_d right) id in
        plan_loop open_after (suc fuel) left right s d id sent
        ≡ plan_loop open_after fuel left' right' s' d' (id_after id now) (sent ++ now)
  unfolding plan_loop
  plan_loop-round fuel id sent left right s d from_s from_d left' right' s' d' hc hs hd =
      let now = round_operations (taken from_s left) (taken from_d right) id in
      rw (plan_loop, hc, hs, hd, send_all-open sent now) refl

  finished-append :
      (sent now : List Operation) (ls ks : List IndexRecord) (id : ℕ)
      → finished (sent ++ now) ls ks id
        ≡ some (record { sent = sent ++ (now ++ merge ls ks id); result = ok tt })
  unfolding finished
  finished-append sent now ls ks id =
      ap (λ (l : List Operation). some (record { sent = l; result = ok tt }))
        (append_assoc sent now (merge ls ks id))

  plan_loop-merge :
      (fuel : ℕ) (ls ks : List IndexRecord) (id : ℕ) (sent : List Operation)
      → length ls + length ks < fuel
      → plan_loop open_after fuel (first ls) (first ks) (after ls) (after ks) id sent
        ≡ finished sent ls ks id
  unfolding plan_loop merge consumed advance finished
  plan_loop-merge zero ls ks id sent h = absurd (omega arith)
  plan_loop-merge (suc fuel) [] [] id sent h =
      ap (λ (l : List Operation). some (record { sent = l; result = ok tt }))
        (sym (append-nil sent))
  plan_loop-merge (suc fuel) (a ∷ ls) [] id sent h =
      let now = round_operations (some a) none id in
      plan_loop-round fuel id sent (some a) none (feed ls) [] true false (first ls) none (after ls)
        [] refl (read-feed ls) refl
      ∙ plan_loop-merge fuel ls [] (id_after id now) (sent ++ now) (omega arith)
      ∙ finished-append sent now ls [] (id_after id now)
  plan_loop-merge (suc fuel) [] (b ∷ ks) id sent h =
      let now = round_operations none (some b) id in
      plan_loop-round fuel id sent none (some b) [] (feed ks) false true none (first ks) []
        (after ks) refl refl (read-feed ks)
      ∙ plan_loop-merge fuel [] ks (id_after id now) (sent ++ now) (omega arith)
      ∙ finished-append sent now [] ks (id_after id now)
  plan_loop-merge (suc fuel) (a ∷ ls) (b ∷ ks) id sent h =
      elim (Ordering-cases (compare_path a.path b.path)) [
        | inl e ↦
            let now = round_operations (some a) none id in
            plan_loop-round fuel id sent (some a) (some b) (feed ls) (feed ks) true false (first ls)
              (some b) (after ls) (feed ks) (consumed-lt a b e) (read-feed ls) refl
            ∙ plan_loop-merge fuel ls (b ∷ ks) (id_after id now) (sent ++ now) (omega arith)
            ∙ rw (finished, merge, e) (finished-append sent now ls (b ∷ ks) (id_after id now))
        | inr (inl e) ↦
            let now = round_operations (some a) (some b) id in
            plan_loop-round fuel id sent (some a) (some b) (feed ls) (feed ks) true true (first ls)
              (first ks) (after ls) (after ks) (consumed-eq a b e) (read-feed ls) (read-feed ks)
            ∙ plan_loop-merge fuel ls ks (id_after id now) (sent ++ now) (omega arith)
            ∙ rw (finished, merge, e) (finished-append sent now ls ks (id_after id now))
        | inr (inr e) ↦
            let now = round_operations none (some b) id in
            plan_loop-round fuel id sent (some a) (some b) (feed ls) (feed ks) false true (some a)
              (first ks) (feed ls) (after ks) (consumed-gt a b e) refl (read-feed ks)
            ∙ plan_loop-merge fuel (a ∷ ls) ks (id_after id now) (sent ++ now) (omega arith)
            ∙ rw (finished, merge, e) (finished-append sent now (a ∷ ls) ks (id_after id now))
      ]

  -- For two complete indexes and a consumer that stays, `plan` ends without an error and has sent
  -- the merge of the indexes, numbered from 0.
  pub plan-merge :
      (ls ks : List IndexRecord) (fuel : ℕ)
      → length ls + length ks < fuel
      → plan open_after fuel (feed ls) (feed ks)
        ≡ some (record { sent = merge ls ks 0; result = ok tt })
  unfolding plan finished
  plan-merge ls ks fuel h =
      rw (plan, read-feed ls, read-feed ks) (plan_loop-merge fuel ls ks 0 [] h)
