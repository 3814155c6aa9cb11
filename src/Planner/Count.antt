-- ===== src/Planner/Count.antt =====
-- How many operations `plan` sends in crates/quicsync-core/src/sync/planner.rs.
use quic_sync.Base.{
  ℕ, suc, ◌+◌, ◌≤◌, length-append, inl, inr, Bool, Option, none, some, List, [], ◌∷◌, ◌++◌, length,
  arith, Bool-cases,
}
use quic_sync.Base.Ordered.{Ordering-cases}
use quic_sync.Types.{IndexRecord}
use quic_sync.Types.Order.{compare_path}
use quic_sync.Messages.{Operation}
use quic_sync.Planner.{deletion, upsertion, is_update, round_operations, id_after}
use quic_sync.Planner.Equality.{option_eq}
use quic_sync.Planner.Merge.{merge}

-- A round sends an operation for each of its records at most.
present : Option IndexRecord → ℕ
present none = 0
present (some r) = 1

length-deletion : (a b : Option IndexRecord) (id : ℕ) → length (deletion a b id) ≤ present b
unfolding deletion present
length-deletion a none id = omega arith
length-deletion none (some b) id = omega arith
length-deletion (some a) (some b) id = ground arith

length-upsertion :
    (a : Option IndexRecord) (update : Bool) (id : ℕ) → length (upsertion a update id) ≤ present a
unfolding upsertion present
length-upsertion none update id = omega arith
length-upsertion (some a) update id = omega arith

length-round_operations :
    (a b : Option IndexRecord) (id : ℕ) → length (round_operations a b id) ≤ present a + present b
unfolding round_operations
length-round_operations a b id =
    let deleted = deletion a b id in
    let upserted = upsertion a (is_update b) (id_after id deleted) in
    elim (Bool-cases (option_eq a b)) [
      | inl e ↦ rw (round_operations, e) (omega arith)
      | inr e ↦
          rw (round_operations, e)
            (omega (
              arith,
              length-append deleted upserted,
              length-deletion a b id,
              length-upsertion a (is_update b) (id_after id deleted),
            ))
    ]

length-round_then :
    (a b : Option IndexRecord) (id n : ℕ) (rest : ℕ → List Operation)
    → ((k : ℕ) → length (rest k) ≤ n)
    → let now = round_operations a b id in
      length (now ++ rest (id_after id now)) ≤ present a + present b + n
length-round_then a b id n rest h =
    let now = round_operations a b id in
    omega (
      arith,
      length-append now (rest (id_after id now)),
      length-round_operations a b id,
      h (id_after id now),
    )

pub length-merge :
    (ls ks : List IndexRecord) (id : ℕ) → length (merge ls ks id) ≤ length ls + length ks
unfolding merge present
length-merge [] [] id = omega arith
length-merge (a ∷ ls) [] id =
    omega
      (arith, length-round_then (some a) none id (length ls + 0) (merge ls []) (length-merge ls []))
length-merge [] (b ∷ ks) id =
    omega
      (arith, length-round_then none (some b) id (0 + length ks) (merge [] ks) (length-merge [] ks))
length-merge (a ∷ ls) (b ∷ ks) id = elim (Ordering-cases (compare_path a.path b.path)) [
  | inl e ↦
      rw (merge, e)
        (omega (
          arith,
          length-round_then (some a) none id (length ls + suc (length ks)) (merge ls (b ∷ ks))
              (length-merge ls (b ∷ ks)),
        ))
  | inr (inl e) ↦
      rw (merge, e)
        (omega (
          arith,
          length-round_then (some a) (some b) id (length ls + length ks) (merge ls ks)
              (length-merge ls ks),
        ))
  | inr (inr e) ↦
      rw (merge, e)
        (omega (
          arith,
          length-round_then none (some b) id (suc (length ls) + length ks) (merge (a ∷ ls) ks)
              (length-merge (a ∷ ls) ks),
        ))
]
