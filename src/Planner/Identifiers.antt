-- ===== src/Planner/Identifiers.antt =====
-- The identifiers that `plan` gives, and the plan for a destination that is up to date.
use quic_sync.Base.{
  ℕ, ◌+◌, ◌%◌, ◌^◌, ◌<◌, ◌≤◌, ◌≡◌, ◌∙◌, refl, ap, inl, inr, Bool, true, Option, none, some, List,
  [], ◌∷◌, ◌++◌, length, ok, Bool-cases,
}
use quic_sync.Base.Ordered.{Ordering-cases}
use quic_sync.Types.{EntryKind, directory, regular_file, symlink, IndexRecord}
use quic_sync.Types.Order.{compare_path, compare_path-IsOrder}
use quic_sync.Messages.{Operation, operation_id}
use quic_sync.Planner.{deletion, upsertion, upsert_of, is_update, round_operations, id_after, plan}
use quic_sync.Planner.Equality.{kind_eq, option_eq, option_eq_self}
use quic_sync.Planner.Count.{length-merge}
use quic_sync.Planner.Merge.{feed, merge, plan-merge}

-- Numbered one after the other from `n` on, with 0 behind the largest number of a `u64`.
abbrev pub IsNumbered : ℕ → List Operation → Type 0
IsNumbered n [] = Unit
IsNumbered n (o ∷ os) = (operation_id o ≡ n) × IsNumbered ((n + 1) % 2 ^ 64) os

IsNumbered-append :
    (xs ys : List Operation) (n : ℕ)
    → IsNumbered n xs
    → IsNumbered (id_after n xs) ys
    → IsNumbered n (xs ++ ys)
unfolding id_after
IsNumbered-append [] ys n h k = k
IsNumbered-append (x ∷ xs) ys n (h, hs) k = (h, IsNumbered-append xs ys ((n + 1) % 2 ^ 64) hs k)

upsert_numbered :
    (k : EntryKind) (update : Bool) (id : ℕ) (a : IndexRecord)
    → operation_id (upsert_of k update id a) ≡ id
unfolding operation_id
upsert_numbered directory update id a = refl
upsert_numbered regular_file update id a = refl
upsert_numbered symlink update id a = refl

deletion-IsNumbered : (a b : Option IndexRecord) (id : ℕ) → IsNumbered id (deletion a b id)
unfolding deletion operation_id
deletion-IsNumbered a none id = tt
deletion-IsNumbered none (some b) id = (refl, tt)
deletion-IsNumbered (some a) (some b) id =
    elim (Bool-cases (kind_eq a.metadata.kind b.metadata.kind)) [
      | inl e ↦ rw (deletion, e) tt
      | inr e ↦ rw (deletion, e) (refl, tt)
    ]

upsertion-IsNumbered :
    (a : Option IndexRecord) (update : Bool) (id : ℕ) → IsNumbered id (upsertion a update id)
unfolding upsertion
upsertion-IsNumbered none update id = tt
upsertion-IsNumbered (some a) update id = (upsert_numbered a.metadata.kind update id a, tt)

round-IsNumbered : (a b : Option IndexRecord) (id : ℕ) → IsNumbered id (round_operations a b id)
unfolding round_operations
round-IsNumbered a b id = elim (Bool-cases (option_eq a b)) [
  | inl e ↦ rw (round_operations, e) tt
  | inr e ↦
      let deleted = deletion a b id in
      let upserted = upsertion a (is_update b) (id_after id deleted) in
      rw (round_operations, e)
        (IsNumbered-append deleted upserted id (deletion-IsNumbered a b id)
          (upsertion-IsNumbered a (is_update b) (id_after id deleted)))
]

round-then :
    (a b : Option IndexRecord) (id : ℕ) (rest : ℕ → List Operation)
    → ((n : ℕ) → IsNumbered n (rest n))
    → let now = round_operations a b id in IsNumbered id (now ++ rest (id_after id now))
round-then a b id rest h =
    let now = round_operations a b id in
    IsNumbered-append now (rest (id_after id now)) id (round-IsNumbered a b id)
      (h (id_after id now))

merge-IsNumbered : (ls ks : List IndexRecord) (id : ℕ) → IsNumbered id (merge ls ks id)
unfolding merge
merge-IsNumbered [] [] id = tt
merge-IsNumbered (a ∷ ls) [] id = round-then (some a) none id (merge ls []) (merge-IsNumbered ls [])
merge-IsNumbered [] (b ∷ ks) id = round-then none (some b) id (merge [] ks) (merge-IsNumbered [] ks)
merge-IsNumbered (a ∷ ls) (b ∷ ks) id = elim (Ordering-cases (compare_path a.path b.path)) [
  | inl e ↦
      rw (merge, e) (round-then (some a) none id (merge ls (b ∷ ks)) (merge-IsNumbered ls (b ∷ ks)))
  | inr (inl e) ↦
      rw (merge, e) (round-then (some a) (some b) id (merge ls ks) (merge-IsNumbered ls ks))
  | inr (inr e) ↦
      rw (merge, e) (round-then none (some b) id (merge (a ∷ ls) ks) (merge-IsNumbered (a ∷ ls) ks))
]

round_same : (a : Option IndexRecord) (id : ℕ) → round_operations a a id ≡ []
unfolding round_operations
round_same a id = rw (round_operations, option_eq_self a) refl

merge_same : (ls : List IndexRecord) (id : ℕ) → merge ls ls id ≡ []
unfolding merge id_after
merge_same [] id = refl
merge_same (a ∷ ls) id =
    rw (merge, compare_path-IsOrder.self a.path, round_same (some a) id) (merge_same ls id)

module _ (open_after : ℕ → Bool) (always : (n : ℕ) → open_after n ≡ true) where
  -- For two complete indexes and a consumer that stays, `plan` ends without an error, and the
  -- operations sent are no more than the records of both and carry the identifiers 0, 1, 2 and so on,
  -- with 0 again behind the largest number of a `u64`.
  pub plan-IsNumbered :
      (ls ks : List IndexRecord) (fuel : ℕ)
      → length ls + length ks < fuel
      → (os : List Operation) × (plan open_after fuel (feed ls) (feed ks)
          ≡ some (record { sent = os; result = ok tt }))
        × (length os ≤ length ls + length ks)
        × IsNumbered 0 os
  plan-IsNumbered ls ks fuel h = (
    merge ls ks 0,
    plan-merge open_after always ls ks fuel h,
    length-merge ls ks 0,
    merge-IsNumbered ls ks 0,
  )

  -- For two complete indexes that are the same, and a consumer that stays, `plan` ends without an
  -- error and sends nothing.
  pub plan_same :
      (ls : List IndexRecord) (fuel : ℕ)
      → length ls + length ls < fuel
      → plan open_after fuel (feed ls) (feed ls) ≡ some (record { sent = []; result = ok tt })
  plan_same ls fuel h =
      plan-merge open_after always ls ls fuel h
      ∙ ap (λ (os : List Operation). some (record { sent = os; result = ok tt })) (merge_same ls 0)
