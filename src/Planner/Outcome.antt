-- ===== src/Planner/Outcome.antt =====
-- The operations that `plan` sends for two sorted indexes turn the one into the other.
use mathlib.Core.Path.{subst}
use quic_sync.Base.{
  ℕ, ◌+◌, ◌<◌, ◌≡◌, ◌∙◌, sym, refl, ap, ◌⊎◌, inl, inr, Bool, true, false, Option, none, some, List,
  [], ◌∷◌, ◌++◌, length, Ordering, ok,
}
use quic_sync.Base.Ordered.{reverse, Ordering-cases}
use quic_sync.Types.{RelativePath, IndexRecord}
use quic_sync.Types.Order.{compare_path, compare_path-IsOrder}
use quic_sync.Types.Sorted.{IsAbove, IsAbove-trans, IsSorted}
use quic_sync.Messages.{Operation}
use quic_sync.Planner.{round_operations, id_after, plan}
use quic_sync.Planner.Merge.{feed, merge, plan-merge}
use quic_sync.Planner.Effect.{
  is_same, same_path, same_path_refl, entry, effects, effects-append, IsAt, IsOff, round-here,
  round-off,
}

above-off :
    (p : RelativePath) (r : IndexRecord)
    → compare_path p r.path ≡ Ordering.lt
    → same_path r.path p ≡ false
above-off p r h = ap is_same (compare_path-IsOrder.flip p r.path ∙ ap reverse h)

below-off :
    (p : RelativePath) (r : IndexRecord)
    → compare_path r.path p ≡ Ordering.lt
    → same_path r.path p ≡ false
below-off p r h = ap is_same h

path-cases : (r : IndexRecord) (p : RelativePath) → (r.path ≡ p) ⊎ (same_path r.path p ≡ false)
path-cases r p = elim (Ordering-cases (compare_path r.path p)) [
  | inl e ↦ inr (ap is_same e)
  | inr (inl e) ↦ inl (compare_path-IsOrder.antisym r.path p e)
  | inr (inr e) ↦ inr (ap is_same e)
]

entry-here :
    (r : IndexRecord) (rs : List IndexRecord) (p : RelativePath)
    → r.path ≡ p
    → entry (r ∷ rs) p ≡ some r
unfolding entry
entry-here r rs p h = rw (entry, h, same_path_refl p) refl

entry-off :
    (r : IndexRecord) (rs : List IndexRecord) (p : RelativePath)
    → same_path r.path p ≡ false
    → entry (r ∷ rs) p ≡ entry rs p
unfolding entry
entry-off r rs p h = rw (entry, h) refl

entry-above : (p : RelativePath) (rs : List IndexRecord) → IsAbove p rs → entry rs p ≡ none
unfolding entry
entry-above p [] h = refl
entry-above p (r ∷ rs) (h, hs) = entry-off r rs p (above-off p r h) ∙ entry-above p rs hs

module _ (p : RelativePath) where
  -- A round that is not at `p`.
  pass :
      (a b : Option IndexRecord) (id : ℕ) (rest : List Operation) (v : Option IndexRecord)
      → IsOff p a
      → IsOff p b
      → effects (round_operations a b id ++ rest) p v ≡ effects rest p v
  pass a b id rest v ha hb =
      effects-append (round_operations a b id) rest p v v (round-off a b id p v ha hb)

  merge-above :
      (ls ks : List IndexRecord) (id : ℕ) (v : Option IndexRecord)
      → IsAbove p ls
      → IsAbove p ks
      → effects (merge ls ks id) p v ≡ some v
  unfolding merge effects IsOff
  merge-above [] [] id v hl hk = refl
  merge-above (a ∷ ls) [] id v (ha, hl) hk =
      let now = round_operations (some a) none id in
      pass (some a) none id (merge ls [] (id_after id now)) v (above-off p a ha) tt
      ∙ merge-above ls [] (id_after id now) v hl hk
  merge-above [] (b ∷ ks) id v hl (hb, hk) =
      let now = round_operations none (some b) id in
      pass none (some b) id (merge [] ks (id_after id now)) v tt (above-off p b hb)
      ∙ merge-above [] ks (id_after id now) v hl hk
  merge-above (a ∷ ls) (b ∷ ks) id v (ha, hl) (hb, hk) =
      elim (Ordering-cases (compare_path a.path b.path)) [
        | inl e ↦
            let now = round_operations (some a) none id in
            rw (merge, e)
              (pass (some a) none id (merge ls (b ∷ ks) (id_after id now)) v (above-off p a ha) tt
                ∙ merge-above ls (b ∷ ks) (id_after id now) v hl (hb, hk))
        | inr (inl e) ↦
            let now = round_operations (some a) (some b) id in
            rw (merge, e)
              (pass (some a) (some b) id (merge ls ks (id_after id now)) v (above-off p a ha)
                  (above-off p b hb)
                ∙ merge-above ls ks (id_after id now) v hl hk)
        | inr (inr e) ↦
            let now = round_operations none (some b) id in
            rw (merge, e)
              (pass none (some b) id (merge (a ∷ ls) ks (id_after id now)) v tt (above-off p b hb)
                ∙ merge-above (a ∷ ls) ks (id_after id now) v (ha, hl) hk)
      ]

  -- A round that is at `p`, where the destination still has what its index says.
  meet :
      (a b : Option IndexRecord) (id : ℕ) (rest : List Operation)
      → IsAt p a
      → IsAt p b
      → effects (round_operations a b id ++ rest) p b ≡ effects rest p a
  meet a b id rest ha hb =
      effects-append (round_operations a b id) rest p b a (round-here a b id p ha hb)

  module _ (a : IndexRecord) (ls ks : List IndexRecord) (id : ℕ) where
    source-round :
        IsAbove a.path ls
        → IsAbove a.path ks
        → ((n : ℕ) → effects (merge ls ks n) p (entry ks p) ≡ some (entry ls p))
        → let now = round_operations (some a) none id in
          effects (now ++ merge ls ks (id_after id now)) p (entry ks p) ≡ some (entry (a ∷ ls) p)
    unfolding IsAt IsOff
    source-round hl hk again =
        let now = round_operations (some a) none id in
        let later = merge ls ks (id_after id now) in
        elim (path-cases a p) [
          | inl e ↦
              ap (effects (now ++ later) p) (entry-above p ks (subst (λ q. IsAbove q ks) e hk))
              ∙ meet (some a) none id later e tt
              ∙ merge-above ls ks (id_after id now) (some a) (subst (λ q. IsAbove q ls) e hl)
                  (subst (λ q. IsAbove q ks) e hk)
              ∙ ap some (sym (entry-here a ls p e))
          | inr off ↦
              pass (some a) none id later (entry ks p) off tt
              ∙ again (id_after id now)
              ∙ ap some (sym (entry-off a ls p off))
        ]

  module _ (b : IndexRecord) (ls ks : List IndexRecord) (id : ℕ) where
    destination-round :
        IsAbove b.path ls
        → IsAbove b.path ks
        → ((n : ℕ) → effects (merge ls ks n) p (entry ks p) ≡ some (entry ls p))
        → let now = round_operations none (some b) id in
          effects (now ++ merge ls ks (id_after id now)) p (entry (b ∷ ks) p) ≡ some (entry ls p)
    unfolding IsAt IsOff
    destination-round hl hk again =
        let now = round_operations none (some b) id in
        let later = merge ls ks (id_after id now) in
        elim (path-cases b p) [
          | inl e ↦
              ap (effects (now ++ later) p) (entry-here b ks p e)
              ∙ meet none (some b) id later tt e
              ∙ merge-above ls ks (id_after id now) none (subst (λ q. IsAbove q ls) e hl)
                  (subst (λ q. IsAbove q ks) e hk)
              ∙ ap some (sym (entry-above p ls (subst (λ q. IsAbove q ls) e hl)))
          | inr off ↦
              ap (effects (now ++ later) p) (entry-off b ks p off)
              ∙ pass none (some b) id later (entry ks p) tt off
              ∙ again (id_after id now)
        ]

  module _ (a b : IndexRecord) (ls ks : List IndexRecord) (id : ℕ) where
    both-round :
        a.path ≡ b.path
        → IsAbove a.path ls
        → IsAbove b.path ks
        → ((n : ℕ) → effects (merge ls ks n) p (entry ks p) ≡ some (entry ls p))
        → let now = round_operations (some a) (some b) id in
          effects (now ++ merge ls ks (id_after id now)) p (entry (b ∷ ks) p)
          ≡ some (entry (a ∷ ls) p)
    unfolding IsAt IsOff
    both-round same hl hk again =
        let now = round_operations (some a) (some b) id in
        let later = merge ls ks (id_after id now) in
        elim (path-cases b p) [
          | inl e ↦
              ap (effects (now ++ later) p) (entry-here b ks p e)
              ∙ meet (some a) (some b) id later (same ∙ e) e
              ∙ merge-above ls ks (id_after id now) (some a)
                  (subst (λ q. IsAbove q ls) (same ∙ e) hl) (subst (λ q. IsAbove q ks) e hk)
              ∙ ap some (sym (entry-here a ls p (same ∙ e)))
          | inr off ↦
              let off' = ap (λ q. same_path q p) same ∙ off in
              ap (effects (now ++ later) p) (entry-off b ks p off)
              ∙ pass (some a) (some b) id later (entry ks p) off' off
              ∙ again (id_after id now)
              ∙ ap some (sym (entry-off a ls p off'))
        ]

  merge-effects :
      (ls ks : List IndexRecord) (id : ℕ)
      → IsSorted ls
      → IsSorted ks
      → effects (merge ls ks id) p (entry ks p) ≡ some (entry ls p)
  unfolding merge effects entry
  merge-effects [] [] id hl hk = refl
  merge-effects (a ∷ ls) [] id (ha, hl) hk =
      source-round a ls [] id ha tt (λ n. merge-effects ls [] n hl hk)
  merge-effects [] (b ∷ ks) id hl (hb, hk) =
      destination-round b [] ks id tt hb (λ n. merge-effects [] ks n hl hk)
  merge-effects (a ∷ ls) (b ∷ ks) id (ha, hl) (hb, hk) =
      elim (Ordering-cases (compare_path a.path b.path)) [
        | inl e ↦
            rw (merge, e)
              (source-round a ls (b ∷ ks) id ha (e, IsAbove-trans a.path b.path ks e hb)
                (λ n. merge-effects ls (b ∷ ks) n hl (hb, hk)))
        | inr (inl e) ↦
            rw (merge, e)
              (both-round a b ls ks id (compare_path-IsOrder.antisym a.path b.path e) ha hb
                (λ n. merge-effects ls ks n hl hk))
        | inr (inr e) ↦
            let below = compare_path-IsOrder.flip a.path b.path ∙ ap reverse e in
            rw (merge, e)
              (destination-round b (a ∷ ls) ks id (below, IsAbove-trans b.path a.path ls below ha)
                hb (λ n. merge-effects (a ∷ ls) ks n (ha, hl) hk))
      ]

module _ (open_after : ℕ → Bool) (always : (n : ℕ) → open_after n ≡ true) where
  -- For two complete, strictly sorted indexes and a consumer that stays, `plan` ends without an
  -- error, and the operations sent take what the destination has at any path to what the source
  -- has there, each finding at its path what it relies on.
  pub plan-effects :
      (ls ks : List IndexRecord) (fuel : ℕ) (p : RelativePath)
      → length ls + length ks < fuel
      → IsSorted ls
      → IsSorted ks
      → (os : List Operation) × (plan open_after fuel (feed ls) (feed ks)
          ≡ some (record { sent = os; result = ok tt }))
        × (effects os p (entry ks p) ≡ some (entry ls p))
  plan-effects ls ks fuel p h hl hk =
      (merge ls ks 0, plan-merge open_after always ls ks fuel h, merge-effects p ls ks 0 hl hk)
