-- ===== src/Planner/Effect.antt =====
-- What the operations of `plan` are for: they turn the destination's index into the source's.
use quic_sync.Base.{
  ℕ, ◌+◌, ◌%◌, ◌^◌, ◌≡◌, ◌∙◌, sym, refl, ap, inl, inr, Bool, true, false, Option, none, some, List,
  [], ◌∷◌, ◌++◌, Ordering, if◌then◌else◌, arith, Bool-cases, Option-cases,
}
use quic_sync.Types.{
  RelativePath, EntryKind, directory, regular_file, symlink, IndexRecord, AllSome,
}
use quic_sync.Types.Order.{compare_path, compare_path-IsOrder}
use quic_sync.Messages.{
  Operation, operation_path, upsert_directory, upsert_file, upsert_symlink, delete,
}
use quic_sync.Planner.{deletion, upsertion, upsert_of, is_update, round_operations, id_after}
use quic_sync.Planner.Equality.{
  kind_eq, kind_eq_self, kind_eq_comm, option_eq, option_eq_self, option_eq-some-none,
  option_eq-none-some, option_eq-eq,
}

abbrev pub is_same : Ordering → Bool
is_same Ordering.lt = false
is_same Ordering.eq = true
is_same Ordering.gt = false

abbrev pub same_path : RelativePath → RelativePath → Bool
same_path p q = is_same (compare_path p q)

-- The entry at a path of an index.
unfoldable pub entry : List IndexRecord → RelativePath → Option IndexRecord
entry [] p = none
entry (r ∷ rs) p = let rest = entry rs p in if same_path r.path p then some r else rest

-- What an operation relies on at its path: a deletion finds the kind that it names, an upsert
-- finds nothing or an entry of its own kind, and `update` tells which for a file.
unfoldable pub fits : Operation → Option IndexRecord → Bool
fits (delete id p k) none = false
fits (delete id p k) (some b) = kind_eq b.metadata.kind k
fits (upsert_directory id r) none = true
fits (upsert_directory id r) (some b) = kind_eq b.metadata.kind directory
fits (upsert_symlink id r) none = true
fits (upsert_symlink id r) (some b) = kind_eq b.metadata.kind symlink
fits (upsert_file false id r) none = true
fits (upsert_file false id r) (some b) = false
fits (upsert_file true id r) none = false
fits (upsert_file true id r) (some b) = kind_eq b.metadata.kind regular_file

abbrev leaves : Operation → Option IndexRecord
leaves (delete id p k) = none
leaves (upsert_directory id r) = some r
leaves (upsert_symlink id r) = some r
leaves (upsert_file update id r) = some r

-- The entry at a path after an operation; none if the operation does not fit what it finds.
unfoldable pub effect : Operation → RelativePath → Option IndexRecord → Option (Option IndexRecord)
effect o p v =
    if same_path (operation_path o) p then (if fits o v then some (leaves o) else none) else some v

unfoldable pub effects :
    List Operation → RelativePath → Option IndexRecord → Option (Option IndexRecord)
effects [] p v = some v
effects (o ∷ os) p v = elim (effect o p v) [ none ↦ none | some w ↦ effects os p w ]

pub effects-append :
    (xs ys : List Operation) (p : RelativePath) (v w : Option IndexRecord)
    → effects xs p v ≡ some w
    → effects (xs ++ ys) p v ≡ effects ys p w
unfolding effects
effects-append [] ys p v w h = ap (effects ys p) (ground arith)
effects-append (x ∷ xs) ys p v w h = elim (Option-cases (effect x p v)) [
  | inl e ↦ ground (arith, e)
  | inr (u, e) ↦ rw (effects, e) (effects-append xs ys p u w (rw (effects, e) at h))
]

pub same_path_refl : (p : RelativePath) → same_path p p ≡ true
same_path_refl p = ap is_same (compare_path-IsOrder.self p)

-- Where one round's operations are at a path and find there what the destination has, they leave
-- what the source has.
unfoldable pub IsAt : RelativePath → Option IndexRecord → Type 0
IsAt p = AllSome (λ r. r.path ≡ p)

effects_here :
    (o : Operation) (p : RelativePath) (v : Option IndexRecord) (os : List Operation)
    → operation_path o ≡ p
    → fits o v ≡ true
    → effects (o ∷ os) p v ≡ effects os p (leaves o)
unfolding effects effect
effects_here o p v os here h = rw (effects, effect, here, same_path_refl p, h) refl

module _ (a : IndexRecord) (id : ℕ) (p : RelativePath) (here : a.path ≡ p) where
  upsert_new : (k : EntryKind) → effects (upsert_of k false id a ∷ []) p none ≡ some (some a)
  unfolding effects fits operation_path
  upsert_new directory = effects_here (upsert_directory id a) p none [] here refl
  upsert_new regular_file = effects_here (upsert_file false id a) p none [] here refl
  upsert_new symlink = effects_here (upsert_symlink id a) p none [] here refl

  upsert_changed :
      (k l : EntryKind)
      → kind_eq k l ≡ false
      → effects (upsert_of k (kind_eq l regular_file) id a ∷ []) p none ≡ some (some a)
  unfolding effects fits operation_path
  upsert_changed directory l h = effects_here (upsert_directory id a) p none [] here refl
  upsert_changed symlink l h = effects_here (upsert_symlink id a) p none [] here refl
  upsert_changed regular_file l h = rw (kind_eq_comm l regular_file ∙ h) (upsert_new regular_file)

  upsert_again :
      (k : EntryKind) (b : IndexRecord)
      → kind_eq b.metadata.kind k ≡ true
      → effects (upsert_of k (kind_eq b.metadata.kind regular_file) id a ∷ []) p (some b)
        ≡ some (some a)
  unfolding effects fits operation_path
  upsert_again directory b h = effects_here (upsert_directory id a) p (some b) [] here h
  upsert_again symlink b h = effects_here (upsert_symlink id a) p (some b) [] here h
  upsert_again regular_file b h = rw h (effects_here (upsert_file true id a) p (some b) [] here h)

effects-deletion :
    (b : IndexRecord) (id : ℕ) (p : RelativePath) (os : List Operation)
    → b.path ≡ p
    → effects (delete id b.path b.metadata.kind ∷ os) p (some b) ≡ effects os p none
unfolding fits operation_path
effects-deletion b id p os here =
    effects_here (delete id b.path b.metadata.kind) p (some b) os here
      (kind_eq_self b.metadata.kind)

pub round-here :
    (a b : Option IndexRecord) (id : ℕ) (p : RelativePath)
    → IsAt p a
    → IsAt p b
    → effects (round_operations a b id) p b ≡ some a
unfolding round_operations effects deletion upsertion is_update id_after IsAt
round-here none none id p ha hb = rw (option_eq_self none) refl
round-here (some a) none id p ha hb =
    rw (option_eq-some-none a) (upsert_new a id p ha a.metadata.kind)
round-here none (some b) id p ha hb = rw (option_eq-none-some b) (effects-deletion b id p [] hb)
round-here (some a) (some b) id p ha hb = elim (Bool-cases (option_eq (some a) (some b))) [
  | inl same ↦ rw (round_operations, same) (ap some (sym (option_eq-eq (some a) (some b) same)))
  | inr differs ↦ elim (Bool-cases (kind_eq a.metadata.kind b.metadata.kind)) [
    | inl e ↦
        rw (round_operations, differs, deletion, e)
          (upsert_again a id p ha a.metadata.kind b
            (kind_eq_comm b.metadata.kind a.metadata.kind ∙ e))
    | inr e ↦
        rw (round_operations, differs, deletion, e)
          (effects-deletion b id p (upsertion (some a) (is_update (some b)) ((id + 1) % 2 ^ 64)) hb
            ∙ upsert_changed a ((id + 1) % 2 ^ 64) p ha a.metadata.kind b.metadata.kind e)
  ]
]

-- Where it is not, they change nothing.
unfoldable pub IsOff : RelativePath → Option IndexRecord → Type 0
IsOff p = AllSome (λ r. same_path r.path p ≡ false)

effects_off :
    (o : Operation) (p : RelativePath) (v : Option IndexRecord) (os : List Operation)
    → same_path (operation_path o) p ≡ false
    → effects (o ∷ os) p v ≡ effects os p v
unfolding effects effect
effects_off o p v os off = rw (effects, effect, off) refl

upsert_off :
    (k : EntryKind) (update : Bool) (a : IndexRecord) (id : ℕ) (p : RelativePath)
    (v : Option IndexRecord)
    → same_path a.path p ≡ false
    → effects (upsert_of k update id a ∷ []) p v ≡ some v
unfolding effects operation_path
upsert_off directory update a id p v off = effects_off (upsert_directory id a) p v [] off
upsert_off regular_file update a id p v off = effects_off (upsert_file update id a) p v [] off
upsert_off symlink update a id p v off = effects_off (upsert_symlink id a) p v [] off

deletion_off :
    (a b : Option IndexRecord) (id : ℕ) (p : RelativePath) (v : Option IndexRecord)
    → IsOff p b
    → effects (deletion a b id) p v ≡ some v
unfolding effects deletion operation_path IsOff
deletion_off a none id p v off = refl
deletion_off none (some b) id p v off = effects_off (delete id b.path b.metadata.kind) p v [] off
deletion_off (some a) (some b) id p v off =
    elim (Bool-cases (kind_eq a.metadata.kind b.metadata.kind)) [
      | inl e ↦ rw (deletion, e) refl
      | inr e ↦ rw (deletion, e) (effects_off (delete id b.path b.metadata.kind) p v [] off)
    ]

upsertion_off :
    (a : Option IndexRecord) (update : Bool) (id : ℕ) (p : RelativePath) (v : Option IndexRecord)
    → IsOff p a
    → effects (upsertion a update id) p v ≡ some v
unfolding effects upsertion IsOff
upsertion_off none update id p v off = refl
upsertion_off (some a) update id p v off = upsert_off a.metadata.kind update a id p v off

pub round-off :
    (a b : Option IndexRecord) (id : ℕ) (p : RelativePath) (v : Option IndexRecord)
    → IsOff p a
    → IsOff p b
    → effects (round_operations a b id) p v ≡ some v
unfolding effects round_operations
round-off a b id p v ha hb = elim (Bool-cases (option_eq a b)) [
  | inl e ↦ rw (round_operations, e) refl
  | inr e ↦
      let deleted = deletion a b id in
      let upserted = upsertion a (is_update b) (id_after id deleted) in
      rw (round_operations, e)
        (effects-append deleted upserted p v v (deletion_off a b id p v hb)
          ∙ upsertion_off a (is_update b) (id_after id deleted) p v ha)
]
