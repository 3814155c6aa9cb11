-- ===== src/Commit/Past.antt =====
-- Paths that come after a directory and all that is below it, in the order of paths.
use mathlib.Core.Path.{subst}
use quic_sync.Base.{
  ◌≡◌, ◌≢◌, ◌∙◌, sym, refl, ap, ◌⊎◌, inl, inr, Bool, true, false, some, List, [], ◌∷◌, ◌++◌,
  Ordering,
}
use quic_sync.Base.Words.{Bytes}
use quic_sync.Base.Ordered.{lexicographic, reverse, Ordering-cases, then_cmp}
use quic_sync.Types.{RelativePath, bytes_eq}
use quic_sync.Types.Comparison.{bytes_eq_self}
use quic_sync.Types.Order.{compare_path, compare_path-IsOrder, path_le, is_le}
use quic_sync.Scan.{compare_bytes}
use quic_sync.Scan.Names.{compare_bytes-IsOrder}
use quic_sync.Scan.Order.{below-inside}
use quic_sync.Commit.{starts_with, out_of_order}

-- Properly below a directory.
abbrev pub IsInside : RelativePath → RelativePath → Type 0
IsInside d p = (m : Bytes) × (rest : List Bytes) × (p.components ≡ d.components ++ (m ∷ rest))

abbrev pub IsOutside : RelativePath → RelativePath → Type 0
IsOutside d p = ¬ IsInside d p

-- Greater than `ds` at a component that both have.
abbrev IsPastList : List Bytes → List Bytes → Type 0
IsPastList [] qs = ⊥
IsPastList (d ∷ ds) [] = ⊥
IsPastList (d ∷ ds) (q ∷ qs) = (compare_bytes d q ≡ Ordering.lt) ⊎ ((d ≡ q) × IsPastList ds qs)

abbrev pub IsPast : RelativePath → RelativePath → Type 0
IsPast d q = IsPastList d.components q.components

abbrev compare_lists : List Bytes → List Bytes → Ordering
compare_lists = lexicographic compare_bytes

gt_ne_le : {o : Ordering} → o ≡ Ordering.gt → is_le o ≢ true
gt_ne_le e h = cc

gt_not_le : {o : Ordering} (r : Ordering) → o ≡ Ordering.gt → is_le (then_cmp o r) ≢ true
gt_not_le r e h = cc

eq_le :
    {o : Ordering} (r : Ordering) → o ≡ Ordering.eq → is_le (then_cmp o r) ≡ true → is_le r ≡ true
eq_le r e h = rw e at h

cons_inj : {x y : Bytes} {xs ys : List Bytes} → x ∷ xs ≡ y ∷ ys → (x ≡ y) × (xs ≡ ys)
cons_inj h = (cc, cc)

lt-ne : {x y : Bytes} → compare_bytes x y ≡ Ordering.lt → x ≢ y
lt-ne {x = x} h e = lt_ne_eq (sym h ∙ ap (compare_bytes x) (sym e) ∙ compare_bytes-IsOrder.self x)
  where
    lt_ne_eq : Ordering.lt ≢ Ordering.eq
    lt_ne_eq k = cc

left_behind :
    (ds ps : List Bytes)
    → is_le (compare_lists ds ps) ≡ true
    → starts_with ps ds ≡ false
    → IsPastList ds ps
unfolding lexicographic starts_with
left_behind [] ps h k = cc
left_behind (d ∷ ds) [] h k = cc
left_behind (d ∷ ds) (p ∷ ps) h k = elim (Ordering-cases (compare_bytes d p)) [
  | inl e ↦ inl e
  | inr (inl e) ↦
      let same = compare_bytes-IsOrder.antisym d p e in
      let equal = subst (λ x. bytes_eq x d ≡ true) same (bytes_eq_self d) in
      inr (same, left_behind ds ps (eq_le _ e h) (sym (rw (starts_with, equal) refl) ∙ k))
  | inr (inr e) ↦ absurd (gt_not_le _ e h)
]

past_later :
    (ds ps qs : List Bytes)
    → IsPastList ds ps
    → is_le (compare_lists ps qs) ≡ true
    → IsPastList ds qs
unfolding lexicographic
past_later [] ps qs h k = absurd h
past_later (d ∷ ds) [] qs h k = absurd h
past_later (d ∷ ds) (p ∷ ps) [] h k = cc
past_later (d ∷ ds) (p ∷ ps) (q ∷ qs) (inl h) k = elim (Ordering-cases (compare_bytes p q)) [
  | inl e ↦ inl (compare_bytes-IsOrder.trans d p q h e)
  | inr (inl e) ↦
      inl (subst (λ x. compare_bytes d x ≡ Ordering.lt) (compare_bytes-IsOrder.antisym p q e) h)
  | inr (inr e) ↦ absurd (gt_not_le _ e k)
]
past_later (d ∷ ds) (p ∷ ps) (q ∷ qs) (inr (h, hs)) k = elim (Ordering-cases (compare_bytes p q)) [
  | inl e ↦ inl (subst (λ x. compare_bytes x q ≡ Ordering.lt) (sym h) e)
  | inr (inl e) ↦
      inr (h ∙ compare_bytes-IsOrder.antisym p q e, past_later ds ps qs hs (eq_le _ e k))
  | inr (inr e) ↦ absurd (gt_not_le _ e k)
]

past-outside :
    (ds qs : List Bytes) (m : Bytes) (rest : List Bytes) → IsPastList ds qs → qs ≢ ds ++ (m ∷ rest)
past-outside [] qs m rest h k = absurd h
past-outside (d ∷ ds) [] m rest h k = absurd h
past-outside (d ∷ ds) (q ∷ qs) m rest (inl h) k = lt-ne h (sym (cons_inj k).0)
past-outside (d ∷ ds) (q ∷ qs) m rest (inr (h, hs)) k = past-outside ds qs m rest hs (cons_inj k).1

-- With d not after p and not a prefix of it, what is not before p is not below d.
pub left_behind-IsPast :
    (d p : RelativePath)
    → path_le d p ≡ true
    → starts_with p.components d.components ≡ false
    → IsPast d p
unfolding compare_path
left_behind-IsPast d p h k = left_behind d.components p.components h k

pub IsPast-later : (d p q : RelativePath) → IsPast d p → path_le p q ≡ true → IsPast d q
unfolding compare_path
IsPast-later d p q h k = past_later d.components p.components q.components h k

pub IsPast-IsOutside : (d q : RelativePath) → IsPast d q → ¬ IsInside d q
IsPast-IsOutside d q h (m, rest, e) = past-outside d.components q.components m rest h e

-- What is not after a directory is not below it.
pub le-IsOutside : (d p : RelativePath) → path_le p d ≡ true → ¬ IsInside d p
le-IsOutside d p h (m, rest, e) =
    gt_ne (ap is_le (compare_path-IsOrder.flip d p ∙ ap reverse (below-inside d p m rest e))) h
  where
    gt_ne : {b : Bool} → b ≡ false → b ≢ true
    gt_ne h k = cc

pub path_le_self : (p : RelativePath) → path_le p p ≡ true
path_le_self p = ap is_le (compare_path-IsOrder.self p)

-- Operations that are accepted do not go back.
pub in_order-le : (p q : RelativePath) → out_of_order (some p) q ≡ false → path_le p q ≡ true
in_order-le p q h = elim (Ordering-cases (compare_path p q)) [
  | inl e ↦ ap is_le e
  | inr (inl e) ↦ ap is_le e
  | inr (inr e) ↦ absurd (ne (ap is_lt (compare_path-IsOrder.flip p q ∙ ap reverse e)) h)
]
  where
    is_lt : Ordering → Bool
    is_lt o = elim o [ Ordering.lt ↦ true | _ ↦ false ]

    ne : {b : Bool} → b ≡ true → b ≢ false
    ne h k = cc

pub path_le_trans :
    (p q r : RelativePath) → path_le p q ≡ true → path_le q r ≡ true → path_le p r ≡ true
path_le_trans p q r h k = elim (Ordering-cases (compare_path p q)) [
  | inl e ↦ elim (Ordering-cases (compare_path q r)) [
    | inl f ↦ ap is_le (compare_path-IsOrder.trans p q r e f)
    | inr (inl f) ↦ subst (λ x. path_le p x ≡ true) (compare_path-IsOrder.antisym q r f) h
    | inr (inr f) ↦ absurd (gt_ne_le f k)
  ]
  | inr (inl e) ↦ subst (λ x. path_le x r ≡ true) (sym (compare_path-IsOrder.antisym p q e)) k
  | inr (inr e) ↦ absurd (gt_ne_le e h)
]
