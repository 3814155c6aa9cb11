-- ===== src/Scan/Names.antt =====
-- The order of a directory's entries in crates/quicsync-core/src/filesystem/scan.rs.
use mathlib.Core.Path.{subst}
use quic_sync.Base.{
  ◌⊎◌, refl, sym, ◌≡◌, ◌≢◌, ◌∙◌, ap, inl, inr, List, [], ◌∷◌, All, Exists, Ordering,
}
use quic_sync.Base.Words.{Bytes}
use quic_sync.Base.Ordered.{
  IsOrder, compare-IsOrder, lexicographic-IsOrder, reverse, Ordering-cases,
}
use quic_sync.Scan.{compare_bytes, insert_name, sort_names}

pub compare_bytes-IsOrder : IsOrder compare_bytes
compare_bytes-IsOrder = lexicographic-IsOrder compare-IsOrder

abbrev pub IsDistinct : List Bytes → Type 0
IsDistinct [] = Unit
IsDistinct (n ∷ ns) = All (λ m. n ≢ m) ns × IsDistinct ns

abbrev pub IsBelow : Bytes → Bytes → Type 0
IsBelow n m = compare_bytes n m ≡ Ordering.lt

abbrev pub IsIncreasing : List Bytes → Type 0
IsIncreasing [] = Unit
IsIncreasing (n ∷ ns) = All (IsBelow n) ns × IsIncreasing ns

pub All-map {κ μ} :
    {A : Type 0} {P : A → Type κ} {Q : A → Type μ} (xs : List A)
    → ((x : A) → P x → Q x)
    → All P xs
    → All Q xs
All-map [] f h = tt
All-map (x ∷ xs) f (h, hs) = (f x h, All-map xs f hs)

insert_name-cases :
    (n m : Bytes) (ms : List Bytes)
    → ((insert_name n (m ∷ ms) ≡ n ∷ m ∷ ms) × (IsBelow n m ⊎ (n ≡ m)))
      ⊎ ((insert_name n (m ∷ ms) ≡ m ∷ insert_name n ms) × IsBelow m n)
unfolding insert_name
insert_name-cases n m ms = elim (Ordering-cases (compare_bytes n m)) [
  | inl e ↦ inl (rw (insert_name, e) refl, inl e)
  | inr (inl e) ↦ inl (rw (insert_name, e) refl, inr (compare_bytes-IsOrder.antisym n m e))
  | inr (inr e) ↦ inr (rw (insert_name, e) refl, compare_bytes-IsOrder.flip n m ∙ ap reverse e)
]

module _ (P : Bytes → Type 0) where
  insert_name-All : (n : Bytes) (ms : List Bytes) → P n → All P ms → All P (insert_name n ms)
  unfolding insert_name
  insert_name-All n [] h hs = (h, tt)
  insert_name-All n (m ∷ ms) h (k, ks) = elim (insert_name-cases n m ms) [
    | inl (e, _) ↦ subst (All P) (sym e) (h, (k, ks))
    | inr (e, _) ↦ subst (All P) (sym e) (k, insert_name-All n ms h ks)
  ]

  pub sort_names-All : (ns : List Bytes) → All P ns → All P (sort_names ns)
  unfolding sort_names
  sort_names-All [] h = tt
  sort_names-All (n ∷ ns) (h, hs) = insert_name-All n (sort_names ns) h (sort_names-All ns hs)

insert_name-IsIncreasing :
    (n : Bytes) (ms : List Bytes)
    → All (λ m. n ≢ m) ms
    → IsIncreasing ms
    → IsIncreasing (insert_name n ms)
unfolding insert_name
insert_name-IsIncreasing n [] d h = (tt, tt)
insert_name-IsIncreasing n (m ∷ ms) (d, ds) (h, hs) = elim (insert_name-cases n m ms) [
  | inl (e, inl k) ↦
      subst IsIncreasing (sym e)
        ((k, All-map ms (λ j. compare_bytes-IsOrder.trans n m j k) h), (h, hs))
  | inl (e, inr k) ↦ absurd (d k)
  | inr (e, k) ↦
      subst IsIncreasing (sym e)
        (insert_name-All (IsBelow m) n ms k h, insert_name-IsIncreasing n ms ds hs)
]

pub sort_names-IsIncreasing : (ns : List Bytes) → IsDistinct ns → IsIncreasing (sort_names ns)
unfolding sort_names
sort_names-IsIncreasing [] d = tt
sort_names-IsIncreasing (n ∷ ns) (d, ds) =
    insert_name-IsIncreasing n (sort_names ns) (sort_names-All (λ m. n ≢ m) ns d)
      (sort_names-IsIncreasing ns ds)

module _ (P : Bytes → Type 0) where
  swap_first : {p q r r' : Type 0} → (p ⊎ r → r') → p ⊎ (q ⊎ r) → q ⊎ r'
  swap_first f (inl k) = inr (f (inl k))
  swap_first f (inr (inl k)) = inl k
  swap_first f (inr (inr k)) = inr (f (inr k))

  insert_name-Exists :
      (n : Bytes) (ms : List Bytes) → Exists P (n ∷ ms) → Exists P (insert_name n ms)
  unfolding insert_name
  insert_name-Exists n [] h = h
  insert_name-Exists n (m ∷ ms) h = elim (insert_name-cases n m ms) [
    | inl (e, _) ↦ subst (Exists P) (sym e) h
    | inr (e, _) ↦ subst (Exists P) (sym e) (swap_first (insert_name-Exists n ms) h)
  ]

  pub sort_names-Exists : (ns : List Bytes) → Exists P ns → Exists P (sort_names ns)
  unfolding sort_names
  sort_names-Exists [] h = absurd h
  sort_names-Exists (n ∷ ns) (inl h) = insert_name-Exists n (sort_names ns) (inl h)
  sort_names-Exists (n ∷ ns) (inr h) =
      insert_name-Exists n (sort_names ns) (inr (sort_names-Exists ns h))
