-- ===== src/Types/Sorted.antt =====
-- Indexes in the order of crates/quicsync-core/src/types.rs: strictly ordered lists of records.
use quic_sync.Base.{◌≡◌, List, [], ◌∷◌, ◌++◌, Ordering, All}
use quic_sync.Types.{RelativePath, IndexRecord}
use quic_sync.Types.Order.{compare_path, compare_path-IsOrder}

-- Strictly ordered by path.
abbrev pub IsAbove : RelativePath → List IndexRecord → Type 0
IsAbove p [] = Unit
IsAbove p (r ∷ rs) = (compare_path p r.path ≡ Ordering.lt) × IsAbove p rs

abbrev pub IsSorted : List IndexRecord → Type 0
IsSorted [] = Unit
IsSorted (r ∷ rs) = IsAbove r.path rs × IsSorted rs

pub IsAbove-trans :
    (p q : RelativePath) (rs : List IndexRecord)
    → compare_path p q ≡ Ordering.lt
    → IsAbove q rs
    → IsAbove p rs
IsAbove-trans p q [] h k = tt
IsAbove-trans p q (r ∷ rs) h (k, ks) =
    (compare_path-IsOrder.trans p q r.path h k, IsAbove-trans p q rs h ks)

IsAbove-append :
    (p : RelativePath) (xs ys : List IndexRecord)
    → IsAbove p xs
    → IsAbove p ys
    → IsAbove p (xs ++ ys)
IsAbove-append p [] ys h k = k
IsAbove-append p (x ∷ xs) ys (h, hs) k = (h, IsAbove-append p xs ys hs k)

pub IsSorted-append :
    (xs ys : List IndexRecord)
    → IsSorted xs
    → IsSorted ys
    → All (λ (x : IndexRecord). IsAbove x.path ys) xs
    → IsSorted (xs ++ ys)
IsSorted-append [] ys h k below = k
IsSorted-append (x ∷ xs) ys (h, hs) k (below, all) =
    (IsAbove-append x.path xs ys h below, IsSorted-append xs ys hs k all)
