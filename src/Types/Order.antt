-- ===== src/Types/Order.antt =====
-- The order that `RelativePath` derives in crates/quicsync-core/src/types.rs: components left to
-- right, each compared byte by byte.
use quic_sync.Base.{ap, Bool, true, false, Ordering, compare, List}
use quic_sync.Base.Words.{Bytes}
use quic_sync.Base.Ordered.{IsOrder, compare-IsOrder, lexicographic, lexicographic-IsOrder}
use quic_sync.Types.{RelativePath}

abbrev compare_components : List Bytes → List Bytes → Ordering
compare_components = lexicographic (lexicographic compare)

unfoldable pub compare_path : RelativePath → RelativePath → Ordering
compare_path p q = lexicographic (lexicographic compare) p.components q.components

components-IsOrder : IsOrder compare_components
components-IsOrder = lexicographic-IsOrder (lexicographic-IsOrder compare-IsOrder)

-- The order of paths is total: each path equals itself only, the comparison the other way round is
-- the reverse, and less than is transitive.
pub compare_path-IsOrder : IsOrder compare_path
unfolding compare_path
compare_path-IsOrder = record {
  self = λ p. components-IsOrder.self p.components;
  antisym = λ p q h.
      ap (λ (cs : List Bytes). record { components = cs })
        (components-IsOrder.antisym p.components q.components h);
  flip = λ p q. components-IsOrder.flip p.components q.components;
  trans = λ p q r. components-IsOrder.trans p.components q.components r.components;
}

-- `previous > &path` and `a.path <= b.path`.
abbrev pub path_lt : RelativePath → RelativePath → Bool
path_lt p q = elim (compare_path p q) [ Ordering.lt ↦ true | _ ↦ false ]

abbrev pub is_le : Ordering → Bool
is_le Ordering.lt = true
is_le Ordering.eq = true
is_le Ordering.gt = false

abbrev pub path_le : RelativePath → RelativePath → Bool
path_le p q = is_le (compare_path p q)
