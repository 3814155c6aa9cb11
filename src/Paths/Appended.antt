-- ===== src/Paths/Appended.antt =====
-- What the scanner makes of a directory and the name of an entry in it.
use mathlib.Core.Path.{subst}
use quic_sync.Base.{
  ℕ, ◌+◌, ◌-◌, ◌≤◌, ◌≡◌, ◌∙◌, sym, ap, Option, List, [], ◌∷◌, ◌++◌, length, length-append, ltb, ok,
  ltb→ge, arith,
}
use quic_sync.Base.Words.{Bytes}
use quic_sync.Types.{RelativePath, new_path, IsPath}
use quic_sync.Config.{Limits}
use quic_sync.Paths.{total_bytes, prefix_components, append_component}
use quic_sync.Paths.Decoded.{join, unless-eq-ok, map_err-eq-ok, new_path-components}

length-join :
    (c : Bytes) (cs : List Bytes) → length (join (c ∷ cs)) ≡ total_bytes (c ∷ cs) + length cs
unfolding join total_bytes
length-join c [] = omega arith
length-join c (d ∷ cs) = omega (arith, length-append c (b'/' ∷ join (d ∷ cs)), length-join d cs)

length-join_any : (cs : List Bytes) → length (join cs) ≡ total_bytes cs + (length cs - 1)
unfolding join total_bytes
length-join_any [] = omega arith
length-join_any (c ∷ cs) = omega (arith, length-join c cs)

pub record IsAppended (prefix : Option RelativePath) (name : Bytes) (limits : Limits)
    (p : RelativePath) : Type 0 where
  pub accepted : IsPath p
  pub parts : p.components ≡ prefix_components prefix ++ (name ∷ [])
  pub components : length p.components ≤ limits.max_components
  pub path_bytes : length (join p.components) ≤ limits.max_path_bytes

-- The path that the scanner makes for an entry of a directory is one that `RelativePath::new`
-- accepts, is the directory's path with the name behind it, and is within both limits, where its
-- bytes count the separators too.
pub append_component-IsAppended :
    (prefix : Option RelativePath) (name : Bytes) (limits : Limits) (p : RelativePath)
    → append_component prefix name limits ≡ ok p
    → IsAppended prefix name limits p
unfolding append_component
append_component-IsAppended prefix name limits p h =
    let cs = prefix_components prefix ++ (name ∷ []) in
    let (count, h1) = unless-eq-ok (ltb limits.max_components (length cs)) _ _ h in
    let bytes = total_bytes cs + (length cs - 1) in
    let (size, h2) = unless-eq-ok (ltb limits.max_path_bytes bytes) _ _ h1 in
    let new = map_err-eq-ok _ (new_path cs) h2 in
    let parts = new_path-components cs p new in
    record {
      accepted = ap new_path parts ∙ new;
      parts = parts;
      components =
          subst (λ ds. length ds ≤ limits.max_components) (sym parts)
            (ltb→ge limits.max_components (length cs) count);
      path_bytes =
          subst (λ ds. length (join ds) ≤ limits.max_path_bytes) (sym parts)
            (within (ltb→ge limits.max_path_bytes bytes size) (length-join_any cs));
    }
  where
    within : {a b c : ℕ} → b ≤ c → a ≡ b → a ≤ c
    within h e = omega arith
