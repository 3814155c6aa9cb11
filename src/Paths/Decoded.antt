-- ===== src/Paths/Decoded.antt =====
-- What the lexical gate lets through.
use mathlib.Core.Path.{subst, ap₂}
use quic_sync.Base.{
  ℕ, ◌≤◌, ◌≡◌, ◌∙◌, refl, sym, ap, Bool, true, false, List, [], ◌∷◌, ◌++◌, length, All, ltb, ◌==◌,
  if◌then◌else◌, Result, ok, err, ok_inj, ◌>>◌, >>=-eq-ok, map_err, Bool-cases, Option-cases, inl,
  inr, arith, ltb→ge,
}
use quic_sync.Base.Words.{Bytes}
use quic_sync.Types.{RelativePath, components_error, new_path, IsPath}
use quic_sync.Error.{PeerError, Fallible}
use quic_sync.Config.{Limits}
use quic_sync.Paths.{
  is_protected_component, reject_protected, push_front, split, decode_relative_path,
}

-- The components with the separators between them.
unfoldable pub join : List Bytes → Bytes
join [] = []
join (c ∷ []) = c
join (c ∷ d ∷ cs) = c ++ (b'/' ∷ join (d ∷ cs))

join-push_front : (b : ℕ) (cs : List Bytes) → join (push_front b cs) ≡ b ∷ join cs
unfolding join
join-push_front b [] = refl
join-push_front b (c ∷ []) = refl
join-push_front b (c ∷ d ∷ cs) = refl

IsNonempty : List Bytes → Type 0
IsNonempty cs = (c : Bytes) × (ds : List Bytes) × (cs ≡ c ∷ ds)

push_front-IsNonempty : (b : ℕ) (cs : List Bytes) → IsNonempty (push_front b cs)
unfolding IsNonempty
push_front-IsNonempty b [] = (b ∷ [], [], refl)
push_front-IsNonempty b (c ∷ cs) = (b ∷ c, cs, refl)

split-IsNonempty : (bs : Bytes) → IsNonempty (split bs)
unfolding split IsNonempty
split-IsNonempty [] = ([], [], refl)
split-IsNonempty (b ∷ bs) = elim (Bool-cases (b == b'/')) [
  | inl e ↦ ([], split bs, rw (split, e) refl)
  | inr e ↦ rw (split, e) (push_front-IsNonempty b (split bs))
]

join-separator : (cs : List Bytes) → IsNonempty cs → join ([] ∷ cs) ≡ b'/' ∷ join cs
unfolding join IsNonempty
join-separator [] (c, ds, e) = cc
join-separator (c ∷ cs) h = refl

join-split : (bs : Bytes) → join (split bs) ≡ bs
unfolding split join
join-split [] = refl
join-split (b ∷ bs) = elim (Bool-cases (b == b'/')) [
  | inl e ↦
      rw (split, e)
        (join-separator (split bs) (split-IsNonempty bs)
          ∙ ap₂ (λ (x : ℕ) (l : Bytes). x ∷ l) (sym (==→eq b b'/' e)) (join-split bs))
  | inr e ↦ rw (split, e) (join-push_front b (split bs) ∙ ap (λ (l : Bytes). b ∷ l) (join-split bs))
]
  where
    ==→eq : (a b : ℕ) → (a == b) ≡ true → a ≡ b
    ==→eq a b h = ground arith

-- What a decoded path is: one that `RelativePath::new` accepts, is within both limits, has no
-- protected component, and with separators between its components it is the text decoded.
pub record IsDecoded (wire : Bytes) (limits : Limits) (p : RelativePath) : Type 0 where
  pub accepted : IsPath p
  pub path_bytes : length wire ≤ limits.max_path_bytes
  pub components : length p.components ≤ limits.max_components
  pub unprotected : All (λ c. is_protected_component c ≡ false) p.components
  pub text : join p.components ≡ wire

pub unless-eq-ok :
    {A : Type 0} (test : Bool) (e : PeerError) (m : Fallible A) {a : A}
    → (if test then err e else m) ≡ ok a
    → (test ≡ false) × (m ≡ ok a)
unless-eq-ok true e m h = cc
unless-eq-ok false e m h = (refl, h)

reject_protected-eq-ok :
    (cs : List Bytes) {u : Unit {0}}
    → reject_protected cs ≡ ok u
    → All (λ c. is_protected_component c ≡ false) cs
unfolding reject_protected
reject_protected-eq-ok [] h = tt
reject_protected-eq-ok (c ∷ cs) h =
    let (e, rest) = unless-eq-ok (is_protected_component c) _ (reject_protected cs) h in
    (e, reject_protected-eq-ok cs rest)

pub map_err-eq-ok :
    {A E F : Type 0} (f : E → F) (r : Result E A) {a : A} → map_err f r ≡ ok a → r ≡ ok a
map_err-eq-ok f (ok x) h = ap (λ a. ok a) (ok_inj h)
map_err-eq-ok f (err e) h = cc

-- A path that `RelativePath::new` makes holds the components given.
pub new_path-components :
    (cs : List Bytes) (p : RelativePath) → new_path cs ≡ ok p → p.components ≡ cs
unfolding new_path
new_path-components [] p h = cc
new_path-components (c ∷ cs) p h = elim (Option-cases (components_error (c ∷ cs))) [
  | inl e ↦ ap (λ (q : RelativePath). q.components) (sym (ok_inj (rw (new_path, e) at h)))
  | inr (x, e) ↦ absurd (cc (rw (new_path, e) at h))
]

then-eq-ok :
    {A : Type 0} (m : Fallible (Unit {0})) (k : Fallible A) {a : A}
    → (m >> k) ≡ ok a
    → (m ≡ ok tt) × (k ≡ ok a)
then-eq-ok (ok tt) k h = (refl, h)
then-eq-ok (err e) k h = cc

-- A path that is decoded is one that `RelativePath::new` accepts, is within both limits, has no
-- protected component, and with separators between its components is the text decoded.
pub decode_relative_path-IsDecoded :
    (wire : Bytes) (limits : Limits) (p : RelativePath)
    → decode_relative_path wire limits ≡ ok p
    → IsDecoded wire limits p
unfolding decode_relative_path
decode_relative_path-IsDecoded wire limits p h =
    let (bytes, h1) = unless-eq-ok (ltb limits.max_path_bytes (length wire)) _ _ h in
    let (count, h2) = unless-eq-ok (ltb limits.max_components (length (split wire))) _ _ h1 in
    let (path, made, h3) = >>=-eq-ok (map_err _ (new_path (split wire))) _ h2 in
    let (unprotected, same) = then-eq-ok (reject_protected path.components) _ h3 in
    let new = map_err-eq-ok _ (new_path (split wire)) made in
    let parts = new_path-components (split wire) path new in
    subst (IsDecoded wire limits) (ok_inj same) (record {
      accepted = ap new_path parts ∙ new;
      path_bytes = ltb→ge limits.max_path_bytes (length wire) bytes;
      components =
          subst (λ cs. length cs ≤ limits.max_components) (sym parts)
            (ltb→ge limits.max_components (length (split wire)) count);
      unprotected = reject_protected-eq-ok path.components unprotected;
      text = ap join parts ∙ join-split wire;
    })
