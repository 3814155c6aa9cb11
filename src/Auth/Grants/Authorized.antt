-- ===== src/Auth/Grants/Authorized.antt =====
-- The authorizer allows what was granted and nothing else.
use mathlib.Core.Path.{subst}
use quic_sync.Base.{
  ◌≡◌, ◌⊎◌, inl, inr, Bool, true, false, List, [], ◌∷◌, if◌then◌else◌, ok, err, ◌>>◌, arith, refl,
  ok_inj, Bool-cases, sym,
}
use mathlib.Core.List.{Memᴰ}
use quic_sync.Base.Words.{Bytes}
use quic_sync.Types.{bytes_eq}
use quic_sync.Error.{Fallible, failed_with, invalid_configuration}
use quic_sync.Types.Comparison.{bytes_eq-eq, bytes_eq_self, both-true}
use quic_sync.Auth.Grants.{
  Direction, source_to_destination, destination_to_source, PeerGrant, Authorization, grant_eq,
  same_direction, holds_grant, validate_root_id, add_grants, new_authorizer, authorize,
}

same_direction-eq : (d e : Direction) → same_direction d e ≡ true → d ≡ e
same_direction-eq source_to_destination source_to_destination h = refl
same_direction-eq source_to_destination destination_to_source h = cc
same_direction-eq destination_to_source source_to_destination h = cc
same_direction-eq destination_to_source destination_to_source h = refl

same_direction_self : (d : Direction) → same_direction d d ≡ true
same_direction_self source_to_destination = refl
same_direction_self destination_to_source = refl

grant_eq-eq : (g h : PeerGrant) → grant_eq g h ≡ true → g ≡ h
unfolding grant_eq
grant_eq-eq g h e =
    let (pins, rest) = both-true (bytes_eq g.pin h.pin) _ e in
    let (ids, directions) = both-true (bytes_eq g.root_id h.root_id) _ rest in
    let p = bytes_eq-eq g.pin h.pin pins in
    let r = bytes_eq-eq g.root_id h.root_id ids in
    let d = same_direction-eq g.direction h.direction directions in
    λ i. record { pin = p i; root_id = r i; direction = d i }

grant_eq_self : (g : PeerGrant) → grant_eq g g ≡ true
unfolding grant_eq
grant_eq_self g =
    rw (grant_eq, bytes_eq_self g.pin, bytes_eq_self g.root_id, same_direction_self g.direction)
      refl

holds_grant-Mem : (hs : List PeerGrant) (g : PeerGrant) → holds_grant hs g ≡ true → Memᴰ g hs
unfolding holds_grant
holds_grant-Mem [] g h = cc
holds_grant-Mem (x ∷ hs) g h = elim (Bool-cases (grant_eq x g)) [
  | inl e ↦ Memᴰ.head (sym (grant_eq-eq x g e))
  | inr e ↦ Memᴰ.tail (holds_grant-Mem hs g (rw (holds_grant, e) at h))
]

Mem-holds_grant : (hs : List PeerGrant) (g : PeerGrant) → Memᴰ g hs → holds_grant hs g ≡ true
unfolding holds_grant
Mem-holds_grant [] g m = elim m [ ]
Mem-holds_grant (x ∷ hs) g (Memᴰ.head e) = rw (e, holds_grant, grant_eq_self x) refl
Mem-holds_grant (x ∷ hs) g (Memᴰ.tail m) = ground (arith, Mem-holds_grant hs g m)

then-eq-ok :
    {A : Type 0} (m : Fallible (Unit {0})) (test : Bool) (k : Fallible A) {a : A}
    → (m >> (if test then err (failed_with invalid_configuration) else k)) ≡ ok a
    → k ≡ ok a
then-eq-ok (ok tt) true k h = cc
then-eq-ok (ok tt) false k h = h
then-eq-ok (err e) test k h = cc

-- What the set holds in the end is what was in it and what was added.
record IsSum (validated grants all : List PeerGrant) : Type 0 where
  only : (g : PeerGrant) → Memᴰ g all → Memᴰ g grants ⊎ Memᴰ g validated
  added : (g : PeerGrant) → Memᴰ g grants → Memᴰ g all
  kept : (g : PeerGrant) → Memᴰ g validated → Memᴰ g all

moved :
    {g x : PeerGrant} {gs v : List PeerGrant}
    → Memᴰ g gs ⊎ Memᴰ g (x ∷ v)
    → Memᴰ g (x ∷ gs) ⊎ Memᴰ g v
moved (inl m) = inl (Memᴰ.tail m)
moved (inr (Memᴰ.head e)) = inl (Memᴰ.head e)
moved (inr (Memᴰ.tail m)) = inr m

pushed :
    {x : PeerGrant} {gs v all : List PeerGrant}
    → IsSum (x ∷ v) gs all
    → (g : PeerGrant) → Memᴰ g (x ∷ gs)
    → Memᴰ g all
pushed s g (Memᴰ.head e) = s.kept g (Memᴰ.head e)
pushed s g (Memᴰ.tail m) = s.added g m

add_grants-IsSum :
    (validated grants all : List PeerGrant)
    → add_grants validated grants ≡ ok all
    → IsSum validated grants all
unfolding add_grants
add_grants-IsSum validated [] all h =
    subst (IsSum validated []) (ok_inj h)
      (record { only = λ g m. inr m; added = λ g m. elim m [ ]; kept = λ g m. m })
add_grants-IsSum validated (x ∷ grants) all h =
    let rest = then-eq-ok (validate_root_id x.root_id) (holds_grant validated x) _ h in
    let s = add_grants-IsSum (x ∷ validated) grants all rest in
    record {
      only = λ g m. moved (s.only g m);
      added = pushed s;
      kept = λ g m. s.kept g (Memᴰ.tail m);
    }

-- An authorizer made from grants authorizes a peer for a root and a direction exactly where that
-- grant is one of them, and the authorization then names the peer, the root and the direction.
pub authorize_iff :
    (grants validated : List PeerGrant) (peer root_id : Bytes) (direction : Direction)
    → new_authorizer grants ≡ ok validated
    → let granted : PeerGrant = record { pin = peer; root_id = root_id; direction = direction } in
      let answer : Authorization = record {
        peer = peer;
        root_id = root_id;
        direction = direction;
      } in
      ((a : Authorization)
        → authorize validated peer root_id direction ≡ ok a
        → Memᴰ granted grants × (a ≡ answer))
      × (Memᴰ granted grants → authorize validated peer root_id direction ≡ ok answer)
unfolding new_authorizer authorize
authorize_iff grants validated peer root_id direction h =
    let granted : PeerGrant = record { pin = peer; root_id = root_id; direction = direction } in
    let s = add_grants-IsSum [] grants validated h in
    (
      λ a k. elim (Bool-cases (holds_grant validated granted)) [
        | inl e ↦ (
          from_empty (s.only granted (holds_grant-Mem validated granted e)),
          sym (ok_inj (rw (authorize, e) at k)),
        )
        | inr e ↦ absurd (cc (rw (authorize, e) at k))
      ],
      λ m. rw (authorize, Mem-holds_grant validated granted (s.added granted m)) refl,
    )
  where
    from_empty : {g : PeerGrant} {gs : List PeerGrant} → Memᴰ g gs ⊎ Memᴰ g [] → Memᴰ g gs
    from_empty (inl m) = m
    from_empty (inr m) = elim m [ ]
