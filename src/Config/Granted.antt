-- ===== src/Config/Granted.antt =====
-- The authorization that a destination's configuration gives.
use mathlib.Core.List.{Memᴰ}
use quic_sync.Base.{
  ◌≡◌, ◌∙◌, sym, ap, refl, Bool, true, false, ◌&&◌, ◌||◌, List, [], ◌∷◌, Bool-cases, inl, inr, ◌⊎◌,
  arith,
}
use quic_sync.Base.Words.{Bytes}
use quic_sync.Types.{bytes_eq}
use quic_sync.Types.Comparison.{bytes_eq-eq, bytes_eq_self, both-true}
use quic_sync.Config.{PeerPin}
use quic_sync.Config.Load.{
  holds_bytes, pin_bytes, DestinationRoot, DestinationConfig, authorizes, authorize,
}

holds_bytes-Mem : (vs : List Bytes) (v : Bytes) → holds_bytes vs v ≡ true → Memᴰ v vs
unfolding holds_bytes
holds_bytes-Mem [] v h = cc
holds_bytes-Mem (x ∷ vs) v h = elim (Bool-cases (bytes_eq x v)) [
  | inl e ↦ Memᴰ.head (sym (bytes_eq-eq x v e))
  | inr e ↦ Memᴰ.tail (holds_bytes-Mem vs v (rw (holds_bytes, e) at h))
]

Mem-holds_bytes : (vs : List Bytes) (v : Bytes) → Memᴰ v vs → holds_bytes vs v ≡ true
unfolding holds_bytes
Mem-holds_bytes [] v m = elim m [ ]
Mem-holds_bytes (x ∷ vs) v (Memᴰ.head e) = rw (e, holds_bytes, bytes_eq_self x) refl
Mem-holds_bytes (x ∷ vs) v (Memᴰ.tail m) = ground (arith, Mem-holds_bytes vs v m)

-- A root that has the identifier and lists the peer.
abbrev pub IsGranted : List DestinationRoot → PeerPin → Bytes → Type 0
IsGranted roots peer root_id =
    (r : DestinationRoot) × Memᴰ r roots
    × (r.id.text ≡ root_id)
    × Memᴰ peer.bytes (pin_bytes r.authorized_peers)

either-true : (a b : Bool) → (a || b) ≡ true → (a ≡ true) ⊎ (b ≡ true)
either-true true b h = inl refl
either-true false b h = inr h

authorizes-IsGranted :
    (roots : List DestinationRoot) (peer : PeerPin) (root_id : Bytes)
    → authorizes roots peer root_id ≡ true
    → IsGranted roots peer root_id
unfolding authorizes
authorizes-IsGranted [] peer root_id h = cc
authorizes-IsGranted (x ∷ roots) peer root_id h =
    elim (either-true
      (bytes_eq x.id.text root_id && holds_bytes (pin_bytes x.authorized_peers) peer.bytes) _ h) [
        | inl e ↦
            let (same, held) = both-true (bytes_eq x.id.text root_id) _ e in
            (
              x,
              Memᴰ.head refl,
              bytes_eq-eq x.id.text root_id same,
              holds_bytes-Mem (pin_bytes x.authorized_peers) peer.bytes held,
            )
        | inr e ↦
            let (r, m, same, held) = authorizes-IsGranted roots peer root_id e in
            (r, Memᴰ.tail m, same, held)
      ]

granted-authorizes :
    (roots : List DestinationRoot) (peer : PeerPin) (root_id : Bytes) (r : DestinationRoot)
    → Memᴰ r roots
    → r.id.text ≡ root_id
    → Memᴰ peer.bytes (pin_bytes r.authorized_peers)
    → authorizes roots peer root_id ≡ true
unfolding authorizes
granted-authorizes [] peer root_id r m same held = elim m [ ]
granted-authorizes (x ∷ roots) peer root_id r (Memᴰ.head e) same held =
    let same' = ap (λ (y : DestinationRoot). y.id.text) (sym e) ∙ same in
    let held' =
      ap (λ (y : DestinationRoot). holds_bytes (pin_bytes y.authorized_peers) peer.bytes) (sym e)
      ∙ Mem-holds_bytes (pin_bytes r.authorized_peers) peer.bytes held in
    rw (authorizes, same', bytes_eq_self root_id, held') refl
granted-authorizes (x ∷ roots) peer root_id r (Memᴰ.tail m) same held =
    or_true _ (granted-authorizes roots peer root_id r m same held)
  where
    or_true : (a : Bool) {b : Bool} → b ≡ true → (a || b) ≡ true
    or_true true h = refl
    or_true false h = h

-- A destination's configuration authorizes a peer for a root identifier exactly where it has a root
-- of this identifier that lists the peer.
pub authorizes_iff :
    {A : Type 0} (c : DestinationConfig A) (peer : PeerPin) (root_id : Bytes)
    → (authorize A c peer root_id ≡ true → IsGranted c.roots peer root_id)
      × (IsGranted c.roots peer root_id → authorize A c peer root_id ≡ true)
unfolding authorize
authorizes_iff c peer root_id = (
  authorizes-IsGranted c.roots peer root_id,
  λ (r, m, same, held). granted-authorizes c.roots peer root_id r m same held,
)
