-- ===== src/Config/Peers.antt =====
-- What holds of the roots of a destination's configuration that `load_destination` accepts.
use quic_sync.Base.{
  length, ltb, ◌==◌, ℕ, ◌≡◌, Bool, true, false, ◌||◌, not, List, [], ◌∷◌, All, if◌then◌else◌, ok,
  err, >>=-eq-ok, ok_inj, arith, refl, Option,
}
use mathlib.Core.Path.{subst}
use quic_sync.Base.Words.{Bytes}
use quic_sync.Types.{IsDigest}
use quic_sync.Error.{Fallible}
use quic_sync.Config.{invalid, PeerPin, parse_pin, RootId, all_root_bytes, parse_root_id, resolve}
use quic_sync.Config.Bounds.{IsLimits, resolve_iff}
use quic_sync.Config.Pins.{parse_pin-IsDigest}
use quic_sync.Config.Files.{
  System, filesystem_identity, open_root, or_invalid, require, read_toml, validate_admin_directory,
  validate_private_key,
}
use quic_sync.Config.Load.{
  holds_bytes, holds_identity, pin_bytes, load_pins, load_roots, load_destination, DestinationRoot,
  RawDestinationRoot, root_ids, root_identities, is_empty, destination_config, DestinationConfig,
  RawDestinationConfig,
}

-- None of the values is among those seen or among the values before it.
abbrev pub IsFresh : List Bytes → List Bytes → Type 0
IsFresh seen [] = Unit
IsFresh seen (v ∷ vs) = (holds_bytes seen v ≡ false) × IsFresh (v ∷ seen) vs

abbrev pub AreNew : List (ℕ × ℕ) → List (ℕ × ℕ) → Type 0
AreNew seen [] = Unit
AreNew seen (v ∷ vs) = (holds_identity seen v ≡ false) × AreNew (v ∷ seen) vs

abbrev pub IsPins : List Bytes → List PeerPin → Type 0
IsPins seen pins = IsFresh seen (pin_bytes pins) × All (λ (p : PeerPin). IsDigest p.bytes) pins

unless-eq-ok :
    {A : Type 0} (test : Bool) (m : Fallible A) {a : A}
    → (if test then err invalid else m) ≡ ok a
    → (test ≡ false) × (m ≡ ok a)
unless-eq-ok true m h = cc
unless-eq-ok false m h = (refl, h)

load_pins-IsPins :
    (seen values : List Bytes) (pins : List PeerPin)
    → load_pins seen values ≡ ok pins
    → IsPins seen pins
unfolding load_pins
load_pins-IsPins seen [] pins h = subst (IsPins seen) (ok_inj h) (tt, tt)
load_pins-IsPins seen (value ∷ values) pins h =
    let (pin, ep, h1) = >>=-eq-ok (parse_pin value) _ h in
    let (new, h2) = unless-eq-ok (holds_bytes seen pin.bytes) _ h1 in
    let (rest, er, h3) = >>=-eq-ok (load_pins (pin.bytes ∷ seen) values) _ h2 in
    let (fresh, digests) = load_pins-IsPins (pin.bytes ∷ seen) values rest er in
    subst (IsPins seen) (ok_inj h3) ((new, fresh), (parse_pin-IsDigest value pin ep, digests))

-- What a loaded root is.
pub record IsRoot (r : DestinationRoot) : Type 0 where
  pub id_valid : parse_root_id r.id.text ≡ ok r.id
  pub peers : IsPins [] r.authorized_peers

abbrev pub AreRoots : List Bytes → List (ℕ × ℕ) → List DestinationRoot → Type 0
AreRoots ids identities roots =
    IsFresh ids (root_ids roots) × AreNew identities (root_identities roots) × All IsRoot roots

parse_root_id_again :
    (value : Bytes) (id : RootId) → parse_root_id value ≡ ok id → parse_root_id id.text ≡ ok id
unfolding parse_root_id
parse_root_id_again value id h =
    let (accepted, same) =
      unless-eq-ok (length value == 0 || ltb 128 (length value) || not (all_root_bytes value)) _
        h in
    subst (λ (i : RootId). parse_root_id i.text ≡ ok i) (ok_inj same)
      (rw (parse_root_id, accepted) refl)

module _ (system : System) (setup : Bytes) where
  load_roots-AreRoots :
      (ids : List Bytes) (identities : List (ℕ × ℕ)) (raws : List RawDestinationRoot)
      (roots : List DestinationRoot)
      → load_roots system setup ids identities raws ≡ ok roots
      → AreRoots ids identities roots
  unfolding load_roots
  load_roots-AreRoots ids identities [] roots h =
      subst (AreRoots ids identities) (ok_inj h) (tt, tt, tt)
  load_roots-AreRoots ids identities (raw ∷ raws) roots h =
      let (id, ei, h1) = >>=-eq-ok (parse_root_id raw.id) _ h in
      let (accepted, h2) =
        unless-eq-ok (holds_bytes ids id.text || is_empty raw.authorized_peers) _ h1 in
      let path = if system.is_absolute raw.path then raw.path else system.join setup raw.path in
      let (root, eo, h3) = >>=-eq-ok (open_root system path) _ h2 in
      let (new, h4) = unless-eq-ok (holds_identity identities (filesystem_identity root)) _ h3 in
      let (pins, ep, h5) = >>=-eq-ok (load_pins [] raw.authorized_peers) _ h4 in
      let (rest, er, h6) =
        >>=-eq-ok
          (load_roots system setup (id.text ∷ ids) (filesystem_identity root ∷ identities) raws) _
          h5 in
      let (fresh, others, all) =
        load_roots-AreRoots (id.text ∷ ids) (filesystem_identity root ∷ identities) raws rest er in
      subst (AreRoots ids identities) (ok_inj h6) (
        (ground (arith, accepted), fresh),
        (new, others),
        (
          record {
            id_valid = parse_root_id_again raw.id id ei;
            peers = load_pins-IsPins [] raw.authorized_peers pins ep;
          },
          all,
        ),
      )

pub record IsDestination {ℓ} {SocketAddr : Type ℓ} (c : DestinationConfig SocketAddr) : Type ℓ where
  pub roots_valid : AreRoots [] [] c.roots
  pub limits_valid : IsLimits c.limits

module _ {ℓ} (system : System) {SocketAddr : Type ℓ} (parse_address : Bytes → Option SocketAddr)
    (parse : Bytes → Option RawDestinationConfig) where
  -- A destination's configuration that is loaded has root identifiers that are valid and all
  -- different, root directories that are all different, for each root peer pins of 32 bytes that
  -- are all different, and limits in range.
  pub load_destination-IsDestination :
      (path : Bytes) (c : DestinationConfig SocketAddr)
      → load_destination system parse_address parse path ≡ ok c
      → IsDestination c
  unfolding load_destination
  load_destination-IsDestination path c h =
      let (setup, e1, h1) = >>=-eq-ok (open_root system path) _ h in
      let (admin, e2, h2) = >>=-eq-ok (validate_admin_directory system setup.path) _ h1 in
      let (key, e3, h3) = >>=-eq-ok (validate_private_key system admin) _ h2 in
      let (raw, e4, h4) =
        >>=-eq-ok (read_toml system parse (system.join admin destination_config)) _ h3 in
      let (u, e5, h5) = >>=-eq-ok (require (not (is_empty raw.roots))) _ h4 in
      let (roots, e6, h6) = >>=-eq-ok (load_roots system setup.path [] [] raw.roots) _ h5 in
      let (address, e7, h7) = >>=-eq-ok (or_invalid (parse_address raw.listen_address)) _ h6 in
      let (limits, e8, h8) = >>=-eq-ok (resolve raw.limits) _ h7 in
      subst IsDestination (ok_inj h8) (record {
        roots_valid = load_roots-AreRoots system setup.path [] [] raw.roots roots e6;
        limits_valid = ((resolve_iff raw.limits limits).0 e8).1;
      })
