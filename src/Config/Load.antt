-- ===== src/Config/Load.antt =====
-- crates/quicsync-core/src/config.rs: `load_source`, `load_destination` and the authorization that
-- the destination's configuration gives. A `HashSet` is the list of what was inserted.
use quic_sync.Base.{
  ℕ, Bool, true, false, ◌&&◌, ◌||◌, not, Option, List, [], ◌∷◌, ◌==◌, if◌then◌else◌, ok, err, ◌>>=◌,
}
use quic_sync.Base.Words.{Bytes}
use quic_sync.Types.{bytes_eq, contains}
use quic_sync.Error.{Fallible}
use quic_sync.Config.{
  invalid, Limits, RawLimits, resolve, RootId, parse_root_id, PeerPin, parse_pin,
}
use quic_sync.Config.Files.{
  System, ValidatedRoot, filesystem_identity, or_invalid, require, open_root,
  validate_admin_directory, validate_private_key, read_toml,
}

abbrev pub source_config : Bytes
source_config = b's' ∷ b'o' ∷ b'u' ∷ b'r' ∷ b'c' ∷ b'e' ∷ b'.' ∷ b't' ∷ b'o' ∷ b'm' ∷ b'l' ∷ []

abbrev pub destination_config : Bytes
destination_config =
    b'd' ∷ b'e' ∷ b's' ∷ b't' ∷ b'i' ∷ b'n' ∷ b'a' ∷ b't' ∷ b'i' ∷ b'o' ∷ b'n' ∷ b'.' ∷ b't' ∷ b'o'
    ∷ b'm' ∷ b'l' ∷ []

unfoldable pub holds_bytes : List Bytes → Bytes → Bool
holds_bytes [] value = false
holds_bytes (v ∷ vs) value =
    let rest = holds_bytes vs value in if bytes_eq v value then true else rest

unfoldable pub holds_identity : List (ℕ × ℕ) → ℕ × ℕ → Bool
holds_identity [] (d, i) = false
holds_identity ((device, inode) ∷ rest) (d, i) =
    let later = holds_identity rest (d, i) in if device == d && inode == i then true else later

abbrev pub pin_bytes : List PeerPin → List Bytes
pin_bytes [] = []
pin_bytes (p ∷ ps) = p.bytes ∷ pin_bytes ps

-- The loop of `validate_exclusions`, with the values seen.
unfoldable pub check_exclusions : List Bytes → List Bytes → Fallible (Unit {0})
check_exclusions unique [] = ok tt
check_exclusions unique (v ∷ vs) =
    let rest = check_exclusions (v ∷ unique) vs in
    if bytes_eq v [] || contains v 0
    then err invalid
    else if holds_bytes unique v
    then err invalid
    else rest

unfoldable pub validate_exclusions : List Bytes → Fallible (List Bytes)
validate_exclusions values = check_exclusions [] values >>= λ _. ok values

pub record DestinationRoot : Type 0 where
  pub id : RootId
  pub root : ValidatedRoot
  pub authorized_peers : List PeerPin

-- The loop over `authorized_peers`, with the pins seen.
unfoldable pub load_pins : List Bytes → List Bytes → Fallible (List PeerPin)
load_pins pins [] = ok []
load_pins pins (value ∷ values) = parse_pin value >>= λ pin.
    let rest = load_pins (pin.bytes ∷ pins) values in
    if holds_bytes pins pin.bytes
    then err invalid
    else (rest >>= λ authorized_peers. ok (pin ∷ authorized_peers))

pub record RawDestinationRoot : Type 0 where
  pub id : Bytes
  pub path : Bytes
  pub authorized_peers : List Bytes

abbrev pub is_empty {ℓ} : {A : Type ℓ} → List A → Bool
is_empty [] = true
is_empty (x ∷ xs) = false

abbrev pub root_ids : List DestinationRoot → List Bytes
root_ids [] = []
root_ids (r ∷ rs) = r.id.text ∷ root_ids rs

abbrev pub root_identities : List DestinationRoot → List (ℕ × ℕ)
root_identities [] = []
root_identities (r ∷ rs) = filesystem_identity r.root ∷ root_identities rs

pub record RawDestinationConfig : Type 0 where
  pub listen_address : Bytes
  pub roots : List RawDestinationRoot
  pub limits : RawLimits

pub record RawSourceConfig : Type 0 where
  pub root_id : Bytes
  pub destination : Bytes
  pub peer_pin : Bytes
  pub global_exclusions : List Bytes
  pub limits : RawLimits

unfoldable pub authorizes : List DestinationRoot → PeerPin → Bytes → Bool
authorizes [] peer root_id = false
authorizes (r ∷ rs) peer root_id =
    (bytes_eq r.id.text root_id && holds_bytes (pin_bytes r.authorized_peers) peer.bytes)
    || authorizes rs peer root_id

-- `SocketAddr` is the standard library's.
module _ {ℓ} (SocketAddr : Type ℓ) where
  pub record DestinationConfig : Type ℓ where
    pub listen_address : SocketAddr
    pub roots : List DestinationRoot
    pub limits : Limits
    pub private_key : Bytes

  pub record SourceConfig : Type ℓ where
    pub root : ValidatedRoot
    pub root_id : RootId
    pub destination : SocketAddr
    pub peer_pin : PeerPin
    pub global_exclusions : List Bytes
    pub limits : Limits
    pub private_key : Bytes

  unfoldable pub authorize : DestinationConfig → PeerPin → Bytes → Bool
  authorize config = authorizes config.roots

module _ (system : System) where
  -- The loop over `raw.roots`, with the identifiers and the identities seen.
  unfoldable pub load_roots :
      Bytes → List Bytes → List (ℕ × ℕ) → List RawDestinationRoot → Fallible (List DestinationRoot)
  load_roots setup ids identities [] = ok []
  load_roots setup ids identities (raw ∷ raws) = parse_root_id raw.id >>= λ id.
      if holds_bytes ids id.text || is_empty raw.authorized_peers
      then err invalid
      else (open_root system
            (if system.is_absolute raw.path then raw.path else system.join setup raw.path)
          >>= λ root.
              let rest =
                load_roots setup (id.text ∷ ids) (filesystem_identity root ∷ identities) raws in
              if holds_identity identities (filesystem_identity root)
              then err invalid
              else (load_pins [] raw.authorized_peers >>= λ authorized_peers. rest >>= λ roots.
                  ok
                    (record { id = id; root = root; authorized_peers = authorized_peers } ∷ roots)))

  module _ {ℓ} {SocketAddr : Type ℓ} (parse_address : Bytes → Option SocketAddr) where
    unfoldable pub load_destination :
        (Bytes → Option RawDestinationConfig) → Bytes → Fallible (DestinationConfig SocketAddr)
    load_destination parse path = open_root system path >>= λ setup.
        validate_admin_directory system setup.path >>= λ admin.
        validate_private_key system admin >>= λ key.
        read_toml system parse (system.join admin destination_config) >>= λ raw.
        require (not (is_empty raw.roots)) >>= λ _.
        load_roots setup.path [] [] raw.roots >>= λ roots.
        or_invalid (parse_address raw.listen_address) >>= λ address.
        resolve raw.limits >>= λ limits.
        ok (record { listen_address = address; roots = roots; limits = limits; private_key = key })

    unfoldable pub load_source :
        (Bytes → Option RawSourceConfig) → Bytes → Fallible (SourceConfig SocketAddr)
    load_source parse path = open_root system path >>= λ root.
        validate_admin_directory system root.path >>= λ admin.
        validate_private_key system admin >>= λ key.
        read_toml system parse (system.join admin source_config) >>= λ raw.
        validate_exclusions raw.global_exclusions >>= λ exclusions.
        parse_root_id raw.root_id >>= λ root_id.
        or_invalid (parse_address raw.destination) >>= λ destination.
        parse_pin raw.peer_pin >>= λ pin. resolve raw.limits >>= λ limits. ok (record {
          root = root;
          root_id = root_id;
          destination = destination;
          peer_pin = pin;
          global_exclusions = exclusions;
          limits = limits;
          private_key = key;
        })
