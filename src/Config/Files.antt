-- ===== src/Config/Files.antt =====
-- crates/quicsync-core/src/config.rs: the checks on the root, the administrative directory and the
-- files in it. The calls of the operating system and of the TOML parser are parameters.
use quic_sync.Base.{
  ℕ, ◌/◌, ◌%◌, Bool, true, false, ◌||◌, not, Option, none, some, [], ◌∷◌, ◌==◌, ok, err, ◌>>=◌,
}
use quic_sync.Base.Words.{Bytes}
use quic_sync.Error.{Fallible}
use quic_sync.Config.{invalid}

pub record Status : Type 0 where
  pub is_dir : Bool
  pub is_file : Bool
  pub is_symlink : Bool
  pub device : ℕ
  pub inode : ℕ
  pub uid : ℕ
  pub mode : ℕ

-- The operating system: none is an error. A descriptor is a number.
pub record System : Type 0 where
  pub symlink_metadata : Bytes → Option Status
  pub metadata : Bytes → Option Status
  -- with `O_DIRECTORY | O_NOFOLLOW`, and with `O_NOFOLLOW`
  pub open_directory : Bytes → Option ℕ
  pub open_file : Bytes → Option ℕ
  pub descriptor_metadata : ℕ → Option Status
  pub read_to_string : ℕ → Option Bytes
  pub effective_user : ℕ
  -- `Path::join` and `Path::is_absolute`
  pub join : Bytes → Bytes → Bytes
  pub is_absolute : Bytes → Bool

abbrev pub or_invalid {ℓ} : {A : Type ℓ} → Option A → Fallible A
or_invalid none = err invalid
or_invalid (some a) = ok a

abbrev pub require : Bool → Fallible (Unit {0})
require true = ok tt
require false = err invalid

-- `mode & 0o022 != 0`: bit 4 or bit 1.
unfoldable pub writable_by_others : ℕ → Bool
writable_by_others mode = (mode / 16) % 2 == 1 || (mode / 2) % 2 == 1

-- `mode & 0o777 != 0o600`
unfoldable pub is_private : ℕ → Bool
is_private mode = mode % 512 == 384

pub record ValidatedRoot : Type 0 where
  pub path : Bytes
  pub descriptor : ℕ
  pub device : ℕ
  pub inode : ℕ

abbrev pub filesystem_identity : ValidatedRoot → ℕ × ℕ
filesystem_identity root = (root.device, root.inode)

abbrev pub admin_directory : Bytes
admin_directory = b'.' ∷ b'q' ∷ b'u' ∷ b'i' ∷ b'c' ∷ b's' ∷ b'y' ∷ b'n' ∷ b'c' ∷ []

abbrev pub private_key : Bytes
private_key = b'i' ∷ b'd' ∷ b'e' ∷ b'n' ∷ b't' ∷ b'i' ∷ b't' ∷ b'y' ∷ b'.' ∷ b'k' ∷ b'e' ∷ b'y' ∷ []

module _ (system : System) where
  unfoldable pub reject_symlink : Bytes → Fallible (Unit {0})
  reject_symlink path =
      or_invalid (system.symlink_metadata path) >>= λ status. require (not status.is_symlink)

  unfoldable pub open_root : Bytes → Fallible ValidatedRoot
  open_root path = reject_symlink path >>= λ _.
      or_invalid (system.open_directory path) >>= λ directory.
      or_invalid (system.descriptor_metadata directory) >>= λ status. require status.is_dir >>= λ _.
      ok (record {
        path = path;
        descriptor = directory;
        device = status.device;
        inode = status.inode;
      })

  unfoldable pub validate_owner : Status → Fallible (Unit {0})
  validate_owner status = require (status.uid == system.effective_user)

  unfoldable pub validate_admin_directory : Bytes → Fallible Bytes
  validate_admin_directory root =
      let path = system.join root admin_directory in
      reject_symlink path >>= λ _. or_invalid (system.metadata path) >>= λ status.
      require status.is_dir >>= λ _.
      validate_owner status >>= λ _. require (not (writable_by_others status.mode)) >>= λ _. ok path

  unfoldable pub open_secure_file : Bytes → Fallible ℕ
  open_secure_file path = or_invalid (system.open_file path) >>= λ file.
      or_invalid (system.descriptor_metadata file) >>= λ status. require status.is_file >>= λ _.
      validate_owner status >>= λ _. require (not (writable_by_others status.mode)) >>= λ _. ok file

  unfoldable pub validate_private_key : Bytes → Fallible Bytes
  validate_private_key admin =
      let path = system.join admin private_key in
      open_secure_file path >>= λ file. or_invalid (system.descriptor_metadata file) >>= λ status.
      require (is_private status.mode) >>= λ _. ok path

  -- `parse` is `toml::from_str` at the type of the configuration.
  unfoldable pub read_toml {ℓ} : {A : Type ℓ} → (Bytes → Option A) → Bytes → Fallible A
  read_toml parse path = open_secure_file path >>= λ file.
      or_invalid (system.read_to_string file) >>= λ contents. or_invalid (parse contents)
