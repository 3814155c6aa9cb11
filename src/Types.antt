-- ===== src/Types.antt =====
-- crates/quicsync-core/src/types.rs: the values that the subsystems share.
pub mod Order
pub mod Comparison
pub mod Sorted
use quic_sync.Base.{
  ℕ, ◌<◌, Bool, true, false, ◌||◌, Option, none, some, List, [], ◌∷◌, ◌==◌, if◌then◌else◌, length,
  All, Result, ok, err, ◌≡◌,
}
use quic_sync.Base.Words.{Bytes, IsByte, IsU32, IsU64, ℤ, IsI128}

-- A `u64` in a newtype.
abbrev pub OperationId : Type 0
OperationId = ℕ

-- 32 bytes in a newtype.
abbrev pub Digest : Type 0
Digest = Bytes

pub data PathError : Type 0 where
  empty_path empty_component current_directory parent_directory separator nul : PathError

pub record RelativePath : Type 0 where
  pub components : List Bytes

-- `component == b"…"` and `component.contains(&byte)`.
unfoldable pub bytes_eq : Bytes → Bytes → Bool
bytes_eq [] [] = true
bytes_eq [] (y ∷ ys) = false
bytes_eq (x ∷ xs) [] = false
bytes_eq (x ∷ xs) (y ∷ ys) = let rest = bytes_eq xs ys in if x == y then rest else false

unfoldable pub contains : Bytes → ℕ → Bool
contains [] b = false
contains (x ∷ xs) b = let rest = contains xs b in if x == b then true else rest

abbrev pub dot : Bytes
dot = b'.' ∷ []

abbrev pub dot_dot : Bytes
dot_dot = b'.' ∷ b'.' ∷ []

-- One round of the loop in `RelativePath::new`: the error that the component is refused with.
unfoldable pub component_error : Bytes → Option PathError
unfolding bytes_eq contains
component_error [] = some empty_component
component_error (b ∷ bs) =
    let component = b ∷ bs in
    if bytes_eq component dot
    then some current_directory
    else if bytes_eq component dot_dot
    then some parent_directory
    else if contains component b'/'
    then some separator
    else if contains component 0
    then some nul
    else none

unfoldable pub components_error : List Bytes → Option PathError
unfolding component_error
components_error [] = none
components_error (c ∷ cs) =
    let rest = components_error cs in elim (component_error c) [ some e ↦ some e | none ↦ rest ]

unfoldable pub new_path : List Bytes → Result PathError RelativePath
unfolding components_error
new_path [] = err empty_path
new_path (c ∷ cs) = elim (components_error (c ∷ cs)) [
  | some e ↦ err e
  | none ↦ ok (record { components = c ∷ cs })
]

pub data EntryKind : Type 0 where
  directory regular_file symlink : EntryKind

pub record EntryMetadata : Type 0 where
  pub kind : EntryKind
  pub mode : ℕ
  pub mtime_ns : ℤ
  pub size : ℕ

pub record IndexRecord : Type 0 where
  pub path : RelativePath
  pub metadata : EntryMetadata
  pub digest : Option Digest
  pub symlink_target : Option Bytes

pub data Phase : Type 0 where
  handshake policy indexing planning transferring : Phase
  ready_to_commit committing complete failed : Phase

-- What the Rust types guarantee: a path came from `RelativePath::new`, and a number fits its word.
abbrev pub IsPath : RelativePath → Type 0
IsPath p = new_path p.components ≡ ok p

abbrev pub IsDigest : Digest → Type 0
IsDigest d = (length d ≡ 32) × All IsByte d

abbrev pub AllSome {ℓ} : {A : Type 0} → (A → Type ℓ) → Option A → Type ℓ
AllSome P none = Unit
AllSome P (some a) = P a

pub record IsMetadata (m : EntryMetadata) : Type 0 where
  pub mode_fits : IsU32 m.mode
  pub mtime_fits : IsI128 m.mtime_ns
  pub size_fits : IsU64 m.size

pub record IsRecord (r : IndexRecord) : Type 0 where
  pub path_valid : IsPath r.path
  pub path_bytes : All (All IsByte) r.path.components
  pub metadata_valid : IsMetadata r.metadata
  pub digest_valid : AllSome IsDigest r.digest
  pub target_valid : AllSome (All IsByte) r.symlink_target
