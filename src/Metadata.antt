-- ===== src/Metadata.antt =====
-- crates/quicsync-core/src/filesystem/metadata.rs: what an index says of an entry. The calls of the
-- operating system and BLAKE3 are parameters, and a path is the list of its components from the
-- root on.
use quic_sync.Base.{
  ℕ, ◌+◌, ◌-◌, ◌*◌, ◌%◌, Bool, Option, none, some, List, [], ◌∷◌, ◌++◌, length, ltb, if◌then◌else◌,
  ok, err, ◌>>=◌,
}
use quic_sync.Base.Words.{Bytes, ℤ, pos, negsuc}
use quic_sync.Types.{EntryKind, directory, regular_file, symlink, EntryMetadata, Digest}
use quic_sync.Error.{Fallible, failed_with, io, unsupported_filesystem}

-- `std::fs::Metadata`, as far as it is read.
pub record FileStatus : Type 0 where
  pub is_dir : Bool
  pub is_file : Bool
  pub is_symlink : Bool
  pub mode : ℕ
  pub size : ℕ
  pub mtime : ℤ
  pub mtime_nsec : ℕ

-- The operating system: none is an error. A file is read as the chunks that `read` returns.
pub record FileSystem : Type 0 where
  pub read_dir : List Bytes → Option (List Bytes)
  pub symlink_metadata : List Bytes → Option FileStatus
  pub read_link : List Bytes → Option Bytes
  pub open_file : List Bytes → Option (List (Option Bytes))
  pub hash : Bytes → Digest

abbrev pub or_io {ℓ} : {A : Type ℓ} → Option A → Fallible A
or_io none = err (failed_with io)
or_io (some a) = ok a

abbrev pub nanos_per_second : ℕ
nanos_per_second = 1000000000

-- `seconds * 1_000_000_000 + nanos`; from an `i64` of seconds an `i128` does not overflow.
unfoldable pub mtime_ns : ℤ → ℕ → ℤ
mtime_ns (pos s) n = pos (s * nanos_per_second + n)
mtime_ns (negsuc s) n =
    let below = (s + 1) * nanos_per_second in
    if ltb n below then negsuc (below - n - 1) else pos (n - below)

unfoldable pub kind_of : FileStatus → Fallible EntryKind
kind_of m =
    if m.is_dir
    then ok directory
    else if m.is_file
    then ok regular_file
    else if m.is_symlink
    then ok symlink
    else err (failed_with unsupported_filesystem)

abbrev pub size_of : Option Bytes → ℕ → ℕ
size_of none size = size
size_of (some target) size = length target

-- The loop of `digest_file`: the bytes hashed, until a read returns none of them.
unfoldable pub read_all : List (Option Bytes) → Fallible Bytes
read_all [] = ok []
read_all (none ∷ rest) = err (failed_with io)
read_all (some [] ∷ rest) = ok []
read_all (some (b ∷ bs) ∷ rest) = read_all rest >>= λ later. ok ((b ∷ bs) ++ later)

module _ (fs : FileSystem) where
  unfoldable pub read_symlink_target : List Bytes → Fallible Bytes
  read_symlink_target path = or_io (fs.read_link path)

  unfoldable pub target_for : EntryKind → List Bytes → Fallible (Option Bytes)
  target_for directory path = ok none
  target_for regular_file path = ok none
  target_for symlink path = read_symlink_target path >>= λ target. ok (some target)

  unfoldable pub metadata_from : List Bytes → FileStatus → Fallible (EntryMetadata × Option Bytes)
  metadata_from path m = kind_of m >>= λ kind. target_for kind path >>= λ target. ok (
    record {
      kind = kind;
      mode = m.mode % 4096;
      mtime_ns = mtime_ns m.mtime m.mtime_nsec;
      size = size_of target m.size;
    },
    target,
  )

  unfoldable pub metadata_for : List Bytes → Fallible (EntryMetadata × Option Bytes)
  metadata_for path = or_io (fs.symlink_metadata path) >>= λ m. metadata_from path m

  unfoldable pub digest_file : List Bytes → Fallible Digest
  digest_file path =
      or_io (fs.open_file path) >>= λ chunks. read_all chunks >>= λ bytes. ok (fs.hash bytes)

  unfoldable pub digest_symlink_target : Bytes → Digest
  digest_symlink_target target = fs.hash target
