-- ===== src/Staging.antt =====
-- crates/quicsync-core/src/filesystem/staging.rs: files received into a private directory, and their
-- installation.
use quic_sync.Base.{
  ℕ, ◌+◌, ◌/◌, ◌%◌, ◌^◌, Bool, true, false, ◌&&◌, Option, none, some, List, [], ◌∷◌, ◌++◌, ltb,
  ◌==◌, if◌then◌else◌, Result, ok, err,
}
use quic_sync.Base.Words.{Bytes, ℤ, pos, negsuc}
use quic_sync.Types.{RelativePath, EntryKind, directory, regular_file, symlink, EntryMetadata}
use quic_sync.Error.{PeerError, Fallible, failed_with, io}
use quic_sync.Metadata.{nanos_per_second}
use quic_sync.Paths.{quicsync_name}
use quic_sync.Paths.Resolve.{resolve_parent, directory_flags, as_io}
use quic_sync.System.{
  System, Io, then_do, or_else, Errno, exist, noent, notdir, loop, other, Flag, wronly, create,
  excl, nofollow, cloexec, Stat,
}

pub record StagedFile (Fd : Type 0) : Type 0 where
  pub area : Fd
  pub name : Bytes

abbrev pub failure : PeerError
failure = failed_with io

-- `{b:02x}`
abbrev pub hex : ℕ → ℕ
hex d = if ltb d 10 then 48 + d else 87 + d

unfoldable pub hex_name : Bytes → Bytes
hex_name [] = []
hex_name (b ∷ bs) = hex (b / 16) ∷ hex (b % 16) ∷ hex_name bs

abbrev pub incoming : Bytes
incoming = b'i' ∷ b'n' ∷ b'c' ∷ b'o' ∷ b'm' ∷ b'i' ∷ b'n' ∷ b'g' ∷ b'-' ∷ []

-- `unsigned_abs`, and whether the number is less than 0.
unfoldable pub unsigned_abs : ℤ → ℕ
unsigned_abs (pos n) = n
unsigned_abs (negsuc n) = n + 1

abbrev pub is_negative : ℤ → Bool
is_negative (pos n) = false
is_negative (negsuc n) = true

abbrev pub is_private : Stat → ℕ → Bool
is_private stat user = (stat.uid == user) && (stat.mode % 64 == 0)

abbrev pub made_or_there : Result Errno (Unit {0}) → Bool
made_or_there (ok u) = true
made_or_there (err exist) = true
made_or_there (err noent) = false
made_or_there (err notdir) = false
made_or_there (err loop) = false
made_or_there (err other) = false

abbrev pub create_flags : List Flag
create_flags = wronly ∷ create ∷ excl ∷ nofollow ∷ cloexec ∷ []

abbrev pub write_flags : List Flag
write_flags = wronly ∷ nofollow ∷ cloexec ∷ []

abbrev pub is_regular : EntryKind → Bool
is_regular regular_file = true
is_regular directory = false
is_regular symlink = false

module _ {World Fd Time : Type 0} (system : System World Fd Time) where
  unfoldable pub modified : ℤ → Fallible Time
  modified nanos =
      let magnitude = unsigned_abs nanos in
      let seconds = magnitude / nanos_per_second in
      let rest = magnitude % nanos_per_second in
      if ltb seconds (2 ^ 64)
      then elim (if is_negative nanos
          then system.checked_sub seconds rest
          else system.checked_add seconds rest) [ none ↦ err failure | some time ↦ ok time ]
      else err failure

  unfoldable pub set_file_metadata : Fd → EntryMetadata → Io World (Unit {0})
  set_file_metadata file metadata w =
      then_do (or_else (system.fchmod file metadata.mode w) as_io) (λ _ v.
        elim (modified metadata.mtime_ns) [
          | err e ↦ (v, err e)
          | ok time ↦ or_else (system.set_times file time v) as_io
        ])

  unfoldable pub open_staging : Fd → Io World Fd
  open_staging root w =
      then_do (or_else (system.openat root quicsync_name directory_flags 0 w) as_io) (λ fd v.
        then_do (or_else (system.fstat fd v) as_io)
          (λ stat u. if is_private stat (system.geteuid u) then (u, ok fd) else (u, err failure)))

  unfoldable pub staging_directory : Fd → Io World Fd
  staging_directory root w =
      let (v, out) = system.mkdirat root quicsync_name 448 w in
      if made_or_there out then open_staging root v else (v, err failure)

  -- `io::copy`: a read of no bytes is the end.
  unfoldable pub copy : Fd → List (Option Bytes) → Io World (Unit {0})
  copy file [] w = (w, ok tt)
  copy file (none ∷ rest) w = (w, err failure)
  copy file (some [] ∷ rest) w = (w, ok tt)
  copy file (some (b ∷ bs) ∷ rest) w =
      then_do (or_else (system.write file (b ∷ bs) w) as_io) (λ _. copy file rest)

  -- Dropped without being installed.
  unfoldable pub discard : StagedFile Fd → World → World
  discard staged w = (system.unlinkat staged.area staged.name false w).0

  abbrev pub or_discard {ℓ} : {A : Type ℓ} → StagedFile Fd → World × Fallible A → World × Fallible A
  or_discard staged (w, ok a) = (w, ok a)
  or_discard staged (w, err e) = (discard staged w, err e)

  unfoldable pub receive_in : Fd → List (Option Bytes) → Io World (StagedFile Fd)
  receive_in area content w = then_do (or_else (system.fill w) as_io) (λ random v.
      let staged : StagedFile Fd = record { area = area; name = incoming ++ hex_name random } in
      then_do (or_else (system.openat area staged.name create_flags 384 v) as_io)
        (λ file u. or_discard staged (then_do (copy file content u) (λ _ x. (x, ok staged)))))

  unfoldable pub receive : Fd → List (Option Bytes) → Io World (StagedFile Fd)
  receive root content w = then_do (staging_directory root w) (λ area. receive_in area content)

  unfoldable pub rename_into : Fd → StagedFile Fd → RelativePath → Io World (Unit {0})
  rename_into root staged path w = then_do (resolve_parent system root path w) (λ parent v.
      or_else (system.renameat staged.area staged.name parent.directory parent.leaf v) as_io)

  unfoldable pub install : Fd → StagedFile Fd → RelativePath → EntryMetadata → Io World (Unit {0})
  install root staged path metadata w = or_discard staged (
      if is_regular metadata.kind
      then then_do (or_else (system.openat staged.area staged.name write_flags 0 w) as_io)
          (λ file v.
            then_do (set_file_metadata file metadata v) (λ _. rename_into root staged path))
      else (w, err failure))

pub record StagingArea (Fd : Type 0) : Type 0 where
  pub root : Fd
  pub directory : Fd

module _ {World Fd Time : Type 0} (system : System World Fd Time) where
  unfoldable pub new_area : Fd → Io World (StagingArea Fd)
  new_area root w =
      then_do (staging_directory system root w)
        (λ area v. (v, ok (record { root = root; directory = area })))

  abbrev pub receive_area : StagingArea Fd → List (Option Bytes) → Io World (StagedFile Fd)
  receive_area area = receive_in system area.directory
