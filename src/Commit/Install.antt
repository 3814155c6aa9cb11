-- ===== src/Commit/Install.antt =====
-- crates/quicsync-core/src/sync/commit.rs: the calls that make each change, through the descriptor of
-- the parent directory.
use quic_sync.Base.{
  ℕ, ◌+◌, ◌-◌, ◌*◌, ◌/◌, ◌%◌, ◌^◌, Bool, true, false, Option, none, some, ltb, if◌then◌else◌,
  Result, ok, err, ◌>>=◌,
}
use quic_sync.Base.Words.{Bytes, ℤ, pos, negsuc}
use quic_sync.Types.{RelativePath, EntryMetadata, IndexRecord, contains}
use quic_sync.Error.{PeerError, Fallible}
use quic_sync.Metadata.{nanos_per_second}
use quic_sync.Paths.Resolve.{ValidatedParent, resolve_parent, directory_flags}
use quic_sync.Staging.{StagedFile, set_file_metadata, made_or_there, install}
use quic_sync.System.{System, Io, then_do, or_else, Errno, exist, noent, notdir, loop, other}
use quic_sync.Commit.{Installer, refused, Changes, commit}

abbrev as_failure : Errno → PeerError
as_failure e = refused

-- `div_euclid` and `rem_euclid`.
unfoldable pub div_euclid : ℤ → ℕ → ℤ
div_euclid (pos n) b = pos (n / b)
div_euclid (negsuc n) b = negsuc (n / b)

unfoldable pub rem_euclid : ℤ → ℕ → ℕ
rem_euclid (pos n) b = n % b
rem_euclid (negsuc n) b = b - 1 - n % b

-- `try_into` for an `i64`.
unfoldable pub as_i64 : ℤ → Fallible ℤ
as_i64 (pos n) = if ltb n (2 ^ 63) then ok (pos n) else err refused
as_i64 (negsuc n) = if ltb n (2 ^ 63) then ok (negsuc n) else err refused

-- Seconds and nanoseconds.
unfoldable pub times_of : ℤ → Fallible (ℤ × ℕ)
times_of nanos = as_i64 (div_euclid nanos nanos_per_second) >>= λ seconds.
    ok (seconds, rem_euclid nanos nanos_per_second)

-- `mode | 0o700`
unfoldable pub with_owner : ℕ → ℕ
with_owner mode = mode - mode / 64 % 8 * 64 + 448

-- `CString::new`
abbrev pub c_string : Bytes → Fallible Bytes
c_string target = if contains target 0 then err refused else ok target

abbrev pub target_of : Option Bytes → Fallible Bytes
target_of none = err refused
target_of (some target) = c_string target

abbrev pub is_missing_ok : Result Errno (Unit {0}) → Bool
is_missing_ok (ok u) = true
is_missing_ok (err noent) = true
is_missing_ok (err exist) = false
is_missing_ok (err notdir) = false
is_missing_ok (err loop) = false
is_missing_ok (err other) = false

module _ {World Fd Time : Type 0} (system : System World Fd Time) (root : Fd) where
  unfoldable pub unlink : RelativePath → Bool → Io World (Unit {0})
  unlink path removedir w =
      then_do (resolve_parent system root path w)
        (λ parent v. or_else (system.unlinkat parent.directory parent.leaf removedir v) as_failure)

  abbrev open_child : ValidatedParent Fd → Io World Fd
  open_child parent w =
      or_else (system.openat parent.directory parent.leaf directory_flags 0 w) as_failure

  -- In `apply`, for a directory: kept writable while children are added.
  unfoldable pub make_directory : RelativePath → EntryMetadata → Io World (Unit {0})
  make_directory path metadata w = then_do (resolve_parent system root path w) (λ parent v.
      let (u, out) = system.mkdirat parent.directory parent.leaf 448 v in
      if made_or_there out
      then then_do (open_child parent u)
          (λ fd x. or_else (system.fchmod fd (with_owner metadata.mode) x) as_failure)
      else (u, err refused))

  -- In `finish_directory`.
  unfoldable pub set_metadata : RelativePath → EntryMetadata → Io World (Unit {0})
  set_metadata path metadata w =
      then_do (resolve_parent system root path w)
        (λ parent v. then_do (open_child parent v) (λ fd u. set_file_metadata system fd metadata u))

  unfoldable pub set_link_times : ValidatedParent Fd → EntryMetadata → Io World (Unit {0})
  set_link_times parent metadata w = elim (times_of metadata.mtime_ns) [
    | err e ↦ (w, err e)
    | ok (seconds, nanos) ↦
        or_else (system.utimensat parent.directory parent.leaf seconds nanos w) as_failure
  ]

  unfoldable pub replace_link : ValidatedParent Fd → Bytes → EntryMetadata → Io World (Unit {0})
  replace_link parent target metadata w =
      let (v, out) = system.unlinkat parent.directory parent.leaf false w in
      if is_missing_ok out
      then then_do (or_else (system.symlinkat target parent.directory parent.leaf v) as_failure)
          (λ _ u. set_link_times parent metadata u)
      else (v, err refused)

  unfoldable pub make_symlink : IndexRecord → Io World (Unit {0})
  make_symlink r w = elim (target_of r.symlink_target) [
    | err e ↦ (w, err e)
    | ok target ↦
        then_do (resolve_parent system root r.path w)
          (λ parent v. replace_link parent target r.metadata v)
  ]

  abbrev pub installer : Installer World (StagedFile Fd)
  installer = record {
    make_directory = make_directory;
    unlink = unlink;
    install = install system root;
    make_symlink = make_symlink;
    set_metadata = set_metadata;
  }

  -- `PendingCommit::commit`
  abbrev pub commit_root : Changes (StagedFile Fd) → Io World (Unit {0})
  commit_root changes = commit installer changes
