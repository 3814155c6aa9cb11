-- ===== src/Paths/Resolve.antt =====
-- crates/quicsync-core/src/filesystem/paths.rs: the walk from the descriptor of a root.
use quic_sync.Base.{ℕ, Bool, true, false, Option, none, some, List, [], ◌∷◌, if◌then◌else◌, ok, err}
use quic_sync.Base.Words.{Bytes}
use quic_sync.Types.{RelativePath}
use quic_sync.Error.{
  PeerError, failed_with, invalid_configuration, io, internal, path_confinement_violation,
}
use quic_sync.Paths.{reject_protected}
use quic_sync.System.{
  System, Io, then_do, or_else, Errno, exist, noent, notdir, loop, other, Flag, rdonly,
  directory_only, nofollow, nonblock, cloexec,
}

abbrev pub directory_flags : List Flag
directory_flags = rdonly ∷ directory_only ∷ nofollow ∷ cloexec ∷ []

abbrev pub as_io : Errno → PeerError
as_io e = failed_with io

-- A link, or what is no directory, would lead out of the root.
unfoldable pub open_error : Errno → PeerError
open_error loop = failed_with path_confinement_violation
open_error notdir = failed_with path_confinement_violation
open_error exist = failed_with io
open_error noent = failed_with io
open_error other = failed_with io

unfoldable pub split_last : Bytes → List Bytes → List Bytes × Bytes
split_last c [] = ([], c)
split_last c (d ∷ ds) = let (front, last) = split_last d ds in (c ∷ front, last)

pub record ValidatedParent (Fd : Type 0) : Type 0 where
  pub directory : Fd
  pub leaf : Bytes

module _ {World Fd Time : Type 0} (system : System World Fd Time) where
  -- `RootHandle::open`
  unfoldable pub open_handle : Bytes → Io World Fd
  open_handle path w =
      or_else (system.open_path path directory_flags 0 w) (λ e. failed_with invalid_configuration)

  unfoldable pub duplicate : Fd → Io World Fd
  duplicate fd w = or_else (system.dup fd w) as_io

  unfoldable pub open_directory : Fd → Bytes → Io World Fd
  open_directory parent component w =
      or_else (system.openat parent component directory_flags 0 w) open_error

  -- The loop of `resolve_parent`.
  unfoldable pub open_ancestors : Fd → List Bytes → Io World Fd
  open_ancestors fd [] w = (w, ok fd)
  open_ancestors fd (c ∷ cs) w = then_do (open_directory fd c w) (λ child. open_ancestors child cs)

  -- A path has a component.
  unfoldable pub resolve_components : Fd → List Bytes → Io World (ValidatedParent Fd)
  resolve_components root [] w = (w, err (failed_with internal))
  resolve_components root (c ∷ cs) w =
      let (ancestors, leaf) = split_last c cs in
      then_do (duplicate root w) (λ fd v.
        then_do (open_ancestors fd ancestors v)
          (λ parent u. (u, ok (record { directory = parent; leaf = leaf }))))

  unfoldable pub resolve_parent : Fd → RelativePath → Io World (ValidatedParent Fd)
  resolve_parent root path w = elim (reject_protected path.components) [
    | err e ↦ (w, err e)
    | ok u ↦ resolve_components root path.components w
  ]

  -- `open_regular`: an ancestor that is missing, a link or no directory means none.
  unfoldable pub is_absent : Errno → Bool
  is_absent noent = true
  is_absent notdir = true
  is_absent loop = true
  is_absent exist = false
  is_absent other = false

  unfoldable pub find_ancestors : Fd → List Bytes → Io World (Option Fd)
  find_ancestors fd [] w = (w, ok (some fd))
  find_ancestors fd (c ∷ cs) w =
      let (v, out) = system.openat fd c directory_flags 0 w in
      elim out [
        | ok child ↦ find_ancestors child cs v
        | err e ↦ if is_absent e then (v, ok none) else (v, err (failed_with io))
      ]

  abbrev pub regular_flags : List Flag
  regular_flags = rdonly ∷ nofollow ∷ nonblock ∷ cloexec ∷ []

  -- Of the leaf, not a directory is an error.
  unfoldable pub is_absent_leaf : Errno → Bool
  is_absent_leaf noent = true
  is_absent_leaf loop = true
  is_absent_leaf notdir = false
  is_absent_leaf exist = false
  is_absent_leaf other = false

  unfoldable pub open_leaf : Fd → Bytes → Io World (Option Fd)
  open_leaf directory leaf w =
      let (v, out) = system.openat directory leaf regular_flags 0 w in
      elim out [
        | err e ↦ if is_absent_leaf e then (v, ok none) else (v, err (failed_with io))
        | ok fd ↦
            then_do (or_else (system.fstat fd v) as_io)
              (λ stat u. (u, ok (if stat.is_file then some fd else none)))
      ]

  unfoldable pub open_components : Fd → List Bytes → Io World (Option Fd)
  open_components root [] w = (w, err (failed_with internal))
  open_components root (c ∷ cs) w =
      let (ancestors, leaf) = split_last c cs in
      then_do (duplicate root w) (λ fd v. then_do (find_ancestors fd ancestors v) (λ found u.
        elim found [ none ↦ (u, ok none) | some directory ↦ open_leaf directory leaf u ]))

  unfoldable pub open_regular : Fd → RelativePath → Io World (Option Fd)
  open_regular root path w = elim (reject_protected path.components) [
    | err e ↦ (w, err e)
    | ok u ↦ open_components root path.components w
  ]

  -- The device and the inode.
  unfoldable pub filesystem_identity : Fd → Io World (ℕ × ℕ)
  filesystem_identity fd w =
      then_do (or_else (system.fstat fd w) as_io) (λ stat v. (v, ok (stat.dev, stat.ino)))
