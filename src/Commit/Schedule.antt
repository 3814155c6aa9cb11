-- ===== src/Commit/Schedule.antt =====
-- The order of the changes that crates/quicsync-core/src/sync/commit.rs makes, as a list.
use quic_sync.Base.{false, Option, none, some, List, [], ◌∷◌, ◌++◌, if◌then◌else◌, ok, err}
use quic_sync.Types.{RelativePath, directory, regular_file, symlink, EntryMetadata, IndexRecord}
use quic_sync.Error.{Fallible}
use quic_sync.Messages.{
  Operation, operation_path, upsert_directory, upsert_file, upsert_symlink, delete,
}
use quic_sync.System.{Io, then_do}
use quic_sync.Commit.{
  Installer, Action, remove, metadata, file, link, Directory, starts_with, defer,
  replacing_directory, out_of_order, mismatched, refused, perform,
}

-- A change at a path: one made at once, or an action of a directory that is left.
pub data Step (File : Type 0) : Type 0 where
  make : RelativePath → EntryMetadata → Step File
  take_away : RelativePath → Step File
  put : File → RelativePath → EntryMetadata → Step File
  put_link : IndexRecord → Step File
  closing : RelativePath → Action File → Step File

-- Whether nothing below the path comes after the change, and the path.
module _ {File : Type 0} where
  unfoldable pub step_path : Step File → RelativePath
  step_path (make p m) = p
  step_path (take_away p) = p
  step_path (put f p m) = p
  step_path (put_link r) = r.path
  step_path (closing p a) = p

  unfoldable pub close : RelativePath → List (Action File) → List (Step File)
  close path [] = []
  close path (a ∷ rest) = closing path a ∷ close path rest

  unfoldable pub close_all : List (Directory File) → List (Step File)
  close_all [] = []
  close_all (d ∷ ds) = close d.path d.actions ++ close_all ds

  unfoldable pub left : RelativePath → List (Directory File) → List (Step File)
  left path [] = []
  left path (d ∷ ds) =
      let more = close d.path d.actions ++ left path ds in
      if starts_with path.components d.path.components then [] else more

  unfoldable pub kept : RelativePath → List (Directory File) → List (Directory File)
  kept path [] = []
  kept path (d ∷ ds) =
      let more = kept path ds in
      if starts_with path.components d.path.components then d ∷ ds else more

  -- The changes that an operation makes at once, and the directories pending then.
  unfoldable pub made : List (Directory File) → Operation → Option File → List (Step File)
  made pending (delete i p directory) f = []
  made pending (delete i p regular_file) f = take_away p ∷ []
  made pending (delete i p symlink) f = take_away p ∷ []
  made pending (upsert_directory i r) f = make r.path r.metadata ∷ []
  made pending (upsert_file u i r) none = []
  made pending (upsert_file u i r) (some f) =
      if replacing_directory pending r.path then [] else put f r.path r.metadata ∷ []
  made pending (upsert_symlink i r) f =
      if replacing_directory pending r.path then [] else put_link r ∷ []

  unfoldable pub deferred : List (Directory File) → Operation → Option File → List (Directory File)
  deferred pending (delete i p directory) f = defer pending p remove
  deferred pending (delete i p regular_file) f = pending
  deferred pending (delete i p symlink) f = pending
  deferred pending (upsert_directory i r) f = defer pending r.path (metadata r.metadata)
  deferred pending (upsert_file u i r) none = pending
  deferred pending (upsert_file u i r) (some f) =
      if replacing_directory pending r.path
      then defer pending r.path (file f r.metadata)
      else pending
  deferred pending (upsert_symlink i r) f =
      if replacing_directory pending r.path then defer pending r.path (link r) else pending

  -- All changes in their order, and whether the operations are accepted to the end.
  unfoldable pub schedule :
      Option RelativePath
      → List (Directory File)
      → List (Operation × Option File)
      → List (Step File) × Fallible (Unit {0})
  schedule previous pending [] = (close_all pending, ok tt)
  schedule previous pending ((o, f) ∷ rest) =
      let still = kept (operation_path o) pending in
      let later = schedule (some (operation_path o)) (deferred still o f) rest in
      let steps = left (operation_path o) pending ++ (made still o f ++ later.0) in
      if out_of_order previous (operation_path o)
      then ([], err refused)
      else if mismatched o f
      then ([], err refused)
      else (steps, later.1)

  module _ {World : Type 0} (installer : Installer World File) where
    abbrev pub step : Step File → Io World (Unit {0})
    step (make p m) w = installer.make_directory p m w
    step (take_away p) w = installer.unlink p false w
    step (put f p m) w = installer.install f p m w
    step (put_link r) w = installer.make_symlink r w
    step (closing p a) w = perform installer p a w

    -- The changes one by one, up to the first that fails; then the result given.
    unfoldable pub replay : List (Step File) → Fallible (Unit {0}) → Io World (Unit {0})
    replay [] result w = (w, result)
    replay (s ∷ ss) result w = then_do (step s w) (λ _. replay ss result)
