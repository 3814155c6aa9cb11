-- ===== src/Commit/Touched.antt =====
-- The paths that the steps of the schedule of crates/quicsync-core/src/sync/commit.rs are at, and those
-- of the directories pending.
use quic_sync.Base.{Bool-cases, inl, inr, Option, none, some, List, [], ◌∷◌, All, All-append}
use quic_sync.Types.{RelativePath, directory, regular_file, symlink}
use quic_sync.Messages.{
  Operation, operation_path, upsert_directory, upsert_file, upsert_symlink, delete,
}
use quic_sync.Commit.{
  Action, remove, metadata, file, link, Directory, starts_with, defer, replacing_directory, path_eq,
}
use quic_sync.Commit.Schedule.{Step, step_path, close, close_all, left, kept, made, deferred}

module _ {File : Type 0} where
  abbrev pub AllPaths : (RelativePath → Type 0) → List (Step File) → Type 0
  AllPaths P = All (λ s. P (step_path s))

  abbrev pub AllDirectories : (RelativePath → Type 0) → List (Directory File) → Type 0
  AllDirectories P = All (λ d. P d.path)

  module _ (P : RelativePath → Type 0) where
    pub close-AllPaths :
        (path : RelativePath) (actions : List (Action File))
        → P path
        → AllPaths P (close path actions)
    unfolding close step_path
    close-AllPaths path [] h = tt
    close-AllPaths path (a ∷ rest) h = (h, close-AllPaths path rest h)

    pub close_all-AllPaths :
        (ds : List (Directory File)) → AllDirectories P ds → AllPaths P (close_all ds)
    unfolding close_all
    close_all-AllPaths [] h = tt
    close_all-AllPaths (d ∷ ds) (h, hs) =
        All-append _ (close d.path d.actions) (close_all ds) (close-AllPaths d.path d.actions h)
          (close_all-AllPaths ds hs)

    pub left-AllPaths :
        (path : RelativePath) (ds : List (Directory File))
        → AllDirectories P ds
        → AllPaths P (left path ds)
    unfolding left
    left-AllPaths path [] h = tt
    left-AllPaths path (d ∷ ds) (h, hs) =
        elim (Bool-cases (starts_with path.components d.path.components)) [
          | inl e ↦ rw e tt
          | inr e ↦ rw e (
              All-append _ (close d.path d.actions) (left path ds)
                (close-AllPaths d.path d.actions h) (left-AllPaths path ds hs))
        ]

    pub kept-AllDirectories :
        (path : RelativePath) (ds : List (Directory File))
        → AllDirectories P ds
        → AllDirectories P (kept path ds)
    unfolding kept
    kept-AllDirectories path [] h = tt
    kept-AllDirectories path (d ∷ ds) (h, hs) =
        elim (Bool-cases (starts_with path.components d.path.components)) [
          | inl e ↦ rw e (h, hs)
          | inr e ↦ rw e (kept-AllDirectories path ds hs)
        ]

    pub made-AllPaths :
        (ds : List (Directory File)) (o : Operation) (f : Option File)
        → P (operation_path o)
        → AllPaths P (made ds o f)
    unfolding made operation_path step_path
    made-AllPaths ds (delete i p directory) f h = tt
    made-AllPaths ds (delete i p regular_file) f h = (h, tt)
    made-AllPaths ds (delete i p symlink) f h = (h, tt)
    made-AllPaths ds (upsert_directory i r) f h = (h, tt)
    made-AllPaths ds (upsert_file u i r) none h = tt
    made-AllPaths ds (upsert_file u i r) (some f) h =
        elim (Bool-cases (replacing_directory ds r.path)) [ inl e ↦ rw e tt | inr e ↦ rw e (h, tt) ]
    made-AllPaths ds (upsert_symlink i r) f h = elim (Bool-cases (replacing_directory ds r.path)) [
      | inl e ↦ rw e tt
      | inr e ↦ rw e (h, tt)
    ]

    defer-AllDirectories :
        (ds : List (Directory File)) (path : RelativePath) (a : Action File)
        → P path
        → AllDirectories P ds
        → AllDirectories P (defer ds path a)
    unfolding defer
    defer-AllDirectories [] path a h hs = (h, tt)
    defer-AllDirectories (d ∷ ds) path a h (k, ks) = elim (Bool-cases (path_eq d.path path)) [
      | inl e ↦ rw e (k, ks)
      | inr e ↦ rw e (h, (k, ks))
    ]

    pub deferred-AllDirectories :
        (ds : List (Directory File)) (o : Operation) (f : Option File)
        → P (operation_path o)
        → AllDirectories P ds
        → AllDirectories P (deferred ds o f)
    unfolding deferred operation_path
    deferred-AllDirectories ds (delete i p directory) f h hs = defer-AllDirectories ds p remove h hs
    deferred-AllDirectories ds (delete i p regular_file) f h hs = hs
    deferred-AllDirectories ds (delete i p symlink) f h hs = hs
    deferred-AllDirectories ds (upsert_directory i r) f h hs =
        defer-AllDirectories ds r.path (metadata r.metadata) h hs
    deferred-AllDirectories ds (upsert_file u i r) none h hs = hs
    deferred-AllDirectories ds (upsert_file u i r) (some f) h hs =
        elim (Bool-cases (replacing_directory ds r.path)) [
          | inl e ↦ rw e (defer-AllDirectories ds r.path (file f r.metadata) h hs)
          | inr e ↦ rw e hs
        ]
    deferred-AllDirectories ds (upsert_symlink i r) f h hs =
        elim (Bool-cases (replacing_directory ds r.path)) [
          | inl e ↦ rw e (defer-AllDirectories ds r.path (link r) h hs)
          | inr e ↦ rw e hs
        ]
