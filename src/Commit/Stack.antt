-- ===== src/Commit/Stack.antt =====
-- The pending directories of crates/quicsync-core/src/sync/commit.rs and the order of paths.
use quic_sync.Base.{◌≡◌, true, Bool-cases, inl, inr, Option, none, some, List, [], ◌∷◌}
use quic_sync.Types.{RelativePath, directory, regular_file, symlink}
use quic_sync.Types.Order.{path_le}
use quic_sync.Messages.{
  Operation, operation_path, upsert_directory, upsert_file, upsert_symlink, delete,
}
use quic_sync.Commit.{
  Action, remove, metadata, file, link, Directory, starts_with, defer, replacing_directory, path_eq,
}
use quic_sync.Commit.Schedule.{kept, deferred}
use quic_sync.Commit.Past.{IsOutside, le-IsOutside}
use quic_sync.Commit.Touched.{AllDirectories}
use quic_sync.Scan.Names.{All-map}

module _ {File : Type 0} where
  -- No directory pending is after one that is pending above it.
  abbrev pub IsStack : List (Directory File) → Type 0
  IsStack [] = Unit
  IsStack (d ∷ ds) = AllDirectories (λ p. path_le p d.path ≡ true) ds × IsStack ds

  abbrev pub IsUpTo : RelativePath → List (Directory File) → Type 0
  IsUpTo q = AllDirectories (λ p. path_le p q ≡ true)

  pub below-IsOutside :
      (d : RelativePath) (ds : List (Directory File))
      → IsUpTo d ds
      → AllDirectories (IsOutside d) ds
  below-IsOutside d ds h = All-map ds (λ e k. le-IsOutside d e.path k) h

  pub kept-IsStack :
      (q : RelativePath) (ds : List (Directory File)) → IsStack ds → IsStack (kept q ds)
  unfolding kept
  kept-IsStack q [] h = tt
  kept-IsStack q (d ∷ ds) (h, hs) = elim (Bool-cases (starts_with q.components d.path.components)) [
    | inl e ↦ rw e (h, hs)
    | inr e ↦ rw e (kept-IsStack q ds hs)
  ]

  defer-IsStack :
      (ds : List (Directory File)) (q : RelativePath) (a : Action File)
      → IsUpTo q ds
      → IsStack ds
      → IsStack (defer ds q a)
  unfolding defer
  defer-IsStack [] q a up h = (tt, tt)
  defer-IsStack (d ∷ ds) q a up (h, hs) = elim (Bool-cases (path_eq d.path q)) [
    | inl e ↦ rw e (h, hs)
    | inr e ↦ rw e (up, (h, hs))
  ]

  pub deferred-IsStack :
      (ds : List (Directory File)) (o : Operation) (f : Option File)
      → IsUpTo (operation_path o) ds
      → IsStack ds
      → IsStack (deferred ds o f)
  unfolding deferred operation_path
  deferred-IsStack ds (delete i p directory) f up h = defer-IsStack ds p remove up h
  deferred-IsStack ds (delete i p regular_file) f up h = h
  deferred-IsStack ds (delete i p symlink) f up h = h
  deferred-IsStack ds (upsert_directory i r) f up h =
      defer-IsStack ds r.path (metadata r.metadata) up h
  deferred-IsStack ds (upsert_file u i r) none up h = h
  deferred-IsStack ds (upsert_file u i r) (some f) up h =
      elim (Bool-cases (replacing_directory ds r.path)) [
        | inl e ↦ rw e (defer-IsStack ds r.path (file f r.metadata) up h)
        | inr e ↦ rw e h
      ]
  deferred-IsStack ds (upsert_symlink i r) f up h =
      elim (Bool-cases (replacing_directory ds r.path)) [
        | inl e ↦ rw e (defer-IsStack ds r.path (link r) up h)
        | inr e ↦ rw e h
      ]
