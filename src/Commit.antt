-- ===== src/Commit.antt =====
-- crates/quicsync-core/src/sync/commit.rs: the order in which the changes are made. What makes a
-- change is an interface, which Commit/Install.antt fills.
pub mod Schedule
pub mod Replayed
pub mod Past
pub mod Touched
pub mod Stack
pub mod Settled
pub mod Done
pub mod Whole
pub mod Install
pub mod Times
pub mod Staged
use quic_sync.Base.{
  ℕ, Bool, true, false, Option, none, some, List, [], ◌∷◌, ◌++◌, Ordering, compare, if◌then◌else◌,
  ok, err,
}
use quic_sync.Types.{
  RelativePath, EntryKind, directory, regular_file, symlink, EntryMetadata, IndexRecord, bytes_eq,
}
use quic_sync.Base.Words.{Bytes}
use quic_sync.Types.Order.{path_lt}
use quic_sync.Error.{PeerError, Fallible, failed_with, operation_failed}
use quic_sync.System.{Io, then_do}
use quic_sync.Messages.{
  Operation, operation_id, operation_path, upsert_directory, upsert_file, upsert_symlink, delete,
}

abbrev pub refused : PeerError
refused = failed_with operation_failed

-- The calls of `apply` and `finish_directory` that change the root.
pub record Installer (World File : Type 0) : Type 0 where
  pub make_directory : RelativePath → EntryMetadata → Io World (Unit {0})
  pub unlink : RelativePath → Bool → Io World (Unit {0})
  pub install : File → RelativePath → EntryMetadata → Io World (Unit {0})
  pub make_symlink : IndexRecord → Io World (Unit {0})
  pub set_metadata : RelativePath → EntryMetadata → Io World (Unit {0})

pub data Action (File : Type 0) : Type 0 where
  remove : Action File
  metadata : EntryMetadata → Action File
  file : File → EntryMetadata → Action File
  link : IndexRecord → Action File

pub record Directory (File : Type 0) : Type 0 where
  pub path : RelativePath
  pub actions : List (Action File)

-- `components().starts_with(…)`
unfoldable pub starts_with : List Bytes → List Bytes → Bool
starts_with path [] = true
starts_with [] (d ∷ ds) = false
starts_with (c ∷ cs) (d ∷ ds) = let rest = starts_with cs ds in if bytes_eq c d then rest else false

unfoldable pub components_eq : List Bytes → List Bytes → Bool
components_eq [] [] = true
components_eq [] (d ∷ ds) = false
components_eq (c ∷ cs) [] = false
components_eq (c ∷ cs) (d ∷ ds) =
    let rest = components_eq cs ds in if bytes_eq c d then rest else false

abbrev pub path_eq : RelativePath → RelativePath → Bool
path_eq p q = components_eq p.components q.components

abbrev pub out_of_order : Option RelativePath → RelativePath → Bool
out_of_order none path = false
out_of_order (some previous) path = path_lt path previous

module _ {File : Type 0} where
  abbrev pub is_remove : Action File → Bool
  is_remove remove = true
  is_remove (metadata m) = false
  is_remove (file f m) = false
  is_remove (link r) = false

  unfoldable pub any_remove : List (Action File) → Bool
  any_remove [] = false
  any_remove (a ∷ rest) = let rest = any_remove rest in if is_remove a then true else rest

  -- The pending directories, the last first.
  unfoldable pub replacing_directory : List (Directory File) → RelativePath → Bool
  replacing_directory [] path = false
  replacing_directory (d ∷ ds) path = if path_eq d.path path then any_remove d.actions else false

  unfoldable pub defer : List (Directory File) → RelativePath → Action File → List (Directory File)
  defer [] path action = record { path = path; actions = action ∷ [] } ∷ []
  defer (d ∷ ds) path action =
      if path_eq d.path path
      then record { path = d.path; actions = d.actions ++ (action ∷ []) } ∷ ds
      else record { path = path; actions = action ∷ [] } ∷ d ∷ ds

  -- `matches!(…) != file.is_some()`
  abbrev pub mismatched : Operation → Option File → Bool
  mismatched (upsert_file u i r) none = true
  mismatched (upsert_file u i r) (some f) = false
  mismatched (upsert_directory i r) none = false
  mismatched (upsert_directory i r) (some f) = true
  mismatched (upsert_symlink i r) none = false
  mismatched (upsert_symlink i r) (some f) = true
  mismatched (delete i p k) none = false
  mismatched (delete i p k) (some f) = true

  module _ {World : Type 0} (installer : Installer World File) where
    abbrev pub perform : RelativePath → Action File → Io World (Unit {0})
    perform path remove w = installer.unlink path true w
    perform path (metadata m) w = installer.set_metadata path m w
    perform path (file f m) w = installer.install f path m w
    perform path (link r) w = installer.make_symlink r w

    unfoldable pub perform_all : RelativePath → List (Action File) → Io World (Unit {0})
    perform_all path [] w = (w, ok tt)
    perform_all path (a ∷ rest) w = then_do (perform path a w) (λ _. perform_all path rest)

    abbrev pub finish_directory : Directory File → Io World (Unit {0})
    finish_directory d = perform_all d.path d.actions

    -- The `while` of `apply`, and that of `finish`.
    unfoldable pub leave : RelativePath → List (Directory File) → Io World (List (Directory File))
    leave path [] w = (w, ok [])
    leave path (d ∷ ds) w =
        if starts_with path.components d.path.components
        then (w, ok (d ∷ ds))
        else then_do (finish_directory d w) (λ _. leave path ds)

    unfoldable pub finish : List (Directory File) → Io World (Unit {0})
    finish [] w = (w, ok tt)
    finish (d ∷ ds) w = then_do (finish_directory d w) (λ _. finish ds)

    -- With the directories pending, those that are pending then.
    abbrev unchanged :
        List (Directory File)
        → World × Fallible (Unit {0})
        → World × Fallible (List (Directory File))
    unchanged pending out = then_do out (λ _ w. (w, ok pending))

    -- The `match` of `apply`. A file upsert without a file does not come this far.
    unfoldable pub apply_operation :
        List (Directory File) → Operation → Option File → Io World (List (Directory File))
    apply_operation pending (delete i path directory) f w = (w, ok (defer pending path remove))
    apply_operation pending (delete i path regular_file) f w =
        unchanged pending (installer.unlink path false w)
    apply_operation pending (delete i path symlink) f w =
        unchanged pending (installer.unlink path false w)
    apply_operation pending (upsert_directory i r) f w =
        then_do (installer.make_directory r.path r.metadata w)
          (λ _ v. (v, ok (defer pending r.path (metadata r.metadata))))
    apply_operation pending (upsert_file u i r) none w = (w, err refused)
    apply_operation pending (upsert_file u i r) (some f) w =
        if replacing_directory pending r.path
        then (w, ok (defer pending r.path (file f r.metadata)))
        else unchanged pending (installer.install f r.path r.metadata w)
    apply_operation pending (upsert_symlink i r) f w =
        if replacing_directory pending r.path
        then (w, ok (defer pending r.path (link r)))
        else unchanged pending (installer.make_symlink r w)

    -- `apply` of each change, then `finish`; `previous` is the path of the last one.
    unfoldable pub apply_all :
        Option RelativePath
        → List (Directory File)
        → List (Operation × Option File)
        → Io World (Unit {0})
    apply_all previous pending [] w = finish pending w
    apply_all previous pending ((o, f) ∷ rest) w =
        if out_of_order previous (operation_path o)
        then (w, err refused)
        else if mismatched o f
        then (w, err refused)
        else then_do (leave (operation_path o) pending w) (λ still. λ v.
          then_do (apply_operation still o f v)
            (λ pending'. apply_all (some (operation_path o)) pending' rest))

-- `BTreeMap`: ascending by identifier.
abbrev pub Changes : Type 0 → Type 0
Changes File = List (Operation × Option File)

module _ {File : Type 0} where
  unfoldable pub contains_key : Changes File → ℕ → Bool
  contains_key [] id = false
  contains_key ((o, f) ∷ rest) id =
      let later = contains_key rest id in
      elim (compare (operation_id o) id) [ Ordering.eq ↦ true | _ ↦ later ]

  unfoldable pub insert_change : Changes File → Operation → Option File → Changes File
  insert_change [] o f = (o, f) ∷ []
  insert_change ((p, g) ∷ rest) o f =
      let later = (p, g) ∷ insert_change rest o f in
      elim (compare (operation_id o) (operation_id p)) [
        | Ordering.lt ↦ (o, f) ∷ (p, g) ∷ rest
        | Ordering.eq ↦ (o, f) ∷ rest
        | Ordering.gt ↦ later
      ]

  unfoldable pub stage : Changes File → Operation → Option File → Fallible (Changes File)
  stage changes o f =
      if mismatched o f
      then err refused
      else if contains_key changes (operation_id o)
      then err refused
      else ok (insert_change changes o f)

  unfoldable pub commit :
      {World : Type 0} → Installer World File → Changes File → Io World (Unit {0})
  commit installer changes = apply_all installer none [] changes
