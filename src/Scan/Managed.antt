-- ===== src/Scan/Managed.antt =====
-- Which entries of a tree crates/quicsync-core/src/filesystem/scan.rs manages, as a relation.
use quic_sync.Base.{◌≡◌, Option, some, List, Exists, ok}
use quic_sync.Base.Words.{Bytes}
use quic_sync.Types.{RelativePath, directory, EntryMetadata}
use quic_sync.Config.{Limits}
use quic_sync.Paths.{append_component, prefix_components}
use quic_sync.Metadata.{FileSystem, metadata_for}
use quic_sync.Ignore.{Gitignore, IgnorePolicy, managed, decision}
use quic_sync.Scan.{sort_names, read_ignore_file}

module _ {Builder Matcher : Type 0} (crate : Gitignore Builder Matcher) (fs : FileSystem)
    (limits : Limits) where
  -- An entry of a directory that the rules in force there, the directory's own among them, manage.
  pub record IsManagedEntry (scope : Option RelativePath) (policy : IgnorePolicy Matcher)
      (rules : IgnorePolicy Matcher) (path : RelativePath) (metadata : EntryMetadata) : Type 0 where
    pub names : List Bytes
    pub listed : fs.read_dir (prefix_components scope) ≡ some names
    pub ruled : read_ignore_file crate fs scope policy (sort_names names) ≡ ok rules
    pub name : Bytes
    pub among : Exists (λ n. n ≡ name) names
    pub appended : append_component scope name limits ≡ ok path
    pub target : Option Bytes
    pub inspected : metadata_for fs path.components ≡ ok (metadata, target)
    pub decided : decision crate rules path metadata.kind ≡ managed

  -- Entries of the directory, and those below its managed directories.
  pub data IsManaged : Option RelativePath → IgnorePolicy Matcher → RelativePath → Type 0 where
    here :
        {scope : Option RelativePath} {policy rules : IgnorePolicy Matcher} {path : RelativePath}
        {metadata : EntryMetadata}
        → IsManagedEntry scope policy rules path metadata
        → IsManaged scope policy path
    below :
        {scope : Option RelativePath} {policy rules : IgnorePolicy Matcher} {path q : RelativePath}
        {metadata : EntryMetadata}
        → IsManagedEntry scope policy rules path metadata
        → metadata.kind ≡ directory
        → IsManaged (some path) rules q
        → IsManaged scope policy q
