-- ===== src/Scan.antt =====
-- crates/quicsync-core/src/filesystem/scan.rs: the walk that sends the records of a tree in order.
pub mod Names
pub mod Order
pub mod Growth
pub mod Depth
pub mod Root
pub mod Synced
pub mod Managed
pub mod Ended
pub mod Complete
use quic_sync.Base.{
  ℕ, zero, suc, ◌+◌, Bool, true, false, Option, none, some, List, [], ◌∷◌, ◌++◌, length, Ordering,
  if◌then◌else◌, Result, ok, err, ◌>>=◌,
}
use quic_sync.Base.Words.{Bytes}
use quic_sync.Base.Ordered.{lexicographic}
use Prim.Native.Nat.{compare}
use quic_sync.Types.{
  RelativePath, EntryKind, directory, regular_file, symlink, EntryMetadata, IndexRecord, Digest,
}
use quic_sync.Error.{PeerError, Fallible, failed_with, operation_failed}
use quic_sync.Messages.{IndexMessage, index_record, index_end}
use quic_sync.Config.{Limits}
use quic_sync.Config.Load.{holds_bytes}
use quic_sync.Paths.{append_component, prefix_components}
use quic_sync.Metadata.{
  FileSystem, or_io, metadata_for, digest_file, digest_symlink_target, read_all,
}
use quic_sync.Ignore.{
  Gitignore, IgnorePolicy, managed, ignored, protected, gitignore_name, add_ignore_contents,
  with_configured_exclusions, decision, checkpoint, restore,
}

abbrev pub compare_bytes : Bytes → Bytes → Ordering
compare_bytes = lexicographic compare

-- `sort_by` is a stable sort.
unfoldable pub insert_name : Bytes → List Bytes → List Bytes
insert_name n [] = n ∷ []
insert_name n (m ∷ ms) =
    let later = m ∷ insert_name n ms in
    elim (compare_bytes n m) [
      | Ordering.lt ↦ n ∷ m ∷ ms
      | Ordering.eq ↦ n ∷ m ∷ ms
      | Ordering.gt ↦ later
    ]

unfoldable pub sort_names : List Bytes → List Bytes
sort_names [] = []
sort_names (n ∷ ns) = insert_name n (sort_names ns)

-- The end of a step: the records sent, the policy, and how it ended.
pub record Scanned (Matcher : Type 0) : Type 0 where
  pub sent : List IndexRecord
  pub policy : IgnorePolicy Matcher
  pub result : Fallible (Unit {0})

-- The receiver of the channel: whether it is seen to be closed, and whether a send succeeds, after
-- so many messages.
pub record Receiver : Type 0 where
  pub is_closed : ℕ → Bool
  pub accepts : ℕ → Bool

abbrev pub closed : PeerError
closed = failed_with operation_failed

abbrev pub records : List IndexRecord → List (Fallible IndexMessage)
records [] = []
records (r ∷ rs) = ok (index_record r) ∷ records rs

-- A send of the error that fails is dropped.
abbrev pub last_error : Receiver → ℕ → PeerError → List (Fallible IndexMessage)
last_error receiver n e = if receiver.accepts n then err e ∷ [] else []

unfoldable pub digest_for :
    FileSystem → List Bytes → EntryKind → Option Bytes → Fallible (Option Digest)
digest_for fs path directory target = ok none
digest_for fs path regular_file target = digest_file fs path >>= λ digest. ok (some digest)
digest_for fs path symlink none = ok none
digest_for fs path symlink (some target) = ok (some (digest_symlink_target fs target))

module _ {Builder Matcher : Type 0} (crate : Gitignore Builder Matcher) (fs : FileSystem) where
  -- A `.gitignore` among the names is read if it is a file, without following links.
  unfoldable pub read_ignore_file :
      Option RelativePath → IgnorePolicy Matcher → List Bytes → Fallible (IgnorePolicy Matcher)
  read_ignore_file scope policy names =
      let path = prefix_components scope ++ (gitignore_name ∷ []) in
      if holds_bytes names gitignore_name
      then (or_io (fs.symlink_metadata path) >>= λ m.
          if m.is_file
          then (or_io (fs.open_file path) >>= λ chunks.
              read_all chunks >>= λ contents. add_ignore_contents crate policy scope contents)
          else ok policy)
      else ok policy

module _ {Builder Matcher : Type 0} (crate : Gitignore Builder Matcher) (fs : FileSystem)
    (limits : Limits) (receiver : Receiver) where
  abbrev pub done : List IndexRecord → IgnorePolicy Matcher → Option (Scanned Matcher)
  done sent policy = some (record { sent = sent; policy = policy; result = ok tt })

  abbrev pub stop : List IndexRecord → IgnorePolicy Matcher → PeerError → Option (Scanned Matcher)
  stop sent policy e = some (record { sent = sent; policy = policy; result = err e })

  abbrev pub Descend : Type 0
  Descend = RelativePath → IgnorePolicy Matcher → List IndexRecord → Option (Scanned Matcher)

  abbrev pub enter :
      Descend
      → EntryKind
      → RelativePath
      → IgnorePolicy Matcher
      → List IndexRecord
      → Option (Scanned Matcher)
  enter descend directory path policy sent = descend path policy sent
  enter descend regular_file path policy sent = done sent policy
  enter descend symlink path policy sent = done sent policy

  -- From the digest on: the record is sent, and a directory is entered.
  unfoldable pub send_record :
      Descend
      → RelativePath
      → IgnorePolicy Matcher
      → List IndexRecord
      → EntryMetadata
      → Option Bytes
      → Option (Scanned Matcher)
  send_record descend path policy sent metadata target =
      elim (digest_for fs path.components metadata.kind target) [
        | err e ↦ stop sent policy e
        | ok digest ↦
            let found : IndexRecord = record {
              path = path;
              metadata = metadata;
              digest = digest;
              symlink_target = target;
            } in
            if receiver.accepts (length sent)
            then enter descend metadata.kind path policy (sent ++ (found ∷ []))
            else stop sent policy closed
      ]

  -- The body of the loop over the entries; `descend` is the call of `scan_directory`.
  unfoldable pub scan_entry :
      Descend
      → Option RelativePath
      → IgnorePolicy Matcher
      → List IndexRecord
      → Bytes
      → Option (Scanned Matcher)
  scan_entry descend scope policy sent name =
      if receiver.is_closed (length sent)
      then stop sent policy closed
      else elim (append_component scope name limits) [
        | err e ↦ stop sent policy e
        | ok path ↦ elim (metadata_for fs path.components) [
          | err e ↦ stop sent policy e
          | ok (metadata, target) ↦ elim (decision crate policy path metadata.kind) [
            | managed ↦ send_record descend path policy sent metadata target
            | ignored ↦ done sent policy
            | protected ↦ done sent policy
          ]
        ]
      ]

  unfoldable pub scan_entries :
      Descend
      → Option RelativePath
      → IgnorePolicy Matcher
      → List IndexRecord
      → List Bytes
      → Option (Scanned Matcher)
  scan_entries descend scope policy sent [] = done sent policy
  scan_entries descend scope policy sent (name ∷ names) =
      elim (scan_entry descend scope policy sent name) [
        | none ↦ none
        | some s ↦ elim s.result [
          | err e ↦ some s
          | ok u ↦ scan_entries descend scope s.policy s.sent names
        ]
      ]

  -- `policy.restore(checkpoint)` where the entries were scanned without an error.
  abbrev pub restored : ℕ → Option (Scanned Matcher) → Option (Scanned Matcher)
  restored n none = none
  restored n (some s) = elim s.result [
    | err e ↦ some s
    | ok u ↦ some (record s { policy = restore s.policy n })
  ]

  -- With the levels left; none where they run out.
  unfoldable pub scan_directory :
      ℕ → Option RelativePath → IgnorePolicy Matcher → List IndexRecord → Option (Scanned Matcher)
  scan_directory zero scope policy sent = none
  scan_directory (suc levels) scope policy sent =
      elim (or_io (fs.read_dir (prefix_components scope))) [
        | err e ↦ stop sent policy e
        | ok names ↦
            let sorted = sort_names names in
            elim (read_ignore_file crate fs scope policy sorted) [
              | err e ↦ stop sent policy e
              | ok policy' ↦ restored (checkpoint policy) (
                  scan_entries (λ path. scan_directory levels (some path)) scope policy' sent
                    sorted)
            ]
      ]

  -- What the channel holds in the end, and the result.
  abbrev pub finish_scan : Scanned Matcher → List (Fallible IndexMessage) × Fallible (Unit {0})
  finish_scan s = elim s.result [
    | err e ↦ (records s.sent ++ last_error receiver (length s.sent) e, err e)
    | ok u ↦
        if receiver.accepts (length s.sent)
        then (records s.sent ++ (ok index_end ∷ []), ok tt)
        else (records s.sent ++ last_error receiver (length s.sent) closed, err closed)
  ]

  unfoldable pub scan_root :
      ℕ → List Bytes → Option (List (Fallible IndexMessage) × Fallible (Unit {0}))
  scan_root levels exclusions = elim (with_configured_exclusions crate exclusions) [
    | err e ↦ some (last_error receiver 0 e, err e)
    | ok policy ↦ elim (scan_directory levels none policy []) [
      | none ↦ none
      | some s ↦ some (finish_scan s)
    ]
  ]
