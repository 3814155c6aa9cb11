-- ===== src/Tests/Scans.antt =====
-- The walk of crates/quicsync-core/src/filesystem/scan.rs and the rules of
-- crates/quicsync-core/src/filesystem/ignore.rs on a small tree.
use mathlib.Core.Path.{subst}
use quic_sync.Base.{
  ◌≢◌, ◌∙◌, sym, ◌==◌, eq→==, ℕ, ◌≡◌, ◌<◌, refl, Bool, true, false, some, none, Option, List, [],
  ◌∷◌, ◌++◌, length, ok, err, arith, if◌then◌else◌, All, Bool-cases, inl, inr, ◌+◌,
}
use quic_sync.Base.Words.{Bytes, pos}
use quic_sync.Types.{
  RelativePath, IndexRecord, EntryMetadata, EntryKind, directory, regular_file, symlink, bytes_eq,
  Digest,
}
use quic_sync.Types.Sorted.{IsSorted}
use quic_sync.Messages.{IndexMessage, Operation}
use quic_sync.Config.{default_limits}
use quic_sync.Metadata.{FileStatus, FileSystem}
use quic_sync.Ignore.{
  with_configured_exclusions, Gitignore, IgnorePolicy, IgnoreDecision, managed, ignored, protected,
  Match, no_match, ignore, whitelist, decision, gitignore_name,
}
use quic_sync.Ignore.Decision.{decision-last_match, last_match, matches, verdict}
use quic_sync.Planner.{plan}
use quic_sync.Planner.Merge.{feed}
use quic_sync.Planner.Effect.{entry, effects}
use quic_sync.Commit.{components_eq}
use quic_sync.Scan.{Receiver, scan_root}
use quic_sync.Scan.Names.{IsDistinct}
use quic_sync.Scan.Order.{IsScanned}
use quic_sync.Scan.Growth.{IsListing}
use quic_sync.Scan.Root.{Output, IsOutput, scan_root-IsOutput}
use quic_sync.Scan.Managed.{IsManagedEntry, here, below}
use quic_sync.Scan.Ended.{IsRecorded}
use quic_sync.Scan.Complete.{scan_root-IsRecorded}
use quic_sync.Scan.Synced.{IsIndex, scans-effects}

-- A rule is the name of an entry anywhere; `!` in front of it allows the name.
abbrev rule_of : Bytes → Bytes → Match
rule_of [] name = no_match
rule_of (c ∷ cs) name =
    if bytes_eq (c ∷ cs) name
    then ignore
    else if bytes_eq (c ∷ cs) (b'!' ∷ name)
    then whitelist
    else no_match

abbrev names_match : Bytes → List Bytes → Match
names_match rule [] = no_match
names_match rule (n ∷ ns) = elim (rule_of rule n) [
  | no_match ↦ names_match rule ns
  | ignore ↦ ignore
  | whitelist ↦ whitelist
]

abbrev rules_match : List Bytes → List Bytes → Match
rules_match [] path = no_match
rules_match (r ∷ rs) path = elim (rules_match rs path) [
  | no_match ↦ names_match r path
  | ignore ↦ ignore
  | whitelist ↦ whitelist
]

abbrev by_name : Gitignore (List Bytes) (List Bytes)
by_name = record {
  new = λ root. [];
  add_line = λ rules from line. some (rules ++ (line ∷ []));
  build = λ rules. some rules;
  matched_path_or_any_parents = λ rules path is_dir. rules_match rules path;
}

abbrev name_a : Bytes
name_a = b'a' ∷ []

abbrev name_b : Bytes
name_b = b'b' ∷ []

abbrev name_x : Bytes
name_x = b'x' ∷ []

-- The root holds b, the directory a and `.git`; a holds x and b, and allows b again.
abbrev status : Bool → ℕ → FileStatus
status dir size = record {
  is_dir = dir;
  is_file = if dir then false else true;
  is_symlink = false;
  mode = 33188;
  size = size;
  mtime = pos 7;
  mtime_nsec = 5;
}

abbrev list_directory : List Bytes → Option (List Bytes)
list_directory path =
    if components_eq path []
    then some (name_b ∷ (b'.' ∷ b'g' ∷ b'i' ∷ b't' ∷ []) ∷ name_a ∷ [])
    else if components_eq path (name_a ∷ [])
    then some (name_x ∷ gitignore_name ∷ name_b ∷ [])
    else none

abbrev tree : FileSystem
tree = record {
  read_dir = list_directory;
  symlink_metadata = λ path. some (status (components_eq path (name_a ∷ [])) 2);
  read_link = λ path. none;
  open_file = λ path.
      if components_eq path (name_a ∷ gitignore_name ∷ [])
      then some (some (b'!' ∷ b'b' ∷ 10 ∷ []) ∷ [])
      else some (some (1 ∷ []) ∷ some (2 ∷ []) ∷ []);
  hash = λ bytes. bytes;
}

abbrev empty_tree : FileSystem
empty_tree = record {
  read_dir = λ path. some [];
  symlink_metadata = λ path. none;
  read_link = λ path. none;
  open_file = λ path. none;
  hash = λ bytes. bytes;
}

abbrev attentive : Receiver
attentive = record { is_closed = λ n. false; accepts = λ n. true }

abbrev found : List Bytes → EntryKind → Option Digest → IndexRecord
found path kind digest = record {
  path = record { components = path };
  metadata = record { kind = kind; mode = 420; mtime_ns = pos 7000000005; size = 2 };
  digest = digest;
  symlink_target = none;
}

abbrev found_all : List IndexRecord
found_all =
    found (name_a ∷ []) directory none
    ∷ found (name_a ∷ gitignore_name ∷ []) regular_file (some (b'!' ∷ b'b' ∷ 10 ∷ []))
    ∷ found (name_a ∷ name_b ∷ []) regular_file (some (1 ∷ 2 ∷ []))
    ∷ found (name_a ∷ name_x ∷ []) regular_file (some (1 ∷ 2 ∷ []))
    ∷ []

-- b is excluded, but allowed inside a, and `.git` is never sent.
scanned :
    scan_root by_name tree default_limits attentive 257 (name_b ∷ []) ≡ some (feed found_all, ok tt)
unfolding scan_root quic_sync.Scan.scan_entry quic_sync.Ignore.any_protected
    quic_sync.Ignore.checkpoint decision quic_sync.Ignore.is_ignored quic_sync.Ignore.is_protected
    quic_sync.Ignore.restore quic_sync.Ignore.scoped_path quic_sync.Ignore.strip_prefix
    quic_sync.Ignore.without_return quic_sync.Metadata.digest_file
    quic_sync.Metadata.digest_symlink_target quic_sync.Metadata.kind_of
    quic_sync.Metadata.metadata_for quic_sync.Metadata.metadata_from quic_sync.Metadata.mtime_ns
    quic_sync.Metadata.read_all quic_sync.Metadata.read_symlink_target quic_sync.Metadata.target_for
    quic_sync.Paths.append_component quic_sync.Paths.is_protected_component
    quic_sync.Paths.total_bytes quic_sync.Scan.digest_for quic_sync.Scan.send_record
    quic_sync.Types.component_error quic_sync.Types.components_error quic_sync.Types.contains
    quic_sync.Types.new_path quic_sync.Ignore.with_configured_exclusions
    quic_sync.Ignore.add_ignore_contents quic_sync.Ignore.build_matcher
    quic_sync.Messages.Utf8.is_utf8 quic_sync.Ignore.join_lines quic_sync.Ignore.add_lines
    quic_sync.Ignore.lines_from quic_sync.Scan.scan_directory components_eq
    quic_sync.Scan.read_ignore_file quic_sync.Config.Load.holds_bytes quic_sync.Scan.sort_names
    quic_sync.Scan.insert_name quic_sync.Base.Ordered.lexicographic quic_sync.Scan.scan_entries
scanned = refl

scanned_empty :
    scan_root by_name empty_tree default_limits attentive 257 (name_b ∷ []) ≡ some (feed [], ok tt)
unfolding scan_root quic_sync.Ignore.with_configured_exclusions quic_sync.Ignore.add_ignore_contents
    quic_sync.Ignore.build_matcher quic_sync.Messages.Utf8.is_utf8 quic_sync.Ignore.join_lines
    quic_sync.Ignore.add_lines quic_sync.Ignore.lines_from quic_sync.Scan.scan_directory
    quic_sync.Scan.read_ignore_file quic_sync.Config.Load.holds_bytes quic_sync.Scan.sort_names
    quic_sync.Scan.scan_entries
scanned_empty = refl

abbrev root_names : List Bytes
root_names = name_b ∷ (b'.' ∷ b'g' ∷ b'i' ∷ b't' ∷ []) ∷ name_a ∷ []

abbrev a_names : List Bytes
a_names = name_x ∷ gitignore_name ∷ name_b ∷ []

cons_head : {a b : ℕ} {xs ys : Bytes} → a ∷ xs ≡ b ∷ ys → a ≡ b
cons_head h = cc

apart : (a b : ℕ) (xs ys : Bytes) → (a == b) ≡ false → a ∷ xs ≢ b ∷ ys
apart a b xs ys h e = differ (eq→== a b (cons_head e)) h
  where
    differ : {c : Bool} → c ≡ true → c ≢ false
    differ h k = cc

root_names-IsDistinct : IsDistinct root_names
root_names-IsDistinct = (
  (apart b'b' b'.' [] _ refl, (apart b'b' b'a' [] [] refl, tt)),
  ((apart b'.' b'a' _ [] refl, tt), (tt, tt)),
)

a_names-IsDistinct : IsDistinct a_names
a_names-IsDistinct = (
  (apart b'x' b'.' [] _ refl, (apart b'x' b'b' [] [] refl, tt)),
  ((apart b'.' b'b' _ [] refl, tt), (tt, tt)),
)

same_names : {xs ys : List Bytes} → ◌≡◌ {A = Option (List Bytes)} (some xs) (some ys) → xs ≡ ys
same_names h = cc

tree-IsListing : IsListing tree
tree-IsListing path names h = elim (Bool-cases (components_eq path [])) [
  | inl e ↦
      subst IsDistinct (same_names {xs = root_names} (sym (rw e refl) ∙ h)) root_names-IsDistinct
  | inr e ↦ elim (Bool-cases (components_eq path (name_a ∷ []))) [
    | inl k ↦
        subst IsDistinct (same_names {xs = a_names} (sym (rw (e, k) refl) ∙ h)) a_names-IsDistinct
    | inr k ↦ absurd (no_names (sym (rw (e, k) refl) ∙ h))
  ]
]
  where
    no_names : none ≢ some names
    no_names k = cc

empty_tree-IsListing : IsListing empty_tree
empty_tree-IsListing path names h = subst IsDistinct (same_names h) tt

scan_root-IsOutput_example :
    (rs : List IndexRecord) × (out : Output) × (scan_root by_name tree default_limits attentive 257
        (name_b ∷ [])
      ≡ some out)
    × IsOutput attentive rs out
    × IsSorted rs
    × All (IsScanned tree default_limits) rs
scan_root-IsOutput_example =
    scan_root-IsOutput by_name tree default_limits attentive 257 (name_b ∷ []) tree-IsListing
      (omega arith)

scans-effects_example :
    (i : IsIndex tree default_limits (feed found_all)) × (k : IsIndex empty_tree default_limits
      (feed []))
    × (os : List Operation) × (plan (λ n. true) 6 (feed found_all) (feed [])
        ≡ some (record { sent = os; result = ok tt }))
    × (effects os
          (record { components = name_a ∷ [] })
          (entry k.records (record { components = name_a ∷ [] }))
        ≡ some (entry i.records (record { components = name_a ∷ [] })))
scans-effects_example =
    scans-effects by_name tree empty_tree default_limits default_limits attentive attentive 257 257
      (name_b ∷ []) (name_b ∷ []) (feed found_all) (feed []) (λ n. true) tree-IsListing
      empty_tree-IsListing (omega arith) (omega arith) scanned scanned_empty (λ n. refl)
      (record { components = name_a ∷ [] })

abbrev two_sets : IgnorePolicy (List Bytes)
two_sets =
    record { scope = none; matcher = name_b ∷ [] }
    ∷ record { scope = some (record { components = name_a ∷ [] }); matcher = (b'!' ∷ name_b) ∷ [] }
    ∷ []

abbrev b_in_a : RelativePath
b_in_a = record { components = name_a ∷ name_b ∷ [] }

decision-last_match_example : decision by_name two_sets b_in_a regular_file ≡ (
    if quic_sync.Ignore.is_protected b_in_a
    then protected
    else verdict (last_match (matches by_name two_sets b_in_a regular_file)))
decision-last_match_example = decision-last_match by_name two_sets b_in_a regular_file

allowed_again : decision by_name two_sets b_in_a regular_file ≡ managed
unfolding decision quic_sync.Ignore.is_protected quic_sync.Ignore.any_protected
    quic_sync.Paths.is_protected_component bytes_eq quic_sync.Ignore.is_ignored
    quic_sync.Ignore.scoped_path quic_sync.Ignore.strip_prefix
allowed_again = refl

abbrev excluded_b : IgnorePolicy (List Bytes)
excluded_b = record { scope = none; matcher = name_b ∷ [] } ∷ []

excluded : with_configured_exclusions by_name (name_b ∷ []) ≡ ok excluded_b
unfolding scan_root quic_sync.Scan.scan_entry quic_sync.Ignore.any_protected
    quic_sync.Ignore.checkpoint decision quic_sync.Ignore.is_ignored quic_sync.Ignore.is_protected
    quic_sync.Ignore.restore quic_sync.Ignore.scoped_path quic_sync.Ignore.strip_prefix
    quic_sync.Ignore.without_return quic_sync.Metadata.digest_file
    quic_sync.Metadata.digest_symlink_target quic_sync.Metadata.kind_of
    quic_sync.Metadata.metadata_for quic_sync.Metadata.metadata_from quic_sync.Metadata.mtime_ns
    quic_sync.Metadata.read_all quic_sync.Metadata.read_symlink_target quic_sync.Metadata.target_for
    quic_sync.Paths.append_component quic_sync.Paths.is_protected_component
    quic_sync.Paths.total_bytes quic_sync.Scan.digest_for quic_sync.Scan.send_record
    quic_sync.Types.component_error quic_sync.Types.components_error quic_sync.Types.contains
    quic_sync.Types.new_path quic_sync.Ignore.with_configured_exclusions
    quic_sync.Ignore.add_ignore_contents quic_sync.Ignore.build_matcher
    quic_sync.Messages.Utf8.is_utf8 quic_sync.Ignore.join_lines quic_sync.Ignore.add_lines
    quic_sync.Ignore.lines_from quic_sync.Scan.scan_directory components_eq
    quic_sync.Scan.read_ignore_file quic_sync.Config.Load.holds_bytes quic_sync.Scan.sort_names
    quic_sync.Scan.insert_name quic_sync.Base.Ordered.lexicographic quic_sync.Scan.scan_entries
excluded = refl

abbrev metadata_of : EntryKind → EntryMetadata
metadata_of kind = record { kind = kind; mode = 420; mtime_ns = pos 7000000005; size = 2 }

abbrev a_path : RelativePath
a_path = record { components = name_a ∷ [] }

-- The directory a is managed, and in it b, which its own rules allow again.
a_managed :
    IsManagedEntry by_name tree default_limits none excluded_b excluded_b a_path
      (metadata_of directory)
unfolding scan_root quic_sync.Scan.scan_entry quic_sync.Ignore.any_protected
    quic_sync.Ignore.checkpoint decision quic_sync.Ignore.is_ignored quic_sync.Ignore.is_protected
    quic_sync.Ignore.restore quic_sync.Ignore.scoped_path quic_sync.Ignore.strip_prefix
    quic_sync.Ignore.without_return quic_sync.Metadata.digest_file
    quic_sync.Metadata.digest_symlink_target quic_sync.Metadata.kind_of
    quic_sync.Metadata.metadata_for quic_sync.Metadata.metadata_from quic_sync.Metadata.mtime_ns
    quic_sync.Metadata.read_all quic_sync.Metadata.read_symlink_target quic_sync.Metadata.target_for
    quic_sync.Paths.append_component quic_sync.Paths.is_protected_component
    quic_sync.Paths.total_bytes quic_sync.Scan.digest_for quic_sync.Scan.send_record
    quic_sync.Types.component_error quic_sync.Types.components_error quic_sync.Types.contains
    quic_sync.Types.new_path quic_sync.Ignore.with_configured_exclusions
    quic_sync.Ignore.add_ignore_contents quic_sync.Ignore.build_matcher
    quic_sync.Messages.Utf8.is_utf8 quic_sync.Ignore.join_lines quic_sync.Ignore.add_lines
    quic_sync.Ignore.lines_from quic_sync.Scan.scan_directory components_eq
    quic_sync.Scan.read_ignore_file quic_sync.Config.Load.holds_bytes quic_sync.Scan.sort_names
    quic_sync.Scan.insert_name quic_sync.Base.Ordered.lexicographic quic_sync.Scan.scan_entries
a_managed = record {
  names = root_names;
  listed = refl;
  ruled = refl;
  name = name_a;
  among = inr (inr (inl refl));
  appended = refl;
  target = none;
  inspected = refl;
  decided = refl;
}

b_managed :
    IsManagedEntry by_name tree default_limits
      (some a_path)
      excluded_b
      two_sets
      b_in_a
      (metadata_of regular_file)
unfolding scan_root quic_sync.Scan.scan_entry quic_sync.Ignore.any_protected
    quic_sync.Ignore.checkpoint decision quic_sync.Ignore.is_ignored quic_sync.Ignore.is_protected
    quic_sync.Ignore.restore quic_sync.Ignore.scoped_path quic_sync.Ignore.strip_prefix
    quic_sync.Ignore.without_return quic_sync.Metadata.digest_file
    quic_sync.Metadata.digest_symlink_target quic_sync.Metadata.kind_of
    quic_sync.Metadata.metadata_for quic_sync.Metadata.metadata_from quic_sync.Metadata.mtime_ns
    quic_sync.Metadata.read_all quic_sync.Metadata.read_symlink_target quic_sync.Metadata.target_for
    quic_sync.Paths.append_component quic_sync.Paths.is_protected_component
    quic_sync.Paths.total_bytes quic_sync.Scan.digest_for quic_sync.Scan.send_record
    quic_sync.Types.component_error quic_sync.Types.components_error quic_sync.Types.contains
    quic_sync.Types.new_path quic_sync.Ignore.with_configured_exclusions
    quic_sync.Ignore.add_ignore_contents quic_sync.Ignore.build_matcher
    quic_sync.Messages.Utf8.is_utf8 quic_sync.Ignore.join_lines quic_sync.Ignore.add_lines
    quic_sync.Ignore.lines_from quic_sync.Scan.scan_directory components_eq
    quic_sync.Scan.read_ignore_file quic_sync.Config.Load.holds_bytes quic_sync.Scan.sort_names
    quic_sync.Scan.insert_name quic_sync.Base.Ordered.lexicographic quic_sync.Scan.scan_entries
b_managed = record {
  names = a_names;
  listed = refl;
  ruled = refl;
  name = name_b;
  among = inr (inr (inl refl));
  appended = refl;
  target = none;
  inspected = refl;
  decided = refl;
}

scan_root-IsRecorded_example :
    (rs : List IndexRecord) × (feed found_all ≡ feed rs) × IsRecorded b_in_a rs
scan_root-IsRecorded_example =
    scan_root-IsRecorded by_name tree default_limits attentive tree-IsListing 257 (name_b ∷ [])
      excluded_b (feed found_all) b_in_a excluded scanned (below a_managed refl (here b_managed))
