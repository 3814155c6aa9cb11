-- ===== src/Tests/Commits.antt =====
-- The order of changes in crates/quicsync-core/src/sync/commit.rs on small plans.
use mathlib.Core.List.{Permᴰ}
use quic_sync.Base.{
  All, ap, ℕ, ◌≡◌, ◌<◌, ◌+◌, refl, Bool, true, false, some, none, Option, List, [], ◌∷◌, ◌++◌, ok,
  err, arith, ◌==◌, if◌then◌else◌,
}
use quic_sync.Base.Words.{Bytes, pos, negsuc}
use quic_sync.Types.{
  RelativePath, IndexRecord, EntryMetadata, EntryKind, directory, regular_file, symlink,
}
use quic_sync.Messages.{Operation, upsert_directory, upsert_file, upsert_symlink, delete}
use quic_sync.System.{Io}
use quic_sync.Metadata.{mtime_ns, nanos_per_second}
use quic_sync.Commit.{
  Installer, Action, remove, metadata, file, link, Changes, commit, stage, refused,
}
use quic_sync.Commit.Schedule.{Step, make, take_away, put, put_link, closing, schedule, replay}
use quic_sync.Commit.Settled.{IsSettled, commit-IsSettled}
use quic_sync.Commit.Done.{IsDone}
use quic_sync.Commit.Whole.{commit-AllDone}
use quic_sync.Error.{Fallible}
use quic_sync.Commit.Staged.{stage_all, stage_all-perm}
use quic_sync.Commit.Install.{times_of}
use quic_sync.Commit.Times.{times_of-mtime_ns}

abbrev path : List Bytes → RelativePath
path components = record { components = components }

abbrev name_a : Bytes
name_a = b'a' ∷ []

abbrev name_b : Bytes
name_b = b'b' ∷ []

abbrev entry_of : EntryKind → EntryMetadata
entry_of kind = record { kind = kind; mode = 420; mtime_ns = pos 0; size = 0 }

abbrev item : List Bytes → EntryKind → IndexRecord
item components kind = record {
  path = path components;
  metadata = entry_of kind;
  digest = none;
  symlink_target = none;
}

-- The directory a with a file in it becomes a file, and the directory b is made with one in it.
-- Files are named by numbers.
abbrev changes : Changes ℕ
changes =
    (delete 0 (path (name_a ∷ [])) directory, none)
    ∷ (upsert_file false 1 (item (name_a ∷ []) regular_file), some 7)
    ∷ (delete 2 (path (name_a ∷ name_b ∷ [])) regular_file, none)
    ∷ (upsert_directory 3 (item (name_b ∷ []) directory), none)
    ∷ (upsert_file false 4 (item (name_b ∷ name_a ∷ []) regular_file), some 8)
    ∷ []

abbrev steps : List (Step ℕ)
steps =
    take_away (path (name_a ∷ name_b ∷ []))
    ∷ closing (path (name_a ∷ [])) remove
    ∷ closing (path (name_a ∷ [])) (file 7 (entry_of regular_file))
    ∷ make (path (name_b ∷ [])) (entry_of directory)
    ∷ put 8 (path (name_b ∷ name_a ∷ [])) (entry_of regular_file)
    ∷ closing (path (name_b ∷ [])) (metadata (entry_of directory))
    ∷ []

scheduled : schedule none [] changes ≡ (steps, ok tt)
unfolding schedule quic_sync.Commit.Schedule.left quic_sync.Types.Order.compare_path
    quic_sync.Commit.Schedule.made quic_sync.Base.Ordered.lexicographic
    quic_sync.Messages.operation_path quic_sync.Commit.Schedule.deferred quic_sync.Commit.defer
    quic_sync.Commit.Schedule.kept quic_sync.Commit.starts_with quic_sync.Types.bytes_eq
    quic_sync.Commit.replacing_directory quic_sync.Commit.components_eq quic_sync.Commit.any_remove
    quic_sync.Commit.Schedule.close quic_sync.Commit.Schedule.close_all
scheduled = refl

abbrev backwards : Changes ℕ
backwards =
    (delete 0 (path (name_b ∷ [])) regular_file, none)
    ∷ (delete 1 (path (name_a ∷ [])) regular_file, none)
    ∷ []

out_of_order_refused : (schedule none [] backwards).1 ≡ err refused
unfolding schedule quic_sync.Types.Order.compare_path quic_sync.Base.Ordered.lexicographic
    quic_sync.Messages.operation_path
out_of_order_refused = refl

-- What is done, in a world that counts the calls, and fails at the fourth.
abbrev count : Io ℕ (Unit {0})
count n = if n == 3 then (4, err refused) else (n + 1, ok tt)

abbrev counting : Installer ℕ ℕ
counting = record {
  make_directory = λ p m. count;
  unlink = λ p dir. count;
  install = λ f p m. count;
  make_symlink = λ r. count;
  set_metadata = λ p m. count;
}

counted : commit counting changes 0 ≡ (4, err refused)
unfolding commit quic_sync.Commit.apply_all quic_sync.Commit.leave quic_sync.Commit.apply_operation
    quic_sync.Types.Order.compare_path quic_sync.Base.Ordered.lexicographic
    quic_sync.Messages.operation_path quic_sync.Commit.defer quic_sync.Commit.starts_with
    quic_sync.Types.bytes_eq quic_sync.Commit.replacing_directory quic_sync.Commit.components_eq
    quic_sync.Commit.any_remove quic_sync.Commit.perform_all
counted = refl

commit-IsSettled_example :
    (commit counting changes 0
      ≡ replay counting (schedule none [] changes).0 (schedule none [] changes).1 0)
    × IsSettled (schedule none [] changes).0
commit-IsSettled_example = commit-IsSettled counting changes 0

commit-AllDone_example :
    (commit counting changes 0 ≡ replay counting (schedule none [] changes).0 (ok tt) 0)
    × All (λ c. IsDone c.0 c.1 (schedule none [] changes).0) changes
commit-AllDone_example =
    commit-AllDone counting changes 0
      (ap (λ (r : List (Step ℕ) × Fallible (Unit {0})). r.1) scheduled)

abbrev early : List (Operation × Option ℕ)
early =
    (delete 1 (path (name_b ∷ [])) regular_file, none)
    ∷ (delete 0 (path (name_a ∷ [])) directory, none)
    ∷ []

abbrev late : List (Operation × Option ℕ)
late =
    (delete 0 (path (name_a ∷ [])) directory, none)
    ∷ (delete 1 (path (name_b ∷ [])) regular_file, none)
    ∷ []

early_staged : stage_all [] early ≡ ok late
unfolding stage_all stage quic_sync.Commit.contains_key quic_sync.Commit.insert_change
    quic_sync.Messages.operation_id
early_staged = refl

stage_all-perm_example : stage_all [] late ≡ ok late
stage_all-perm_example = stage_all-perm [] late early late (Permᴰ.swap refl refl) early_staged

times_of-mtime_ns_example :
    (seconds : quic_sync.Base.Words.ℤ) × (nanos : ℕ) × (times_of (negsuc 0) ≡ ok (seconds, nanos))
    × (nanos < nanos_per_second)
    × (mtime_ns seconds nanos ≡ negsuc 0)
times_of-mtime_ns_example = times_of-mtime_ns (negsuc 0) (omega arith)
