-- ===== src/Tests/Trees.antt =====
-- The planner of crates/quicsync-core/src/sync/planner.rs and the lexical gate of
-- crates/quicsync-core/src/filesystem/paths.rs on concrete values.
use quic_sync.Base.{
  ℕ, ◌+◌, ◌≤◌, ◌≡◌, ◌<◌, refl, Bool, true, false, some, none, Option, List, [], ◌∷◌, length, ok,
  err, arith,
}
use quic_sync.Base.Words.{Bytes, pos}
use quic_sync.Types.{RelativePath, IndexRecord, EntryMetadata, EntryKind, directory, regular_file}
use quic_sync.Messages.{Operation, index_record, delete, upsert_directory, upsert_file}
use quic_sync.Error.{failed_with, path_confinement_violation}
use quic_sync.Planner.{Planned, plan, failure}
use quic_sync.Planner.Merge.{feed, merge}
use quic_sync.Planner.Effect.{entry, effects}
use quic_sync.Planner.Outcome.{plan-effects}
use quic_sync.Types.Sorted.{IsSorted}
use quic_sync.Planner.Identifiers.{IsNumbered, plan-IsNumbered, plan_same}
use quic_sync.Config.{default_limits}
use quic_sync.Paths.{decode_relative_path, append_component}
use quic_sync.Paths.Appended.{IsAppended, append_component-IsAppended}
use quic_sync.Paths.Decoded.{IsDecoded, decode_relative_path-IsDecoded}

abbrev path : ℕ → RelativePath
path b = record { components = (b ∷ []) ∷ [] }

abbrev item : ℕ → EntryKind → IndexRecord
item b kind = record {
  path = path b;
  metadata = record { kind = kind; mode = 420; mtime_ns = pos 0; size = 0 };
  digest = none;
  symlink_target = none;
}

-- The file b becomes a directory, and c goes away.
abbrev wanted : List IndexRecord
wanted = item b'a' regular_file ∷ item b'b' directory ∷ []

abbrev present : List IndexRecord
present = item b'b' regular_file ∷ item b'c' directory ∷ []

abbrev always_open : ℕ → Bool
always_open n = true

wanted-IsSorted : IsSorted wanted
unfolding quic_sync.Types.Order.compare_path quic_sync.Base.Ordered.lexicographic
wanted-IsSorted = ((refl, tt), (tt, tt))

present-IsSorted : IsSorted present
unfolding quic_sync.Types.Order.compare_path quic_sync.Base.Ordered.lexicographic
present-IsSorted = ((refl, tt), (tt, tt))

merged :
    merge wanted present 0
    ≡ upsert_file false 0 (item b'a' regular_file)
      ∷ delete 1 (path b'b') regular_file
      ∷ upsert_directory 2 (item b'b' directory)
      ∷ delete 3 (path b'c') directory
      ∷ []
unfolding merge quic_sync.Types.Order.compare_path quic_sync.Base.Ordered.lexicographic
    quic_sync.Planner.id_after quic_sync.Planner.round_operations
    quic_sync.Planner.Equality.option_eq quic_sync.Planner.deletion quic_sync.Planner.upsertion
    quic_sync.Planner.is_update native.Mathlib.Decide.ℕ_discrete quic_sync.Planner.Equality.kind_eq
merged = refl

-- A producer that stops without `End`.
cut_off :
    plan always_open 9 (ok (index_record (item b'a' directory)) ∷ []) (feed [])
    ≡ some (record { sent = upsert_directory 0 (item b'a' directory) ∷ []; result = err failure })
unfolding plan quic_sync.Planner.read quic_sync.Planner.plan_loop quic_sync.Planner.consumed
    quic_sync.Planner.id_after quic_sync.Planner.send_all quic_sync.Planner.round_operations
    quic_sync.Planner.Equality.option_eq quic_sync.Planner.deletion quic_sync.Planner.upsertion
    quic_sync.Planner.advance
cut_off = refl

plan-effects_example :
    (os : List Operation) × (plan always_open 5 (feed wanted) (feed present)
      ≡ some (record { sent = os; result = ok tt }))
    × (effects os (path b'b') (entry present (path b'b')) ≡ some (entry wanted (path b'b')))
plan-effects_example =
    plan-effects always_open (λ n. refl) wanted present 5 (path b'b') (omega arith) wanted-IsSorted
      present-IsSorted

plan-IsNumbered_example :
    (os : List Operation) × (plan always_open 5 (feed wanted) (feed present)
      ≡ some (record { sent = os; result = ok tt }))
    × (length os ≤ length wanted + length present)
    × IsNumbered 0 os
plan-IsNumbered_example = plan-IsNumbered always_open (λ n. refl) wanted present 5 (omega arith)

plan_same_example :
    plan always_open 5 (feed wanted) (feed wanted) ≡ some (record { sent = []; result = ok tt })
plan_same_example = plan_same always_open (λ n. refl) wanted 5 (omega arith)

abbrev two_names : Bytes
two_names = b'a' ∷ b'/' ∷ b'b' ∷ []

decoded :
    decode_relative_path two_names default_limits
    ≡ ok (record { components = (b'a' ∷ []) ∷ (b'b' ∷ []) ∷ [] })
unfolding decode_relative_path quic_sync.Paths.split quic_sync.Types.new_path
    quic_sync.Paths.reject_protected quic_sync.Paths.is_protected_component
decoded = refl

protected :
    decode_relative_path (b'a' ∷ b'/' ∷ b'.' ∷ b'g' ∷ b'i' ∷ b't' ∷ []) default_limits
    ≡ err (failed_with path_confinement_violation)
unfolding decode_relative_path quic_sync.Paths.split quic_sync.Types.new_path
    quic_sync.Paths.reject_protected quic_sync.Paths.is_protected_component
protected = refl

decode_relative_path-IsDecoded_example :
    IsDecoded two_names default_limits (record { components = (b'a' ∷ []) ∷ (b'b' ∷ []) ∷ [] })
decode_relative_path-IsDecoded_example =
    decode_relative_path-IsDecoded two_names default_limits
      (record { components = (b'a' ∷ []) ∷ (b'b' ∷ []) ∷ [] }) decoded

appended :
    append_component (some (path b'a')) (b'b' ∷ []) default_limits
    ≡ ok (record { components = (b'a' ∷ []) ∷ (b'b' ∷ []) ∷ [] })
unfolding append_component quic_sync.Paths.total_bytes quic_sync.Types.new_path
appended = refl

append_component-IsAppended_example :
    IsAppended
      (some (path b'a'))
      (b'b' ∷ [])
      default_limits
      (record { components = (b'a' ∷ []) ∷ (b'b' ∷ []) ∷ [] })
append_component-IsAppended_example =
    append_component-IsAppended (some (path b'a')) (b'b' ∷ []) default_limits
      (record { components = (b'a' ∷ []) ∷ (b'b' ∷ []) ∷ [] }) appended
