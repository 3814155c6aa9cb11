-- ===== src/Planner.antt =====
-- crates/quicsync-core/src/sync/planner.rs: the merge of two ordered indexes into operations.
-- A channel is the list of what is received from it; it is closed behind the last item.
pub mod Equality
pub mod Merge
pub mod Effect
pub mod Outcome
pub mod Count
pub mod Identifiers
use quic_sync.Base.{
  ℕ, zero, suc, ◌+◌, ◌%◌, ◌^◌, Bool, true, false, not, Option, none, some, List, [], ◌∷◌, ◌++◌,
  length, Ordering, if◌then◌else◌, Result, ok, err,
}
use quic_sync.Types.{
  OperationId, RelativePath, EntryKind, directory, regular_file, symlink, IndexRecord, planning,
}
use quic_sync.Types.Order.{path_le}
use quic_sync.Messages.{
  Operation, upsert_directory, upsert_file, upsert_symlink, delete, IndexMessage, index_record,
  index_end,
}
use quic_sync.Error.{PeerError, Fallible, operation_failed}
use quic_sync.Planner.Equality.{kind_eq, option_eq}

abbrev pub failure : PeerError
failure = record { code = operation_failed; phase = some planning }

abbrev pub Channel : Type 0
Channel = List (Fallible IndexMessage)

-- The record read, or none at `End`, and what the channel holds after it.
unfoldable pub read : Channel → Fallible (Option IndexRecord × Channel)
read [] = err failure
read (err e ∷ rest) = err e
read (ok (index_record r) ∷ rest) = ok (some r, rest)
read (ok index_end ∷ rest) = ok (none, rest)

-- `Operation::Delete` for an entry of the destination whose kind changes or that goes away.
unfoldable pub deletion : Option IndexRecord → Option IndexRecord → ℕ → List Operation
deletion a none id = []
deletion none (some b) id = delete id b.path b.metadata.kind ∷ []
deletion (some a) (some b) id =
    if kind_eq a.metadata.kind b.metadata.kind then [] else delete id b.path b.metadata.kind ∷ []

abbrev pub upsert_of : EntryKind → Bool → OperationId → IndexRecord → Operation
upsert_of directory update id r = upsert_directory id r
upsert_of regular_file update id r = upsert_file update id r
upsert_of symlink update id r = upsert_symlink id r

-- `update`: the destination has a regular file there.
unfoldable pub is_update : Option IndexRecord → Bool
is_update none = false
is_update (some b) = kind_eq b.metadata.kind regular_file

unfoldable pub upsertion : Option IndexRecord → Bool → ℕ → List Operation
upsertion none update id = []
upsertion (some a) update id = upsert_of a.metadata.kind update id a ∷ []

-- The calls of `id` for so many operations: the value of `next` after them. It is a `u64`, and its
-- `+=` wraps, as it does in a build without overflow checks.
unfoldable pub id_after : ℕ → List Operation → ℕ
id_after next [] = next
id_after next (o ∷ os) = id_after ((next + 1) % 2 ^ 64) os

-- What one round sends, with identifiers from `id` on.
unfoldable pub round_operations : Option IndexRecord → Option IndexRecord → ℕ → List Operation
round_operations a b id =
    if option_eq a b
    then []
    else let deleted = deletion a b id in deleted ++ upsertion a (is_update b) (id_after id deleted)

-- Which inputs a round consumes; none where both have ended.
unfoldable pub consumed : Option IndexRecord → Option IndexRecord → Option (Bool × Bool)
consumed (some a) (some b) = some (path_le a.path b.path, path_le b.path a.path)
consumed (some a) none = some (true, false)
consumed none (some b) = some (false, true)
consumed none none = none

-- `if consume { left.take() } else { None }`, what stays, and the next read.
abbrev pub taken : Bool → Option IndexRecord → Option IndexRecord
taken consume left = if consume then left else none

unfoldable pub advance :
    Bool → Option IndexRecord → Channel → Fallible (Option IndexRecord × Channel)
advance true left input = read input
advance false left input = ok (left, input)

-- The operations sent, and how `plan` ended.
pub record Planned : Type 0 where
  pub sent : List Operation
  pub result : Fallible (Unit {0})

-- The consumer receives as long as `open` holds of the number of operations sent.
module _ (open_after : ℕ → Bool) where
  -- The operations sent so far and the list; false where a `send` fails.
  unfoldable pub send_all : List Operation → List Operation → List Operation × Bool
  send_all sent [] = (sent, true)
  send_all sent (o ∷ os) =
      let rest = send_all (sent ++ (o ∷ [])) os in
      if open_after (length sent) then rest else (sent, false)

  -- The loop of `plan`, with the rounds left; none where they run out.
  unfoldable pub plan_loop :
      ℕ
      → Option IndexRecord
      → Option IndexRecord
      → Channel
      → Channel
      → ℕ
      → List Operation
      → Option Planned
  plan_loop zero left right source destination id sent = none
  plan_loop (suc fuel) left right source destination id sent = elim (consumed left right) [
    | none ↦ some (record { sent = sent; result = ok tt })
    | some (from_source, from_destination) ↦
        let operations =
          round_operations (taken from_source left) (taken from_destination right) id in
        let (sent', sending) = send_all sent operations in
        if sending
        then elim (advance from_source left source) [
          | err e ↦ some (record { sent = sent'; result = err e })
          | ok (left', source') ↦ elim (advance from_destination right destination) [
            | err e ↦ some (record { sent = sent'; result = err e })
            | ok (right', destination') ↦
                plan_loop fuel left' right' source' destination' (id_after id operations) sent'
          ]
        ]
        else some (record { sent = sent'; result = err failure })
  ]

  unfoldable pub plan : ℕ → Channel → Channel → Option Planned
  plan fuel source destination = elim (read source) [
    | err e ↦ some (record { sent = []; result = err e })
    | ok (left, source') ↦ elim (read destination) [
      | err e ↦ some (record { sent = []; result = err e })
      | ok (right, destination') ↦ plan_loop fuel left right source' destination' 0 []
    ]
  ]
