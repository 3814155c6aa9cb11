-- ===== src/Scan/Synced.antt =====
-- The scans of two roots and the plan of crates/quicsync-core/src/sync/planner.rs for them.
use quic_sync.Base.{
  ℕ, suc, ◌+◌, ◌<◌, ◌≡◌, ◌≢◌, ◌∙◌, sym, refl, ap, inl, inr, Bool, true, Option, some, List, [], ◌∷◌,
  length, All, ok, err, arith,
}
use quic_sync.Base.Words.{Bytes}
use quic_sync.Types.{RelativePath, IndexRecord}
use quic_sync.Types.Sorted.{IsSorted}
use quic_sync.Error.{Fallible, PeerError}
use quic_sync.Messages.{IndexMessage, Operation}
use quic_sync.Config.{Limits}
use quic_sync.Metadata.{FileSystem}
use quic_sync.Ignore.{Gitignore}
use quic_sync.Planner.{plan}
use quic_sync.Planner.Merge.{feed}
use quic_sync.Planner.Effect.{entry, effects}
use quic_sync.Planner.Outcome.{plan-effects}
use quic_sync.Scan.{Receiver, scan_root}
use quic_sync.Scan.Order.{IsScanned}
use quic_sync.Scan.Growth.{IsListing}
use quic_sync.Scan.Root.{Output, scan_root-IsOutput}

-- An index of a root, and the channel that holds it.
pub record IsIndex (fs : FileSystem) (limits : Limits) (channel : List (Fallible IndexMessage))
    : Type 0 where
  pub records : List IndexRecord
  pub fed : channel ≡ feed records
  pub sorted : IsSorted records
  pub scanned : All (IsScanned fs limits) records

length-feed : (rs : List IndexRecord) → length (feed rs) ≡ suc (length rs)
length-feed [] = refl
length-feed (r ∷ rs) = ap suc (length-feed rs)

ok_only :
    {out : Output} {channel : List (Fallible IndexMessage)}
    → ◌≡◌ {A = Option Output} (some (channel, ok tt)) (some out)
    → out ≡ (channel, ok tt)
ok_only h = cc

ok-ne-err : {r : Fallible (Unit {0})} (e : PeerError) → r ≡ ok tt → r ≢ err e
ok-ne-err e h k = cc

planned :
    (open_after : ℕ → Bool) (always : (n : ℕ) → open_after n ≡ true) (ls ks : List IndexRecord)
    (source destination : List (Fallible IndexMessage)) (p : RelativePath)
    → source ≡ feed ls
    → destination ≡ feed ks
    → IsSorted ls
    → IsSorted ks
    → (os : List Operation) × (plan open_after
          (length source + length destination)
          source
          destination
        ≡ some (record { sent = os; result = ok tt }))
      × (effects os p (entry ks p) ≡ some (entry ls p))
planned open_after always ls ks source destination p e f hl hk =
    rw (e, f)
      (plan-effects open_after always ls ks (length (feed ls) + length (feed ks)) p
        (omega (arith, length-feed ls, length-feed ks)) hl hk)

module _ {Builder Matcher : Type 0} (crate : Gitignore Builder Matcher) where
  -- A scan without an error is of an index.
  scan_root-IsIndex :
      (fs : FileSystem) (limits : Limits) (receiver : Receiver) (levels : ℕ)
      (exclusions : List Bytes) (channel : List (Fallible IndexMessage))
      → IsListing fs
      → limits.max_components < levels
      → scan_root crate fs limits receiver levels exclusions ≡ some (channel, ok tt)
      → IsIndex fs limits channel
  scan_root-IsIndex fs limits receiver levels exclusions channel listing deep h =
      let (rs, out, done, kind, sorted, scanned) =
        scan_root-IsOutput crate fs limits receiver levels exclusions listing deep in
      let same = ok_only (sym h ∙ done) in
      elim kind [
        | inl e ↦ record {
          records = rs;
          fed = ap (λ (o : Output). o.0) (sym same ∙ e);
          sorted = sorted;
          scanned = scanned;
        }
        | inr (x, e) ↦
            absurd (ok-ne-err x (ap (λ (o : Output). o.1) same) (ap (λ (o : Output). o.1) e))
      ]

  -- Where the scans of two roots end without an error and the consumer of the operations stays,
  -- `plan` on their channels ends without an error after at most as many rounds as the channels
  -- hold messages. The channels hold the records of indexes of the two roots, and the operations
  -- take what the second index has at any path to what the first has there.
  pub scans-effects :
      (fs fs' : FileSystem) (limits limits' : Limits) (receiver receiver' : Receiver)
      (levels levels' : ℕ) (exclusions exclusions' : List Bytes)
      (source destination : List (Fallible IndexMessage)) (open_after : ℕ → Bool)
      → IsListing fs
      → IsListing fs'
      → limits.max_components < levels
      → limits'.max_components < levels'
      → scan_root crate fs limits receiver levels exclusions ≡ some (source, ok tt)
      → scan_root crate fs' limits' receiver' levels' exclusions' ≡ some (destination, ok tt)
      → ((n : ℕ) → open_after n ≡ true)
      → (p : RelativePath)
      → (i : IsIndex fs limits source) × (k : IsIndex fs' limits' destination) × (os : List
          Operation)
        × (plan open_after (length source + length destination) source destination
            ≡ some (record { sent = os; result = ok tt }))
        × (effects os p (entry k.records p) ≡ some (entry i.records p))
  scans-effects fs fs' limits limits' receiver receiver' levels levels' exclusions exclusions'
        source destination open_after one one' deep deep' h h' always p =
      let i = scan_root-IsIndex fs limits receiver levels exclusions source one deep h in
      let k =
        scan_root-IsIndex fs' limits' receiver' levels' exclusions' destination one' deep' h' in
      let (os, done, same) =
        planned open_after always i.records k.records source destination p i.fed k.fed i.sorted
          k.sorted in
      (i, k, os, done, same)
