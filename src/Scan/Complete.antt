-- ===== src/Scan/Complete.antt =====
-- The records that the walk of crates/quicsync-core/src/filesystem/scan.rs sends for the entries
-- that are managed.
use mathlib.Core.Path.{subst}
use quic_sync.Base.{
  ℕ, zero, suc, ◌≡◌, ◌∙◌, sym, refl, ap, inl, inr, Option, none, some, List, [], ◌∷◌, ◌++◌, ok, err,
  Result-cases, Option-cases,
}
use quic_sync.Base.Words.{Bytes}
use quic_sync.Types.{RelativePath, EntryMetadata, IndexRecord}
use quic_sync.Error.{PeerError, Fallible}
use quic_sync.Config.{Limits}
use quic_sync.Metadata.{FileSystem}
use quic_sync.Messages.{IndexMessage}
use quic_sync.Planner.Merge.{feed}
use quic_sync.Ignore.{with_configured_exclusions, Gitignore, IgnorePolicy, checkpoint}
use quic_sync.Scan.{
  Scanned, Receiver, Descend, enter, scan_root, finish_scan, scan_directory, sort_names,
}
use quic_sync.Scan.Names.{sort_names-Exists}
use quic_sync.Scan.Order.{IsDescend}
use quic_sync.Scan.Growth.{IsListing, scan_directory-Grows}
use quic_sync.Scan.Root.{Output, finish_scan-IsOutput}
use quic_sync.Scan.Ended.{
  IsRecorded, Ended, none_ended, send_record-Ended, scan_entry-Ended, scan_entries-among,
  entered-IsRecorded, restored-Ended,
}
use quic_sync.Scan.Managed.{IsManagedEntry, IsManaged, here, below}

module _ {Builder Matcher : Type 0} (crate : Gitignore Builder Matcher) (fs : FileSystem)
    (limits : Limits) (receiver : Receiver) where
  finish_scan-err :
      (s : Scanned Matcher) (e : PeerError)
      → s.result ≡ err e
      → (finish_scan crate fs limits receiver s).1 ≡ err e
  finish_scan-err s e h = rw h refl

  module _ (listing : IsListing fs) where
    abbrev walk : ℕ → Descend crate fs limits receiver
    walk levels path = scan_directory crate fs limits receiver levels (some path)

    walk_grows : (levels : ℕ) → IsDescend crate fs limits receiver (walk levels)
    walk_grows levels path =
        scan_directory-Grows crate fs limits receiver listing levels (some path)

    -- The walk sends the record of a managed entry, and enters the directory that it is.
    scan_directory-reaches :
        (levels : ℕ) (scope : Option RelativePath) (policy rules : IgnorePolicy Matcher)
        (sent : List IndexRecord) (s : Scanned Matcher) (path : RelativePath)
        (metadata : EntryMetadata)
        → Ended crate fs limits receiver
            (scan_directory crate fs limits receiver (suc levels) scope policy sent)
            s
        → IsManagedEntry crate fs limits scope policy rules path metadata
        → (before : List IndexRecord) × (found : IndexRecord) × (t : Scanned Matcher) × (found.path
            ≡ path)
          × Ended crate fs limits receiver
              (enter crate fs limits receiver
                (walk levels)
                metadata.kind
                path
                rules
                (before ++ (found ∷ [])))
              t
          × ((q : RelativePath) → IsRecorded q t.sent → IsRecorded q s.sent)
    unfolding scan_directory
    scan_directory-reaches levels scope policy rules sent s path metadata h i =
        let (t, entries, same) =
          restored-Ended crate fs limits receiver (checkpoint policy) _ s
            (rw (scan_directory, i.listed, i.ruled) at h) in
        let (before, u, entry, later) =
          scan_entries-among crate fs limits receiver (walk levels) scope rules (walk_grows levels)
            sent (sort_names i.names) i.name t (sort_names-Exists _ i.names i.among) entries in
        let record_sent =
          scan_entry-Ended crate fs limits receiver (walk levels) scope rules before i.name path
            metadata i.target u i.appended i.inspected i.decided entry in
        let (found, is_path, entered) =
          send_record-Ended crate fs limits receiver (walk levels) path rules before metadata
            i.target u record_sent in
        (before, found, u, is_path, entered, λ q r. subst (IsRecorded q) same (later q r))

    pub scan_directory-IsRecorded :
        (levels : ℕ) (scope : Option RelativePath) (policy : IgnorePolicy Matcher)
        (sent : List IndexRecord) (s : Scanned Matcher) (q : RelativePath)
        → Ended crate fs limits receiver
            (scan_directory crate fs limits receiver levels scope policy sent)
            s
        → IsManaged crate fs limits scope policy q
        → IsRecorded q s.sent
    unfolding scan_directory
    scan_directory-IsRecorded zero scope policy sent s q h m = none_ended crate fs limits receiver h
    scan_directory-IsRecorded (suc levels) scope policy sent s q h
          (here {rules = rules} {metadata = metadata} i) =
        let (before, found, t, same, entered, later) =
          scan_directory-reaches levels scope policy rules sent s q metadata h i in
        later q (
          entered-IsRecorded crate fs limits receiver (walk levels) scope rules (walk_grows levels)
            metadata.kind q before found t same entered)
    scan_directory-IsRecorded (suc levels) scope policy sent s q h
          (below {rules = rules} {path = path} {metadata = metadata} i dir m) =
        let (before, found, t, same, entered, later) =
          scan_directory-reaches levels scope policy rules sent s path metadata h i in
        later q (
          scan_directory-IsRecorded levels (some path) rules (before ++ (found ∷ [])) t q
            (rw dir at entered) m)

    -- Where a scan ends without an error, its channel holds the records of an index, and each entry is
    -- among them that the configured exclusions and the rules of the directories above it manage, in
    -- the root or in a managed directory.
    pub scan_root-IsRecorded :
        (levels : ℕ) (exclusions : List Bytes) (policy : IgnorePolicy Matcher)
        (channel : List (Fallible IndexMessage)) (q : RelativePath)
        → with_configured_exclusions crate exclusions ≡ ok policy
        → scan_root crate fs limits receiver levels exclusions ≡ some (channel, ok tt)
        → IsManaged crate fs limits none policy q
        → (rs : List IndexRecord) × (channel ≡ feed rs) × IsRecorded q rs
    unfolding scan_root
    scan_root-IsRecorded levels exclusions policy channel q e h m =
        elim (Option-cases (scan_directory crate fs limits receiver levels none policy [])) [
          | inl k ↦ absurd (none_ne (rw (scan_root, e, k) at h))
          | inr (s, k) ↦
              let end = finished (rw (scan_root, e, k) at h) in
              elim (Result-cases s.result) [
                | inr (x, j) ↦
                    absurd (err_ne (sym (finish_scan-err s x j) ∙ ap (λ (o : Output). o.1) end))
                | inl (u, j) ↦ elim (finish_scan-IsOutput crate fs limits receiver s) [
                  | inr (x, j') ↦ absurd (err_ne (ap (λ (o : Output). o.1) (sym j' ∙ end)))
                  | inl j' ↦ (
                    s.sent,
                    ap (λ (o : Output). o.0) (sym end ∙ j'),
                    scan_directory-IsRecorded levels none policy [] s q (k, j) m,
                  )
                ]
              ]
        ]
      where
        none_ne : {out : Output} → ◌≡◌ {A = Option Output} none (some out) → ⊥
        none_ne h = cc

        err_ne : {x : PeerError} → ◌≡◌ {A = Fallible (Unit {0})} (err x) (ok tt) → ⊥
        err_ne h = cc

        finished : {o p : Output} → ◌≡◌ {A = Option Output} (some o) (some p) → o ≡ p
        finished h = cc
