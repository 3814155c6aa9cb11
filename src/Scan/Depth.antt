-- ===== src/Scan/Depth.antt =====
-- How deep the walk of crates/quicsync-core/src/filesystem/scan.rs goes.
use quic_sync.Base.{
  ℕ, zero, suc, ◌+◌, ◌<◌, ◌≤◌, ◌≡◌, ◌∙◌, refl, ap, inl, inr, Option, none, some, List, [], ◌∷◌,
  length, length-append, Result-cases, Option-cases, Bool-cases, arith,
}
use quic_sync.Base.Words.{Bytes}
use quic_sync.Types.{
  RelativePath, EntryKind, directory, regular_file, symlink, EntryMetadata, IndexRecord,
}
use quic_sync.Config.{Limits}
use quic_sync.Paths.{append_component, prefix_components}
use quic_sync.Paths.Appended.{append_component-IsAppended}
use quic_sync.Metadata.{FileSystem, metadata_for}
use quic_sync.Ignore.{Gitignore, IgnorePolicy, decision, checkpoint}
use quic_sync.Ignore.Decision.{IgnoreDecision-cases}
use quic_sync.Scan.{
  Scanned, Receiver, digest_for, send_record, scan_entry, scan_entries, Descend, scan_directory,
  read_ignore_file, restored, sort_names, enter,
}

module _ {Builder Matcher : Type 0} (crate : Gitignore Builder Matcher) (fs : FileSystem)
    (limits : Limits) (receiver : Receiver) where
  abbrev Ends : Option (Scanned Matcher) → Type 0
  Ends o = (s : Scanned Matcher) × (o ≡ some s)

  module _ (descend : Descend crate fs limits receiver) where
    -- `descend` ends where a path is within the limit.
    abbrev EndsBelow : ℕ → Type 0
    EndsBelow depth =
        (path : RelativePath) (policy : IgnorePolicy Matcher) (sent : List IndexRecord)
        → length path.components ≡ depth
        → depth ≤ limits.max_components
        → Ends (descend path policy sent)

    module _ (scope : Option RelativePath)
        (below : EndsBelow (suc (length (prefix_components scope)))) where
      enter-Ends :
          (kind : EntryKind) (path : RelativePath) (policy : IgnorePolicy Matcher)
          (sent : List IndexRecord)
          → Ends (descend path policy sent)
          → Ends (enter crate fs limits receiver descend kind path policy sent)
      enter-Ends directory path policy sent h = h
      enter-Ends regular_file path policy sent h = (_, refl)
      enter-Ends symlink path policy sent h = (_, refl)

      send_record-Ends :
          (path : RelativePath) (policy : IgnorePolicy Matcher) (sent : List IndexRecord)
          (metadata : EntryMetadata) (target : Option Bytes)
          → ((sent' : List IndexRecord) → Ends (descend path policy sent'))
          → Ends (send_record crate fs limits receiver descend path policy sent metadata target)
      unfolding send_record
      send_record-Ends path policy sent metadata target h =
          elim (Result-cases (digest_for fs path.components metadata.kind target)) [
            | inr (e, k) ↦ rw (send_record, k) (_, refl)
            | inl (digest, k) ↦ elim (Bool-cases (receiver.accepts (length sent))) [
              | inr refused ↦ rw (send_record, k, refused) (_, refl)
              | inl taken ↦
                  rw (send_record, k, taken) (enter-Ends metadata.kind path policy _ (h _))
            ]
          ]

      scan_entry-Ends :
          (policy : IgnorePolicy Matcher) (sent : List IndexRecord) (name : Bytes)
          → Ends (scan_entry crate fs limits receiver descend scope policy sent name)
      unfolding scan_entry
      scan_entry-Ends policy sent name = elim (Bool-cases (receiver.is_closed (length sent))) [
        | inl shut ↦ rw (scan_entry, shut) (_, refl)
        | inr unshut ↦ elim (Result-cases (append_component scope name limits)) [
          | inr (e, h) ↦ rw (scan_entry, unshut, h) (_, refl)
          | inl (path, h) ↦ elim (Result-cases (metadata_for fs path.components)) [
            | inr (e, k) ↦ rw (scan_entry, unshut, h, k) (_, refl)
            | inl ((metadata, target), k) ↦
                elim (IgnoreDecision-cases (decision crate policy path metadata.kind)) [
                  | inr (inl d) ↦ rw (scan_entry, unshut, h, k, d) (_, refl)
                  | inr (inr d) ↦ rw (scan_entry, unshut, h, k, d) (_, refl)
                  | inl d ↦
                      let made = append_component-IsAppended scope name limits path h in
                      let deep =
                        ap length made.parts
                        ∙ length-append (prefix_components scope) (name ∷ []) in
                      rw (scan_entry, unshut, h, k, d)
                        (send_record-Ends path policy sent metadata target (λ sent'.
                          below path policy sent' (omega (arith, deep))
                            (omega (arith, deep, made.components))))
                ]
          ]
        ]
      ]

      scan_entries-Ends :
          (policy : IgnorePolicy Matcher) (sent : List IndexRecord) (names : List Bytes)
          → Ends (scan_entries crate fs limits receiver descend scope policy sent names)
      unfolding scan_entries
      scan_entries-Ends policy sent [] = (_, refl)
      scan_entries-Ends policy sent (name ∷ names) =
          let (s, h) = scan_entry-Ends policy sent name in
          elim (Result-cases s.result) [
            | inr (e, k) ↦ rw (scan_entries, h, k) (_, refl)
            | inl (u, k) ↦ rw (scan_entries, h, k) (scan_entries-Ends s.policy s.sent names)
          ]

  restored-Ends :
      (n : ℕ) (o : Option (Scanned Matcher)) → Ends o → Ends (restored crate fs limits receiver n o)
  restored-Ends n none (s, h) = cc
  restored-Ends n (some t) (s, h) = elim (Result-cases t.result) [
    | inr (e, k) ↦ rw k (_, refl)
    | inl (u, k) ↦ rw k (_, refl)
  ]

  -- With a level for each component that the limit leaves, and one for the last directory, the walk
  -- ends.
  pub scan_directory-Ends :
      (levels : ℕ) (scope : Option RelativePath) (policy : IgnorePolicy Matcher)
      (sent : List IndexRecord)
      → length (prefix_components scope) ≤ limits.max_components
      → limits.max_components < levels + length (prefix_components scope)
      → Ends (scan_directory crate fs limits receiver levels scope policy sent)
  unfolding scan_directory
  scan_directory-Ends zero scope policy sent within h = absurd (omega arith)
  scan_directory-Ends (suc levels) scope policy sent within h =
      elim (Option-cases (fs.read_dir (prefix_components scope))) [
        | inl e ↦ rw (scan_directory, e) (_, refl)
        | inr (names, e) ↦
            elim (Result-cases (read_ignore_file crate fs scope policy (sort_names names))) [
              | inr (x, k) ↦ rw (scan_directory, e, k) (_, refl)
              | inl (policy', k) ↦
                  rw (scan_directory, e, k)
                    (restored-Ends (checkpoint policy) _ (
                      scan_entries-Ends _ scope
                        (λ path p t deep small.
                          scan_directory-Ends levels (some path) p t (omega arith) (omega arith))
                        policy' sent (sort_names names)))
            ]
      ]
