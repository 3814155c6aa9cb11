-- ===== src/Scan/Ended.antt =====
-- The steps of crates/quicsync-core/src/filesystem/scan.rs in a walk that ends without an error.
use mathlib.Core.Path.{subst}
use quic_sync.Base.{
  ℕ, ◌≡◌, ◌≢◌, ◌∙◌, sym, refl, ap, inl, inr, Option, none, some, List, [], ◌∷◌, ◌++◌, length,
  Exists, Exists-append_left, Exists-append_right, ok, err, Result-cases, Option-cases, Bool-cases,
}
use quic_sync.Base.Words.{Bytes}
use quic_sync.Types.{RelativePath, EntryKind, EntryMetadata, IndexRecord, AllSome}
use quic_sync.Error.{PeerError, Fallible}
use quic_sync.Config.{Limits}
use quic_sync.Paths.{append_component, prefix_components}
use quic_sync.Metadata.{FileSystem, metadata_for}
use quic_sync.Ignore.{Gitignore, IgnorePolicy, managed, decision}
use quic_sync.Scan.{
  Scanned, Receiver, digest_for, send_record, scan_entry, scan_entries, Descend, enter, restored,
}
use quic_sync.Scan.Order.{IsGrowth, IsDescend, enter-IsGrowth}
use quic_sync.Scan.Growth.{Grows, scan_entry-Grows}

-- A record of the path.
abbrev pub IsRecorded : RelativePath → List IndexRecord → Type 0
IsRecorded q = Exists (λ r. r.path ≡ q)

module _ {Builder Matcher : Type 0} (crate : Gitignore Builder Matcher) (fs : FileSystem)
    (limits : Limits) (receiver : Receiver) where
  abbrev pub Ended : Option (Scanned Matcher) → Scanned Matcher → Type 0
  Ended o s = (o ≡ some s) × (s.result ≡ ok tt)

  pub same_end :
      {s t : Scanned Matcher} → ◌≡◌ {A = Option (Scanned Matcher)} (some s) (some t) → s ≡ t
  same_end h = cc

  pub none_ended : {s : Scanned Matcher} {A : Type 0} → Ended none s → A
  none_ended (h, k) = absurd (none_ne_some h)
    where
      none_ne_some : {t : Scanned Matcher} → none ≢ some t
      none_ne_some h = cc

  pub not_failed :
      {e : PeerError} (t s : Scanned Matcher) {A : Type 0} → t.result ≡ err e → Ended (some t) s → A
  not_failed t s j (h, k) =
      absurd (failed_ne_ok (sym j ∙ ap (λ (t : Scanned Matcher). t.result) (same_end h) ∙ k))
    where
      failed_ne_ok : {e : PeerError} → ◌≡◌ {A = Fallible (Unit {0})} (err e) (ok tt) → ⊥
      failed_ne_ok h = cc

  module _ (descend : Descend crate fs limits receiver) where
    -- The record is sent, and of a directory the walk below it is what is left.
    pub send_record-Ended :
        (path : RelativePath) (policy : IgnorePolicy Matcher) (sent : List IndexRecord)
        (metadata : EntryMetadata) (target : Option Bytes) (s : Scanned Matcher)
        → Ended (send_record crate fs limits receiver descend path policy sent metadata target) s
        → (found : IndexRecord) × (found.path ≡ path)
          × Ended
              (enter crate fs limits receiver descend metadata.kind path policy
                (sent ++ (found ∷ [])))
              s
    unfolding send_record
    send_record-Ended path policy sent metadata target s h =
        elim (Result-cases (digest_for fs path.components metadata.kind target)) [
          | inr (e, k) ↦ not_failed _ s refl (rw (send_record, k) at h)
          | inl (digest, k) ↦ elim (Bool-cases (receiver.accepts (length sent))) [
            | inr refused ↦ not_failed _ s refl (rw (send_record, k, refused) at h)
            | inl taken ↦ (_, refl, rw (send_record, k, taken) at h)
          ]
        ]

    pub scan_entry-Ended :
        (scope : Option RelativePath) (policy : IgnorePolicy Matcher) (sent : List IndexRecord)
        (name : Bytes) (path : RelativePath) (metadata : EntryMetadata) (target : Option Bytes)
        (s : Scanned Matcher)
        → append_component scope name limits ≡ ok path
        → metadata_for fs path.components ≡ ok (metadata, target)
        → decision crate policy path metadata.kind ≡ managed
        → Ended (scan_entry crate fs limits receiver descend scope policy sent name) s
        → Ended (send_record crate fs limits receiver descend path policy sent metadata target) s
    unfolding scan_entry
    scan_entry-Ended scope policy sent name path metadata target s a m d h =
        elim (Bool-cases (receiver.is_closed (length sent))) [
          | inl shut ↦ not_failed _ s refl (rw (scan_entry, shut) at h)
          | inr unshut ↦ rw (scan_entry, unshut, a, m, d) at h
        ]

    scan_entries-step :
        (scope : Option RelativePath) (policy : IgnorePolicy Matcher) (sent : List IndexRecord)
        (name : Bytes) (names : List Bytes) (s : Scanned Matcher)
        → IsDescend crate fs limits receiver descend
        → Ended (scan_entries crate fs limits receiver descend scope policy sent (name ∷ names)) s
        → (t : Scanned Matcher) × (new : List IndexRecord) × (t.sent ≡ sent ++ new)
          × Ended (scan_entry crate fs limits receiver descend scope policy sent name) t
          × Ended (scan_entries crate fs limits receiver descend scope policy t.sent names) s
    unfolding scan_entries
    scan_entries-step scope policy sent name names s grows h =
        elim (Option-cases (scan_entry crate fs limits receiver descend scope policy sent name)) [
          | inl e ↦ none_ended (rw (scan_entries, e) at h)
          | inr (t, e) ↦
              let g =
                subst
                  (Grows crate fs limits receiver (prefix_components scope) (λ m. m ≡ name) policy
                    sent)
                  e
                  (scan_entry-Grows crate fs limits receiver descend grows scope policy sent
                    name) in
              elim (Result-cases t.result) [
                | inr (x, k) ↦ not_failed t s k (rw (scan_entries, e, k) at h)
                | inl (u, k) ↦ (
                  t,
                  g.new,
                  g.sent,
                  (e, k),
                  subst
                      (λ p.
                        Ended (scan_entries crate fs limits receiver descend scope p t.sent names)
                          s)
                      (g.kept k) (rw (scan_entries, e, k) at h),
                )
              ]
        ]

    module _ (scope : Option RelativePath) (policy : IgnorePolicy Matcher)
        (grows : IsDescend crate fs limits receiver descend) where
      -- What is sent stays sent.
      scan_entries-IsRecorded :
          (sent : List IndexRecord) (names : List Bytes) (s : Scanned Matcher) (q : RelativePath)
          → Ended (scan_entries crate fs limits receiver descend scope policy sent names) s
          → IsRecorded q sent
          → IsRecorded q s.sent
      unfolding scan_entries
      scan_entries-IsRecorded sent [] s q h r =
          subst (λ (t : Scanned Matcher). IsRecorded q t.sent) (same_end h.0) r
      scan_entries-IsRecorded sent (name ∷ names) s q h r =
          let (t, new, e, _, later) = scan_entries-step scope policy sent name names s grows h in
          scan_entries-IsRecorded t.sent names s q later
            (subst (IsRecorded q) (sym e) (Exists-append_left _ sent new r))

      -- The step for one of the names.
      pub scan_entries-among :
          (sent : List IndexRecord) (names : List Bytes) (name : Bytes) (s : Scanned Matcher)
          → Exists (λ n. n ≡ name) names
          → Ended (scan_entries crate fs limits receiver descend scope policy sent names) s
          → (before : List IndexRecord) × (t : Scanned Matcher) × Ended
              (scan_entry crate fs limits receiver descend scope policy before name)
              t
            × ((q : RelativePath) → IsRecorded q t.sent → IsRecorded q s.sent)
      scan_entries-among sent [] name s among h = absurd among
      scan_entries-among sent (n ∷ names) name s (inl same) h =
          let (t, new, e, now, later) = scan_entries-step scope policy sent n names s grows h in
          (
            sent,
            t,
            subst (λ m. Ended (scan_entry crate fs limits receiver descend scope policy sent m) t)
                same now,
            λ q. scan_entries-IsRecorded t.sent names s q later,
          )
      scan_entries-among sent (n ∷ names) name s (inr among) h =
          let (t, new, e, _, later) = scan_entries-step scope policy sent n names s grows h in
          scan_entries-among t.sent names name s among later

      pub entered-IsRecorded :
          (kind : EntryKind) (path : RelativePath) (sent : List IndexRecord) (found : IndexRecord)
          (s : Scanned Matcher)
          → found.path ≡ path
          → Ended (enter crate fs limits receiver descend kind path policy (sent ++ (found ∷ []))) s
          → IsRecorded path s.sent
      entered-IsRecorded kind path sent found s same h =
          let g = subst (AllSome (IsGrowth _ policy (sent ++ (found ∷ [])))) h.0 (
            enter-IsGrowth crate fs limits receiver descend kind path policy (sent ++ (found ∷ []))
              grows) in
          subst (IsRecorded path) (sym g.sent) (
            Exists-append_left _ (sent ++ (found ∷ [])) g.new
              (Exists-append_right _ sent (found ∷ []) (inl same)))

  pub restored-Ended :
      (n : ℕ) (o : Option (Scanned Matcher)) (s : Scanned Matcher)
      → Ended (restored crate fs limits receiver n o) s
      → (t : Scanned Matcher) × Ended o t × (t.sent ≡ s.sent)
  restored-Ended n none s h = none_ended h
  restored-Ended n (some t) s h = elim (Result-cases t.result) [
    | inr (e, k) ↦ not_failed t s k (rw k at h)
    | inl (u, k) ↦ (t, (refl, k), ap (λ (x : Scanned Matcher). x.sent) (same_end (rw k at h).0))
  ]
