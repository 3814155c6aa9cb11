-- ===== src/Scan/Root.antt =====
-- `scan_root` of crates/quicsync-core/src/filesystem/scan.rs: what its channel holds in the end.
use quic_sync.Base.{
  ℕ, ◌<◌, ◌≡◌, sym, refl, ap, ◌⊎◌, inl, inr, none, some, List, [], ◌∷◌, ◌++◌, length, All, ok, err,
  Result-cases, Bool-cases, arith,
}
use mathlib.Core.Path.{subst}
use quic_sync.Base.Words.{Bytes}
use quic_sync.Types.{IndexRecord, AllSome}
use quic_sync.Types.Sorted.{IsSorted}
use quic_sync.Error.{PeerError, Fallible}
use quic_sync.Messages.{IndexMessage, index_record, index_end}
use quic_sync.Config.{Limits}
use quic_sync.Metadata.{FileSystem}
use quic_sync.Ignore.{Gitignore, with_configured_exclusions}
use quic_sync.Planner.Merge.{feed}
use quic_sync.Scan.{Scanned, Receiver, scan_root, records, last_error, finish_scan, closed}
use quic_sync.Scan.Names.{All-map}
use quic_sync.Scan.Order.{IsScanned, IsGrowth}
use quic_sync.Scan.Growth.{IsListing, scan_directory-Grows}
use quic_sync.Scan.Depth.{scan_directory-Ends}

abbrev pub Output : Type 0
Output = List (Fallible IndexMessage) × Fallible (Unit {0})

records-feed : (rs : List IndexRecord) → records rs ++ (ok index_end ∷ []) ≡ feed rs
records-feed [] = refl
records-feed (r ∷ rs) = ap (λ l. ok (index_record r) ∷ l) (records-feed rs)

-- The channel and the result for the records of an index.
abbrev pub IsOutput : Receiver → List IndexRecord → Output → Type 0
IsOutput receiver rs out =
    (out ≡ (feed rs, ok tt))
    ⊎ ((e : PeerError) × (out ≡ (records rs ++ last_error receiver (length rs) e, err e)))

module _ {Builder Matcher : Type 0} (crate : Gitignore Builder Matcher) (fs : FileSystem)
    (limits : Limits) (receiver : Receiver) where
  pub finish_scan-IsOutput :
      (s : Scanned Matcher) → IsOutput receiver s.sent (finish_scan crate fs limits receiver s)
  finish_scan-IsOutput s = elim (Result-cases s.result) [
    | inr (e, h) ↦ inr (e, rw h refl)
    | inl (u, h) ↦ elim (Bool-cases (receiver.accepts (length s.sent))) [
      | inl taken ↦ inl (rw (h, taken, records-feed s.sent) refl)
      | inr refused ↦ inr (closed, rw (h, refused) refl)
    ]
  ]

  -- With more levels than the limit on components, a scan of any file system that lists each name of
  -- a directory once ends. The records in its channel are strictly ordered by path, each is of an
  -- entry as the file system has it, within the limits on paths and not protected. They are followed
  -- by `End` where the result is without an error, and else by the error, if the receiver takes it,
  -- and never by `End`.
  pub scan_root-IsOutput :
      (levels : ℕ) (exclusions : List Bytes)
      → IsListing fs
      → limits.max_components < levels
      → (rs : List IndexRecord) × (out : Output) × (scan_root crate fs limits receiver levels
            exclusions
          ≡ some out)
        × IsOutput receiver rs out
        × IsSorted rs
        × All (IsScanned fs limits) rs
  unfolding scan_root
  scan_root-IsOutput levels exclusions listing deep =
      elim (Result-cases (with_configured_exclusions crate exclusions)) [
        | inr (e, h) ↦ ([], _, rw (scan_root, h) refl, inr (e, refl), tt, tt)
        | inl (policy, h) ↦
            let (s, k) =
              scan_directory-Ends crate fs limits receiver levels none policy [] (omega arith)
                (omega (arith, deep)) in
            let g =
              subst (AllSome (IsGrowth _ policy [])) k
                (scan_directory-Grows crate fs limits receiver listing levels none policy []) in
            (
              s.sent,
              finish_scan crate fs limits receiver s,
              rw (scan_root, h, k) refl,
              finish_scan-IsOutput s,
              subst IsSorted (sym g.sent) g.sorted,
              subst (All (IsScanned fs limits)) (sym g.sent) (All-map g.new (λ r x. x.1) g.each),
            )
      ]
