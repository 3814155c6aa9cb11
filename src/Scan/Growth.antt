-- ===== src/Scan/Growth.antt =====
-- The loop over a directory's entries, and the walk, in crates/quicsync-core/src/filesystem/scan.rs.
use mathlib.Core.Path.{subst}
use quic_sync.Base.{
  ℕ, zero, suc, ◌≡◌, ◌∙◌, sym, refl, ap, inl, inr, Option, none, some, List, [], ◌∷◌, ◌++◌, length,
  take, take-length, take-append_length, All, ok, err, Result-cases, Option-cases, Bool-cases,
  >>=-eq-ok, ◌>>=◌, if◌then◌else◌, ok_inj,
}
use quic_sync.Base.Words.{Bytes}
use quic_sync.Types.{RelativePath, IndexRecord, AllSome}
use quic_sync.Error.{Fallible}
use quic_sync.Config.{Limits}
use quic_sync.Config.Load.{holds_bytes}
use quic_sync.Paths.{append_component, prefix_components}
use quic_sync.Paths.Appended.{append_component-IsAppended}
use quic_sync.Metadata.{read_all, FileSystem, metadata_for, or_io}
use quic_sync.Ignore.{
  Gitignore, IgnorePolicy, decision, gitignore_name, checkpoint, restore, add_ignore_contents,
  build_matcher,
}
use quic_sync.Ignore.Decision.{IgnoreDecision-cases, decision-managed}
use quic_sync.Scan.{
  Scanned, Receiver, scan_entry, scan_entries, Descend, closed, scan_directory, read_ignore_file,
  restored, sort_names,
}
use quic_sync.Scan.Names.{
  IsBelow, IsIncreasing, IsDistinct, sort_names-All, sort_names-IsIncreasing,
}
use quic_sync.Scan.Order.{
  Any, IsGrowth, IsEntry, IsDescend, nothing, AllSome-map, send_record-IsGrowth, follow,
  IsGrowth-map, IsEntry-of,
}

-- A directory lists each name once.
abbrev pub IsListing : FileSystem → Type 0
IsListing fs = (path names : List Bytes) → fs.read_dir path ≡ some names → IsDistinct names

module _ {Builder Matcher : Type 0} (crate : Gitignore Builder Matcher) (fs : FileSystem)
    (limits : Limits) (receiver : Receiver) where
  abbrev pub Grows :
      List Bytes
      → (Bytes → Type 0)
      → IgnorePolicy Matcher
      → List IndexRecord
      → Option (Scanned Matcher)
      → Type 0
  Grows base Q policy sent o =
      AllSome (IsGrowth (IsEntry crate fs limits receiver base Q) policy sent) o

  idle :
      (base : List Bytes) (Q : Bytes → Type 0) (policy : IgnorePolicy Matcher)
      (sent : List IndexRecord) (result : Fallible (Unit {0}))
      → Grows base Q policy sent (some (record { sent = sent; policy = policy; result = result }))
  idle base Q policy sent result =
      nothing crate fs limits receiver (IsEntry crate fs limits receiver base Q) policy sent result

  module _ (descend : Descend crate fs limits receiver)
      (below : IsDescend crate fs limits receiver descend) (scope : Option RelativePath) where
    abbrev base : List Bytes
    base = prefix_components scope

    pub scan_entry-Grows :
        (policy : IgnorePolicy Matcher) (sent : List IndexRecord) (name : Bytes)
        → Grows base
            (λ m. m ≡ name)
            policy
            sent
            (scan_entry crate fs limits receiver descend scope policy sent name)
    unfolding scan_entry
    scan_entry-Grows policy sent name = elim (Bool-cases (receiver.is_closed (length sent))) [
      | inl shut ↦ rw (scan_entry, shut) (idle base _ policy sent (err closed))
      | inr unshut ↦ elim (Result-cases (append_component scope name limits)) [
        | inr (e, h) ↦ rw (scan_entry, unshut, h) (idle base _ policy sent (err e))
        | inl (path, h) ↦ elim (Result-cases (metadata_for fs path.components)) [
          | inr (e, k) ↦ rw (scan_entry, unshut, h, k) (idle base _ policy sent (err e))
          | inl ((metadata, target), k) ↦
              elim (IgnoreDecision-cases (decision crate policy path metadata.kind)) [
                | inr (inl d) ↦ rw (scan_entry, unshut, h, k, d) (idle base _ policy sent (ok tt))
                | inr (inr d) ↦ rw (scan_entry, unshut, h, k, d) (idle base _ policy sent (ok tt))
                | inl d ↦
                    let made = append_component-IsAppended scope name limits path h in
                    rw (scan_entry, unshut, h, k, d)
                      (send_record-IsGrowth crate fs limits receiver descend below base
                        (λ m. m ≡ name) path policy sent metadata target name made.parts refl
                        (λ digest e. record {
                          path = made.accepted;
                          components = made.components;
                          path_bytes = made.path_bytes;
                          unprotected = decision-managed crate policy path metadata.kind d;
                          entry = k;
                          digest = e;
                        }))
              ]
        ]
      ]
    ]

    scan_entries-Grows :
        (Q : Bytes → Type 0) (policy : IgnorePolicy Matcher) (sent : List IndexRecord)
        (names : List Bytes)
        → All Q names
        → IsIncreasing names
        → Grows base Q policy sent
            (scan_entries crate fs limits receiver descend scope policy sent names)
    unfolding scan_entries
    scan_entries-Grows Q policy sent [] qs up = idle base Q policy sent (ok tt)
    scan_entries-Grows Q policy sent (name ∷ names) (q, qs) (least, up) =
        elim (Option-cases (scan_entry crate fs limits receiver descend scope policy sent name)) [
          | inl h ↦ rw (scan_entries, h) tt
          | inr (s, h) ↦
              let g =
                subst (Grows base (λ m. m ≡ name) policy sent) h
                  (scan_entry-Grows policy sent name) in
              elim (Result-cases s.result) [
                | inr (e, k) ↦
                    rw (scan_entries, h, k)
                      (IsGrowth-map crate fs limits receiver
                        (IsEntry-of crate fs limits receiver base name Q q) g)
                | inl (u, k) ↦
                    rw (scan_entries, h, k)
                      (AllSome-map crate fs limits receiver _
                        (λ t. follow crate fs limits receiver base name Q policy sent s t q k g)
                        (scan_entries-Grows (λ m. Q m × IsBelow name m) s.policy s.sent names
                          (both names qs least) up))
              ]
        ]
      where
        both :
            (ns : List Bytes)
            → All Q ns
            → All (IsBelow name) ns
            → All (λ m. Q m × IsBelow name m) ns
        both [] h k = tt
        both (n ∷ ns) (h, hs) (k, ks) = ((h, k), both ns hs ks)

  abbrev Equal : Fallible (IgnorePolicy Matcher) → IgnorePolicy Matcher → Type 0
  Equal r policy = r ≡ ok policy

  read_ignore_file-restore :
      (scope : Option RelativePath) (policy policy' : IgnorePolicy Matcher) (names : List Bytes)
      → read_ignore_file crate fs scope policy names ≡ ok policy'
      → restore policy' (checkpoint policy) ≡ policy
  unfolding read_ignore_file restore checkpoint add_ignore_contents
  read_ignore_file-restore scope policy policy' names h =
      elim (Bool-cases (holds_bytes names gitignore_name)) [
        | inr e ↦ unchanged (sym (rw (read_ignore_file, e) refl) ∙ h)
        | inl e ↦ checked (sym (rw (read_ignore_file, e) refl) ∙ h)
      ]
    where
      path : List Bytes
      path = prefix_components scope ++ (gitignore_name ∷ [])

      unchanged : Equal (ok policy) policy' → take (length policy) policy' ≡ policy
      unchanged e = subst (λ p. take (length policy) p ≡ policy) (ok_inj e) (take-length policy)

      opened : Fallible (IgnorePolicy Matcher)
      opened = or_io (fs.open_file path) >>= λ chunks.
          read_all chunks >>= λ contents. add_ignore_contents crate policy scope contents

      longer : Equal opened policy' → take (length policy) policy' ≡ policy
      longer e =
          let (chunks, _, e1) = >>=-eq-ok (or_io (fs.open_file path)) _ e in
          let (contents, _, e2) = >>=-eq-ok (read_all chunks) _ e1 in
          let (matcher, _, e3) = >>=-eq-ok (build_matcher crate scope contents) _ e2 in
          subst (λ p. take (length policy) p ≡ policy) (ok_inj e3) (take-append_length policy _)

      checked :
          Equal
            (or_io (fs.symlink_metadata path) >>= λ m. if m.is_file then opened else ok policy)
            policy'
          → take (length policy) policy' ≡ policy
      checked e =
          let (m, _, k) = >>=-eq-ok (or_io (fs.symlink_metadata path)) _ e in
          elim (Bool-cases m.is_file) [
            | inl f ↦ longer (sym (rw f refl) ∙ k)
            | inr f ↦ unchanged (sym (rw f refl) ∙ k)
          ]

  -- The policy is restored behind the entries.
  restored-Grows :
      (base : List Bytes) (policy policy' : IgnorePolicy Matcher) (sent : List IndexRecord)
      (o : Option (Scanned Matcher))
      → restore policy' (checkpoint policy) ≡ policy
      → Grows base Any policy' sent o
      → Grows base Any policy sent (restored crate fs limits receiver (checkpoint policy) o)
  restored-Grows base policy policy' sent none h g = tt
  restored-Grows base policy policy' sent (some s) h g = elim (Result-cases s.result) [
    | inr (e, k) ↦
        rw k
          (record { new = g.new; sent = g.sent; sorted = g.sorted; each = g.each; kept = λ j. cc })
    | inl (u, k) ↦ rw k (record {
      new = g.new;
      sent = g.sent;
      sorted = g.sorted;
      each = g.each;
      kept = λ j. ap (λ p. restore p (checkpoint policy)) (g.kept k) ∙ h;
    })
  ]

  All-Any : (names : List Bytes) → All Any names
  All-Any [] = tt
  All-Any (n ∷ ns) = (tt, All-Any ns)

  module _ (listing : IsListing fs) where
    pub scan_directory-Grows :
        (levels : ℕ) (scope : Option RelativePath) (policy : IgnorePolicy Matcher)
        (sent : List IndexRecord)
        → Grows
            (prefix_components scope)
            Any
            policy
            sent
            (scan_directory crate fs limits receiver levels scope policy sent)
    unfolding scan_directory
    scan_directory-Grows zero scope policy sent = tt
    scan_directory-Grows (suc levels) scope policy sent =
        let base = prefix_components scope in
        elim (Option-cases (fs.read_dir base)) [
          | inl h ↦ rw (scan_directory, h) (idle base _ policy sent (err _))
          | inr (names, h) ↦
              elim (Result-cases (read_ignore_file crate fs scope policy (sort_names names))) [
                | inr (e, k) ↦ rw (scan_directory, h, k) (idle base _ policy sent (err e))
                | inl (policy', k) ↦
                    rw (scan_directory, h, k)
                      (restored-Grows base policy policy' sent _
                        (read_ignore_file-restore scope policy policy' (sort_names names) k)
                        (scan_entries-Grows
                          (λ path. scan_directory crate fs limits receiver levels (some path))
                          (λ path. scan_directory-Grows levels (some path)) scope Any policy' sent
                          (sort_names names) (sort_names-All Any names (All-Any names))
                          (sort_names-IsIncreasing names (listing base names h))))
              ]
        ]
