-- ===== src/Scan/Order.antt =====
-- What a step of crates/quicsync-core/src/filesystem/scan.rs adds to the index, as a record of what
-- is added and kept.
use mathlib.Core.Path.{subst}
use quic_sync.Base.{
  ◌≤◌, ◌≡◌, ◌∙◌, sym, refl, ap, inl, inr, false, Option, none, some, List, [], ◌∷◌, ◌++◌,
  append_assoc, append-nil, length, All, All-append, Ordering, ok, err, Result, Result-cases,
  Bool-cases,
}
use quic_sync.Base.Words.{Bytes}
use quic_sync.Types.{
  RelativePath, EntryKind, directory, regular_file, symlink, EntryMetadata, IndexRecord, IsPath,
  AllSome, Digest,
}
use quic_sync.Types.Order.{compare_path}
use quic_sync.Types.Sorted.{IsAbove, IsSorted, IsSorted-append}
use quic_sync.Error.{PeerError}
use quic_sync.Config.{Limits}
use quic_sync.Paths.Decoded.{join}
use quic_sync.Metadata.{FileSystem, metadata_for}
use quic_sync.Ignore.{Gitignore, IgnorePolicy, is_protected}
use quic_sync.Scan.{Scanned, Receiver, digest_for, send_record, Descend, done, closed, enter}
use quic_sync.Scan.Names.{compare_bytes-IsOrder, IsBelow, All-map}
use quic_sync.Base.Ordered.{lexicographic-prefix, lexicographic-first}

-- A record is of an entry as the file system has it, within the limits, and not protected.
pub record IsScanned (fs : FileSystem) (limits : Limits) (r : IndexRecord) : Type 0 where
  pub path : IsPath r.path
  pub components : length r.path.components ≤ limits.max_components
  pub path_bytes : length (join r.path.components) ≤ limits.max_path_bytes
  pub unprotected : is_protected r.path ≡ false
  pub entry : metadata_for fs r.path.components ≡ ok (r.metadata, r.symlink_target)
  pub digest : digest_for fs r.path.components r.metadata.kind r.symlink_target ≡ ok r.digest

-- The path goes on from `base` with a name of which `Q` holds.
abbrev pub IsNamed : List Bytes → (Bytes → Type 0) → IndexRecord → Type 0
IsNamed base Q r =
    (m : Bytes) × (rest : List Bytes) × Q m × (r.path.components ≡ base ++ (m ∷ rest))

abbrev pub Any : Bytes → Type 0
Any m = Unit

-- What a step has added to the records `before`.
pub record IsGrowth {Matcher : Type 0} (P : IndexRecord → Type 0) (policy : IgnorePolicy Matcher)
    (before : List IndexRecord) (s : Scanned Matcher) : Type 0 where
  pub new : List IndexRecord
  pub sent : s.sent ≡ before ++ new
  pub sorted : IsSorted new
  pub each : All P new
  pub kept : s.result ≡ ok tt → s.policy ≡ policy

below-first :
    (base : List Bytes) (n : Bytes) (r q : IndexRecord)
    → IsNamed base (λ m. m ≡ n) r
    → IsNamed base (IsBelow n) q
    → compare_path r.path q.path ≡ Ordering.lt
unfolding compare_path
below-first base n r q (m, xs, e, hr) (k, ys, l, hq) =
    rw (hr, hq, e) (lexicographic-first compare_bytes-IsOrder base xs ys l)

pub below-inside :
    (p q : RelativePath) (m : Bytes) (rest : List Bytes)
    → q.components ≡ p.components ++ (m ∷ rest)
    → compare_path p q ≡ Ordering.lt
unfolding compare_path
below-inside p q m rest h = rw h (lexicographic-prefix compare_bytes-IsOrder p.components m rest)

module _ {Builder Matcher : Type 0} (crate : Gitignore Builder Matcher) (fs : FileSystem)
    (limits : Limits) (receiver : Receiver) where
  abbrev pub IsEntry : List Bytes → (Bytes → Type 0) → IndexRecord → Type 0
  IsEntry base Q r = IsNamed base Q r × IsScanned fs limits r

  -- `scan_directory` for the directories below.
  abbrev pub IsDescend : Descend crate fs limits receiver → Type 0
  IsDescend descend =
      (path : RelativePath) (policy : IgnorePolicy Matcher) (sent : List IndexRecord)
      → AllSome (IsGrowth (IsEntry path.components Any) policy sent) (descend path policy sent)

  pub nothing :
      (P : IndexRecord → Type 0) (policy : IgnorePolicy Matcher) (sent : List IndexRecord)
      (result : Result PeerError (Unit {0}))
      → IsGrowth P policy sent (record { sent = sent; policy = policy; result = result })
  nothing P policy sent result = record {
    new = [];
    sent = sym (append-nil sent);
    sorted = tt;
    each = tt;
    kept = λ h. refl;
  }

  prepend :
      (base : List Bytes) (name : Bytes) (Q : Bytes → Type 0) (found : IndexRecord)
      (policy : IgnorePolicy Matcher) (sent : List IndexRecord) (s : Scanned Matcher)
      → found.path.components ≡ base ++ (name ∷ [])
      → Q name
      → IsScanned fs limits found
      → IsGrowth (IsEntry found.path.components Any) policy (sent ++ (found ∷ [])) s
      → IsGrowth (IsEntry base Q) policy sent s
  prepend base name Q found policy sent s here q scanned g = record {
    new = found ∷ g.new;
    sent = g.sent ∙ append_assoc sent (found ∷ []) g.new;
    sorted = (above g.new g.each, g.sorted);
    each = (((name, [], q, here), scanned), All-map g.new deeper g.each);
    kept = g.kept;
  }
    where
      above :
          (rs : List IndexRecord)
          → All (IsEntry found.path.components Any) rs
          → IsAbove found.path rs
      above [] h = tt
      above (r ∷ rs) (((m, rest, _, e), _), hs) =
          (below-inside found.path r.path m rest e, above rs hs)

      deeper : (r : IndexRecord) → IsEntry found.path.components Any r → IsEntry base Q r
      deeper r ((m, rest, _, e), was) = (
        (
          name,
          m ∷ rest,
          q,
          e ∙ ap (λ cs. cs ++ (m ∷ rest)) here ∙ append_assoc base (name ∷ []) (m ∷ rest),
        ),
        was,
      )

  pub enter-IsGrowth :
      (descend : Descend crate fs limits receiver) (kind : EntryKind) (path : RelativePath)
      (policy : IgnorePolicy Matcher) (sent : List IndexRecord)
      → IsDescend descend
      → AllSome
          (IsGrowth (IsEntry path.components Any) policy sent)
          (enter crate fs limits receiver descend kind path policy sent)
  enter-IsGrowth descend directory path policy sent below = below path policy sent
  enter-IsGrowth descend regular_file path policy sent below = nothing _ policy sent (ok tt)
  enter-IsGrowth descend symlink path policy sent below = nothing _ policy sent (ok tt)

  pub AllSome-map :
      {P Q : Scanned Matcher → Type 0} (o : Option (Scanned Matcher))
      → ((s : Scanned Matcher) → P s → Q s)
      → AllSome P o
      → AllSome Q o
  AllSome-map none f h = tt
  AllSome-map (some s) f h = f s h

  module _ (descend : Descend crate fs limits receiver) (below : IsDescend descend)
      (base : List Bytes) (Q : Bytes → Type 0) where
    pub send_record-IsGrowth :
        (path : RelativePath) (policy : IgnorePolicy Matcher) (sent : List IndexRecord)
        (metadata : EntryMetadata) (target : Option Bytes) (name : Bytes)
        → path.components ≡ base ++ (name ∷ [])
        → Q name
        → ((digest : Option Digest)
            → digest_for fs path.components metadata.kind target ≡ ok digest
            → IsScanned fs limits (record {
              path = path;
              metadata = metadata;
              digest = digest;
              symlink_target = target;
            }))
        → AllSome
            (IsGrowth (IsEntry base Q) policy sent)
            (send_record crate fs limits receiver descend path policy sent metadata target)
    unfolding send_record
    send_record-IsGrowth path policy sent metadata target name here q scanned =
        elim (Result-cases (digest_for fs path.components metadata.kind target)) [
          | inr (e, h) ↦ rw (send_record, h) (nothing _ policy sent (err e))
          | inl (digest, h) ↦ elim (Bool-cases (receiver.accepts (length sent))) [
            | inr refused ↦ rw (send_record, h, refused) (nothing _ policy sent (err closed))
            | inl taken ↦
                let found : IndexRecord = record {
                  path = path;
                  metadata = metadata;
                  digest = digest;
                  symlink_target = target;
                } in
                rw (send_record, h, taken)
                  (AllSome-map _
                    (λ s. prepend base name Q found policy sent s here q (scanned digest h))
                    (enter-IsGrowth descend metadata.kind path policy (sent ++ (found ∷ [])) below))
          ]
        ]

  pub IsGrowth-map :
      {P Q : IndexRecord → Type 0} {policy : IgnorePolicy Matcher} {sent : List IndexRecord}
      {s : Scanned Matcher}
      → ((r : IndexRecord) → P r → Q r)
      → IsGrowth P policy sent s
      → IsGrowth Q policy sent s
  IsGrowth-map f g = record {
    new = g.new;
    sent = g.sent;
    sorted = g.sorted;
    each = All-map g.new f g.each;
    kept = g.kept;
  }

  pub IsEntry-of :
      (base : List Bytes) (name : Bytes) (Q : Bytes → Type 0)
      → Q name
      → (r : IndexRecord) → IsEntry base (λ m. m ≡ name) r
      → IsEntry base Q r
  IsEntry-of base name Q q r ((m, rest, h, e), was) = ((m, rest, subst Q (sym h) q, e), was)

  -- An entry, then the entries behind it.
  pub follow :
      (base : List Bytes) (name : Bytes) (Q : Bytes → Type 0) (policy : IgnorePolicy Matcher)
      (sent : List IndexRecord) (s t : Scanned Matcher)
      → Q name
      → s.result ≡ ok tt
      → IsGrowth (IsEntry base (λ m. m ≡ name)) policy sent s
      → IsGrowth (IsEntry base (λ m. Q m × IsBelow name m)) s.policy s.sent t
      → IsGrowth (IsEntry base Q) policy sent t
  follow base name Q policy sent s t q done g k = record {
    new = g.new ++ k.new;
    sent =
        k.sent ∙ ap (λ (l : List IndexRecord). l ++ k.new) g.sent ∙ append_assoc sent g.new k.new;
    sorted =
        IsSorted-append g.new k.new g.sorted k.sorted
          (All-map g.new (λ r h. above r h.0 k.new k.each) g.each);
    each =
        All-append (IsEntry base Q) g.new k.new (All-map g.new (IsEntry-of base name Q q) g.each)
          (All-map k.new later k.each);
    kept = λ h. k.kept h ∙ g.kept done;
  }
    where
      above :
          (r : IndexRecord)
          → IsNamed base (λ m. m ≡ name) r
          → (rs : List IndexRecord) → All (IsEntry base (λ m. Q m × IsBelow name m)) rs
          → IsAbove r.path rs
      above r h [] hs = tt
      above r h (x ∷ xs) (((m, rest, (_, l), e), _), hs) =
          (below-first base name r x h (m, rest, l, e), above r h xs hs)

      later : (r : IndexRecord) → IsEntry base (λ m. Q m × IsBelow name m) r → IsEntry base Q r
      later r ((m, rest, (h, _), e), was) = ((m, rest, h, e), was)
