-- ===== src/Commit/Settled.antt =====
-- What comes in the schedule of crates/quicsync-core/src/sync/commit.rs after a directory is left.
use quic_sync.Base.{
  ◌≡◌, ◌∙◌, sym, refl, false, Bool-cases, inl, inr, Option, none, some, List, [], ◌∷◌, ◌++◌,
  All-append, append_assoc,
}
use mathlib.Core.Path.{subst}
use quic_sync.Types.{RelativePath, directory, regular_file, symlink}
use quic_sync.Messages.{
  Operation, operation_path, upsert_directory, upsert_file, upsert_symlink, delete,
}
use quic_sync.Commit.{
  Action, Directory, starts_with, replacing_directory, out_of_order, mismatched, Changes, Installer,
  commit,
}
use quic_sync.Commit.Schedule.{
  Step, make, take_away, put, put_link, closing, close, close_all, left, kept, made, deferred,
  schedule, replay,
}
use quic_sync.Commit.Replayed.{commit-replay}
use quic_sync.Commit.Past.{
  IsOutside, IsPast, left_behind-IsPast, IsPast-later, IsPast-IsOutside, le-IsOutside, path_le_self,
  in_order-le, path_le_trans,
}
use quic_sync.Commit.Touched.{
  AllPaths, AllDirectories, close-AllPaths, close_all-AllPaths, left-AllPaths, kept-AllDirectories,
  made-AllPaths, deferred-AllDirectories,
}
use quic_sync.Commit.Stack.{IsStack, IsUpTo, below-IsOutside, kept-IsStack, deferred-IsStack}
use quic_sync.Scan.Names.{All-map}

module _ {File : Type 0} where
  -- After an action of a directory that is left, nothing is below it.
  abbrev pub IsSettled : List (Step File) → Type 0
  IsSettled [] = Unit
  IsSettled (closing d a ∷ rest) = AllPaths (IsOutside d) rest × IsSettled rest
  IsSettled (make p m ∷ rest) = IsSettled rest
  IsSettled (take_away p ∷ rest) = IsSettled rest
  IsSettled (put f p m ∷ rest) = IsSettled rest
  IsSettled (put_link r ∷ rest) = IsSettled rest

  close-IsSettled :
      (d : RelativePath) (actions : List (Action File)) (ys : List (Step File))
      → AllPaths (IsOutside d) ys
      → IsSettled ys
      → IsSettled (close d actions ++ ys)
  unfolding close
  close-IsSettled d [] ys h hs = hs
  close-IsSettled d (a ∷ rest) ys h hs = (
    All-append _ (close d rest) ys
        (close-AllPaths (IsOutside d) d rest (le-IsOutside d d (path_le_self d))) h,
    close-IsSettled d rest ys h hs,
  )

  close_all-IsSettled : (ds : List (Directory File)) → IsStack ds → IsSettled (close_all ds)
  unfolding close_all
  close_all-IsSettled [] h = tt
  close_all-IsSettled (d ∷ ds) (h, hs) =
      close-IsSettled d.path d.actions (close_all ds)
        (close_all-AllPaths (IsOutside d.path) ds (below-IsOutside d.path ds h))
        (close_all-IsSettled ds hs)

  made-IsSettled :
      (ds : List (Directory File)) (o : Operation) (f : Option File) (ys : List (Step File))
      → IsSettled ys
      → IsSettled (made ds o f ++ ys)
  unfolding made
  made-IsSettled ds (delete i p directory) f ys h = h
  made-IsSettled ds (delete i p regular_file) f ys h = h
  made-IsSettled ds (delete i p symlink) f ys h = h
  made-IsSettled ds (upsert_directory i r) f ys h = h
  made-IsSettled ds (upsert_file u i r) none ys h = h
  made-IsSettled ds (upsert_file u i r) (some f) ys h =
      elim (Bool-cases (replacing_directory ds r.path)) [ inl e ↦ rw e h | inr e ↦ rw e h ]
  made-IsSettled ds (upsert_symlink i r) f ys h =
      elim (Bool-cases (replacing_directory ds r.path)) [ inl e ↦ rw e h | inr e ↦ rw e h ]

  -- What is done from a path on is not below a directory that the path has left behind.
  schedule-IsOutside :
      (d p : RelativePath) (pending : List (Directory File)) (changes : Changes File)
      → IsPast d p
      → AllDirectories (IsOutside d) pending
      → AllPaths (IsOutside d) (schedule (some p) pending changes).0
  unfolding schedule
  schedule-IsOutside d p pending [] past hs = close_all-AllPaths (IsOutside d) pending hs
  schedule-IsOutside d p pending ((o, f) ∷ rest) past hs =
      let q = operation_path o in
      let still = kept q pending in
      elim (Bool-cases (out_of_order (some p) q)) [
        | inl e ↦ rw (schedule, e) tt
        | inr e ↦ elim (Bool-cases (mismatched o f)) [
          | inl h ↦ rw (schedule, e, h) tt
          | inr h ↦
              let past' = IsPast-later d p q past (in_order-le p q e) in
              let out = IsPast-IsOutside d q past' in
              let hs' = kept-AllDirectories (IsOutside d) q pending hs in
              rw (schedule, e, h)
                (All-append _ (left q pending) _ (left-AllPaths (IsOutside d) q pending hs) (
                  All-append _ (made still o f) _ (made-AllPaths (IsOutside d) still o f out) (
                    schedule-IsOutside d q (deferred still o f) rest past'
                      (deferred-AllDirectories (IsOutside d) still o f out hs'))))
        ]
      ]

  kept-past :
      (q : RelativePath) (d : Directory File) (ds : List (Directory File))
      → starts_with q.components d.path.components ≡ false
      → kept q (d ∷ ds) ≡ kept q ds
  unfolding kept
  kept-past q d ds e = rw (kept, e) refl

  -- The directories that `q` leaves, then changes that are not below what `q` is past.
  left-IsSettled :
      (q : RelativePath) (ds still : List (Directory File)) (ys : List (Step File))
      → still ≡ kept q ds
      → IsUpTo q ds
      → IsStack ds
      → IsSettled ys
      → ((d : RelativePath)
          → IsPast d q
          → AllDirectories (IsOutside d) still
          → AllPaths (IsOutside d) ys)
      → IsSettled (left q ds ++ ys)
  unfolding left
  left-IsSettled q [] still ys same up stack h k = h
  left-IsSettled q (d ∷ ds) still ys same (u, us) (s, ss) h k =
      elim (Bool-cases (starts_with q.components d.path.components)) [
        | inl e ↦ rw e h
        | inr e ↦
            let same' = same ∙ kept-past q d ds e in
            let below = below-IsOutside d.path ds s in
            let out =
              subst (AllDirectories (IsOutside d.path)) (sym same')
                (kept-AllDirectories (IsOutside d.path) q ds below) in
            rw (e, append_assoc (close d.path d.actions) (left q ds) ys)
              (close-IsSettled d.path d.actions (left q ds ++ ys)
                (All-append _ (left q ds) ys (left-AllPaths (IsOutside d.path) q ds below)
                  (k d.path (left_behind-IsPast d.path q u e) out))
                (left-IsSettled q ds still ys same' us ss h k))
      ]

  schedule_from-IsSettled :
      (previous : Option RelativePath) (pending : List (Directory File)) (changes : Changes File)
      → IsStack pending
      → ((q : RelativePath) → out_of_order previous q ≡ false → IsUpTo q pending)
      → IsSettled (schedule previous pending changes).0
  unfolding schedule
  schedule_from-IsSettled previous pending [] stack up = close_all-IsSettled pending stack
  schedule_from-IsSettled previous pending ((o, f) ∷ rest) stack up =
      let q = operation_path o in
      let still = kept q pending in
      let next = deferred still o f in
      elim (Bool-cases (out_of_order previous q)) [
        | inl e ↦ rw (schedule, e) tt
        | inr e ↦ elim (Bool-cases (mismatched o f)) [
          | inl h ↦ rw (schedule, e, h) tt
          | inr h ↦
              let up' = kept-AllDirectories _ q pending (up q e) in
              rw (schedule, e, h)
                (left-IsSettled q pending still _ refl (up q e) stack
                  (made-IsSettled still o f _ (
                    schedule_from-IsSettled (some q) next rest
                      (deferred-IsStack still o f up' (kept-IsStack q pending stack))
                      (λ q' e'.
                        All-map next (λ d k. path_le_trans d.path q q' k (in_order-le q q' e'))
                          (deferred-AllDirectories _ still o f (path_le_self q) up'))))
                  (λ d past out.
                    All-append _ (made still o f) _
                      (made-AllPaths (IsOutside d) still o f (IsPast-IsOutside d q past))
                      (schedule-IsOutside d q next rest past (
                        deferred-AllDirectories (IsOutside d) still o f (IsPast-IsOutside d q past)
                          out))))
        ]
      ]

  schedule-IsSettled : (changes : Changes File) → IsSettled (schedule none [] changes).0
  schedule-IsSettled changes = schedule_from-IsSettled none [] changes tt (λ q e. tt)

  -- For every way to make the changes, a commit makes those of a schedule, in its order, up to the
  -- first that fails, whose error it returns; where none fails, it returns what the schedule says. In
  -- the schedule, once a directory that is left is removed, is given its metadata, or a file or a link
  -- is put in its place, no later change is below it.
  pub commit-IsSettled :
      {World : Type 0} (installer : Installer World File) (changes : Changes File) (w : World)
      → (commit installer changes w
          ≡ replay installer (schedule none [] changes).0 (schedule none [] changes).1 w)
        × IsSettled (schedule none [] changes).0
  commit-IsSettled installer changes w =
      (commit-replay installer changes w, schedule-IsSettled changes)
