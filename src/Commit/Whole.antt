-- ===== src/Commit/Whole.antt =====
-- The operations in the schedule of crates/quicsync-core/src/sync/commit.rs.
use mathlib.Core.Path.{subst}
use quic_sync.Base.{
  ◌≡◌, ◌≢◌, ◌∙◌, sym, refl, ap, false, Bool-cases, inl, inr, Option, none, some, List, [], ◌∷◌,
  ◌++◌, All, Exists-append_left, Exists-append_right, ok, err,
}
use quic_sync.Types.{RelativePath}
use quic_sync.Error.{Fallible}
use quic_sync.Messages.{Operation, operation_path}
use quic_sync.Commit.{
  Action, Directory, out_of_order, Installer, commit, mismatched, Changes, refused,
}
use quic_sync.Commit.Schedule.{Step, closing, left, kept, made, deferred, schedule, replay}
use quic_sync.Commit.Replayed.{commit-replay}
use quic_sync.Scan.Names.{All-map}
use quic_sync.Commit.Done.{
  Has, IsPending, close_all-Has, left_or_kept, deferred-keeps, IsDone, IsDone-append_right,
  made-IsDone,
}

err_ne_ok : {A : Type 0} → ◌≡◌ {A = Fallible (Unit {0})} (err refused) (ok tt) → A
err_ne_ok h = absurd (ne h)
  where
    ne : ◌≢◌ {A = Fallible (Unit {0})} (err refused) (ok tt)
    ne e = cc

module _ {File : Type 0} where
  -- What waits is done in the end.
  schedule-Has :
      (p : RelativePath) (a : Action File) (previous : Option RelativePath)
      (pending : List (Directory File)) (changes : Changes File)
      → (schedule previous pending changes).1 ≡ ok tt
      → IsPending p a pending
      → Has (closing p a) (schedule previous pending changes).0
  unfolding schedule
  schedule-Has p a previous pending [] done h = close_all-Has p a pending h
  schedule-Has p a previous pending ((o, f) ∷ rest) done h =
      let q = operation_path o in
      let still = kept q pending in
      elim (Bool-cases (out_of_order previous q)) [
        | inl e ↦ err_ne_ok (rw (schedule, e) at done)
        | inr e ↦ elim (Bool-cases (mismatched o f)) [
          | inl m ↦ err_ne_ok (rw (schedule, e, m) at done)
          | inr m ↦
              let done' = rw (schedule, e, m) at done in
              rw (schedule, e, m)
                (elim (left_or_kept q p a pending h) [
                  | inl l ↦ Exists-append_left _ (left q pending) _ l
                  | inr l ↦ Exists-append_right _ (left q pending) _ (
                      Exists-append_right _ (made still o f) _ (
                        schedule-Has p a (some q) (deferred still o f) rest done'
                          (deferred-keeps p a still o f l)))
                ])
        ]
      ]

  abbrev AllDone : Changes File → List (Step File) → Type 0
  AllDone changes ss = All (λ c. IsDone c.0 c.1 ss) changes

  schedule-step :
      (previous : Option RelativePath) (pending : List (Directory File)) (o : Operation)
      (f : Option File) (rest : Changes File)
      → out_of_order previous (operation_path o) ≡ false
      → mismatched o f ≡ false
      → let still = kept (operation_path o) pending in
        let later = schedule (some (operation_path o)) (deferred still o f) rest in
        (schedule previous pending ((o, f) ∷ rest)).0
        ≡ left (operation_path o) pending ++ (made still o f ++ later.0)
  unfolding schedule
  schedule-step previous pending o f rest e m = rw (schedule, e, m) refl

  schedule_from-AllDone :
      (previous : Option RelativePath) (pending : List (Directory File)) (changes : Changes File)
      → (schedule previous pending changes).1 ≡ ok tt
      → AllDone changes (schedule previous pending changes).0
  unfolding schedule
  schedule_from-AllDone previous pending [] done = tt
  schedule_from-AllDone previous pending ((o, f) ∷ rest) done =
      let q = operation_path o in
      let still = kept q pending in
      let next = deferred still o f in
      elim (Bool-cases (out_of_order previous q)) [
        | inl e ↦ err_ne_ok (rw (schedule, e) at done)
        | inr e ↦ elim (Bool-cases (mismatched o f)) [
          | inl m ↦ err_ne_ok (rw (schedule, e, m) at done)
          | inr m ↦
              let done' = rw (schedule, e, m) at done in
              subst (AllDone ((o, f) ∷ rest)) (sym (schedule-step previous pending o f rest e m)) (
                IsDone-append_right o f (left q pending) _
                    (made-IsDone still o f _ m (λ p a. schedule-Has p a (some q) next rest done')),
                All-map rest
                    (λ c d.
                      IsDone-append_right c.0 c.1 (left q pending) _
                        (IsDone-append_right c.0 c.1 (made still o f) _ d))
                    (schedule_from-AllDone (some q) next rest done'),
              )
        ]
      ]

  -- Where the operations are in order and have the files that they need, a commit makes changes one by
  -- one up to the first that fails, and where none fails ends without an error. Among the changes is
  -- each operation: a directory deleted is removed when it is left, any other entry at once; a
  -- directory made is given its metadata when it is left; a file or a link is put in place at once, or
  -- when the directory pending at its path is left.
  pub commit-AllDone :
      {World : Type 0} (installer : Installer World File) (changes : Changes File) (w : World)
      → (schedule none [] changes).1 ≡ ok tt
      → (commit installer changes w ≡ replay installer (schedule none [] changes).0 (ok tt) w)
        × All (λ c. IsDone c.0 c.1 (schedule none [] changes).0) changes
  commit-AllDone installer changes w done = (
    commit-replay installer changes w
        ∙ ap (λ (r : Fallible (Unit {0})). replay installer (schedule none [] changes).0 r w) done,
    schedule_from-AllDone none [] changes done,
  )
