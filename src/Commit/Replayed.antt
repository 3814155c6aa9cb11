-- ===== src/Commit/Replayed.antt =====
-- What crates/quicsync-core/src/sync/commit.rs does, compared with its schedule.
use quic_sync.Base.{
  ◌≡◌, ◌∙◌, refl, sym, ap, Bool, true, false, Bool-cases, inl, inr, Option, none, some, List, [],
  ◌∷◌, ◌++◌, if◌then◌else◌, ok, err,
}
use quic_sync.Types.{RelativePath, directory, regular_file, symlink}
use quic_sync.Error.{Fallible}
use quic_sync.Messages.{
  Operation, operation_path, upsert_directory, upsert_file, upsert_symlink, delete,
}
use quic_sync.System.{Io, then_do}
use quic_sync.Commit.{
  Installer, Action, Directory, starts_with, replacing_directory, out_of_order, mismatched, perform,
  perform_all, finish_directory, leave, finish, apply_operation, apply_all, Changes, commit,
}
use quic_sync.Commit.Schedule.{
  Step, make, take_away, put, put_link, close, close_all, left, kept, made, deferred, schedule,
  step, replay,
}

module _ {World File : Type 0} (installer : Installer World File) where
  -- The changes, then the value.
  abbrev Replayed {ℓ} : {A : Type ℓ} → List (Step File) → A → World → World × Fallible A
  Replayed steps a w = then_do (replay installer steps (ok tt) w) (λ _ v. (v, ok a))

  then_do-then_do {ℓ κ μ} :
      {A : Type ℓ} {B : Type κ} {C : Type μ} (first : World × Fallible A) (f : A → Io World B)
      (g : B → Io World C)
      → then_do (then_do first f) g ≡ then_do first (λ a w. then_do (f a w) g)
  then_do-then_do (w, ok a) f g = refl
  then_do-then_do (w, err e) f g = refl

  then_do-ok : (out : World × Fallible (Unit {0})) → then_do out (λ u w. (w, ok u)) ≡ out
  then_do-ok (w, ok u) = refl
  then_do-ok (w, err e) = refl

  then_do_cong {ℓ κ} :
      {A : Type ℓ} {B : Type κ} (first : World × Fallible A) (f g : A → Io World B)
      → ((a : A) (w : World) → f a w ≡ g a w)
      → then_do first f ≡ then_do first g
  then_do_cong (w, ok a) f g h = h a w
  then_do_cong (w, err e) f g h = refl

  replay-append :
      (xs ys : List (Step File)) (r : Fallible (Unit {0})) (w : World)
      → replay installer (xs ++ ys) r w
        ≡ then_do (replay installer xs (ok tt) w) (λ _. replay installer ys r)
  unfolding replay
  replay-append [] ys r w = refl
  replay-append (x ∷ xs) ys r w =
      then_do_cong (step installer x w) _ _ (λ u v. replay-append xs ys r v)
      ∙ sym (then_do-then_do (step installer x w) _ _)

  perform_all-replay :
      (path : RelativePath) (as' : List (Action File)) (w : World)
      → perform_all installer path as' w ≡ replay installer (close path as') (ok tt) w
  unfolding perform_all close replay
  perform_all-replay path [] w = refl
  perform_all-replay path (a ∷ rest) w =
      then_do_cong (perform installer path a w) _ _ (λ u v. perform_all-replay path rest v)

  -- The actions of a directory, then more changes.
  closed-then :
      (d : Directory File) (ys : List (Step File)) (r : Fallible (Unit {0})) (w : World)
      → replay installer (close d.path d.actions ++ ys) r w
        ≡ then_do (finish_directory installer d w) (λ _. replay installer ys r)
  closed-then d ys r w =
      replay-append (close d.path d.actions) ys r w
      ∙ ap (λ (o : World × Fallible (Unit {0})). then_do o (λ _. replay installer ys r))
          (sym (perform_all-replay d.path d.actions w))

  finish-replay :
      (ds : List (Directory File)) (w : World)
      → finish installer ds w ≡ replay installer (close_all ds) (ok tt) w
  unfolding finish close_all replay
  finish-replay [] w = refl
  finish-replay (d ∷ ds) w =
      then_do_cong (finish_directory installer d w) _ _ (λ u v. finish-replay ds v)
      ∙ sym (closed-then d (close_all ds) (ok tt) w)

  leave-replay :
      (path : RelativePath) (ds : List (Directory File)) (w : World)
      → leave installer path ds w ≡ Replayed (left path ds) (kept path ds) w
  unfolding leave left kept replay
  leave-replay path [] w = refl
  leave-replay path (d ∷ ds) w = elim (Bool-cases (starts_with path.components d.path.components)) [
    | inl e ↦ rw (leave, left, kept, e) refl
    | inr e ↦
        rw (leave, left, kept, e)
          (then_do_cong (finish_directory installer d w) _ _ (λ u v. leave-replay path ds v)
            ∙ sym (then_do-then_do (finish_directory installer d w) _ _)
            ∙ ap (λ (o : World × Fallible (Unit {0})). then_do o (λ _ v. (v, ok (kept path ds))))
                (sym (closed-then d (left path ds) (ok tt) w)))
  ]

  at_once {ℓ} :
      {A : Type ℓ} (a : A) (s : Step File) (w : World)
      → then_do (step installer s w) (λ _ v. (v, ok a)) ≡ Replayed (s ∷ []) a w
  unfolding replay
  at_once a s w = sym (then_do-then_do (step installer s w) _ _)

  at_once_or_later :
      (b : Bool) (now later : List (Directory File)) (s : Step File) (w : World)
      → (if b then (w, ok later) else then_do (step installer s w) (λ _ v. (v, ok now)))
        ≡ Replayed (if b then [] else s ∷ []) (if b then later else now) w
  unfolding replay
  at_once_or_later true now later s w = refl
  at_once_or_later false now later s w = at_once now s w

  apply_operation-replay :
      (pending : List (Directory File)) (o : Operation) (f : Option File) (w : World)
      → mismatched o f ≡ false
      → apply_operation installer pending o f w
        ≡ Replayed (made pending o f) (deferred pending o f) w
  unfolding apply_operation made deferred replay
  apply_operation-replay pending (delete i p directory) f w h = refl
  apply_operation-replay pending (delete i p regular_file) f w h = at_once pending (take_away p) w
  apply_operation-replay pending (delete i p symlink) f w h = at_once pending (take_away p) w
  apply_operation-replay pending (upsert_directory i r) f w h = at_once _ (make r.path r.metadata) w
  apply_operation-replay pending (upsert_file u i r) none w h = cc
  apply_operation-replay pending (upsert_file u i r) (some f) w h =
      at_once_or_later (replacing_directory pending r.path) pending _ (put f r.path r.metadata) w
  apply_operation-replay pending (upsert_symlink i r) f w h =
      at_once_or_later (replacing_directory pending r.path) pending _ (put_link r) w

  replayed-then {ℓ} :
      {A : Type ℓ} (steps : List (Step File)) (a : A) (w : World) {out : World × Fallible A}
      → out ≡ Replayed steps a w
      → (g : A → Io World (Unit {0}))
      → then_do out g ≡ then_do (replay installer steps (ok tt) w) (λ _. g a)
  replayed-then {A = A} steps a w h g =
      ap (λ (o : World × Fallible A). then_do o g) h
      ∙ then_do-then_do (replay installer steps (ok tt) w) _ g

  -- Directories are left, an operation is done, and more changes follow.
  round-replay :
      (xs ys : List (Step File)) (zs : List (Step File)) (r : Fallible (Unit {0})) (w : World)
      → replay installer (xs ++ (ys ++ zs)) r w
        ≡ then_do
            (replay installer xs (ok tt) w)
            (λ _ v. then_do (replay installer ys (ok tt) v) (λ _. replay installer zs r))
  round-replay xs ys zs r w =
      replay-append xs (ys ++ zs) r w
      ∙ then_do_cong (replay installer xs (ok tt) w) _ _ (λ u v. replay-append ys zs r v)

  apply_all-replay :
      (previous : Option RelativePath) (pending : List (Directory File)) (changes : Changes File)
      (w : World)
      → let planned = schedule previous pending changes in
        apply_all installer previous pending changes w ≡ replay installer planned.0 planned.1 w
  unfolding apply_all schedule replay
  apply_all-replay previous pending [] w = finish-replay pending w
  apply_all-replay previous pending ((o, f) ∷ rest) w =
      elim (Bool-cases (out_of_order previous (operation_path o))) [
        | inl e ↦ rw (apply_all, schedule, e) refl
        | inr e ↦ elim (Bool-cases (mismatched o f)) [
          | inl h ↦ rw (apply_all, schedule, e, h) refl
          | inr h ↦
              let path = operation_path o in
              let still = kept path pending in
              let next = deferred still o f in
              let later = schedule (some path) next rest in
              rw (apply_all, schedule, e, h)
                (replayed-then (left path pending) still w (leave-replay path pending w) _
                  ∙ then_do_cong (replay installer (left path pending) (ok tt) w) _ _ (λ u v.
                    replayed-then (made still o f) next v (apply_operation-replay still o f v h) _
                    ∙ then_do_cong (replay installer (made still o f) (ok tt) v) _ _
                        (λ u' v'. apply_all-replay (some path) next rest v'))
                  ∙ sym (round-replay (left path pending) (made still o f) later.0 later.1 w))
        ]
      ]

  pub commit-replay :
      (changes : Changes File) (w : World)
      → commit installer changes w
        ≡ replay installer (schedule none [] changes).0 (schedule none [] changes).1 w
  unfolding commit
  commit-replay changes w = apply_all-replay none [] changes w
