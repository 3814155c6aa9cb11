-- ===== src/Commit/Done.antt =====
-- What the schedule of crates/quicsync-core/src/sync/commit.rs has of an operation.
use mathlib.Core.Path.{subst}
use quic_sync.Base.{
  ◌≡◌, ◌≢◌, refl, ap, ◌⊎◌, true, false, Bool-cases, inl, inr, Option, none, some, List, [], ◌∷◌,
  ◌++◌, Exists, Exists-append_left, Exists-append_right, arith,
}
use quic_sync.Base.Words.{Bytes}
use quic_sync.Types.{RelativePath, directory, regular_file, symlink}
use quic_sync.Types.Comparison.{bytes_eq-eq}
use quic_sync.Messages.{Operation, upsert_directory, upsert_file, upsert_symlink, delete}
use quic_sync.Commit.{
  Action, remove, metadata, file, link, Directory, starts_with, defer, replacing_directory,
  mismatched, path_eq, components_eq,
}
use quic_sync.Commit.Schedule.{
  Step, make, take_away, put, put_link, closing, close, close_all, left, kept, made, deferred,
}

components_eq-eq : (a b : List Bytes) → components_eq a b ≡ true → a ≡ b
unfolding components_eq
components_eq-eq [] [] h = refl
components_eq-eq [] (y ∷ b) h = cc
components_eq-eq (x ∷ a) [] h = cc
components_eq-eq (x ∷ a) (y ∷ b) h = ground (arith, bytes_eq-eq x y, components_eq-eq a b)

path_eq-eq : (p q : RelativePath) → path_eq p q ≡ true → p ≡ q
path_eq-eq p q h =
    ap (λ (cs : List Bytes). record { components = cs })
      (components_eq-eq p.components q.components h)

module _ {File : Type 0} where
  abbrev pub Has : Step File → List (Step File) → Type 0
  Has s = Exists (λ x. x ≡ s)

  -- The action waits for its directory to be left.
  abbrev pub IsPending : RelativePath → Action File → List (Directory File) → Type 0
  IsPending p a = Exists (λ d. (d.path ≡ p) × Exists (λ b. b ≡ a) d.actions)

  close-Has :
      (p : RelativePath) (a : Action File) (actions : List (Action File))
      → Exists (λ b. b ≡ a) actions
      → Has (closing p a) (close p actions)
  unfolding close
  close-Has p a [] h = absurd h
  close-Has p a (b ∷ rest) (inl h) = inl (ap (closing p) h)
  close-Has p a (b ∷ rest) (inr h) = inr (close-Has p a rest h)

  closed-Has :
      (p : RelativePath) (a : Action File) (d : Directory File)
      → d.path ≡ p
      → Exists (λ b. b ≡ a) d.actions
      → Has (closing p a) (close d.path d.actions)
  closed-Has p a d e h =
      subst (λ q. Has (closing q a) (close d.path d.actions)) e (close-Has d.path a d.actions h)

  pub close_all-Has :
      (p : RelativePath) (a : Action File) (ds : List (Directory File))
      → IsPending p a ds
      → Has (closing p a) (close_all ds)
  unfolding close_all
  close_all-Has p a [] h = absurd h
  close_all-Has p a (d ∷ ds) (inl (e, h)) =
      Exists-append_left _ (close d.path d.actions) (close_all ds) (closed-Has p a d e h)
  close_all-Has p a (d ∷ ds) (inr h) =
      Exists-append_right _ (close d.path d.actions) (close_all ds) (close_all-Has p a ds h)

  pub left_or_kept :
      (q p : RelativePath) (a : Action File) (ds : List (Directory File))
      → IsPending p a ds
      → Has (closing p a) (left q ds) ⊎ IsPending p a (kept q ds)
  unfolding left kept
  left_or_kept q p a [] h = absurd h
  left_or_kept q p a (d ∷ ds) h = elim (Bool-cases (starts_with q.components d.path.components)) [
    | inl e ↦ rw e (inr h)
    | inr e ↦ rw e (elim h [
      | inl (same, k) ↦
          inl (Exists-append_left _ (close d.path d.actions) (left q ds) (closed-Has p a d same k))
      | inr k ↦ elim (left_or_kept q p a ds k) [
        | inl l ↦ inl (Exists-append_right _ (close d.path d.actions) (left q ds) l)
        | inr l ↦ inr l
      ]
    ])
  ]

  defer-keeps :
      (p : RelativePath) (a : Action File) (ds : List (Directory File)) (q : RelativePath)
      (b : Action File)
      → IsPending p a ds
      → IsPending p a (defer ds q b)
  unfolding defer
  defer-keeps p a [] q b h = absurd h
  defer-keeps p a (d ∷ ds) q b h = elim (Bool-cases (path_eq d.path q)) [
    | inr e ↦ rw e (inr h)
    | inl e ↦ rw e (elim h [
      | inl (same, k) ↦ inl (same, Exists-append_left _ d.actions (b ∷ []) k)
      | inr k ↦ inr k
    ])
  ]

  defer-adds :
      (ds : List (Directory File)) (q : RelativePath) (a : Action File)
      → IsPending q a (defer ds q a)
  unfolding defer
  defer-adds [] q a = inl (refl, inl refl)
  defer-adds (d ∷ ds) q a = elim (Bool-cases (path_eq d.path q)) [
    | inr e ↦ rw e (inl (refl, inl refl))
    | inl e ↦
        rw e (inl (path_eq-eq d.path q e, Exists-append_right _ d.actions (a ∷ []) (inl refl)))
  ]

  pub deferred-keeps :
      (p : RelativePath) (a : Action File) (ds : List (Directory File)) (o : Operation)
      (f : Option File)
      → IsPending p a ds
      → IsPending p a (deferred ds o f)
  unfolding deferred
  deferred-keeps p a ds (delete i q directory) f h = defer-keeps p a ds q remove h
  deferred-keeps p a ds (delete i q regular_file) f h = h
  deferred-keeps p a ds (delete i q symlink) f h = h
  deferred-keeps p a ds (upsert_directory i r) f h =
      defer-keeps p a ds r.path (metadata r.metadata) h
  deferred-keeps p a ds (upsert_file u i r) none h = h
  deferred-keeps p a ds (upsert_file u i r) (some f) h =
      elim (Bool-cases (replacing_directory ds r.path)) [
        | inl e ↦ rw e (defer-keeps p a ds r.path (file f r.metadata) h)
        | inr e ↦ rw e h
      ]
  deferred-keeps p a ds (upsert_symlink i r) f h =
      elim (Bool-cases (replacing_directory ds r.path)) [
        | inl e ↦ rw e (defer-keeps p a ds r.path (link r) h)
        | inr e ↦ rw e h
      ]

  -- What the schedule has of an operation.
  abbrev pub IsDone : Operation → Option File → List (Step File) → Type 0
  IsDone (delete i p directory) f ss = Has (closing p remove) ss
  IsDone (delete i p regular_file) f ss = Has (take_away p) ss
  IsDone (delete i p symlink) f ss = Has (take_away p) ss
  IsDone (upsert_directory i r) f ss =
      Has (make r.path r.metadata) ss × Has (closing r.path (metadata r.metadata)) ss
  IsDone (upsert_file u i r) none ss = ⊥
  IsDone (upsert_file u i r) (some f) ss =
      Has (put f r.path r.metadata) ss ⊎ Has (closing r.path (file f r.metadata)) ss
  IsDone (upsert_symlink i r) f ss = Has (put_link r) ss ⊎ Has (closing r.path (link r)) ss

  pub IsDone-append_right :
      (o : Operation) (f : Option File) (xs ys : List (Step File))
      → IsDone o f ys
      → IsDone o f (xs ++ ys)
  IsDone-append_right (delete i p directory) f xs ys h = Exists-append_right _ xs ys h
  IsDone-append_right (delete i p regular_file) f xs ys h = Exists-append_right _ xs ys h
  IsDone-append_right (delete i p symlink) f xs ys h = Exists-append_right _ xs ys h
  IsDone-append_right (upsert_directory i r) f xs ys (h, k) =
      (Exists-append_right _ xs ys h, Exists-append_right _ xs ys k)
  IsDone-append_right (upsert_file u i r) none xs ys h = h
  IsDone-append_right (upsert_file u i r) (some f) xs ys (inl h) =
      inl (Exists-append_right _ xs ys h)
  IsDone-append_right (upsert_file u i r) (some f) xs ys (inr h) =
      inr (Exists-append_right _ xs ys h)
  IsDone-append_right (upsert_symlink i r) f xs ys (inl h) = inl (Exists-append_right _ xs ys h)
  IsDone-append_right (upsert_symlink i r) f xs ys (inr h) = inr (Exists-append_right _ xs ys h)

  pub made-IsDone :
      (ds : List (Directory File)) (o : Operation) (f : Option File) (later : List (Step File))
      → mismatched o f ≡ false
      → ((p : RelativePath) (a : Action File)
          → IsPending p a (deferred ds o f)
          → Has (closing p a) later)
      → IsDone o f (made ds o f ++ later)
  unfolding made deferred
  made-IsDone ds (delete i p directory) f later h k = k p remove (defer-adds ds p remove)
  made-IsDone ds (delete i p regular_file) f later h k = inl refl
  made-IsDone ds (delete i p symlink) f later h k = inl refl
  made-IsDone ds (upsert_directory i r) f later h k =
      (inl refl, inr (k r.path (metadata r.metadata) (defer-adds ds r.path (metadata r.metadata))))
  made-IsDone ds (upsert_file u i r) none later h k = absurd (true_ne_false h)
    where
      true_ne_false : true ≢ false
      true_ne_false e = cc
  made-IsDone ds (upsert_file u i r) (some f) later h k =
      elim (Bool-cases (replacing_directory ds r.path)) [
        | inl e ↦ inr (
            Exists-append_right _ (made ds (upsert_file u i r) (some f)) later (
              k r.path (file f r.metadata)
                (rw (deferred, e) (defer-adds ds r.path (file f r.metadata)))))
        | inr e ↦ rw e (inl (inl refl))
      ]
  made-IsDone ds (upsert_symlink i r) f later h k =
      elim (Bool-cases (replacing_directory ds r.path)) [
        | inl e ↦ inr (
            Exists-append_right _ (made ds (upsert_symlink i r) f) later
              (k r.path (link r) (rw (deferred, e) (defer-adds ds r.path (link r)))))
        | inr e ↦ rw e (inl (inl refl))
      ]
