-- ===== src/Commit/Staged.antt =====
-- Changes staged in crates/quicsync-core/src/sync/commit.rs as their transfers end.
use mathlib.Core.Path.{subst}
use mathlib.Core.List.{Permᴰ}
use quic_sync.Base.{
  ◌>>=◌, >>=-eq-ok, ℕ, ◌≡◌, ◌≢◌, ◌∙◌, sym, refl, ap, Bool, true, false, Bool-cases, inl, inr,
  Option, List, [], ◌∷◌, ok, err, ok_inj, arith,
}
use quic_sync.Error.{Fallible}
use quic_sync.Messages.{Operation, operation_id}
use quic_sync.Commit.{Changes, contains_key, insert_change, mismatched, stage, refused}

module _ {File : Type 0} where
  insert_change_comm :
      (changes : Changes File) (o p : Operation) (f g : Option File)
      → operation_id o ≢ operation_id p
      → insert_change (insert_change changes o f) p g
        ≡ insert_change (insert_change changes p g) o f
  unfolding insert_change
  insert_change_comm [] o p f g h = ground arith
  insert_change_comm ((q, k) ∷ rest) o p f g h = ground (arith, insert_change_comm rest o p f g)

  insert_change-contains_key :
      (changes : Changes File) (o : Operation) (f : Option File) (id : ℕ)
      → operation_id o ≢ id
      → contains_key (insert_change changes o f) id ≡ contains_key changes id
  unfolding insert_change contains_key
  insert_change-contains_key [] o f id h = ground arith
  insert_change-contains_key ((q, k) ∷ rest) o f id h =
      ground (arith, insert_change-contains_key rest o f id)

  -- A change that is staged has the file that it needs, and an identifier that none before it has.
  stage-ok :
      (changes : Changes File) (o : Operation) (f : Option File) (after : Changes File)
      → stage changes o f ≡ ok after
      → (mismatched o f ≡ false)
        × (contains_key changes (operation_id o) ≡ false)
        × (insert_change changes o f ≡ after)
  unfolding stage
  stage-ok changes o f after h = elim (Bool-cases (mismatched o f)) [
    | inl e ↦ absurd (no_value (sym (rw (stage, e) refl) ∙ h))
    | inr e ↦ elim (Bool-cases (contains_key changes (operation_id o))) [
      | inl k ↦ absurd (no_value (sym (rw (stage, e, k) refl) ∙ h))
      | inr k ↦ (e, k, ok_inj (sym (rw (stage, e, k) refl) ∙ h))
    ]
  ]
    where
      no_value : err refused ≢ ok after
      no_value h = cc

  ok-stage :
      (changes : Changes File) (o : Operation) (f : Option File)
      → mismatched o f ≡ false
      → contains_key changes (operation_id o) ≡ false
      → stage changes o f ≡ ok (insert_change changes o f)
  unfolding stage
  ok-stage changes o f h k = rw (stage, h, k) refl

  contains_key-insert_change :
      (changes : Changes File) (o : Operation) (f : Option File)
      → contains_key (insert_change changes o f) (operation_id o) ≡ true
  unfolding insert_change contains_key
  contains_key-insert_change [] o f = ground (arith)
  contains_key-insert_change ((q, k) ∷ rest) o f =
      ground (arith, contains_key-insert_change rest o f)

  ids-apart :
      (changes : Changes File) (o p : Operation) (f : Option File)
      → contains_key (insert_change changes o f) (operation_id p) ≡ false
      → operation_id o ≢ operation_id p
  ids-apart changes o p f h e =
      differ
        (subst (λ id. contains_key (insert_change changes o f) id ≡ true) e
          (contains_key-insert_change changes o f))
        h
    where
      differ : {b : Bool} → b ≡ true → b ≢ false
      differ h k = cc

  stage-swap :
      (changes : Changes File) (o p : Operation) (f g : Option File) (one two : Changes File)
      → stage changes o f ≡ ok one
      → stage one p g ≡ ok two
      → (other : Changes File) × (stage changes p g ≡ ok other) × (stage other o f ≡ ok two)
  stage-swap changes o p f g one two h k =
      let (fits, new, e) = stage-ok changes o f one h in
      let (fits', new', e') = stage-ok one p g two k in
      let key = ap (λ c. contains_key c (operation_id p)) e ∙ new' in
      let apart = ids-apart changes o p f key in
      let swapped = insert_change_comm changes o p f g apart in
      let key' = insert_change-contains_key changes p g (operation_id o) (λ x. apart (sym x)) in
      (
        insert_change changes p g,
        ok-stage changes p g fits'
            (sym (insert_change-contains_key changes o f (operation_id p) apart) ∙ key),
        ok-stage (insert_change changes p g) o f fits (key' ∙ new)
            ∙ ap ok (sym swapped ∙ ap (λ c. insert_change c p g) e ∙ e'),
      )

  -- Changes staged one after another.
  unfoldable pub stage_all : Changes File → List (Operation × Option File) → Fallible (Changes File)
  stage_all changes [] = ok changes
  stage_all changes ((o, f) ∷ rest) = stage changes o f >>= λ after. stage_all after rest

  -- Where changes are staged without an error, so are they in any other order, and what is pending
  -- then is the same.
  pub stage_all-perm :
      (changes after : Changes File) (xs ys : List (Operation × Option File))
      → Permᴰ xs ys
      → stage_all changes xs ≡ ok after
      → stage_all changes ys ≡ ok after
  unfolding stage_all
  stage_all-perm changes after xs ys Permᴰ.nil h = h
  stage_all-perm changes after ((o, f) ∷ xs) (y ∷ ys) (Permᴰ.cons e d) h =
      let (one, k, more) = >>=-eq-ok (stage changes o f) _ h in
      subst (λ z. stage_all changes (z ∷ ys) ≡ ok after) e
        (rw (stage_all, k) (stage_all-perm one after xs ys d more))
  stage_all-perm changes after ((o, f) ∷ (p, g) ∷ xs) (p' ∷ o' ∷ ys) (Permᴰ.swap e e') h =
      let (one, k, more) = >>=-eq-ok (stage changes o f) _ h in
      let (two, k', rest) = >>=-eq-ok (stage one p g) _ more in
      let (other, j, j') = stage-swap changes o p f g one two k k' in
      subst (λ z. stage_all changes (z ∷ o' ∷ xs) ≡ ok after) e'
        (subst (λ z. stage_all changes ((p, g) ∷ z ∷ xs) ≡ ok after) e (rw (stage_all, j, j') rest))
  stage_all-perm changes after xs ys (Permᴰ.trans {l₂ = zs} d d') h =
      stage_all-perm changes after zs ys d' (stage_all-perm changes after xs zs d h)
