-- ===== src/Planner/Equality.antt =====
-- The derived equality of index records (types.rs), which `a != b` of `plan` uses.
use native.Mathlib.Decide.{ℕ_discrete}
use quic_sync.Base.{
  none, some, Bool-cases, inl, inr, sym, ◌∙◌, ◌≡◌, ◌≢◌, refl, Bool, true, false, Option,
}
use quic_sync.Base.Words.{ℤ}
use quic_sync.Types.{EntryKind, IndexRecord}

abbrev decide_eq : {A : Type 0} → Discrete A → A → A → Bool
decide_eq d a b = elim (d a b) [ yes _ ↦ true | no _ ↦ false ]

decide_eq-eq : {A : Type 0} (d : Discrete A) (a b : A) → decide_eq d a b ≡ true → a ≡ b
decide_eq-eq d a b h = go (d a b) h
  where
    go : (x : Dec (a ≡ b)) → elim x [ yes _ ↦ true | no _ ↦ false ] ≡ true → a ≡ b
    go (yes e) p = e
    go (no f) p = cc

decide_eq-ne : {A : Type 0} (d : Discrete A) (a b : A) → decide_eq d a b ≡ false → a ≢ b
decide_eq-ne d a b h = go (d a b) h
  where
    go : (x : Dec (a ≡ b)) → elim x [ yes _ ↦ true | no _ ↦ false ] ≡ false → a ≢ b
    go (yes e) p = cc
    go (no f) p = f

ℤ-discrete : Discrete ℤ
ℤ-discrete = hlevel ℕ_discrete

kind-discrete : Discrete EntryKind
kind-discrete = hlevel

entry-discrete : Discrete (Option IndexRecord)
unfolding ℤ-discrete kind-discrete
entry-discrete = hlevel (ℕ_discrete, ℤ-discrete, kind-discrete)

unfoldable pub kind_eq : EntryKind → EntryKind → Bool
unfolding kind-discrete
kind_eq = decide_eq kind-discrete

unfoldable pub option_eq : Option IndexRecord → Option IndexRecord → Bool
unfolding entry-discrete
option_eq = decide_eq entry-discrete

pub kind_eq-eq : (a b : EntryKind) → kind_eq a b ≡ true → a ≡ b
unfolding kind_eq
kind_eq-eq = decide_eq-eq kind-discrete

pub kind_eq-ne : (a b : EntryKind) → kind_eq a b ≡ false → a ≢ b
unfolding kind_eq
kind_eq-ne = decide_eq-ne kind-discrete

pub option_eq-eq : (a b : Option IndexRecord) → option_eq a b ≡ true → a ≡ b
unfolding option_eq
option_eq-eq = decide_eq-eq entry-discrete

pub option_eq-ne : (a b : Option IndexRecord) → option_eq a b ≡ false → a ≢ b
unfolding option_eq
option_eq-ne = decide_eq-ne entry-discrete

pub kind_eq_self : (a : EntryKind) → kind_eq a a ≡ true
kind_eq_self a = elim (Bool-cases (kind_eq a a)) [
  | inl e ↦ e
  | inr e ↦ absurd (kind_eq-ne a a e refl)
]

pub option_eq_self : (a : Option IndexRecord) → option_eq a a ≡ true
option_eq_self a = elim (Bool-cases (option_eq a a)) [
  | inl e ↦ e
  | inr e ↦ absurd (option_eq-ne a a e refl)
]

pub kind_eq_comm : (a b : EntryKind) → kind_eq a b ≡ kind_eq b a
kind_eq_comm a b = elim (Bool-cases (kind_eq a b)) [
  | inl e ↦ rw (e, kind_eq-eq a b e, kind_eq_self b) refl
  | inr e ↦ elim (Bool-cases (kind_eq b a)) [
    | inl f ↦ absurd (kind_eq-ne a b e (sym (kind_eq-eq b a f)))
    | inr f ↦ e ∙ sym f
  ]
]

pub option_eq-some-none : (a : IndexRecord) → option_eq (some a) none ≡ false
option_eq-some-none a = elim (Bool-cases (option_eq (some a) none)) [
  | inl e ↦ absurd (cc (option_eq-eq (some a) none e))
  | inr e ↦ e
]

pub option_eq-none-some : (a : IndexRecord) → option_eq none (some a) ≡ false
option_eq-none-some a = elim (Bool-cases (option_eq none (some a))) [
  | inl e ↦ absurd (cc (option_eq-eq none (some a) e))
  | inr e ↦ e
]
