-- ===== src/Ignore/Decision.antt =====
-- The decision of crates/quicsync-core/src/filesystem/ignore.rs on every branch, and the policy after
-- a directory.
use quic_sync.Base.{
  ◌≡◌, ◌≢◌, List, [], ◌∷◌, ap, if◌then◌else◌, refl, sym, ◌∙◌, ◌⊎◌, inl, inr, Bool, true, false,
  Bool-cases,
}
use quic_sync.Types.{RelativePath, EntryKind}
use quic_sync.Ignore.{
  Gitignore, IgnorePolicy, IgnoreDecision, managed, ignored, protected, decision, is_protected,
  Match, no_match, ignore, whitelist, after_match, rule_match, is_ignored,
}

pub IgnoreDecision-cases : (d : IgnoreDecision) → (d ≡ managed) ⊎ (d ≡ ignored) ⊎ (d ≡ protected)
IgnoreDecision-cases managed = inl refl
IgnoreDecision-cases ignored = inr (inl refl)
IgnoreDecision-cases protected = inr (inr refl)

-- The last match that says something, and what it decides.
unfoldable pub last_match : List Match → Match
last_match [] = no_match
last_match (m ∷ ms) = elim (last_match ms) [
  | no_match ↦ m
  | ignore ↦ ignore
  | whitelist ↦ whitelist
]

unfoldable pub verdict : Match → IgnoreDecision
verdict no_match = managed
verdict ignore = ignored
verdict whitelist = managed

after_match-twice :
    (m k : Match) (was : Bool)
    → after_match k (after_match m was)
      ≡ after_match (elim k [ no_match ↦ m | ignore ↦ ignore | whitelist ↦ whitelist ]) was
after_match-twice m no_match was = refl
after_match-twice m ignore was = refl
after_match-twice m whitelist was = refl

verdict-after_match : (m : Match) → (if after_match m false then ignored else managed) ≡ verdict m
unfolding verdict
verdict-after_match no_match = refl
verdict-after_match ignore = refl
verdict-after_match whitelist = refl

module _ {Builder Matcher : Type 0} (crate : Gitignore Builder Matcher) where
  decision-protected :
      (policy : IgnorePolicy Matcher) (path : RelativePath) (kind : EntryKind)
      → is_protected path ≡ true
      → decision crate policy path kind ≡ protected
  unfolding decision
  decision-protected policy path kind h = rw (decision, h) refl

  pub decision-managed :
      (policy : IgnorePolicy Matcher) (path : RelativePath) (kind : EntryKind)
      → decision crate policy path kind ≡ managed
      → is_protected path ≡ false
  decision-managed policy path kind h = elim (Bool-cases (is_protected path)) [
    | inl e ↦ absurd (ne (sym (decision-protected policy path kind e) ∙ h))
    | inr e ↦ e
  ]
    where
      ne : protected ≢ managed
      ne e = cc

  unfoldable pub matches : IgnorePolicy Matcher → RelativePath → EntryKind → List Match
  matches [] path kind = []
  matches (rules ∷ rest) path kind = rule_match crate rules path kind ∷ matches rest path kind

  is_ignored-last_match :
      (was : Bool) (policy : IgnorePolicy Matcher) (path : RelativePath) (kind : EntryKind)
      → is_ignored crate was policy path kind
        ≡ after_match (last_match (matches policy path kind)) was
  unfolding is_ignored last_match matches
  is_ignored-last_match was [] path kind = refl
  is_ignored-last_match was (rules ∷ rest) path kind =
      is_ignored-last_match (after_match (rule_match crate rules path kind) was) rest path kind
      ∙ after_match-twice (rule_match crate rules path kind) (last_match (matches rest path kind))
          was

  -- A path with a protected component is protected whatever the rules say. Any other is ignored where
  -- the last rule set that matches it ignores it, and managed where that one allows it or none
  -- matches.
  pub decision-last_match :
      (policy : IgnorePolicy Matcher) (path : RelativePath) (kind : EntryKind)
      → decision crate policy path kind
        ≡ (if is_protected path then protected else verdict (last_match (matches policy path kind)))
  unfolding decision
  decision-last_match policy path kind =
      ap (λ d. if is_protected path then protected else d)
        (ap (λ b. if b then ignored else managed) (is_ignored-last_match false policy path kind)
          ∙ verdict-after_match (last_match (matches policy path kind)))
