-- ===== src/Ignore.antt =====
-- crates/quicsync-core/src/filesystem/ignore.rs: which entries are managed. The matcher of the crate
-- `ignore` is a parameter.
pub mod Decision
use quic_sync.Base.{
  ℕ, Bool, true, false, ◌||◌, Option, none, some, List, [], ◌∷◌, ◌++◌, length, take, ◌==◌,
  if◌then◌else◌, ok, err, ◌>>=◌,
}
use quic_sync.Base.Words.{Bytes}
use quic_sync.Types.{RelativePath, EntryKind, directory, regular_file, symlink, bytes_eq}
use quic_sync.Messages.Utf8.{is_utf8}
use quic_sync.Error.{Fallible, failed_with, invalid_configuration}
use quic_sync.Paths.{is_protected_component}

abbrev pub gitignore_name : Bytes
gitignore_name = b'.' ∷ b'g' ∷ b'i' ∷ b't' ∷ b'i' ∷ b'g' ∷ b'n' ∷ b'o' ∷ b'r' ∷ b'e' ∷ []

pub data IgnoreDecision : Type 0 where
  managed ignored protected : IgnoreDecision

-- `ignore::Match`
pub data Match : Type 0 where
  no_match ignore whitelist : Match

-- `Gitignore` and its builder: a root, the lines added with the file they are from, and the test of
-- a path and its parents, with whether the path is a directory.
pub record Gitignore (Builder Matcher : Type 0) : Type 0 where
  pub new : List Bytes → Builder
  pub add_line : Builder → Option (List Bytes) → Bytes → Option Builder
  pub build : Builder → Option Matcher
  pub matched_path_or_any_parents : Matcher → List Bytes → Bool → Match

pub record ScopedRuleSet (Matcher : Type 0) : Type 0 where
  pub scope : Option RelativePath
  pub matcher : Matcher

abbrev pub IgnorePolicy : Type 0 → Type 0
IgnorePolicy Matcher = List (ScopedRuleSet Matcher)

abbrev pub empty : {Matcher : Type 0} → IgnorePolicy Matcher
empty = []

-- `str::lines`: a line ends with a newline, and a carriage return before it goes too.
unfoldable pub without_return : Bytes → Bytes
without_return [] = []
without_return (x ∷ []) = if x == 13 then [] else x ∷ []
without_return (x ∷ y ∷ rest) = x ∷ without_return (y ∷ rest)

unfoldable pub lines_from : Bytes → Bytes → List Bytes
lines_from [] [] = []
lines_from (c ∷ cs) [] = (c ∷ cs) ∷ []
lines_from current (b ∷ bs) =
    let ended = without_return current ∷ lines_from [] bs in
    let longer = lines_from (current ++ (b ∷ [])) bs in if b == 10 then ended else longer

-- `[String]::join("\n")`
unfoldable pub join_lines : List Bytes → Bytes
join_lines [] = []
join_lines (v ∷ []) = v
join_lines (v ∷ w ∷ vs) = v ++ (10 ∷ join_lines (w ∷ vs))

-- `slice::strip_prefix`
unfoldable pub strip_prefix : List Bytes → List Bytes → Option (List Bytes)
strip_prefix [] path = some path
strip_prefix (c ∷ cs) [] = none
strip_prefix (c ∷ cs) (d ∷ ds) =
    let rest = strip_prefix cs ds in if bytes_eq c d then rest else none

abbrev pub scope_components : Option RelativePath → List Bytes
scope_components none = []
scope_components (some p) = p.components

-- An empty remainder is no path.
abbrev nonempty : Option (List Bytes) → Option (List Bytes)
nonempty none = none
nonempty (some []) = none
nonempty (some (c ∷ cs)) = some (c ∷ cs)

unfoldable pub scoped_path : RelativePath → Option RelativePath → Option (List Bytes)
scoped_path path scope = nonempty (strip_prefix (scope_components scope) path.components)

unfoldable pub any_protected : List Bytes → Bool
any_protected [] = false
any_protected (c ∷ cs) = is_protected_component c || any_protected cs

unfoldable pub is_protected : RelativePath → Bool
is_protected path = any_protected path.components

abbrev pub is_directory : EntryKind → Bool
is_directory directory = true
is_directory regular_file = false
is_directory symlink = false

abbrev pub after_match : Match → Bool → Bool
after_match no_match was = was
after_match ignore was = true
after_match whitelist was = false

unfoldable pub checkpoint : {Matcher : Type 0} → IgnorePolicy Matcher → ℕ
checkpoint policy = length policy

-- `Vec::truncate`
unfoldable pub restore : {Matcher : Type 0} → IgnorePolicy Matcher → ℕ → IgnorePolicy Matcher
restore policy n = take n policy

module _ {Builder Matcher : Type 0} (crate : Gitignore Builder Matcher) where
  unfoldable pub add_lines : Builder → Option (List Bytes) → List Bytes → Fallible Builder
  add_lines builder from [] = ok builder
  add_lines builder from (line ∷ rest) = elim (crate.add_line builder from line) [
    | none ↦ err (failed_with invalid_configuration)
    | some builder' ↦ add_lines builder' from rest
  ]

  abbrev ignore_file : Option RelativePath → Option (List Bytes)
  ignore_file none = none
  ignore_file (some scope) = some (scope.components ++ (gitignore_name ∷ []))

  unfoldable pub build_matcher : Option RelativePath → Bytes → Fallible Matcher
  build_matcher scope contents =
      if is_utf8 contents
      then (add_lines (crate.new (scope_components scope)) (ignore_file scope)
            (lines_from [] contents)
          >>= λ builder. elim (crate.build builder) [
            | none ↦ err (failed_with invalid_configuration)
            | some matcher ↦ ok matcher
          ])
      else err (failed_with invalid_configuration)

  unfoldable pub add_ignore_contents :
      IgnorePolicy Matcher → Option RelativePath → Bytes → Fallible (IgnorePolicy Matcher)
  add_ignore_contents policy scope contents = build_matcher scope contents >>= λ matcher.
      ok (policy ++ (record { scope = scope; matcher = matcher } ∷ []))

  unfoldable pub with_configured_exclusions : List Bytes → Fallible (IgnorePolicy Matcher)
  with_configured_exclusions [] = ok empty
  with_configured_exclusions (v ∷ vs) = add_ignore_contents empty none (join_lines (v ∷ vs))

  abbrev pub rule_match : ScopedRuleSet Matcher → RelativePath → EntryKind → Match
  rule_match rules path kind = elim (scoped_path path rules.scope) [
    | none ↦ no_match
    | some scoped ↦ crate.matched_path_or_any_parents rules.matcher scoped (is_directory kind)
  ]

  -- The loop of `decision` over the rules left.
  unfoldable pub is_ignored : Bool → IgnorePolicy Matcher → RelativePath → EntryKind → Bool
  is_ignored was [] path kind = was
  is_ignored was (rules ∷ rest) path kind =
      is_ignored (after_match (rule_match rules path kind) was) rest path kind

  unfoldable pub decision : IgnorePolicy Matcher → RelativePath → EntryKind → IgnoreDecision
  decision policy path kind =
      if is_protected path
      then protected
      else if is_ignored false policy path kind
      then ignored
      else managed

  unfoldable pub manages : IgnorePolicy Matcher → RelativePath → EntryKind → Bool
  manages policy path kind = elim (decision policy path kind) [
    | managed ↦ true
    | ignored ↦ false
    | protected ↦ false
  ]
