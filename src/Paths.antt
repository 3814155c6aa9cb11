-- ===== src/Paths.antt =====
-- crates/quicsync-core/src/filesystem/paths.rs: the lexical gate. The walk through descriptors that
-- follows it is calls of the operating system.
pub mod Decoded
pub mod Appended
pub mod Resolve
use quic_sync.Base.{
  ℕ, ◌+◌, ◌-◌, Bool, true, false, ◌||◌, Option, none, some, List, [], ◌∷◌, ◌++◌, length, ltb, ◌==◌,
  if◌then◌else◌, ok, err, ◌>>=◌, map_err, ◌>>◌,
}
use quic_sync.Base.Words.{Bytes}
use quic_sync.Types.{RelativePath, bytes_eq, new_path}
use quic_sync.Error.{
  Fallible, failed_with, invalid_path, path_confinement_violation, resource_limit_exceeded,
}
use quic_sync.Config.{Limits}

-- `.quicsync` and `.git`
abbrev pub quicsync_name : Bytes
quicsync_name = b'.' ∷ b'q' ∷ b'u' ∷ b'i' ∷ b'c' ∷ b's' ∷ b'y' ∷ b'n' ∷ b'c' ∷ []

abbrev pub git_name : Bytes
git_name = b'.' ∷ b'g' ∷ b'i' ∷ b't' ∷ []

unfoldable pub is_protected_component : Bytes → Bool
is_protected_component c = bytes_eq c quicsync_name || bytes_eq c git_name

unfoldable pub reject_protected : List Bytes → Fallible (Unit {0})
reject_protected [] = ok tt
reject_protected (c ∷ cs) =
    let rest = reject_protected cs in
    if is_protected_component c then err (failed_with path_confinement_violation) else rest

-- `split(|byte| *byte == b'/')`: one component more than there are separators.
abbrev pub push_front : ℕ → List Bytes → List Bytes
push_front b [] = (b ∷ []) ∷ []
push_front b (c ∷ cs) = (b ∷ c) ∷ cs

unfoldable pub split : Bytes → List Bytes
split [] = [] ∷ []
split (b ∷ bs) = let rest = split bs in if b == b'/' then [] ∷ rest else push_front b rest

unfoldable pub decode_relative_path : Bytes → Limits → Fallible RelativePath
decode_relative_path wire limits =
    let components = split wire in
    if ltb limits.max_path_bytes (length wire)
    then err (failed_with resource_limit_exceeded)
    else if ltb limits.max_components (length components)
    then err (failed_with resource_limit_exceeded)
    else (map_err (λ e. failed_with invalid_path) (new_path components) >>= λ path.
        reject_protected path.components >> ok path)

-- crates/quicsync-core/src/filesystem/scan.rs: `append_component`; sums of `usize` that leave the
-- word are not modelled, since a path in memory is shorter.
unfoldable pub total_bytes : List Bytes → ℕ
total_bytes [] = 0
total_bytes (c ∷ cs) = length c + total_bytes cs

abbrev pub prefix_components : Option RelativePath → List Bytes
prefix_components none = []
prefix_components (some p) = p.components

unfoldable pub append_component : Option RelativePath → Bytes → Limits → Fallible RelativePath
append_component prefix component limits =
    let components = prefix_components prefix ++ (component ∷ []) in
    let path_bytes = total_bytes components + (length components - 1) in
    if ltb limits.max_components (length components)
    then err (failed_with resource_limit_exceeded)
    else if ltb limits.max_path_bytes path_bytes
    then err (failed_with resource_limit_exceeded)
    else map_err (λ e. failed_with invalid_path) (new_path components)
