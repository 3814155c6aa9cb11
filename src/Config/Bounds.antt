-- ===== src/Config/Bounds.antt =====
-- The limits that a configuration resolves to.
use mathlib.Core.Path.{subst}
use quic_sync.Base.{
  ℕ, ◌≤◌, ◌≡◌, sym, Option, none, some, ok, err, if◌then◌else◌, ◌>>◌, arith, refl, ltb,
}
use quic_sync.Error.{Fallible}
use quic_sync.Config.{
  Limits, RawLimits, most_frame_bytes, most_path_bytes, most_components, most_parallel_work,
  most_inflight_bytes, invalid, validate_limit, validate, with_defaults, unwrap_or, resolve,
}

abbrev IsWithin : ℕ → ℕ → Type 0
IsWithin most n = (1 ≤ n) × (n ≤ most)

pub record IsLimits (l : Limits) : Type 0 where
  pub frame : IsWithin 1073741824 l.max_frame_bytes
  pub path : IsWithin 1048576 l.max_path_bytes
  pub components : IsWithin 4096 l.max_components
  pub hashes : IsWithin 1024 l.max_parallel_hashes
  pub transfers : IsWithin 1024 l.max_parallel_transfers
  pub inflight : IsWithin 17179869184 l.max_inflight_bytes
  pub path_in_frame : l.max_path_bytes ≤ l.max_frame_bytes

validate_limit_within : (n most : ℕ) → IsWithin most n → validate_limit n most ≡ ok tt
unfolding validate_limit
validate_limit_within n most h = ground arith

validate_limit-eq-ok : (n most : ℕ) {u : Unit {0}} → validate_limit n most ≡ ok u → IsWithin most n
unfolding validate_limit
validate_limit-eq-ok n most h = ground arith

validate_within : (l : Limits) → IsLimits l → validate l ≡ ok l
unfolding validate
validate_within l h =
    rw
      (
        validate,
        validate_limit_within l.max_frame_bytes most_frame_bytes h.frame,
        validate_limit_within l.max_path_bytes most_path_bytes h.path,
        validate_limit_within l.max_components most_components h.components,
        validate_limit_within l.max_parallel_hashes most_parallel_work h.hashes,
        validate_limit_within l.max_parallel_transfers most_parallel_work h.transfers,
        validate_limit_within l.max_inflight_bytes most_inflight_bytes h.inflight,
      )
      (ground (arith, h.path_in_frame))

both-eq-ok :
    {B : Type 0} (m : Fallible (Unit {0})) (k : Fallible B) {b : B}
    → (m >> k) ≡ ok b
    → (m ≡ ok tt) × (k ≡ ok b)
both-eq-ok (ok tt) k h = (refl, h)
both-eq-ok (err e) k h = cc

if-eq-ok :
    (l k : Limits)
    → (if ltb l.max_frame_bytes l.max_path_bytes then err invalid else ok l) ≡ ok k
    → (k ≡ l) × (l.max_path_bytes ≤ l.max_frame_bytes)
if-eq-ok l k h = ground arith

validate-eq-ok : (l k : Limits) → validate l ≡ ok k → (k ≡ l) × IsLimits l
unfolding validate
validate-eq-ok l k h =
    let (h6, last) = both-eq-ok _ _ h in
    let (h5, inflight) = both-eq-ok _ _ h6 in
    let (h4, transfers) = both-eq-ok _ _ h5 in
    let (h3, hashes) = both-eq-ok _ _ h4 in
    let (h2, components) = both-eq-ok _ _ h3 in
    let (frame, path) = both-eq-ok _ _ h2 in
    let (same, fits) = if-eq-ok l k last in
    (
      same,
      record {
        frame = validate_limit-eq-ok l.max_frame_bytes most_frame_bytes frame;
        path = validate_limit-eq-ok l.max_path_bytes most_path_bytes path;
        components = validate_limit-eq-ok l.max_components most_components components;
        hashes = validate_limit-eq-ok l.max_parallel_hashes most_parallel_work hashes;
        transfers = validate_limit-eq-ok l.max_parallel_transfers most_parallel_work transfers;
        inflight = validate_limit-eq-ok l.max_inflight_bytes most_inflight_bytes inflight;
        path_in_frame = fits;
      },
    )

-- The value given, or the default where none is.
abbrev pub IsGiven : ℕ → Option ℕ → ℕ → Type 0
IsGiven default none n = n ≡ default
IsGiven default (some given) n = n ≡ given

pub record IsResolved (raw : RawLimits) (l : Limits) : Type 0 where
  pub frame : IsGiven 16777216 raw.max_frame_bytes l.max_frame_bytes
  pub path : IsGiven 16384 raw.max_path_bytes l.max_path_bytes
  pub components : IsGiven 256 raw.max_components l.max_components
  pub hashes : IsGiven 4 raw.max_parallel_hashes l.max_parallel_hashes
  pub transfers : IsGiven 4 raw.max_parallel_transfers l.max_parallel_transfers
  pub inflight : IsGiven 67108864 raw.max_inflight_bytes l.max_inflight_bytes

unwrap_or-IsGiven :
    (default : ℕ) (given : Option ℕ) → IsGiven default given (unwrap_or default given)
unwrap_or-IsGiven default none = refl
unwrap_or-IsGiven default (some given) = refl

IsGiven-unwrap_or :
    (default : ℕ) (given : Option ℕ) {n : ℕ} → IsGiven default given n → n ≡ unwrap_or default given
IsGiven-unwrap_or default none h = h
IsGiven-unwrap_or default (some given) h = h

with_defaults-IsResolved : (raw : RawLimits) → IsResolved raw (with_defaults raw)
with_defaults-IsResolved raw = record {
  frame = unwrap_or-IsGiven 16777216 raw.max_frame_bytes;
  path = unwrap_or-IsGiven 16384 raw.max_path_bytes;
  components = unwrap_or-IsGiven 256 raw.max_components;
  hashes = unwrap_or-IsGiven 4 raw.max_parallel_hashes;
  transfers = unwrap_or-IsGiven 4 raw.max_parallel_transfers;
  inflight = unwrap_or-IsGiven 67108864 raw.max_inflight_bytes;
}

IsResolved-with_defaults : (raw : RawLimits) (l : Limits) → IsResolved raw l → l ≡ with_defaults raw
IsResolved-with_defaults raw l h = λ i. record {
  max_frame_bytes = IsGiven-unwrap_or 16777216 raw.max_frame_bytes h.frame i;
  max_path_bytes = IsGiven-unwrap_or 16384 raw.max_path_bytes h.path i;
  max_components = IsGiven-unwrap_or 256 raw.max_components h.components i;
  max_parallel_hashes = IsGiven-unwrap_or 4 raw.max_parallel_hashes h.hashes i;
  max_parallel_transfers = IsGiven-unwrap_or 4 raw.max_parallel_transfers h.transfers i;
  max_inflight_bytes = IsGiven-unwrap_or 67108864 raw.max_inflight_bytes h.inflight i;
}

-- Raw limits resolve to limits exactly where each of these is the raw limit of the same name, or,
-- where that is missing, its default (16 MiB for a frame, 16 KiB for a path, 256 components, 4 hashes
-- and 4 transfers at a time, 64 MiB in flight), and all are in range; in range means between 1 and the
-- maximum (1 GiB for a frame, 1 MiB for a path, 4096 components, 1024 hashes or transfers, 16 GiB in
-- flight), and a path no longer than a frame.
pub resolve_iff :
    (raw : RawLimits) (l : Limits)
    → (resolve raw ≡ ok l → IsResolved raw l × IsLimits l)
      × (IsResolved raw l → IsLimits l → resolve raw ≡ ok l)
unfolding resolve
resolve_iff raw l = (
  λ h.
      let (same, fits) = validate-eq-ok (with_defaults raw) l h in
      (subst (IsResolved raw) (sym same) (with_defaults-IsResolved raw), rw same fits),
  λ given fits. rw (← IsResolved-with_defaults raw l given) (validate_within l fits),
)
