-- ===== src/Commit/Times.antt =====
-- The time of a link in crates/quicsync-core/src/sync/commit.rs, and what
-- crates/quicsync-core/src/filesystem/metadata.rs reads of it.
use quic_sync.Base.{ℕ, ◌+◌, ◌-◌, ◌*◌, ◌/◌, ◌%◌, ◌^◌, ◌<◌, ◌≡◌, refl, ap, ok, lt→ltb, arith}
use quic_sync.Base.Words.{ℤ, pos, negsuc}
use quic_sync.Metadata.{mtime_ns, nanos_per_second}
use quic_sync.Commit.Install.{div_euclid, rem_euclid, as_i64, times_of}

-- Whole seconds from 1970 on, rounded down, fit an `i64`.
abbrev pub IsI64Seconds : ℤ → Type 0
IsI64Seconds (pos n) = n < 2 ^ 63 * nanos_per_second
IsI64Seconds (negsuc n) = n < 2 ^ 63 * nanos_per_second

as_i64-div_euclid :
    (t : ℤ)
    → IsI64Seconds t
    → as_i64 (div_euclid t nanos_per_second) ≡ ok (div_euclid t nanos_per_second)
unfolding as_i64 div_euclid
as_i64-div_euclid (pos n) h = rw (lt→ltb (n / nanos_per_second) (2 ^ 63) (omega arith)) refl
as_i64-div_euclid (negsuc n) h = rw (lt→ltb (n / nanos_per_second) (2 ^ 63) (omega arith)) refl

mtime_ns-euclid :
    (t : ℤ) → mtime_ns (div_euclid t nanos_per_second) (rem_euclid t nanos_per_second) ≡ t
unfolding mtime_ns div_euclid rem_euclid
mtime_ns-euclid (pos n) = ap pos (omega arith)
mtime_ns-euclid (negsuc n) =
    rw
      (lt→ltb (nanos_per_second - 1 - n % nanos_per_second)
        ((n / nanos_per_second + 1) * nanos_per_second) (omega arith))
      (ap negsuc (omega arith))

rem_euclid-lt : (t : ℤ) → rem_euclid t nanos_per_second < nanos_per_second
unfolding rem_euclid
rem_euclid-lt (pos n) = omega arith
rem_euclid-lt (negsuc n) = omega arith

-- A time of modification whose seconds fit an `i64` is given to a link as seconds and nanoseconds below
-- a second, of which a scan makes the same time again.
pub times_of-mtime_ns :
    (t : ℤ)
    → IsI64Seconds t
    → (seconds : ℤ) × (nanos : ℕ) × (times_of t ≡ ok (seconds, nanos))
      × (nanos < nanos_per_second)
      × (mtime_ns seconds nanos ≡ t)
unfolding times_of
times_of-mtime_ns t h = (
  div_euclid t nanos_per_second,
  rem_euclid t nanos_per_second,
  rw (times_of, as_i64-div_euclid t h) refl,
  rem_euclid-lt t,
  mtime_ns-euclid t,
)
