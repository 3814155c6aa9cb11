-- ===== src/System.antt =====
-- The calls of the operating system that crates/quicsync-core/src/filesystem/ and sync/commit.rs make
-- on descriptors, by `rustix` and the standard library: parameters, over a state of the world.
use quic_sync.Base.{ℕ, Bool, Option, List, Result, ok, err}
use quic_sync.Base.Words.{Bytes, ℤ}
use quic_sync.Error.{PeerError, Fallible}

-- Blocking code: it changes the world and returns a result.
abbrev pub Io {ℓ} : Type 0 → Type ℓ → Type ℓ
Io World A = World → World × Fallible A

abbrev pub then_do {ℓ κ} :
    {World : Type 0} {A : Type ℓ} {B : Type κ}
    → World × Fallible A
    → (A → Io World B)
    → World × Fallible B
then_do (w, err e) next = (w, err e)
then_do (w, ok a) next = next a w

pub data Errno : Type 0 where
  exist noent notdir loop other : Errno

pub data Flag : Type 0 where
  rdonly wronly directory_only nofollow nonblock cloexec create excl : Flag

-- `fstat`.
pub record Stat : Type 0 where
  pub dev : ℕ
  pub ino : ℕ
  pub uid : ℕ
  pub mode : ℕ
  pub is_file : Bool

abbrev pub Call {ℓ} : Type 0 → Type ℓ → Type ℓ
Call World A = World → World × Result Errno A

pub record System (World Fd Time : Type 0) : Type 0 where
  pub open_path : Bytes → List Flag → ℕ → Call World Fd
  pub dup : Fd → Call World Fd
  pub openat : Fd → Bytes → List Flag → ℕ → Call World Fd
  pub fstat : Fd → Call World Stat
  pub geteuid : World → ℕ
  pub mkdirat : Fd → Bytes → ℕ → Call World (Unit {0})
  pub fchmod : Fd → ℕ → Call World (Unit {0})
  -- whether a directory is removed
  pub unlinkat : Fd → Bytes → Bool → Call World (Unit {0})
  pub renameat : Fd → Bytes → Fd → Bytes → Call World (Unit {0})
  pub symlinkat : Bytes → Fd → Bytes → Call World (Unit {0})
  -- the time of modification only, of the link itself
  pub utimensat : Fd → Bytes → ℤ → ℕ → Call World (Unit {0})
  pub set_times : Fd → Time → Call World (Unit {0})
  pub write : Fd → Bytes → Call World (Unit {0})
  -- sixteen random bytes
  pub fill : Call World Bytes
  -- `UNIX_EPOCH.checked_sub` and `checked_add` of a `Duration`
  pub checked_sub : ℕ → ℕ → Option Time
  pub checked_add : ℕ → ℕ → Option Time

-- `map_err`
abbrev pub or_else {ℓ} :
    {World : Type 0} {A : Type ℓ}
    → World × Result Errno A
    → (Errno → PeerError)
    → World × Fallible A
or_else (w, ok a) change = (w, ok a)
or_else (w, err e) change = (w, err (change e))

abbrev pub fallible {ℓ} : {World : Type 0} {A : Type ℓ} → Fallible A → Io World A
fallible r w = (w, r)
