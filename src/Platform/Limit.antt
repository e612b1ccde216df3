-- ===== src/Platform/Limit.antt =====
-- The guard of platform/limit.go against running out of file descriptors. What the system calls give is an
-- argument; `none` is their error.
use libmihomo_android.Base.{
  ℕ, ◌*◌, ◌/◌, ◌-◌, ℤ, pos, negsuc, Bool, true, false, Option, none, some, ◌≡◌, refl, ltb,
}
use native.Mathlib.Omega.{arith}

-- `nullFd` and `maxFdCount`
pub record Guard : Type 0 where
  pub null_fd : ℤ
  pub max_fd_count : ℕ

-- `fdSafetyDenom` and `fdRlimitFallback`
abbrev fd_safety_denom : ℕ
fd_safety_denom = 4

abbrev fd_rlimit_fallback : ℕ
fd_rlimit_fallback = 1024

unfoldable pub rlimit_or_fallback : Option ℕ → ℕ
rlimit_or_fallback none = fd_rlimit_fallback
rlimit_or_fallback (some limit) = limit

-- `init`, on the descriptor of /dev/null and the limit of the process.
unfoldable pub init : Option ℕ → Option ℕ → Guard
unfolding rlimit_or_fallback
init none limit = record { null_fd = negsuc 0; max_fd_count = 0 }
init (some fd) limit = record {
  null_fd = pos fd;
  max_fd_count = rlimit_or_fallback limit * (fd_safety_denom - 1) / fd_safety_denom;
}

-- `ShouldBlockConnection`, on the descriptor that a dup of the null descriptor gives.
unfoldable pub should_block_connection : Guard → Option ℕ → Bool
should_block_connection g dup = elim g.null_fd [
  | negsuc n ↦ false
  | pos null ↦ elim dup [ none ↦ true | some fd ↦ ltb g.max_fd_count fd ]
]

floor_lem : (limit fd : ℕ) → ltb (limit * (4 - 1) / 4) fd ≡ ltb (3 * limit) (4 * fd)
floor_lem limit fd = ground arith

-- What the guard promises: without a limit that can be read it is that of 1024 descriptors.
unfoldable pub blocked : (null limit dup : Option ℕ) → Bool
blocked none limit dup = false
blocked (some null) limit none = true
blocked (some null) none (some fd) = ltb 3072 (4 * fd)
blocked (some null) (some limit) (some fd) = ltb (3 * limit) (4 * fd)

-- After `init`, a connection is refused exactly when no descriptor is left or the next one lies above three
-- quarters of the limit of the process; a guard that could not be opened refuses none.
pub should_block_connection-init :
    (null limit dup : Option ℕ)
    → should_block_connection (init null limit) dup ≡ blocked null limit dup
unfolding should_block_connection init rlimit_or_fallback blocked
should_block_connection-init none limit dup = refl
should_block_connection-init (some null) limit none = refl
should_block_connection-init (some null) none (some fd) = floor_lem 1024 fd
should_block_connection-init (some null) (some limit) (some fd) = floor_lem limit fd
