-- ===== src/Lifecycle.antt =====
-- `handleInitClash` of lifecycle.go, under `runLock`.
use libmihomo_android.Base.{
  ℕ, ◌-◌, ◌%◌, ◌^◌, ◌<◌, String, Bool, true, false, if◌then◌else◌, ℤ, pos, negsuc, ltb, Outcome, ok,
  err, ◌≡◌,
}
use native.Mathlib.Omega.{arith}

pub record InitParams : Type 0 where
  pub home_dir : String
  pub version : ℤ

-- `isInit`, `version`, and the home directory of mihomo.
pub record Lifecycle : Type 0 where
  pub is_init : Bool
  pub version : ℤ
  pub home_dir : String

-- The 32 bits of a number, and the signed number that they stand for.
unfoldable pub bits : ℤ → ℕ
bits (pos n) = n % 2 ^ 32
bits (negsuc n) = 2 ^ 32 - 1 - n % 2 ^ 32

unfoldable pub signed : ℕ → ℤ
signed b = if ltb b (2 ^ 31) then pos b else negsuc (2 ^ 32 - 1 - b)

-- `int32` of an int
unfoldable pub to_int32 : ℤ → ℤ
unfolding bits signed
to_int32 n = signed (bits n)

-- On what the decoder makes of the text.
unfoldable pub handle_init_clash : Outcome InitParams → Lifecycle → Lifecycle × Bool
unfolding to_int32
handle_init_clash (err why) s = (s, false)
handle_init_clash (ok params) s =
    (record { is_init = true; version = to_int32 params.version; home_dir = params.home_dir }, true)

abbrev pub Fits : ℤ → Type 0
Fits (pos n) = n < 2 ^ 31
Fits (negsuc n) = n < 2 ^ 31

-- A version that has 32 bits is kept as it is.
pub to_int32_lem : (n : ℤ) → Fits n → to_int32 n ≡ n
unfolding to_int32
to_int32_lem (pos n) h = ground (arith, h)
to_int32_lem (negsuc n) h = ground (arith, h)
