-- ===== src/Base/Results.antt =====
-- What a call with a Go error returns.
use Prim.Native.String.{String}

pub data Outcome {ℓ} (A : Type ℓ) : Type ℓ where
  ok : A → Outcome A
  err : String → Outcome A
