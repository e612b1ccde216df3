-- ===== src/Config/Read.antt =====
-- `readFile` of common.go, with `os.Stat` and `os.ReadFile` as parameters.
use libmihomo_android.Base.{String, Outcome, err}

-- What `os.Stat` says of a path; an error other than that of a missing file does not end the call.
pub data Stat : Type 0 where
  found : Stat
  not_exist : String → Stat
  unknown : Stat

pub record Reader (S B : Type 0) : Type 0 where
  pub stat : String → S → Stat
  pub read : String → S → Outcome B

module _ {S B : Type 0} (r : Reader S B) where
  unfoldable pub read_file : String → S → Outcome B
  read_file path s = elim (r.stat path s) [
    | not_exist why ↦ err why
    | found ↦ r.read path s
    | unknown ↦ r.read path s
  ]
