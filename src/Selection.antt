-- ===== src/Selection.antt =====
-- selection/selection.go: how a pick of the host reaches a group of the core.
pub mod Pins
use libmihomo_android.Base.{String, ◌==◌, Option, none, some, if◌then◌else◌}

-- `Selector`, over the state of the core; an error is its text.
pub record Selector (S : Type 0) : Type 0 where
  pub set : String → S → S × Option String
  pub force_set : String → S → S

-- `Apply`
unfoldable pub apply : {S : Type 0} → Selector S → String → S → S × Option String
apply sel name s = if name == "" then (sel.force_set "" s, none) else sel.set name s
