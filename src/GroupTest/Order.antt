-- ===== src/GroupTest/Order.antt =====
-- `Order` of grouptest/grouptest.go: the groups under the roots, children first, each once.
pub mod Path
pub mod Visit
pub mod Ends
pub mod Correct
use libmihomo_android.Base.{
  ℕ, zero, suc, String, List, [], ◌∷◌, ◌++◌, Option, none, some, ◌>>=◌, if◌then◌else◌, contains,
  fold_m,
}

-- The variables that the closure `visit` shares: the keys of `seen`, and `out`.
pub record Walk : Type 0 where
  pub seen : List String
  pub out : List String

abbrev pub empty : Walk
empty = record { seen = []; out = [] }

abbrev pub mark : String → Walk → Walk
mark name s = record s { seen = name ∷ s.seen }

abbrev pub emit : String → Walk → Walk
emit name s = record s { out = s.out ++ (name ∷ []) }

module _ (children : String → List String) where
  -- The fuel bounds the depth of the calls; `none` means that it ran out.
  pub visit : ℕ → String → Walk → Option Walk
  visit zero name s = none
  visit (suc fuel) name s =
      let deeper = fold_m (visit fuel) (children name) (mark name s) >>= λ t. some (emit name t) in
      if contains s.seen name then some s else deeper

  unfoldable pub order : ℕ → List String → Option (List String)
  unfolding visit fold_m
  order fuel roots = fold_m (visit fuel) roots empty >>= λ s. some s.out
