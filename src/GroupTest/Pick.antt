-- ===== src/GroupTest/Pick.antt =====
-- `Fastest`, `Seat` and `Leaf` of grouptest/grouptest.go: which member a group picks, and the node
-- that a chain of picks ends at.
pub mod Best
pub mod Chain
use libmihomo_android.Base.{
  ℕ, zero, suc, String, ◌==◌, List, [], ◌∷◌, Bool, true, false, not, ◌&&◌, ◌||◌, Option, none, some,
  if◌then◌else◌, contains, ℤ, pos, ltb_ℤ,
}

-- The loop of `Fastest` over the rest of the members. `delays` is 0 at a name that the map lacks.
module _ (delays : String → ℤ) where
  abbrev pub improves : String → String → ℤ → Bool
  improves name best best_delay =
      ltb_ℤ (pos 0) (delays name) && (best == "" || ltb_ℤ (delays name) best_delay)

  pub fastest_from : List String → String → ℤ → String × ℤ
  fastest_from [] best best_delay = (best, best_delay)
  fastest_from (name ∷ rest) best best_delay =
      fastest_from rest (if improves name best best_delay then name else best)
        (if improves name best best_delay then delays name else best_delay)

  unfoldable pub fastest : List String → String × Bool
  unfolding fastest_from
  fastest members =
      let (best, best_delay) = fastest_from members "" (pos 0) in (best, not (best == ""))

-- What `Seat` uses of mihomo's url-test group: its methods, and the two variables they act on.
pub record Seater : Type 1 where
  pub Group : Type 0
  pub force_set : String → Group → Group
  pub now : Group → String × Group
  pub fixed : Group → String
  pub pick : Group → String

unfoldable pub seat : (g : Seater) → g.Group → String → g.Group
seat g group name = g.force_set "" (g.now (g.force_set name group)).1

-- The loop of `Leaf`. `step` gives a group's pick and test URL, and nothing for a plain node. The
-- fuel bounds the rounds; `none` means that it ran out.
module _ (step : String → Option (String × String)) (name : String) where
  pub leaf_from : ℕ → List String → String → String → Option (String × String × Bool)
  leaf_from zero seen cur url = none
  leaf_from (suc fuel) seen cur url = elim (step cur) [
    | none ↦ some (cur, url, not (cur == name))
    | some (now, group_url) ↦
        let rest = leaf_from fuel (cur ∷ seen) now group_url in
        if now == "" || contains seen cur then some ("", "", false) else rest
  ]

  unfoldable pub leaf : ℕ → Option (String × String × Bool)
  unfolding leaf_from
  leaf fuel = leaf_from fuel [] name ""
