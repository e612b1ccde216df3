-- ===== src/Selection/Pins.antt =====
-- What `Apply` leaves as the pin of the group.
use libmihomo_android.Base.{String, eq_iff, none, some, ◌≡◌}
use native.Mathlib.Omega.{arith}
use libmihomo_android.Selection.{Selector, apply}

-- What mihomo's groups do: `pinned` is the member that a group is pinned to, and empty for none. `Set` pins a
-- member or fails and changes nothing; it fails for the empty name. `ForceSet` pins whatever it is given.
pub record Pinning {S : Type 0} (sel : Selector S) : Type 0 where
  pub pinned : S → String
  pub set_pins : (n : String) (s : S) → (sel.set n s).1 ≡ none → pinned (sel.set n s).0 ≡ n
  pub set_fails : (n why : String) (s : S) → (sel.set n s).1 ≡ some why → (sel.set n s).0 ≡ s
  pub force_pins : (n : String) (s : S) → pinned (sel.force_set n s) ≡ n

module _ {S : Type 0} (sel : Selector S) (law : Pinning sel) (name : String) (s : S) where
  -- Without an error the group is pinned to the name, and to nothing for the empty name.
  pub apply-pins : (apply sel name s).1 ≡ none → law.pinned (apply sel name s).0 ≡ name
  unfolding apply
  apply-pins e = ground (arith, eq_iff name "", law.set_pins name s, law.force_pins "" s)

  -- With an error the group is as it was.
  pub apply-fails : (why : String) → (apply sel name s).1 ≡ some why → (apply sel name s).0 ≡ s
  unfolding apply
  apply-fails why e = ground (arith, law.set_fails name why s)
