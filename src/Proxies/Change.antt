-- ===== src/Proxies/Change.antt =====
-- `handleChangeProxy` of proxies.go, under `pickMu`.
pub mod Pins
use libmihomo_android.Base.{String, List, ◌∷◌, Option, none, some, lookup}
use libmihomo_android.Selection.{Selector, apply}

-- An entry of `tunnel.Proxies()`: `Name()`, and the adapter if it is selectable.
pub record Entry (S : Type 0) : Type 0 where
  pub name : String
  pub adapter : Option (Selector S)

-- The state of the core, and the picks of the cache file, newest first.
pub record Picks (S : Type 0) : Type 0 where
  pub core : S
  pub cache : List (String × String)

-- The two error texts, on the quoted name of the group.
pub record Texts : Type 0 where
  pub not_found : String → String
  pub not_selectable : String → String

-- `SetSelected`, where `Apply` gave no error.
unfoldable pub remember :
    {S : Type 0} → String → String → S × Option String → Picks S → Picks S × Option String
remember group name (core, some why) s = (record s { core = core }, some why)
remember group name (core, none) s = (record { core = core; cache = (group, name) ∷ s.cache }, none)

-- The group is looked up, then its adapter.
unfoldable pub change_adapter :
    {S : Type 0}
    → Texts
    → Option (Selector S)
    → String
    → String
    → String
    → Picks S
    → Picks S × Option String
unfolding apply remember
change_adapter texts none key group name s = (s, some (texts.not_selectable key))
change_adapter texts (some sel) key group name s = remember group name (apply sel name s.core) s

unfoldable pub change_entry :
    {S : Type 0} → Texts → Option (Entry S) → String → String → Picks S → Picks S × Option String
unfolding change_adapter
change_entry texts none key name s = (s, some (texts.not_found key))
change_entry texts (some entry) key name s =
    change_adapter texts entry.adapter key entry.name name s

unfoldable pub handle_change_proxy :
    {S : Type 0}
    → Texts
    → List (String × Entry S)
    → String
    → String
    → Picks S
    → Picks S × Option String
unfolding lookup change_entry
handle_change_proxy texts proxies group name s =
    change_entry texts (lookup group proxies) group name s
