-- ===== src/Proxies/Change/Pins.antt =====
-- The pin of the group and the cache after `handleChangeProxy`.
use libmihomo_android.Base.{
  String, List, Option, none, some, lookup, ◌≡◌, refl, ==_refl, ap, sym, ◌∙◌,
}
use mathlib.Core.Path.{subst}
use native.Mathlib.Omega.{arith}
use libmihomo_android.Selection.{Selector, apply}
use libmihomo_android.Selection.Pins.{Pinning, apply-pins, apply-fails}
use libmihomo_android.Proxies.Change.{
  Entry, Picks, Texts, handle_change_proxy, change_entry, change_adapter, remember,
}

remember-core :
    {S : Type 0} (group name : String) (r : S × Option String) (s : Picks S)
    → (remember group name r s).0.core ≡ r.0
unfolding remember
remember-core group name (core, none) s = refl
remember-core group name (core, some why) s = refl

remember-failure :
    {S : Type 0} (group name : String) (r : S × Option String) (s : Picks S)
    → (remember group name r s).1 ≡ r.1
unfolding remember
remember-failure group name (core, none) s = refl
remember-failure group name (core, some why) s = refl

remember-cache :
    {S : Type 0} (group name : String) (r : S × Option String) (s : Picks S)
    → (remember group name r s).1 ≡ none
    → lookup group (remember group name r s).0.cache ≡ some name
unfolding remember lookup
remember-cache group name (core, none) s e = ground (arith, ==_refl group)
remember-cache group name (core, some why) s e = cc

remember-failed :
    {S : Type 0} (group name why : String) (r : S × Option String) (s : Picks S)
    → (remember group name r s).1 ≡ some why
    → r.0 ≡ s.core
    → (remember group name r s).0 ≡ s
unfolding remember
remember-failed group name why (core, none) s e p = cc
remember-failed group name why (core, some w) s e p = ap (λ c. record s { core = c }) p

module _ {S : Type 0} (texts : Texts) (proxies : List (String × Entry S)) (group name : String)
    (s : Picks S) where
  -- For a group that is there and selectable: without an error it is pinned to the name that the host picked
  -- (to none for the empty name), and the cache file has that name for the group.
  pub handle_change_proxy-pins :
      (entry : Entry S) (sel : Selector S) (law : Pinning sel)
      → lookup group proxies ≡ some entry
      → entry.adapter ≡ some sel
      → (handle_change_proxy texts proxies group name s).1 ≡ none
      → (law.pinned (handle_change_proxy texts proxies group name s).0.core ≡ name)
        × (lookup entry.name (handle_change_proxy texts proxies group name s).0.cache ≡ some name)
  unfolding handle_change_proxy
  handle_change_proxy-pins entry sel law found adapter =
      let P = λ (r : Picks S × Option String).
        r.1 ≡ none → (law.pinned r.0.core ≡ name) × (lookup entry.name r.0.cache ≡ some name) in
      subst (λ o. P (change_entry texts o group name s)) (sym found)
        (subst (λ a. P (change_adapter texts a group entry.name name s)) (sym adapter)
          λ e. (
            ap law.pinned (remember-core entry.name name (apply sel name s.core) s)
                ∙ apply-pins sel law name s.core
                    (sym (remember-failure entry.name name (apply sel name s.core) s) ∙ e),
            remember-cache entry.name name (apply sel name s.core) s e,
          ))

  -- With an error nothing has changed: no group, and not the cache file.
  pub handle_change_proxy-fails :
      ((entry : Entry S) (sel : Selector S)
        → lookup group proxies ≡ some entry
        → entry.adapter ≡ some sel
        → Pinning sel)
      → (why : String) → (handle_change_proxy texts proxies group name s).1 ≡ some why
      → (handle_change_proxy texts proxies group name s).0 ≡ s
  unfolding handle_change_proxy change_entry change_adapter
  handle_change_proxy-fails laws why = looked (lookup group proxies) refl
    where
      adapted :
          (entry : Entry S) (a : Option (Selector S))
          → ((sel : Selector S) → a ≡ some sel → Pinning sel)
          → (change_adapter texts a group entry.name name s).1 ≡ some why
          → (change_adapter texts a group entry.name name s).0 ≡ s
      adapted entry none laws e = refl
      adapted entry (some sel) laws e =
          remember-failed entry.name name why (apply sel name s.core) s e (
            apply-fails sel (laws sel refl) name s.core why
              (sym (remember-failure entry.name name (apply sel name s.core) s) ∙ e))

      looked :
          (o : Option (Entry S))
          → lookup group proxies ≡ o
          → (change_entry texts o group name s).1 ≡ some why
          → (change_entry texts o group name s).0 ≡ s
      looked none p e = refl
      looked (some entry) p e = adapted entry entry.adapter (λ sel q. laws entry sel p q) e
