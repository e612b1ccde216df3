-- ===== src/Config/Order.antt =====
-- The order of the groups that `captureProxyGroupOrder` keeps for the host.
use libmihomo_android.Base.{
  String, ◌==◌, List, [], ◌∷◌, ◌++◌, Option, none, some, Bool, true, false, if◌then◌else◌, ◌≡◌,
  refl, sym, ap, ◌∙◌,
}
use mathlib.Core.List.{append_assoc, append-nil}
use libmihomo_android.Config.Apply.{
  Group, Captured, capture_group, capture_groups, capture_proxy_group_order, keep_last, nothing,
  note_status,
}

-- The name of an entry, if it has one that is not empty.
unfoldable pub name_in : Option String → List String
name_in none = []
name_in (some name) = if name == "" then [] else name ∷ []

unfoldable pub names_in : List Group → List String
unfolding name_in
names_in [] = []
names_in (g ∷ gs) = name_in g.name ++ names_in gs

unfoldable pub or_last : List String → List String → List String
or_last [] last = last
or_last (name ∷ names) last = name ∷ names

order-capture_named :
    (o status : Option String) (c : Captured)
    → (capture_group (record { name = o; expected_status = status }) c).order ≡ c.order ++ name_in o
unfolding capture_group name_in
order-capture_named none status c = sym (append-nil c.order)
order-capture_named (some name) status c = chosen (name == "")
  where
    chosen :
        (b : Bool)
        → (if b then c else record {
          order = c.order ++ (name ∷ []);
          expected = note_status name status c.expected;
        }).order
          ≡ c.order ++ (if b then [] else name ∷ [])
    chosen true = sym (append-nil c.order)
    chosen false = refl

order-capture_groups :
    (gs : List Group) (c : Captured) → (capture_groups gs c).order ≡ c.order ++ names_in gs
unfolding capture_groups names_in
order-capture_groups [] c = sym (append-nil c.order)
order-capture_groups (g ∷ gs) c =
    order-capture_groups gs (capture_group g c)
    ∙ ap (λ o. o ++ names_in gs) (order-capture_named g.name g.expected_status c)
    ∙ append_assoc c.order (name_in g.name) (names_in gs)

order-keep_last :
    (o : List String) (new old : Captured)
    → new.order ≡ o
    → (keep_last o new old).order ≡ or_last o old.order
unfolding keep_last or_last
order-keep_last [] new old e = refl
order-keep_last (name ∷ names) new old e = e

-- The order after `captureProxyGroupOrder` is that of the entries with a name that is not empty, as the file
-- has them; where there is none, it is the last order.
pub order-capture_proxy_group_order :
    (gs : List Group) (old : Captured)
    → (capture_proxy_group_order gs old).order ≡ or_last (names_in gs) old.order
unfolding capture_proxy_group_order
order-capture_proxy_group_order gs old =
    order-keep_last (capture_groups gs nothing).order (capture_groups gs nothing) old refl
    ∙ ap (λ o. or_last o old.order) (order-capture_groups gs nothing)
