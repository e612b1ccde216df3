-- ===== src/Proxies/Providers.antt =====
-- providers.go: the external providers of the tunnel as the host sees them.
pub mod Lookup
use libmihomo_android.Base.{
  String, ◌==◌, ℕ, List, [], ◌∷◌, ◌++◌, Option, none, some, Bool, true, false, if◌then◌else◌,
  lookup,
}

-- The provider types and vehicle types that the code names; any other is given by its name.
pub record Provider (S : Type 0) : Type 0 where
  pub name : String
  pub type_ : String
  pub vehicle_type : String
  pub compatible : Bool
  pub count : ℕ
  -- `Vehicle().Path()` and `UpdatedAt()`, where the provider has them.
  pub path : Option String
  pub updated_at : Option ℕ
  pub update : S → S × Option String

-- `ExternalProvider`, with the zero value of a path or a time that is not there.
pub record View : Type 0 where
  pub name : String
  pub type_ : String
  pub vehicle_type : String
  pub count : ℕ
  pub path : String
  pub update_at : ℕ

-- `tunnel.Providers()` and `tunnel.RuleProviders()`, in the order in which a loop meets them.
pub record Tunnel (S : Type 0) : Type 0 where
  pub providers : List (String × Provider S)
  pub rule_providers : List (String × Provider S)

abbrev or_zero {ℓ} : {A : Type ℓ} → A → Option A → A
or_zero zero none = zero
or_zero zero (some a) = a

module _ {S : Type 0} where
  unfoldable pub provider_view : Provider S → View
  provider_view p = record {
    name = p.name;
    type_ = p.type_;
    vehicle_type = p.vehicle_type;
    count = p.count;
    path = or_zero "" p.path;
    update_at = or_zero 0 p.updated_at;
  }

  -- `lookupExternalProvider`: the map that the type names, then the check of what is there.
  unfoldable pub providers_of : Tunnel S → String → List (String × Provider S)
  providers_of t p_type =
      if p_type == "Proxy" then t.providers else if p_type == "Rule" then t.rule_providers else []

  unfoldable pub usable : Option (Provider S) → Option (Provider S)
  usable none = none
  usable (some p) = if p.compatible then none else some p

  unfoldable pub lookup_external_provider : Tunnel S → String → String → Option (Provider S)
  unfolding providers_of usable lookup
  lookup_external_provider t p_type name = usable (lookup name (providers_of t p_type))

  unfoldable pub views : List (String × Provider S) → List View
  unfolding provider_view
  views [] = []
  views ((key, p) ∷ rest) =
      let more = views rest in if p.compatible then more else provider_view p ∷ more

  -- The list of `queryExternalProviders`.
  unfoldable pub query_external_providers : Tunnel S → List View
  unfolding views
  query_external_providers t = views t.providers ++ views t.rule_providers

  -- `getExternalProvider`; `none` is the empty answer.
  unfoldable pub view_of : Option (Provider S) → Option View
  unfolding provider_view
  view_of none = none
  view_of (some p) = some (provider_view p)

  unfoldable pub get_external_provider : Tunnel S → String → String → Option View
  unfolding lookup_external_provider view_of
  get_external_provider t p_type name = view_of (lookup_external_provider t p_type name)

  -- `updateExternalProvider`, with its error text for a provider that is not found.
  unfoldable pub update_found : String → Option (Provider S) → S → S × Option String
  update_found not_found none s = (s, some not_found)
  update_found not_found (some p) s = p.update s

  unfoldable pub update_external_provider :
      String → Tunnel S → String → String → S → S × Option String
  unfolding lookup_external_provider update_found
  update_external_provider not_found t p_type name s =
      update_found not_found (lookup_external_provider t p_type name) s
