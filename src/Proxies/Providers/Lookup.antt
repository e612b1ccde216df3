-- ===== src/Proxies/Providers/Lookup.antt =====
-- The list of external providers, and the calls by type and name.
use libmihomo_android.Base.{
  String, List, [], ◌∷◌, ◌++◌, Option, none, some, Bool, true, false, if◌then◌else◌, lookup, ◌≡◌,
  refl, sym, ap, ◌∙◌, Bool-cases, inl, inr, if_false, if_true,
}
use mathlib.Core.Path.{subst}
use mathlib.Core.Option.{some-injective}
use libmihomo_android.Proxies.Providers.{
  Provider, View, Tunnel, provider_view, providers_of, usable, lookup_external_provider, views,
  query_external_providers, get_external_provider, view_of,
}

module _ {S : Type 0} where
  -- The entries of a map stand under their names, and a lookup finds each of them.
  abbrev pub IsNamed : List (String × Provider S) → List (String × Provider S) → Type 0
  IsNamed m [] = Unit
  IsNamed m ((key, p) ∷ rest) = (key ≡ p.name) × (lookup key m ≡ some p) × IsNamed m rest

  abbrev pub AllFound : Tunnel S → String → List View → Type 0
  AllFound t p_type [] = Unit
  AllFound t p_type (v ∷ vs) =
      (get_external_provider t p_type v.name ≡ some v) × AllFound t p_type vs

  found :
      (t : Tunnel S) (p_type : String) (p : Provider S)
      → lookup p.name (providers_of t p_type) ≡ some p
      → p.compatible ≡ false
      → get_external_provider t p_type (provider_view p).name ≡ some (provider_view p)
  unfolding get_external_provider lookup_external_provider usable view_of provider_view
  found t p_type p e c = ap view_of (ap usable e ∙ if_false p.compatible none c)

  AllFound-views :
      (t : Tunnel S) (p_type : String) (rest : List (String × Provider S))
      → IsNamed (providers_of t p_type) rest
      → AllFound t p_type (views rest)
  unfolding views
  AllFound-views t p_type [] h = tt
  AllFound-views t p_type ((key, p) ∷ rest) (k, e, h) = elim (Bool-cases p.compatible) [
    | inl c ↦
        subst (AllFound t p_type) (sym (if_true p.compatible _ c)) (AllFound-views t p_type rest h)
    | inr c ↦ subst (AllFound t p_type) (sym (if_false p.compatible _ c)) (
      found t p_type p (subst (λ n. lookup n (providers_of t p_type) ≡ some p) k e) c,
      AllFound-views t p_type rest h,
    )
  ]

  AllFound-append :
      (t : Tunnel S) (p_type : String) (vs ws : List View)
      → AllFound t p_type vs
      → AllFound t p_type ws
      → AllFound t p_type (vs ++ ws)
  AllFound-append t p_type [] ws h k = k
  AllFound-append t p_type (v ∷ vs) ws (a, h) k = (a, AllFound-append t p_type vs ws h k)

  -- Where the tunnel's maps have their providers under their names, the list of external providers is a list
  -- of proxy providers, each of which is what `getExternalProvider` returns for type Proxy and its name, and
  -- after it a list of rule providers, of which the same holds for type Rule.
  pub query_external_providers-get :
      (t : Tunnel S)
      → IsNamed t.providers t.providers
      → IsNamed t.rule_providers t.rule_providers
      → (vs ws : List View) × (query_external_providers t ≡ vs ++ ws)
        × AllFound t "Proxy" vs
        × AllFound t "Rule" ws
  unfolding query_external_providers providers_of
  query_external_providers-get t h k = (
    views t.providers,
    views t.rule_providers,
    refl,
    AllFound-views t "Proxy" t.providers h,
    AllFound-views t "Rule" t.rule_providers k,
  )

  -- What a lookup finds is no compatible provider, and it stands in the map of its type.
  pub lookup_external_provider_lem :
      (t : Tunnel S) (p_type name : String) (p : Provider S)
      → lookup_external_provider t p_type name ≡ some p
      → (p.compatible ≡ false) × (lookup name (providers_of t p_type) ≡ some p)
  unfolding lookup_external_provider usable
  lookup_external_provider_lem t p_type name p = checked (lookup name (providers_of t p_type))
    where
      tested :
          (q : Provider S) (b : Bool)
          → q.compatible ≡ b
          → (if b then none else some q) ≡ some p
          → (p.compatible ≡ false) × (some q ≡ some p)
      tested q true c e = cc
      tested q false c e = (ap (λ r. r.compatible) (sym (some-injective _ _ e)) ∙ c, e)

      checked :
          (o : Option (Provider S)) → usable o ≡ some p → (p.compatible ≡ false) × (o ≡ some p)
      checked none e = cc
      checked (some q) e = tested q q.compatible refl e
