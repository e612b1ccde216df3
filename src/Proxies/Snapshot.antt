-- ===== src/Proxies/Snapshot.antt =====
-- `allProxies`, `proxyByName` and `handleAsyncTestDelay` of proxies.go. The maps of the tunnel come in the
-- order in which the loops meet their entries.
use libmihomo_android.Base.{
  String, ◌==◌, List, [], ◌∷◌, Option, none, some, if◌then◌else◌, ◌≡◌, refl, lookup, or_else, ℤ,
  negsuc,
}
use native.Mathlib.Omega.{arith}

module _ {P : Type 0} (name_of : P → String) where
  -- `out[proxy.Name()] = proxy` for the proxies of one provider.
  unfoldable pub put_proxies : List P → List (String × P) → List (String × P)
  put_proxies [] out = out
  put_proxies (p ∷ ps) out = put_proxies ps ((name_of p, p) ∷ out)

  -- The loop over the providers.
  unfoldable pub put_providers : List (List P) → List (String × P) → List (String × P)
  unfolding put_proxies
  put_providers [] out = out
  put_providers (ps ∷ provs) out = put_providers provs (put_proxies ps out)

  -- The loop over the proxies of the tunnel, which have the keys of its map.
  unfoldable pub put_tunnel : List (String × P) → List (String × P) → List (String × P)
  put_tunnel [] out = out
  put_tunnel (entry ∷ rest) out = put_tunnel rest (entry ∷ out)

  unfoldable pub all_proxies : List (String × P) → List (List P) → List (String × P)
  unfolding put_tunnel put_providers
  all_proxies tunnel provs = put_providers provs (put_tunnel tunnel [])

  unfoldable pub proxy_by_name : List (String × P) → List (List P) → String → Option P
  unfolding all_proxies
  proxy_by_name tunnel provs name = lookup name (all_proxies tunnel provs)

  -- `handleAsyncTestDelay`; `test` is `testProxy` of a proxy, over the state of the core.
  unfoldable pub test_named : {S : Type 0} → (P → S → S × ℤ) → Option P → S → S × ℤ
  test_named test none s = (s, negsuc 0)
  test_named test (some p) s = test p s

  unfoldable pub handle_async_test_delay :
      {S : Type 0} → (P → S → S × ℤ) → List (String × P) → List (List P) → String → S → S × ℤ
  unfolding proxy_by_name test_named
  handle_async_test_delay test tunnel provs name s =
      test_named test (proxy_by_name tunnel provs name) s

  -- The last proxy of a list with the name.
  unfoldable pub last_named : String → List P → Option P
  last_named name [] = none
  last_named name (p ∷ ps) =
      or_else (last_named name ps) (if name_of p == name then some p else none)

  -- The last provider's proxy of the name.
  unfoldable pub provided : String → List (List P) → Option P
  unfolding last_named
  provided name [] = none
  provided name (ps ∷ provs) = or_else (provided name provs) (last_named name ps)

  -- The tunnel's own proxy of the name; a map has one entry for a key, and in a list the last one counts.
  unfoldable pub own : String → List (String × P) → Option P
  own name [] = none
  own name ((key, p) ∷ rest) = or_else (own name rest) (if key == name then some p else none)

  lookup-put_proxies :
      (name : String) (ps : List P) (out : List (String × P))
      → lookup name (put_proxies ps out) ≡ or_else (last_named name ps) (lookup name out)
  unfolding lookup put_proxies last_named
  lookup-put_proxies name [] out = refl
  lookup-put_proxies name (p ∷ ps) out =
      ground (arith, lookup-put_proxies name ps ((name_of p, p) ∷ out))

  lookup-put_providers :
      (name : String) (provs : List (List P)) (out : List (String × P))
      → lookup name (put_providers provs out) ≡ or_else (provided name provs) (lookup name out)
  unfolding put_providers provided
  lookup-put_providers name [] out = refl
  lookup-put_providers name (ps ∷ provs) out =
      ground (
        arith,
        lookup-put_providers name provs (put_proxies ps out),
        lookup-put_proxies name ps out,
      )

  lookup-put_tunnel :
      (name : String) (tunnel out : List (String × P))
      → lookup name (put_tunnel tunnel out) ≡ or_else (own name tunnel) (lookup name out)
  unfolding lookup put_tunnel own
  lookup-put_tunnel name [] out = refl
  lookup-put_tunnel name ((key, p) ∷ rest) out =
      ground (arith, lookup-put_tunnel name rest ((key, p) ∷ out))

  -- A name in the merged snapshot stands for the proxy of the last provider that has it, the last one in that
  -- provider, and for the tunnel's own proxy only where no provider has it.
  pub proxy_by_name_lem :
      (tunnel : List (String × P)) (provs : List (List P)) (name : String)
      → proxy_by_name tunnel provs name ≡ or_else (provided name provs) (own name tunnel)
  unfolding proxy_by_name all_proxies lookup
  proxy_by_name_lem tunnel provs name = ground (
    arith,
    lookup-put_providers name provs (put_tunnel tunnel []),
    lookup-put_tunnel name tunnel [],
  )
