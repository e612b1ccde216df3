-- ===== src/Proxies/Tests.antt =====
-- The calls on proxies, providers and groups on small inputs, and each theorem at an input.
use libmihomo_android.Base.{
  ℕ, suc, String, ◌==◌, List, [], ◌∷◌, none, some, lookup, Bool, true, false, if◌then◌else◌, pos,
  negsuc, ◌≡◌, refl,
}
use native.Mathlib.Omega.{arith}
use libmihomo_android.Selection.{Selector}
use libmihomo_android.Selection.Pins.{Pinning}
use libmihomo_android.Proxies.Change.{Entry, Picks, Texts, handle_change_proxy}
use libmihomo_android.Proxies.Change.Pins.{handle_change_proxy-pins}
use libmihomo_android.Proxies.Delay.{
  Tests, init, Steps, here, next, call, acquire, finish, read_reply, expire, result,
}
use libmihomo_android.Proxies.Delay.Slots.{IsConserved, Steps-IsConserved}
use libmihomo_android.Proxies.Providers.{Provider, Tunnel, providers_of, lookup_external_provider}
use libmihomo_android.Proxies.Providers.Lookup.{lookup_external_provider_lem}

-- The tunnel and a provider each have a proxy named "qde".
abbrev tunnel : List (String × (String × ℕ))
tunnel = ("qde", ("qde", 1)) ∷ ("DIRECT", ("DIRECT", 2)) ∷ []

abbrev provs : List (List (String × ℕ))
provs = (("qde", 3) ∷ ("amn", 4) ∷ []) ∷ (("amn", 5) ∷ []) ∷ []

-- A group that can be pinned to any member but "gone".
abbrev selector : Selector String
selector = record {
  set = λ n s. if n == "gone" then (s, some "proxy not exist") else (n, none);
  force_set = λ n s. n;
}

abbrev selector-Pinning : Pinning selector
selector-Pinning = record {
  pinned = λ s. s;
  set_pins = λ n s h. ground arith;
  set_fails = λ n why s h. ground arith;
  force_pins = λ n s. refl;
}

abbrev texts : Texts
texts = record { not_found = λ n. "no group"; not_selectable = λ n. "no selector" }

abbrev entry : Entry String
entry = record { name = "VPN"; adapter = some selector }

abbrev entries : List (String × Entry String)
entries = ("VPN", entry) ∷ []

abbrev picks : Picks String
picks = record { core = "old"; cache = [] }

handle_change_proxy-pins_example :
    ((handle_change_proxy texts entries "VPN" "qde" picks).0.core ≡ "qde")
    × (lookup "VPN" (handle_change_proxy texts entries "VPN" "qde" picks).0.cache ≡ some "qde")
unfolding handle_change_proxy
handle_change_proxy-pins_example =
    handle_change_proxy-pins texts entries "VPN" "qde" picks entry selector selector-Pinning refl
      refl refl

-- One call that reads the reply of its goroutine, and one that gives up on its own.
abbrev after_two : Tests
after_two = record {
  free = 255;
  queued = 0;
  awaited = 0;
  leaked = 1;
  calls = 2;
  replies = [];
  results = negsuc 0 ∷ pos 30 ∷ [];
}

two_calls : Steps init after_two
unfolding result
two_calls =
    next
      (next
        (next
          (next
            (next (next (next here call) (acquire 0 255 refl refl))
              (finish 0 (record { delay = 30; failed = false }) refl (omega arith)))
            (read_reply [] [] (record { delay = 30; failed = false }) false refl))
          call)
        (acquire 0 255 refl refl))
      (expire 0 refl)

Steps-IsConserved_example : IsConserved after_two
Steps-IsConserved_example = Steps-IsConserved two_calls

abbrev provider : String → Bool → Provider ℕ
provider n c = record {
  name = n;
  type_ = "Proxy";
  vehicle_type = "HTTP";
  compatible = c;
  count = 3;
  path = none;
  updated_at = some 5;
  update = λ s. (suc s, none);
}

abbrev both : Tunnel ℕ
both = record {
  providers = ("default", provider "default" true) ∷ ("sub", provider "sub" false) ∷ [];
  rule_providers = ("ads", provider "ads" false) ∷ [];
}

lookup_external_provider_example :
    ((provider "sub" false).compatible ≡ false)
    × (lookup "sub" (providers_of both "Proxy") ≡ some (provider "sub" false))
unfolding lookup_external_provider
lookup_external_provider_example =
    lookup_external_provider_lem both "Proxy" "sub" (provider "sub" false) refl
