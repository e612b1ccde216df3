-- ===== src/Config/Tests.antt =====
-- Runs of `applyConfig` at concrete inputs, and the theorems of InUse at them.
use libmihomo_android.Base.{
  ℕ, String, List, [], ◌∷◌, ◌++◌, Option, none, some, ◌≡◌, refl, ok, err, ◌==◌, if◌then◌else◌, true,
}
use libmihomo_android.Config.Apply.{
  Captured, Group, capture_proxy_group_order, Loader, State, Proxy, apply_config, load_raw,
  handle_get_config,
}
use libmihomo_android.Config.InUse.{apply_config-in_use, apply_config-unread}

-- Files and raw configs are texts, a parsed config is a number.
abbrev loader : Loader String String ℕ
loader = record {
  unmarshal = λ b. if b == "junk" then err "yaml" else ok b;
  groups = λ r. record { name = some r; expected_status = none } ∷ [];
  parse = λ r. if r == "bad" then err "no such proxy" else if r == "" then ok 0 else ok 7;
  default_raw = "";
}

abbrev state : State ℕ
state = record {
  current = some 3;
  captured = record { order = []; expected = [] };
  applied = [];
  forced = [];
}

abbrev proxies : List Proxy
proxies = record { name = "Auto"; selectable = true } ∷ []

abbrev picks : String → Option String
picks name = some "DE"

forced_picks : (apply_config loader (ok "bad") picks proxies state).1.forced ≡ (("Auto", "DE") ∷ [])
unfolding apply_config
forced_picks = refl

apply_config-in_use_example :
    (c : ℕ) × ((apply_config loader (ok "bad") picks proxies state).1.current ≡ some c)
    × ((apply_config loader (ok "bad") picks proxies state).1.applied
        ≡ (load_raw loader (handle_get_config loader (ok "bad")) state).1.applied ++ (some c ∷ []))
apply_config-in_use_example = apply_config-in_use loader (ok "bad") picks proxies state 0 refl

apply_config-unread_example :
    let (failure, t) = apply_config loader (err "missing") picks proxies state in
    (failure ≡ some "missing")
    × (t.current ≡ some 3)
    × (t.applied ≡ state.applied ++ (t.current ∷ []))
    × (t.captured ≡ state.captured)
unfolding handle_get_config
apply_config-unread_example =
    apply_config-unread loader (err "missing") picks proxies state "missing" refl

abbrev last : Captured
last = record { order = "Auto" ∷ []; expected = [] }

abbrev groups : List Group
groups =
    record { name = some "Main"; expected_status = some "204" }
    ∷ record { name = some ""; expected_status = none }
    ∷ record { name = some "Auto"; expected_status = none }
    ∷ []

captured : (capture_proxy_group_order groups last).order ≡ ("Main" ∷ "Auto" ∷ [])
unfolding capture_proxy_group_order
captured = refl
