-- ===== src/Config/Apply.antt =====
-- `applyConfig` of common.go with what it calls there, and the handlers of config_apply.go that need the
-- core to be initialised. Reading, decoding and parsing a config are parameters, and so is the encoder.
use libmihomo_android.Base.{
  String, ◌==◌, List, [], ◌∷◌, ◌++◌, Option, none, some, Bool, true, false, if◌then◌else◌, Outcome,
  ok, err,
}

-- An entry of `raw.ProxyGroup`: its name, if that is a string, and `fmt.Sprint` of its expected status.
pub record Group : Type 0 where
  pub name : Option String
  pub expected_status : Option String

-- A group as `patchSelectGroup` finds it, which can be `SelectAble`.
pub record Proxy : Type 0 where
  pub name : String
  pub selectable : Bool

-- `proxyGroupOrder`, and `groupExpected` with the newest entry first.
pub record Captured : Type 0 where
  pub order : List String
  pub expected : List (String × String)

abbrev pub nothing : Captured
nothing = record { order = []; expected = [] }

-- `groupExpected[group]`, which is empty for a group that the map lacks.
unfoldable pub expected_status_of : String → List (String × String) → String
expected_status_of group [] = ""
expected_status_of group ((name, status) ∷ rest) =
    if name == group then status else expected_status_of group rest

abbrev pub note_status : String → Option String → List (String × String) → List (String × String)
note_status name none expected = expected
note_status name (some status) expected = (name, status) ∷ expected

-- One round of the loop of `captureProxyGroupOrder`.
unfoldable pub capture_group : Group → Captured → Captured
capture_group g c = elim (g.name) [
  | none ↦ c
  | some name ↦ if name == "" then c else record {
    order = c.order ++ (name ∷ []);
    expected = note_status name g.expected_status c.expected;
  }
]

unfoldable pub capture_groups : List Group → Captured → Captured
unfolding capture_group
capture_groups [] c = c
capture_groups (g ∷ gs) c = capture_groups gs (capture_group g c)

-- What `captureProxyGroupOrder` keeps: the new order, or the last one if the new one is empty.
unfoldable pub keep_last : List String → Captured → Captured → Captured
keep_last [] new old = old
keep_last (name ∷ names) new old = new

-- `captureProxyGroupOrder` of a config that is not nil.
unfoldable pub capture_proxy_group_order : List Group → Captured → Captured
unfolding capture_groups keep_last
capture_proxy_group_order groups old =
    let new = capture_groups groups nothing in keep_last new.order new old

-- `patchSelectGroup`: the picks that are forced, over the proxies in some order.
unfoldable pub patch_select_group : (String → Option String) → List Proxy → List (String × String)
patch_select_group mapping [] = []
patch_select_group mapping (p ∷ ps) =
    let rest = patch_select_group mapping ps in
    if p.selectable
    then (elim (mapping p.name) [ none ↦ rest | some pick ↦ (p.name, pick) ∷ rest ])
    else rest

-- The parts of mihomo's config package that `applyConfig` calls, on bytes `B`, raw configs `R` and configs `C`.
pub record Loader (B R C : Type 0) : Type 0 where
  pub unmarshal : B → Outcome R
  pub groups : R → List Group
  pub parse : R → Outcome C
  pub default_raw : R

-- `currentConfig`, the order, the configs given to `executor.ApplyConfig` and the picks forced so far.
pub record State (C : Type 0) : Type 0 where
  pub current : Option C
  pub captured : Captured
  pub applied : List (Option C)
  pub forced : List (String × String)

abbrev pub error_of : {A : Type 0} → Outcome A → Option String
error_of (ok a) = none
error_of (err why) = some why

module _ {C : Type 0} where
  abbrev pub config_of : Outcome C → Option C
  config_of (ok c) = some c
  config_of (err why) = none

  -- The config for the executor: `currentConfig`, or the default one where that is nil.
  unfoldable pub or_default : Outcome C → Option C → Option C
  or_default fallback none = config_of fallback
  or_default fallback (some c) = some c

  -- The steps of `applyConfig` after the config is chosen.
  unfoldable pub execute : Outcome C → (String → Option String) → List Proxy → State C → State C
  unfolding or_default patch_select_group
  execute fallback selected proxies s =
      let chosen = or_default fallback s.current in
      record s {
        current = chosen;
        applied = s.applied ++ (chosen ∷ []);
        forced = s.forced ++ patch_select_group selected proxies;
      }

  module _ {B R : Type 0} (l : Loader B R C) where
    -- `handleGetConfig`, on what `readFile` gives.
    unfoldable pub handle_get_config : Outcome B → Outcome R
    handle_get_config (err why) = err why
    handle_get_config (ok buf) = l.unmarshal buf

    -- What `applyConfig` does with the raw config: the error, and the state before the default is considered.
    unfoldable pub load_raw : Outcome R → State C → Option String × State C
    unfolding capture_proxy_group_order
    load_raw (err why) s = (some why, s)
    load_raw (ok raw) s = (
      error_of (l.parse raw),
      record s {
        current = config_of (l.parse raw);
        captured = capture_proxy_group_order (l.groups raw) s.captured;
      },
    )

    -- `applyConfig`, on what `readFile` gives, and the error that it returns: its first steps are those of
    -- `handleGetConfig`.
    unfoldable pub apply_config :
        Outcome B → (String → Option String) → List Proxy → State C → Option String × State C
    unfolding load_raw execute handle_get_config
    apply_config buf selected proxies s =
        let (failure, loaded) = load_raw (handle_get_config buf) s in
        (failure, execute (l.parse l.default_raw) selected proxies loaded)

    -- `handleSetupConfig`, on the flag `isInit` and the decoded parameters.
    unfoldable pub handle_setup_config :
        Bool
        → Outcome (String → Option String)
        → Outcome B
        → List Proxy
        → State C
        → String × State C
    unfolding apply_config
    handle_setup_config false params buf proxies s = ("not initialized", s)
    handle_setup_config true (err why) buf proxies s = (why, s)
    handle_setup_config true (ok selected) buf proxies s =
        let (failure, t) = apply_config buf selected proxies s in
        (elim failure [ none ↦ "" | some why ↦ why ], t)

    -- `handleValidateConfig`, on what `readFile` gives.
    unfoldable pub handle_validate_config : Outcome B → String
    handle_validate_config (err why) = why
    handle_validate_config (ok buf) = elim (l.unmarshal buf) [ ok raw ↦ "" | err why ↦ why ]
