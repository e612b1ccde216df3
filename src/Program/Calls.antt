-- ===== src/Program/Calls.antt =====
-- The handlers on the state of the program: each gives the functions of its part the variables that it has to do
-- with, and puts back what they return.
use libmihomo_android.Base.{
  String, ℤ, Bool, true, false, not, ◌&&◌, if◌then◌else◌, Option, none, some, List, Outcome, ok,
  err,
}
use libmihomo_android.Text.{Text}
use libmihomo_android.Lifecycle.{handle_init_clash, to_int32}
use libmihomo_android.Config.Update.{
  Config, State as Updating, update_listeners, handle_update_config,
}
use libmihomo_android.Config.Apply.{
  State, or_default, execute, load_raw, handle_get_config, handle_validate_config,
  patch_select_group,
}
use libmihomo_android.Config.Read.{read_file}
use libmihomo_android.DnsQuery.Ring.{clear, snapshot}
use libmihomo_android.DnsQuery.Service.{install, Query}
use libmihomo_android.LogBridge.Level.{Level, info}
use libmihomo_android.LogBridge.Sink.{set_file_enabled, set_log_file_path}
use libmihomo_android.LogBridge.Bus.{dispatch, dispatch_capacity}
use libmihomo_android.LogBridge.Bus.Route.{
  Event, Router, set_logcat_level, set_file_level, host_event,
}
use libmihomo_android.GeoUpdate.{start_geo_updater}
use libmihomo_android.Program.{Core, Program, Outside, blank}

module _ {V L R : Type 0} where
  -- The part of the state that `updateConfig` and `updateListeners` work on, and back.
  abbrev pub updater : Core V L R → Updating V L
  updater c = record {
    is_init = c.life.is_init;
    is_running = c.is_running;
    current = c.config.current;
    globals = c.globals;
    listening = c.listening;
  }

  abbrev pub updated : Updating V L → Core V L R → Core V L R
  updated s c = record c {
    is_running = s.is_running;
    config = record c.config { current = s.current };
    globals = s.globals;
    listening = s.listening;
  }

module _ {V L R S : Type 0} where
  abbrev pub with_router : (Router → Router) → Program V L R S → Program V L R S
  with_router f p = record p { core = record p.core { router = f p.core.router } }

  -- A panic that nothing recovers from.
  abbrev pub panic : Program V L R S → Program V L R S
  panic p = record p { core = record p.core { panicked = true } }

  abbrev pub send_event : Event → Program V L R S → Program V L R S
  send_event e p = record p {
    core = record p.core { bus = dispatch dispatch_capacity e p.core.bus };
  }

module _ {V L R S B Raw : Type 0} (out : Outside V L R S B Raw) where
  unfoldable pub init_clash : String → Program V L R S → Program V L R S × Bool
  init_clash text p =
      let (life, answer) = handle_init_clash (out.init_params text) p.core.life in
      (record p { core = record p.core { life = life } }, answer)

  -- `nil_seen` is whether its test of `currentConfig`, which takes no lock, falls into an `applyConfig` that has
  -- put nil there.
  unfoldable pub update_config : Bool → String → Program V L R S → Program V L R S × String
  update_config nil_seen text p =
      if p.core.life.is_init && nil_seen
      then (p, "config not loaded")
      else (let (s, answer) =
            handle_update_config out.listeners (out.update_params text) (updater p.core) in
          (record p { core = updated s p.core }, answer))

  unfoldable pub start_listener : Program V L R S → Program V L R S × Bool
  start_listener p =
      let running = record p.core { is_running = true } in
      (
        record {
          core =
              updated (update_listeners out.listeners running.config.current (updater running))
                running;
          rest = out.mihomo.reset_connection p.rest;
        },
        true,
      )

  unfoldable pub stop_listener : Program V L R S → Program V L R S × Bool
  stop_listener p = (
    record {
      core = record p.core { is_running = false; listening = out.cleanup p.core.listening };
      rest = out.mihomo.reset_connection p.rest;
    },
    true,
  )

  -- `applyConfig` from the executor on, with the config for it: the executor, which panics on nil, the loop of
  -- the geo updater, the recorder of DNS queries, and the picks.
  unfoldable pub put_chosen :
      Option (Config V)
      → (String → Option String)
      → State (Config V)
      → Program V L R S
      → Program V L R S
  put_chosen none selected loaded p = panic (record p { core = record p.core { config = loaded } })
  put_chosen (some c) selected loaded p =
      let fallback = out.loader.parse out.loader.default_raw in
      let ran = out.execute c (record {
        globals = p.core.globals;
        listening = p.core.listening;
        service = p.core.service;
        rest = p.rest;
      }) in
      record {
        core = record p.core {
          config = execute fallback selected (out.proxies ran.rest) loaded;
          globals = ran.globals;
          listening = ran.listening;
          geo_started = start_geo_updater (out.geo_settings ran.rest) p.core.geo_started;
          service = install ran.service;
        };
        rest = out.force (patch_select_group selected (out.proxies ran.rest)) ran.rest;
      }

  -- The same, in the config that was loaded.
  unfoldable pub put_in_use :
      (String → Option String) → State (Config V) → Program V L R S → Program V L R S
  unfolding put_chosen
  put_in_use selected loaded p =
      put_chosen (or_default (out.loader.parse out.loader.default_raw) loaded.current) selected
        loaded p

  -- `applyConfig`, with the text of its error.
  unfoldable pub apply_setup : (String → Option String) → Program V L R S → Program V L R S × String
  unfolding put_in_use
  apply_setup selected p =
      let buf = read_file out.reader (out.config_path p.core.life.home_dir) p.rest in
      let (failure, loaded) =
        load_raw out.loader (handle_get_config out.loader buf) p.core.config in
      (put_in_use selected loaded p, elim failure [ none ↦ "" | some why ↦ why ])

  unfoldable pub set_up :
      Outcome (String → Option String) → Program V L R S → Program V L R S × String
  unfolding apply_setup
  set_up (err why) p = (p, why)
  set_up (ok selected) p = apply_setup selected p

  unfoldable pub setup_config : String → Program V L R S → Program V L R S × String
  unfolding set_up
  setup_config text p =
      if not p.core.life.is_init then (p, "not initialized") else set_up (out.selected_map text) p

  unfoldable pub validate_config : String → Program V L R S → Program V L R S × String
  validate_config path p = (p, handle_validate_config out.loader (read_file out.reader path p.rest))

  unfoldable pub get_config : String → Program V L R S → Program V L R S × Outcome Raw
  get_config path p = (p, handle_get_config out.loader (read_file out.reader path p.rest))

  -- `queryProxyGroupOrder`
  unfoldable pub query_proxy_group_order : Program V L R S → String
  query_proxy_group_order p = out.order_json p.core.config.captured.order

  -- `handleGetDnsQueries`, whose `Snapshot` may panic.
  abbrev pub queries_text : Program V L R S → Option (List Query) → Program V L R S × String
  queries_text p none = (panic p, "")
  queries_text p (some qs) = (p, out.queries_json qs)

  unfoldable pub get_dns_queries : Program V L R S → Program V L R S × String
  get_dns_queries p = queries_text p (snapshot p.core.queries)

  -- `handleCrash`, of crash_debug.go or crash_release.go
  unfoldable pub crash : Program V L R S → Program V L R S
  crash p = if out.debug then panic p else record p { rest = (out.others p.core).crash p.rest }

  unfoldable pub clear_dns_queries : Program V L R S → Program V L R S
  clear_dns_queries p = record p { core = record p.core { queries = clear blank p.core.queries } }

  -- `setLogcatLevelImpl` and `setFileLevelImpl`, which keep 32 bits of the level.
  unfoldable pub put_logcat_level : ℤ → Program V L R S → Program V L R S
  put_logcat_level level = with_router (set_logcat_level (to_int32 level))

  unfoldable pub put_file_level : ℤ → Program V L R S → Program V L R S
  put_file_level level = with_router (set_file_level (to_int32 level))

  unfoldable pub enable_file : Bool → Program V L R S → Program V L R S
  enable_file on = with_router (λ r. record r { sink = set_file_enabled out.sink_os on r.sink })

  -- `setLogFilePathImpl`
  unfoldable pub put_log_file_path : String → Program V L R S → Program V L R S × Option String
  put_log_file_path path p =
      let text = out.text_of path in
      let (taken, sink) =
        set_log_file_path out.sink_os text (out.dir_of text) (out.crash_path text)
          p.core.router.sink in
      (
        with_router (λ r. record r { sink = sink }) p,
        if taken then none else some (out.path_error text p.rest),
      )

  -- `hostLog`
  unfoldable pub host_log : ℤ → String → String → Program V L R S → Program V L R S
  host_log level tag payload p =
      send_event (host_event (out.now p.rest) level (out.text_of tag) (out.text_of payload)) p

  -- The body of the loop of `subscribeMihomo`.
  unfoldable pub mihomo_log : Level → Text → Program V L R S → Program V L R S
  mihomo_log level payload p =
      send_event
        (record {
          when = out.now p.rest;
          level = level;
          tag = out.text_of "libclash";
          payload = payload;
          from_host = false;
        })
        p

  -- The body of the loop of `captureStdFd`.
  unfoldable pub captured_log : Text → Program V L R S → Program V L R S
  captured_log payload p =
      send_event
        (record {
          when = out.now p.rest;
          level = info;
          tag = out.text_of "libclash-stderr";
          payload = payload;
          from_host = false;
        })
        p
