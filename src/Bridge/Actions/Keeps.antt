-- ===== src/Bridge/Actions/Keeps.antt =====
-- What an action does to a property of the state that every handler keeps.
pub mod Contracts
mod Steps
mod Cases
use Prim.Native.String
use libmihomo_android.Base.{
  Outcome, ok, err, Option, none, some, String, ℤ, Bool, true, false, List, [], ◌∷◌, ◌≡◌, refl,
  ◌==◌, if◌then◌else◌, ℕ,
}
use libmihomo_android.Bridge.Method.{
  Method, message, other_method, init_clash, get_is_init, force_gc, validate_config, update_config,
  setup_config, get_config, reset_traffic, reset_connections, side_load_external_provider,
  update_geo_data, start_log, stop_log, start_listener, stop_listener, get_country_code, crash,
  delete_file, get_proxies, change_proxy, test_delay, test_groups, probe_current_proxy_ip,
  query_external_providers, get_external_provider, update_external_provider, get_traffic,
  get_total_traffic, get_memory, get_connections, query_proxy_group_order, subscribe_connections,
  unsubscribe_connections, close_connection, close_all_connections, get_dns_queries,
  clear_dns_queries, set_logcat_level, set_file_level, set_file_enabled, set_log_file_path,
  forward_host_log, method_of,
}
use libmihomo_android.Bridge.Actions.Cases.{country_code_case}
use libmihomo_android.Bridge.Actions.Steps.{parse_string, returned, done}
use libmihomo_android.Bridge.Reply.{
  ActionResult, World, Value, success, fail, send, action_callback, plain,
}
use libmihomo_android.Bridge.Host.{
  Data, string, float64, int, bool, other, Json, Os, Handlers, Provider, missing, unreadable,
  directory, file, compatible, proxy_set, rule_set, ChangeProxyParams,
}
use libmihomo_android.Bridge.Actions.{mode_hint, handle_action}
use libmihomo_android.Bridge.Actions.Files.{
  report, del_file, text_of, side_loaded, side_load, update_geo,
}
use libmihomo_android.Bridge.Actions.Steps.{
  parse_string, parse_level, decoded, returned, done, called,
}
use libmihomo_android.Bridge.Actions.Cases.{
  side_load_case, update_geo_case, country_code_case, get_config_case, change_to, change_proxy_case,
  test_delay_case, test_groups_case, get_provider_case, update_provider_case, set_file_enabled_case,
  path_answer, set_log_file_path_case, host_log_case,
}
use libmihomo_android.Bridge.Actions.Entry.{Action, invoke_action}
use libmihomo_android.Bridge.Actions.Keeps.Contracts.{Contract}
use libmihomo_android.Bridge.Actions.Keeps.Steps.{
  parse_string-keeps, parse_level-keeps, del_file-keeps,
}
use libmihomo_android.Bridge.Actions.Keeps.Cases.{
  change_proxy_case-keeps, get_config_case-keeps, get_provider_case-keeps, host_log_case-keeps,
  set_file_enabled_case-keeps, set_log_file_path_case-keeps, side_load_case-keeps,
  test_delay_case-keeps, test_groups_case-keeps, update_geo_case-keeps, update_provider_case-keeps,
}

module _ {S V : Type 0} (P : S → Type 0) (json : Json V) (os : Os S) (h : Handlers S V)
    (k : Contract P os h) where
  handle_action-keeps :
      (result : ActionResult V) (m : Method) (d : Data) (w : World S)
      → P w.state
      → P (handle_action json os h m d result w).state
  unfolding handle_action returned done success fail send parse_string country_code_case
  handle_action-keeps result init_clash d w v =
      parse_string-keeps P json.marshal result d _ w v (λ s. k.init_clash s v)
  handle_action-keeps result get_is_init d w v = v
  handle_action-keeps result force_gc d w v = k.force_gc v
  handle_action-keeps result validate_config d w v =
      parse_string-keeps P json.marshal result d _ w v (λ s. k.validate_config s v)
  handle_action-keeps result update_config d w v =
      parse_string-keeps P json.marshal result d _ w v (λ s. k.update_config s v)
  handle_action-keeps result setup_config d w v =
      parse_string-keeps P json.marshal result d _ w v (λ s. k.setup_config s v)
  handle_action-keeps result get_config d w v = get_config_case-keeps P json os h k result d w v
  handle_action-keeps result reset_traffic d w v = k.reset_traffic v
  handle_action-keeps result reset_connections d w v = k.reset_connections v
  handle_action-keeps result side_load_external_provider d w v =
      side_load_case-keeps P json os h k result d w v
  handle_action-keeps result update_geo_data d w v =
      update_geo_case-keeps P json os h k result d w v
  handle_action-keeps result start_log d w v = k.start_log v
  handle_action-keeps result stop_log d w v = k.stop_log v
  handle_action-keeps result start_listener d w v = k.start_listener v
  handle_action-keeps result stop_listener d w v = k.stop_listener v
  handle_action-keeps result get_country_code d w v =
      parse_string-keeps P json.marshal result d _ w v (λ s. v)
  handle_action-keeps result crash d w v = k.crash v
  handle_action-keeps result delete_file d w v =
      parse_string-keeps P json.marshal result d _ w v
        (λ s. del_file-keeps P json.marshal result os s w v (k.remove_all s v) (k.remove s v))
  handle_action-keeps result get_proxies d w v = v
  handle_action-keeps result change_proxy d w v = change_proxy_case-keeps P json os h k result d w v
  handle_action-keeps result test_delay d w v = test_delay_case-keeps P json os h k result d w v
  handle_action-keeps result test_groups d w v = test_groups_case-keeps P json os h k result d w v
  handle_action-keeps result probe_current_proxy_ip d w v = k.probe_current_proxy_ip (mode_hint d) v
  handle_action-keeps result query_external_providers d w v = v
  handle_action-keeps result get_external_provider d w v =
      get_provider_case-keeps P json os h k result d w v
  handle_action-keeps result update_external_provider d w v =
      update_provider_case-keeps P json os h k result d w v
  handle_action-keeps result get_traffic d w v = v
  handle_action-keeps result get_total_traffic d w v = v
  handle_action-keeps result get_memory d w v = v
  handle_action-keeps result get_connections d w v = v
  handle_action-keeps result query_proxy_group_order d w v = v
  handle_action-keeps result subscribe_connections d w v = k.subscribe_connections v
  handle_action-keeps result unsubscribe_connections d w v = k.unsubscribe_connections v
  handle_action-keeps result close_connection d w v =
      parse_string-keeps P json.marshal result d _ w v (λ s. k.close_connection s v)
  handle_action-keeps result close_all_connections d w v = k.close_all_connections v
  handle_action-keeps result get_dns_queries d w v = k.get_dns_queries v
  handle_action-keeps result clear_dns_queries d w v = k.clear_dns_queries v
  handle_action-keeps result set_logcat_level d w v =
      parse_level-keeps P json.marshal result os.level_mapping d _ w v (λ n. k.set_logcat_level n v)
  handle_action-keeps result set_file_level d w v =
      parse_level-keeps P json.marshal result os.level_mapping d _ w v (λ n. k.set_file_level n v)
  handle_action-keeps result set_file_enabled d w v =
      set_file_enabled_case-keeps P json os h k result d w v
  handle_action-keeps result set_log_file_path d w v =
      set_log_file_path_case-keeps P json os h k result d w v
  handle_action-keeps result forward_host_log d w v = host_log_case-keeps P json os h k result d w v
  handle_action-keeps result message d w v = v
  handle_action-keeps result (other_method name) d w v = v

  -- What the host sends keeps a property of the state that every handler and every call of the system keeps.
  pub invoke_action-keeps :
      (callback : ℕ) (action : Outcome Action) (w : World S)
      → P w.state
      → P (invoke_action json os h callback action w).state
  unfolding invoke_action
  invoke_action-keeps callback (err why) w v = v
  invoke_action-keeps callback (ok action) w v =
      handle_action-keeps _ (method_of action.method) action.data_ w v
