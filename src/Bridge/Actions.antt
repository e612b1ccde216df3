-- ===== src/Bridge/Actions.antt =====
-- `handleAction` of action.go and `invokeAction` of lib.go.
pub mod Files
pub mod Steps
pub mod Cases
pub mod Replies
pub mod Answers
pub mod Entry
pub mod Balance
pub mod Others
pub mod Keeps
use Prim.Native.String.{◌++◌}
use libmihomo_android.Base.{String, true}
use libmihomo_android.Bridge.Method.{
  Method, method_name, init_clash, get_is_init, force_gc, validate_config, update_config,
  setup_config, get_config, reset_traffic, reset_connections, side_load_external_provider,
  update_geo_data, start_log, stop_log, start_listener, stop_listener, get_country_code, crash,
  delete_file, get_proxies, change_proxy, test_delay, test_groups, probe_current_proxy_ip,
  query_external_providers, get_external_provider, update_external_provider, get_traffic,
  get_total_traffic, get_memory, get_connections, query_proxy_group_order, subscribe_connections,
  unsubscribe_connections, close_connection, close_all_connections, get_dns_queries,
  clear_dns_queries, set_logcat_level, set_file_level, set_file_enabled, set_log_file_path,
  forward_host_log,
}
use libmihomo_android.Bridge.Reply.{ActionResult, World, success, fail, plain, flag}
use libmihomo_android.Bridge.Host.{Data, string, Json, Os, Handlers}
use libmihomo_android.Bridge.Actions.Files.{del_file}
use libmihomo_android.Bridge.Actions.Steps.{parse_string, parse_level, returned, done}
use libmihomo_android.Bridge.Actions.Cases.{
  side_load_case, update_geo_case, country_code_case, get_config_case, change_proxy_case,
  test_delay_case, test_groups_case, get_provider_case, update_provider_case, set_file_enabled_case,
  set_log_file_path_case, host_log_case,
}

-- `modeHint, _ := action.Data.(string)`
abbrev pub mode_hint : Data → String
mode_hint (string s) = s
mode_hint _ = ""

module _ {S V : Type 0} (json : Json V) (os : Os S) (h : Handlers S V) where
  -- The cases of the switch from `getTrafficMethod` on. The last clause is its default, which `message` meets too.
  unfoldable pub handle_rest : Method → Data → ActionResult V → World S → World S
  handle_rest get_traffic data_ result w =
      success json.marshal (plain (h.get_traffic w.state)) result w
  handle_rest get_total_traffic data_ result w =
      success json.marshal (plain (h.get_total_traffic w.state)) result w
  handle_rest get_memory data_ result w =
      success json.marshal (plain (h.get_memory w.state)) result w
  handle_rest get_connections data_ result w =
      success json.marshal (plain (h.get_connections w.state)) result w
  handle_rest query_proxy_group_order data_ result w =
      success json.marshal (plain (h.query_proxy_group_order w.state)) result w
  handle_rest subscribe_connections data_ result w =
      done json.marshal result (h.subscribe_connections w.state) w
  handle_rest unsubscribe_connections data_ result w =
      done json.marshal result (h.unsubscribe_connections w.state) w
  handle_rest close_connection data_ result w =
      parse_string json.marshal data_ result
        (λ s w. returned json.marshal flag result (h.close_connection s w.state) w) w
  handle_rest close_all_connections data_ result w =
      returned json.marshal flag result (h.close_all_connections w.state) w
  handle_rest get_dns_queries data_ result w =
      returned json.marshal plain result (h.get_dns_queries w.state) w
  handle_rest clear_dns_queries data_ result w =
      done json.marshal result (h.clear_dns_queries w.state) w
  handle_rest set_logcat_level data_ result w =
      parse_level json.marshal os.level_mapping data_ result
        (λ level w. done json.marshal result (h.set_logcat_level level w.state) w) w
  handle_rest set_file_level data_ result w =
      parse_level json.marshal os.level_mapping data_ result
        (λ level w. done json.marshal result (h.set_file_level level w.state) w) w
  handle_rest set_file_enabled data_ result w = set_file_enabled_case json h data_ result w
  handle_rest set_log_file_path data_ result w = set_log_file_path_case json h data_ result w
  handle_rest forward_host_log data_ result w = host_log_case json h data_ result w
  handle_rest m data_ result w = fail json.marshal ("unknown method: " ++ method_name m) result w

  unfoldable pub handle_action : Method → Data → ActionResult V → World S → World S
  unfolding handle_rest
  handle_action init_clash data_ result w =
      parse_string json.marshal data_ result
        (λ s w. returned json.marshal flag result (h.init_clash s w.state) w) w
  handle_action get_is_init data_ result w =
      success json.marshal (flag (h.get_is_init w.state)) result w
  handle_action force_gc data_ result w = done json.marshal result (h.force_gc w.state) w
  handle_action validate_config data_ result w =
      parse_string json.marshal data_ result
        (λ s w. returned json.marshal plain result (h.validate_config s w.state) w) w
  handle_action update_config data_ result w =
      parse_string json.marshal data_ result
        (λ s w. returned json.marshal plain result (h.update_config s w.state) w) w
  handle_action setup_config data_ result w =
      parse_string json.marshal data_ result
        (λ s w. returned json.marshal plain result (h.setup_config s w.state) w) w
  handle_action get_config data_ result w = get_config_case json h data_ result w
  handle_action reset_traffic data_ result w = done json.marshal result (h.reset_traffic w.state) w
  handle_action reset_connections data_ result w =
      returned json.marshal flag result (h.reset_connections w.state) w
  handle_action side_load_external_provider data_ result w = side_load_case json os data_ result w
  handle_action update_geo_data data_ result w = update_geo_case json os data_ result w
  handle_action start_log data_ result w = done json.marshal result (h.start_log w.state) w
  handle_action stop_log data_ result w = done json.marshal result (h.stop_log w.state) w
  handle_action start_listener data_ result w =
      returned json.marshal flag result (h.start_listener w.state) w
  handle_action stop_listener data_ result w =
      returned json.marshal flag result (h.stop_listener w.state) w
  handle_action get_country_code data_ result w = country_code_case json os data_ result w
  handle_action crash data_ result w =
      let answered = success json.marshal (flag true) result w in
      record answered { state = h.crash answered.state }
  handle_action delete_file data_ result w =
      parse_string json.marshal data_ result (λ s w. del_file json.marshal os s result w) w
  handle_action get_proxies data_ result w =
      success json.marshal (plain (h.get_proxies w.state)) result w
  handle_action change_proxy data_ result w = change_proxy_case json h data_ result w
  handle_action test_delay data_ result w = test_delay_case json h data_ result w
  handle_action test_groups data_ result w = test_groups_case json h data_ result w
  handle_action probe_current_proxy_ip data_ result w =
      returned json.marshal plain result (h.probe_current_proxy_ip (mode_hint data_) w.state) w
  handle_action query_external_providers data_ result w =
      success json.marshal (plain (h.query_external_providers w.state)) result w
  handle_action get_external_provider data_ result w = get_provider_case json h data_ result w
  handle_action update_external_provider data_ result w = update_provider_case json h data_ result w
  handle_action m data_ result w = handle_rest m data_ result w
