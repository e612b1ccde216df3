-- ===== src/Bridge/Actions/Answers.antt =====
-- The replies of whole actions, case by case.
use libmihomo_android.Base.{Option, none, some, String, refl, pos, true}
use libmihomo_android.Bridge.Method.{
  Method, message, other_method, init_clash, get_is_init, force_gc, validate_config, update_config,
  setup_config, get_config, reset_traffic, reset_connections, side_load_external_provider,
  update_geo_data, start_log, stop_log, start_listener, stop_listener, get_country_code, crash,
  delete_file, get_proxies, change_proxy, test_delay, test_groups, probe_current_proxy_ip,
  query_external_providers, get_external_provider, update_external_provider, get_traffic,
  get_total_traffic, get_memory, get_connections, query_proxy_group_order, subscribe_connections,
  unsubscribe_connections, close_connection, close_all_connections, get_dns_queries,
  clear_dns_queries, set_logcat_level, set_file_level, set_file_enabled, set_log_file_path,
  forward_host_log,
}
use libmihomo_android.Bridge.Reply.{ActionResult, World, success, plain, flag, number, object, send}
use libmihomo_android.Bridge.Host.{
  Data, string, float64, int, bool, other, Json, Os, Handlers, ChangeProxyParams, TestDelayParams,
  TestGroupsParams, ProviderParams, HostLogParams,
}
use libmihomo_android.Bridge.Actions.{handle_action}
use libmihomo_android.Bridge.Actions.Files.{side_load, update_geo}
use libmihomo_android.Bridge.Actions.Cases.{
  side_load_case, update_geo_case, country_code_case, get_config_case, change_to, change_proxy_case,
  test_delay_case, test_groups_case, get_provider_case, update_provider_case, set_file_enabled_case,
  path_answer, set_log_file_path_case, host_log_case,
}
use libmihomo_android.Bridge.Actions.Steps.{called, returned, done}
use libmihomo_android.Bridge.Actions.Replies.{
  IsAnswered, answered, fail-IsAnswered, parse_string-IsAnswered, parse_level-IsAnswered,
  decoded-IsAnswered, called-IsAnswered, report-IsAnswered, del_file-IsAnswered,
}

module _ {S V : Type 0} (json : Json V) (os : Os S) (h : Handlers S V)
    (result : ActionResult V) where
  change_to-IsAnswered :
      (p : ChangeProxyParams) (w : World S)
      → IsAnswered json.marshal result w (change_to json h result p w)
  unfolding change_to
  change_to-IsAnswered p w = with_names p.group_name p.proxy_name
    where
      with_names :
          (g n : Option String)
          → IsAnswered json.marshal result w
              (change_to json h result record { group_name = g; proxy_name = n } w)
      with_names none n = fail-IsAnswered json.marshal result _ w.state w
      with_names (some g) none = fail-IsAnswered json.marshal result _ w.state w
      with_names (some g) (some n) =
          report-IsAnswered json.marshal result (h.change_proxy g n w.state) w

  side_load_case-IsAnswered :
      (d : Data) (w : World S)
      → IsAnswered json.marshal result w (side_load_case json os d result w)
  unfolding side_load_case
  side_load_case-IsAnswered d w = parse_string-IsAnswered json.marshal result d _ w (λ s.
      decoded-IsAnswered json.marshal result {A = (String → String)} (json.string_map s)
        (λ params w.
          called json.marshal result (side_load os (params "providerName") (params "data") w.state)
            w)
        w.state w
        (λ p.
          called-IsAnswered json.marshal result (side_load os (p "providerName") (p "data") w.state)
            w))

  update_geo_case-IsAnswered :
      (d : Data) (w : World S)
      → IsAnswered json.marshal result w (update_geo_case json os d result w)
  unfolding update_geo_case
  update_geo_case-IsAnswered d w = parse_string-IsAnswered json.marshal result d _ w (λ s.
      decoded-IsAnswered json.marshal result {A = (String → String)} (json.string_map s)
        (λ params w. called json.marshal result (update_geo os (params "geo-type") w.state) w)
        w.state w
        (λ p. called-IsAnswered json.marshal result (update_geo os (p "geo-type") w.state) w))

  country_code_case-IsAnswered :
      (d : Data) (w : World S)
      → IsAnswered json.marshal result w (country_code_case json os d result w)
  unfolding country_code_case
  country_code_case-IsAnswered d w =
      parse_string-IsAnswered json.marshal result d _ w (λ s. answered _ (pos 0) refl)

  get_config_case-IsAnswered :
      (d : Data) (w : World S)
      → IsAnswered json.marshal result w (get_config_case json h d result w)
  unfolding get_config_case
  get_config_case-IsAnswered d w = parse_string-IsAnswered json.marshal result d _ w (λ s.
      decoded-IsAnswered json.marshal result {A = V} ((h.get_config s w.state).1)
        (λ c. success json.marshal (object c) result) (h.get_config s w.state).0 w
        (λ p. answered _ (pos 0) refl))

  change_proxy_case-IsAnswered :
      (d : Data) (w : World S)
      → IsAnswered json.marshal result w (change_proxy_case json h d result w)
  unfolding change_proxy_case
  change_proxy_case-IsAnswered d w = parse_string-IsAnswered json.marshal result d _ w (λ s.
      decoded-IsAnswered json.marshal result {A = ChangeProxyParams} (json.change_proxy s)
        (change_to json h result) w.state w (λ p. change_to-IsAnswered p w))

  test_delay_case-IsAnswered :
      (d : Data) (w : World S)
      → IsAnswered json.marshal result w (test_delay_case json h d result w)
  unfolding test_delay_case
  test_delay_case-IsAnswered d w = parse_string-IsAnswered json.marshal result d _ w (λ s.
      decoded-IsAnswered json.marshal result {A = TestDelayParams} (json.test_delay s)
        (λ p w.
          returned json.marshal number result
            (h.async_test_delay p.proxy_name p.test_url p.timeout w.state) w)
        w.state w (λ p. answered _ (pos 0) refl))

  test_groups_case-IsAnswered :
      (d : Data) (w : World S)
      → IsAnswered json.marshal result w (test_groups_case json h d result w)
  unfolding test_groups_case
  test_groups_case-IsAnswered d w = parse_string-IsAnswered json.marshal result d _ w (λ s.
      decoded-IsAnswered json.marshal result {A = TestGroupsParams} (json.test_groups s)
        (λ p w.
          returned json.marshal plain result
            (h.test_groups p.group_names p.test_url p.timeout w.state) w)
        w.state w (λ p. answered _ (pos 0) refl))

  get_provider_case-IsAnswered :
      (d : Data) (w : World S)
      → IsAnswered json.marshal result w (get_provider_case json h d result w)
  unfolding get_provider_case
  get_provider_case-IsAnswered d w = parse_string-IsAnswered json.marshal result d _ w (λ s.
      decoded-IsAnswered json.marshal result {A = ProviderParams} (json.provider s)
        (λ p w.
          success json.marshal (plain (h.get_external_provider p.type_ p.name w.state)) result w)
        w.state w (λ p. answered _ (pos 0) refl))

  update_provider_case-IsAnswered :
      (d : Data) (w : World S)
      → IsAnswered json.marshal result w (update_provider_case json h d result w)
  unfolding update_provider_case
  update_provider_case-IsAnswered d w = parse_string-IsAnswered json.marshal result d _ w (λ s.
      decoded-IsAnswered json.marshal result {A = ProviderParams} (json.provider s)
        (λ p w. called json.marshal result (h.update_external_provider p.type_ p.name w.state) w)
        w.state w
        (λ p.
          called-IsAnswered json.marshal result (h.update_external_provider p.type_ p.name w.state)
            w))

  host_log_case-IsAnswered :
      (d : Data) (w : World S) → IsAnswered json.marshal result w (host_log_case json h d result w)
  unfolding host_log_case
  host_log_case-IsAnswered d w = parse_string-IsAnswered json.marshal result d _ w (λ s.
      decoded-IsAnswered json.marshal result {A = HostLogParams} (json.host_log s)
        (λ p w. done json.marshal result (h.host_log p.level p.tag p.payload w.state) w) w.state w
        (λ p. answered _ (pos 0) refl))

  set_file_enabled_case-IsAnswered :
      (d : Data) (w : World S)
      → IsAnswered json.marshal result w (set_file_enabled_case json h d result w)
  unfolding set_file_enabled_case
  set_file_enabled_case-IsAnswered (bool b) w = answered _ (pos 0) refl
  set_file_enabled_case-IsAnswered (string s) w = fail-IsAnswered json.marshal result _ w.state w
  set_file_enabled_case-IsAnswered (float64 v) w = fail-IsAnswered json.marshal result _ w.state w
  set_file_enabled_case-IsAnswered (int v) w = fail-IsAnswered json.marshal result _ w.state w
  set_file_enabled_case-IsAnswered other w = fail-IsAnswered json.marshal result _ w.state w

  path_answer-IsAnswered :
      (r : S × Option String) (w : World S)
      → IsAnswered json.marshal result w (path_answer json h result r w)
  unfolding path_answer
  path_answer-IsAnswered (s, some why) w = fail-IsAnswered json.marshal result why s w
  path_answer-IsAnswered (s, none) w = answered _ (pos 0) refl

  set_log_file_path_case-IsAnswered :
      (d : Data) (w : World S)
      → IsAnswered json.marshal result w (set_log_file_path_case json h d result w)
  unfolding set_log_file_path_case
  set_log_file_path_case-IsAnswered d w =
      parse_string-IsAnswered json.marshal result d _ w
        (λ s. path_answer-IsAnswered (h.set_log_file_path s w.state) w)

  -- An action of whatever method and data, with whatever handlers, is replied to once: the events that it
  -- adds are those of sending its own result, with some data and code.
  pub handle_action-IsAnswered :
      (m : Method) (d : Data) (w : World S)
      → IsAnswered json.marshal result w (handle_action json os h m d result w)
  unfolding handle_action returned done success send
  handle_action-IsAnswered init_clash d w =
      parse_string-IsAnswered json.marshal result d _ w (λ s. answered _ (pos 0) refl)
  handle_action-IsAnswered get_is_init d w = answered _ (pos 0) refl
  handle_action-IsAnswered force_gc d w = answered _ (pos 0) refl
  handle_action-IsAnswered validate_config d w =
      parse_string-IsAnswered json.marshal result d _ w (λ s. answered _ (pos 0) refl)
  handle_action-IsAnswered update_config d w =
      parse_string-IsAnswered json.marshal result d _ w (λ s. answered _ (pos 0) refl)
  handle_action-IsAnswered setup_config d w =
      parse_string-IsAnswered json.marshal result d _ w (λ s. answered _ (pos 0) refl)
  handle_action-IsAnswered get_config d w = get_config_case-IsAnswered d w
  handle_action-IsAnswered reset_traffic d w = answered _ (pos 0) refl
  handle_action-IsAnswered reset_connections d w = answered _ (pos 0) refl
  handle_action-IsAnswered side_load_external_provider d w = side_load_case-IsAnswered d w
  handle_action-IsAnswered update_geo_data d w = update_geo_case-IsAnswered d w
  handle_action-IsAnswered start_log d w = answered _ (pos 0) refl
  handle_action-IsAnswered stop_log d w = answered _ (pos 0) refl
  handle_action-IsAnswered start_listener d w = answered _ (pos 0) refl
  handle_action-IsAnswered stop_listener d w = answered _ (pos 0) refl
  handle_action-IsAnswered get_country_code d w = country_code_case-IsAnswered d w
  handle_action-IsAnswered crash d w = answered (flag true) (pos 0) refl
  handle_action-IsAnswered delete_file d w =
      parse_string-IsAnswered json.marshal result d _ w
        (λ s. del_file-IsAnswered json.marshal result os s w)
  handle_action-IsAnswered get_proxies d w = answered _ (pos 0) refl
  handle_action-IsAnswered change_proxy d w = change_proxy_case-IsAnswered d w
  handle_action-IsAnswered test_delay d w = test_delay_case-IsAnswered d w
  handle_action-IsAnswered test_groups d w = test_groups_case-IsAnswered d w
  handle_action-IsAnswered probe_current_proxy_ip d w = answered _ (pos 0) refl
  handle_action-IsAnswered query_external_providers d w = answered _ (pos 0) refl
  handle_action-IsAnswered get_external_provider d w = get_provider_case-IsAnswered d w
  handle_action-IsAnswered update_external_provider d w = update_provider_case-IsAnswered d w
  handle_action-IsAnswered get_traffic d w = answered _ (pos 0) refl
  handle_action-IsAnswered get_total_traffic d w = answered _ (pos 0) refl
  handle_action-IsAnswered get_memory d w = answered _ (pos 0) refl
  handle_action-IsAnswered get_connections d w = answered _ (pos 0) refl
  handle_action-IsAnswered query_proxy_group_order d w = answered _ (pos 0) refl
  handle_action-IsAnswered subscribe_connections d w = answered _ (pos 0) refl
  handle_action-IsAnswered unsubscribe_connections d w = answered _ (pos 0) refl
  handle_action-IsAnswered close_connection d w =
      parse_string-IsAnswered json.marshal result d _ w (λ s. answered _ (pos 0) refl)
  handle_action-IsAnswered close_all_connections d w = answered _ (pos 0) refl
  handle_action-IsAnswered get_dns_queries d w = answered _ (pos 0) refl
  handle_action-IsAnswered clear_dns_queries d w = answered _ (pos 0) refl
  handle_action-IsAnswered set_logcat_level d w =
      parse_level-IsAnswered json.marshal result os.level_mapping d _ w
        (λ v. answered _ (pos 0) refl)
  handle_action-IsAnswered set_file_level d w =
      parse_level-IsAnswered json.marshal result os.level_mapping d _ w
        (λ v. answered _ (pos 0) refl)
  handle_action-IsAnswered set_file_enabled d w = set_file_enabled_case-IsAnswered d w
  handle_action-IsAnswered set_log_file_path d w = set_log_file_path_case-IsAnswered d w
  handle_action-IsAnswered forward_host_log d w = host_log_case-IsAnswered d w
  handle_action-IsAnswered message d w = fail-IsAnswered json.marshal result _ w.state w
  handle_action-IsAnswered (other_method name) d w = fail-IsAnswered json.marshal result _ w.state w
