-- ===== src/Bridge/Actions/Cases.antt =====
-- The cases of `handleAction` that decode their data further.
use libmihomo_android.Base.{Option, none, some, String}
use libmihomo_android.Bridge.Reply.{ActionResult, World, success, fail, plain, number, object}
use libmihomo_android.Bridge.Host.{Data, bool, Json, Os, Handlers, ChangeProxyParams}
use libmihomo_android.Bridge.Actions.Files.{report, side_load, update_geo, country_code}
use libmihomo_android.Bridge.Actions.Steps.{parse_string, decoded, returned, done, called}

module _ {S V : Type 0} (json : Json V) (os : Os S) where
  unfoldable pub side_load_case : Data → ActionResult V → World S → World S
  unfolding parse_string decoded called
  side_load_case data_ result = parse_string json.marshal data_ result λ s w.
      decoded json.marshal (json.string_map s) result
        (λ params w.
          called json.marshal result (side_load os (params "providerName") (params "data") w.state)
            w)
        w

  unfoldable pub update_geo_case : Data → ActionResult V → World S → World S
  unfolding parse_string decoded called
  update_geo_case data_ result = parse_string json.marshal data_ result λ s w.
      decoded json.marshal (json.string_map s) result
        (λ params w. called json.marshal result (update_geo os (params "geo-type") w.state) w) w

  unfoldable pub country_code_case : Data → ActionResult V → World S → World S
  unfolding parse_string success
  country_code_case data_ result =
      parse_string json.marshal data_ result
        λ ip w. success json.marshal (plain (country_code os ip w.state)) result w

module _ {S V : Type 0} (json : Json V) (h : Handlers S V) where
  unfoldable pub get_config_case : Data → ActionResult V → World S → World S
  unfolding parse_string decoded success
  get_config_case data_ result = parse_string json.marshal data_ result λ path w.
      let (s, config) = h.get_config path w.state in
      decoded json.marshal config result (λ c. success json.marshal (object c) result)
        (record w { state = s })

  -- `changeProxyMethod` with its parameters decoded.
  unfoldable pub change_to : ActionResult V → ChangeProxyParams → World S → World S
  unfolding fail report
  change_to result params w = elim (params.group_name) [
    | none ↦ fail json.marshal "group-name and proxy-name are required" result w
    | some group ↦ elim (params.proxy_name) [
      | none ↦ fail json.marshal "group-name and proxy-name are required" result w
      | some name ↦ report json.marshal result (h.change_proxy group name w.state) w
    ]
  ]

  unfoldable pub change_proxy_case : Data → ActionResult V → World S → World S
  unfolding parse_string decoded change_to
  change_proxy_case data_ result =
      parse_string json.marshal data_ result
        λ s w. decoded json.marshal (json.change_proxy s) result (change_to result) w

  unfoldable pub test_delay_case : Data → ActionResult V → World S → World S
  unfolding parse_string decoded returned
  test_delay_case data_ result = parse_string json.marshal data_ result λ s w.
      decoded json.marshal (json.test_delay s) result
        (λ p w.
          returned json.marshal number result
            (h.async_test_delay p.proxy_name p.test_url p.timeout w.state) w)
        w

  unfoldable pub test_groups_case : Data → ActionResult V → World S → World S
  unfolding parse_string decoded returned
  test_groups_case data_ result = parse_string json.marshal data_ result λ s w.
      decoded json.marshal (json.test_groups s) result
        (λ p w.
          returned json.marshal plain result
            (h.test_groups p.group_names p.test_url p.timeout w.state) w)
        w

  unfoldable pub get_provider_case : Data → ActionResult V → World S → World S
  unfolding parse_string decoded success
  get_provider_case data_ result = parse_string json.marshal data_ result λ s w.
      decoded json.marshal (json.provider s) result
        (λ p w.
          success json.marshal (plain (h.get_external_provider p.type_ p.name w.state)) result w)
        w

  -- The empty string is success, as in `actionCallback`.
  unfoldable pub update_provider_case : Data → ActionResult V → World S → World S
  unfolding parse_string decoded called
  update_provider_case data_ result = parse_string json.marshal data_ result λ s w.
      decoded json.marshal (json.provider s) result
        (λ p w. called json.marshal result (h.update_external_provider p.type_ p.name w.state) w) w

  unfoldable pub set_file_enabled_case : Data → ActionResult V → World S → World S
  unfolding done fail
  set_file_enabled_case (bool enabled) result w =
      done json.marshal result (h.set_file_enabled enabled w.state) w
  set_file_enabled_case _ result w = fail json.marshal "invalid data type" result w

  -- What follows `setLogFilePathImpl`.
  unfoldable pub path_answer : ActionResult V → S × Option String → World S → World S
  unfolding done fail
  path_answer result (s, some why) w = fail json.marshal why result (record w { state = s })
  path_answer result (s, none) w = done json.marshal result s w

  unfoldable pub set_log_file_path_case : Data → ActionResult V → World S → World S
  unfolding parse_string path_answer
  set_log_file_path_case data_ result =
      parse_string json.marshal data_ result
        λ path w. path_answer result (h.set_log_file_path path w.state) w

  unfoldable pub host_log_case : Data → ActionResult V → World S → World S
  unfolding parse_string decoded done
  host_log_case data_ result = parse_string json.marshal data_ result λ s w.
      decoded json.marshal (json.host_log s) result
        (λ p w. done json.marshal result (h.host_log p.level p.tag p.payload w.state) w) w
