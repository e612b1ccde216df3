-- ===== src/Bridge/Actions/Keeps/Cases.antt =====
-- The longer cases of `handleAction`, over a property that every handler keeps.
use libmihomo_android.Base.{Option, none, some, String}
use libmihomo_android.Bridge.Reply.{ActionResult, World, success, fail, send}
use libmihomo_android.Bridge.Host.{
  Data, string, float64, int, bool, other, Json, Os, Handlers, ChangeProxyParams,
}
use libmihomo_android.Bridge.Actions.Steps.{returned, done}
use libmihomo_android.Bridge.Actions.Cases.{
  side_load_case, update_geo_case, get_config_case, change_to, change_proxy_case, test_delay_case,
  test_groups_case, get_provider_case, update_provider_case, set_file_enabled_case, path_answer,
  set_log_file_path_case, host_log_case,
}
use libmihomo_android.Bridge.Actions.Keeps.Contracts.{Contract}
use libmihomo_android.Bridge.Actions.Keeps.Steps.{
  parse_string-keeps, decoded-keeps, called-keeps, report-keeps, side_load-keeps, update_geo-keeps,
}

module _ {S V : Type 0} (P : S → Type 0) (json : Json V) (os : Os S) (h : Handlers S V)
    (k : Contract P os h) (result : ActionResult V) where
  pub path_answer-keeps :
      (r : S × Option String) (w : World S) → P r.0 → P (path_answer json h result r w).state
  unfolding path_answer done success fail send
  path_answer-keeps (s, none) w v = v
  path_answer-keeps (s, some why) w v = v

  pub side_load_case-keeps :
      (d : Data) (w : World S) → P w.state → P (side_load_case json os d result w).state
  unfolding side_load_case
  side_load_case-keeps d w v = parse_string-keeps P json.marshal result d _ w v (λ s.
      decoded-keeps P json.marshal result (json.string_map s) _ w v (λ p.
        called-keeps P json.marshal result _ w
          (side_load-keeps P os h k (p "providerName") (p "data") w.state v)))

  pub update_geo_case-keeps :
      (d : Data) (w : World S) → P w.state → P (update_geo_case json os d result w).state
  unfolding update_geo_case
  update_geo_case-keeps d w v = parse_string-keeps P json.marshal result d _ w v (λ s.
      decoded-keeps P json.marshal result (json.string_map s) _ w v (λ p.
        called-keeps P json.marshal result _ w
          (update_geo-keeps P os h k (p "geo-type") w.state v)))

  pub get_config_case-keeps :
      (d : Data) (w : World S) → P w.state → P (get_config_case json h d result w).state
  unfolding get_config_case returned done success fail send
  get_config_case-keeps d w v = parse_string-keeps P json.marshal result d _ w v (λ s.
      decoded-keeps P json.marshal result (h.get_config s w.state).1 _ _ (k.get_config s v)
        (λ c. k.get_config s v))

  pub change_to-keeps :
      (p : ChangeProxyParams) (w : World S) → P w.state → P (change_to json h result p w).state
  unfolding change_to returned done success fail send
  change_to-keeps p w v = named p.group_name p.proxy_name
    where
      named :
          (g n : Option String)
          → P (change_to json h result (record { group_name = g; proxy_name = n }) w).state
      named none n = v
      named (some g) none = v
      named (some g) (some n) =
          report-keeps P json.marshal result (h.change_proxy g n w.state) w (k.change_proxy g n v)

  pub change_proxy_case-keeps :
      (d : Data) (w : World S) → P w.state → P (change_proxy_case json h d result w).state
  unfolding change_proxy_case
  change_proxy_case-keeps d w v = parse_string-keeps P json.marshal result d _ w v (λ s.
      decoded-keeps P json.marshal result (json.change_proxy s) _ w v (λ p. change_to-keeps p w v))

  pub test_delay_case-keeps :
      (d : Data) (w : World S) → P w.state → P (test_delay_case json h d result w).state
  unfolding test_delay_case returned done success fail send
  test_delay_case-keeps d w v = parse_string-keeps P json.marshal result d _ w v (λ s.
      decoded-keeps P json.marshal result (json.test_delay s) _ w v
        (λ p. k.async_test_delay p.proxy_name p.test_url p.timeout v))

  pub test_groups_case-keeps :
      (d : Data) (w : World S) → P w.state → P (test_groups_case json h d result w).state
  unfolding test_groups_case returned done success fail send
  test_groups_case-keeps d w v = parse_string-keeps P json.marshal result d _ w v (λ s.
      decoded-keeps P json.marshal result (json.test_groups s) _ w v
        (λ p. k.test_groups p.group_names p.test_url p.timeout v))

  pub get_provider_case-keeps :
      (d : Data) (w : World S) → P w.state → P (get_provider_case json h d result w).state
  unfolding get_provider_case returned done success fail send
  get_provider_case-keeps d w v =
      parse_string-keeps P json.marshal result d _ w v
        (λ s. decoded-keeps P json.marshal result (json.provider s) _ w v (λ p. v))

  pub update_provider_case-keeps :
      (d : Data) (w : World S) → P w.state → P (update_provider_case json h d result w).state
  unfolding update_provider_case
  update_provider_case-keeps d w v = parse_string-keeps P json.marshal result d _ w v (λ s.
      decoded-keeps P json.marshal result (json.provider s) _ w v
        (λ p. called-keeps P json.marshal result _ w (k.update_external_provider p.type_ p.name v)))

  pub host_log_case-keeps :
      (d : Data) (w : World S) → P w.state → P (host_log_case json h d result w).state
  unfolding host_log_case returned done success fail send
  host_log_case-keeps d w v = parse_string-keeps P json.marshal result d _ w v (λ s.
      decoded-keeps P json.marshal result (json.host_log s) _ w v
        (λ p. k.host_log p.level p.tag p.payload v))

  pub set_file_enabled_case-keeps :
      (d : Data) (w : World S) → P w.state → P (set_file_enabled_case json h d result w).state
  unfolding set_file_enabled_case returned done success fail send
  set_file_enabled_case-keeps (bool b) w v = k.set_file_enabled b v
  set_file_enabled_case-keeps (string s) w v = v
  set_file_enabled_case-keeps (float64 n) w v = v
  set_file_enabled_case-keeps (int n) w v = v
  set_file_enabled_case-keeps other w v = v

  pub set_log_file_path_case-keeps :
      (d : Data) (w : World S) → P w.state → P (set_log_file_path_case json h d result w).state
  unfolding set_log_file_path_case
  set_log_file_path_case-keeps d w v =
      parse_string-keeps P json.marshal result d _ w v
        (λ s. path_answer-keeps (h.set_log_file_path s w.state) w (k.set_log_file_path s v))
