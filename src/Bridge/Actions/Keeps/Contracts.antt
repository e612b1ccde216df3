-- ===== src/Bridge/Actions/Keeps/Contracts.antt =====
-- What the calls of `handleAction` keep, as a contract on them.
use libmihomo_android.Base.{Option, some, String, ℤ, Bool, List, ◌≡◌}
use libmihomo_android.Bridge.Host.{Os, Handlers, proxy_set}

-- Every call that `handleAction` makes keeps a property of the state.
pub record Contract {S V : Type 0} (P : S → Type 0) (os : Os S) (h : Handlers S V) : Type 0 where
  pub init_clash : (a : String) {s : S} → P s → P (h.init_clash a s).0
  pub force_gc : {s : S} → P s → P (h.force_gc s)
  pub validate_config : (a : String) {s : S} → P s → P (h.validate_config a s).0
  pub update_config : (a : String) {s : S} → P s → P (h.update_config a s).0
  pub setup_config : (a : String) {s : S} → P s → P (h.setup_config a s).0
  pub get_config : (a : String) {s : S} → P s → P (h.get_config a s).0
  pub reset_traffic : {s : S} → P s → P (h.reset_traffic s)
  pub reset_connections : {s : S} → P s → P (h.reset_connections s).0
  pub start_log : {s : S} → P s → P (h.start_log s)
  pub stop_log : {s : S} → P s → P (h.stop_log s)
  pub start_listener : {s : S} → P s → P (h.start_listener s).0
  pub stop_listener : {s : S} → P s → P (h.stop_listener s).0
  pub crash : {s : S} → P s → P (h.crash s)
  pub change_proxy : (a : String) (b : String) {s : S} → P s → P (h.change_proxy a b s).0
  pub async_test_delay :
      (a : String) (b : String) (c : ℤ) {s : S} → P s → P (h.async_test_delay a b c s).0
  pub test_groups :
      (a : List String) (b : String) (c : ℤ) {s : S} → P s → P (h.test_groups a b c s).0
  pub probe_current_proxy_ip : (a : String) {s : S} → P s → P (h.probe_current_proxy_ip a s).0
  pub update_external_provider :
      (a : String) (b : String) {s : S} → P s → P (h.update_external_provider a b s).0
  pub subscribe_connections : {s : S} → P s → P (h.subscribe_connections s)
  pub unsubscribe_connections : {s : S} → P s → P (h.unsubscribe_connections s)
  pub close_connection : (a : String) {s : S} → P s → P (h.close_connection a s).0
  pub close_all_connections : {s : S} → P s → P (h.close_all_connections s).0
  pub get_dns_queries : {s : S} → P s → P (h.get_dns_queries s).0
  pub clear_dns_queries : {s : S} → P s → P (h.clear_dns_queries s)
  pub set_logcat_level : (a : ℤ) {s : S} → P s → P (h.set_logcat_level a s)
  pub set_file_level : (a : ℤ) {s : S} → P s → P (h.set_file_level a s)
  pub set_file_enabled : (a : Bool) {s : S} → P s → P (h.set_file_enabled a s)
  pub set_log_file_path : (a : String) {s : S} → P s → P (h.set_log_file_path a s).0
  pub host_log : (a : ℤ) (b : String) (c : String) {s : S} → P s → P (h.host_log a b c s)
  pub remove_all : (a : String) {s : S} → P s → P (os.remove_all a s).0
  pub remove : (a : String) {s : S} → P s → P (os.remove a s).0
  pub update_mmdb : {s : S} → P s → P (os.update_mmdb s).0
  pub update_asn : {s : S} → P s → P (os.update_asn s).0
  pub update_geo_ip : {s : S} → P s → P (os.update_geo_ip s).0
  pub update_geo_site : {s : S} → P s → P (os.update_geo_site s).0
  pub side_update :
      (t : S) (name : String) (update : String → S → S × Option String) (content : String) {s : S}
      → os.providers t name ≡ some (proxy_set update)
      → P s
      → P (update content s).0
