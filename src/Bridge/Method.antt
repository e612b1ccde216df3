-- ===== src/Bridge/Method.antt =====
-- The methods of constant.go: the enumeration, and the names by which the host asks for them.
pub mod Names
use libmihomo_android.Base.{String, ◌==◌, if◌then◌else◌, List, [], ◌∷◌}

pub data Method : Type 0 where
  message : Method
  init_clash : Method
  get_is_init : Method
  force_gc : Method
  validate_config : Method
  update_config : Method
  reset_traffic : Method
  reset_connections : Method
  get_country_code : Method
  update_geo_data : Method
  side_load_external_provider : Method
  start_log : Method
  stop_log : Method
  start_listener : Method
  stop_listener : Method
  crash : Method
  setup_config : Method
  get_config : Method
  delete_file : Method
  get_proxies : Method
  change_proxy : Method
  test_delay : Method
  test_groups : Method
  probe_current_proxy_ip : Method
  query_external_providers : Method
  get_external_provider : Method
  update_external_provider : Method
  get_traffic : Method
  get_total_traffic : Method
  get_memory : Method
  get_connections : Method
  query_proxy_group_order : Method
  subscribe_connections : Method
  unsubscribe_connections : Method
  close_connection : Method
  close_all_connections : Method
  set_logcat_level : Method
  set_file_level : Method
  set_file_enabled : Method
  set_log_file_path : Method
  forward_host_log : Method
  get_dns_queries : Method
  clear_dns_queries : Method
  other_method : String → Method

unfoldable pub method_name : Method → String
method_name message = "message"
method_name init_clash = "initClash"
method_name get_is_init = "getIsInit"
method_name force_gc = "forceGc"
method_name validate_config = "validateConfig"
method_name update_config = "updateConfig"
method_name reset_traffic = "resetTraffic"
method_name reset_connections = "resetConnections"
method_name get_country_code = "getCountryCode"
method_name update_geo_data = "updateGeoData"
method_name side_load_external_provider = "sideLoadExternalProvider"
method_name start_log = "startLog"
method_name stop_log = "stopLog"
method_name start_listener = "startListener"
method_name stop_listener = "stopListener"
method_name crash = "crash"
method_name setup_config = "setupConfig"
method_name get_config = "getConfig"
method_name delete_file = "deleteFile"
method_name get_proxies = "getProxies"
method_name change_proxy = "changeProxy"
method_name test_delay = "testDelay"
method_name test_groups = "testGroups"
method_name probe_current_proxy_ip = "probeCurrentProxyIp"
method_name query_external_providers = "queryExternalProviders"
method_name get_external_provider = "getExternalProvider"
method_name update_external_provider = "updateExternalProvider"
method_name get_traffic = "getTraffic"
method_name get_total_traffic = "getTotalTraffic"
method_name get_memory = "getMemory"
method_name get_connections = "getConnections"
method_name query_proxy_group_order = "queryProxyGroupOrder"
method_name subscribe_connections = "subscribeConnections"
method_name unsubscribe_connections = "unsubscribeConnections"
method_name close_connection = "closeConnection"
method_name close_all_connections = "closeAllConnections"
method_name set_logcat_level = "setLogcatLevel"
method_name set_file_level = "setFileLevel"
method_name set_file_enabled = "setFileEnabled"
method_name set_log_file_path = "setLogFilePath"
method_name forward_host_log = "forwardHostLog"
method_name get_dns_queries = "getDnsQueries"
method_name clear_dns_queries = "clearDnsQueries"
method_name (other_method name) = name

-- The methods that `handleAction` has cases for, and that of the listener's messages.
abbrev pub methods : List Method
methods =
    message ∷ init_clash ∷ get_is_init ∷ force_gc ∷ validate_config ∷ update_config ∷ reset_traffic
    ∷ reset_connections ∷ get_country_code ∷ update_geo_data ∷ side_load_external_provider
    ∷ start_log ∷ stop_log ∷ start_listener ∷ stop_listener ∷ crash ∷ setup_config ∷ get_config
    ∷ delete_file ∷ get_proxies ∷ change_proxy ∷ test_delay ∷ test_groups ∷ probe_current_proxy_ip
    ∷ query_external_providers ∷ get_external_provider ∷ update_external_provider ∷ get_traffic
    ∷ get_total_traffic ∷ get_memory ∷ get_connections ∷ query_proxy_group_order
    ∷ subscribe_connections ∷ unsubscribe_connections ∷ close_connection ∷ close_all_connections
    ∷ set_logcat_level ∷ set_file_level ∷ set_file_enabled ∷ set_log_file_path ∷ forward_host_log
    ∷ get_dns_queries ∷ clear_dns_queries ∷ []

-- The first method of a list that has the name.
unfoldable pub first_named : String → List Method → Method
unfolding method_name
first_named name [] = other_method name
first_named name (m ∷ ms) = if name == method_name m then m else first_named name ms

-- The method that a name stands for, as the switch of `handleAction` compares it.
unfoldable pub method_of : String → Method
unfolding first_named
method_of name = first_named name methods
