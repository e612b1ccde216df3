-- ===== src/Bridge/Host.antt =====
-- What `handleAction` calls: the handlers of the other files, which read and change the state of the
-- program, with the decoder of encoding/json, the file system and the provider and geo packages.
use libmihomo_android.Base.{Option, String, ℤ, Bool, List, Outcome}
use libmihomo_android.Bridge.Reply.{ActionResult}

-- `action.Data`. A `float64` is given by the integer `int(v)`.
pub data Data : Type 0 where
  string : String → Data
  float64 : ℤ → Data
  int : ℤ → Data
  bool : Bool → Data
  other : Data

pub record ChangeProxyParams : Type 0 where
  pub group_name : Option String
  pub proxy_name : Option String

pub record TestDelayParams : Type 0 where
  pub proxy_name : String
  pub test_url : String
  pub timeout : ℤ

pub record TestGroupsParams : Type 0 where
  pub group_names : List String
  pub test_url : String
  pub timeout : ℤ

pub record HostLogParams : Type 0 where
  pub level : ℤ
  pub tag : String
  pub payload : String

pub record ProviderParams : Type 0 where
  pub type_ : String
  pub name : String

-- `os.Stat`
pub data FileInfo : Type 0 where
  missing : FileInfo
  unreadable : String → FileInfo
  directory : FileInfo
  file : FileInfo

-- A provider as `handleSideLoadExternalProvider` tells them apart.
pub data Provider (S : Type 0) : Type 0 where
  compatible : Provider S
  proxy_set : (String → S → S × Option String) → Provider S
  rule_set : Provider S

pub record Json (V : Type 0) : Type 0 where
  pub marshal : ActionResult V → Option String
  pub string_map : String → Outcome (String → String)
  pub change_proxy : String → Outcome ChangeProxyParams
  pub test_delay : String → Outcome TestDelayParams
  pub test_groups : String → Outcome TestGroupsParams
  pub provider : String → Outcome ProviderParams
  pub host_log : String → Outcome HostLogParams

pub record Os (S : Type 0) : Type 0 where
  pub stat : String → S → FileInfo
  pub remove_all : String → S → S × Option String
  pub remove : String → S → S × Option String
  pub providers : S → String → Option (Provider S)
  pub update_mmdb : S → S × Option String
  pub update_asn : S → S × Option String
  pub update_geo_ip : S → S × Option String
  pub update_geo_site : S → S × Option String
  pub lookup_code : String → S → List String
  pub level_mapping : String → Option ℤ

pub record Handlers (S V : Type 0) : Type 0 where
  pub init_clash : String → S → S × Bool
  pub get_is_init : S → Bool
  pub force_gc : S → S
  pub validate_config : String → S → S × String
  pub update_config : String → S → S × String
  pub setup_config : String → S → S × String
  pub get_config : String → S → S × Outcome V
  pub reset_traffic : S → S
  pub reset_connections : S → S × Bool
  pub start_log : S → S
  pub stop_log : S → S
  pub start_listener : S → S × Bool
  pub stop_listener : S → S × Bool
  pub crash : S → S
  pub get_proxies : S → String
  pub change_proxy : String → String → S → S × Option String
  pub async_test_delay : String → String → ℤ → S → S × ℤ
  pub test_groups : List String → String → ℤ → S → S × String
  pub probe_current_proxy_ip : String → S → S × String
  pub query_external_providers : S → String
  pub get_external_provider : String → String → S → String
  pub update_external_provider : String → String → S → S × String
  pub get_traffic : S → String
  pub get_total_traffic : S → String
  pub get_memory : S → String
  pub get_connections : S → String
  pub query_proxy_group_order : S → String
  pub subscribe_connections : S → S
  pub unsubscribe_connections : S → S
  pub close_connection : String → S → S × Bool
  pub close_all_connections : S → S × Bool
  pub get_dns_queries : S → S × String
  pub clear_dns_queries : S → S
  pub set_logcat_level : ℤ → S → S
  pub set_file_level : ℤ → S → S
  pub set_file_enabled : Bool → S → S
  pub set_log_file_path : String → S → S × Option String
  pub host_log : ℤ → String → String → S → S
