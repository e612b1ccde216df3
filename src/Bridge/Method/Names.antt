-- ===== src/Bridge/Method/Names.antt =====
-- The methods and their names, in both directions.
use libmihomo_android.Base.{
  String, ◌==◌, ◌≡◌, refl, sym, eq_iff, if_true, if_false, Bool-cases, inl, inr, List, [], ◌∷◌,
  Bool, true, false,
}
use mathlib.Core.Path.{subst}
use libmihomo_android.Bridge.Method.{
  Method, method_name, method_of, first_named, methods, other_method, message, init_clash,
  get_is_init, force_gc, validate_config, update_config, reset_traffic, reset_connections,
  get_country_code, update_geo_data, side_load_external_provider, start_log, stop_log,
  start_listener, stop_listener, crash, setup_config, get_config, delete_file, get_proxies,
  change_proxy, test_delay, test_groups, probe_current_proxy_ip, query_external_providers,
  get_external_provider, update_external_provider, get_traffic, get_total_traffic, get_memory,
  get_connections, query_proxy_group_order, subscribe_connections, unsubscribe_connections,
  close_connection, close_all_connections, set_logcat_level, set_file_level, set_file_enabled,
  set_log_file_path, forward_host_log, get_dns_queries, clear_dns_queries,
}

method_name-first_named :
    (name : String) (ms : List Method) → method_name (first_named name ms) ≡ name
unfolding method_name first_named
method_name-first_named name [] = refl
method_name-first_named name (m ∷ ms) = elim (Bool-cases (name == method_name m)) [
  | inl e ↦ subst (λ r. method_name r ≡ name) (sym (if_true _ _ e)) (sym ((eq_iff _ _).0 e))
  | inr e ↦
      subst (λ r. method_name r ≡ name) (sym (if_false _ _ e)) (method_name-first_named name ms)
]

-- The method that a name stands for has that name, also where `handleAction` has no case for it.
pub method_name-method_of : (name : String) → method_name (method_of name) ≡ name
unfolding method_of
method_name-method_of name = method_name-first_named name methods

-- Whether a method is one of constant.go.
unfoldable pub is_known : Method → Bool
is_known (other_method name) = false
is_known _ = true

-- The names of constant.go are different: a method of the file is reached under its own name, and no earlier
-- one takes it.
pub method_of-method_name : (m : Method) → is_known m ≡ true → method_of (method_name m) ≡ m
unfolding method_name method_of first_named is_known
method_of-method_name message e = refl
method_of-method_name init_clash e = refl
method_of-method_name get_is_init e = refl
method_of-method_name force_gc e = refl
method_of-method_name validate_config e = refl
method_of-method_name update_config e = refl
method_of-method_name reset_traffic e = refl
method_of-method_name reset_connections e = refl
method_of-method_name get_country_code e = refl
method_of-method_name update_geo_data e = refl
method_of-method_name side_load_external_provider e = refl
method_of-method_name start_log e = refl
method_of-method_name stop_log e = refl
method_of-method_name start_listener e = refl
method_of-method_name stop_listener e = refl
method_of-method_name crash e = refl
method_of-method_name setup_config e = refl
method_of-method_name get_config e = refl
method_of-method_name delete_file e = refl
method_of-method_name get_proxies e = refl
method_of-method_name change_proxy e = refl
method_of-method_name test_delay e = refl
method_of-method_name test_groups e = refl
method_of-method_name probe_current_proxy_ip e = refl
method_of-method_name query_external_providers e = refl
method_of-method_name get_external_provider e = refl
method_of-method_name update_external_provider e = refl
method_of-method_name get_traffic e = refl
method_of-method_name get_total_traffic e = refl
method_of-method_name get_memory e = refl
method_of-method_name get_connections e = refl
method_of-method_name query_proxy_group_order e = refl
method_of-method_name subscribe_connections e = refl
method_of-method_name unsubscribe_connections e = refl
method_of-method_name close_connection e = refl
method_of-method_name close_all_connections e = refl
method_of-method_name set_logcat_level e = refl
method_of-method_name set_file_level e = refl
method_of-method_name set_file_enabled e = refl
method_of-method_name set_log_file_path e = refl
method_of-method_name forward_host_log e = refl
method_of-method_name get_dns_queries e = refl
method_of-method_name clear_dns_queries e = refl
method_of-method_name (other_method name) e = cc
