-- ===== src/Program/Handled.antt =====
-- The handlers that `handleAction` is given: those of Calls, and the others, which only read the core.
use libmihomo_android.Base.{Bool, Option, none, some}
use libmihomo_android.Bridge.Host.{Handlers, Os, Provider, compatible, proxy_set, rule_set}
use libmihomo_android.Bridge.Tunnel.{
  handle_force_gc, handle_reset_traffic, handle_reset_connections, handle_get_traffic,
  handle_get_total_traffic, handle_get_memory,
}
use libmihomo_android.Program.{Core, Program, Outside}
use libmihomo_android.Program.Calls.{
  crash, init_clash, update_config, start_listener, stop_listener, setup_config, validate_config,
  get_config, query_proxy_group_order, get_dns_queries, clear_dns_queries, put_logcat_level,
  put_file_level, enable_file, put_log_file_path, host_log,
}

module _ {V L R S : Type 0} where
  abbrev pub on_rest : (Core V L R → S → S) → Program V L R S → Program V L R S
  on_rest f p = record p { rest = f p.core p.rest }

  abbrev pub through :
      {A : Type 0} → (Core V L R → S → S × A) → Program V L R S → Program V L R S × A
  through f p = (record p { rest = (f p.core p.rest).0 }, (f p.core p.rest).1)

  abbrev pub provider_on : Provider S → Provider (Program V L R S)
  provider_on compatible = compatible
  provider_on (proxy_set update) = proxy_set (λ content. through (λ c. update content))
  provider_on rule_set = rule_set

  abbrev pub provider_of : Option (Provider S) → Option (Provider (Program V L R S))
  provider_of none = none
  provider_of (some p) = some (provider_on p)

  -- What the system does for the handlers of files and of the geo databases. That `deleteFile` can take a file
  -- of the log sink away is not modelled: the files of the sink are its own.
  abbrev pub os_on : Os S → Os (Program V L R S)
  os_on os = record {
    stat = λ path p. os.stat path p.rest;
    remove_all = λ path. through (λ c. os.remove_all path);
    remove = λ path. through (λ c. os.remove path);
    providers = λ p name. provider_of (os.providers p.rest name);
    update_mmdb = through (λ c. os.update_mmdb);
    update_asn = through (λ c. os.update_asn);
    update_geo_ip = through (λ c. os.update_geo_ip);
    update_geo_site = through (λ c. os.update_geo_site);
    lookup_code = λ ip p. os.lookup_code ip p.rest;
    level_mapping = os.level_mapping;
  }

  -- `nil_seen` is that of `update_config`.
  abbrev pub handlers :
      {B Raw : Type 0} → Outside V L R S B Raw → Bool → Handlers (Program V L R S) Raw
  handlers out nil_seen = record {
    init_clash = init_clash out;
    get_is_init = λ p. p.core.life.is_init;
    force_gc = on_rest (λ c. handle_force_gc out.mihomo);
    validate_config = validate_config out;
    update_config = update_config out nil_seen;
    setup_config = setup_config out;
    get_config = get_config out;
    reset_traffic = on_rest (λ c. handle_reset_traffic out.mihomo);
    reset_connections = through (λ c. handle_reset_connections out.mihomo);
    start_log = on_rest (λ c. (out.others c).start_log);
    stop_log = on_rest (λ c. (out.others c).stop_log);
    start_listener = start_listener out;
    stop_listener = stop_listener out;
    crash = crash out;
    get_proxies = λ p. (out.others p.core).get_proxies p.rest;
    change_proxy = λ group name. through (λ c. (out.others c).change_proxy group name);
    async_test_delay =
        λ name url timeout. through (λ c. (out.others c).async_test_delay name url timeout);
    test_groups = λ names url timeout. through (λ c. (out.others c).test_groups names url timeout);
    probe_current_proxy_ip = λ mode. through (λ c. (out.others c).probe_current_proxy_ip mode);
    query_external_providers = λ p. (out.others p.core).query_external_providers p.rest;
    get_external_provider =
        λ kind name p. (out.others p.core).get_external_provider kind name p.rest;
    update_external_provider =
        λ kind name. through (λ c. (out.others c).update_external_provider kind name);
    get_traffic = λ p. handle_get_traffic out.mihomo out.encoder p.rest;
    get_total_traffic = λ p. handle_get_total_traffic out.mihomo out.encoder p.rest;
    get_memory = λ p. handle_get_memory out.mihomo out.encoder p.rest;
    get_connections = λ p. (out.others p.core).get_connections p.rest;
    query_proxy_group_order = query_proxy_group_order out;
    subscribe_connections = on_rest (λ c. (out.others c).subscribe_connections);
    unsubscribe_connections = on_rest (λ c. (out.others c).unsubscribe_connections);
    close_connection = λ id. through (λ c. (out.others c).close_connection id);
    close_all_connections = through (λ c. (out.others c).close_all_connections);
    get_dns_queries = get_dns_queries out;
    clear_dns_queries = clear_dns_queries out;
    set_logcat_level = put_logcat_level out;
    set_file_level = put_file_level out;
    set_file_enabled = enable_file out;
    set_log_file_path = put_log_file_path out;
    host_log = host_log out;
  }
