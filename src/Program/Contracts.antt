-- ===== src/Program/Contracts.antt =====
-- A property of the core that every handler which changes the core keeps.
use libmihomo_android.Base.{String, ℤ, Bool, Option, none, some, ◌≡◌}
use mathlib.Core.Path.{subst}
use libmihomo_android.Bridge.Host.{Provider, compatible, proxy_set, rule_set}
use libmihomo_android.Bridge.Actions.Keeps.Contracts.{Contract}
use libmihomo_android.Program.{Core, Program, Outside}
use libmihomo_android.Program.Calls
use libmihomo_android.Program.Calls.{validate_config, get_config}
use libmihomo_android.Program.Handled.{os_on, handlers, provider_of}

pub record CoreContract {V L R S B Raw : Type 0} (out : Outside V L R S B Raw)
    (Q : Core V L R → Type 0) : Type 0 where
  pub init_clash :
      (a : String) (p : Program V L R S) → Q p.core → Q (Calls.init_clash out a p).0.core
  pub update_config :
      (nil_seen : Bool) (a : String) (p : Program V L R S)
      → Q p.core
      → Q (Calls.update_config out nil_seen a p).0.core
  pub crash : (p : Program V L R S) → Q p.core → Q (Calls.crash out p).core
  pub get_dns_queries : (p : Program V L R S) → Q p.core → Q (Calls.get_dns_queries out p).0.core
  pub setup_config :
      (a : String) (p : Program V L R S) → Q p.core → Q (Calls.setup_config out a p).0.core
  pub start_listener : (p : Program V L R S) → Q p.core → Q (Calls.start_listener out p).0.core
  pub stop_listener : (p : Program V L R S) → Q p.core → Q (Calls.stop_listener out p).0.core
  pub clear_dns_queries : (p : Program V L R S) → Q p.core → Q (Calls.clear_dns_queries out p).core
  pub put_logcat_level :
      (a : ℤ) (p : Program V L R S) → Q p.core → Q (Calls.put_logcat_level out a p).core
  pub put_file_level :
      (a : ℤ) (p : Program V L R S) → Q p.core → Q (Calls.put_file_level out a p).core
  pub enable_file : (a : Bool) (p : Program V L R S) → Q p.core → Q (Calls.enable_file out a p).core
  pub put_log_file_path :
      (a : String) (p : Program V L R S) → Q p.core → Q (Calls.put_log_file_path out a p).0.core
  pub host_log :
      (level : ℤ) (tag payload : String) (p : Program V L R S)
      → Q p.core
      → Q (Calls.host_log out level tag payload p).core

module _ {V L R S B Raw : Type 0} (out : Outside V L R S B Raw) (Q : Core V L R → Type 0)
    (k : CoreContract out Q) where
  -- What a provider does with an update; the others do nothing.
  abbrev update_of :
      Option (Provider (Program V L R S))
      → String
      → Program V L R S
      → Program V L R S × Option String
  update_of none content p = (p, none)
  update_of (some compatible) content p = (p, none)
  update_of (some rule_set) content p = (p, none)
  update_of (some (proxy_set update)) content p = update content p

  provider_of-keeps :
      (o : Option (Provider S)) (content : String) (p : Program V L R S)
      → Q p.core
      → Q (update_of (provider_of o) content p).0.core
  provider_of-keeps none content p v = v
  provider_of-keeps (some compatible) content p v = v
  provider_of-keeps (some rule_set) content p v = v
  provider_of-keeps (some (proxy_set update)) content p v = v

  side_update-keeps :
      (o : Option (Provider S))
      (update : String → Program V L R S → Program V L R S × Option String) (content : String)
      (p : Program V L R S)
      → provider_of o ≡ some (proxy_set update)
      → Q p.core
      → Q (update content p).0.core
  side_update-keeps o update content p e v =
      subst (λ o. Q (update_of o content p).0.core) e (provider_of-keeps o content p v)

  pub handlers-Contract :
      (nil_seen : Bool)
      → Contract (λ (p : Program V L R S). Q p.core) (os_on out.os) (handlers out nil_seen)
  unfolding validate_config get_config
  handlers-Contract nil_seen = record {
    init_clash = λ text {s} v. k.init_clash text s v;
    force_gc = λ v. v;
    validate_config = λ path v. v;
    update_config = λ text {s} v. k.update_config nil_seen text s v;
    setup_config = λ text {s} v. k.setup_config text s v;
    get_config = λ path v. v;
    reset_traffic = λ v. v;
    reset_connections = λ v. v;
    start_log = λ v. v;
    stop_log = λ v. v;
    start_listener = λ {s} v. k.start_listener s v;
    stop_listener = λ {s} v. k.stop_listener s v;
    crash = λ {s} v. k.crash s v;
    change_proxy = λ group name v. v;
    async_test_delay = λ name url timeout v. v;
    test_groups = λ names url timeout v. v;
    probe_current_proxy_ip = λ mode v. v;
    update_external_provider = λ kind name v. v;
    subscribe_connections = λ v. v;
    unsubscribe_connections = λ v. v;
    close_connection = λ id v. v;
    close_all_connections = λ v. v;
    get_dns_queries = λ {s} v. k.get_dns_queries s v;
    clear_dns_queries = λ {s} v. k.clear_dns_queries s v;
    set_logcat_level = λ level {s} v. k.put_logcat_level level s v;
    set_file_level = λ level {s} v. k.put_file_level level s v;
    set_file_enabled = λ on {s} v. k.enable_file on s v;
    set_log_file_path = λ path {s} v. k.put_log_file_path path s v;
    host_log = λ level tag payload {s} v. k.host_log level tag payload s v;
    remove_all = λ path v. v;
    remove = λ path v. v;
    update_mmdb = λ v. v;
    update_asn = λ v. v;
    update_geo_ip = λ v. v;
    update_geo_site = λ v. v;
    side_update = λ t name update content {s} e v.
        side_update-keeps (out.os.providers t.rest name) update content s e v;
  }
