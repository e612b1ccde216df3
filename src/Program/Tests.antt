-- ===== src/Program/Tests.antt =====
-- A run of the program: an init, a setup, an event of mihomo that goes to logcat, and a DNS message.
use libmihomo_android.Base.{
  ℕ, suc, String, pos, Bool, true, false, none, some, List, [], ◌∷◌, ok, err, ◌≡◌, refl,
}
use libmihomo_android.Bridge.Host.{string}
use libmihomo_android.Bridge.Reply.{World}
use libmihomo_android.Bridge.Tests.{handlers, json, os}
use libmihomo_android.Config.Apply.{load_raw, execute, handle_get_config}
use libmihomo_android.Lifecycle.{handle_init_clash}
use libmihomo_android.Config.Update.{Config, Globals, update_listeners}
use libmihomo_android.Config.Update.Merges.{globals_of}
use libmihomo_android.Config.UpdateTests.{counting, general, config}
use libmihomo_android.Config.Read.{found, read_file}
use libmihomo_android.GeoUpdate.{start_geo_updater}
use libmihomo_android.DnsQuery.Service.{resolver, Msg}
use libmihomo_android.Program.{Program, Outside, fresh}
use libmihomo_android.Program.Calls.{init_clash, setup_config, start_listener}
use libmihomo_android.Program.Runs.{
  Input, action, mihomo_event, loop_turn, dns_message, suspend, update_dns, start_tun_call,
  stop_tun_call, quick_setup_call, geo_turn,
}
use libmihomo_android.Program.Coherent.Applied.{Relies}
use libmihomo_android.Program.Coherent.Always.{Runs, fresh-IsCoherent}
use libmihomo_android.Program.Owed.{Releases, run-Releases}

-- Mihomo's settings after the executor.
abbrev settings : Config ℕ → Globals → Globals
settings c g = globals_of c.general

-- The rest of the system is a count of calls; a raw config is whether it has groups.
abbrev outside : Outside ℕ ℕ Bool ℕ String Bool
outside = record {
  init_params = λ s. ok (record { home_dir = s; version = pos 33 });
  update_params = λ s. err s;
  selected_map = λ s. ok (λ name. none);
  order_json = λ names. "order";
  queries_json = λ qs. "queries";
  config_path = λ home. home;
  reader = record { stat = λ path s. found; read = λ path s. ok path };
  text_of = λ s. 47 ∷ [];
  dir_of = λ p. [];
  crash_path = λ p. 99 ∷ p;
  path_error = λ p s. "cannot open";
  sink_os = record {
    can_mkdir = λ p. true;
    can_open = λ p. true;
    can_stat = λ p. true;
    can_crash = λ p. true;
    can_remove = λ p. true;
    can_rename = λ p q. true;
  };
  stamp = λ n. [];
  overflow = λ n. n ∷ [];
  now = λ s. s;
  loader = record {
    unmarshal = λ b. ok true;
    groups = λ raw. [];
    parse = λ raw. ok config;
    default_raw = false;
  };
  listeners = counting;
  cleanup = λ l. 0;
  execute = λ c e. record e { globals = settings c e.globals; service = some (resolver true) };
  proxies = λ s. [];
  force = λ picks s. s;
  geo_settings = λ s. record {
    auto_update = true;
    update_interval = pos 24;
    geo_ip_enable = true;
    geodata_mode = false;
    asn_enable = true;
    geo_site_enable = true;
  };
  geo_disk = record {
    stat = λ p s. none;
    chtimes = λ p t s. s;
    update_geo_databases = λ s. (s, none);
  };
  geo_paths = record { geo_ip = ""; mmdb = ""; asn = ""; geo_site = "" };
  mihomo = record {
    on_suspend = λ s. s;
    on_running = λ s. s;
    reset_statistic = λ s. s;
    reset_connection = λ s. suc s;
    now = λ s. (pos 1, pos 2);
    total = λ s. (pos 3, pos 4);
    memory = λ s. 5;
    update_system_dns = λ servers s. s;
    flush_cache = λ s. s;
    run_gc = λ s. s;
    free_os_memory = λ s. s;
  };
  encoder = record { up_down = λ counts. "{}"; format_uint = λ n. "5" };
  tables = record { type_name = λ n. n ∷ []; rcode_name = λ n. n ∷ [] };
  ask = λ r msg. (some msg, none);
  clock = λ msg. (1, 2);
  debug = false;
  others = λ c. handlers;
  os = os;
}

outside-Relies : Relies outside
outside-Relies = record {
  set_all = λ c e. record { agree = refl };
  renewed = λ c e. tt;
  default_config = config;
  default_parses = refl;
  release = refl;
}

abbrev message : Msg
message = record { question = record { name = 97 ∷ []; qtype = 1 } ∷ []; answer = []; rcode = 0 }

abbrev inputs : List Input
inputs =
    action 4 false (ok (record { id = "1"; method = "initClash"; data_ = string "/home" }))
    ∷ action 5 false (ok (record { id = "2"; method = "setupConfig"; data_ = string "{}" }))
    ∷ mihomo_event (pos 1) (104 ∷ [])
    ∷ loop_turn true
    ∷ dns_message message
    ∷ action 5 false (ok (record { id = "3"; method = "startListener"; data_ = string "" }))
    ∷ action 8 true (ok (record { id = "4"; method = "updateConfig"; data_ = string "{}" }))
    ∷ action 9 false (ok (record { id = "5"; method = "getDnsQueries"; data_ = string "" }))
    ∷ suspend true
    ∷ update_dns (49 ∷ 44 ∷ 50 ∷ [])
    ∷ geo_turn 7 9
    ∷ start_tun_call 6 (pos 40) (some 1)
    ∷ quick_setup_call 7 "/home" "{}"
    ∷ stop_tun_call
    ∷ []

abbrev at_start : World (Program ℕ ℕ Bool ℕ)
at_start = record {
  state = record { core = fresh (λ p. none) (globals_of general) 0 none; rest = 0 };
  events = [];
}

abbrev set_up_program : Program ℕ ℕ Bool ℕ
set_up_program = (setup_config outside "{}" (init_clash outside "/home" at_start.state).0).0

abbrev listening_program : Program ℕ ℕ Bool ℕ
listening_program = (start_listener outside set_up_program).0

set_up_first : (setup_config outside "{}" at_start.state).1 ≡ "not initialized"
unfolding setup_config
set_up_first = refl

program_listens :
    (listening_program.core.geo_started ≡ true)
    × (listening_program.core.listening ≡ 13)
    × (listening_program.rest ≡ 1)
unfolding read_file start_geo_updater setup_config init_clash handle_init_clash start_listener
    update_listeners load_raw execute handle_get_config
program_listens = (refl, refl, refl)

run-Releases_example : Releases outside json 5 inputs at_start
run-Releases_example =
    run-Releases outside json 5 outside-Relies inputs at_start
      (fresh-IsCoherent outside outside-Relies json (λ p. none) (globals_of general) 0 none)

abbrev initialised : World (Program ℕ ℕ Bool ℕ)
initialised = record { state = (init_clash outside "/home" at_start.state).0; events = [] }
